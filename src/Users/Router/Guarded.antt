-- ===== src/Users/Router/Guarded.antt =====
-- Outcomes that hand out a credential only to an active user.
use fast_tak.Base.{
  ℕ, String, ◌<>◌, ◌≡◌, refl, Bool, true, false, not, Option, none, some, [], All, if◌then◌else◌,
  string_eq,
}
use fast_tak.Base.Result.{Result, ok, err, http_exception}
use fast_tak.Users.Router.{
  User, Call, deactivate_user, mark_certs_revoked, revoke_all_user_certs, set_password,
  get_or_create_enrollment_token, generate_client_cert, Backend, Reply, Outcome, then_do, done,
  mark_if, revoke_if, delete_found, password_for, enroll_found, validity_days, generate_for,
  generate_found, Request, delete, enroll, password, generate, revoke, download, groups,
}

-- The call gives somebody a way in: a password, a token for an enrollment, or a certificate.
abbrev pub is_credential : Call → Bool
is_credential (set_password id text) = true
is_credential (get_or_create_enrollment_token id) = true
is_credential (generate_client_cert file days cn) = true
is_credential _ = false

-- The user that a request is about.
abbrev pub target : Request → ℕ
target (delete id) = id
target (enroll id) = id
target (password id text) = id
target (generate id name) = id
target (revoke id cert_id cert_name) = id
target (download id name) = id
target (groups id names) = id

-- No call gives a way in, except to an active user.
abbrev pub IsGuarded : User → Outcome → Type 0
IsGuarded user o = All (λ c. is_credential c ≡ true → user.is_active ≡ true) o.0

pub then_do-IsGuarded {ℓ} :
    {A : Type ℓ} (user : User) (c : Call) (r : Result A) (rest : A → Outcome)
    → (is_credential c ≡ true → user.is_active ≡ true)
    → ((a : A) → IsGuarded user (rest a))
    → IsGuarded user (then_do c r rest)
unfolding then_do
then_do-IsGuarded user c (ok a) rest own all = (own, all a)
then_do-IsGuarded user c (err e) rest own all = (own, tt)

pub delete_found-IsGuarded :
    (b : Backend) (id : ℕ) (user : User) → IsGuarded user (delete_found b id user)
unfolding delete_found
delete_found-IsGuarded b id user =
    then_do-IsGuarded user (deactivate_user id) (b.deactivates id) _ (λ h. cc)
      (λ _. by_client b.has_tak_server)
  where
    by_answer : (whole : Bool) → IsGuarded user (mark_if b id whole)
    by_answer true =
        unfold mark_if in
        then_do-IsGuarded user (mark_certs_revoked id) (b.marks id) (λ _. done) (λ h. cc) (λ _. tt)
    by_answer false = unfold mark_if in tt

    by_client : (has : Bool) → IsGuarded user (revoke_if b id user.username has)
    by_client true =
        unfold revoke_if in
        then_do-IsGuarded user (revoke_all_user_certs user.username) (b.revokes_all user.username)
          (mark_if b id) (λ h. cc) by_answer
    by_client false = unfold revoke_if in tt

-- What a refusal of inactive users guards.
unless_inactive :
    (user : User) (b : Bool) (r : Result Reply) (o : Outcome)
    → (b ≡ true → IsGuarded user o)
    → IsGuarded user (if not b then ([], r) else o)
unless_inactive user true r o guarded = guarded refl
unless_inactive user false r o guarded = tt

pub password_for-IsGuarded :
    (b : Backend) (id : ℕ) (text : String) (user : User)
    → IsGuarded user (password_for b id text user)
unfolding password_for
password_for-IsGuarded b id text user = unless_inactive user user.is_active _ _ (λ active.
    then_do-IsGuarded user (set_password id text) (b.sets_password id) (λ _. done) (λ h. active)
      (λ _. tt))

pub enroll_found-IsGuarded :
    (b : Backend) (id : ℕ) (user : User) → IsGuarded user (enroll_found b id user)
unfolding enroll_found
enroll_found-IsGuarded b id user = unless_inactive user user.is_active _ _ (λ active.
    then_do-IsGuarded user (get_or_create_enrollment_token id) (b.token_of id) _ (λ h. active)
      (λ _. tt))

generate_for-IsGuarded :
    (b : Backend) (name : String) (user : User) (days : Option ℕ)
    → user.is_active ≡ true
    → IsGuarded user (generate_for b name user.username days)
unfolding generate_for
generate_for-IsGuarded b name user none active = tt
generate_for-IsGuarded b name user (some days) active = ((λ h. active), tt)

pub generate_found-IsGuarded :
    (b : Backend) (name : String) (user : User) → IsGuarded user (generate_found b name user)
unfolding generate_found
generate_found-IsGuarded b name user =
    unless_inactive user user.is_active _ _
      (λ active. by_file active (b.exists_p12 (user.username <> "-" <> name)))
  where
    by_file :
        user.is_active ≡ true
        → (taken : Bool)
        → IsGuarded user (
            if taken
            then ([], err (http_exception 409 "Certificate already exists for this user"))
            else generate_for b name user.username (validity_days b.now user.fastak_expires))
    by_file active true = tt
    by_file active false =
        generate_for-IsGuarded b name user (validity_days b.now user.fastak_expires) active
