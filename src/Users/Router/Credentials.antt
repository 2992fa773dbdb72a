-- ===== src/Users/Router/Credentials.antt =====
-- Who is handed a credential, whatever the request.
use fast_tak.Base.{
  ℕ, String, ◌<>◌, ◌≡◌, refl, Bool, true, false, ◌&&◌, Option, none, some, List, [], ◌∷◌, All-In,
  In, Bool-cases, inl, inr, if◌then◌else◌, ◌==◌, string_eq, ◌||◌,
}
use fast_tak.Base.Result.{Result, ok, err, http_exception}
use fast_tak.Users.Router.{
  User, AdminCert, Call, delete_enrollment_tokens, revoke_cert_by_name, revoke_cert_by_pem,
  revoke_cert, set_user_groups, Backend, Outcome, done, with_user, delete_found, password_for,
  enroll_found, generate_found, find_cert, delete_tokens, revoke_id, revoke_listed, revoke_name,
  revoke_found, is_revoked_serial, download_found, missing_groups, groups_if, groups_known,
  user_type, is_empty, groups_found, Request, delete, enroll, password, generate, revoke, download,
  groups, respond,
}
use fast_tak.Users.Router.Guarded.{
  is_credential, target, IsGuarded, then_do-IsGuarded, delete_found-IsGuarded,
  password_for-IsGuarded, enroll_found-IsGuarded, generate_found-IsGuarded,
}

delete_tokens-IsGuarded : (b : Backend) (id : ℕ) (user : User) → IsGuarded user (delete_tokens b id)
unfolding delete_tokens
delete_tokens-IsGuarded b id user =
    then_do-IsGuarded user (delete_enrollment_tokens id) (b.deletes_tokens id) (λ _. done) (λ h. cc)
      (λ _. tt)

revoke_id-IsGuarded :
    (b : Backend) (id : ℕ) (c : Option AdminCert) (user : User) → IsGuarded user (revoke_id b id c)
unfolding revoke_id
revoke_id-IsGuarded b id none user = tt
revoke_id-IsGuarded b id (some c) user = elim (Bool-cases (c.certificate_pem == "")) [
  | inl no_pem ↦ rw no_pem tt
  | inr pem ↦ elim (Bool-cases (b.revokes_pem c.certificate_pem)) [
    | inr failed ↦ rw (pem, failed) ((λ h. cc), tt)
    | inl revoked ↦
        rw (pem, revoked)
          (then_do-IsGuarded user (revoke_cert_by_pem c.certificate_pem) (ok tt) _ (λ h. cc)
            (λ _.
              then_do-IsGuarded user (revoke_cert c.cert_id) (b.revokes_cert c.cert_id) _ (λ h. cc)
                (λ _. delete_tokens-IsGuarded b id user)))
  ]
]

revoke_name-IsGuarded :
    (b : Backend) (id : ℕ) (file : String) (user : User) → IsGuarded user (revoke_name b id file)
unfolding revoke_name
revoke_name-IsGuarded b id file user = elim (Bool-cases (b.revokes_name file)) [
  | inr failed ↦ rw failed ((λ h. cc), tt)
  | inl revoked ↦ rw revoked (
      then_do-IsGuarded user (revoke_cert_by_name file) (ok tt) _ (λ h. cc)
        (λ _. delete_tokens-IsGuarded b id user))
]

revoke_found-IsGuarded :
    (b : Backend) (id : ℕ) (cert_id : Option ℕ) (cert_name : Option String) (user : User)
    → IsGuarded user (revoke_found b id cert_id cert_name user)
unfolding revoke_found
revoke_found-IsGuarded b id (some n) cert_name user = by_client b.has_tak_server
  where
    by_certs : (certs : Result (List AdminCert)) → IsGuarded user (revoke_listed b id n certs)
    by_certs (ok certs) = unfold revoke_listed in revoke_id-IsGuarded b id (find_cert n certs) user
    by_certs (err e) = unfold revoke_listed in tt

    by_client :
        (has : Bool)
        → IsGuarded user (
            if has
            then revoke_listed b id n (b.certs_of user.username)
            else ([], err (http_exception 503 "TAK Server not configured")))
    by_client true = by_certs (b.certs_of user.username)
    by_client false = tt
revoke_found-IsGuarded b id none (some name) user =
    revoke_name-IsGuarded b id (user.username <> "-" <> name) user
revoke_found-IsGuarded b id none none user = tt

download_found-IsGuarded :
    (b : Backend) (name : String) (user : User) → IsGuarded user (download_found b name user)
unfolding download_found
download_found-IsGuarded b name user =
    elim (Bool-cases (b.exists_p12 (user.username <> "-" <> name))) [
      | inr absent ↦ rw absent tt
      | inl there_is ↦
          elim (Bool-cases (
            b.exists_pem (user.username <> "-" <> name)
            && is_revoked_serial (b.serial_of (user.username <> "-" <> name)) b.revoked_serials)) [
              | inl revoked ↦ rw (there_is, revoked) tt
              | inr valid ↦ rw (there_is, valid) tt
            ]
    ]

groups_if-IsGuarded :
    (b : Backend) (id : ℕ) (names missing : List String) (user : User)
    → IsGuarded user (groups_if b id names missing)
unfolding groups_if
groups_if-IsGuarded b id names [] user =
    then_do-IsGuarded user (set_user_groups id names) (b.sets_groups id) (λ _. done) (λ h. cc)
      (λ _. tt)
groups_if-IsGuarded b id names (g ∷ missing) user = tt

groups_known-IsGuarded :
    (b : Backend) (id : ℕ) (names : List String) (existing : Result (List String)) (user : User)
    → IsGuarded user (groups_known b id names existing)
unfolding groups_known
groups_known-IsGuarded b id [] existing user = groups_if-IsGuarded b id [] [] user
groups_known-IsGuarded b id (g ∷ names) (ok existing) user =
    groups_if-IsGuarded b id (g ∷ names) (missing_groups (g ∷ names) existing) user
groups_known-IsGuarded b id (g ∷ names) (err e) user = tt

groups_found-IsGuarded :
    (b : Backend) (id : ℕ) (names : List String) (user : User)
    → IsGuarded user (groups_found b id names user)
unfolding groups_found
groups_found-IsGuarded b id names user =
    by_type (user_type user == "svc_admin")
      ((user_type user == "user" || user_type user == "svc_data") && is_empty names)
  where
    by_type :
        (admin none_given : Bool)
        → IsGuarded user (
            if admin
            then ([], err (http_exception 400 "Admin mode service accounts cannot have groups"))
            else if none_given
            then ([], err (http_exception 400 "Users require at least one group"))
            else groups_known b id names b.group_names)
    by_type true none_given = tt
    by_type false true = tt
    by_type false false = groups_known-IsGuarded b id names b.group_names user

In-with_user :
    (found : Result (Option User)) (rest : User → Outcome) (c : Call)
    → In c (with_user found rest).0
    → (user : User) × (found ≡ ok (some user)) × In c (rest user).0
unfolding with_user
In-with_user (ok (some user)) rest c i = (user, refl, i)
In-with_user (ok none) rest c i = elim i [ ]
In-with_user (err e) rest c i = elim i [ ]

guarded-In :
    (found : Result (Option User)) (rest : User → Outcome) (c : Call)
    → ((user : User) → IsGuarded user (rest user))
    → is_credential c ≡ true
    → In c (with_user found rest).0
    → (user : User) × (found ≡ ok (some user)) × (user.is_active ≡ true)
guarded-In found rest c guarded h i =
    let (user, e, made) = In-with_user found rest c i in
    (user, e, All-In (λ k. is_credential k ≡ true → user.is_active ≡ true) made (guarded user) h)

-- Whatever request is made and whatever the services answer, a password is set, an enrollment token is
-- asked for and a certificate is generated only where the identity client has returned the user of the
-- request, and that user is active.
pub respond_credentials :
    (is_name : String → Bool) (b : Backend) (r : Request) (c : Call)
    → In c (respond is_name b r).0
    → is_credential c ≡ true
    → (user : User) × (b.get_user (target r) ≡ ok (some user)) × (user.is_active ≡ true)
unfolding respond
respond_credentials is_name b (delete id) c i h =
    guarded-In (b.get_user id) (delete_found b id) c (delete_found-IsGuarded b id) h i
respond_credentials is_name b (enroll id) c i h =
    guarded-In (b.get_user id) (enroll_found b id) c (enroll_found-IsGuarded b id) h i
respond_credentials is_name b (password id text) c i h =
    guarded-In (b.get_user id) (password_for b id text) c (password_for-IsGuarded b id text) h i
respond_credentials is_name b (generate id name) c i h =
    guarded-In (b.get_user id) (generate_found b name) c (generate_found-IsGuarded b name) h i
respond_credentials is_name b (revoke id cert_id cert_name) c i h =
    guarded-In (b.get_user id) (revoke_found b id cert_id cert_name) c
      (revoke_found-IsGuarded b id cert_id cert_name) h i
respond_credentials is_name b (download id name) c i h = by_name (is_name name) i
  where
    by_name :
        (valid : Bool)
        → In c
            (if valid
              then with_user (b.get_user id) (download_found b name)
              else ([], err (http_exception 400 "Invalid certificate name"))).0
        → (user : User) × (b.get_user id ≡ ok (some user)) × (user.is_active ≡ true)
    by_name true j =
        guarded-In (b.get_user id) (download_found b name) c (download_found-IsGuarded b name) h j
    by_name false j = elim j [ ]
respond_credentials is_name b (groups id names) c i h =
    guarded-In (b.get_user id) (groups_found b id names) c (groups_found-IsGuarded b id names) h i
