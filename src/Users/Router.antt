-- ===== src/Users/Router.antt =====
-- The user routes (monitor/app/api/users/router.py): each handler with its guards, the calls that it
-- makes of the identity client, of TAK Server and of the certificate tools, and its reply. The answers
-- to those calls are given.
pub mod Guarded
pub mod Credentials
pub mod Certificates
use fast_tak.Base.{
  ℕ, zero, suc, String, ◌<>◌, ◌+◌, ◌-◌, ◌*◌, ◌/◌, ◌≡◌, Bool, true, false, not, ◌&&◌, ◌||◌, Option,
  none, some, List, [], ◌∷◌, ◌++◌, leb, ltb, ◌==◌, nat_eq, string_eq, contains, if◌then◌else◌,
}
use fast_tak.Base.Result.{Error, Result, ok, err, ◌>>=◌, http_exception}

-- What `get_user` returns, as far as the handlers read it. Times are in seconds.
pub record User : Type 0 where
  pub username : String
  pub is_active : Bool
  pub fastak_expires : Option ℕ
  pub fastak_user_type : Option String

pub record AdminCert : Type 0 where
  pub cert_id : ℕ
  pub certificate_pem : String

pub data Call : Type 0 where
  deactivate_user mark_certs_revoked delete_enrollment_tokens : ℕ → Call
  revoke_all_user_certs revoke_cert_by_name revoke_cert_by_pem : String → Call
  revoke_cert : ℕ → Call
  set_password : ℕ → String → Call
  get_or_create_enrollment_token : ℕ → Call
  generate_client_cert : String → ℕ → String → Call
  set_user_groups : ℕ → List String → Call

-- What the routes are answered, all through one request.
pub record Backend : Type 0 where
  pub now : ℕ
  pub get_user : ℕ → Result (Option User)
  pub has_tak_server : Bool
  pub deactivates : ℕ → Result (Unit {0})
  pub revokes_all : String → Result Bool
  pub marks : ℕ → Result (Unit {0})
  pub sets_password : ℕ → Result (Unit {0})
  pub token_of : ℕ → Result String
  pub exists_p12 : String → Bool
  pub exists_pem : String → Bool
  pub serial_of : String → Option String
  pub revoked_serials : List String
  pub generates : String → Bool
  pub certs_of : String → Result (List AdminCert)
  pub revokes_cert : ℕ → Result Bool
  pub revokes_pem : String → Bool
  pub revokes_name : String → Bool
  pub deletes_tokens : ℕ → Result (Unit {0})
  pub group_names : Result (List String)
  pub sets_groups : ℕ → Result (Unit {0})
  pub enrollment_url : String → String → String

pub data Reply : Type 0 where
  success : Reply
  enrolled : String → Reply
  generated : String → ℕ → Reply
  served : String → Reply

-- The calls that are made, in order, and the reply or the error.
abbrev pub Outcome : Type 0
Outcome = List Call × Result Reply

abbrev pub refuse : ℕ → String → Outcome
refuse status detail = ([], err (http_exception status detail))

-- A call, and what follows if it raises nothing.
unfoldable pub then_do {ℓ} : {A : Type ℓ} → Call → Result A → (A → Outcome) → Outcome
then_do c (ok a) rest = let (calls, reply) = rest a in (c ∷ calls, reply)
then_do c (err e) rest = (c ∷ [], err e)

abbrev pub done : Outcome
done = ([], ok success)

-- `user = ak.get_user(user_id)`, and 404 where there is none.
unfoldable pub with_user : Result (Option User) → (User → Outcome) → Outcome
with_user (ok (some user)) rest = rest user
with_user (ok none) rest = refuse 404 "User not found"
with_user (err e) rest = ([], err e)

unfoldable pub mark_if : Backend → ℕ → Bool → Outcome
mark_if b id true = then_do (mark_certs_revoked id) (b.marks id) (λ _. done)
mark_if b id false = done

unfoldable pub revoke_if : Backend → ℕ → String → Bool → Outcome
revoke_if b id username true =
    then_do (revoke_all_user_certs username) (b.revokes_all username) (mark_if b id)
revoke_if b id username false = done

unfoldable pub delete_found : Backend → ℕ → User → Outcome
delete_found b id user =
    then_do (deactivate_user id) (b.deactivates id)
      (λ _. revoke_if b id user.username b.has_tak_server)

unfoldable pub password_for : Backend → ℕ → String → User → Outcome
password_for b id password user =
    if not user.is_active
    then refuse 400 "Cannot set password for deactivated user"
    else then_do (set_password id password) (b.sets_password id) (λ _. done)

unfoldable pub enroll_found : Backend → ℕ → User → Outcome
enroll_found b id user =
    if not user.is_active
    then refuse 400 "Cannot enroll deactivated user"
    else then_do (get_or_create_enrollment_token id) (b.token_of id)
        (λ token. ([], ok (enrolled (b.enrollment_url token user.username))))

unfoldable pub min : ℕ → ℕ → ℕ
min a b = if leb a b then a else b

unfoldable pub max : ℕ → ℕ → ℕ
max a b = if leb a b then b else a

-- The days that a certificate is valid, or `none` for a user who has expired.
unfoldable pub validity_days : ℕ → Option ℕ → Option ℕ
validity_days now none = some 365
validity_days now (some expires) =
    if leb expires now then none else some (min 365 (max ((expires - now) / 86400) 1))

unfoldable pub generate_for : Backend → String → String → Option ℕ → Outcome
generate_for b name username none = refuse 400 "User has already expired"
generate_for b name username (some days) =
    let file = username <> "-" <> name in
    (
      generate_client_cert file days username ∷ [],
      if b.generates file
          then ok (generated file days)
          else err (http_exception 500 "Cert generation failed"),
    )

unfoldable pub generate_found : Backend → String → User → Outcome
generate_found b name user =
    if not user.is_active
    then refuse 400 "Cannot generate cert for deactivated user"
    else if b.exists_p12 (user.username <> "-" <> name)
    then refuse 409 "Certificate already exists for this user"
    else generate_for b name user.username (validity_days b.now user.fastak_expires)

unfoldable pub find_cert : ℕ → List AdminCert → Option AdminCert
find_cert id [] = none
find_cert id (c ∷ certs) = if c.cert_id == id then some c else find_cert id certs

-- The tokens go on both paths, after the revocation list has the certificate.
unfoldable pub delete_tokens : Backend → ℕ → Outcome
delete_tokens b id = then_do (delete_enrollment_tokens id) (b.deletes_tokens id) (λ _. done)

unfoldable pub revoke_id : Backend → ℕ → Option AdminCert → Outcome
revoke_id b id none = refuse 404 "Certificate not found"
revoke_id b id (some c) =
    if c.certificate_pem == ""
    then refuse 500 "Cannot revoke: cert PEM not available from TAK Server"
    else if b.revokes_pem c.certificate_pem
    then then_do {A = Unit {0}} (revoke_cert_by_pem c.certificate_pem) (ok tt)
        (λ _. then_do (revoke_cert c.cert_id) (b.revokes_cert c.cert_id) (λ _. delete_tokens b id))
    else (
      revoke_cert_by_pem c.certificate_pem ∷ [],
      err (http_exception 500 "CRL revocation failed"),
    )

unfoldable pub revoke_listed : Backend → ℕ → ℕ → Result (List AdminCert) → Outcome
revoke_listed b id cert_id (ok certs) = revoke_id b id (find_cert cert_id certs)
revoke_listed b id cert_id (err e) = ([], err e)

unfoldable pub revoke_name : Backend → ℕ → String → Outcome
revoke_name b id file =
    if b.revokes_name file
    then then_do {A = Unit {0}} (revoke_cert_by_name file) (ok tt) (λ _. delete_tokens b id)
    else (revoke_cert_by_name file ∷ [], err (http_exception 500 "Revocation failed"))

unfoldable pub revoke_found : Backend → ℕ → Option ℕ → Option String → User → Outcome
revoke_found b id (some cert_id) cert_name user =
    if b.has_tak_server
    then revoke_listed b id cert_id (b.certs_of user.username)
    else refuse 503 "TAK Server not configured"
revoke_found b id none (some name) user = revoke_name b id (user.username <> "-" <> name)
revoke_found b id none none user = refuse 400 "Provide either cert_id or cert_name"

-- `serial and serial in _get_revoked_serials()`
unfoldable pub is_revoked_serial : Option String → List String → Bool
is_revoked_serial none revoked = false
is_revoked_serial (some serial) revoked = not (serial == "") && contains revoked serial

unfoldable pub download_found : Backend → String → User → Outcome
download_found b name user =
    let file = user.username <> "-" <> name in
    if not (b.exists_p12 file)
    then refuse 404 "Certificate not found"
    else if b.exists_pem file && is_revoked_serial (b.serial_of file) b.revoked_serials
    then refuse 403 "Certificate has been revoked"
    else ([], ok (served file))

unfoldable pub missing_groups : List String → List String → List String
missing_groups [] existing = []
missing_groups (g ∷ groups) existing =
    let rest = missing_groups groups existing in if contains existing g then rest else g ∷ rest

unfoldable pub groups_if : Backend → ℕ → List String → List String → Outcome
groups_if b id groups [] = then_do (set_user_groups id groups) (b.sets_groups id) (λ _. done)
groups_if b id groups (g ∷ missing) = refuse 400 "Groups do not exist. Create them first."

unfoldable pub groups_known : Backend → ℕ → List String → Result (List String) → Outcome
groups_known b id [] existing = groups_if b id [] []
groups_known b id (g ∷ groups) (ok existing) =
    groups_if b id (g ∷ groups) (missing_groups (g ∷ groups) existing)
groups_known b id (g ∷ groups) (err e) = ([], err e)

abbrev pub user_type : User → String
user_type user = elim user.fastak_user_type [ none ↦ "user" | some t ↦ t ]

unfoldable pub is_empty : List String → Bool
is_empty [] = true
is_empty (x ∷ xs) = false

unfoldable pub groups_found : Backend → ℕ → List String → User → Outcome
groups_found b id groups user =
    if user_type user == "svc_admin"
    then refuse 400 "Admin mode service accounts cannot have groups"
    else if (user_type user == "user" || user_type user == "svc_data") && is_empty groups
    then refuse 400 "Users require at least one group"
    else groups_known b id groups b.group_names

pub data Request : Type 0 where
  delete enroll : ℕ → Request
  password : ℕ → String → Request
  generate : ℕ → String → Request
  revoke : ℕ → Option ℕ → Option String → Request
  download : ℕ → String → Request
  groups : ℕ → List String → Request

-- The handler of each route, for a request that its model has let through. `is_name` is the pattern of
-- certificate names in a path.
unfoldable pub respond : (String → Bool) → Backend → Request → Outcome
respond is_name b (delete id) = with_user (b.get_user id) (delete_found b id)
respond is_name b (enroll id) = with_user (b.get_user id) (enroll_found b id)
respond is_name b (password id text) = with_user (b.get_user id) (password_for b id text)
respond is_name b (generate id name) = with_user (b.get_user id) (generate_found b name)
respond is_name b (revoke id cert_id cert_name) =
    with_user (b.get_user id) (revoke_found b id cert_id cert_name)
respond is_name b (download id name) =
    if is_name name
    then with_user (b.get_user id) (download_found b name)
    else refuse 400 "Invalid certificate name"
respond is_name b (groups id names) = with_user (b.get_user id) (groups_found b id names)
