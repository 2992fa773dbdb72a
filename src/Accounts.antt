-- ===== src/Accounts.antt =====
-- The routes of service accounts (monitor/app/api/service_accounts/router.py): each handler with its
-- guards, the calls that it makes of the identity client, of TAK Server's client and of the certificate
-- tools, and its reply. Texts are lists of code points, and the detail of an error is its fixed part.
mod Calls
pub mod Creation
pub mod Faults
pub mod Changes
mod Tests
unfoldable pub use Calls.*
use fast_tak.Base.{
  ℕ, String, ◌≡◌, Bool, true, false, not, ◌&&◌, ◌||◌, Option, none, some, List, [], ◌∷◌, ◌++◌, ◌==◌,
  nat_eq, length, leb, is_some, contains, if◌then◌else◌,
}
use fast_tak.Base.Result.{Error, Result, ok, err, http_exception}
use fast_tak.Base.Text.{codes, codes_eq, all_of, chomp, strip_prefix}
use fast_tak.Backup.Names.{Name, is_name_char}
use fast_tak.Certs.Subject.{Chars}
use fast_tak.Certs.{
  Command, Docker, CertResult, succeeded, failed, Attempt, generate_client_cert, write_nodered_pems,
  remove_nodered_pems, register_admin_cert,
}

-- The request's body, with the rules of its model.
pub record CreateRequest : Type 0 where
  pub name : Name
  pub display_name : Chars
  pub mode : ServiceAccountMode
  pub groups : Option (List Chars)
  pub validity_days : Option ℕ

-- `v[4:] if v.startswith("svc_") else v`
unfoldable pub raw_name : Name → Name
raw_name name = elim (strip_prefix (codes "svc_") name) [ none ↦ name | some rest ↦ rest ]

unfoldable pub is_accepted_name : Name → Bool
is_accepted_name name =
    not (chomp (raw_name name) == [])
    && (all_of is_name_char (chomp (raw_name name)) && leb (length name) 64)

-- `if groups`
abbrev pub has_groups : Option (List Chars) → Bool
has_groups none = false
has_groups (some []) = false
has_groups (some (g ∷ groups)) = true

unfoldable pub are_groups_for : ServiceAccountMode → Option (List Chars) → Bool
are_groups_for data_mode groups = has_groups groups
are_groups_for admin_mode groups = not (has_groups groups)

abbrev pub is_validity : Option ℕ → Bool
is_validity none = true
is_validity (some days) = leb 1 days && leb days 3650

unfoldable pub accepts : CreateRequest → Bool
accepts body =
    is_accepted_name body.name
    && (are_groups_for body.mode body.groups && is_validity body.validity_days)

unfoldable pub svc_name : Name → Name
svc_name name = if is_some (strip_prefix (codes "svc_") name) then name else codes "svc_" ++ name

unfoldable pub days_of : ServiceAccountMode → Option ℕ → ℕ
days_of mode (some days) = days
days_of data_mode none = 365
days_of admin_mode none = 730

unfoldable pub missing_of : List Chars → List Chars → List Chars
missing_of [] existing = []
missing_of (g ∷ groups) existing =
    let rest = missing_of groups existing in if contains existing g then rest else g ∷ rest

unfoldable pub unless_missing : List Chars → Outcome → Outcome
unless_missing [] rest = rest
unless_missing (g ∷ missing) rest = refuse 400 "Groups do not exist. Create them first."

-- `ak.list_groups()`, and what follows where the groups exist.
unfoldable pub with_groups : Result (List Chars) → List Chars → Outcome → Outcome
with_groups (ok existing) groups rest = unless_missing (missing_of groups existing) rest
with_groups (err e) groups rest = ([], err e)

-- The attempt to deactivate the new user, and the error. The answer to the attempt is left out, since a failure of
-- it is logged and swallowed: nothing that follows depends on it.
unfoldable pub roll_back : ℕ → String → Outcome
roll_back id detail = (deactivate_user id ∷ [], err (http_exception 500 detail))

unfoldable pub reply_created : CreateRequest → ℕ → Outcome
reply_created body id =
    ([], ok (created id (svc_name body.name) body.mode (days_of body.mode body.validity_days)))

unfoldable pub after_registration : CreateRequest → ℕ → CertResult → Outcome
after_registration body id succeeded = reply_created body id
after_registration body id (failed message) = roll_back id "Admin cert registration failed"

-- What follows the certificate, by the mode. A failed export of the PEM files is logged.
unfoldable pub provision : Docker → CreateRequest → ServiceAccountMode → ℕ → Outcome
provision d body data_mode id =
    with_tool (write_nodered_pems d (svc_name body.name)) (λ _. reply_created body id)
provision d body admin_mode id =
    with_tool (register_admin_cert d (svc_name body.name)) (after_registration body id)

unfoldable pub after_cert : Docker → CreateRequest → ℕ → CertResult → Outcome
after_cert d body id succeeded = provision d body body.mode id
after_cert d body id (failed message) = roll_back id "Certificate generation failed"

-- The groups that the user is created in, and the type.
abbrev pub groups_for : ServiceAccountMode → Option (List Chars) → Option (List Chars)
groups_for data_mode groups = groups
groups_for admin_mode groups = none

abbrev pub type_for : ServiceAccountMode → Chars
type_for data_mode = codes "svc_data"
type_for admin_mode = codes "svc_admin"

unfoldable pub make_account : Services → CreateRequest → Outcome
make_account s body =
    let username = svc_name body.name in
    then_do
      (create_user username body.display_name (groups_for body.mode body.groups)
        (type_for body.mode))
      (s.creates username)
      (λ id.
        with_tool
          (generate_client_cert s.docker username (days_of body.mode body.validity_days) none)
          (after_cert s.docker body id))

-- `if body.groups and body.mode == ServiceAccountMode.data`
unfoldable pub check_groups :
    Services → ServiceAccountMode → Option (List Chars) → Outcome → Outcome
check_groups s data_mode (some (g ∷ groups)) rest = with_groups s.group_names (g ∷ groups) rest
check_groups s data_mode (some []) rest = rest
check_groups s data_mode none rest = rest
check_groups s admin_mode groups rest = rest

unfoldable pub create_service_account : Services → CreateRequest → Outcome
create_service_account s body = check_groups s body.mode body.groups (make_account s body)

-- The request as it arrives: 422 where the model refuses the body.
unfoldable pub post_service_account : Services → CreateRequest → Outcome
post_service_account s body =
    if accepts body then create_service_account s body else refuse 422 "validation error"

-- `ak.get_user`, and 404 where there is no user, or none of a service account.
unfoldable pub with_account : Result (Option Account) → (Account → Outcome) → Outcome
with_account (err e) rest = ([], err e)
with_account (ok none) rest = refuse 404 "Service account not found"
with_account (ok (some a)) rest =
    if is_some (strip_prefix (codes "svc_") a.username)
    then rest a
    else refuse 404 "Service account not found"

unfoldable pub set_groups_if : Services → ℕ → Option (List Chars) → Outcome
set_groups_if s id none = ([], ok success)
set_groups_if s id (some groups) =
    then_do (set_user_groups id groups) (s.sets_groups id) (λ _. ([], ok success))

unfoldable pub apply_update : Services → ℕ → Option Chars → Option (List Chars) → Outcome
apply_update s id none groups = set_groups_if s id groups
apply_update s id (some name) groups =
    then_do (update_user id name) (s.updates id) (λ _. set_groups_if s id groups)

-- `user_type == name`
unfoldable pub has_type : Option Chars → Chars → Bool
has_type none name = false
has_type (some t) name = t == name

unfoldable pub update_checked :
    Services → ℕ → Option Chars → Option (List Chars) → Account → Outcome
update_checked s id name none a = apply_update s id name none
update_checked s id name (some groups) a =
    if has_type a.fastak_user_type (codes "svc_admin")
    then refuse 400 "Admin mode service accounts cannot have groups"
    else if has_type a.fastak_user_type (codes "svc_data") && not (has_groups (some groups))
    then refuse 400 "Data mode service accounts require at least one group"
    else with_groups s.group_names groups (apply_update s id name (some groups))

unfoldable pub update_service_account : Services → ℕ → Option Chars → Option (List Chars) → Outcome
update_service_account s id name groups =
    with_account (s.get_user id) (update_checked s id name groups)

-- `remove_nodered_pems`, whose result is not looked at.
unfoldable pub remove_pair : Services → Name → Outcome
remove_pair s username =
    with_tool (remove_nodered_pems s.docker username) (λ _. ([], ok (deleted username)))

unfoldable pub mark_if : Services → ℕ → Name → Bool → Outcome
mark_if s id username true =
    then_do (mark_certs_revoked id) (s.marks id) (λ _. remove_pair s username)
mark_if s id username false = remove_pair s username

unfoldable pub revoke_then : Services → ℕ → Name → Option (Name → Result Bool) → Outcome
revoke_then s id username none = remove_pair s username
revoke_then s id username (some revokes) =
    then_do (revoke_all_user_certs username) (revokes username) (mark_if s id username)

unfoldable pub delete_found : Services → ℕ → Account → Outcome
delete_found s id a =
    then_do (deactivate_user id) (s.deactivates id) (λ _. revoke_then s id a.username s.tak)

unfoldable pub delete_service_account : Services → ℕ → Outcome
delete_service_account s id = with_account (s.get_user id) (delete_found s id)

-- The files of a certificate: the bundle, the PEM file with the serial that openssl reads in it, or
-- `none` where it fails, and the serials of the revocation list.
pub record CertFiles : Type 0 where
  pub has_p12 : Name → Bool
  pub has_pem : Name → Bool
  pub serial : Name → Option Chars
  pub revoked_serials : List Chars

unfoldable pub is_revoked_serial : CertFiles → Option Chars → Bool
is_revoked_serial files none = false
is_revoked_serial files (some serial) = contains files.revoked_serials serial

unfoldable pub download_found : CertFiles → Account → Outcome
download_found files a =
    if not (files.has_p12 a.username)
    then refuse 404 "Certificate file not found"
    else if files.has_pem a.username && is_revoked_serial files (files.serial a.username)
    then refuse 403 "Certificate has been revoked"
    else ([], ok (served a.username))

unfoldable pub download_cert : Services → CertFiles → ℕ → Outcome
download_cert s files id = with_account (s.get_user id) (download_found files)
