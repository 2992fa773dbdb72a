-- ===== src/Users/Revocation.antt =====
-- The revocation of all of a user's certificates (`revoke_all_user_certs` and `list_user_certs` of
-- monitor/app/api/users/tak_server.py, `revoke_certs_on_disk_for_user` of
-- monitor/app/api/service_accounts/cert_gen.py). A file name is a list of code points.
pub mod Laws
use fast_tak.Base.{
  ℕ, zero, suc, String, ◌+◌, ◌-◌, ◌≡◌, Bool, true, false, not, ◌&&◌, ◌||◌, Option, none, some, List,
  [], ◌∷◌, ◌++◌, ◌==◌, string_eq, length, leb, is_some, if◌then◌else◌,
}
use fast_tak.Base.Result.{Error, Result, ok, err, http_error}
use fast_tak.Base.Text.{codes, codes_eq, strip_prefix, before_suffix, all_of, chomp}
use fast_tak.Backup.Names.{Name, is_name_char}

-- What certadmin says of a certificate.
pub record AdminCert : Type 0 where
  pub certificate_pem : String
  pub revocation_date : Option String

-- The container of TAK Server: the files of the certificates, what a `find` in it ends with, and which
-- certificates the revocation list takes.
pub record Container : Type 0 where
  pub find_ok : Bool
  pub files : List Name
  pub revokes_file : Name → Bool
  pub revokes_pem : String → Bool

-- `_validate_name`, where the `$` of the pattern overlooks one newline at the end.
unfoldable pub is_valid_name : Name → Bool
is_valid_name name =
    not (chomp name == []) && (all_of is_name_char (chomp name) && leb (length name) 64)

-- `find -name "{username}-*.pem"`
unfoldable pub matches_user : Name → Name → Bool
matches_user username file = elim (strip_prefix (username ++ codes "-") file) [
  | none ↦ false
  | some rest ↦ is_some (before_suffix (codes ".pem") rest)
]

unfoldable pub found_files : Name → List Name → List Name
found_files username [] = []
found_files username (f ∷ files) =
    let rest = found_files username files in if matches_user username f then f ∷ rest else rest

-- The names whose revocation failed.
unfoldable pub failures : (Name → Bool) → List Name → List Name
failures revokes [] = []
failures revokes (f ∷ files) =
    let rest = failures revokes files in if revokes f then rest else f ∷ rest

unfoldable pub is_empty : List Name → Bool
is_empty [] = true
is_empty (f ∷ files) = false

-- `success` of the result, where the container may be out of reach.
unfoldable pub revoke_certs_on_disk_for_user : Name → Option Container → Bool
revoke_certs_on_disk_for_user username none = false
revoke_certs_on_disk_for_user username (some c) =
    is_valid_name username
    && (c.find_ok && is_empty (failures c.revokes_file (found_files username c.files)))

-- A failed query is answered with no certificates. Other exceptions are not caught.
unfoldable pub list_user_certs : Result (List AdminCert) → Result (List AdminCert)
list_user_certs (ok certs) = ok certs
list_user_certs (err http_error) = ok []
list_user_certs (err e) = err e

unfoldable pub revokes_by_pem : Option Container → String → Bool
revokes_by_pem none pem = false
revokes_by_pem (some c) pem = c.revokes_pem pem

-- One turn of the loop: whether the certificate is out of use.
unfoldable pub revoke_admin_cert : Option Container → AdminCert → Bool
revoke_admin_cert c cert =
    if is_some cert.revocation_date
    then true
    else if cert.certificate_pem == ""
    then false
    else revokes_by_pem c cert.certificate_pem

unfoldable pub revoke_admin_certs : Option Container → Bool → List AdminCert → Bool
revoke_admin_certs c all_ok [] = all_ok
revoke_admin_certs c all_ok (cert ∷ certs) =
    revoke_admin_certs c (revoke_admin_cert c cert && all_ok) certs

unfoldable pub revoke_listed : Option Container → Bool → Result (List AdminCert) → Result Bool
revoke_listed c all_ok (ok certs) = ok (revoke_admin_certs c all_ok certs)
revoke_listed c all_ok (err e) = err e

-- `query` is what the request to certadmin gives.
unfoldable pub revoke_all_user_certs :
    Name → Option Container → Result (List AdminCert) → Result Bool
revoke_all_user_certs username c query =
    revoke_listed c (revoke_certs_on_disk_for_user username c) (list_user_certs query)
