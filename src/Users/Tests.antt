-- ===== src/Users/Tests.antt =====
-- The user theorems at concrete users, services and requests.
mod Identity
use fast_tak.Base.{
  ℕ, suc, String, ◌≡◌, ◌≤◌, ◌<◌, ◌+◌, ◌*◌, refl, ◌↔◌, ◌⊎◌, Bool, true, false, none, some, List, [],
  ◌∷◌, ◌++◌, In, here, All, contains, string_eq, nat_eq, ◌==◌, inr, if◌then◌else◌,
}
use fast_tak.Base.Dict.{Dict, lookup}
use fast_tak.Base.Result.{ok, err, http_error}
use fast_tak.Base.Text.{codes}
use fast_tak.Base.Unary.{
  unary, count, count-strokes, fold_case_True, fold_case_False, fold_case_idempotent,
}
use fast_tak.Users.Attributes.{
  flag, number, Attrs, Stored, LdapUser, parse_attributes, build_custom_attributes,
  insert_attributes, deactivation, revocation, is_pending, is_active,
}
use fast_tak.Users.Attributes.Laws.{IsReadable, HasDistinctKeys}
use fast_tak.Users.Attributes.Updates.{after_update, lookup-parse_attributes_sent}
use fast_tak.Users.Attributes.Pending.{expiry_updates}
use fast_tak.Users.Expiry.{Services, mark_certs_revoked, check_user_expiry}
use fast_tak.Users.Expiry.Calls.{IsReached, IsRevoked, check_user_expiry_marks}
use fast_tak.Users.Groups
use fast_tak.Users.Groups.Calls.{set_user_groups_calls}
use fast_tak.Users.Router
use fast_tak.Users.Router.{
  User, Backend, respond, then_do, with_user, password_for, revoke_found, revoke_name,
  delete_tokens, validity_days, min, max,
}
use fast_tak.Users.Router.Credentials.{respond_credentials}
use fast_tak.Users.Router.Certificates.{validity_days_bounds, IsRevocation, revoke_success}
use fast_tak.Users.Revocation.{
  AdminCert, Container, list_user_certs, revoke_all_user_certs, matches_user,
}
use fast_tak.Users.Revocation.Laws.{
  IsClearedOnDisk, IsOut, revoke_all_user_certs-true, cert_file, matches_user_longer,
}

unary-IsReadable : IsReadable unary count
unary-IsReadable = record {
  read_int-show = count-strokes;
  lower-True = fold_case_True;
  lower-False = fold_case_False;
  lower_idempotent = fold_case_idempotent;
}

abbrev stored : Stored
stored = ("fastak_expires", "||||" ∷ []) ∷ ("fastak_certs_revoked", "false" ∷ []) ∷ []

stored_distinct : HasDistinctKeys stored
unfolding string_eq
stored_distinct = (refl, (refl, tt))

expiry_updates_example :
    (is_active unary count
        (insert_attributes (build_custom_attributes unary count (deactivation unary count)) stored)
      ≡ false)
    × (is_pending unary count 5 (
          insert_attributes (build_custom_attributes unary count (deactivation unary count)) stored)
        ≡ is_pending unary count 5 stored)
    × (is_pending unary count 5 (
          insert_attributes
            (build_custom_attributes unary count (revocation unary count stored))
            stored)
        ≡ false)
    × (is_active unary count (
          insert_attributes
            (build_custom_attributes unary count (revocation unary count stored))
            stored)
        ≡ is_active unary count stored)
expiry_updates_example = expiry_updates unary count unary-IsReadable 5 stored stored_distinct

abbrev sent : Attrs ℕ
sent = ("fastak_expires", number 9) ∷ ("is_active", flag false) ∷ []

sent_distinct : HasDistinctKeys (build_custom_attributes unary count sent)
unfolding build_custom_attributes string_eq
sent_distinct = (refl, (refl, tt))

lookup-parse_attributes_sent_example :
    lookup "fastak_expires" (
      parse_attributes unary count
        (insert_attributes (build_custom_attributes unary count sent) stored))
    ≡ after_update
        (lookup "fastak_expires" sent)
        (lookup "fastak_expires" (parse_attributes unary count stored))
lookup-parse_attributes_sent_example =
    lookup-parse_attributes_sent unary count unary-IsReadable "fastak_expires" sent stored
      sent_distinct stored_distinct (refl, (inr refl, tt))

abbrev hash : String → ℕ
hash name = if name == "ann" then 1 else 2

abbrev listed : List LdapUser
listed =
    record { id = "ann"; display_name = "Ann"; attributes = stored; groups = [] }
    ∷ record { id = "bob"; display_name = "Bob"; attributes = stored; groups = [] }
    ∷ []

-- The deactivation of the first user fails.
abbrev services : Services
services = record {
  deactivates = λ id. if id == 1 then err http_error else ok tt;
  tak = some (λ name. ok true);
}

check_user_expiry_marks_example :
    In (mark_certs_revoked 2) (check_user_expiry unary count hash 5 services (ok listed)) ↔ (
      (u : LdapUser) × In u listed
      × (is_pending unary count 5 u.attributes ≡ true)
      × IsReached unary count hash services u
      × IsRevoked unary count hash services u
      × (hash u.id ≡ 2))
check_user_expiry_marks_example = check_user_expiry_marks unary count hash 5 services listed 2

abbrev ann : User
ann = record {
  username = "ann";
  is_active = true;
  fastak_expires = some 100000;
  fastak_user_type = none;
}

abbrev backend : Backend
backend = record {
  now = 1000;
  get_user = λ id. ok (some ann);
  has_tak_server = false;
  deactivates = λ id. ok tt;
  revokes_all = λ name. ok true;
  marks = λ id. ok tt;
  sets_password = λ id. ok tt;
  token_of = λ id. ok "token";
  exists_p12 = λ file. false;
  exists_pem = λ file. false;
  serial_of = λ file. none;
  revoked_serials = [];
  generates = λ file. true;
  certs_of = λ name. ok [];
  revokes_cert = λ id. ok true;
  revokes_pem = λ pem. true;
  revokes_name = λ file. true;
  deletes_tokens = λ id. ok tt;
  group_names = ok [];
  sets_groups = λ id. ok tt;
  enrollment_url = λ token name. token;
}

abbrev any_name : String → Bool
any_name name = true

password_is_set :
    In
      (Router.Call.set_password 1 "pw")
      (respond any_name backend (Router.Request.password 1 "pw")).0
unfolding respond with_user password_for then_do
password_is_set = here refl

respond_credentials_example :
    (user : User) × (backend.get_user 1 ≡ ok (some user)) × (user.is_active ≡ true)
respond_credentials_example =
    respond_credentials any_name backend (Router.Request.password 1 "pw")
      (Router.Call.set_password 1 "pw") password_is_set refl

tablet_revoked :
    (respond any_name backend (Router.Request.revoke 1 none (some "tablet"))).1
    ≡ ok Router.Reply.success
unfolding respond with_user revoke_found revoke_name delete_tokens then_do
tablet_revoked = refl

revoke_success_example :
    (user : User) × (backend.get_user 1 ≡ ok (some user))
    × IsRevocation backend 1 user none
        (some "tablet")
        (respond any_name backend (Router.Request.revoke 1 none (some "tablet"))).0
revoke_success_example = revoke_success any_name backend 1 none (some "tablet") tablet_revoked

one_day : validity_days 1000 (some 100000) ≡ some 1
unfolding validity_days min max
one_day = refl

validity_days_bounds_example :
    (1 ≤ 1)
    × (1 ≤ 365)
    × ((e : ℕ)
        → some 100000 ≡ some e
        → (suc 1000 ≤ e) × ((1000 + 1 * 86400 ≤ e) ⊎ ((◌≡◌ {A = ℕ} 1 1) × (e < 1000 + 86400))))
validity_days_bounds_example = validity_days_bounds 1000 (some 100000) 1 one_day

abbrev reachable : Container
reachable = record {
  find_ok = true;
  files = cert_file (codes "ann") (codes "tablet") ∷ [];
  revokes_file = λ file. true;
  revokes_pem = λ pem. true;
}

-- One certificate of certadmin is revoked already, and one has no text.
abbrev admin_certs : List AdminCert
admin_certs =
    record { certificate_pem = ""; revocation_date = some "2026-01-01" }
    ∷ record { certificate_pem = ""; revocation_date = none }
    ∷ []

revoke_all_user_certs-true_example :
    (revoke_all_user_certs (codes "ann") (some reachable) (ok admin_certs) ≡ ok true ↔ (
      IsClearedOnDisk (codes "ann") (some reachable)
      × ((certs : List AdminCert) × (list_user_certs (ok admin_certs) ≡ ok certs)
          × All (IsOut (some reachable)) certs)))
    × (revoke_all_user_certs (codes "ann") (some reachable) (err http_error) ≡ ok true
        ↔ IsClearedOnDisk (codes "ann") (some reachable))
revoke_all_user_certs-true_example =
    revoke_all_user_certs-true (codes "ann") (some reachable) (ok admin_certs)

abbrev blue : List String
blue = "Blue" ∷ []

abbrev memberships : Dict String ℕ
memberships = ("tak_Red", 1) ∷ ("ops", 2) ∷ []

abbrev all_groups : Dict String ℕ
all_groups = ("tak_Red", 1) ∷ ("ops", 2) ∷ ("tak_Blue", 3) ∷ []

abbrev changes : List Groups.GroupCall
changes = Groups.set_user_groups blue memberships all_groups

set_user_groups_calls_example :
    (In (Groups.GroupCall.remove_user_from_group 1) changes ↔ (
      (name : String) × In (name, 1) memberships
      × (Groups.is_tak name ≡ true)
      × (contains (Groups.desired_tak_names blue) name ≡ false)))
    × (In (Groups.GroupCall.add_user_to_group 1) changes ↔ (
        (name : String) × In name (Groups.desired_tak_names blue)
        × (lookup name memberships ≡ none)
        × (lookup name all_groups ≡ some 1)))
set_user_groups_calls_example = set_user_groups_calls blue memberships all_groups 1
