-- ===== src/Tak/Tests.antt =====
-- The recent contacts, run on four positions and on a roster with a service account.
use fast_tak.Base.{
  ℕ, nat_eq, ◌≡◌, ◌↔◌, refl, Bool, true, false, Option, none, some, List, [], ◌∷◌, In,
}
use fast_tak.Base.Result.{Result, ok, err, http_exception, os_error}
use fast_tak.Base.Text.{
  same, codes, codes_eq, strip, rstrip, lstrip, all_space, is_space, strip_prefix,
}
use fast_tak.Base.Dict.{lookup, insert}
use fast_tak.Access.{split_commas, cons_head}
use fast_tak.Tak.{
  clients_with_lkp, list_contacts, without_services, with_lkp, lkp_of, uids_of, get_lkp_for_uids,
  positions_of, is_service_account, Chars, Contact, Detail, Lkp, Position, join_rows,
  get_recent_lkp, roster_of, recent_rows, is_passed, recent_row, contact_part, group_part,
  by_uid_onto, starts_with_any, hidden_prefixes, clean_prefixes, RecentRow, parse_detail,
  is_service_account, recent_contacts,
}
use fast_tak.Tak.Roster.{known}
use fast_tak.Tak.Shown.{IsRowOf, recent_contacts_show}

abbrev contact : Chars → Chars → Contact
contact uid notes = record {
  uid = some uid;
  username = none;
  notes = some notes;
  callsign = some (codes "ALPHA");
  team = none;
  role = none;
  takv = none;
  filter_groups = none;
}

abbrev somewhere : Lkp
somewhere = record {
  lat = none;
  lon = none;
  hae = none;
  servertime = codes "t";
  cot_type = codes "a-f";
}

abbrev position : Chars → Detail → Position
position uid detail = record { uid = uid; lkp = somewhere; detail = detail }

abbrev app : Detail
app = parse_detail (some (some (record { callsign = some []; endpoint = some (codes "*") }), none))

abbrev feed : Detail
feed = parse_detail (some (none, some (record { name = some (codes "Red"); role = none })))

abbrev positions : List Position
positions =
    position (codes "u1") feed
    ∷ position (codes "u2") app
    ∷ position (codes "u3") feed
    ∷ position (codes "u4") app
    ∷ []

abbrev roster : List Contact
roster = contact (codes "u1") (codes " anna") ∷ contact (codes "u2") (codes " svc_wx ") ∷ []

abbrev as_is : Chars → Chars
as_is s = s

abbrev query : ℕ → Result (List Position)
query seconds = ok positions

abbrev uids : Result (List RecentRow) → Result (List Chars)
uids (err e) = err e
uids (ok rows) = ok (uids_in rows)
  where
    uids_in : List RecentRow → List Chars
    uids_in [] = []
    uids_in (r ∷ rows) = r.uid ∷ uids_in rows

abbrev shown : Bool → Option Bool → Result (List Contact) → Result (List RecentRow)
shown include_service require contacts =
    recent_contacts as_is (codes "svc_, ,adm_") true (codes "a-f" ∷ []) none include_service require
      query contacts

-- The service account and the feed without a roster entry are not shown.
by_default : uids (shown false none (ok roster)) ≡ ok (codes "u1" ∷ codes "u4" ∷ [])
unfolding recent_contacts join_rows get_recent_lkp roster_of recent_rows is_passed recent_row lookup
    codes_eq nat_eq parse_detail contact_part group_part by_uid_onto insert is_service_account strip
    rstrip lstrip all_space is_space starts_with_any hidden_prefixes clean_prefixes split_commas
    cons_head strip_prefix
by_default = refl

with_everything :
    uids (shown true (some false) (ok roster))
    ≡ ok (codes "u1" ∷ codes "u2" ∷ codes "u3" ∷ codes "u4" ∷ [])
unfolding recent_contacts join_rows get_recent_lkp roster_of recent_rows is_passed recent_row lookup
    codes_eq nat_eq parse_detail contact_part group_part by_uid_onto insert is_service_account strip
    rstrip lstrip all_space is_space starts_with_any hidden_prefixes clean_prefixes split_commas
    cons_head strip_prefix
with_everything = refl

-- Without an answer of TAK Server the service account is shown, and the first position is not.
without_roster :
    uids (shown false none (err (http_exception 503 "unavailable")))
    ≡ ok (codes "u2" ∷ codes "u4" ∷ [])
unfolding recent_contacts join_rows get_recent_lkp roster_of recent_rows is_passed recent_row lookup
    codes_eq nat_eq parse_detail contact_part group_part by_uid_onto insert is_service_account strip
    rstrip lstrip all_space is_space starts_with_any hidden_prefixes clean_prefixes split_commas
    cons_head strip_prefix
without_roster = refl

abbrev positions_at : List Chars → List (Chars × Lkp)
positions_at [] = []
positions_at (uid ∷ uids) = (uid, somewhere) ∷ positions_at uids

abbrev hidden : Chars
hidden = codes "svc_, ,adm_"

-- A failed query gives the client that is shown no position.
failed_query :
    clients_with_lkp as_is hidden false roster (λ uids. err os_error)
    ≡ (contact (codes "u1") (codes " anna"), none) ∷ []
unfolding clients_with_lkp list_contacts without_services with_lkp lkp_of uids_of get_lkp_for_uids
    positions_of insert lookup codes_eq nat_eq same is_service_account strip rstrip lstrip all_space
    is_space starts_with_any hidden_prefixes clean_prefixes split_commas cons_head strip_prefix
failed_query = refl

-- The query is for the uids of the clients that are shown.
found_positions :
    clients_with_lkp as_is hidden true roster (λ uids. ok (positions_at uids))
    ≡ (contact (codes "u1") (codes " anna"), some somewhere)
      ∷ (contact (codes "u2") (codes " svc_wx "), some somewhere)
      ∷ []
unfolding clients_with_lkp list_contacts without_services with_lkp lkp_of uids_of get_lkp_for_uids
    positions_of insert lookup codes_eq nat_eq same is_service_account strip rstrip lstrip all_space
    is_space starts_with_any hidden_prefixes clean_prefixes split_commas cons_head strip_prefix
found_positions = refl

recent_contacts_show_example :
    (rows : List RecentRow) × (shown false none (ok roster) ≡ ok rows)
    × ((row : RecentRow)
        → In row rows
          ↔ IsRowOf as_is (codes "svc_, ,adm_") false true (known (ok roster)) positions row)
recent_contacts_show_example =
    recent_contacts_show as_is (codes "svc_, ,adm_") true (codes "a-f") [] none false none query
      (ok roster) positions refl refl
