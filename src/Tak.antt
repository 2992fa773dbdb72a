-- ===== src/Tak.antt =====
-- What the routes of TAK Server show (monitor/app/api/tak/router.py and positions.py): connected
-- clients, contacts, and the recent contacts that the positions of cot_router are joined with. The
-- rows of the database, the answers of TAK Server and the elements of a CoT detail are given.
pub mod Filled
mod Positions
pub mod Roster
pub mod Shown
mod Tests
unfoldable pub use Positions.*
use fast_tak.Base.{
  ℕ, String, ◌≡◌, Bool, true, false, not, ◌&&◌, ◌||◌, Option, none, some, List, [], ◌∷◌, ◌++◌, ◌==◌,
  nat_eq, is_some, if◌then◌else◌, contains,
}
use fast_tak.Base.Dict.{Dict, lookup, insert}
use fast_tak.Base.Result.{
  Error, Result, ok, err, http_exception, key_error, type_error, attribute_error, value_error,
  os_error, http_error, backup_already_running, runtime_error,
}
use fast_tak.Base.Text.{codes, codes_eq, strip, strip_prefix}
use fast_tak.Access.{split_commas}

-- An entry of a subscription or of the roster, as far as it is read.
pub record Contact : Type 0 where
  pub uid : Option Chars
  pub username : Option Chars
  pub notes : Option Chars
  pub callsign : Option Chars
  pub team : Option Chars
  pub role : Option Chars
  pub takv : Option Chars
  pub filter_groups : Option Chars

pub record RecentRow : Type 0 where
  pub uid : Chars
  pub callsign : Option Chars
  pub team : Option Chars
  pub role : Option Chars
  pub takv : Option Chars
  pub filter_groups : Option Chars
  pub notes : Option Chars
  pub lkp : Lkp

-- `contact and contact.get(key)`
abbrev pub of_contact : Option Contact → (Contact → Option Chars) → Option Chars
of_contact none field = none
of_contact (some c) field = field c

unfoldable pub recent_row : Position → Option Contact → RecentRow
recent_row p contact = record {
  uid = p.uid;
  callsign = or_text (of_contact contact (λ c. c.callsign)) p.detail.callsign;
  team = or_text (of_contact contact (λ c. c.team)) p.detail.team;
  role = or_text (of_contact contact (λ c. c.role)) p.detail.role;
  takv = of_contact contact (λ c. c.takv);
  filter_groups = of_contact contact (λ c. c.filter_groups);
  notes = of_contact contact (λ c. c.notes);
  lkp = p.lkp;
}

-- `contacts_by_uid`, where a later entry with the same uid takes the place of an earlier one.
unfoldable pub by_uid_onto : Dict Chars Contact → List Contact → Dict Chars Contact
by_uid_onto d [] = d
by_uid_onto d (c ∷ contacts) =
    by_uid_onto (if has_text c.uid then insert (text_of c.uid) c d else d) contacts

-- Only an HTTPException leaves the roster empty; any other error is raised.
unfoldable pub roster_of : Result (List Contact) → Result (Dict Chars Contact)
roster_of (ok contacts) = ok (by_uid_onto [] contacts)
roster_of (err (http_exception status detail)) = ok []
roster_of (err e) = err e

unfoldable pub uids_of : List Contact → List Chars
uids_of [] = []
uids_of (c ∷ clients) =
    let rest = uids_of clients in if has_text c.uid then text_of c.uid ∷ rest else rest

-- `positions.get(c.get("uid"))`
unfoldable pub lkp_of : Dict Chars Lkp → Contact → Option Lkp
lkp_of positions c = elim c.uid [ none ↦ none | some uid ↦ lookup uid positions ]

unfoldable pub with_lkp : Dict Chars Lkp → List Contact → List (Contact × Option Lkp)
with_lkp positions [] = []
with_lkp positions (c ∷ clients) = (c, lkp_of positions c) ∷ with_lkp positions clients

-- `require_tak_client` is `None` where the setting decides.
abbrev pub or_setting : Option Bool → Bool → Bool
or_setting none setting = setting
or_setting (some b) setting = b

-- `max_age if max_age is not None else 86400`
abbrev pub window_of : Option ℕ → ℕ
window_of none = 86400
window_of (some seconds) = seconds

module _ (lower : Chars → Chars) where
  -- `_hidden_prefixes`
  unfoldable pub clean_prefixes : List Chars → List Chars
  clean_prefixes [] = []
  clean_prefixes (p ∷ parts) =
      let rest = clean_prefixes parts in if strip p == [] then rest else lower (strip p) ∷ rest

  unfoldable pub hidden_prefixes : Chars → List Chars
  hidden_prefixes setting = clean_prefixes (split_commas setting)

  unfoldable pub starts_with_any : List Chars → Chars → Bool
  starts_with_any [] actor = false
  starts_with_any (p ∷ prefixes) actor =
      is_some (strip_prefix p actor) || starts_with_any prefixes actor

  -- `raw.strip().lower()`
  abbrev pub actor_of : Contact → Chars
  actor_of c = lower (strip (text_of (or_text c.username c.notes)))

  -- `_is_service_account`, with the setting of the prefixes.
  unfoldable pub is_service_account : Chars → Contact → Bool
  is_service_account setting c =
      if actor_of c == [] then false else starts_with_any (hidden_prefixes setting) (actor_of c)

  unfoldable pub without_services : Chars → List Contact → List Contact
  without_services setting [] = []
  without_services setting (c ∷ contacts) =
      let rest = without_services setting contacts in
      if is_service_account setting c then rest else c ∷ rest

  -- `_build_contacts_response`, and the clients before their positions are added.
  unfoldable pub list_contacts : Chars → Bool → List Contact → List Contact
  list_contacts setting include_service contacts =
      if include_service then contacts else without_services setting contacts

  -- `_build_clients_response` with `include_lkp`.
  unfoldable pub clients_with_lkp :
      Chars
      → Bool
      → List Contact
      → (List Chars → Result (List (Chars × Lkp)))
      → List (Contact × Option Lkp)
  clients_with_lkp setting include_service clients query =
      let shown = list_contacts setting include_service clients in
      with_lkp (get_lkp_for_uids (uids_of shown) (query (uids_of shown))) shown

  -- `uid in service_uids`
  abbrev pub is_service_uid : Chars → Option Contact → Bool
  is_service_uid setting none = false
  is_service_uid setting (some c) = is_service_account setting c

  -- The two tests of the loop that pass a position over.
  unfoldable pub is_passed : Chars → Bool → Bool → Position → Option Contact → Bool
  is_passed setting include_service require_tak_client p contact =
      not include_service && is_service_uid setting contact
      || require_tak_client && (not (is_some contact) && not (has_text p.detail.endpoint))

  unfoldable pub recent_rows :
      Chars → Bool → Bool → Dict Chars Contact → List Position → List RecentRow
  recent_rows setting include_service require_tak_client roster [] = []
  recent_rows setting include_service require_tak_client roster (p ∷ positions) =
      let rest = recent_rows setting include_service require_tak_client roster positions in
      if is_passed setting include_service require_tak_client p (lookup p.uid roster)
      then rest
      else recent_row p (lookup p.uid roster) ∷ rest

  unfoldable pub join_rows :
      Chars
      → Bool
      → Bool
      → Result (List Position)
      → Result (Dict Chars Contact)
      → Result (List RecentRow)
  join_rows setting include_service require_tak_client (err e) roster = err e
  join_rows setting include_service require_tak_client (ok positions) (err e) = err e
  join_rows setting include_service require_tak_client (ok positions) (ok roster) =
      ok (recent_rows setting include_service require_tak_client roster positions)

  -- `_build_recent_contacts_response`, with the query for a window and the answer of TAK Server.
  unfoldable pub recent_contacts :
      Chars
      → Bool
      → List Chars
      → Option ℕ
      → Bool
      → Option Bool
      → (ℕ → Result (List Position))
      → Result (List Contact)
      → Result (List RecentRow)
  recent_contacts setting lkp_require prefixes max_age include_service require_tak_client query
        contacts =
      join_rows setting include_service (or_setting require_tak_client lkp_require)
        (get_recent_lkp prefixes (query (window_of max_age))) (roster_of contacts)
