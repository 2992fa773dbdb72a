-- ===== src/Users/Directory.antt =====
-- The users that the identity client shows (`is_hidden`, `_resolve_username`, `_refresh_user_id_map`,
-- `_format_user`, `list_users` and `get_user` of monitor/app/api/users/identity.py). The client keeps a
-- map from numeric ids to names, which every listing fills. LLDAP's users are a list.
pub mod Ids
pub mod Finding
use Prim.Native.String.{String}
use Prim.Native.Nat.{◌^◌}
use fast_tak.Base.{
  ◌+◌, ◌*◌, ◌%◌, take, ℕ, ◌≡◌, Bool, true, false, not, ◌&&◌, ◌||◌, Option, none, some, List, [],
  ◌∷◌, ◌++◌, ◌==◌, nat_eq, string_eq, starts_with, is_some, if◌then◌else◌,
}
use fast_tak.Base.Dict.{Dict, lookup, insert}
use fast_tak.Base.Python.{Python}
use fast_tak.Base.Result.{Result, ok, err, runtime_error}
use fast_tak.Base.Text.{codes, strip_prefix}
use fast_tak.Users.Attributes.{
  Value, flag, Attrs, Stored, Group, LdapUser, parse_attributes, is_active,
}

-- `int.from_bytes(digest, "big")`, behind the bytes that are read already.
unfoldable pub from_bytes : ℕ → List ℕ → ℕ
from_bytes n [] = n
from_bytes n (byte ∷ bytes) = from_bytes (256 * n + byte) bytes

-- `_username_to_numeric_id`: the first seven bytes of the SHA-256 of the name, cut to 53 bits.
unfoldable pub username_to_numeric_id : (String → List ℕ) → String → ℕ
username_to_numeric_id digest username = from_bytes 0 (take 7 (digest username)) % 2 ^ 53

-- `_user_id_map`
abbrev pub IdMap : Type 0
IdMap = Dict ℕ String

-- `any(lower.startswith(p) for p in self.hidden_prefixes)`
unfoldable pub has_prefix : List String → String → Bool
has_prefix [] name = false
has_prefix (p ∷ prefixes) name = starts_with name p || has_prefix prefixes name

-- `part in text`
unfoldable pub occurs : List ℕ → List ℕ → Bool
occurs part [] = is_some (strip_prefix part [])
occurs part (x ∷ xs) = is_some (strip_prefix part (x ∷ xs)) || occurs part xs

-- The names of the user's `tak_` groups, without the prefix.
unfoldable pub tak_groups : List Group → List (List ℕ)
tak_groups [] = []
tak_groups (g ∷ groups) = elim (strip_prefix (codes "tak_") (codes g.group_name)) [
  | none ↦ tak_groups groups
  | some name ↦ name ∷ tak_groups groups
]

-- What `_format_user` returns.
pub record Formatted (N : Type 0) : Type 0 where
  pub id : ℕ
  pub username : String
  pub name : String
  pub is_active : Bool
  pub groups : List (List ℕ)
  pub fastak_expires : Option (Value N)
  pub fastak_certs_revoked : Option (Value N)
  pub fastak_user_type : Option (Value N)

module _ (py : Python) (read_int : String → Option py.Num) (numeric_id : String → ℕ) where
  open py use {Num, lower}

  -- With the prefixes of the client, which are in lower case.
  unfoldable pub is_hidden : List String → String → Bool
  is_hidden prefixes username = has_prefix prefixes (lower username)

  unfoldable pub format_user : LdapUser → Formatted Num
  format_user u =
      let attrs = parse_attributes py read_int u.attributes in
      record {
        id = numeric_id u.id;
        username = u.id;
        name = u.display_name;
        is_active = is_active py read_int u.attributes;
        groups = tak_groups u.groups;
        fastak_expires = lookup "fastak_expires" attrs;
        fastak_certs_revoked = lookup "fastak_certs_revoked" attrs;
        fastak_user_type = lookup "fastak_user_type" attrs;
      }

  -- The entry that `_format_user` leaves in the map.
  unfoldable pub remember : LdapUser → IdMap → IdMap
  remember u m = insert (numeric_id u.id) u.id m

  -- The search of a listing: in the id and in the displayed name. An empty one is none.
  unfoldable pub fits_search : Option String → LdapUser → Bool
  fits_search none u = true
  fits_search (some search) u =
      search == ""
      || occurs (codes (lower search)) (codes (lower u.id))
      || occurs (codes (lower search)) (codes (lower u.display_name))

  -- The loop of `list_users`: the map and the formatted users.
  unfoldable pub list_users :
      List String → Option String → List LdapUser → IdMap → IdMap × List (Formatted Num)
  list_users prefixes search [] m = (m, [])
  list_users prefixes search (u ∷ users) m =
      elim (not (is_hidden prefixes u.id) && fits_search search u) [
        | true ↦
            let (m', rest) = list_users prefixes search users (remember u m) in
            (m', format_user u ∷ rest)
        | false ↦ list_users prefixes search users m
      ]

  -- `existing is not None and existing != u["id"]`
  abbrev pub collides : Option String → String → Bool
  collides none name = false
  collides (some existing) name = not (existing == name)

  -- `_refresh_user_id_map`: the map is filled as far as the first collision, which raises.
  unfoldable pub refresh : List LdapUser → IdMap → IdMap × Result (Unit {0})
  refresh [] m = (m, ok tt)
  refresh (u ∷ users) m = elim (collides (lookup (numeric_id u.id) m) u.id) [
    | true ↦ (m, err (runtime_error "Numeric ID collision"))
    | false ↦ refresh users (remember u m)
  ]

  unfoldable pub after_refresh : ℕ → IdMap × Result (Unit {0}) → IdMap × Result (Option String)
  after_refresh id (m, ok _) = (m, ok (lookup id m))
  after_refresh id (m, err e) = (m, err e)

  -- `_resolve_username`: the map, or else LLDAP's list.
  unfoldable pub resolve_username : ℕ → List LdapUser → IdMap → IdMap × Result (Option String)
  resolve_username id users m = elim (lookup id m) [
    | some name ↦ (m, ok (some name))
    | none ↦ after_refresh id (refresh users m)
  ]

  -- LLDAP's answer to a query for one user.
  unfoldable pub find_user : String → List LdapUser → Option LdapUser
  find_user name [] = none
  find_user name (u ∷ users) =
      let rest = find_user name users in if u.id == name then some u else rest

  unfoldable pub show_found :
      List String → Option LdapUser → IdMap → IdMap × Result (Option (Formatted Num))
  show_found prefixes none m = (m, ok none)
  show_found prefixes (some u) m =
      if is_hidden prefixes u.id then (m, ok none) else (remember u m, ok (some (format_user u)))

  unfoldable pub get_resolved :
      List String
      → List LdapUser
      → IdMap × Result (Option String)
      → IdMap × Result (Option (Formatted Num))
  get_resolved prefixes users (m, err e) = (m, err e)
  get_resolved prefixes users (m, ok none) = (m, ok none)
  get_resolved prefixes users (m, ok (some name)) =
      if is_hidden prefixes name then (m, ok none) else show_found prefixes (find_user name users) m

  unfoldable pub get_user :
      List String → ℕ → List LdapUser → IdMap → IdMap × Result (Option (Formatted Num))
  get_user prefixes id users m = get_resolved prefixes users (resolve_username id users m)
