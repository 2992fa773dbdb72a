-- ===== src/Users/Directory/Ids.antt =====
-- The map of numeric ids is right in every state of the client.
use fast_tak.Base.{
  ℕ, String, ◌≡◌, not, ◌&&◌, Option, none, some, List, [], ◌∷◌, nat_eq, string_eq, arith,
  Bool-cases, Option-cases, inl, inr,
}
use fast_tak.Base.Dict.{lookup, lookup-insert}
use fast_tak.Base.Python.{Python}
use fast_tak.Base.Result.{Result, ok, err}
use fast_tak.Users.Attributes.{LdapUser}
use fast_tak.Users.Directory.{
  IdMap, is_hidden, remember, fits_search, list_users, collides, refresh, after_refresh,
  resolve_username, find_user, show_found, get_resolved, get_user,
}

-- Each name stands under its own id.
abbrev pub IsIdMap : (String → ℕ) → IdMap → Type 0
IsIdMap numeric_id m = (id : ℕ) (name : String) → lookup id m ≡ some name → numeric_id name ≡ id

module _ (py : Python) (read_int : String → Option py.Num) (numeric_id : String → ℕ) where
  pub remember-IsIdMap :
      (u : LdapUser) (m : IdMap)
      → IsIdMap numeric_id m
      → IsIdMap numeric_id (remember py read_int numeric_id u m)
  unfolding remember
  remember-IsIdMap u m h id name e =
      ground (arith, e, h id name, lookup-insert id (numeric_id u.id) u.id m)

  list_users-IsIdMap :
      (prefixes : List String) (query : Option String) (users : List LdapUser) (m : IdMap)
      → IsIdMap numeric_id m
      → IsIdMap numeric_id (list_users py read_int numeric_id prefixes query users m).0
  unfolding list_users
  list_users-IsIdMap prefixes query [] m h = h
  list_users-IsIdMap prefixes query (u ∷ users) m h =
      elim (Bool-cases (
        not (is_hidden py read_int numeric_id prefixes u.id)
        && fits_search py read_int numeric_id query u)) [
          | inl shown ↦
              rw (shown, list_users)
                (list_users-IsIdMap prefixes query users (remember py read_int numeric_id u m)
                  (remember-IsIdMap u m h))
          | inr passed ↦ rw (passed, list_users) (list_users-IsIdMap prefixes query users m h)
        ]

  pub refresh-IsIdMap :
      (users : List LdapUser) (m : IdMap)
      → IsIdMap numeric_id m
      → IsIdMap numeric_id (refresh py read_int numeric_id users m).0
  unfolding refresh
  refresh-IsIdMap [] m h = h
  refresh-IsIdMap (u ∷ users) m h =
      elim (Bool-cases (collides py read_int numeric_id (lookup (numeric_id u.id) m) u.id)) [
        | inl clash ↦ rw (clash, refresh) h
        | inr free ↦
            rw (free, refresh)
              (refresh-IsIdMap users (remember py read_int numeric_id u m) (remember-IsIdMap u m h))
      ]

  resolve_username-IsIdMap :
      (id : ℕ) (users : List LdapUser) (m : IdMap)
      → IsIdMap numeric_id m
      → IsIdMap numeric_id (resolve_username py read_int numeric_id id users m).0
  unfolding resolve_username
  resolve_username-IsIdMap id users m h = elim (Option-cases (lookup id m)) [
    | inr (name, found) ↦ rw (found, resolve_username) h
    | inl absent ↦
        rw (absent, resolve_username)
          (keeps (refresh py read_int numeric_id users m) (refresh-IsIdMap users m h))
  ]
    where
      keeps :
          (r : IdMap × Result (Unit {0}))
          → IsIdMap numeric_id r.0
          → IsIdMap numeric_id (after_refresh py read_int numeric_id id r).0
      keeps (k, ok _) g = unfold after_refresh in g
      keeps (k, err e) g = unfold after_refresh in g

  show_found-IsIdMap :
      (prefixes : List String) (found : Option LdapUser) (m : IdMap)
      → IsIdMap numeric_id m
      → IsIdMap numeric_id (show_found py read_int numeric_id prefixes found m).0
  unfolding show_found
  show_found-IsIdMap prefixes none m h = h
  show_found-IsIdMap prefixes (some u) m h =
      elim (Bool-cases (is_hidden py read_int numeric_id prefixes u.id)) [
        | inl hidden ↦ rw hidden h
        | inr seen ↦ rw seen (remember-IsIdMap u m h)
      ]

  get_resolved-IsIdMap :
      (prefixes : List String) (users : List LdapUser) (r : IdMap × Result (Option String))
      → IsIdMap numeric_id r.0
      → IsIdMap numeric_id (get_resolved py read_int numeric_id prefixes users r).0
  unfolding get_resolved
  get_resolved-IsIdMap prefixes users (m, err e) h = h
  get_resolved-IsIdMap prefixes users (m, ok none) h = h
  get_resolved-IsIdMap prefixes users (m, ok (some name)) h =
      elim (Bool-cases (is_hidden py read_int numeric_id prefixes name)) [
        | inl hidden ↦ rw hidden h
        | inr seen ↦
            rw seen (show_found-IsIdMap prefixes (find_user py read_int numeric_id name users) m h)
      ]

  -- A request for a user and a listing keep the map of ids right: every name in it stands under the id that
  -- is made from it, also where the filling of the map stops at a collision.
  pub get_and_list-IsIdMap :
      (prefixes : List String) (id : ℕ) (query : Option String) (users : List LdapUser) (m : IdMap)
      → IsIdMap numeric_id m
      → IsIdMap numeric_id (get_user py read_int numeric_id prefixes id users m).0
        × IsIdMap numeric_id (list_users py read_int numeric_id prefixes query users m).0
  unfolding get_user
  get_and_list-IsIdMap prefixes id query users m h = (
    get_resolved-IsIdMap prefixes users (resolve_username py read_int numeric_id id users m)
        (resolve_username-IsIdMap id users m h),
    list_users-IsIdMap prefixes query users m h,
  )
