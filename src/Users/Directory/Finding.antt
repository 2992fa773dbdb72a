-- ===== src/Users/Directory/Finding.antt =====
-- A numeric id finds the user that it is made from.
use mathlib.Core.Path.{subst}
use fast_tak.Base.{
  ℕ, String, ◌≡◌, refl, ap, sym, ◌∙◌, false, Option, none, some, List, [], ◌∷◌, ◌==◌, nat_eq,
  string_eq, arith, if◌then◌else◌, Bool-cases, Option-cases, inl, inr, All, In, here, there, ◌⊎◌,
}
use fast_tak.Base.Dict.{lookup, lookup-insert}
use fast_tak.Base.Python.{Python}
use fast_tak.Base.Result.{Result, ok, err}
use fast_tak.Users.Attributes.{LdapUser}
use fast_tak.Users.Directory.{
  IdMap, Formatted, is_hidden, format_user, remember, collides, refresh, after_refresh,
  resolve_username, find_user, show_found, get_resolved, get_user, username_to_numeric_id,
}
use fast_tak.Users.Directory.Ids.{IsIdMap, remember-IsIdMap}

-- A name that LLDAP lists or that the client's map holds.
abbrev pub IsKnown : List LdapUser → IdMap → String → Type 0
IsKnown users m name =
    ((u : LdapUser) × In u users × (u.id ≡ name)) ⊎ ((id : ℕ) × (lookup id m ≡ some name))

-- No other known name has the id of a user.
abbrev pub AreDistinguished : (String → Type 0) → (String → ℕ) → List LdapUser → Type 0
AreDistinguished known numeric_id users =
    All (λ u. (name : String) → known name → numeric_id name ≡ numeric_id u.id → name ≡ u.id) users

-- The names of the map are known.
abbrev IsMapOf : (String → Type 0) → IdMap → Type 0
IsMapOf known m = (id : ℕ) (name : String) → lookup id m ≡ some name → known name

abbrev AreOf : (String → Type 0) → List LdapUser → Type 0
AreOf known users = All (λ u. known u.id) users

module _ (py : Python) (read_int : String → Option py.Num) (numeric_id : String → ℕ) where
  open py use {Num}

  -- The first user with this id.
  unfoldable pub user_of_id : ℕ → List LdapUser → Option LdapUser
  user_of_id id [] = none
  user_of_id id (u ∷ users) =
      let rest = user_of_id id users in if numeric_id u.id == id then some u else rest

  -- A user as the routes show it, unless it is hidden.
  abbrev pub shown : List String → Option LdapUser → Option (Formatted Num)
  shown prefixes none = none
  shown prefixes (some u) =
      if is_hidden py read_int numeric_id prefixes u.id
      then none
      else some (format_user py read_int numeric_id u)

  abbrev name_of : Option LdapUser → Option String
  name_of none = none
  name_of (some u) = some u.id

  find_user-user_of_id :
      (known : String → Type 0) (id : ℕ) (name : String) (users : List LdapUser)
      → AreDistinguished known numeric_id users
      → known name
      → numeric_id name ≡ id
      → find_user py read_int numeric_id name users ≡ user_of_id id users
  unfolding find_user user_of_id
  find_user-user_of_id known id name [] inj k e = refl
  find_user-user_of_id known id name (u ∷ users) (own, inj) k e = elim (string_eq.dec u.id name) [
    | yes same ↦ ground (arith, same, e, ap numeric_id same)
    | no differ ↦ elim (nat_eq.dec (numeric_id u.id) id) [
      | yes equal ↦ absurd (differ (sym (own name k (e ∙ sym equal))))
      | no other ↦ ground (arith, differ, other, find_user-user_of_id known id name users inj k e)
    ]
  ]

  user_of_id-id :
      (id : ℕ) (users : List LdapUser) (v : LdapUser)
      → user_of_id id users ≡ some v
      → numeric_id v.id ≡ id
  unfolding user_of_id
  user_of_id-id id [] v h = ground arith
  user_of_id-id id (u ∷ users) v h = elim (nat_eq.dec (numeric_id u.id) id) [
    | yes equal ↦
        let e : u ≡ v = ground (arith, equal, h) in
        ap (λ (w : LdapUser). numeric_id w.id) (sym e) ∙ equal
    | no other ↦ user_of_id-id id users v (ground (arith, other, h))
  ]

  user_of_id-known :
      (known : String → Type 0) (id : ℕ) (users : List LdapUser) (v : LdapUser)
      → AreOf known users
      → user_of_id id users ≡ some v
      → known v.id
  unfolding user_of_id
  user_of_id-known known id [] v all h = absurd (ground arith)
  user_of_id-known known id (u ∷ users) v (first, all) h = elim (nat_eq.dec (numeric_id u.id) id) [
    | yes equal ↦
        let e : u ≡ v = ground (arith, equal, h) in subst (λ (w : LdapUser). known w.id) e first
    | no other ↦ user_of_id-known known id users v all (ground (arith, other, h))
  ]

  remember-IsMapOf :
      (known : String → Type 0) (u : LdapUser) (m : IdMap)
      → known u.id
      → IsMapOf known m
      → IsMapOf known (remember py read_int numeric_id u m)
  unfolding remember
  remember-IsMapOf known u m own all id name h = elim (nat_eq.dec id (numeric_id u.id)) [
    | yes same ↦
        let e : u.id ≡ name = ground (arith, same, h, lookup-insert id (numeric_id u.id) u.id m) in
        subst known e own
    | no other ↦ all id name (ground (arith, other, h, lookup-insert id (numeric_id u.id) u.id m))
  ]

  abbrev or_else : Option String → Option String → Option String
  or_else (some name) other = some name
  or_else none other = other

  no_collision :
      (known : String → Type 0) (u : LdapUser) (m : IdMap)
      → ((name : String) → known name → numeric_id name ≡ numeric_id u.id → name ≡ u.id)
      → IsMapOf known m
      → IsIdMap numeric_id m
      → collides py read_int numeric_id (lookup (numeric_id u.id) m) u.id ≡ false
  no_collision known u m own k h = by_entry (lookup (numeric_id u.id) m) refl
    where
      by_entry :
          (o : Option String)
          → lookup (numeric_id u.id) m ≡ o
          → collides py read_int numeric_id o u.id ≡ false
      by_entry none e = refl
      by_entry (some name) e =
          ground (arith, own name (k (numeric_id u.id) name e) (h (numeric_id u.id) name e))

  -- The map that a refresh without collisions ends with.
  refresh_lem :
      (known : String → Type 0) (id : ℕ) (users : List LdapUser) (m : IdMap)
      → AreDistinguished known numeric_id users
      → AreOf known users
      → IsMapOf known m
      → IsIdMap numeric_id m
      → ((refresh py read_int numeric_id users m).1 ≡ ok tt)
        × (lookup id (refresh py read_int numeric_id users m).0
            ≡ or_else (name_of (user_of_id id users)) (lookup id m))
  unfolding user_of_id refresh
  refresh_lem known id [] m inj all k h = (refl, refl)
  refresh_lem known id (u ∷ users) m (own, inj) (first, all) k h =
      let (fine, reads) =
        refresh_lem known id users (remember py read_int numeric_id u m) inj all
          (remember-IsMapOf known u m first k) (remember-IsIdMap py read_int numeric_id u m h) in
      rw (no_collision known u m own k h, refresh) (fine, reads ∙ by_id (user_of_id id users) refl)
    where
      here_first :
          (o : Option LdapUser)
          → user_of_id id users ≡ o
          → numeric_id u.id ≡ id
          → or_else (name_of o) (some u.id) ≡ some u.id
      here_first none e equal = refl
      here_first (some v) e equal = ap some (
          own v.id (user_of_id-known known id users v all e)
            (user_of_id-id id users v e ∙ sym equal))

      by_id :
          (o : Option LdapUser)
          → user_of_id id users ≡ o
          → or_else (name_of o) (lookup id (remember py read_int numeric_id u m))
            ≡ or_else (name_of (if numeric_id u.id == id then some u else o)) (lookup id m)
      by_id o e = elim (nat_eq.dec (numeric_id u.id) id) [
        | yes equal ↦
            unfold remember in
            ground (arith, equal, here_first o e equal, lookup-insert id (numeric_id u.id) u.id m)
        | no other ↦
            unfold remember in ground (arith, other, lookup-insert id (numeric_id u.id) u.id m)
      ]

  find_user-name :
      (name : String) (users : List LdapUser) (u : LdapUser)
      → find_user py read_int numeric_id name users ≡ some u
      → u.id ≡ name
  unfolding find_user
  find_user-name name [] u h = absurd (ground arith)
  find_user-name name (v ∷ users) u h = elim (string_eq.dec v.id name) [
    | yes same ↦
        let e : v ≡ u = ground (arith, same, h) in ap (λ (w : LdapUser). w.id) (sym e) ∙ same
    | no differ ↦ find_user-name name users u (ground (arith, differ, h))
  ]

  show_found_lem :
      (prefixes : List String) (name : String) (o : Option LdapUser) (m : IdMap)
      → ((u : LdapUser) → o ≡ some u → u.id ≡ name)
      → (if is_hidden py read_int numeric_id prefixes name
          then (m, ok none)
          else show_found py read_int numeric_id prefixes o m).1
        ≡ ok (shown prefixes o)
  unfolding show_found
  show_found_lem prefixes name none m named =
      elim (Bool-cases (is_hidden py read_int numeric_id prefixes name)) [
        | inl hidden ↦ rw hidden refl
        | inr seen ↦ rw seen refl
      ]
  show_found_lem prefixes name (some u) m named =
      rw (← named u refl) (elim (Bool-cases (is_hidden py read_int numeric_id prefixes u.id)) [
        | inl hidden ↦ rw hidden refl
        | inr seen ↦ rw seen refl
      ])

  -- A name with the id leads to the user of the id.
  get_resolved_lem :
      (known : String → Type 0) (prefixes : List String) (id : ℕ) (name : String)
      (users : List LdapUser) (m : IdMap)
      → AreDistinguished known numeric_id users
      → known name
      → numeric_id name ≡ id
      → (get_resolved py read_int numeric_id prefixes users (m, ok (some name))).1
        ≡ ok (shown prefixes (user_of_id id users))
  unfolding get_resolved
  get_resolved_lem known prefixes id name users m inj k e =
      rw (← find_user-user_of_id known id name users inj k e) (
        show_found_lem prefixes name (find_user py read_int numeric_id name users) m
          (find_user-name name users))

  resolve_known :
      (id : ℕ) (users : List LdapUser) (m : IdMap) (name : String)
      → lookup id m ≡ some name
      → resolve_username py read_int numeric_id id users m ≡ (m, ok (some name))
  unfolding resolve_username
  resolve_known id users m name found = rw (found, resolve_username) refl

  resolve_unknown :
      (id : ℕ) (users : List LdapUser) (m : IdMap)
      → lookup id m ≡ none
      → resolve_username py read_int numeric_id id users m
        ≡ after_refresh py read_int numeric_id id (refresh py read_int numeric_id users m)
  unfolding resolve_username
  resolve_unknown id users m absent = rw (absent, resolve_username) refl

  get_user-finds :
      (known : String → Type 0) (prefixes : List String) (id : ℕ) (users : List LdapUser)
      (m : IdMap)
      → IsIdMap numeric_id m
      → IsMapOf known m
      → AreOf known users
      → AreDistinguished known numeric_id users
      → (get_user py read_int numeric_id prefixes id users m).1
        ≡ ok (shown prefixes (user_of_id id users))
  unfolding get_user
  get_user-finds known prefixes id users m h k all inj = elim (Option-cases (lookup id m)) [
    | inr (name, found) ↦
        rw (resolve_known id users m name found)
          (get_resolved_lem known prefixes id name users m inj (k id name found) (h id name found))
    | inl absent ↦ rw (resolve_unknown id users m absent) (
        let (fine, reads) = refresh_lem known id users m inj all k h in
        after (refresh py read_int numeric_id users m) (user_of_id id users) refl fine
          (reads ∙ ap (or_else (name_of (user_of_id id users))) absent))
  ]
    where
      after :
          (r : IdMap × Result (Unit {0})) (o : Option LdapUser)
          → user_of_id id users ≡ o
          → r.1 ≡ ok tt
          → lookup id r.0 ≡ or_else (name_of o) none
          → (get_resolved py read_int numeric_id prefixes users
              (after_refresh py read_int numeric_id id r)).1
            ≡ ok (shown prefixes (user_of_id id users))
      after (k, err x) o e fine reads = absurd (ground arith)
      after (k, ok _) none e fine reads =
          unfold after_refresh in rw (reads, e) (unfold get_resolved in refl)
      after (k, ok _) (some v) e fine reads =
          unfold after_refresh in
          rw reads (
            get_resolved_lem known prefixes id v.id users k inj
              (user_of_id-known known id users v all e) (user_of_id-id id users v e))

AreOf-In :
    (known : String → Type 0) (users : List LdapUser)
    → ((u : LdapUser) → In u users → known u.id)
    → AreOf known users
AreOf-In known [] h = tt
AreOf-In known (u ∷ users) h = (h u (here refl), AreOf-In known users (λ v i. h v (there i)))

-- `get_user` gives exactly the user whose id is made into the number from its digest, as the routes show users,
-- and `None` where there is none or it is hidden, whatever the client's map holds of earlier listings. This is
-- for a map that is right, and for users with whose numbers no other name collides that LLDAP lists or the map holds.
pub get_user_finds :
    (py : Python) (read_int : String → Option py.Num) (digest : String → List ℕ)
    (prefixes : List String) (id : ℕ) (users : List LdapUser) (m : IdMap)
    → IsIdMap (username_to_numeric_id digest) m
    → AreDistinguished (IsKnown users m) (username_to_numeric_id digest) users
    → (get_user py read_int (username_to_numeric_id digest) prefixes id users m).1
      ≡ ok (
          shown py read_int
            (username_to_numeric_id digest)
            prefixes
            (user_of_id py read_int (username_to_numeric_id digest) id users))
get_user_finds py read_int digest prefixes id users m h inj =
    get_user-finds py read_int (username_to_numeric_id digest) (IsKnown users m) prefixes id users m
      h (λ n name found. inr (n, found))
      (AreOf-In (IsKnown users m) users (λ u i. inl (u, i, refl))) inj
