-- ===== src/Users/Groups.antt =====
-- The groups of a user (`set_user_groups` of monitor/app/api/users/identity.py): which memberships a
-- replacement takes away and which it adds.
pub mod Calls
use fast_tak.Base.{
  ℕ, String, ◌<>◌, ◌≡◌, Bool, true, false, not, ◌&&◌, Option, none, some, List, [], ◌∷◌, ◌++◌,
  contains, ◌==◌, string_eq, starts_with, is_some, if◌then◌else◌,
}
use fast_tak.Base.Dict.{Dict, lookup}

pub data GroupCall : Type 0 where
  remove_user_from_group : ℕ → GroupCall
  add_user_to_group : ℕ → GroupCall

abbrev pub is_tak : String → Bool
is_tak name = starts_with name "tak_"

abbrev pub tak_name : String → String
tak_name name = if not (is_tak name) then "tak_" <> name else name

-- The set of the names, each of them once.
unfoldable pub desired_tak_names : List String → List String
desired_tak_names [] = []
desired_tak_names (name ∷ names) =
    let rest = desired_tak_names names in
    if contains rest (tak_name name) then rest else tak_name name ∷ rest

unfoldable pub removals : List String → Dict String ℕ → List GroupCall
removals desired [] = []
removals desired ((name, id) ∷ current) =
    let rest = removals desired current in
    if is_tak name && not (contains desired name) then remove_user_from_group id ∷ rest else rest

abbrev pub add_if : Bool → Option ℕ → List GroupCall → List GroupCall
add_if true (some id) rest = add_user_to_group id ∷ rest
add_if true none rest = rest
add_if false id rest = rest

unfoldable pub additions : List String → Dict String ℕ → Dict String ℕ → List GroupCall
additions [] current known = []
additions (name ∷ desired) current known =
    add_if (not (is_some (lookup name current))) (lookup name known)
      (additions desired current known)

-- The calls, where LLDAP accepts each of them: `current` holds the user's groups and `known` all groups,
-- both as ids by name.
unfoldable pub set_user_groups : List String → Dict String ℕ → Dict String ℕ → List GroupCall
set_user_groups names current known =
    let desired = desired_tak_names names in
    removals desired current ++ additions desired current known
