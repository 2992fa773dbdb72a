-- ===== src/Users/GroupList.antt =====
-- The groups that the routes show, make and delete (`list_groups`, `get_group`, `create_group`,
-- `delete_group` and `_ensure_user_groups` of monitor/app/api/users/identity.py, and their routes in
-- monitor/app/api/users/router.py).
pub mod Roles
use Prim.Native.String.{String}
use fast_tak.Base.{
  ℕ, zero, suc, ◌<>◌, ◌≡◌, Bool, true, false, not, ◌&&◌, Option, none, some, List, [], ◌∷◌, ◌++◌,
  ◌==◌, nat_eq, string_eq, starts_with, if◌then◌else◌,
}
use fast_tak.Base.Dict.{Dict, lookup}
use fast_tak.Base.Result.{Result, ok, err, http_exception}
use fast_tak.Users.Attributes.{Group}
use fast_tak.Users.Groups.{is_tak, tak_name}

-- `text[n:]`
unfoldable pub drop_chars : ℕ → String → String
drop_chars zero s = s
drop_chars (suc n) String.[] = String.[]
drop_chars (suc n) (String.◌∷◌ c s) = drop_chars n s

-- A group as the routes show it.
pub record GroupView : Type 0 where
  pub id : ℕ
  pub name : String

abbrev pub view : Group → GroupView
view g = record { id = g.group_id; name = drop_chars 4 g.group_name }

unfoldable pub list_groups : List Group → List GroupView
list_groups [] = []
list_groups (g ∷ groups) =
    let rest = list_groups groups in
    if is_tak g.group_name && not (g.group_name == "tak_ROLE_ADMIN") then view g ∷ rest else rest

unfoldable pub find_group : ℕ → List Group → Option Group
find_group id [] = none
find_group id (g ∷ groups) =
    let rest = find_group id groups in if g.group_id == id then some g else rest

-- `get_group`, with the number that the path's text is read as; its members are not shown here.
unfoldable pub get_group : Option ℕ → List Group → Option GroupView
get_group none groups = none
get_group (some id) groups = elim (find_group id groups) [
  | none ↦ none
  | some g ↦ if is_tak g.group_name then some (view g) else none
]

pub data GroupEdit : Type 0 where
  create_group : String → GroupEdit
  delete_group add_user_to_group : ℕ → GroupEdit

abbrev pub Outcome : Type 0
Outcome = List GroupEdit × Result (Unit {0})

unfoldable pub delete_viewed : Option ℕ → Option GroupView → (ℕ → Result (Unit {0})) → Outcome
delete_viewed id none deletes = ([], err (http_exception 404 "Group not found"))
delete_viewed none (some g) deletes = ([], ok tt)
delete_viewed (some id) (some g) deletes = (delete_group id ∷ [], deletes id)

-- The route that deletes a group.
unfoldable pub delete_route : Option ℕ → List Group → (ℕ → Result (Unit {0})) → Outcome
delete_route id groups deletes = delete_viewed id (get_group id groups) deletes

-- The name that `create_group` sends, and the one that it returns.
unfoldable pub created_names : String → String × String
created_names name = (tak_name name, drop_chars 4 (tak_name name))

-- `_ensure_user_groups`, where LLDAP accepts each call and answers a new group with an id.
unfoldable pub ensure_one : Option ℕ → String → (String → ℕ) → List GroupEdit
ensure_one (some id) name created = add_user_to_group id ∷ []
ensure_one none name created = create_group name ∷ add_user_to_group (created name) ∷ []

unfoldable pub ensure_user_groups : List String → Dict String ℕ → (String → ℕ) → List GroupEdit
ensure_user_groups [] known created = []
ensure_user_groups (name ∷ names) known created =
    ensure_one (lookup (tak_name name) known) (tak_name name) created
    ++ ensure_user_groups names known created
