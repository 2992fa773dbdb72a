-- ===== src/Access.antt =====
-- Who may use a route: the groups that `AuthContextMiddleware` of monitor/app/audit.py reads from the
-- headers, and `require_group` of monitor/app/api/auth_deps.py. A group's name is a list of code points.
pub mod Groups
mod Tests
use fast_tak.Base.{
  ℕ, String, ◌≡◌, Bool, true, false, not, Option, none, some, List, [], ◌∷◌, ◌++◌, contains, ◌==◌,
  nat_eq, if◌then◌else◌,
}
use fast_tak.Base.Result.{Result, ok, err, http_exception}
use fast_tak.Base.Text.{codes, codes_eq, strip}

abbrev pub Group : Type 0
Group = List ℕ

-- One more character in front of the first part.
unfoldable pub cons_head : ℕ → List Group → List Group
cons_head x [] = (x ∷ []) ∷ []
cons_head x (part ∷ parts) = (x ∷ part) ∷ parts

-- `header.split(",")`
unfoldable pub split_commas : List ℕ → List Group
split_commas [] = [] ∷ []
split_commas (x ∷ xs) =
    let rest = split_commas xs in if x == b',' then [] ∷ rest else cons_head x rest

-- `[g for g in (s.strip() for s in parts) if g]`
unfoldable pub stripped : List Group → List Group
stripped [] = []
stripped (s ∷ parts) = let rest = stripped parts in if strip s == [] then rest else strip s ∷ rest

-- The headers that the proxy sets. They may be missing.
pub record Headers : Type 0 where
  pub remote_user : Option Group
  pub remote_groups : Option (List ℕ)

abbrev pub or_unknown : Option Group → Group
or_unknown none = codes "unknown"
or_unknown (some name) = if name == [] then codes "unknown" else name

abbrev pub or_empty : Option (List ℕ) → List ℕ
or_empty none = []
or_empty (some header) = header

pub record AuthContext : Type 0 where
  pub username : Group
  pub groups : List Group

unfoldable pub auth_context : Headers → AuthContext
auth_context h = record {
  username = or_unknown h.remote_user;
  groups = stripped (split_commas (or_empty h.remote_groups));
}

-- The group that the environment names, or the default.
abbrev pub required_group : Option Group → Group → Group
required_group none default = default
required_group (some name) default = name

-- The dependency that `require_group` gives to a route.
unfoldable pub require_group : Option Group → Group → AuthContext → Result (Unit {0})
require_group variable default context =
    if contains context.groups (required_group variable default)
    then ok tt
    else err (http_exception 403 "requires group membership")
