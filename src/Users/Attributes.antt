-- ===== src/Users/Attributes.antt =====
-- The custom attributes of a user (`_parse_attributes`, `_build_custom_attributes` and the updates of
-- monitor/app/api/users/identity.py), and how LLDAP keeps what it is sent.
pub mod Laws
pub mod Updates
pub mod Parsed
pub mod Pending
use fast_tak.Base.{
  ℕ, String, ◌≡◌, Bool, true, false, not, ◌&&◌, ◌||◌, Option, none, some, List, [], ◌∷◌, ◌++◌, ◌==◌,
  string_eq, if◌then◌else◌, is_some,
}
use fast_tak.Base.Dict.{Dict, lookup, lookup_or, insert, erase}
use fast_tak.Base.Python.{Python}

-- A value of Python's dictionary of attributes, where `None` clears the attribute.
pub data Value (N : Type 0) : Type 0 where
  cleared : Value N
  flag : Bool → Value N
  number : N → Value N
  word : String → Value N

abbrev pub Attrs : Type 0 → Type 0
Attrs N = Dict String (Value N)

-- LLDAP's form: a list of texts under each name.
abbrev pub Stored : Type 0
Stored = Dict String (List String)

-- The fields of a user in LLDAP.
pub record Group : Type 0 where
  pub group_id : ℕ
  pub group_name : String

pub record LdapUser : Type 0 where
  pub id : String
  pub display_name : String
  pub attributes : Stored
  pub groups : List Group

-- What LLDAP keeps after `insertAttributes`: each listed attribute gets the listed values.
unfoldable pub insert_attributes : Stored → Stored → Stored
insert_attributes [] attrs = attrs
insert_attributes ((name, values) ∷ sent) attrs = insert_attributes sent (insert name values attrs)

module _ (py : Python) (read_int : String → Option py.Num) where
  open py use {Num, show, lower, leb}

  integer : Option Num → Option (Value Num)
  integer none = none
  integer (some n) = some (number n)

  -- The value of a known attribute, by its first text; `none` where the loop goes on.
  unfoldable pub parse_value : String → List String → Option (Value Num)
  unfolding integer
  parse_value name [] = none
  parse_value name (v ∷ vs) =
      if name == "fastak_expires"
      then integer (read_int v)
      else if name == "fastak_certs_revoked"
      then some (flag (lower v == "true"))
      else if name == "is_active"
      then some (flag (not (lower v == "false")))
      else if name == "fastak_user_type"
      then some (word v)
      else none

  unfoldable pub insert_parsed : String → Option (Value Num) → Attrs Num → Attrs Num
  insert_parsed name none result = result
  insert_parsed name (some v) result = insert name v result

  unfoldable pub parse_onto : Attrs Num → Stored → Attrs Num
  parse_onto result [] = result
  parse_onto result ((name, values) ∷ attrs) =
      parse_onto (insert_parsed name (parse_value name values) result) attrs

  unfoldable pub parse_attributes : Stored → Attrs Num
  parse_attributes attrs = parse_onto [] attrs

  -- `str(value)`, and `str(value).lower()` of a Boolean.
  unfoldable pub show_value : Value Num → List String
  show_value cleared = []
  show_value (flag true) = lower "True" ∷ []
  show_value (flag false) = lower "False" ∷ []
  show_value (number n) = show n ∷ []
  show_value (word s) = s ∷ []

  unfoldable pub build_custom_attributes : Attrs Num → Stored
  build_custom_attributes [] = []
  build_custom_attributes ((name, v) ∷ attrs) = (name, show_value v) ∷ build_custom_attributes attrs

  -- What `deactivate_user` sends.
  abbrev pub deactivation : Attrs Num
  deactivation = ("is_active", flag false) ∷ []

  -- What `mark_certs_revoked` sends, for a user with these attributes.
  unfoldable pub revocation : Stored → Attrs Num
  revocation attrs = insert "fastak_certs_revoked" (flag true) (parse_attributes attrs)

  -- `attrs.get("fastak_certs_revoked", False)`, as a test.
  abbrev pub is_true : Option (Value Num) → Bool
  is_true (some (flag b)) = b
  is_true _ = false

  unfoldable pub is_expired : Num → Option (Value Num) → Bool
  is_expired now (some (number n)) = leb n now
  is_expired now _ = false

  -- The test of `get_users_pending_expiry`.
  unfoldable pub is_pending : Num → Stored → Bool
  is_pending now attrs =
      let parsed = parse_attributes attrs in
      not (is_true (lookup "fastak_certs_revoked" parsed))
      && is_expired now (lookup "fastak_expires" parsed)

  -- `attrs.get("is_active", True)`
  unfoldable pub is_active : Stored → Bool
  is_active attrs = elim (lookup "is_active" (parse_attributes attrs)) [
    | none ↦ true
    | some v ↦ is_true (some v)
  ]
