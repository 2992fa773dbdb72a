-- ===== src/Users/Update.antt =====
-- The creation and the update of a user in LLDAP (`create_user` and `update_user` of
-- monitor/app/api/users/identity.py): the attributes that are sent, and the user that LLDAP then has.
pub mod Entries
pub mod Merged
pub mod Meaning
use fast_tak.Base.Int.{ℤ, pos, negsuc}
use fast_tak.Base.{
  suc, leb, ◌+◌, ◌-◌, ◌*◌, ℕ, String, ◌<>◌, ◌≡◌, Bool, true, false, Option, none, some, List, [],
  ◌∷◌, ◌++◌, ◌==◌, string_eq, is_some, if◌then◌else◌,
}
use fast_tak.Base.Dict.{Dict, lookup, insert, erase}
use fast_tak.Base.Python.{Python}
use fast_tak.Users.Attributes.{
  Value, cleared, flag, number, word, Attrs, Stored, Group, LdapUser, parse_attributes,
  build_custom_attributes, insert_attributes,
}

-- The keyword arguments, each of which may be absent. `ttl_hours` may be there and be `None`.
pub record Changes : Type 0 where
  pub name : Option String
  pub is_active : Option Bool
  pub ttl_hours : Option (Option ℤ)

-- `int(time.time() + ttl_hours * 3600)`, where the clock shows whole seconds.
unfoldable pub expiry_time : ℕ → ℤ → ℤ
expiry_time time (pos hours) = pos (time + hours * 3600)
expiry_time time (negsuc n) =
    let back = suc n * 3600 in if leb back time then pos (time - back) else negsuc (back - suc time)

-- The same as a value of an attribute.
abbrev pub expiry_by {ℓ} : {N : Type ℓ} → (ℤ → N) → ℕ → ℤ → N
expiry_by of_int time hours = of_int (expiry_time time hours)

-- The existing attributes, and the names that are to be cleared.
pub record Merge (N : Type 0) : Type 0 where
  pub existing : Attrs N
  pub clears : List String

module _ (py : Python) (read_int : String → Option py.Num) where
  open py use {Num}

  -- `if "is_active" in kwargs`
  unfoldable pub active_update : Option Bool → Attrs Num
  active_update none = []
  active_update (some true) = ("is_active", flag true) ∷ ("fastak_certs_revoked", flag false) ∷ []
  active_update (some false) = ("is_active", flag false) ∷ []

  -- `if "fastak_certs_revoked" not in attrs_update`
  unfoldable pub unless_there : Attrs Num → Attrs Num
  unless_there attrs =
      if is_some (lookup "fastak_certs_revoked" attrs)
      then attrs
      else insert "fastak_certs_revoked" (flag false) attrs

  -- `if "ttl_hours" in kwargs`, with the time that so many hours lead to.
  unfoldable pub ttl_update : (ℤ → Num) → Option (Option ℤ) → Attrs Num → Attrs Num
  ttl_update expires_at none attrs = attrs
  ttl_update expires_at (some none) attrs =
      insert "fastak_certs_revoked" cleared (insert "fastak_expires" cleared attrs)
  ttl_update expires_at (some (some hours)) attrs =
      unless_there (insert "fastak_expires" (number (expires_at hours)) attrs)

  unfoldable pub attrs_update : (ℤ → Num) → Changes → Attrs Num
  attrs_update expires_at c = ttl_update expires_at c.ttl_hours (active_update c.is_active)

  -- One turn of the loop that merges the update into the existing attributes.
  unfoldable pub merge_one : String → Value Num → Merge Num → Merge Num
  merge_one k cleared m = record { existing = erase k m.existing; clears = m.clears ++ k ∷ [] }
  merge_one k (flag b) m = record m { existing = insert k (flag b) m.existing }
  merge_one k (number n) m = record m { existing = insert k (number n) m.existing }
  merge_one k (word s) m = record m { existing = insert k (word s) m.existing }

  unfoldable pub merge_all : Attrs Num → Merge Num → Merge Num
  merge_all [] m = m
  merge_all ((k, v) ∷ update) m = merge_all update (merge_one k v m)

  -- `{"name": name, "value": []}` for each cleared attribute.
  unfoldable pub empties : List String → Stored
  empties [] = []
  empties (k ∷ clears) = (k, []) ∷ empties clears

  -- What `insertAttributes` gets, if anything is to be updated.
  unfoldable pub sent_attributes : Attrs Num → Stored → Option Stored
  sent_attributes [] attrs = none
  sent_attributes (entry ∷ update) attrs =
      let m =
        merge_all (entry ∷ update)
          (record { existing = parse_attributes py read_int attrs; clears = [] }) in
      some (build_custom_attributes py read_int m.existing ++ empties m.clears)

  -- What LLDAP makes of the mutation.
  unfoldable pub apply_attributes : Option Stored → LdapUser → LdapUser
  apply_attributes none u = u
  apply_attributes (some sent) u = record u { attributes = insert_attributes sent u.attributes }

  unfoldable pub apply_name : Option String → LdapUser → LdapUser
  apply_name none u = u
  apply_name (some name) u = record u { display_name = name }

  -- `update_user` of a user that LLDAP has.
  unfoldable pub update_user : (ℤ → Num) → ℕ → Changes → LdapUser → LdapUser
  update_user of_int time c u =
      apply_attributes (sent_attributes (attrs_update (expiry_by of_int time) c) u.attributes)
        (apply_name c.name u)

  unfoldable pub expiry_of : (ℤ → Num) → Option ℤ → Attrs Num → Attrs Num
  expiry_of expires_at none attrs = attrs
  expiry_of expires_at (some hours) attrs =
      insert "fastak_expires" (number (expires_at hours)) attrs

  unfoldable pub type_of : Option String → Attrs Num → Attrs Num
  type_of none attrs = attrs
  type_of (some t) attrs = insert "fastak_user_type" (word t) attrs

  -- The custom attributes of `create_user`.
  unfoldable pub new_attributes : (ℤ → Num) → Option ℤ → Option String → Attrs Num
  new_attributes expires_at ttl_hours user_type =
      type_of user_type (expiry_of expires_at ttl_hours (("fastak_certs_revoked", flag false) ∷ []))

  -- The user that LLDAP has after the two mutations, before it joins its groups.
  unfoldable pub create_user : (ℤ → Num) → ℕ → String → String → Option ℤ → Option String → LdapUser
  create_user of_int time username name ttl_hours user_type = record {
    id = username;
    display_name = name;
    attributes =
        insert_attributes
          (build_custom_attributes py read_int
            (new_attributes (expiry_by of_int time) ttl_hours user_type))
          [];
    groups = [];
  }
