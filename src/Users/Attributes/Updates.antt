-- ===== src/Users/Attributes/Updates.antt =====
-- What an update of a user's attributes changes when they are read again.
use mathlib.Core.Path.{subst}
use fast_tak.Base.{
  String, ◌≡◌, refl, sym, ◌∙◌, ap, true, false, Option, none, some, [], ◌∷◌, ◌==◌, string_eq, arith,
  All, is_some, Option-cases, ◌⊎◌, inl, inr,
}
use fast_tak.Base.Dict.{lookup, lookup-nil, lookup-cons}
use fast_tak.Base.Python.{Python}
use fast_tak.Users.Attributes.{
  Value, cleared, flag, number, word, Attrs, Stored, parse_value, parse_attributes, show_value,
  build_custom_attributes, insert_attributes,
}
use fast_tak.Users.Attributes.Laws.{
  IsReadable, HasDistinctKeys, values_of, lists, lookup-parse_attributes,
  HasDistinctKeys-insert_attributes, values_of-insert_attributes,
}

-- A value that the attribute of this name may have: one of its own kind, or none at all.
abbrev pub IsTyped : {N : Type 0} → String → Value N → Type 0
IsTyped name cleared = Unit
IsTyped name (flag b) = (name ≡ "fastak_certs_revoked") ⊎ (name ≡ "is_active")
IsTyped name (number n) = name ≡ "fastak_expires"
IsTyped name (word s) = name ≡ "fastak_user_type"

abbrev pub Differ : String → String → Type 0
Differ a b = (a == b) ≡ false

-- The names differ, and so do the two words.
pub names-Differ :
    Differ "fastak_certs_revoked" "fastak_expires"
    × Differ "is_active" "fastak_expires"
    × Differ "is_active" "fastak_certs_revoked"
    × Differ "fastak_user_type" "fastak_expires"
    × Differ "fastak_user_type" "fastak_certs_revoked"
    × Differ "fastak_user_type" "is_active"
    × Differ "true" "false"
    × Differ "false" "true"
unfolding string_eq
names-Differ = (refl, refl, refl, refl, refl, refl, refl, refl)

-- What is read of an attribute that was sent.
abbrev pub sent_value : {N : Type 0} → Value N → Option (Value N)
sent_value cleared = none
sent_value (flag b) = some (flag b)
sent_value (number n) = some (number n)
sent_value (word s) = some (word s)

-- What is read after an update, of an attribute that was sent or not.
abbrev pub after_update : {N : Type 0} → Option (Value N) → Option (Value N) → Option (Value N)
after_update none before = before
after_update (some v) before = sent_value v

module _ (py : Python) (read_int : String → Option py.Num) (law : IsReadable py read_int) where
  open py use {Num}

  lower-true : py.lower "true" ≡ "true"
  lower-true = ap py.lower (sym law.lower-True) ∙ (law.lower_idempotent "True" ∙ law.lower-True)

  lower-false : py.lower "false" ≡ "false"
  lower-false = ap py.lower (sym law.lower-False) ∙ (law.lower_idempotent "False" ∙ law.lower-False)

  parse_value-show_value :
      (name : String) (v : Value Num)
      → IsTyped name v
      → parse_value py read_int name (show_value py read_int v) ≡ sent_value v
  unfolding parse_value show_value
  parse_value-show_value name cleared typed = refl
  parse_value-show_value name (flag true) (inl e) =
      ground (arith, e, names-Differ, lower-true, law.lower-True)
  parse_value-show_value name (flag false) (inl e) =
      ground (arith, e, names-Differ, lower-false, law.lower-False)
  parse_value-show_value name (flag true) (inr e) =
      ground (arith, e, names-Differ, lower-true, law.lower-True)
  parse_value-show_value name (flag false) (inr e) =
      ground (arith, e, names-Differ, lower-false, law.lower-False)
  parse_value-show_value name (number n) e = ground (arith, e, law.read_int-show n)
  parse_value-show_value name (word s) e = ground (arith, e, names-Differ)

  lists-build :
      (name : String) (d : Attrs Num)
      → lists name (build_custom_attributes py read_int d) ≡ is_some (lookup name d)
  unfolding build_custom_attributes
  lists-build name [] = ground (arith, lookup-nil {V = Value Num} name)
  lists-build name ((k, v) ∷ d) = ground (arith, lists-build name d, lookup-cons name k v d)

  values_of-build :
      (name : String) (v : Value Num) (d : Attrs Num)
      → lookup name d ≡ some v
      → values_of name (build_custom_attributes py read_int d) ≡ show_value py read_int v
  unfolding build_custom_attributes values_of
  values_of-build name v [] h = ground (arith, lookup-nil {V = Value Num} name)
  values_of-build name v ((k, w) ∷ d) h =
      ground (arith, values_of-build name v d, lookup-cons name k w d)

  IsTyped-at :
      (name : String) (v : Value Num) (d : Attrs Num)
      → All (λ e. IsTyped e.0 e.1) d
      → lookup name d ≡ some v
      → IsTyped name v
  IsTyped-at name v [] all h = absurd (ground (arith, lookup-nil {V = Value Num} name))
  IsTyped-at name v ((k, w) ∷ d) (own, all) h = elim (string_eq.dec name k) [
    | yes same ↦ subst2 same (ground (arith, lookup-cons name k w d)) own
    | no other ↦ IsTyped-at name v d all (ground (arith, other, lookup-cons name k w d))
  ]
    where
      subst2 : name ≡ k → w ≡ v → IsTyped k w → IsTyped name v
      subst2 p q t =
          subst (λ (x : Value Num). IsTyped name x) q
            (subst (λ (n : String). IsTyped n w) (sym p) t)

  -- After LLDAP has taken what `_build_custom_attributes` made of well-typed values under distinct names,
  -- an attribute that was sent is read with the value that was sent, one that was cleared is
  -- read as missing, and every other one is read as before.
  pub lookup-parse_attributes_sent :
      (name : String) (d : Attrs Num) (attrs : Stored)
      → HasDistinctKeys (build_custom_attributes py read_int d)
      → HasDistinctKeys attrs
      → All (λ e. IsTyped e.0 e.1) d
      → lookup name (
          parse_attributes py read_int
            (insert_attributes (build_custom_attributes py read_int d) attrs))
        ≡ after_update (lookup name d) (lookup name (parse_attributes py read_int attrs))
  lookup-parse_attributes_sent name d attrs distinct_sent distinct typed =
      let sent = build_custom_attributes py read_int d in
      let read_new =
        lookup-parse_attributes py read_int name (insert_attributes sent attrs)
          (HasDistinctKeys-insert_attributes sent attrs distinct) in
      let kept = values_of-insert_attributes name sent attrs distinct_sent in
      elim (Option-cases (lookup name d)) [
        | inl unsent ↦ ground (
          arith,
          read_new,
          kept,
          unsent,
          lists-build name d,
          lookup-parse_attributes py read_int name attrs distinct,
        )
        | inr (v, found) ↦ ground (
          arith,
          read_new,
          kept,
          found,
          lists-build name d,
          values_of-build name v d found,
          parse_value-show_value name v (IsTyped-at name v d typed found),
        )
      ]
