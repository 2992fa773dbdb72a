-- ===== src/Users/Attributes/Parsed.antt =====
-- Attributes as the parser gives them, and their order-preserving changes.
use mathlib.Core.Path.{subst}
use fast_tak.Base.{String, ◌≡◌, refl, Option, none, some, List, [], ◌∷◌, string_eq, arith, All}
use fast_tak.Base.Dict.{lookup, insert, lookup-nil, lookup-cons}
use fast_tak.Base.Python.{Python}
use fast_tak.Users.Attributes.{
  Value, cleared, flag, number, word, Attrs, Stored, parse_value, insert_parsed, parse_onto,
  show_value, build_custom_attributes,
}
use fast_tak.Users.Attributes.Laws.{HasDistinctKeys, HasDistinctKeys-insert}
use fast_tak.Users.Attributes.Updates.{IsTyped, sent_value}

module _ (py : Python) (read_int : String → Option py.Num) where
  open py use {Num}

  -- A value as the parser gives it.
  abbrev pub IsParsed : String × Value Num → Type 0
  IsParsed e = IsTyped e.0 e.1 × (sent_value e.1 ≡ some e.1)

  pub IsParsed-parse_value :
      (name : String) (values : List String) (v : Value Num)
      → parse_value py read_int name values ≡ some v
      → IsParsed (name, v)
  unfolding parse_value
  IsParsed-parse_value name [] v h = absurd (cc)
  IsParsed-parse_value name (s ∷ values) cleared h = absurd (ground arith)
  IsParsed-parse_value name (s ∷ values) (flag b) h = (ground arith, refl)
  IsParsed-parse_value name (s ∷ values) (number n) h = (ground arith, refl)
  IsParsed-parse_value name (s ∷ values) (word t) h = (ground arith, refl)

  pub All-insert :
      (k : String) (v : Value Num) (d : Attrs Num)
      → IsParsed (k, v)
      → All IsParsed d
      → All IsParsed (insert k v d)
  unfolding insert
  All-insert k v [] own all = (own, tt)
  All-insert k v ((j, w) ∷ d) own (other, all) = elim (string_eq.dec k j) [
    | yes same ↦ ground (arith, same, own, all)
    | no differ ↦ ground (arith, differ, other, All-insert k v d own all)
  ]

  pub All-insert_parsed :
      (k : String) (v : Option (Value Num)) (values : List String) (d : Attrs Num)
      → parse_value py read_int k values ≡ v
      → All IsParsed d
      → All IsParsed (insert_parsed py read_int k v d)
  unfolding insert_parsed
  All-insert_parsed k none values d h all = all
  All-insert_parsed k (some v) values d h all =
      All-insert k v d (IsParsed-parse_value k values v h) all

  pub All-parse_onto :
      (d : Attrs Num) (attrs : Stored)
      → All IsParsed d
      → All IsParsed (parse_onto py read_int d attrs)
  unfolding parse_onto
  All-parse_onto d [] all = all
  All-parse_onto d ((k, values) ∷ attrs) all =
      All-parse_onto (insert_parsed py read_int k (parse_value py read_int k values) d) attrs
        (All-insert_parsed k (parse_value py read_int k values) values d refl all)

  pub build-insert :
      (k : String) (v : Value Num) (d : Attrs Num)
      → build_custom_attributes py read_int (insert k v d)
        ≡ insert k (show_value py read_int v) (build_custom_attributes py read_int d)
  unfolding build_custom_attributes insert
  build-insert k v [] = refl
  build-insert k v ((j, w) ∷ d) = ground (arith, build-insert k v d)

  pub distinct-insert :
      (k : String) (v : Value Num) (d : Attrs Num)
      → HasDistinctKeys (build_custom_attributes py read_int d)
      → HasDistinctKeys (build_custom_attributes py read_int (insert k v d))
  distinct-insert k v d distinct = rw (build-insert k v d) (
      HasDistinctKeys-insert k (show_value py read_int v) (build_custom_attributes py read_int d)
        distinct)

  pub distinct-insert_parsed :
      (k : String) (v : Option (Value Num)) (d : Attrs Num)
      → HasDistinctKeys (build_custom_attributes py read_int d)
      → HasDistinctKeys (build_custom_attributes py read_int (insert_parsed py read_int k v d))
  unfolding insert_parsed
  distinct-insert_parsed k none d distinct = distinct
  distinct-insert_parsed k (some v) d distinct = distinct-insert k v d distinct

  pub distinct-parse_onto :
      (d : Attrs Num) (attrs : Stored)
      → HasDistinctKeys (build_custom_attributes py read_int d)
      → HasDistinctKeys (build_custom_attributes py read_int (parse_onto py read_int d attrs))
  unfolding parse_onto
  distinct-parse_onto d [] distinct = distinct
  distinct-parse_onto d ((k, values) ∷ attrs) distinct =
      distinct-parse_onto (insert_parsed py read_int k (parse_value py read_int k values) d) attrs
        (distinct-insert_parsed k (parse_value py read_int k values) d distinct)

  pub All-IsTyped : (d : Attrs Num) → All IsParsed d → All (λ e. IsTyped e.0 e.1) d
  All-IsTyped [] all = tt
  All-IsTyped (e ∷ d) (own, all) = (own.0, All-IsTyped d all)

  pub lookup-parsed :
      (name : String) (v : Value Num) (d : Attrs Num)
      → All IsParsed d
      → lookup name d ≡ some v
      → sent_value v ≡ some v
  lookup-parsed name v [] all h = absurd (ground (arith, lookup-nil {V = Value Num} name))
  lookup-parsed name v ((k, w) ∷ d) (own, all) h = elim (string_eq.dec name k) [
    | yes same ↦
        let e : w ≡ v = ground (arith, same, lookup-cons name k w d) in
        subst (λ (x : Value Num). sent_value x ≡ some x) e own.1
    | no other ↦ lookup-parsed name v d all (ground (arith, other, lookup-cons name k w d))
  ]
