-- ===== src/Users/Attributes/Laws.antt =====
-- Attributes that LLDAP keeps are read back as they were sent.
use fast_tak.Base.{
  String, ◌≡◌, refl, Bool, true, false, Option, none, some, List, [], ◌∷◌, ◌==◌, string_eq,
  if◌then◌else◌, arith,
}
use fast_tak.Base.Dict.{lookup, insert, lookup-nil, lookup-insert}
use fast_tak.Base.Python.{Python}
use fast_tak.Users.Attributes.{
  Value, Attrs, Stored, parse_value, insert_parsed, parse_onto, parse_attributes, insert_attributes,
}

-- What the attributes rest on: a printed integer is read back, and the case folding of four texts.
pub record IsReadable (py : Python) (read_int : String → Option py.Num) : Type 0 where
  pub read_int-show : (n : py.Num) → read_int (py.show n) ≡ some n
  pub lower-True : py.lower "True" ≡ "true"
  pub lower-False : py.lower "False" ≡ "false"
  pub lower_idempotent : (s : String) → py.lower (py.lower s) ≡ py.lower s

abbrev or_parsed {ℓ} : {A : Type ℓ} → Option A → Option A → Option A
or_parsed (some v) other = some v
or_parsed none other = other

-- No name is listed twice.
abbrev pub lists : String → Stored → Bool
lists name [] = false
lists name ((k, v) ∷ attrs) = if name == k then true else lists name attrs

abbrev pub HasDistinctKeys : Stored → Type 0
HasDistinctKeys [] = Unit
HasDistinctKeys ((k, v) ∷ attrs) = (lists k attrs ≡ false) × HasDistinctKeys attrs

unfoldable pub values_of : String → Stored → List String
values_of name [] = []
values_of name ((k, v) ∷ attrs) = let rest = values_of name attrs in if name == k then v else rest

module _ (py : Python) (read_int : String → Option py.Num) where
  open py use {Num}

  lookup-insert_parsed :
      (name k : String) (v : Option (Value Num)) (result : Attrs Num)
      → lookup name (insert_parsed py read_int k v result)
        ≡ (if name == k then or_parsed v (lookup name result) else lookup name result)
  unfolding insert_parsed
  lookup-insert_parsed name k none result = ground arith
  lookup-insert_parsed name k (some v) result = ground (arith, lookup-insert name k v result)

  lookup-parse_onto_other :
      (name : String) (result : Attrs Num) (attrs : Stored)
      → lists name attrs ≡ false
      → lookup name (parse_onto py read_int result attrs) ≡ lookup name result
  unfolding parse_onto
  lookup-parse_onto_other name result [] h = refl
  lookup-parse_onto_other name result ((k, values) ∷ attrs) h = ground (
    arith,
    lookup-parse_onto_other name
        (insert_parsed py read_int k (parse_value py read_int k values) result) attrs,
    lookup-insert_parsed name k (parse_value py read_int k values) result,
  )

  lookup-parse_onto :
      (name : String) (result : Attrs Num) (attrs : Stored)
      → HasDistinctKeys attrs
      → lookup name result ≡ none
      → lookup name (parse_onto py read_int result attrs)
        ≡ parse_value py read_int name (values_of name attrs)
  unfolding parse_onto values_of
  lookup-parse_onto name result [] distinct absent = unfold parse_value in absent
  lookup-parse_onto name result ((k, values) ∷ attrs) (own, distinct) absent =
      elim (string_eq.dec name k) [
        | yes same ↦ ground (
          arith,
          same,
          lookup-parse_onto_other name
              (insert_parsed py read_int k (parse_value py read_int k values) result) attrs,
          lookup-insert_parsed name k (parse_value py read_int k values) result,
          absent,
        )
        | no other ↦ ground (
          arith,
          lookup-parse_onto name
              (insert_parsed py read_int k (parse_value py read_int k values) result) attrs
              distinct,
          lookup-insert_parsed name k (parse_value py read_int k values) result,
          absent,
        )
      ]

  -- A parsed attribute is its stored values, parsed.
  pub lookup-parse_attributes :
      (name : String) (attrs : Stored)
      → HasDistinctKeys attrs
      → lookup name (parse_attributes py read_int attrs)
        ≡ parse_value py read_int name (values_of name attrs)
  unfolding parse_attributes
  lookup-parse_attributes name attrs distinct =
      lookup-parse_onto name [] attrs distinct (lookup-nil name)

lists-insert :
    (name k : String) (v : List String) (attrs : Stored)
    → lists name (insert k v attrs) ≡ (if name == k then true else lists name attrs)
unfolding insert
lists-insert name k v [] = ground arith
lists-insert name k v ((j, w) ∷ attrs) = ground (arith, lists-insert name k v attrs)

pub HasDistinctKeys-insert :
    (k : String) (v : List String) (attrs : Stored)
    → HasDistinctKeys attrs
    → HasDistinctKeys (insert k v attrs)
unfolding insert
HasDistinctKeys-insert k v [] distinct = (refl, tt)
HasDistinctKeys-insert k v ((j, w) ∷ attrs) (own, distinct) = elim (string_eq.dec k j) [
  | yes same ↦ ground (arith, same, own, distinct)
  | no other ↦
      ground
        (arith, other, lists-insert j k v attrs, own, HasDistinctKeys-insert k v attrs distinct)
]

values_of-insert :
    (name k : String) (v : List String) (attrs : Stored)
    → values_of name (insert k v attrs) ≡ (if name == k then v else values_of name attrs)
unfolding values_of insert
values_of-insert name k v [] = ground arith
values_of-insert name k v ((j, w) ∷ attrs) = ground (arith, values_of-insert name k v attrs)

pub HasDistinctKeys-insert_attributes :
    (sent attrs : Stored) → HasDistinctKeys attrs → HasDistinctKeys (insert_attributes sent attrs)
unfolding insert_attributes
HasDistinctKeys-insert_attributes [] attrs distinct = distinct
HasDistinctKeys-insert_attributes ((k, v) ∷ sent) attrs distinct =
    HasDistinctKeys-insert_attributes sent (insert k v attrs)
      (HasDistinctKeys-insert k v attrs distinct)

-- What LLDAP keeps under a name: what was sent under it, or what was there.
pub values_of-insert_attributes :
    (name : String) (sent attrs : Stored)
    → HasDistinctKeys sent
    → values_of name (insert_attributes sent attrs)
      ≡ (if lists name sent then values_of name sent else values_of name attrs)
unfolding insert_attributes values_of
values_of-insert_attributes name [] attrs distinct = refl
values_of-insert_attributes name ((k, v) ∷ sent) attrs (own, distinct) =
    elim (string_eq.dec name k) [
      | yes same ↦ ground (
        arith,
        same,
        own,
        values_of-insert_attributes name sent (insert k v attrs) distinct,
        values_of-insert name k v attrs,
      )
      | no other ↦ ground (
        arith,
        other,
        values_of-insert_attributes name sent (insert k v attrs) distinct,
        values_of-insert name k v attrs,
      )
    ]
