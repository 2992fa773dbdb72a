-- ===== src/Users/Update/Entries.antt =====
-- Attributes as a list of entries: what is appended and erased in it.
use fast_tak.Base.{
  String, ◌≡◌, refl, ap, ◌∙◌, true, false, Option, none, some, List, [], ◌∷◌, ◌++◌, string_eq,
  arith, All, is_some,
}
use fast_tak.Base.Dict.{lookup, erase, lookup-nil, lookup-cons, lookup-erase}
use fast_tak.Base.Python.{Python}
use fast_tak.Users.Attributes.{Value, cleared, Attrs, Stored, build_custom_attributes, show_value}
use fast_tak.Users.Attributes.Laws.{HasDistinctKeys, lists}
use fast_tak.Users.Attributes.Parsed.{IsParsed}
use fast_tak.Users.Update.{Merge, empties}

abbrev pub or_else {ℓ} : {A : Type ℓ} → Option A → Option A → Option A
or_else (some v) other = some v
or_else none other = other

module _ (py : Python) (read_int : String → Option py.Num) where
  open py use {Num}

  abbrev pub cleared_of : List String → Attrs Num
  cleared_of [] = []
  cleared_of (k ∷ clears) = (k, cleared) ∷ cleared_of clears

  -- What is sent, as values.
  abbrev pub as_attrs : Merge Num → Attrs Num
  as_attrs m = m.existing ++ cleared_of m.clears

  abbrev pub AreDistinct : Attrs Num → Type 0
  AreDistinct d = HasDistinctKeys (build_custom_attributes py read_int d)

  build-append :
      (d e : Attrs Num)
      → build_custom_attributes py read_int (d ++ e)
        ≡ build_custom_attributes py read_int d ++ build_custom_attributes py read_int e
  unfolding build_custom_attributes
  build-append [] e = refl
  build-append ((k, v) ∷ d) e =
      ap (λ (s : Stored). (k, show_value py read_int v) ∷ s) (build-append d e)

  build-cleared :
      (clears : List String)
      → build_custom_attributes py read_int (cleared_of clears) ≡ empties py read_int clears
  unfolding build_custom_attributes empties show_value
  build-cleared [] = refl
  build-cleared (k ∷ clears) = ap (λ (s : Stored). (k, []) ∷ s) (build-cleared clears)

  pub build-as_attrs :
      (m : Merge Num)
      → build_custom_attributes py read_int (as_attrs m)
        ≡ build_custom_attributes py read_int m.existing ++ empties py read_int m.clears
  build-as_attrs m =
      build-append m.existing (cleared_of m.clears)
      ∙ ap (λ (s : Stored). build_custom_attributes py read_int m.existing ++ s)
          (build-cleared m.clears)

  pub lookup-append :
      (name : String) (d e : Attrs Num)
      → lookup name (d ++ e) ≡ or_else (lookup name d) (lookup name e)
  lookup-append name [] e = rw (lookup-nil {V = Value Num} name) refl
  lookup-append name ((k, v) ∷ d) e =
      ground (arith, lookup-cons name k v d, lookup-cons name k v (d ++ e), lookup-append name d e)

  pub lists-lookup :
      (name : String) (d : Attrs Num)
      → lists name (build_custom_attributes py read_int d) ≡ is_some (lookup name d)
  unfolding build_custom_attributes
  lists-lookup name [] = ground (arith, lookup-nil {V = Value Num} name)
  lists-lookup name ((k, v) ∷ d) = ground (arith, lists-lookup name d, lookup-cons name k v d)

  -- No name is in both.
  abbrev pub AreDisjoint : Attrs Num → Attrs Num → Type 0
  AreDisjoint d e = (name : String) → is_some (lookup name e) ≡ true → lookup name d ≡ none

  pub distinct-append :
      (d e : Attrs Num) → AreDistinct d → AreDistinct e → AreDisjoint d e → AreDistinct (d ++ e)
  unfolding build_custom_attributes
  distinct-append [] e hd he apart = he
  distinct-append ((k, v) ∷ d) e (own, hd) he apart =
      (absent, distinct-append d e hd he (λ name i. tail_apart name (apart name i)))
    where
      tail_apart : (name : String) → lookup name ((k, v) ∷ d) ≡ none → lookup name d ≡ none
      tail_apart name h = ground (arith, lookup-cons name k v d, h)

      not_there : (o : Option (Value Num)) → lookup k e ≡ o → is_some o ≡ false
      not_there none h = refl
      not_there (some w) h = ground (arith, apart k (ap is_some h), lookup-cons k k v d)

      absent : lists k (build_custom_attributes py read_int (d ++ e)) ≡ false
      absent = ground (
        arith,
        lists-lookup k (d ++ e),
        lookup-append k d e,
        lists-lookup k d,
        own,
        not_there (lookup k e) refl,
      )

  pub distinct-erase : (k : String) (d : Attrs Num) → AreDistinct d → AreDistinct (erase k d)
  unfolding erase build_custom_attributes
  distinct-erase k [] h = h
  distinct-erase k ((j, v) ∷ d) (own, h) = elim (string_eq.dec k j) [
    | yes same ↦ ground (arith, same, distinct-erase k d h)
    | no differ ↦ ground (
      arith,
      differ,
      own,
      distinct-erase k d h,
      lists-lookup j (erase k d),
      lists-lookup j d,
      lookup-erase j k d,
    )
  ]

  pub All-erase :
      (k : String) (d : Attrs Num)
      → All (IsParsed py read_int) d
      → All (IsParsed py read_int) (erase k d)
  unfolding erase
  All-erase k [] h = h
  All-erase k ((j, v) ∷ d) (own, h) = elim (string_eq.dec k j) [
    | yes same ↦ ground (arith, same, All-erase k d h)
    | no differ ↦ ground (arith, differ, own, All-erase k d h)
  ]
