-- ===== src/Users/Update/Merged.antt =====
-- The merge of an update into the existing attributes, as one list of attributes that is sent.
use fast_tak.Base.{
  String, ◌≡◌, refl, ap, true, false, Option, none, some, List, [], ◌∷◌, ◌++◌, ◌==◌, string_eq,
  arith, All, is_some, if◌then◌else◌,
}
use fast_tak.Base.Dict.{lookup, insert, erase, lookup-nil, lookup-cons, lookup-insert, lookup-erase}
use fast_tak.Base.Python.{Python}
use fast_tak.Users.Attributes.{Value, cleared, flag, number, word, Attrs, build_custom_attributes}
use fast_tak.Users.Attributes.Laws.{lists}
use fast_tak.Users.Attributes.Parsed.{IsParsed, All-insert, distinct-insert}
use fast_tak.Users.Attributes.Updates.{IsTyped}
use fast_tak.Users.Update.{Merge, merge_one, merge_all}
use fast_tak.Users.Update.Entries.{
  or_else, cleared_of, as_attrs, AreDistinct, lookup-append, lists-lookup, AreDisjoint,
  distinct-append, distinct-erase, All-erase,
}

module _ (py : Python) (read_int : String → Option py.Num) where
  open py use {Num}

  -- The state of the loop.
  pub record IsMerge (m : Merge Num) : Type 0 where
    pub parsed : All (IsParsed py read_int) m.existing
    pub distinct_existing : AreDistinct py read_int m.existing
    pub distinct_clears : AreDistinct py read_int (cleared_of py read_int m.clears)
    pub apart : AreDisjoint py read_int m.existing (cleared_of py read_int m.clears)

  -- The name is not cleared so far.
  abbrev pub IsFresh : String → Merge Num → Type 0
  IsFresh k m = lookup k (cleared_of py read_int m.clears) ≡ none

  lookup-cleared_of :
      (name k : String) (clears : List String)
      → lookup name (cleared_of py read_int (clears ++ k ∷ []))
        ≡ or_else
            (lookup name (cleared_of py read_int clears))
            (if name == k then some cleared else none)
  lookup-cleared_of name k [] =
      ground (arith, lookup-cons {V = Value Num} name k cleared [], lookup-nil {V = Value Num} name)
  lookup-cleared_of name k (j ∷ clears) = ground (
    arith,
    lookup-cons name j cleared (cleared_of py read_int clears),
    lookup-cons name j cleared (cleared_of py read_int (clears ++ k ∷ [])),
    lookup-cleared_of name k clears,
  )

  distinct-cleared_of :
      (k : String) (clears : List String)
      → AreDistinct py read_int (cleared_of py read_int clears)
      → lookup k (cleared_of py read_int clears) ≡ none
      → AreDistinct py read_int (cleared_of py read_int (clears ++ k ∷ []))
  unfolding build_custom_attributes
  distinct-cleared_of k [] h fresh = (refl, tt)
  distinct-cleared_of k (j ∷ clears) (own, h) fresh = (
    ground (
      arith,
      own,
      lookup-cons k j cleared (cleared_of py read_int clears),
      fresh,
      lookup-cleared_of j k clears,
      lists-lookup py read_int j (cleared_of py read_int (clears ++ k ∷ [])),
      lists-lookup py read_int j (cleared_of py read_int clears),
    ),
    distinct-cleared_of k clears h
        (ground (arith, lookup-cons k j cleared (cleared_of py read_int clears), fresh)),
  )

  module _ (k : String) (m : Merge Num) (good : IsMerge m) (fresh : IsFresh k m) where
    IsMerge-clear : IsMerge (record { existing = erase k m.existing; clears = m.clears ++ k ∷ [] })
    IsMerge-clear = record {
      parsed = All-erase py read_int k m.existing good.parsed;
      distinct_existing = distinct-erase py read_int k m.existing good.distinct_existing;
      distinct_clears = distinct-cleared_of k m.clears good.distinct_clears fresh;
      apart = λ name i. apart_from name (lookup name (cleared_of py read_int m.clears)) refl i;
    }
      where
        apart_from :
            (name : String) (o : Option (Value Num))
            → lookup name (cleared_of py read_int m.clears) ≡ o
            → is_some (lookup name (cleared_of py read_int (m.clears ++ k ∷ []))) ≡ true
            → lookup name (erase k m.existing) ≡ none
        apart_from name none e i =
            ground (arith, e, i, lookup-cleared_of name k m.clears, lookup-erase name k m.existing)
        apart_from name (some v) e i =
            ground (arith, lookup-erase name k m.existing, good.apart name (ap is_some e))

    IsMerge-set :
        (v : Value Num)
        → IsParsed py read_int (k, v)
        → IsMerge (record m { existing = insert k v m.existing })
    IsMerge-set v own = record {
      parsed = All-insert py read_int k v m.existing own good.parsed;
      distinct_existing = distinct-insert py read_int k v m.existing good.distinct_existing;
      distinct_clears = good.distinct_clears;
      apart =
          λ name i. ground (arith, i, fresh, lookup-insert name k v m.existing, good.apart name i);
    }

    -- What is sent under a name after one turn.
    lookup-clear :
        (name : String)
        → lookup name (erase k m.existing ++ cleared_of py read_int (m.clears ++ k ∷ []))
          ≡ (if name == k then some cleared else lookup name (as_attrs py read_int m))
    lookup-clear name = elim (string_eq.dec name k) [
      | yes same ↦ ground (
        arith,
        same,
        fresh,
        lookup-append py read_int name (erase k m.existing)
            (cleared_of py read_int (m.clears ++ k ∷ [])),
        lookup-erase name k m.existing,
        lookup-cleared_of name k m.clears,
      )
      | no differ ↦ ground (
        arith,
        differ,
        lookup-append py read_int name (erase k m.existing)
            (cleared_of py read_int (m.clears ++ k ∷ [])),
        lookup-append py read_int name m.existing (cleared_of py read_int m.clears),
        lookup-erase name k m.existing,
        lookup-cleared_of name k m.clears,
        or_else_none (lookup name (cleared_of py read_int m.clears)),
      )
    ]
      where
        or_else_none : (o : Option (Value Num)) → or_else o none ≡ o
        or_else_none none = refl
        or_else_none (some v) = refl

    lookup-set :
        (name : String) (v : Value Num)
        → lookup name (insert k v m.existing ++ cleared_of py read_int m.clears)
          ≡ (if name == k then some v else lookup name (as_attrs py read_int m))
    lookup-set name v = ground (
      arith,
      lookup-append py read_int name (insert k v m.existing) (cleared_of py read_int m.clears),
      lookup-append py read_int name m.existing (cleared_of py read_int m.clears),
      lookup-insert name k v m.existing,
    )

    merge_one-IsMerge : (v : Value Num) → IsTyped k v → IsMerge (merge_one py read_int k v m)
    unfolding merge_one
    merge_one-IsMerge cleared typed = IsMerge-clear
    merge_one-IsMerge (flag b) typed = IsMerge-set (flag b) (typed, refl)
    merge_one-IsMerge (number n) typed = IsMerge-set (number n) (typed, refl)
    merge_one-IsMerge (word s) typed = IsMerge-set (word s) (typed, refl)

    lookup-merge_one :
        (name : String) (v : Value Num)
        → lookup name (as_attrs py read_int (merge_one py read_int k v m))
          ≡ (if name == k then some v else lookup name (as_attrs py read_int m))
    unfolding merge_one
    lookup-merge_one name cleared = lookup-clear name
    lookup-merge_one name (flag b) = lookup-set name (flag b)
    lookup-merge_one name (number n) = lookup-set name (number n)
    lookup-merge_one name (word s) = lookup-set name (word s)

    IsFresh-merge_one :
        (name : String) (v : Value Num)
        → (name == k) ≡ false
        → IsFresh name m
        → IsFresh name (merge_one py read_int k v m)
    unfolding merge_one
    IsFresh-merge_one name cleared differ h =
        ground (arith, differ, h, lookup-cleared_of name k m.clears)
    IsFresh-merge_one name (flag b) differ h = h
    IsFresh-merge_one name (number n) differ h = h
    IsFresh-merge_one name (word s) differ h = h

  -- The entries of an update: their names differ, none is cleared yet, and their values are of their kinds.
  abbrev pub AreReady : Attrs Num → Merge Num → Type 0
  AreReady update m =
      AreDistinct py read_int update
      × All (λ e. IsFresh e.0 m) update
      × All (λ e. IsTyped e.0 e.1) update

  All-IsFresh :
      (k : String) (v : Value Num) (m : Merge Num) (update : Attrs Num)
      → IsMerge m
      → IsFresh k m
      → lists k (build_custom_attributes py read_int update) ≡ false
      → All (λ e. IsFresh e.0 m) update
      → All (λ e. IsFresh e.0 (merge_one py read_int k v m)) update
  unfolding build_custom_attributes
  All-IsFresh k v m [] good fresh absent all = tt
  All-IsFresh k v m ((j, w) ∷ update) good fresh absent (own, all) = elim (string_eq.dec j k) [
    | yes same ↦ absurd (ground (arith, same, absent))
    | no differ ↦ (
      IsFresh-merge_one k m good fresh j v (ground (arith, differ)) own,
      All-IsFresh k v m update good fresh (ground (arith, absent)) all,
    )
  ]

  -- The whole merge: it sends the update's values, and the existing ones under other names.
  pub merge_all_lem :
      (update : Attrs Num) (m : Merge Num)
      → IsMerge m
      → AreReady update m
      → IsMerge (merge_all py read_int update m)
        × ((name : String)
            → lookup name (as_attrs py read_int (merge_all py read_int update m))
              ≡ or_else (lookup name update) (lookup name (as_attrs py read_int m)))
  unfolding merge_all build_custom_attributes
  merge_all_lem [] m good ready = (good, λ name. rw (lookup-nil {V = Value Num} name) refl)
  merge_all_lem ((k, v) ∷ update) m good ((absent, distinct), (fresh, all), (typed, kinds)) =
      let (good', reads) =
        merge_all_lem update (merge_one py read_int k v m)
          (merge_one-IsMerge k m good fresh v typed)
          (distinct, All-IsFresh k v m update good fresh absent all, kinds) in
      (
        good',
        λ name. ground (
          arith,
          reads name,
          lookup-merge_one k m good fresh name v,
          lookup-cons name k v update,
          absent,
          lists-lookup py read_int k update,
        ),
      )

  -- What is sent is well formed.
  pub as_attrs-IsSendable :
      (m : Merge Num)
      → IsMerge m
      → AreDistinct py read_int (as_attrs py read_int m)
        × All (λ e. IsTyped e.0 e.1) (as_attrs py read_int m)
  as_attrs-IsSendable m good = (
    distinct-append py read_int m.existing (cleared_of py read_int m.clears) good.distinct_existing
        good.distinct_clears good.apart,
    typed_append m.existing good.parsed,
  )
    where
      typed_cleared :
          (clears : List String) → All (λ e. IsTyped e.0 e.1) (cleared_of py read_int clears)
      typed_cleared [] = tt
      typed_cleared (k ∷ clears) = (tt, typed_cleared clears)

      typed_append :
          (d : Attrs Num)
          → All (IsParsed py read_int) d
          → All (λ e. IsTyped e.0 e.1) (d ++ cleared_of py read_int m.clears)
      typed_append [] h = typed_cleared m.clears
      typed_append (e ∷ d) (own, h) = (own.0, typed_append d h)
