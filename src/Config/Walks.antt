-- ===== src/Config/Walks.antt =====
-- What stands at a path of the configuration, and the path that a variable names.
use mathlib.Core.Path.{subst}
use fast_tak.Base.{
  ◌≡◌, ◌≢◌, ◌⊎◌, inl, inr, refl, ap, sym, ◌∙◌, Option, none, some, List, [], ◌∷◌, ◌==◌, arith,
  if◌then◌else◌,
}
use fast_tak.Base.Int.{ℤ}
use fast_tak.Base.Result.{ok}
use fast_tak.Base.Text.{codes, codes_eq, strip_prefix}
use fast_tak.Config.{
  Chars, Setting, Table, table, whole, text, end, entry, find, put, split_on_dunder, whole_of,
}

-- What stands at a path: a text on the way cuts it.
pub data Walk (Float : Type 0) : Type 0 where
  cut missing : Walk Float
  leaf : Setting Float → Walk Float

module _ {Float : Type 0} where
  unfoldable pub walk : List Chars → Setting Float → Walk Float
  walk [] s = leaf s
  walk (k ∷ path) (table t) = elim (find k t) [ none ↦ missing | some s ↦ walk path s ]
  walk (k ∷ path) (text s) = cut
  walk (k ∷ path) s = missing

  -- At the path stands this number, unless a text is on the way.
  abbrev pub HasNumber : List Chars → Setting Float → ℤ → Type 0
  HasNumber path s n = (walk path s ≡ cut) ⊎ (walk path s ≡ leaf (whole n))

  pub find-put :
      (key : Chars) (v s : Setting Float) (t : Table Float)
      → find key t ≡ some s
      → find key (put key v t) ≡ some v
  unfolding find put
  find-put key v s end h = absurd (ground (arith, h))
  find-put key v s (entry k r t) h = elim (codes_eq.dec key k) [
    | yes same ↦ ground (arith, same)
    | no differ ↦ ground (arith, differ, h, find-put key v s t)
  ]

  pub find-put_other :
      (j key : Chars) (v : Setting Float) (t : Table Float)
      → j ≢ key
      → find j (put key v t) ≡ find j t
  unfolding find put
  find-put_other j key v end ne = refl
  find-put_other j key v (entry k r t) ne = elim (codes_eq.dec key k) [
    | yes same ↦ let apart : j ≢ k = λ e. ne (e ∙ sym same) in ground (arith, same, apart)
    | no differ ↦ ground (arith, differ, find-put_other j key v t ne)
  ]

abbrev pub int_or : ℤ → Option ℤ → ℤ
int_or n none = n
int_or n (some m) = m

module _ {Float : Type 0} where
  pub whole_of-ok :
      (o : Option ℤ) (r : Setting Float) (n : ℤ) → whole_of o ≡ ok r → whole (int_or n o) ≡ r
  whole_of-ok none r n h = absurd (ground (arith, h))
  whole_of-ok (some m) r n h = ground (arith, h)

  pub text_cuts :
      (value k : Chars) (path : List Chars) (r : Setting Float)
      → text value ≡ r
      → walk (k ∷ path) r ≡ cut
  unfolding walk
  text_cuts value k path r h = subst (λ s. walk (k ∷ path) s ≡ cut) h refl

  pub HasNumber-walk :
      (p q : List Chars) (s u : Setting Float) (n m : ℤ)
      → walk p s ≡ walk q u
      → n ≡ m
      → HasNumber p s n
      → HasNumber q u m
  HasNumber-walk p q s u n m h eq (inl e) = inl (sym h ∙ e)
  HasNumber-walk p q s u n m h eq (inr e) = inr (sym h ∙ e ∙ ap (λ j. leaf (whole j)) eq)

  pub walk-find :
      (k : Chars) (path : List Chars) (t : Table Float) (u : Setting Float)
      → find k t ≡ some u
      → walk (k ∷ path) (table t) ≡ walk path u
  unfolding walk
  walk-find k path t u found = ap (λ o. elim o [ none ↦ missing | some s ↦ walk path s ]) found

  pub walk-same :
      (k : Chars) (path : List Chars) (t u : Table Float)
      → find k t ≡ find k u
      → walk (k ∷ path) (table t) ≡ walk (k ∷ path) (table u)
  unfolding walk
  walk-same k path t u same = ap (λ o. elim o [ none ↦ missing | some s ↦ walk path s ]) same

  pub walk-missing :
      (k : Chars) (path : List Chars) (t : Table Float)
      → find k t ≡ none
      → walk (k ∷ path) (table t) ≡ missing
  unfolding walk
  walk-missing k path t found = ap (λ o. elim o [ none ↦ missing | some s ↦ walk path s ]) found

  pub HasNumber-missing :
      (path : List Chars) (s : Setting Float) (n : ℤ)
      → walk path s ≡ missing
      → HasNumber path s n
      → ⊥
  HasNumber-missing path s n h (inl e) = ground (arith, h, e)
  HasNumber-missing path s n h (inr e) = ground (arith, h, e)

module _ (read_int : Chars → Option ℤ) where
  -- The number at `path` after an override of `target`.
  unfoldable pub after : Chars → List Chars → List Chars → ℤ → ℤ
  after value [] [] n = int_or n (read_int value)
  after value [] (k ∷ path) n = n
  after value (t ∷ target) [] n = n
  after value (t ∷ target) (k ∷ path) n =
      let rest = after value target path n in if k == t then rest else n

  abbrev pub after_one : Option (List Chars) → Chars → List Chars → ℤ → ℤ
  after_one none value path n = n
  after_one (some target) value path n = after value target path n

module _ (lower : Chars → Chars) where
  -- The path that a variable names, if it names one.
  abbrev pub lower_all : List Chars → List Chars
  lower_all [] = []
  lower_all (part ∷ parts) = lower part ∷ lower_all parts

  abbrev pub target_of : List Chars → Option (List Chars)
  target_of [] = none
  target_of (service ∷ []) = none
  target_of (service ∷ part ∷ parts) = some (lower_all (service ∷ part ∷ parts))

  abbrev pub target_of_name : Option Chars → Option (List Chars)
  target_of_name none = none
  target_of_name (some remainder) = target_of (split_on_dunder remainder)

  abbrev pub named : Chars → Option (List Chars)
  named key = target_of_name (strip_prefix (codes "FASTAK_MON_") key)

  -- The number at `path` after the variables in their order.
  unfoldable pub after_all : (Chars → Option ℤ) → List (Chars × Chars) → List Chars → ℤ → ℤ
  after_all read_int [] path n = n
  after_all read_int ((key, value) ∷ environ) path n =
      after_all read_int environ path (after_one read_int (named key) value path n)
