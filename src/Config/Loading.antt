-- ===== src/Config/Loading.antt =====
-- Variables that name whole numbers and read as ints are loaded, and change only these numbers.
use fast_tak.Base.{
  ◌≡◌, inl, inr, refl, ap, sym, ◌∙◌, Option, none, some, List, [], ◌∷◌, arith, Option-cases, All,
}
use fast_tak.Base.Int.{ℤ}
use fast_tak.Base.Result.{Result, ok, ◌>>=◌}
use fast_tak.Base.Text.{codes, codes_eq, strip_prefix}
use fast_tak.Config.{
  Chars, Setting, Table, table, whole, find, put, put_ok, at_key, split_on_dunder, coerce,
  apply_override, apply_parts, override_by, load_config, whole_of,
}
use fast_tak.Config.Walks.{
  cut, leaf, walk, find-put, find-put_other, walk-find, walk-same, walk-missing, lower_all,
  target_of, target_of_name, after_one, named, after_all,
}
use fast_tak.Config.Leaves.{HasNumber-override_by}

module _ {Float : Type 0} where
  -- No path of the second value is cut that is not cut in the first.
  abbrev IsAsOpen : Setting Float → Setting Float → Type 0
  IsAsOpen u v = (path : List Chars) → walk path v ≡ cut → walk path u ≡ cut

  IsAsOpen-put :
      (key : Chars) (t : Table Float) (u v : Setting Float)
      → find key t ≡ some u
      → IsAsOpen u v
      → IsAsOpen (table t) (table (put key v t))
  IsAsOpen-put key t u v found open_path [] h = absurd (unfold walk in ground (arith, h))
  IsAsOpen-put key t u v found open_path (k ∷ path) h = elim (codes_eq.dec k key) [
    | yes same ↦
        walk-find k path t u (ap (λ j. find j t) same ∙ found)
        ∙ open_path path (
            sym (
              walk-find k path (put key v t) v
                (ap (λ j. find j (put key v t)) same ∙ find-put key v u t found))
            ∙ h)
    | no differ ↦ walk-same k path t (put key v t) (sym (find-put_other k key v t differ)) ∙ h
  ]

  IsAsOpen-whole : (u : Setting Float) (m : ℤ) → IsAsOpen u (whole m)
  unfolding walk
  IsAsOpen-whole u m [] h = absurd (ground (arith, h))
  IsAsOpen-whole u m (k ∷ path) h = absurd (ground (arith, h))

  -- The change of a number below a key returns where the change of its entry does.
  at_key_returns :
      (key : Chars) (path : List Chars) (change : Setting Float → Result (Setting Float))
      (s : Setting Float) (j : ℤ)
      → ((u : Setting Float)
          → walk path u ≡ leaf (whole j)
          → (v : Setting Float) × (change u ≡ ok v) × IsAsOpen u v)
      → walk (key ∷ path) s ≡ leaf (whole j)
      → (r : Setting Float) × (at_key key change s ≡ ok r) × IsAsOpen s r
  unfolding at_key put_ok
  at_key_returns key path change (table t) j returns h = elim (Option-cases (find key t)) [
    | inl gone ↦ absurd (ground (arith, walk-missing key path t gone, h))
    | inr (u, found) ↦
        let (v, done, open_path) = returns u (sym (walk-find key path t u found) ∙ h) in
        (
          table (put key v t),
          ap (λ o. elim o [ none ↦ ok (table t) | some s ↦ put_ok key t (change s) ]) found
              ∙ ap (put_ok key t) done,
          IsAsOpen-put key t u v found open_path,
        )
  ]
  at_key_returns key path change s j returns h = absurd (unfold walk in ground (arith, h))

module _ (Float : Type 0) (lower : Chars → Chars) (read_int : Chars → Option ℤ)
    (read_float : Chars → Option Float) where
  coerce_returns :
      (value : Chars) (m j : ℤ) (u : Setting Float)
      → read_int value ≡ some m
      → walk [] u ≡ leaf (whole j)
      → (v : Setting Float) × (coerce Float lower read_int read_float value u ≡ ok v) × IsAsOpen u v
  unfolding coerce walk
  coerce_returns value m j (whole n) reads h =
      (whole m, ap whole_of reads, IsAsOpen-whole (whole n) m)
  coerce_returns value m j u reads h = absurd (ground (arith, h))

  apply_override_returns :
      (value : Chars) (m j : ℤ) (part : Chars) (parts : List Chars) (s : Setting Float)
      → read_int value ≡ some m
      → walk (lower_all lower (part ∷ parts)) s ≡ leaf (whole j)
      → (r : Setting Float) × (apply_override Float lower read_int read_float value part parts s
          ≡ ok r)
        × IsAsOpen s r
  unfolding apply_override
  apply_override_returns value m j part [] s reads =
      at_key_returns (lower part) [] (coerce Float lower read_int read_float value) s j
        (λ u. coerce_returns value m j u reads)
  apply_override_returns value m j part (next ∷ parts) s reads =
      at_key_returns (lower part) (lower_all lower (next ∷ parts))
        (apply_override Float lower read_int read_float value next parts) s j
        (λ u. apply_override_returns value m j next parts u reads)

  -- The variable names no path, or a whole number of the configuration, and its value reads as an int.
  abbrev pub IsReadable : Setting Float → Option (List Chars) → Chars → Type 0
  IsReadable config none value = Unit
  IsReadable config (some target) value =
      (j m : ℤ) × (walk target config ≡ leaf (whole j)) × (read_int value ≡ some m)

  abbrev pub AreReadable : Setting Float → List (Chars × Chars) → Type 0
  AreReadable config environ = All (λ v. IsReadable config (named lower v.0) v.1) environ

  apply_parts_returns :
      (value : Chars) (parts : List Chars) (config : Setting Float)
      → IsReadable config (target_of lower parts) value
      → (r : Setting Float) × (apply_parts Float lower read_int read_float value parts config
          ≡ ok r)
        × IsAsOpen config r
  unfolding apply_parts
  apply_parts_returns value [] config h = (config, refl, λ path e. e)
  apply_parts_returns value (service ∷ []) config h = (config, refl, λ path e. e)
  apply_parts_returns value (service ∷ part ∷ parts) config (j, m, down, reads) =
      at_key_returns (lower service) (lower_all lower (part ∷ parts))
        (apply_override Float lower read_int read_float value part parts) config j
        (λ u. apply_override_returns value m j part parts u reads) down

  override_by_returns :
      (key value : Chars) (config : Setting Float)
      → IsReadable config (named lower key) value
      → (r : Setting Float) × (override_by Float lower read_int read_float key value config ≡ ok r)
        × IsAsOpen config r
  unfolding override_by
  override_by_returns key value config h = by_name (strip_prefix (codes "FASTAK_MON_") key) h
    where
      by_name :
          (o : Option Chars)
          → IsReadable config (target_of_name lower o) value
          → (r : Setting Float) × (elim o [
            | none ↦ ok config
            | some remainder ↦
                apply_parts Float lower read_int read_float value (split_on_dunder remainder) config
          ]
              ≡ ok r)
            × IsAsOpen config r
      by_name none h = (config, refl, λ path e. e)
      by_name (some remainder) h = apply_parts_returns value (split_on_dunder remainder) config h

  -- A number stays a number where a variable that is readable is applied.
  stays_number :
      (key value : Chars) (config r : Setting Float) (path : List Chars) (n : ℤ)
      → override_by Float lower read_int read_float key value config ≡ ok r
      → IsAsOpen config r
      → walk path config ≡ leaf (whole n)
      → walk path r ≡ leaf (whole (after_one read_int (named lower key) value path n))
  stays_number key value config r path n done open_path h =
      elim (HasNumber-override_by Float lower read_int read_float key value path config r n done
        (inr h)) [
          | inl closed ↦ absurd (ground (arith, open_path path closed, h))
          | inr number ↦ number
        ]

  IsReadable-next :
      (config r : Setting Float) (target : Option (List Chars)) (value : Chars)
      → ((path : List Chars) (n : ℤ)
          → walk path config ≡ leaf (whole n)
          → (k : ℤ) × (walk path r ≡ leaf (whole k)))
      → IsReadable config target value
      → IsReadable r target value
  IsReadable-next config r none value keeps h = tt
  IsReadable-next config r (some target) value keeps (j, m, down, reads) =
      let (k, there_still) = keeps target j down in (k, m, there_still, reads)

  AreReadable-next :
      (config r : Setting Float) (environ : List (Chars × Chars))
      → ((path : List Chars) (n : ℤ)
          → walk path config ≡ leaf (whole n)
          → (k : ℤ) × (walk path r ≡ leaf (whole k)))
      → AreReadable config environ
      → AreReadable r environ
  AreReadable-next config r [] keeps h = tt
  AreReadable-next config r ((key, value) ∷ environ) keeps (first, others) = (
    IsReadable-next config r (named lower key) value keeps first,
    AreReadable-next config r environ keeps others,
  )

  -- Where each variable of the environment either names no path with the prefix FASTAK_MON_, or names a whole
  -- number of the configuration and has a value that reads as an int, load_config returns, and at each path where
  -- the file has a whole number there is a whole number still: the int of the last variable that names this path, or
  -- the number of the file where none does.
  pub load_config_numbers :
      (environ : List (Chars × Chars)) (config : Setting Float)
      → AreReadable config environ
      → (loaded : Setting Float) × (load_config Float lower read_int read_float environ config
          ≡ ok loaded)
        × ((path : List Chars) (n : ℤ)
            → walk path config ≡ leaf (whole n)
            → walk path loaded ≡ leaf (whole (after_all lower read_int environ path n)))
  unfolding load_config after_all
  load_config_numbers [] config h = (config, refl, λ path n e. e)
  load_config_numbers ((key, value) ∷ environ) config (first, others) =
      let (next, done, open_path) = override_by_returns key value config first in
      let keeps : (path : List Chars) (n : ℤ)
          → walk path config ≡ leaf (whole n)
          → walk path next ≡ leaf (whole (after_one read_int (named lower key) value path n)) =
        λ path n e. stays_number key value config next path n done open_path e in
      let (loaded, ends, numbers) = load_config_numbers environ next (
        AreReadable-next config next environ
          (λ path n e. (after_one read_int (named lower key) value path n, keeps path n e))
          others) in
      (
        loaded,
        ap (λ o. o >>= load_config Float lower read_int read_float environ) done ∙ ends,
        λ path n e.
            numbers path (after_one read_int (named lower key) value path n) (keeps path n e),
      )
