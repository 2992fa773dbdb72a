-- ===== src/Config/Leaves.antt =====
-- What the overrides of the environment make of a whole number of the configuration.
use mathlib.Core.Path.{subst}
use fast_tak.Base.{◌≡◌, inl, inr, refl, ap, sym, ◌∙◌, Option, none, some, List, [], ◌∷◌, arith}
use fast_tak.Base.Int.{ℤ}
use fast_tak.Base.Result.{Result, ok, err, >>=-eq-ok}
use fast_tak.Base.Text.{codes, codes_eq, strip_prefix}
use fast_tak.Config.{
  Chars, Setting, Table, table, whole, text, sequence, other, find, put, put_ok, at_key,
  split_on_dunder, coerce, apply_override, apply_parts, override_by, load_config,
}
use fast_tak.Config.Walks.{
  leaf, walk, HasNumber, find-put, find-put_other, whole_of-ok, text_cuts, HasNumber-walk,
  walk-find, walk-same, walk-missing, HasNumber-missing, after, after_one, lower_all, target_of,
  target_of_name, named, after_all,
}

module _ (Float : Type 0) (lower : Chars → Chars) (read_int : Chars → Option ℤ)
    (read_float : Chars → Option Float) where
  HasNumber-coerce :
      (value : Chars) (path : List Chars) (s r : Setting Float) (n : ℤ)
      → coerce Float lower read_int read_float value s ≡ ok r
      → HasNumber path s n
      → HasNumber path r (after read_int value [] path n)
  unfolding coerce after walk
  HasNumber-coerce value [] s r n h (inl e) = absurd (ground (arith, e))
  HasNumber-coerce value [] (whole m) r n h (inr e) =
      inr (ap leaf (sym (whole_of-ok (read_int value) r n h)))
  HasNumber-coerce value [] s r n h (inr e) = absurd (ground (arith, e))
  HasNumber-coerce value (k ∷ path) (table t) r n h e =
      inl (text_cuts value k path r (ground (arith, h)))
  HasNumber-coerce value (k ∷ path) (text s) r n h e =
      inl (text_cuts value k path r (ground (arith, h)))
  HasNumber-coerce value (k ∷ path) (sequence xs) r n h e =
      inl (text_cuts value k path r (ground (arith, h)))
  HasNumber-coerce value (k ∷ path) other r n h e =
      inl (text_cuts value k path r (ground (arith, h)))
  HasNumber-coerce value (k ∷ path) s r n h (inl e) = absurd (ground (arith, e))
  HasNumber-coerce value (k ∷ path) s r n h (inr e) = absurd (ground (arith, e))

  HasNumber-put :
      (value key : Chars) (target : List Chars) (k : Chars) (path : List Chars) (t : Table Float)
      (u v : Setting Float) (n : ℤ)
      → find key t ≡ some u
      → (HasNumber path u n → HasNumber path v (after read_int value target path n))
      → HasNumber (k ∷ path) (table t) n
      → HasNumber
          (k ∷ path)
          (table (put key v t))
          (after read_int value (key ∷ target) (k ∷ path) n)
  unfolding after
  HasNumber-put value key target k path t u v n found step e = elim (codes_eq.dec k key) [
    | yes same ↦
        let reads = walk-find k path t u (ap (λ j. find j t) same ∙ found) in
        let reads_v =
          walk-find k path (put key v t) v
            (ap (λ j. find j (put key v t)) same ∙ find-put key v u t found) in
        HasNumber-walk path (k ∷ path) v (table (put key v t)) (after read_int value target path n)
          (after read_int value (key ∷ target) (k ∷ path) n) (sym reads_v) (ground (arith, same))
          (step (HasNumber-walk (k ∷ path) path (table t) u n n reads refl e))
    | no differ ↦
        HasNumber-walk (k ∷ path) (k ∷ path) (table t) (table (put key v t)) n
          (after read_int value (key ∷ target) (k ∷ path) n)
          (walk-same k path t (put key v t) (sym (find-put_other k key v t differ)))
          (ground (arith, differ)) e
  ]

  -- One step on the way to the overridden value.
  abbrev pub Steps : Chars → List Chars → (Setting Float → Result (Setting Float)) → Type 0
  Steps value target change =
      (path : List Chars) (u v : Setting Float) (n : ℤ)
      → change u ≡ ok v
      → HasNumber path u n
      → HasNumber path v (after read_int value target path n)

  HasNumber-table :
      (value key : Chars) (target : List Chars) (k : Chars) (path : List Chars)
      (change : Setting Float → Result (Setting Float)) (t : Table Float) (r : Setting Float)
      (n : ℤ)
      → Steps value target change
      → at_key key change (table t) ≡ ok r
      → HasNumber (k ∷ path) (table t) n
      → HasNumber (k ∷ path) r (after read_int value (key ∷ target) (k ∷ path) n)
  unfolding at_key put_ok
  HasNumber-table value key target k path change t r n steps h e = by_entry (find key t) refl h
    where
      changed :
          (u : Setting Float) (o : Result (Setting Float))
          → find key t ≡ some u
          → change u ≡ o
          → put_ok key t o ≡ ok r
          → HasNumber (k ∷ path) r (after read_int value (key ∷ target) (k ∷ path) n)
      changed u (err x) found result h = absurd (ground (arith, h))
      changed u (ok v) found result h =
          let same : table (put key v t) ≡ r = ground (arith, h) in
          subst (λ s. HasNumber (k ∷ path) s (after read_int value (key ∷ target) (k ∷ path) n))
            same (HasNumber-put value key target k path t u v n found (steps path u v n result) e)

      absent :
          find key t ≡ none
          → table t ≡ r
          → HasNumber (k ∷ path) r (after read_int value (key ∷ target) (k ∷ path) n)
      absent found h = elim (codes_eq.dec k key) [
        | yes same ↦ absurd (
            HasNumber-missing (k ∷ path) (table t) n
              (walk-missing k path t (ap (λ j. find j t) same ∙ found)) e)
        | no differ ↦
            HasNumber-walk (k ∷ path) (k ∷ path) (table t) r n
              (after read_int value (key ∷ target) (k ∷ path) n) (ap (walk (k ∷ path)) h)
              (unfold after in ground (arith, differ)) e
      ]

      by_entry :
          (o : Option (Setting Float))
          → find key t ≡ o
          → elim o [ none ↦ ok (table t) | some s ↦ put_ok key t (change s) ] ≡ ok r
          → HasNumber (k ∷ path) r (after read_int value (key ∷ target) (k ∷ path) n)
      by_entry none found h = absent found (ground (arith, h))
      by_entry (some u) found h = changed u (change u) found refl h

  HasNumber-at_key :
      (value key : Chars) (target : List Chars) (change : Setting Float → Result (Setting Float))
      → Steps value target change
      → Steps value (key ∷ target) (at_key key change)
  unfolding at_key after walk
  HasNumber-at_key value key target change steps [] s r n h (inl e) = absurd (ground (arith, e))
  HasNumber-at_key value key target change steps [] (whole m) r n h (inr e) =
      absurd (ground (arith, h))
  HasNumber-at_key value key target change steps [] s r n h (inr e) = absurd (ground (arith, e))
  HasNumber-at_key value key target change steps (k ∷ path) (table t) r n h e =
      HasNumber-table value key target k path change t r n steps h e
  HasNumber-at_key value key target change steps (k ∷ path) (text s) r n h e =
      inl (text_cuts s k path r (ground (arith, h)))
  HasNumber-at_key value key target change steps (k ∷ path) (sequence xs) r n h e =
      absurd (HasNumber-missing (k ∷ path) (sequence xs) n refl e)
  HasNumber-at_key value key target change steps (k ∷ path) s r n h e = absurd (ground (arith, h))

  apply_override-Steps :
      (value part : Chars) (parts : List Chars)
      → Steps value
          (lower_all lower (part ∷ parts))
          (apply_override Float lower read_int read_float value part parts)
  unfolding apply_override
  apply_override-Steps value part [] =
      HasNumber-at_key value (lower part) [] (coerce Float lower read_int read_float value)
        (HasNumber-coerce value)
  apply_override-Steps value part (next ∷ parts) =
      HasNumber-at_key value (lower part) (lower_all lower (next ∷ parts))
        (apply_override Float lower read_int read_float value next parts)
        (apply_override-Steps value next parts)

  HasNumber-apply_parts :
      (value : Chars) (parts path : List Chars) (config r : Setting Float) (n : ℤ)
      → apply_parts Float lower read_int read_float value parts config ≡ ok r
      → HasNumber path config n
      → HasNumber path r (after_one read_int (target_of lower parts) value path n)
  unfolding apply_parts
  HasNumber-apply_parts value [] path config r n h e =
      HasNumber-walk path path config r n n (ap (walk path) (ground (arith, h))) refl e
  HasNumber-apply_parts value (service ∷ []) path config r n h e =
      HasNumber-walk path path config r n n (ap (walk path) (ground (arith, h))) refl e
  HasNumber-apply_parts value (service ∷ part ∷ parts) path config r n h e =
      HasNumber-at_key value (lower service) (lower_all lower (part ∷ parts))
        (apply_override Float lower read_int read_float value part parts)
        (apply_override-Steps value part parts) path config r n h e

  pub HasNumber-override_by :
      (key value : Chars) (path : List Chars) (config r : Setting Float) (n : ℤ)
      → override_by Float lower read_int read_float key value config ≡ ok r
      → HasNumber path config n
      → HasNumber path r (after_one read_int (named lower key) value path n)
  unfolding override_by
  HasNumber-override_by key value path config r n h e =
      by_name (strip_prefix (codes "FASTAK_MON_") key) h
    where
      by_name :
          (o : Option Chars)
          → elim o [
            | none ↦ ok config
            | some remainder ↦
                apply_parts Float lower read_int read_float value (split_on_dunder remainder) config
          ]
            ≡ ok r
          → HasNumber path r (after_one read_int (target_of_name lower o) value path n)
      by_name none h =
          HasNumber-walk path path config r n n (ap (walk path) (ground (arith, h))) refl e
      by_name (some remainder) h =
          HasNumber-apply_parts value (split_on_dunder remainder) path config r n h e

  -- A number of the file is, after the loop, what the variables make of it, or a text cuts its path.
  pub HasNumber-load_config :
      (environ : List (Chars × Chars)) (path : List Chars) (config loaded : Setting Float) (n : ℤ)
      → load_config Float lower read_int read_float environ config ≡ ok loaded
      → HasNumber path config n
      → HasNumber path loaded (after_all lower read_int environ path n)
  unfolding load_config after_all
  HasNumber-load_config [] path config loaded n h e =
      HasNumber-walk path path config loaded n n (ap (walk path) (ground (arith, h))) refl e
  HasNumber-load_config ((key, value) ∷ environ) path config loaded n h e =
      let (next, first, last) =
        >>=-eq-ok (override_by Float lower read_int read_float key value config)
          (load_config Float lower read_int read_float environ) h in
      HasNumber-load_config environ path next loaded
        (after_one read_int (named lower key) value path n) last
        (HasNumber-override_by key value path config next n first e)
