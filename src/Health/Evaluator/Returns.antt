-- ===== src/Health/Evaluator/Returns.antt =====
-- The evaluation of a list returns for every configuration of numeric thresholds.
use fast_tak.Base.{
  String, ◌≡◌, refl, true, false, Option, none, some, List, [], ◌∷◌, ◌⊎◌, inl, inr, arith, All,
  Bool-cases, is_some, string_eq,
}
use fast_tak.Base.Dict.{lookup, lookup_or}
use fast_tak.Base.Result.{Result, ok, >>=-eq-ok}
use fast_tak.Base.Python.{Python, num, Fields, truthy, str, less}
use fast_tak.Health.Status.{Status, name, of_name, of_name-name}
use fast_tak.Health.Evaluator.Threshold.{
  Entry, scalar, table, Thresholds, Verdict, is_numeric_threshold, check_numeric, check_when_set,
  check_threshold,
}
use fast_tak.Health.Evaluator.Worst.{Finding, keep, worst_of}
use fast_tak.Health.Evaluator.Items.{
  is_parameter, get, item_name, label, label_verdict, judge_threshold, worst_threshold,
  error_status, item_status, result, initial, is_filtered, judge_item, evaluate_list,
}
use fast_tak.Health.Evaluator.Laws.{IsWorst, evaluate_list-IsWorst}
use fast_tak.Health.Evaluator.Monotone.{expected, check_numeric-expected}

-- The call returns.
abbrev pub Returns {ℓ} : {A : Type ℓ} → Result A → Type ℓ
Returns {A = A} r = (a : A) × (r ≡ ok a)

worst_of-Returns :
    {A : Type 0} (judge : A → Result (Option Finding)) (xs : List A) (acc : Finding)
    → All (λ x. Returns (judge x)) xs
    → Returns (worst_of judge xs acc)
unfolding worst_of
worst_of-Returns judge [] acc all = (acc, refl)
worst_of-Returns judge (x ∷ xs) acc ((found, judged), all) =
    let (out, rest) = worst_of-Returns judge xs (keep acc found) all in (out, rw judged rest)

module _ (py : Python) where
  open py use {Num}

  -- Two numeric levels.
  abbrev pub IsNumeric : Entry Num → Type 0
  IsNumeric entry =
      (levels : Fields Num) × (w : Num) × (c : Num) × (entry ≡ table levels)
      × (lookup "warning" levels ≡ some (num w))
      × (lookup "critical" levels ≡ some (num c))

  -- The item has a number under the key, or nothing.
  abbrev pub IsMeasured : String → Fields Num → Type 0
  IsMeasured key item = (lookup key item ≡ none) ⊎ ((v : Num) × (lookup key item ≡ some (num v)))

  numeric_levels :
      (levels : Fields Num) (w c : Num)
      → lookup "warning" levels ≡ some (num w)
      → lookup "critical" levels ≡ some (num c)
      → is_numeric_threshold py levels ≡ true
  unfolding is_numeric_threshold
  numeric_levels levels w c has_warning has_critical = ground arith

  check_threshold-Returns :
      (key : String) (v : Num) (entry : Entry Num)
      → IsNumeric entry
      → (verdict : Verdict) × (level : Status) × (check_threshold py key (num v) entry ≡ ok verdict)
        × (of_name verdict.0 ≡ ok level)
  unfolding check_threshold check_when_set
  check_threshold-Returns key v entry (levels, w, c, shape, has_warning, has_critical) =
      let (verdict, answered, named) =
        >>=-eq-ok (check_numeric py key (num v) (num w) (num c)) _
          (check_numeric-expected py w c key v) in
      (
        verdict,
        expected py w c v,
        rw (shape, numeric_levels levels w c has_warning has_critical, has_warning, has_critical)
            answered,
        named,
      )

  judge_threshold-Returns :
      (prefix : Option String → Option String) (item : Fields Num) (key : String)
      (entry : Entry Num)
      → (is_parameter key ≡ true) ⊎ IsNumeric entry
      → (is_parameter key ≡ true) ⊎ IsMeasured key item
      → Returns (judge_threshold py prefix item (key, entry))
  unfolding judge_threshold
  judge_threshold-Returns prefix item key entry entry_ok item_ok =
      elim (Bool-cases (is_parameter key)) [
        | inl parameter ↦ (none, ground (arith, parameter))
        | inr other ↦ elim entry_ok [
          | inl parameter ↦ absurd (ground (arith, other, parameter))
          | inr numeric ↦ elim item_ok [
            | inl parameter ↦ absurd (ground (arith, other, parameter))
            | inr (inl absent) ↦ (none, ground (arith, other, absent))
            | inr (inr (v, present)) ↦
                let (verdict, level, checked, named) =
                  check_threshold-Returns key v entry numeric in
                (some (level, prefix verdict.1), ground (arith, other, present, checked, named))
          ]
        ]
      ]

  -- Every entry is a parameter of the loop, or two numeric levels.
  abbrev pub HasNumericLevels : Thresholds Num → Type 0
  HasNumericLevels = All (λ e. (is_parameter e.0 ≡ true) ⊎ IsNumeric e.1)

  -- Under the key of every entry, the item has a number or nothing.
  abbrev pub IsMeasuredFor : Thresholds Num → Fields Num → Type 0
  IsMeasuredFor thresholds item =
      All (λ e. (is_parameter e.0 ≡ true) ⊎ IsMeasured e.0 item) thresholds

  judge_thresholds-Returns :
      (prefix : Option String → Option String) (item : Fields Num) (thresholds : Thresholds Num)
      → HasNumericLevels thresholds
      → IsMeasuredFor thresholds item
      → All (λ e. Returns (judge_threshold py prefix item e)) thresholds
  judge_thresholds-Returns prefix item [] levels measured = tt
  judge_thresholds-Returns prefix item ((key, entry) ∷ rest) (own, levels) (there_is, measured) = (
    judge_threshold-Returns prefix item key entry own there_is,
    judge_thresholds-Returns prefix item rest levels measured,
  )

  -- The error status is the name of a level.
  abbrev pub HasErrorStatus : Thresholds Num → Type 0
  HasErrorStatus thresholds =
      (status : String) × (level : Status) × (error_status py thresholds ≡ ok status)
      × (of_name status ≡ ok level)

  item_status-Returns :
      (item : Fields Num) (thresholds : Thresholds Num)
      → HasNumericLevels thresholds
      → HasErrorStatus thresholds
      → IsMeasuredFor thresholds item
      → (verdict : Verdict) × (level : Status) × (item_status py item thresholds ≡ ok verdict)
        × (of_name verdict.0 ≡ ok level)
  unfolding item_status worst_threshold
  item_status-Returns item thresholds levels (status, level, set, named) measured =
      elim (Bool-cases (truthy py (get py "error" item))) [
        | inl failed ↦ (
          (status, some (label py (item_name py item) (str py (get py "error" item)))),
          level,
          ground (arith, failed, set),
          named,
        )
        | inr sound ↦
            let prefix = label_verdict py (item_name py item) in
            let (worst, judged) =
              worst_of-Returns (judge_threshold py prefix item) thresholds initial
                (judge_thresholds-Returns prefix item thresholds levels measured) in
            ((name worst.0, worst.1), worst.0, ground (arith, sound, judged), of_name-name worst.0)
      ]

  -- The filter has no bound, or a numeric one, and the item's count is a number.
  abbrev pub IsFilterable : Num → Thresholds Num → Fields Num → Type 0
  IsFilterable zero_tuples thresholds item =
      (lookup "min_dead_tuples" thresholds ≡ none)
      ⊎ ((n : Num) × (d : Num) × (lookup "min_dead_tuples" thresholds ≡ some (scalar (num n)))
          × (lookup_or "dead_tuples" (num zero_tuples) item ≡ num d))

  is_filtered-Returns :
      (zero_tuples : Num) (thresholds : Thresholds Num) (item : Fields Num)
      → IsFilterable zero_tuples thresholds item
      → Returns (is_filtered py thresholds item zero_tuples)
  unfolding is_filtered less
  is_filtered-Returns zero_tuples thresholds item filterable =
      elim (Bool-cases (is_some (lookup "error" item))) [
        | inl failed ↦ (false, rw failed refl)
        | inr sound ↦ elim filterable [
          | inl unset ↦ (false, rw (sound, unset) refl)
          | inr (n, d, bound, count) ↦ (py.ltb d n, rw (sound, bound, count) refl)
        ]
      ]

  judge_item-Returns :
      (zero_tuples : Num) (thresholds : Thresholds Num) (item : Fields Num)
      → HasNumericLevels thresholds
      → HasErrorStatus thresholds
      → IsMeasuredFor thresholds item
      → IsFilterable zero_tuples thresholds item
      → Returns (judge_item py zero_tuples thresholds item)
  unfolding judge_item
  judge_item-Returns zero_tuples thresholds item levels set measured filterable =
      let (skip, filtered) = is_filtered-Returns zero_tuples thresholds item filterable in
      let (verdict, level, judged, named) =
        item_status-Returns item thresholds levels set measured in
      elim (Bool-cases skip) [
        | inl skipped ↦ (none, ground (arith, filtered, skipped))
        | inr kept ↦ (some (level, verdict.1), ground (arith, filtered, kept, judged, named))
      ]

  judge_items-Returns :
      (zero_tuples : Num) (thresholds : Thresholds Num) (items : List (Fields Num))
      → HasNumericLevels thresholds
      → HasErrorStatus thresholds
      → All (λ item. IsMeasuredFor thresholds item × IsFilterable zero_tuples thresholds item) items
      → All (λ item. Returns (judge_item py zero_tuples thresholds item)) items
  judge_items-Returns zero_tuples thresholds [] levels set all = tt
  judge_items-Returns zero_tuples thresholds (item ∷ items) levels set
        ((measured, filterable), all) =
      (
        judge_item-Returns zero_tuples thresholds item levels set measured filterable,
        judge_items-Returns zero_tuples thresholds items levels set all,
      )

  -- The evaluation of a list never raises where every threshold is a parameter or has two numeric levels, the
  -- error status is the name of a level, each item has numbers or nothing under the thresholds' keys,
  -- and the filter, if there is one, compares numbers. Its outcome is then the worst of the judgements, with the
  -- message of an item that was judged so.
  pub evaluate_list-Returns :
      (zero_tuples : Num) (items : List (Fields Num)) (thresholds : Thresholds Num)
      → HasNumericLevels thresholds
      → HasErrorStatus thresholds
      → All (λ item. IsMeasuredFor thresholds item × IsFilterable zero_tuples thresholds item) items
      → (out : Verdict) × (evaluate_list py zero_tuples items thresholds ≡ ok out)
        × IsWorst py (judge_item py zero_tuples thresholds) items out
  unfolding evaluate_list
  evaluate_list-Returns zero_tuples items thresholds levels set all =
      let (worst, found) =
        worst_of-Returns (judge_item py zero_tuples thresholds) items initial
          (judge_items-Returns zero_tuples thresholds items levels set all) in
      let returned : evaluate_list py zero_tuples items thresholds ≡ ok (result py worst) =
        rw found refl in
      (result py worst, returned, evaluate_list-IsWorst py zero_tuples items thresholds returned)
