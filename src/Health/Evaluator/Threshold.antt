-- ===== src/Health/Evaluator/Threshold.antt =====
-- One value against its threshold: `_check_threshold` and `_is_numeric_threshold`.
use fast_tak.Base.{
  String, ◌<>◌, Bool, false, ◌&&◌, Option, none, some, string_eq, is_some, if◌then◌else◌,
}
use fast_tak.Base.Dict.{Dict, lookup}
use fast_tak.Base.Result.{Result, ok, err, attribute_error, key_error, ◌>>=◌}
use fast_tak.Base.Python.{Python, Scalar, null, string, Fields, truthy, str, as_num, less, less_eq}
use fast_tak.Health.Status.{okay, gtb, of_name}

-- The value of a key of `thresholds`.
pub data Entry (N : Type 0) : Type 0 where
  scalar : Scalar N → Entry N
  table : Fields N → Entry N

abbrev pub Thresholds : Type 0 → Type 0
Thresholds N = Dict String (Entry N)

-- A status name with an optional message.
abbrev pub Verdict : Type 0
Verdict = String × Option String

module _ (py : Python) where
  open py use {Num, lower}

  -- `_is_numeric_threshold`: both levels are there, and the warning is a number.
  unfoldable pub is_numeric_threshold : Fields Num → Bool
  is_numeric_threshold levels = elim (lookup "warning" levels) [
    | none ↦ false
    | some w ↦ is_some (lookup "critical" levels) && is_some (as_num py w)
  ]

  -- A missing key and a null are the same to `levels.get`.
  abbrev pub non_null : Option (Scalar Num) → Option (Scalar Num)
  non_null none = none
  non_null (some null) = none
  non_null (some v) = some v

  -- The branch for a table that maps values to status names.
  unfoldable pub check_mapping : String → Scalar Num → Fields Num → Result Verdict
  check_mapping key value levels = elim (lookup (lower (str py value)) levels) [
    | none ↦ ok ("warning", some (key <> " has unmapped value: " <> str py value))
    | some mapped ↦
        if truthy py mapped
        then elim mapped [
          | string s ↦ do
            level ← of_name s
            ok (if gtb level okay then (s, some (key <> " is " <> str py value)) else (s, none))
          | _ ↦ err key_error
        ]
        else ok ("warning", some (key <> " has unmapped value: " <> str py value))
  ]

  abbrev reached : String → String → Scalar Num → Scalar Num → Verdict
  reached status key value level =
      (status, some (key <> " is " <> str py value <> " (threshold: " <> str py level <> ")"))

  -- The numeric branch. `beyond value level` tests that the value has reached the level.
  unfoldable pub check_levels :
      (Scalar Num → Scalar Num → Result Bool)
      → String
      → Scalar Num
      → Scalar Num
      → Scalar Num
      → Result Verdict
  check_levels beyond key value warning critical = beyond value critical >>= λ is_critical.
      if is_critical
      then ok (reached "critical" key value critical)
      else (beyond value warning >>= λ is_warning.
          ok (if is_warning then reached "warning" key value warning else ("ok", none)))

  unfoldable pub check_numeric : String → Scalar Num → Scalar Num → Scalar Num → Result Verdict
  check_numeric key value warning critical = less py warning critical >>= λ higher_is_worse.
      check_levels (if higher_is_worse then (λ v level. less_eq py level v) else less_eq py) key
        value warning critical

  -- `if warning is None or critical is None: return "ok", None`
  unfoldable pub check_when_set :
      String → Scalar Num → Option (Scalar Num) → Option (Scalar Num) → Result Verdict
  check_when_set key value none critical = ok ("ok", none)
  check_when_set key value (some w) none = ok ("ok", none)
  check_when_set key value (some w) (some c) = check_numeric key value w c

  unfoldable pub check_threshold : String → Scalar Num → Entry Num → Result Verdict
  check_threshold key value (scalar s) = err attribute_error
  check_threshold key value (table levels) =
      if is_numeric_threshold levels
      then check_when_set key value (non_null (lookup "warning" levels))
          (non_null (lookup "critical" levels))
      else check_mapping key value levels
