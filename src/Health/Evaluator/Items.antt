-- ===== src/Health/Evaluator/Items.antt =====
-- Items, lists of items and containers: `_item_name`, `item_status`, `_evaluate_single`,
-- `_evaluate_list`, `_evaluate_containers` and `evaluate`.
use fast_tak.Base.{
  String, ◌<>◌, Bool, false, ◌&&◌, ◌||◌, Option, none, some, List, [], ◌==◌, string_eq, is_some,
  if◌then◌else◌,
}
use fast_tak.Base.Dict.{lookup, lookup_or}
use fast_tak.Base.Result.{Result, ok, err, type_error, key_error, ◌>>=◌}
use fast_tak.Base.Python.{Python, Scalar, null, num, string, Fields, truthy, some_text, str, less}
use fast_tak.Health.Status.{okay, geb, of_name, name}
use fast_tak.Health.Evaluator.Threshold.{Entry, scalar, table, Thresholds, Verdict, check_threshold}
use fast_tak.Health.Evaluator.Worst.{Finding, worst_of}

-- What a probe returns: its scalars, and its list of items if it has one.
pub record Raw (N : Type 0) : Type 0 where
  pub fields : Fields N
  pub items : Option (List (Fields N))

-- The keys of a service's configuration that the evaluator reads.
pub record ServiceConfig (N : Type 0) : Type 0 where
  pub thresholds : Option (Thresholds N)
  pub alert_min_level : Option String

pub record Evaluated : Type 0 where
  pub status : String
  pub message : Option String
  pub should_alert : Bool

-- `key in ("min_dead_tuples", "error_status")`
abbrev pub is_parameter : String → Bool
is_parameter key = key == "min_dead_tuples" || key == "error_status"

-- A configured status name. Anything but a text fails at `Status[...]`.
abbrev pub entry_name : {N : Type 0} → Entry N → Result String
entry_name (scalar (string s)) = ok s
entry_name (scalar _) = err key_error
entry_name (table _) = err type_error

-- `worst = Status.ok; message = None`
abbrev pub initial : Finding
initial = (okay, none)

-- `d.get(key, a)` on a key that the configuration record holds as an option.
abbrev pub or_default : {A : Type 0} → Option A → A → A
or_default none a = a
or_default (some b) a = b

abbrev is_text : {N : Type 0} → Scalar N → String → Bool
is_text (string s) t = s == t
is_text _ t = false

module _ (py : Python) where
  open py use {Num}

  -- `a or b`
  abbrev pub or_else : Scalar Num → Scalar Num → Scalar Num
  or_else a b = if truthy py a then a else b

  abbrev pub get : String → Fields Num → Scalar Num
  get key item = lookup_or key null item

  unfoldable pub item_name : Fields Num → Scalar Num
  item_name item = or_else (get "name" item) (
      or_else (get "file" item) (
        or_else (get "mount" item)
          (or_else (get "table" item) (lookup_or "domain" (string "") item))))

  -- `f"{name}: {message}" if name else message`
  abbrev pub label : Scalar Num → String → String
  label name message = if truthy py name then str py name <> ": " <> message else message

  opt_str : Option String → String
  opt_str none = "None"
  opt_str (some s) = s

  unfoldable pub label_verdict : Scalar Num → Option String → Option String
  unfolding opt_str
  label_verdict name message =
      if truthy py name then some (str py name <> ": " <> opt_str message) else message

  -- One turn of the loops over `thresholds.items()`.
  unfoldable pub judge_threshold :
      (Option String → Option String) → Fields Num → String × Entry Num → Result (Option Finding)
  judge_threshold prefix item (key, levels) =
      if is_parameter key then ok none else elim (lookup key item) [
        | none ↦ ok none
        | some value ↦ do
          verdict ← check_threshold py key value levels
          level ← of_name verdict.0
          ok (some (level, prefix verdict.1))
      ]

  -- The two loops over thresholds differ in the message alone.
  unfoldable pub worst_threshold :
      (Option String → Option String) → Fields Num → Thresholds Num → Result Finding
  worst_threshold prefix item thresholds = worst_of (judge_threshold prefix item) thresholds initial

  -- `thresholds.get("error_status", "warning")`
  abbrev pub error_status : Thresholds Num → Result String
  error_status thresholds =
      entry_name (lookup_or "error_status" (scalar (string "warning")) thresholds)

  unfoldable pub item_status : Fields Num → Thresholds Num → Result Verdict
  unfolding opt_str
  item_status item thresholds =
      let reason = get "error" item in
      if truthy py reason
      then (error_status thresholds >>= λ status.
          ok (status, some (label (item_name item) (str py reason))))
      else (worst_threshold (label_verdict (item_name item)) item thresholds >>= λ worst.
          ok (name worst.0, worst.1))

  abbrev pub result : Finding → Verdict
  result (worst, message) = (name worst, some_text message)

  unfoldable pub evaluate_single : Fields Num → Thresholds Num → Result Verdict
  evaluate_single fields thresholds =
      worst_threshold (λ m. m) fields thresholds >>= λ worst. ok (result worst)

  -- The `min_dead_tuples` filter: true for an item that the loop skips.
  unfoldable pub is_filtered : Thresholds Num → Fields Num → Num → Result Bool
  is_filtered thresholds item zero_tuples =
      if is_some (lookup "error" item)
      then ok false
      else elim (lookup "min_dead_tuples" thresholds) [
        | none ↦ ok false
        | some (table t) ↦ err type_error
        | some (scalar null) ↦ ok false
        | some (scalar min_dead) ↦ less py (lookup_or "dead_tuples" (num zero_tuples) item) min_dead
      ]

  unfoldable pub judge_item : Num → Thresholds Num → Fields Num → Result (Option Finding)
  judge_item zero_tuples thresholds item = do
    skip ← is_filtered thresholds item zero_tuples
    if skip
        then ok none
        else (item_status item thresholds >>= λ verdict.
            of_name verdict.0 >>= λ level. ok (some (level, verdict.1)))

  -- `zero_tuples` is the literal 0 of `item.get("dead_tuples", 0)`.
  unfoldable pub evaluate_list : Num → List (Fields Num) → Thresholds Num → Result Verdict
  evaluate_list zero_tuples items thresholds =
      worst_of (judge_item zero_tuples thresholds) items initial >>= λ worst. ok (result worst)

  -- `health in health_map`
  abbrev pub in_map : Scalar Num → Fields Num → Option (Scalar Num)
  in_map (string s) m = lookup s m
  in_map _ m = none

  abbrev pub scalar_name : Scalar Num → Result String
  scalar_name (string s) = ok s
  scalar_name _ = err key_error

  -- The status name of one container: the health map, the Docker status map, the default.
  unfoldable pub container_status : Fields Num → Fields Num → Entry Num → Fields Num → Result String
  container_status health_map status_map default item =
      let health = lookup_or "health" (string "unknown") item in
      let docker_status = lookup_or "status" (string "unknown") item in
      elim (if is_text health "unknown" then none else in_map health health_map) [
        | some mapped ↦ scalar_name mapped
        | none ↦ elim (in_map docker_status status_map) [
          | some mapped ↦ scalar_name mapped
          | none ↦ entry_name default
        ]
      ]

  unfoldable pub judge_container :
      Fields Num → Fields Num → Entry Num → Fields Num → Result (Option Finding)
  judge_container health_map status_map default item = do
    mapped ← container_status health_map status_map default item
    level ← of_name mapped
    let health = lookup_or "health" (string "unknown") item
    let docker_status = lookup_or "status" (string "unknown") item
    ok (
        some (
          level,
          some (
              str py (lookup_or "name" (string "") item)
              <> ": "
              <> str py health
              <> "/"
              <> str py docker_status),
        ))

  -- A map of status names. A scalar in its place fails at the first `in`.
  abbrev pub table_of : Option (Entry Num) → Result (Fields Num)
  table_of none = ok []
  table_of (some (table t)) = ok t
  table_of (some (scalar s)) = err type_error

  -- `thresholds.get("default_status", "warning")`
  abbrev pub default_status : Thresholds Num → Entry Num
  default_status thresholds = lookup_or "default_status" (scalar (string "warning")) thresholds

  unfoldable pub evaluate_containers : List (Fields Num) → Thresholds Num → Result Verdict
  evaluate_containers items thresholds = do
    health_map ← table_of (lookup "health" thresholds)
    status_map ← table_of (lookup "status" thresholds)
    worst ←
        worst_of (judge_container health_map status_map (default_status thresholds)) items initial
    ok (result worst)

  -- The dispatch on the shape of the data and of the thresholds.
  unfoldable pub evaluate_data : Num → Raw Num → Thresholds Num → Result Verdict
  evaluate_data zero_tuples raw thresholds = elim raw.items [
    | none ↦ evaluate_single raw.fields thresholds
    | some items ↦
        if is_some (lookup "health" thresholds) && is_some (lookup "status" thresholds)
        then evaluate_containers items thresholds
        else evaluate_list zero_tuples items thresholds
  ]

  unfoldable pub evaluate : Num → Raw Num → ServiceConfig Num → Result Evaluated
  evaluate zero_tuples raw config = do
    verdict ← evaluate_data zero_tuples raw (or_default config.thresholds [])
    level ← of_name verdict.0
    threshold ← of_name (or_default config.alert_min_level "warning")
    ok (record { status = verdict.0; message = verdict.1; should_alert = geb level threshold })
