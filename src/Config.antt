-- ===== src/Config.antt =====
-- The monitoring configuration (monitor/app/monitoring_config.py): the values of thresholds.yml, and the
-- overrides of the environment. A name or a text is a list of code points. The YAML parser gives the values, and
-- `str.lower`, `int` and `float` are parameters.
pub mod Walks
pub mod Leaves
pub mod Loading
mod Tests
use fast_tak.Base.{
  ℕ, String, ◌≡◌, Bool, true, false, ◌&&◌, ◌||◌, Option, none, some, List, [], ◌∷◌, ◌==◌, nat_eq,
  is_some, if◌then◌else◌, contains,
}
use fast_tak.Base.Int.{ℤ}
use fast_tak.Base.Result.{Result, ok, err, ◌>>=◌, type_error, value_error}
use fast_tak.Base.Text.{codes, codes_eq, strip_prefix}
use fast_tak.Access.{cons_head}

abbrev pub Chars : Type 0
Chars = List ℕ

-- A value of the file. `other` stands for null and for the values that are neither a number nor a container, and
-- of a sequence the texts in it are kept.
mutual
  pub data Setting (Float : Type 0) : Type 0 where
    table : Table Float → Setting Float
    flag : Bool → Setting Float
    whole : ℤ → Setting Float
    decimal : Float → Setting Float
    text : Chars → Setting Float
    sequence : List Chars → Setting Float
    other : Setting Float

  pub data Table (Float : Type 0) : Type 0 where
    end : Table Float
    entry : Chars → Setting Float → Table Float → Table Float

module _ {Float : Type 0} where
  -- `table.get(key)`
  unfoldable pub find : Chars → Table Float → Option (Setting Float)
  find key end = none
  find key (entry k s t) = if key == k then some s else find key t

  -- `table[key] = value`, for a key that is there.
  unfoldable pub put : Chars → Setting Float → Table Float → Table Float
  put key value end = end
  put key value (entry k s t) = if key == k then entry k value t else entry k s (put key value t)

-- `key in text`
unfoldable pub is_inside : Chars → Chars → Bool
is_inside key [] = key == []
is_inside key (x ∷ xs) = is_some (strip_prefix key (x ∷ xs)) || is_inside key xs

module _ {Float : Type 0} where
  unfoldable pub put_ok : Chars → Table Float → Result (Setting Float) → Result (Setting Float)
  put_ok key t (err e) = err e
  put_ok key t (ok value) = ok (table (put key value t))

  -- The test `key in obj`, and what happens at `obj[key]` where it holds. A text and a sequence have no
  -- `obj[key]` for a text, and the others have no `in`.
  unfoldable pub at_key :
      Chars → (Setting Float → Result (Setting Float)) → Setting Float → Result (Setting Float)
  at_key key change (table t) = elim (find key t) [
    | none ↦ ok (table t)
    | some s ↦ put_ok key t (change s)
  ]
  at_key key change (text s) = if is_inside key s then err type_error else ok (text s)
  at_key key change (sequence xs) = if contains xs key then err type_error else ok (sequence xs)
  at_key key change (flag b) = err type_error
  at_key key change (whole n) = err type_error
  at_key key change (decimal x) = err type_error
  at_key key change other = err type_error

  abbrev pub whole_of : Option ℤ → Result (Setting Float)
  whole_of none = err value_error
  whole_of (some n) = ok (whole n)

  abbrev pub decimal_of : Option Float → Result (Setting Float)
  decimal_of none = err value_error
  decimal_of (some x) = ok (decimal x)

-- `config_key.split("__")`
unfoldable pub split_on_dunder : Chars → List Chars
split_on_dunder [] = [] ∷ []
split_on_dunder (x ∷ []) = (x ∷ []) ∷ []
split_on_dunder (x ∷ y ∷ xs) = elim (x == b'_' && y == b'_') [
  | true ↦ [] ∷ split_on_dunder xs
  | false ↦ cons_head x (split_on_dunder (y ∷ xs))
]

module _ (Float : Type 0) (lower : Chars → Chars) (read_int : Chars → Option ℤ)
    (read_float : Chars → Option Float) where
  -- The type of the value that is there decides. A Boolean is an int of Python.
  unfoldable pub coerce : Chars → Setting Float → Result (Setting Float)
  coerce value (flag b) = whole_of (read_int value)
  coerce value (whole n) = whole_of (read_int value)
  coerce value (decimal x) = decimal_of (read_float value)
  coerce value (table t) = ok (text value)
  coerce value (text s) = ok (text value)
  coerce value (sequence xs) = ok (text value)
  coerce value other = ok (text value)

  -- `_apply_override`, with the first part of the path and the others.
  unfoldable pub apply_override :
      Chars → Chars → List Chars → Setting Float → Result (Setting Float)
  apply_override value part [] obj = at_key (lower part) (coerce value) obj
  apply_override value part (next ∷ parts) obj =
      at_key (lower part) (apply_override value next parts) obj

  unfoldable pub apply_parts : Chars → List Chars → Setting Float → Result (Setting Float)
  apply_parts value [] config = ok config
  apply_parts value (service ∷ []) config = ok config
  apply_parts value (service ∷ part ∷ parts) config =
      at_key (lower service) (apply_override value part parts) config

  -- One round of the loop over the environment.
  unfoldable pub override_by : Chars → Chars → Setting Float → Result (Setting Float)
  override_by key value config = elim (strip_prefix (codes "FASTAK_MON_") key) [
    | none ↦ ok config
    | some remainder ↦ apply_parts value (split_on_dunder remainder) config
  ]

  -- `load_config` on the values of the file.
  unfoldable pub load_config : List (Chars × Chars) → Setting Float → Result (Setting Float)
  load_config [] config = ok config
  load_config ((key, value) ∷ environ) config = override_by key value config >>= load_config environ
