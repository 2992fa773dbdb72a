-- ===== src/Health/Status.antt =====
-- Status levels (monitor/app/status.py).
use fast_tak.Base.{ℕ, String, ◌≡◌, refl, Bool, ltb, leb, ◌==◌, string_eq, if◌then◌else◌}
use fast_tak.Base.Result.{Result, ok, err, key_error}

pub data Status : Type 0 where
  okay note warning critical : Status

-- The `IntEnum` value.
abbrev pub rank : Status → ℕ
rank okay = 0
rank note = 1
rank warning = 2
rank critical = 3

-- `a > b`, `a >= b`
abbrev pub gtb : Status → Status → Bool
gtb a b = ltb (rank b) (rank a)

abbrev pub geb : Status → Status → Bool
geb a b = leb (rank b) (rank a)

-- `.name`
abbrev pub name : Status → String
name okay = "ok"
name note = "note"
name warning = "warning"
name critical = "critical"

-- `Status[text]`
unfoldable pub of_name : String → Result Status
of_name s =
    if s == "ok"
    then ok okay
    else if s == "note"
    then ok note
    else if s == "warning"
    then ok warning
    else if s == "critical"
    then ok critical
    else err key_error

-- Looking a status up by its own name gives it back.
pub of_name-name : (s : Status) → of_name (name s) ≡ ok s
unfolding of_name string_eq
of_name-name okay = refl
of_name-name note = refl
of_name-name warning = refl
of_name-name critical = refl
