-- ===== src/Config/Tests.antt =====
-- The overrides, run on a part of thresholds.yml.
use fast_tak.Base.{
  ℕ, ◌≡◌, ◌+◌, ◌-◌, ◌*◌, refl, ◌&&◌, Option, none, some, List, [], ◌∷◌, nat_eq, leb, if◌then◌else◌,
}
use fast_tak.Base.Int.{ℤ, pos}
use fast_tak.Base.Result.{Result, ok, err, type_error, value_error}
use fast_tak.Base.Text.{codes, codes_eq, same, strip_prefix}
use fast_tak.Access.{cons_head}
use fast_tak.Config.{
  Chars, Setting, table, whole, end, entry, find, put, put_ok, is_inside, at_key, split_on_dunder,
  coerce, apply_override, apply_parts, override_by, load_config,
}
use fast_tak.Config.Walks.{leaf, walk, after_all}
use fast_tak.Config.Loading.{load_config_numbers}

abbrev lower_char : ℕ → ℕ
lower_char c = if leb b'A' c && leb c b'Z' then c + 32 else c

abbrev lower : Chars → Chars
lower [] = []
lower (c ∷ cs) = lower_char c ∷ lower cs

abbrev read_from : ℕ → Chars → Option ℤ
read_from n [] = some (pos n)
read_from n (c ∷ cs) =
    let rest = read_from (10 * n + (c - 48)) cs in if leb 48 c && leb c 57 then rest else none

abbrev read_int : Chars → Option ℤ
read_int [] = none
read_int (c ∷ cs) = read_from 0 (c ∷ cs)

abbrev read_float : Chars → Option ℕ
read_float s = none

abbrev disk : ℕ → ℕ → Setting ℕ
disk interval warning = table (
    entry (codes "interval") (whole (pos interval)) (
      entry (codes "thresholds")
        (table
          (entry (codes "percent") (table (entry (codes "warning") (whole (pos warning)) end)) end))
        end))

abbrev file : ℕ → ℕ → Setting ℕ
file interval warning = table (
    entry (codes "alert_cooldown") (whole (pos 300))
      (entry (codes "disk") (disk interval warning) end))

abbrev environ : List (Chars × Chars)
environ =
    (codes "PATH", codes "/bin")
    ∷ (codes "FASTAK_MON_DISK__INTERVAL", codes "30")
    ∷ (codes "FASTAK_MON_DISK__THRESHOLDS__PERCENT__WARNING", codes "85")
    ∷ (codes "FASTAK_MON_ALERT_COOLDOWN", codes "60")
    ∷ []

abbrev run : List (Chars × Chars) → Result (Setting ℕ)
run variables = load_config ℕ lower read_int read_float variables (file 300 80)

-- The cooldown cannot be overridden: its variable has one part only.
load_two : run environ ≡ ok (file 30 85)
unfolding load_config override_by strip_prefix apply_parts split_on_dunder cons_head at_key find put
    put_ok apply_override coerce codes_eq nat_eq same is_inside
load_two = refl

not_a_number : run ((codes "FASTAK_MON_DISK__INTERVAL", codes "soon") ∷ []) ≡ err value_error
unfolding load_config override_by strip_prefix apply_parts split_on_dunder cons_head at_key find put
    put_ok apply_override coerce codes_eq nat_eq same is_inside
not_a_number = refl

below_a_number :
    run ((codes "FASTAK_MON_ALERT_COOLDOWN__SECONDS", codes "60") ∷ []) ≡ err type_error
unfolding load_config override_by strip_prefix apply_parts split_on_dunder cons_head at_key find put
    put_ok apply_override coerce codes_eq nat_eq same is_inside
below_a_number = refl

-- The thresholds become a text, and the next variable looks into it.
below_a_text :
    run (
      (codes "FASTAK_MON_DISK__THRESHOLDS", codes "percent")
      ∷ (codes "FASTAK_MON_DISK__THRESHOLDS__PERCENT__WARNING", codes "85")
      ∷ [])
    ≡ err type_error
unfolding load_config override_by strip_prefix apply_parts split_on_dunder cons_head at_key find put
    put_ok apply_override coerce codes_eq nat_eq same is_inside
below_a_text = refl

load_config_numbers_example :
    (loaded : Setting ℕ) × (run environ ≡ ok loaded)
    × ((path : List Chars) (n : ℤ)
        → walk path (file 300 80) ≡ leaf (whole n)
        → walk path loaded ≡ leaf (whole (after_all lower read_int environ path n)))
unfolding walk find codes_eq nat_eq same strip_prefix split_on_dunder cons_head
load_config_numbers_example =
    load_config_numbers ℕ lower read_int read_float environ (file 300 80)
      (tt, ((pos 300, pos 30, refl, refl), ((pos 80, pos 85, refl, refl), (tt, tt))))
