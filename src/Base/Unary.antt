-- ===== src/Base/Unary.antt =====
-- A concrete Python for the tests: its numbers are the natural ones, printed as strokes.
use fast_tak.Base.{
  ℕ, zero, suc, ◌-◌, String, ◌<>◌, ◌≡◌, ◌≢◌, refl, ap, Option, some, arith, ltb, leb, length, ◌==◌,
  nat_eq, string_eq, if◌then◌else◌,
}
use fast_tak.Base.Text.{codes, codes-append}
use fast_tak.Base.Python.{Python, IsLawful}

abbrev strokes : ℕ → String
strokes zero = "|"
strokes (suc n) = "|" <> strokes n

abbrev fold_case : String → String
fold_case s = if s == "True" then "true" else if s == "False" then "false" else s

abbrev pub unary : Python
unary = record {
  Num = ℕ;
  ltb = ltb;
  leb = leb;
  of_bool = λ b. if b then 1 else 0;
  is_zero = λ n. n == 0;
  show = strokes;
  lower = fold_case;
}

abbrev pub count : String → Option ℕ
count s = some (length (codes s) - 1)

pub length-strokes : (n : ℕ) → length (codes (strokes n)) ≡ suc n
length-strokes zero = refl
length-strokes (suc n) = omega (arith, ap length (codes-append "|" (strokes n)), length-strokes n)

strokes-ne-nil : (n : ℕ) → strokes n ≢ ""
strokes-ne-nil n e = omega (arith, ap (λ (s : String). length (codes s)) e, length-strokes n)

pub unary-IsLawful : IsLawful unary
unary-IsLawful = record {
  show-ne-nil = strokes-ne-nil;
  leb_trans = λ a b c. ground arith;
  ltb-not-leb = λ a b. ground arith;
}

-- The cases of `lower` that the attributes rest on.
pub fold_case_True : fold_case "True" ≡ "true"
unfolding string_eq
fold_case_True = refl

pub fold_case_False : fold_case "False" ≡ "false"
unfolding string_eq
fold_case_False = refl

fold_case_true : fold_case "true" ≡ "true"
unfolding string_eq
fold_case_true = refl

fold_case_false : fold_case "false" ≡ "false"
unfolding string_eq
fold_case_false = refl

pub fold_case_idempotent : (s : String) → fold_case (fold_case s) ≡ fold_case s
fold_case_idempotent s = elim (string_eq.dec s "True") [
  | yes p ↦ ground (arith, p, fold_case_true, fold_case_True)
  | no n ↦ elim (string_eq.dec s "False") [
    | yes q ↦ ground (arith, q, fold_case_false, fold_case_False)
    | no m ↦ ground (arith, n, m)
  ]
]

pub count-strokes : (n : ℕ) → count (strokes n) ≡ some n
count-strokes n = ap some (omega (arith, length-strokes n))
