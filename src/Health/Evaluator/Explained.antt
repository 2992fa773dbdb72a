-- ===== src/Health/Evaluator/Explained.antt =====
-- What a message owes a level above `ok`, and that each threshold check pays it.
use text.Mathlib.TextLemmas.{append-eq-nil_iff}
use fast_tak.Base.{
  String, ◌<>◌, ◌<◌, ◌≡◌, refl, ap, Bool, true, Option, none, some, List, [], ◌∷◌, inl, inr, arith,
  string_eq, Bool-cases, Option-cases, is_some,
}
use fast_tak.Base.Dict.{lookup}
use fast_tak.Base.Result.{Result, ok, >>=-eq-ok}
use fast_tak.Base.Python.{Python, Scalar, less, Fields, str, truthy_text, some_text}
use fast_tak.Health.Status.{Status, okay, rank, of_name}
use fast_tak.Health.Evaluator.Threshold.{
  Entry, scalar, table, Verdict, is_numeric_threshold, check_mapping, check_levels, check_numeric,
  check_when_set, check_threshold,
}
use fast_tak.Health.Evaluator.Worst.{Finding, worst_of, Judged, worst_of-Judged}
use fast_tak.Health.Evaluator.Items.{initial}

abbrev pub has_text : Option String → Bool
has_text m = is_some (some_text m)

pub truthy-append_left : (s t : String) → truthy_text s ≡ true → truthy_text (s <> t) ≡ true
truthy-append_left s t h = ground (arith, append-eq-nil_iff {p = s} {q = t})

pub truthy-append_right : (s t : String) → truthy_text t ≡ true → truthy_text (s <> t) ≡ true
truthy-append_right s t h = ground (arith, append-eq-nil_iff {p = s} {q = t})

abbrev pub Explained : Finding → Type 0
Explained found = 0 < rank found.0 → has_text found.1 ≡ true

abbrev pub AllExplained : {A : Type 0} → (A → Result (Option Finding)) → Type 0
AllExplained {A = A} judge = (x : A) (found : Finding) → judge x ≡ ok (some found) → Explained found

pub Judged-Explained :
    {A : Type 0} (judge : A → Result (Option Finding)) (xs : List A) (found : Finding)
    → AllExplained judge
    → Judged judge found xs
    → Explained found
Judged-Explained judge [] found all h = elim h [ ]
Judged-Explained judge (x ∷ xs) found all (inl here) = all x found here
Judged-Explained judge (x ∷ xs) found all (inr there) = Judged-Explained judge xs found all there

pub initial-Explained : (found : Finding) → found ≡ initial → Explained found
initial-Explained found e above = absurd (omega (arith, ap (λ (f : Finding). rank f.0) e))

pub loop-Explained :
    {A : Type 0} (judge : A → Result (Option Finding)) (xs : List A) {out : Finding}
    → AllExplained judge
    → worst_of judge xs initial ≡ ok out
    → Explained out
loop-Explained judge xs {out} all h = elim (worst_of-Judged judge xs initial h) [
  | inl start ↦ initial-Explained out start
  | inr judged ↦ Judged-Explained judge xs out all judged
]

module _ (py : Python) where
  open py use {Num, lower}

  is_text : (key s : String) → truthy_text (key <> " is " <> s) ≡ true
  unfolding string_eq
  is_text key s = truthy-append_right key (" is " <> s) (truthy-append_left " is " s refl)

  unmapped_text : (key s : String) → truthy_text (key <> " has unmapped value: " <> s) ≡ true
  unfolding string_eq
  unmapped_text key s =
      truthy-append_right key (" has unmapped value: " <> s)
        (truthy-append_left " has unmapped value: " s refl)

  warning_level : {level : Status} → of_name "warning" ≡ ok level → level ≡ Status.warning
  unfolding of_name string_eq
  warning_level h = cc

  ok_level : {level : Status} → of_name "ok" ≡ ok level → level ≡ okay
  unfolding of_name string_eq
  ok_level h = cc

  check_mapping-Explained :
      (key : String) (value : Scalar Num) (levels : Fields Num) {out : Verdict} {level : Status}
      → check_mapping py key value levels ≡ ok out
      → of_name out.0 ≡ ok level
      → Explained (level, out.1)
  unfolding check_mapping
  check_mapping-Explained key value levels h e above =
      elim (Option-cases (lookup (lower (str py value)) levels)) [
        | inl missing ↦ ground (arith, unmapped_text key (str py value))
        | inr (mapped, found) ↦
            ground (arith, is_text key (str py value), unmapped_text key (str py value))
      ]

  check_levels-Explained :
      (beyond : Scalar Num → Scalar Num → Result Bool) (key : String) (value w c : Scalar Num)
      {out : Verdict} {level : Status}
      → check_levels py beyond key value w c ≡ ok out
      → of_name out.0 ≡ ok level
      → Explained (level, out.1)
  unfolding check_levels
  check_levels-Explained beyond key value w c {level = level} h e above = ground (
    arith,
    ok_level {level = level},
    is_text key (str py value <> " (threshold: " <> str py w <> ")"),
    is_text key (str py value <> " (threshold: " <> str py c <> ")"),
  )

  check_numeric-Explained :
      (key : String) (value w c : Scalar Num) {out : Verdict} {level : Status}
      → check_numeric py key value w c ≡ ok out
      → of_name out.0 ≡ ok level
      → Explained (level, out.1)
  unfolding check_numeric
  check_numeric-Explained key value w c h e above =
      let (higher, compared, rest) = >>=-eq-ok (less py w c) _ h in
      check_levels-Explained _ key value w c rest e above

  check_when_set-Explained :
      (key : String) (value : Scalar Num) (w c : Option (Scalar Num)) {out : Verdict}
      {level : Status}
      → check_when_set py key value w c ≡ ok out
      → of_name out.0 ≡ ok level
      → Explained (level, out.1)
  unfolding check_when_set
  check_when_set-Explained key value none c {level = level} h e above =
      ground (arith, ok_level {level = level})
  check_when_set-Explained key value (some w) none {level = level} h e above =
      ground (arith, ok_level {level = level})
  check_when_set-Explained key value (some w) (some c) h e above =
      check_numeric-Explained key value w c h e above

  pub check_threshold-Explained :
      (key : String) (value : Scalar Num) (levels : Entry Num) {out : Verdict} {level : Status}
      → check_threshold py key value levels ≡ ok out
      → of_name out.0 ≡ ok level
      → Explained (level, out.1)
  unfolding check_threshold
  check_threshold-Explained key value (scalar s) h e above = cc
  check_threshold-Explained key value (table levels) {out} {level} h e above =
      elim (Bool-cases (is_numeric_threshold py levels)) [
        | inl numeric ↦ check_when_set-Explained key value _ _ (rw numeric at h) e above
        | inr mapping ↦ check_mapping-Explained key value levels (rw mapping at h) e above
      ]
