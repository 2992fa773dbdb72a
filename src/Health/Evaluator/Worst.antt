-- ===== src/Health/Evaluator/Worst.antt =====
-- The loop that every evaluation runs: each element is judged in turn, and the worst level so far
-- is kept with its message.
use fast_tak.Base.{
  String, ◌≤◌, ◌≡◌, refl, ◌∙◌, Option, none, some, List, [], ◌∷◌, ◌⊎◌, inl, inr, arith, All,
  if◌then◌else◌,
}
use fast_tak.Base.Result.{Result, ok, err, ◌>>=◌, >>=-eq-ok}
use fast_tak.Health.Status.{Status, rank, gtb}

-- A level and the message that goes with it.
abbrev pub Finding : Type 0
Finding = Status × Option String

-- `if Status[status] > worst: worst = ...; message = ...`
abbrev pub worse : Finding → Finding → Finding
worse acc found = if gtb found.0 acc.0 then found else acc

-- A judgement of `none` is a `continue`.
abbrev pub keep : Finding → Option Finding → Finding
keep acc none = acc
keep acc (some found) = worse acc found

-- `for x in xs: ...`
unfoldable pub worst_of {ℓ} :
    {A : Type ℓ} → (A → Result (Option Finding)) → List A → Finding → Result Finding
worst_of judge [] acc = ok acc
worst_of judge (x ∷ xs) acc = judge x >>= λ found. worst_of judge xs (keep acc found)

-- The judgement of an element is no worse than the level.
abbrev pub Within : Status → Result (Option Finding) → Type 0
Within w (err e) = ⊥
Within w (ok none) = Unit
Within w (ok (some (l, m))) = rank l ≤ rank w

module _ {ℓ} {A : Type ℓ} (judge : A → Result (Option Finding)) where
  keep_grows : (acc : Finding) (found : Option Finding) → rank acc.0 ≤ rank (keep acc found).0
  keep_grows acc none = omega arith
  keep_grows acc (some found) = ground arith

  pub worst_of_grows :
      (xs : List A) (acc : Finding) {out : Finding}
      → worst_of judge xs acc ≡ ok out
      → rank acc.0 ≤ rank out.0
  unfolding worst_of
  worst_of_grows [] acc h = ground arith
  worst_of_grows (x ∷ xs) acc {out} h =
      let (found, judged, rest) = >>=-eq-ok (judge x) _ h in
      omega (arith, keep_grows acc found, worst_of_grows xs (keep acc found) rest)

  Within-kept :
      (acc : Finding) (found : Option Finding) (w : Status)
      → rank (keep acc found).0 ≤ rank w
      → Within w (ok found)
  Within-kept acc none w h = tt
  Within-kept acc (some found) w h = ground arith

  -- No judged element is worse than the outcome.
  pub worst_of-Within :
      (xs : List A) (acc : Finding) {out : Finding}
      → worst_of judge xs acc ≡ ok out
      → All (λ x. Within out.0 (judge x)) xs
  unfolding worst_of
  worst_of-Within [] acc h = tt
  worst_of-Within (x ∷ xs) acc {out} h =
      let (found, judged, rest) = >>=-eq-ok (judge x) _ h in
      (
        rw judged (Within-kept acc found out.0 (worst_of_grows xs (keep acc found) rest)),
        worst_of-Within xs (keep acc found) rest,
      )

  -- Some element of the list was judged to be exactly this finding.
  abbrev pub Judged : Finding → List A → Type 0
  Judged out [] = ⊥
  Judged out (x ∷ xs) = (judge x ≡ ok (some out)) ⊎ Judged out xs

  kept_cases :
      (acc : Finding) (found : Option Finding)
      → (keep acc found ≡ acc) ⊎ (found ≡ some (keep acc found))
  kept_cases acc none = inl refl
  kept_cases acc (some found) = ground arith

  -- The outcome is what the loop began with, or the judgement of one element, message included.
  pub worst_of-Judged :
      (xs : List A) (acc : Finding) {out : Finding}
      → worst_of judge xs acc ≡ ok out
      → (out ≡ acc) ⊎ Judged out xs
  unfolding worst_of
  worst_of-Judged [] acc h = inl (ground arith)
  worst_of-Judged (x ∷ xs) acc {out} h =
      let (found, judged, rest) = >>=-eq-ok (judge x) _ h in
      elim (worst_of-Judged xs (keep acc found) rest) [
        | inr later ↦ inr (inr later)
        | inl kept ↦ elim (kept_cases acc found) [
          | inl same ↦ inl (kept ∙ same)
          | inr new ↦ inr (inl (cc (judged, new, kept)))
        ]
      ]
