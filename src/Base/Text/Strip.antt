-- ===== src/Base/Text/Strip.antt =====
-- Texts that `str.strip` leaves as they are.
use fast_tak.Base.{
  ℕ, ◌≡◌, ◌≢◌, ◌≤◌, refl, ap, false, List, [], ◌∷◌, ◌++◌, arith, length, Bool-cases, inl, inr,
}
use fast_tak.Base.Text.{strip, lstrip, rstrip, is_space, all_space, strip-space}

length-lstrip : (xs : List ℕ) → length (lstrip xs) ≤ length xs
unfolding lstrip
length-lstrip [] = omega arith
length-lstrip (x ∷ xs) = ground (arith, length-lstrip xs)

length-rstrip : (xs : List ℕ) → length (rstrip xs) ≤ length xs
unfolding rstrip
length-rstrip [] = omega arith
length-rstrip (x ∷ xs) = ground (arith, length-rstrip xs)

length-strip : (xs : List ℕ) → length (strip xs) ≤ length xs
unfolding strip
length-strip xs = omega (arith, length-lstrip xs, length-rstrip (lstrip xs))

-- Nothing is taken off the end either.
rstrip_trimmed : (v : List ℕ) → strip v ≡ v → rstrip v ≡ v
rstrip_trimmed [] h = unfold rstrip in refl
rstrip_trimmed (x ∷ v) h = elim (Bool-cases (is_space x)) [
  | inl space ↦
      absurd (omega (arith, length-strip v, ap length (strip-space x v space), ap length h))
  | inr solid ↦ unfold strip lstrip in ground (arith, h, solid)
]

not-all_space : (v : List ℕ) → rstrip v ≡ v → v ≢ [] → all_space v ≡ false
unfolding rstrip
not-all_space [] h ne = absurd (ne refl)
not-all_space (x ∷ v) h ne = ground (arith, h)

all_space-append : (p v : List ℕ) → all_space v ≡ false → all_space (p ++ v) ≡ false
unfolding all_space
all_space-append [] v h = h
all_space-append (x ∷ p) v h = ground (arith, all_space-append p v h)

rstrip-append : (p v : List ℕ) → rstrip v ≡ v → v ≢ [] → rstrip (p ++ v) ≡ p ++ v
unfolding rstrip
rstrip-append [] v h ne = h
rstrip-append (x ∷ p) v h ne =
    let solid = all_space-append (x ∷ p) v (not-all_space v h ne) in
    ground (arith, solid, rstrip-append p v h ne)

-- A text that begins with no white space and ends with a trimmed one is trimmed.
pub strip-append :
    (c : ℕ) (p v : List ℕ)
    → is_space c ≡ false
    → strip v ≡ v
    → v ≢ []
    → strip (c ∷ (p ++ v)) ≡ c ∷ (p ++ v)
strip-append c p v solid whole ne =
    let e = rstrip-append (c ∷ p) v (rstrip_trimmed v whole) ne in
    unfold strip lstrip in ground (arith, solid, e)
