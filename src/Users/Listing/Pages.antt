-- ===== src/Users/Listing/Pages.antt =====
-- The pages of a listing are a partition of it.
use fast_tak.Base.{
  ℕ, zero, suc, ◌+◌, ◌-◌, ◌*◌, ◌≡◌, ◌≤◌, refl, ap, sym, ◌∙◌, List, [], ◌∷◌, ◌++◌, length, take,
  drop, arith,
}
use fast_tak.Users.Listing.{page_of}

-- The first pages one after the other.
abbrev pub first_pages {ℓ} : {A : Type ℓ} → ℕ → ℕ → List A → List A
first_pages zero page_size users = []
first_pages (suc n) page_size users =
    first_pages n page_size users ++ page_of (suc n) page_size users

module _ {ℓ} {A : Type ℓ} where
  take-add : (a b : ℕ) (xs : List A) → take (a + b) xs ≡ take a xs ++ take b (drop a xs)
  take-add zero b xs = let e : 0 + b ≡ b = omega arith in rw e refl
  take-add (suc a) b [] = let e : suc a + b ≡ suc (a + b) = omega arith in rw e (nothing b)
    where
      nothing : (k : ℕ) → ◌≡◌ {A = List A} [] (take k [])
      nothing zero = refl
      nothing (suc k) = refl
  take-add (suc a) b (x ∷ xs) =
      let e : suc a + b ≡ suc (a + b) = omega arith in
      rw e (ap (λ (ys : List A). x ∷ ys) (take-add a b xs))

  take_all : (n : ℕ) (xs : List A) → length xs ≤ n → take n xs ≡ xs
  take_all zero [] h = refl
  take_all zero (x ∷ xs) h = absurd (omega arith)
  take_all (suc n) [] h = refl
  take_all (suc n) (x ∷ xs) h = ap (λ (ys : List A). x ∷ ys) (take_all n xs (omega arith))

  first_pages-take : (n size : ℕ) (xs : List A) → first_pages n size xs ≡ take (n * size) xs
  unfolding page_of
  first_pages-take zero size xs = let e : 0 * size ≡ 0 = grind arith in rw e refl
  first_pages-take (suc n) size xs =
      let e : suc n * size ≡ n * size + size = grind arith in
      let k : suc n - 1 ≡ n = omega arith in
      rw (e, k, first_pages-take n size xs) (sym (take-add (n * size) size xs))

  -- The pages of a listing, one after the other, give every user once and in order, as soon as there
  -- are enough of them for the number of users.
  pub first_pages_cover :
      (n page_size : ℕ) (users : List A)
      → length users ≤ n * page_size
      → first_pages n page_size users ≡ users
  first_pages_cover n page_size users h =
      first_pages-take n page_size users ∙ take_all (n * page_size) users h
