-- ===== src/Base/Text.antt =====
-- Text as the list of its code points, with the prefix and suffix tests that patterns are made of.
pub mod Strip
use Prim.Native.Char.{code}
use text.Mathlib.TextLemmas.{nil-append, cons-append}
use mathlib.Core.Option
use mathlib.Core.Logic.{dite}
use mathlib.Core.Path.{subst}
use mathlib.Core.Bool.{Bool-discrete}
use mathlib.Core.List.{append_assoc}
use fast_tak.Base.{
  ℕ, zero, suc, String, ◌<>◌, ◌+◌, ◌*◌, ◌/◌, ◌%◌, ◌<◌, inl, inr, Eq, length, length-append,
  Bool-cases, Option-cases, ◌-◌, ◌≡◌, refl, ap, ◌∙◌, Bool, true, false, ◌&&◌, ◌||◌, Option, none,
  some, List, [], ◌∷◌, ◌++◌, arith, leb, ltb, ◌==◌, nat_eq, if◌then◌else◌,
}

abbrev pub codes : String → List ℕ
codes String.[] = []
codes (String.◌∷◌ c s) = code c ∷ codes s

pub codes-append : (s t : String) → codes (s <> t) ≡ codes s ++ codes t
codes-append String.[] t = rw nil-append
codes-append (String.◌∷◌ c s) t = rw (cons-append, codes-append s t)

-- What follows the prefix, if the text begins with it.
unfoldable pub strip_prefix : List ℕ → List ℕ → Option (List ℕ)
strip_prefix [] xs = some xs
strip_prefix (p ∷ ps) [] = none
strip_prefix (p ∷ ps) (x ∷ xs) = if p == x then strip_prefix ps xs else none

-- The texts are the same.
unfoldable pub same : List ℕ → List ℕ → Bool
same [] [] = true
same (x ∷ xs) (y ∷ ys) = (x == y) && same xs ys
same _ _ = false

-- What precedes the suffix, if the text ends with it.
unfoldable pub before_suffix : List ℕ → List ℕ → Option (List ℕ)
unfolding same
before_suffix suffix [] = if same [] suffix then some [] else none
before_suffix suffix (x ∷ xs) =
    let rest = before_suffix suffix xs in
    if same (x ∷ xs) suffix then some [] else Option.map (λ body. x ∷ body) rest

-- The first `n` decimal digits as a number, and what follows them.
unfoldable pub read_digits : ℕ → ℕ → List ℕ → Option (ℕ × List ℕ)
read_digits zero acc xs = some (acc, xs)
read_digits (suc n) acc [] = none
read_digits (suc n) acc (x ∷ xs) =
    if leb b'0' x && leb x b'9' then read_digits n (acc * 10 + (x - b'0')) xs else none

-- `a <= b` on texts, by code points.
unfoldable pub text_leb : List ℕ → List ℕ → Bool
text_leb [] ys = true
text_leb (x ∷ xs) [] = false
text_leb (x ∷ xs) (y ∷ ys) = if ltb x y then true else (x == y) && text_leb xs ys

pub strip_prefix-append : (ps xs : List ℕ) → strip_prefix ps (ps ++ xs) ≡ some xs
unfolding strip_prefix
strip_prefix-append [] xs = refl
strip_prefix-append (p ∷ ps) xs = ground (arith, strip_prefix-append ps xs)

pub strip_prefix-eq :
    (ps xs : List ℕ) {rest : List ℕ} → strip_prefix ps xs ≡ some rest → xs ≡ ps ++ rest
unfolding strip_prefix
strip_prefix-eq [] xs h = ground arith
strip_prefix-eq (p ∷ ps) [] h = cc
strip_prefix-eq (p ∷ ps) (x ∷ xs) {rest} h = ground (arith, strip_prefix-eq ps xs {rest = rest})

pub same_refl : (xs : List ℕ) → same xs xs ≡ true
unfolding same
same_refl [] = refl
same_refl (x ∷ xs) = ground (arith, same_refl xs)

pub same-eq : (xs ys : List ℕ) → same xs ys ≡ true → xs ≡ ys
unfolding same
same-eq [] [] h = refl
same-eq [] (y ∷ ys) h = cc
same-eq (x ∷ xs) [] h = cc
same-eq (x ∷ xs) (y ∷ ys) h = ground (arith, same-eq xs ys)

instance unfoldable pub codes_eq : Eq (List ℕ)
unfolding same
codes_eq = record {
  dec = λ xs ys.
      dite (Bool-discrete (same xs ys) true) (λ e. yes (same-eq xs ys e))
        (λ n. no (λ p. n (subst (λ zs. same xs zs ≡ true) p (same_refl xs))));
}

longer-not-same : (b : ℕ) (body suffix : List ℕ) → same (b ∷ (body ++ suffix)) suffix ≡ false
longer-not-same b body suffix = elim (Bool-cases (same (b ∷ (body ++ suffix)) suffix)) [
  | inr differ ↦ differ
  | inl equal ↦ absurd (
      omega
        (arith, ap length (same-eq (b ∷ (body ++ suffix)) suffix equal), length-append body suffix))
]

pub before_suffix-append :
    (body suffix : List ℕ) → before_suffix suffix (body ++ suffix) ≡ some body
unfolding before_suffix
before_suffix-append [] [] = refl
before_suffix-append [] (x ∷ suffix) = ground (arith, same_refl (x ∷ suffix))
before_suffix-append (b ∷ body) suffix =
    rw (longer-not-same b body suffix, before_suffix-append body suffix)

pub before_suffix-eq :
    (suffix xs : List ℕ) {body : List ℕ} → before_suffix suffix xs ≡ some body → xs ≡ body ++ suffix
unfolding before_suffix
before_suffix-eq suffix [] {body} h = ground (arith, same-eq [] suffix)
before_suffix-eq suffix (x ∷ xs) {body} h = elim (Bool-cases (same (x ∷ xs) suffix)) [
  | inl e ↦ ground (arith, same-eq (x ∷ xs) suffix)
  | inr n ↦ elim (Option-cases (before_suffix suffix xs)) [
    | inl missing ↦ ground arith
    | inr (rest, found) ↦ ground (arith, before_suffix-eq suffix xs {body = rest} found)
  ]
]

-- `n` decimal digits, leading zeros included.
unfoldable pub print_digits : ℕ → ℕ → List ℕ
print_digits zero v = []
print_digits (suc n) v = print_digits n (v / 10) ++ ((b'0' + v % 10) ∷ [])

abbrev pub pow10 : ℕ → ℕ
pow10 zero = 1
pow10 (suc n) = 10 * pow10 n

abbrev read_one : Option (ℕ × List ℕ) → Option (ℕ × List ℕ)
read_one none = none
read_one (some (acc, xs)) = read_digits 1 acc xs

read_digits-suc :
    (n acc : ℕ) (xs : List ℕ) → read_digits (suc n) acc xs ≡ read_one (read_digits n acc xs)
unfolding read_digits
read_digits-suc zero acc xs = refl
read_digits-suc (suc n) acc [] = refl
read_digits-suc (suc n) acc (x ∷ xs) = ground (arith, read_digits-suc n (acc * 10 + (x - b'0')) xs)

read_one-digit :
    (v : ℕ) (rest : List ℕ) → read_digits 1 (v / 10) ((b'0' + v % 10) ∷ rest) ≡ some (v, rest)
unfolding read_digits
read_one-digit v rest = ground arith

-- Digits that are printed are read back.
pub read_digits-print_digits :
    (n v : ℕ) (rest : List ℕ)
    → v < pow10 n
    → read_digits n 0 (print_digits n v ++ rest) ≡ some (v, rest)
unfolding print_digits read_digits
read_digits-print_digits zero v rest h = ground arith
read_digits-print_digits (suc n) v rest h = rw append_assoc (
    read_digits-suc n 0 (print_digits n (v / 10) ++ ((b'0' + v % 10) ∷ rest))
    ∙ (ap read_one (read_digits-print_digits n (v / 10) ((b'0' + v % 10) ∷ rest) (omega arith))
        ∙ read_one-digit v rest))

-- The text without one newline at its end, which a `$` of `re` overlooks.
unfoldable pub chomp : List ℕ → List ℕ
chomp [] = []
chomp (x ∷ []) = if x == 10 then [] else x ∷ []
chomp (x ∷ y ∷ xs) = x ∷ chomp (y ∷ xs)

abbrev pub all_of : (ℕ → Bool) → List ℕ → Bool
all_of p [] = true
all_of p (x ∷ xs) = p x && all_of p xs

pub all_of-append :
    (p : ℕ → Bool) (xs ys : List ℕ) → all_of p (xs ++ ys) ≡ (all_of p xs && all_of p ys)
all_of-append p [] ys = refl
all_of-append p (x ∷ xs) ys = ground (arith, all_of-append p xs ys)

-- The characters that `str.strip` takes for white space.
unfoldable pub is_space : ℕ → Bool
is_space x =
    (leb 9 x && leb x 13)
    || ((leb 28 x && leb x 32)
        || (x == 133
            || (x == 160
                || (x == 5760
                    || ((leb 8192 x && leb x 8202)
                        || (x == 8232
                            || (x == 8233 || (x == 8239 || (x == 8287 || x == 12288)))))))))

-- `s.lstrip()`
unfoldable pub lstrip : List ℕ → List ℕ
lstrip [] = []
lstrip (x ∷ xs) = let rest = lstrip xs in if is_space x then rest else x ∷ xs

unfoldable pub all_space : List ℕ → Bool
all_space [] = true
all_space (x ∷ xs) = is_space x && all_space xs

-- `s.rstrip()`
unfoldable pub rstrip : List ℕ → List ℕ
unfolding all_space
rstrip [] = []
rstrip (x ∷ xs) = let rest = rstrip xs in if all_space (x ∷ xs) then [] else x ∷ rest

-- `s.strip()`
unfoldable pub strip : List ℕ → List ℕ
strip xs = rstrip (lstrip xs)

pub strip-space : (x : ℕ) (xs : List ℕ) → is_space x ≡ true → strip (x ∷ xs) ≡ strip xs
unfolding strip lstrip
strip-space x xs h = ground arith

-- `s.split(c, 1)[1]` of a text that has the character `c`.
unfoldable pub after : ℕ → List ℕ → List ℕ
after c [] = []
after c (x ∷ xs) = let rest = after c xs in if x == c then xs else rest
