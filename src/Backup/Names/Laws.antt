-- ===== src/Backup/Names/Laws.antt =====
-- The three users of an archive's name agree: what the runner writes, retention reads and the
-- routes let through; and what they let through is one path component.
use fast_tak.Base.{
  ℕ, zero, suc, ◌+◌, ◌*◌, ◌-◌, ◌<◌, ◌≡◌, refl, ap, ◌∙◌, Bool, true, not, Option, none, some, List,
  [], ◌∷◌, ◌++◌, arith, leb, ◌==◌, nat_eq, Option-cases, inl, inr,
}
use fast_tak.Base.Text.{
  codes, codes_eq, strip_prefix, strip_prefix-append, strip_prefix-eq, before_suffix,
  before_suffix-append, before_suffix-eq, read_digits, print_digits, read_digits-print_digits,
  chomp, all_of, all_of-append,
}
use fast_tak.Backup.Names.{
  Name, Stamp, backup_prefix, >>=-eq-some, is_calendar, is_version, read_stamp, taken_at, filename,
  is_name_char, safe_filename,
}

date_bound : (s : Stamp) → is_calendar s ≡ true → s.date < 100000000
unfolding is_calendar
date_bound s h = ground arith

time_bound : (s : Stamp) → is_calendar s ≡ true → s.time < 1000000
unfolding is_calendar
time_bound s h = ground arith

read_stamp-print :
    (s : Stamp) (rest : List ℕ)
    → is_calendar s ≡ true
    → read_stamp
        (print_digits 8 s.date ++ (codes "T" ++ (print_digits 6 s.time ++ (codes "Z-" ++ rest))))
      ≡ some (s, rest)
unfolding read_stamp
read_stamp-print s rest h =
    rw
      (read_digits-print_digits 8 s.date
        (codes "T" ++ (print_digits 6 s.time ++ (codes "Z-" ++ rest))) (date_bound s h))
      (rw (strip_prefix-append (codes "T") (print_digits 6 s.time ++ (codes "Z-" ++ rest))) (
        rw (read_digits-print_digits 6 s.time (codes "Z-" ++ rest) (time_bound s h))
          (rw (strip_prefix-append (codes "Z-") rest) refl)))

-- What retention reads from a name that the runner made is the time that the runner put in, for
-- every calendar time and every version of one line.
pub taken_at-filename :
    (s : Stamp) (version : List ℕ)
    → is_calendar s ≡ true
    → is_version version ≡ true
    → taken_at (filename s version) ≡ some s
unfolding taken_at filename
taken_at-filename s version cal ver =
    rw
      (strip_prefix-append backup_prefix (
        print_digits 8 s.date
        ++ (codes "T" ++ (print_digits 6 s.time ++ (codes "Z-" ++ (version ++ codes ".age"))))))
      (rw (read_stamp-print s (version ++ codes ".age") cal)
        (rw (before_suffix-append version (codes ".age")) (rw (ver, cal) refl)))

-- Reading the stamp leaves a suffix of the text, and what stood before it was digits and marks.
module _ (p : ℕ → Bool)
    (digits : (x : ℕ) → leb b'0' x ≡ true → leb x b'9' ≡ true → p x ≡ true) where
  read_digits-all :
      (n acc : ℕ) (xs : List ℕ) {v : ℕ} {rest : List ℕ}
      → read_digits n acc xs ≡ some (v, rest)
      → all_of p rest ≡ true
      → all_of p xs ≡ true
  unfolding read_digits
  read_digits-all zero acc xs h all = ground arith
  read_digits-all (suc n) acc [] h all = cc
  read_digits-all (suc n) acc (x ∷ xs) {v} {rest} h all =
      ground (arith, digits x, read_digits-all n (acc * 10 + (x - b'0')) xs {v = v} {rest = rest})

  strip_prefix-all :
      (ps xs : List ℕ) {rest : List ℕ}
      → strip_prefix ps xs ≡ some rest
      → all_of p ps ≡ true
      → all_of p rest ≡ true
      → all_of p xs ≡ true
  strip_prefix-all ps xs {rest} h hp hr =
      ap (all_of p) (strip_prefix-eq ps xs h) ∙ (all_of-append p ps rest ∙ ground arith)

  read_stamp-all :
      (xs : List ℕ) {s : Stamp} {rest : List ℕ}
      → all_of p (codes "T") ≡ true
      → all_of p (codes "Z-") ≡ true
      → read_stamp xs ≡ some (s, rest)
      → all_of p rest ≡ true
      → all_of p xs ≡ true
  unfolding read_stamp
  read_stamp-all xs {s} {rest} t z h all =
      let (d, read_date, h₁) = >>=-eq-some (read_digits 8 0 xs) _ h in
      let (at_time, after_t, h₂) = >>=-eq-some (strip_prefix (codes "T") d.1) _ h₁ in
      let (c, read_time, h₃) = >>=-eq-some (read_digits 6 0 at_time) _ h₂ in
      let (tail, after_z, last) = >>=-eq-some (strip_prefix (codes "Z-") c.1) _ h₃ in
      let all_tail : all_of p tail ≡ true = ground (arith, all) in
      let all_time =
        read_digits-all 6 0 at_time read_time
          (strip_prefix-all (codes "Z-") c.1 after_z z all_tail) in
      read_digits-all 8 0 xs read_date (strip_prefix-all (codes "T") d.1 after_t t all_time)

abbrev pub no_slash : ℕ → Bool
no_slash x = not (x == b'/')

digit-no_slash : (x : ℕ) → leb b'0' x ≡ true → leb x b'9' ≡ true → no_slash x ≡ true
digit-no_slash x lo hi = ground arith

name_char-no_slash : (xs : List ℕ) → all_of is_name_char xs ≡ true → all_of no_slash xs ≡ true
name_char-no_slash [] h = refl
name_char-no_slash (x ∷ xs) h = ground (arith, name_char-no_slash xs)

chomp-no_slash : (xs : List ℕ) → all_of no_slash (chomp xs) ≡ true → all_of no_slash xs ≡ true
unfolding chomp
chomp-no_slash [] h = refl
chomp-no_slash (x ∷ []) h = ground arith
chomp-no_slash (x ∷ y ∷ xs) h = ground (arith, chomp-no_slash (y ∷ xs))

version_chars :
    (name : Name) {rest version : List ℕ} {stamped : Stamp × List ℕ}
    → strip_prefix backup_prefix (chomp name) ≡ some rest
    → read_stamp rest ≡ some stamped
    → before_suffix (codes ".age") stamped.1 ≡ some version
    → safe_filename name ≡ true
    → all_of is_name_char version ≡ true
unfolding safe_filename
version_chars name begins read ends h = ground arith

stem-no_slash :
    (name : Name) {rest version : List ℕ} {stamped : Stamp × List ℕ}
    → strip_prefix backup_prefix (chomp name) ≡ some rest
    → read_stamp rest ≡ some stamped
    → before_suffix (codes ".age") stamped.1 ≡ some version
    → all_of is_name_char version ≡ true
    → all_of no_slash (chomp name) ≡ true
unfolding nat_eq
stem-no_slash name {rest} {version} {stamped} begins read ends chars =
    let tail : all_of no_slash stamped.1 ≡ true =
      ap (all_of no_slash) (before_suffix-eq (codes ".age") stamped.1 ends)
      ∙ (all_of-append no_slash version (codes ".age")
          ∙ ground (arith, name_char-no_slash version chars)) in
    strip_prefix-all no_slash digit-no_slash backup_prefix (chomp name) begins refl
      (read_stamp-all no_slash digit-no_slash rest refl refl read tail)

no_slash_cases :
    (name : Name) (rest : Option (List ℕ))
    → strip_prefix backup_prefix (chomp name) ≡ rest
    → safe_filename name ≡ true
    → all_of no_slash (chomp name) ≡ true
unfolding safe_filename
no_slash_cases name none e h = ground arith
no_slash_cases name (some rest) e h = elim (Option-cases (read_stamp rest)) [
  | inl other ↦ ground arith
  | inr (stamped, read) ↦ elim (Option-cases (before_suffix (codes ".age") stamped.1)) [
    | inl other ↦ ground arith
    | inr (version, ends) ↦ stem-no_slash name e read ends (version_chars name e read ends h)
  ]
]

-- A name that the routes let through holds no slash, so it names an entry of the backup directory
-- itself, whatever else the request sent.
pub safe_filename-no_slash : (name : Name) → safe_filename name ≡ true → all_of no_slash name ≡ true
safe_filename-no_slash name h = chomp-no_slash name (no_slash_cases name _ refl h)
