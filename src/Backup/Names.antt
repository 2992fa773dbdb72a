-- ===== src/Backup/Names.antt =====
-- The names of archives: how the runner builds them (`_filename`), how retention reads them
-- (`_BACKUP_NAME` and `strptime`), and which ones the routes let through (`_FILENAME_RE`). A name
-- is a list of code points, and a time is its date and time of day as they are written.
pub mod Laws
use fast_tak.Base.{
  ℕ, zero, String, ◌+◌, ◌*◌, ◌/◌, ◌%◌, ◌≡◌, refl, Bool, true, false, not, ◌&&◌, ◌||◌, Option, none,
  some, List, [], ◌∷◌, ◌++◌, arith, ltb, leb, ◌==◌, nat_eq, is_some, if◌then◌else◌,
}
use fast_tak.Base.Text.{
  codes, codes_eq, strip_prefix, before_suffix, read_digits, print_digits, chomp, all_of,
}

abbrev pub Name : Type 0
Name = List ℕ

-- `YYYYMMDD` and `HHMMSS` as numbers.
pub record Stamp : Type 0 where
  pub date : ℕ
  pub time : ℕ

-- The order of times is that of this number.
abbrev pub instant : Stamp → ℕ
instant s = s.date * 1000000 + s.time

infixl 5 ◌>>=◌
abbrev pub ◌>>=◌ {ℓ κ} : {A : Type ℓ} {B : Type κ} → Option A → (A → Option B) → Option B
none >>= f = none
some a >>= f = f a

pub >>=-eq-some {ℓ κ} :
    {A : Type ℓ} {B : Type κ} (m : Option A) (f : A → Option B) {b : B}
    → (m >>= f) ≡ some b
    → (a : A) × (m ≡ some a) × (f a ≡ some b)
>>=-eq-some none f h = cc
>>=-eq-some (some a) f h = (a, refl, h)

is_leap : ℕ → Bool
is_leap y = y % 4 == 0 && (not (y % 100 == 0) || y % 400 == 0)

unfoldable pub days_in_month : ℕ → ℕ → ℕ
unfolding is_leap
days_in_month y m =
    if m == 2
    then if is_leap y then 29 else 28
    else if m == 4 || (m == 6 || (m == 9 || m == 11))
    then 30
    else 31

-- What `datetime` accepts.
unfoldable pub is_calendar : Stamp → Bool
is_calendar s =
    let y = s.date / 10000 in
    let m = s.date / 100 % 100 in
    let d = s.date % 100 in
    leb 1 y
    && (leb y 9999
        && (leb 1 m
            && (leb m 12
                && (leb 1 d
                    && (leb d (days_in_month y m)
                        && (ltb (s.time / 10000) 24
                            && (ltb (s.time / 100 % 100) 60 && ltb (s.time % 100) 60)))))))

abbrev pub backup_prefix : List ℕ
backup_prefix = codes "fasttak-backup-"

abbrev is_newline : ℕ → Bool
is_newline x = x == 10

-- `glob("fasttak-backup-*" + suffix)`
unfoldable pub matches_glob : List ℕ → Name → Bool
matches_glob suffix name = elim (strip_prefix backup_prefix name) [
  | none ↦ false
  | some rest ↦ is_some (before_suffix suffix rest)
]

-- The stamp of the pattern, before the version.
unfoldable pub read_stamp : List ℕ → Option (Stamp × List ℕ)
read_stamp xs = read_digits 8 0 xs >>= λ (date, after_date).
    strip_prefix (codes "T") after_date >>= λ at_time.
    read_digits 6 0 at_time >>= λ (time, after_time).
    strip_prefix (codes "Z-") after_time >>= λ rest.
    some (record { date = date; time = time }, rest)

-- A version of one character or more, none of them a newline.
unfoldable pub is_version : List ℕ → Bool
is_version body = not (body == []) && all_of (λ x. not (is_newline x)) body

-- The time that an archive was taken at, by its name: `none` where the loop of `stamped_backups`
-- goes on with a warning. `glob` has left only names that end in `.age`.
unfoldable pub taken_at : Name → Option Stamp
taken_at name = strip_prefix backup_prefix name >>= λ rest. read_stamp rest >>= λ (stamp, tail).
    before_suffix (codes ".age") tail >>= λ version.
    if is_version version && is_calendar stamp then some stamp else none

-- `_filename`
unfoldable pub filename : Stamp → List ℕ → Name
filename created_at version =
    backup_prefix
    ++ (print_digits 8 created_at.date
        ++ (codes "T"
            ++ (print_digits 6 created_at.time ++ (codes "Z-" ++ (version ++ codes ".age")))))

abbrev pub is_alnum : ℕ → Bool
is_alnum x =
    (leb b'0' x && leb x b'9') || ((leb b'A' x && leb x b'Z') || (leb b'a' x && leb x b'z'))

-- `[A-Za-z0-9._-]`
abbrev pub is_name_char : ℕ → Bool
is_name_char x = is_alnum x || (x == b'.' || (x == b'_' || x == b'-'))

-- `(?!.*\.\.)`
unfoldable pub no_dot_dot : List ℕ → Bool
no_dot_dot [] = true
no_dot_dot (x ∷ []) = true
no_dot_dot (x ∷ y ∷ xs) = not (x == b'.' && y == b'.') && no_dot_dot (y ∷ xs)

starts_alnum : List ℕ → Bool
starts_alnum [] = false
starts_alnum (x ∷ xs) = is_alnum x

-- `_FILENAME_RE.match(name)`. Its `$` also matches before a newline at the end.
unfoldable pub safe_filename : Name → Bool
unfolding starts_alnum
safe_filename name = elim (strip_prefix backup_prefix (chomp name)) [
  | none ↦ false
  | some rest ↦ elim (read_stamp rest) [
    | none ↦ false
    | some (stamp, tail) ↦ elim (before_suffix (codes ".age") tail) [
      | none ↦ false
      | some version ↦ no_dot_dot tail && (starts_alnum version && all_of is_name_char version)
    ]
  ]
]
