-- ===== src/Backup/Keys.antt =====
-- The age identity (monitor/app/backup/keys.py): a file of lines, which is created when it is missing
-- and never replaced. What `age-keygen` does is given: it fails, or it writes a file.
use fast_tak.Base.{
  ℕ, ◌≡◌, refl, ◌||◌, Option, none, some, List, [], ◌∷◌, ◌++◌, ◌<>◌, ◌≢◌, String, arith, ◌==◌,
  nat_eq, if◌then◌else◌,
}
use fast_tak.Base.Result.{Result, ok, err, runtime_error}
use fast_tak.Base.Text.{codes, codes_eq, strip_prefix, strip, strip-space, after, is_space}

abbrev pub Line : Type 0
Line = List ℕ

abbrev secret_prefix : Line
secret_prefix = codes "AGE-SECRET-KEY-"

abbrev public_prefix : Line
public_prefix = codes "# public key:"

-- The identity and the recipient after one line.
unfoldable pub read_line : Line → Line × Line → Line × Line
read_line line (identity, recipient) = elim (strip_prefix secret_prefix line) [
  | some rest ↦ (strip line, recipient)
  | none ↦ elim (strip_prefix public_prefix line) [
    | some rest ↦ (identity, strip (after b':' line))
    | none ↦ (identity, recipient)
  ]
]

unfoldable pub read_lines : List Line → Line × Line → Line × Line
read_lines [] found = found
read_lines (line ∷ lines) found = read_lines lines (read_line line found)

abbrev pub malformed : String → String
malformed path = "identity file " <> path <> " is malformed"

-- `_parse` of the file at `path`.
unfoldable pub parse_identity : String → List Line → Result (Line × Line)
parse_identity path lines =
    let (identity, recipient) = read_lines lines ([], []) in
    if identity == [] || recipient == []
    then err (runtime_error (malformed path))
    else ok (identity, recipient)

-- `keygen` is what a run of `age-keygen` does, if one is made.
unfoldable pub load_or_create :
    String → Result (List Line) → Option (List Line) → Option (List Line) × Result (Line × Line)
load_or_create path keygen (some lines) = (some lines, parse_identity path lines)
load_or_create path (ok lines) none = (some lines, parse_identity path lines)
load_or_create path (err e) none = (none, err e)

abbrev keygen_lines : Line → Line → Line → List Line
keygen_lines created recipient key =
    (codes "# created: " ++ created)
    ∷ (codes "# public key: " ++ recipient)
    ∷ (codes "AGE-SECRET-KEY-" ++ key)
    ∷ []

-- From the three lines that `age-keygen` writes, the secret key's line and the public key after its
-- label are read, if neither has white space around it.
pub parse_identity-keygen_lines :
    (path : String) (created recipient key : Line)
    → recipient ≢ []
    → strip recipient ≡ recipient
    → strip (codes "AGE-SECRET-KEY-" ++ key) ≡ codes "AGE-SECRET-KEY-" ++ key
    → parse_identity path (keygen_lines created recipient key)
      ≡ ok (codes "AGE-SECRET-KEY-" ++ key, recipient)
unfolding parse_identity read_lines read_line strip_prefix after is_space
parse_identity-keygen_lines path created recipient key ne trimmed whole =
    ground (arith, strip-space 32 recipient refl, trimmed, whole)

-- `read_identity` finds the file that the last `load_or_create` left, and a second `load_or_create` gives
-- the same keys and leaves the file, whatever `age-keygen` would do then.
pub load_or_create_again :
    (path : String) (keygen keygen' : Result (List Line)) (file : Option (List Line))
    (keys : Line × Line)
    → (load_or_create path keygen file).1 ≡ ok keys
    → load_or_create path keygen' (load_or_create path keygen file).0
      ≡ ((load_or_create path keygen file).0, ok keys)
unfolding load_or_create
load_or_create_again path keygen keygen' (some lines) keys h = ground arith
load_or_create_again path (ok lines) keygen' none keys h = ground arith
load_or_create_again path (err e) keygen' none keys h = cc
