-- ===== src/Base/Python.antt =====
-- What the program uses of Python's numbers and text beyond the shared types: an interface, since
-- its numbers are ints and floats alike, and `str.lower` rests on the Unicode tables.
use Prim.Native.String.{compare}
use text.Mathlib.Text.{is_lt}
use fast_tak.Base.{
  String, ◌≡◌, ◌≢◌, Bool, true, false, not, Option, none, some, string_eq, ◌==◌, if◌then◌else◌,
}
use fast_tak.Base.Dict.{Dict}
use fast_tak.Base.Result.{Result, ok, err, type_error}

pub record Python : Type 1 where
  pub Num : Type 0
  pub ltb : Num → Num → Bool
  pub leb : Num → Num → Bool
  pub of_bool : Bool → Num
  pub is_zero : Num → Bool
  pub show : Num → String
  pub lower : String → String

-- What the numbers satisfy, as long as none of them is a NaN: a total order, and a printed form.
pub record IsLawful (py : Python) : Type 0 where
  pub show-ne-nil : (n : py.Num) → py.show n ≢ ""
  pub leb_trans : (a b c : py.Num) → py.leb a b ≡ true → py.leb b c ≡ true → py.leb a c ≡ true
  pub ltb-not-leb : (a b : py.Num) → py.ltb a b ≡ not (py.leb b a)

-- A value of a configuration or of a probe that is no container.
pub data Scalar (N : Type 0) : Type 0 where
  null : Scalar N
  bool : Bool → Scalar N
  num : N → Scalar N
  string : String → Scalar N

abbrev pub Fields : Type 0 → Type 0
Fields N = Dict String (Scalar N)

-- `if s` on a text.
abbrev pub truthy_text : String → Bool
truthy_text s = not (s == "")

-- The text of a message that may be absent.
abbrev pub some_text : Option String → Option String
some_text none = none
some_text (some s) = if truthy_text s then some s else none

module _ (py : Python) where
  open py use {Num, ltb, of_bool, is_zero, show}

  -- `if value`
  abbrev pub truthy : Scalar Num → Bool
  truthy null = false
  truthy (bool b) = b
  truthy (num n) = not (is_zero n)
  truthy (string s) = truthy_text s

  -- `str(value)`
  abbrev pub str : Scalar Num → String
  str null = "None"
  str (bool true) = "True"
  str (bool false) = "False"
  str (num n) = show n
  str (string s) = s

  -- A Boolean is a number too: `isinstance(value, int | float)`.
  abbrev pub as_num : Scalar Num → Option Num
  as_num null = none
  as_num (bool b) = some (of_bool b)
  as_num (num n) = some n
  as_num (string s) = none

  -- A comparison of two values: of numbers or of texts, and a `TypeError` otherwise.
  compare_by : (Num → Num → Bool) → (String → String → Bool) → Scalar Num → Scalar Num → Result Bool
  compare_by nums texts (string a) (string b) = ok (texts a b)
  compare_by nums texts a b = elim (as_num a) [
    | none ↦ err type_error
    | some m ↦ elim (as_num b) [ none ↦ err type_error | some n ↦ ok (nums m n) ]
  ]

  abbrev text_lt : String → String → Bool
  text_lt a b = is_lt (compare a b)

  -- `a < b`
  unfoldable pub less : Scalar Num → Scalar Num → Result Bool
  unfolding compare_by
  less = compare_by ltb text_lt

  -- `a <= b`
  unfoldable pub less_eq : Scalar Num → Scalar Num → Result Bool
  unfolding compare_by
  less_eq = compare_by py.leb (λ a b. not (text_lt b a))
