-- ===== src/Health/Evaluator/Monotone.antt =====
-- A numeric threshold always answers, and is monotone in the measured value, in the direction that
-- its two levels imply.
use fast_tak.Base.{String, ◌≤◌, ◌≡◌, Bool, true, false, arith, if◌then◌else◌}
use fast_tak.Base.Result.{Result, ok, ◌>>=◌}
use fast_tak.Base.Python.{Python, IsLawful, num, less, less_eq}
use fast_tak.Health.Status.{Status, okay, warning, critical, rank, of_name, of_name-name}
use fast_tak.Health.Evaluator.Threshold.{Verdict, check_levels, check_numeric}

-- `Status[status]` of the verdict.
abbrev pub level_of : Result Verdict → Result Status
level_of r = r >>= λ verdict. of_name verdict.0

-- Both checks answer with a level, and the first level is no worse than the second.
pub record IsNoWorse (r r' : Result Verdict) : Type 0 where
  pub level : Status
  pub level' : Status
  pub answered : level_of r ≡ ok level
  pub answered' : level_of r' ≡ ok level'
  pub ordered : rank level ≤ rank level'

module _ (py : Python) (w c : py.Num) where
  open py use {Num, ltb, leb}

  abbrev pub by_test : Bool → Bool → Status
  by_test at_critical at_warning =
      if at_critical then critical else if at_warning then warning else okay

  abbrev pub expected : Num → Status
  expected v = if ltb w c then by_test (leb c v) (leb w v) else by_test (leb v c) (leb v w)

  pub check_numeric-expected :
      (key : String) (v : Num)
      → level_of (check_numeric py key (num v) (num w) (num c)) ≡ ok (expected v)
  unfolding check_numeric check_levels less less_eq
  check_numeric-expected key v =
      ground (arith, of_name-name okay, of_name-name warning, of_name-name critical)

  expected_rising :
      IsLawful py
      → (v v' : Num) → ltb w c ≡ true
      → leb v v' ≡ true
      → rank (expected v) ≤ rank (expected v')
  expected_rising lawful v v' up grows =
      ground (arith, lawful.leb_trans c v v', lawful.leb_trans w v v')

  expected_falling :
      IsLawful py
      → (v v' : Num) → ltb w c ≡ false
      → leb v' v ≡ true
      → rank (expected v) ≤ rank (expected v')
  expected_falling lawful v v' down falls =
      ground (arith, lawful.leb_trans v' v c, lawful.leb_trans v' v w)

-- Where the warning level lies below the critical one, both checks answer and a larger value is no
-- better.
pub check_numeric_rising :
    (py : Python)
    → IsLawful py
    → (key : String) (w c v v' : py.Num) → py.ltb w c ≡ true
    → py.leb v v' ≡ true
    → IsNoWorse
        (check_numeric py key (num v) (num w) (num c))
        (check_numeric py key (num v') (num w) (num c))
check_numeric_rising py lawful key w c v v' up grows = record {
  level = expected py w c v;
  level' = expected py w c v';
  answered = check_numeric-expected py w c key v;
  answered' = check_numeric-expected py w c key v';
  ordered = expected_rising py w c lawful v v' up grows;
}

-- Where it lies at or above the critical one (days left), both checks answer and a smaller value
-- is no better.
pub check_numeric_falling :
    (py : Python)
    → IsLawful py
    → (key : String) (w c v v' : py.Num) → py.ltb w c ≡ false
    → py.leb v' v ≡ true
    → IsNoWorse
        (check_numeric py key (num v) (num w) (num c))
        (check_numeric py key (num v') (num w) (num c))
check_numeric_falling py lawful key w c v v' down falls = record {
  level = expected py w c v;
  level' = expected py w c v';
  answered = check_numeric-expected py w c key v;
  answered' = check_numeric-expected py w c key v';
  ordered = expected_falling py w c lawful v v' down falls;
}
