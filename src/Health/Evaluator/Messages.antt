-- ===== src/Health/Evaluator/Messages.antt =====
-- Every level above `ok` comes with a message that has text in it.
use mathlib.Core.Path.{subst}
use fast_tak.Base.{
  sym, String, ◌<>◌, ◌≡◌, ◌≢◌, refl, ap, Bool, true, false, Option, none, some, List, inl, inr,
  arith, ◌&&◌, string_eq, Bool-cases, Option-cases, if◌then◌else◌, is_some,
}
use fast_tak.Base.Dict.{lookup, lookup_or}
use fast_tak.Base.Result.{Result, ok, ◌>>=◌, >>=-eq-ok}
use fast_tak.Base.Python.{
  Python, some_text, Scalar, null, bool, num, string, Fields, truthy, str, truthy_text,
}
use fast_tak.Health.Status.{Status, okay, of_name, of_name-name, name}
use fast_tak.Health.Evaluator.Threshold.{Entry, Thresholds, Verdict, check_threshold}
use fast_tak.Health.Evaluator.Worst.{Finding, worst_of}
use fast_tak.Health.Evaluator.Items.{
  is_parameter, get, result, initial, label, judge_threshold, label_verdict, worst_threshold,
  judge_item, evaluate_list, evaluate_single, evaluate_containers, judge_container, is_filtered,
  item_status, error_status, item_name, container_status, Raw, evaluate_data, default_status,
  table_of,
}
use fast_tak.Health.Evaluator.Explained.{
  has_text, truthy-append_left, truthy-append_right, Explained, AllExplained, loop-Explained,
  check_threshold-Explained,
}

-- The printed form of a number is not empty.
abbrev pub ShowsNumbers : Python → Type 0
ShowsNumbers py = (n : py.Num) → py.show n ≢ ""

-- There is a message, and it is not empty.
abbrev pub HasMessage : Option String → Type 0
HasMessage o = (message : String) × (o ≡ some message) × (message ≢ "")

some_text-HasMessage : (m : Option String) → has_text m ≡ true → HasMessage (some_text m)
some_text-HasMessage none h = absurd (cc)
some_text-HasMessage (some s) h = elim (string_eq.dec s "") [
  | yes empty ↦ absurd (ground (arith, empty, h))
  | no text ↦ (s, ground (arith, text), text)
]

module _ (py : Python) where
  open py use {Num, lower}

  -- A prefix keeps the text that it is put in front of.
  abbrev KeepsText : (Option String → Option String) → Type 0
  KeepsText prefix = (m : Option String) → has_text m ≡ true → has_text (prefix m) ≡ true

  label_verdict-KeepsText : (name : Scalar Num) → KeepsText (label_verdict py name)
  unfolding label_verdict
  label_verdict-KeepsText name (some m) h =
      ground (arith, truthy-append_right (str py name) (": " <> m), truthy-append_right ": " m)
  label_verdict-KeepsText name none h = cc

  judge_threshold-Explained :
      (prefix : Option String → Option String) (item : Fields Num)
      → KeepsText prefix
      → AllExplained (judge_threshold py prefix item)
  unfolding judge_threshold
  judge_threshold-Explained prefix item keeps (key, levels) found h above =
      elim (Bool-cases (is_parameter key)) [
        | inl parameter ↦ ground arith
        | inr metric ↦ elim (Option-cases (lookup key item)) [
          | inl missing ↦ ground arith
          | inr (value, present) ↦
              let (verdict, checked, rest) =
                >>=-eq-ok (check_threshold py key value levels) _ (rw (metric, present) at h) in
              let (level, named, last) = >>=-eq-ok (of_name verdict.0) _ rest in
              let explained = check_threshold-Explained py key value levels checked named in
              ground (arith, explained, keeps verdict.1)
        ]
      ]

  str-text :
      ShowsNumbers py
      → (value : Scalar Num) → truthy py value ≡ true
      → truthy_text (str py value) ≡ true
  unfolding string_eq
  str-text lawful null h = cc
  str-text lawful (bool true) h = refl
  str-text lawful (bool false) h = cc
  str-text lawful (num n) h = ground (arith, lawful n)
  str-text lawful (string s) h = h

  -- A truthy reason prints as text, and a label in front keeps it.
  label-text :
      ShowsNumbers py
      → (name reason : Scalar Num) → truthy py reason ≡ true
      → truthy_text (label py name (str py reason)) ≡ true
  unfolding string_eq
  label-text lawful name reason h = ground (
    arith,
    str-text lawful reason h,
    truthy-append_right (str py name) (": " <> str py reason),
    truthy-append_right ": " (str py reason),
  )

  worst_threshold-Explained :
      (prefix : Option String → Option String) (item : Fields Num) (thresholds : Thresholds Num)
      {out : Finding}
      → KeepsText prefix
      → worst_threshold py prefix item thresholds ≡ ok out
      → Explained out
  unfolding worst_threshold
  worst_threshold-Explained prefix item thresholds keeps h =
      loop-Explained _ thresholds (judge_threshold-Explained prefix item keeps) h

  item_status-Explained :
      ShowsNumbers py
      → (item : Fields Num) (thresholds : Thresholds Num) {out : Verdict} {level : Status}
      → item_status py item thresholds ≡ ok out
      → of_name out.0 ≡ ok level
      → Explained (level, out.1)
  unfolding item_status
  item_status-Explained lawful item thresholds {out} {level} h e above =
      elim (Bool-cases (truthy py (get py "error" item))) [
        | inl failed ↦
            let (status, found, last) = >>=-eq-ok (error_status py thresholds) _ (rw failed at h) in
            ground (arith, label-text lawful (item_name py item) (get py "error" item) failed)
        | inr read ↦
            let prefix = label_verdict py (item_name py item) in
            let (worst, looped, last) =
              >>=-eq-ok (worst_threshold py prefix item thresholds) _ (rw read at h) in
            let explained =
              worst_threshold-Explained prefix item thresholds
                (label_verdict-KeepsText (item_name py item)) looped in
            ground (arith, of_name-name worst.0, explained)
      ]

  judge_item-Explained :
      ShowsNumbers py
      → (zero_tuples : Num) (thresholds : Thresholds Num)
      → AllExplained (judge_item py zero_tuples thresholds)
  unfolding judge_item
  judge_item-Explained lawful zero_tuples thresholds item found h =
      let (skip, filtered, rest) = >>=-eq-ok (is_filtered py thresholds item zero_tuples) _ h in
      elim (Bool-cases skip) [
        | inl skipped ↦ λ above. ground arith
        | inr kept ↦
            let (verdict, judged, named) =
              >>=-eq-ok (item_status py item thresholds) _ (rw kept at rest) in
            let (level, named', last) = >>=-eq-ok (of_name verdict.0) _ named in
            let explained = item_status-Explained lawful item thresholds judged named' in
            λ above. ground (arith, explained)
      ]

  judge_container-Explained :
      (health status : Fields Num) (default : Entry Num)
      → AllExplained (judge_container py health status default)
  unfolding judge_container string_eq
  judge_container-Explained health status default item found h above =
      let (mapped, mapping, rest) =
        >>=-eq-ok (container_status py health status default item) _ h in
      let (level, named, last) = >>=-eq-ok (of_name mapped) _ rest in
      let health_text = str py (lookup_or "health" (string "unknown") item) in
      let docker_text = str py (lookup_or "status" (string "unknown") item) in
      let item_text = str py (lookup_or "name" (string "") item) in
      ground (
        arith,
        truthy-append_right item_text (": " <> health_text <> "/" <> docker_text),
        truthy-append_left ": " (health_text <> "/" <> docker_text) refl,
      )

  -- An outcome of a loop is explained if each judgement is.
  outcome-Explained :
      {A : Type 0} (judge : A → Result (Option Finding)) (xs : List A) {out : Verdict}
      → AllExplained judge
      → (worst_of judge xs initial >>= λ worst. ok (result py worst)) ≡ ok out
      → out.0 ≢ "ok"
      → HasMessage out.1
  outcome-Explained judge xs {out} all h ne =
      let (worst, looped, last) = >>=-eq-ok (worst_of judge xs initial) _ h in
      named worst (loop-Explained judge xs all looped) (ground arith)
    where
      spoken :
          (worst : Finding) → has_text worst.1 ≡ true → out ≡ result py worst → HasMessage out.1
      spoken worst h e =
          subst (λ (v : Verdict). HasMessage v.1) (sym e) (some_text-HasMessage worst.1 h)

      named : (worst : Finding) → Explained worst → out ≡ result py worst → HasMessage out.1
      named (okay, m) explained e = absurd (ne (ap (λ (v : Verdict). v.0) e))
      named (Status.note, m) explained e = spoken (Status.note, m) (explained (ground arith)) e
      named (Status.warning, m) explained e =
          spoken (Status.warning, m) (explained (ground arith)) e
      named (Status.critical, m) explained e =
          spoken (Status.critical, m) (explained (ground arith)) e

  evaluate_containers-explains :
      (items : List (Fields Num)) (thresholds : Thresholds Num) {out : Verdict}
      → evaluate_containers py items thresholds ≡ ok out
      → out.0 ≢ "ok"
      → HasMessage out.1
  unfolding evaluate_containers
  evaluate_containers-explains items thresholds h ne =
      let (health, read_health, rest) = >>=-eq-ok (table_of py (lookup "health" thresholds)) _ h in
      let (status, read_status, looped) =
        >>=-eq-ok (table_of py (lookup "status" thresholds)) _ rest in
      outcome-Explained _ items
        (judge_container-Explained health status (default_status py thresholds)) looped ne

  evaluate_single-explains :
      (fields : Fields Num) (thresholds : Thresholds Num) {out : Verdict}
      → evaluate_single py fields thresholds ≡ ok out
      → out.0 ≢ "ok"
      → HasMessage out.1
  unfolding evaluate_single worst_threshold
  evaluate_single-explains fields thresholds h ne =
      outcome-Explained _ thresholds (judge_threshold-Explained (λ m. m) fields (λ m t. t)) h ne

  evaluate_list-explains :
      ShowsNumbers py
      → (zero_tuples : Num) (items : List (Fields Num)) (thresholds : Thresholds Num)
        {out : Verdict}
      → evaluate_list py zero_tuples items thresholds ≡ ok out
      → out.0 ≢ "ok"
      → HasMessage out.1
  unfolding evaluate_list
  evaluate_list-explains lawful zero_tuples items thresholds h ne =
      outcome-Explained _ items (judge_item-Explained lawful zero_tuples thresholds) h ne

  -- Whatever the data and the thresholds, an evaluation that returns and does not come out as `ok` carries a
  -- message that is not empty. This takes only that a printed number is not empty.
  pub evaluate_data_explains :
      ShowsNumbers py
      → (zero_tuples : Num) (raw : Raw Num) (thresholds : Thresholds Num) {out : Verdict}
      → evaluate_data py zero_tuples raw thresholds ≡ ok out
      → out.0 ≢ "ok"
      → HasMessage out.1
  unfolding evaluate_data
  evaluate_data_explains lawful zero_tuples raw thresholds {out} h ne = go raw.items h
    where
      both : Bool
      both = is_some (lookup "health" thresholds) && is_some (lookup "status" thresholds)

      split :
          (b : Bool) (items : List (Fields Num))
          → (if b
              then evaluate_containers py items thresholds
              else evaluate_list py zero_tuples items thresholds)
            ≡ ok out
          → HasMessage out.1
      split true items e = evaluate_containers-explains items thresholds e ne
      split false items e = evaluate_list-explains lawful zero_tuples items thresholds e ne

      go :
          (items : Option (List (Fields Num)))
          → evaluate_data py zero_tuples (record { fields = raw.fields; items = items }) thresholds
            ≡ ok out
          → HasMessage out.1
      go none e = evaluate_single-explains raw.fields thresholds e ne
      go (some items) e = split both items e
