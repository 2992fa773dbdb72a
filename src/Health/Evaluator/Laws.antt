-- ===== src/Health/Evaluator/Laws.antt =====
-- What an evaluation promises: the outcome is the worst of the judgements, it says why, and a
-- numeric threshold is monotone.
use fast_tak.Base.{
  String, ◌≤◌, ◌≡◌, refl, true, Option, some, List, ◌⊎◌, inl, inr, arith, All, In, All-In,
  string_eq, Option-cases,
}
use fast_tak.Base.Dict.{lookup}
use fast_tak.Base.Result.{Result, ok, ◌>>=◌, >>=-eq-ok}
use fast_tak.Base.Python.{Python, Fields, truthy, str}
use fast_tak.Health.Status.{Status, rank, of_name, of_name-name}
use fast_tak.Health.Evaluator.Threshold.{Thresholds, table, Verdict}
use fast_tak.Health.Evaluator.Worst.{
  Finding, worst_of, Within, Judged, worst_of-Within, worst_of-Judged,
}
use fast_tak.Health.Evaluator.Items.{
  get, result, initial, default_status, judge_item, judge_container, evaluate_containers, item_name,
  label, evaluate_list, is_filtered, item_status, error_status,
}

module _ (py : Python) where
  open py use {Num}

  -- The outcome is a level with a message: no judgement is worse, and the two are those of one
  -- element together, unless nothing was above `ok`.
  pub record IsWorst {A : Type 0} (judge : A → Result (Option Finding)) (xs : List A)
      (out : Verdict) : Type 0 where
    pub worst : Finding
    pub shown : out ≡ result py worst
    pub bounds : All (λ x. Within worst.0 (judge x)) xs
    pub source : (worst ≡ initial) ⊎ Judged judge worst xs

  pub worst_of-IsWorst :
      {A : Type 0} (judge : A → Result (Option Finding)) (xs : List A) {out : Verdict}
      → (worst_of judge xs initial >>= λ worst. ok (result py worst)) ≡ ok out
      → IsWorst judge xs out
  worst_of-IsWorst judge xs {out} h =
      let (worst, found, shown) = >>=-eq-ok (worst_of judge xs initial) _ h in
      record {
        worst = worst;
        shown = ground arith;
        bounds = worst_of-Within judge xs initial found;
        source = worst_of-Judged judge xs initial found;
      }

  -- Where the evaluation of a list returns, no item that it judges is worse than the outcome, and the outcome
  -- is the judgement of one of its items with that item's message, or `ok` with none.
  pub evaluate_list-IsWorst :
      (zero_tuples : Num) (items : List (Fields Num)) (thresholds : Thresholds Num) {out : Verdict}
      → evaluate_list py zero_tuples items thresholds ≡ ok out
      → IsWorst (judge_item py zero_tuples thresholds) items out
  unfolding evaluate_list
  evaluate_list-IsWorst zero_tuples items thresholds h = worst_of-IsWorst _ items h

  -- Where the evaluation of a list of containers returns, under thresholds that hold a health map and a
  -- status map, no container is judged worse than the outcome by these maps, and the outcome is the judgement
  -- of one of the containers with its message, or `ok` with none.
  pub evaluate_containers-IsWorst :
      (items : List (Fields Num)) (health status : Fields Num) (thresholds : Thresholds Num)
      {out : Verdict}
      → lookup "health" thresholds ≡ some (table health)
      → lookup "status" thresholds ≡ some (table status)
      → evaluate_containers py items thresholds ≡ ok out
      → IsWorst (judge_container py health status (default_status py thresholds)) items out
  unfolding evaluate_containers
  evaluate_containers-IsWorst items health status thresholds eh es h =
      worst_of-IsWorst _ items (rw (eh, es) at h)

  -- An item with a readable `error` is never skipped and is judged by the error status.
  judge_item_error :
      (zero_tuples : Num) (thresholds : Thresholds Num) (item : Fields Num) {status : String}
      {level : Status}
      → truthy py (get py "error" item) ≡ true
      → error_status py thresholds ≡ ok status
      → of_name status ≡ ok level
      → judge_item py zero_tuples thresholds item
        ≡ ok (some (level, some (label py (item_name py item) (str py (get py "error" item)))))
  unfolding judge_item is_filtered item_status
  judge_item_error zero_tuples thresholds item e s l = elim (Option-cases (lookup "error" item)) [
    | inl missing ↦ ground arith
    | inr (reason, present) ↦ rw (present, e, s, l) refl
  ]

  -- Where the evaluation of a list returns, and an item of it carries a non-empty `error`, the outcome is
  -- at least as bad as the error status, whatever the thresholds would filter or say of the item's numbers.
  pub evaluate_list_error :
      (zero_tuples : Num) (items : List (Fields Num)) (thresholds : Thresholds Num)
      (item : Fields Num) {status : String} {level : Status} {out : Verdict}
      → In item items
      → truthy py (get py "error" item) ≡ true
      → error_status py thresholds ≡ ok status
      → of_name status ≡ ok level
      → evaluate_list py zero_tuples items thresholds ≡ ok out
      → (worst : Status) × (of_name out.0 ≡ ok worst) × (rank level ≤ rank worst)
  evaluate_list_error zero_tuples items thresholds item {level = level} member e s l h =
      let w = evaluate_list-IsWorst zero_tuples items thresholds h in
      let judged = judge_item_error zero_tuples thresholds item e s l in
      (
        w.worst.0,
        cc (w.shown, of_name-name w.worst.0),
        rw judged at (
            All-In (λ x. Within w.worst.0 (judge_item py zero_tuples thresholds x)) member
              w.bounds),
      )
