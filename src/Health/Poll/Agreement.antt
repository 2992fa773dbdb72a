-- ===== src/Health/Poll/Agreement.antt =====
-- The store and the alert engine never disagree about a service.
use fast_tak.Base.{
  ℕ, String, ◌≡◌, Option, none, some, List, [], ◌∷◌, arith, ◌==◌, string_eq, if◌then◌else◌,
}
use fast_tak.Base.Dict.{lookup, lookup-insert}
use fast_tak.Base.Result.{Result, ok, err}
use fast_tak.Base.Python.{Python, Scalar, str}
use fast_tak.Health.Store.{Cache, Snapshot, update, fetch}
use fast_tak.Health.Alerts.Silence.{last_state-check_and_alert}
use fast_tak.Health.Evaluator.Items.{Evaluated, Raw}
use fast_tak.Health.Evaluator.Threshold.{Thresholds}
use fast_tak.Health.Poll.{
  Poll, Monitor, raw_of, poll_failed, poll_evaluated, poll_outcome, by_error, poll, run_polls,
}

-- The status that the store shows for a service.
abbrev pub stored : {N : Type 0} → String → Cache N → Option String
stored service cache = elim (fetch service cache) [ none ↦ none | some entry ↦ some entry.status ]

-- Every service has the same status in the store as in the engine, or is in neither.
abbrev pub Agrees : {N : Type 0} → Monitor N → Type 0
Agrees m = (service : String) → stored service m.cache ≡ lookup service m.alerts.last_state

stored-update :
    {N : Type 0} (now : ℕ) (target : String) (raw : Raw N) (evaluated : Evaluated)
    (thresholds : Option (Thresholds N)) (cache : Cache N) (service : String)
    → stored service (update now target raw evaluated thresholds cache)
      ≡ (if service == target then some evaluated.status else stored service cache)
unfolding update fetch
stored-update {N} now target raw evaluated thresholds cache service =
    let entry : Snapshot N = record {
      status = evaluated.status;
      message = evaluated.message;
      raw = raw;
      thresholds = thresholds;
      updated_at = now;
    } in
    ground (arith, lookup-insert service target entry cache)

module _ (py : Python) (zero_tuples : py.Num) (cooldown : ℕ) where
  open py use {Num}

  poll_failed-Agrees :
      (p : Poll Num) (reason : String) (m : Monitor Num)
      → Agrees m
      → Agrees (poll_failed py zero_tuples cooldown p reason m).0
  unfolding poll_failed
  poll_failed-Agrees p reason m h service =
      rw (stored-update, last_state-check_and_alert) (ground (arith, h service))

  poll_evaluated-Agrees :
      (p : Poll Num) (evaluated : Evaluated) (m : Monitor Num)
      → Agrees m
      → Agrees (poll_evaluated py zero_tuples cooldown p evaluated m).0
  unfolding poll_evaluated
  poll_evaluated-Agrees p evaluated m h service =
      rw (stored-update, last_state-check_and_alert) (ground (arith, h service))

  poll_outcome-Agrees :
      (p : Poll Num) (m : Monitor Num) (r : Result Evaluated)
      → Agrees m
      → Agrees (poll_outcome py zero_tuples cooldown p m r).0
  unfolding poll_outcome
  poll_outcome-Agrees p m (ok evaluated) h = poll_evaluated-Agrees p evaluated m h
  poll_outcome-Agrees p m (err e) h = h

  -- A poll keeps the agreement on every path: a failed probe, an evaluated one, and an evaluation
  -- that raises.
  pub poll-Agrees :
      (p : Poll Num) (m : Monitor Num) → Agrees m → Agrees (poll py zero_tuples cooldown p m).0
  unfolding poll by_error
  poll-Agrees p m h = by_reason (lookup "error" (raw_of py zero_tuples cooldown p.probe).fields)
    where
      by_reason :
          (reason : Option (Scalar Num)) → Agrees (by_error py zero_tuples cooldown p m reason).0
      by_reason (some reason) = poll_failed-Agrees p (str py reason) m h
      by_reason none = poll_outcome-Agrees p m _ h

  -- Any sequence of polls, of any services and with any outcomes, keeps the agreement: if the store shows
  -- for every service the state that the alert engine holds, it does so after the polls.
  pub run_polls-Agrees :
      (polls : List (Poll Num)) (m : Monitor Num)
      → Agrees m
      → Agrees (run_polls py zero_tuples cooldown polls m)
  unfolding run_polls
  run_polls-Agrees [] m h = h
  run_polls-Agrees (p ∷ polls) m h =
      run_polls-Agrees polls (poll py zero_tuples cooldown p m).0 (poll-Agrees p m h)
