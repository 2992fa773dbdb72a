-- ===== src/Health/Poll.antt =====
-- One health poll (monitor/app/scheduler.py, `_poll`): the probe, the evaluation, the store and the
-- alert engine. The probes themselves are not modelled; a poll is given what its probe did.
pub mod Agreement
use fast_tak.Base.{ℕ, String, Bool, true, Option, none, some, List, [], ◌∷◌, ◌++◌, string_eq}
use fast_tak.Base.Dict.{lookup}
use fast_tak.Base.Result.{Result, ok, err, Error}
use fast_tak.Base.Python.{Python, Scalar, string, str}
use fast_tak.Health.Status.{name}
use fast_tak.Health.Evaluator.Items.{Raw, ServiceConfig, Evaluated, evaluate, or_default}
use fast_tak.Health.Store.{Cache, update}
use fast_tak.Health.Alerts.{AlertState, Call, Effect, check_and_alert}

-- A probe returns its data, or raises an exception whose text is cut to 200 characters.
pub data Probe (N : Type 0) : Type 0 where
  returned : Raw N → Probe N
  raised : String → Probe N

pub record Monitor (N : Type 0) : Type 0 where
  pub cache : Cache N
  pub alerts : AlertState

pub record Poll (N : Type 0) : Type 0 where
  pub now : ℕ
  pub service : String
  pub probe : Probe N
  pub config : ServiceConfig N

module _ (py : Python) (zero_tuples : py.Num) (cooldown : ℕ) where
  open py use {Num}

  -- `except Exception as e: raw = {"error": str(e)[:200]}`
  abbrev pub raw_of : Probe Num → Raw Num
  raw_of (returned raw) = raw
  raw_of (raised text) = record { fields = ("error", string text) ∷ []; items = none }

  abbrev pub call : Poll Num → String → String → Bool → Call
  call p state detail should = record {
    now = p.now;
    service = p.service;
    new_state = state;
    detail = detail;
    should_alert = should;
  }

  -- The branch for data that carries an `error`.
  unfoldable pub poll_failed : Poll Num → String → Monitor Num → Monitor Num × List Effect
  poll_failed p reason m =
      let evaluated : Evaluated = record {
        status = "critical";
        message = some reason;
        should_alert = true;
      } in
      let (alerts, out) = check_and_alert cooldown (call p "critical" reason true) m.alerts in
      (
        record {
          cache = update p.now p.service (raw_of p.probe) evaluated none m.cache;
          alerts = alerts;
        },
        out,
      )

  unfoldable pub poll_evaluated : Poll Num → Evaluated → Monitor Num → Monitor Num × List Effect
  poll_evaluated p evaluated m =
      let (alerts, out) =
        check_and_alert cooldown
          (call p evaluated.status (or_default evaluated.message "") evaluated.should_alert)
          m.alerts in
      (
        record {
          cache = update p.now p.service (raw_of p.probe) evaluated p.config.thresholds m.cache;
          alerts = alerts;
        },
        out,
      )

  -- An exception of `evaluate` leaves the poll before anything is written.
  unfoldable pub poll_outcome :
      Poll Num → Monitor Num → Result Evaluated → Monitor Num × Result (List Effect)
  poll_outcome p m (ok evaluated) = let (m', out) = poll_evaluated p evaluated m in (m', ok out)
  poll_outcome p m (err e) = (m, err e)

  -- `if "error" in raw: ... return`, and the rest of the poll.
  unfoldable pub by_error :
      Poll Num → Monitor Num → Option (Scalar Num) → Monitor Num × Result (List Effect)
  by_error p m (some reason) = let (m', out) = poll_failed p (str py reason) m in (m', ok out)
  by_error p m none = poll_outcome p m (evaluate py zero_tuples (raw_of p.probe) p.config)

  unfoldable pub poll : Poll Num → Monitor Num → Monitor Num × Result (List Effect)
  poll p m = by_error p m (lookup "error" (raw_of p.probe).fields)

  unfoldable pub run_polls : List (Poll Num) → Monitor Num → Monitor Num
  run_polls [] m = m
  run_polls (p ∷ polls) m = run_polls polls (poll p m).0

  abbrev pub at_start : Monitor Num
  at_start = record { cache = []; alerts = record { last_state = []; last_alert_time = [] } }
