-- ===== src/Health/Store.antt =====
-- The snapshot cache (monitor/app/store.py) and the roll-up of the health summary
-- (monitor/app/api/health/router.py). Each write runs under one lock.
pub mod Worst
use fast_tak.Base.{ℕ, String, ◌&&◌, Option, List, [], ◌∷◌, string_eq, if◌then◌else◌}
use fast_tak.Base.Dict.{Dict, lookup, insert}
use fast_tak.Base.Result.{Result, ok, ◌>>=◌}
use fast_tak.Base.Python.{some_text}
use fast_tak.Health.Status.{Status, okay, note, gtb, of_name, name}
use fast_tak.Health.Evaluator.Threshold.{Thresholds}
use fast_tak.Health.Evaluator.Items.{Raw, Evaluated}

pub record Snapshot (N : Type 0) : Type 0 where
  pub status : String
  pub message : Option String
  pub raw : Raw N
  pub thresholds : Option (Thresholds N)
  pub updated_at : ℕ

abbrev pub Cache : Type 0 → Type 0
Cache N = Dict String (Snapshot N)

-- `update`, at the time `now`.
unfoldable pub update :
    {N : Type 0} → ℕ → String → Raw N → Evaluated → Option (Thresholds N) → Cache N → Cache N
update now service raw evaluated thresholds cache =
    insert service
      (record {
        status = evaluated.status;
        message = evaluated.message;
        raw = raw;
        thresholds = thresholds;
        updated_at = now;
      })
      cache

unfoldable pub fetch : {N : Type 0} → String → Cache N → Option (Snapshot N)
fetch service cache = lookup service cache

-- `if level > Status.note and level > worst: worst = level`
abbrev pub raise_worst : Status → Status → Status
raise_worst worst level = if gtb level note && gtb level worst then level else worst

unfoldable pub overall : {N : Type 0} → Status → Cache N → Result Status
overall worst [] = ok worst
overall worst ((service, entry) ∷ rest) =
    of_name entry.status >>= λ level. overall (raise_worst worst level) rest

-- One service of `?view=status`.
pub record ServiceSummary : Type 0 where
  pub service : String
  pub status : String
  pub message : Option String

pub record Summary : Type 0 where
  pub overall_status : String
  pub services : List ServiceSummary

unfoldable pub summaries : {N : Type 0} → Cache N → List ServiceSummary
summaries [] = []
summaries ((service, entry) ∷ rest) =
    record { service = service; status = entry.status; message = some_text entry.message }
    ∷ summaries rest

-- `health_summary(view="status")` on a snapshot of the cache.
unfoldable pub health_summary : {N : Type 0} → Cache N → Result Summary
health_summary cache = overall okay cache >>= λ worst.
    ok (record { overall_status = name worst; services = summaries cache })
