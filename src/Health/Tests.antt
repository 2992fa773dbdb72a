-- ===== src/Health/Tests.antt =====
-- The health theorems at concrete probes, thresholds and calls.
use fast_tak.Base.{
  ◌<◌, inl, ◌⊎◌, ℕ, String, ◌≡◌, ◌≢◌, refl, ◌↔◌, true, false, none, some, List, [], ◌∷◌, arith, inr,
  string_eq, ◌==◌,
}
use fast_tak.Base.Dict.{lookup}
use fast_tak.Base.Result.{ok}
use fast_tak.Base.Python.{Fields, num, string, less, less_eq, truthy}
use fast_tak.Base.Unary.{unary, unary-IsLawful}
use fast_tak.Health.Status.{rank, note, Status, okay, name, warning, of_name}
use fast_tak.Health.Evaluator.Threshold.{
  Verdict, scalar, table, Thresholds, is_numeric_threshold, check_mapping, check_levels,
  check_numeric, check_when_set, check_threshold,
}
use fast_tak.Health.Evaluator.Worst.{worst_of}
use fast_tak.Health.Evaluator.Items.{
  Raw, item_name, label_verdict, judge_threshold, worst_threshold, item_status, is_filtered,
  judge_item, evaluate_list, container_status, get, judge_container, evaluate_containers,
  evaluate_data, error_status,
}
use fast_tak.Health.Evaluator.Laws.{IsWorst}
use fast_tak.Health.Evaluator.Returns.{
  IsNumeric, HasNumericLevels, HasErrorStatus, IsMeasuredFor, IsFilterable, evaluate_list-Returns,
}
use fast_tak.Health.Evaluator.Messages.{evaluate_data_explains}
use fast_tak.Health.Alerts.{AlertState, Call, last_alert, check_and_alert}
use fast_tak.Health.Alerts.Spacing.{sends_email, alert_times, IsSpaced, alert_times-IsSpaced}
use fast_tak.Health.Alerts.Silence.{Warrants, check_and_alert_notifies, suppressed_is_never_sent}
use fast_tak.Health.Store.{Snapshot, Cache, fetch, summaries, health_summary}
use fast_tak.Health.Store.Worst.{IsBound, IsLevelOf, health_summary_worst}
use fast_tak.Health.Poll.{Poll, returned, raised, at_start, run_polls}
use fast_tak.Health.Poll.Agreement.{Agrees, run_polls-Agrees}

abbrev disk_item : Fields ℕ
disk_item = ("mount", string "/") ∷ ("percent", num 5) ∷ []

abbrev failed_item : Fields ℕ
failed_item = ("mount", string "/data") ∷ ("error", string "no such mount") ∷ []

abbrev disk_thresholds : Thresholds ℕ
disk_thresholds =
    ("percent", table (("warning", num 3) ∷ ("critical", num 4) ∷ []))
    ∷ ("error_status", scalar (string "warning"))
    ∷ []

disk_list :
    evaluate_list unary 0 (failed_item ∷ disk_item ∷ []) disk_thresholds
    ≡ ok ("critical", some "/: percent is |||||| (threshold: |||||)")
unfolding evaluate_list worst_of judge_item is_filtered item_status worst_threshold judge_threshold
    item_name label_verdict check_threshold is_numeric_threshold check_mapping check_levels
    check_numeric check_when_set less less_eq lookup of_name string_eq
disk_list = refl

disk_list_failed :
    evaluate_list unary 0 (disk_item ∷ failed_item ∷ []) disk_thresholds
    ≡ ok ("critical", some "/: percent is |||||| (threshold: |||||)")
unfolding evaluate_list worst_of judge_item is_filtered item_status worst_threshold judge_threshold
    item_name label_verdict check_threshold is_numeric_threshold check_mapping check_levels
    check_numeric check_when_set less less_eq lookup of_name string_eq
disk_list_failed = refl

failed_is_warning : error_status unary disk_thresholds ≡ ok "warning"
unfolding lookup string_eq
failed_is_warning = refl

of_name-warning : of_name "warning" ≡ ok warning
unfolding of_name string_eq
of_name-warning = refl

failed_has_reason : truthy unary (get unary "error" failed_item) ≡ true
unfolding lookup string_eq
failed_has_reason = refl

abbrev container : Fields ℕ
container =
    ("name", string "tak-server")
    ∷ ("status", string "running")
    ∷ ("health", string "unhealthy")
    ∷ []

abbrev health_levels : Fields ℕ
health_levels = ("healthy", string "ok") ∷ ("unhealthy", string "critical") ∷ []

abbrev docker_levels : Fields ℕ
docker_levels = ("running", string "ok") ∷ ("exited", string "critical") ∷ []

abbrev container_thresholds : Thresholds ℕ
container_thresholds = ("health", table health_levels) ∷ ("status", table docker_levels) ∷ []

has_health : lookup "health" container_thresholds ≡ some (table health_levels)
unfolding lookup string_eq
has_health = refl

has_status : lookup "status" container_thresholds ≡ some (table docker_levels)
unfolding lookup string_eq
has_status = refl

container_list :
    evaluate_containers unary (container ∷ []) container_thresholds
    ≡ ok ("critical", some "tak-server: unhealthy/running")
unfolding evaluate_containers worst_of judge_container container_status lookup of_name string_eq
container_list = refl

abbrev disk_raw : Raw ℕ
disk_raw = record { fields = []; items = some (failed_item ∷ disk_item ∷ []) }

disk_data :
    evaluate_data unary 0 disk_raw disk_thresholds
    ≡ ok ("critical", some "/: percent is |||||| (threshold: |||||)")
unfolding evaluate_data evaluate_list worst_of judge_item is_filtered item_status worst_threshold
    judge_threshold item_name label_verdict check_threshold is_numeric_threshold check_mapping
    check_levels check_numeric check_when_set less less_eq lookup of_name string_eq
disk_data = refl

critical_differs : (◌==◌ {A = String} "critical" "ok") ≡ false
unfolding string_eq
critical_differs = refl

critical-ne-ok : ◌≢◌ {A = String} "critical" "ok"
critical-ne-ok e = ground (arith, critical_differs, e)

evaluate_data_explains_example :
    (message : String) × (some "/: percent is |||||| (threshold: |||||)" ≡ some message)
    × (message ≢ "")
evaluate_data_explains_example =
    evaluate_data_explains unary unary-IsLawful.show-ne-nil 0 disk_raw disk_thresholds disk_data
      critical-ne-ok

abbrev report : ℕ → String → Call
report now state = record {
  now = now;
  service = "disk";
  new_state = state;
  detail = "";
  should_alert = true;
}

abbrev warned : AlertState
warned = record { last_state = ("disk", "warning") ∷ []; last_alert_time = ("disk", 1000) ∷ [] }

alert_times-IsSpaced_example : IsSpaced 300 (last_alert "disk" warned) (
    alert_times 300 "disk"
      (report 1100 "critical" ∷ report 1400 "ok" ∷ report 1500 "critical" ∷ [])
      warned)
alert_times-IsSpaced_example =
    alert_times-IsSpaced 300 "disk"
      (report 1100 "critical" ∷ report 1400 "ok" ∷ report 1500 "critical" ∷ []) warned

check_and_alert_notifies_example :
    (sends_email (check_and_alert 300 (report 1300 "critical") warned).1 ≡ true)
    ↔ Warrants 300 (report 1300 "critical") warned
check_and_alert_notifies_example = check_and_alert_notifies 300 (report 1300 "critical") warned

warned_disk : lookup "disk" warned.last_state ≡ some "warning"
unfolding lookup string_eq
warned_disk = refl

warned_at : last_alert "disk" warned ≡ 1000
unfolding lookup string_eq
warned_at = refl

suppressed_is_never_sent_example :
    alert_times 300 "disk" (report 1100 "critical" ∷ report 9000 "critical" ∷ []) warned ≡ []
suppressed_is_never_sent_example =
    suppressed_is_never_sent 300 (report 1100 "critical") (report 9000 "critical" ∷ []) warned
      (omega (arith, warned_at)) (inr refl, tt)

abbrev polled : List (Poll ℕ)
polled =
    record {
      now = 10;
      service = "disk";
      probe = returned disk_raw;
      config = record { thresholds = some disk_thresholds; alert_min_level = none };
    }
    ∷ record {
      now = 20;
      service = "tls";
      probe = raised "timed out";
      config = record { thresholds = none; alert_min_level = none };
    }
    ∷ []

nothing_known : Agrees (at_start unary 0 300)
unfolding lookup fetch
nothing_known service = refl

run_polls-Agrees_example : Agrees (run_polls unary 0 300 polled (at_start unary 0 300))
run_polls-Agrees_example = run_polls-Agrees unary 0 300 polled (at_start unary 0 300) nothing_known

abbrev shown_disk : Snapshot ℕ
shown_disk = record {
  status = "warning";
  message = some "/: percent is |||||";
  raw = disk_raw;
  thresholds = some disk_thresholds;
  updated_at = 10;
}

abbrev snapshot : Cache ℕ
snapshot = ("disk", shown_disk) ∷ []

health_summary_worst_example :
    (worst : Status) × (health_summary snapshot
      ≡ ok (record { overall_status = name worst; services = summaries snapshot }))
    × IsBound worst snapshot
    × ((worst ≡ okay) ⊎ ((rank note < rank worst) × IsLevelOf worst snapshot))
health_summary_worst_example = health_summary_worst snapshot ((warning, of_name-warning), tt)

percent_levels : IsNumeric unary (table (("warning", num 3) ∷ ("critical", num 4) ∷ []))
unfolding lookup string_eq
percent_levels = (("warning", num 3) ∷ ("critical", num 4) ∷ [], 3, 4, refl, refl, refl)

disk_levels : HasNumericLevels unary disk_thresholds
unfolding string_eq
disk_levels = (inr percent_levels, (inl refl, tt))

disk_error_status : HasErrorStatus unary disk_thresholds
disk_error_status = ("warning", warning, failed_is_warning, of_name-warning)

disk_measured : IsMeasuredFor unary disk_thresholds disk_item
unfolding lookup string_eq
disk_measured = (inr (inr (5, refl)), (inl refl, tt))

no_filter : IsFilterable unary 0 disk_thresholds disk_item
unfolding lookup string_eq
no_filter = inl refl

evaluate_list-Returns_example :
    (out : Verdict) × (evaluate_list unary 0 (disk_item ∷ []) disk_thresholds ≡ ok out)
    × IsWorst unary (judge_item unary 0 disk_thresholds) (disk_item ∷ []) out
evaluate_list-Returns_example =
    evaluate_list-Returns unary 0 (disk_item ∷ []) disk_thresholds disk_levels disk_error_status
      ((disk_measured, no_filter), tt)
