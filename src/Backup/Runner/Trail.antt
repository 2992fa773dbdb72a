-- ===== src/Backup/Runner/Trail.antt =====
-- What the state file and the audit events say of a run, by its outcome.
use fast_tak.Base.{ℕ, ◌<>◌, ◌≡◌, refl, ap, none, some, ◌⊎◌, List, [], ◌∷◌, string_eq}
use fast_tak.Base.Int.{ℤ}
use fast_tak.Base.Text.{codes_eq}
use fast_tak.Base.Result.{Error, Result, ok, err, os_error}
use fast_tak.Backup.Names.{Name}
use fast_tak.Backup.Retention.{PruneFault, prune}
use fast_tak.Backup.State.{LastRun, success, failed}
use fast_tak.Backup.Archive.{Disk}
use fast_tak.Backup.Runner.{
  Event, backup_started, backup_completed, backup_failed, backup_pruned, retention_keep,
  partial_reap_age, Run, BackupResult, class_name, run_name, last_run, pruned_events,
}

-- What the state file says of a run with this outcome.
abbrev pub reported : Run → Result BackupResult → LastRun
reported r (ok result) = last_run r success (some r.outside.finished_at) none
reported r (err e) = last_run r failed (some r.failed_at) (some (class_name e))

-- The names of the archives that the pruning after the archive was made deletes.
abbrev pub pruned_names : Run → Disk → ℤ → List Name
pruned_names r disk keep =
    (prune keep (partial_reap_age r.reap_variable) r.outside.clock disk.directory).0

-- One event for each of them.
abbrev pub prunings : List Name → List Event
prunings [] = []
prunings (name ∷ names) = backup_pruned name ∷ prunings names

pub pruned_events-prunings : (names : List Name) → pruned_events names ≡ prunings names
pruned_events-prunings [] = refl
pruned_events-prunings (name ∷ names) =
    ap (λ e. backup_pruned name ∷ e) (pruned_events-prunings names)

-- The retention is what raises: the number of archives cannot be read, or `prune` meets a file that it cannot unlink.
abbrev pub IsRaisedLate : Run → Error → Type 0
IsRaisedLate r e =
    (retention_keep r.keep_variable ≡ err e)
    ⊎ ((fault : PruneFault) × (r.prune_fault ≡ some fault) × (e ≡ os_error))

-- The events of a run with this outcome, by what the making of the archive gave: `backup.started`, then
-- `backup.completed` and the events of what was pruned, or `backup.failed`, which follows a
-- `backup.completed` where the retention is what failed.
pub data IsTrail (r : Run) (disk : Disk) (made : Result ℕ)
    : Result BackupResult → List Event → Type 0 where
  all_done :
      (size : ℕ) (keep : ℤ) {outcome : Result BackupResult} {events : List Event}
      → made ≡ ok size
      → retention_keep r.keep_variable ≡ ok keep
      → r.prune_fault ≡ none
      → outcome ≡ ok (record { filename = run_name r; size_bytes = size })
      → events
        ≡ backup_started r.run_id (run_name r)
          ∷ backup_completed (run_name r) size
          ∷ prunings (pruned_names r disk keep)
      → IsTrail r disk made outcome events
  not_made :
      (e : Error) {outcome : Result BackupResult} {events : List Event}
      → made ≡ err e
      → outcome ≡ err e
      → events
        ≡ backup_started r.run_id (run_name r)
          ∷ backup_failed r.run_id (class_name e <> ": " <> r.describe e)
          ∷ []
      → IsTrail r disk made outcome events
  not_pruned :
      (size : ℕ) (e : Error) {outcome : Result BackupResult} {events : List Event}
      → made ≡ ok size
      → IsRaisedLate r e
      → outcome ≡ err e
      → events
        ≡ backup_started r.run_id (run_name r)
          ∷ backup_completed (run_name r) size
          ∷ backup_failed r.run_id (class_name e <> ": " <> r.describe e)
          ∷ []
      → IsTrail r disk made outcome events
