-- ===== src/Backup/Runner.antt =====
-- A backup run (`run` of monitor/app/backup/runner.py): the lock, the state file, the audit events, the
-- staging directory and the archive, through every way in which a run can end.
pub mod Trail
pub mod Ending
pub mod Laws
use fast_tak.Base.{
  ℕ, zero, suc, String, ◌<>◌, ◌≡◌, ◌≤◌, Bool, true, false, not, Option, none, some, List, [], ◌∷◌,
  ◌++◌, ltb, ◌==◌, string_eq, if◌then◌else◌,
}
use fast_tak.Base.Int.{ℤ, pos, negsuc, lt_one}
use fast_tak.Base.Result.{
  Error, Result, ok, err, backup_already_running, value_error, key_error, type_error,
  attribute_error, os_error, http_error, runtime_error, http_exception,
}
use fast_tak.Backup.Names.{Name, Stamp, filename}
use fast_tak.Backup.Directory.{Directory, unlink}
use fast_tak.Backup.Retention.{PruneFault, prune, prune_until}
use fast_tak.Backup.State.{StateFile, LastRun, RunStatus, running, success, failed, write_last_run}
use fast_tak.Backup.Archive.{Outside, Disk, partial, make_archive}

-- The rows that a run records, with what tells them apart.
pub data Event : Type 0 where
  backup_started : String → Name → Event
  backup_completed : Name → ℕ → Event
  backup_pruned : Name → Event
  backup_failed : String → String → Event
  job_started job_failed : String → Event
  backup_downloaded backup_deleted : Name → Event
  key_downloaded : Event

pub record World : Type 0 where
  pub disk : Disk
  pub state_file : StateFile
  pub events : List Event
  pub staging : List String
  pub lock_held : Bool

-- An integer in the environment: unset, no integer, or an integer.
pub data EnvInt : Type 0 where
  unset no_int : EnvInt
  int : ℤ → EnvInt

unfoldable pub retention_keep : EnvInt → Result ℤ
retention_keep unset = ok (pos 14)
retention_keep no_int = err value_error
retention_keep (int v) = if lt_one v then err value_error else ok v

max_60 : ℤ → ℕ
max_60 (pos n) = if ltb 60 n then n else 60
max_60 (negsuc n) = 60

-- `_partial_reap_age`, in seconds.
unfoldable pub partial_reap_age : EnvInt → ℕ
unfolding max_60
partial_reap_age unset = 21600
partial_reap_age no_int = 21600
partial_reap_age (int v) = max_60 v

-- What a run is given, with the outcomes of its three writes of the state file, of the pruning and of the
-- removal of the partial file and of the staging directory.
pub record Run : Type 0 where
  pub actor : String
  pub run_id : String
  pub outside : Outside
  pub keep_variable : EnvInt
  pub reap_variable : EnvInt
  pub running_written : Bool
  pub success_written : Bool
  pub failed_written : Bool
  pub prune_fault : Option PruneFault
  pub partial_removable : Bool
  pub staging_removable : Bool
  pub failed_at : Stamp
  pub describe : Error → String

-- `type(exc).__name__`
abbrev pub class_name : Error → String
class_name key_error = "KeyError"
class_name type_error = "TypeError"
class_name attribute_error = "AttributeError"
class_name value_error = "ValueError"
class_name os_error = "OSError"
class_name http_error = "HTTPError"
class_name backup_already_running = "BackupAlreadyRunning"
class_name (runtime_error message) = "RuntimeError"
class_name (http_exception code detail) = "HTTPException"

pub record BackupResult : Type 0 where
  pub filename : Name
  pub size_bytes : ℕ

unfoldable pub run_name : Run → Name
run_name r = filename r.outside.started_at r.outside.version

abbrev pub last_run : Run → RunStatus → Option Stamp → Option String → LastRun
last_run r status finished error = record {
  started_at = r.outside.started_at;
  finished_at = finished;
  status = status;
  filename = run_name r;
  error = error;
}

abbrev pub with_state : StateFile → World → World
with_state file w = record {
  disk = w.disk;
  state_file = file;
  events = w.events;
  staging = w.staging;
  lock_held = w.lock_held;
}

abbrev pub with_disk : Disk → World → World
with_disk disk w = record {
  disk = disk;
  state_file = w.state_file;
  events = w.events;
  staging = w.staging;
  lock_held = w.lock_held;
}

-- `record_event`: what is recorded is kept in order.
abbrev pub record_events : List Event → World → World
record_events events w = record {
  disk = w.disk;
  state_file = w.state_file;
  events = w.events ++ events;
  staging = w.staging;
  lock_held = w.lock_held;
}

abbrev pub with_lock : Bool → World → World
with_lock held w = record {
  disk = w.disk;
  state_file = w.state_file;
  events = w.events;
  staging = w.staging;
  lock_held = held;
}

abbrev pub with_staging : List String → World → World
with_staging staging w = record {
  disk = w.disk;
  state_file = w.state_file;
  events = w.events;
  staging = staging;
  lock_held = w.lock_held;
}

unfoldable pub save : Bool → LastRun → World → World × Result (Unit {0})
save disk last w =
    let (file, outcome) = write_last_run disk last w.state_file in (with_state file w, outcome)

abbrev pub pruned_events : List Name → List Event
pruned_events [] = []
pruned_events (name ∷ names) = backup_pruned name ∷ pruned_events names

abbrev pub after_prune : List Name × Directory → World → World
after_prune (names, directory) w =
    record_events (pruned_events names)
      (with_disk (record { directory = directory; identity = w.disk.identity }) w)

-- `prune(keep=retention_keep())`, and the event of each deleted archive.
unfoldable pub prune_with : Run → ℕ → ℤ → Option PruneFault → World → World × Result BackupResult
prune_with r size keep none w = (
  after_prune (prune keep (partial_reap_age r.reap_variable) r.outside.clock w.disk.directory) w,
  ok (record { filename = run_name r; size_bytes = size }),
)
prune_with r size keep (some fault) w =
    let left =
      prune_until fault keep (partial_reap_age r.reap_variable) r.outside.clock w.disk.directory in
    (with_disk (record { directory = left; identity = w.disk.identity }) w, err os_error)

unfoldable pub apply_retention : Run → ℕ → Result ℤ → World → World × Result BackupResult
apply_retention r size (ok keep) w = prune_with r size keep r.prune_fault w
apply_retention r size (err e) w = (w, err e)

unfoldable pub complete : Run → ℕ → World × Result (Unit {0}) → World × Result BackupResult
complete r size (w, ok _) =
    apply_retention r size (retention_keep r.keep_variable)
      (record_events (backup_completed (run_name r) size ∷ []) w)
complete r size (w, err e) = (w, err e)

unfoldable pub finish : Run → World → Result ℕ → World × Result BackupResult
finish r w (ok size) =
    complete r size
      (save r.success_written (last_run r success (some r.outside.finished_at) none) w)
finish r w (err e) = (w, err e)

-- The body of the `try`.
unfoldable pub attempt : Run → World → World × Result BackupResult
attempt r w =
    let (disk, made) = make_archive r.outside (run_name r) w.disk in
    finish r (with_disk disk w) made

unfoldable pub report_failure :
    Run → Error → World × Result (Unit {0}) → World × Result BackupResult
report_failure r e (w, ok _) =
    (record_events (backup_failed r.run_id (class_name e <> ": " <> r.describe e) ∷ []) w, err e)
report_failure r e (w, err e') = (w, err e')

-- `_cleanup_partial`: a file that is not there is no error, any other failure is raised.
unfoldable pub cleanup_partial : Run → World → World × Result (Unit {0})
cleanup_partial r w =
    if r.partial_removable
    then (
      with_disk
          (record {
            directory = unlink (partial (run_name r)) w.disk.directory;
            identity = w.disk.identity;
          })
          w,
      ok tt,
    )
    else (w, err os_error)

unfoldable pub handle_cleaned :
    Run → Error → World × Result (Unit {0}) → World × Result BackupResult
handle_cleaned r e (w, ok _) =
    report_failure r e
      (save r.failed_written (last_run r failed (some r.failed_at) (some (class_name e))) w)
handle_cleaned r e (w, err raised) = (w, err raised)

-- The `except`.
unfoldable pub handle : Run → World × Result BackupResult → World × Result BackupResult
handle r (w, ok result) = (w, ok result)
handle r (w, err e) = handle_cleaned r e (cleanup_partial r w)

unfoldable pub remove : String → List String → List String
remove name [] = []
remove name (x ∷ xs) = let rest = remove name xs in if name == x then rest else x ∷ rest

-- The `finally`: `shutil.rmtree(staging, ignore_errors=True)`, where a failure leaves the directory.
unfoldable pub remove_staging : Run → World × Result BackupResult → World × Result BackupResult
remove_staging r (w, outcome) =
    (with_staging (if r.staging_removable then remove r.run_id w.staging else w.staging) w, outcome)

-- What follows the first write of the state file, which stands outside the `try`.
unfoldable pub run_started : Run → World × Result (Unit {0}) → World × Result BackupResult
run_started r (w, ok _) =
    remove_staging r
      (handle r (attempt r (record_events (backup_started r.run_id (run_name r) ∷ []) w)))
run_started r (w, err e) = (w, err e)

-- The end of the `with` releases the lock on every path.
unfoldable pub release : World × Result BackupResult → World × Result BackupResult
release (w, outcome) = (with_lock false w, outcome)

-- The staging directory is made first, whether or not the lock can be taken.
unfoldable pub run : Run → World → World × Result BackupResult
run r w =
    let staged = with_staging (r.run_id ∷ w.staging) w in
    if w.lock_held
    then (staged, err backup_already_running)
    else release (
        run_started r
          (save r.running_written (last_run r running none none) (with_lock true staged)))
