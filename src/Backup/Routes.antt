-- ===== src/Backup/Routes.antt =====
-- The backup routes (monitor/app/api/backup/router.py) and the exit codes of the command line
-- (monitor/app/backup/cli.py). A request gives a result with its status, or an HTTP error.
pub mod Laws
use fast_tak.Base.{
  ℕ, String, ◌-◌, ◌+◌, ◌≡◌, Bool, true, false, Option, none, some, List, [], ◌∷◌, ◌++◌,
  if◌then◌else◌,
}
use fast_tak.Base.Int.{ℤ, pos}
use fast_tak.Base.Result.{Error, Result, ok, err, ◌>>=◌, backup_already_running, http_exception}
use fast_tak.Backup.Names.{Name, Stamp, safe_filename}
use fast_tak.Backup.Directory.{Directory, exists, unlink}
use fast_tak.Backup.Keys.{Line}
use fast_tak.Backup.Retention.{prune}
use fast_tak.Backup.State.{LastRun, failed, mark_key_downloaded}
use fast_tak.Backup.Archive.{Disk}
use fast_tak.Backup.Runner.{
  World, Run, BackupResult, EnvInt, retention_keep, partial_reap_age, with_state, with_disk,
  record_events, save, run, job_started, job_failed, backup_downloaded, backup_deleted,
  key_downloaded,
}

-- `_safe_filename`
unfoldable pub checked_name : Name → Result Name
checked_name name =
    if safe_filename name then ok name else err (http_exception 400 "invalid backup filename")

abbrev pub on_directory : (Directory → Directory) → World → World
on_directory change w =
    with_disk (record { directory = change w.disk.directory; identity = w.disk.identity }) w

abbrev not_found : Error
not_found = http_exception 404 "not found"

unfoldable pub download_checked : Result Name → World → World × Result Name
download_checked (err e) w = (w, err e)
download_checked (ok name) w =
    if exists name w.disk.directory
    then (record_events (backup_downloaded name ∷ []) w, ok name)
    else (w, err not_found)

unfoldable pub download : Name → World → World × Result Name
download name w = download_checked (checked_name name) w

unfoldable pub delete_checked : Result Name → World → World × Result (Unit {0})
delete_checked (err e) w = (w, err e)
delete_checked (ok name) w =
    if exists name w.disk.directory
    then (record_events (backup_deleted name ∷ []) (on_directory (unlink name) w), ok tt)
    else (w, err not_found)

unfoldable pub delete : Name → World → World × Result (Unit {0})
delete name w = delete_checked (checked_name name) w

unfoldable pub hand_out : List Line → World → Result (Unit {0}) → World × Result (List Line)
hand_out lines w (ok _) = (record_events (key_downloaded ∷ []) w, ok lines)
hand_out lines w (err e) = (w, err e)

unfoldable pub download_key_of :
    Bool → Stamp → Option (List Line) → World → World × Result (List Line)
download_key_of disk now none w = (w, err (http_exception 404 "no key yet — take a backup first"))
download_key_of disk now (some lines) w =
    let (file, outcome) = mark_key_downloaded disk now w.state_file in
    hand_out lines (with_state file w) outcome

-- `disk` says whether the state file can be written.
unfoldable pub download_key : Bool → Stamp → World → World × Result (List Line)
download_key disk now w = download_key_of disk now w.disk.identity w

-- `run_backup_preflight`: the lock is taken and released at once, and no other exception comes up.
unfoldable pub run_backup_preflight : World → Result (Unit {0})
run_backup_preflight w = if w.lock_held then err backup_already_running else ok tt

abbrev by_preflight : Result (Unit {0}) → Result String → Result String
by_preflight (ok _) job = job
by_preflight (err e) job = err (http_exception 409 "a backup is already in progress")

-- The reply of `trigger_run`, with the id of the job that it schedules.
unfoldable pub trigger_run : String → World → Result String
trigger_run job w = by_preflight (run_backup_preflight w) (ok job)

abbrev pub never_ran : Stamp → LastRun
never_ran now = record {
  started_at = now;
  finished_at = some now;
  status = failed;
  filename = [];
  error = some "BackupAlreadyRunning";
}

unfoldable pub report_never_ran : String → World × Result (Unit {0}) → World
report_never_ran job (w, ok _) = record_events (job_started job ∷ job_failed job ∷ []) w
report_never_ran job (w, err e) = w

-- The exceptions that the job catches.
unfoldable pub after_run : String → Bool → Stamp → World × Result BackupResult → World
after_run job disk now (w, ok result) = w
after_run job disk now (w, err backup_already_running) =
    report_never_ran job (save disk (never_ran now) w)
after_run job disk now (w, err e) = w

-- `_run_in_thread`, which may start when another run holds the lock.
unfoldable pub run_in_thread : String → Bool → Stamp → Run → World → World
run_in_thread job disk now r w = after_run job disk now (run r w)

-- `_cmd_run`
unfoldable pub cmd_run_code : Result BackupResult → ℕ
cmd_run_code (ok result) = 0
cmd_run_code (err backup_already_running) = 2
cmd_run_code (err e) = 1

unfoldable pub cmd_prune_with : Result ℤ → EnvInt → ℕ → Directory → Result (List Name × Directory)
cmd_prune_with (ok keep) reap now d = ok (prune keep (partial_reap_age reap) now d)
cmd_prune_with (err e) reap now d = err e

-- `_cmd_prune`, where an explicit `--keep` is not checked.
unfoldable pub cmd_prune :
    Option ℤ → EnvInt → EnvInt → ℕ → Directory → Result (List Name × Directory)
cmd_prune (some keep) variable reap now d = cmd_prune_with (ok keep) reap now d
cmd_prune none variable reap now d = cmd_prune_with (retention_keep variable) reap now d
