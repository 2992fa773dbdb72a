-- ===== src/Backup/Routes/Laws.antt =====
-- What the backup routes change, and what a job reports however it is scheduled.
use mathlib.Core.Path.{subst}
use fast_tak.Base.{
  String, ◌≡◌, ◌≢◌, refl, sym, Bool, true, false, some, [], ◌∷◌, ◌++◌, ◌⊎◌, inl, inr, arith,
  Bool-cases, ◌==◌, if◌then◌else◌,
}
use fast_tak.Base.Text.{codes_eq}
use fast_tak.Base.Result.{
  Error, Result, ok, err, backup_already_running, http_exception, key_error, type_error,
  attribute_error, value_error, os_error, http_error, runtime_error,
}
use fast_tak.Backup.Names.{Name, Stamp, safe_filename}
use fast_tak.Backup.Directory.{exists, exists-unlink}
use fast_tak.Backup.State.{State, read, LastRun, running}
use fast_tak.Backup.Runner.{World, Run, BackupResult, save, run, with_staging}
use fast_tak.Backup.Runner.Trail.{reported}
use fast_tak.Backup.Runner.Ending.{save-ok}
use fast_tak.Backup.Runner.Laws.{run_reports}
use fast_tak.Backup.Routes.{
  checked_name, delete_checked, delete, never_ran, report_never_ran, after_run, run_in_thread,
  backup_deleted,
}

-- A deletion that is refused leaves everything as it was. One that is carried out was of an archive with a safe
-- name that was there; it removes that file and no other, keeps the key, the state file, the lock and the
-- staging directories, and records one event.
pub delete_removes_one :
    (name : Name) (w : World)
    → (((e : Error) × ((delete name w).1 ≡ err e)) × ((delete name w).0 ≡ w))
      ⊎ (((delete name w).1 ≡ ok tt)
          × (safe_filename name ≡ true)
          × (exists name w.disk.directory ≡ true)
          × ((y : Name)
              → exists y (delete name w).0.disk.directory
                ≡ (if y == name then false else exists y w.disk.directory))
          × ((delete name w).0.disk.identity ≡ w.disk.identity)
          × ((delete name w).0.state_file ≡ w.state_file)
          × ((delete name w).0.lock_held ≡ w.lock_held)
          × ((delete name w).0.staging ≡ w.staging)
          × ((delete name w).0.events ≡ w.events ++ (backup_deleted name ∷ [])))
unfolding delete delete_checked checked_name
delete_removes_one name w = elim (Bool-cases (safe_filename name)) [
  | inr unsafe ↦ rw unsafe (inl ((http_exception 400 "invalid backup filename", refl), refl))
  | inl safe ↦ elim (Bool-cases (exists name w.disk.directory)) [
    | inr absent ↦ rw (safe, absent) (inl ((http_exception 404 "not found", refl), refl))
    | inl there_is ↦
        rw (safe, there_is)
          (inr (
            refl,
            refl,
            refl,
            λ y. exists-unlink y name w.disk.directory,
            refl,
            refl,
            refl,
            refl,
            refl,
          ))
  ]
]

-- The last run is over, and the time of the key's download is the one before.
pub record IsOver (s : State) (w : World) : Type 0 where
  pub last : LastRun
  pub says :
      read w.state_file
      ≡ ok (record { key_downloaded_at = s.key_downloaded_at; last_run = some last })
  pub over : last.status ≢ running

report_never_ran-IsOver :
    (job : String) (now : Stamp) (disk : Bool) (s : State) (w : World)
    → disk ≡ true
    → read w.state_file ≡ ok s
    → IsOver s (report_never_ran job (save disk (never_ran now) w))
report_never_ran-IsOver job now disk s w written readable =
    subst (λ (out : World × Result (Unit {0})). IsOver s (report_never_ran job out))
      (sym (save-ok disk (never_ran now) w s written readable))
      (unfold report_never_ran read in record { last = never_ran now; says = refl; over = λ e. cc })

after_run-IsOver :
    (job : String) (now : Stamp) (disk : Bool) (s : State) (r : Run) (w : World)
    (outcome : Result BackupResult)
    → disk ≡ true
    → read w.state_file
      ≡ ok
          (record { key_downloaded_at = s.key_downloaded_at; last_run = some (reported r outcome) })
    → IsOver s (after_run job disk now (w, outcome))
unfolding after_run
after_run-IsOver job now disk s r w (ok result) written says = record {
  last = reported r (ok result);
  says = says;
  over = λ e. cc;
}
after_run-IsOver job now disk s r w (err e) written says = by_error e says
  where
    over_as : (e : Error) → (reported r (err e)).status ≢ running
    over_as e h = cc

    known :
        (e : Error)
        → read w.state_file
          ≡ ok (record {
            key_downloaded_at = s.key_downloaded_at;
            last_run = some (reported r (err e));
          })
        → IsOver s w
    known e eq = record { last = reported r (err e); says = eq; over = over_as e }

    by_error :
        (e : Error)
        → read w.state_file
          ≡ ok (record {
            key_downloaded_at = s.key_downloaded_at;
            last_run = some (reported r (err e));
          })
        → IsOver s (after_run job disk now (w, err e))
    by_error backup_already_running eq =
        let ended =
          report_never_ran-IsOver job now disk
            (record {
              key_downloaded_at = s.key_downloaded_at;
              last_run = some (reported r (err backup_already_running));
            })
            w written eq in
        record { last = ended.last; says = ended.says; over = ended.over }
    by_error key_error eq = known key_error eq
    by_error type_error eq = known type_error eq
    by_error attribute_error eq = known attribute_error eq
    by_error value_error eq = known value_error eq
    by_error os_error eq = known os_error eq
    by_error http_error eq = known http_error eq
    by_error (runtime_error m) eq = known (runtime_error m) eq
    by_error (http_exception c d) eq = known (http_exception c d) eq

run-held :
    (r : Run) (w : World)
    → w.lock_held ≡ true
    → run r w ≡ (with_staging (r.run_id ∷ w.staging) w, err backup_already_running)
unfolding run
run-held r w held = ground arith

pub run_in_thread-IsOver :
    (job : String) (disk : Bool) (now : Stamp) (r : Run) (s : State) (w : World)
    → read w.state_file ≡ ok s
    → disk ≡ true
    → r.running_written ≡ true
    → r.success_written ≡ true
    → r.failed_written ≡ true
    → r.partial_removable ≡ true
    → IsOver s (run_in_thread job disk now r w)
unfolding run_in_thread
run_in_thread-IsOver job disk now r s w readable written e1 e2 e3 e4 =
    elim (Bool-cases w.lock_held) [
      | inr free ↦
          after_run-IsOver job now disk s r (run r w).0 (run r w).1 written
            (run_reports r s w free readable e1 e2 e3 e4)
      | inl held ↦
          subst (λ (out : World × Result BackupResult). IsOver s (after_run job disk now out))
            (sym (run-held r w held))
            (unfold after_run in
              report_never_ran-IsOver job now disk s (with_staging (r.run_id ∷ w.staging) w) written
                readable)
    ]
