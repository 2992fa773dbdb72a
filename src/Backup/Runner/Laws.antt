-- ===== src/Backup/Runner/Laws.antt =====
-- What `run` guarantees, however the programs that it starts behave.
use mathlib.Core.Path.{subst}
use mathlib.Core.List.{append_assoc}
use fast_tak.Base.{
  ℕ, String, ◌≡◌, refl, sym, ap, ◌≢◌, true, false, Option, none, some, List, [], ◌∷◌, ◌++◌, arith,
  contains, Bool-cases, inl, inr, string_eq,
}
use fast_tak.Base.Int.{ℤ}
use fast_tak.Base.Text.{codes_eq}
use fast_tak.Base.Result.{Error, Result, ok, err}
use fast_tak.Backup.Directory.{exists}
use fast_tak.Backup.State.{State, read, running}
use fast_tak.Backup.Keys.{Line, load_or_create}
use fast_tak.Backup.Retention.{PruneFault}
use fast_tak.Backup.Archive.{Disk, partial, make_archive}
use fast_tak.Backup.Archive.Outcome.{IsMade, make_archive-ok}
use fast_tak.Backup.Runner.{
  Event, World, Run, BackupResult, run_name, last_run, record_events, with_lock, with_staging, save,
  attempt, finish, handle, remove, remove_staging, run_started, release, run, complete,
  apply_retention, backup_completed, prune_with, handle_cleaned, cleanup_partial, retention_keep,
  report_failure,
}
use fast_tak.Backup.Runner.Trail.{reported, IsTrail}
use fast_tak.Backup.Runner.Ending.{started, file_of, save-ok, IsHandled, IsHandled-finish}

remove-cons :
    (name : String) (xs : List String) → contains xs name ≡ false → remove name (name ∷ xs) ≡ xs
unfolding remove
remove-cons name [] h = ground arith
remove-cons name (x ∷ xs) h = ground (arith, remove-cons name xs)

-- What a run leaves behind.
record IsEnded (r : Run) (disk : Disk) (made : Result ℕ) (s : State) (w : World)
    (out : World × Result BackupResult) : Type 0 where
  says :
      read out.0.state_file
      ≡ ok (record { key_downloaded_at = s.key_downloaded_at; last_run = some (reported r out.1) })
  trail :
      (events : List Event) × (out.0.events ≡ w.events ++ events) × IsTrail r disk made out.1 events
  staging_removed :
      r.staging_removable ≡ true → contains w.staging r.run_id ≡ false → out.0.staging ≡ w.staging
  no_partial : exists (partial (run_name r)) out.0.disk.directory ≡ false

-- The world when the `try` begins.
abbrev begun : Run → State → World → World
begun r s w = record {
  disk = w.disk;
  state_file = file_of s (last_run r running none none);
  events = w.events ++ (started r ∷ []);
  staging = r.run_id ∷ w.staging;
  lock_held = true;
}

IsHandled-begun :
    (r : Run) (disk : Disk) (made : Result ℕ) (s : State) (w : World)
    (out : World × Result BackupResult)
    → IsHandled r disk made
        (record {
          key_downloaded_at = s.key_downloaded_at;
          last_run = some (last_run r running none none);
        })
        (begun r s w)
        out
    → IsEnded r disk made s w (release (remove_staging r out))
unfolding release remove_staging
IsHandled-begun r disk made s w out h =
    let (new, added, trail) = h.trail in
    record {
      says = h.says;
      trail = (started r ∷ new, rw (added, append_assoc) refl, trail);
      staging_removed =
          λ removable fresh. rw (removable, h.staging_kept) (remove-cons r.run_id w.staging fresh);
      no_partial = h.no_partial;
    }

run-begun :
    (r : Run) (s : State) (w : World)
    → w.lock_held ≡ false
    → read w.state_file ≡ ok s
    → r.running_written ≡ true
    → run r w ≡ release (remove_staging r (handle r (attempt r (begun r s w))))
unfolding run run_started
run-begun r s w free readable written =
    let staged = with_lock true (with_staging (r.run_id ∷ w.staging) w) in
    let started_save =
      save-ok r.running_written (last_run r running none none) staged s written readable in
    rw free (ap (λ (out : World × Result (Unit {0})). release (run_started r out)) started_save)

run-IsEnded :
    (r : Run) (s : State) (w : World)
    → w.lock_held ≡ false
    → read w.state_file ≡ ok s
    → r.running_written ≡ true
    → r.success_written ≡ true
    → r.failed_written ≡ true
    → r.partial_removable ≡ true
    → IsEnded r
        (make_archive r.outside (run_name r) w.disk).0
        (make_archive r.outside (run_name r) w.disk).1
        s
        w
        (run r w)
unfolding attempt read
run-IsEnded r s w free readable running_written success_written failed_written removable =
    let s' : State = record {
      key_downloaded_at = s.key_downloaded_at;
      last_run = some (last_run r running none none);
    } in
    let made = make_archive r.outside (run_name r) w.disk in
    let handled =
      IsHandled-finish r s' (begun r s w) made.0 made.1 success_written failed_written removable
        refl refl in
    subst (IsEnded r made.0 made.1 s w) (sym (run-begun r s w free readable running_written))
      (IsHandled-begun r made.0 made.1 s w _ handled)

-- A run that takes the lock, can write the state file and can unlink its partial file leaves its own outcome there: a success with the
-- time that it finished at and no error, or a failure with the class of the exception that the run raises.
-- No run is left as running, and the time of the key's download is kept.
pub run_reports :
    (r : Run) (s : State) (w : World)
    → w.lock_held ≡ false
    → read w.state_file ≡ ok s
    → r.running_written ≡ true
    → r.success_written ≡ true
    → r.failed_written ≡ true
    → r.partial_removable ≡ true
    → read (run r w).0.state_file
      ≡ ok (record {
        key_downloaded_at = s.key_downloaded_at;
        last_run = some (reported r (run r w).1);
      })
run_reports r s w free readable e1 e2 e3 e4 = (run-IsEnded r s w free readable e1 e2 e3 e4).says

-- A run that takes the lock, can write the state file and can unlink its partial file appends to the audit events,
-- and deletes or reorders none. What it appends is `backup.started`, then: where the archive is not made,
-- `backup.failed` with the exception that the run raises; where it is made, `backup.completed` with its size and one
-- event for each archive that the pruning deletes, in order, and the run returns the archive's name and size; or
-- `backup.completed` and then `backup.failed`, where the number of archives to keep cannot be read or the pruning
-- raises an OSError at a file that it cannot unlink.
pub run_events-IsTrail :
    (r : Run) (s : State) (w : World)
    → w.lock_held ≡ false
    → read w.state_file ≡ ok s
    → r.running_written ≡ true
    → r.success_written ≡ true
    → r.failed_written ≡ true
    → r.partial_removable ≡ true
    → (events : List Event) × ((run r w).0.events ≡ w.events ++ events)
      × IsTrail r
          (make_archive r.outside (run_name r) w.disk).0
          (make_archive r.outside (run_name r) w.disk).1
          (run r w).1
          events
run_events-IsTrail r s w free readable e1 e2 e3 e4 =
    (run-IsEnded r s w free readable e1 e2 e3 e4).trail

-- A run that takes the lock, can write the state file and can remove its partial file and its staging directory ends
-- with the staging directories that were there before, if its own name was none of them, and without a
-- partial file of its name, whether it succeeds or fails at any step.
pub run_cleans_up :
    (r : Run) (s : State) (w : World)
    → w.lock_held ≡ false
    → read w.state_file ≡ ok s
    → r.running_written ≡ true
    → r.success_written ≡ true
    → r.failed_written ≡ true
    → r.partial_removable ≡ true
    → r.staging_removable ≡ true
    → contains w.staging r.run_id ≡ false
    → ((run r w).0.staging ≡ w.staging)
      × (exists (partial (run_name r)) (run r w).0.disk.directory ≡ false)
run_cleans_up r s w free readable e1 e2 e3 e4 e5 fresh =
    let ended = run-IsEnded r s w free readable e1 e2 e3 e4 in
    (ended.staging_removed e5 fresh, ended.no_partial)

complete-ok :
    (r : Run) (size : ℕ) (out : World × Result (Unit {0})) (result : BackupResult)
    → (complete r size out).1 ≡ ok result
    → result.filename ≡ run_name r
unfolding complete
complete-ok r size (w, ok _) result h = by_keep (retention_keep r.keep_variable) h
  where
    by_fault :
        (keep : ℤ) (fault : Option PruneFault)
        → (prune_with r size keep fault
            (record_events (backup_completed (run_name r) size ∷ []) w)).1
          ≡ ok result
        → result.filename ≡ run_name r
    by_fault keep none eq = unfold prune_with in cc
    by_fault keep (some fault) eq = absurd (unfold prune_with in cc)

    by_keep :
        (keep : Result ℤ)
        → (apply_retention r size keep
            (record_events (backup_completed (run_name r) size ∷ []) w)).1
          ≡ ok result
        → result.filename ≡ run_name r
    by_keep (ok keep) eq = unfold apply_retention in by_fault keep r.prune_fault eq
    by_keep (err e) eq = absurd (unfold apply_retention in cc)
complete-ok r size (w, err e) result h = absurd (cc)

report_failure-err :
    (r : Run) (e : Error) (out : World × Result (Unit {0})) (result : BackupResult)
    → (report_failure r e out).1 ≢ ok result
unfolding report_failure
report_failure-err r e (w, ok _) result h = cc
report_failure-err r e (w, err e') result h = cc

handle_cleaned-err :
    (r : Run) (e : Error) (out : World × Result (Unit {0})) (result : BackupResult)
    → (handle_cleaned r e out).1 ≢ ok result
unfolding handle_cleaned
handle_cleaned-err r e (w, ok _) result h = report_failure-err r e _ result h
handle_cleaned-err r e (w, err raised) result h = cc

handle-ok :
    (r : Run) (out : World × Result BackupResult) (result : BackupResult)
    → (handle r out).1 ≡ ok result
    → out.1 ≡ ok result
unfolding handle
handle-ok r (w, ok x) result h = h
handle-ok r (w, err e) result h = absurd (handle_cleaned-err r e (cleanup_partial r w) result h)

finish-ok :
    (r : Run) (w : World) (made : Result ℕ) (result : BackupResult)
    → (finish r w made).1 ≡ ok result
    → (size : ℕ) × (made ≡ ok size) × (result.filename ≡ run_name r)
unfolding finish
finish-ok r w (ok size) result h = (size, refl, complete-ok r size _ result h)
finish-ok r w (err e) result h = absurd (cc)

run_started-ok :
    (r : Run) (out : World × Result (Unit {0})) (result : BackupResult)
    → (run_started r out).1 ≡ ok result
    → (size : ℕ) × ((make_archive r.outside (run_name r) out.0.disk).1 ≡ ok size)
      × (result.filename ≡ run_name r)
unfolding run_started remove_staging attempt
run_started-ok r (w, ok _) result h =
    let made = make_archive r.outside (run_name r) w.disk in
    finish-ok r _ made.1 result (handle-ok r _ result h)
run_started-ok r (w, err e) result h = absurd (cc)

-- A run that returns a result held the lock alone and made a whole archive: each program that it started
-- ended with code 0, the keys could be read, and the result names the archive after the time at which the run started.
pub run_succeeds_only_if :
    (r : Run) (w : World) (result : BackupResult)
    → (run r w).1 ≡ ok result
    → (w.lock_held ≡ false)
      × (result.filename ≡ run_name r)
      × ((keys : Line × Line) × ((load_or_create r.outside.identity_path r.outside.keygen
              w.disk.identity).1
            ≡ ok keys)
          × IsMade r.outside keys)
unfolding run release save
run_succeeds_only_if r w result h = elim (Bool-cases w.lock_held) [
  | inl held ↦ absurd (ground arith)
  | inr free ↦
      let staged = with_lock true (with_staging (r.run_id ∷ w.staging) w) in
      let begun_save = save r.running_written (last_run r running none none) staged in
      let (size, made, named) = run_started-ok r begun_save result (ground arith) in
      let archive = make_archive r.outside (run_name r) w.disk in
      let (keys, found, whole, published) =
        make_archive-ok r.outside (run_name r) w.disk archive.0 size
          (ap (λ (m : Result ℕ). (archive.0, m)) made) in
      (free, named, (keys, found, whole))
]
