-- ===== src/Backup/Runner/Ending.antt =====
-- How a run ends: the state file, the audit events, the lock, the staging directory and the partial
-- file after it.
use mathlib.Core.Path.{subst}
use mathlib.Core.List.{append_assoc}
use fast_tak.Base.{
  ℕ, ◌<>◌, ◌≡◌, refl, sym, ap, ◌∙◌, if◌then◌else◌, Bool, true, false, Option, none, some, inl, inr,
  List, [], ◌∷◌, ◌++◌, arith, string_eq,
}
use fast_tak.Base.Int.{ℤ, slice_from}
use fast_tak.Base.Text.{codes_eq}
use fast_tak.Base.Result.{Error, Result, ok, err, os_error}
use fast_tak.Backup.Names.{Name}
use fast_tak.Backup.Directory.{Directory, exists, exists-unlink, unlink}
use fast_tak.Backup.Retention.{
  PruneFault, prune_until, Stamped, stamped_backups, sidecar, delete_all, reap_partials, prune,
}
use fast_tak.Backup.State.{State, StateFile, object, read, write, write_last_run, LastRun, success}
use fast_tak.Backup.Archive.{Disk, partial, make_archive}
use fast_tak.Backup.Archive.Outcome.{make_archive-ok}
use fast_tak.Backup.Runner.{
  Event, backup_started, backup_completed, backup_failed, World, retention_keep, partial_reap_age,
  Run, BackupResult, class_name, run_name, last_run, with_disk, save, pruned_events,
  apply_retention, complete, finish, report_failure, cleanup_partial, handle, handle_cleaned,
  prune_with,
}
use fast_tak.Backup.Runner.Trail.{
  reported, pruned_names, pruned_events-prunings, IsRaisedLate, IsTrail, all_done, not_made,
  not_pruned,
}

exists-reap_partials :
    (y : Name) (max_age now : ℕ) (d : Directory)
    → exists y d ≡ false
    → exists y (reap_partials max_age now d) ≡ false
unfolding reap_partials exists
exists-reap_partials y max_age now [] h = refl
exists-reap_partials y max_age now (f ∷ d) h = ground (arith, exists-reap_partials y max_age now d)

exists-delete_all :
    (y : Name) (as' : List Stamped) (d : Directory)
    → exists y d ≡ false
    → exists y (delete_all as' d).1 ≡ false
unfolding delete_all
exists-delete_all y [] d h = h
exists-delete_all y (a ∷ as') d h =
    exists-delete_all y as' (unlink (sidecar a.name) (unlink a.name d))
      (ground (arith, exists-unlink y (sidecar a.name) (unlink a.name d), exists-unlink y a.name d))

exists-prune :
    (y : Name) (keep : ℤ) (max_age now : ℕ) (d : Directory)
    → exists y d ≡ false
    → exists y (prune keep max_age now d).1 ≡ false
unfolding prune
exists-prune y keep max_age now d h =
    let d' = reap_partials max_age now d in
    exists-delete_all y (slice_from keep (stamped_backups d')) d'
      (exists-reap_partials y max_age now d h)

abbrev pub file_of : State → LastRun → StateFile
file_of s last = object (some s.key_downloaded_at) (some (some last))

pub save-ok :
    (written : Bool) (last : LastRun) (w : World) (s : State)
    → written ≡ true
    → read w.state_file ≡ ok s
    → save written last w ≡ (
      record {
        disk = w.disk;
        state_file = file_of s last;
        events = w.events;
        staging = w.staging;
        lock_held = w.lock_held;
      },
      ok tt,
    )
unfolding save write_last_run write
save-ok written last w s e h = rw (e, h) refl

abbrev pub started : Run → Event
started r = backup_started r.run_id (run_name r)

pub record IsHandled (r : Run) (disk : Disk) (made : Result ℕ) (s : State) (w : World)
    (out : World × Result BackupResult) : Type 0 where
  pub says :
      read out.0.state_file
      ≡ ok (record { key_downloaded_at = s.key_downloaded_at; last_run = some (reported r out.1) })
  pub trail :
      (new : List Event) × (out.0.events ≡ w.events ++ new)
      × IsTrail r disk made out.1 (started r ∷ new)
  pub lock_kept : out.0.lock_held ≡ w.lock_held
  pub staging_kept : out.0.staging ≡ w.staging
  pub no_partial : exists (partial (run_name r)) out.0.disk.directory ≡ false

cleaned : (name : Name) (d : Directory) → exists (partial name) (unlink (partial name) d) ≡ false
cleaned name d = ground (arith, exists-unlink (partial name) (partial name) d)

handle-err :
    (r : Run) (s : State) (w : World) (e : Error)
    → r.failed_written ≡ true
    → r.partial_removable ≡ true
    → read w.state_file ≡ ok s
    → handle r (w, err e) ≡ (
      record {
        disk = record {
          directory = unlink (partial (run_name r)) w.disk.directory;
          identity = w.disk.identity;
        };
        state_file = file_of s (reported r (err e));
        events = w.events ++ (backup_failed r.run_id (class_name e <> ": " <> r.describe e) ∷ []);
        staging = w.staging;
        lock_held = w.lock_held;
      },
      err e,
    )
unfolding handle handle_cleaned cleanup_partial report_failure
handle-err r s w e h removable readable =
    let cleared : World =
      with_disk
        (record {
          directory = unlink (partial (run_name r)) w.disk.directory;
          identity = w.disk.identity;
        })
        w in
    ap (λ (b : Bool). handle_cleaned r e (if b then (cleared, ok tt) else (w, err os_error)))
      removable
    ∙ ap (report_failure r e) (save-ok r.failed_written (reported r (err e)) cleared s h readable)

-- A failure of the retention, with the directory that it leaves.
IsHandled-late :
    (r : Run) (disk : Disk) (s : State) (w : World) (size : ℕ) (e : Error) (before : World)
    → r.failed_written ≡ true
    → r.partial_removable ≡ true
    → IsRaisedLate r e
    → w.state_file
      ≡ file_of s (reported r (ok (record { filename = run_name r; size_bytes = size })))
    → w.events ≡ before.events ++ (backup_completed (run_name r) size ∷ [])
    → w.lock_held ≡ before.lock_held
    → w.staging ≡ before.staging
    → IsHandled r disk (ok size) s before (handle r (w, err e))
unfolding read
IsHandled-late r disk s w size e before written removable late file_eq events_eq lock_eq
      staging_eq =
    let s' : State = record {
      key_downloaded_at = s.key_downloaded_at;
      last_run = some (reported r (ok (record { filename = run_name r; size_bytes = size })));
    } in
    subst (IsHandled r disk (ok size) s before)
      (sym (handle-err r s' w e written removable (rw file_eq refl)))
      (record {
        says = refl;
        trail = (
          backup_completed (run_name r) size
              ∷ backup_failed r.run_id (class_name e <> ": " <> r.describe e)
              ∷ [],
          rw (events_eq, append_assoc) refl,
          not_pruned size e refl late refl refl,
        );
        lock_kept = lock_eq;
        staging_kept = staging_eq;
        no_partial = cleaned (run_name r) w.disk.directory;
      })

IsHandled-pruned :
    (r : Run) (s : State) (w : World) (size : ℕ) (keep : ℤ) (fault : Option PruneFault)
    (before : World)
    → r.failed_written ≡ true
    → r.partial_removable ≡ true
    → retention_keep r.keep_variable ≡ ok keep
    → r.prune_fault ≡ fault
    → exists (partial (run_name r)) w.disk.directory ≡ false
    → w.state_file
      ≡ file_of s (reported r (ok (record { filename = run_name r; size_bytes = size })))
    → w.events ≡ before.events ++ (backup_completed (run_name r) size ∷ [])
    → w.lock_held ≡ before.lock_held
    → w.staging ≡ before.staging
    → IsHandled r w.disk (ok size) s before (handle r (prune_with r size keep fault w))
unfolding handle prune_with read
IsHandled-pruned r s w size keep none before written removable kept faultless absent file_eq
      events_eq lock_eq staging_eq =
    record {
      says = rw file_eq refl;
      trail = (
        backup_completed (run_name r) size ∷ pruned_events (pruned_names r w.disk keep),
        rw (events_eq, append_assoc) refl,
        all_done size keep refl kept faultless refl (
            ap (λ e. started r ∷ backup_completed (run_name r) size ∷ e)
              (pruned_events-prunings (pruned_names r w.disk keep))),
      );
      lock_kept = lock_eq;
      staging_kept = staging_eq;
      no_partial =
          exists-prune (partial (run_name r)) keep (partial_reap_age r.reap_variable)
            r.outside.clock w.disk.directory absent;
    }
IsHandled-pruned r s w size keep (some fault) before written removable kept faulty absent file_eq
      events_eq lock_eq staging_eq =
    let left =
      prune_until fault keep (partial_reap_age r.reap_variable) r.outside.clock w.disk.directory in
    IsHandled-late r w.disk s
      (with_disk (record { directory = left; identity = w.disk.identity }) w) size os_error before
      written removable (inr (fault, faulty, refl)) file_eq events_eq lock_eq staging_eq

IsHandled-retention :
    (r : Run) (s : State) (w : World) (size : ℕ) (keep : Result ℤ) (before : World)
    → r.failed_written ≡ true
    → r.partial_removable ≡ true
    → retention_keep r.keep_variable ≡ keep
    → exists (partial (run_name r)) w.disk.directory ≡ false
    → w.state_file
      ≡ file_of s (reported r (ok (record { filename = run_name r; size_bytes = size })))
    → w.events ≡ before.events ++ (backup_completed (run_name r) size ∷ [])
    → w.lock_held ≡ before.lock_held
    → w.staging ≡ before.staging
    → IsHandled r w.disk (ok size) s before (handle r (apply_retention r size keep w))
unfolding apply_retention
IsHandled-retention r s w size (ok keep) before written removable kept absent file_eq events_eq
      lock_eq staging_eq =
    IsHandled-pruned r s w size keep r.prune_fault before written removable kept refl absent file_eq
      events_eq lock_eq staging_eq
IsHandled-retention r s w size (err e) before written removable kept absent file_eq events_eq
      lock_eq staging_eq =
    IsHandled-late r w.disk s w size e before written removable (inl kept) file_eq events_eq lock_eq
      staging_eq

IsHandled-save :
    (r : Run) (s : State) (w before : World) (size : ℕ) (out : World × Result (Unit {0}))
    → r.failed_written ≡ true
    → r.partial_removable ≡ true
    → exists (partial (run_name r)) w.disk.directory ≡ false
    → w.events ≡ before.events
    → w.lock_held ≡ before.lock_held
    → w.staging ≡ before.staging
    → out ≡ (
      record {
        disk = w.disk;
        state_file = file_of s (last_run r success (some r.outside.finished_at) none);
        events = w.events;
        staging = w.staging;
        lock_held = w.lock_held;
      },
      ok tt,
    )
    → IsHandled r w.disk (ok size) s before (handle r (complete r size out))
unfolding complete
IsHandled-save r s w before size out written removable absent events_eq lock_eq staging_eq saved =
    subst
      (λ (o : World × Result (Unit {0})).
        IsHandled r w.disk (ok size) s before (handle r (complete r size o)))
      (sym saved)
      (IsHandled-retention r s _ size (retention_keep r.keep_variable) before written removable refl
        absent refl (rw events_eq refl) lock_eq staging_eq)

pub IsHandled-finish :
    (r : Run) (s : State) (w : World) (disk : Disk) (made : Result ℕ)
    → r.success_written ≡ true
    → r.failed_written ≡ true
    → r.partial_removable ≡ true
    → read w.state_file ≡ ok s
    → make_archive r.outside (run_name r) w.disk ≡ (disk, made)
    → IsHandled r disk made s w (handle r (finish r (with_disk disk w) made))
unfolding finish read
IsHandled-finish r s w disk (ok size) success_written failed_written removable readable h =
    let (keys, found, made, published) =
      make_archive-ok r.outside (run_name r) w.disk disk size h in
    IsHandled-save r s (with_disk disk w) w size _ failed_written removable published.no_partial
      refl refl refl
      (save-ok r.success_written (last_run r success (some r.outside.finished_at) none)
        (with_disk disk w) s success_written readable)
IsHandled-finish r s w disk (err e) success_written failed_written removable readable h =
    subst (IsHandled r disk (err e) s w)
      (sym (handle-err r s (with_disk disk w) e failed_written removable readable))
      (record {
        says = refl;
        trail = (
          backup_failed r.run_id (class_name e <> ": " <> r.describe e) ∷ [],
          refl,
          not_made e refl refl refl,
        );
        lock_kept = refl;
        staging_kept = refl;
        no_partial = cleaned (run_name r) disk.directory;
      })
