-- ===== src/Backup/Tests/Runs.antt =====
-- The theorems on runs, keys and manifests at one concrete run.
use fast_tak.Base.{
  ◌≡◌, refl, true, false, none, some, List, ◌∷◌, ◌++◌, string_eq, nat_eq, ◌==◌, if◌then◌else◌,
}
use fast_tak.Base.Result.{ok}
use fast_tak.Base.Text.{codes, codes_eq, strip_prefix, same, strip, lstrip, rstrip, after, is_space}
use fast_tak.Backup.Directory.{exists}
use fast_tak.Backup.Keys.{Line, load_or_create, parse_identity, read_lines, read_line}
use fast_tak.Backup.State.{missing, defaults, read, write, write_last_run}
use fast_tak.Backup.Manifest.{
  Dsn, database_dsns, Answer, answered, failed_with, components, HasDistinctNames,
}
use fast_tak.Backup.Archive.{
  expect_zero, dump_all, missing_of, tar_config_unless, populate_staging, partial, manifest_of,
  make_archive, pipeline, stream_encrypted_archive, publish_with, publish, archive_staged,
  archive_for,
}
use fast_tak.Backup.Archive.Outcome.{IsMade}
use fast_tak.Backup.Runner.{
  Event, run_name, run, save, complete, finish, attempt, handle, remove_staging, run_started,
  release, retention_keep, apply_retention, prune_with,
}
use fast_tak.Backup.Runner.Trail.{reported, IsTrail}
use fast_tak.Backup.Runner.Laws.{
  run_reports, run_events-IsTrail, run_cleans_up, run_succeeds_only_if,
}
use fast_tak.Backup.Routes.{run_in_thread}
use fast_tak.Backup.Routes.Laws.{IsOver, run_in_thread-IsOver}
use fast_tak.Backup.Tests.{june, keygen, idle, full_disk, works, outside, nightly}

missing_is_defaults : read missing ≡ ok defaults
unfolding read
missing_is_defaults = refl

run_reports_example :
    read (run (nightly full_disk) idle).0.state_file
    ≡ ok (record {
      key_downloaded_at = none;
      last_run = some (reported (nightly full_disk) (run (nightly full_disk) idle).1);
    })
run_reports_example =
    run_reports (nightly full_disk) defaults idle refl missing_is_defaults refl refl refl refl

run_events-IsTrail_example :
    (events : List Event) × ((run (nightly full_disk) idle).0.events ≡ idle.events ++ events)
    × IsTrail
        (nightly full_disk)
        (make_archive (nightly full_disk).outside (run_name (nightly full_disk)) idle.disk).0
        (make_archive (nightly full_disk).outside (run_name (nightly full_disk)) idle.disk).1
        (run (nightly full_disk) idle).1
        events
run_events-IsTrail_example =
    run_events-IsTrail (nightly full_disk) defaults idle refl missing_is_defaults refl refl refl
      refl

run_cleans_up_example :
    ((run (nightly full_disk) idle).0.staging ≡ idle.staging)
    × (exists
          (partial (run_name (nightly full_disk)))
          (run (nightly full_disk) idle).0.disk.directory
        ≡ false)
run_cleans_up_example =
    run_cleans_up (nightly full_disk) defaults idle refl missing_is_defaults refl refl refl refl
      refl refl

run_in_thread-IsOver_example :
    IsOver defaults (run_in_thread "b2" true june (nightly full_disk) idle)
run_in_thread-IsOver_example =
    run_in_thread-IsOver "b2" true june (nightly full_disk) defaults idle missing_is_defaults refl
      refl refl refl refl

staged :
    populate_staging (outside works) (manifest_of (outside works))
    ≡ ok ("MANIFEST.json" ∷ components)
unfolding populate_staging expect_zero dump_all missing_of tar_config_unless string_eq
staged = refl

succeeds :
    (run (nightly works) idle).1
    ≡ ok (record { filename = run_name (nightly works); size_bytes = 4096 })
unfolding run release run_started remove_staging handle attempt finish complete save apply_retention
    prune_with retention_keep make_archive archive_for archive_staged publish publish_with
    stream_encrypted_archive pipeline populate_staging expect_zero dump_all missing_of
    tar_config_unless load_or_create parse_identity read_lines read_line strip_prefix strip lstrip
    rstrip after is_space write_last_run write read nat_eq codes_eq string_eq same
succeeds = refl

run_succeeds_only_if_example :
    (idle.lock_held ≡ false)
    × (run_name (nightly works) ≡ run_name (nightly works))
    × ((keys : Line × Line) × ((load_or_create "/backups/.age-identity" (ok keygen) none).1
          ≡ ok keys)
        × IsMade (outside works) keys)
run_succeeds_only_if_example =
    run_succeeds_only_if (nightly works) idle
      (record { filename = run_name (nightly works); size_bytes = 4096 }) succeeds

-- The second database cannot be reached.
abbrev reach : Dsn → Answer
reach db = if db.dbname == "lldap" then failed_with "OperationalError" else answered "15.5"

abbrev lldap_db : Dsn
lldap_db = record {
  dbname = "lldap";
  host = "app-db";
  user = "fastak";
  password = "b";
  port = 5432;
}

distinct_dsns : HasDistinctNames (database_dsns "a" "b")
unfolding string_eq
distinct_dsns = (refl, (refl, (refl, (refl, tt))))

keygen_makes :
    (load_or_create "/backups/.age-identity" (ok keygen) none).1
    ≡ ok (codes "AGE-SECRET-KEY-1XYZ", codes "age1abc")
unfolding load_or_create parse_identity read_lines read_line strip_prefix strip lstrip rstrip after
    is_space nat_eq codes_eq same
keygen_makes = refl
