-- ===== src/Backup/Tests.antt =====
-- The backup theorems at concrete directories, runs and requests.
mod Runs
use fast_tak.Base.{
  ◌≡◌, ◌≤◌, refl, true, false, none, some, List, [], ◌∷◌, ◌++◌, ◌⊎◌, In, here, there, take,
  string_eq, nat_eq, ◌==◌, if◌then◌else◌,
}
use fast_tak.Base.Dict.{lookup}
use fast_tak.Base.Int.{pos, negsuc}
use fast_tak.Base.Result.{Error, Result, ok, err, os_error}
use fast_tak.Base.Text.{
  codes, codes_eq, strip_prefix, before_suffix, read_digits, text_leb, same, print_digits, chomp,
  all_of, strip, lstrip, rstrip, after, is_space,
}
use fast_tak.Backup.Names.{
  Name, Stamp, instant, days_in_month, is_calendar, is_version, matches_glob, read_stamp, taken_at,
  filename, no_dot_dot, safe_filename,
}
use fast_tak.Backup.Names.Laws.{no_slash, taken_at-filename, safe_filename-no_slash}
use fast_tak.Backup.Directory.{Directory, exists, unlink}
use fast_tak.Backup.Retention.{
  newer_eq, listed_stamp, cons_stamped, collect_stamped, insert_newest, sort_newest,
  stamped_backups, reap_partials, delete_all, prune,
}
use fast_tak.Backup.Retention.Prune.{IsBackup, prune_keeps_newest, prune_leaves_newest}
use fast_tak.Backup.Retention.Others.{IsOther, prune-other}
use fast_tak.Backup.Keys.{
  Line, load_or_create, parse_identity, read_lines, read_line, load_or_create_again,
}
use fast_tak.Backup.State.{missing, defaults, read, write, write_last_run}
use fast_tak.Backup.Manifest.{
  Dsn, database_dsns, Answer, answered, failed_with, version_text, collect_postgres_versions,
  collect_postgres_versions-In, components, HasDistinctNames,
}
use fast_tak.Backup.Archive.{
  Process, Outside, expect_zero, dump_all, missing_of, tar_config_unless, populate_staging, partial,
  manifest_of, make_archive, pipeline, stream_encrypted_archive, publish_with, publish,
  archive_staged, archive_for,
}
use fast_tak.Backup.Archive.Staged.{IsCollected, populate_staging-ok}
use fast_tak.Backup.Archive.Outcome.{IsMade}
use fast_tak.Backup.Runner.{
  Event, World, unset, Run, run_name, run, save, complete, finish, attempt, handle, remove_staging,
  run_started, release, retention_keep, apply_retention, backup_deleted,
}
use fast_tak.Backup.Runner.Trail.{reported, IsTrail}
use fast_tak.Backup.Runner.Laws.{
  run_reports, run_events-IsTrail, run_cleans_up, run_succeeds_only_if,
}
use fast_tak.Backup.Routes.{delete, run_in_thread}
use fast_tak.Backup.Routes.Laws.{delete_removes_one, IsOver, run_in_thread-IsOver}

abbrev may : Stamp
may = record { date = 20260511; time = 120000 }

abbrev june : Stamp
june = record { date = 20260601; time = 30000 }

abbrev version : Name
version = codes "1.2.0"

-- The older archive was copied back and has the newer modification time.
abbrev backups : Directory
backups =
    record { name = filename may version; mtime = 9000 }
    ∷ record { name = filename june version; mtime = 5000 }
    ∷ record { name = codes ".age-identity"; mtime = 10 }
    ∷ []

abbrev keygen : List Line
keygen =
    codes "# created: 2026-05-11T12:00:00Z"
    ∷ codes "# public key: age1abc"
    ∷ codes "AGE-SECRET-KEY-1XYZ"
    ∷ []

-- No backup was ever made here, though some were copied in.
abbrev idle : World
idle = record {
  disk = record { directory = backups; identity = none };
  state_file = missing;
  events = [];
  staging = [];
  lock_held = false;
}

june-is_calendar : is_calendar june ≡ true
unfolding is_calendar days_in_month nat_eq
june-is_calendar = refl

version-is_version : is_version version ≡ true
unfolding is_version same nat_eq codes_eq
version-is_version = refl

taken_at-filename_example : taken_at (filename june version) ≡ some june
taken_at-filename_example = taken_at-filename june version june-is_calendar version-is_version

june-IsBackup : IsBackup (filename june version) june
unfolding listed_stamp matches_glob taken_at filename read_stamp read_digits print_digits
    strip_prefix before_suffix same is_version is_calendar days_in_month nat_eq codes_eq
june-IsBackup = refl

may-IsBackup : IsBackup (filename may version) may
unfolding listed_stamp matches_glob taken_at filename read_stamp read_digits print_digits
    strip_prefix before_suffix same is_version is_calendar days_in_month nat_eq codes_eq
may-IsBackup = refl

pruned_one : prune (pos 1) 21600 9000 backups ≡ (
  filename may version ∷ [],
  record { name = filename june version; mtime = 5000 }
      ∷ record { name = codes ".age-identity"; mtime = 10 }
      ∷ [],
)
unfolding prune stamped_backups collect_stamped listed_stamp cons_stamped matches_glob taken_at
    filename read_stamp read_digits print_digits strip_prefix before_suffix same is_version
    is_calendar days_in_month sort_newest insert_newest newer_eq text_leb reap_partials delete_all
    exists unlink nat_eq codes_eq
pruned_one = refl

may-deleted : In (filename may version) (prune (pos 1) 21600 9000 backups).0
may-deleted = rw pruned_one (here refl)

june-left : exists (filename june version) (prune (pos 1) 21600 9000 backups).1 ≡ true
unfolding exists codes_eq same nat_eq filename print_digits
june-left = rw pruned_one refl

prune_keeps_newest_example : instant may ≤ instant june
prune_keeps_newest_example =
    prune_keeps_newest 1 21600 9000 backups (filename may version) (filename june version) may june
      may-deleted june-left may-IsBackup june-IsBackup

identity-IsOther : IsOther (codes ".age-identity")
unfolding strip_prefix nat_eq
identity-IsOther = refl

june_is_safe : safe_filename (filename june version) ≡ true
unfolding safe_filename strip_prefix chomp read_stamp read_digits before_suffix same no_dot_dot
    filename print_digits nat_eq codes_eq
june_is_safe = refl

delete_removes_one_example :
    (((e : Error) × ((delete (filename june version) idle).1 ≡ err e))
      × ((delete (filename june version) idle).0 ≡ idle))
    ⊎ (((delete (filename june version) idle).1 ≡ ok tt)
        × (safe_filename (filename june version) ≡ true)
        × (exists (filename june version) idle.disk.directory ≡ true)
        × ((y : Name)
            → exists y (delete (filename june version) idle).0.disk.directory
              ≡ (if y == filename june version then false else exists y idle.disk.directory))
        × ((delete (filename june version) idle).0.disk.identity ≡ idle.disk.identity)
        × ((delete (filename june version) idle).0.state_file ≡ idle.state_file)
        × ((delete (filename june version) idle).0.lock_held ≡ idle.lock_held)
        × ((delete (filename june version) idle).0.staging ≡ idle.staging)
        × ((delete (filename june version) idle).0.events
            ≡ idle.events ++ (backup_deleted (filename june version) ∷ [])))
delete_removes_one_example = delete_removes_one (filename june version) idle

abbrev clean : Result Process
clean = ok (record { returncode = pos 0; stderr = "" })

-- The disk is full when the archive is encrypted.
abbrev full_disk : Line → Result Process
full_disk recipient = ok (record { returncode = pos 1; stderr = "no space left on device" })

abbrev works : Line → Result Process
works recipient = clean

abbrev outside : (Line → Result Process) → Outside
outside age = record {
  started_at = june;
  finished_at = june;
  clock = 9000;
  version = version;
  commit = "abc";
  hostname = "tak";
  tak_db_password = "secret";
  fastak_db_password = "secret";
  identity_path = "/backups/.age-identity";
  keygen = ok keygen;
  query = λ db. answered "15.5";
  write_manifest = λ m. ok tt;
  pg_dump = λ db. clean;
  tar_certs = clean;
  tak_src_files = "CoreConfig.xml" ∷ "TAKIgniteConfig.xml" ∷ [];
  tar_config = clean;
  tar_nodered = clean;
  copy_env = ok tt;
  spawn = ok tt;
  age = age;
  tar_code = pos 0;
  gzip_code = pos 0;
  replace = ok tt;
  digest = ok tt;
  stat = ok 4096;
}

abbrev nightly : (Line → Result Process) → Run
nightly age = record {
  actor = "system";
  run_id = "a1";
  outside = outside age;
  keep_variable = unset;
  reap_variable = unset;
  running_written = true;
  success_written = true;
  failed_written = true;
  prune_fault = none;
  partial_removable = true;
  staging_removable = true;
  failed_at = june;
  describe = λ e. "";
}
