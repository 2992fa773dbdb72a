-- ===== src/Backup/Archive.antt =====
-- The making of an archive (the workers of monitor/app/backup/runner.py): what each worker does with
-- the outcome of the program that it starts, and the steps of `run` between its two state writes.
pub mod Staged
pub mod Outcome
use fast_tak.Base.{
  ℕ, String, ◌<>◌, ◌≡◌, Bool, true, false, not, ◌||◌, Option, none, some, List, [], ◌∷◌, ◌++◌, ◌==◌,
  string_eq, contains, if◌then◌else◌,
}
use fast_tak.Base.Int.{ℤ, pos, negsuc, is_zero}
use fast_tak.Base.Result.{Error, Result, ok, err, ◌>>=◌, ◌>>◌, runtime_error}
use fast_tak.Base.Text.{codes, codes_eq}
use fast_tak.Backup.Names.{Name, Stamp, filename}
use fast_tak.Backup.Directory.{Directory, unlink, write_file}
use fast_tak.Backup.Keys.{Line, load_or_create}
use fast_tak.Backup.Retention.{sidecar}
use fast_tak.Backup.Manifest.{
  Dsn, database_dsns, Manifest, build_manifest, Answer, collect_postgres_versions,
}

-- A program that has ended. A signal gives a negative code.
pub record Process : Type 0 where
  pub returncode : ℤ
  pub stderr : String

-- What the world outside does during one run: the outcome of each call that starts a program,
-- queries a database or writes a file.
pub record Outside : Type 0 where
  pub started_at : Stamp
  pub finished_at : Stamp
  pub clock : ℕ
  pub version : Name
  pub commit : String
  pub hostname : String
  pub tak_db_password : String
  pub fastak_db_password : String
  pub identity_path : String
  pub keygen : Result (List Line)
  pub query : Dsn → Answer
  pub write_manifest : Manifest → Result (Unit {0})
  pub pg_dump : Dsn → Result Process
  pub tar_certs : Result Process
  pub tak_src_files : List String
  pub tar_config : Result Process
  pub tar_nodered : Result Process
  pub copy_env : Result (Unit {0})
  pub spawn : Result (Unit {0})
  pub age : Line → Result Process
  pub tar_code : ℤ
  pub gzip_code : ℤ
  pub replace : Result (Unit {0})
  pub digest : Result (Unit {0})
  pub stat : Result ℕ

-- A worker ends with an exception if its program failed.
unfoldable pub expect_zero : String → Result Process → Result (Unit {0})
expect_zero what (ok p) =
    if is_zero p.returncode then ok tt else err (runtime_error (what <> " failed: " <> p.stderr))
expect_zero what (err e) = err e

abbrev pub dump_postgres : Outside → Dsn → Result (Unit {0})
dump_postgres o db = expect_zero ("pg_dump " <> db.dbname) (o.pg_dump db)

-- The files that the dumps leave in the staging directory.
unfoldable pub dump_all : Outside → List Dsn → Result (List String)
dump_all o [] = ok []
dump_all o (db ∷ dbs) =
    dump_postgres o db
    >> (dump_all o dbs >>= λ files. ok (("postgres/" <> db.dbname <> ".sql") ∷ files))

abbrev tak_config_files : List String
tak_config_files = "CoreConfig.xml" ∷ "TAKIgniteConfig.xml" ∷ []

unfoldable pub missing_of : List String → List String → List String
missing_of [] present = []
missing_of (name ∷ names) present =
    let rest = missing_of names present in if contains present name then rest else name ∷ rest

-- `", ".join(names)`
unfoldable pub join_comma : List String → String
join_comma [] = ""
join_comma (name ∷ []) = name
join_comma (name ∷ other ∷ names) = name <> ", " <> join_comma (other ∷ names)

abbrev missing_message : List String → String
missing_message missing =
    "tak-config: required file(s) missing from /tak-src: "
    <> join_comma missing
    <> " — TAK Server has not finished first-boot init. Wait for the stack "
    <> "to become healthy before taking a backup."

unfoldable pub tar_config_unless : List String → Result Process → Result (Unit {0})
tar_config_unless [] p = expect_zero "tar tak-config" p
tar_config_unless (name ∷ names) p = err (runtime_error (missing_message (name ∷ names)))

abbrev pub tar_tak_config : Outside → Result (Unit {0})
tar_tak_config o = tar_config_unless (missing_of tak_config_files o.tak_src_files) o.tar_config

-- The files of the staging directory, in the order in which they are written.
unfoldable pub populate_staging : Outside → Manifest → Result (List String)
populate_staging o manifest = do
  _ ← o.write_manifest manifest
  dumps ← dump_all o (database_dsns o.tak_db_password o.fastak_db_password)
  _ ← expect_zero "tar tak-certs" o.tar_certs
  _ ← tar_tak_config o
  _ ← expect_zero "tar nodered-data" o.tar_nodered
  _ ← o.copy_env
  ok (
      "MANIFEST.json"
      ∷ (dumps ++ ("tak-certs.tar" ∷ "tak-config.tar" ∷ "nodered-data.tar" ∷ "env" ∷ [])))

-- The backup directory and the identity file of it.
pub record Disk : Type 0 where
  pub directory : Directory
  pub identity : Option (List Line)

abbrev on_directory : (Directory → Directory) → Disk → Disk
on_directory change d = record { directory = change d.directory; identity = d.identity }

abbrev pub partial : Name → Name
partial name = name ++ codes ".partial"

-- The three programs of the pipeline, once they have ended.
unfoldable pub pipeline : Outside → Line → Result (Unit {0})
pipeline o recipient =
    expect_zero "age" (o.age recipient)
    >> (if not (is_zero o.tar_code)
        then err (runtime_error "tar (staging) failed")
        else if not (is_zero o.gzip_code)
        then err (runtime_error "gzip failed")
        else ok tt)

-- The partial file is there as soon as the programs are.
unfoldable pub stream_encrypted_archive :
    Outside → Name → Line → Result (Unit {0}) → Disk → Disk × Result (Unit {0})
stream_encrypted_archive o out recipient (err e) d = (d, err e)
stream_encrypted_archive o out recipient (ok _) d =
    (on_directory (write_file out o.clock) d, pipeline o recipient)

-- `os.replace`, the checksum file and the archive's size.
unfoldable pub publish_with :
    Outside → Name → Result (Unit {0}) → Result (Unit {0}) → Disk → Disk × Result ℕ
publish_with o name (err e) digest d = (d, err e)
publish_with o name (ok _) (err e) d = (
  on_directory (λ (files : Directory). write_file name o.clock (unlink (partial name) files)) d,
  err e,
)
publish_with o name (ok _) (ok _) d = (
  on_directory
      (λ (files : Directory).
        write_file (sidecar name) o.clock (write_file name o.clock (unlink (partial name) files)))
      d,
  o.stat,
)

unfoldable pub publish : Outside → Name → Disk × Result (Unit {0}) → Disk × Result ℕ
publish o name (d, err e) = (d, err e)
publish o name (d, ok _) = publish_with o name o.replace o.digest d

unfoldable pub archive_staged :
    Outside → Name → Line → Result (List String) → Disk → Disk × Result ℕ
archive_staged o name recipient (err e) d = (d, err e)
archive_staged o name recipient (ok _) d =
    publish o name (stream_encrypted_archive o (partial name) recipient o.spawn d)

abbrev pub manifest_of : Outside → Manifest
manifest_of o =
    build_manifest o.version o.commit o.started_at o.hostname
      (collect_postgres_versions o.query (database_dsns o.tak_db_password o.fastak_db_password))

unfoldable pub archive_for : Outside → Name → Result (Line × Line) → Disk → Disk × Result ℕ
archive_for o name (err e) d = (d, err e)
archive_for o name (ok (identity, recipient)) d =
    archive_staged o name recipient (populate_staging o (manifest_of o)) d

-- From `load_or_create` to the archive's size.
unfoldable pub make_archive : Outside → Name → Disk → Disk × Result ℕ
make_archive o name d =
    let (identity, keys) = load_or_create o.identity_path o.keygen d.identity in
    archive_for o name keys (record { directory = d.directory; identity = identity })
