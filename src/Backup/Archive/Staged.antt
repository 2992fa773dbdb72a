-- ===== src/Backup/Archive/Staged.antt =====
-- What a populated staging directory holds, and what the programs that filled it returned.
use fast_tak.Base.{String, ◌<>◌, ◌≡◌, refl, List, [], ◌∷◌, arith, All, true}
use fast_tak.Base.Int.{is_zero}
use fast_tak.Base.Result.{Result, ok, err, >>=-eq-ok}
use fast_tak.Backup.Manifest.{Dsn, database_dsns, Manifest, components}
use fast_tak.Backup.Archive.{
  Outside, Process, expect_zero, dump_postgres, dump_all, missing_of, tar_config_unless,
  tar_tak_config, populate_staging,
}

-- The program ended, with code 0.
abbrev pub IsClean : Result Process → Type 0
IsClean p = (q : Process) × (p ≡ ok q) × (is_zero q.returncode ≡ true)

pub expect_zero-IsClean :
    (what : String) (p : Result Process) → expect_zero what p ≡ ok tt → IsClean p
unfolding expect_zero
expect_zero-IsClean what (ok q) h = (q, refl, ground arith)
expect_zero-IsClean what (err e) h = cc

abbrev sql_file : Dsn → String
sql_file db = "postgres/" <> db.dbname <> ".sql"

abbrev map_sql : List Dsn → List String
map_sql [] = []
map_sql (db ∷ dbs) = sql_file db ∷ map_sql dbs

dump_all-ok :
    (o : Outside) (dbs : List Dsn) (files : List String)
    → dump_all o dbs ≡ ok files
    → (files ≡ map_sql dbs) × All (λ db. IsClean (o.pg_dump db)) dbs
unfolding dump_all
dump_all-ok o [] files h = (ground arith, tt)
dump_all-ok o (db ∷ dbs) files h =
    let (tt, clean, rest) = >>=-eq-ok (dump_postgres o db) _ h in
    let (others, dumped, whole) = >>=-eq-ok (dump_all o dbs) _ rest in
    let (named, all) = dump_all-ok o dbs others dumped in
    (
      ground (arith, whole, named),
      (expect_zero-IsClean ("pg_dump " <> db.dbname) (o.pg_dump db) clean, all),
    )

-- What a populated staging directory took: every program ended with code 0, and none of the required
-- files of TAK was missing.
pub record IsCollected (o : Outside) (manifest : Manifest) : Type 0 where
  pub has_manifest : o.write_manifest manifest ≡ ok tt
  pub dumped :
      All (λ db. IsClean (o.pg_dump db)) (database_dsns o.tak_db_password o.fastak_db_password)
  pub has_certs : IsClean o.tar_certs
  pub has_config_files :
      missing_of ("CoreConfig.xml" ∷ "TAKIgniteConfig.xml" ∷ []) o.tak_src_files ≡ []
  pub has_config : IsClean o.tar_config
  pub has_nodered : IsClean o.tar_nodered
  pub has_env : o.copy_env ≡ ok tt

tar_config_unless-ok :
    (missing : List String) (p : Result Process)
    → tar_config_unless missing p ≡ ok tt
    → (missing ≡ []) × IsClean p
unfolding tar_config_unless
tar_config_unless-ok [] p h = (refl, expect_zero-IsClean "tar tak-config" p h)
tar_config_unless-ok (name ∷ names) p h = cc

-- A staging directory that is populated without an exception holds the manifest and exactly the files that
-- every manifest lists as its components, in their order; and all that these files came from went well.
pub populate_staging-ok :
    (o : Outside) (manifest : Manifest) (files : List String)
    → populate_staging o manifest ≡ ok files
    → (files ≡ "MANIFEST.json" ∷ components) × IsCollected o manifest
unfolding populate_staging
populate_staging-ok o manifest files h =
    let (tt, wrote, h1) = >>=-eq-ok (o.write_manifest manifest) _ h in
    let (dumps, dumped, h2) =
      >>=-eq-ok (dump_all o (database_dsns o.tak_db_password o.fastak_db_password)) _ h1 in
    let (tt, certs, h3) = >>=-eq-ok (expect_zero "tar tak-certs" o.tar_certs) _ h2 in
    let (tt, config, h4) = >>=-eq-ok (tar_tak_config o) _ h3 in
    let (tt, nodered, h5) = >>=-eq-ok (expect_zero "tar nodered-data" o.tar_nodered) _ h4 in
    let (tt, env, h6) = >>=-eq-ok o.copy_env _ h5 in
    let (named, clean) =
      dump_all-ok o (database_dsns o.tak_db_password o.fastak_db_password) dumps dumped in
    let (present, tarred) =
      tar_config_unless-ok (missing_of _ o.tak_src_files) o.tar_config config in
    (
      ground (arith, h6, named),
      record {
        has_manifest = wrote;
        dumped = clean;
        has_certs = expect_zero-IsClean "tar tak-certs" o.tar_certs certs;
        has_config_files = present;
        has_config = tarred;
        has_nodered = expect_zero-IsClean "tar nodered-data" o.tar_nodered nodered;
        has_env = env;
      },
    )
