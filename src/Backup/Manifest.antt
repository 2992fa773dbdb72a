-- ===== src/Backup/Manifest.antt =====
-- The manifest of a backup (monitor/app/backup/manifest.py) and the databases it lists
-- (`_database_dsns` of monitor/app/backup/runner.py).
use fast_tak.Base.{
  ℕ, String, ◌<>◌, ◌≡◌, refl, Bool, true, false, some, List, [], ◌∷◌, arith, In, here, there, ◌==◌,
  string_eq, if◌then◌else◌,
}
use fast_tak.Base.Dict.{Dict, lookup, insert, lookup-insert}
use fast_tak.Backup.Names.{Name, Stamp}

pub record Dsn : Type 0 where
  pub dbname : String
  pub host : String
  pub user : String
  pub password : String
  pub port : ℕ

abbrev pub database_dsns : String → String → List Dsn
database_dsns tak_db_password fastak_db_password =
    record {
      dbname = "cot";
      host = "tak-database";
      user = "martiuser";
      password = tak_db_password;
      port = 5432;
    }
    ∷ record {
      dbname = "lldap";
      host = "app-db";
      user = "fastak";
      password = fastak_db_password;
      port = 5432;
    }
    ∷ record {
      dbname = "nodered";
      host = "app-db";
      user = "fastak";
      password = fastak_db_password;
      port = 5432;
    }
    ∷ record {
      dbname = "fastak";
      host = "app-db";
      user = "fastak";
      password = fastak_db_password;
      port = 5432;
    }
    ∷ []

abbrev pub components : List String
components =
    "postgres/cot.sql" ∷ "postgres/lldap.sql" ∷ "postgres/nodered.sql" ∷ "postgres/fastak.sql"
    ∷ "tak-certs.tar" ∷ "tak-config.tar" ∷ "nodered-data.tar" ∷ "env" ∷ []

pub record Manifest : Type 0 where
  pub schema_version : ℕ
  pub fasttak_version : Name
  pub git_commit : String
  pub created_at : Stamp
  pub producer_hostname : String
  pub postgres_versions : Dict String String
  pub manifest_components : List String

-- `build`, with the two values of the environment that it reads.
abbrev pub build_manifest : Name → String → Stamp → String → Dict String String → Manifest
build_manifest version commit created_at hostname versions = record {
  schema_version = 1;
  fasttak_version = version;
  git_commit = commit;
  created_at = created_at;
  producer_hostname = hostname;
  postgres_versions = versions;
  manifest_components = components;
}

-- A query for a server's version gives a text, or raises an exception of the named class.
pub data Answer : Type 0 where
  answered : String → Answer
  failed_with : String → Answer

abbrev pub version_text : Answer → String
version_text (answered version) = version
version_text (failed_with class) = "unknown (" <> class <> ")"

collect_from : (Dsn → Answer) → List Dsn → Dict String String → Dict String String
collect_from query [] versions = versions
collect_from query (db ∷ dbs) versions =
    collect_from query dbs (insert db.dbname (version_text (query db)) versions)

-- It never raises.
unfoldable pub collect_postgres_versions : (Dsn → Answer) → List Dsn → Dict String String
unfolding collect_from
collect_postgres_versions query dbs = collect_from query dbs []

abbrev is_named : String → List Dsn → Bool
is_named name [] = false
is_named name (db ∷ dbs) = if name == db.dbname then true else is_named name dbs

collect_from-other :
    (query : Dsn → Answer) (name : String) (dbs : List Dsn) (versions : Dict String String)
    → is_named name dbs ≡ false
    → lookup name (collect_from query dbs versions) ≡ lookup name versions
unfolding collect_from
collect_from-other query name [] versions h = refl
collect_from-other query name (db ∷ dbs) versions h = ground (
  arith,
  collect_from-other query name dbs (insert db.dbname (version_text (query db)) versions),
  lookup-insert name db.dbname (version_text (query db)) versions,
)

-- No two databases have one name.
abbrev pub HasDistinctNames : List Dsn → Type 0
HasDistinctNames [] = Unit
HasDistinctNames (db ∷ dbs) = (is_named db.dbname dbs ≡ false) × HasDistinctNames dbs

collect_from-In :
    (query : Dsn → Answer) (db : Dsn) (dbs : List Dsn) (versions : Dict String String)
    → HasDistinctNames dbs
    → In db dbs
    → lookup db.dbname (collect_from query dbs versions) ≡ some (version_text (query db))
unfolding collect_from
collect_from-In query db [] versions distinct i = elim i [ ]
collect_from-In query db (a ∷ dbs) versions (own, others) (here e) = ground (
  arith,
  e,
  collect_from-other query db.dbname dbs (insert a.dbname (version_text (query a)) versions),
  lookup-insert db.dbname a.dbname (version_text (query a)) versions,
)
collect_from-In query db (a ∷ dbs) versions (own, others) (there i) =
    collect_from-In query db dbs (insert a.dbname (version_text (query a)) versions) others i

-- Where no two databases have one name, every one of them gets an entry: the answer to the query, or
-- the class of the exception that it raised.
pub collect_postgres_versions-In :
    (query : Dsn → Answer) (db : Dsn) (dbs : List Dsn)
    → HasDistinctNames dbs
    → In db dbs
    → lookup db.dbname (collect_postgres_versions query dbs) ≡ some (version_text (query db))
unfolding collect_postgres_versions
collect_postgres_versions-In query db dbs distinct i = collect_from-In query db dbs [] distinct i
