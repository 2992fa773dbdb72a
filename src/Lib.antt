-- ===== src/Lib.antt =====
-- A model of the monitor of FastTAK (monitor/app), the service that watches a TAK Server, alerts its
-- operators, backs it up and manages its users.
--
-- Health (Health.antt and Health/) models monitor/app/status.py, evaluator.py, store.py,
-- api/alerts/engine.py, `_poll` of scheduler.py and `health_summary` of api/health/router.py. A probe's data is
-- evaluated against thresholds (Health/Evaluator); a poll (Health/Poll) passes the verdict on to the
-- store (Health/Store) and to the alert engine (Health/Alerts), whose locked part is one step on its state.
--
-- Backup (Backup.antt and Backup/) models monitor/app/backup and api/backup/router.py: archive names
-- (Backup/Names), the directory (Backup/Directory), retention (Backup/Retention), the state file
-- (Backup/State), the key (Backup/Keys), the manifest (Backup/Manifest), the workers that make an archive
-- (Backup/Archive), `run` itself (Backup/Runner) and the routes and exit codes (Backup/Routes). What programs,
-- databases and the file system do during a run is a record of outcomes, `Outside`, so that a theorem about
-- `run` speaks of every combination of them. The state file's three writes have outcomes of their own, and so have
-- the pruning, which an OSError can stop at any file, and the removal of the partial file and the staging directory.
--
-- Users (Users.antt and Users/) models the expiry of users in scheduler.py, the attributes that
-- api/users/identity.py keeps in LLDAP (Users/Attributes, Users/Groups), the routes of api/users/router.py (Users/Router) and the
-- revocation of certificates in api/users/tak_server.py and api/service_accounts/cert_gen.py
-- (Users/Revocation). The handlers give the calls that they make, in order, with the reply. Users/Update models
-- update_user and the attributes of create_user, Users/Directory the map of numeric ids and the lookup of a user,
-- Users/GroupList the groups as LLDAP has them, Users/Retries the loops around the requests to LLDAP, and
-- Users/Listing the pages of the list and the merged list of a user's certificates.
--
-- Certs (Certs.antt) models the tools of api/service_accounts/cert_gen.py by the commands that they run in the
-- container of TAK Server, and Accounts (Accounts.antt) the routes of api/service_accounts/router.py, which call
-- them together with LLDAP and TAK Server. Events (Events.antt) models the query builder and the routes of
-- api/events/router.py, and Tak (Tak.antt) the lists of api/tak/router.py with api/tak/positions.py.
-- Config (Config.antt) models the overrides of thresholds.yml in monitoring_config.py, which the poll and the
-- evaluator get their thresholds from.
--
-- Audit (Audit.antt) models the redaction of request bodies and the audit middleware of audit.py, and Access
-- (Access.antt) the groups of a request, from audit.py, with the check of api/auth_deps.py.
--
-- Base holds what they share: dictionaries, raised exceptions as values (Base/Result), Python's numbers,
-- which are ints and floats alike, as an interface (Base/Python) with a concrete one for the tests
-- (Base/Unary), and texts as lists of code points where patterns read them (Base/Text). Code outside the
-- repository is a parameter: the numbers, the case folding of Unicode, the parsing of an integer, the
-- SHA-256 digests of names, and the answers of LLDAP, TAK Server, Docker and the programs that are started. LLDAP is taken to
-- keep, for each attribute that it is sent, the values that it is sent.
--
-- No definition uses fuel: every loop runs over a list, or over the attempts that are left to a request, of which
-- the source has a fixed number. Times are natural numbers in seconds; the order of
-- the times in archive names is that of their digits.
--
-- Not modelled: rendering, what the database makes of SQL, HTTP itself, Docker, e-mail and SMS, the probes, the
-- settings of config.py and the dashboard. An audit event is
-- what the code hands to `record_event`, which swallows a failure of its database.
pub mod Base
pub mod Health
pub mod Backup
pub mod Users
pub mod Audit
pub mod Access
pub mod Certs
pub mod Accounts
pub mod Events
pub mod Tak
pub mod Config
