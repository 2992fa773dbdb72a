-- ===== src/Backup.antt =====
-- Backups (monitor/app/backup and monitor/app/api/backup): archive names, retention, the state
-- file, the run and the HTTP routes.
pub mod Names
pub mod Directory
pub mod Retention
pub mod State
pub mod Keys
pub mod Manifest
pub mod Archive
pub mod Runner
pub mod Routes
mod Tests
