-- ===== src/Users.antt =====
-- Users (monitor/app/api/users and `_check_user_expiry` of monitor/app/scheduler.py): the attributes
-- kept in LLDAP, the queries and updates of the identity client, and the expiry of users.
pub mod Attributes
pub mod Expiry
pub mod Router
pub mod Revocation
mod Tests
pub mod Groups
pub mod Update
pub mod Retries
pub mod Directory
pub mod Listing
pub mod GroupList
