-- ===== src/Backup.antt =====
-- apps/admin-template/core/src/backup.rs: backups of the database file, and its restore at the next start.
pub mod Names
pub mod Validate
pub mod Service
pub mod Startup
pub mod Listing
mod Tests
