-- ===== src/Audit.antt =====
-- apps/admin-template/core/src/audit.rs: the audit log.
pub mod Service
pub mod Retention
pub mod Log
mod Tests
