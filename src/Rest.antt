-- ===== src/Rest.antt =====
-- apps/admin-template/core/src/rest: the routes, on one world that all services share.
pub mod World
pub mod Env
pub mod Json
pub mod Audited
pub mod Guard
pub mod Headers
pub mod Items
pub mod Users
pub mod Files
pub mod Account
pub mod Routes
pub mod Denied
pub mod Ensures
pub mod Recorded
pub mod Session
pub mod Privileges
pub mod Floor
pub mod Login
mod Tests
