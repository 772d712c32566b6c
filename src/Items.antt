-- ===== src/Items.antt =====
-- apps/admin-template/core/src/items.rs: the items.
pub mod Input
pub mod Service
pub mod Import
pub mod Valid
pub mod Safety
pub mod Serve
mod Tests
