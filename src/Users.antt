-- ===== src/Users.antt =====
-- apps/admin-template/core/src/users.rs: the accounts. Argon2 is the library's, so its functions are a
-- parameter; so are the salt and the time of each call. A row id is a natural number, as SQLite's
-- AUTOINCREMENT gives them: a negative id of a request is on no row, as is any unused one.
pub mod Role
pub mod Input
pub mod Table
pub mod Service
pub mod Valid
pub mod Safety
pub mod Accounts
pub mod Overlap
mod Tests
