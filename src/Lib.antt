-- ===== src/Lib.antt =====
-- Banto: the Rust core of the admin template, modelled and verified.
--
-- The program serves one admin application twice, as a desktop window and over HTTP: the services of
-- apps/admin-template/core own the data in SQLite, and crates/banto-server puts sessions, a login
-- throttle and guards in front of them. The modules:
--
-- Prelude: the names that all modules share: Boolean tests and their cases, texts as lists of
-- characters, lists with native lengths, maps as functions, `i64`, the decimal texts of numbers, and
-- texts joined by a separator.
-- Core: crates/banto-core/src/error.rs (`BantoError`, `ErrorBody`), the HTTP status of an error
-- (crates/banto-server/src/response.rs, `status_for`), and in Core/Params the parameters of a list
-- request (params.rs).
-- Storage: crates/banto-storage/src/error.rs, and what the services use of sqlx. A service method is
-- a function on a pool: tables, and a list of faults that says which statements fail. A statement
-- runs whole or fails and changes nothing; what was written before an error stays written.
-- Storage/Ensures has a rule for each way to build a method, by which a claim is proved for every
-- list of faults at once; Storage/Spending says that a method consults the faults in turn.
-- Storage/ListQuery is list_query.rs: the pieces of SQL and the bound values of a list request.
-- Auth: crates/banto-server/src/auth.rs, `AuthState`. Its mutex-guarded maps are one record that each
-- operation takes and returns; the clock (a number of time units) and the fresh uuid of a token are
-- arguments. Auth/Tokens has the tokens, Auth/Throttle the counters, Auth/Login one attempt to log
-- in, with the verifier as a parameter that has a world of its own. Auth/Sessions and its children
-- run events in any order, Auth/Lockouts and its children attempts to log in.
-- Http: the guards `require_auth` and crates/banto-server/src/csrf.rs, and the handlers of auth.rs,
-- in front of any next handler.
-- Users: apps/admin-template/core/src/users.rs. Users/Role has `Role`, Users/Input the checks of names
-- and passwords, Users/Table the table with its statements (migrations 0003 and 0004), Users/Service
-- `UsersService`. Users/Valid says what a well-formed table is, Users/Safety that every call keeps
-- it, Users/Accounts how a new account and its login fit together. The argon2 crate is a parameter,
-- a hash and a check; the salt and the database's clock are arguments.
-- Settings: apps/admin-template/core/src/settings.rs. Settings/Values has the records and the texts
-- that stand for their values, Settings/Service `SettingsService` over a map of texts.
--
-- Storage/Rows has tables whose rows carry an id, Storage/Transaction a body between begin and commit,
-- any of whose statements can fail.
-- Events: crates/banto-server/src/events.rs, what is sent to the browsers.
-- Items: apps/admin-template/core/src/items.rs. Items/Input has the checks, Items/Service the calls,
-- which send an event when they have changed the table, Items/Import the import of many rows.
-- Audit: apps/admin-template/core/src/audit.rs. Audit/Service appends, lists and prunes entries.
-- Dates: the conversion of days and seconds since the epoch in apps/admin-template/core/src/db.rs,
-- backup.rs and crates/banto-attachments/src/lib.rs.
-- Disk: the files, whose operations can fail one by one, a copy or a write leaving a part of the bytes;
-- Disk/Ensures a rule for each way to build a sequence of them. Backup and Attachments work on them.
-- Backup: apps/admin-template/core/src/backup.rs. Backup/Names has the paths and names,
-- Backup/Validate the check of a file, Backup/Service the calls of `BackupService`, Backup/Startup the
-- restore when the program starts, Backup/Listing the list of the backups. What SQLite does with a file
-- (the check, the snapshot of VACUUM INTO, the checkpoint) is a parameter.
-- Attachments: crates/banto-attachments/src/lib.rs. The state is the table and the files. Attachments/Input
-- has the checks, Attachments/Image the type, the digest and the thumbnail, Attachments/Files the
-- writing of the files, Attachments/Service `AttachmentsService`, in which each statement and each
-- operation on a file can fail. Attachments/Valid says what a well-formed store is; Upload, Delete, Record,
-- Reads and Serve follow the calls where every statement runs, by the rules of Storage/Flawless and
-- Attachments/Flawless: a statement that fails between two steps may leave a row without its body.
-- Attachments/Paths says which paths differ, Attachments/Ensures follows the reads
-- whichever statements fail. The crates image and sha2 are a parameter.
-- Rest: apps/admin-template/core/src/rest. Rest/World has what all handlers share, the sessions, the tables
-- and the files, and `zoom`, which runs the method of one service on its part. Rest/Env has what comes
-- from outside: the clocks, the crates, the server's settings. Rest/Guard is `require_role_at_least`,
-- Rest/Audited the records of the log, Rest/Items, Rest/Users, Rest/Files and Rest/Account the handlers,
-- Rest/Headers the header of a download, Rest/Routes `api_router`. Rest/Floor, Rest/Privileges,
-- Rest/Recorded and Rest/Login are about whole requests, by the lemmas of Rest/Session, Rest/Denied and
-- Rest/Ensures; Rest/Recorded follows the routes that write, with which of the faults are left for the
-- record. The path that a denial records is built from the decoded name, where the source has the path as
-- it was sent. Http/Answers has the bodies of the answers.
--
-- Times, ids and counters are natural numbers: they are far from the bounds of their machine types.
-- An `i64` that is read from a text, a port, and the number that is tried in the name of a backup keep
-- their bounds. Two definitions run on fuel. The digits of a number have the number itself, which is
-- enough as each step divides it by ten. The search for a free name of a backup has the number of the
-- files, since each step that goes on has found another file.
--
-- The methods of one service run one after another here: between two statements of a method no other
-- method runs, and one attempt to log in ends before the next begins. There is one exception. In
-- Users/Overlap the updates and deletions of accounts overlap, each a sequence of statements
-- (Storage/Overlap) that others may run between; Users/Overlap/Same and Users/Overlap/Apart are about
-- calls on one account and on two, by the rule of Storage/Overlap/Guarantee.
--
-- Not modelled: the seeding, whose generator of sample items uses floating-point numbers; the desktop
-- commands, which call the same services without HTTP; how axum finds the route of a path and reads a
-- request, the limits of its bodies included; the event stream, the static files, the security headers
-- and the start of the server, which are axum and tokio at work; the TypeScript frontend, scripts and
-- tests.
pub mod Prelude
pub mod Core
pub mod Dates
pub mod Storage
pub mod Disk
pub mod Auth
pub mod Http
pub mod Users
pub mod Settings
pub mod Events
pub mod Items
pub mod Audit
pub mod Backup
pub mod Attachments
pub mod Rest
