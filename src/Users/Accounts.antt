-- ===== src/Users/Accounts.antt =====
-- users.rs: what a new account and its first login have to do with each other.
use my_template.Prelude.{
  suc, ◌≤◌, String, ◌≡◌, ◌≢◌, ltb, length, refl, true, Option, none, some, List, [], ◌∷◌, ◌++◌,
  arith, eq_iff, trim,
}
use my_template.Core.{ok}
use my_template.Storage.Ensures.{Ensures, Ensures-raise, Ensures-query, Post}
use my_template.Storage.{◌>>=◌, statement, query, pure, lift}
use my_template.Users.Role.{Role, as_str, from_str, from_str-as_str}
use my_template.Users.Input.{validate_username, validate_password_len}
use my_template.Users.Table.{
  UsersTable, UserRow, find_name, by_username, insert_user, count_users, new_row,
}
use my_template.Users.Service.{
  Argon2, hashed, UserIdentity, setup_first_user, create_user, verify, verify_row, hash_password,
  verify_password, is_initialized,
}

find_name-snoc :
    (name : String) (rows : List UserRow) (r : UserRow)
    → find_name name rows ≡ none
    → r.username ≡ name
    → find_name name (rows ++ r ∷ []) ≡ some r
unfolding find_name
find_name-snoc name [] r h e = ground (arith, eq_iff r.username name)
find_name-snoc name (x ∷ rows) r h e = ground (arith, find_name-snoc name rows r)

module _ (salt now username password display_name name hash : String) (role : Role) (t : UsersTable)
    (free : by_username name t ≡ none) where
  abbrev inserted : UsersTable
  inserted = record {
    rows = t.rows ++ new_row t.next_id name hash (trim display_name) (as_str role) now ∷ [];
    next_id = suc t.next_id;
  }

  abbrev created_user : UserIdentity
  created_user = record {
    id = t.next_id;
    username = name;
    display_name = trim display_name;
    role = role;
  }

  inserts : insert_user name hash (trim display_name) (as_str role) now t ≡ (ok t.next_id, inserted)
  unfolding insert_user
  inserts = rw (free, insert_user) refl

  creates :
      (argon : Argon2)
      → validate_username username ≡ ok name
      → validate_password_len password "password" ≡ ok tt
      → argon.hash salt password ≡ hashed hash
      → create_user argon salt now username password display_name role
          (record { tables = t; faults = [] })
        ≡ (ok created_user, record { tables = inserted; faults = [] })
  unfolding create_user hash_password statement query lift pure ◌>>=◌
  creates argon named long made = rw (named, long, free, made, inserts) refl

  finds :
      find_name name inserted.rows
      ≡ some (new_row t.next_id name hash (trim display_name) (as_str role) now)
  unfolding by_username
  finds =
      find_name-snoc name t.rows (new_row t.next_id name hash (trim display_name) (as_str role) now)
        free refl

  from_str-role : from_str (as_str role) ≡ ok role
  from_str-role = (from_str-as_str (as_str role) role).1 refl

  logs_in :
      (argon : Argon2)
      → argon.check password hash ≡ true
      → verify argon name password (record { tables = inserted; faults = [] })
        ≡ (ok (some created_user), record { tables = inserted; faults = [] })
  unfolding verify verify_row verify_password by_username statement query lift pure ◌>>=◌
  logs_in argon accepted = rw (finds, accepted, from_str-role) refl

-- With a user name and a password that pass their checks, a name that is not taken, a hash of the
-- password, which argon2 then accepts for it, and no failing statement: `create_user` succeeds, and
-- `verify` with that name and password answers with the very identity that `create_user` returned.
pub create_user-verify :
    (argon : Argon2) (salt now username password display_name name hash : String) (role : Role)
    (t : UsersTable)
    → validate_username username ≡ ok name
    → validate_password_len password "password" ≡ ok tt
    → by_username name t ≡ none
    → argon.hash salt password ≡ hashed hash
    → argon.check password hash ≡ true
    → let (created, db) =
        create_user argon salt now username password display_name role
          (record { tables = t; faults = [] }) in
      (user : UserIdentity) × (created ≡ ok user)
      × ((verify argon name password db).0 ≡ ok (some user))
create_user-verify argon salt now username password display_name name hash role t named long free
      made accepted =
    rw
      (
        creates salt now username password display_name name hash role t free argon named long made,
        logs_in salt now username password display_name name hash role t free argon accepted,
      )
      (created_user salt now username password display_name name hash role t free, refl, refl)

-- Where there is an account already, set-up is refused and leaves the table as it is, whichever statements
-- fail.
pub setup_first_user-refused :
    (argon : Argon2) (salt now username password display_name : String) (t : UsersTable)
    (faults : List (Option String))
    → 1 ≤ length t.rows
    → let (result, db) =
        setup_first_user argon salt now username password display_name
          (record { tables = t; faults = faults }) in
      (db.tables ≡ t) × ((user : UserIdentity) → result ≢ ok user)
unfolding setup_first_user is_initialized count_users
setup_first_user-refused argon salt now username password display_name t faults occupied =
    refused.from faults
  where
    initialized : ltb 0 (count_users t) ≡ true
    initialized = ground arith

    Refusal : Post UsersTable UserIdentity
    Refusal r t' = (t' ≡ t) × ((user : UserIdentity) → r ≢ ok user)

    refused : Ensures t (setup_first_user argon salt now username password display_name) Refusal
    refused =
        Ensures-query (λ t. ltb 0 (count_users t)) _ (λ text. (refl, λ user. cc))
          (rw initialized (Ensures-raise _ (refl, λ user. cc)))
