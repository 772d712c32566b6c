-- ===== src/Storage.antt =====
-- The SQLite pool of the services (sqlx; crates/banto-storage/src/error.rs): a statement runs on the
-- tables, or fails and changes nothing. Which statements fail is an input, a list that each statement
-- consults in turn; past its end all succeed. A statement may also fail on the tables themselves, by a
-- constraint.
pub mod Ensures
pub mod Flawless
pub mod Spending
pub mod Overlap
pub mod ListQuery
pub mod Rows
pub mod Transaction
mod Tests
use my_template.Prelude.{String, Bool, Option, none, some, List, [], ◌∷◌, if◌then◌else◌}
use my_template.Core.{BantoError, storage, not_found, Result, ok, err}

-- `sqlx::Error`, as far as the program tells its cases apart; the text is its `Display`.
pub data SqlError : Type 0 where
  row_not_found : SqlError
  failed : String → SqlError

-- `row_not_found` has a text too, which only `storage_error` shows.
abbrev message_of : SqlError → String
message_of row_not_found = "no rows returned by a query that expected to return at least one row"
message_of (failed text) = text

unfoldable pub storage_error : SqlError → BantoError
storage_error e = storage (message_of e)

unfoldable pub not_found_error : SqlError → String → String → BantoError
unfolding storage_error
not_found_error row_not_found resource id = not_found resource id
not_found_error (failed text) resource id = storage_error (failed text)

pub record Pool (T : Type 0) : Type 0 where
  pub tables : T
  pub faults : List (Option String)

-- A service method: what was written before an error stays written.
abbrev pub Exec : Type 0 → Type 0 → Type 0
Exec T A = Pool T → Result A × Pool T

-- What a statement does to the tables.
abbrev pub Sql : Type 0 → Type 0 → Type 0
Sql T A = T → Result A × T

module _ {T : Type 0} where
  unfoldable pub answer : {A : Type 0} → List (Option String) → Sql T A → Exec T A
  answer [] run db = let (r, tables) = run db.tables in (r, record db { tables = tables })
  answer (none ∷ rest) run db =
      let (r, tables) = run db.tables in (r, record { tables = tables; faults = rest })
  answer (some text ∷ rest) run db = (err (storage text), record db { faults = rest })

  unfoldable pub statement : {A : Type 0} → Sql T A → Exec T A
  unfolding answer
  statement run db = answer db.faults run db

  -- A `SELECT` changes nothing.
  unfoldable pub query : {A : Type 0} → (T → A) → Exec T A
  unfolding statement
  query read = statement (λ t. (ok (read t), t))

  -- What happens outside the database, which no statement's failure touches.
  unfoldable pub effect : (T → T) → Exec T (Unit {0})
  effect change db = (ok tt, record db { tables = change db.tables })

  unfoldable pub pure : {A : Type 0} → A → Exec T A
  pure a db = (ok a, db)

  unfoldable pub raise : {A : Type 0} → BantoError → Exec T A
  raise e db = (err e, db)

  unfoldable pub lift : {A : Type 0} → Result A → Exec T A
  lift r db = (r, db)

module _ {T X Y : Type 0} where
  unfoldable pub resume : (X → Exec T Y) → Result X × Pool T → Result Y × Pool T
  resume next (err problem, db) = (err problem, db)
  resume next (ok value, db) = next value db

  infixl 10 ◌>>=◌
  unfoldable pub ◌>>=◌ : Exec T X → (X → Exec T Y) → Exec T Y
  unfolding resume
  ◌>>=◌ m next db = resume next (m db)

infixl 10 ◌>>◌
abbrev pub ◌>>◌ : {T Y : Type 0} → Exec T (Unit {0}) → Exec T Y → Exec T Y
first >> next = first >>= λ done. next
