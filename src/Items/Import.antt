-- ===== src/Items/Import.antt =====
-- items.rs, `ItemsService::import`.
pub mod Atomic
use my_template.Prelude.{
  ℕ, suc, ◌+◌, String, ◌<>◌, Bool, true, false, Option, none, some, List, [], ◌∷◌, ◌++◌, ℤ, trim,
  length, ltb, ◌==◌, if◌then◌else◌, to_string,
}
use my_template.Core.{
  FieldError, BantoError, Result, ok, err, not_found, validation, unauthorized, forbidden, storage,
  other,
}
use my_template.Storage.{Exec, Sql, statement, pure, raise, ◌>>=◌, ◌>>◌}
use my_template.Storage.Rows.{find_row, change_row, affected}
use my_template.Storage.Transaction.{Verdict, commit, rollback, transaction}
use my_template.Items.Input.{ItemInput, validate_item_input}
use my_template.Items.Service.{Item, Store, Items, item_id, set_fields, insert_item, notify_changed}

pub record ItemImportRow : Type 0 where
  pub id : Option ℕ
  pub name : String
  pub price : ℤ
  pub stock : ℤ

pub record ImportRowError : Type 0 where
  pub row : ℕ
  pub message : String

pub record ImportResult : Type 0 where
  pub created : ℕ
  pub updated : ℕ
  pub errors : List ImportRowError

abbrev pub max_import_rows : ℕ
max_import_rows = 10000

-- `join("; ")` of the errors' texts
unfoldable pub format_field_errors : List FieldError → String
format_field_errors [] = ""
format_field_errors (e ∷ []) = e.field <> ": " <> e.message
format_field_errors (e ∷ f ∷ errors) =
    e.field <> ": " <> e.message <> "; " <> format_field_errors (f ∷ errors)

abbrev pub input_of : ItemImportRow → ItemInput
input_of row = record { name = row.name; price = row.price; stock = row.stock }

unfoldable pub row_error : ℕ → Result (Unit {0}) → List ImportRowError
unfolding format_field_errors
row_error i (ok done) = []
row_error i (err (validation errors)) =
    record { row = i; message = format_field_errors errors } ∷ []
row_error i (err (not_found _ _)) = []
row_error i (err unauthorized) = []
row_error i (err forbidden) = []
row_error i (err (storage _)) = []
row_error i (err (other _)) = []

-- The check of all rows in front of the transaction.
unfoldable pub row_errors : ℕ → List ItemImportRow → List ImportRowError
unfolding row_error
row_errors i [] = []
row_errors i (row ∷ rows) =
    row_error i (validate_item_input (input_of row)) ++ row_errors (suc i) rows

-- `UPDATE items SET … WHERE id = ?`: the rows affected.
unfoldable pub update_counting : ℕ → String → ℤ → ℤ → String → Sql Store ℕ
unfolding find_row change_row
update_counting id name price stock now t = (
  ok (affected (find_row item_id id t.items.rows)),
  record t {
    items = record t.items {
      rows = change_row item_id id (set_fields name price stock now) t.items.rows;
    };
  },
)

abbrev pub add_error : ℕ → ℕ → ImportResult → ImportResult
add_error i id tally = record tally {
  errors =
      tally.errors ++ record { row = i; message = "id " <> to_string id <> " の商品が見つかりません" } ∷ [];
}

unfoldable pub import_row :
    String → ℕ → ItemImportRow → Option ℕ → ImportResult → Items ImportResult
import_row now i row (some id) tally = do
  rows_affected ← statement (update_counting id (trim row.name) row.price row.stock now)
  pure (
      if rows_affected == 0
      then add_error i id tally
      else record tally { updated = suc tally.updated })
import_row now i row none tally = do
  inserted ← statement (insert_item (trim row.name) row.price row.stock now)
  pure (record tally { created = suc tally.created })

unfoldable pub import_rows : String → ℕ → List ItemImportRow → ImportResult → Items ImportResult
unfolding import_row
import_rows now i [] tally = pure tally
import_rows now i (row ∷ rows) tally =
    import_row now i row row.id tally >>= import_rows now (suc i) rows

abbrev pub no_rows : ImportResult
no_rows = record { created = 0; updated = 0; errors = [] }

abbrev pub refused : List ImportRowError → ImportResult
refused errors = record { created = 0; updated = 0; errors = errors }

unfoldable pub verdict : List ImportRowError → ImportResult → Verdict ImportResult
verdict [] tally = commit tally
verdict (e ∷ errors) tally = rollback (refused (e ∷ errors))

unfoldable pub announce : Bool → List ImportRowError → Items (Unit {0})
announce listening [] = notify_changed listening
announce listening (e ∷ errors) = pure tt

module _ (listening : Bool) (now : String) where
  unfoldable pub import_valid : List ItemImportRow → List ImportRowError → Items ImportResult
  unfolding import_rows verdict announce
  import_valid rows (e ∷ errors) = pure (refused (e ∷ errors))
  import_valid rows [] = do
    result ←
        transaction (do tally ← import_rows now 0 rows no_rows; pure (verdict tally.errors tally))
    announce listening result.errors
    pure result

  unfoldable pub import_some : List ItemImportRow → Items ImportResult
  unfolding import_valid row_errors
  import_some [] = pure no_rows
  import_some (row ∷ rows) = import_valid (row ∷ rows) (row_errors 0 (row ∷ rows))

  unfoldable pub import : List ItemImportRow → Items ImportResult
  unfolding import_some
  import rows =
      if ltb max_import_rows (length rows)
      then raise (
          validation (
            record {
              field = "rows";
              message = "一度にインポートできるのは" <> to_string max_import_rows <> "行までです";
            }
            ∷ []))
      else import_some rows
