-- ===== src/Rest/Recorded/Methods.antt =====
-- items.rs and users.rs: the methods that the routes call consult the failures of statements in turn.
use my_template.Prelude.{ℕ, String, Bool, Option, none, some, List, [], ◌∷◌}
use my_template.Storage.Spending.{
  Spends, Spends-pure, Spends-raise, Spends-lift, Spends-effect, Spends-statement, Spends-query,
  Spends-if, Spends-bind,
}
use my_template.Storage.Transaction.{Spends-transaction}
use my_template.Items.Input.{ItemInput}
use my_template.Items.Service as Items
use my_template.Items.Import as Import
use my_template.Items.Import.{ItemImportRow, ImportResult, ImportRowError}
use my_template.Users.Role.{Role}
use my_template.Users.Service as Users
use my_template.Users.Service.{Argon2}
use my_template.Users.Table.{UserRow}

module _ (listening : Bool) where
  notify_changed-Spends : Spends (Items.notify_changed listening)
  unfolding Items.notify_changed
  notify_changed-Spends = Spends-effect _

  pub create-Spends : (now : String) (input : ItemInput) → Spends (Items.create listening now input)
  unfolding Items.create
  create-Spends now input = Spends-bind _ _ (Spends-lift _) λ good.
      Spends-bind _ _ (Spends-statement _)
        λ item. Spends-bind _ _ notify_changed-Spends λ done. Spends-pure item

  found-Spends : (id : ℕ) (row : Option Items.Item) → Spends (Items.found id row)
  unfolding Items.found
  found-Spends id none = Spends-raise _
  found-Spends id (some item) = Spends-pure item

  pub update-Spends :
      (now : String) (id : ℕ) (input : ItemInput) → Spends (Items.update listening now id input)
  unfolding Items.update
  update-Spends now id input = Spends-bind _ _ (Spends-lift _) λ good.
      Spends-bind _ _ (Spends-statement _) λ row.
        Spends-bind _ _ (found-Spends id row)
          λ item. Spends-bind _ _ notify_changed-Spends λ done. Spends-pure item

  pub delete-Spends : (id : ℕ) → Spends (Items.delete listening id)
  unfolding Items.delete
  delete-Spends id =
      Spends-bind _ _ (Spends-statement _)
        λ rows. Spends-if _ _ _ (Spends-raise _) notify_changed-Spends

  import_row-Spends :
      (now : String) (i : ℕ) (row : ItemImportRow) (id : Option ℕ) (tally : ImportResult)
      → Spends (Import.import_row now i row id tally)
  unfolding Import.import_row
  import_row-Spends now i row none tally =
      Spends-bind _ _ (Spends-statement _) λ inserted. Spends-pure _
  import_row-Spends now i row (some id) tally =
      Spends-bind _ _ (Spends-statement _) λ rows. Spends-pure _

  import_rows-Spends :
      (now : String) (i : ℕ) (rows : List ItemImportRow) (tally : ImportResult)
      → Spends (Import.import_rows now i rows tally)
  unfolding Import.import_rows
  import_rows-Spends now i [] tally = Spends-pure tally
  import_rows-Spends now i (row ∷ rows) tally =
      Spends-bind _ _ (import_row-Spends now i row row.id tally) (import_rows-Spends now _ rows)

  announce-Spends : (errors : List ImportRowError) → Spends (Import.announce listening errors)
  unfolding Import.announce
  announce-Spends [] = notify_changed-Spends
  announce-Spends (e ∷ errors) = Spends-pure tt

  import_valid-Spends :
      (now : String) (rows : List ItemImportRow) (errors : List ImportRowError)
      → Spends (Import.import_valid listening now rows errors)
  unfolding Import.import_valid
  import_valid-Spends now rows (e ∷ errors) = Spends-pure _
  import_valid-Spends now rows [] =
      Spends-bind _ _
        (Spends-transaction _
          (Spends-bind _ _ (import_rows-Spends now 0 rows _) λ tally. Spends-pure _))
        λ result. Spends-bind _ _ (announce-Spends result.errors) λ done. Spends-pure result

  import_some-Spends :
      (now : String) (rows : List ItemImportRow) → Spends (Import.import_some listening now rows)
  unfolding Import.import_some
  import_some-Spends now [] = Spends-pure _
  import_some-Spends now (row ∷ rows) = import_valid-Spends now (row ∷ rows) _

  pub import-Spends :
      (now : String) (rows : List ItemImportRow) → Spends (Import.import listening now rows)
  unfolding Import.import
  import-Spends now rows = Spends-if _ _ _ (Spends-raise _) (import_some-Spends now rows)

pub create_user-Spends :
    (argon : Argon2) (salt now username password display_name : String) (role : Role)
    → Spends (Users.create_user argon salt now username password display_name role)
unfolding Users.create_user
create_user-Spends argon salt now username password display_name role =
    Spends-bind _ _ (Spends-lift _) λ name. Spends-bind _ _ (Spends-lift _) λ good.
      Spends-bind _ _ (Spends-query _) λ existing. Spends-if _ _ _ (Spends-raise _) (
        Spends-bind _ _ (Spends-lift _)
          λ hash. Spends-bind _ _ (Spends-statement _) λ id. Spends-pure _)

pub reset_password-Spends :
    (argon : Argon2) (show : ℕ → String) (salt now : String) (id : ℕ) (new_password : String)
    → Spends (Users.reset_password argon show salt now id new_password)
unfolding Users.reset_password
reset_password-Spends argon show salt now id new_password = Spends-bind _ _ (Spends-lift _) λ good.
    Spends-bind _ _ (Spends-lift _) λ hash.
      Spends-bind _ _ (Spends-statement _) λ rows. Spends-if _ _ _ (Spends-raise _) (Spends-pure tt)

maybe_identity-Spends :
    (username : String) (row : Option UserRow) → Spends (Users.maybe_identity username row)
unfolding Users.maybe_identity
maybe_identity-Spends username none = Spends-pure none
maybe_identity-Spends username (some r) = Spends-bind _ _ (Spends-lift _) λ role. Spends-pure _

pub get_by_username-Spends : (username : String) → Spends (Users.get_by_username username)
unfolding Users.get_by_username
get_by_username-Spends username = Spends-bind _ _ (Spends-query _) (maybe_identity-Spends username)

unless_last_admin-Spends :
    {A : Type 0} (guarded : Bool) (id : ℕ) (next : Users.Users A)
    → Spends next
    → Spends (Users.unless_last_admin guarded id next)
unfolding Users.unless_last_admin
unless_last_admin-Spends guarded id next g =
    Spends-if _ _ _ (Spends-bind _ _ (Spends-query _) λ others. Spends-if _ _ _ (Spends-raise _) g)
      g

module _ (show : ℕ → String) where
  pub update_user-Spends :
      (now : String) (id : ℕ) (display_name : String) (role : Role)
      → Spends (Users.update_user show now id display_name role)
  unfolding Users.update_user
  update_user-Spends now id display_name role = Spends-bind _ _ (Spends-query _) λ stored.
      Spends-bind _ _ (Spends-lift _) λ current.
        unless_last_admin-Spends _ id _ (Spends-bind _ _ (Spends-statement _) λ row. Spends-lift _)

  pub delete_user-Spends :
      (id acting_user_id : ℕ) → Spends (Users.delete_user show id acting_user_id)
  unfolding Users.delete_user
  delete_user-Spends id acting_user_id = Spends-if _ _ _ (Spends-raise _) (
      Spends-bind _ _ (Spends-query _) λ stored. Spends-bind _ _ (Spends-lift _) λ role.
        unless_last_admin-Spends _ id _ (
          Spends-bind _ _ (Spends-statement _)
            λ rows. Spends-if _ _ _ (Spends-raise _) (Spends-pure tt)))
