-- ===== src/Items/Service.antt =====
-- items.rs, `ItemsService` but for `import`: the `items` table (migration 0001) and the channel of events.
use my_template.Prelude.{
  ℕ, suc, String, Bool, Option, none, some, List, [], ◌∷◌, ◌++◌, ℤ, trim, ◌==◌, if◌then◌else◌,
  to_string,
}
use my_template.Prelude.Maps.{empty}
use my_template.Events.{ServerEvent, resource_changed}
use my_template.Core.{ok, not_found}
use my_template.Core.Params.{ListParams, ListResult, Value}
use my_template.Storage.{Exec, Sql, statement, query, effect, pure, raise, lift, ◌>>=◌, ◌>>◌}
use my_template.Storage.ListQuery.{Piece, ColumnMap, column, apply_list_params, append_where}
use my_template.Storage.Rows.{Table, find_row, change_row, drop_row, affected}
use my_template.Items.Input.{ItemInput, validate_item_input}

pub record Item : Type 0 where
  pub id : ℕ
  pub name : String
  pub price : ℤ
  pub stock : ℤ
  pub updated_at : String

-- The table, and what was sent on the channel.
pub record Store : Type 0 where
  pub items : Table Item
  pub sent : List ServerEvent

abbrev pub Items : Type 0 → Type 0
Items = Exec Store

abbrev pub item_id : Item → ℕ
item_id r = r.id

abbrev pub new_item : ℕ → String → ℤ → ℤ → String → Item
new_item id name price stock now = record {
  id = id;
  name = name;
  price = price;
  stock = stock;
  updated_at = now;
}

abbrev pub set_fields : String → ℤ → ℤ → String → Item → Item
set_fields name price stock now r = record r {
  name = name;
  price = price;
  stock = stock;
  updated_at = now;
}

-- `INSERT INTO items … RETURNING …`
unfoldable pub insert_item : String → ℤ → ℤ → String → Sql Store Item
insert_item name price stock now t =
    let item = new_item t.items.next_id name price stock now in
    (
      ok item,
      record t {
        items = record { rows = t.items.rows ++ item ∷ []; next_id = suc t.items.next_id };
      },
    )

-- `UPDATE items SET … WHERE id = ? RETURNING …`
unfoldable pub update_item : ℕ → String → ℤ → ℤ → String → Sql Store (Option Item)
unfolding find_row change_row
update_item id name price stock now t =
    let rows = change_row item_id id (set_fields name price stock now) t.items.rows in
    (ok (find_row item_id id rows), record t { items = record t.items { rows = rows } })

-- `DELETE FROM items WHERE id = ?`: the rows affected.
unfoldable pub delete_item : ℕ → Sql Store ℕ
unfolding find_row drop_row
delete_item id t = (
  ok (affected (find_row item_id id t.items.rows)),
  record t { items = record t.items { rows = drop_row item_id id t.items.rows } },
)

abbrev pub resource : String
resource = "items"

abbrev pub column_map : ColumnMap
column_map =
    column
      (column (column (column (column empty "id" "id") "name" "name") "price" "price") "stock"
        "stock")
      "updatedAt" "updated_at"

-- What SQLite answers to a query, given as its text and bound values.
pub record Engine : Type 0 where
  pub fetch : List Piece → Table Item → List Item
  pub count : List Piece → Table Item → ℕ

abbrev pub missing : {A : Type 0} → ℕ → Items A
missing id = raise (not_found resource (to_string id))

unfoldable pub found : {A : Type 0} → ℕ → Option A → Items A
found id none = missing id
found id (some a) = pure a

unfoldable pub list : (Value → String) → Engine → ListParams → Items (ListResult Item)
list show engine params = do
  pieces ← lift (apply_list_params show column_map params)
  rows ← query (λ t. engine.fetch pieces t.items)
  conditions ← lift (append_where show column_map params.filters)
  total_count ← query (λ t. engine.count conditions t.items)
  pure (record { rows = rows; total_count = total_count })

unfoldable pub get : ℕ → Items Item
unfolding find_row found
get id = do row ← query (λ t. find_row item_id id t.items.rows); found id row

module _ (listening : Bool) where
  -- `notify_changed`: nothing is sent where no sender is attached.
  unfoldable pub notify_changed : Items (Unit {0})
  notify_changed =
      effect
        (λ t. if listening then record t { sent = t.sent ++ resource_changed resource ∷ [] } else t)

  unfoldable pub create : String → ItemInput → Items Item
  unfolding notify_changed
  create now input = do
    lift (validate_item_input input)
    item ← statement (insert_item (trim input.name) input.price input.stock now)
    notify_changed
    pure item

  unfoldable pub update : String → ℕ → ItemInput → Items Item
  unfolding notify_changed found
  update now id input = do
    lift (validate_item_input input)
    row ← statement (update_item id (trim input.name) input.price input.stock now)
    item ← found id row
    notify_changed
    pure item

  unfoldable pub delete : ℕ → Items (Unit {0})
  unfolding notify_changed
  delete id = do
    rows_affected ← statement (delete_item id)
    if rows_affected == 0 then missing id else notify_changed
