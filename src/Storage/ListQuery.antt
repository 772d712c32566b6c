-- ===== src/Storage/ListQuery.antt =====
-- crates/banto-storage/src/list_query.rs: the WHERE, ORDER BY and LIMIT of a list request. What is
-- pushed on the query builder is a list of pieces, raw SQL or a bound value; on an error the callers
-- drop the builder.
pub mod Like
pub mod Whitelist
use my_template.Prelude.{
  ℕ, String, ◌<>◌, Bool, true, false, Option, none, some, List, [], ◌∷◌, ◌++◌, ℤ, pos, negsuc, ltb,
  ◌-◌, if◌then◌else◌,
}
use my_template.Prelude.Maps.{Map, empty, insert}
use my_template.Storage.ListQuery.Like.{escape_like}
use my_template.Core.{BantoError, Result, ok, err, other, ◌>>=◌}
use my_template.Core.Params.{
  SortDirection, SortState, FilterOp, Number, Value, Values, FilterState, Pagination, ListParams,
  asc, desc, eq, ne, lt, lte, gt, gte, contains, starts_with, in_list, is_null, not_null, null,
  bool, number, string, array, object, nil, cons,
}

pub data Bound : Type 0 where
  text : String → Bound
  flag : Bool → Bound
  integer : ℤ → Bound
  real : ℕ → Bound

pub data Piece : Type 0 where
  raw : String → Piece
  bind : Bound → Piece

-- `ColumnMap`: the field of a request to a column's text.
abbrev pub ColumnMap : Type 0
ColumnMap = Map String

-- `ColumnMap::column`
unfoldable pub column : ColumnMap → String → String → ColumnMap
column columns field sql_column = insert field sql_column columns

unfoldable pub resolve : ColumnMap → String → Option String
resolve columns field = columns field

-- `Display` of a JSON value, which only error texts show.
module _ (show : Value → String) where
  unfoldable pub bind_number : Option ℤ → Option ℕ → Result (List Piece)
  bind_number (some i) f = ok (bind (integer i) ∷ [])
  bind_number none (some f) = ok (bind (real f) ∷ [])
  bind_number none none = err (other "invalid numeric filter value")

  unfoldable pub bind_value : Value → Result (List Piece)
  unfolding bind_number
  bind_value (string s) = ok (bind (text s) ∷ [])
  bind_value (bool b) = ok (bind (flag b) ∷ [])
  bind_value (number n) = bind_number n.as_i64 n.as_f64
  bind_value null = err (other ("unsupported filter value: " <> show null))
  bind_value (array items) = err (other ("unsupported filter value: " <> show (array items)))
  bind_value (object fields) = err (other ("unsupported filter value: " <> show (object fields)))

  unfoldable pub value_as_like_operand : Value → Result String
  value_as_like_operand (string s) = ok s
  value_as_like_operand (number n) = ok n.text
  value_as_like_operand (bool b) = ok (if b then "true" else "false")
  value_as_like_operand null =
      err (other ("unsupported filter value for text match: " <> show null))
  value_as_like_operand (array items) =
      err (other ("unsupported filter value for text match: " <> show (array items)))
  value_as_like_operand (object fields) =
      err (other ("unsupported filter value for text match: " <> show (object fields)))

  unfoldable pub push_binop : String → String → Value → Result (List Piece)
  unfolding bind_value
  push_binop column op value = do
    bound ← bind_value value
    ok (raw column ∷ raw " " ∷ raw op ∷ raw " " ∷ bound)

  unfoldable pub percent : Bool → String
  percent wildcard = if wildcard then "%" else ""

  unfoldable pub push_like : String → Value → Bool → Bool → Result (List Piece)
  unfolding value_as_like_operand percent
  push_like column value prefix_wildcard suffix_wildcard = do
    operand ← value_as_like_operand value
    ok (
        raw "LOWER("
        ∷ raw column
        ∷ raw ") LIKE LOWER("
        ∷ bind (text (percent prefix_wildcard <> escape_like operand <> percent suffix_wildcard))
        ∷ raw ") ESCAPE '\\'"
        ∷ [])

  -- The items of an array that is not empty, with a comma between each two.
  unfoldable pub bind_items : Value → Values → Result (List Piece)
  unfolding bind_value
  bind_items first nil = bind_value first
  bind_items first (cons second rest) = do
    bound ← bind_value first
    others ← bind_items second rest
    ok (bound ++ raw ", " ∷ others)

  unfoldable pub push_in : String → Value → Result (List Piece)
  unfolding bind_items
  push_in column (array nil) = ok (raw "1=0" ∷ [])
  push_in column (array (cons first rest)) = do
    items ← bind_items first rest
    ok (raw column ∷ raw " IN (" ∷ (items ++ raw ")" ∷ []))
  push_in column null = err (other ("'in' filter requires an array value, got: " <> show null))
  push_in column (bool b) =
      err (other ("'in' filter requires an array value, got: " <> show (bool b)))
  push_in column (number n) =
      err (other ("'in' filter requires an array value, got: " <> show (number n)))
  push_in column (string s) =
      err (other ("'in' filter requires an array value, got: " <> show (string s)))
  push_in column (object fields) =
      err (other ("'in' filter requires an array value, got: " <> show (object fields)))

  unfoldable pub push_condition : String → FilterOp → Value → Result (List Piece)
  unfolding push_binop push_like push_in
  push_condition column eq value = push_binop column "=" value
  push_condition column ne value = push_binop column "<>" value
  push_condition column lt value = push_binop column "<" value
  push_condition column lte value = push_binop column "<=" value
  push_condition column gt value = push_binop column ">" value
  push_condition column gte value = push_binop column ">=" value
  push_condition column contains value = push_like column value true true
  push_condition column starts_with value = push_like column value false true
  push_condition column in_list value = push_in column value
  push_condition column is_null value = ok (raw column ∷ raw " IS NULL" ∷ [])
  push_condition column not_null value = ok (raw column ∷ raw " IS NOT NULL" ∷ [])

  unfoldable pub resolved : FilterState → Option String → Result String
  resolved filter (some column) = ok column
  resolved filter none = err (other ("unknown filter field: " <> filter.field))

  -- The conditions, each with its keyword in front: " WHERE " at the first, " AND " at the others.
  unfoldable pub conditions : ColumnMap → String → List FilterState → Result (List Piece)
  unfolding resolve resolved push_condition
  conditions columns keyword [] = ok []
  conditions columns keyword (filter ∷ filters) = do
    column ← resolved filter (resolve columns filter.field)
    condition ← push_condition column filter.op filter.value
    others ← conditions columns " AND " filters
    ok (raw keyword ∷ (condition ++ others))

  unfoldable pub append_where : ColumnMap → List FilterState → Result (List Piece)
  unfolding conditions
  append_where columns filters = conditions columns " WHERE " filters

unfoldable pub direction_text : SortDirection → String
direction_text asc = " ASC NULLS LAST"
direction_text desc = " DESC NULLS LAST"

-- An unknown field is passed over; a keyword stands in front of each known one.
unfoldable pub orders : ColumnMap → String → List SortState → List Piece
unfolding resolve direction_text
orders columns keyword [] = []
orders columns keyword (sort ∷ rest) = elim (resolve columns sort.field) [
  | none ↦ orders columns keyword rest
  | some column ↦
      raw keyword ∷ raw column ∷ raw (direction_text sort.direction) ∷ orders columns ", " rest
]

unfoldable pub append_order_by : ColumnMap → List SortState → List Piece
unfolding orders
append_order_by columns sort = orders columns " ORDER BY " sort

-- `as i64` of a `u64`
abbrev wrapped : ℕ → ℤ
wrapped n = if ltb n 9223372036854775808 then pos n else negsuc (18446744073709551615 - n)

unfoldable pub append_pagination : Option Pagination → List Piece
append_pagination none = []
append_pagination (some p) =
    raw " LIMIT "
    ∷ bind (integer (wrapped p.limit))
    ∷ raw " OFFSET "
    ∷ bind (integer (wrapped p.offset))
    ∷ []

unfoldable pub apply_list_params : (Value → String) → ColumnMap → ListParams → Result (List Piece)
unfolding append_where append_order_by append_pagination
apply_list_params show columns params = do
  conditions ← append_where show columns params.filters
  ok (conditions ++ append_order_by columns params.sort ++ append_pagination params.pagination)
