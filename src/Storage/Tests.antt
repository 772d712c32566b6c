-- ===== src/Storage/Tests.antt =====
-- A list request with a text that looks like SQL.
use my_template.Prelude.{String, ◌<>◌, ◌≡◌, refl, none, List, [], ◌∷◌}
use my_template.Prelude.Maps.{empty, insert}
use my_template.Core.{ok}
use my_template.Core.Params.{ListParams, Value, string, eq, asc}
use my_template.Storage.ListQuery.{Piece, raw, bind, text, ColumnMap, apply_list_params}
use my_template.Storage.ListQuery.Like.{escape_like, like, has_prefix, has_part, like-escape_like}
use my_template.Storage.ListQuery.Whitelist.{AllListed, apply_list_params-AllListed}

abbrev columns : ColumnMap
columns = insert "name" "name" empty

abbrev params : ListParams
params = record {
  pagination = none;
  sort =
      record { field = "name"; direction = asc }
      ∷ record { field = "1; DROP TABLE items"; direction = asc }
      ∷ [];
  filters = record { field = "name"; op = eq; value = string "' OR 1=1 --" } ∷ [];
}

abbrev pieces : List Piece
pieces =
    raw " WHERE "
    ∷ raw "name"
    ∷ raw " "
    ∷ raw "="
    ∷ raw " "
    ∷ bind (text "' OR 1=1 --")
    ∷ raw " ORDER BY "
    ∷ raw "name"
    ∷ raw " ASC NULLS LAST"
    ∷ []

show : Value → String
show v = "…"

applied : apply_list_params show columns params ≡ ok pieces
unfolding apply_list_params
applied = refl

apply_list_params-AllListed_example : AllListed columns pieces
apply_list_params-AllListed_example = apply_list_params-AllListed show columns params pieces applied

like-escape_like_example :
    (like (escape_like "100%" <> "%") "100 items" ≡ has_prefix "100%" "100 items")
    × (like ("%" <> escape_like "100%" <> "%") "100 items" ≡ has_part "100%" "100 items")
like-escape_like_example = like-escape_like "100%" "100 items"
