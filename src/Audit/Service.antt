-- ===== src/Audit/Service.antt =====
-- audit.rs, `AuditLogService`: the `audit_log` table (migration 0005), to which entries are appended.
-- A time is its `datetime` text; which texts come before another is SQLite's comparison of texts.
use my_template.Prelude.{
  ℕ, zero, suc, ◌+◌, ◌-◌, String, ◌<>◌, Bool, Option, none, some, List, [], ◌∷◌, ◌++◌, ℤ, pos,
  negsuc, ltb, length, if◌then◌else◌,
}
use my_template.Prelude.Maps.{empty}
use my_template.Core.{Result, ok, err, other}
use my_template.Core.Params.{ListParams, ListResult, Value}
use my_template.Storage.{Exec, Sql, Pool, statement, query, pure, lift, ◌>>=◌}
use my_template.Storage.ListQuery.{Piece, ColumnMap, column, apply_list_params, append_where}
use my_template.Storage.Rows.{Table}

pub record AuditLogEntry : Type 0 where
  pub id : ℕ
  pub ts : String
  pub actor_username : Option String
  pub actor_role : Option String
  pub action : String
  pub resource : String
  pub entity_id : Option String
  pub detail : Option String
  pub origin : String
  pub result : String

pub record AuditEntry : Type 0 where
  pub actor_username : Option String
  pub actor_role : Option String
  pub action : String
  pub resource : String
  pub entity_id : Option String
  pub detail : Option Value
  pub origin : String
  pub result : String

abbrev pub Audit : Type 0 → Type 0
Audit = Exec (Table AuditLogEntry)

abbrev pub column_map : ColumnMap
column_map =
    column
      (column
        (column
          (column
            (column
              (column
                (column
                  (column (column (column empty "id" "id") "ts" "ts") "actorUsername"
                    "actor_username")
                  "actorRole" "actor_role")
                "action" "action")
              "resource" "resource")
            "entityId" "entity_id")
          "detail" "detail")
        "origin" "origin")
      "result" "result"

-- `serde_json::to_string`, or its error's text.
pub data Written : Type 0 where
  written : String → Written
  unwritten : String → Written

unfoldable pub detail_result : Written → Result (Option String)
detail_result (written text) = ok (some text)
detail_result (unwritten problem) = err (other ("監査ログのdetailシリアライズに失敗しました: " <> problem))

unfoldable pub detail_text : (Value → Written) → Option Value → Result (Option String)
unfolding detail_result
detail_text to_string none = ok none
detail_text to_string (some value) = detail_result (to_string value)

abbrev pub new_entry : String → AuditEntry → Option String → ℕ → AuditLogEntry
new_entry now entry detail id = record {
  id = id;
  ts = now;
  actor_username = entry.actor_username;
  actor_role = entry.actor_role;
  action = entry.action;
  resource = entry.resource;
  entity_id = entry.entity_id;
  detail = detail;
  origin = entry.origin;
  result = entry.result;
}

-- `INSERT INTO audit_log …`, with `datetime('now')` for `ts`.
unfoldable pub insert_entry :
    String → AuditEntry → Option String → Sql (Table AuditLogEntry) (Unit {0})
insert_entry now entry detail t = (
  ok tt,
  record { rows = t.rows ++ new_entry now entry detail t.next_id ∷ []; next_id = suc t.next_id },
)

-- What SQLite answers to a query, and its order of times.
pub record Engine : Type 0 where
  pub fetch : List Piece → Table AuditLogEntry → List AuditLogEntry
  pub count : List Piece → Table AuditLogEntry → ℕ

unfoldable pub try_record : (Value → Written) → String → AuditEntry → Audit (Unit {0})
unfolding detail_text
try_record to_string now entry = do
  detail ← lift (detail_text to_string entry.detail)
  statement (insert_entry now entry detail)

unfoldable pub swallow :
    Result (Unit {0}) × Pool (Table AuditLogEntry) → Result (Unit {0}) × Pool (Table AuditLogEntry)
swallow (r, db) = (ok tt, db)

-- The warning on standard error is left out.
unfoldable pub record_entry : (Value → Written) → String → AuditEntry → Audit (Unit {0})
unfolding swallow
record_entry to_string now entry db = swallow (try_record to_string now entry db)

unfoldable pub list : (Value → String) → Engine → ListParams → Audit (ListResult AuditLogEntry)
list show engine params = do
  pieces ← lift (apply_list_params show column_map params)
  rows ← query (engine.fetch pieces)
  conditions ← lift (append_where show column_map params.filters)
  total_count ← query (engine.count conditions)
  pure (record { rows = rows; total_count = total_count })

unfoldable pub drop_first : ℕ → List AuditLogEntry → List AuditLogEntry
drop_first n [] = []
drop_first zero (r ∷ rows) = r ∷ rows
drop_first (suc n) (r ∷ rows) = drop_first n rows

-- `DELETE … WHERE ts < …`: the younger rows stay.
unfoldable pub drop_old : (String → Bool) → List AuditLogEntry → List AuditLogEntry
drop_old is_old [] = []
drop_old is_old (r ∷ rows) = if is_old r.ts then drop_old is_old rows else r ∷ drop_old is_old rows

-- A deletion: the rows affected.
unfoldable pub delete_by : (List AuditLogEntry → List AuditLogEntry) → Sql (Table AuditLogEntry) ℕ
delete_by keep t = (ok (length t.rows - length (keep t.rows)), record t { rows = keep t.rows })

-- `filter(|d| *d > 0)`
unfoldable pub positive : Option ℤ → Option ℕ
positive none = none
positive (some (pos zero)) = none
positive (some (pos (suc n))) = some (suc n)
positive (some (negsuc n)) = none

-- `older days ts` is SQLite's `ts < datetime('now', '-' || days || ' days')`.
module _ (older : ℕ → String → Bool) where
  unfoldable pub prune_days : Option ℕ → Audit ℕ
  unfolding drop_old delete_by
  prune_days none = pure 0
  prune_days (some days) = statement (delete_by (drop_old (older days)))

  unfoldable pub prune_rows : Option ℕ → Audit ℕ
  unfolding drop_first delete_by
  prune_rows none = pure 0
  prune_rows (some max_rows) = do
    total ← query (λ t. length t.rows)
    if ltb max_rows total then statement (delete_by (drop_first (total - max_rows))) else pure 0

  unfoldable pub prune : Option ℤ → Option ℤ → Audit ℕ
  unfolding prune_days prune_rows positive
  prune retention_days retention_rows = do
    by_days ← prune_days (positive retention_days)
    by_rows ← prune_rows (positive retention_rows)
    pure (by_days + by_rows)
