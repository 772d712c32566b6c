-- ===== src/Audit/Log.antt =====
-- audit.rs, `record`: what a record leaves of the log.
use my_template.Prelude.{
  suc, ◌≡◌, refl, String, Option, none, some, List, [], ◌∷◌, ◌++◌, ◌⊎◌, inl, inr,
}
use my_template.Core.{Result, ok, err}
use my_template.Core.Params.{Value}
use my_template.Storage.{Pool, statement, lift, answer, resume, ◌>>=◌}
use my_template.Storage.Rows.{Table}
use my_template.Storage.Ensures.{Ensures, Post, Ensures-statement, Ensures-lift}
use my_template.Storage.Spending.{Spends, Spends-bind, Spends-lift, Spends-statement}
use my_template.Audit.Service.{
  AuditLogEntry, AuditEntry, Written, new_entry, insert_entry, detail_text, try_record,
  record_entry, swallow,
}

module _ (to_string : Value → Written) (now : String) (entry : AuditEntry)
    (t : Table AuditLogEntry) where
  -- The log with the entry at its end, its detail as JSON.
  abbrev pub Appended : Table AuditLogEntry → Type 0
  Appended t' =
      (detail : Option String) × (detail_text to_string entry.detail ≡ ok detail)
      × (t'.rows ≡ t.rows ++ new_entry now entry detail t.next_id ∷ [])

  abbrev Tried : Post (Table AuditLogEntry) (Unit {0})
  Tried (err e) t' = t' ≡ t
  Tried (ok done) t' = Appended t'

  try_record-Tried : Ensures t (try_record to_string now entry) Tried
  unfolding try_record insert_entry
  try_record-Tried =
      Ensures-lift _ _ (λ e bad. refl)
        λ detail good. Ensures-statement _ (λ text. refl) (detail, good, refl)

  swallowed :
      (r : Result (Unit {0})) (db : Pool (Table AuditLogEntry))
      → Tried r db.tables
      → let (r', db') = swallow (r, db) in (r' ≡ ok tt) × ((db'.tables ≡ t) ⊎ Appended db'.tables)
  unfolding swallow
  swallowed (err e) db h = (refl, inl h)
  swallowed (ok done) db h = (refl, inr h)

-- A record never fails, whichever statements fail and whether its detail can be written or not: the log
-- stays as it is, or the entry with its detail's text is added at the end, under the table's next id.
pub record_entry-Appended :
    (to_string : Value → Written) (now : String) (entry : AuditEntry)
    (db : Pool (Table AuditLogEntry))
    → let (r, db') = record_entry to_string now entry db in
      (r ≡ ok tt) × ((db'.tables ≡ db.tables) ⊎ Appended to_string now entry db.tables db'.tables)
unfolding record_entry
record_entry-Appended to_string now entry db =
    let (r, db') = try_record to_string now entry db in
    swallowed to_string now entry db.tables r db'
      ((try_record-Tried to_string now entry db.tables).from db.faults)

-- The log after a record, by the text of its detail and the statements that are to fail: as it was, where the
-- detail cannot be written or the statement fails, and else with one more entry, under the next id.
module _ (now : String) (entry : AuditEntry) (t : Table AuditLogEntry) where
  abbrev appended : Option String → Table AuditLogEntry
  appended detail = record {
    rows = t.rows ++ new_entry now entry detail t.next_id ∷ [];
    next_id = suc t.next_id;
  }

  abbrev pub recorded : Result (Option String) → List (Option String) → Table AuditLogEntry
  recorded (err e) faults = t
  recorded (ok detail) [] = appended detail
  recorded (ok detail) (none ∷ faults) = appended detail
  recorded (ok detail) (some text ∷ faults) = t

  pub record_entry-recorded :
      (to_string : Value → Written) (faults : List (Option String))
      → (record_entry to_string now entry (record { tables = t; faults = faults })).1.tables
        ≡ recorded (detail_text to_string entry.detail) faults
  unfolding record_entry swallow try_record statement lift answer resume ◌>>=◌ insert_entry
  record_entry-recorded to_string faults = by_detail (detail_text to_string entry.detail) faults
    where
      by_detail :
          (text : Result (Option String)) (faults : List (Option String))
          → (swallow (
              (lift text >>= λ detail. statement (insert_entry now entry detail))
                (record { tables = t; faults = faults }))).1.tables
            ≡ recorded text faults
      by_detail (err e) faults = refl
      by_detail (ok detail) [] = refl
      by_detail (ok detail) (none ∷ faults) = refl
      by_detail (ok detail) (some text ∷ faults) = refl

pub record_entry-Spends :
    (to_string : Value → Written) (now : String) (entry : AuditEntry)
    → Spends (record_entry to_string now entry)
unfolding record_entry swallow try_record
record_entry-Spends to_string now entry =
    let tried : Spends (try_record to_string now entry) =
      Spends-bind _ _ (Spends-lift _) λ detail. Spends-statement _ in
    record { from = λ db. tried.from db }
