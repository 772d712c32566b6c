-- ===== src/Audit/Retention.antt =====
-- audit.rs, `prune`: which entries are left, by age and by number.
use my_template.Prelude.{
  ℕ, suc, ◌+◌, ◌≤◌, ◌≡◌, String, Bool, false, Option, none, some, List, [], ◌∷◌, ◌⊎◌, leb, length,
  if◌then◌else◌,
}
use my_template.Core.{Result, ok, err}
use my_template.Storage.Rows.{Table, AllRows}
use my_template.Storage.Ensures.{Ensures, Post}
use my_template.Audit.Service.{AuditLogEntry, drop_old}

-- The last `n` rows, or all if there are no more.
abbrev pub keep_last : ℕ → List AuditLogEntry → List AuditLogEntry
keep_last n [] = []
keep_last n (r ∷ rows) = if leb (suc (length rows)) n then r ∷ rows else keep_last n rows

module _ (older : ℕ → String → Bool) where
  abbrev pub young : Option ℕ → List AuditLogEntry → List AuditLogEntry
  young none rows = rows
  young (some days) rows = drop_old (older days) rows

  abbrev pub newest : Option ℕ → List AuditLogEntry → List AuditLogEntry
  newest none rows = rows
  newest (some max_rows) rows = keep_last max_rows rows

  -- No entry is beyond a limit.
  abbrev pub Within : Option ℕ → Option ℕ → List AuditLogEntry → Type 0
  Within none none rows = Unit
  Within (some days) none rows = AllRows (λ r. older days r.ts ≡ false) rows
  Within none (some max_rows) rows = length rows ≤ max_rows
  Within (some days) (some max_rows) rows =
      AllRows (λ r. older days r.ts ≡ false) rows × (length rows ≤ max_rows)

  abbrev pub Pruned :
      Option ℕ → Option ℕ → List AuditLogEntry → Result ℕ → List AuditLogEntry → Type 0
  Pruned days max_rows rows (err e) rows' = (rows' ≡ rows) ⊎ (rows' ≡ young days rows)
  Pruned days max_rows rows (ok n) rows' =
      (rows' ≡ newest max_rows (young days rows))
      × (length rows' + n ≡ length rows)
      × Within days max_rows rows'

  abbrev Left :
      (List AuditLogEntry → List AuditLogEntry) → List AuditLogEntry → Post (Table AuditLogEntry) ℕ
  Left keep rows (err e) t = t.rows ≡ rows
  Left keep rows (ok n) t = (t.rows ≡ keep rows) × (length (keep rows) + n ≡ length rows)
