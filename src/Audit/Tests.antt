-- ===== src/Audit/Tests.antt =====
-- The laws of the audit log at concrete logs.
use my_template.Prelude.{ℕ, ◌≡◌, refl, String, Bool, none, some, [], ◌∷◌, pos, str_eq}
use my_template.Core.{ok}
use my_template.Core.Params.{Value}
use my_template.Storage.{Pool, statement, query, pure, ◌>>=◌}
use my_template.Storage.Rows.{Table}
use my_template.Audit.Service.{AuditLogEntry, AuditEntry, Written, new_entry, prune}

abbrev signed_in : AuditEntry
signed_in = record {
  actor_username = some "kanri";
  actor_role = some "admin";
  action = "login";
  resource = "auth";
  entity_id = none;
  detail = none;
  origin = "rest";
  result = "success";
}

abbrev log : Table AuditLogEntry
log = record {
  rows =
      new_entry "2026-01-01 00:00:00" signed_in none 1
      ∷ new_entry "2026-07-01 00:00:00" signed_in none 2
      ∷ new_entry "2026-07-02 00:00:00" signed_in none 3
      ∷ [];
  next_id = 4;
}

abbrev db : Pool (Table AuditLogEntry)
db = record { tables = log; faults = [] }

abbrev older : ℕ → String → Bool
older days ts = str_eq ts "2026-01-01 00:00:00"

pruned : (prune older (some (pos 30)) (some (pos 1)) db).0 ≡ ok 2
unfolding prune ◌>>=◌ statement query pure
pruned = refl

abbrev to_string : Value → Written
to_string v = Written.written "{}"
