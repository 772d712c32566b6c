-- ===== src/Rest/Env.antt =====
-- What the routes take from outside the repository's code: the clocks, the crates, SQLite's answers, and the
-- settings of the server.
use my_template.Prelude.{ℕ, String, Bool, List}
use my_template.Core.Params.{Value}
use my_template.Core.{BantoError}
use my_template.Disk.{Bytes, Files}
use my_template.Users.Service.{Argon2}
use my_template.Audit.Service.{Written}
use my_template.Audit.Service as AuditService
use my_template.Items.Service as ItemsService
use my_template.Attachments.Image.{Libraries}
use my_template.Backup.Validate as Sqlite
use my_template.Backup.Listing.{Entry}

-- The monotonic clock where it is read: by `require_auth`, by `require_role_at_least`, by the handler for
-- itself, and for the record.
pub record Clock : Type 0 where
  pub auth : ℕ
  pub role : ℕ
  pub handler : ℕ
  pub record_at : ℕ

-- `now` is `datetime('now')`, `seconds` the seconds of the epoch, `fresh` the next token. `display` is
-- the text of an error.
pub record Env (Picture : Type 0) : Type 0 where
  pub clock : Clock
  pub now : String
  pub seconds : ℕ
  pub fresh : String
  pub salt : String
  pub argon : Argon2
  pub json : Value → Written
  pub show : Value → String
  pub display : BantoError → String
  pub items_engine : ItemsService.Engine
  pub audit_engine : AuditService.Engine
  pub older : ℕ → String → Bool
  pub sqlite : Sqlite.Engine
  pub snapshot : Bytes
  pub pid : ℕ
  pub nonce : ℕ
  pub base : String
  pub attachments_dir : String
  pub dir_exists : Files → Bool
  pub entries : Files → List Entry
  pub lib : Libraries Picture
  pub listening : Bool
  pub allow_setup : Bool
