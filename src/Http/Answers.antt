-- ===== src/Http/Answers.antt =====
-- apps/admin-template/core/src/rest: what the routes answer, but for the bodies of banto-server.
use my_template.Prelude.{ℕ, String, Bool, Option, List}
use my_template.Core.Params.{ListResult}
use my_template.Disk.{Bytes}
use my_template.Users.Role.{Role}
use my_template.Users.Service.{UserSummary}
use my_template.Settings.Values.{AuditSettings}
use my_template.Audit.Service.{AuditLogEntry}
use my_template.Items.Service.{Item}
use my_template.Items.Import.{ImportResult}
use my_template.Backup.Service.{BackupInfo, PendingRestoreInfo}
use my_template.Attachments.{AttachmentMeta}

-- auth.rs
pub record SetupResponse : Type 0 where
  pub success : Bool
  pub error : Option String
  pub token : Option String

-- users.rs
pub record UserIdentityResponse : Type 0 where
  pub id : ℕ
  pub username : String
  pub display_name : String
  pub role : Role

-- The headers and the body of a download.
pub record Download : Type 0 where
  pub content_type : String
  pub content_disposition : Option String
  pub bytes : Bytes

pub data Answer : Type 0 where
  initialized : Bool → Answer
  setup : SetupResponse → Answer
  succeeded : Answer
  item : Item → Answer
  items : ListResult Item → Answer
  imported : ImportResult → Answer
  user_identity : UserIdentityResponse → Answer
  user : UserSummary → Answer
  users : List UserSummary → Answer
  setting : Option String → Answer
  audit_log : ListResult AuditLogEntry → Answer
  audit_settings : AuditSettings → Answer
  backup : BackupInfo → Answer
  backups : List BackupInfo → Answer
  pending_restore : Option PendingRestoreInfo → Answer
  attachment : AttachmentMeta → Answer
  attachments : List AttachmentMeta → Answer
  download : Download → Answer
