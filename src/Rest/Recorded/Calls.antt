-- ===== src/Rest/Recorded/Calls.antt =====
-- rest/mod.rs: every route that writes, with its record.
use my_template.Prelude.{String, Option, none, some, List}
use my_template.Http.{Request, Response}
use my_template.Storage.Spending.{Within}
use my_template.Rest.World.{Server, Handler}
use my_template.Rest.Env.{Env}
use my_template.Rest.Recorded.{Recorded}
use my_template.Rest.Routes.{
  RoleCall, create_item, update_item, delete_item, import_items, upload_attachment,
  delete_attachment, list_users, create_user, update_user, reset_password, delete_user,
  list_audit_log, get_audit_config, apply_audit_config, create_backup, list_backups,
  download_backup, restore_upload, restore_existing, pending_status, cancel_pending,
}

-- What a route that writes is to be recorded as: the action and the resource. The retention policy
-- is left out, since its handler reads it again after the record.
unfoldable pub written_as : RoleCall → Option (String × String)
written_as (create_item input) = some ("create", "items")
written_as (update_item id input) = some ("update", "items")
written_as (delete_item id) = some ("delete", "items")
written_as (import_items rows) = some ("import", "items")
written_as (upload_attachment resource resource_id file_name body) = some ("create", "attachments")
written_as (delete_attachment id) = some ("delete", "attachments")
written_as list_users = none
written_as (create_user username password display_name role) = some ("create", "users")
written_as (update_user id display_name role) = some ("update", "users")
written_as (reset_password id new_password) = some ("password_reset", "users")
written_as (delete_user id) = some ("delete", "users")
written_as (list_audit_log params) = none
written_as get_audit_config = none
written_as (apply_audit_config config) = none
written_as create_backup = some ("backup", "backups")
written_as list_backups = none
written_as (download_backup file_name) = none
written_as (restore_upload file_name body) = some ("restore_staged", "backups")
written_as (restore_existing file_name) = some ("restore_staged", "backups")
written_as pending_status = none
written_as cancel_pending = some ("restore_cancelled", "backups")

module _ {Picture : Type 0} (env : Env Picture) (req : Request) (faults : List (Option String))
    (t : Server) where
  abbrev RecordsAs : Option (String × String) → Handler Response → Type 0
  RecordsAs none act = Unit
  RecordsAs (some (action, resource)) act =
      Within faults t act (Recorded env req action resource faults t)
