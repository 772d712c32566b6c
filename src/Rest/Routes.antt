-- ===== src/Rest/Routes.antt =====
-- rest/mod.rs, `api_router`, and the routers that it merges: which handler answers a request, and what guards it. A
-- call is a request by its route, with what axum has read of the path, the query and the body.
use my_template.Prelude.{ℕ, ◌<>◌, Bool, true, false, String, Option, List, to_string}
use my_template.Core.Params.{ListParams}
use my_template.Http.{
  Request, Response, Next, require_auth, require_banto_client_header, login_handler, logout_handler,
  check_handler, identity_handler,
}
use my_template.Storage.{Pool}
use my_template.Disk.{Bytes}
use my_template.Users.Role.{Role, admin, editor}
use my_template.Settings.Values.{AuditSettings}
use my_template.Items.Input.{ItemInput}
use my_template.Items.Import.{ItemImportRow}
use my_template.Rest.World.{Data, Handler, serve_with}
use my_template.Rest.Env.{Env}
use my_template.Rest.Guard.{RoleGuard, require_role_at_least}
use my_template.Rest.Items.{
  items_list, items_get, items_create, items_update, items_delete, items_import,
}
use my_template.Rest.Users.{
  users_list, users_create, users_update, users_reset_password, users_delete, ui_settings_get,
  ui_settings_set,
}
use my_template.Rest.Files.{
  attachments_list, attachments_download, attachments_thumbnail, attachments_upload,
  attachments_delete, backups_create_handler, backups_list_handler, backups_download_handler,
  backups_restore_from_upload, backups_restore_from_existing, backups_pending_status,
  backups_cancel_pending,
}
use my_template.Rest.Account.{
  auth_status_handler, auth_setup_handler, auth_change_password_handler,
  audited_credential_verifier, audit_logout_middleware, audit_log_list, audit_config_get,
  audit_config_apply,
}

-- The routes behind `require_auth` alone.
pub data OpenCall : Type 0 where
  list_items : ListParams → OpenCall
  get_item : ℕ → OpenCall
  list_attachments : (resource resource_id : String) → OpenCall
  download_attachment : ℕ → OpenCall
  show_thumbnail : ℕ → OpenCall
  get_ui_setting : String → OpenCall
  set_ui_setting : (key value : String) → OpenCall

-- The routes behind `require_role_at_least` as well.
pub data RoleCall : Type 0 where
  create_item : ItemInput → RoleCall
  update_item : ℕ → ItemInput → RoleCall
  delete_item : ℕ → RoleCall
  import_items : List ItemImportRow → RoleCall
  upload_attachment : (resource resource_id file_name : String) → Bytes → RoleCall
  delete_attachment : ℕ → RoleCall
  list_users : RoleCall
  create_user : (username password display_name : String) → Role → RoleCall
  update_user : ℕ → String → Role → RoleCall
  reset_password : ℕ → String → RoleCall
  delete_user : ℕ → RoleCall
  list_audit_log : ListParams → RoleCall
  get_audit_config : RoleCall
  apply_audit_config : AuditSettings → RoleCall
  create_backup : RoleCall
  list_backups : RoleCall
  download_backup : String → RoleCall
  restore_upload : Option String → Bytes → RoleCall
  restore_existing : String → RoleCall
  pending_status : RoleCall
  cancel_pending : RoleCall

-- The routes of the account, which need no session or look for it themselves. The address of the
-- peer is that of the connection.
pub data AuthCall : Type 0 where
  login : (peer : Option String) (username password : String) (remember : Bool) → AuthCall
  logout check identity status : AuthCall
  first_setup : (username password display_name : String) → AuthCall
  change_password : (current_password new_password : String) → AuthCall

pub data Call : Type 0 where
  open_call : OpenCall → Call
  role_call : RoleCall → Call
  auth_call : AuthCall → Call

pub record Route : Type 0 where
  pub guard : RoleGuard
  pub method : String
  pub path : String

abbrev route : Role → String → String → String → Route
route min resource method path = record {
  guard = record { min = min; resource = resource };
  method = method;
  path = path;
}

-- The guard of each router, and the method and the path of each route. The path of a backup is that of the
-- decoded name, while a request's path, which a denial records, has the name as it was sent: the two are the
-- same text where the name needs no escape.
unfoldable pub route_of : RoleCall → Route
route_of (create_item input) = route editor "items" "POST" "/api/items"
route_of (update_item id input) = route editor "items" "PUT" ("/api/items/" <> to_string id)
route_of (delete_item id) = route editor "items" "DELETE" ("/api/items/" <> to_string id)
route_of (import_items rows) = route editor "items" "POST" "/api/items/import"
route_of (upload_attachment resource resource_id file_name body) =
    route editor "attachments" "POST" "/api/attachments"
route_of (delete_attachment id) =
    route editor "attachments" "DELETE" ("/api/attachments/" <> to_string id)
route_of list_users = route admin "users" "GET" "/api/users"
route_of (create_user username password display_name role) = route admin "users" "POST" "/api/users"
route_of (update_user id display_name role) =
    route admin "users" "PUT" ("/api/users/" <> to_string id)
route_of (reset_password id new_password) =
    route admin "users" "POST" ("/api/users/" <> to_string id <> "/reset-password")
route_of (delete_user id) = route admin "users" "DELETE" ("/api/users/" <> to_string id)
route_of (list_audit_log params) = route admin "audit_log" "POST" "/api/audit-log/list"
route_of get_audit_config = route admin "audit_log" "GET" "/api/audit-log/config"
route_of (apply_audit_config config) = route admin "audit_log" "PUT" "/api/audit-log/config"
route_of create_backup = route admin "backups" "POST" "/api/backups"
route_of list_backups = route admin "backups" "GET" "/api/backups"
route_of (download_backup file_name) = route admin "backups" "GET" ("/api/backups/" <> file_name)
route_of (restore_upload file_name body) = route admin "backups" "POST" "/api/backups/restore"
route_of (restore_existing file_name) =
    route admin "backups" "POST" ("/api/backups/" <> file_name <> "/restore")
route_of pending_status = route admin "backups" "GET" "/api/backups/pending-restore"
route_of cancel_pending = route admin "backups" "DELETE" "/api/backups/pending-restore"

module _ {Picture : Type 0} (env : Env Picture) where
  unfoldable pub open_handler : OpenCall → Request → Handler Response
  unfolding items_list items_get attachments_list attachments_download attachments_thumbnail
      ui_settings_get ui_settings_set
  open_handler (list_items params) req = items_list env params
  open_handler (get_item id) req = items_get env id
  open_handler (list_attachments resource resource_id) req =
      attachments_list env resource resource_id
  open_handler (download_attachment id) req = attachments_download env id
  open_handler (show_thumbnail id) req = attachments_thumbnail env id
  open_handler (get_ui_setting key) req = ui_settings_get env key req
  open_handler (set_ui_setting key value) req = ui_settings_set env key value req

  unfoldable pub role_handler : RoleCall → Request → Handler Response
  role_handler (create_item input) req = items_create env input req
  role_handler (update_item id input) req = items_update env id input req
  role_handler (delete_item id) req = items_delete env id req
  role_handler (import_items rows) req = items_import env rows req
  role_handler (upload_attachment resource resource_id file_name body) req =
      attachments_upload env resource resource_id file_name body req
  role_handler (delete_attachment id) req = attachments_delete env id req
  role_handler list_users req = users_list env
  role_handler (create_user username password display_name role) req =
      users_create env username password display_name role req
  role_handler (update_user id display_name role) req = users_update env id display_name role req
  role_handler (reset_password id new_password) req = users_reset_password env id new_password req
  role_handler (delete_user id) req = users_delete env id req
  role_handler (list_audit_log params) req = audit_log_list env params
  role_handler get_audit_config req = audit_config_get env
  role_handler (apply_audit_config config) req = audit_config_apply env config req
  role_handler create_backup req = backups_create_handler env req
  role_handler list_backups req = backups_list_handler env
  role_handler (download_backup file_name) req = backups_download_handler env file_name
  role_handler (restore_upload file_name body) req =
      backups_restore_from_upload env file_name body req
  role_handler (restore_existing file_name) req = backups_restore_from_existing env file_name req
  role_handler pending_status req = backups_pending_status env
  role_handler cancel_pending req = backups_cancel_pending env req

  -- The handlers of banto-server's `auth_routes`, with its login and with the app's middleware around them.
  unfoldable pub auth_route : AuthCall → Next (Pool Data)
  unfolding login_handler logout_handler check_handler identity_handler audited_credential_verifier
      audit_logout_middleware serve_with auth_status_handler auth_setup_handler
      auth_change_password_handler
  auth_route (login peer username password remember) req s w =
      audit_logout_middleware env false
        (λ req s w.
          login_handler to_string (audited_credential_verifier env) peer username password remember
            env.fresh env.clock.handler env.clock.record_at s w)
        req s w
  auth_route logout req s w =
      audit_logout_middleware env true
        (λ req s w. let (response, s') = logout_handler req s in (response, s', w)) req s w
  auth_route check req s w =
      audit_logout_middleware env false
        (λ req s w. let (response, s') = check_handler env.clock.handler req s in (response, s', w))
        req s w
  auth_route identity req s w =
      audit_logout_middleware env false
        (λ req s w.
          let (response, s') = identity_handler env.clock.handler req s in (response, s', w))
        req s w
  auth_route status req s w = serve_with (λ req. auth_status_handler env) req s w
  auth_route (first_setup username password display_name) req s w =
      serve_with (λ req. auth_setup_handler env username password display_name) req s w
  auth_route (change_password current_password new_password) req s w =
      serve_with (λ req. auth_change_password_handler env current_password new_password req) req s w

  unfoldable pub guarded : RoleCall → Next (Pool Data)
  unfolding require_auth require_role_at_least route_of serve_with role_handler
  guarded call =
      let r = route_of call in
      require_auth env.clock.auth
        (require_role_at_least env r.method r.path r.guard (serve_with (role_handler call)))

  unfoldable pub answer_call : Call → Next (Pool Data)
  unfolding require_auth serve_with open_handler guarded auth_route
  answer_call (open_call call) = require_auth env.clock.auth (serve_with (open_handler call))
  answer_call (role_call call) = guarded call
  answer_call (auth_call call) = auth_route call

  unfoldable pub api_router : Call → Next (Pool Data)
  unfolding require_banto_client_header answer_call
  api_router call = require_banto_client_header (answer_call call)
