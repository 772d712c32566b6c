-- ===== src/Settings/Service.antt =====
-- settings.rs, `SettingsService`: the `settings` table (migration 0002) is a map from keys to texts, and
-- each `get` and `set` is one statement of its own.
use my_template.Prelude.{String, ◌<>◌, Option, if◌then◌else◌, pos, to_string, to_string_ℤ}
use my_template.Prelude.Maps.{Map, insert}
use my_template.Core.{ok, other}
use my_template.Storage.{Exec, statement, query, pure, raise, lift, ◌>>=◌, ◌>>◌}
use my_template.Users.Role.{as_str}
use my_template.Settings.Values.{
  ServerSettings, AuthSettings, AuditSettings, default_server, default_auth, default_audit,
  key_server_enabled, key_server_bind, key_server_port, key_auth_disabled, key_auth_disabled_role,
  key_autologin_enabled, key_autologin_username, key_audit_retention_days, key_audit_retention_rows,
  parse_retention, validate_ui_key, validate_ui_value, unwrap_or, flag, port_of, role_of,
  unless_empty, bool_text,
}

abbrev pub Settings : Type 0 → Type 0
Settings = Exec (Map String)

unfoldable pub get : String → Settings (Option String)
get key = query (λ t. t key)

unfoldable pub set : String → String → Settings (Unit {0})
set key value = statement (λ t. (ok tt, insert key value t))

-- `format!("ui.{username}.{key}")`
abbrev pub ui_storage_key : String → String → String
ui_storage_key username key = "ui." <> username <> "." <> key

unfoldable pub ui_get : String → String → Settings (Option String)
unfolding get
ui_get username key = do lift (validate_ui_key key); get (ui_storage_key username key)

unfoldable pub ui_set : String → String → String → Settings (Unit {0})
unfolding set
ui_set username key value = do
  lift (validate_ui_key key)
  lift (validate_ui_value value)
  set (ui_storage_key username key) value

unfoldable pub server_config : Settings ServerSettings
unfolding get flag port_of
server_config = do
  enabled ← get key_server_enabled
  bind ← get key_server_bind
  port ← get key_server_port
  pure (record {
    enabled = flag default_server.enabled enabled;
    bind = unwrap_or default_server.bind bind;
    port = unwrap_or default_server.port (port_of port);
  })

unfoldable pub auth_config : Settings AuthSettings
unfolding get flag role_of unless_empty
auth_config = do
  disabled ← get key_auth_disabled
  disabled_role ← get key_auth_disabled_role
  autologin_enabled ← get key_autologin_enabled
  autologin_username ← get key_autologin_username
  pure (record {
    disabled = flag default_auth.disabled disabled;
    disabled_role = unwrap_or default_auth.disabled_role (role_of disabled_role);
    autologin_enabled = flag default_auth.autologin_enabled autologin_enabled;
    autologin_username = unless_empty autologin_username;
  })

unfoldable pub write_server : ServerSettings → Settings (Unit {0})
unfolding set bool_text
write_server config = do
  set key_server_enabled (bool_text config.enabled)
  set key_server_bind config.bind
  set key_server_port (to_string config.port)
  pure tt

unfoldable pub set_server_config : ServerSettings → Settings (Unit {0})
unfolding write_server auth_config
set_server_config config =
    if config.enabled
    then (do
      auth ← auth_config
      if auth.disabled then raise (other "認証無効モード中はLANアクセスを有効化できません") else write_server config)
    else write_server config

unfoldable pub write_auth : AuthSettings → Settings (Unit {0})
unfolding set bool_text
write_auth config = do
  set key_auth_disabled (bool_text config.disabled)
  set key_auth_disabled_role (as_str config.disabled_role)
  set key_autologin_enabled (bool_text config.autologin_enabled)
  set key_autologin_username (unwrap_or "" config.autologin_username)
  pure tt

unfoldable pub set_auth_config : AuthSettings → Settings (Unit {0})
unfolding write_auth server_config
set_auth_config config =
    if config.disabled
    then (do
      server ← server_config
      if server.enabled then raise (other "LANアクセスが有効な間は認証無効モードを有効化できません") else write_auth config)
    else write_auth config

unfoldable pub audit_config : Settings AuditSettings
unfolding get parse_retention
audit_config = do
  days ← get key_audit_retention_days
  rows ← get key_audit_retention_rows
  pure (record {
    retention_days = parse_retention days default_audit.retention_days;
    retention_rows = parse_retention rows default_audit.retention_rows;
  })

unfoldable pub set_audit_config : AuditSettings → Settings (Unit {0})
unfolding set
set_audit_config config = do
  set key_audit_retention_days (to_string_ℤ (unwrap_or (pos 0) config.retention_days))
  set key_audit_retention_rows (to_string_ℤ (unwrap_or (pos 0) config.retention_rows))
  pure tt
