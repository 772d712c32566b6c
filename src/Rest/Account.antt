-- ===== src/Rest/Account.antt =====
-- rest/auth.rs and rest/audit.rs: the handlers of the account itself, the verifier of the logins and the middleware
-- that records logouts, and the handlers of the audit log.
use my_template.Prelude.{Bool, String, true, false, Option, none, some, to_string, if◌then◌else◌}
use my_template.Core.{
  BantoError, not_found, validation, unauthorized, forbidden, storage, other, ErrorBody, Result, ok,
  err,
}
use my_template.Core.Params.{ListParams, object, field, end}
use my_template.Auth.{Identity}
use my_template.Auth.Tokens.{issue_token}
use my_template.Auth.Login.{Verifier}
use my_template.Http.{Request, Response, Next, plain, error}
use my_template.Http.Answers.{initialized, setup, succeeded, audit_log, audit_settings}
use my_template.Storage.{Exec, Pool, pure, raise, ◌>>=◌, ◌>>◌}
use my_template.Users.Role.{as_str}
use my_template.Users.Service.{
  UserIdentity, is_initialized, setup_first_user, change_password, get_by_username, verify,
}
use my_template.Settings.Values.{AuditSettings}
use my_template.Settings.Service.{audit_config, set_audit_config}
use my_template.Audit.Service.{prune, list}
use my_template.Rest.World.{
  Data, Handler, zoom, zoom_parts, outcome, with_auth, at_users, at_settings, at_audit, resolve,
  actor_identity,
}
use my_template.Rest.Env.{Env}
use my_template.Rest.Json.{optional_integer}
use my_template.Rest.Items.{json}
use my_template.Rest.Audited.{entry, audit, audit_parts, id_of, role_of, record_as}

abbrev pub session_identity : UserIdentity → Identity
session_identity i = record { id = i.username; name = i.display_name; role = as_str i.role }

abbrev pub setup_disallowed : Response
setup_disallowed = plain 403 (error (ErrorBody.other "このサーバーでは初期セットアップが許可されていません"))

-- `get_by_username(…).await.ok().flatten().map(…)`
unfoldable pub entity_id_of : Result (Option UserIdentity) → Option String
entity_id_of (ok (some i)) = some (to_string i.id)
entity_id_of (ok none) = none
entity_id_of (err e) = none

unfoldable pub verified_identity : Result (Option UserIdentity) → Option UserIdentity
verified_identity (ok found) = found
verified_identity (err e) = none

unfoldable pub verified_or_none : {W : Type 0} → Result (Option Identity) × W → Option Identity × W
verified_or_none (ok found, w) = (found, w)
verified_or_none (err e, w) = (none, w)

module _ {Picture : Type 0} (env : Env Picture) where
  unfoldable pub auth_status_handler : Handler Response
  auth_status_handler = do b ← zoom at_users is_initialized; pure (json (initialized b))

  unfoldable pub setup_failed : BantoError → Handler Response
  setup_failed e =
      pure (json (setup (record { success = false; error = some (env.display e); token = none })))

  -- What follows the creation of the first account.
  unfoldable pub setup_done : Result UserIdentity → Handler Response
  setup_done (ok i) = do
    let identity = session_identity i
    audit env (entry (some identity.id) (some identity.role) "setup" "auth" none none "ok")
    issued ← with_auth (λ s. (env.fresh, issue_token s identity env.fresh env.clock.record_at))
    pure (json (setup (record { success = true; error = none; token = some issued })))
  setup_done (err (validation es)) = raise (validation es)
  setup_done (err (not_found resource id)) = setup_failed (not_found resource id)
  setup_done (err unauthorized) = setup_failed unauthorized
  setup_done (err forbidden) = setup_failed forbidden
  setup_done (err (storage text)) = setup_failed (storage text)
  setup_done (err (other text)) = setup_failed (other text)

  unfoldable pub auth_setup_handler : String → String → String → Handler Response
  auth_setup_handler username password display_name =
      if env.allow_setup
      then outcome (
          zoom at_users
            (setup_first_user env.argon env.salt env.now username password display_name))
        >>= setup_done
      else pure setup_disallowed

  -- The change of the password of the request's session.
  unfoldable pub change_own_password : String → String → Option Identity → Handler Response
  change_own_password current_password new_password none = raise unauthorized
  change_own_password current_password new_password (some identity) = do
    zoom at_users
        (change_password env.argon env.salt env.now identity.id current_password new_password)
    found ← outcome (zoom at_users (get_by_username identity.id))
    audit env (
        entry (some identity.id) (some identity.role) "password_change" "users" (entity_id_of found)
          none "ok")
    pure (json succeeded)

  unfoldable pub auth_change_password_handler : String → String → Request → Handler Response
  auth_change_password_handler current_password new_password req = do
    identity ← actor_identity env.clock.handler req
    change_own_password current_password new_password identity

  unfoldable pub login_recorded : String → Option UserIdentity → Exec Data (Option Identity)
  login_recorded username (some i) = do
    audit_parts env (entry (some i.username) (some (as_str i.role)) "login" "auth" none none "ok")
    pure (some (session_identity i))
  login_recorded username none = do
    audit_parts env (entry (some username) none "login_failed" "auth" none none "failed")
    pure none

  unfoldable pub audited_credential_verifier : Verifier (Pool Data)
  audited_credential_verifier username password w = verified_or_none (
      (outcome (zoom_parts at_users (verify env.argon username password)) >>= λ found.
      login_recorded username (verified_identity found))
        w)

  unfoldable pub logged_out : Option Identity → Pool Data → Pool Data
  logged_out identity w =
      (audit_parts env (entry (id_of identity) (role_of identity) "logout" "auth" none none "ok")
        w).1

  -- The identity is read before the token goes, the record is written after.
  unfoldable pub audit_logout_middleware : Bool → Next (Pool Data) → Next (Pool Data)
  audit_logout_middleware is_logout next req s w =
      if is_logout
      then (let (identity, s') = resolve env.clock.handler req s in
          let (response, s'', w') = next req s' w in (response, s'', logged_out identity w'))
      else next req s w

  unfoldable pub pruned : Result AuditSettings → Handler (Unit {0})
  pruned (err e) = pure tt
  pruned (ok config) =
      outcome (zoom at_audit (prune env.older config.retention_days config.retention_rows))
      >>= λ gone. pure tt

  unfoldable pub audit_log_list : ListParams → Handler Response
  audit_log_list params = do
    config ← outcome (zoom at_settings audit_config)
    pruned config
    page ← zoom at_audit (list env.show env.audit_engine params)
    pure (json (audit_log page))

  unfoldable pub audit_config_get : Handler Response
  audit_config_get = do config ← zoom at_settings audit_config; pure (json (audit_settings config))

  unfoldable pub audit_config_apply : AuditSettings → Request → Handler Response
  audit_config_apply config req = do
    zoom at_settings (set_audit_config config)
    record_as env req "settings_change" "settings" none
        (some (
          object (
            field "retentionDays" (optional_integer config.retention_days)
              (field "retentionRows" (optional_integer config.retention_rows) end))))
        "ok"
    stored ← zoom at_settings audit_config
    pure (json (audit_settings stored))
