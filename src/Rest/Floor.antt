-- ===== src/Rest/Floor.antt =====
-- rest/mod.rs, the table of the routes in its documentation: the role that each route asks for.
use my_template.Prelude.{
  ◌≡◌, refl, sym, ◌⊎◌, inl, inr, arith, String, Option, none, some, true, Bool-cases,
}
use mathlib.Core.Path.{subst}
use my_template.Auth.{AuthState, Identity, TokenRecord}
use my_template.Http.{Request, bearer_token}
use my_template.Storage.{Pool}
use my_template.Users.Role.{Role, admin, editor, viewer, as_str, at_least, from_str-as_str}
use my_template.Rest.World.{Data, resolve, serve_with}
use my_template.Rest.Env.{Env}
use my_template.Rest.Session.{IsActor, KeepsSession, resolve-keeps, resolve-IsActor}
use my_template.Rest.Denied.{TooLow, IsDenied, require_role_at_least-IsDenied}
use my_template.Rest.Routes.{
  RoleCall, role_call, role_handler, guarded, answer_call, route_of, create_item, update_item,
  delete_item, import_items, upload_attachment, delete_attachment, list_users, create_user,
  update_user, reset_password, delete_user, list_audit_log, get_audit_config, apply_audit_config,
  create_backup, list_backups, download_backup, restore_upload, restore_existing, pending_status,
  cancel_pending,
}

abbrev pub least_role : RoleCall → Role
least_role (create_item input) = editor
least_role (update_item id input) = editor
least_role (delete_item id) = editor
least_role (import_items rows) = editor
least_role (upload_attachment resource resource_id file_name body) = editor
least_role (delete_attachment id) = editor
least_role list_users = admin
least_role (create_user username password display_name role) = admin
least_role (update_user id display_name role) = admin
least_role (reset_password id new_password) = admin
least_role (delete_user id) = admin
least_role (list_audit_log params) = admin
least_role get_audit_config = admin
least_role (apply_audit_config config) = admin
least_role create_backup = admin
least_role list_backups = admin
least_role (download_backup file_name) = admin
least_role (restore_upload file_name body) = admin
least_role (restore_existing file_name) = admin
least_role pending_status = admin
least_role cancel_pending = admin

-- The role texts that the documentation lets through where it asks for a role.
abbrev pub IsAllowed : Role → String → Type 0
IsAllowed admin text = text ≡ "admin"
IsAllowed editor text = (text ≡ "admin") ⊎ (text ≡ "editor")
IsAllowed viewer text = (text ≡ "admin") ⊎ (text ≡ "editor") ⊎ (text ≡ "viewer")

-- No session of the request's token has a role that is let through.
abbrev pub Lacks : RoleCall → Request → AuthState → Type 0
Lacks call req s =
    (token : String) (r : TokenRecord)
    → bearer_token req ≡ some token
    → s.tokens token ≡ some r
    → IsAllowed (least_role call) r.identity.role
    → ⊥

allowed : (min role : Role) → at_least role min ≡ true → IsAllowed min (as_str role)
unfolding at_least as_str
allowed admin admin e = refl
allowed admin editor e = ground arith
allowed admin viewer e = ground arith
allowed editor admin e = inl refl
allowed editor editor e = inr refl
allowed editor viewer e = ground arith
allowed viewer admin e = inl refl
allowed viewer editor e = inr (inl refl)
allowed viewer viewer e = inr (inr refl)

Lacks-TooLow :
    (call : RoleCall) (req : Request) (s : AuthState)
    → Lacks call req s
    → TooLow (least_role call) req s
Lacks-TooLow call req s lacks token r sent there role reads =
    elim (Bool-cases (at_least role (least_role call))) [
      | inl e ↦ absurd (
          lacks token r sent there (
            subst (IsAllowed (least_role call))
              (sym ((from_str-as_str r.identity.role role).0 reads))
              (allowed (least_role call) role e)))
      | inr e ↦ e
    ]

min-least_role : (call : RoleCall) → least_role call ≡ (route_of call).guard.min
unfolding route_of
min-least_role call = ground arith

earlier :
    (req : Request) (s s' : AuthState) (found : Option Identity)
    → KeepsSession req s s'
    → IsActor req s' found
    → IsActor req s found
earlier req s s' none keeps h = tt
earlier req s s' (some i) keeps h = keeps i h

module _ {Picture : Type 0} (env : Env Picture) (call : RoleCall) (req : Request) (s : AuthState)
    (w : Pool Data) where
  -- A request with no session, or with sessions of roles alone that the documentation of the routes does not
  -- let through: it gets 401 if `require_auth` finds no identity, and 403 else. Of the data nothing but the
  -- log changes. The log is as it was at a 401; at a 403 it is what the record of the denial makes of it,
  -- under the identity that the guard of the role finds, which is that of a session of the request (one row,
  -- unless the statement fails), and as it was if the session ended between the two guards.
  pub answer_call-IsDenied :
      Lacks call req s
      → let r = route_of call in
        let (first, s') = resolve env.clock.auth req s in
        let second = (resolve env.clock.role req s').0 in
        IsActor req s first
        × IsActor req s second
        × IsDenied env r.method r.path r.guard first second w
            (answer_call env (role_call call) req s w)
  unfolding answer_call guarded
  answer_call-IsDenied lacks =
      let r = route_of call in
      let s' = (resolve env.clock.auth req s).1 in
      (
        resolve-IsActor env.clock.auth req s,
        earlier req s s' (resolve env.clock.role req s').0
            (λ i h. resolve-keeps env.clock.auth req s i h) (resolve-IsActor env.clock.role req s'),
        require_role_at_least-IsDenied env r.method r.path r.guard
            (serve_with (role_handler env call)) req s w
            (subst (λ min. TooLow min req s) (min-least_role call) (Lacks-TooLow call req s lacks)),
      )
