-- ===== src/Rest/World.antt =====
-- rest/mod.rs: the handlers run on the sessions and on the tables of all services, which share one pool, and on
-- the files. A service method works on its own part.
use my_template.Prelude.{ℕ, String, Option, none, some}
use my_template.Prelude.Maps.{Map}
use my_template.Core.{BantoError, Result, ok, err, error_body, status_for}
use my_template.Auth.{AuthState, Identity}
use my_template.Auth.Tokens.{identity_for}
use my_template.Http.{Request, Response, Next, bearer_token, plain, error}
use my_template.Storage.{Exec, Pool}
use my_template.Storage.Rows.{Table}
use my_template.Users.Table.{UsersTable}
use my_template.Audit.Service.{AuditLogEntry}
use my_template.Items.Service.{Store}
use my_template.Attachments.{Attached}
use my_template.Attachments.Service.{on_disk}
use my_template.Disk.{Fs}

pub record Data : Type 0 where
  pub users : UsersTable
  pub settings : Map String
  pub audit : Table AuditLogEntry
  pub store : Store
  pub attached : Attached

-- What a handler runs on.
pub record Server : Type 0 where
  pub auth : AuthState
  pub parts : Data

abbrev pub Handler : Type 0 → Type 0
Handler A = Exec Server A

-- A part of the data.
pub record Part (T : Type 0) : Type 0 where
  pub look : Data → T
  pub put : T → Data → Data

abbrev pub at_users : Part UsersTable
at_users = record { look = λ d. d.users; put = λ t d. record d { users = t } }

abbrev pub at_settings : Part (Map String)
at_settings = record { look = λ d. d.settings; put = λ t d. record d { settings = t } }

abbrev pub at_audit : Part (Table AuditLogEntry)
at_audit = record { look = λ d. d.audit; put = λ t d. record d { audit = t } }

abbrev pub at_store : Part Store
at_store = record { look = λ d. d.store; put = λ t d. record d { store = t } }

abbrev pub at_attached : Part Attached
at_attached = record { look = λ d. d.attached; put = λ t d. record d { attached = t } }

module _ {T A : Type 0} where
  -- A service method on its part.
  unfoldable pub zoom_parts : Part T → Exec T A → Exec Data A
  zoom_parts part m db =
      let (r, after) = m (record { tables = part.look db.tables; faults = db.faults }) in
      (r, record { tables = part.put after.tables db.tables; faults = after.faults })

-- What does not see the sessions.
unfoldable pub on_parts : {A : Type 0} → Exec Data A → Handler A
on_parts m db =
    let (r, after) = m (record { tables = db.tables.parts; faults = db.faults }) in
    (r, record { tables = record db.tables { parts = after.tables }; faults = after.faults })

unfoldable pub zoom : {T A : Type 0} → Part T → Exec T A → Handler A
unfolding zoom_parts on_parts
zoom part m = on_parts (zoom_parts part m)

-- A method of the backups, which work on the files.
unfoldable pub with_files : {A : Type 0} → Fs A → Handler A
with_files act = zoom at_attached (on_disk act)

-- An error that the handler looks at itself.
unfoldable pub outcome : {T A : Type 0} → Exec T A → Exec T (Result A)
outcome m db = let (r, db') = m db in (ok r, db')

unfoldable pub with_auth : {A : Type 0} → (AuthState → A × AuthState) → Handler A
with_auth act db =
    let (a, auth') = act db.tables.auth in
    (ok a, record db { tables = record db.tables { auth = auth' } })

-- The identity of the request's session: it reads the clock, and counts as a use of the token.
unfoldable pub resolve : ℕ → Request → AuthState → Option Identity × AuthState
unfolding bearer_token identity_for
resolve now req s = elim (bearer_token req) [
  | none ↦ (none, s)
  | some token ↦ identity_for s token now
]

unfoldable pub actor_identity : ℕ → Request → Handler (Option Identity)
unfolding with_auth resolve
actor_identity now req = with_auth (resolve now req)

-- `ApiError::into_response`
unfoldable pub api_error : BantoError → Response
unfolding error_body status_for
api_error e = plain (status_for e) (error (error_body e))

unfoldable pub respond : Result Response → Response
unfolding api_error
respond (ok response) = response
respond (err e) = api_error e

-- A handler behind the middleware of banto-server.
unfoldable pub serve_with : (Request → Handler Response) → Next (Pool Data)
unfolding respond
serve_with handler req s w =
    let (r, after) =
      handler req (record { tables = record { auth = s; parts = w.tables }; faults = w.faults }) in
    (respond r, after.tables.auth, record { tables = after.tables.parts; faults = after.faults })
