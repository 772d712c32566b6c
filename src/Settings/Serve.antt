-- ===== src/Settings/Serve.antt =====
-- settings.rs: any sequence of calls of the service, with any failures among their statements.
use my_template.Prelude.{String, Option, List, [], ◌∷◌}
use my_template.Prelude.Maps.{Map}
use my_template.Storage.{Pool, query}
use my_template.Storage.Ensures.{
  Ensures, Ensures-pure, Ensures-query, Ensures-lift, Ensures-statement,
}
use my_template.Settings.Values.{ServerSettings, AuthSettings, AuditSettings}
use my_template.Settings.Service.{
  get, ui_get, ui_set, server_config, set_server_config, auth_config, set_auth_config, audit_config,
  set_audit_config,
}
use my_template.Settings.Exclusion.{
  IsExclusive, Exclusive, set_server_config-Exclusive, set_auth_config-Exclusive,
  set_audit_config-Exclusive, ui_set-Exclusive,
}

-- The typed calls; the bare `set` can write any key.
pub data Call : Type 0 where
  read : (key : String) → Call
  read_ui : (username key : String) → Call
  write_ui : (username key value : String) → Call
  read_server : Call
  change_server : ServerSettings → Call
  read_auth : Call
  change_auth : AuthSettings → Call
  read_audit : Call
  change_audit : AuditSettings → Call

unfoldable pub serve : Call → Pool (Map String) → Pool (Map String)
serve (read key) db = (get key db).1
serve (read_ui username key) db = (ui_get username key db).1
serve (write_ui username key value) db = (ui_set username key value db).1
serve read_server db = (server_config db).1
serve (change_server config) db = (set_server_config config db).1
serve read_auth db = (auth_config db).1
serve (change_auth config) db = (set_auth_config config db).1
serve read_audit db = (audit_config db).1
serve (change_audit config) db = (set_audit_config config db).1

unfoldable pub serve_all : List Call → Pool (Map String) → Pool (Map String)
unfolding serve
serve_all [] db = db
serve_all (call ∷ calls) db = serve_all calls (serve call db)

module _ (t : Map String) (x : IsExclusive t) where
  get-Exclusive : (key : String) → Ensures t (get key) (Exclusive (Option String))
  unfolding get query
  get-Exclusive key = Ensures-statement _ (λ text. x) x

  ui_get-Exclusive :
      (username key : String) → Ensures t (ui_get username key) (Exclusive (Option String))
  unfolding ui_get
  ui_get-Exclusive username key = Ensures-lift _ _ (λ e same. x) λ done named. get-Exclusive _

  server_config-Exclusive : Ensures t server_config (Exclusive ServerSettings)
  unfolding server_config get
  server_config-Exclusive =
      Ensures-query _ _ (λ text. x)
        (Ensures-query _ _ (λ text. x) (Ensures-query _ _ (λ text. x) (Ensures-pure _ x)))

  auth_config-Exclusive : Ensures t auth_config (Exclusive AuthSettings)
  unfolding auth_config get
  auth_config-Exclusive =
      Ensures-query _ _ (λ text. x)
        (Ensures-query _ _ (λ text. x)
          (Ensures-query _ _ (λ text. x) (Ensures-query _ _ (λ text. x) (Ensures-pure _ x))))

  audit_config-Exclusive : Ensures t audit_config (Exclusive AuditSettings)
  unfolding audit_config get
  audit_config-Exclusive =
      Ensures-query _ _ (λ text. x) (Ensures-query _ _ (λ text. x) (Ensures-pure _ x))

serve-Exclusive :
    (call : Call) (db : Pool (Map String))
    → IsExclusive db.tables
    → IsExclusive (serve call db).tables
unfolding serve
serve-Exclusive (read key) db x = (get-Exclusive db.tables x key).from db.faults
serve-Exclusive (read_ui username key) db x =
    (ui_get-Exclusive db.tables x username key).from db.faults
serve-Exclusive (write_ui username key value) db x =
    (ui_set-Exclusive db.tables x username key value).from db.faults
serve-Exclusive read_server db x = (server_config-Exclusive db.tables x).from db.faults
serve-Exclusive (change_server config) db x =
    (set_server_config-Exclusive config db.tables x).from db.faults
serve-Exclusive read_auth db x = (auth_config-Exclusive db.tables x).from db.faults
serve-Exclusive (change_auth config) db x =
    (set_auth_config-Exclusive config db.tables x).from db.faults
serve-Exclusive read_audit db x = (audit_config-Exclusive db.tables x).from db.faults
serve-Exclusive (change_audit config) db x =
    (set_audit_config-Exclusive db.tables x config).from db.faults

-- Where LAN access and switched-off authentication are not both on, no sequence of the typed calls turns
-- both on, whichever statements fail, one write of a call without the next included, while one call ends
-- before the next begins.
pub serve_all-IsExclusive :
    (calls : List Call) (db : Pool (Map String))
    → IsExclusive db.tables
    → IsExclusive (serve_all calls db).tables
unfolding serve_all
serve_all-IsExclusive [] db x = x
serve_all-IsExclusive (call ∷ calls) db x =
    serve_all-IsExclusive calls (serve call db) (serve-Exclusive call db x)
