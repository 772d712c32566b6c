-- ===== src/Rest/Audited.antt =====
-- rest/mod.rs: the records of the audit log. A record is never an error.
use my_template.Prelude.{String, Option, none, some}
use my_template.Core.Params.{Value}
use my_template.Auth.{Identity}
use my_template.Http.{Request}
use my_template.Storage.{Exec, ◌>>=◌}
use my_template.Audit.Service.{AuditEntry, record_entry}
use my_template.Rest.World.{Data, Handler, zoom_parts, on_parts, at_audit, actor_identity}
use my_template.Rest.Env.{Env}

abbrev pub id_of : Option Identity → Option String
id_of none = none
id_of (some i) = some i.id

abbrev pub role_of : Option Identity → Option String
role_of none = none
role_of (some i) = some i.role

-- An entry of the REST origin.
abbrev pub entry :
    Option String
    → Option String
    → String
    → String
    → Option String
    → Option Value
    → String
    → AuditEntry
entry actor_username actor_role action resource entity_id detail result = record {
  actor_username = actor_username;
  actor_role = actor_role;
  action = action;
  resource = resource;
  entity_id = entity_id;
  detail = detail;
  origin = "rest";
  result = result;
}

module _ {Picture : Type 0} (env : Env Picture) where
  unfoldable pub audit_parts : AuditEntry → Exec Data (Unit {0})
  unfolding zoom_parts record_entry
  audit_parts e = zoom_parts at_audit (record_entry env.json env.now e)

  unfoldable pub audit : AuditEntry → Handler (Unit {0})
  unfolding on_parts audit_parts
  audit e = on_parts (audit_parts e)

  -- The actor is resolved anew for each record.
  unfoldable pub record_as :
      Request → String → String → Option String → Option Value → String → Handler (Unit {0})
  unfolding actor_identity audit
  record_as req action resource entity_id detail result = do
    identity ← actor_identity env.clock.record_at req
    audit (entry (id_of identity) (role_of identity) action resource entity_id detail result)

  unfoldable pub record_write :
      Request → String → String → String → Option Value → Handler (Unit {0})
  unfolding record_as
  record_write req action resource entity_id detail =
      record_as req action resource (some entity_id) detail "ok"
