-- ===== src/Rest/Recorded.antt =====
-- rest/mod.rs: a write is recorded once it has succeeded, and only then, with the session's user as its actor.
pub mod Methods
pub mod AttachmentMethods
pub mod Writes
pub mod Steps
pub mod Calls
use mathlib.Core.Path.{subst}
use my_template.Prelude.{◌≡◌, refl, ap, ◌∙◌, ◌⊎◌, inl, inr, String, Option, none, some, List}
use my_template.Core.{Result, ok, err}
use my_template.Core.Params.{Value}
use my_template.Auth.{AuthState, Identity}
use my_template.Http.{Request, Response}
use my_template.Storage.{Exec, Pool, pure, resume, ◌>>=◌}
use my_template.Storage.Ensures.{Post}
use my_template.Storage.Rows.{Table}
use my_template.Storage.Spending.{Remains, Remains-trans, Spends, Within, Within-pure}
use my_template.Audit.Service.{AuditLogEntry, detail_text, record_entry}
use my_template.Audit.Log.{recorded, record_entry-recorded, record_entry-Spends}
use my_template.Rest.World.{
  Server, Handler, Part, zoom, zoom_parts, on_parts, outcome, actor_identity, resolve, with_auth,
}
use my_template.Rest.Env.{Env}
use my_template.Rest.Audited.{entry, id_of, role_of, audit, audit_parts, record_as}
use my_template.Rest.Session.{IsActor, KeepsSession, IsSession, resolve-keeps, resolve-IsActor}
use my_template.Rest.Ensures.{at_part}

module _ {Picture : Type 0} (env : Env Picture) (req : Request) (action resource : String)
    (faults : List (Option String)) where
  -- The sessions where the record begins: those of the start, or those that an earlier look at the request's
  -- identity leaves.
  abbrev IsSeen : AuthState → AuthState → Type 0
  IsSeen s s' = (s' ≡ s) ⊎ (s' ≡ (resolve env.clock.handler req s).1)

  -- The log is what one record makes of it, under the identity that the record finds: one row at its end, unless
  -- the detail cannot be written or the statement fails. The statement consults the failures that are left of
  -- the given ones.
  pub record IsLogged (t t' : Server) : Type 0 where
    pub before : AuthState
    pub seen : IsSeen t.auth before
    pub actor : IsActor req t.auth (resolve env.clock.record_at req before).0
    pub entity_id : Option String
    pub detail : Option Value
    pub result : String
    pub left : List (Option String)
    pub remains : Remains faults left
    pub log :
        let identity = (resolve env.clock.record_at req before).0 in
        t'.parts.audit
        ≡ recorded env.now
            (entry (id_of identity) (role_of identity) action resource entity_id detail result)
            t.parts.audit
            (detail_text env.json detail)
            left

  abbrev pub Recorded : Server → Post Server Response
  Recorded t (ok response) t' = IsLogged t t'
  Recorded t (err e) t' = t'.parts.audit ≡ t.parts.audit

  -- A state on the way: no record yet.
  pub record IsOnTheWay (t t' : Server) : Type 0 where
    pub seen : IsSeen t.auth t'.auth
    pub log : t'.parts.audit ≡ t.parts.audit

  pub at_start : (t : Server) → IsOnTheWay t t
  at_start t = record { seen = inl refl; log = refl }

  keeps : (s s' : AuthState) → IsSeen s s' → KeepsSession req s s'
  keeps s s' (inl e) i h = subst (λ x. IsSession req x i) e h
  keeps s s' (inr e) i h =
      resolve-keeps env.clock.handler req s i (subst (λ x. IsSession req x i) e h)

  earlier :
      (s s' : AuthState) (found : Option Identity)
      → IsSeen s s'
      → IsActor req s' found
      → IsActor req s found
  earlier s s' none seen h = tt
  earlier s s' (some i) seen h = keeps s s' seen i h

  pub recording :
      (t t' : Server) (entity_id : Option String) (detail : Option Value) (result : String)
      (next : Handler Response)
      → IsOnTheWay t t'
      → ((t'' : Server) → IsLogged t t'' → Within faults t'' next (Recorded t))
      → Within faults t'
          (record_as env req action resource entity_id detail result >>= λ done. next)
          (Recorded t)
  unfolding record_as actor_identity with_auth audit audit_parts zoom_parts on_parts ◌>>=◌ resume
  recording t t' entity_id detail result next w after = record {
    from = λ fs h.
        let (found, s) = resolve env.clock.record_at req t'.auth in
        let e = entry (id_of found) (role_of found) action resource entity_id detail result in
        let log : Pool (Table AuditLogEntry) = record { tables = t'.parts.audit; faults = fs } in
        let (r, log') = record_entry env.json env.now e log in
        (after _ (record {
          before = t'.auth;
          seen = w.seen;
          actor =
              earlier t.auth t'.auth found w.seen (resolve-IsActor env.clock.record_at req t'.auth);
          entity_id = entity_id;
          detail = detail;
          result = result;
          left = fs;
          remains = h;
          log =
              record_entry-recorded env.now e t'.parts.audit env.json fs
              ∙ ap (λ a. recorded env.now e a (detail_text env.json detail) fs) w.log;
        })).from
          log'.faults
          (Remains-trans faults fs _ h ((record_entry-Spends env.json env.now e).from log));
  }

  pub answered :
      (t t' : Server) (response : Response)
      → IsLogged t t'
      → Within faults t' (pure response) (Recorded t)
  answered t t' response h = Within-pure faults response h

  -- A service method on a part that is not the log.
  module _ {T A : Type 0} (part : Part T) (m : Exec T A) (spends : Spends m) (t t' : Server)
      (w : IsOnTheWay t t')
      (apart : (x : T) → (at_part part t' x).parts.audit ≡ t'.parts.audit) where
    passed : (x : T) → IsOnTheWay t (at_part part t' x)
    passed x = record { seen = w.seen; log = apart x ∙ w.log }

    pub working :
        (next : A → Handler Response)
        → ((a : A) (t'' : Server) → IsOnTheWay t t'' → Within faults t'' (next a) (Recorded t))
        → Within faults t' (zoom part m >>= next) (Recorded t)
    unfolding zoom zoom_parts on_parts ◌>>=◌ resume
    working next after = record {
      from = λ fs h.
          let start : Pool T = record { tables = part.look t'.parts; faults = fs } in
          let (r, db) = m start in
          goes r db (Remains-trans faults fs db.faults h (spends.from start));
    }
      where
        goes :
            (r : Result A) (db : Pool T)
            → Remains faults db.faults
            → let (out, after) =
                resume next
                  (r, record { tables = at_part part t' db.tables; faults = db.faults }) in
              Recorded t out after.tables
        goes (ok a) db h = (after a (at_part part t' db.tables) (passed db.tables)).from db.faults h
        goes (err e) db h = apart db.tables ∙ w.log

    pub trying :
        (next : Result A → Handler Response)
        → ((r : Result A) (t'' : Server)
            → IsOnTheWay t t''
            → Within faults t'' (next r) (Recorded t))
        → Within faults t' (outcome (zoom part m) >>= next) (Recorded t)
    unfolding outcome zoom zoom_parts on_parts ◌>>=◌ resume
    trying next after = record {
      from = λ fs h.
          let start : Pool T = record { tables = part.look t'.parts; faults = fs } in
          let (r, db) = m start in
          (after r (at_part part t' db.tables) (passed db.tables)).from db.faults
            (Remains-trans faults fs db.faults h (spends.from start));
    }

  -- The handler looks at the request's identity before anything else.
  pub actor_read :
      (t : Server) (next : Option Identity → Handler Response)
      → ((found : Option Identity) (t' : Server)
          → IsOnTheWay t t'
          → Within faults t' (next found) (Recorded t))
      → Within faults t (actor_identity env.clock.handler req >>= next) (Recorded t)
  unfolding actor_identity with_auth ◌>>=◌ resume
  actor_read t next after = record {
    from = λ fs h.
        let (found, s) = resolve env.clock.handler req t.auth in
        (after found (record t { auth = s }) (record { seen = inr refl; log = refl })).from fs h;
  }
