-- ===== src/Rest/Denied.antt =====
-- rest/mod.rs: a request whose session has not the role of the route.
use mathlib.Core.Path.{subst}
use my_template.Prelude.{
  ℕ, ◌≡◌, refl, sym, ap, ◌∙◌, inl, inr, false, String, Option, none, some, Option-cases,
  if◌then◌else◌, eq_refl,
}
use my_template.Prelude.Maps
use my_template.Core.{Result, ok, err}
use my_template.Core.Params.{string}
use my_template.Auth.{AuthState, Identity, TokenRecord}
use my_template.Auth.Tokens.{identity_for}
use my_template.Http.{Request, Response, Next, bearer_token, require_auth, unauthorized_response}
use my_template.Storage.{Pool, pure, resume, ◌>>=◌}
use my_template.Http.Guards.{refused, admitted}
use my_template.Storage.Rows.{Table}
use my_template.Audit.Service.{AuditLogEntry, AuditEntry, detail_text, record_entry, swallow}
use my_template.Audit.Log.{recorded, record_entry-recorded}
use my_template.Users.Role.{Role, from_str, at_least}
use my_template.Rest.World.{Data, resolve, serve_with, respond, on_parts, zoom_parts}
use my_template.Rest.Env.{Env}
use my_template.Rest.Session.{resolve-sent, identity_for-cases}
use my_template.Rest.Json.{two}
use my_template.Rest.Audited.{entry, audit, audit_parts}
use my_template.Rest.Guard.{
  reaches, RoleGuard, admits, deny, require_role_at_least, forbidden_response,
}

-- No session that the request's token has reaches the role.
abbrev pub TooLow : Role → Request → AuthState → Type 0
TooLow min req s =
    (token : String) (r : TokenRecord)
    → bearer_token req ≡ some token
    → s.tokens token ≡ some r
    → (role : Role) → from_str r.identity.role ≡ ok role
    → at_least role min ≡ false

not_admitted :
    (min : Role) (i : Identity)
    → ((role : Role) → from_str i.role ≡ ok role → at_least role min ≡ false)
    → admits min (some i) ≡ false
unfolding admits
not_admitted min i low = go (from_str i.role) low
  where
    go :
        (r : Result Role)
        → ((role : Role) → r ≡ ok role → at_least role min ≡ false)
        → reaches min r ≡ false
    go (ok role) low = low role refl
    go (err e) low = refl

too_low :
    (min : Role) (req : Request) (s : AuthState) (token : String) (now : ℕ)
    → bearer_token req ≡ some token
    → TooLow min req s
    → admits min (identity_for s token now).0 ≡ false
unfolding admits
too_low min req s token now sent low = elim (identity_for-cases s token now) [
  | inl gone ↦ subst (λ found. admits min found ≡ false) (sym gone) refl
  | inr (r, there, e) ↦
      subst (λ found. admits min found ≡ false) (sym (ap (λ p. p.0) e))
        (not_admitted min r.identity (low token r sent there))
]

some_injective : (x y : TokenRecord) → some x ≡ some y → x ≡ y
some_injective x y e = cc e

-- A use of the token leaves its identity as it is.
touched :
    (min : Role) (req : Request) (s : AuthState) (token : String) (r : TokenRecord) (now : ℕ)
    → bearer_token req ≡ some token
    → s.tokens token ≡ some r
    → TooLow min req s
    → TooLow min req
        (record s { tokens = Maps.insert token (record r { last_used = now }) s.tokens })
touched min req s token r now sent there low token' r' sent' there' =
    let same_token : token' ≡ token = cc (sent, sent') in
    let used : TokenRecord = record r { last_used = now } in
    let hit : Maps.insert token used s.tokens token' ≡ some used =
      rw (same_token, eq_refl token) refl in
    let same : used ≡ r' = some_injective used r' (sym hit ∙ there') in
    subst (λ (i : Identity). (role : Role) → from_str i.role ≡ ok role → at_least role min ≡ false)
      (ap (λ (x : TokenRecord). x.identity) same) (low token r sent there)

module _ {Picture : Type 0} (env : Env Picture) (method path : String) (guard : RoleGuard) where
  -- The entry of a denial.
  abbrev pub denial : Identity → AuditEntry
  denial i =
      entry (some i.id) (some i.role) "denied" guard.resource none
        (some (two "method" (string method) "path" (string path))) "denied"

  -- What is answered by whom `require_auth` finds, and the log by whom the guard of the role finds.
  abbrev refusal : Option Identity → Response
  refusal none = unauthorized_response
  refusal (some i) = forbidden_response

  abbrev denied_log : Option Identity → Option Identity → Pool Data → Table AuditLogEntry
  denied_log none seen w = w.tables.audit
  denied_log (some i) none w = w.tables.audit
  denied_log (some i) (some j) w =
      recorded env.now (denial j) w.tables.audit (detail_text env.json (denial j).detail) w.faults

  pub record IsDenied (first second : Option Identity) (w : Pool Data)
      (out : Response × AuthState × Pool Data) : Type 0 where
    pub answer : out.0 ≡ refusal first
    pub kept : out.2.tables ≡ record w.tables { audit = denied_log first second w }

  IsDenied-with :
      (i j : Identity) (req : Request) (s : AuthState) (w : Pool Data)
      → IsDenied (some i) (some j) w (deny env method path guard (some j) req s w)
  unfolding deny serve_with respond audit audit_parts on_parts zoom_parts ◌>>=◌ resume pure
      record_entry swallow
  IsDenied-with i j req s w = record {
    answer = refl;
    kept =
        ap (λ log. record w.tables { audit = log })
          (record_entry-recorded env.now (denial j) w.tables.audit env.json w.faults);
  }

  deny-IsDenied :
      (i : Identity) (found : Option Identity) (req : Request) (s : AuthState) (w : Pool Data)
      → IsDenied (some i) found w (deny env method path guard found req s w)
  unfolding deny
  deny-IsDenied i none req s w = record { answer = refl; kept = refl }
  deny-IsDenied i (some j) req s w = IsDenied-with i j req s w

  module _ (next : Next (Pool Data)) (req : Request) (token : String)
      (sent : bearer_token req ≡ some token) where
    refuse :
        (i : Identity) (found : Option Identity) (s : AuthState) (w : Pool Data)
        → admits guard.min found ≡ false
        → IsDenied (some i) found w (
            if admits guard.min found
            then next req s w
            else deny env method path guard found req s w)
    refuse i found s w e = rw e (deny-IsDenied i found req s w)

    role-IsDenied :
        (i : Identity) (s : AuthState) (w : Pool Data)
        → TooLow guard.min req s
        → IsDenied
            (some i)
            (resolve env.clock.role req s).0
            w
            (require_role_at_least env method path guard next req s w)
    unfolding require_role_at_least
    role-IsDenied i s w low =
        let found = identity_for s token env.clock.role in
        subst
          (λ p. IsDenied (some i) p.0 w (
            if admits guard.min p.0
            then next req p.1 w
            else deny env method path guard p.0 req p.1 w))
          (sym (resolve-sent env.clock.role req s token sent))
          (refuse i found.0 found.1 w (too_low guard.min req s token env.clock.role sent low))

  -- A request without a session whose role reaches that of the guard never comes to what is behind it.
  pub require_role_at_least-IsDenied :
      (next : Next (Pool Data)) (req : Request) (s : AuthState) (w : Pool Data)
      → TooLow guard.min req s
      → let (first, s') = resolve env.clock.auth req s in
        IsDenied first
          (resolve env.clock.role req s').0
          w
          (require_auth env.clock.auth (require_role_at_least env method path guard next) req s w)
  unfolding require_auth resolve
  require_role_at_least-IsDenied next req s w low = elim (Option-cases (bearer_token req)) [
    | inl e ↦ rw (e, require_auth, resolve) (record { answer = refl; kept = refl })
    | inr (token, sent) ↦
        subst
          (λ p. IsDenied p.0 (resolve env.clock.role req p.1).0 w (
            require_auth env.clock.auth (require_role_at_least env method path guard next) req s w))
          (sym (resolve-sent env.clock.auth req s token sent))
          (elim (identity_for-cases s token env.clock.auth) [
            | inl gone ↦
                subst (IsDenied _ _ w) (sym (refused _ req w token env.clock.auth sent s gone)) (
                  subst
                    (λ found.
                      IsDenied found
                        (resolve env.clock.role req (identity_for s token env.clock.auth).1).0 w
                        (unauthorized_response, (identity_for s token env.clock.auth).1, w))
                    (sym gone) (record { answer = refl; kept = refl }))
            | inr (r, there, e) ↦
                let first : (identity_for s token env.clock.auth).0 ≡ some r.identity =
                  ap (λ p. p.0) e in
                subst (IsDenied _ _ w)
                  (sym (admitted _ req w token env.clock.auth sent s r.identity first))
                  (subst
                    (λ found.
                      IsDenied found
                        (resolve env.clock.role req (identity_for s token env.clock.auth).1).0 w
                        (require_role_at_least env method path guard next req
                          (identity_for s token env.clock.auth).1 w))
                    (sym first)
                    (role-IsDenied next req token sent r.identity
                      (identity_for s token env.clock.auth).1 w
                      (subst (TooLow guard.min req) (sym (ap (λ p. p.1) e))
                        (touched guard.min req s token r env.clock.auth sent there low))))
          ])
  ]
