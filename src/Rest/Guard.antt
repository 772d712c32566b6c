-- ===== src/Rest/Guard.antt =====
-- rest/mod.rs, `require_role_at_least`: stacked behind `require_auth`.
use my_template.Prelude.{String, Bool, false, Option, none, some, if◌then◌else◌}
use my_template.Core.{Result, ok, err, ErrorBody}
use my_template.Core.Params.{string}
use my_template.Auth.{Identity}
use my_template.Http.{Response, Next, plain, error}
use my_template.Storage.{Pool}
use my_template.Users.Role.{Role, from_str, at_least}
use my_template.Rest.World.{Data, resolve, serve_with}
use my_template.Rest.Env.{Env}
use my_template.Rest.Json.{two}
use my_template.Rest.Audited.{entry, audit}
use my_template.Storage.{◌>>=◌, pure}

abbrev pub forbidden_response : Response
forbidden_response = plain 403 (error ErrorBody.forbidden)

-- The middleware's state, but for the services.
pub record RoleGuard : Type 0 where
  pub min : Role
  pub resource : String

abbrev pub reaches : Role → Result Role → Bool
reaches min (ok role) = at_least role min
reaches min (err e) = false

unfoldable pub admits : Role → Option Identity → Bool
unfolding from_str at_least
admits min none = false
admits min (some i) = reaches min (from_str i.role)

module _ {Picture : Type 0} (env : Env Picture) (method path : String) where
  -- A denial is recorded only where there is an identity.
  unfoldable pub deny : RoleGuard → Option Identity → Next (Pool Data)
  unfolding serve_with audit
  deny guard none req s w = (forbidden_response, s, w)
  deny guard (some i) req s w =
      serve_with
        (λ req.
          audit env (
            entry (some i.id) (some i.role) "denied" guard.resource none
              (some (two "method" (string method) "path" (string path))) "denied")
          >>= λ recorded. pure forbidden_response)
        req s w

  unfoldable pub require_role_at_least : RoleGuard → Next (Pool Data) → Next (Pool Data)
  unfolding resolve admits deny
  require_role_at_least guard next req s w =
      let (identity, s') = resolve env.clock.role req s in
      if admits guard.min identity then next req s' w else deny guard identity req s' w
