-- ===== src/Http/Tests.antt =====
-- The guards at concrete requests.
use my_template.Prelude.{ℕ, ◌≡◌, ◌≢◌, String, refl, Option, some, [], ◌∷◌, arith, eq_iff}
use my_template.Auth.{Identity, new}
use my_template.Auth.Sessions.{looked_up, run}
use my_template.Http.{
  Request, Next, plain, empty, bearer_token, require_auth, unauthorized_response, logout_handler,
}
use my_template.Http.Guards.{logout_handler-require_auth}

abbrev admin : Identity
admin = record { id = "admin"; name = "管理者"; role = "admin" }

abbrev req : Request
req = record { authorization = some "Bearer a"; banto_client = some "browser" }

abbrev app : Next ℕ
app r s w = (plain 200 empty, s, w)

sent : bearer_token req ≡ some "a"
unfolding bearer_token
sent = refl

browser_ne : ◌≢◌ {A = Option String} (some "browser") (some "banto")
browser_ne e = ground (arith, eq_iff "browser" "banto")

logout_handler-require_auth_example :
    ((require_auth 7 app req (run (logout_handler req new).1 (looked_up "a" 5 ∷ [])) 0).0
      ≡ unauthorized_response)
    × ((require_auth 7 app req (run (logout_handler req new).1 (looked_up "a" 5 ∷ [])) 0).2 ≡ 0)
logout_handler-require_auth_example =
    logout_handler-require_auth app req 0 "a" 7 sent new (looked_up "a" 5 ∷ []) ((λ h. h), tt)
