-- ===== src/Http/Guards.antt =====
-- auth.rs and csrf.rs: whom the middleware lets through.
use my_template.Prelude.{
  ℕ, ◌+◌, ◌*◌, ◌≤◌, ◌<◌, String, ◌≡◌, ◌≢◌, refl, ap, Bool, none, some, List, arith, eq_iff,
  Option-cases, inl, inr,
}
use my_template.Auth.{AuthState, Identity}
use my_template.Auth.Tokens.{verify, identity_for, logout, issue_token_with}
use my_template.Auth.Sessions.{Event, run, NeverMints, policy_for}
use my_template.Auth.Sessions.Alive.{InTime, identity_for-alive}
use my_template.Auth.Sessions.Logout.{identity_for-logout}
use my_template.Http.{
  Request, Next, bearer_token, require_auth, require_banto_client_header, unauthorized_response,
  forbidden_response, retry_seconds, logout_handler,
}

-- The advertised wait is at least a second, and the lockout ends less than a second after it.
pub retry_seconds_bounds :
    (retry_after : ℕ)
    → (1 ≤ retry_seconds retry_after)
      × (retry_after < (retry_seconds retry_after + 1) * 1_000_000_000)
unfolding retry_seconds
retry_seconds_bounds r = ground arith

module _ {W : Type 0} (next : Next W) (req : Request) (w : W) (token : String) (now : ℕ)
    (sent : bearer_token req ≡ some token) where
  pub refused :
      (s : AuthState)
      → (identity_for s token now).0 ≡ none
      → (require_auth now next req s w ≡ (unauthorized_response, (identity_for s token now).1, w))
  unfolding verify identity_for require_auth unauthorized_response
  refused s gone = rw (sent, require_auth) (rw gone refl)

  pub admitted :
      (s : AuthState) (i : Identity)
      → (identity_for s token now).0 ≡ some i
      → require_auth now next req s w ≡ next req (identity_for s token now).1 w
  unfolding verify identity_for require_auth
  admitted s i found = rw (sent, require_auth) (rw found refl)

  logged_out_by : (s : AuthState) → (logout_handler req s).1 ≡ logout s token
  unfolding logout_handler
  logged_out_by s = rw (sent, logout_handler) refl

  -- Once the token of a request is logged out, whatever follows, the guard answers 401 to it and what is
  -- behind does not run (unless the token is issued again).
  pub logout_handler-require_auth :
      (s : AuthState) (es : List Event)
      → NeverMints token es
      → let u = run (logout_handler req s).1 es in
        ((require_auth now next req u w).0 ≡ unauthorized_response)
        × ((require_auth now next req u w).2 ≡ w)
  logout_handler-require_auth s es never = rw (logged_out_by s) (
      let e = refused (run (logout s token) es) (identity_for-logout s token now es never) in
      (ap (λ r. r.0) e, ap (λ r. r.2) e))

  -- A token that was issued and used in time passes the guard, and what is behind runs.
  pub require_auth-alive :
      (s : AuthState) (identity : Identity) (remembered : Bool) (issued_at : ℕ) (es : List Event)
      → InTime (policy_for s remembered) token issued_at issued_at es now
      → let u = run (issue_token_with s identity remembered token issued_at) es in
        require_auth now next req u w ≡ next req (identity_for u token now).1 w
  require_auth-alive s identity remembered issued_at es f =
      admitted (run (issue_token_with s identity remembered token issued_at) es) identity
        (identity_for-alive s identity remembered token issued_at now es f)

-- The guard against cross-site requests comes first: without the header nothing behind it runs, and the
-- state of the sessions stays as it is.
pub csrf_first :
    {W : Type 0} (now : ℕ) (next : Next W) (req : Request) (s : AuthState) (w : W)
    → req.banto_client ≢ some "banto"
    → require_banto_client_header (require_auth now next) req s w ≡ (forbidden_response, s, w)
unfolding require_banto_client_header
csrf_first now next req s w bad = elim (Option-cases req.banto_client) [
  | inl e ↦ rw (e, require_banto_client_header) refl
  | inr (value, e) ↦ ground (arith, eq_iff value "banto", bad)
]
