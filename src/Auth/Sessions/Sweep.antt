-- ===== src/Auth/Sessions/Sweep.antt =====
-- auth.rs: the sweep of expired tokens at a login, and the lookups of other tokens.
use my_template.Prelude.{
  ℕ, ◌≤◌, String, ◌≡◌, ◌≢◌, Bool, true, arith, eq_iff, Option-cases, inl, inr,
}
use my_template.Auth.{AuthState, Identity, TokenRecord}
use my_template.Auth.Tokens.{is_dead, issue_token_with, identity_for}

-- A record that is expired stays so.
is_dead_later :
    (s : AuthState) (r : TokenRecord) (now later : ℕ)
    → now ≤ later
    → is_dead s now r ≡ true
    → is_dead s later r ≡ true
unfolding is_dead
is_dead_later s r now later h e = ground arith

-- A login for another token, with its sweep of expired tokens, does not change whom a later lookup of
-- this token finds.
pub identity_for-issue_ne :
    (s : AuthState) (identity : Identity) (remembered : Bool) (other token : String) (now later : ℕ)
    → other ≢ token
    → now ≤ later
    → (identity_for (issue_token_with s identity remembered other now) token later).0
      ≡ (identity_for s token later).0
unfolding identity_for issue_token_with
identity_for-issue_ne s identity remembered other token now later ne h =
    elim (Option-cases (s.tokens token)) [
      | inl e ↦ ground (arith, eq_iff other token)
      | inr (r, e) ↦ ground (arith, eq_iff other token, is_dead_later s r now later h)
    ]
