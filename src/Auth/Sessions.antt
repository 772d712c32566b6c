-- ===== src/Auth/Sessions.antt =====
-- auth.rs: the histories of a server's sessions, of which the children prove what the holder of a
-- token sees.
pub mod Sweep
pub mod Origin
pub mod Logout
pub mod Alive
use my_template.Prelude.{ℕ, String, ◌≡◌, Bool, Option, some, List, [], ◌∷◌, if◌then◌else◌}
use my_template.Auth.{AuthState, Identity, TokenPolicy}
use my_template.Auth.Tokens.{issue_token_with, identity_for, logout}
use my_template.Auth.Login.{login_finish}

-- What changes the state, each at its time.
pub data Event : Type 0 where
  issued : Identity → Bool → String → ℕ → Event
  looked_up : String → ℕ → Event
  logged_out : String → Event
  finished : Option String → String → Bool → String → ℕ → Option Identity → Event

unfoldable pub step : AuthState → Event → AuthState
step s (issued identity remembered token now) = issue_token_with s identity remembered token now
step s (looked_up token now) = (identity_for s token now).1
step s (logged_out token) = logout s token
step s (finished ip username remember token now verified) =
    (login_finish s ip username remember token now verified).1

unfoldable pub run : AuthState → List Event → AuthState
unfolding step
run s [] = s
run s (e ∷ es) = run (step s e) es

-- No event of the list issues the token.
abbrev pub Mints : String → Event → Type 0
Mints token (issued _ _ t _) = token ≡ t
Mints token (finished _ _ _ t _ (some _)) = token ≡ t
Mints token _ = ⊥

abbrev pub NeverMints : String → List Event → Type 0
NeverMints token [] = Unit
NeverMints token (e ∷ es) = (¬ Mints token e) × NeverMints token es

-- The policy of a token that is issued with the flag.
abbrev pub policy_for : AuthState → Bool → TokenPolicy
policy_for s remembered = if remembered then s.remembered_policy else s.token_policy
