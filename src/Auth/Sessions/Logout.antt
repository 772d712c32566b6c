-- ===== src/Auth/Sessions/Logout.antt =====
-- auth.rs: tokens that are logged out.
use my_template.Prelude.{
  ℕ, String, ◌≡◌, Bool, none, some, List, [], ◌∷◌, arith, eq_iff, eq_refl, Option-cases, inl, inr,
}
use my_template.Auth.{AuthState, Identity}
use my_template.Auth.Tokens.{issue_token_with, identity_for, logout}
use my_template.Auth.Login.{login_finish, clear_failures}
use my_template.Auth.Sessions.{
  Event, issued, looked_up, logged_out, finished, step, run, NeverMints, Mints,
}

module _ (token : String) where
  abbrev IsGone : AuthState → Type 0
  IsGone s = s.tokens token ≡ none

  issue-IsGone :
      (s : AuthState) (i : Identity) (r : Bool) (t : String) (now : ℕ)
      → ¬ token ≡ t
      → IsGone s
      → IsGone (issue_token_with s i r t now)
  unfolding issue_token_with
  issue-IsGone s i r t now ne h = ground (arith, eq_iff t token, ne)

  step-IsGone : (s : AuthState) (e : Event) → ¬ Mints token e → IsGone s → IsGone (step s e)
  unfolding step identity_for logout login_finish
  step-IsGone s (issued i r t now) ne h = issue-IsGone s i r t now ne h
  step-IsGone s (looked_up t now) ne h = elim (Option-cases (s.tokens t)) [
    | inl e ↦ ground (arith, eq_iff t token)
    | inr (r, e) ↦ ground (arith, eq_iff t token)
  ]
  step-IsGone s (logged_out t) ne h = ground (arith, eq_iff t token)
  step-IsGone s (finished none username remember t now none) ne h = h
  step-IsGone s (finished (some ip) username remember t now none) ne h = h
  step-IsGone s (finished none username remember t now (some i)) ne h =
      issue-IsGone (clear_failures s none username) i remember t now ne h
  step-IsGone s (finished (some ip) username remember t now (some i)) ne h =
      issue-IsGone (clear_failures s (some ip) username) i remember t now ne h

  run-IsGone :
      (s : AuthState) (es : List Event) → NeverMints token es → IsGone s → IsGone (run s es)
  unfolding run
  run-IsGone s [] n h = h
  run-IsGone s (e ∷ es) n h = run-IsGone (step s e) es n.1 (step-IsGone s e n.0 h)

logout-IsGone : (s : AuthState) (token : String) → IsGone token (logout s token)
unfolding logout
logout-IsGone s token = rw (eq_refl token)

none_of_IsGone :
    (u : AuthState) (token : String) (later : ℕ)
    → IsGone token u
    → (identity_for u token later).0 ≡ none
unfolding identity_for
none_of_IsGone u token later h = ground arith

-- After a logout, whatever follows, the token stands for nobody (unless it is issued again).
pub identity_for-logout :
    (s : AuthState) (token : String) (later : ℕ) (es : List Event)
    → NeverMints token es
    → (identity_for (run (logout s token) es) token later).0 ≡ none
identity_for-logout s token later es never =
    none_of_IsGone (run (logout s token) es) token later
      (run-IsGone token (logout s token) es never (logout-IsGone s token))
