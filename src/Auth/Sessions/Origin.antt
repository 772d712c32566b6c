-- ===== src/Auth/Sessions/Origin.antt =====
-- auth.rs: whom a token stands for, and since when.
use my_template.Prelude.{
  ℕ, ◌-◌, ◌≤◌, String, ◌≡◌, refl, ◌∙◌, Bool, Option, none, some, List, [], ◌∷◌, arith, eq_iff,
  eq_refl, Option-cases, inl, inr,
}
use my_template.Auth.{AuthState, Identity, TokenRecord}
use my_template.Auth.Tokens.{issue_token_with, identity_for, logout}
use my_template.Auth.Login.{login_finish, clear_failures}
use my_template.Auth.Sessions.{
  Event, issued, looked_up, logged_out, finished, step, run, NeverMints, Mints, policy_for,
}

-- The record of the token, if there is one, is from this login.
abbrev IsFrom : Identity → Bool → ℕ → Option TokenRecord → Type 0
IsFrom identity remembered t0 none = Unit
IsFrom identity remembered t0 (some r) =
    (r.identity ≡ identity) × (r.remembered ≡ remembered) × (r.issued_at ≡ t0)

module _ (identity : Identity) (remembered : Bool) (t0 : ℕ) (token : String) where
  abbrev IsHeld : AuthState → Type 0
  IsHeld s = IsFrom identity remembered t0 (s.tokens token)

  issue-IsHeld :
      (s : AuthState) (i : Identity) (r : Bool) (t : String) (now : ℕ)
      → ¬ token ≡ t
      → IsHeld s
      → IsHeld (issue_token_with s i r t now)
  unfolding issue_token_with
  issue-IsHeld s i r t now ne h = elim (Option-cases (s.tokens token)) [
    | inl e ↦ ground (arith, eq_iff t token, ne)
    | inr (x, e) ↦ ground (arith, eq_iff t token, ne)
  ]

  step-IsHeld : (s : AuthState) (e : Event) → ¬ Mints token e → IsHeld s → IsHeld (step s e)
  unfolding step identity_for logout login_finish
  step-IsHeld s (issued i r t now) ne h = issue-IsHeld s i r t now ne h
  step-IsHeld s (looked_up t now) ne h = elim (Option-cases (s.tokens t)) [
    | inl e ↦ ground (arith, eq_iff t token)
    | inr (r, e) ↦ ground (arith, eq_iff t token)
  ]
  step-IsHeld s (logged_out t) ne h = ground (arith, eq_iff t token)
  step-IsHeld s (finished none username remember t now none) ne h = h
  step-IsHeld s (finished (some ip) username remember t now none) ne h = h
  step-IsHeld s (finished none username remember t now (some i)) ne h =
      issue-IsHeld (clear_failures s none username) i remember t now ne h
  step-IsHeld s (finished (some ip) username remember t now (some i)) ne h =
      issue-IsHeld (clear_failures s (some ip) username) i remember t now ne h

  run-IsHeld :
      (s : AuthState) (es : List Event) → NeverMints token es → IsHeld s → IsHeld (run s es)
  unfolding run
  run-IsHeld s [] n h = h
  run-IsHeld s (e ∷ es) n h = run-IsHeld (step s e) es n.1 (step-IsHeld s e n.0 h)

-- The policies are fixed for the life of the state.
record SamePolicies (s u : AuthState) : Type 0 where
  regular : u.token_policy ≡ s.token_policy
  long : u.remembered_policy ≡ s.remembered_policy

step-SamePolicies : (s : AuthState) (e : Event) → SamePolicies s (step s e)
unfolding step identity_for logout login_finish issue_token_with
step-SamePolicies s (issued i r t now) = record { regular = refl; long = refl }
step-SamePolicies s (looked_up t now) = elim (Option-cases (s.tokens t)) [
  | inl e ↦ ground arith
  | inr (r, e) ↦ ground arith
]
step-SamePolicies s (logged_out t) = record { regular = refl; long = refl }
step-SamePolicies s (finished none username remember t now none) = record {
  regular = refl;
  long = refl;
}
step-SamePolicies s (finished (some ip) username remember t now none) = record {
  regular = refl;
  long = refl;
}
step-SamePolicies s (finished none username remember t now (some i)) = record {
  regular = refl;
  long = refl;
}
step-SamePolicies s (finished (some ip) username remember t now (some i)) = record {
  regular = refl;
  long = refl;
}

run-SamePolicies : (s : AuthState) (es : List Event) → SamePolicies s (run s es)
unfolding run
run-SamePolicies s [] = record { regular = refl; long = refl }
run-SamePolicies s (e ∷ es) = record {
  regular = (run-SamePolicies (step s e) es).regular ∙ (step-SamePolicies s e).regular;
  long = (run-SamePolicies (step s e) es).long ∙ (step-SamePolicies s e).long;
}

dead_past_cap :
    (s u : AuthState) (identity : Identity) (remembered : Bool) (t0 later : ℕ) (token : String)
    → SamePolicies s u
    → IsFrom identity remembered t0 (u.tokens token)
    → (policy_for s remembered).absolute_ttl ≤ later - t0
    → (identity_for u token later).0 ≡ none
unfolding identity_for
dead_past_cap s u identity remembered t0 later token same h past =
    elim (Option-cases (u.tokens token)) [
      | inl e ↦ ground arith
      | inr (r, e) ↦ ground (arith, same.regular, same.long)
    ]

issue-IsFrom :
    (s : AuthState) (identity : Identity) (remembered : Bool) (token : String) (now : ℕ)
    → IsFrom identity remembered now
        ((issue_token_with s identity remembered token now).tokens token)
unfolding issue_token_with
issue-IsFrom s identity remembered token now = rw (eq_refl token) (refl, refl, refl)

-- Whatever happens after a login, lookups that refresh the token included, its token stands for
-- nobody once the absolute lifetime of its own policy is over (unless it is issued again).
pub identity_for_past_cap :
    (s : AuthState) (identity : Identity) (remembered : Bool) (token : String) (now later : ℕ)
    (es : List Event)
    → NeverMints token es
    → (policy_for s remembered).absolute_ttl ≤ later - now
    → (identity_for (run (issue_token_with s identity remembered token now) es) token later).0
      ≡ none
unfolding issue_token_with
identity_for_past_cap s identity remembered token now later es never past =
    let u = issue_token_with s identity remembered token now in
    dead_past_cap u (run u es) identity remembered now later token (run-SamePolicies u es)
      (run-IsHeld identity remembered now token u es never
        (issue-IsFrom s identity remembered token now))
      past

found_is_own :
    (u : AuthState) (identity j : Identity) (remembered : Bool) (t0 later : ℕ) (token : String)
    → IsFrom identity remembered t0 (u.tokens token)
    → (identity_for u token later).0 ≡ some j
    → j ≡ identity
unfolding identity_for
found_is_own u identity j remembered t0 later token h found = elim (Option-cases (u.tokens token)) [
  | inl e ↦ ground arith
  | inr (r, e) ↦ ground arith
]

-- Whatever happens after a login, other logins and lookups included, its token stands for nobody but
-- the identity that logged in (unless it is issued again).
pub identity_for-own :
    (s : AuthState) (identity j : Identity) (remembered : Bool) (token : String) (now later : ℕ)
    (es : List Event)
    → NeverMints token es
    → (identity_for (run (issue_token_with s identity remembered token now) es) token later).0
      ≡ some j
    → j ≡ identity
identity_for-own s identity j remembered token now later es never found =
    let u = issue_token_with s identity remembered token now in
    found_is_own (run u es) identity j remembered now later token
      (run-IsHeld identity remembered now token u es never
        (issue-IsFrom s identity remembered token now))
      found
