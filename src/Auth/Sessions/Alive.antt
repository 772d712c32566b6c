-- ===== src/Auth/Sessions/Alive.antt =====
-- auth.rs: sessions that are used in time.
use my_template.Prelude.{
  ℕ, ◌-◌, ◌<◌, String, ◌≡◌, refl, Bool, none, some, List, [], ◌∷◌, arith, eq_iff, str_eq, eq_refl,
  if◌then◌else◌, Option-cases, inl, inr,
}
use my_template.Auth.{AuthState, Identity, TokenRecord, TokenPolicy}
use my_template.Auth.Tokens.{issue_token_with, identity_for, logout}
use my_template.Auth.Login.{login_finish, clear_failures, count_failures}
use my_template.Auth.Sessions.{
  Event, issued, looked_up, logged_out, finished, step, run, policy_for,
}

-- The record at hand is still good at `now`.
abbrev pub Fresh : TokenPolicy → ℕ → ℕ → ℕ → Type 0
Fresh p t0 last now = (now - t0 < p.absolute_ttl) × (now - last < p.idle_ttl)

-- No event logs the token out or issues it again, and the record is good at each event that looks at
-- it and at `later`; a lookup of the token refreshes it.
abbrev pub InTime : TokenPolicy → String → ℕ → ℕ → List Event → ℕ → Type 0
InTime p token t0 last [] later = Fresh p t0 last later
InTime p token t0 last (issued _ _ t now ∷ es) later =
    (¬ token ≡ t) × Fresh p t0 last now × InTime p token t0 last es later
InTime p token t0 last (looked_up t now ∷ es) later =
    (t ≡ token → Fresh p t0 last now)
    × InTime p token t0 (if str_eq t token then now else last) es later
InTime p token t0 last (logged_out t ∷ es) later = (¬ token ≡ t) × InTime p token t0 last es later
InTime p token t0 last (finished _ _ _ t now none ∷ es) later = InTime p token t0 last es later
InTime p token t0 last (finished _ _ _ t now (some _) ∷ es) later =
    (¬ token ≡ t) × Fresh p t0 last now × InTime p token t0 last es later

abbrev entry : Identity → Bool → ℕ → ℕ → TokenRecord
entry identity remembered t0 last = record {
  identity = identity;
  issued_at = t0;
  last_used = last;
  remembered = remembered;
}

module _ (identity : Identity) (remembered : Bool) (t0 : ℕ) (token : String) (p : TokenPolicy) where
  record Holds (last : ℕ) (s : AuthState) : Type 0 where
    at : s.tokens token ≡ some (entry identity remembered t0 last)
    by : policy_for s remembered ≡ p

  found :
      {last : ℕ} (s : AuthState) (later : ℕ)
      → Holds last s
      → Fresh p t0 last later
      → (identity_for s token later).0 ≡ some identity
  unfolding identity_for
  found s later h f = ground (arith, h.at, h.by)

  issue-Holds :
      {last : ℕ} (s : AuthState) (i : Identity) (r : Bool) (t : String) (now : ℕ)
      → ¬ token ≡ t
      → Fresh p t0 last now
      → Holds last s
      → Holds last (issue_token_with s i r t now)
  unfolding issue_token_with
  issue-Holds s i r t now ne f h = record {
    at = ground (arith, eq_iff t token, ne, h.at, h.by);
    by = h.by;
  }

  look_up-Holds :
      {last : ℕ} (s : AuthState) (t : String) (now : ℕ)
      → (t ≡ token → Fresh p t0 last now)
      → Holds last s
      → Holds (if str_eq t token then now else last) (identity_for s t now).1
  unfolding identity_for
  look_up-Holds s t now f h = elim (Option-cases (s.tokens t)) [
    | inl e ↦ record { at = ground (arith, eq_iff t token, h.at, h.by); by = ground (arith, h.by) }
    | inr (r, e) ↦ record {
      at = ground (arith, eq_iff t token, h.at, h.by, f);
      by = ground (arith, h.by);
    }
  ]

  run-alive :
      (s : AuthState) (last later : ℕ) (es : List Event)
      → Holds last s
      → InTime p token t0 last es later
      → (identity_for (run s es) token later).0 ≡ some identity
  unfolding run step login_finish logout
  run-alive s last later [] h f = found s later h f
  run-alive s last later (issued i r t now ∷ es) h f =
      run-alive (issue_token_with s i r t now) last later es (issue-Holds s i r t now f.0 f.1 h) f.2
  run-alive s last later (looked_up t now ∷ es) h f =
      run-alive (identity_for s t now).1 (if str_eq t token then now else last) later es
        (look_up-Holds s t now f.0 h) f.1
  run-alive s last later (logged_out t ∷ es) h f =
      run-alive (logout s t) last later es
        (record { at = ground (arith, eq_iff t token, f.0, h.at); by = h.by }) f.1
  run-alive s last later (finished none u m t now none ∷ es) h f =
      run-alive (count_failures s none u now) last later es (record { at = h.at; by = h.by }) f
  run-alive s last later (finished (some ip) u m t now none ∷ es) h f =
      run-alive (count_failures s (some ip) u now) last later es (record { at = h.at; by = h.by }) f
  run-alive s last later (finished none u m t now (some i) ∷ es) h f =
      let s' = clear_failures s none u in
      run-alive (issue_token_with s' i m t now) last later es
        (issue-Holds s' i m t now f.0 f.1 (record { at = h.at; by = h.by })) f.2
  run-alive s last later (finished (some ip) u m t now (some i) ∷ es) h f =
      let s' = clear_failures s (some ip) u in
      run-alive (issue_token_with s' i m t now) last later es
        (issue-Holds s' i m t now f.0 f.1 (record { at = h.at; by = h.by })) f.2

issue-Holds_self :
    (s : AuthState) (identity : Identity) (remembered : Bool) (token : String) (now : ℕ)
    → Holds identity remembered now token
        (policy_for s remembered)
        now
        (issue_token_with s identity remembered token now)
unfolding issue_token_with
issue-Holds_self s identity remembered token now = record { at = rw (eq_refl token); by = refl }

-- After a login, other requests interleaved, the token stands for the identity that logged in, as long
-- as each lookup comes within the idle time of the one before and within the absolute lifetime of the
-- login, and the record is good at each login by others (whose sweep looks at it).
pub identity_for-alive :
    (s : AuthState) (identity : Identity) (remembered : Bool) (token : String) (now later : ℕ)
    (es : List Event)
    → InTime (policy_for s remembered) token now now es later
    → (identity_for (run (issue_token_with s identity remembered token now) es) token later).0
      ≡ some identity
identity_for-alive s identity remembered token now later es f =
    run-alive identity remembered now token (policy_for s remembered)
      (issue_token_with s identity remembered token now) now later es
      (issue-Holds_self s identity remembered token now) f
