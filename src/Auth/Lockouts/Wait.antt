-- ===== src/Auth/Lockouts/Wait.antt =====
-- auth.rs: when a key is locked, and whom a failure concerns.
use mathlib.Core.Path.{ap₂}
use my_template.Prelude.{
  ℕ, ◌+◌, ◌≤◌, String, ◌≡◌, ◌≢◌, ◌↔◌, sym, Bool, Option, none, some, arith, eq_iff, eq_refl,
  Option-cases, inl, inr, ◌∙◌,
}
use my_template.Auth.{AuthState, Identity, FailureRecord}
use my_template.Auth.Throttle.{
  locked_out, record_failure, rate_limit_key, ip_rate_limit_key, max_option, lock_left,
}
use my_template.Auth.Login.{login_check, login_finish, count_failures}
use my_template.Auth.Lockouts.Keys.{
  IsAddress, rate_limit_key_injective, ip_rate_limit_key_injective,
  rate_limit_key-ne-ip_rate_limit_key,
}

some_eq {ℓ} : {A : Type ℓ} {a b : A} → some a ≡ some b → a ≡ b
some_eq h = cc

two_locks :
    (a b : Option FailureRecord) (now r wait : ℕ)
    → max_option (lock_left now a) (lock_left now b) ≡ some r
    → (max_option (lock_left (now + wait) a) (lock_left (now + wait) b) ≡ none) ↔ (r ≤ wait)
unfolding max_option
two_locks none none now r wait h = (ground arith, ground arith)
two_locks none (some y) now r wait h = (ground arith, ground arith)
two_locks (some x) none now r wait h = (ground arith, ground arith)
two_locks (some x) (some y) now r wait h = (ground arith, ground arith)

-- What an answer `rate_limited r` promises: a new attempt is let through to the verifier exactly from
-- `r` on, while nothing else happens.
pub retry_after_exact :
    (s : AuthState) (peer : Option String) (username : String) (now r wait : ℕ)
    → login_check s peer username now ≡ some r
    → (login_check s peer username (now + wait) ≡ none) ↔ (r ≤ wait)
unfolding login_check
retry_after_exact s none username now r wait h =
    two_locks none (s.failures (rate_limit_key none username)) now r wait h
retry_after_exact s (some ip) username now r wait h =
    two_locks (s.failures (rate_limit_key (some ip) username)) (s.failures (ip_rate_limit_key ip))
      now r wait h

-- A login clears both of its keys: whatever had been counted, the next attempt is let through.
pub login_check-success :
    (s : AuthState) (peer : Option String) (username : String) (remember : Bool) (token : String)
    (later now : ℕ) (identity : Identity)
    → login_check
        (login_finish s peer username remember token later (some identity)).1
        peer
        username
        now
      ≡ none
unfolding login_check login_finish
login_check-success s none username remember token later now identity =
    ground (arith, eq_refl (rate_limit_key none username))
login_check-success s (some ip) username remember token later now identity =
    ground (arith, eq_refl (rate_limit_key (some ip) username), eq_refl (ip_rate_limit_key ip))

-- The failure of another key, with its sweep of aged records, does not change a key's lockout.
pub locked_out-other :
    (s : AuthState) (other key : String) (limit t now : ℕ)
    → other ≢ key
    → t ≤ now
    → locked_out (record_failure s other limit t) key now ≡ locked_out s key now
unfolding locked_out record_failure
locked_out-other s other key limit t now ne h = elim (Option-cases (s.failures key)) [
  | inl e ↦ ground (arith, eq_iff other key)
  | inr (r, e) ↦ ground (arith, eq_iff other key)
]

-- The failures of one peer do not lock out another: its attempts are let through, or wait, as before.
pub login_check-count_failures_ne :
    (s : AuthState) (a b username other : String) (t now : ℕ)
    → IsAddress a
    → IsAddress b
    → a ≢ b
    → t ≤ now
    → login_check (count_failures s (some a) username t) (some b) other now
      ≡ login_check s (some b) other now
unfolding login_check count_failures
login_check-count_failures_ne s a b username other t now ha hb ne before =
    ap₂ max_option
      (unlike (rate_limit_key (some b) other)
        (λ e. ne (some_eq (rate_limit_key_injective (some a) (some b) username other ha hb e).0))
        (λ e. rate_limit_key-ne-ip_rate_limit_key (some b) other a hb (sym e)))
      (unlike (ip_rate_limit_key b) (rate_limit_key-ne-ip_rate_limit_key (some a) username b ha)
        (λ e. ne (ip_rate_limit_key_injective a b e)))
  where
    s' : AuthState
    s' = record_failure s (rate_limit_key (some a) username) s.rate_limit.max_failures t

    unlike :
        (key : String)
        → rate_limit_key (some a) username ≢ key
        → ip_rate_limit_key a ≢ key
        → locked_out (count_failures s (some a) username t) key now ≡ locked_out s key now
    unlike key x y =
        locked_out-other s' (ip_rate_limit_key a) key s.rate_limit.max_ip_failures t now y before
        ∙ locked_out-other s (rate_limit_key (some a) username) key _ t now x before
