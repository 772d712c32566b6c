-- ===== src/Auth/Lockouts/Account.antt =====
-- auth.rs, `login_rate_limited`: the throttle by account.
use native.Mathlib.Nat.{add-zero}
use my_template.Prelude.{
  ℕ, suc, ◌+◌, ◌-◌, ◌≤◌, ◌<◌, String, ◌≡◌, refl, sym, ap, Bool, Option, none, some, List, [], ◌∷◌,
  arith, Option-cases, inl, inr, length, ltb, ◌∙◌, if◌then◌else◌,
}
use my_template.Auth.{AuthState, RateLimitPolicy}
use my_template.Auth.Throttle.{
  locked_out, record_failure, rate_limit_key, ip_rate_limit_key, max_option,
}
use my_template.Auth.Login.{Verifier, login_check, login_rate_limited, count_failures, rate_limited}
use my_template.Auth.Lockouts.Streak.{Counts, record-other, record-own, last_locks}
use my_template.Auth.Lockouts.Keys.{AreAddress, rate_limit_key-ne-ip_rate_limit_key}
use my_template.Auth.Lockouts.Wait.{locked_out-other}

-- `username`, tried from `peer` at these times, fails each time.
pub fail_all : AuthState → Option String → String → List ℕ → AuthState
fail_all s peer username [] = s
fail_all s peer username (t ∷ times) =
    fail_all (count_failures s peer username t) peer username times

abbrev pub AllWithin : ℕ → ℕ → List ℕ → Type 0
AllWithin lo hi [] = Unit
AllWithin lo hi (t ∷ times) = (lo ≤ t) × (t < hi) × AllWithin lo hi times

-- The account's part of `count_failures`, and that the address's part leaves it alone.
module _ (p : RateLimitPolicy) (t0 : ℕ) (peer : Option String) (username : String) where
  abbrev key : String
  key = rate_limit_key peer username

  record Streak (n : ℕ) (s : AuthState) : Type 0 where
    policy : s.rate_limit ≡ p
    streak : Counts p.lockout p.max_failures t0 key n s

  own-Streak :
      {n : ℕ} (s : AuthState) (t : ℕ)
      → t0 ≤ t
      → t < t0 + p.lockout
      → n < p.max_failures
      → Streak n s
      → Streak (n + 1) (record_failure s key s.rate_limit.max_failures t)
  own-Streak s t a b room c = record {
    policy = unfold record_failure in c.policy;
    streak =
        record-own p.lockout p.max_failures t0 key s s.rate_limit.max_failures t
          (ap (λ (q : RateLimitPolicy). q.max_failures) c.policy) a b room c.streak;
  }

  other-Streak :
      {n : ℕ} (s : AuthState) (ip : String) (limit t : ℕ)
      → AreAddress peer
      → t0 ≤ t
      → t < t0 + p.lockout
      → Streak n s
      → Streak n (record_failure s (ip_rate_limit_key ip) limit t)
  other-Streak s ip limit t address a b c = record {
    policy = unfold record_failure in c.policy;
    streak =
        record-other p.lockout p.max_failures t0 key s (ip_rate_limit_key ip) limit t
          (λ e. rate_limit_key-ne-ip_rate_limit_key peer username ip address (sym e)) a b c.streak;
  }

count_failures-Streak :
    (p : RateLimitPolicy) (t0 : ℕ) (peer : Option String) (username : String) (n : ℕ)
    (s : AuthState) (t : ℕ)
    → AreAddress peer
    → t0 ≤ t
    → t < t0 + p.lockout
    → n < p.max_failures
    → Streak p t0 peer username n s
    → Streak p t0 peer username (n + 1) (count_failures s peer username t)
unfolding count_failures
count_failures-Streak p t0 none username n s t address a b room c =
    own-Streak p t0 none username s t a b room c
count_failures-Streak p t0 (some ip) username n s t address a b room c =
    other-Streak p t0 (some ip) username _ ip _ t address a b
      (own-Streak p t0 (some ip) username s t a b room c)

add_suc : (n m : ℕ) → n + suc m ≡ n + 1 + m
add_suc n m = omega arith

fail_all-Streak :
    (p : RateLimitPolicy) (t0 : ℕ) (peer : Option String) (username : String) (n : ℕ)
    (s : AuthState) (times : List ℕ)
    → AreAddress peer
    → AllWithin t0 (t0 + p.lockout) times
    → n + length times < p.max_failures
    → Streak p t0 peer username n s
    → Streak p t0 peer username (n + length times) (fail_all s peer username times)
unfolding fail_all
fail_all-Streak p t0 peer username n s [] address w room c = rw add-zero c
fail_all-Streak p t0 peer username n s (t ∷ times) address w room c =
    rw (add_suc n (length times)) (
      fail_all-Streak p t0 peer username (n + 1) (count_failures s peer username t) times address
        w.2 (omega arith)
        (count_failures-Streak p t0 peer username n s t address w.0 w.1 (omega arith) c))

full_locks :
    (p : RateLimitPolicy) (t0 : ℕ) (peer : Option String) (username : String) (n : ℕ)
    (s : AuthState) (t now : ℕ)
    → AreAddress peer
    → t0 ≤ t
    → t < t0 + p.lockout
    → n + 1 ≡ p.max_failures
    → Streak p t0 peer username n s
    → t ≤ now
    → now < t + p.lockout
    → locked_out (count_failures s peer username t) (rate_limit_key peer username) now
      ≡ some (t + p.lockout - now)
unfolding count_failures
full_locks p t0 none username n s t now address a b full c before within =
    last_locks p.lockout p.max_failures t0 (rate_limit_key none username) s
      s.rate_limit.max_failures t now (ap (λ (q : RateLimitPolicy). q.max_failures) c.policy) a b
      full c.streak before within
full_locks p t0 (some ip) username n s t now address a b full c before within =
    locked_out-other _ (ip_rate_limit_key ip) (rate_limit_key (some ip) username) _ t now
      (λ e. rate_limit_key-ne-ip_rate_limit_key (some ip) username ip address (sym e)) before
    ∙ last_locks p.lockout p.max_failures t0 (rate_limit_key (some ip) username) s
        s.rate_limit.max_failures t now (ap (λ (q : RateLimitPolicy). q.max_failures) c.policy) a b
        full c.streak before within

check_of_locked :
    (s : AuthState) (peer : Option String) (username : String) (now r : ℕ)
    → locked_out s (rate_limit_key peer username) now ≡ some r
    → (wait : ℕ) × (r ≤ wait) × (login_check s peer username now ≡ some wait)
unfolding login_check max_option
check_of_locked s none username now r h = (r, omega arith, h)
check_of_locked s (some ip) username now r h =
    elim (Option-cases (locked_out s (ip_rate_limit_key ip) now)) [
      | inl e ↦ (r, omega arith, ground (arith, e))
      | inr (q, e) ↦ (if ltb r q then q else r, ground arith, ground (arith, e))
    ]

blocked :
    {W : Type 0} (verify_credentials : Verifier W) (s : AuthState) (peer : Option String)
    (username password : String) (remember : Bool) (token : String) (now later : ℕ) (w : W) (r : ℕ)
    → login_check s peer username now ≡ some r
    → login_rate_limited verify_credentials s peer username password remember token now later w
      ≡ (rate_limited r, s, w)
unfolding login_rate_limited
blocked verify_credentials s peer username password remember token now later w r e =
    rw (e, login_rate_limited)

-- The account's record is clean, and `max_failures` attempts on it fail within one lockout window, the
-- last at `t`: until `t` plus the lockout every attempt, with the right password too, is refused, with a
-- wait that reaches at least to that end; the verifier is not called, and the state stays as it is.
pub lockout_blocks :
    {W : Type 0} (verify_credentials : Verifier W) (s : AuthState) (peer : Option String)
    (username password : String) (remember : Bool) (token : String) (t0 : ℕ) (times : List ℕ)
    (t now later : ℕ) (w : W)
    → AreAddress peer
    → s.failures (rate_limit_key peer username) ≡ none
    → length times + 1 ≡ s.rate_limit.max_failures
    → AllWithin t0 (t0 + s.rate_limit.lockout) times
    → t0 ≤ t
    → t < t0 + s.rate_limit.lockout
    → t ≤ now
    → now < t + s.rate_limit.lockout
    → let s' = count_failures (fail_all s peer username times) peer username t in
      (wait : ℕ) × (t + s.rate_limit.lockout - now ≤ wait)
      × (login_rate_limited verify_credentials s' peer username password remember token now later w
          ≡ (rate_limited wait, s', w))
lockout_blocks verify_credentials s peer username password remember token t0 times t now later w
      address clean full within a b before inside =
    let p = s.rate_limit in
    let u = fail_all s peer username times in
    let held =
      fail_all-Streak p t0 peer username 0 s times address within (omega arith)
        (record { policy = refl; streak = record { policy = refl; streak = rw clean refl } }) in
    let locked =
      full_locks p t0 peer username (0 + length times) u t now address a b (omega arith) held before
        inside in
    let (wait, long, e) =
      check_of_locked (count_failures u peer username t) peer username now _ locked in
    (
      wait,
      long,
      blocked verify_credentials _ peer username password remember token now later w wait e,
    )
