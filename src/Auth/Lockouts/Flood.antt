-- ===== src/Auth/Lockouts/Flood.antt =====
-- auth.rs, `login_rate_limited`: the throttle by address, and the calls of the verifier.
use my_template.Prelude.{
  ℕ, ◌+◌, ◌≤◌, ◌<◌, String, ◌≡◌, ap, refl, Bool, Option, none, some, List, [], ◌∷◌, arith,
  Option-cases, inl, inr,
}
use my_template.Auth.{AuthState, RateLimitPolicy}
use my_template.Auth.Throttle.{
  locked_out, record_failure, rate_limit_key, ip_rate_limit_key, max_option,
}
use my_template.Auth.Login.{
  Verifier, login_check, login_rate_limited, count_failures, LoginOutcome, rate_limited,
  invalid_credentials,
}
use my_template.Auth.Lockouts.Streak.{Counts, Counts-le, record-other, record-own, room_of_unlocked}
use my_template.Auth.Lockouts.Keys.{IsAddress, rate_limit_key-ne-ip_rate_limit_key}

-- A verifier that knows nobody and counts its calls.
pub rejecting : Verifier ℕ
rejecting username password calls = (none, calls + 1)

pub record Attempt : Type 0 where
  pub username : String
  pub password : String
  pub remember : Bool
  pub token : String
  pub now : ℕ
  pub later : ℕ

attempt : AuthState → String → Attempt → ℕ → LoginOutcome × AuthState × ℕ
attempt s ip a calls =
    login_rate_limited rejecting s (some ip) a.username a.password a.remember a.token a.now a.later
      calls

-- The attempts of one address, one after the other, and the calls of the verifier so far.
pub attempt_all : AuthState → String → List Attempt → ℕ → AuthState × ℕ
attempt_all s ip [] calls = (s, calls)
attempt_all s ip (a ∷ rest) calls =
    let (outcome, s', calls') = attempt s ip a calls in attempt_all s' ip rest calls'

attempt_blocked :
    (s : AuthState) (ip : String) (a : Attempt) (r calls : ℕ)
    → login_check s (some ip) a.username a.now ≡ some r
    → attempt s ip a calls ≡ (rate_limited r, s, calls)
unfolding attempt login_rate_limited
attempt_blocked s ip a r calls e = rw (e, login_rate_limited)

attempt_tried :
    (s : AuthState) (ip : String) (a : Attempt) (calls : ℕ)
    → login_check s (some ip) a.username a.now ≡ none
    → attempt s ip a calls
      ≡ (invalid_credentials, count_failures s (some ip) a.username a.later, calls + 1)
unfolding attempt rejecting login_rate_limited count_failures
attempt_tried s ip a calls e = rw (e, login_rate_limited)

max_option-none : (a b : Option ℕ) → max_option a b ≡ none → (a ≡ none) × (b ≡ none)
unfolding max_option
max_option-none a b h = ground arith

login_check-none :
    (s : AuthState) (ip username : String) (now : ℕ)
    → login_check s (some ip) username now ≡ none
    → locked_out s (ip_rate_limit_key ip) now ≡ none
unfolding login_check
login_check-none s ip username now h = (max_option-none _ _ h).1

module _ (p : RateLimitPolicy) (t0 : ℕ) (ip : String) where
  abbrev pub InWindow : List Attempt → Type 0
  InWindow [] = Unit
  InWindow (a ∷ rest) =
      (a.now < t0 + p.lockout) × (t0 ≤ a.later) × (a.later < t0 + p.lockout) × InWindow rest

  abbrev key : String
  key = ip_rate_limit_key ip

  record Streak (n : ℕ) (s : AuthState) : Type 0 where
    policy : s.rate_limit ≡ p
    streak : Counts p.lockout p.max_ip_failures t0 key n s

  count_failures-Streak :
      {n : ℕ} (s : AuthState) (username : String) (later : ℕ)
      → IsAddress ip
      → t0 ≤ later
      → later < t0 + p.lockout
      → n < p.max_ip_failures
      → Streak n s
      → Streak (n + 1) (count_failures s (some ip) username later)
  unfolding count_failures
  count_failures-Streak s username later address a b room c =
      let account = rate_limit_key (some ip) username in
      let s' = record_failure s account s.rate_limit.max_failures later in
      record {
        policy = c.policy;
        streak =
            record-own p.lockout p.max_ip_failures t0 key s' s.rate_limit.max_ip_failures later
              (ap (λ (q : RateLimitPolicy). q.max_ip_failures) c.policy) a b room
              (record-other p.lockout p.max_ip_failures t0 key s account s.rate_limit.max_failures
                later (rate_limit_key-ne-ip_rate_limit_key (some ip) username ip address) a b
                c.streak);
      }

  attempt_all-bound :
      (s : AuthState) (attempts : List Attempt) (calls : ℕ)
      → IsAddress ip
      → 1 ≤ p.max_ip_failures
      → InWindow attempts
      → Streak calls s
      → (attempt_all s ip attempts calls).1 ≤ p.max_ip_failures
  unfolding attempt_all
  attempt_all-bound s [] calls address pos w c =
      Counts-le p.lockout p.max_ip_failures t0 key s c.streak
  attempt_all-bound s (a ∷ rest) calls address pos w c =
      elim (Option-cases (login_check s (some ip) a.username a.now)) [
        | inl e ↦
            let room =
              room_of_unlocked p.lockout p.max_ip_failures t0 key s a.now pos w.0 c.streak
                (login_check-none s ip a.username a.now e) in
            rw (attempt_tried s ip a calls e, attempt_all)
              (attempt_all-bound (count_failures s (some ip) a.username a.later) rest (calls + 1)
                address pos w.3 (count_failures-Streak s a.username a.later address w.1 w.2 room c))
        | inr (r, e) ↦
            rw (attempt_blocked s ip a r calls e, attempt_all)
              (attempt_all-bound s rest calls address pos w.3 c)
      ]

-- If the threshold of the addresses is at least 1 and the address has no record of failures at the start:
-- whatever names and passwords it tries within one lockout window, at most `max_ip_failures` of its
-- attempts reach the verifier, while it accepts none of them and one attempt ends before the next begins.
pub flood_bound :
    (s : AuthState) (ip : String) (t0 : ℕ) (attempts : List Attempt)
    → IsAddress ip
    → 1 ≤ s.rate_limit.max_ip_failures
    → s.failures (ip_rate_limit_key ip) ≡ none
    → InWindow s.rate_limit t0 ip attempts
    → (attempt_all s ip attempts 0).1 ≤ s.rate_limit.max_ip_failures
flood_bound s ip t0 attempts address pos clean w =
    attempt_all-bound s.rate_limit t0 ip s attempts 0 address pos w
      (record { policy = refl; streak = record { policy = refl; streak = rw clean refl } })
