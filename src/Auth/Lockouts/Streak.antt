-- ===== src/Auth/Lockouts/Streak.antt =====
-- auth.rs, `record_failure`: the record of one key while its failures fall in one lockout window.
use my_template.Prelude.{
  ℕ, ◌+◌, ◌≤◌, ◌<◌, ◌-◌, String, ◌≡◌, ◌≢◌, Option, none, some, arith, eq_iff, eq_refl, Option-cases,
  inl, inr,
}
use my_template.Auth.{AuthState, FailureRecord}
use my_template.Auth.Throttle.{locked_out, record_failure}

-- The window starts at `t0` and is as long as the lockout; the key is locked from the failure `most` on.
module _ (lockout most t0 : ℕ) (key : String) where
  abbrev pub IsLock : ℕ → Option ℕ → Type 0
  IsLock n none = n < most
  IsLock n (some until) = (t0 + lockout ≤ until) × (n ≤ most)

  -- The record of a key that has failed `n` times in the window.
  abbrev pub IsStreak : ℕ → Option FailureRecord → Type 0
  IsStreak n none = n ≡ 0
  IsStreak n (some r) =
      (r.count ≡ n)
      × (t0 ≤ r.last_failure)
      × (r.last_failure < t0 + lockout)
      × IsLock n r.locked_until

  pub record Counts (n : ℕ) (s : AuthState) : Type 0 where
    pub policy : s.rate_limit.lockout ≡ lockout
    pub streak : IsStreak n (s.failures key)

  pub record-other :
      {n : ℕ} (s : AuthState) (other : String) (limit now : ℕ)
      → other ≢ key
      → t0 ≤ now
      → now < t0 + lockout
      → Counts n s
      → Counts n (record_failure s other limit now)
  unfolding record_failure
  record-other s other limit now ne a b c = elim (Option-cases (s.failures key)) [
    | inl e ↦ record {
      policy = c.policy;
      streak = ground (arith, eq_iff other key, c.policy, c.streak);
    }
    | inr (r, e) ↦ record {
      policy = c.policy;
      streak = ground (arith, eq_iff other key, c.policy, c.streak);
    }
  ]

  pub record-own :
      {n : ℕ} (s : AuthState) (limit now : ℕ)
      → limit ≡ most
      → t0 ≤ now
      → now < t0 + lockout
      → n < most
      → Counts n s
      → Counts (n + 1) (record_failure s key limit now)
  unfolding record_failure
  record-own s limit now m a b room c = elim (Option-cases (s.failures key)) [
    | inl e ↦ record { policy = c.policy; streak = ground (arith, eq_refl key, c.policy, c.streak) }
    | inr (r, e) ↦ record {
      policy = c.policy;
      streak = ground (arith, eq_refl key, c.policy, c.streak);
    }
  ]

  -- A key that may try has room left.
  pub room_of_unlocked :
      {n : ℕ} (s : AuthState) (now : ℕ)
      → 1 ≤ most
      → now < t0 + lockout
      → Counts n s
      → locked_out s key now ≡ none
      → n < most
  unfolding locked_out
  room_of_unlocked s now pos a c free = elim (Option-cases (s.failures key)) [
    | inl e ↦ ground (arith, c.streak)
    | inr (r, e) ↦ ground (arith, c.streak)
  ]

  pub Counts-le : {n : ℕ} (s : AuthState) → Counts n s → n ≤ most
  Counts-le s c = elim (Option-cases (s.failures key)) [
    | inl e ↦ ground (arith, c.streak)
    | inr (r, e) ↦ ground (arith, c.streak)
  ]

  -- The failure that fills the streak locks the key for a whole lockout from then on.
  pub last_locks :
      {n : ℕ} (s : AuthState) (limit t now : ℕ)
      → limit ≡ most
      → t0 ≤ t
      → t < t0 + lockout
      → n + 1 ≡ most
      → Counts n s
      → t ≤ now
      → now < t + lockout
      → locked_out (record_failure s key limit t) key now ≡ some (t + lockout - now)
  unfolding record_failure locked_out
  last_locks s limit t now m a b full c before within = elim (Option-cases (s.failures key)) [
    | inl e ↦ ground (arith, eq_refl key, c.policy, c.streak)
    | inr (r, e) ↦ ground (arith, eq_refl key, c.policy, c.streak)
  ]
