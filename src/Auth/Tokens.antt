-- ===== src/Auth/Tokens.antt =====
-- auth.rs, the tokens: expiry, issue, lookup and logout.
use my_template.Prelude.{
  ℕ, ◌-◌, String, Bool, true, false, not, ◌||◌, Option, none, some, leb, if◌then◌else◌,
}
use my_template.Prelude.Maps
use my_template.Auth.{AuthState, Identity, TokenPolicy, TokenRecord}

-- `TokenRecord::is_expired`; `saturating_sub` is the subtraction of ℕ.
unfoldable pub is_expired : TokenRecord → ℕ → TokenPolicy → Bool
is_expired r now policy =
    leb policy.absolute_ttl (now - r.issued_at) || leb policy.idle_ttl (now - r.last_used)

-- The policy that a record is held to, by its own flag.
unfoldable pub policy_of : AuthState → TokenRecord → TokenPolicy
policy_of s r = if r.remembered then s.remembered_policy else s.token_policy

unfoldable pub is_dead : AuthState → ℕ → TokenRecord → Bool
unfolding is_expired policy_of
is_dead s now r = is_expired r now (policy_of s r)

unfoldable pub issue_token_with : AuthState → Identity → Bool → String → ℕ → AuthState
unfolding is_dead
issue_token_with s identity remembered token now = record s {
  tokens =
      Maps.insert token
        (record { identity = identity; issued_at = now; last_used = now; remembered = remembered })
        (Maps.retain (λ r. not (is_dead s now r)) s.tokens);
}

unfoldable pub issue_token : AuthState → Identity → String → ℕ → AuthState
unfolding issue_token_with
issue_token s identity token now = issue_token_with s identity false token now

unfoldable pub issue_token_remembered : AuthState → Identity → String → ℕ → AuthState
unfolding issue_token_with
issue_token_remembered s identity token now = issue_token_with s identity true token now

unfoldable pub touch_record :
    AuthState → String → ℕ → Option TokenRecord → Option Identity × AuthState
unfolding is_dead
touch_record s token now none = (none, s)
touch_record s token now (some r) =
    if is_dead s now r then (none, record s { tokens = Maps.remove token s.tokens }) else (
      some r.identity,
      record s { tokens = Maps.insert token (record r { last_used = now }) s.tokens },
    )

unfoldable pub touch : AuthState → String → ℕ → Option Identity × AuthState
unfolding touch_record
touch s token now = touch_record s token now (s.tokens token)

abbrev is_some {ℓ} : {A : Type ℓ} → Option A → Bool
is_some none = false
is_some (some _) = true

unfoldable pub verify : AuthState → String → ℕ → Bool × AuthState
unfolding touch
verify s token now = let (found, s') = touch s token now in (is_some found, s')

unfoldable pub identity_for : AuthState → String → ℕ → Option Identity × AuthState
unfolding touch
identity_for s token now = touch s token now

unfoldable pub logout : AuthState → String → AuthState
logout s token = record s { tokens = Maps.remove token s.tokens }
