-- ===== src/Auth.antt =====
-- crates/banto-server/src/auth.rs: sessions by bearer token, and the throttle on logins. Times are
-- nanoseconds on the monotonic clock, and an argument of each operation; so is the fresh token, which
-- the program takes from `Uuid::new_v4`.
pub mod Tokens
pub mod Throttle
pub mod Login
pub mod Sessions
pub mod Lockouts
mod Tests
use my_template.Prelude.{ℕ, ◌*◌, String, Bool, Option}
use my_template.Prelude.Maps.{Map}
use my_template.Prelude.Maps

pub record Identity : Type 0 where
  pub id : String
  pub name : String
  pub role : String

pub record TokenPolicy : Type 0 where
  pub absolute_ttl : ℕ
  pub idle_ttl : ℕ

abbrev pub seconds : ℕ → ℕ
seconds n = n * 1_000_000_000

abbrev pub default_token_policy : TokenPolicy
default_token_policy = record { absolute_ttl = seconds (8 * 60 * 60); idle_ttl = seconds (60 * 60) }

abbrev pub remembered_default : TokenPolicy
remembered_default = record {
  absolute_ttl = seconds (30 * 24 * 60 * 60);
  idle_ttl = seconds (7 * 24 * 60 * 60);
}

pub record RateLimitPolicy : Type 0 where
  pub max_failures : ℕ
  pub max_ip_failures : ℕ
  pub lockout : ℕ

abbrev pub default_rate_limit : RateLimitPolicy
default_rate_limit = record { max_failures = 5; max_ip_failures = 20; lockout = seconds 60 }

pub record TokenRecord : Type 0 where
  pub identity : Identity
  pub issued_at : ℕ
  pub last_used : ℕ
  pub remembered : Bool

pub record FailureRecord : Type 0 where
  pub count : ℕ
  pub locked_until : Option ℕ
  pub last_failure : ℕ

-- `Inner`, less the verifier and the clock.
pub record AuthState : Type 0 where
  pub tokens : Map TokenRecord
  pub failures : Map FailureRecord
  pub token_policy : TokenPolicy
  pub remembered_policy : TokenPolicy
  pub rate_limit : RateLimitPolicy

-- `AuthState::build`
abbrev pub with_policies : TokenPolicy → TokenPolicy → RateLimitPolicy → AuthState
with_policies token_policy remembered_policy rate_limit = record {
  tokens = Maps.empty;
  failures = Maps.empty;
  token_policy = token_policy;
  remembered_policy = remembered_policy;
  rate_limit = rate_limit;
}

-- `AuthState::new` and `with_policy`
abbrev pub new : AuthState
new = with_policies default_token_policy remembered_default default_rate_limit
