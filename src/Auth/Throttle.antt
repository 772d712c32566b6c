-- ===== src/Auth/Throttle.antt =====
-- auth.rs, the failure map: lockouts by key.
use my_template.Prelude.{
  ℕ, ◌+◌, ◌-◌, String, Bool, false, ◌||◌, Option, none, some, ltb, leb, if◌then◌else◌, ◌<>◌,
}
use my_template.Prelude.Maps
use my_template.Auth.{AuthState, FailureRecord, RateLimitPolicy}

abbrev passed : ℕ → Option ℕ → Bool
passed now none = false
passed now (some until) = ltb now until

-- `FailureRecord::is_live`
unfoldable pub is_live : FailureRecord → ℕ → RateLimitPolicy → Bool
is_live r now policy = passed now r.locked_until || ltb (now - r.last_failure) policy.lockout

-- How long a record's lockout still runs.
abbrev pub remaining : ℕ → Option ℕ → Option ℕ
remaining now none = none
remaining now (some until) = if ltb now until then some (until - now) else none

abbrev pub lock_left : ℕ → Option FailureRecord → Option ℕ
lock_left now none = none
lock_left now (some r) = remaining now r.locked_until

unfoldable pub locked_out : AuthState → String → ℕ → Option ℕ
locked_out s key now = lock_left now (s.failures key)

abbrev or_fresh : ℕ → Option FailureRecord → FailureRecord
or_fresh now none = record { count = 0; locked_until = none; last_failure = now }
or_fresh now (some r) = r

abbrev has_ended : ℕ → Option ℕ → Bool
has_ended now none = false
has_ended now (some until) = leb until now

-- An ended lockout, or a gap of a whole window, ends the streak.
unfoldable pub restart : FailureRecord → ℕ → RateLimitPolicy → FailureRecord
restart r now policy =
    if has_ended now r.locked_until || leb policy.lockout (now - r.last_failure)
    then record r { count = 0; locked_until = none }
    else r

unfoldable pub count_failure : FailureRecord → ℕ → ℕ → ℕ → FailureRecord
count_failure r now max_failures lockout = record {
  count = r.count + 1;
  last_failure = now;
  locked_until = if leb max_failures (r.count + 1) then some (now + lockout) else r.locked_until;
}

unfoldable pub record_failure : AuthState → String → ℕ → ℕ → AuthState
unfolding is_live restart count_failure
record_failure s key max_failures now =
    let swept = Maps.retain (λ r. is_live r now s.rate_limit) s.failures in
    let entry = restart (or_fresh now (swept key)) now s.rate_limit in
    record s {
      failures = Maps.insert key (count_failure entry now max_failures s.rate_limit.lockout) swept;
    }

unfoldable pub reset_failures : AuthState → String → AuthState
reset_failures s key = record s { failures = Maps.remove key s.failures }

-- An address stands for its `Display` text.
unfoldable pub rate_limit_key : Option String → String → String
rate_limit_key (some ip) username = ip <> "|" <> username
rate_limit_key none username = "-|" <> username

unfoldable pub ip_rate_limit_key : String → String
ip_rate_limit_key ip = "ip-only|" <> ip

unfoldable pub max_option : Option ℕ → Option ℕ → Option ℕ
max_option (some a) (some b) = some (if ltb a b then b else a)
max_option (some a) none = some a
max_option none b = b
