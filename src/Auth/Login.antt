-- ===== src/Auth/Login.antt =====
-- auth.rs, the logins. The verifier is the app's: it may read and write a world of its own, and runs
-- between the check of the lockouts and the writes. The clock is read before it and after it.
use my_template.Prelude.{ℕ, String, Bool, Option, none, some}
use my_template.Auth.{AuthState, Identity}
use my_template.Auth.Tokens.{issue_token, issue_token_with}
use my_template.Auth.Throttle.{
  locked_out, record_failure, reset_failures, rate_limit_key, ip_rate_limit_key, max_option,
}

pub data LoginOutcome : Type 0 where
  success : String → LoginOutcome
  invalid_credentials : LoginOutcome
  rate_limited : ℕ → LoginOutcome

-- `CredentialVerifier`
abbrev pub Verifier : Type 0 → Type 0
Verifier W = String → String → W → Option Identity × W

-- What stands before the verifier: both keys' lockouts, the longer one.
unfoldable pub login_check : AuthState → Option String → String → ℕ → Option ℕ
unfolding locked_out rate_limit_key ip_rate_limit_key max_option
login_check s none username now = locked_out s (rate_limit_key none username) now
login_check s (some ip) username now =
    max_option (locked_out s (rate_limit_key (some ip) username) now)
      (locked_out s (ip_rate_limit_key ip) now)

unfoldable pub clear_failures : AuthState → Option String → String → AuthState
unfolding reset_failures rate_limit_key ip_rate_limit_key
clear_failures s none username = reset_failures s (rate_limit_key none username)
clear_failures s (some ip) username =
    reset_failures (reset_failures s (rate_limit_key (some ip) username)) (ip_rate_limit_key ip)

unfoldable pub count_failures : AuthState → Option String → String → ℕ → AuthState
unfolding record_failure rate_limit_key ip_rate_limit_key
count_failures s none username now =
    record_failure s (rate_limit_key none username) s.rate_limit.max_failures now
count_failures s (some ip) username now =
    record_failure
      (record_failure s (rate_limit_key (some ip) username) s.rate_limit.max_failures now)
      (ip_rate_limit_key ip) s.rate_limit.max_ip_failures now

-- What stands after the verifier, by its answer.
unfoldable pub login_finish :
    AuthState
    → Option String
    → String
    → Bool
    → String
    → ℕ
    → Option Identity
    → LoginOutcome × AuthState
unfolding clear_failures count_failures issue_token_with
login_finish s ip username remember token now (some identity) =
    (success token, issue_token_with (clear_failures s ip username) identity remember token now)
login_finish s ip username remember token now none =
    (invalid_credentials, count_failures s ip username now)

module _ {W : Type 0} (verify_credentials : Verifier W) where
  unfoldable pub login_rate_limited :
      AuthState
      → Option String
      → String
      → String
      → Bool
      → String
      → ℕ
      → ℕ
      → W
      → LoginOutcome × AuthState × W
  unfolding login_check login_finish
  login_rate_limited s ip username password remember token now later w =
      elim (login_check s ip username now) [
        | some retry_after ↦ (rate_limited retry_after, s, w)
        | none ↦
            let (verified, w') = verify_credentials username password w in
            let (outcome, s') = login_finish s ip username remember token later verified in
            (outcome, s', w')
      ]

  -- The path with no throttle.
  unfoldable pub login :
      AuthState → String → String → String → ℕ → W → Option String × AuthState × W
  unfolding issue_token
  login s username password token now w =
      let (verified, w') = verify_credentials username password w in
      elim verified [
        | some identity ↦ (some token, issue_token s identity token now, w')
        | none ↦ (none, s, w')
      ]
