-- ===== src/Auth/Tests.antt =====
-- Sessions and lockouts at concrete inputs.
use my_template.Prelude.{
  ℕ, ◌+◌, ◌-◌, ◌≤◌, String, ◌≡◌, ◌≢◌, ◌↔◌, refl, true, false, none, some, List, [], ◌∷◌, arith,
  eq_iff, all_chars,
}
use my_template.Auth.{
  AuthState, Identity, new, seconds, with_policies, default_token_policy, remembered_default,
}
use my_template.Auth.Tokens.{identity_for, issue_token_with, logout}
use my_template.Auth.Login.{rate_limited, Verifier, login_rate_limited, login_check, count_failures}
use my_template.Auth.Sessions.{Event, issued, looked_up, logged_out, run, step}
use my_template.Auth.Sessions.Origin.{identity_for_past_cap, identity_for-own}
use my_template.Auth.Sessions.Alive.{identity_for-alive}
use my_template.Auth.Sessions.Sweep.{identity_for-issue_ne}
use my_template.Auth.Lockouts.Keys.{is_address_char}
use my_template.Auth.Lockouts.Flood.{Attempt, attempt_all, flood_bound}
use my_template.Auth.Lockouts.Wait.{retry_after_exact}
use my_template.Auth.Lockouts.Account.{fail_all, lockout_blocks}

abbrev admin : Identity
admin = record { id = "admin"; name = "管理者"; role = "admin" }

abbrev viewer : Identity
viewer = record { id = "eve"; name = "Eve"; role = "viewer" }

a_not_b : ◌≢◌ {A = String} "a" "b"
a_not_b = ground (arith, eq_iff "a" "b")

b_not_a : ¬ ◌≡◌ {A = String} "b" "a"
b_not_a = ground (arith, eq_iff "a" "b")

-- The token "a" is used at 1800 s; "b" logs in and out in between.
abbrev history : List Event
history = issued viewer false "b" (seconds 60) ∷ looked_up "a" (seconds 1800) ∷ logged_out "b" ∷ []

identity_for_past_cap_example :
    (identity_for (run (issue_token_with new admin false "a" 0) history) "a" (seconds 28800)).0
    ≡ none
identity_for_past_cap_example =
    identity_for_past_cap new admin false "a" 0 (seconds 28800) history
      (a_not_b, (λ h. h, (λ h. h, tt))) (omega arith)

identity_for-alive_example :
    (identity_for (run (issue_token_with new admin false "a" 0) history) "a" (seconds 5000)).0
    ≡ some admin
identity_for-alive_example = identity_for-alive new admin false "a" 0 (seconds 5000) history (
  a_not_b,
  (omega arith, omega arith),
  ((λ h. (omega arith, omega arith)), (a_not_b, (omega arith, omega arith))),
)

identity_for-issue_ne_example :
    (identity_for
      (issue_token_with (issue_token_with new admin false "a" 0) viewer true "b" (seconds 60))
      "a"
      (seconds 1800)).0
    ≡ (identity_for (issue_token_with new admin false "a" 0) "a" (seconds 1800)).0
identity_for-issue_ne_example =
    identity_for-issue_ne (issue_token_with new admin false "a" 0) viewer true "b" "a" (seconds 60)
      (seconds 1800) b_not_a (omega arith)

looked_up_own :
    (identity_for (run (issue_token_with new admin false "a" 0) history) "a" 9).0 ≡ some admin
unfolding identity_for issue_token_with run step logout
looked_up_own = refl

identity_for-own_example : admin ≡ admin
identity_for-own_example =
    identity_for-own new admin admin false "a" 0 9 history (a_not_b, (λ h. h, (λ h. h, tt)))
      looked_up_own

is_ip : all_chars is_address_char "10.0.0.7" ≡ true
unfolding is_address_char
is_ip = refl

is_other_ip : all_chars is_address_char "::1" ≡ true
unfolding is_address_char
is_other_ip = refl

ip_ne : ◌≢◌ {A = String} "10.0.0.7" "::1"
ip_ne = ground (arith, eq_iff "10.0.0.7" "::1")

abbrev guess : String → ℕ → Attempt
guess name t = record {
  username = name;
  password = "hunter2";
  remember = false;
  token = "t";
  now = seconds t;
  later = seconds t + 5;
}

flood_bound_example : (attempt_all new "10.0.0.7" (guess "bob" 1 ∷ guess "eve" 2 ∷ []) 0).1 ≤ 20
flood_bound_example =
    flood_bound new "10.0.0.7" (seconds 1) (guess "bob" 1 ∷ guess "eve" 2 ∷ []) is_ip (omega arith)
      refl (omega arith)

abbrev trusting : Verifier ℕ
trusting username password calls = (some admin, calls + 1)

lockout_blocks_example :
    let s' =
      count_failures
        (fail_all new none "admin" (seconds 1 ∷ seconds 2 ∷ seconds 3 ∷ seconds 4 ∷ []))
        none
        "admin"
        (seconds 5) in
    (wait : ℕ) × (seconds 5 + seconds 60 - seconds 20 ≤ wait)
    × (login_rate_limited trusting s' none "admin" "right" false "t" (seconds 20) (seconds 21) 0
        ≡ (rate_limited wait, s', 0))
lockout_blocks_example =
    lockout_blocks trusting new none "admin" "right" false "t" (seconds 1)
      (seconds 1 ∷ seconds 2 ∷ seconds 3 ∷ seconds 4 ∷ []) (seconds 5) (seconds 20) (seconds 21) 0
      tt refl (omega arith) (omega arith) (omega arith) (omega arith) (omega arith) (omega arith)

abbrev strict : AuthState
strict =
    with_policies default_token_policy remembered_default
      (record { max_failures = 1; max_ip_failures = 2; lockout = 60 })

locked_once : login_check (count_failures strict none "bob" 3) none "bob" 10 ≡ some 53
unfolding login_check count_failures
locked_once = refl

retry_after_exact_example :
    (login_check (count_failures strict none "bob" 3) none "bob" (10 + 52) ≡ none) ↔ (53 ≤ 52)
retry_after_exact_example =
    retry_after_exact (count_failures strict none "bob" 3) none "bob" 10 53 52 locked_once
