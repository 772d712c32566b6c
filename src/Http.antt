-- ===== src/Http.antt =====
-- crates/banto-server: csrf.rs, and the handlers and the middleware of auth.rs. A request is what they
-- read of it: two headers, each there only if it is a text.
pub mod Answers
pub mod Guards
mod Tests
use Prim.Native.String.{[], ◌∷◌}
use my_template.Prelude.{
  ℕ, ◌+◌, ◌/◌, ◌<>◌, String, Bool, true, false, Option, none, some, code, str_eq, ltb, ◌==◌,
  if◌then◌else◌,
}
use my_template.Core.{ErrorBody}
use my_template.Http.Answers.{Answer}
use my_template.Auth.{AuthState, Identity}
use my_template.Auth.Tokens.{verify, identity_for, logout}
use my_template.Auth.Login.{
  LoginOutcome, success, invalid_credentials, rate_limited, Verifier, login_rate_limited,
}

pub record Request : Type 0 where
  pub authorization : Option String
  pub banto_client : Option String

pub record LoginResponse : Type 0 where
  pub success : Bool
  pub error : Option String
  pub token : Option String

pub data Body : Type 0 where
  login : LoginResponse → Body
  bool : Bool → Body
  identity : Option Identity → Body
  error : ErrorBody → Body
  answer : Answer → Body
  empty : Body

pub record Response : Type 0 where
  pub status : ℕ
  pub retry_after : Option ℕ
  pub body : Body

-- `str::strip_prefix`
abbrev pub strip_prefix : String → String → Option String
strip_prefix [] s = some s
strip_prefix (c ∷ p) [] = none
strip_prefix (c ∷ p) (d ∷ s) = if code c == code d then strip_prefix p s else none

abbrev bind : Option String → (String → Option String) → Option String
bind none f = none
bind (some s) f = f s

unfoldable pub bearer_token : Request → Option String
bearer_token req = bind req.authorization (strip_prefix "Bearer ")

abbrev pub plain : ℕ → Body → Response
plain status body = record { status = status; retry_after = none; body = body }

unfoldable pub unauthorized_response : Response
unauthorized_response = plain 401 (error ErrorBody.unauthorized)

unfoldable pub forbidden_response : Response
forbidden_response = plain 403 (error (ErrorBody.other "CSRFヘッダがありません"))

-- What runs behind a middleware, on the state of the sessions and a world of its own.
abbrev pub Next : Type 0 → Type 0
Next W = Request → AuthState → W → Response × AuthState × W

abbrev is_banto : Option String → Bool
is_banto none = false
is_banto (some value) = str_eq value "banto"

module _ {W : Type 0} where
  unfoldable pub admit : Bool → Next W → Next W
  admit true next req s w = next req s w
  admit false next req s w = (unauthorized_response, s, w)

  unfoldable pub require_auth : ℕ → Next W → Next W
  unfolding bearer_token unauthorized_response admit
  require_auth now next req s w = elim (bearer_token req) [
    | none ↦ (unauthorized_response, s, w)
    | some token ↦ let (valid, s') = verify s token now in admit valid next req s' w
  ]

  unfoldable pub require_banto_client_header : Next W → Next W
  unfolding forbidden_response
  require_banto_client_header next req s w =
      if is_banto req.banto_client then next req s w else (forbidden_response, s, w)

-- `retry_after.as_secs().max(1)`; durations are nanoseconds.
unfoldable pub retry_seconds : ℕ → ℕ
retry_seconds retry_after = let secs = retry_after / 1_000_000_000 in if ltb secs 1 then 1 else secs

-- The texts for the user; the decimal form of a number is `show`.
module _ (show : ℕ → String) where
  unfoldable pub locked_message : ℕ → String
  locked_message seconds = "ログインの失敗が続いたため、一時的にロックされています。約" <> show seconds <> "秒後にもう一度お試しください。"

  unfoldable pub login_response : LoginOutcome → Response
  unfolding locked_message retry_seconds
  login_response (success token) =
      plain 200 (login (record { success = true; error = none; token = some token }))
  login_response invalid_credentials =
      plain 200
        (login (record { success = false; error = some "ユーザー名またはパスワードが違います"; token = none }))
  login_response (rate_limited retry_after) = record {
    status = 429;
    retry_after = some (retry_seconds retry_after);
    body = error (ErrorBody.other (locked_message (retry_seconds retry_after)));
  }

  module _ {W : Type 0} (verify_credentials : Verifier W) where
    unfoldable pub login_handler :
        Option String
        → String
        → String
        → Bool
        → String
        → ℕ
        → ℕ
        → AuthState
        → W
        → Response × AuthState × W
    unfolding login_response login_rate_limited
    login_handler peer username password remember token now later s w =
        let (outcome, s', w') =
          login_rate_limited verify_credentials s peer username password remember token now later
            w in
        (login_response outcome, s', w')

unfoldable pub logout_handler : Request → AuthState → Response × AuthState
unfolding bearer_token logout
logout_handler req s = elim (bearer_token req) [
  | none ↦ (plain 200 empty, s)
  | some token ↦ (plain 200 empty, logout s token)
]

unfoldable pub check_handler : ℕ → Request → AuthState → Response × AuthState
unfolding bearer_token verify
check_handler now req s = elim (bearer_token req) [
  | none ↦ (plain 200 (bool false), s)
  | some token ↦ let (ok, s') = verify s token now in (plain 200 (bool ok), s')
]

unfoldable pub identity_handler : ℕ → Request → AuthState → Response × AuthState
unfolding bearer_token identity_for
identity_handler now req s = elim (bearer_token req) [
  | none ↦ (plain 200 (identity none), s)
  | some token ↦ let (found, s') = identity_for s token now in (plain 200 (identity found), s')
]
