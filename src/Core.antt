-- ===== src/Core.antt =====
-- crates/banto-core: the error that crosses the boundary to the frontend, and the parameters of a
-- list request.
pub mod Params
use my_template.Prelude.{ℕ, String, List}

pub record FieldError : Type 0 where
  pub field : String
  pub message : String

pub data BantoError : Type 0 where
  not_found : String → String → BantoError
  validation : List FieldError → BantoError
  unauthorized forbidden : BantoError
  storage : String → BantoError
  other : String → BantoError

-- The wire form, `kind` by its constructor.
pub data ErrorBody : Type 0 where
  not_found : String → String → ErrorBody
  validation : List FieldError → ErrorBody
  unauthorized forbidden : ErrorBody
  storage : String → ErrorBody
  other : String → ErrorBody

unfoldable pub error_body : BantoError → ErrorBody
error_body (BantoError.not_found resource id) = ErrorBody.not_found resource id
error_body (BantoError.validation field_errors) = ErrorBody.validation field_errors
error_body BantoError.unauthorized = ErrorBody.unauthorized
error_body BantoError.forbidden = ErrorBody.forbidden
error_body (BantoError.storage message) = ErrorBody.storage message
error_body (BantoError.other message) = ErrorBody.other message

-- `ApiError::into_response` sends this status with the body.
unfoldable pub status_for : BantoError → ℕ
status_for (BantoError.not_found _ _) = 404
status_for (BantoError.validation _) = 422
status_for BantoError.unauthorized = 401
status_for BantoError.forbidden = 403
status_for (BantoError.storage _) = 500
status_for (BantoError.other _) = 500

pub data Result {ℓ} (A : Type ℓ) : Type ℓ where
  ok : A → Result A
  err : BantoError → Result A

-- The operator `?`.
module _ {X Y : Type 0} where
  infixl 10 ◌>>=◌
  abbrev pub ◌>>=◌ : Result X → (X → Result Y) → Result Y
  err problem >>= next = err problem
  ok value >>= next = next value

infixl 10 ◌>>◌
abbrev pub ◌>>◌ : {Y : Type 0} → Result (Unit {0}) → Result Y → Result Y
first >> next = first >>= λ done. next
