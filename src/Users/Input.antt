-- ===== src/Users/Input.antt =====
-- users.rs: the checks of a user name and of a password.
use my_template.Prelude.{ℕ, String, ◌&&◌, [], ◌∷◌, leb, ltb, char_count, trim, if◌then◌else◌}
use my_template.Core.{BantoError, Result, ok, err, validation}

abbrev pub min_username_len : ℕ
min_username_len = 1

abbrev pub max_username_len : ℕ
max_username_len = 32

abbrev pub min_password_len : ℕ
min_password_len = 8

abbrev pub field_problem : String → String → BantoError
field_problem field message = validation (record { field = field; message = message } ∷ [])

unfoldable pub validate_password_len : String → String → Result (Unit {0})
validate_password_len password field =
    if ltb (char_count password) min_password_len
    then err (field_problem field "パスワードは8文字以上で入力してください")
    else ok tt

unfoldable pub validate_username : String → Result String
validate_username username =
    let trimmed = trim username in
    let len = char_count trimmed in
    if leb min_username_len len && leb len max_username_len
    then ok trimmed
    else err (field_problem "username" "1〜32文字で入力してください")
