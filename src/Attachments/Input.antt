-- ===== src/Attachments/Input.antt =====
-- lib.rs of banto-attachments: the checks of an upload.
use my_template.Prelude.{
  ℕ, ◌≤◌, ◌≡◌, ◌↔◌, Bool, false, ◌||◌, String, ◌<>◌, is_empty, is_empty-count, char_count, has_char,
  contains, is_control, not, all_chars, List, [], ◌∷◌, ◌++◌, length, ltb, if◌then◌else◌, to_string,
  arith,
}
use my_template.Core.{FieldError, validation, Result, ok, err}
use my_template.Disk.{Bytes}

abbrev pub max_attachment_bytes : ℕ
max_attachment_bytes = 26_214_400

abbrev pub max_file_name_len : ℕ
max_file_name_len = 256

abbrev pub required_message : String
required_message = "必須項目です"

abbrev problem : String → String → List FieldError
problem field message = record { field = field; message = message } ∷ []

-- `chars().any(|c| c.is_control())`
unfoldable pub any_control : String → Bool
unfolding is_control
any_control s = not (all_chars (λ c. not (is_control c)) s)

unfoldable pub report : List FieldError → Result (Unit {0})
report [] = ok tt
report (e ∷ errors) = err (validation (e ∷ errors))

unfoldable pub validate_file_name : String → Result (Unit {0})
unfolding report any_control contains
validate_file_name file_name =
    if is_empty file_name
    then err (validation (problem "fileName" required_message))
    else report (
        (if ltb max_file_name_len (char_count file_name)
          then problem "fileName" (to_string max_file_name_len <> "文字以内で入力してください")
          else [])
        ++ (if any_control file_name then problem "fileName" "制御文字を含めることはできません" else [])
        ++ (if has_char b'/' file_name || has_char b'\\' file_name || contains ".." file_name
            then problem "fileName" "パス区切り文字や\"..\"を含めることはできません"
            else []))

unfoldable pub validate_bytes : Bytes → Result (Unit {0})
validate_bytes [] = err (validation (problem "file" required_message))
validate_bytes (b ∷ bytes) =
    if ltb max_attachment_bytes (length (b ∷ bytes))
    then err (validation (problem "file" ("ファイルサイズは" <> to_string 25 <> "MB以内にしてください")))
    else ok tt

-- What an accepted name is.
pub record IsFileName (name : String) : Type 0 where
  pub named : 1 ≤ char_count name
  pub short : char_count name ≤ 256
  pub printable : any_control name ≡ false
  pub slash_free : has_char b'/' name ≡ false
  pub backslash_free : has_char b'\\' name ≡ false
  pub dots_free : contains ".." name ≡ false

-- A name is accepted exactly when it has 1 to 256 characters, no control character, no path separator and
-- no two dots in a row.
pub validate_file_name-IsFileName :
    (name : String) → (validate_file_name name ≡ ok tt) ↔ IsFileName name
unfolding validate_file_name
validate_file_name-IsFileName name =
    (ground (arith, is_empty-count name), λ a. ground (arith, is_empty-count name))

pub validate_bytes-length :
    (bytes : Bytes)
    → validate_bytes bytes ≡ ok tt
    → (1 ≤ length bytes) × (length bytes ≤ 26_214_400)
unfolding validate_bytes
validate_bytes-length [] h = ground arith
validate_bytes-length (b ∷ bytes) h = ground arith
