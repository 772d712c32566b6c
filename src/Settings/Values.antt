-- ===== src/Settings/Values.antt =====
-- settings.rs: the settings records, their keys and defaults, and the texts that stand for values.
use my_template.Prelude.{
  ℕ, String, Char, code, Bool, true, false, not, ◌&&◌, ◌||◌, Option, none, some, [], ◌∷◌, ltb, leb,
  ◌==◌, if◌then◌else◌, is_empty, char_count, byte_len, all_chars, is_ascii_alphanumeric, str_eq, ℤ,
  pos, ltb_ℤ, parse_unsigned, parse_i64,
}
use my_template.Core.{Result, ok, err, validation}
use my_template.Users.Role.{Role, admin, from_str}

abbrev pub key_server_enabled : String
key_server_enabled = "server.enabled"

abbrev pub key_server_bind : String
key_server_bind = "server.bind"

abbrev pub key_server_port : String
key_server_port = "server.port"

abbrev pub key_auth_disabled : String
key_auth_disabled = "auth.disabled"

abbrev pub key_auth_disabled_role : String
key_auth_disabled_role = "auth.disabled_role"

abbrev pub key_autologin_enabled : String
key_autologin_enabled = "auth.autologin.enabled"

abbrev pub key_autologin_username : String
key_autologin_username = "auth.autologin.username"

abbrev pub key_audit_retention_days : String
key_audit_retention_days = "audit.retention_days"

abbrev pub key_audit_retention_rows : String
key_audit_retention_rows = "audit.retention_rows"

abbrev pub max_ui_key_len : ℕ
max_ui_key_len = 64

abbrev pub max_ui_value_len : ℕ
max_ui_value_len = 65536

unfoldable pub normalize_retention : ℤ → Option ℤ
normalize_retention value = if ltb_ℤ (pos 0) value then some value else none

parsed_retention : Option ℤ → Option ℤ → Option ℤ
unfolding normalize_retention
parsed_retention none default = default
parsed_retention (some value) default = normalize_retention value

unfoldable pub parse_retention : Option String → Option ℤ → Option ℤ
unfolding parsed_retention
parse_retention none default = default
parse_retention (some value) default = parsed_retention (parse_i64 value) default

abbrev ui_key_char : Char → Bool
ui_key_char c = is_ascii_alphanumeric c || code c == b'.' || code c == b'_' || code c == b'-'

unfoldable pub validate_ui_key : String → Result (Unit {0})
validate_ui_key key =
    if not (is_empty key) && leb (char_count key) max_ui_key_len && all_chars ui_key_char key
    then ok tt
    else err (
        validation
          (record { field = "key"; message = "キーは英数字・`.`・`_`・`-` のみ、1〜64文字で指定してください" } ∷ []))

unfoldable pub validate_ui_value : String → Result (Unit {0})
validate_ui_value value =
    if ltb max_ui_value_len (byte_len value)
    then err (validation (record { field = "value"; message = "値は64KB以内で指定してください" } ∷ []))
    else ok tt

pub record ServerSettings : Type 0 where
  pub enabled : Bool
  pub bind : String
  pub port : ℕ

abbrev pub default_server : ServerSettings
default_server = record { enabled = false; bind = "127.0.0.1"; port = 8721 }

pub record AuthSettings : Type 0 where
  pub disabled : Bool
  pub disabled_role : Role
  pub autologin_enabled : Bool
  pub autologin_username : Option String

abbrev pub default_auth : AuthSettings
default_auth = record {
  disabled = false;
  disabled_role = admin;
  autologin_enabled = false;
  autologin_username = none;
}

pub record AuditSettings : Type 0 where
  pub retention_days : Option ℤ
  pub retention_rows : Option ℤ

abbrev pub default_audit : AuditSettings
default_audit = record { retention_days = some (pos 90); retention_rows = some (pos 100000) }

abbrev pub unwrap_or {ℓ} : {A : Type ℓ} → A → Option A → A
unwrap_or default none = default
unwrap_or default (some a) = a

-- `.map(|value| value == "true")`
unfoldable pub flag : Bool → Option String → Bool
flag default none = default
flag default (some value) = str_eq value "true"

unfoldable pub port_of : Option String → Option ℕ
port_of none = none
port_of (some value) = parse_unsigned 65535 value

abbrev pub as_option {ℓ} : {A : Type ℓ} → Result A → Option A
as_option (ok a) = some a
as_option (err e) = none

unfoldable pub role_of : Option String → Option Role
role_of none = none
role_of (some value) = as_option (from_str value)

unfoldable pub unless_empty : Option String → Option String
unless_empty none = none
unless_empty (some value) = if is_empty value then none else some value

unfoldable pub bool_text : Bool → String
bool_text true = "true"
bool_text false = "false"
