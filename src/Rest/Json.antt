-- ===== src/Rest/Json.antt =====
-- `serde_json::json!`, for the details of the audit log.
use my_template.Prelude.{ℕ, String, Option, none, some, ℤ, pos, to_string_ℤ}
use my_template.Core.Params.{Value, null, string, number, object, end, field}

-- An integer, of which only the text and the value as an integer are written out.
abbrev pub integer : ℤ → Value
integer n = number (record { as_i64 = some n; as_f64 = none; text = to_string_ℤ n })

abbrev pub natural : ℕ → Value
natural n = integer (pos n)

abbrev pub optional_integer : Option ℤ → Value
optional_integer none = null
optional_integer (some n) = integer n

abbrev pub optional_string : Option String → Value
optional_string none = null
optional_string (some s) = string s

abbrev pub one : String → Value → Value
one name value = object (field name value end)

abbrev pub two : String → Value → String → Value → Value
two name value other_name other_value = object (field name value (field other_name other_value end))
