-- ===== src/Backup/Names.antt =====
-- backup.rs: the paths of the backups, and the names that are accepted for them.
pub mod Fresh
pub mod Safe
use my_template.Prelude.{
  ℕ, zero, suc, ◌+◌, ◌%◌, ◌==◌, Char, code, String, ◌<>◌, is_empty, str_eq, all_chars, ends_with,
  filter_chars, is_ascii_digit, is_ascii_alphanumeric, split_once, replace_char, to_string, Bool,
  true, false, not, ◌&&◌, ◌||◌, Option, none, some, List, [], ◌∷◌, if◌then◌else◌, length,
}
use my_template.Core.{BantoError, FieldError, validation, Result, ok, err}
use my_template.Disk.{Files, exists}

unfoldable pub validation_err : String → BantoError
validation_err message = validation (record { field = "file"; message = message } ∷ [])

abbrev pub backups_dir_name : String
backups_dir_name = "backups"

abbrev pub pending_restore_file_name : String
pending_restore_file_name = "restore-pending.sqlite3"

-- `Path::join` on Unix, of a directory that does not end in a separator and a relative name.
abbrev pub join : String → String → String
join dir name = dir <> "/" <> name

-- `parent` is `Path::parent`.
abbrev non_empty : Option String → String
non_empty none = "."
non_empty (some p) = if is_empty p then "." else p

unfoldable pub base_dir : (String → Option String) → String → String
base_dir parent db_path = non_empty (parent db_path)

unfoldable pub backups_dir : String → String
backups_dir base = join base backups_dir_name

unfoldable pub pending_restore_path : String → String
pending_restore_path base = join base pending_restore_file_name

abbrev pub is_name_char : Char → Bool
is_name_char c = is_ascii_alphanumeric c || code c == b'.' || code c == b'_' || code c == b'-'

unfoldable pub safe_backup_path : String → String → Result String
unfolding ends_with is_ascii_alphanumeric backups_dir validation_err
safe_backup_path base file_name =
    if not (is_empty file_name)
      && ends_with ".sqlite3" file_name
      && all_chars is_name_char file_name
    then ok (join (backups_dir base) file_name)
    else err (validation_err "不正なファイル名です")

stamp_parts : String → Option (String × String) → String × String
stamp_parts iso_datetime none = (iso_datetime, "000000")
stamp_parts iso_datetime (some parts) = parts

unfoldable pub compact_stamp : String → String
unfolding filter_chars is_ascii_digit split_once stamp_parts
compact_stamp iso_datetime =
    let (date_part, time_part) = stamp_parts iso_datetime (split_once b' ' iso_datetime) in
    filter_chars is_ascii_digit date_part <> "-" <> filter_chars is_ascii_digit time_part

unfoldable pub vacuum_into_sql : String → String
unfolding replace_char
vacuum_into_sql path = "VACUUM INTO '" <> replace_char b'\'' "''" path <> "'"

-- The name of the path, in its directory.
abbrev pub numbered : String → String → ℕ → String
numbered base_stem ext n = base_stem <> "-" <> to_string n <> "." <> ext

-- The loop, from the candidate with the number `n`, a `u32`; `n` wraps around.
unfoldable pub unique_from : ℕ → Files → String → String → String → ℕ → String
unfolding exists to_string
unique_from zero files dir base_stem ext n = numbered base_stem ext n
unique_from (suc fuel) files dir base_stem ext n =
    let next = unique_from fuel files dir base_stem ext (suc n % 4294967296) in
    if exists (join dir (numbered base_stem ext n)) files then next else numbered base_stem ext n

-- The file's name; the path is `join dir` of it. The fuel is the number of files.
unfoldable pub unique_path : Files → String → String → String → String
unfolding exists unique_from
unique_path files dir base_stem ext =
    let plain = base_stem <> "." <> ext in
    if exists (join dir plain) files
    then unique_from (length files) files dir base_stem ext 1
    else plain
