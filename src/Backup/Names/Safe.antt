-- ===== src/Backup/Names/Safe.antt =====
-- backup.rs, `safe_backup_path`: what the accepted names are, and that the names of new backups are.
use my_template.Prelude.{
  ℕ, zero, suc, ◌%◌, ◌≡◌, ◌≢◌, refl, ap, Char, code, String, ◌<>◌, is_empty, is_empty_ne, all_chars,
  all_chars-has_char, all_chars-to_string, all_chars-append, all_chars-weaken,
  all_chars-filter_chars, ends_with, ends_with-append, has_char, is_ascii_digit,
  is_ascii_alphanumeric, to_string, filter_chars, split_once, Bool, true, false, ◌⊎◌, not, ◌&&◌,
  length, arith, Bool-cases, inl, inr, if◌then◌else◌,
}
use my_template.Core.{BantoError, ok, err}
use my_template.Disk.{Files, exists}
use my_template.Backup.Names.{
  join, numbered, unique_from, unique_path, compact_stamp, stamp_parts, is_name_char,
  safe_backup_path, backups_dir,
}

abbrev pub IsSafeName : String → Type 0
IsSafeName name = (ends_with ".sqlite3" name ≡ true) × (all_chars is_name_char name ≡ true)

not_separator : (d : ℕ) (c : Char) → (d ≡ b'/') ⊎ (d ≡ b'\\') → code c ≡ d → is_name_char c ≡ false
unfolding is_ascii_alphanumeric
not_separator d c (inl e) f = ground arith
not_separator d c (inr e) f = ground arith

Free-separator :
    (d : ℕ) (name : String) → (d ≡ b'/') ⊎ (d ≡ b'\\') → IsSafeName name → has_char d name ≡ false
Free-separator d name sep safe =
    all_chars-has_char is_name_char d name (λ c e. not_separator d c sep e) safe.1

suffixed : (name : String) → ends_with ".sqlite3" name ≡ true → is_empty name ≡ false
unfolding ends_with
suffixed name h = is_empty_ne name λ e. ground (arith, ap (ends_with ".sqlite3") e)

pub safe_backup_path-safe :
    (base name : String)
    → IsSafeName name
    → safe_backup_path base name ≡ ok (join (backups_dir base) name)
unfolding safe_backup_path
safe_backup_path-safe base name safe = rw (suffixed name safe.0, safe.0, safe.1) refl

guarded :
    (b : Bool) (e : BantoError) (x y : String)
    → (if b then ok x else err e) ≡ ok y
    → (b ≡ true) × (y ≡ x)
guarded true e x y h = (refl, cc)
guarded false e x y h = absurd (cc h)

all_three : (a b c : Bool) → a && b && c ≡ true → (b ≡ true) × (c ≡ true)
all_three true true true h = (refl, refl)
all_three true true false h = absurd (cc h)
all_three true false c h = absurd (cc h)
all_three false b c h = absurd (cc h)

accepted :
    (base name path : String)
    → safe_backup_path base name ≡ ok path
    → (path ≡ join (backups_dir base) name) × IsSafeName name
unfolding safe_backup_path
accepted base name path good =
    let (passed, same) =
      guarded (not (is_empty name) && ends_with ".sqlite3" name && all_chars is_name_char name) _ _
        path good in
    (
      same,
      all_three (not (is_empty name)) (ends_with ".sqlite3" name) (all_chars is_name_char name)
          passed,
    )

-- The path of an accepted name is that of the name in the directory of the backups, and the name has no
-- separator and is not the parent directory.
pub safe_backup_path-inside :
    (base name path : String)
    → safe_backup_path base name ≡ ok path
    → (path ≡ join (backups_dir base) name)
      × (has_char b'/' name ≡ false)
      × (has_char b'\\' name ≡ false)
      × (name ≢ "..")
unfolding ends_with
safe_backup_path-inside base name path good =
    let (same, safe) = accepted base name path good in
    (
      same,
      Free-separator b'/' name (inl refl) safe,
      Free-separator b'\\' name (inr refl) safe,
      λ parent. ground (arith, safe.0, ap (ends_with ".sqlite3") parent),
    )

is_name_char-digit : (c : Char) → is_ascii_digit c ≡ true → is_name_char c ≡ true
unfolding is_ascii_digit is_ascii_alphanumeric
is_name_char-digit c h = ground arith

digits-safe : (s : String) → all_chars is_ascii_digit s ≡ true → all_chars is_name_char s ≡ true
digits-safe s h = all_chars-weaken is_ascii_digit is_name_char s is_name_char-digit h

filtered-safe : (s : String) → all_chars is_name_char (filter_chars is_ascii_digit s) ≡ true
filtered-safe s =
    digits-safe (filter_chars is_ascii_digit s) (all_chars-filter_chars is_ascii_digit s)

pub compact_stamp-safe : (s : String) → all_chars is_name_char (compact_stamp s) ≡ true
unfolding compact_stamp is_ascii_alphanumeric
compact_stamp-safe s =
    let (date_part, time_part) = stamp_parts s (split_once b' ' s) in
    all_chars-append is_name_char (filter_chars is_ascii_digit date_part)
      ("-" <> filter_chars is_ascii_digit time_part) (filtered-safe date_part)
      (all_chars-append is_name_char "-" (filter_chars is_ascii_digit time_part) refl
        (filtered-safe time_part))

module _ (stem : String) (clean : all_chars is_name_char stem ≡ true) where
  plain-safe : IsSafeName (stem <> "." <> "sqlite3")
  unfolding ends_with is_ascii_alphanumeric
  plain-safe = (
    ends_with-append ".sqlite3" stem ".sqlite3" refl,
    all_chars-append is_name_char stem ".sqlite3" clean refl,
  )

  numbered-safe : (n : ℕ) → IsSafeName (numbered stem "sqlite3" n)
  unfolding ends_with is_ascii_alphanumeric
  numbered-safe n = (
    ends_with-append ".sqlite3" stem ("-" <> to_string n <> ".sqlite3") (
        ends_with-append ".sqlite3" "-" (to_string n <> ".sqlite3")
          (ends_with-append ".sqlite3" (to_string n) ".sqlite3" refl)),
    all_chars-append is_name_char stem ("-" <> to_string n <> ".sqlite3") clean (
        all_chars-append is_name_char (to_string n) ".sqlite3"
          (digits-safe (to_string n) (all_chars-to_string n)) refl),
  )

  unique_from-safe :
      (fuel : ℕ) (files : Files) (dir : String) (n : ℕ)
      → IsSafeName (unique_from fuel files dir stem "sqlite3" n)
  unfolding unique_from
  unique_from-safe zero files dir n = numbered-safe n
  unique_from-safe (suc fuel) files dir n =
      elim (Bool-cases (exists (join dir (numbered stem "sqlite3" n)) files)) [
        | inl e ↦ rw e (unique_from-safe fuel files dir (suc n % 4294967296))
        | inr e ↦ rw e (numbered-safe n)
      ]

  pub unique_path-safe :
      (files : Files) (dir : String) → IsSafeName (unique_path files dir stem "sqlite3")
  unfolding unique_path
  unique_path-safe files dir =
      elim (Bool-cases (exists (join dir (stem <> "." <> "sqlite3")) files)) [
        | inl e ↦ rw e (unique_from-safe (length files) files dir 1)
        | inr e ↦ rw e plain-safe
      ]
