-- ===== src/Backup/Service/Created.antt =====
-- backup.rs, `create` and `read`: a new backup.
use my_template.Prelude.{
  ℕ, String, ◌<>◌, ◌<◌, ◌≡◌, ◌≢◌, refl, sym, ap, ◌∙◌, inl, inr, false, Option, none, some, [],
  length, is_ascii_alphanumeric, Option-cases, all_chars-append, arith,
}
use my_template.Core.{ok}
use my_template.Dates.{iso_datetime_from_system_time}
use my_template.Disk.{
  Bytes, File, Files, lookup, put, exists, perform, io, settled, look, lift, pure, resume, ◌>>=◌,
}
use my_template.Disk.Ensures.{lookup-put, lookup-put_ne}
use my_template.Backup.Names.{
  join, backups_dir, compact_stamp, unique_path, safe_backup_path, is_name_char,
}
use my_template.Backup.Names.Fresh.{unique_path-free}
use my_template.Backup.Names.Safe.{unique_path-safe, safe_backup_path-safe, compact_stamp-safe}
use my_template.Backup.Validate.{Engine}
use my_template.Backup.Service.{BackupInfo, backup_info, create, create_at, read}

free : (p : String) (files : Files) → exists p files ≡ false → lookup p files ≡ none
unfolding exists
free p files h = elim (Option-cases (lookup p files)) [
  | inl e ↦ e
  | inr (file, e) ↦ ground (arith, e, h)
]

module _ (engine : Engine) (snapshot : Bytes) (now : ℕ) (base clock : String) (files : Files) where
  abbrev stem : String
  stem = "banto-" <> compact_stamp clock

  abbrev name : String
  name = unique_path files (backups_dir base) stem "sqlite3"

  abbrev path : String
  path = join (backups_dir base) name

  abbrev made : File
  made = record { bytes = snapshot; modified = now }

  created : create engine snapshot now base clock (record { files = files; faults = [] }) ≡ (
    ok (backup_info engine snapshot now base name made),
    record { files = put path made files; faults = [] },
  )
  unfolding create create_at ◌>>=◌ resume io settled perform look pure
  created = rw (lookup-put path made files) refl

  name-safe : safe_backup_path base name ≡ ok path
  unfolding is_ascii_alphanumeric
  name-safe = safe_backup_path-safe base name (
      unique_path-safe stem
        (all_chars-append is_name_char "banto-" (compact_stamp clock) refl
          (compact_stamp-safe clock))
        files (backups_dir base))

  readable :
      (read engine snapshot now base name (record { files = put path made files; faults = [] })).0
      ≡ ok snapshot
  unfolding read ◌>>=◌ resume io settled perform lift
  readable = rw (name-safe, lookup-put path made files) refl

  kept :
      length files < 4294967296
      → (q : String) (file : File) → lookup q files ≡ some file
      → lookup q (put path made files) ≡ some file
  kept few q file found =
      lookup-put_ne path q made files (λ e. absent (
        sym (free path files (unique_path-free files (backups_dir base) stem "sqlite3" few))
        ∙ ap (λ p. lookup p files) e
        ∙ found))
      ∙ found
    where
      absent : ◌≢◌ {A = Option File} none (some file)
      absent h = cc h

-- With no failing operation and fewer than 2 ^ 32 files, create succeeds, whatever text the clock gives; read
-- of the name that it answers is accepted and gives the bytes of the snapshot, the size is theirs, the time
-- is that of the file, and every file that was there, other backups included, is as it was.
pub create-read :
    (engine : Engine) (snapshot : Bytes) (now : ℕ) (base clock : String) (files : Files)
    → length files < 4294967296
    → let (r, disk) =
        create engine snapshot now base clock (record { files = files; faults = [] }) in
      (info : BackupInfo) × (r ≡ ok info)
      × ((read engine snapshot now base info.file_name disk).0 ≡ ok snapshot)
      × (info.size_bytes ≡ length snapshot)
      × (info.created_at ≡ iso_datetime_from_system_time now)
      × ((q : String) (file : File) → lookup q files ≡ some file → lookup q disk.files ≡ some file)
unfolding backup_info
create-read engine snapshot now base clock files few =
    rw (created engine snapshot now base clock files) (
      backup_info engine snapshot now base (name engine snapshot now base clock files)
          (made engine snapshot now base clock files),
      refl,
      readable engine snapshot now base clock files,
      refl,
      refl,
      kept engine snapshot now base clock files few,
    )
