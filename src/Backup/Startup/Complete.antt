-- ===== src/Backup/Startup/Complete.antt =====
-- backup.rs, `apply_pending_restore_at_startup`: a start at which no file operation fails.
use my_template.Prelude.{
  ℕ, String, ◌<>◌, ◌≡◌, refl, sym, ◌∙◌, true, Option, none, some, [], is_ascii_alphanumeric,
  all_chars-append,
}
use my_template.Core.{ok}
use my_template.Dates.{iso_datetime_from_system_time}
use my_template.Disk.{
  File, Files, lookup, put, erase, exists, remove_file, perform, attempt, io, settled, pure, look,
  alter, resume, ◌>>=◌,
}
use my_template.Disk.Ensures.{removed, lookup-put, lookup-put_ne, lookup-erase, lookup-erase_ne}
use my_template.Backup.Names.{
  join, base_dir, backups_dir, pending_restore_path, compact_stamp, unique_path, is_name_char,
}
use my_template.Backup.Names.Safe.{IsSafeName, unique_path-safe, compact_stamp-safe}
use my_template.Backup.Validate.{Engine, IsRestorable}
use my_template.Backup.Validate.Passing.{validate-passes}
use my_template.Backup.Service.{AppliedRestoreInfo, or_false}
use my_template.Backup.Startup.{
  or_empty, fold_wal, copy_current, safety_backup, swap, apply_valid, apply_present,
  apply_pending_restore_at_startup,
}
use my_template.Backup.Startup.Safety.{Layout, OnlyDb}

module _ (engine : Engine) (parent : String → Option String) (checkpoint : Files → Files) (now : ℕ)
    (db_path : String) (layout : Layout (base_dir parent db_path) db_path)
    (only_db : OnlyDb db_path checkpoint) (files : Files) (staged current folded : File)
    (was : lookup (pending_restore_path (base_dir parent db_path)) files ≡ some staged)
    (fit : IsRestorable engine staged.bytes) (running : lookup db_path files ≡ some current)
    (stays : lookup db_path (checkpoint files) ≡ some folded) where
  abbrev dir : String
  dir = base_dir parent db_path

  abbrev name : String
  name =
      unique_path (checkpoint files) (backups_dir dir)
        ("pre-restore-" <> compact_stamp (iso_datetime_from_system_time now)) "sqlite3"

  abbrev backup : File
  backup = record { bytes = folded.bytes; modified = now }

  -- After the backup, and after the removal of each sidecar.
  abbrev backed_up : Files
  backed_up = put (join (backups_dir dir) name) backup (checkpoint files)

  abbrev no_wal : Files
  no_wal = ((remove_file (db_path <> "-wal")).run backed_up).1

  abbrev no_shm : Files
  no_shm = ((remove_file (db_path <> "-shm")).run no_wal).1

  abbrev end : Files
  end = put db_path staged (erase (pending_restore_path dir) no_shm)

  still_pending : lookup (pending_restore_path dir) no_shm ≡ some staged
  still_pending =
      removed (db_path <> "-shm") (pending_restore_path dir) no_wal layout.shm_pending
      ∙ removed (db_path <> "-wal") (pending_restore_path dir) backed_up layout.wal_pending
      ∙ lookup-put_ne (join (backups_dir dir) name) (pending_restore_path dir) backup
          (checkpoint files) (layout.backup_pending name)
      ∙ only_db (pending_restore_path dir) files layout.pending_db (λ e. layout.wal_pending (sym e))
          (λ e. layout.shm_pending (sym e))
      ∙ was

  kept_backup : lookup (join (backups_dir dir) name) end ≡ some backup
  kept_backup =
      lookup-put_ne db_path (join (backups_dir dir) name) staged
        (erase (pending_restore_path dir) no_shm) (λ e. layout.backup_db name (sym e))
      ∙ lookup-erase_ne (pending_restore_path dir) (join (backups_dir dir) name) no_shm
          (λ e. layout.backup_pending name (sym e))
      ∙ removed (db_path <> "-shm") (join (backups_dir dir) name) no_wal (layout.shm_backup name)
      ∙ removed (db_path <> "-wal") (join (backups_dir dir) name) backed_up (layout.wal_backup name)
      ∙ lookup-put (join (backups_dir dir) name) backup (checkpoint files)

  abbrev info : AppliedRestoreInfo
  info = record {
    pre_restore_backup_file_name = name;
    applied_at = iso_datetime_from_system_time now;
  }

  swapped :
      swap engine parent checkpoint now db_path
        (some name)
        (record { files = backed_up; faults = [] })
      ≡ (ok (some info), record { files = end; faults = [] })
  unfolding swap ◌>>=◌ resume attempt perform io settled pure or_empty
  swapped = rw still_pending refl

  present : exists (pending_restore_path dir) files ≡ true
  unfolding exists
  present = rw was refl

  there : exists db_path files ≡ true
  unfolding exists
  there = rw running refl

  still_there : exists db_path (checkpoint files) ≡ true
  unfolding exists
  still_there = rw stays refl

  secured :
      safety_backup engine parent checkpoint now db_path true
        (record { files = checkpoint files; faults = [] })
      ≡ (ok (some name), record { files = backed_up; faults = [] })
  unfolding safety_backup copy_current ◌>>=◌ resume look perform io settled pure
  secured = rw stays refl

  valid :
      apply_valid engine parent checkpoint now db_path
        (ok tt)
        (record { files = files; faults = [] })
      ≡ (ok (some info), record { files = end; faults = [] })
  unfolding apply_valid fold_wal ◌>>=◌ resume attempt perform alter or_false
  valid = rw (there, still_there, secured) swapped

  applied :
      apply_pending_restore_at_startup engine parent checkpoint now db_path
        (record { files = files; faults = [] })
      ≡ (ok (some info), record { files = end; faults = [] })
  unfolding apply_pending_restore_at_startup apply_present ◌>>=◌ resume attempt perform or_false
  applied =
      rw (present, validate-passes engine (pending_restore_path dir) files staged was fit) valid

-- If no file operation fails, a file is staged that passes the check, there is a database that the
-- checkpoint keeps and the paths are different: the restore is applied. The staged file is the database
-- and is not staged any more, and the backup that is named, by an accepted name, holds the bytes of the
-- database after its checkpoint.
pub apply_pending_restore_at_startup_complete :
    (engine : Engine) (parent : String → Option String) (checkpoint : Files → Files) (now : ℕ)
    (db_path : String) (layout : Layout (base_dir parent db_path) db_path)
    (only_db : OnlyDb db_path checkpoint) (files : Files) (staged current folded : File)
    → lookup (pending_restore_path (base_dir parent db_path)) files ≡ some staged
    → IsRestorable engine staged.bytes
    → lookup db_path files ≡ some current
    → lookup db_path (checkpoint files) ≡ some folded
    → let (r, disk) =
        apply_pending_restore_at_startup engine parent checkpoint now db_path
          (record { files = files; faults = [] }) in
      (info : AppliedRestoreInfo) × (r ≡ ok (some info))
      × (lookup db_path disk.files ≡ some staged)
      × (lookup (pending_restore_path (base_dir parent db_path)) disk.files ≡ none)
      × IsSafeName info.pre_restore_backup_file_name
      × (lookup
            (join (backups_dir (base_dir parent db_path)) info.pre_restore_backup_file_name)
            disk.files
          ≡ some (record { bytes = folded.bytes; modified = now }))
unfolding is_ascii_alphanumeric
apply_pending_restore_at_startup_complete engine parent checkpoint now db_path layout only_db files
      staged current folded was fit running stays =
    let pending = pending_restore_path (base_dir parent db_path) in
    let rest =
      no_shm engine parent checkpoint now db_path layout only_db files staged current folded was fit
        running stays in
    let clean =
      all_chars-append is_name_char "pre-restore-"
        (compact_stamp (iso_datetime_from_system_time now)) refl (compact_stamp-safe _) in
    rw
      (applied engine parent checkpoint now db_path layout only_db files staged current folded was
        fit running stays)
      (
        info engine parent checkpoint now db_path layout only_db files staged current folded was fit
            running stays,
        refl,
        lookup-put db_path staged (erase pending rest),
        lookup-put_ne db_path pending staged (erase pending rest) (λ e. layout.pending_db (sym e))
            ∙ lookup-erase pending rest,
        unique_path-safe _ clean (checkpoint files) (backups_dir (base_dir parent db_path)),
        kept_backup engine parent checkpoint now db_path layout only_db files staged current folded
            was fit running stays,
      )
