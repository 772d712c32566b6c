-- ===== src/Backup/Startup.antt =====
-- backup.rs, `apply_pending_restore_at_startup`: before any pool is open.
pub mod Safety
pub mod Swap
pub mod Applied
pub mod Complete
use my_template.Prelude.{ℕ, String, ◌<>◌, Bool, true, false, Option, none, some, if◌then◌else◌}
use my_template.Core.{BantoError, Result, ok, err}
use my_template.Dates.{iso_datetime_from_system_time}
use my_template.Disk.{
  Files, Attempt, Fs, try_exists, create_dir_all, remove_file, rename, copy, attempt, io, io_err,
  pure, look, alter, ◌>>=◌, ◌>>◌,
}
use my_template.Backup.Names.{
  join, base_dir, backups_dir, pending_restore_path, compact_stamp, unique_path,
}
use my_template.Backup.Validate.{Engine, validate_sqlite_file}
use my_template.Backup.Service.{AppliedRestoreInfo, or_false}

-- `unwrap_or_default`
unfoldable pub or_empty : Option String → String
or_empty none = ""
or_empty (some name) = name

-- `checkpoint` is what the best-effort `PRAGMA wal_checkpoint(TRUNCATE)` does to the files, errors included.
module _ (engine : Engine) (parent : String → Option String) (checkpoint : Files → Files) (now : ℕ)
    (db_path : String) where
  abbrev base : String
  base = base_dir parent db_path

  abbrev pending_path : String
  pending_path = pending_restore_path base

  -- The best effort of step 3.
  fold_wal : Bool → Fs (Unit {0})
  fold_wal there = if there then alter checkpoint else pure tt

  copy_current : Fs (Option String)
  unfolding io_err iso_datetime_from_system_time compact_stamp unique_path
  copy_current = do
    io (io_err "バックアップ用ディレクトリの作成に失敗しました") (create_dir_all (backups_dir base))
    name ← look (λ files.
        unique_path files (backups_dir base)
          ("pre-restore-" <> compact_stamp (iso_datetime_from_system_time now)) "sqlite3")
    io (io_err "適用前の自動バックアップの作成に失敗しました") (copy now db_path (join (backups_dir base) name))
    pure (some name)

  -- Step 4.
  pub safety_backup : Bool → Fs (Option String)
  unfolding copy_current
  safety_backup there = if there then copy_current else pure none

  -- Steps 5 to 7.
  pub swap : Option String → Fs (Option AppliedRestoreInfo)
  unfolding io_err iso_datetime_from_system_time or_empty
  swap pre_restore_backup_file_name = do
    attempt (remove_file (db_path <> "-wal"))
    attempt (remove_file (db_path <> "-shm"))
    io (io_err "リストアの適用（ファイルの入れ替え）に失敗しました") (rename pending_path db_path)
    pure (
        some (record {
          pre_restore_backup_file_name = or_empty pre_restore_backup_file_name;
          applied_at = iso_datetime_from_system_time now;
        }))

  apply_valid : Result (Unit {0}) → Fs (Option AppliedRestoreInfo)
  unfolding or_false fold_wal safety_backup swap
  apply_valid (err e) = attempt (remove_file pending_path) >> pure none
  apply_valid (ok tt) = do
    there ← attempt (try_exists db_path)
    fold_wal (or_false there)
    still_there ← attempt (try_exists db_path)
    pre_restore_backup_file_name ← safety_backup (or_false still_there)
    swap pre_restore_backup_file_name

  apply_present : Bool → Fs (Option AppliedRestoreInfo)
  unfolding apply_valid
  apply_present false = pure none
  apply_present true = do valid ← validate_sqlite_file engine pending_path; apply_valid valid

  unfoldable pub apply_pending_restore_at_startup : Fs (Option AppliedRestoreInfo)
  unfolding apply_present or_false
  apply_pending_restore_at_startup = do
    present ← attempt (try_exists pending_path)
    apply_present (or_false present)
