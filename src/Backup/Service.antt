-- ===== src/Backup/Service.antt =====
-- backup.rs, `BackupService`: backups by `VACUUM INTO`, and the restore that is staged now and applied at
-- the next start. `now` is the time of the call, in seconds since the epoch.
pub mod Upload
pub mod Reserve
pub mod Created
use my_template.Prelude.{
  ℕ, String, ◌<>◌, is_empty, Bool, true, false, Option, none, some, List, length, to_string,
  if◌then◌else◌,
}
use my_template.Core.{BantoError, not_found, storage, Result, ok, err}
use my_template.Dates.{iso_datetime_from_system_time}
use my_template.Disk.{
  Bytes, File, Files, IoError, Attempt, done, failed, Op, Fs, Disk, lookup, put, exists, try_exists,
  create_dir_all, metadata, read_file, write, remove_file, rename, copy, attempt, io, io_err, pure,
  raise, lift, look, alter, ◌>>=◌, ◌>>◌,
}
use my_template.Backup.Names.{
  join, backups_dir, pending_restore_path, safe_backup_path, compact_stamp, unique_path,
  vacuum_into_sql,
}
use my_template.Backup.Validate.{Engine, validate_sqlite_file}

pub record BackupInfo : Type 0 where
  pub file_name : String
  pub size_bytes : ℕ
  pub created_at : String

pub record PendingRestoreInfo : Type 0 where
  pub size_bytes : ℕ
  pub staged_at : String

pub record AppliedRestoreInfo : Type 0 where
  pub pre_restore_backup_file_name : String
  pub applied_at : String

abbrev as_storage : IoError → BantoError
as_storage e = storage e.text

-- `try_exists(…).await.unwrap_or(false)`
unfoldable pub or_false : Attempt Bool → Bool
or_false (done b) = b
or_false (failed e) = false

abbrev when_present : {A : Type 0} → Bool → Fs A → Fs A → Fs A
when_present b m n = if b then m else n

-- `execute` is what SQLite does for a `VACUUM INTO` statement: the snapshot of the tables that it writes.
module _ (engine : Engine) (snapshot : Bytes) (now : ℕ) (base : String) where
  -- `VACUUM INTO` writes the file, which `unique_path` has found to be free. A failure may leave a part.
  abbrev vacuum_into : String → Op (Unit {0})
  vacuum_into path = write now path snapshot

  backup_info : String → File → BackupInfo
  unfolding iso_datetime_from_system_time
  backup_info file_name file = record {
    file_name = file_name;
    size_bytes = length file.bytes;
    created_at = iso_datetime_from_system_time file.modified;
  }

  unfoldable pub create_at : String → Fs BackupInfo
  unfolding backup_info io_err
  create_at now_iso = do
    io (io_err "バックアップ用ディレクトリの作成に失敗しました") (create_dir_all (backups_dir base))
    file_name ← look (λ files.
        unique_path files (backups_dir base) ("banto-" <> compact_stamp now_iso) "sqlite3")
    io as_storage (vacuum_into (join (backups_dir base) file_name))
    file ← io (io_err "作成したバックアップファイルの読み取りに失敗しました") (metadata (join (backups_dir base) file_name))
    pure (backup_info file_name file)

  -- `clock` is what `SELECT datetime('now')` answers.
  unfoldable pub create : String → Fs BackupInfo
  unfolding create_at
  create clock = do
    now_iso ←
        io as_storage
          (record { run = λ files. (done clock, files); broken = λ partial files. files })
    create_at now_iso

  read_error : String → IoError → BantoError
  unfolding io_err
  read_error file_name e =
      if e.is_not_found then not_found "backups" file_name else io_err "バックアップファイルの読み取りに失敗しました" e

  unfoldable pub read : String → Fs Bytes
  unfolding read_error
  read file_name = do
    path ← lift (safe_backup_path base file_name)
    io (read_error file_name) (read_file path)

  unfoldable pub stage_restore_from_file : String → Fs (Unit {0})
  unfolding io_err or_false
  stage_restore_from_file file_name = do
    source_path ← lift (safe_backup_path base file_name)
    present ← attempt (try_exists source_path)
    if or_false present then pure tt else raise (not_found "backups" file_name)
    valid ← validate_sqlite_file engine source_path
    lift valid
    io (io_err "リストア予約先ディレクトリの作成に失敗しました") (create_dir_all base)
    io (io_err "リストア予約ファイルの配置に失敗しました") (copy now source_path (pending_restore_path base))
    pure tt

  -- `.restore-upload-{pid}-{nonce}.tmp`
  unfoldable pub temp_path : ℕ → ℕ → String
  unfolding to_string
  temp_path pid nonce =
      join base (".restore-upload-" <> to_string pid <> "-" <> to_string nonce <> ".tmp")

  reject : String → Result (Unit {0}) → Fs (Unit {0})
  reject temp (ok valid) = pure tt
  reject temp (err e) = attempt (remove_file temp) >> raise e

  placed : String → Attempt (Unit {0}) → Fs (Unit {0})
  unfolding io_err
  placed temp (done moved) = pure tt
  placed temp (failed e) = attempt (remove_file temp) >> raise (io_err "リストア予約ファイルの配置に失敗しました" e)

  unfoldable pub stage_restore_from_bytes : ℕ → ℕ → Bytes → Fs (Unit {0})
  unfolding io_err reject placed temp_path
  stage_restore_from_bytes pid nonce bytes = do
    io (io_err "リストア予約先ディレクトリの作成に失敗しました") (create_dir_all base)
    io (io_err "アップロードされたファイルの書き込みに失敗しました") (write now (temp_path pid nonce) bytes)
    valid ← validate_sqlite_file engine (temp_path pid nonce)
    reject (temp_path pid nonce) valid
    moved ← attempt (rename (temp_path pid nonce) (pending_restore_path base))
    placed (temp_path pid nonce) moved

  pending_info : Attempt File → Option PendingRestoreInfo
  unfolding iso_datetime_from_system_time
  pending_info (failed e) = none
  pending_info (done file) = some (record {
    size_bytes = length file.bytes;
    staged_at = iso_datetime_from_system_time file.modified;
  })

  unfoldable pub pending_restore : Fs (Option PendingRestoreInfo)
  unfolding pending_info
  pending_restore = do
    found ← attempt (metadata (pending_restore_path base))
    pure (pending_info found)

  cancelled : Attempt (Unit {0}) → Fs (Unit {0})
  unfolding io_err
  cancelled (done removed) = pure tt
  cancelled (failed e) = if e.is_not_found then pure tt else raise (io_err "リストア予約の取消に失敗しました" e)

  unfoldable pub cancel_pending_restore : Fs (Unit {0})
  unfolding cancelled
  cancel_pending_restore = do
    removed ← attempt (remove_file (pending_restore_path base))
    cancelled removed
