-- ===== src/Backup/Service/Reserve.antt =====
-- backup.rs, `stage_restore_from_file`: what it leaves of the staged file, and of all others.
use my_template.Prelude.{
  ℕ, String, ◌≡◌, ◌≢◌, refl, ◌⊎◌, inl, inr, Bool, true, false, some, if◌then◌else◌,
}
use my_template.Core.{BantoError, ok, err, not_found}
use my_template.Disk.{
  Bytes, File, Files, IoError, Disk, lookup, put, exists, done, failed, try_exists, create_dir_all,
  copy, attempt, io, io_err, pure, raise, lift, ◌>>=◌, ◌>>◌,
}
use my_template.Disk.Ensures.{
  Ensures, Post, Ensures-pure, Ensures-raise, Ensures-bind, Ensures-lift, Ensures-attempt,
  Ensures-io, Ensures-io-done, lookup-put, lookup-put_ne, lookup-left,
}
use my_template.Backup.Names.{join, backups_dir, pending_restore_path, safe_backup_path}
use my_template.Backup.Names.Safe.{safe_backup_path-inside}
use my_template.Backup.Validate.{Engine, IsRestorable, validate_sqlite_file}
use my_template.Backup.Validate.Passing.{Ensures-validate}
use my_template.Backup.Service.{or_false, stage_restore_from_file}

module _ (engine : Engine) (now : ℕ) (base file_name : String) (before : Files) where
  abbrev pending : String
  pending = pending_restore_path base

  abbrev Elsewhere : Files → Type 0
  Elsewhere files = (q : String) → pending ≢ q → lookup q files ≡ lookup q before

  -- The backup of that name is there and passes the check.
  abbrev Found : File → Type 0
  Found file =
      (lookup (join (backups_dir base) file_name) before ≡ some file)
      × IsRestorable engine file.bytes

  abbrev pub Reserved : Post (Unit {0})
  Reserved (err e) files =
      Elsewhere files
      × ((lookup pending files ≡ lookup pending before) ⊎ ((file : File) × Found file))
  Reserved (ok tt) files =
      Elsewhere files
      × ((file : File) × Found file
          × (lookup pending files ≡ some (record { bytes = file.bytes; modified = now })))

  untouched : (e : BantoError) → Reserved (err e) before
  untouched e = (λ q ne. refl, inl refl)

  copied :
      (file : File)
      → Found file
      → (copy now (join (backups_dir base) file_name) pending).run before
        ≡ (done tt, put pending (record { bytes = file.bytes; modified = now }) before)
  copied file found = rw found.0 refl

  copy-Reserved :
      (file : File) (problem : IoError → BantoError)
      → Found file
      → Ensures before
          (io problem (copy now (join (backups_dir base) file_name) pending) >>= λ copied. pure tt)
          Reserved
  copy-Reserved file problem found =
      Ensures-io-done (copy now (join (backups_dir base) file_name) pending) tt _
        (copied file found) problem _
        (λ fault. (λ q ne. lookup-left now pending q fault.partial before ne, inr (file, found)))
        (Ensures-pure tt
          (λ q ne. lookup-put_ne pending q _ before ne, (file, found, lookup-put pending _ before)))

  found-Reserved :
      (e : BantoError) (present : Bool)
      → Ensures before
          ((if present then pure tt else raise e)
            >> (validate_sqlite_file engine (join (backups_dir base) file_name) >>= λ valid.
                lift valid
                >> (io (io_err "リストア予約先ディレクトリの作成に失敗しました") (create_dir_all base)
                    >> (io
                          (io_err "リストア予約ファイルの配置に失敗しました")
                          (copy now (join (backups_dir base) file_name) pending)
                        >> pure tt))))
          Reserved
  found-Reserved e false = Ensures-bind (raise e) _ (Ensures-raise e (untouched e))
  found-Reserved e true = Ensures-bind (pure tt) _ (
      Ensures-pure tt (
        Ensures-validate engine (join (backups_dir base) file_name) _
          (λ e. Ensures-lift (err e) _ (λ e' same. untouched e') (λ x same. absurd (cc same)))
          λ file there fit.
            Ensures-lift (ok tt) _ (λ e' same. untouched e')
              λ x same.
                Ensures-io (create_dir_all base) _ _ (λ fault. untouched e)
                  (λ problem bad. untouched e) λ x good. copy-Reserved file _ (there, fit)))

-- Whichever operations on the files fail, only the staged file is touched. A success means that the backup
-- of that name passes the check of SQLite, and its bytes are now the staged file. An error leaves the
-- staged file as it was, but for an error of the copy, which comes after the check is passed.
pub stage_restore_from_file-Reserved :
    (engine : Engine) (snapshot : Bytes) (now : ℕ) (base file_name : String) (disk : Disk)
    → let (r, disk') = stage_restore_from_file engine snapshot now base file_name disk in
      Reserved engine now base file_name disk.files r disk'.files
unfolding stage_restore_from_file
stage_restore_from_file-Reserved engine snapshot now base file_name disk = whole.from disk.faults
  where
    at_path :
        (path : String)
        → path ≡ join (backups_dir base) file_name
        → Ensures disk.files
            (attempt (try_exists path) >>= λ present.
              (if or_false present then pure tt else raise (not_found "backups" file_name))
              >> (validate_sqlite_file engine path >>= λ valid.
                  lift valid
                  >> (io (io_err "リストア予約先ディレクトリの作成に失敗しました") (create_dir_all base)
                      >> (io
                            (io_err "リストア予約ファイルの配置に失敗しました")
                            (copy now path (pending_restore_path base))
                          >> pure tt))))
            (Reserved engine now base file_name disk.files)
    at_path path same = rw same (
        Ensures-attempt (try_exists (join (backups_dir base) file_name)) _
          (λ fault.
            found-Reserved engine now base file_name disk.files _ (or_false (failed fault.error)))
          (found-Reserved engine now base file_name disk.files _
            (or_false (done (exists (join (backups_dir base) file_name) disk.files)))))

    whole :
        Ensures disk.files
          (stage_restore_from_file engine snapshot now base file_name)
          (Reserved engine now base file_name disk.files)
    whole =
        Ensures-lift (safe_backup_path base file_name) _
          (λ e bad. untouched engine now base file_name disk.files e)
          λ path good. at_path path (safe_backup_path-inside base file_name path good).0
