-- ===== src/Backup/Startup/Swap.antt =====
-- backup.rs, `apply_pending_restore_at_startup`: from the safety backup on.
use my_template.Prelude.{
  ℕ, String, ◌<>◌, ◌≡◌, ◌≢◌, refl, sym, ◌∙◌, inl, inr, Bool, true, false, Option, none, some,
}
use my_template.Core.{BantoError, ok, err}
use my_template.Dates.{iso_datetime_from_system_time}
use my_template.Disk.{
  File, Files, IoError, missing, lookup, put, erase, done, failed, create_dir_all, remove_file,
  rename, copy, io, pure, ◌>>=◌,
}
use my_template.Disk.Ensures.{
  Ensures, Post, Goes, Ensures-pure, Ensures-bind, Ensures-io, Ensures-io-done, Ensures-ignored,
  Ensures-look, lookup-put, lookup-put_ne, lookup-erase, lookup-erase_ne, lookup-left,
  attempt_apart,
}
use my_template.Backup.Names.{join, base_dir, backups_dir, pending_restore_path}
use my_template.Backup.Validate.{Engine, IsRestorable}
use my_template.Backup.Service.{AppliedRestoreInfo}
use my_template.Backup.Startup.{or_empty, copy_current, safety_backup, swap}
use my_template.Backup.Startup.Safety.{
  Layout, OnlyDb, Held, Held-elsewhere, Secured, SameDb, Ready, Ready-removed, Secured-elsewhere,
}

module _ (engine : Engine) (parent : String → Option String) (checkpoint : Files → Files) (now : ℕ)
    (db_path : String) (layout : Layout (base_dir parent db_path) db_path)
    (only_db : OnlyDb db_path checkpoint) (before : Files) where
  abbrev pub dir : String
  dir = base_dir parent db_path

  abbrev pub Applied : Post (Option AppliedRestoreInfo)
  Applied (err e) files = Held dir db_path layout checkpoint before files
  Applied (ok none) files = lookup db_path files ≡ lookup db_path before
  Applied (ok (some info)) files =
      (staged : File) × (old : Option File) × (lookup (pending_restore_path dir) before
        ≡ some staged)
      × IsRestorable engine staged.bytes
      × (lookup db_path files ≡ some staged)
      × (lookup (pending_restore_path dir) files ≡ none)
      × SameDb dir db_path layout checkpoint before old
      × Secured dir db_path layout checkpoint before old info.pre_restore_backup_file_name files

  module _ (staged : File) (was : lookup (pending_restore_path dir) before ≡ some staged)
      (fit : IsRestorable engine staged.bytes) where
    renamed :
        (old : Option File) (name : Option String) (files : Files)
        → SameDb dir db_path layout checkpoint before old
        → Ready dir db_path layout checkpoint before old staged (or_empty name) files
        → Applied
            (ok (
              some (record {
                pre_restore_backup_file_name = or_empty name;
                applied_at = iso_datetime_from_system_time now;
              })))
            (put db_path staged (erase (pending_restore_path dir) files))
    renamed old name files same ready = (
      staged,
      old,
      was,
      fit,
      lookup-put db_path staged (erase (pending_restore_path dir) files),
      lookup-put_ne db_path (pending_restore_path dir) staged _ (λ e. layout.pending_db (sym e))
          ∙ lookup-erase (pending_restore_path dir) files,
      same,
      Secured-elsewhere dir db_path layout checkpoint before old staged (or_empty name) files _
          (lookup-put_ne db_path _ staged _ (λ e. layout.backup_db (or_empty name) (sym e))
            ∙ lookup-erase_ne (pending_restore_path dir) _ files
                (λ e. layout.backup_pending (or_empty name) (sym e)))
          ready.2,
    )

    swap-Applied :
        (old : Option File) (name : Option String) (files : Files)
        → SameDb dir db_path layout checkpoint before old
        → Ready dir db_path layout checkpoint before old staged (or_empty name) files
        → Ensures files (swap engine parent checkpoint now db_path name) Applied
    unfolding swap
    swap-Applied old name files same ready =
        Ensures-ignored (remove_file (db_path <> "-wal")) still_ready _ (λ fault. ready)
          (removal (db_path <> "-wal") files layout.wal_pending layout.wal_db
            (layout.wal_backup (or_empty name)) ready)
          λ files1 ready1.
            Ensures-ignored (remove_file (db_path <> "-shm")) still_ready _ (λ fault. ready1)
              (removal (db_path <> "-shm") files1 layout.shm_pending layout.shm_db
                (layout.shm_backup (or_empty name)) ready1)
              λ files2 ready2.
                Ensures-io-done (rename (pending_restore_path dir) db_path) tt _
                  (moved files2 ready2.1) _ _ (λ fault. ready2.0)
                  (Ensures-pure _ (renamed old name files2 same ready2))
      where
        still_ready : Files → Type 0
        still_ready = Ready dir db_path layout checkpoint before old staged (or_empty name)

        removal :
            (p : String) (files : Files)
            → p ≢ pending_restore_path dir
            → p ≢ db_path
            → p ≢ join (backups_dir dir) (or_empty name)
            → still_ready files
            → still_ready ((remove_file p).run files).1
        removal = Ready-removed dir db_path layout checkpoint before old staged (or_empty name)

        moved :
            (files : Files)
            → lookup (pending_restore_path dir) files ≡ some staged
            → (rename (pending_restore_path dir) db_path).run files
              ≡ (done tt, put db_path staged (erase (pending_restore_path dir) files))
        moved files found = rw found refl

    abbrev pub Holds : Files → Type 0
    Holds files = Held dir db_path layout checkpoint before files

    elsewhere :
        (name : String) (files files' : Files)
        → ((q : String) → join (backups_dir dir) name ≢ q → lookup q files' ≡ lookup q files)
        → Holds files
        → Holds files'
    elsewhere name files files' same h =
        Held-elsewhere dir db_path layout checkpoint before (join (backups_dir dir) name) files
          files' (layout.backup_pending name) (layout.backup_db name) same h

    abbrev Next : Post (Option String)
    Next r files = Goes Applied (λ name. swap engine parent checkpoint now db_path name) r files

    secured :
        (db : File) (name : String) (files : Files)
        → Holds files
        → lookup db_path files ≡ some db
        → Ready dir db_path layout checkpoint before
            (lookup db_path files)
            staged
            name
            (put (join (backups_dir dir) name) (record { bytes = db.bytes; modified = now }) files)
    secured db name files h found =
        let same : (q : String)
            → join (backups_dir dir) name ≢ q
            → lookup q (put (join (backups_dir dir) name) _ files) ≡ lookup q files =
          λ q ne.
            lookup-put_ne (join (backups_dir dir) name) q
              (record { bytes = db.bytes; modified = now }) files ne in
        (
          elsewhere name files _ same h,
          same (pending_restore_path dir) (layout.backup_pending name) ∙ h.0 ∙ was,
          inr (
            db,
            record { bytes = db.bytes; modified = now },
            found,
            lookup-put (join (backups_dir dir) name) _ files,
            refl,
          ),
        )

    copy_fails :
        (name : String) (files : Files)
        → lookup db_path files ≡ none
        → ((copy now db_path (join (backups_dir dir) name)).run files).0 ≡ failed missing
    copy_fails name files found = rw found refl

    copy-Next :
        (name : String) (files : Files) (problem : IoError → BantoError)
        → Holds files
        → (o : Option File) → lookup db_path files ≡ o
        → Ensures files
            (io problem (copy now db_path (join (backups_dir dir) name)) >>= λ done.
              pure (some name))
            Next
    unfolding or_empty
    copy-Next name files problem h none found =
        Ensures-io (copy now db_path (join (backups_dir dir) name)) problem _
          (λ fault. elsewhere name files _ (λ q ne. lookup-left now _ q fault.partial files ne) h)
          (λ e bad. rw found h)
          (λ x good. absurd (attempt_apart x missing (sym good ∙ copy_fails name files found)))
    copy-Next name files problem h (some db) found =
        Ensures-io-done (copy now db_path (join (backups_dir dir) name)) tt _ (rw found refl)
          problem _
          (λ fault. elsewhere name files _ (λ q ne. lookup-left now _ q fault.partial files ne) h)
          (Ensures-pure _
            (swap-Applied (lookup db_path files) (some name) _ h.1 (secured db name files h found)))

    current-Next :
        (files : Files)
        → Holds files
        → Ensures files (copy_current engine parent checkpoint now db_path) Next
    unfolding copy_current
    current-Next files h =
        Ensures-io (create_dir_all (backups_dir dir)) _ _ (λ fault. h) (λ e bad. h)
          λ x good. Ensures-look _ _ (copy-Next _ files _ h (lookup db_path files) refl)

    pub backup-Applied :
        (there : Bool) (files : Files)
        → Holds files
        → Ensures files
            (safety_backup engine parent checkpoint now db_path there >>= λ name.
              swap engine parent checkpoint now db_path name)
            Applied
    unfolding safety_backup or_empty
    backup-Applied false files h = Ensures-bind (pure none) _ (
        Ensures-pure none
          (swap-Applied (lookup db_path files) none files h.1 (h, h.0 ∙ was, inl refl)))
    backup-Applied true files h =
        Ensures-bind (copy_current engine parent checkpoint now db_path) _ (current-Next files h)
