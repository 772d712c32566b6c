-- ===== src/Backup/Startup/Safety.antt =====
-- backup.rs, `apply_pending_restore_at_startup`: what becomes of the database file on each of its ends.
use my_template.Prelude.{String, ◌<>◌, ◌≡◌, ◌≢◌, sym, ◌∙◌, ◌⊎◌, inl, inr, Option, some}
use mathlib.Core.Path.{subst}
use my_template.Disk.{File, Files, lookup, remove_file}
use my_template.Disk.Ensures.{removed}
use my_template.Backup.Names.{join, pending_restore_path, backups_dir}

-- The paths of the database, of its two sidecars, of the staged file and of the backups are different.
pub record Layout (base db_path : String) : Type 0 where
  pub pending_db : pending_restore_path base ≢ db_path
  pub wal_db : db_path <> "-wal" ≢ db_path
  pub shm_db : db_path <> "-shm" ≢ db_path
  pub wal_pending : db_path <> "-wal" ≢ pending_restore_path base
  pub shm_pending : db_path <> "-shm" ≢ pending_restore_path base
  pub backup_db : (name : String) → join (backups_dir base) name ≢ db_path
  pub backup_pending : (name : String) → join (backups_dir base) name ≢ pending_restore_path base
  pub wal_backup : (name : String) → db_path <> "-wal" ≢ join (backups_dir base) name
  pub shm_backup : (name : String) → db_path <> "-shm" ≢ join (backups_dir base) name

-- A checkpoint of a database touches no other files.
abbrev pub OnlyDb : String → (Files → Files) → Type 0
OnlyDb db_path checkpoint =
    (p : String) (files : Files)
    → p ≢ db_path
    → p ≢ db_path <> "-wal"
    → p ≢ db_path <> "-shm"
    → lookup p (checkpoint files) ≡ lookup p files

module _ (base db_path : String) (layout : Layout base db_path) (checkpoint : Files → Files)
    (before : Files) where
  abbrev pub SamePending : Files → Type 0
  SamePending files =
      lookup (pending_restore_path base) files ≡ lookup (pending_restore_path base) before

  -- The database is as it was, or as the checkpoint leaves it.
  abbrev pub SameDb : Option File → Type 0
  SameDb file = (file ≡ lookup db_path before) ⊎ (file ≡ lookup db_path (checkpoint before))

  abbrev pub Held : Files → Type 0
  Held files = SamePending files × SameDb (lookup db_path files)

  -- A backup of the database under that name, or no name.
  abbrev pub Secured : Option File → String → Files → Type 0
  Secured old name files =
      (name ≡ "")
      ⊎ ((db backup : File) × (old ≡ some db)
          × (lookup (join (backups_dir base) name) files ≡ some backup)
          × (backup.bytes ≡ db.bytes))

  pub Held-elsewhere :
      (p : String) (files files' : Files)
      → p ≢ pending_restore_path base
      → p ≢ db_path
      → ((q : String) → p ≢ q → lookup q files' ≡ lookup q files)
      → Held files
      → Held files'
  Held-elsewhere p files files' np nd same h =
      (same (pending_restore_path base) np ∙ h.0, subst SameDb (sym (same db_path nd)) h.1)

  module _ (old : Option File) (staged : File) (name : String) where
    abbrev pub Ready : Files → Type 0
    Ready files =
        Held files
        × (lookup (pending_restore_path base) files ≡ some staged)
        × Secured old name files

    pub Secured-elsewhere :
        (files files' : Files)
        → lookup (join (backups_dir base) name) files' ≡ lookup (join (backups_dir base) name) files
        → Secured old name files
        → Secured old name files'
    Secured-elsewhere files files' same (inl e) = inl e
    Secured-elsewhere files files' same (inr (db, backup, was, kept, bytes)) =
        inr (db, backup, was, same ∙ kept, bytes)

    pub Ready-removed :
        (p : String) (files : Files)
        → p ≢ pending_restore_path base
        → p ≢ db_path
        → p ≢ join (backups_dir base) name
        → Ready files
        → Ready ((remove_file p).run files).1
    Ready-removed p files np nd nb h =
        let same : (q : String) → p ≢ q → lookup q ((remove_file p).run files).1 ≡ lookup q files =
          λ q ne. removed p q files ne in
        (
          Held-elsewhere p files ((remove_file p).run files).1 np nd same h.0,
          same (pending_restore_path base) np ∙ h.1,
          Secured-elsewhere files ((remove_file p).run files).1
              (same (join (backups_dir base) name) nb) h.2,
        )
