-- ===== src/Backup/Startup/Applied.antt =====
-- backup.rs, `apply_pending_restore_at_startup`: its steps in turn.
use my_template.Prelude.{ℕ, String, ◌≡◌, refl, sym, inl, inr, Bool, true, false, Option, none, some}
use my_template.Core.{BantoError, ok, err}
use my_template.Disk.{
  File, Files, lookup, Disk, done, failed, Fs, try_exists, remove_file, attempt, pure, exists,
  ◌>>=◌,
}
use my_template.Disk.Ensures.{
  Ensures, Post, Ensures-pure, Ensures-bind, Ensures-attempt, Ensures-ignored, Ensures-alter,
  removed,
}
use my_template.Backup.Names.{base_dir, pending_restore_path}
use my_template.Backup.Validate.{Engine, IsRestorable}
use my_template.Backup.Validate.Passing.{Ensures-validate}
use my_template.Backup.Service.{AppliedRestoreInfo, or_false}
use my_template.Backup.Startup.{
  fold_wal, safety_backup, swap, apply_valid, apply_present, apply_pending_restore_at_startup,
}
use my_template.Backup.Startup.Swap.{Applied, backup-Applied}
use my_template.Backup.Startup.Safety.{Layout, OnlyDb, Held}

module _ (engine : Engine) (parent : String → Option String) (checkpoint : Files → Files) (now : ℕ)
    (db_path : String) (layout : Layout (base_dir parent db_path) db_path)
    (only_db : OnlyDb db_path checkpoint) (before : Files) where
  abbrev path : String
  path = base_dir parent db_path

  abbrev Outcome : Post (Option AppliedRestoreInfo)
  Outcome = Applied engine parent checkpoint now db_path layout only_db before

  module _ (staged : File) (was : lookup (pending_restore_path path) before ≡ some staged)
      (fit : IsRestorable engine staged.bytes) where
    abbrev Kept : Files → Type 0
    Kept files = Held path db_path layout checkpoint before files

    backup-Outcome :
        (there : Bool) (files : Files)
        → Kept files
        → Ensures files
            (safety_backup engine parent checkpoint now db_path there >>= λ name.
              swap engine parent checkpoint now db_path name)
            Outcome
    backup-Outcome there files h =
        backup-Applied engine parent checkpoint now db_path layout only_db before staged was fit
          there files h

    checkpointed : Kept (checkpoint before)
    checkpointed = (
      only_db (pending_restore_path path) before layout.pending_db (λ e. layout.wal_pending (sym e))
          (λ e. layout.shm_pending (sym e)),
      inr refl,
    )

    folded :
        (there : Bool) (next : Unit {0} → Fs (Option AppliedRestoreInfo))
        → ((files : Files) → Kept files → Ensures files (next tt) Outcome)
        → Ensures before (fold_wal engine parent checkpoint now db_path there >>= next) Outcome
    unfolding fold_wal
    folded false next after =
        Ensures-bind (pure tt) next (Ensures-pure tt (after before (refl, inl refl)))
    folded true next after = Ensures-alter checkpoint next (after (checkpoint before) checkpointed)

    valid-Applied :
        Ensures before (apply_valid engine parent checkpoint now db_path (ok tt)) Outcome
    unfolding apply_valid
    valid-Applied =
        Ensures-attempt (try_exists db_path) _ (λ fault. rest (or_false (failed fault.error)))
          (rest (or_false (done (exists db_path before))))
      where
        again :
            (files : Files)
            → Kept files
            → Ensures files
                (attempt (try_exists db_path) >>= λ still_there.
                  safety_backup engine parent checkpoint now db_path (or_false still_there)
                  >>= λ name. swap engine parent checkpoint now db_path name)
                Outcome
        again files h =
            Ensures-attempt (try_exists db_path) _
              (λ fault. backup-Outcome (or_false (failed fault.error)) files h)
              (backup-Outcome (or_false (done (exists db_path files))) files h)

        rest :
            (there : Bool)
            → Ensures before
                (fold_wal engine parent checkpoint now db_path there >>= λ folded.
                  attempt (try_exists db_path) >>= λ still_there.
                  safety_backup engine parent checkpoint now db_path (or_false still_there)
                  >>= λ name. swap engine parent checkpoint now db_path name)
                Outcome
        rest there =
            folded there
              (λ folded. attempt (try_exists db_path) >>= λ still_there.
                safety_backup engine parent checkpoint now db_path (or_false still_there)
                >>= λ name. swap engine parent checkpoint now db_path name)
              again

  invalid-Applied :
      (e : BantoError)
      → Ensures before (apply_valid engine parent checkpoint now db_path (err e)) Outcome
  unfolding apply_valid
  invalid-Applied e =
      Ensures-ignored (remove_file (pending_restore_path path))
        (λ files. lookup db_path files ≡ lookup db_path before) _ (λ fault. refl)
        (removed (pending_restore_path path) db_path before layout.pending_db)
        λ files same. Ensures-pure none same

  present-Applied :
      (present : Bool)
      → Ensures before (apply_present engine parent checkpoint now db_path present) Outcome
  unfolding apply_present
  present-Applied false = Ensures-pure none refl
  present-Applied true =
      Ensures-validate engine (pending_restore_path path) _ invalid-Applied
        (λ staged was fit. valid-Applied staged was fit)

-- Whichever operations on the files fail, if the paths are different and a checkpoint touches only the
-- database and its sidecars. An error leaves the database as it was, or as the checkpoint leaves it,
-- and the staged file in place. An answer without a restore leaves the database as it was. A restore
-- was staged, passes the check of SQLite, is now the database, and is not staged any more; and either no
-- name of a backup is answered, or the file of that name in the directory of the backups Holds the bytes
-- that the database had before, or had after the checkpoint.
pub apply_pending_restore_at_startup-Applied :
    (engine : Engine) (parent : String → Option String) (checkpoint : Files → Files) (now : ℕ)
    (db_path : String) (layout : Layout (base_dir parent db_path) db_path)
    (only_db : OnlyDb db_path checkpoint) (disk : Disk)
    → let (r, disk') = apply_pending_restore_at_startup engine parent checkpoint now db_path disk in
      Applied engine parent checkpoint now db_path layout only_db disk.files r disk'.files
unfolding apply_pending_restore_at_startup
apply_pending_restore_at_startup-Applied engine parent checkpoint now db_path layout only_db disk =
    whole.from disk.faults
  where
    whole :
        Ensures disk.files
          (apply_pending_restore_at_startup engine parent checkpoint now db_path)
          (Applied engine parent checkpoint now db_path layout only_db disk.files)
    whole =
        Ensures-attempt (try_exists (pending_restore_path (base_dir parent db_path))) _
          (λ fault.
            present-Applied engine parent checkpoint now db_path layout only_db disk.files
              (or_false (failed fault.error)))
          (present-Applied engine parent checkpoint now db_path layout only_db disk.files
            (or_false (done (exists (pending_restore_path (base_dir parent db_path)) disk.files))))
