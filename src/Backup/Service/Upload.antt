-- ===== src/Backup/Service/Upload.antt =====
-- backup.rs, `stage_restore_from_bytes`: what it leaves of the staged file, and of all others.
use mathlib.Core.Path.{subst}
use my_template.Prelude.{
  ℕ, String, heads_ne, cancel_prefix, ◌≡◌, ◌≢◌, refl, sym, ap, ◌∙◌, Option, none, some, arith,
}
use my_template.Core.{BantoError, ok, err}
use my_template.Disk.{
  Bytes, File, Files, Disk, lookup, put, erase, create_dir_all, write, remove_file, rename, attempt,
  pure, raise, ◌>>=◌, ◌>>◌,
}
use my_template.Disk.Ensures.{
  Ensures, Post, Ensures-pure, Ensures-raise, Ensures-bind, Ensures-attempt, Ensures-io,
  Ensures-io-done, Ensures-ignored, lookup-put, lookup-put_ne, lookup-erase, lookup-erase_ne,
  lookup-left, removed,
}
use my_template.Backup.Names.{pending_restore_path}
use my_template.Backup.Validate.{Engine, IsRestorable, validate_sqlite_file}
use my_template.Backup.Validate.Passing.{Ensures-validate}
use my_template.Backup.Service.{temp_path, reject, placed, stage_restore_from_bytes}

module _ (engine : Engine) (snapshot : Bytes) (now : ℕ) (base : String) (pid nonce : ℕ)
    (bytes : Bytes) (before : Files) where
  abbrev temp : String
  temp = temp_path engine snapshot now base pid nonce

  abbrev pending : String
  pending = pending_restore_path base

  temp-pending : temp ≢ pending
  unfolding temp_path pending_restore_path
  temp-pending e =
      heads_ne "." "r" _ _ (λ h. omega arith) (cancel_prefix "/" _ _ (cancel_prefix base _ _ e))

  abbrev Elsewhere : Files → Type 0
  Elsewhere files = (q : String) → temp ≢ q → pending ≢ q → lookup q files ≡ lookup q before

  -- The staged file is as it was, and all others but the upload's own.
  abbrev Kept : Files → Type 0
  Kept files = (lookup pending files ≡ lookup pending before) × Elsewhere files

  abbrev pub Uploaded : Post (Unit {0})
  Uploaded (err e) files = Kept files
  Uploaded (ok tt) files =
      IsRestorable engine bytes
      × (lookup pending files ≡ some (record { bytes = bytes; modified = now }))
      × (lookup temp files ≡ none)
      × Elsewhere files

  Kept-elsewhere :
      (files files' : Files)
      → ((q : String) → temp ≢ q → lookup q files' ≡ lookup q files)
      → Kept files
      → Kept files'
  Kept-elsewhere files files' same h =
      (same pending temp-pending ∙ h.0, λ q nt np. same q nt ∙ h.1 q nt np)

  cleaned :
      (Q : Post (Unit {0})) (e : BantoError) (files : Files)
      → ((files' : Files) → Kept files' → Q (err e) files')
      → Kept files
      → Ensures files (attempt (remove_file temp) >> raise e) Q
  cleaned Q e files after h =
      Ensures-ignored (remove_file temp) Kept _ (λ fault. h)
        (Kept-elsewhere files _ (λ q ne. removed temp q files ne) h)
        λ files' h'. Ensures-raise e (after files' h')

  abbrev upload : File
  upload = record { bytes = bytes; modified = now }

  renamed :
      (files : Files)
      → Kept files
      → lookup temp files ≡ some upload
      → IsRestorable engine bytes
      → Uploaded (ok tt) (put pending upload (erase temp files))
  renamed files h found fit = (
    fit,
    lookup-put pending upload (erase temp files),
    lookup-put_ne pending temp upload (erase temp files) (λ e. temp-pending (sym e))
        ∙ lookup-erase temp files,
    λ q nt np.
        lookup-put_ne pending q upload (erase temp files) np
        ∙ lookup-erase_ne temp q files nt
        ∙ h.1 q nt np,
  )

  placed-Uploaded :
      (files : Files)
      → Kept files
      → lookup temp files ≡ some upload
      → IsRestorable engine bytes
      → Ensures files
          (attempt (rename temp pending) >>= λ moved. placed engine snapshot now base temp moved)
          Uploaded
  unfolding placed
  placed-Uploaded files h found fit =
      Ensures-attempt (rename temp pending) _
        (λ fault. cleaned Uploaded _ files (λ files' h'. h') h)
        (rw found (Ensures-pure tt (renamed files h found fit)))

  passed :
      (file : File)
      → some upload ≡ some file
      → IsRestorable engine file.bytes
      → IsRestorable engine bytes
  passed file e fit = subst (IsRestorable engine) (sym (ap bytes_or e)) fit
    where
      bytes_or : Option File → Bytes
      bytes_or none = bytes
      bytes_or (some f) = f.bytes

  written-Uploaded :
      (files : Files)
      → Kept files
      → lookup temp files ≡ some upload
      → Ensures files
          (validate_sqlite_file engine temp >>= λ valid.
            reject engine snapshot now base temp valid
            >> (attempt (rename temp pending) >>= λ moved.
                placed engine snapshot now base temp moved))
          Uploaded
  unfolding reject
  written-Uploaded files h found =
      Ensures-validate engine temp _ (λ e. Ensures-bind _ _ (cleaned _ e files (λ files' h'. h') h))
        λ file there fit.
          Ensures-bind (pure tt) _
            (Ensures-pure tt (placed-Uploaded files h found (passed file (sym found ∙ there) fit)))

-- Whichever operations on the files fail. An error, of the check or of any step, leaves the staged file as
-- it was. A success means that the uploaded bytes pass the check of SQLite, and they are now the staged
-- file; the temporary file is gone. No other file is touched, in either case.
pub stage_restore_from_bytes-Uploaded :
    (engine : Engine) (snapshot : Bytes) (now : ℕ) (base : String) (pid nonce : ℕ) (bytes : Bytes)
    (disk : Disk)
    → let (r, disk') = stage_restore_from_bytes engine snapshot now base pid nonce bytes disk in
      Uploaded engine snapshot now base pid nonce bytes disk.files r disk'.files
unfolding stage_restore_from_bytes
stage_restore_from_bytes-Uploaded engine snapshot now base pid nonce bytes disk =
    whole.from disk.faults
  where
    temporary : String
    temporary = temp_path engine snapshot now base pid nonce

    staged : File
    staged = record { bytes = bytes; modified = now }

    whole :
        Ensures disk.files
          (stage_restore_from_bytes engine snapshot now base pid nonce bytes)
          (Uploaded engine snapshot now base pid nonce bytes disk.files)
    whole =
        Ensures-io (create_dir_all base) _ _ (λ fault. (refl, λ q nt np. refl))
          (λ e bad. (refl, λ q nt np. refl))
          λ x good.
            Ensures-io-done (write now temporary bytes) tt _ refl _ _
              (λ fault.
                Kept-elsewhere engine snapshot now base pid nonce bytes disk.files disk.files _
                  (λ q ne. lookup-left now temporary q fault.partial disk.files ne)
                  (refl, λ q nt np. refl))
              (written-Uploaded engine snapshot now base pid nonce bytes disk.files _
                (Kept-elsewhere engine snapshot now base pid nonce bytes disk.files disk.files _
                  (λ q ne. lookup-put_ne temporary q staged disk.files ne) (refl, λ q nt np. refl))
                (lookup-put temporary staged disk.files))
