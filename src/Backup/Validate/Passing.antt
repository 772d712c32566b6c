-- ===== src/Backup/Validate/Passing.antt =====
-- backup.rs: what a caller of `validate_sqlite_file` may rely on.
use my_template.Prelude.{String, ◌≡◌, refl, [], Option, none, some}
use my_template.Core.{BantoError, Result, ok, err}
use my_template.Disk.{File, Files, lookup, Fs, attempt, perform, resume, pure, ◌>>=◌}
use my_template.Disk.Ensures.{Ensures, Post, Ensures-bind, Ensures-attempt, Ensures-pure}
use my_template.Backup.Validate.{Engine, IsRestorable, checked, probed, probe, validate_sqlite_file}
use my_template.Backup.Validate.Restorable.{checked-IsRestorable}

module _ (engine : Engine) (path : String) {A : Type 0} {Q : Post A}
    (next : Result (Unit {0}) → Fs A) {files : Files} where
  pub Ensures-validate :
      ((e : BantoError) → Ensures files (next (err e)) Q)
      → ((file : File)
          → lookup path files ≡ some file
          → IsRestorable engine file.bytes
          → Ensures files (next (ok tt)) Q)
      → Ensures files (validate_sqlite_file engine path >>= next) Q
  unfolding validate_sqlite_file probed
  Ensures-validate bad good = Ensures-bind (validate_sqlite_file engine path) next (
      Ensures-attempt (probe engine path) _ (λ fault. Ensures-pure _ (bad _))
        (Ensures-pure _ (opened (lookup path files) refl)))
    where
      answered :
          (file : File) (r : Result (Unit {0}))
          → lookup path files ≡ some file
          → checked engine (some file) ≡ r
          → Ensures files (next r) Q
      answered file (err e) found h = bad e
      answered file (ok tt) found h = good file found ((checked-IsRestorable engine file).0 h)

      opened : (o : Option File) → lookup path files ≡ o → Ensures files (next (checked engine o)) Q
      opened none found = bad _
      opened (some file) found = answered file (checked engine (some file)) found refl

-- A file that can be restored passes, where nothing fails.
pub validate-passes :
    (engine : Engine) (path : String) (files : Files) (file : File)
    → lookup path files ≡ some file
    → IsRestorable engine file.bytes
    → validate_sqlite_file engine path (record { files = files; faults = [] })
      ≡ (ok (ok tt), record { files = files; faults = [] })
unfolding validate_sqlite_file probed ◌>>=◌ resume attempt perform pure
validate-passes engine path files file found fit =
    rw (found, (checked-IsRestorable engine file).1 fit) refl
