-- ===== src/Backup/Validate/Restorable.antt =====
-- backup.rs, `validate_sqlite_file`: the files that pass.
use my_template.Prelude.{
  String, str_eq, eq_iff, ◌≡◌, refl, ap, false, Option, none, some, List, [], ◌∷◌, arith,
  Bool-cases, inl, inr, ◌↔◌,
}
use my_template.Core.{Result, ok}
use my_template.Disk.{Bytes, File}
use my_template.Backup.Validate.{
  Reply, reply, refusal, Engine, required_tables, checked, run_validation_checks, connected, intact,
  check_tables, table_found, all_found, AllTables, IsRestorable,
}

module _ (engine : Engine) (bytes : Bytes) where
  connected-passes :
      (r : Reply (Unit {0})) (rest : Result (Unit {0}))
      → connected engine r rest ≡ ok tt
      → (r ≡ reply tt) × (rest ≡ ok tt)
  unfolding connected
  connected-passes (reply tt) rest h = (refl, h)
  connected-passes (refusal text) rest h = absurd (cc h)

  intact-passes :
      (r : Reply String) (rest : Result (Unit {0}))
      → intact engine r rest ≡ ok tt
      → (r ≡ reply "ok") × (rest ≡ ok tt)
  unfolding intact
  intact-passes (refusal text) rest h = absurd (cc h)
  intact-passes (reply s) rest h = elim (Bool-cases (str_eq s "ok")) [
    | inl e ↦ (ap (λ text. reply text) (ground (arith, eq_iff s "ok")), ground arith)
    | inr e ↦ absurd (refused e)
  ]
    where
      refused : str_eq s "ok" ≡ false → ⊥
      refused e = ground arith

  table-passes :
      (table : String) (r : Reply (Option String)) (rest : Result (Unit {0}))
      → all_found engine (table_found engine table r) rest ≡ ok tt
      → ((name : String) × (r ≡ reply (some name))) × (rest ≡ ok tt)
  unfolding all_found table_found
  table-passes table (refusal text) rest h = absurd (cc h)
  table-passes table (reply none) rest h = absurd (cc h)
  table-passes table (reply (some name)) rest h = ((name, refl), h)

  tables-pass :
      (tables : List String)
      → check_tables engine tables bytes ≡ ok tt
      → AllTables engine tables bytes
  unfolding check_tables
  tables-pass [] h = tt
  tables-pass (table ∷ tables) h =
      let (found, rest) =
        table-passes table (engine.table_named table bytes) (check_tables engine tables bytes) h in
      (found, tables-pass tables rest)

  pass-tables :
      (tables : List String)
      → AllTables engine tables bytes
      → check_tables engine tables bytes ≡ ok tt
  unfolding check_tables table_found all_found
  pass-tables [] all = refl
  pass-tables (table ∷ tables) all = rw (all.0.1) (pass-tables tables all.1)

-- A file passes the check exactly if SQLite opens it, its integrity check answers `ok`, and each of the four
-- required tables is found in it.
pub checked-IsRestorable :
    (engine : Engine) (file : File)
    → (checked engine (some file) ≡ ok tt) ↔ IsRestorable engine file.bytes
unfolding checked run_validation_checks connected intact
checked-IsRestorable engine file = (passes, passing)
  where
    passes : checked engine (some file) ≡ ok tt → IsRestorable engine file.bytes
    passes h =
        let (opened, checks) =
          connected-passes engine file.bytes (engine.connect file.bytes)
            (run_validation_checks engine file.bytes) h in
        let (sound, tables) =
          intact-passes engine file.bytes (engine.integrity_check file.bytes)
            (check_tables engine required_tables file.bytes) checks in
        (opened, sound, tables-pass engine file.bytes required_tables tables)

    passing : IsRestorable engine file.bytes → checked engine (some file) ≡ ok tt
    passing (opened, sound, all) =
        rw (opened, sound) (pass-tables engine file.bytes required_tables all)
