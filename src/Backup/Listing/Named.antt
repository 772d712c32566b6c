-- ===== src/Backup/Listing/Named.antt =====
-- backup.rs, `list`: the names that it takes.
use my_template.Prelude.{
  String, ◌<>◌, str_eq, eq_iff, ◌≡◌, ◌≢◌, ap, ◌∙◌, true, arith, ends_with-append, ends_with-stem,
  ends_with-itself, append-itself,
}
use my_template.Backup.Listing.{is_sqlite3}

-- A name with something before the extension.
abbrev pub IsBackupName : String → Type 0
IsBackupName name = (stem : String) × (stem ≢ "") × (name ≡ stem <> ".sqlite3")

pub is_sqlite3-IsBackupName : (name : String) → is_sqlite3 name ≡ true → IsBackupName name
unfolding is_sqlite3
is_sqlite3-IsBackupName name h =
    let (stem, same) = ends_with-stem ".sqlite3" name (ground arith) in
    (
      stem,
      λ (bare : stem ≡ "").
          bad ((eq_iff name ".sqlite3").1 (same ∙ ap (λ (s : String). s <> ".sqlite3") bare)),
      same,
    )
  where
    bad : str_eq name ".sqlite3" ≡ true → ⊥
    bad e = ground arith

pub IsBackupName-is_sqlite3 : (name : String) → IsBackupName name → is_sqlite3 name ≡ true
unfolding is_sqlite3
IsBackupName-is_sqlite3 name (stem, named, same) = rw same (
    ground (
      arith,
      ends_with-append ".sqlite3" stem ".sqlite3" (ends_with-itself ".sqlite3"),
      append-itself stem ".sqlite3" named,
    ))
