-- ===== src/Backup/Listing/Sorted.antt =====
-- backup.rs, `list`: the order of the backups.
use my_template.Prelude.{
  ℕ, suc, String, leb_text, length, eq_iff, leb_text_total, leb_text_refl, ◌≡◌, refl, sym, ap, ◌∙◌,
  inl, inr, Bool, true, false, none, some, List, [], ◌∷◌, arith, Bool-cases, if◌then◌else◌,
}
use my_template.Core.{ok, err}
use my_template.Dates.{iso_datetime_from_system_time}
use my_template.Disk.{File, Files, Disk}
use my_template.Disk.Ensures.{Ensures, Post, Ensures-pure, Ensures-io-done, Ensures-look}
use my_template.Backup.Service.{BackupInfo}
use my_template.Backup.Listing.Named.{
  IsBackupName, is_sqlite3-IsBackupName, IsBackupName-is_sqlite3,
}
use my_template.Backup.Listing.{
  Entry, listed, at_least_as_new, insert_info, newest_first, list, is_sqlite3,
}

-- Not older, and of one time not with the earlier name.
abbrev pub Leads : BackupInfo → BackupInfo → Type 0
Leads a b =
    (leb_text b.created_at a.created_at ≡ true)
    × (a.created_at ≡ b.created_at → leb_text b.file_name a.file_name ≡ true)

abbrev pub LeadsAll : BackupInfo → List BackupInfo → Type 0
LeadsAll a [] = Unit
LeadsAll a (b ∷ infos) = Leads a b

-- Each is at least as new as the next.
abbrev pub IsNewestFirst : List BackupInfo → Type 0
IsNewestFirst [] = Unit
IsNewestFirst (a ∷ infos) = LeadsAll a infos × IsNewestFirst infos

-- How often a property of entries holds.
abbrev pub count : (BackupInfo → Bool) → List BackupInfo → ℕ
count p [] = 0
count p (a ∷ infos) = if p a then suc (count p infos) else count p infos

at_least_as_new-Leads : (a b : BackupInfo) → at_least_as_new a b ≡ true → Leads a b
unfolding at_least_as_new
at_least_as_new-Leads a b h = (
  ground (
    arith,
    eq_iff a.created_at b.created_at,
    leb_text_total a.created_at b.created_at,
    leb_text_refl a.created_at b.created_at,
  ),
  λ same. ground (arith, eq_iff a.created_at b.created_at),
)

at_least_as_new_total :
    (a b : BackupInfo) → at_least_as_new a b ≡ false → at_least_as_new b a ≡ true
unfolding at_least_as_new
at_least_as_new_total a b h = ground (
  arith,
  eq_iff a.created_at b.created_at,
  eq_iff b.created_at a.created_at,
  leb_text_total b.file_name a.file_name,
  leb_text_total b.created_at a.created_at,
)

LeadsAll-insert_info :
    (a b : BackupInfo) (infos : List BackupInfo)
    → Leads b a
    → LeadsAll b infos
    → LeadsAll b (insert_info a infos)
unfolding insert_info
LeadsAll-insert_info a b [] e h = e
LeadsAll-insert_info a b (c ∷ infos) e h = elim (Bool-cases (at_least_as_new a c)) [
  | inl f ↦ rw (f, insert_info) e
  | inr f ↦ rw (f, insert_info) h
]

insert_info-IsNewestFirst :
    (a : BackupInfo) (infos : List BackupInfo)
    → IsNewestFirst infos
    → IsNewestFirst (insert_info a infos)
unfolding insert_info
insert_info-IsNewestFirst a [] h = (tt, tt)
insert_info-IsNewestFirst a (b ∷ infos) h = elim (Bool-cases (at_least_as_new a b)) [
  | inl e ↦ rw (e, insert_info) (at_least_as_new-Leads a b e, h)
  | inr e ↦
      rw (e, insert_info)
        (
          LeadsAll-insert_info a b infos (at_least_as_new-Leads b a (at_least_as_new_total a b e))
              h.0,
          insert_info-IsNewestFirst a infos h.1,
        )
]

insert_info-count :
    (p : BackupInfo → Bool) (a : BackupInfo) (infos : List BackupInfo)
    → count p (insert_info a infos) ≡ count p (a ∷ infos)
unfolding insert_info
insert_info-count p a [] = refl
insert_info-count p a (b ∷ infos) = ground (arith, insert_info-count p a infos)

newest_first-IsNewestFirst : (infos : List BackupInfo) → IsNewestFirst (newest_first infos)
unfolding newest_first
newest_first-IsNewestFirst [] = tt
newest_first-IsNewestFirst (a ∷ infos) =
    insert_info-IsNewestFirst a (newest_first infos) (newest_first-IsNewestFirst infos)

newest_first-count :
    (p : BackupInfo → Bool) (infos : List BackupInfo) → count p (newest_first infos) ≡ count p infos
unfolding newest_first
newest_first-count p [] = refl
newest_first-count p (a ∷ infos) =
    insert_info-count p a (newest_first infos)
    ∙ ap (λ n. if p a then suc n else n) (newest_first-count p infos)

-- The backups among the entries of a directory, in their order.
pub data IsListing : List Entry → List BackupInfo → Type 0 where
  none_left : IsListing [] []
  not_file :
      {name : String} {entries : List Entry} {found : List BackupInfo}
      → IsListing entries found
      → IsListing ((name, none) ∷ entries) found
  other_name :
      {name : String} {file : File} {entries : List Entry} {found : List BackupInfo}
      → (IsBackupName name → ⊥)
      → IsListing entries found
      → IsListing ((name, some file) ∷ entries) found
  backup :
      {name : String} {file : File} {entries : List Entry} {found : List BackupInfo}
      → IsBackupName name
      → IsListing entries found
      → IsListing ((name, some file) ∷ entries) (
          record {
            file_name = name;
            size_bytes = length file.bytes;
            created_at = iso_datetime_from_system_time file.modified;
          }
          ∷ found)

no_bit : true ≡ false → ⊥
no_bit e = ground arith

listed-IsListing : (entries : List Entry) → IsListing entries (listed entries)
unfolding listed
listed-IsListing [] = none_left
listed-IsListing ((name, none) ∷ entries) = not_file (listed-IsListing entries)
listed-IsListing ((name, some file) ∷ entries) = elim (Bool-cases (is_sqlite3 name)) [
  | inl e ↦ rw e (backup (is_sqlite3-IsBackupName name e) (listed-IsListing entries))
  | inr e ↦ rw e (
      other_name (λ named. no_bit (sym (IsBackupName-is_sqlite3 name named) ∙ e))
        (listed-IsListing entries))
]

module _ (dir_exists : Files → Bool) (entries : Files → List Entry) (files : Files) where
  abbrev pub here : List Entry
  here = if dir_exists files then entries files else []

  abbrev pub Listed : Post (List BackupInfo)
  Listed (err e) files' = files' ≡ files
  Listed (ok infos) files' =
      (files' ≡ files)
      × IsNewestFirst infos
      × ((found : List BackupInfo) × IsListing here found
          × ((p : BackupInfo → Bool) → count p infos ≡ count p found))

-- Whichever file operations fail, list changes no file. The backups that it answers are the entries of the
-- directory that are files and whose name ends with .sqlite3 after at least one other character, each with
-- its size and time and as often as it is there, none if there is no directory. None is older than the
-- next, and of two neighbours of one time the later name comes first.
pub list-Listed :
    (dir_exists : Files → Bool) (entries : Files → List Entry) (disk : Disk)
    → let (r, disk') = list dir_exists entries disk in
      Listed dir_exists entries disk.files r disk'.files
unfolding list
list-Listed dir_exists entries disk = whole.from disk.faults
  where
    whole : Ensures disk.files (list dir_exists entries) (Listed dir_exists entries disk.files)
    whole = Ensures-look dir_exists _ (elim (Bool-cases (dir_exists disk.files)) [
      | inl e ↦ rw e (
          Ensures-io-done _ (entries disk.files) disk.files refl _ _ (λ fault. refl)
            (Ensures-pure _ (
              refl,
              newest_first-IsNewestFirst (listed (entries disk.files)),
              (
                listed (entries disk.files),
                rw e (listed-IsListing (entries disk.files)),
                λ p. newest_first-count p (listed (entries disk.files)),
              ),
            )))
      | inr e ↦ rw e (Ensures-pure [] (refl, tt, ([], rw e none_left, λ p. refl)))
    ])
