-- ===== src/Backup/Listing.antt =====
-- backup.rs, `list`: the backups, newest first.
pub mod Named
pub mod Sorted
use my_template.Prelude.{
  ℕ, String, str_eq, ends_with, leb_text, Bool, true, false, not, ◌&&◌, Option, none, some, List,
  [], ◌∷◌, length, if◌then◌else◌,
}
use my_template.Core.{Result, ok, err}
use my_template.Dates.{iso_datetime_from_system_time}
use my_template.Disk.{File, Files, Op, Fs, done, io, io_err, pure, look, ◌>>=◌}
use my_template.Backup.Service.{BackupInfo}

-- An entry of the directory: its name, and its metadata if it is a file that is still there.
abbrev pub Entry : Type 0
Entry = String × Option File

-- `Path::extension` is `sqlite3`.
unfoldable pub is_sqlite3 : String → Bool
unfolding ends_with
is_sqlite3 name = ends_with ".sqlite3" name && not (str_eq name ".sqlite3")

abbrev pub info_of : String → File → BackupInfo
info_of name file = record {
  file_name = name;
  size_bytes = length file.bytes;
  created_at = iso_datetime_from_system_time file.modified;
}

unfoldable pub listed : List Entry → List BackupInfo
unfolding is_sqlite3
listed [] = []
listed ((name, none) ∷ entries) = listed entries
listed ((name, some file) ∷ entries) =
    if is_sqlite3 name then info_of name file ∷ listed entries else listed entries

-- The comparison of `sort_by`: the later time first, then the later name.
unfoldable pub at_least_as_new : BackupInfo → BackupInfo → Bool
unfolding leb_text
at_least_as_new a b =
    if str_eq a.created_at b.created_at
    then leb_text b.file_name a.file_name
    else leb_text b.created_at a.created_at

insert_info : BackupInfo → List BackupInfo → List BackupInfo
unfolding at_least_as_new
insert_info a [] = a ∷ []
insert_info a (b ∷ infos) = if at_least_as_new a b then a ∷ b ∷ infos else b ∷ insert_info a infos

-- `sort_by`
unfoldable pub newest_first : List BackupInfo → List BackupInfo
unfolding insert_info
newest_first [] = []
newest_first (a ∷ infos) = insert_info a (newest_first infos)

-- `entries` is what the system answers for the directory, in its order, and `dir_exists` whether it is there.
-- An entry that cannot be read ends the call with the same error as the directory.
unfoldable pub list : (Files → Bool) → (Files → List Entry) → Fs (List BackupInfo)
unfolding io_err listed newest_first
list dir_exists entries = do
  present ← look dir_exists
  if present
      then (io (io_err "バックアップ一覧の読み取りに失敗しました") (record {
        run = λ files. (done (entries files), files);
        broken = λ partial files. files;
      })
          >>= λ found. pure (newest_first (listed found)))
      else pure []
