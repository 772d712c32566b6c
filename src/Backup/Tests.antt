-- ===== src/Backup/Tests.antt =====
-- The laws of the backups on concrete files.
use my_template.Prelude.{
  List, Bool, true, ap, char_count, starts_apart, String, ◌≡◌, ◌≢◌, refl, false, Option, none, some,
  [], ◌∷◌, has_char, arith,
}
use my_template.Core.{ok}
use my_template.Dates.{iso_datetime_from_system_time}
use my_template.Disk.{Bytes, File, Files, Disk, lookup, exists}
use my_template.Backup.Names.{
  join, base_dir, backups_dir, pending_restore_path, unique_path, safe_backup_path,
}
use my_template.Backup.Names.Fresh.{unique_path-free}
use my_template.Backup.Names.Safe.{IsSafeName, safe_backup_path-inside}
use my_template.Backup.Validate.{Engine, Reply, reply, refusal, IsRestorable}
use my_template.Backup.Service.{
  AppliedRestoreInfo, stage_restore_from_file, BackupInfo, create, read, stage_restore_from_bytes,
}
use my_template.Backup.Service.Upload.{Uploaded, stage_restore_from_bytes-Uploaded}
use my_template.Backup.Service.Reserve.{Reserved, stage_restore_from_file-Reserved}
use my_template.Backup.Service.Created.{create-read}
use my_template.Backup.Listing.{Entry, list}
use my_template.Backup.Listing.Sorted.{Listed, list-Listed}
use my_template.Backup.Startup.{apply_pending_restore_at_startup}
use my_template.Backup.Startup.Complete.{apply_pending_restore_at_startup_complete}
use my_template.Backup.Startup.Safety.{Layout, OnlyDb}
use my_template.Backup.Startup.Swap.{Applied}
use my_template.Backup.Startup.Applied.{apply_pending_restore_at_startup-Applied}

-- Every file that is not empty is a database here, with all tables.
abbrev opens : Bytes → Reply (Unit {0})
opens [] = refusal "file is not a database"
opens (b ∷ bytes) = reply tt

abbrev engine : Engine
engine = record {
  connect = opens;
  integrity_check = λ bytes. reply "ok";
  table_named = λ table bytes. reply (some table);
}

abbrev parent : String → Option String
parent path = some "/srv"

abbrev db_path : String
db_path = "/srv/data.sqlite3"

abbrev current : File
current = record { bytes = 83 ∷ 1 ∷ []; modified = 1782950400 }

abbrev staged : File
staged = record { bytes = 83 ∷ 2 ∷ []; modified = 1782950500 }

abbrev files : Files
files =
    (db_path, current)
    ∷ ("/srv/restore-pending.sqlite3", staged)
    ∷ ("/srv/backups/banto-20260702-000000.sqlite3", current)
    ∷ []

abbrev disk : Disk
disk = record { files = files; faults = [] }

unique_path-free_example :
    exists
      (join "/srv/backups" (unique_path files "/srv/backups" "banto-20260702-000000" "sqlite3"))
      files
    ≡ false
unique_path-free_example =
    unique_path-free files "/srv/backups" "banto-20260702-000000" "sqlite3" (omega arith)

abbrev name : String
name = "banto-20260702-000000.sqlite3"

safe_backup_path-inside_example :
    ("/srv/backups/banto-20260702-000000.sqlite3" ≡ join (backups_dir "/srv") name)
    × (has_char b'/' name ≡ false)
    × (has_char b'\\' name ≡ false)
    × (name ≢ "..")
unfolding safe_backup_path
safe_backup_path-inside_example =
    safe_backup_path-inside "/srv" name "/srv/backups/banto-20260702-000000.sqlite3" refl

stage_restore_from_bytes-Uploaded_example :
    let (r, disk') = stage_restore_from_bytes engine [] 1782950600 "/srv" 7 9 (83 ∷ 3 ∷ []) disk in
    Uploaded engine [] 1782950600 "/srv" 7 9 (83 ∷ 3 ∷ []) files r disk'.files
stage_restore_from_bytes-Uploaded_example =
    stage_restore_from_bytes-Uploaded engine [] 1782950600 "/srv" 7 9 (83 ∷ 3 ∷ []) disk

create-read_example :
    let (r, disk') = create engine (83 ∷ 1 ∷ []) 1782950400 "/srv" "2026-07-02 00:00:00" disk in
    (info : BackupInfo) × (r ≡ ok info)
    × ((read engine (83 ∷ 1 ∷ []) 1782950400 "/srv" info.file_name disk').0 ≡ ok (83 ∷ 1 ∷ []))
    × (info.size_bytes ≡ 2)
    × (info.created_at ≡ iso_datetime_from_system_time 1782950400)
    × ((q : String) (file : File) → lookup q files ≡ some file → lookup q disk'.files ≡ some file)
create-read_example =
    create-read engine (83 ∷ 1 ∷ []) 1782950400 "/srv" "2026-07-02 00:00:00" files (omega arith)

layout : Layout (base_dir parent db_path) db_path
unfolding base_dir backups_dir pending_restore_path
layout = record {
  pending_db = λ e. omega (arith, ap char_count e);
  wal_db = λ e. omega (arith, ap char_count e);
  shm_db = λ e. omega (arith, ap char_count e);
  wal_pending = λ e. omega (arith, ap char_count e);
  shm_pending = λ e. omega (arith, ap char_count e);
  backup_db = λ name. starts_apart "/srv/" "b" "d" _ _ (λ e. omega arith);
  backup_pending = λ name. starts_apart "/srv/" "b" "r" _ _ (λ e. omega arith);
  wal_backup = λ name. starts_apart "/srv/" "d" "b" _ _ (λ e. omega arith);
  shm_backup = λ name. starts_apart "/srv/" "d" "b" _ _ (λ e. omega arith);
}

abbrev checkpoint : Files → Files
checkpoint before = before

only_db : OnlyDb db_path checkpoint
only_db p before nd nw ns = refl

apply_pending_restore_at_startup-Applied_example :
    let (r, disk') =
      apply_pending_restore_at_startup engine parent checkpoint 1782950600 db_path disk in
    Applied engine parent checkpoint 1782950600 db_path layout only_db files r disk'.files
apply_pending_restore_at_startup-Applied_example =
    apply_pending_restore_at_startup-Applied engine parent checkpoint 1782950600 db_path layout
      only_db disk

fits : IsRestorable engine staged.bytes
fits = (
  refl,
  refl,
  (("items", refl), (("settings", refl), (("users", refl), (("audit_log", refl), tt)))),
)

apply_pending_restore_at_startup_complete_example :
    let (r, disk') =
      apply_pending_restore_at_startup engine parent checkpoint 1782950600 db_path disk in
    (info : AppliedRestoreInfo) × (r ≡ ok (some info))
    × (lookup db_path disk'.files ≡ some staged)
    × (lookup (pending_restore_path (base_dir parent db_path)) disk'.files ≡ none)
    × IsSafeName info.pre_restore_backup_file_name
    × (lookup
          (join (backups_dir (base_dir parent db_path)) info.pre_restore_backup_file_name)
          disk'.files
        ≡ some (record { bytes = current.bytes; modified = 1782950600 }))
unfolding base_dir pending_restore_path lookup
apply_pending_restore_at_startup_complete_example =
    apply_pending_restore_at_startup_complete engine parent checkpoint 1782950600 db_path layout
      only_db files staged current current refl fits refl refl

stage_restore_from_file-Reserved_example :
    let (r, disk') = stage_restore_from_file engine [] 1782950600 "/srv" name disk in
    Reserved engine 1782950600 "/srv" name files r disk'.files
stage_restore_from_file-Reserved_example =
    stage_restore_from_file-Reserved engine [] 1782950600 "/srv" name disk

abbrev entries : Files → List Entry
entries before =
    (name, some current)
    ∷ ("notes.txt", some current)
    ∷ ("pre-restore-20260703-000000.sqlite3", some staged)
    ∷ []

abbrev dir_exists : Files → Bool
dir_exists before = true

list-Listed_example :
    let (r, disk') = list dir_exists entries disk in Listed dir_exists entries files r disk'.files
list-Listed_example = list-Listed dir_exists entries disk
