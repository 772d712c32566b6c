-- ===== src/Backup/Validate.antt =====
-- backup.rs: the check of a file before it may be restored. What SQLite answers is a parameter.
pub mod Passing
pub mod Restorable
use my_template.Prelude.{
  String, ◌<>◌, str_eq, eq_iff, eq_refl, ◌≡◌, refl, Bool, true, false, Option, none, some, List, [],
  ◌∷◌, arith, if◌then◌else◌, Option-cases, inl, inr, ◌↔◌,
}
use my_template.Core.{BantoError, storage, Result, ok, err}
use my_template.Disk.{
  Bytes, File, Files, Attempt, done, failed, Op, Fs, lookup, attempt, pure, ◌>>=◌,
}
use my_template.Backup.Names.{validation_err}

pub data Reply (A : Type 0) : Type 0 where
  reply : A → Reply A
  refusal : String → Reply A

-- SQLite on the bytes of a file, opened for reading: the connection, `PRAGMA integrity_check`, and the
-- query for a table by its name. A refusal holds the error's text.
pub record Engine : Type 0 where
  pub connect : Bytes → Reply (Unit {0})
  pub integrity_check : Bytes → Reply String
  pub table_named : String → Bytes → Reply (Option String)

abbrev pub required_tables : List String
required_tables = "items" ∷ "settings" ∷ "users" ∷ "audit_log" ∷ []

unfoldable pub cannot_open : String → BantoError
unfolding validation_err
cannot_open text =
    validation_err ("SQLiteデータベースとして開けませんでした（ファイルが破損しているか、SQLiteデータベースではありません）: " <> text)

module _ (engine : Engine) where
  table_found : String → Reply (Option String) → Result (Unit {0})
  unfolding validation_err
  table_found table (refusal text) = err (storage text)
  table_found table (reply none) =
      err (validation_err ("必須テーブル '" <> table <> "' が見つかりません。Banto のデータベースファイルではない可能性があります"))
  table_found table (reply (some name)) = ok tt

  all_found : Result (Unit {0}) → Result (Unit {0}) → Result (Unit {0})
  all_found (err e) rest = err e
  all_found (ok tt) rest = rest

  check_tables : List String → Bytes → Result (Unit {0})
  unfolding table_found all_found
  check_tables [] bytes = ok tt
  check_tables (table ∷ tables) bytes =
      all_found (table_found table (engine.table_named table bytes)) (check_tables tables bytes)

  intact : Reply String → Result (Unit {0}) → Result (Unit {0})
  unfolding validation_err
  intact (refusal text) rest = err (validation_err ("整合性チェックの実行に失敗しました: " <> text))
  intact (reply integrity) rest =
      if str_eq integrity "ok"
      then rest
      else err (validation_err ("整合性チェックでエラーが見つかりました: " <> integrity))

  unfoldable pub run_validation_checks : Bytes → Result (Unit {0})
  unfolding intact check_tables
  run_validation_checks bytes =
      intact (engine.integrity_check bytes) (check_tables required_tables bytes)

  connected : Reply (Unit {0}) → Result (Unit {0}) → Result (Unit {0})
  unfolding cannot_open
  connected (refusal text) rest = err (cannot_open text)
  connected (reply tt) rest = rest

  unfoldable pub checked : Option File → Result (Unit {0})
  unfolding connected run_validation_checks cannot_open
  checked none = err (cannot_open "unable to open database file")
  checked (some file) = connected (engine.connect file.bytes) (run_validation_checks file.bytes)

  -- A connection that fails for another reason fails the check too.
  probed : Attempt (Option File) → Result (Unit {0})
  unfolding checked cannot_open
  probed (failed e) = err (cannot_open e.text)
  probed (done file) = checked file

  abbrev probe : String → Op (Option File)
  probe path = record {
    run = λ files. (done (lookup path files), files);
    broken = λ partial files. files;
  }

  -- The file is opened for reading only. The answer is a value, which some callers look at.
  unfoldable pub validate_sqlite_file : String → Fs (Result (Unit {0}))
  unfolding probed
  validate_sqlite_file path = attempt (probe path) >>= λ file. pure (probed file)

  abbrev AllTables : List String → Bytes → Type 0
  AllTables [] bytes = Unit
  AllTables (table ∷ tables) bytes =
      ((name : String) × (engine.table_named table bytes ≡ reply (some name)))
      × AllTables tables bytes

  -- What a file must be to be restored.
  abbrev pub IsRestorable : Bytes → Type 0
  IsRestorable bytes =
      (engine.connect bytes ≡ reply tt)
      × (engine.integrity_check bytes ≡ reply "ok")
      × AllTables required_tables bytes
