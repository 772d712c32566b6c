-- ===== src/Disk.antt =====
-- The files that the backups and the attachments work on (`tokio::fs`, `std::path`): a file by its path, and operations each
-- of which does what it is for, or fails. Which operations fail is an input, a list that each consults
-- in turn; past its end all succeed. A copy or a write that fails may leave a part of the bytes.
pub mod Ensures
use my_template.Prelude.{
  ℕ, String, ◌<>◌, str_eq, Bool, true, false, Option, none, some, List, [], ◌∷◌, if◌then◌else◌,
}
use my_template.Core.{BantoError, other, Result, ok, err}

abbrev pub Bytes : Type 0
Bytes = List ℕ

-- `modified` is the mtime, in seconds of the Unix epoch.
pub record File : Type 0 where
  pub bytes : Bytes
  pub modified : ℕ

abbrev pub Files : Type 0
Files = List (String × File)

unfoldable pub lookup : String → Files → Option File
lookup p [] = none
lookup p (f ∷ files) = if str_eq f.0 p then some f.1 else lookup p files

unfoldable pub erase : String → Files → Files
erase p [] = []
erase p (f ∷ files) = if str_eq f.0 p then erase p files else f ∷ erase p files

unfoldable pub put : String → File → Files → Files
unfolding erase
put p file files = (p, file) ∷ erase p files

-- `std::io::Error`: whether its kind is `NotFound`, and its `Display`.
pub record IoError : Type 0 where
  pub is_not_found : Bool
  pub text : String

-- A failure, with what a copy or a write has left of its target.
pub record Fault : Type 0 where
  pub error : IoError
  pub partial : Option Bytes

pub data Attempt (A : Type 0) : Type 0 where
  done : A → Attempt A
  failed : IoError → Attempt A

pub record Op (A : Type 0) : Type 0 where
  pub run : Files → Attempt A × Files
  pub broken : Option Bytes → Files → Files

pub record Disk : Type 0 where
  pub files : Files
  pub faults : List (Option Fault)

-- What was done before an error stays done.
abbrev pub Fs : Type 0 → Type 0
Fs A = Disk → Result A × Disk

abbrev pub missing : IoError
missing = record { is_not_found = true; text = "No such file or directory (os error 2)" }

abbrev is_some : {A : Type 0} → Option A → Bool
is_some none = false
is_some (some a) = true

abbrev unchanged : Option Bytes → Files → Files
unchanged partial files = files

-- `now` is the time of a write.
abbrev pub left : ℕ → String → Option Bytes → Files → Files
left now p none files = files
left now p (some bytes) files = put p (record { bytes = bytes; modified = now }) files

abbrev pub on_file :
    {A : Type 0} → Option File → (File → Attempt A × Files) → Files → Attempt A × Files
on_file none act files = (failed missing, files)
on_file (some file) act files = act file

-- `Path::exists`, whose errors are left out.
unfoldable pub exists : String → Files → Bool
unfolding lookup
exists p files = is_some (lookup p files)

abbrev pub try_exists : String → Op Bool
try_exists p = record { run = λ files. (done (exists p files), files); broken = unchanged }

-- Directories are left out, but for the failure to create one.
abbrev pub create_dir_all : String → Op (Unit {0})
create_dir_all p = record { run = λ files. (done tt, files); broken = unchanged }

abbrev pub metadata : String → Op File
metadata p = record {
  run = λ files. on_file (lookup p files) (λ file. (done file, files)) files;
  broken = unchanged;
}

abbrev pub read_file : String → Op Bytes
read_file p = record {
  run = λ files. on_file (lookup p files) (λ file. (done file.bytes, files)) files;
  broken = unchanged;
}

abbrev pub write : ℕ → String → Bytes → Op (Unit {0})
write now p bytes = record {
  run = λ files. (done tt, put p (record { bytes = bytes; modified = now }) files);
  broken = left now p;
}

abbrev pub remove_file : String → Op (Unit {0})
remove_file p = record {
  run = λ files. on_file (lookup p files) (λ file. (done tt, erase p files)) files;
  broken = unchanged;
}

-- On one file system a rename is atomic.
abbrev pub rename : String → String → Op (Unit {0})
rename source target = record {
  run = λ files.
      on_file (lookup source files) (λ file. (done tt, put target file (erase source files))) files;
  broken = unchanged;
}

abbrev pub copy : ℕ → String → String → Op (Unit {0})
copy now source target = record {
  run = λ files.
      on_file (lookup source files)
        (λ file. (done tt, put target (record { bytes = file.bytes; modified = now }) files)) files;
  broken = left now target;
}

module _ {A : Type 0} where
  unfoldable pub perform : Op A → List (Option Fault) → Files → Attempt A × Disk
  perform op [] files =
      let (a, files') = op.run files in (a, record { files = files'; faults = [] })
  perform op (none ∷ faults) files =
      let (a, files') = op.run files in (a, record { files = files'; faults = faults })
  perform op (some fault ∷ faults) files =
      (failed fault.error, record { files = op.broken fault.partial files; faults = faults })

  -- An operation whose error the code looks at itself.
  unfoldable pub attempt : Op A → Fs (Attempt A)
  unfolding perform
  attempt op disk = let (a, disk') = perform op disk.faults disk.files in (ok a, disk')

  unfoldable pub settled : (IoError → BantoError) → Attempt A × Disk → Result A × Disk
  settled problem (done a, disk) = (ok a, disk)
  settled problem (failed e, disk) = (err (problem e), disk)

  -- `map_err(problem)?`
  unfoldable pub io : (IoError → BantoError) → Op A → Fs A
  unfolding settled perform
  io problem op disk = settled problem (perform op disk.faults disk.files)

  unfoldable pub pure : A → Fs A
  pure a disk = (ok a, disk)

  unfoldable pub raise : BantoError → Fs A
  raise e disk = (err e, disk)

  unfoldable pub lift : Result A → Fs A
  lift r disk = (r, disk)

  -- A computation on the files that cannot fail.
  unfoldable pub look : (Files → A) → Fs A
  look read disk = (ok (read disk.files), disk)

-- What SQLite does to the files by itself.
unfoldable pub alter : (Files → Files) → Fs (Unit {0})
alter change disk = (ok tt, record disk { files = change disk.files })

module _ {X Y : Type 0} where
  unfoldable pub resume : (X → Fs Y) → Result X × Disk → Result Y × Disk
  resume next (err problem, disk) = (err problem, disk)
  resume next (ok value, disk) = next value disk

  infixl 10 ◌>>=◌
  unfoldable pub ◌>>=◌ : Fs X → (X → Fs Y) → Fs Y
  unfolding resume
  ◌>>=◌ m next disk = resume next (m disk)

infixl 10 ◌>>◌
abbrev pub ◌>>◌ : {X Y : Type 0} → Fs X → Fs Y → Fs Y
first >> next = first >>= λ value. next

-- backup.rs, `io_err`
unfoldable pub io_err : String → IoError → BantoError
io_err context e = other (context <> ": " <> e.text)
