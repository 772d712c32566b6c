-- ===== src/Attachments/Files.antt =====
-- lib.rs of banto-attachments: the files of an attachment. Its own name is not a part of their paths.
use my_template.Prelude.{ℕ, ◌<>◌, String, to_string}
use my_template.Disk.{Bytes, Fs, io, io_err, create_dir_all, write, pure, ◌>>◌}
use my_template.Backup.Names.{join}

unfoldable pub body_path : String → ℕ → String
body_path base_dir id = join base_dir (to_string id)

unfoldable pub thumbnail_path : String → ℕ → String
thumbnail_path base_dir id = join base_dir (to_string id <> ".thumb.jpg")

module _ (base_dir : String) where
  unfoldable pub write_body : ℕ → ℕ → Bytes → Fs (Unit {0})
  unfolding body_path io_err
  write_body now id bytes = do
    io (io_err "添付ファイル保存用ディレクトリの作成に失敗しました") (create_dir_all base_dir)
    io (io_err "添付ファイルの書き込みに失敗しました") (write now (body_path base_dir id) bytes)
    pure tt

  unfoldable pub write_thumbnail : ℕ → ℕ → Bytes → Fs (Unit {0})
  unfolding thumbnail_path io_err
  write_thumbnail now id bytes = do
    io (io_err "添付ファイル保存用ディレクトリの作成に失敗しました") (create_dir_all base_dir)
    io (io_err "サムネイルの書き込みに失敗しました") (write now (thumbnail_path base_dir id) bytes)
    pure tt
