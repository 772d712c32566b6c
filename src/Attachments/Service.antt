-- ===== src/Attachments/Service.antt =====
-- lib.rs of banto-attachments: `AttachmentsService`. A statement and an operation on the files fail on their own.
use my_template.Prelude.{
  ℕ, suc, ◌&&◌, ◌==◌, String, Bool, true, false, Option, none, some, List, [], ◌∷◌, ◌++◌,
  if◌then◌else◌, str_eq, leb_text, leb, length, to_string,
}
use my_template.Core.{
  BantoError, not_found, validation, unauthorized, forbidden, storage, other, Result, ok, err,
}
use my_template.Storage.{Exec, Sql, statement, query, pure, raise, lift, ◌>>=◌, ◌>>◌}
use my_template.Storage.Rows.{find_row, change_row, drop_row, affected}
use my_template.Dates.{iso_datetime_utc}
use my_template.Disk.{Bytes, IoError, Fs, io, io_err, attempt, read_file, remove_file}
use my_template.Attachments.Files.{body_path, thumbnail_path, write_body, write_thumbnail}
use my_template.Attachments.{AttachmentMeta, NewAttachment, Attached, meta_id}
use my_template.Attachments.Input.{validate_file_name, validate_bytes}
use my_template.Attachments.Image.{
  Libraries, detect_mime, sha256_hex, is_thumbnailable_mime, make_thumbnail,
}

abbrev pub Attachments : Type 0 → Type 0
Attachments = Exec Attached

-- Operations on the files.
unfoldable pub on_disk : {A : Type 0} → Fs A → Attachments A
on_disk act db =
    let (r, disk') = act db.tables.disk in
    (r, record db { tables = record db.tables { disk = disk' } })

-- A call whose error the code looks at itself.
unfoldable pub outcome : {A : Type 0} → Attachments A → Attachments (Result A)
outcome act db = let (r, db') = act db in (ok r, db')

abbrev pub resource_name : String
resource_name = "attachments"

abbrev pub missing : {A : Type 0} → ℕ → Attachments A
missing id = raise (not_found resource_name (to_string id))

unfoldable pub found : {A : Type 0} → ℕ → Option A → Attachments A
found id none = missing id
found id (some a) = pure a

-- `INSERT INTO attachments … RETURNING …`
unfoldable pub insert_meta : NewAttachment → String → String → String → Sql Attached AttachmentMeta
insert_meta input mime sha256 created_at t =
    let meta : AttachmentMeta = record {
      id = t.metas.next_id;
      resource = input.resource;
      resource_id = input.resource_id;
      file_name = input.file_name;
      mime = mime;
      size_bytes = length input.bytes;
      sha256 = sha256;
      has_thumbnail = false;
      created_at = created_at;
      created_by = input.created_by;
    } in
    (
      ok meta,
      record t {
        metas = record { rows = t.metas.rows ++ meta ∷ []; next_id = suc t.metas.next_id };
      },
    )

-- `DELETE FROM attachments WHERE id = ?`: the rows affected.
unfoldable pub delete_meta : ℕ → Sql Attached ℕ
unfolding find_row drop_row
delete_meta id t = (
  ok (affected (find_row meta_id id t.metas.rows)),
  record t { metas = record t.metas { rows = drop_row meta_id id t.metas.rows } },
)

abbrev pub with_thumbnail : AttachmentMeta → AttachmentMeta
with_thumbnail m = record m { has_thumbnail = true }

-- `UPDATE attachments SET has_thumbnail = 1 WHERE id = ?`
unfoldable pub flag_thumbnail : ℕ → Sql Attached (Unit {0})
unfolding change_row
flag_thumbnail id t = (
  ok tt,
  record t { metas = record t.metas { rows = change_row meta_id id with_thumbnail t.metas.rows } },
)

abbrev pub belongs : String → String → AttachmentMeta → Bool
belongs resource resource_id m = str_eq m.resource resource && str_eq m.resource_id resource_id

-- `WHERE resource = ? AND resource_id = ?`
unfoldable pub rows_of : String → String → List AttachmentMeta → List AttachmentMeta
rows_of resource resource_id [] = []
rows_of resource resource_id (m ∷ rows) =
    if belongs resource resource_id m
    then m ∷ rows_of resource resource_id rows
    else rows_of resource resource_id rows

-- `ORDER BY created_at DESC, id DESC`
unfoldable pub at_least_as_new : AttachmentMeta → AttachmentMeta → Bool
unfolding leb_text
at_least_as_new a b =
    if str_eq a.created_at b.created_at then leb b.id a.id else leb_text b.created_at a.created_at

unfoldable pub insert_newest : AttachmentMeta → List AttachmentMeta → List AttachmentMeta
unfolding at_least_as_new
insert_newest a [] = a ∷ []
insert_newest a (b ∷ rows) = if at_least_as_new a b then a ∷ b ∷ rows else b ∷ insert_newest a rows

unfoldable pub newest_first : List AttachmentMeta → List AttachmentMeta
unfolding insert_newest
newest_first [] = []
newest_first (a ∷ rows) = insert_newest a (newest_first rows)

unfoldable pub list_for_record : String → String → Attachments (List AttachmentMeta)
unfolding newest_first rows_of
list_for_record resource resource_id =
    query (λ t. newest_first (rows_of resource resource_id t.metas.rows))

unfoldable pub get : ℕ → Attachments AttachmentMeta
unfolding find_row found
get id = do row ← query (λ t. find_row meta_id id t.metas.rows); found id row

unfoldable pub read_problem : String → ℕ → IoError → BantoError
unfolding io_err
read_problem context id e =
    if e.is_not_found then not_found resource_name (to_string id) else io_err context e

unfoldable pub ids : List AttachmentMeta → List ℕ
ids [] = []
ids (m ∷ rows) = m.id ∷ ids rows

module _ (base_dir : String) where
  unfoldable pub read_body : ℕ → Attachments (AttachmentMeta × Bytes)
  unfolding get on_disk body_path read_problem
  read_body id = do
    meta ← get id
    bytes ← on_disk (io (read_problem "添付ファイルの読み取りに失敗しました" id) (read_file (body_path base_dir id)))
    pure (meta, bytes)

  unfoldable pub read_thumbnail : ℕ → Attachments Bytes
  unfolding get on_disk thumbnail_path read_problem
  read_thumbnail id = do
    meta ← get id
    if meta.has_thumbnail
        then on_disk
            (io (read_problem "サムネイルの読み取りに失敗しました" id) (read_file (thumbnail_path base_dir id)))
        else missing id

  -- The last part of `delete`, by `has_thumbnail`.
  unfoldable pub remove_thumbnail : ℕ → AttachmentMeta → Bool → Attachments AttachmentMeta
  unfolding on_disk thumbnail_path
  remove_thumbnail id meta false = pure meta
  remove_thumbnail id meta true =
      on_disk (attempt (remove_file (thumbnail_path base_dir id))) >>= λ gone. pure meta

  -- A failure here is only reported on standard error.
  unfoldable pub remove_files : ℕ → AttachmentMeta → Attachments AttachmentMeta
  unfolding on_disk body_path remove_thumbnail
  remove_files id meta = do
    body_gone ← on_disk (attempt (remove_file (body_path base_dir id)))
    remove_thumbnail id meta meta.has_thumbnail

  unfoldable pub delete : ℕ → Attachments AttachmentMeta
  unfolding get remove_files
  delete id = do
    meta ← get id
    rows_affected ← statement (delete_meta id)
    if rows_affected == 0 then missing id else remove_files id meta

  -- What the loop of `delete_for_record` makes of one deletion: `rest` is the loop that is left.
  unfoldable pub counted : (ℕ → Attachments ℕ) → ℕ → Result AttachmentMeta → Attachments ℕ
  counted rest deleted (ok meta) = rest (suc deleted)
  counted rest deleted (err (not_found resource id)) = rest deleted
  counted rest deleted (err (validation es)) = raise (validation es)
  counted rest deleted (err unauthorized) = raise unauthorized
  counted rest deleted (err forbidden) = raise forbidden
  counted rest deleted (err (storage text)) = raise (storage text)
  counted rest deleted (err (other text)) = raise (other text)

  unfoldable pub delete_each : List ℕ → ℕ → Attachments ℕ
  unfolding delete outcome counted
  delete_each [] deleted = pure deleted
  delete_each (id ∷ rest) deleted =
      outcome (delete id) >>= λ gone. counted (delete_each rest) deleted gone

  unfoldable pub delete_for_record : String → String → Attachments ℕ
  unfolding delete_each rows_of ids
  delete_for_record resource resource_id = do
    found_ids ← query (λ t. ids (rows_of resource resource_id t.metas.rows))
    delete_each found_ids 0

module _ {Picture : Type 0} (lib : Libraries Picture) (base_dir : String) (now : ℕ) where
  unfoldable pub flagged : AttachmentMeta → Result (Unit {0}) → Attachments AttachmentMeta
  flagged meta (err e) = pure meta
  flagged meta (ok wrote) = statement (flag_thumbnail meta.id) >> pure (with_thumbnail meta)

  unfoldable pub with_image : AttachmentMeta → Option Bytes → Attachments AttachmentMeta
  unfolding outcome on_disk flagged
  with_image meta none = pure meta
  with_image meta (some thumb_bytes) = do
    wrote ← outcome (on_disk (write_thumbnail base_dir now meta.id thumb_bytes))
    flagged meta wrote

  -- What follows the writing of the body.
  unfoldable pub stored :
      NewAttachment → String → AttachmentMeta → Result (Unit {0}) → Attachments AttachmentMeta
  unfolding outcome is_thumbnailable_mime make_thumbnail with_image
  stored input mime meta (err write_err) =
      outcome (statement (delete_meta meta.id)) >>= λ cleaned. raise write_err
  stored input mime meta (ok wrote) =
      if is_thumbnailable_mime mime
      then with_image meta (make_thumbnail lib input.bytes)
      else pure meta

  unfoldable pub upload : NewAttachment → Attachments AttachmentMeta
  unfolding sha256_hex detect_mime iso_datetime_utc outcome on_disk stored
  upload input = do
    lift (validate_file_name input.file_name)
    lift (validate_bytes input.bytes)
    let mime = detect_mime lib input.bytes
    meta ← statement (insert_meta input mime (sha256_hex lib input.bytes) (iso_datetime_utc now))
    wrote ← outcome (on_disk (write_body base_dir now meta.id input.bytes))
    stored input mime meta wrote
