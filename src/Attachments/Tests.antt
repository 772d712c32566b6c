-- ===== src/Attachments/Tests.antt =====
-- The attachments on concrete inputs.
use my_template.Prelude.{
  ◌≡◌, ◌==◌, if◌then◌else◌, arith, refl, String, true, false, Option, none, some, to_string, List,
  [], ◌∷◌, length,
}
use my_template.Core.{ok}
use my_template.Disk.{Bytes, Disk, lookup, io}
use my_template.Storage.{◌>>=◌, lift, statement, pure}
use my_template.Disk
use my_template.Attachments.{AttachmentMeta, NewAttachment, Attached}
use my_template.Attachments.Files.{body_path, write_body, write_thumbnail}
use my_template.Attachments.Image.{Libraries, Rgb, ImageFormat, png}
use my_template.Attachments.Input.{validate_bytes, validate_file_name}
use my_template.Attachments.Service.{
  read_body, upload, insert_meta, flag_thumbnail, delete_for_record,
}
use my_template.Attachments.Upload.{Uploads, upload-Uploads, new_meta}
use my_template.Attachments.Valid.{IsValid}
use my_template.Attachments.Serve.{
  uploading, deleting, clearing, serve_all, upload-read_body, attachments_serve_all-IsValid,
}
use my_template.Attachments.Record.{Cleared, delete_for_record-Cleared}

-- A file that begins with 137 is an image of one pixel; the thumbnail holds the red of the pixel.
abbrev of_first : Bytes → Option ImageFormat
of_first [] = none
of_first (b ∷ bytes) = if b == 137 then some png else none

abbrev reds : List Rgb → Bytes
reds [] = []
reds (p ∷ pixels) = p.r ∷ reds pixels

abbrev lib : Libraries Bytes
lib = record {
  guess_format = of_first;
  decode = λ limits bytes. some bytes;
  dimensions = λ picture. (length picture, 1);
  resize = λ picture width height. picture;
  to_rgba8 = λ picture. record {
    width = 1;
    height = 1;
    pixels = record { r = 9; g = 8; b = 7; a = 255 } ∷ [];
  };
  blend = λ channel a. channel;
  write_image = λ quality image. some (reds image.pixels);
  sha256_digest = λ bytes. 171 ∷ [];
}

abbrev base_dir : String
base_dir = "/srv/attachments"

abbrev photo : NewAttachment
photo = record {
  resource = "items";
  resource_id = "7";
  file_name = "photo.png";
  created_by = some "ichiro";
  bytes = 137 ∷ 80 ∷ [];
}

abbrev note_meta : AttachmentMeta
note_meta = record {
  id = 1;
  resource = "items";
  resource_id = "8";
  file_name = "note.txt";
  mime = "application/octet-stream";
  size_bytes = 3;
  sha256 = "ab";
  has_thumbnail = false;
  created_at = "2026-07-02T00:00:00Z";
  created_by = none;
}

abbrev start : Attached
start = record {
  metas = record { rows = note_meta ∷ []; next_id = 2 };
  disk = record {
    files = ("/srv/attachments/1", record { bytes = 1 ∷ 2 ∷ 3 ∷ []; modified = 5 }) ∷ [];
    faults = [];
  };
}

abbrev photo_meta : AttachmentMeta
photo_meta = new_meta lib base_dir 1783036799 photo 2 true

start-IsValid : IsValid base_dir start
unfolding body_path lookup to_string
start-IsValid = record {
  distinct = (tt, tt);
  below = (omega arith, tt);
  kept = (record { file = _; body = refl; sized = refl; thumbed = λ e. absurd (cc e) }, tt);
}

uploads :
    (upload lib base_dir 1783036799 photo (record { tables = start; faults = [] })).0
    ≡ ok photo_meta
unfolding upload ◌>>=◌ lift validate_file_name validate_bytes statement insert_meta write_body
    Disk.◌>>=◌ io Disk.pure write_thumbnail flag_thumbnail pure
uploads = refl

upload-Uploads_example :
    let (r, db) = upload lib base_dir 1783036799 photo (record { tables = start; faults = [] }) in
    Uploads lib base_dir 1783036799 photo start r db.tables
upload-Uploads_example = (upload-Uploads lib base_dir 1783036799 photo start ((λ e. cc e), tt)).from

calm :
    (upload lib base_dir 1783036799 photo
      (record { tables = start; faults = [] })).1.tables.disk.faults
    ≡ []
unfolding upload ◌>>=◌ lift validate_file_name validate_bytes statement insert_meta write_body
    Disk.◌>>=◌ io Disk.pure write_thumbnail flag_thumbnail pure
calm = refl

upload-read_body_example :
    (read_body base_dir 2
      (upload lib base_dir 1783036799 photo (record { tables = start; faults = [] })).1).0
    ≡ ok (photo_meta, 137 ∷ 80 ∷ [])
upload-read_body_example =
    upload-read_body lib base_dir 1783036799 photo start start-IsValid photo_meta uploads calm

delete_for_record-Cleared_example :
    let (r, db) = delete_for_record base_dir "items" "8" (record { tables = start; faults = [] }) in
    Cleared base_dir "items" "8" start start-IsValid r db.tables
delete_for_record-Cleared_example =
    (delete_for_record-Cleared base_dir "items" "8" start start-IsValid).from

attachments_serve_all-IsValid_example :
    IsValid base_dir
      (serve_all lib base_dir
        (uploading 1783036799 photo ∷ clearing "items" "8" ∷ deleting 2 ∷ [])
        (record { tables = start; faults = [] })).tables
attachments_serve_all-IsValid_example =
    attachments_serve_all-IsValid lib base_dir
      (uploading 1783036799 photo ∷ clearing "items" "8" ∷ deleting 2 ∷ []) start start-IsValid
