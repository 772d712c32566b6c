-- ===== src/Attachments/Serve.antt =====
-- lib.rs of banto-attachments: an upload and what is read of it afterwards, and any sequence of calls.
use mathlib.Core.Path.{subst}
use my_template.Prelude.{ℕ, ◌≡◌, refl, sym, ap, ◌∙◌, String, some, List, [], ◌∷◌}
use my_template.Core.{Result, ok, err}
use my_template.Disk.{io, perform, settled, lookup}
use my_template.Storage.{Pool, query, pure, statement, answer, resume, ◌>>=◌}
use my_template.Storage.Rows.{find_row, NoRow}
use my_template.Storage.Rows.Laws.{find_row-snoc, IdsBelow-NoRow}
use my_template.Attachments.{AttachmentMeta, NewAttachment, Attached, meta_id}
use my_template.Attachments.Files.{body_path}
use my_template.Attachments.Image.{Libraries}
use my_template.Attachments.Service.{
  on_disk, get, found, upload, read_body, read_thumbnail, list_for_record, delete,
  delete_for_record,
}
use my_template.Attachments.Upload.{IsUploaded, Uploads, upload-Uploads}
use my_template.Attachments.Valid.{IsValid, upload-IsValid, delete-IsValid}
use my_template.Attachments.Record.{Cleared, delete_for_record-Cleared}
use my_template.Attachments.Reads.{
  get-IsValid, list_for_record-IsValid, read_body-IsValid, read_thumbnail-IsValid,
}

module _ {Picture : Type 0} (lib : Libraries Picture) (base_dir : String) (now : ℕ)
    (input : NewAttachment) where
  abbrev flawless : Attached → Pool Attached
  flawless t = record { tables = t; faults = [] }

  -- Without a failure, the body of an attachment that was uploaded reads back.
  read_uploaded :
      (t t' : Attached) (meta : AttachmentMeta)
      → IsValid base_dir t
      → t'.disk.faults ≡ []
      → IsUploaded lib base_dir now input t t' meta
      → (read_body base_dir meta.id (flawless t')).0 ≡ ok (meta, input.bytes)
  unfolding read_body get found on_disk io perform settled query statement answer resume pure ◌>>=◌
  read_uploaded t t' meta v calm up =
      let same : meta.id ≡ t.metas.next_id = ap meta_id up.described in
      let there : find_row meta_id meta.id t'.metas.rows ≡ some meta =
        ap (find_row meta_id meta.id) up.appended
        ∙ find_row-snoc meta_id meta.id t.metas.rows meta
            (subst (λ i. NoRow meta_id i t.metas.rows) (sym same)
              (IdsBelow-NoRow meta_id t.metas.next_id t.metas.rows v.below))
            refl in
      let body = ap (λ i. lookup (body_path base_dir i) t'.disk.files) same ∙ up.body in
      rw (there, calm, body) refl

  -- From a store whose rows have their files: when an upload succeeds, and no failure of the files is left
  -- to come, reading the body by the id that it has answered gives the row and the bytes of the input.
  pub upload-read_body :
      (t : Attached)
      → IsValid base_dir t
      → let (r, db) = upload lib base_dir now input (flawless t) in
        (meta : AttachmentMeta)
        → r ≡ ok meta
        → db.tables.disk.faults ≡ []
        → (read_body base_dir meta.id db).0 ≡ ok (meta, input.bytes)
  upload-read_body t v meta good calm =
      let done =
        upload-Uploads lib base_dir now input t
          (IdsBelow-NoRow meta_id t.metas.next_id t.metas.rows v.below) in
      let db = (upload lib base_dir now input (flawless t)).1 in
      subst
        (λ faults.
          (read_body base_dir meta.id (record { tables = db.tables; faults = faults })).0
          ≡ ok (meta, input.bytes))
        (sym done.clean)
        (read_uploaded t db.tables meta v calm
          (subst (λ r. Uploads lib base_dir now input t r db.tables) good done.from))

pub data Call : Type 0 where
  uploading : (now : ℕ) → NewAttachment → Call
  deleting : ℕ → Call
  clearing : (resource : String) (resource_id : String) → Call
  getting : ℕ → Call
  listing : (resource : String) (resource_id : String) → Call
  reading : ℕ → Call
  showing : ℕ → Call

module _ {Picture : Type 0} (lib : Libraries Picture) (base_dir : String) where
  unfoldable pub serve : Call → Pool Attached → Pool Attached
  serve (uploading now input) db = (upload lib base_dir now input db).1
  serve (deleting id) db = (delete base_dir id db).1
  serve (clearing resource resource_id) db = (delete_for_record base_dir resource resource_id db).1
  serve (getting id) db = (get id db).1
  serve (listing resource resource_id) db = (list_for_record resource resource_id db).1
  serve (reading id) db = (read_body base_dir id db).1
  serve (showing id) db = (read_thumbnail base_dir id db).1

  unfoldable pub serve_all : List Call → Pool Attached → Pool Attached
  unfolding serve
  serve_all [] db = db
  serve_all (call ∷ calls) db = serve_all calls (serve call db)

  abbrev Fine : Pool Attached → Type 0
  Fine db = IsValid base_dir db.tables × (db.faults ≡ [])

  cleared-Fine :
      (resource resource_id : String) (t : Attached) (v : IsValid base_dir t) (r : Result ℕ)
      (t' : Attached)
      → Cleared base_dir resource resource_id t v r t'
      → IsValid base_dir t'
  cleared-Fine resource resource_id t v (ok n) t' h = h.2
  cleared-Fine resource resource_id t v (err e) t' h = absurd h

  serve_call-Fine :
      (call : Call) (t : Attached)
      → IsValid base_dir t
      → Fine (serve call (record { tables = t; faults = [] }))
  unfolding serve
  serve_call-Fine (uploading now input) t v =
      let h = upload-IsValid base_dir lib now input t v in (h.from, h.clean)
  serve_call-Fine (deleting id) t v = let h = delete-IsValid base_dir id t v in (h.from, h.clean)
  serve_call-Fine (clearing resource resource_id) t v =
      let h = delete_for_record-Cleared base_dir resource resource_id t v in
      (cleared-Fine resource resource_id t v _ _ h.from, h.clean)
  serve_call-Fine (getting id) t v = let h = get-IsValid base_dir t v id in (h.from, h.clean)
  serve_call-Fine (listing resource resource_id) t v =
      let h = list_for_record-IsValid base_dir t v resource resource_id in (h.from, h.clean)
  serve_call-Fine (reading id) t v = let h = read_body-IsValid base_dir t v id in (h.from, h.clean)
  serve_call-Fine (showing id) t v =
      let h = read_thumbnail-IsValid base_dir t v id in (h.from, h.clean)

  serve-Fine : (call : Call) (db : Pool Attached) → Fine db → Fine (serve call db)
  serve-Fine call db (v, clean) =
      subst (λ faults. Fine (serve call (record { tables = db.tables; faults = faults })))
        (sym clean) (serve_call-Fine call db.tables v)

  serve_all-Fine : (calls : List Call) (db : Pool Attached) → Fine db → Fine (serve_all calls db)
  unfolding serve_all
  serve_all-Fine [] db fine = fine
  serve_all-Fine (call ∷ calls) db fine =
      serve_all-Fine calls (serve call db) (serve-Fine call db fine)

  -- Whatever sequence of calls comes, and whichever operations on the files fail: where every statement
  -- runs, the ids stay distinct and below the next one, every row has its body file, of as many bytes as
  -- it says, and every row that says so has its thumbnail.
  pub attachments_serve_all-IsValid :
      (calls : List Call) (t : Attached)
      → IsValid base_dir t
      → IsValid base_dir (serve_all calls (record { tables = t; faults = [] })).tables
  attachments_serve_all-IsValid calls t v =
      (serve_all-Fine calls (record { tables = t; faults = [] }) (v, refl)).0
