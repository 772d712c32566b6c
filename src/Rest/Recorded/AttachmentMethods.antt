-- ===== src/Rest/Recorded/AttachmentMethods.antt =====
-- lib.rs of banto-attachments: its methods consult the failures of statements that are to come in turn.
use my_template.Prelude.{ℕ, String, Bool, true, false, Option, none, some, List, [], ◌∷◌}
use my_template.Core.{
  not_found, validation, unauthorized, forbidden, storage, other, Result, ok, err,
}
use my_template.Storage.Spending.{
  Remains-all, Spends, Spends-pure, Spends-raise, Spends-lift, Spends-statement, Spends-query,
  Spends-if, Spends-bind,
}
use my_template.Disk.{Fs, Bytes}
use my_template.Attachments.{AttachmentMeta, NewAttachment}
use my_template.Attachments.Service.{
  Attachments, on_disk, outcome, found, get, remove_thumbnail, remove_files, delete, counted,
  delete_each, delete_for_record, flagged, with_image, stored, upload,
}
use my_template.Attachments.Image.{Libraries, detect_mime}

pub on_disk-Spends : {A : Type 0} (act : Fs A) → Spends (on_disk act)
unfolding on_disk
on_disk-Spends act = record { from = λ db. Remains-all db.faults }

outcome-Spends : {A : Type 0} (act : Attachments A) → Spends act → Spends (outcome act)
unfolding outcome
outcome-Spends act g = record { from = λ db. g.from db }

get-Spends : (id : ℕ) → Spends (get id)
unfolding get found
get-Spends id = Spends-bind _ _ (Spends-query _) found_meta
  where
    found_meta : (row : Option AttachmentMeta) → Spends (found id row)
    found_meta none = Spends-raise _
    found_meta (some meta) = Spends-pure meta

module _ (base_dir : String) where
  remove_thumbnail-Spends :
      (id : ℕ) (meta : AttachmentMeta) (has : Bool) → Spends (remove_thumbnail base_dir id meta has)
  unfolding remove_thumbnail
  remove_thumbnail-Spends id meta false = Spends-pure meta
  remove_thumbnail-Spends id meta true = Spends-bind _ _ (on_disk-Spends _) λ gone. Spends-pure meta

  remove_files-Spends : (id : ℕ) (meta : AttachmentMeta) → Spends (remove_files base_dir id meta)
  unfolding remove_files
  remove_files-Spends id meta =
      Spends-bind _ _ (on_disk-Spends _) λ gone. remove_thumbnail-Spends id meta meta.has_thumbnail

  pub delete-Spends : (id : ℕ) → Spends (delete base_dir id)
  unfolding delete
  delete-Spends id = Spends-bind _ _ (get-Spends id) λ meta.
      Spends-bind _ _ (Spends-statement _)
        λ rows. Spends-if _ _ _ (Spends-raise _) (remove_files-Spends id meta)

  counted-Spends :
      (rest : ℕ → Attachments ℕ) (deleted : ℕ) (gone : Result AttachmentMeta)
      → ((n : ℕ) → Spends (rest n))
      → Spends (counted base_dir rest deleted gone)
  unfolding counted
  counted-Spends rest deleted (ok meta) g = g _
  counted-Spends rest deleted (err (not_found resource id)) g = g deleted
  counted-Spends rest deleted (err (validation es)) g = Spends-raise _
  counted-Spends rest deleted (err unauthorized) g = Spends-raise _
  counted-Spends rest deleted (err forbidden) g = Spends-raise _
  counted-Spends rest deleted (err (storage text)) g = Spends-raise _
  counted-Spends rest deleted (err (other text)) g = Spends-raise _

  delete_each-Spends : (ids : List ℕ) (deleted : ℕ) → Spends (delete_each base_dir ids deleted)
  unfolding delete_each
  delete_each-Spends [] deleted = Spends-pure deleted
  delete_each-Spends (id ∷ rest) deleted =
      Spends-bind _ _ (outcome-Spends _ (delete-Spends id))
        λ gone. counted-Spends _ deleted gone (delete_each-Spends rest)

  pub delete_for_record-Spends :
      (resource resource_id : String) → Spends (delete_for_record base_dir resource resource_id)
  unfolding delete_for_record
  delete_for_record-Spends resource resource_id =
      Spends-bind _ _ (Spends-query _) λ found_ids. delete_each-Spends found_ids 0

module _ {Picture : Type 0} (lib : Libraries Picture) (base_dir : String) (now : ℕ) where
  flagged-Spends :
      (meta : AttachmentMeta) (wrote : Result (Unit {0}))
      → Spends (flagged lib base_dir now meta wrote)
  unfolding flagged
  flagged-Spends meta (err e) = Spends-pure meta
  flagged-Spends meta (ok wrote) = Spends-bind _ _ (Spends-statement _) λ done. Spends-pure _

  with_image-Spends :
      (meta : AttachmentMeta) (image : Option Bytes)
      → Spends (with_image lib base_dir now meta image)
  unfolding with_image
  with_image-Spends meta none = Spends-pure meta
  with_image-Spends meta (some thumb_bytes) =
      Spends-bind _ _ (outcome-Spends _ (on_disk-Spends _)) (flagged-Spends meta)

  stored-Spends :
      (input : NewAttachment) (mime : String) (meta : AttachmentMeta) (wrote : Result (Unit {0}))
      → Spends (stored lib base_dir now input mime meta wrote)
  unfolding stored
  stored-Spends input mime meta (err write_err) =
      Spends-bind _ _ (outcome-Spends _ (Spends-statement _)) λ cleaned. Spends-raise write_err
  stored-Spends input mime meta (ok wrote) =
      Spends-if _ _ _ (with_image-Spends meta _) (Spends-pure meta)

  pub upload-Spends : (input : NewAttachment) → Spends (upload lib base_dir now input)
  unfolding upload
  upload-Spends input = Spends-bind _ _ (Spends-lift _) λ named.
      Spends-bind _ _ (Spends-lift _) λ sized. Spends-bind _ _ (Spends-statement _) λ meta.
        Spends-bind _ _ (outcome-Spends _ (on_disk-Spends _))
          (stored-Spends input (detect_mime lib input.bytes) meta)
