-- ===== src/Attachments/Delete.antt =====
-- lib.rs of banto-attachments, `delete` and the reads, whichever operations on the files fail.
use my_template.Prelude.{
  ℕ, ◌≡◌, refl, ◌∙◌, String, Bool, true, false, none, some, Option-cases, inl, inr, to_string,
}
use my_template.Core.{not_found, ok, err}
use my_template.Disk.{Disk, remove_file}
use my_template.Disk.Ensures.{removed}
use my_template.Storage.Ensures.{Post}
use my_template.Storage.Flawless.{
  Flawless, Flawless-pure, Flawless-raise, Flawless-then, Flawless-query, Flawless-bind,
}
use my_template.Storage.Rows.{find_row, drop_row}
use my_template.Attachments.{AttachmentMeta, Attached, meta_id}
use my_template.Attachments.Files.{body_path, thumbnail_path}
use my_template.Attachments.Service.{
  delete_meta, found, get, remove_thumbnail, remove_files, delete,
}
use my_template.Attachments.Flawless.{Flawless-attempt}
use my_template.Attachments.Upload.{OthersKept}

module _ (base_dir : String) (id : ℕ) where
  -- What a deletion has done, or left as it was.
  abbrev pub Deletes : Attached → Post Attached AttachmentMeta
  Deletes t (ok meta) t' =
      (find_row meta_id id t.metas.rows ≡ some meta)
      × (t'.metas ≡ record t.metas { rows = drop_row meta_id id t.metas.rows })
      × OthersKept base_dir id t.disk.files t'.disk.files
  Deletes t (err e) t' =
      (find_row meta_id id t.metas.rows ≡ none)
      × (e ≡ not_found "attachments" (to_string id))
      × (t'.metas ≡ t.metas)
      × (t'.disk.files ≡ t.disk.files)

  module _ (t : Attached) where
    abbrev dropped : Disk → Attached
    dropped disk = record {
      metas = record t.metas { rows = drop_row meta_id id t.metas.rows };
      disk = disk;
    }

    remove_thumbnail_lem :
        (meta : AttachmentMeta) (has_thumbnail : Bool) (disk : Disk)
        → find_row meta_id id t.metas.rows ≡ some meta
        → OthersKept base_dir id t.disk.files disk.files
        → Flawless (dropped disk) (remove_thumbnail base_dir id meta has_thumbnail) (Deletes t)
    unfolding remove_thumbnail
    remove_thumbnail_lem meta false disk f kept = Flawless-pure meta (f, refl, kept)
    remove_thumbnail_lem meta true disk f kept =
        Flawless-attempt (remove_file (thumbnail_path base_dir id)) _
          (λ files. OthersKept base_dir id t.disk.files files) (λ fault q b h. kept q b h)
          (λ q b h. removed _ q _ h ∙ kept q b h) λ disk' kept'. Flawless-pure meta (f, refl, kept')

    remove_files_lem :
        (meta : AttachmentMeta)
        → find_row meta_id id t.metas.rows ≡ some meta
        → Flawless (dropped t.disk) (remove_files base_dir id meta) (Deletes t)
    unfolding remove_files
    remove_files_lem meta f =
        Flawless-attempt (remove_file (body_path base_dir id)) _
          (λ files. OthersKept base_dir id t.disk.files files) (λ fault q b h. refl)
          (λ q b h. removed _ q _ b)
          λ disk kept. remove_thumbnail_lem meta meta.has_thumbnail disk f kept

    pub delete-Deletes : Flawless t (delete base_dir id) (Deletes t)
    unfolding delete get delete_meta found
    delete-Deletes = Flawless-bind _ _ (
        Flawless-query _ _ (elim (Option-cases (find_row meta_id id t.metas.rows)) [
          | inl f ↦ rw f (Flawless-raise _ (f, refl, refl, refl))
          | inr (meta, f) ↦
              rw f (Flawless-pure meta (Flawless-then _ _ (rw f (remove_files_lem meta f))))
        ]))
