-- ===== src/Attachments/Reads.antt =====
-- lib.rs of banto-attachments: the reads leave the rows and the files as they are.
use mathlib.Core.Path.{subst}
use my_template.Prelude.{
  ℕ, ◌≡◌, refl, sym, String, Bool, true, false, Option-cases, inl, inr, if◌then◌else◌,
}
use my_template.Core.{BantoError, Result, ok, err}
use my_template.Disk.{Bytes, Disk, Files, IoError, io, read_file, lookup}
use my_template.Disk.Ensures
use my_template.Storage.{query, pure, statement, answer, ◌>>=◌}
use my_template.Storage.Flawless.{
  Flawless, Flawless-pure, Flawless-raise, Flawless-query, Flawless-bind, Goes,
}
use my_template.Storage.Rows.{find_row, AllRows}
use my_template.Attachments.{AttachmentMeta, Attached, meta_id}
use my_template.Attachments.Files.{thumbnail_path}
use my_template.Attachments.Service.{
  Attachments, missing, on_disk, get, found, read_body, read_thumbnail, read_problem,
  list_for_record,
}
use my_template.Attachments.Flawless.{at_disk, Flawless-on_disk, Flawless-files}
use my_template.Attachments.Valid.{IsKept, IsValid}

module _ (files : Files) where
  pub read_file-same :
      (problem : IoError → BantoError) (p : String)
      → Ensures.Ensures files (io problem (read_file p)) (λ r left. left ≡ files)
  read_file-same problem p = record {
    from =
        Ensures.io-from (read_file p) {files = files} (λ r left. left ≡ files) problem
          (λ fault. refl) (λ e bad. unread) (λ bytes run. unread);
  }
    where
      unread : ((read_file p).run files).1 ≡ files
      unread = elim (Option-cases (lookup p files)) [
        | inl e ↦ rw e refl
        | inr (file, e) ↦ rw e refl
      ]

module _ (base_dir : String) (t : Attached) (v : IsValid base_dir t) where
  at_files-IsValid : (disk : Disk) → disk.files ≡ t.disk.files → IsValid base_dir (at_disk t disk)
  at_files-IsValid disk same = record {
    distinct = v.distinct;
    below = v.below;
    kept = subst (λ files. AllRows (IsKept base_dir files) t.metas.rows) (sym same) v.kept;
  }

  after_get :
      {A : Type 0} (id : ℕ) (next : AttachmentMeta → Attachments A)
      → ((meta : AttachmentMeta) → Flawless t (next meta) (λ r t'. IsValid base_dir t'))
      → Flawless t (get id >>= next) (λ r t'. IsValid base_dir t')
  unfolding get found
  after_get id next good = Flawless-bind _ _ (
      Flawless-query _ _ (elim (Option-cases (find_row meta_id id t.metas.rows)) [
        | inl f ↦ rw f (Flawless-raise _ v)
        | inr (meta, f) ↦ rw f (Flawless-pure meta (good meta))
      ]))

  pub get-IsValid : (id : ℕ) → Flawless t (get id) (λ r t'. IsValid base_dir t')
  unfolding get found
  get-IsValid id = Flawless-query _ _ (elim (Option-cases (find_row meta_id id t.metas.rows)) [
    | inl f ↦ rw f (Flawless-raise _ v)
    | inr (meta, f) ↦ rw f (Flawless-pure meta v)
  ])

  pub list_for_record-IsValid :
      (resource resource_id : String)
      → Flawless t (list_for_record resource resource_id) (λ r t'. IsValid base_dir t')
  unfolding list_for_record query statement answer
  list_for_record-IsValid resource resource_id = record { from = v; clean = refl }

  pub read_body-IsValid :
      (id : ℕ) → Flawless t (read_body base_dir id) (λ r t'. IsValid base_dir t')
  unfolding read_body
  read_body-IsValid id =
      after_get id _
        λ meta. Flawless-on_disk _ _ (read_file-same _ _ _) λ r disk same. goes meta r disk same
    where
      goes :
          (meta : AttachmentMeta) (r : Result Bytes) (disk : Disk)
          → disk.files ≡ t.disk.files
          → Goes {A = AttachmentMeta × Bytes}
              (λ r t'. IsValid base_dir t')
              (λ bytes. pure (meta, bytes))
              (r, at_disk t disk)
      goes meta (ok bytes) disk same = Flawless-pure _ (at_files-IsValid disk same)
      goes meta (err e) disk same = at_files-IsValid disk same

  pub read_thumbnail-IsValid :
      (id : ℕ) → Flawless t (read_thumbnail base_dir id) (λ r t'. IsValid base_dir t')
  unfolding read_thumbnail
  read_thumbnail-IsValid id = after_get id _ λ meta. shown meta.has_thumbnail
    where
      shown :
          (has_thumbnail : Bool)
          → Flawless t
              (if has_thumbnail
                then on_disk (
                    io
                      (read_problem "サムネイルの読み取りに失敗しました" id)
                      (read_file (thumbnail_path base_dir id)))
                else missing id)
              (λ r t'. IsValid base_dir t')
      shown true =
          Flawless-files _ (read_file-same _ _ _) (λ r disk same. at_files-IsValid disk same)
      shown false = Flawless-raise _ v
