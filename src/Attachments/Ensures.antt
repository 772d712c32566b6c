-- ===== src/Attachments/Ensures.antt =====
-- The reads of `AttachmentsService`, whichever statements and operations on the files fail.
use mathlib.Core.Path.{subst}
use my_template.Prelude.{
  ℕ, ◌≡◌, refl, ap, sym, String, Bool, true, false, Option-cases, inl, inr, if◌then◌else◌,
}
use my_template.Core.{Result, ok, err}
use my_template.Disk.{Bytes, Fs, io, read_file}
use my_template.Disk.Ensures as DiskEnsures
use my_template.Storage.{query, pure, ◌>>=◌}
use my_template.Storage.Ensures.{
  Post, Ensures, Goes, Ensures-bind, Ensures-query, Ensures-pure, Ensures-raise, Ensures-weaken,
  Ensures-statement,
}
use my_template.Storage.Rows.{find_row}
use my_template.Attachments.{AttachmentMeta, Attached, meta_id}
use my_template.Attachments.Files.{thumbnail_path}
use my_template.Attachments.Service.{
  Attachments, missing, on_disk, get, found, read_body, read_thumbnail, read_problem,
  list_for_record,
}
use my_template.Attachments.Reads.{read_file-same}

-- The rows and the files are as they were.
abbrev pub Same : {A : Type 0} → Attached → Post Attached A
Same t r t' = (t'.metas ≡ t.metas) × (t'.disk.files ≡ t.disk.files)

module _ (t : Attached) where
  on_disk-Same :
      {A : Type 0} (m : Fs A)
      → DiskEnsures.Ensures t.disk.files m (λ r files. files ≡ t.disk.files)
      → Ensures t (on_disk m) (Same t)
  unfolding on_disk
  on_disk-Same m p = record { from = λ fs. (refl, p.from t.disk.faults) }

  pub list_for_record-Same :
      (resource resource_id : String) → Ensures t (list_for_record resource resource_id) (Same t)
  unfolding list_for_record query
  list_for_record-Same resource resource_id =
      Ensures-statement _ (λ text. (refl, refl)) (refl, refl)

  get-Same : (id : ℕ) → Ensures t (get id) (λ r t'. t' ≡ t)
  unfolding get found
  get-Same id =
      Ensures-query _ _ (λ text. refl)
        (elim (Option-cases (find_row meta_id id t.metas.rows)) [
          | inl f ↦ rw f (Ensures-raise _ refl)
          | inr (meta, f) ↦ rw f (Ensures-pure meta refl)
        ])

  after_get :
      {A : Type 0} (id : ℕ) (next : AttachmentMeta → Attachments A)
      → ((meta : AttachmentMeta) → Ensures t (next meta) (Same t))
      → Ensures t (get id >>= next) (Same t)
  after_get id next good = Ensures-bind (get id) next (Ensures-weaken _ (get-Same id) goes)
    where
      goes : (r : Result AttachmentMeta) (t' : Attached) → t' ≡ t → Goes (Same t) next (r, t')
      goes (ok meta) t' same = subst (λ u. Ensures u (next meta) (Same t)) (sym same) (good meta)
      goes (err e) t' same = (ap (λ u. u.metas) same, ap (λ u. u.disk.files) same)

  pub read_body-Same : (base_dir : String) (id : ℕ) → Ensures t (read_body base_dir id) (Same t)
  unfolding read_body
  read_body-Same base_dir id = after_get id _ λ meta.
      Ensures-bind _ _ (Ensures-weaken _ (on_disk-Same _ (read_file-same _ _ _)) (goes meta))
    where
      goes :
          (meta : AttachmentMeta) (r : Result Bytes) (t' : Attached)
          → Same t r t'
          → Goes {A = AttachmentMeta × Bytes} (Same t) (λ bytes. pure (meta, bytes)) (r, t')
      goes meta (ok bytes) t' same = Ensures-pure _ same
      goes meta (err e) t' same = same

  pub read_thumbnail-Same :
      (base_dir : String) (id : ℕ) → Ensures t (read_thumbnail base_dir id) (Same t)
  unfolding read_thumbnail
  read_thumbnail-Same base_dir id = after_get id _ λ meta. shown meta.has_thumbnail
    where
      shown :
          (has_thumbnail : Bool)
          → Ensures t
              (if has_thumbnail
                then on_disk (
                    io
                      (read_problem "サムネイルの読み取りに失敗しました" id)
                      (read_file (thumbnail_path base_dir id)))
                else missing id)
              (Same t)
      shown true = on_disk-Same _ (read_file-same _ _ _)
      shown false = Ensures-raise _ (refl, refl)
