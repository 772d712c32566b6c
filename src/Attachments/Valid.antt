-- ===== src/Attachments/Valid.antt =====
-- lib.rs of banto-attachments: every row has its body file, and its thumbnail where it says so; uploads and
-- deletions keep it so, whichever operations on the files fail.
use mathlib.Core.Path.{subst}
use my_template.Prelude.{
  ℕ, suc, ◌≡◌, ◌≢◌, refl, sym, ap, ◌∙◌, String, true, some, List, [], ◌∷◌, length, Bool-cases, inl,
  inr, arith, ◌==◌,
}
use my_template.Core.{Result, ok, err}
use my_template.Disk.{File, Files, lookup, exists}
use my_template.Storage.Flawless.{Flawless, Flawless-weaken}
use my_template.Storage.Rows.{drop_row, NoRow, DistinctIds, IdsBelow, AllRows}
use my_template.Storage.Rows.Laws.{
  DistinctIds-snoc, DistinctIds-drop_row, IdsBelow-snoc, IdsBelow-drop_row, IdsBelow-NoRow,
  IdsBelow-weaken, AllRows-snoc, AllRows-drop_row,
}
use my_template.Attachments.{AttachmentMeta, NewAttachment, Attached, meta_id}
use my_template.Attachments.Files.{body_path, thumbnail_path}
use my_template.Attachments.Image.{Libraries}
use my_template.Attachments.Service.{upload, delete}
use my_template.Attachments.Upload.{IsUploaded, Uploads, OthersKept, upload-Uploads}
use my_template.Attachments.Delete.{Deletes, delete-Deletes}
use my_template.Attachments.Paths.{body_path-ne, thumbnail_path-ne, body_path-thumbnail_path}

NoRow-dropped : (id : ℕ) (rows : List AttachmentMeta) → NoRow meta_id id (drop_row meta_id id rows)
unfolding drop_row
NoRow-dropped id [] = tt
NoRow-dropped id (m ∷ rows) = elim (Bool-cases (m.id == id)) [
  | inl e ↦ rw (e, drop_row) (NoRow-dropped id rows)
  | inr e ↦ rw (e, drop_row) ((λ same. ground arith), NoRow-dropped id rows)
]

module _ (base_dir : String) where
  -- A row with the files that it speaks of.
  pub record IsKept (files : Files) (m : AttachmentMeta) : Type 0 where
    pub file : File
    pub body : lookup (body_path base_dir m.id) files ≡ some file
    pub sized : length file.bytes ≡ m.size_bytes
    pub thumbed : m.has_thumbnail ≡ true → exists (thumbnail_path base_dir m.id) files ≡ true

  pub record IsValid (t : Attached) : Type 0 where
    pub distinct : DistinctIds meta_id t.metas.rows
    pub below : IdsBelow meta_id t.metas.next_id t.metas.rows
    pub kept : AllRows (IsKept t.disk.files) t.metas.rows

  module _ (id : ℕ) (files files' : Files) (others : OthersKept base_dir id files files') where
    IsKept-one : (m : AttachmentMeta) → m.id ≢ id → IsKept files m → IsKept files' m
    unfolding exists
    IsKept-one m ne k = record {
      file = k.file;
      body =
          others (body_path base_dir m.id) (body_path-ne base_dir id m.id (λ e. ne (sym e)))
            (λ e. body_path-thumbnail_path base_dir m.id id (sym e))
          ∙ k.body;
      sized = k.sized;
      thumbed = λ has.
          rw
            (others (thumbnail_path base_dir m.id) (body_path-thumbnail_path base_dir id m.id)
              (thumbnail_path-ne base_dir id m.id (λ e. ne (sym e))))
            (k.thumbed has);
    }

    IsKept-rows :
        (rows : List AttachmentMeta)
        → NoRow meta_id id rows
        → AllRows (IsKept files) rows
        → AllRows (IsKept files') rows
    IsKept-rows [] free k = tt
    IsKept-rows (m ∷ rows) free k = (IsKept-one m free.0 k.0, IsKept-rows rows free.1 k.1)

  module _ {Picture : Type 0} (lib : Libraries Picture) (now : ℕ) (input : NewAttachment)
      (t : Attached) (v : IsValid t) where
    new_IsKept :
        (t' : Attached) (meta : AttachmentMeta)
        → IsUploaded lib base_dir now input t t' meta
        → IsKept t'.disk.files meta
    new_IsKept t' meta up =
        subst (IsKept t'.disk.files) (sym up.described)
          (record { file = _; body = up.body; sized = refl; thumbed = up.thumbed })

    uploaded-IsValid :
        (r : Result AttachmentMeta) (t' : Attached)
        → Uploads lib base_dir now input t r t'
        → IsValid t'
    uploaded-IsValid (err e) t' un = record {
      distinct = subst (DistinctIds meta_id) (sym un.rows) v.distinct;
      below = subst (IdsBelow meta_id t'.metas.next_id) (sym un.rows) (
          IdsBelow-weaken meta_id t.metas.next_id t'.metas.next_id t.metas.rows un.numbered
            v.below);
      kept = subst (AllRows (IsKept t'.disk.files)) (sym un.rows) (
          IsKept-rows t.metas.next_id t.disk.files t'.disk.files un.others t.metas.rows
            (IdsBelow-NoRow meta_id t.metas.next_id t.metas.rows v.below) v.kept);
    }
    uploaded-IsValid (ok meta) t' up =
        let same : meta.id ≡ t.metas.next_id = ap meta_id up.described in
        let fresh = IdsBelow-NoRow meta_id t.metas.next_id t.metas.rows v.below in
        record {
          distinct = subst (DistinctIds meta_id) (sym up.appended) (
              DistinctIds-snoc meta_id t.metas.next_id t.metas.rows meta v.distinct v.below
                (omega arith));
          below =
              subst (λ n. IdsBelow meta_id n t'.metas.rows) (sym up.numbered)
                (subst (IdsBelow meta_id (suc t.metas.next_id)) (sym up.appended)
                  (IdsBelow-snoc meta_id t.metas.next_id t.metas.rows meta v.below (omega arith)));
          kept = subst (AllRows (IsKept t'.disk.files)) (sym up.appended) (
              AllRows-snoc (IsKept t'.disk.files) t.metas.rows meta
                (IsKept-rows t.metas.next_id t.disk.files t'.disk.files up.others t.metas.rows fresh
                  v.kept)
                (new_IsKept t' meta up));
        }

    pub upload-IsValid : Flawless t (upload lib base_dir now input) (λ r t'. IsValid t')
    upload-IsValid =
        Flawless-weaken _
          (upload-Uploads lib base_dir now input t
            (IdsBelow-NoRow meta_id t.metas.next_id t.metas.rows v.below))
          uploaded-IsValid

  module _ (id : ℕ) (t : Attached) (v : IsValid t) where
    pub deleted-IsValid :
        (r : Result AttachmentMeta) (t' : Attached) → Deletes base_dir id t r t' → IsValid t'
    deleted-IsValid (err e) t' (none_there, told, same, files) = record {
      distinct = subst (λ m. DistinctIds meta_id m.rows) (sym same) v.distinct;
      below = subst (λ m. IdsBelow meta_id m.next_id m.rows) (sym same) v.below;
      kept =
          subst (λ m. AllRows (IsKept t'.disk.files) m.rows) (sym same)
            (subst (λ fs. AllRows (IsKept fs) t.metas.rows) (sym files) v.kept);
    }
    deleted-IsValid (ok meta) t' (f, same, others) = record {
      distinct =
          subst (λ m. DistinctIds meta_id m.rows) (sym same)
            (DistinctIds-drop_row meta_id id t.metas.rows v.distinct);
      below =
          subst (λ m. IdsBelow meta_id m.next_id m.rows) (sym same)
            (IdsBelow-drop_row meta_id t.metas.next_id id t.metas.rows v.below);
      kept =
          subst (λ m. AllRows (IsKept t'.disk.files) m.rows) (sym same)
            (IsKept-rows id t.disk.files t'.disk.files others (drop_row meta_id id t.metas.rows)
              (NoRow-dropped id t.metas.rows)
              (AllRows-drop_row meta_id (IsKept t.disk.files) id t.metas.rows v.kept));
    }

    pub delete-IsValid : Flawless t (delete base_dir id) (λ r t'. IsValid t')
    delete-IsValid = Flawless-weaken _ (delete-Deletes base_dir id t) deleted-IsValid
