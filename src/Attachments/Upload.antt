-- ===== src/Attachments/Upload.antt =====
-- lib.rs of banto-attachments, `upload`: what it leaves of the rows and of the files, whichever operations on the
-- files fail.
use my_template.Prelude.{
  ℕ, suc, ◌≤◌, ◌≡◌, ◌≢◌, refl, sym, ◌∙◌, String, Bool, true, false, Option, none, some, [], ◌∷◌,
  ◌++◌, length, Bool-cases, inl, inr, arith,
}
use my_template.Core.{Result, ok, err}
use my_template.Disk.{Bytes, Disk, File, Files, lookup, exists}
use my_template.Storage.Ensures.{Post}
use my_template.Storage.Flawless.{
  Flawless, Flawless-pure, Flawless-raise, Flawless-then, Flawless-lift,
}
use my_template.Storage.Rows.{NoRow}
use my_template.Storage.Rows.Laws.{change_row-snoc, drop_row-snoc}
use my_template.Dates.{iso_datetime_utc}
use my_template.Attachments.{AttachmentMeta, NewAttachment, Attached, meta_id}
use my_template.Attachments.Files.{body_path, thumbnail_path}
use my_template.Attachments.Image.{
  Libraries, detect_mime, sha256_hex, is_thumbnailable_mime, make_thumbnail,
}
use my_template.Attachments.Service.{
  insert_meta, delete_meta, flag_thumbnail, with_thumbnail, stored, flagged, with_image, upload,
}
use my_template.Attachments.Flawless.{Flawless-outcome-on_disk, Flawless-outcome-statement}
use my_template.Attachments.Paths.{
  Wrote, write_body-Wrote, write_thumbnail-Wrote, body_path-thumbnail_path,
}

-- No file but those of one id has changed.
abbrev pub OthersKept : String → ℕ → Files → Files → Type 0
OthersKept base_dir id files files' =
    (q : String)
    → body_path base_dir id ≢ q
    → thumbnail_path base_dir id ≢ q
    → lookup q files' ≡ lookup q files

module _ {Picture : Type 0} (lib : Libraries Picture) (base_dir : String) (now : ℕ)
    (input : NewAttachment) where
  -- A row as the input, the digest and the first bytes make it.
  abbrev pub new_meta : ℕ → Bool → AttachmentMeta
  new_meta id has_thumbnail = record {
    id = id;
    resource = input.resource;
    resource_id = input.resource_id;
    file_name = input.file_name;
    mime = detect_mime lib input.bytes;
    size_bytes = length input.bytes;
    sha256 = sha256_hex lib input.bytes;
    has_thumbnail = has_thumbnail;
    created_at = iso_datetime_utc now;
    created_by = input.created_by;
  }

  -- What an upload that succeeds has done.
  pub record IsUploaded (t t' : Attached) (meta : AttachmentMeta) : Type 0 where
    pub has_thumbnail : Bool
    pub described : meta ≡ new_meta t.metas.next_id has_thumbnail
    pub appended : t'.metas.rows ≡ t.metas.rows ++ meta ∷ []
    pub numbered : t'.metas.next_id ≡ suc t.metas.next_id
    pub body :
        lookup (body_path base_dir t.metas.next_id) t'.disk.files
        ≡ some (record { bytes = input.bytes; modified = now })
    pub thumbed :
        has_thumbnail ≡ true → exists (thumbnail_path base_dir t.metas.next_id) t'.disk.files ≡ true
    pub others : OthersKept base_dir t.metas.next_id t.disk.files t'.disk.files

  -- What one that fails has left.
  pub record IsUndone (t t' : Attached) : Type 0 where
    pub rows : t'.metas.rows ≡ t.metas.rows
    pub numbered : t.metas.next_id ≤ t'.metas.next_id
    pub others : OthersKept base_dir t.metas.next_id t.disk.files t'.disk.files

  abbrev pub Uploads : Attached → Post Attached AttachmentMeta
  Uploads t (ok meta) t' = IsUploaded t t' meta
  Uploads t (err e) t' = IsUndone t t'

  undone : (t : Attached) → IsUndone t t
  undone t = record { rows = refl; numbered = omega arith; others = λ q b h. refl }

  module _ (t : Attached) (fresh : NoRow meta_id t.metas.next_id t.metas.rows) where
    abbrev id : ℕ
    id = t.metas.next_id

    abbrev inserted : Disk → Attached
    inserted disk = record {
      metas = record { rows = t.metas.rows ++ new_meta id false ∷ []; next_id = suc id };
      disk = disk;
    }

    -- The files once the body is there.
    abbrev HasBody : Files → Type 0
    HasBody files =
        (lookup (body_path base_dir id) files
          ≡ some (record { bytes = input.bytes; modified = now }))
        × OthersKept base_dir id t.disk.files files

    plain : (disk : Disk) → HasBody disk.files → IsUploaded t (inserted disk) (new_meta id false)
    plain disk h = record {
      has_thumbnail = false;
      described = refl;
      appended = refl;
      numbered = refl;
      body = h.0;
      thumbed = λ e. absurd (cc e);
      others = h.1;
    }

    -- The two files of the attachment written one after the other.
    both :
        (before after : Files) (thumb : Bytes) (r : Result (Unit {0}))
        → HasBody before
        → Wrote now (thumbnail_path base_dir id) thumb before r after
        → HasBody after
    both before after thumb r h w = (
      w.0 (body_path base_dir id) (λ e. body_path-thumbnail_path base_dir id id (sym e)) ∙ h.0,
      λ q b th. w.0 q th ∙ h.1 q b th,
    )

    there :
        (p : String) (files : Files) (file : File)
        → lookup p files ≡ some file
        → exists p files ≡ true
    unfolding exists
    there p files file e = rw e refl

    flagged_lem :
        (thumb : Bytes) (r : Result (Unit {0})) (before disk : Disk)
        → HasBody before.files
        → Wrote now (thumbnail_path base_dir id) thumb before.files r disk.files
        → Flawless (inserted disk) (flagged lib base_dir now (new_meta id false) r) (Uploads t)
    unfolding flagged flag_thumbnail
    flagged_lem thumb (err e) before disk h w =
        Flawless-pure _ (plain disk (both before.files disk.files thumb (err e) h w))
    flagged_lem thumb (ok wrote) before disk h w =
        let kept = both before.files disk.files thumb (ok tt) h w in
        Flawless-then _ _ (
          Flawless-pure _ (record {
            has_thumbnail = true;
            described = refl;
            appended =
                change_row-snoc meta_id id with_thumbnail t.metas.rows (new_meta id false) fresh
                  refl;
            numbered = refl;
            body = kept.0;
            thumbed = λ e. there _ disk.files _ (w.1 refl);
            others = kept.1;
          }))

    with_image_lem :
        (thumb : Option Bytes) (disk : Disk)
        → HasBody disk.files
        → Flawless
            (inserted disk)
            (with_image lib base_dir now (new_meta id false) thumb)
            (Uploads t)
    unfolding with_image
    with_image_lem none disk h = Flawless-pure _ (plain disk h)
    with_image_lem (some thumb) disk h =
        Flawless-outcome-on_disk _ _ (write_thumbnail-Wrote base_dir now id thumb disk.files)
          λ r after w. flagged_lem thumb r disk after h w

    stored_lem :
        (r : Result (Unit {0})) (disk : Disk)
        → Wrote now (body_path base_dir id) input.bytes t.disk.files r disk.files
        → Flawless
            (inserted disk)
            (stored lib base_dir now input (detect_mime lib input.bytes) (new_meta id false) r)
            (Uploads t)
    unfolding stored delete_meta
    stored_lem (err e) disk w = Flawless-outcome-statement _ _ (
        Flawless-raise e (record {
          rows = drop_row-snoc meta_id id t.metas.rows (new_meta id false) fresh refl;
          numbered = omega arith;
          others = λ q b h. w.0 q b;
        }))
    stored_lem (ok wrote) disk w =
        elim (Bool-cases (is_thumbnailable_mime (detect_mime lib input.bytes))) [
          | inl e ↦
              rw e
                (with_image_lem (make_thumbnail lib input.bytes) disk (w.1 refl, λ q b h. w.0 q b))
          | inr e ↦ rw e (Flawless-pure _ (plain disk (w.1 refl, λ q b h. w.0 q b)))
        ]

    -- From a store in which no row has the next id, and where every statement runs: an upload that succeeds
    -- has appended the row that the input describes, its body file holds the bytes of the input, and
    -- there is a thumbnail if the row says so; one that fails has left the rows as they were. Either
    -- way, whichever operations on the files fail, no other file has changed.
    pub upload-Uploads : Flawless t (upload lib base_dir now input) (Uploads t)
    unfolding upload insert_meta
    upload-Uploads =
        Flawless-lift _ _ (λ e bad. undone t)
          λ named good.
            Flawless-lift _ _ (λ e bad. undone t)
              λ sized fine. Flawless-then _ _ (
                Flawless-outcome-on_disk _ _ (write_body-Wrote base_dir now id input.bytes _)
                  stored_lem)
