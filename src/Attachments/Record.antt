-- ===== src/Attachments/Record.antt =====
-- lib.rs of banto-attachments, `delete_for_record`: no attachment of the record is left, and those of others are.
use mathlib.Core.Path.{subst}
use my_template.Prelude.{
  ℕ, suc, ◌+◌, ◌≡◌, ◌≢◌, refl, sym, ap, ◌∙◌, String, str_eq, ◌&&◌, none, some, List, [], ◌∷◌,
  length, Bool-cases, inl, inr, arith, ◌==◌, if◌then◌else◌,
}
use my_template.Core.{Result, ok, err}
use my_template.Storage.Flawless.{Flawless, Flawless-weaken, Flawless-pure, Flawless-query}
use my_template.Storage.Rows.{find_row, drop_row, NoRow, DistinctIds}
use my_template.Attachments.{AttachmentMeta, Attached, meta_id}
use my_template.Attachments.Service.{
  belongs, rows_of, ids, counted, delete, delete_each, delete_for_record,
}
use my_template.Attachments.Delete.{Deletes, delete-Deletes}
use my_template.Attachments.Flawless.{Flawless-outcome}
use my_template.Attachments.Valid.{IsValid, deleted-IsValid}
use my_template.Storage.Rows.Laws.{drop_row-absent}

-- One row after another.
abbrev drop_rows : List ℕ → List AttachmentMeta → List AttachmentMeta
drop_rows [] rows = rows
drop_rows (id ∷ rest) rows = drop_rows rest (drop_row meta_id id rows)

-- The rows of the other records: with another resource or another id of it.
unfoldable pub others_of : String → String → List AttachmentMeta → List AttachmentMeta
others_of resource resource_id [] = []
others_of resource resource_id (m ∷ rows) =
    if str_eq m.resource resource && str_eq m.resource_id resource_id
    then others_of resource resource_id rows
    else m ∷ others_of resource resource_id rows

drop_row-NoRow :
    (id : ℕ) (rows : List AttachmentMeta) → NoRow meta_id id rows → drop_row meta_id id rows ≡ rows
unfolding drop_row
drop_row-NoRow id [] free = refl
drop_row-NoRow id (m ∷ rows) free = ground (arith, free.0, drop_row-NoRow id rows free.1)

length-drop_row :
    (id : ℕ) (rows : List AttachmentMeta) (m : AttachmentMeta)
    → DistinctIds meta_id rows
    → find_row meta_id id rows ≡ some m
    → suc (length (drop_row meta_id id rows)) ≡ length rows
unfolding drop_row find_row
length-drop_row id [] m d f = absurd (cc f)
length-drop_row id (x ∷ rows) m d f = elim (Bool-cases (x.id == id)) [
  | inl e ↦
      let same : x.id ≡ id = ground arith in
      rw e (rw (drop_row-NoRow id rows (subst (λ i. NoRow meta_id i rows) same d.0)) refl)
  | inr e ↦ rw e (ap suc (length-drop_row id rows m d.1 (ground arith)))
]

abbrev AllNe : ℕ → List ℕ → Type 0
AllNe id [] = Unit
AllNe id (i ∷ rest) = (id ≢ i) × AllNe id rest

drop_rows-cons :
    (m : AttachmentMeta) (is : List ℕ) (rows : List AttachmentMeta)
    → AllNe m.id is
    → drop_rows is (m ∷ rows) ≡ m ∷ drop_rows is rows
unfolding drop_row
drop_rows-cons m [] rows ne = refl
drop_rows-cons m (i ∷ is) rows ne =
    let kept : drop_row meta_id i (m ∷ rows) ≡ m ∷ drop_row meta_id i rows = ground (arith, ne.0) in
    ap (drop_rows is) kept ∙ drop_rows-cons m is (drop_row meta_id i rows) ne.1

module _ (resource resource_id : String) where
  ids-AllNe :
      (id : ℕ) (rows : List AttachmentMeta)
      → NoRow meta_id id rows
      → AllNe id (ids (rows_of resource resource_id rows))
  unfolding ids rows_of
  ids-AllNe id [] free = tt
  ids-AllNe id (m ∷ rows) free = elim (Bool-cases (belongs resource resource_id m)) [
    | inl e ↦ rw e ((λ same. free.0 (sym same)), ids-AllNe id rows free.1)
    | inr e ↦ rw e (ids-AllNe id rows free.1)
  ]

  drop_rows-ids :
      (rows : List AttachmentMeta)
      → DistinctIds meta_id rows
      → drop_rows (ids (rows_of resource resource_id rows)) rows
        ≡ others_of resource resource_id rows
  unfolding ids rows_of others_of drop_row
  drop_rows-ids [] d = refl
  drop_rows-ids (m ∷ rows) d = elim (Bool-cases (belongs resource resource_id m)) [
    | inl e ↦
        let first : drop_row meta_id m.id (m ∷ rows) ≡ rows =
          ground (arith, drop_row-NoRow m.id rows d.0) in
        rw e
          (ap (drop_rows (ids (rows_of resource resource_id rows))) first ∙ drop_rows-ids rows d.1)
    | inr e ↦ rw e (
        drop_rows-cons m (ids (rows_of resource resource_id rows)) rows (ids-AllNe m.id rows d.0)
        ∙ ap (λ rest. m ∷ rest) (drop_rows-ids rows d.1))
  ]

  length-rows_of :
      (rows : List AttachmentMeta)
      → length (rows_of resource resource_id rows) + length (others_of resource resource_id rows)
        ≡ length rows
  unfolding rows_of others_of
  length-rows_of [] = refl
  length-rows_of (m ∷ rows) = ground (arith, length-rows_of rows)

module _ (base_dir : String) where
  -- The ids of a list are gone, and the count is that of the rows that are.
  abbrev EachGone : List ℕ → ℕ → Attached → Result ℕ → Attached → Type 0
  EachGone is deleted t (err e) t' = ⊥
  EachGone is deleted t (ok n) t' =
      (n + length t'.metas.rows ≡ deleted + length t.metas.rows)
      × (t'.metas.rows ≡ drop_rows is t.metas.rows)
      × IsValid base_dir t'

  module _ (id : ℕ) (is : List ℕ) (deleted : ℕ) (t t' : Attached) (v : IsValid base_dir t) where
    one_more :
        (meta : AttachmentMeta)
        → find_row meta_id id t.metas.rows ≡ some meta
        → t'.metas ≡ record t.metas { rows = drop_row meta_id id t.metas.rows }
        → (r : Result ℕ) (t'' : Attached) → EachGone is (suc deleted) t' r t''
        → EachGone (id ∷ is) deleted t r t''
    one_more meta f same (err e) t'' h = h
    one_more meta f same (ok n) t'' h =
        let rows : t'.metas.rows ≡ drop_row meta_id id t.metas.rows = ap (λ m. m.rows) same in
        let fewer = length-drop_row id t.metas.rows meta v.distinct f in
        let counts : length t'.metas.rows ≡ length (drop_row meta_id id t.metas.rows) =
          ap length rows in
        (omega (arith, h.0, fewer, counts), h.1 ∙ ap (drop_rows is) rows, h.2)

    none_more :
        (find_row meta_id id t.metas.rows ≡ none)
        → t'.metas ≡ t.metas
        → (r : Result ℕ) (t'' : Attached) → EachGone is deleted t' r t''
        → EachGone (id ∷ is) deleted t r t''
    none_more f same (err e) t'' h = h
    none_more f same (ok n) t'' h =
        let rows : t'.metas.rows ≡ t.metas.rows = ap (λ m. m.rows) same in
        (
          h.0 ∙ ap (λ rs. deleted + length rs) rows,
          h.1 ∙ ap (drop_rows is) (rows ∙ sym (drop_row-absent meta_id id t.metas.rows f)),
          h.2,
        )

    counted-EachGone :
        ((deleted : ℕ) → Flawless t' (delete_each base_dir is deleted) (EachGone is deleted t'))
        → (r : Result AttachmentMeta) → Deletes base_dir id t r t'
        → Flawless t'
            (counted base_dir (delete_each base_dir is) deleted r)
            (EachGone (id ∷ is) deleted t)
    unfolding counted
    counted-EachGone rest (ok meta) h =
        Flawless-weaken _ (rest (suc deleted)) (one_more meta h.0 h.1)
    counted-EachGone rest (err e) h =
        subst
          (λ e.
            Flawless t' (counted base_dir (delete_each base_dir is) deleted (err e))
              (EachGone (id ∷ is) deleted t))
          (sym h.1) (Flawless-weaken _ (rest deleted) (none_more h.0 h.2))

  delete_each-EachGone :
      (is : List ℕ) (deleted : ℕ) (t : Attached)
      → IsValid base_dir t
      → Flawless t (delete_each base_dir is deleted) (EachGone is deleted t)
  unfolding delete_each
  delete_each-EachGone [] deleted t v = Flawless-pure deleted (refl, refl, v)
  delete_each-EachGone (id ∷ is) deleted t v =
      Flawless-outcome (delete base_dir id) _ (delete-Deletes base_dir id t) λ r t' h.
        counted-EachGone id is deleted t t' v
          (λ more. delete_each-EachGone is more t' (deleted-IsValid base_dir id t v r t' h)) r h

  module _ (resource resource_id : String) (t : Attached) (v : IsValid base_dir t) where
    abbrev pub Cleared : Result ℕ → Attached → Type 0
    Cleared (err e) t' = ⊥
    Cleared (ok n) t' =
        (n ≡ length (rows_of resource resource_id t.metas.rows))
        × (t'.metas.rows ≡ others_of resource resource_id t.metas.rows)
        × IsValid base_dir t'

    cleared :
        (r : Result ℕ) (t' : Attached)
        → EachGone (ids (rows_of resource resource_id t.metas.rows)) 0 t r t'
        → Cleared r t'
    cleared (err e) t' h = h
    cleared (ok n) t' h =
        let rows = h.1 ∙ drop_rows-ids resource resource_id t.metas.rows v.distinct in
        let counts : length t'.metas.rows ≡ length (others_of resource resource_id t.metas.rows) =
          ap length rows in
        (omega (arith, h.0, counts, length-rows_of resource resource_id t.metas.rows), rows, h.2)

    -- From a store whose rows have their files, and where every statement runs, the deletion of a record's
    -- attachments succeeds whichever operations on the files fail: it answers how many rows the record
    -- had, the rows that are left are those of the other records, and each has its files.
    pub delete_for_record-Cleared :
        Flawless t (delete_for_record base_dir resource resource_id) Cleared
    unfolding delete_for_record
    delete_for_record-Cleared = Flawless-query _ _ (
        Flawless-weaken _
          (delete_each-EachGone (ids (rows_of resource resource_id t.metas.rows)) 0 t v) cleared)
