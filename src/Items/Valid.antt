-- ===== src/Items/Valid.antt =====
-- items.rs: the well-formed stores of items.
use my_template.Prelude.{
  ℕ, suc, ◌≤◌, ◌≡◌, ◌≢◌, inl, inr, refl, String, false, Option, none, some, List, [], ◌∷◌, ◌++◌,
  arith, trim, char_count, pos, ltb_ℤ,
}
use my_template.Core.{FieldError, validation, ok, err}
use my_template.Storage.Rows.{DistinctIds, IdsBelow, AllRows}
use my_template.Storage.Rows.Laws.{
  DistinctIds-snoc, IdsBelow-snoc, AllRows-snoc, DistinctIds-change_row, IdsBelow-change_row,
  AllRows-change_row, DistinctIds-drop_row, IdsBelow-drop_row, AllRows-drop_row,
}
use my_template.Items.Input.{
  ItemInput, validate_item_input, validate_item_input-cases, validate_item_input-IsAcceptable,
}
use my_template.Items.Service.{
  Item, Store, item_id, set_fields, new_item, insert_item, update_item, delete_item,
}
use my_template.Items.Import.{
  ItemImportRow, ImportRowError, input_of, row_error, row_errors, update_counting,
}
use my_template.Items.Import.Atomic.{apply_row, apply_all}

abbrev pub IsStored : Item → Type 0
IsStored r =
    (1 ≤ char_count r.name)
    × (char_count r.name ≤ 40)
    × (ltb_ℤ r.price (pos 0) ≡ false)
    × (ltb_ℤ (pos 99999) r.price ≡ false)
    × (ltb_ℤ r.stock (pos 0) ≡ false)

pub record IsValid (t : Store) : Type 0 where
  pub distinct : DistinctIds item_id t.items.rows
  pub below : IdsBelow item_id t.items.next_id t.items.rows
  pub stored : AllRows IsStored t.items.rows

module _ (input : ItemInput) (accepted : validate_item_input input ≡ ok tt) (now : String) where
  IsStored-new : (id : ℕ) → IsStored (new_item id (trim input.name) input.price input.stock now)
  IsStored-new id =
      let a = (validate_item_input-IsAcceptable input).0 accepted in
      (a.named, a.short, a.price_min, a.price_max, a.stocked)

  pub insert-IsValid :
      (t : Store)
      → IsValid t
      → IsValid (insert_item (trim input.name) input.price input.stock now t).1
  unfolding insert_item
  insert-IsValid t v = record {
    distinct =
        DistinctIds-snoc item_id t.items.next_id t.items.rows _ v.distinct v.below (omega arith);
    below = IdsBelow-snoc item_id t.items.next_id t.items.rows _ v.below (omega arith);
    stored = AllRows-snoc IsStored t.items.rows _ v.stored (IsStored-new t.items.next_id);
  }

  module _ (t : Store) (v : IsValid t) (id : ℕ) where
    pub update-IsValid : IsValid (update_item id (trim input.name) input.price input.stock now t).1
    unfolding update_item
    update-IsValid =
        let change = set_fields (trim input.name) input.price input.stock now in
        record {
          distinct = DistinctIds-change_row item_id id change (λ r. refl) t.items.rows v.distinct;
          below =
              IdsBelow-change_row item_id id change (λ r. refl) t.items.next_id t.items.rows
                v.below;
          stored =
              AllRows-change_row item_id IsStored id change t.items.rows (λ r p. IsStored-new r.id)
                v.stored;
        }

    pub update_counting-IsValid :
        IsValid (update_counting id (trim input.name) input.price input.stock now t).1
    unfolding update_counting
    update_counting-IsValid =
        let change = set_fields (trim input.name) input.price input.stock now in
        record {
          distinct = DistinctIds-change_row item_id id change (λ r. refl) t.items.rows v.distinct;
          below =
              IdsBelow-change_row item_id id change (λ r. refl) t.items.next_id t.items.rows
                v.below;
          stored =
              AllRows-change_row item_id IsStored id change t.items.rows (λ r p. IsStored-new r.id)
                v.stored;
        }

pub delete-IsValid : (t : Store) → IsValid t → (id : ℕ) → IsValid (delete_item id t).1
unfolding delete_item
delete-IsValid t v id = record {
  distinct = DistinctIds-drop_row item_id id t.items.rows v.distinct;
  below = IdsBelow-drop_row item_id t.items.next_id id t.items.rows v.below;
  stored = AllRows-drop_row item_id IsStored id t.items.rows v.stored;
}

-- No error among the rows: each row is acceptable.
abbrev pub Accepted : List ItemImportRow → Type 0
Accepted [] = Unit
Accepted (row ∷ rows) = (validate_item_input (input_of row) ≡ ok tt) × Accepted rows

row-Accepted :
    (i : ℕ) (row : ItemImportRow) (rest : List ImportRowError)
    → row_error i (validate_item_input (input_of row)) ++ rest ≡ []
    → (validate_item_input (input_of row) ≡ ok tt) × (rest ≡ [])
unfolding row_error
row-Accepted i row rest e = elim (validate_item_input-cases (input_of row)) [
  | inl good ↦ (good, rw good at e)
  | inr (es, bad) ↦ absurd (filled es (rw bad at e))
]
  where
    filled : (es : List FieldError) → row_error i (err (validation es)) ++ rest ≢ []
    filled es h = cc h

pub rows-Accepted : (i : ℕ) (rows : List ItemImportRow) → row_errors i rows ≡ [] → Accepted rows
unfolding row_errors
rows-Accepted i [] e = tt
rows-Accepted i (row ∷ rows) e =
    let (good, rest) = row-Accepted i row (row_errors (suc i) rows) e in
    (good, rows-Accepted (suc i) rows rest)

apply_row-IsValid :
    (now : String) (row : ItemImportRow) (id : Option ℕ) (t : Store)
    → validate_item_input (input_of row) ≡ ok tt
    → IsValid t
    → IsValid (apply_row now row id t)
apply_row-IsValid now row (some id) t good v =
    update_counting-IsValid (input_of row) good now t v id
apply_row-IsValid now row none t good v = insert-IsValid (input_of row) good now t v

pub apply_all-IsValid :
    (now : String) (rows : List ItemImportRow) (t : Store)
    → Accepted rows
    → IsValid t
    → IsValid (apply_all now rows t)
apply_all-IsValid now [] t a v = v
apply_all-IsValid now (row ∷ rows) t a v =
    apply_all-IsValid now rows (apply_row now row row.id t) a.1
      (apply_row-IsValid now row row.id t a.0 v)
