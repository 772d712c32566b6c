-- ===== src/Storage/Rows.antt =====
-- Tables whose rows carry an id (SQLite, AUTOINCREMENT): the rows in the order of their insertion, what
-- the statements on one id do to them, and the laws that the tables share.
pub mod Laws
use my_template.Prelude.{
  ℕ, suc, ◌<◌, Option, none, some, List, [], ◌∷◌, ◌++◌, ◌==◌, if◌then◌else◌, ◌≢◌,
}

-- An id is given once: `next` is above every id that was ever in the table.
pub record Table (R : Type 0) : Type 0 where
  pub rows : List R
  pub next_id : ℕ

-- `rows_affected()` of a statement on one id.
abbrev pub affected : {R : Type 0} → Option R → ℕ
affected none = 0
affected (some _) = 1

module _ {R : Type 0} (id_of : R → ℕ) where
  unfoldable pub find_row : ℕ → List R → Option R
  find_row id [] = none
  find_row id (r ∷ rows) = if id_of r == id then some r else find_row id rows

  unfoldable pub change_row : ℕ → (R → R) → List R → List R
  change_row id change [] = []
  change_row id change (r ∷ rows) =
      (if id_of r == id then change r else r) ∷ change_row id change rows

  unfoldable pub drop_row : ℕ → List R → List R
  drop_row id [] = []
  drop_row id (r ∷ rows) = if id_of r == id then drop_row id rows else r ∷ drop_row id rows

  abbrev pub NoRow : ℕ → List R → Type 0
  NoRow id [] = Unit
  NoRow id (r ∷ rows) = (id_of r ≢ id) × NoRow id rows

  -- No two rows share an id.
  abbrev pub DistinctIds : List R → Type 0
  DistinctIds [] = Unit
  DistinctIds (r ∷ rows) = NoRow (id_of r) rows × DistinctIds rows

  abbrev pub IdsBelow : ℕ → List R → Type 0
  IdsBelow n [] = Unit
  IdsBelow n (r ∷ rows) = (id_of r < n) × IdsBelow n rows

abbrev pub AllRows : {R : Type 0} → (R → Type 0) → List R → Type 0
AllRows P [] = Unit
AllRows P (r ∷ rows) = P r × AllRows P rows
