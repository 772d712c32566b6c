-- ===== src/Storage/Rows/Laws.antt =====
-- Inserting, changing and deleting rows, against their ids and against a predicate on rows.
use mathlib.Core.Path.{subst, ap}
use mathlib.Core.Option
use my_template.Prelude.{
  ℕ, suc, ◌≤◌, ◌<◌, ◌≡◌, ◌≢◌, refl, sym, ◌∙◌, true, none, some, List, [], ◌∷◌, ◌++◌, arith,
  Option-cases, Bool-cases, inl, inr, if◌then◌else◌, ◌==◌,
}
use my_template.Storage.Rows.{find_row, change_row, drop_row, NoRow, DistinctIds, IdsBelow, AllRows}

module _ {R : Type 0} (id_of : R → ℕ) where
  NoRow-snoc :
      (id : ℕ) (rows : List R) (r : R)
      → NoRow id_of id rows
      → id_of r ≢ id
      → NoRow id_of id (rows ++ r ∷ [])
  NoRow-snoc id [] r h ne = (ne, tt)
  NoRow-snoc id (x ∷ rows) r h ne = (h.0, NoRow-snoc id rows r h.1 ne)

  -- A row with an id above all others.
  pub DistinctIds-snoc :
      (n : ℕ) (rows : List R) (r : R)
      → DistinctIds id_of rows
      → IdsBelow id_of n rows
      → n ≤ id_of r
      → DistinctIds id_of (rows ++ r ∷ [])
  DistinctIds-snoc n [] r d b le = (tt, tt)
  DistinctIds-snoc n (x ∷ rows) r d b le =
      (NoRow-snoc (id_of x) rows r d.0 (λ e. omega arith), DistinctIds-snoc n rows r d.1 b.1 le)

  pub IdsBelow-snoc :
      (n : ℕ) (rows : List R) (r : R)
      → IdsBelow id_of n rows
      → id_of r < suc n
      → IdsBelow id_of (suc n) (rows ++ r ∷ [])
  IdsBelow-snoc n [] r b lt = (lt, tt)
  IdsBelow-snoc n (x ∷ rows) r b lt = (omega arith, IdsBelow-snoc n rows r b.1 lt)

  pub find_row-snoc :
      (id : ℕ) (rows : List R) (r : R)
      → NoRow id_of id rows
      → id_of r ≡ id
      → find_row id_of id (rows ++ r ∷ []) ≡ some r
  unfolding find_row
  find_row-snoc id [] r h e = ground arith
  find_row-snoc id (x ∷ rows) r h e = ground (arith, h.0, find_row-snoc id rows r h.1 e)

  pub IdsBelow-NoRow : (n : ℕ) (rows : List R) → IdsBelow id_of n rows → NoRow id_of n rows
  IdsBelow-NoRow n [] b = tt
  IdsBelow-NoRow n (r ∷ rows) b = (λ e. omega arith, IdsBelow-NoRow n rows b.1)

  module _ (id : ℕ) (change : R → R) (same_id : (r : R) → id_of (change r) ≡ id_of r) where
    changed_id : (r : R) → id_of (if id_of r == id then change r else r) ≡ id_of r
    changed_id r = elim (Bool-cases (id_of r == id)) [
      | inl e ↦ rw e (same_id r)
      | inr e ↦ rw e refl
    ]

    NoRow-change_row :
        (i : ℕ) (rows : List R)
        → NoRow id_of i rows
        → NoRow id_of i (change_row id_of id change rows)
    unfolding change_row
    NoRow-change_row i [] h = tt
    NoRow-change_row i (r ∷ rows) h = (ground (arith, changed_id r), NoRow-change_row i rows h.1)

    pub DistinctIds-change_row :
        (rows : List R)
        → DistinctIds id_of rows
        → DistinctIds id_of (change_row id_of id change rows)
    unfolding change_row
    DistinctIds-change_row [] d = tt
    DistinctIds-change_row (r ∷ rows) d = (
      subst (λ i. NoRow id_of i (change_row id_of id change rows)) (sym (changed_id r))
          (NoRow-change_row (id_of r) rows d.0),
      DistinctIds-change_row rows d.1,
    )

    pub IdsBelow-change_row :
        (n : ℕ) (rows : List R)
        → IdsBelow id_of n rows
        → IdsBelow id_of n (change_row id_of id change rows)
    unfolding change_row
    IdsBelow-change_row n [] b = tt
    IdsBelow-change_row n (r ∷ rows) b =
        (ground (arith, changed_id r), IdsBelow-change_row n rows b.1)

    first :
        (x : R) (rows : List R) (r : R)
        → id_of x == id ≡ true
        → find_row id_of id (x ∷ rows) ≡ some r
        → some x ≡ some r
    unfolding find_row
    first x rows r e f = ground arith

    -- The changed row is the one that is found.
    pub find_row-change_row :
        (rows : List R) (r : R)
        → find_row id_of id rows ≡ some r
        → find_row id_of id (change_row id_of id change rows) ≡ some (change r)
    unfolding find_row change_row
    find_row-change_row [] r f = cc
    find_row-change_row (x ∷ rows) r f = elim (Bool-cases (id_of x == id)) [
      | inl e ↦ rw e (rw (same_id x, e) (ap (Option.map change) (first x rows r e f)))
      | inr e ↦ rw e (rw e (find_row-change_row rows r (ground arith)))
    ]

  pub AllRows-change_row :
      (P : R → Type 0) (id : ℕ) (change : R → R) (rows : List R)
      → ((r : R) → P r → P (change r))
      → AllRows P rows
      → AllRows P (change_row id_of id change rows)
  unfolding change_row
  AllRows-change_row P id change [] keep h = tt
  AllRows-change_row P id change (r ∷ rows) keep h = elim (Bool-cases (id_of r == id)) [
    | inl e ↦ rw (e, change_row) (keep r h.0, AllRows-change_row P id change rows keep h.1)
    | inr e ↦ rw (e, change_row) (h.0, AllRows-change_row P id change rows keep h.1)
  ]

  NoRow-drop_row :
      (id i : ℕ) (rows : List R) → NoRow id_of i rows → NoRow id_of i (drop_row id_of id rows)
  unfolding drop_row
  NoRow-drop_row id i [] h = tt
  NoRow-drop_row id i (r ∷ rows) h = elim (Bool-cases (id_of r == id)) [
    | inl e ↦ rw (e, drop_row) (NoRow-drop_row id i rows h.1)
    | inr e ↦ rw (e, drop_row) (h.0, NoRow-drop_row id i rows h.1)
  ]

  pub DistinctIds-drop_row :
      (id : ℕ) (rows : List R) → DistinctIds id_of rows → DistinctIds id_of (drop_row id_of id rows)
  unfolding drop_row
  DistinctIds-drop_row id [] d = tt
  DistinctIds-drop_row id (r ∷ rows) d = elim (Bool-cases (id_of r == id)) [
    | inl e ↦ rw (e, drop_row) (DistinctIds-drop_row id rows d.1)
    | inr e ↦
        rw (e, drop_row) (NoRow-drop_row id (id_of r) rows d.0, DistinctIds-drop_row id rows d.1)
  ]

  pub AllRows-drop_row :
      (P : R → Type 0) (id : ℕ) (rows : List R)
      → AllRows P rows
      → AllRows P (drop_row id_of id rows)
  unfolding drop_row
  AllRows-drop_row P id [] h = tt
  AllRows-drop_row P id (r ∷ rows) h = elim (Bool-cases (id_of r == id)) [
    | inl e ↦ rw (e, drop_row) (AllRows-drop_row P id rows h.1)
    | inr e ↦ rw (e, drop_row) (h.0, AllRows-drop_row P id rows h.1)
  ]

  pub IdsBelow-drop_row :
      (n id : ℕ) (rows : List R) → IdsBelow id_of n rows → IdsBelow id_of n (drop_row id_of id rows)
  unfolding drop_row
  IdsBelow-drop_row n id [] b = tt
  IdsBelow-drop_row n id (r ∷ rows) b = elim (Bool-cases (id_of r == id)) [
    | inl e ↦ rw (e, drop_row) (IdsBelow-drop_row n id rows b.1)
    | inr e ↦ rw (e, drop_row) (b.0, IdsBelow-drop_row n id rows b.1)
  ]

  pub find_row-drop_row :
      (id : ℕ) (rows : List R) → find_row id_of id (drop_row id_of id rows) ≡ none
  unfolding find_row drop_row
  find_row-drop_row id [] = refl
  find_row-drop_row id (r ∷ rows) = ground (arith, find_row-drop_row id rows)

  pub find_row-drop_row_ne :
      (id j : ℕ) (rows : List R)
      → id ≢ j
      → find_row id_of j (drop_row id_of id rows) ≡ find_row id_of j rows
  unfolding find_row drop_row
  find_row-drop_row_ne id j [] ne = refl
  find_row-drop_row_ne id j (r ∷ rows) ne = ground (arith, ne, find_row-drop_row_ne id j rows ne)

pub AllRows-snoc :
    {R : Type 0} (P : R → Type 0) (rows : List R) (r : R)
    → AllRows P rows
    → P r
    → AllRows P (rows ++ r ∷ [])
AllRows-snoc P [] r h p = (p, tt)
AllRows-snoc P (x ∷ rows) r h p = (h.0, AllRows-snoc P rows r h.1 p)

module _ {R : Type 0} (id_of : R → ℕ) where
  -- A statement on an id that no row has.
  pub drop_row-absent :
      (id : ℕ) (rows : List R) → find_row id_of id rows ≡ none → drop_row id_of id rows ≡ rows
  unfolding find_row drop_row
  drop_row-absent id [] f = refl
  drop_row-absent id (r ∷ rows) f = ground (arith, drop_row-absent id rows)

  pub change_row-absent :
      (id : ℕ) (change : R → R) (rows : List R)
      → find_row id_of id rows ≡ none
      → change_row id_of id change rows ≡ rows
  unfolding find_row change_row
  change_row-absent id change [] f = refl
  change_row-absent id change (r ∷ rows) f = elim (Bool-cases (id_of r == id)) [
    | inl e ↦ absurd (hit r rows e f)
    | inr e ↦ rw e (ap (λ rest. r ∷ rest) (change_row-absent id change rows (ground arith)))
  ]
    where
      hit : (r : R) (rows : List R) → id_of r == id ≡ true → find_row id_of id (r ∷ rows) ≢ none
      hit r rows e f = ground arith

  pub find_row-change_row-none :
      (id : ℕ) (change : R → R)
      → ((r : R) → id_of (change r) ≡ id_of r)
      → (rows : List R) → find_row id_of id (change_row id_of id change rows) ≡ none
      → find_row id_of id rows ≡ none
  find_row-change_row-none id change same_id rows f = elim (Option-cases (find_row id_of id rows)) [
    | inl e ↦ e
    | inr (r, e) ↦ absurd (never r (sym (find_row-change_row id_of id change same_id rows r e) ∙ f))
  ]
    where
      never : (r : R) → some (change r) ≢ none
      never r e = cc e

  -- A statement on the row that was inserted last.
  pub change_row-snoc :
      (id : ℕ) (change : R → R) (rows : List R) (r : R)
      → NoRow id_of id rows
      → id_of r ≡ id
      → change_row id_of id change (rows ++ r ∷ []) ≡ rows ++ change r ∷ []
  unfolding change_row
  change_row-snoc id change [] r h e = ground arith
  change_row-snoc id change (x ∷ rows) r h e =
      ground (arith, h.0, change_row-snoc id change rows r h.1 e)

  pub drop_row-snoc :
      (id : ℕ) (rows : List R) (r : R)
      → NoRow id_of id rows
      → id_of r ≡ id
      → drop_row id_of id (rows ++ r ∷ []) ≡ rows
  unfolding drop_row
  drop_row-snoc id [] r h e = ground arith
  drop_row-snoc id (x ∷ rows) r h e = ground (arith, h.0, drop_row-snoc id rows r h.1 e)

  pub IdsBelow-weaken :
      (m n : ℕ) (rows : List R) → m ≤ n → IdsBelow id_of m rows → IdsBelow id_of n rows
  IdsBelow-weaken m n [] le b = tt
  IdsBelow-weaken m n (r ∷ rows) le b = (omega arith, IdsBelow-weaken m n rows le b.1)
