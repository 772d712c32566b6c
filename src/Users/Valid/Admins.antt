-- ===== src/Users/Valid/Admins.antt =====
-- How the updates and deletions of the `users` table count in its admins.
use mathlib.Core.Path.{subst}
use my_template.Prelude.{
  ℕ, suc, ◌≤◌, String, ◌≡◌, refl, sym, true, false, some, List, [], ◌∷◌, arith, str_eq, Bool-cases,
  inl, inr, if◌then◌else◌, ◌==◌,
}
use my_template.Users.Table.{
  UserRow, find_id, count_other_admins, update_rows, set_password, set_profile, without_id,
}
use my_template.Users.Valid.{NoId, IsDistinct, admins}

pub admins-password :
    (id : ℕ) (hash now : String) (rows : List UserRow)
    → admins (update_rows id (set_password hash now) rows) ≡ admins rows
unfolding admins update_rows
admins-password id hash now [] = refl
admins-password id hash now (r ∷ rows) = ground (arith, admins-password id hash now rows)

-- The other admins stay, whatever becomes of the row.
pub others-profile :
    (id : ℕ) (display_name role now : String) (rows : List UserRow)
    → count_other_admins id rows ≤ admins (update_rows id (set_profile display_name role now) rows)
unfolding admins update_rows count_other_admins
others-profile id d role now [] = omega arith
others-profile id d role now (r ∷ rows) = ground (arith, others-profile id d role now rows)

pub others-without :
    (id : ℕ) (rows : List UserRow) → count_other_admins id rows ≤ admins (without_id id rows)
unfolding admins without_id count_other_admins
others-without id [] = omega arith
others-without id (r ∷ rows) = ground (arith, others-without id rows)

promoted :
    (r : UserRow) (rows rest : List UserRow)
    → admins rows ≤ admins rest
    → admins (r ∷ rows) ≤ (if str_eq "admin" "admin" then suc (admins rest) else admins rest)
unfolding admins
promoted r rows rest le = ground arith

kept :
    (r : UserRow) (rows rest : List UserRow)
    → admins rows ≤ admins rest
    → admins (r ∷ rows) ≤ admins (r ∷ rest)
unfolding admins
kept r rows rest le = ground arith

-- A new admin only adds.
pub admins-promote :
    (id : ℕ) (display_name now : String) (rows : List UserRow)
    → admins rows ≤ admins (update_rows id (set_profile display_name "admin" now) rows)
unfolding admins update_rows
admins-promote id d now [] = omega arith
admins-promote id d now (r ∷ rows) = elim (Bool-cases (r.id == id)) [
  | inl e ↦ rw e (
      promoted r rows (update_rows id (set_profile d "admin" now) rows)
        (admins-promote id d now rows))
  | inr e ↦
      rw e (
        kept r rows (update_rows id (set_profile d "admin" now) rows)
          (admins-promote id d now rows))
]

others-absent :
    (id : ℕ) (rows : List UserRow) → NoId id rows → count_other_admins id rows ≡ admins rows
unfolding admins count_other_admins
others-absent id [] h = refl
others-absent id (r ∷ rows) h = ground (arith, h.0, others-absent id rows h.1)

first_row :
    (id : ℕ) (x : UserRow) (rows : List UserRow) (r : UserRow)
    → IsDistinct (x ∷ rows)
    → find_id id (x ∷ rows) ≡ some r
    → str_eq r.role "admin" ≡ false
    → x.id == id ≡ true
    → count_other_admins id (x ∷ rows) ≡ admins (x ∷ rows)
unfolding admins count_other_admins find_id
first_row id x rows r d f n e =
    let same_id : x.id ≡ id = ground arith in
    let same : x ≡ r = ground arith in
    let not_admin : str_eq x.role "admin" ≡ false =
      subst (λ y. str_eq y.role "admin" ≡ false) (sym same) n in
    ground (arith, not_admin, others-absent id rows (subst (λ i. NoId i rows) same_id d.0))

-- Where the row of the id is no admin, the others are all the admins.
pub others-not_admin :
    (id : ℕ) (rows : List UserRow) (r : UserRow)
    → IsDistinct rows
    → find_id id rows ≡ some r
    → str_eq r.role "admin" ≡ false
    → count_other_admins id rows ≡ admins rows
unfolding admins count_other_admins find_id
others-not_admin id [] r d f n = cc
others-not_admin id (x ∷ rows) r d f n = elim (Bool-cases (x.id == id)) [
  | inl e ↦ first_row id x rows r d f n e
  | inr e ↦ ground (arith, others-not_admin id rows r d.2)
]
