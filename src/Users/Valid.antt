-- ===== src/Users/Valid.antt =====
-- The well-formed `users` tables; an insertion keeps them so.
pub mod Change
pub mod Admins
use my_template.Prelude.{
  ℕ, suc, ◌+◌, ◌≤◌, ◌<◌, String, ◌≡◌, ◌≢◌, refl, sym, Bool, true, false, Option, none, some, List,
  [], ◌∷◌, ◌++◌, arith, eq_iff, str_eq, ◌&&◌, Option-cases, inl, inr, if◌then◌else◌,
}
use my_template.Core.{ok}
use my_template.Users.Role.{Role, as_str, from_str, is_admin}
use my_template.Users.Table.{
  UsersTable, UserRow, find_name, find_id, count_other_admins, insert_user, update_rows,
  set_password, set_profile, update_password, update_profile, without_id, delete_row, new_row,
  by_username,
}

abbrev pub NoId : ℕ → List UserRow → Type 0
NoId id [] = Unit
NoId id (r ∷ rows) = (r.id ≢ id) × NoId id rows

abbrev pub NoName : String → List UserRow → Type 0
NoName name [] = Unit
NoName name (r ∷ rows) = (r.username ≢ name) × NoName name rows

-- No two rows share an id or a name.
abbrev pub IsDistinct : List UserRow → Type 0
IsDistinct [] = Unit
IsDistinct (r ∷ rows) = NoId r.id rows × NoName r.username rows × IsDistinct rows

abbrev pub AllBelow : ℕ → List UserRow → Type 0
AllBelow n [] = Unit
AllBelow n (r ∷ rows) = (r.id < n) × AllBelow n rows

abbrev pub AllRoles : List UserRow → Type 0
AllRoles [] = Unit
AllRoles (r ∷ rows) = ((role : Role) × (r.role ≡ as_str role)) × AllRoles rows

pub record IsValid (t : UsersTable) : Type 0 where
  pub below : AllBelow t.next_id t.rows
  pub distinct : IsDistinct t.rows
  pub roles : AllRoles t.rows

unfoldable pub admins : List UserRow → ℕ
admins [] = 0
admins (r ∷ rows) = if str_eq r.role "admin" then suc (admins rows) else admins rows

-- Appending a row.
NoId-snoc :
    (id : ℕ) (rows : List UserRow) (r : UserRow)
    → NoId id rows
    → r.id ≢ id
    → NoId id (rows ++ r ∷ [])
NoId-snoc id [] r h ne = (ne, tt)
NoId-snoc id (x ∷ rows) r h ne = (h.0, NoId-snoc id rows r h.1 ne)

NoName-snoc :
    (name : String) (rows : List UserRow) (r : UserRow)
    → NoName name rows
    → r.username ≢ name
    → NoName name (rows ++ r ∷ [])
NoName-snoc name [] r h ne = (ne, tt)
NoName-snoc name (x ∷ rows) r h ne = (h.0, NoName-snoc name rows r h.1 ne)

NoName-find : (name : String) (rows : List UserRow) → find_name name rows ≡ none → NoName name rows
unfolding find_name
NoName-find name [] h = tt
NoName-find name (r ∷ rows) h = (
  ground (arith, eq_iff r.username name),
  NoName-find name rows (ground (arith, eq_iff r.username name)),
)

IsDistinct-snoc :
    (n : ℕ) (rows : List UserRow) (r : UserRow)
    → IsDistinct rows
    → AllBelow n rows
    → n ≤ r.id
    → NoName r.username rows
    → IsDistinct (rows ++ r ∷ [])
IsDistinct-snoc n [] r d b le nn = (tt, tt, tt)
IsDistinct-snoc n (x ∷ rows) r d b le nn = (
  NoId-snoc x.id rows r d.0 (λ e. omega arith),
  NoName-snoc x.username rows r d.1 (λ e. nn.0 (sym e)),
  IsDistinct-snoc n rows r d.2 b.1 le nn.1,
)

AllBelow-snoc :
    (n : ℕ) (rows : List UserRow) (r : UserRow)
    → AllBelow n rows
    → r.id < suc n
    → AllBelow (suc n) (rows ++ r ∷ [])
AllBelow-snoc n [] r b lt = (lt, tt)
AllBelow-snoc n (x ∷ rows) r b lt = (omega arith, AllBelow-snoc n rows r b.1 lt)

AllRoles-snoc :
    (rows : List UserRow) (r : UserRow)
    → AllRoles rows
    → ((role : Role) × (r.role ≡ as_str role))
    → AllRoles (rows ++ r ∷ [])
AllRoles-snoc [] r h k = (k, tt)
AllRoles-snoc (x ∷ rows) r h k = (h.0, AllRoles-snoc rows r h.1 k)

admins-snoc : (rows : List UserRow) (r : UserRow) → admins rows ≤ admins (rows ++ r ∷ [])
unfolding admins
admins-snoc [] r = omega arith
admins-snoc (x ∷ rows) r = ground (arith, admins-snoc rows r)

pub insert-IsValid :
    (t : UsersTable) (username hash display_name : String) (role : Role) (now : String)
    → IsValid t
    → IsValid (insert_user username hash display_name (as_str role) now t).1
unfolding insert_user by_username
insert-IsValid t username hash display_name role now v =
    elim (Option-cases (find_name username t.rows)) [
      | inl e ↦
          rw (e, insert_user)
            (record {
              below = AllBelow-snoc t.next_id t.rows _ v.below (omega arith);
              distinct =
                  IsDistinct-snoc t.next_id t.rows _ v.distinct v.below (omega arith)
                    (NoName-find username t.rows e);
              roles = AllRoles-snoc t.rows _ v.roles (role, refl);
            })
      | inr (r, e) ↦ rw (e, insert_user) v
    ]

pub insert-admins :
    (t : UsersTable) (username hash display_name role now : String)
    → admins t.rows ≤ admins (insert_user username hash display_name role now t).1.rows
unfolding insert_user by_username
insert-admins t username hash display_name role now =
    elim (Option-cases (find_name username t.rows)) [
      | inl e ↦ rw (e, insert_user) (admins-snoc t.rows _)
      | inr (r, e) ↦ rw (e, insert_user) (omega arith)
    ]
