-- ===== src/Users/Valid/Change.antt =====
-- The updates and deletions of the `users` table keep it well-formed, and the admins but those of the
-- row's id.
use mathlib.Core.Path.{subst}
use my_template.Prelude.{
  ℕ, String, ◌≡◌, refl, sym, List, [], ◌∷◌, arith, Bool-cases, inl, inr, if◌then◌else◌, ◌==◌,
}
use my_template.Users.Role.{Role, as_str}
use my_template.Users.Table.{
  UsersTable, UserRow, update_rows, set_password, set_profile, update_password, update_profile,
  without_id, delete_row,
}
use my_template.Users.Valid.{NoId, NoName, IsDistinct, AllBelow, AllRoles, IsValid}

-- Changing the rows of an id, with a change that leaves the id and the name.
module _ (id : ℕ) (change : UserRow → UserRow) (same_id : (r : UserRow) → (change r).id ≡ r.id)
    (same_name : (r : UserRow) → (change r).username ≡ r.username) where
  NoId-update : (i : ℕ) (rows : List UserRow) → NoId i rows → NoId i (update_rows id change rows)
  unfolding update_rows
  NoId-update i [] h = tt
  NoId-update i (r ∷ rows) h = (ground (arith, same_id r), NoId-update i rows h.1)

  NoName-update :
      (n : String) (rows : List UserRow) → NoName n rows → NoName n (update_rows id change rows)
  unfolding update_rows
  NoName-update n [] h = tt
  NoName-update n (r ∷ rows) h = (ground (arith, same_name r), NoName-update n rows h.1)

  IsDistinct-update :
      (rows : List UserRow) → IsDistinct rows → IsDistinct (update_rows id change rows)
  unfolding update_rows
  IsDistinct-update [] d = tt
  IsDistinct-update (r ∷ rows) d = (
    subst (λ i. NoId i (update_rows id change rows)) (sym (id-of r)) (NoId-update r.id rows d.0),
    subst (λ n. NoName n (update_rows id change rows)) (sym (name-of r))
        (NoName-update r.username rows d.1),
    IsDistinct-update rows d.2,
  )
    where
      id-of : (r : UserRow) → (if r.id == id then change r else r).id ≡ r.id
      id-of r = ground (arith, same_id r)

      name-of : (r : UserRow) → (if r.id == id then change r else r).username ≡ r.username
      name-of r = ground (arith, same_name r)

  AllBelow-update :
      (n : ℕ) (rows : List UserRow) → AllBelow n rows → AllBelow n (update_rows id change rows)
  unfolding update_rows
  AllBelow-update n [] b = tt
  AllBelow-update n (r ∷ rows) b = (ground (arith, same_id r), AllBelow-update n rows b.1)

AllRoles-password :
    (id : ℕ) (hash now : String) (rows : List UserRow)
    → AllRoles rows
    → AllRoles (update_rows id (set_password hash now) rows)
unfolding update_rows
AllRoles-password id hash now [] h = tt
AllRoles-password id hash now (r ∷ rows) h =
    ((h.0.0, ground (arith, h.0.1)), AllRoles-password id hash now rows h.1)

profile_role :
    (id : ℕ) (display_name : String) (role : Role) (now : String) (r : UserRow)
    → ((x : Role) × (r.role ≡ as_str x))
    → (x : Role) × ((if r.id == id then set_profile display_name (as_str role) now r else r).role
        ≡ as_str x)
profile_role id display_name role now r (x, h) = (if r.id == id then role else x, ground (arith, h))

AllRoles-profile :
    (id : ℕ) (display_name : String) (role : Role) (now : String) (rows : List UserRow)
    → AllRoles rows
    → AllRoles (update_rows id (set_profile display_name (as_str role) now) rows)
unfolding update_rows
AllRoles-profile id display_name role now [] h = tt
AllRoles-profile id display_name role now (r ∷ rows) h = (
  profile_role id display_name role now r h.0,
  AllRoles-profile id display_name role now rows h.1,
)

pub password-IsValid :
    (t : UsersTable) (id : ℕ) (hash now : String)
    → IsValid t
    → IsValid (update_password id hash now t).1
unfolding update_password
password-IsValid t id hash now v = record {
  below =
      AllBelow-update id (set_password hash now) (λ r. refl) (λ r. refl) t.next_id t.rows v.below;
  distinct = IsDistinct-update id (set_password hash now) (λ r. refl) (λ r. refl) t.rows v.distinct;
  roles = AllRoles-password id hash now t.rows v.roles;
}

pub profile-IsValid :
    (t : UsersTable) (id : ℕ) (display_name : String) (role : Role) (now : String)
    → IsValid t
    → IsValid (update_profile id display_name (as_str role) now t).1
unfolding update_profile
profile-IsValid t id display_name role now v =
    let change = set_profile display_name (as_str role) now in
    record {
      below = AllBelow-update id change (λ r. refl) (λ r. refl) t.next_id t.rows v.below;
      distinct = IsDistinct-update id change (λ r. refl) (λ r. refl) t.rows v.distinct;
      roles = AllRoles-profile id display_name role now t.rows v.roles;
    }

NoId-without : (id i : ℕ) (rows : List UserRow) → NoId i rows → NoId i (without_id id rows)
unfolding without_id
NoId-without id i [] h = tt
NoId-without id i (r ∷ rows) h = elim (Bool-cases (r.id == id)) [
  | inl e ↦ rw (e, without_id) (NoId-without id i rows h.1)
  | inr e ↦ rw (e, without_id) (h.0, NoId-without id i rows h.1)
]

NoName-without :
    (id : ℕ) (n : String) (rows : List UserRow) → NoName n rows → NoName n (without_id id rows)
unfolding without_id
NoName-without id n [] h = tt
NoName-without id n (r ∷ rows) h = elim (Bool-cases (r.id == id)) [
  | inl e ↦ rw (e, without_id) (NoName-without id n rows h.1)
  | inr e ↦ rw (e, without_id) (h.0, NoName-without id n rows h.1)
]

IsDistinct-without :
    (id : ℕ) (rows : List UserRow) → IsDistinct rows → IsDistinct (without_id id rows)
unfolding without_id
IsDistinct-without id [] d = tt
IsDistinct-without id (r ∷ rows) d = elim (Bool-cases (r.id == id)) [
  | inl e ↦ rw (e, without_id) (IsDistinct-without id rows d.2)
  | inr e ↦
      rw (e, without_id)
        (
          NoId-without id r.id rows d.0,
          NoName-without id r.username rows d.1,
          IsDistinct-without id rows d.2,
        )
]

AllBelow-without :
    (id n : ℕ) (rows : List UserRow) → AllBelow n rows → AllBelow n (without_id id rows)
unfolding without_id
AllBelow-without id n [] b = tt
AllBelow-without id n (r ∷ rows) b = elim (Bool-cases (r.id == id)) [
  | inl e ↦ rw (e, without_id) (AllBelow-without id n rows b.1)
  | inr e ↦ rw (e, without_id) (b.0, AllBelow-without id n rows b.1)
]

AllRoles-without : (id : ℕ) (rows : List UserRow) → AllRoles rows → AllRoles (without_id id rows)
unfolding without_id
AllRoles-without id [] b = tt
AllRoles-without id (r ∷ rows) b = elim (Bool-cases (r.id == id)) [
  | inl e ↦ rw (e, without_id) (AllRoles-without id rows b.1)
  | inr e ↦ rw (e, without_id) (b.0, AllRoles-without id rows b.1)
]

pub delete-IsValid : (t : UsersTable) (id : ℕ) → IsValid t → IsValid (delete_row id t).1
unfolding delete_row
delete-IsValid t id v = record {
  below = AllBelow-without id t.next_id t.rows v.below;
  distinct = IsDistinct-without id t.rows v.distinct;
  roles = AllRoles-without id t.rows v.roles;
}
