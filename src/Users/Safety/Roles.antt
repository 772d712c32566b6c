-- ===== src/Users/Safety/Roles.antt =====
-- users.rs: updating and deleting an account, and the last admin.
use mathlib.Core.Path.{subst}
use my_template.Prelude.{
  ℕ, ◌≤◌, String, ◌≡◌, refl, Bool, true, false, not, ◌&&◌, some, arith, Option-cases, Bool-cases,
  inl, inr, if◌then◌else◌, trim, eq_iff, str_eq, ◌==◌,
}
use my_template.Core.{not_found, ok}
use my_template.Storage.{pure, raise}
use my_template.Storage.Ensures.{Ensures, Ensures-pure, Ensures-raise}
use my_template.Users.Role.{Role, admin, editor, viewer, as_str, from_str, is_admin}
use my_template.Users.Table.{
  UsersTable, UserRow, by_id, count_other_admins, other_admins, update_profile, delete_row,
}
use my_template.Users.Service.{
  UserSummary, Users, update_user, delete_user, role_or_missing, unless_last_admin,
}
use my_template.Users.Valid.{IsValid}
use my_template.Users.Valid.Change.{profile-IsValid, delete-IsValid}
use my_template.Users.Valid.Admins.{
  others-profile, others-without, others-not_admin, admins-promote,
}
use my_template.Users.Safety.{Keeps, Kept, Keeps-more, raises, computes_after, writes, reads, lifts}

module _ (t : UsersTable) (v : IsValid t) where
  -- The guard's answer: either the row was no admin, or another admin remains.
  guarded :
      {A : Type 0} (needed : Bool) (id : ℕ) (next : Users A)
      → (needed ≡ false → Ensures t next (Kept A t))
      → (1 ≤ other_admins id t → Ensures t next (Kept A t))
      → Ensures t (unless_last_admin needed id next) (Kept A t)
  unfolding unless_last_admin
  guarded false id next unneeded remaining = unneeded refl
  guarded true id next unneeded remaining =
      reads t v _ _ (elim (Bool-cases (other_admins id t == 0)) [
        | inl e ↦ rw e (raises t v _)
        | inr e ↦ rw e (remaining (ground arith))
      ])

-- The role that was read says whether the row counts as an admin.
pub role-counts :
    (text : String) (role : Role) → from_str text ≡ ok role → str_eq text "admin" ≡ is_admin role
unfolding from_str is_admin
role-counts text role h = ground (arith, eq_iff text "admin")

module _ (t : UsersTable) (v : IsValid t) (id : ℕ) where
  pub deletes_other : 1 ≤ count_other_admins id t.rows → Keeps t (delete_row id t).1
  unfolding delete_row
  deletes_other le = record {
    valid = delete-IsValid t id v;
    admin_left = λ h. ground (arith, others-without id t.rows);
  }

  deletes_plain :
      (r : UserRow) (role : Role)
      → by_id id t ≡ some r
      → from_str r.role ≡ ok role
      → is_admin role ≡ false
      → Keeps t (delete_row id t).1
  unfolding delete_row by_id
  deletes_plain r role found read plain =
      let not_admin : str_eq r.role "admin" ≡ false =
        subst (λ b. str_eq r.role "admin" ≡ b) plain (role-counts r.role role read) in
      record {
        valid = delete-IsValid t id v;
        admin_left = λ h. ground (
          arith,
          others-without id t.rows,
          others-not_admin id t.rows r v.distinct found not_admin,
        );
      }

  pub updates_other :
      (display_name : String) (role : Role) (now : String)
      → 1 ≤ count_other_admins id t.rows
      → Keeps t (update_profile id display_name (as_str role) now t).1
  unfolding update_profile
  updates_other display_name role now le = record {
    valid = profile-IsValid t id display_name role now v;
    admin_left = λ h. ground (arith, others-profile id display_name (as_str role) now t.rows);
  }

  pub promotes :
      (display_name now : String) → Keeps t (update_profile id display_name (as_str admin) now t).1
  unfolding update_profile as_str
  promotes display_name now =
      Keeps-more t _ (profile-IsValid t id display_name admin now v)
        (admins-promote id display_name now t.rows)

  updates_plain :
      (display_name : String) (new role : Role) (now : String) (r : UserRow)
      → by_id id t ≡ some r
      → from_str r.role ≡ ok role
      → is_admin role ≡ false
      → Keeps t (update_profile id display_name (as_str new) now t).1
  unfolding update_profile by_id
  updates_plain display_name new role now r found read plain =
      let not_admin : str_eq r.role "admin" ≡ false =
        subst (λ b. str_eq r.role "admin" ≡ b) plain (role-counts r.role role read) in
      record {
        valid = profile-IsValid t id display_name new now v;
        admin_left = λ h. ground (
          arith,
          others-profile id display_name (as_str new) now t.rows,
          others-not_admin id t.rows r v.distinct found not_admin,
        );
      }

  unguarded :
      (display_name : String) (new role : Role) (now : String) (r : UserRow)
      → by_id id t ≡ some r
      → from_str r.role ≡ ok role
      → is_admin role && not (is_admin new) ≡ false
      → Keeps t (update_profile id display_name (as_str new) now t).1
  unfolding is_admin
  unguarded display_name admin role now r found read e = promotes display_name now
  unguarded display_name editor role now r found read e =
      updates_plain display_name editor role now r found read (ground arith)
  unguarded display_name viewer role now r found read e =
      updates_plain display_name viewer role now r found read (ground arith)

module _ (t : UsersTable) (v : IsValid t) (show : ℕ → String) where
  pub update_user-Kept :
      (now : String) (id : ℕ) (display_name : String) (role : Role)
      → Ensures t (update_user show now id display_name role) (Kept UserSummary t)
  unfolding update_user role_or_missing other_admins
  update_user-Kept now id display_name role = reads t v _ _ (elim (Option-cases (by_id id t)) [
    | inl found ↦ rw found (lifts t v _ _ λ current read. cc)
    | inr (r, found) ↦ rw found (
        lifts t v _ _ λ current read.
          guarded t v (is_admin current && not (is_admin role)) id _
            (λ e.
              writes t v _ _ (unguarded t v id (trim display_name) role current now r found read e)
                (λ row t' k. computes_after t k _))
            (λ le.
              writes t v _ _ (updates_other t v id (trim display_name) role now le)
                (λ row t' k. computes_after t k _)))
  ])

  deleted :
      (id affected : ℕ) (t' : UsersTable)
      → Keeps t t'
      → Ensures t'
          (if affected == 0 then raise (not_found "users" (show id)) else pure tt)
          (Kept (Unit {0}) t)
  deleted id affected t' k = elim (Bool-cases (affected == 0)) [
    | inl e ↦ rw e (Ensures-raise _ k)
    | inr e ↦ rw e (Ensures-pure tt k)
  ]

  pub delete_user-Kept :
      (id acting_user_id : ℕ) → Ensures t (delete_user show id acting_user_id) (Kept (Unit {0}) t)
  unfolding delete_user role_or_missing other_admins
  delete_user-Kept id acting_user_id = elim (Bool-cases (id == acting_user_id)) [
    | inl e ↦ rw e (raises t v _)
    | inr e ↦ rw e (
        reads t v _ _ (elim (Option-cases (by_id id t)) [
          | inl found ↦ rw found (lifts t v _ _ λ current read. cc)
          | inr (r, found) ↦ rw found (
              lifts t v _ _ λ current read.
                guarded t v (is_admin current) id _
                  (λ plain.
                    writes t v _ _ (deletes_plain t v id r current found read plain)
                      (λ affected t' k. deleted id affected t' k))
                  (λ le.
                    writes t v _ _ (deletes_other t v id le)
                      (λ affected t' k. deleted id affected t' k)))
        ]))
  ]
