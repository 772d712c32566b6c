-- ===== src/Users/Safety/Accounts.antt =====
-- users.rs: the calls without a guard on the last admin, and the table.
use my_template.Prelude.{
  ℕ, String, Option, none, List, arith, ltb, Option-cases, Bool-cases, inl, inr, trim, ◌==◌,
}
use my_template.Storage.Ensures.{Ensures, Ensures-pure, Ensures-raise}
use my_template.Users.Role.{Role, admin}
use my_template.Users.Table.{UsersTable, by_username, count_users, update_password}
use my_template.Users.Service.{
  Argon2, UserIdentity, UserSummary, setup_first_user, verify, change_password, create_user,
  reset_password, list_users, get_by_username, verify_password, is_initialized, verify_row,
  change_row, maybe_identity,
}
use my_template.Users.Valid.{IsValid}
use my_template.Users.Valid.Change.{password-IsValid}
use my_template.Users.Valid.Admins.{admins-password}
use my_template.Users.Safety.{
  Keeps, Kept, Keeps-more, raises, returns, writes, reads, lifts, computes, inserts,
}

module _ (t : UsersTable) (v : IsValid t) (argon : Argon2) where
  sets_password : (id : ℕ) (hash now : String) → Keeps t (update_password id hash now t).1
  unfolding update_password
  sets_password id hash now =
      Keeps-more t _ (password-IsValid t id hash now v)
        (ground (arith, admins-password id hash now t.rows))

  pub setup_first_user-Kept :
      (salt now username password display_name : String)
      → Ensures t
          (setup_first_user argon salt now username password display_name)
          (Kept UserIdentity t)
  unfolding setup_first_user is_initialized
  setup_first_user-Kept salt now username password display_name =
      reads t v _ _ (elim (Bool-cases (ltb 0 (count_users t))) [
        | inl e ↦ rw e (raises t v _)
        | inr e ↦ rw e (
            lifts t v _ _ λ name named. lifts t v _ _ λ done long.
              lifts t v _ _ λ hash hashed. inserts t v name hash (trim display_name) admin now _)
      ])

  pub create_user-Kept :
      (salt now username password display_name : String) (role : Role)
      → Ensures t
          (create_user argon salt now username password display_name role)
          (Kept UserIdentity t)
  unfolding create_user
  create_user-Kept salt now username password display_name role = lifts t v _ _ λ name named.
      lifts t v _ _ λ done long. reads t v _ _ (elim (Option-cases (by_username name t)) [
        | inl e ↦
            rw e (lifts t v _ _ λ hash hashed. inserts t v name hash (trim display_name) role now _)
        | inr (r, e) ↦ rw e (raises t v _)
      ])

  pub verify-Kept :
      (username password : String)
      → Ensures t (verify argon username password) (Kept (Option UserIdentity) t)
  unfolding verify verify_row
  verify-Kept username password = reads t v _ _ (elim (Option-cases (by_username username t)) [
    | inl e ↦ rw (e, verify_row) (returns t v none)
    | inr (r, e) ↦
        rw (e, verify_row)
          (elim (Bool-cases (verify_password argon password r.password_hash)) [
            | inl right ↦ rw right (lifts t v _ _ λ role read. returns t v _)
            | inr wrong ↦ rw wrong (returns t v none)
          ])
  ])

  pub change_password-Kept :
      (salt now username current new : String)
      → Ensures t (change_password argon salt now username current new) (Kept (Unit {0}) t)
  unfolding change_password change_row
  change_password-Kept salt now username current new =
      reads t v _ _ (elim (Option-cases (by_username username t)) [
        | inl e ↦ rw (e, change_row) (raises t v _)
        | inr (r, e) ↦
            rw (e, change_row)
              (elim (Bool-cases (verify_password argon current r.password_hash)) [
                | inl right ↦ rw right (
                    lifts t v _ _ λ done long. lifts t v _ _ λ hash hashed.
                      writes t v _ _ (sets_password r.id hash now)
                        (λ affected t' k. Ensures-pure tt k))
                | inr wrong ↦ rw wrong (raises t v _)
              ])
      ])

  pub reset_password-Kept :
      (show : ℕ → String) (salt now : String) (id : ℕ) (new_password : String)
      → Ensures t (reset_password argon show salt now id new_password) (Kept (Unit {0}) t)
  unfolding reset_password
  reset_password-Kept show salt now id new_password = lifts t v _ _ λ done long.
      lifts t v _ _ λ hash hashed. writes t v _ _ (sets_password id hash now) λ affected t' k.
        elim (Bool-cases (affected == 0)) [
          | inl e ↦ rw e (Ensures-raise _ k)
          | inr e ↦ rw e (Ensures-pure tt k)
        ]

module _ (t : UsersTable) (v : IsValid t) where
  pub list_users-Kept : Ensures t list_users (Kept (List UserSummary) t)
  unfolding list_users
  list_users-Kept = reads t v _ _ (computes t v _)

  pub get_by_username-Kept :
      (username : String) → Ensures t (get_by_username username) (Kept (Option UserIdentity) t)
  unfolding get_by_username
  get_by_username-Kept username = reads t v _ _ (elim (Option-cases (by_username username t)) [
    | inl e ↦ rw (e, maybe_identity) (returns t v none)
    | inr (r, e) ↦ rw (e, maybe_identity) (lifts t v _ _ λ role read. returns t v _)
  ])
