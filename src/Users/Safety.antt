-- ===== src/Users/Safety.antt =====
-- users.rs: what a call of the service is to keep, and a rule for each way that a method goes on.
pub mod Accounts
pub mod Roles
pub mod Serve
use mathlib.Core.Path.{subst}
use my_template.Prelude.{
  ℕ, ◌≤◌, String, ◌≡◌, refl, Bool, true, false, not, ◌&&◌, Option, none, some, List, [], ◌∷◌, arith,
  ltb, Option-cases, Bool-cases, inl, inr, if◌then◌else◌, trim, eq_iff, str_eq, ◌==◌,
}
use my_template.Core.{BantoError, ok, err, other, Result}
use my_template.Storage.{Pool, Sql, Exec, statement, query, pure, raise, lift, ◌>>=◌, ◌>>◌}
use my_template.Storage.Ensures.{
  Ensures, Ensures-pure, Ensures-raise, Ensures-if, Ensures-then, Ensures-query, Ensures-lift, Post,
  Goes,
}
use my_template.Users.Role.{Role, admin, as_str, from_str, is_admin}
use my_template.Users.Table.{
  UsersTable, UserRow, find_id, by_id, count_other_admins, by_username, count_users, other_admins,
  insert_user, update_password, update_profile, delete_row,
}
use my_template.Users.Service.{
  Argon2, UserIdentity, UserSummary, Users, setup_first_user, verify, change_password, create_user,
  reset_password, list_users, get_by_username, update_user, verify_password, delete_user,
  is_initialized, verify_row, change_row, maybe_identity, role_or_missing, unless_last_admin,
}
use my_template.Users.Valid.{IsValid, admins, insert-IsValid, insert-admins}
use my_template.Users.Valid.Change.{password-IsValid, profile-IsValid, delete-IsValid}
use my_template.Users.Valid.Admins.{
  admins-password, others-profile, others-without, others-not_admin, admins-promote,
}

-- The table stays well-formed, and does not lose its last admin.
pub record Keeps (t t' : UsersTable) : Type 0 where
  pub valid : IsValid t'
  pub admin_left : 1 ≤ admins t.rows → 1 ≤ admins t'.rows

abbrev pub Kept : (A : Type 0) → UsersTable → Post UsersTable A
Kept A t r t' = Keeps t t'

pub Keeps-same : (t : UsersTable) → IsValid t → Keeps t t
Keeps-same t v = record { valid = v; admin_left = λ le. le }

pub Keeps-more : (t t' : UsersTable) → IsValid t' → admins t.rows ≤ admins t'.rows → Keeps t t'
Keeps-more t t' v le = record { valid = v; admin_left = λ h. omega arith }

module _ {A : Type 0} (t : UsersTable) (v : IsValid t) where
  pub raises : (e : BantoError) → Ensures t (raise e) (Kept A t)
  raises e = Ensures-raise e (Keeps-same t v)

  pub returns : (a : A) → Ensures t (pure a) (Kept A t)
  returns a = Ensures-pure a (Keeps-same t v)

  pub goes :
      {X : Type 0} (next : X → Users A) (r : Result X) (t' : UsersTable)
      → Keeps t t'
      → ((x : X) (t' : UsersTable) → Keeps t t' → Ensures t' (next x) (Kept A t))
      → Goes (Kept A t) next (r, t')
  goes next (ok x) t' k g = g x t' k
  goes next (err e) t' k g = k

  -- A statement that keeps the table, and then what only computes.
  pub writes :
      {X : Type 0} (run : Sql UsersTable X) (next : X → Users A)
      → Keeps t (run t).1
      → ((x : X) (t' : UsersTable) → Keeps t t' → Ensures t' (next x) (Kept A t))
      → Ensures t (statement run >>= next) (Kept A t)
  writes run next k g =
      Ensures-then run next (λ text. Keeps-same t v) (let (r, t') = run t in goes next r t' k g)

  pub reads :
      {X : Type 0} (read : UsersTable → X) (next : X → Users A)
      → Ensures t (next (read t)) (Kept A t)
      → Ensures t (query read >>= next) (Kept A t)
  reads read next g = Ensures-query read next (λ text. Keeps-same t v) g

  pub lifts :
      {X : Type 0} (r : Result X) (next : X → Users A)
      → ((x : X) → r ≡ ok x → Ensures t (next x) (Kept A t))
      → Ensures t (lift r >>= next) (Kept A t)
  lifts r next g = Ensures-lift r next (λ e same. Keeps-same t v) g

  -- What only computes.
  pub computes : (r : Result A) → Ensures t (lift r) (Kept A t)
  unfolding lift
  computes r = record { from = λ faults. Keeps-same t v }

  pub inserts :
      (name hash display_name : String) (role : Role) (now : String) (make : ℕ → A)
      → Ensures t
          (statement (insert_user name hash display_name (as_str role) now) >>= λ id.
            pure (make id))
          (Kept A t)
  inserts name hash display_name role now make =
      writes (insert_user name hash display_name (as_str role) now) (λ id. pure (make id))
        (Keeps-more t _ (insert-IsValid t name hash display_name role now v)
          (insert-admins t name hash display_name (as_str role) now))
        (λ id t' k. Ensures-pure (make id) k)

pub computes_after :
    {A : Type 0} (t : UsersTable) {t' : UsersTable}
    → Keeps t t'
    → (r : Result A) → Ensures t' (lift r) (Kept A t)
unfolding lift
computes_after t k r = record { from = λ faults. k }
