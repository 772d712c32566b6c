-- ===== src/Users/Overlap/Same.antt =====
-- users.rs: updates and deletions of one account, each taken further a statement at a time while the others run.
use mathlib.Core.Path.{subst}
use my_template.Prelude.{
  ℕ, ◌≤◌, String, ◌≡◌, refl, sym, ◌∙◌, Bool, true, false, not, ◌&&◌, Option, none, some, List, [],
  ◌∷◌, arith, str_eq, Bool-cases, ◌⊎◌, trim, inl, inr, if◌then◌else◌, ◌==◌,
}
use my_template.Core.{Result, ok, err}
use my_template.Storage.Overlap.{done, follow, ask, Running, Reach}
use my_template.Storage.Overlap.Guarantee.{Behaves, Reach-Good}
use my_template.Users.Role.{Role, admin, editor, viewer, as_str, from_str, is_admin}
use my_template.Users.Table.{
  UsersTable, UserRow, by_id, count_other_admins, other_admins, update_rows, set_profile,
  without_id, update_profile, delete_row,
}
use my_template.Users.Service.{role_or_missing}
use my_template.Users.Valid.{IsValid, admins}
use my_template.Users.Valid.Admins.{others-not_admin}
use my_template.Users.Safety.{Keeps}
use my_template.Users.Safety.Roles.{deletes_other, updates_other, promotes, role-counts}
use my_template.Users.Overlap.{
  AccountCall, update, delete, Answer, Steps, guard_steps, update_write, delete_write,
  update_checked, delete_checked, account_steps, last_admin,
}

-- A change of the row of an id leaves the other admins.
others-profile_same :
    (id : ℕ) (display_name role now : String) (rows : List UserRow)
    → count_other_admins id rows
      ≡ count_other_admins id (update_rows id (set_profile display_name role now) rows)
unfolding count_other_admins update_rows
others-profile_same id d role now [] = refl
others-profile_same id d role now (r ∷ rows) =
    ground (arith, others-profile_same id d role now rows)

others-without_same :
    (id : ℕ) (rows : List UserRow)
    → count_other_admins id rows ≡ count_other_admins id (without_id id rows)
unfolding count_other_admins without_id
others-without_same id [] = refl
others-without_same id (r ∷ rows) = ground (arith, others-without_same id rows)

-- The well-formed tables with an admin.
pub record HasAdmin (t : UsersTable) : Type 0 where
  pub valid : IsValid t
  pub admin_left : 1 ≤ admins t.rows

abbrev pub target : AccountCall → ℕ
target (update now id display_name role) = id
target (delete id acting_user_id) = id

module _ (show : ℕ → String) (id : ℕ) where
  -- A call on the account.
  abbrev pub OnAccount : Type 0
  OnAccount = (call : AccountCall) × (target call ≡ id)

  abbrev pub steps_on : OnAccount → Steps
  steps_on call = account_steps show call.0

  abbrev SameOthers : UsersTable → UsersTable → Type 0
  SameOthers t u = count_other_admins id t.rows ≡ count_other_admins id u.rows

  abbrev IsFine : Steps → UsersTable → Type 0
  IsFine = Behaves steps_on HasAdmin SameOthers (λ t u w p q. p ∙ q)

  kept : (t t' : UsersTable) → Keeps t t' → HasAdmin t → HasAdmin t'
  kept t t' k h = record { valid = k.valid; admin_left = k.admin_left h.admin_left }

  -- The row was no admin, so another is.
  another :
      (t : UsersTable) (r : UserRow) (role : Role)
      → HasAdmin t
      → by_id id t ≡ some r
      → from_str r.role ≡ ok role
      → is_admin role ≡ false
      → 1 ≤ count_other_admins id t.rows
  unfolding by_id
  another t r role h found read plain =
      let not_admin : str_eq r.role "admin" ≡ false =
        subst (λ b. str_eq r.role "admin" ≡ b) plain (role-counts r.role role read) in
      omega (arith, others-not_admin id t.rows r h.valid.distinct found not_admin, h.admin_left)

  update_write-IsFine :
      (now display_name : String) (role : Role) (t : UsersTable)
      → (role ≡ admin) ⊎ (1 ≤ count_other_admins id t.rows)
      → IsFine (update_write show now id display_name role) t
  unfolding update_write update_profile follow
  update_write-IsFine now display_name role t (inl e) = λ u same good. (
    subst (λ role. HasAdmin (update_profile id (trim display_name) (as_str role) now u).1) (sym e)
        (kept u _ (promotes u good.valid id (trim display_name) now) good),
    others-profile_same id (trim display_name) (as_str role) now u.rows,
    tt,
  )
  update_write-IsFine now display_name role t (inr others) = λ u same good. (
    kept u _ (updates_other u good.valid id (trim display_name) role now (omega arith)) good,
    others-profile_same id (trim display_name) (as_str role) now u.rows,
    tt,
  )

  delete_write-IsFine :
      (t : UsersTable) → 1 ≤ count_other_admins id t.rows → IsFine (delete_write show id) t
  unfolding delete_write delete_row follow
  delete_write-IsFine t others = λ u same good. (
    kept u _ (deletes_other u good.valid id (omega arith)) good,
    others-without_same id u.rows,
    tt,
  )

  guard_steps-IsFine :
      (guarded : Bool) (next : Steps) (t : UsersTable)
      → (guarded ≡ false → IsFine next t)
      → ((u : UsersTable) → 1 ≤ count_other_admins id u.rows → IsFine next u)
      → IsFine (guard_steps guarded id next) t
  unfolding guard_steps follow other_admins
  guard_steps-IsFine false next t plain guarded = plain refl
  guard_steps-IsFine true next t plain guarded = λ u same good. (good, refl, by_count u)
    where
      by_count :
          (u : UsersTable)
          → IsFine (if count_other_admins id u.rows == 0 then done (err last_admin) else next) u
      by_count u = elim (Bool-cases (count_other_admins id u.rows == 0)) [
        | inl e ↦ rw e tt
        | inr e ↦ rw e (guarded u (ground arith))
      ]

  -- What follows the role that was read.
  followed :
      (next : Role → Steps) (stored : Option UserRow) (t : UsersTable)
      → ((r : UserRow) (role : Role)
          → stored ≡ some r
          → from_str r.role ≡ ok role
          → IsFine (next role) t)
      → IsFine (follow next (role_or_missing show id stored)) t
  unfolding role_or_missing follow
  followed next none t f = tt
  followed next (some r) t f = read (from_str r.role) (λ role e. f r role refl e)
    where
      read :
          (text_role : Result Role)
          → ((role : Role) → text_role ≡ ok role → IsFine (next role) t)
          → IsFine (follow next text_role) t
      read (ok role) g = g role refl
      read (err e) g = tt

  unguarded :
      (current new : Role)
      → is_admin current && not (is_admin new) ≡ false
      → (new ≡ admin) ⊎ (is_admin current ≡ false)
  unfolding is_admin
  unguarded current admin e = inl refl
  unguarded current editor e = inr (ground arith)
  unguarded current viewer e = inr (ground arith)

  update_checked-IsFine :
      (now display_name : String) (role current : Role) (t : UsersTable)
      → (is_admin current ≡ false → 1 ≤ count_other_admins id t.rows)
      → IsFine (update_checked show now id display_name role current) t
  unfolding update_checked
  update_checked-IsFine now display_name role current t plain =
      guard_steps-IsFine _ _ t
        (λ e.
          update_write-IsFine now display_name role t
            (elim (unguarded current role e) [ inl new ↦ inl new | inr old ↦ inr (plain old) ]))
        (λ u others. update_write-IsFine now display_name role u (inr others))

  steps_on-IsFine : (call : OnAccount) (t : UsersTable) → HasAdmin t → IsFine (steps_on call) t
  unfolding account_steps delete_checked ask follow
  steps_on-IsFine (update now _ display_name role, e) t h =
      subst (λ i. IsFine (account_steps show (update now i display_name role)) t) (sym e)
        λ u same good. (
          good,
          refl,
          followed _ (by_id id u) u (λ r current found read.
              update_checked-IsFine now display_name role current u
                (another u r current good found read)),
        )
  steps_on-IsFine (delete _ acting_user_id, e) t h =
      subst (λ i. IsFine (account_steps show (delete i acting_user_id)) t) (sym e)
        (elim (Bool-cases (id == acting_user_id)) [
          | inl own ↦ rw own tt
          | inr other ↦ rw other λ u same good. (
            good,
            refl,
            followed _ (by_id id u) u (λ r current found read.
                guard_steps-IsFine (is_admin current) (delete_write show id) u
                  (λ plain. delete_write-IsFine u (another u r current good found read plain))
                  delete_write-IsFine),
          )
        ])

  -- However many updates and deletions of one account overlap, in whatever order their statements run and
  -- whichever of them fail: well-formed accounts with an admin stay so.
  pub overlap-HasAdmin :
      (t : UsersTable) {w : Running UsersTable Answer}
      → HasAdmin t
      → Reach steps_on (record { tables = t; calls = [] }) w
      → HasAdmin w.tables
  overlap-HasAdmin t h r =
      Reach-Good steps_on HasAdmin SameOthers (λ t u w p q. p ∙ q) (λ t. refl) steps_on-IsFine t h r
