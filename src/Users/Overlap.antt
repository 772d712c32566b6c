-- ===== src/Users/Overlap.antt =====
-- users.rs, `update_user` and `delete_user` statement by statement: the role is read, the other admins are counted,
-- the row is written, and other calls may run in between.
pub mod Same
pub mod Apart
use my_template.Prelude.{ℕ, String, ◌≡◌, Bool, true, false, not, ◌&&◌, trim, ◌==◌, if◌then◌else◌}
use my_template.Core.{BantoError, Result, ok, err, not_found, other}
use my_template.Storage.{Pool, statement, query, pure, raise, lift, ◌>>=◌}
use my_template.Storage.Overlap.{
  Program, done, follow, send, ask, run, run-send_then, run-follow_then, run-raise, run-pure,
  run-labelled, labelled,
}
use my_template.Users.Role.{Role, as_str, is_admin}
use my_template.Users.Table.{UsersTable, by_id, other_admins, update_profile, delete_row}
use my_template.Users.Service.{
  UserSummary, Users, update_user, delete_user, role_or_missing, unless_last_admin, found_summary,
}

pub data AccountCall : Type 0 where
  update : (now : String) → ℕ → (display_name : String) → Role → AccountCall
  delete : (id acting_user_id : ℕ) → AccountCall

pub data Answer : Type 0 where
  updated : UserSummary → Answer
  deleted : Answer

abbrev pub Steps : Type 0
Steps = Program UsersTable Answer

abbrev pub last_admin : BantoError
last_admin = other "最後の管理者を降格・削除することはできません"

abbrev pub own_account : BantoError
own_account = other "自分自身を削除することはできません"

-- `ensure_not_last_admin`, where it is asked for.
unfoldable pub guard_steps : Bool → ℕ → Steps → Steps
unfolding ask
guard_steps guarded id next =
    if guarded
    then ask (other_admins id)
        (λ remaining_admins. if remaining_admins == 0 then done (err last_admin) else next)
    else next

module _ (show : ℕ → String) where
  unfoldable pub deleted_or : ℕ → ℕ → Result Answer
  deleted_or id affected = if affected == 0 then err (not_found "users" (show id)) else ok deleted

  unfoldable pub update_write : String → ℕ → String → Role → Steps
  unfolding send labelled found_summary
  update_write now id display_name role =
      send (update_profile id (trim display_name) (as_str role) now)
        (λ row. done (labelled updated (found_summary show id row)))

  unfoldable pub delete_write : ℕ → Steps
  unfolding send deleted_or
  delete_write id = send (delete_row id) (λ affected. done (deleted_or id affected))

  unfoldable pub update_checked : String → ℕ → String → Role → Role → Steps
  unfolding guard_steps update_write
  update_checked now id display_name role current_role =
      guard_steps (is_admin current_role && not (is_admin role)) id
        (update_write now id display_name role)

  unfoldable pub delete_checked : ℕ → Role → Steps
  unfolding guard_steps delete_write
  delete_checked id role = guard_steps (is_admin role) id (delete_write id)

  unfoldable pub account_steps : AccountCall → Steps
  unfolding ask follow update_checked delete_checked role_or_missing
  account_steps (update now id display_name role) =
      ask (by_id id) (λ stored.
        follow (update_checked now id display_name role) (role_or_missing show id stored))
  account_steps (delete id acting_user_id) =
      if id == acting_user_id
      then done (err own_account)
      else ask (by_id id) (λ stored. follow (delete_checked id) (role_or_missing show id stored))

  -- The call by the service's method.
  unfoldable pub account_call : AccountCall → Users Answer
  unfolding update_user delete_user
  account_call (update now id display_name role) =
      update_user show now id display_name role >>= λ summary. pure (updated summary)
  account_call (delete id acting_user_id) =
      delete_user show id acting_user_id >>= λ gone. pure deleted

  guard_steps_lem :
      {Y : Type 0} (guarded : Bool) (id : ℕ) (next : Steps) (method : Users Y)
      (after : Y → Users Answer)
      → ((db : Pool UsersTable) → run next db ≡ (method >>= after) db)
      → (db : Pool UsersTable)
      → run (guard_steps guarded id next) db ≡ (unless_last_admin guarded id method >>= after) db
  unfolding guard_steps unless_last_admin query
  guard_steps_lem false id next method after same db = same db
  guard_steps_lem true id next method after same db =
      run-send_then after _ _ _ (λ remaining db. by_count (remaining == 0) db) db
    where
      by_count :
          (none_left : Bool) (db : Pool UsersTable)
          → run (if none_left then done (err last_admin) else next) db
            ≡ ((if none_left then raise last_admin else method) >>= after) db
      by_count true db = run-raise after last_admin db
      by_count false db = same db

  update_write_lem :
      (now : String) (id : ℕ) (display_name : String) (role : Role) (db : Pool UsersTable)
      → run (update_write now id display_name role) db
        ≡ (statement (update_profile id (trim display_name) (as_str role) now)
              >>= (λ row. lift (found_summary show id row))
              >>= λ summary. pure (updated summary))
            db
  unfolding update_write
  update_write_lem now id display_name role db =
      run-send_then (λ summary. pure (updated summary)) _ _ _
        (λ row db. run-labelled updated (found_summary show id row) db) db

  delete_write_lem :
      (id : ℕ) (db : Pool UsersTable)
      → run (delete_write id) db
        ≡ (statement (delete_row id)
              >>= (λ affected.
                  if affected == 0 then raise (not_found "users" (show id)) else pure tt)
              >>= λ gone. pure deleted)
            db
  unfolding delete_write deleted_or
  delete_write_lem id db =
      run-send_then (λ gone. pure deleted) _ _ _ (λ affected db. by_count (affected == 0) db) db
    where
      by_count :
          (none_gone : Bool) (db : Pool UsersTable)
          → run (done (if none_gone then err (not_found "users" (show id)) else ok deleted)) db
            ≡ ((if none_gone then raise (not_found "users" (show id)) else pure tt) >>= λ gone.
                  pure deleted)
                db
      by_count true db =
          run-raise {Y = Unit {0}} (λ gone. pure deleted) (not_found "users" (show id)) db
      by_count false db = run-pure {Y = Unit {0}} (λ gone. deleted) tt db

  -- Where no other call runs, the statements of a call make, whichever of them fail, what the method of
  -- the service makes: the same answer, the same tables.
  pub run-account_steps :
      (call : AccountCall) (db : Pool UsersTable)
      → run (account_steps call) db ≡ account_call call db
  unfolding account_steps account_call query
  run-account_steps (update now id display_name role) db =
      run-send_then (λ summary. pure (updated summary)) _ _ _
        (λ stored db.
          run-follow_then (λ summary. pure (updated summary)) _ _
            (λ current db.
              guard_steps_lem _ id _ _ _ (update_write_lem now id display_name role) db)
            (role_or_missing show id stored) db)
        db
  run-account_steps (delete id acting_user_id) db = by_test (id == acting_user_id)
    where
      by_test :
          (own : Bool)
          → run
              (if own
                then done (err own_account)
                else ask
                    (by_id id)
                    (λ stored. follow (delete_checked id) (role_or_missing show id stored)))
              db
            ≡ ((if own
                    then raise own_account
                    else (query (by_id id) >>= λ stored.
                        lift (role_or_missing show id stored) >>= λ role.
                        unless_last_admin (is_admin role) id (
                          statement (delete_row id) >>= λ affected.
                          if affected == 0 then raise (not_found "users" (show id)) else pure tt)))
                  >>= λ gone. pure deleted)
                db
      by_test true = run-raise {Y = Unit {0}} (λ gone. pure deleted) own_account db
      by_test false =
          run-send_then {Y = Unit {0}} (λ gone. pure deleted) _ _ _
            (λ stored db.
              run-follow_then {Y = Unit {0}} (λ gone. pure deleted) _ _
                (λ role db. guard_steps_lem _ id _ _ _ (delete_write_lem id) db)
                (role_or_missing show id stored) db)
            db
