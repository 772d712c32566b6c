-- ===== src/Users/Safety/Serve.antt =====
-- users.rs: any sequence of calls of the service, with any failures among their statements.
use my_template.Prelude.{ℕ, ◌≤◌, String, List, [], ◌∷◌}
use my_template.Storage.{Pool}
use my_template.Users.Role.{Role}
use my_template.Users.Table.{UsersTable}
use my_template.Users.Service.{
  Argon2, setup_first_user, verify, change_password, create_user, reset_password, list_users,
  get_by_username, update_user, delete_user,
}
use my_template.Users.Valid.{IsValid, admins}
use my_template.Users.Safety.{Keeps}
use my_template.Users.Safety.Accounts.{
  setup_first_user-Kept, create_user-Kept, verify-Kept, change_password-Kept, reset_password-Kept,
  list_users-Kept, get_by_username-Kept,
}
use my_template.Users.Safety.Roles.{update_user-Kept, delete_user-Kept}

-- A call of the service, with the salt and the clock's text that it would draw.
pub data Call : Type 0 where
  set_up : (salt now username password display_name : String) → Call
  log_in : (username password : String) → Call
  change : (salt now username current new : String) → Call
  create : (salt now username password display_name : String) → Role → Call
  reset : (salt now : String) → ℕ → (new_password : String) → Call
  list : Call
  look_up : (username : String) → Call
  update : (now : String) → ℕ → (display_name : String) → Role → Call
  delete : (id acting_user_id : ℕ) → Call

module _ (argon : Argon2) (show : ℕ → String) where
  unfoldable pub serve : Call → Pool UsersTable → Pool UsersTable
  serve (set_up salt now username password display_name) db =
      (setup_first_user argon salt now username password display_name db).1
  serve (log_in username password) db = (verify argon username password db).1
  serve (change salt now username current new) db =
      (change_password argon salt now username current new db).1
  serve (create salt now username password display_name role) db =
      (create_user argon salt now username password display_name role db).1
  serve (reset salt now id new_password) db =
      (reset_password argon show salt now id new_password db).1
  serve list db = (list_users db).1
  serve (look_up username) db = (get_by_username username db).1
  serve (update now id display_name role) db = (update_user show now id display_name role db).1
  serve (delete id acting_user_id) db = (delete_user show id acting_user_id db).1

  unfoldable pub serve_all : List Call → Pool UsersTable → Pool UsersTable
  unfolding serve
  serve_all [] db = db
  serve_all (call ∷ calls) db = serve_all calls (serve call db)

  serve-Keeps :
      (call : Call) (db : Pool UsersTable)
      → IsValid db.tables
      → Keeps db.tables (serve call db).tables
  unfolding serve
  serve-Keeps (set_up salt now username password display_name) db v =
      (setup_first_user-Kept db.tables v argon salt now username password display_name).from
        db.faults
  serve-Keeps (log_in username password) db v =
      (verify-Kept db.tables v argon username password).from db.faults
  serve-Keeps (change salt now username current new) db v =
      (change_password-Kept db.tables v argon salt now username current new).from db.faults
  serve-Keeps (create salt now username password display_name role) db v =
      (create_user-Kept db.tables v argon salt now username password display_name role).from
        db.faults
  serve-Keeps (reset salt now id new_password) db v =
      (reset_password-Kept db.tables v argon show salt now id new_password).from db.faults
  serve-Keeps list db v = (list_users-Kept db.tables v).from db.faults
  serve-Keeps (look_up username) db v = (get_by_username-Kept db.tables v username).from db.faults
  serve-Keeps (update now id display_name role) db v =
      (update_user-Kept db.tables v show now id display_name role).from db.faults
  serve-Keeps (delete id acting_user_id) db v =
      (delete_user-Kept db.tables v show id acting_user_id).from db.faults

  -- From a well-formed `users` table (distinct ids, distinct names, readable roles) any sequence of the
  -- service's calls, with any of their statements failing, leaves a well-formed table; and where there was
  -- an admin, there still is one.
  pub serve_all-Keeps :
      (calls : List Call) (db : Pool UsersTable)
      → IsValid db.tables
      → IsValid (serve_all calls db).tables
        × (1 ≤ admins db.tables.rows → 1 ≤ admins (serve_all calls db).tables.rows)
  unfolding serve_all
  serve_all-Keeps [] db v = (v, λ le. le)
  serve_all-Keeps (call ∷ calls) db v =
      let k : Keeps db.tables (serve call db).tables = serve-Keeps call db v in
      let (v', left) = serve_all-Keeps calls (serve call db) k.valid in
      (v', λ le. left (k.admin_left le))
