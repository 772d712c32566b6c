-- ===== src/Users/Tests.antt =====
-- The service's laws at concrete accounts.
use my_template.Prelude.{
  ℕ, ◌≤◌, String, ◌<>◌, ◌≡◌, ◌≢◌, refl, none, some, [], ◌∷◌, arith, str_eq, length, trim, inl, inr,
}
use my_template.Core.{ok}
use my_template.Storage.{Pool}
use my_template.Storage.Overlap.{Running, Reach, here, next, begin, execute, done, follow, ask}
use my_template.Users.Overlap
use my_template.Users.Overlap.{
  AccountCall, Answer, updated, account_steps, account_call, update_checked, guard_steps,
  update_write,
}
use my_template.Users.Overlap.Same.{HasAdmin, overlap-HasAdmin}
use my_template.Users.Overlap.Apart.{last_admin_lost}
use my_template.Users.Role.{from_str, is_admin, admin, editor, viewer, as_str}
use my_template.Users.Input.{validate_username, validate_password_len}
use my_template.Users.Table.{UsersTable, UserRow, by_username, by_id, update_profile}
use my_template.Users.Service.{
  Argon2, UserIdentity, UserSummary, hashed, create_user, setup_first_user, verify, role_or_missing,
}
use my_template.Users.Valid.{IsValid, admins}
use my_template.Users.Accounts.{create_user-verify, setup_first_user-refused}
use my_template.Users.Safety.Serve.{serve_all, serve_all-Keeps, update, delete}

-- A hash of its own for each password, that shows the password.
abbrev plain_argon : Argon2
plain_argon = record {
  hash = λ salt password. hashed (salt <> password);
  check = λ password text. str_eq text ("salt" <> password);
}

abbrev root : UserRow
root = record {
  id = 1;
  username = "root";
  password_hash = "saltrootroot";
  display_name = "Root";
  created_at = "then";
  updated_at = "then";
  role = "admin";
}

abbrev table : UsersTable
table = record { rows = root ∷ []; next_id = 2 }

table-IsValid : IsValid table
unfolding as_str
table-IsValid = record {
  below = (omega arith, tt);
  distinct = (tt, tt, tt);
  roles = ((admin, refl), tt);
}

abbrev db : Pool UsersTable
db = record { tables = table; faults = none ∷ some "database is locked" ∷ [] }

abbrev show : ℕ → String
show n = "1"

serve_all-Keeps_example :
    IsValid (serve_all plain_argon show (update "now" 1 "Root" viewer ∷ delete 1 5 ∷ []) db).tables
    × (1 ≤ admins table.rows
        → 1
          ≤ admins
              (serve_all plain_argon show
                (update "now" 1 "Root" viewer ∷ delete 1 5 ∷ [])
                db).tables.rows)
serve_all-Keeps_example =
    serve_all-Keeps plain_argon show (update "now" 1 "Root" viewer ∷ delete 1 5 ∷ []) db
      table-IsValid

setup_first_user-refused_example :
    let (result, db') =
      setup_first_user plain_argon "salt" "now" "bob" "bobbobbob" "Bob"
        (record { tables = table; faults = none ∷ [] }) in
    (db'.tables ≡ table) × ((user : UserIdentity) → result ≢ ok user)
setup_first_user-refused_example =
    setup_first_user-refused plain_argon "salt" "now" "bob" "bobbobbob" "Bob" table (none ∷ [])
      (omega arith)

bob_name : validate_username " bob " ≡ ok "bob"
unfolding validate_username trim
bob_name = refl

bob_password : validate_password_len "bobbobbob" "password" ≡ ok tt
unfolding validate_password_len
bob_password = refl

bob_free : by_username "bob" table ≡ none
unfolding by_username
bob_free = refl

create_user-verify_example :
    let (created, after) =
      create_user plain_argon "salt" "now" " bob " "bobbobbob" "Bob" editor
        (record { tables = table; faults = [] }) in
    (user : UserIdentity) × (created ≡ ok user)
    × ((verify plain_argon "bob" "bobbobbob" after).0 ≡ ok (some user))
create_user-verify_example =
    create_user-verify plain_argon "salt" "now" " bob " "bobbobbob" "Bob" "bob" "saltbobbobbob"
      editor table bob_name bob_password bob_free refl refl

one_row : 1 ≤ length table.rows
one_row = omega arith

one_admin : 1 ≤ admins table.rows
unfolding admins
one_admin = omega arith

abbrev renaming : AccountCall
renaming = Overlap.update "now" 1 " Boss " admin

-- A deletion of the account begins before an update of it is written.
overlap-HasAdmin_example : HasAdmin (update_profile 1 "Boss" "admin" "now" table).1
unfolding account_steps follow ask update_checked role_or_missing by_id guard_steps update_write
    update_profile as_str is_admin trim from_str
overlap-HasAdmin_example =
    overlap-HasAdmin show 1 table (record { valid = table-IsValid; admin_left = one_admin })
      (next
        (next (next (next here (begin (renaming, refl))) (execute [] [] _ _ refl))
          (begin (Overlap.delete 1 5, refl)))
        (execute (account_steps show (Overlap.delete 1 5) ∷ []) [] _ _ refl))

abbrev boss : UserRow
boss = record root { id = 2; username = "boss" }

abbrev two_admins : UsersTable
two_admins = record { rows = root ∷ boss ∷ []; next_id = 3 }

last_admin_lost_example :
    (w : Running UsersTable Answer) × Reach
      (account_steps show)
      (record { tables = two_admins; calls = [] })
      w
    × (summary_a : UserSummary) × (summary_b : UserSummary) × (w.calls
        ≡ done (ok (updated summary_a)) ∷ done (ok (updated summary_b)) ∷ [])
    × (admins w.tables.rows ≡ 0)
unfolding by_id is_admin
last_admin_lost_example =
    last_admin_lost show "now" "Boss" editor 1 2 two_admins root boss refl (λ e. omega arith) refl
      refl refl refl (λ e. inl refl, (λ e. inr refl, tt))
