-- ===== src/Users/Table.antt =====
-- users.rs: the `users` table (migrations 0003 and 0004), and the statements that the service sends to
-- it. `username` is unique, and AUTOINCREMENT never gives an id twice.
use my_template.Prelude.{
  ℕ, suc, String, Bool, true, false, not, ◌&&◌, Option, none, some, List, [], ◌∷◌, ◌++◌, str_eq,
  ◌==◌, length, if◌then◌else◌,
}
use my_template.Core.{ok, err, storage}
use my_template.Storage.{Sql}

pub record UserRow : Type 0 where
  pub id : ℕ
  pub username : String
  pub password_hash : String
  pub display_name : String
  pub created_at : String
  pub updated_at : String
  pub role : String

pub record UsersTable : Type 0 where
  pub rows : List UserRow
  pub next_id : ℕ

-- `SELECT COUNT(*) FROM users`
unfoldable pub count_users : UsersTable → ℕ
count_users t = length t.rows

unfoldable pub find_name : String → List UserRow → Option UserRow
find_name name [] = none
find_name name (r ∷ rows) = if str_eq r.username name then some r else find_name name rows

-- `SELECT … WHERE username = ?`
unfoldable pub by_username : String → UsersTable → Option UserRow
unfolding find_name
by_username name t = find_name name t.rows

unfoldable pub find_id : ℕ → List UserRow → Option UserRow
find_id id [] = none
find_id id (r ∷ rows) = if r.id == id then some r else find_id id rows

-- `SELECT … WHERE id = ?`
unfoldable pub by_id : ℕ → UsersTable → Option UserRow
unfolding find_id
by_id id t = find_id id t.rows

unfoldable pub count_other_admins : ℕ → List UserRow → ℕ
count_other_admins id [] = 0
count_other_admins id (r ∷ rows) =
    if str_eq r.role "admin" && not (r.id == id)
    then suc (count_other_admins id rows)
    else count_other_admins id rows

-- `SELECT COUNT(*) FROM users WHERE role = 'admin' AND id != ?`
unfoldable pub other_admins : ℕ → UsersTable → ℕ
unfolding count_other_admins
other_admins id t = count_other_admins id t.rows

abbrev is_taken : Option UserRow → Bool
is_taken none = false
is_taken (some _) = true

abbrev pub new_row : ℕ → String → String → String → String → String → UserRow
new_row id username hash display_name role now = record {
  id = id;
  username = username;
  password_hash = hash;
  display_name = display_name;
  created_at = now;
  updated_at = now;
  role = role;
}

-- `INSERT INTO users … RETURNING id`, which the unique name may refuse.
unfoldable pub insert_user : String → String → String → String → String → Sql UsersTable ℕ
unfolding by_username
insert_user username hash display_name role now t =
    if is_taken (by_username username t)
    then (err (storage "UNIQUE constraint failed: users.username"), t)
    else (
      ok t.next_id,
      record {
        rows = t.rows ++ new_row t.next_id username hash display_name role now ∷ [];
        next_id = suc t.next_id;
      },
    )

unfoldable pub update_rows : ℕ → (UserRow → UserRow) → List UserRow → List UserRow
update_rows id change [] = []
update_rows id change (r ∷ rows) = (if r.id == id then change r else r) ∷ update_rows id change rows

abbrev pub set_password : String → String → UserRow → UserRow
set_password hash now r = record r { password_hash = hash; updated_at = now }

abbrev pub set_profile : String → String → String → UserRow → UserRow
set_profile display_name role now r = record r {
  display_name = display_name;
  role = role;
  updated_at = now;
}

abbrev affected : Option UserRow → ℕ
affected none = 0
affected (some _) = 1

-- `UPDATE users SET password_hash = ?, updated_at = datetime('now') WHERE id = ?`: the rows affected.
unfoldable pub update_password : ℕ → String → String → Sql UsersTable ℕ
unfolding update_rows by_id
update_password id hash now t =
    (ok (affected (by_id id t)), record t { rows = update_rows id (set_password hash now) t.rows })

-- `UPDATE users SET display_name = ?, role = ?, … WHERE id = ? RETURNING …`
unfoldable pub update_profile : ℕ → String → String → String → Sql UsersTable (Option UserRow)
unfolding update_rows by_id
update_profile id display_name role now t =
    let t' = record t { rows = update_rows id (set_profile display_name role now) t.rows } in
    (ok (by_id id t'), t')

unfoldable pub without_id : ℕ → List UserRow → List UserRow
without_id id [] = []
without_id id (r ∷ rows) = if r.id == id then without_id id rows else r ∷ without_id id rows

-- `DELETE FROM users WHERE id = ?`
unfoldable pub delete_row : ℕ → Sql UsersTable ℕ
unfolding without_id by_id
delete_row id t = (ok (affected (by_id id t)), record t { rows = without_id id t.rows })
