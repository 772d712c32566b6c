-- ===== src/Users/Service.antt =====
-- users.rs, `UsersService`.
use my_template.Prelude.{
  ℕ, String, ◌<>◌, Bool, true, false, not, ◌&&◌, Option, none, some, List, [], ◌∷◌, trim, ltb, ◌==◌,
  if◌then◌else◌,
}
use my_template.Core.{BantoError, Result, ok, err, not_found, other}
use my_template.Storage.{Exec, statement, query, pure, raise, lift, ◌>>=◌, ◌>>◌}
use my_template.Users.Role.{Role, admin, as_str, from_str, is_admin}
use my_template.Users.Input.{validate_username, validate_password_len, field_problem}
use my_template.Users.Table.{
  UsersTable, UserRow, count_users, by_username, by_id, other_admins, insert_user, update_password,
  update_profile, delete_row,
}

pub record UserIdentity : Type 0 where
  pub id : ℕ
  pub username : String
  pub display_name : String
  pub role : Role

pub record UserSummary : Type 0 where
  pub id : ℕ
  pub username : String
  pub display_name : String
  pub role : Role
  pub created_at : String

pub data Hashed : Type 0 where
  hashed : String → Hashed
  unhashed : String → Hashed

-- The argon2 crate: a salted hash (or its error's text), and the check of a password against a hash,
-- which is `false` for a text that is no hash.
pub record Argon2 : Type 0 where
  pub hash : String → String → Hashed
  pub check : String → String → Bool

abbrev pub Users : Type 0 → Type 0
Users = Exec UsersTable

abbrev hash_result : Hashed → Result String
hash_result (hashed text) = ok text
hash_result (unhashed problem) = err (other ("パスワードのハッシュ化に失敗しました: " <> problem))

unfoldable pub hash_password : Argon2 → String → String → Result String
hash_password argon salt password = hash_result (argon.hash salt password)

-- `verify_password`; that the dummy hash is checked for an unknown name has no effect but time.
unfoldable pub verify_password : Argon2 → String → String → Bool
verify_password argon password hash = argon.check password hash

unfoldable pub is_initialized : Users Bool
is_initialized = query (λ t. ltb 0 (count_users t))

-- The error of a missing account, with its id as a text.
abbrev missing : (ℕ → String) → ℕ → BantoError
missing show id = not_found "users" (show id)

abbrev wrong_current : BantoError
wrong_current = field_problem "currentPassword" "現在のパスワードが違います"

abbrev is_some {ℓ} : {A : Type ℓ} → Option A → Bool
is_some none = false
is_some (some _) = true

abbrev pub identity_of : String → UserRow → Role → UserIdentity
identity_of username r role = record {
  id = r.id;
  username = username;
  display_name = r.display_name;
  role = role;
}

abbrev summary_of : UserRow → Role → UserSummary
summary_of r role = record {
  id = r.id;
  username = r.username;
  display_name = r.display_name;
  role = role;
  created_at = r.created_at;
}

module _ (argon : Argon2) where
  unfoldable pub setup_first_user : String → String → String → String → String → Users UserIdentity
  unfolding is_initialized hash_password
  setup_first_user salt now username password display_name = do
    initialized ← is_initialized
    if initialized then raise (other "既に初期化されています") else do
      name ← lift (validate_username username)
      lift (validate_password_len password "password")
      hash ← lift (hash_password argon salt password)
      id ← statement (insert_user name hash (trim display_name) (as_str admin) now)
      pure (record { id = id; username = name; display_name = trim display_name; role = admin })

  unfoldable pub verify_row : String → String → Option UserRow → Users (Option UserIdentity)
  unfolding verify_password
  verify_row username password none = pure none
  verify_row username password (some r) =
      if verify_password argon password r.password_hash
      then (do role ← lift (from_str r.role); pure (some (identity_of username r role)))
      else pure none

  unfoldable pub verify : String → String → Users (Option UserIdentity)
  unfolding verify_row
  verify username password = do row ← query (by_username username); verify_row username password row

  unfoldable pub change_row : String → String → String → String → Option UserRow → Users (Unit {0})
  unfolding verify_password hash_password
  change_row salt now current new none = raise wrong_current
  change_row salt now current new (some r) =
      if verify_password argon current r.password_hash
      then (do
        lift (validate_password_len new "newPassword")
        new_hash ← lift (hash_password argon salt new)
        affected ← statement (update_password r.id new_hash now)
        pure tt)
      else raise wrong_current

  unfoldable pub change_password : String → String → String → String → String → Users (Unit {0})
  unfolding change_row
  change_password salt now username current new = do
    row ← query (by_username username)
    change_row salt now current new row

  unfoldable pub create_user :
      String → String → String → String → String → Role → Users UserIdentity
  unfolding hash_password
  create_user salt now username password display_name role = do
    name ← lift (validate_username username)
    lift (validate_password_len password "password")
    existing ← query (by_username name)
    if is_some existing then raise (field_problem "username" "このユーザー名は既に使用されています") else (do
      hash ← lift (hash_password argon salt password)
      id ← statement (insert_user name hash (trim display_name) (as_str role) now)
      pure (record { id = id; username = name; display_name = trim display_name; role = role }))

  unfoldable pub reset_password : (ℕ → String) → String → String → ℕ → String → Users (Unit {0})
  unfolding hash_password
  reset_password show salt now id new_password = do
    lift (validate_password_len new_password "newPassword")
    hash ← lift (hash_password argon salt new_password)
    affected ← statement (update_password id hash now)
    if affected == 0 then raise (missing show id) else pure tt

prepend : UserSummary → Result (List UserSummary) → Result (List UserSummary)
prepend s (ok rest) = ok (s ∷ rest)
prepend s (err e) = err e

-- The first role that does not read ends the collection.
summarise : UserRow → Result Role → Result (List UserSummary) → Result (List UserSummary)
unfolding prepend
summarise r (ok role) rest = prepend (summary_of r role) rest
summarise r (err e) rest = err e

unfoldable pub summaries : List UserRow → Result (List UserSummary)
unfolding summarise
summaries [] = ok []
summaries (r ∷ rows) = summarise r (from_str r.role) (summaries rows)

-- `ORDER BY id` is the order of insertion.
unfoldable pub list_users : Users (List UserSummary)
unfolding summaries
list_users = do rows ← query (λ t. t.rows); lift (summaries rows)

unfoldable pub maybe_identity : String → Option UserRow → Users (Option UserIdentity)
maybe_identity username none = pure none
maybe_identity username (some r) = do
  role ← lift (from_str r.role)
  pure (some (identity_of username r role))

unfoldable pub get_by_username : String → Users (Option UserIdentity)
unfolding maybe_identity
get_by_username username = do row ← query (by_username username); maybe_identity username row

unfoldable pub summarise_one : UserRow → Result Role → Result UserSummary
summarise_one r (ok role) = ok (summary_of r role)
summarise_one r (err e) = err e

-- `ensure_not_last_admin`, where the guard asks for it; what `next` does comes after, in statements of
-- their own: the guards and the writes are not in one transaction.
unfoldable pub unless_last_admin : {A : Type 0} → Bool → ℕ → Users A → Users A
unless_last_admin guarded id next =
    if guarded
    then (do
      remaining_admins ← query (other_admins id)
      if remaining_admins == 0 then raise (other "最後の管理者を降格・削除することはできません") else next)
    else next

module _ (show : ℕ → String) where
  unfoldable pub role_or_missing : ℕ → Option UserRow → Result Role
  role_or_missing id none = err (missing show id)
  role_or_missing id (some r) = from_str r.role

  unfoldable pub found_summary : ℕ → Option UserRow → Result UserSummary
  found_summary id none = err (missing show id)
  found_summary id (some r) = summarise_one r (from_str r.role)

  unfoldable pub update_user : String → ℕ → String → Role → Users UserSummary
  unfolding role_or_missing unless_last_admin found_summary summarise_one
  update_user now id display_name role = do
    stored ← query (by_id id)
    current_role ← lift (role_or_missing id stored)
    unless_last_admin (is_admin current_role && not (is_admin role)) id (do
      row ← statement (update_profile id (trim display_name) (as_str role) now)
      lift (found_summary id row))

  unfoldable pub delete_user : ℕ → ℕ → Users (Unit {0})
  unfolding role_or_missing unless_last_admin
  delete_user id acting_user_id =
      if id == acting_user_id then raise (other "自分自身を削除することはできません") else do
        stored ← query (by_id id)
        role ← lift (role_or_missing id stored)
        unless_last_admin (is_admin role) id (do
          affected ← statement (delete_row id)
          if affected == 0 then raise (missing show id) else pure tt)
