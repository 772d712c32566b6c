-- ===== src/Rest/Users.antt =====
-- rest/users.rs and rest/ui_settings.rs: the handlers of the accounts, and of a user's own settings.
use my_template.Prelude.{ℕ, String, Option, none, some, to_string}
use my_template.Core.{unauthorized}
use my_template.Core.Params.{string}
use my_template.Http.{Request, Response}
use my_template.Http.Answers.{UserIdentityResponse, user_identity, user, users, succeeded, setting}
use my_template.Storage.{pure, raise, ◌>>=◌, ◌>>◌}
use my_template.Users.Role.{Role, as_str}
use my_template.Users.Service.{UserIdentity}
use my_template.Users.Service
use my_template.Settings.Service.{ui_get, ui_set}
use my_template.Rest.World.{Handler, zoom, at_users, at_settings, actor_identity}
use my_template.Rest.Env.{Env}
use my_template.Rest.Json.{one, two}
use my_template.Rest.Items.{json, no_content}
use my_template.Rest.Audited.{record_write, id_of}

abbrev identity_response : UserIdentity → UserIdentityResponse
identity_response i = record {
  id = i.id;
  username = i.username;
  display_name = i.display_name;
  role = i.role;
}

-- `ok_or(Unauthorized)`
unfoldable pub known : {A : Type 0} → Option A → Handler A
known none = raise unauthorized
known (some a) = pure a

module _ {Picture : Type 0} (env : Env Picture) where
  unfoldable pub acting_username : Request → Handler String
  acting_username req = do identity ← actor_identity env.clock.handler req; known (id_of identity)

  unfoldable pub acting_user : Request → Handler UserIdentity
  acting_user req = do
    username ← acting_username req
    found ← zoom at_users (Service.get_by_username username)
    known found

  unfoldable pub users_list : Handler Response
  users_list = do found ← zoom at_users Service.list_users; pure (json (users found))

  unfoldable pub users_create : String → String → String → Role → Request → Handler Response
  users_create username password display_name role req = do
    created ←
        zoom at_users
          (Service.create_user env.argon env.salt env.now username password display_name role)
    record_write env req "create" "users" (to_string created.id)
        (some (two "username" (string created.username) "role" (string (as_str created.role))))
    pure (json (user_identity (identity_response created)))

  unfoldable pub users_update : ℕ → String → Role → Request → Handler Response
  users_update id display_name role req = do
    updated ← zoom at_users (Service.update_user to_string env.now id display_name role)
    record_write env req "update" "users" (to_string id)
        (some (one "role" (string (as_str updated.role))))
    pure (json (user updated))

  unfoldable pub users_reset_password : ℕ → String → Request → Handler Response
  users_reset_password id new_password req = do
    zoom at_users (Service.reset_password env.argon to_string env.salt env.now id new_password)
    record_write env req "password_reset" "users" (to_string id) none
    pure (json succeeded)

  unfoldable pub users_delete : ℕ → Request → Handler Response
  users_delete id req = do
    acting ← acting_user req
    zoom at_users (Service.delete_user to_string id acting.id)
    record_write env req "delete" "users" (to_string id) none
    pure no_content

  unfoldable pub ui_settings_get : String → Request → Handler Response
  ui_settings_get key req = do
    username ← acting_username req
    value ← zoom at_settings (ui_get username key)
    pure (json (setting value))

  unfoldable pub ui_settings_set : String → String → Request → Handler Response
  ui_settings_set key value req = do
    username ← acting_username req
    zoom at_settings (ui_set username key value)
    pure no_content
