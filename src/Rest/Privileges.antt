-- ===== src/Rest/Privileges.antt =====
-- rest/mod.rs: what a session without the role of an editor can change.
pub mod Calls
use mathlib.Core.Path.{subst}
use my_template.Prelude.{
  ℕ, ◌≡◌, ◌≢◌, refl, sym, ap, ◌∙◌, ◌⊎◌, inl, inr, Bool, true, false, String, Option, none, some,
  Option-cases, Bool-cases, arith, if◌then◌else◌, eq_iff,
}
use my_template.Prelude.Maps.{Map, insert}
use my_template.Core.{BantoError, unauthorized, Result, ok, err}
use my_template.Core.Params.{ListParams}
use my_template.Auth.{AuthState, Identity}
use my_template.Auth.Tokens.{identity_for}
use my_template.Http.{Request, Response, Next, bearer_token, require_auth, unauthorized_response}
use my_template.Http.Guards.{refused, admitted}
use my_template.Storage.{Exec, Pool, query, pure, raise, ◌>>=◌}
use my_template.Storage.Ensures.{
  Post, Ensures, Goes, Ensures-bind, Ensures-pure, Ensures-raise, Ensures-query, Ensures-lift,
  Ensures-statement, Ensures-weaken, Ensures-then,
}
use my_template.Storage.Rows.{find_row}
use my_template.Users.Role.{Role, editor}
use my_template.Settings.Service.{get, set, ui_get, ui_set, ui_storage_key}
use my_template.Settings.Values.{validate_ui_key, validate_ui_value}
use my_template.Items.Service.{Store, item_id}
use my_template.Items.Service as Items
use my_template.Attachments.{Attached}
use my_template.Attachments.Ensures.{
  Same, list_for_record-Same, read_body-Same, read_thumbnail-Same,
}
use my_template.Rest.World.{
  Data, Server, Handler, Part, serve_with, respond, zoom, at_store, at_settings, at_attached,
}
use my_template.Rest.Env.{Env}
use my_template.Rest.Session.{IsSession, IsActor, KeepsSession, resolve-IsActor, identity_for-keeps}
use my_template.Rest.Ensures.{at_part, Ensures-zoom, Ensures-actor}
use my_template.Rest.Audited.{id_of}
use my_template.Rest.Items.{items_list, items_get}
use my_template.Rest.Users.{acting_username, known, ui_settings_get, ui_settings_set}
use my_template.Rest.Files.{attachments_list, attachments_download, attachments_thumbnail}
use my_template.Rest.Denied.{TooLow, IsDenied, require_role_at_least-IsDenied}
use my_template.Rest.Routes.{
  OpenCall, RoleCall, Call, open_call, role_call, open_handler, guarded, answer_call, route_of,
  list_items, get_item, list_attachments, download_attachment, show_thumbnail, get_ui_setting,
  set_ui_setting,
}

-- Accounts, items, events, attachments and files are as they were, and of the settings all but those that
-- the user of the request's session has for itself.
pub record OnlyOwn (req : Request) (s : AuthState) (d d' : Data) : Type 0 where
  pub users : d'.users ≡ d.users
  pub store : d'.store ≡ d.store
  pub metas : d'.attached.metas ≡ d.attached.metas
  pub files : d'.attached.disk.files ≡ d.attached.disk.files
  pub settings :
      (key : String)
      → ((i : Identity) → IsSession req s i → (own : String) → key ≢ ui_storage_key i.id own)
      → d'.settings key ≡ d.settings key

pub only_own : (req : Request) (s : AuthState) (d : Data) → OnlyOwn req s d d
only_own req s d = record {
  users = refl;
  store = refl;
  metas = refl;
  files = refl;
  settings = λ key other. refl;
}

module _ (t : Store) where
  list-Same :
      (show : _) (engine : Items.Engine) (params : ListParams)
      → Ensures t (Items.list show engine params) (λ r t'. t' ≡ t)
  unfolding Items.list
  list-Same show engine params =
      Ensures-lift _ _ (λ e bad. refl)
        λ pieces good.
          Ensures-query _ _ (λ text. refl)
            (Ensures-lift _ _ (λ e bad. refl)
              λ conditions fine. Ensures-query _ _ (λ text. refl) (Ensures-pure _ refl))

  get-Same : (id : ℕ) → Ensures t (Items.get id) (λ r t'. t' ≡ t)
  unfolding Items.get Items.found
  get-Same id =
      Ensures-query _ _ (λ text. refl)
        (elim (Option-cases (find_row item_id id t.items.rows)) [
          | inl e ↦ rw e (Ensures-raise _ refl)
          | inr (item, e) ↦ rw e (Ensures-pure item refl)
        ])

-- The keys that `ui_set` may change.
module _ (username : String) (t : Map String) where
  abbrev OwnKeys : {A : Type 0} → Post (Map String) A
  OwnKeys r t' =
      (key : String) → ((own : String) → key ≢ ui_storage_key username own) → t' key ≡ t key

  ui_get-OwnKeys : (key : String) → Ensures t (ui_get username key) OwnKeys
  unfolding ui_get get query
  ui_get-OwnKeys key =
      Ensures-lift _ _ (λ e bad k other. refl)
        λ fine good. Ensures-statement _ (λ text k other. refl) (λ k other. refl)

  inserted : (k v key : String) → key ≢ k → insert k v t key ≡ t key
  inserted k v key ne = ground (arith, eq_iff k key, ne)

  ui_set-OwnKeys : (key value : String) → Ensures t (ui_set username key value) OwnKeys
  unfolding ui_set set
  ui_set-OwnKeys key value =
      Ensures-lift _ _ (λ e bad k other. refl)
        λ fine good.
          Ensures-lift _ _ (λ e bad k other. refl)
            λ fine good.
              Ensures-statement _ (λ text k other. refl)
                (λ k other. inserted (ui_storage_key username key) value k (other key))
