-- ===== src/Rest/Privileges/Calls.antt =====
-- rest/mod.rs: what the calls of a session change that has not the role of an editor.
use mathlib.Core.Path.{subst}
use my_template.Prelude.{
  ◌≡◌, ◌≢◌, refl, sym, ap, inl, inr, String, Option, none, some, Option-cases, false, arith, List,
}
use my_template.Prelude.Maps.{Map}
use my_template.Core.{unauthorized, Result, ok, err}
use my_template.Auth.{AuthState, Identity}
use my_template.Http.{Request, Response, bearer_token, require_auth}
use my_template.Http.Guards.{refused, admitted}
use my_template.Storage.{Exec, Pool, pure, raise, ◌>>=◌}
use my_template.Storage.Ensures.{
  Post, Ensures, Goes, Ensures-bind, Ensures-pure, Ensures-raise, Ensures-assoc,
}
use my_template.Users.Role.{Role, admin, editor, viewer, at_least}
use my_template.Attachments.Ensures.{list_for_record-Same, read_body-Same, read_thumbnail-Same}
use my_template.Rest.World.{
  Data, Server, Part, serve_with, zoom, at_store, at_settings, at_attached,
}
use my_template.Rest.Env.{Env}
use my_template.Rest.Session.{
  IsActor, KeepsSession, resolve-IsActor, identity_for-keeps, identity_for-cases,
}
use my_template.Rest.Ensures.{at_part, Ensures-zoom, Ensures-actor}
use my_template.Rest.Audited.{id_of}
use my_template.Rest.Items.{items_list, items_get}
use my_template.Rest.Users.{acting_username, known, ui_settings_get, ui_settings_set}
use my_template.Rest.Files.{attachments_list, attachments_download, attachments_thumbnail}
use my_template.Rest.Denied.{TooLow, require_role_at_least-IsDenied}
use my_template.Rest.Privileges.{
  OnlyOwn, only_own, list-Same, get-Same, OwnKeys, ui_get-OwnKeys, ui_set-OwnKeys,
}
use my_template.Rest.Routes.{
  OpenCall, RoleCall, AuthCall, Call, open_call, role_call, auth_call, open_handler, role_handler,
  guarded, answer_call, route_of, list_items, get_item, list_attachments, download_attachment,
  show_thumbnail, get_ui_setting, set_ui_setting,
}

module _ {Picture : Type 0} (env : Env Picture) (req : Request) (t : Server) where
  abbrev Own : Post Server Response
  Own r t' = OnlyOwn req t.auth t.parts t'.parts

  module _ {T A : Type 0} {P : Post T A} (part : Part T) (m : Exec T A) (f : A → Response)
      (t' : Server) (p : Ensures (part.look t'.parts) m P)
      (kept : (r : Result A) (x : T)
        → P r x
        → OnlyOwn req t.auth t.parts (part.put x t'.parts)) where
    goes :
        (r : Result A) (x : T)
        → OnlyOwn req t.auth t.parts (part.put x t'.parts)
        → Goes Own (λ a. pure (f a)) (r, at_part part t' x)
    goes (ok a) x h = Ensures-pure _ h
    goes (err e) x h = h

    reading : Ensures t' (zoom part m >>= λ a. pure (f a)) Own
    reading = Ensures-zoom part m p _ λ r x h. goes r x (kept r x h)

  module _ {A : Type 0} (m : String → Exec (Map String) A) (f : A → Response)
      (p : (name : String)
        → Ensures t.parts.settings (m name) (OwnKeys name t.parts.settings)) where
    owning_as :
        (found : Option Identity) (s : AuthState)
        → IsActor req t.auth found
        → Ensures
            (record t { auth = s })
            (known (id_of found) >>= λ name. zoom at_settings (m name) >>= λ a. pure (f a))
            Own
    unfolding known
    owning_as none s h =
        Ensures-bind (raise unauthorized) _
          (Ensures-raise unauthorized (only_own req t.auth t.parts))
    owning_as (some i) s h = Ensures-bind (pure i.id) _ (
        Ensures-pure i.id (
          reading at_settings (m i.id) f (record t { auth = s }) (p i.id)
            λ r x own. record {
              users = refl;
              store = refl;
              metas = refl;
              files = refl;
              settings = λ key other. own key (other i h);
            }))

    owning :
        Ensures t
          (acting_username env req >>= λ name. zoom at_settings (m name) >>= λ a. pure (f a))
          Own
    unfolding acting_username
    owning = Ensures-assoc _ _ _ t _ (
        Ensures-actor env.clock.handler req _
          (owning_as _ _ (resolve-IsActor env.clock.handler req t.auth)))

  open_handler-Own : (call : OpenCall) → Ensures t (open_handler env call req) Own
  unfolding open_handler items_list items_get attachments_list attachments_download
      attachments_thumbnail ui_settings_get ui_settings_set
  open_handler-Own (list_items params) =
      reading at_store _ _ t (list-Same t.parts.store _ _ _) λ r x same. record {
        users = refl;
        store = same;
        metas = refl;
        files = refl;
        settings = λ k other. refl;
      }
  open_handler-Own (get_item id) = reading at_store _ _ t (get-Same t.parts.store id) λ r x same.
      record { users = refl; store = same; metas = refl; files = refl; settings = λ k other. refl }
  open_handler-Own (list_attachments resource resource_id) =
      reading at_attached _ _ t (list_for_record-Same t.parts.attached resource resource_id)
        λ r x same. record {
          users = refl;
          store = refl;
          metas = same.0;
          files = same.1;
          settings = λ k other. refl;
        }
  open_handler-Own (download_attachment id) =
      reading at_attached _ _ t (read_body-Same t.parts.attached env.attachments_dir id) λ r x same.
        record {
          users = refl;
          store = refl;
          metas = same.0;
          files = same.1;
          settings = λ k other. refl;
        }
  open_handler-Own (show_thumbnail id) =
      reading at_attached _ _ t (read_thumbnail-Same t.parts.attached env.attachments_dir id)
        λ r x same. record {
          users = refl;
          store = refl;
          metas = same.0;
          files = same.1;
          settings = λ k other. refl;
        }
  open_handler-Own (get_ui_setting key) =
      owning _ _ (λ name. ui_get-OwnKeys name t.parts.settings key)
  open_handler-Own (set_ui_setting key value) =
      owning _ _ (λ name. ui_set-OwnKeys name t.parts.settings key value)

  open_call-OnlyOwn :
      (call : OpenCall) (faults : List (Option String))
      → let out =
          serve_with
            (open_handler env call)
            req
            t.auth
            (record { tables = t.parts; faults = faults }) in
        OnlyOwn req t.auth t.parts out.2.tables
  unfolding serve_with
  open_call-OnlyOwn call faults = (open_handler-Own call).from faults

-- The role of an admin is above that of an editor.
TooLow-admin : (req : Request) (s : AuthState) → TooLow editor req s → TooLow admin req s
unfolding at_least
TooLow-admin req s low token r sent there role reads =
    weaker role (low token r sent there role reads)
  where
    weaker : (role : Role) → at_least role editor ≡ false → at_least role admin ≡ false
    weaker role h = ground arith

TooLow-above :
    (min : Role) (req : Request) (s : AuthState)
    → min ≢ viewer
    → TooLow editor req s
    → TooLow min req s
TooLow-above admin req s ne low = TooLow-admin req s low
TooLow-above editor req s ne low = low
TooLow-above viewer req s ne low = absurd (ne refl)

min-ne : (call : RoleCall) → (route_of call).guard.min ≢ viewer
unfolding route_of
min-ne call e = ground arith

module _ {Picture : Type 0} (env : Env Picture) (req : Request) (s : AuthState)
    (w : Pool Data) where
  -- From the state of the sessions in which the request is read, back to the one before.
  before :
      (s' : AuthState) (d : Data)
      → KeepsSession req s s'
      → OnlyOwn req s' w.tables d
      → OnlyOwn req s w.tables d
  before s' d keeps own = record {
    users = own.users;
    store = own.store;
    metas = own.metas;
    files = own.files;
    settings = λ key other. own.settings key (λ i h. other i (keeps i h));
  }

  open_guarded-OnlyOwn :
      (call : OpenCall) → OnlyOwn req s w.tables (answer_call env (open_call call) req s w).2.tables
  unfolding answer_call require_auth
  open_guarded-OnlyOwn call = elim (Option-cases (bearer_token req)) [
    | inl e ↦ rw (e, require_auth) (only_own req s w.tables)
    | inr (token, sent) ↦ elim (identity_for-cases s token env.clock.auth) [
      | inl gone ↦
          subst (λ out. OnlyOwn req s w.tables out.2.tables)
            (sym (refused _ req w token env.clock.auth sent s gone)) (only_own req s w.tables)
      | inr (r, there, e) ↦
          subst (λ out. OnlyOwn req s w.tables out.2.tables)
            (sym (admitted _ req w token env.clock.auth sent s r.identity (ap (λ p. p.0) e)))
            (before _ _ (identity_for-keeps env.clock.auth req s token sent)
              (open_call-OnlyOwn env req _ call w.faults))
    ]
  ]

  -- A request whose session has not the role of an editor, or none: whatever route it calls but those of
  -- the account itself, the accounts, the items, the events that were sent, the attachments and the
  -- files are as they were, and so are the settings but for the UI settings of the session's own user.
  pub answer_call-OnlyOwn :
      (call : Call)
      → ((account : AuthCall) → call ≢ auth_call account)
      → TooLow editor req s
      → OnlyOwn req s w.tables (answer_call env call req s w).2.tables
  unfolding answer_call guarded
  answer_call-OnlyOwn (open_call call) other low = open_guarded-OnlyOwn call
  answer_call-OnlyOwn (role_call call) other low =
      let r = route_of call in
      let refusal =
        require_role_at_least-IsDenied env r.method r.path r.guard
          (serve_with (role_handler env call)) req s w
          (TooLow-above r.guard.min req s (min-ne call) low) in
      subst (OnlyOwn req s w.tables) (sym refusal.kept) (record {
        users = refl;
        store = refl;
        metas = refl;
        files = refl;
        settings = λ key others. refl;
      })
  answer_call-OnlyOwn (auth_call call) other low = absurd (other call refl)
