-- ===== src/Rest/Recorded/Writes.antt =====
-- rest/mod.rs: every route that writes, with its record.
use my_template.Prelude.{ℕ, ◌≡◌, refl, String, Option, List, to_string}
use my_template.Core.Params.{Value}
use my_template.Disk.{Bytes}
use my_template.Items.Input.{ItemInput}
use my_template.Items.Import.{ItemImportRow}
use my_template.Users.Role.{Role}
use my_template.Http.{Request, Response}
use my_template.Storage.{Exec, pure, ◌>>=◌}
use my_template.Storage.Spending.{Spends, Within}
use my_template.Rest.Recorded.Methods.{
  create-Spends, update-Spends, import-Spends, create_user-Spends, update_user-Spends,
  reset_password-Spends,
}
use my_template.Rest.Recorded.AttachmentMethods.{on_disk-Spends}
use my_template.Rest.World.{Server, Part, zoom, with_files, at_users, at_store, at_attached}
use my_template.Rest.Env.{Env}
use my_template.Rest.Audited.{record_as, record_write}
use my_template.Rest.Items.{items_create, items_update, items_import}
use my_template.Rest.Users.{users_create, users_update, users_reset_password}
use my_template.Rest.Files.{
  backups_create_handler, backups_restore_from_upload, backups_restore_from_existing,
  backups_cancel_pending,
}
use my_template.Rest.Recorded.{Recorded, at_start, recording, answered, working}
use my_template.Rest.Ensures.{at_part}

module _ {Picture : Type 0} (env : Env Picture) (req : Request) (faults : List (Option String))
    (t : Server) where
  -- A service method, its record, and the answer.
  service-Recorded :
      {T A : Type 0} (action resource : String) (part : Part T) (m : Exec T A)
      (entity_id : A → Option String) (detail : A → Option Value) (result : A → String)
      (answer : A → Response)
      → Spends m
      → ((t' : Server) (x : T) → (at_part part t' x).parts.audit ≡ t'.parts.audit)
      → Within faults t
          (zoom part m >>= λ a.
            record_as env req action resource (entity_id a) (detail a) (result a) >>= λ recorded.
            pure (answer a))
          (Recorded env req action resource faults t)
  service-Recorded action resource part m entity_id detail result answer spends apart =
      working env req action resource faults part m spends t t
        (at_start env req action resource faults t) (apart t) _
        λ a t' w.
          recording env req action resource faults t t' (entity_id a) (detail a) (result a) _ w
            λ t'' h. answered env req action resource faults t t'' (answer a) h

  pub items_create-Recorded :
      (input : ItemInput)
      → Within faults t (items_create env input req) (Recorded env req "create" "items" faults t)
  unfolding items_create record_write
  items_create-Recorded input =
      service-Recorded "create" "items" at_store _ _ _ _ _
        (create-Spends env.listening env.now input) (λ t' x. refl)

  pub items_update-Recorded :
      (id : ℕ) (input : ItemInput)
      → Within faults t (items_update env id input req) (Recorded env req "update" "items" faults t)
  unfolding items_update record_write
  items_update-Recorded id input =
      service-Recorded "update" "items" at_store _ _ _ _ _
        (update-Spends env.listening env.now id input) (λ t' x. refl)

  pub items_import-Recorded :
      (rows : List ItemImportRow)
      → Within faults t (items_import env rows req) (Recorded env req "import" "items" faults t)
  unfolding items_import
  items_import-Recorded rows =
      service-Recorded "import" "items" at_store _ _ _ _ _
        (import-Spends env.listening env.now rows) (λ t' x. refl)

  pub users_create-Recorded :
      (username password display_name : String) (role : Role)
      → Within faults t
          (users_create env username password display_name role req)
          (Recorded env req "create" "users" faults t)
  unfolding users_create record_write
  users_create-Recorded username password display_name role =
      service-Recorded "create" "users" at_users _ _ _ _ _
        (create_user-Spends env.argon env.salt env.now username password display_name role)
        (λ t' x. refl)

  pub users_update-Recorded :
      (id : ℕ) (display_name : String) (role : Role)
      → Within faults t
          (users_update env id display_name role req)
          (Recorded env req "update" "users" faults t)
  unfolding users_update record_write
  users_update-Recorded id display_name role =
      service-Recorded "update" "users" at_users _ _ _ _ _
        (update_user-Spends to_string env.now id display_name role) (λ t' x. refl)

  pub users_reset_password-Recorded :
      (id : ℕ) (new_password : String)
      → Within faults t
          (users_reset_password env id new_password req)
          (Recorded env req "password_reset" "users" faults t)
  unfolding users_reset_password record_write
  users_reset_password-Recorded id new_password =
      service-Recorded "password_reset" "users" at_users _ _ _ _ _
        (reset_password-Spends env.argon to_string env.salt env.now id new_password) (λ t' x. refl)

  pub backups_create-Recorded :
      Within faults t
        (backups_create_handler env req)
        (Recorded env req "backup" "backups" faults t)
  unfolding backups_create_handler record_write with_files
  backups_create-Recorded =
      service-Recorded "backup" "backups" at_attached _ _ _ _ _ (on_disk-Spends _) (λ t' x. refl)

  pub restore_upload-Recorded :
      (file_name : Option String) (body : Bytes)
      → Within faults t
          (backups_restore_from_upload env file_name body req)
          (Recorded env req "restore_staged" "backups" faults t)
  unfolding backups_restore_from_upload with_files
  restore_upload-Recorded file_name body =
      service-Recorded "restore_staged" "backups" at_attached _ _ _ _ _ (on_disk-Spends _)
        (λ t' x. refl)

  pub restore_existing-Recorded :
      (file_name : String)
      → Within faults t
          (backups_restore_from_existing env file_name req)
          (Recorded env req "restore_staged" "backups" faults t)
  unfolding backups_restore_from_existing record_write with_files
  restore_existing-Recorded file_name =
      service-Recorded "restore_staged" "backups" at_attached _ _ _ _ _ (on_disk-Spends _)
        (λ t' x. refl)

  pub cancel_pending-Recorded :
      Within faults t
        (backups_cancel_pending env req)
        (Recorded env req "restore_cancelled" "backups" faults t)
  unfolding backups_cancel_pending with_files
  cancel_pending-Recorded =
      service-Recorded "restore_cancelled" "backups" at_attached _ _ _ _ _ (on_disk-Spends _)
        (λ t' x. refl)
