-- ===== src/Rest/Files.antt =====
-- rest/attachments.rs and rest/backups.rs: the handlers that work on files.
use my_template.Prelude.{ℕ, String, ◌<>◌, Option, none, some, [], ◌∷◌, ◌++◌, to_string}
use my_template.Core.Params.{Value, string, object, field, end}
use my_template.Events.{resource_changed}
use my_template.Http.{Request, Response}
use my_template.Http.Answers.{attachment, attachments, download, backup, backups, pending_restore}
use my_template.Storage.{effect, pure, ◌>>=◌, ◌>>◌}
use my_template.Disk.{Bytes}
use my_template.Attachments.{AttachmentMeta}
use my_template.Attachments.Service.{list_for_record, read_body, read_thumbnail, upload, delete}
use my_template.Backup.Service
use my_template.Backup.Listing
use my_template.Rest.World.{Handler, zoom, with_files, at_attached, actor_identity}
use my_template.Rest.Env.{Env}
use my_template.Rest.Json.{natural, one, two, optional_string}
use my_template.Rest.Items.{json, no_content}
use my_template.Rest.Headers.{content_disposition_header_value}
use my_template.Rest.Audited.{record_write, record_as, id_of}

abbrev pub file_answer : String → Option String → Bytes → Response
file_answer content_type content_disposition bytes = json (
    download (record {
      content_type = content_type;
      content_disposition = content_disposition;
      bytes = bytes;
    }))

-- The sender is always there; what it sends nobody may receive.
unfoldable pub notify_attachments_changed : Handler (Unit {0})
notify_attachments_changed = effect (λ t. record t {
  parts = record t.parts {
    store = record t.parts.store {
      sent = t.parts.store.sent ++ resource_changed "attachments" ∷ [];
    };
  };
})

abbrev pub attachment_audit_detail : AttachmentMeta → Value
attachment_audit_detail meta = object (
    field "fileName" (string meta.file_name) (
      field "sizeBytes" (natural meta.size_bytes) (
        field "parentResource" (string meta.resource)
          (field "parentId" (string meta.resource_id) end))))

module _ {Picture : Type 0} (env : Env Picture) where
  unfoldable pub attachments_list : String → String → Handler Response
  attachments_list resource resource_id = do
    found ← zoom at_attached (list_for_record resource resource_id)
    pure (json (attachments found))

  unfoldable pub attachments_download : ℕ → Handler Response
  attachments_download id = do
    found ← zoom at_attached (read_body env.attachments_dir id)
    pure (
        file_answer found.0.mime (some (content_disposition_header_value found.0.file_name))
          found.1)

  unfoldable pub attachments_thumbnail : ℕ → Handler Response
  attachments_thumbnail id = do
    bytes ← zoom at_attached (read_thumbnail env.attachments_dir id)
    pure (file_answer "image/jpeg" none bytes)

  unfoldable pub attachments_upload : String → String → String → Bytes → Request → Handler Response
  attachments_upload resource resource_id file_name body req = do
    creator ← actor_identity env.clock.handler req
    meta ← zoom at_attached (
        upload env.lib env.attachments_dir env.seconds (record {
          resource = resource;
          resource_id = resource_id;
          file_name = file_name;
          created_by = id_of creator;
          bytes = body;
        }))
    record_write env req "create" "attachments" (to_string meta.id)
        (some (attachment_audit_detail meta))
    notify_attachments_changed
    pure (json (attachment meta))

  unfoldable pub attachments_delete : ℕ → Request → Handler Response
  attachments_delete id req = do
    meta ← zoom at_attached (delete env.attachments_dir id)
    record_write env req "delete" "attachments" (to_string id) (some (attachment_audit_detail meta))
    notify_attachments_changed
    pure no_content

  unfoldable pub backups_create_handler : Request → Handler Response
  backups_create_handler req = do
    info ← with_files (Service.create env.sqlite env.snapshot env.seconds env.base env.now)
    record_write env req "backup" "backups" info.file_name
        (some (one "sizeBytes" (natural info.size_bytes)))
    pure (json (backup info))

  unfoldable pub backups_list_handler : Handler Response
  backups_list_handler = do
    found ← with_files (Listing.list env.dir_exists env.entries)
    pure (json (backups found))

  unfoldable pub backups_download_handler : String → Handler Response
  backups_download_handler file_name = do
    bytes ← with_files (Service.read env.sqlite env.snapshot env.seconds env.base file_name)
    pure (
        file_answer "application/octet-stream"
          (some ("attachment; filename=\"" <> file_name <> "\"")) bytes)

  unfoldable pub backups_restore_from_upload : Option String → Bytes → Request → Handler Response
  backups_restore_from_upload file_name body req = do
    with_files (
        Service.stage_restore_from_bytes env.sqlite env.snapshot env.seconds env.base env.pid
          env.nonce body)
    record_as env req "restore_staged" "backups" none
        (some (two "source" (string "upload") "fileName" (optional_string file_name))) "ok"
    pure no_content

  unfoldable pub backups_restore_from_existing : String → Request → Handler Response
  backups_restore_from_existing file_name req = do
    with_files
        (Service.stage_restore_from_file env.sqlite env.snapshot env.seconds env.base file_name)
    record_write env req "restore_staged" "backups" file_name
        (some (two "source" (string "existing") "fileName" (string file_name)))
    pure no_content

  unfoldable pub backups_pending_status : Handler Response
  backups_pending_status = do
    pending ← with_files (Service.pending_restore env.sqlite env.snapshot env.seconds env.base)
    pure (json (pending_restore pending))

  unfoldable pub backups_cancel_pending : Request → Handler Response
  backups_cancel_pending req = do
    with_files (Service.cancel_pending_restore env.sqlite env.snapshot env.seconds env.base)
    record_as env req "restore_cancelled" "backups" none none "ok"
    pure no_content
