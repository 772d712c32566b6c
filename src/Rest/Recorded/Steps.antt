-- ===== src/Rest/Recorded/Steps.antt =====
-- rest/mod.rs: the routes that write in more than one step, with their record.
use my_template.Prelude.{ℕ, refl, String, Option, none, some, List, to_string}
use my_template.Core.{unauthorized}
use my_template.Disk.{Bytes}
use my_template.Users.Service.{UserIdentity}
use my_template.Http.{Request, Response}
use my_template.Storage.{pure, ◌>>=◌}
use my_template.Storage.Spending.{
  Within, Within-effect, Within-returned, Within-raised, Within-assoc,
}
use my_template.Rest.Recorded.Methods.{delete-Spends, delete_user-Spends, get_by_username-Spends}
use my_template.Rest.Recorded.AttachmentMethods as Attachments
use my_template.Rest.Recorded.AttachmentMethods.{
  on_disk-Spends, upload-Spends, delete_for_record-Spends,
}
use my_template.Rest.World.{Server, Handler, at_users, at_store, at_attached}
use my_template.Rest.Env.{Env}
use my_template.Rest.Audited.{record_write, id_of}
use my_template.Rest.Items.{items_delete}
use my_template.Rest.Users.{acting_user, acting_username, known, users_delete}
use my_template.Rest.Files.{notify_attachments_changed, attachments_upload, attachments_delete}
use my_template.Rest.Recorded.{
  IsLogged, Recorded, IsOnTheWay, at_start, recording, answered, working, trying, actor_read,
}

module _ {Picture : Type 0} (env : Env Picture) (req : Request) (faults : List (Option String))
    (t : Server) where
  -- The attachments of the item are swept between the deletion and the record.
  pub items_delete-Recorded :
      (id : ℕ)
      → Within faults t (items_delete env id req) (Recorded env req "delete" "items" faults t)
  unfolding items_delete record_write
  items_delete-Recorded id =
      working env req "delete" "items" faults at_store _ (delete-Spends env.listening id) t t
        (at_start env req "delete" "items" faults t) (λ x. refl) _
        λ gone t' w.
          trying env req "delete" "items" faults at_attached _
            (delete_for_record-Spends env.attachments_dir "items" (to_string id)) t t' w (λ x. refl)
            _
            λ removed t'' w'.
              recording env req "delete" "items" faults t t'' _ _ _ _ w'
                λ t3 h. answered env req "delete" "items" faults t t3 _ h

  notified :
      (action : String) (t' : Server) (response : Response)
      → IsLogged env req action "attachments" faults t t'
      → Within faults t'
          (notify_attachments_changed >>= λ sent. pure response)
          (Recorded env req action "attachments" faults t)
  unfolding notify_attachments_changed
  notified action t' response h = Within-effect faults _ _ (
      answered env req action "attachments" faults t _ response (record {
        before = h.before;
        seen = h.seen;
        actor = h.actor;
        entity_id = h.entity_id;
        detail = h.detail;
        result = h.result;
        left = h.left;
        remains = h.remains;
        log = h.log;
      }))

  pub attachments_upload-Recorded :
      (resource resource_id file_name : String) (body : Bytes)
      → Within faults t
          (attachments_upload env resource resource_id file_name body req)
          (Recorded env req "create" "attachments" faults t)
  unfolding attachments_upload record_write
  attachments_upload-Recorded resource resource_id file_name body =
      actor_read env req "create" "attachments" faults t _ λ found t1 w1.
        working env req "create" "attachments" faults at_attached _ (upload-Spends _ _ _ _) t t1 w1
          (λ x. refl) _
          λ meta t2 w2.
            recording env req "create" "attachments" faults t t2 _ _ _ _ w2
              λ t3 h. notified "create" t3 _ h

  pub attachments_delete-Recorded :
      (id : ℕ)
      → Within faults t
          (attachments_delete env id req)
          (Recorded env req "delete" "attachments" faults t)
  unfolding attachments_delete record_write
  attachments_delete-Recorded id =
      working env req "delete" "attachments" faults at_attached _
        (Attachments.delete-Spends env.attachments_dir id) t t
        (at_start env req "delete" "attachments" faults t) (λ x. refl) _
        λ meta t' w.
          recording env req "delete" "attachments" faults t t' _ _ _ _ w
            λ t'' h. notified "delete" t'' _ h

  -- Who acts is read, from the sessions and from the accounts, before an account is deleted.
  module _ (action resource : String) where
    knowing :
        {A : Type 0} (o : Option A) (next : A → Handler Response) (t' : Server)
        → IsOnTheWay env req action resource faults t t'
        → ((a : A) → Within faults t' (next a) (Recorded env req action resource faults t))
        → Within faults t' (known o >>= next) (Recorded env req action resource faults t)
    unfolding known
    knowing none next t' w after = Within-raised faults next unauthorized w.log
    knowing (some a) next t' w after = Within-returned faults next a (after a)

    acting :
        (next : UserIdentity → Handler Response)
        → ((i : UserIdentity) (t' : Server)
            → IsOnTheWay env req action resource faults t t'
            → Within faults t' (next i) (Recorded env req action resource faults t))
        → Within faults t (acting_user env req >>= next) (Recorded env req action resource faults t)
    unfolding acting_user acting_username
    acting next after = Within-assoc faults next _ _ (
        Within-assoc faults _ _ _ (
          actor_read env req action resource faults t _ λ found t1 w1.
            knowing (id_of found) _ t1 w1 λ username. Within-assoc faults next _ _ (
              working env req action resource faults at_users _ (get_by_username-Spends username) t
                t1 w1 (λ x. refl) _ λ user t2 w2. knowing user next t2 w2 (λ i. after i t2 w2))))

  pub users_delete-Recorded :
      (id : ℕ)
      → Within faults t (users_delete env id req) (Recorded env req "delete" "users" faults t)
  unfolding users_delete record_write
  users_delete-Recorded id = acting "delete" "users" _ λ i t' w.
      working env req "delete" "users" faults at_users _ (delete_user-Spends to_string id i.id) t t'
        w (λ x. refl) _
        λ gone t'' w'.
          recording env req "delete" "users" faults t t'' _ _ _ _ w'
            λ t3 h. answered env req "delete" "users" faults t t3 _ h
