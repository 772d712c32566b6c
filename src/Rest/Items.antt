-- ===== src/Rest/Items.antt =====
-- rest/items.rs: the handlers of the items.
use my_template.Prelude.{
  ℕ, ltb, String, Option, none, some, List, [], ◌∷◌, to_string, length, if◌then◌else◌,
}
use my_template.Core.{Result, ok, err}
use my_template.Core.Params.{ListParams, Value, string}
use my_template.Http.{Request, Response, plain, answer, empty}
use my_template.Http.Answers.{Answer, item, items, imported}
use my_template.Storage.{pure, ◌>>=◌, ◌>>◌}
use my_template.Items.Input.{ItemInput}
use my_template.Items.Import.{ItemImportRow, ImportRowError, ImportResult}
use my_template.Items.Import
use my_template.Items.Service
use my_template.Attachments.Service.{delete_for_record}
use my_template.Rest.World.{Handler, zoom, outcome, at_store, at_attached}
use my_template.Rest.Env.{Env}
use my_template.Rest.Json.{natural, one, two}
use my_template.Rest.Audited.{record_write, record_as}

abbrev pub json : Answer → Response
json a = plain 200 (answer a)

abbrev pub no_content : Response
no_content = plain 204 empty

unfoldable pub count_or_zero : Result ℕ → ℕ
count_or_zero (ok count) = count
count_or_zero (err e) = 0

unfoldable pub removed_detail : ℕ → Option Value
removed_detail removed =
    if ltb 0 removed then some (one "attachmentsRemoved" (natural removed)) else none

-- The tag of an import and its detail, by the errors of its result.
unfoldable pub import_tag : List ImportRowError → String
import_tag [] = "ok"
import_tag (e ∷ errors) = "failed"

unfoldable pub import_detail : ImportResult → List ImportRowError → Value
import_detail result [] = two "created" (natural result.created) "updated" (natural result.updated)
import_detail result (e ∷ errors) = one "errorCount" (natural (length (e ∷ errors)))

module _ {Picture : Type 0} (env : Env Picture) where
  unfoldable pub items_list : ListParams → Handler Response
  items_list params = do
    page ← zoom at_store (Service.list env.show env.items_engine params)
    pure (json (items page))

  unfoldable pub items_get : ℕ → Handler Response
  items_get id = do found ← zoom at_store (Service.get id); pure (json (item found))

  unfoldable pub items_create : ItemInput → Request → Handler Response
  items_create input req = do
    created ← zoom at_store (Service.create env.listening env.now input)
    record_write env req "create" "items" (to_string created.id)
        (some (one "name" (string created.name)))
    pure (json (item created))

  unfoldable pub items_update : ℕ → ItemInput → Request → Handler Response
  items_update id input req = do
    updated ← zoom at_store (Service.update env.listening env.now id input)
    record_write env req "update" "items" (to_string updated.id)
        (some (one "name" (string updated.name)))
    pure (json (item updated))

  -- The attachments of the item go with it; that they cannot is only reported on standard error.
  unfoldable pub items_delete : ℕ → Request → Handler Response
  items_delete id req = do
    zoom at_store (Service.delete env.listening id)
    removed ←
        outcome (zoom at_attached (delete_for_record env.attachments_dir "items" (to_string id)))
    record_write env req "delete" "items" (to_string id) (removed_detail (count_or_zero removed))
    pure no_content

  unfoldable pub items_import : List ItemImportRow → Request → Handler Response
  items_import rows req = do
    result ← zoom at_store (Import.import env.listening env.now rows)
    record_as env req "import" "items" none (some (import_detail result result.errors))
        (import_tag result.errors)
    pure (json (imported result))
