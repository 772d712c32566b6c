-- ===== src/Settings/Tests.antt =====
-- The laws of the settings at concrete tables.
use my_template.Prelude.{
  String, ◌≡◌, ◌≢◌, eq_iff, refl, true, false, none, some, [], ◌∷◌, arith, pos,
  is_ascii_alphanumeric,
}
use my_template.Prelude.Maps.{Map, empty}
use my_template.Core.{ok}
use my_template.Storage.{Pool}
use my_template.Users.Role.{viewer}
use my_template.Settings.Values.{
  flag, ServerSettings, AuthSettings, AuditSettings, validate_ui_key, validate_ui_value,
}
use my_template.Settings.Service.{server_config, set_server_config, ui_get, ui_set}
use my_template.Settings.UiKeys.{ui_get-ui_set_ne}
use my_template.Settings.Exclusion.{IsExclusive}
use my_template.Settings.Serve.{serve_all, change_server, change_auth, serve_all-IsExclusive}
use my_template.Settings.Config.{server_config-set_server_config}

abbrev open_server : ServerSettings
open_server = record { enabled = true; bind = "0.0.0.0"; port = 9000 }

abbrev no_login : AuthSettings
no_login = record {
  disabled = true;
  disabled_role = viewer;
  autologin_enabled = false;
  autologin_username = some "root";
}

abbrev faulty : Pool (Map String)
faulty = record { tables = empty; faults = none ∷ none ∷ some "disk I/O error" ∷ [] }

serve_all-IsExclusive_example :
    IsExclusive (serve_all (change_auth no_login ∷ change_server open_server ∷ []) faulty).tables
unfolding flag
serve_all-IsExclusive_example =
    serve_all-IsExclusive (change_auth no_login ∷ change_server open_server ∷ []) faulty refl

server_config-set_server_config_example :
    let (result, db) = set_server_config open_server (record { tables = empty; faults = [] }) in
    (result ≡ ok tt) × ((server_config db).0 ≡ ok open_server)
unfolding flag
server_config-set_server_config_example =
    server_config-set_server_config open_server empty (omega arith) (λ on. refl)

abbrev limits : AuditSettings
limits = record { retention_days = none; retention_rows = some (pos 500) }

theme_key : validate_ui_key "theme" ≡ ok tt
unfolding validate_ui_key is_ascii_alphanumeric
theme_key = refl

dark_value : validate_ui_value "dark" ≡ ok tt
unfolding validate_ui_value
dark_value = refl

ann_not_an : ◌≢◌ {A = String} "ann" "an"
ann_not_an = ground (arith, eq_iff "ann" "an")

-- "an" and "ann" have the keys "name" and "ame", which without the dots would meet.
ui_get-ui_set_ne_example :
    (ui_get "an" "name"
      (record { tables = (ui_set "ann" "ame" "dark" faulty).1.tables; faults = [] })).0
    ≡ (ui_get "an" "name" (record { tables = empty; faults = [] })).0
ui_get-ui_set_ne_example =
    ui_get-ui_set_ne "ann" "an" "ame" "name" "dark" faulty [] refl refl ann_not_an
