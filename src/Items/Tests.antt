-- ===== src/Items/Tests.antt =====
-- The laws of the items at concrete stores.
use my_template.Prelude.{◌≡◌, refl, true, none, some, List, [], ◌∷◌, ◌++◌, arith, pos}
use my_template.Core.{BantoError, ok, err}
use my_template.Storage.{Pool}
use my_template.Items.Input.{ItemInput}
use my_template.Items.Service.{Store}
use my_template.Items.Import.{ItemImportRow, import}
use my_template.Items.Import.Atomic.{Outcome, import-Outcome}
use my_template.Items.Valid.{IsValid}
use my_template.Items.Safety.{change, event_of, change-Told, creating, deleting}
use my_template.Items.Serve.{serve_all, changing, importing, items_serve_all-IsValid}

abbrev tea : ItemInput
tea = record { name = " 緑茶 "; price = pos 140; stock = pos 3 }

abbrev store : Store
store = record {
  items = record {
    rows =
        record { id = 1; name = "麦茶"; price = pos 120; stock = pos 7; updated_at = "2026-07-01" }
        ∷ [];
    next_id = 2;
  };
  sent = [];
}

store-IsValid : IsValid store
store-IsValid = record {
  distinct = (tt, tt);
  below = (omega arith, tt);
  stored = ((omega arith, omega arith, refl, refl, refl), tt);
}

abbrev db : Pool Store
db = record { tables = store; faults = none ∷ none ∷ some "database is locked" ∷ [] }

abbrev rows : List ItemImportRow
rows =
    record { id = some 1; name = "紅茶"; price = pos 160; stock = pos 2 }
    ∷ record { id = none; name = "炭酸水"; price = pos 110; stock = pos 9 }
    ∷ []

import-Outcome_example :
    let (result, db') = import true "2026-07-02" rows db in
    Outcome "2026-07-02" true rows store result db'.tables
import-Outcome_example = import-Outcome true "2026-07-02" rows db

change-Told_example :
    let (result, db') = change true (creating "2026-07-02" tea) db in
    ((e : BantoError) → result ≡ err e → db'.tables ≡ store)
    × (result ≡ ok tt → IsValid db'.tables × (db'.tables.sent ≡ [] ++ event_of true))
change-Told_example = change-Told true (creating "2026-07-02" tea) db store-IsValid

items_serve_all-IsValid_example :
    IsValid (serve_all true (importing "2026-07-02" rows ∷ changing (deleting 1) ∷ []) db).tables
items_serve_all-IsValid_example =
    items_serve_all-IsValid true (importing "2026-07-02" rows ∷ changing (deleting 1) ∷ []) db
      store-IsValid
