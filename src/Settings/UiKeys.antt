-- ===== src/Settings/UiKeys.antt =====
-- settings.rs: the UI's settings of one account and those of another.
use my_template.Prelude.{
  String, ◌<>◌, ◌≡◌, ◌≢◌, refl, sym, ap, false, Option, none, some, arith, str_eq, eq_iff, eq_refl,
  has_char, split_unique, cancel_prefix, [], ◌∷◌, List,
}
use my_template.Prelude.Maps.{Map}
use my_template.Core.{Result, ok, err}
use my_template.Storage.{Pool, ◌>>=◌, ◌>>◌, statement, query, lift}
use my_template.Storage.Ensures.{Ensures, Ensures-lift, Ensures-statement}
use my_template.Settings.Values.{validate_ui_key, validate_ui_value}
use my_template.Settings.Service.{Settings, get, set, ui_get, ui_set, ui_storage_key}

-- The key under which a setting is stored tells the account and the setting, where names have no dot.
ui_storage_key_injective :
    (u v k l : String)
    → has_char b'.' u ≡ false
    → has_char b'.' v ≡ false
    → ui_storage_key u k ≡ ui_storage_key v l
    → (u ≡ v) × (k ≡ l)
ui_storage_key_injective u v k l hu hv e =
    split_unique (".") u v k l hu hv (cancel_prefix "ui." (u <> "." <> k) (v <> "." <> l) e)

-- A read looks at its own key only.
get_agrees :
    (key : String) (t t' : Map String) (faults : List (Option String))
    → t key ≡ t' key
    → (get key (record { tables = t; faults = faults })).0
      ≡ (get key (record { tables = t'; faults = faults })).0
unfolding get query statement
get_agrees key t t' [] e = ap ok e
get_agrees key t t' (none ∷ faults) e = ap ok e
get_agrees key t t' (some text ∷ faults) e = refl

lift_agrees :
    {A : Type 0} (r : Result (Unit {0})) (m : Settings A) (db db' : Pool (Map String))
    → (m db).0 ≡ (m db').0
    → ((lift r >> m) db).0 ≡ ((lift r >> m) db').0
unfolding lift ◌>>=◌
lift_agrees (ok done) m db db' e = e
lift_agrees (err problem) m db db' e = refl

ui_get_agrees :
    (username key : String) (t t' : Map String) (faults : List (Option String))
    → t (ui_storage_key username key) ≡ t' (ui_storage_key username key)
    → (ui_get username key (record { tables = t; faults = faults })).0
      ≡ (ui_get username key (record { tables = t'; faults = faults })).0
unfolding ui_get
ui_get_agrees username key t t' faults e =
    lift_agrees (validate_ui_key key) (get (ui_storage_key username key)) _ _
      (get_agrees (ui_storage_key username key) t t' faults e)

ui_set-elsewhere :
    (u k value : String) (other : String) (t : Map String)
    → ui_storage_key u k ≢ other
    → Ensures t (ui_set u k value) (λ r t'. t other ≡ t' other)
unfolding ui_set set
ui_set-elsewhere u k value other t ne =
    Ensures-lift _ _ (λ e same. refl)
      λ done named.
        Ensures-lift _ _ (λ e same. refl)
          λ done short.
            Ensures-statement _ (λ text. refl) (rw (apart (ui_storage_key u k) other ne) refl)
  where
    apart : (a b : String) → a ≢ b → str_eq a b ≡ false
    apart a b ne = ground (arith, eq_iff a b)

-- What one account stores, another one does not see: a write for `u` does not change what a read for `v`
-- answers, whatever the keys and the value, the names being different and without a dot, and whichever
-- statements fail.
pub ui_get-ui_set_ne :
    (u v k l value : String) (db : Pool (Map String)) (faults : List (Option String))
    → has_char b'.' u ≡ false
    → has_char b'.' v ≡ false
    → u ≢ v
    → (ui_get v l (record { tables = (ui_set u k value db).1.tables; faults = faults })).0
      ≡ (ui_get v l (record { tables = db.tables; faults = faults })).0
ui_get-ui_set_ne u v k l value db faults hu hv ne =
    ui_get_agrees v l (ui_set u k value db).1.tables db.tables faults (
      sym (
        (ui_set-elsewhere u k value (ui_storage_key v l) db.tables
            (λ e. ne (ui_storage_key_injective u v k l hu hv e).0)).from
          db.faults))

-- What an account stores it reads back, if no statement fails: where `ui_set` accepts the key and the value,
-- `ui_get` then answers with the value.
pub ui_get-ui_set :
    (u k value : String) (t : Map String)
    → validate_ui_key k ≡ ok tt
    → validate_ui_value value ≡ ok tt
    → let (result, db) = ui_set u k value (record { tables = t; faults = [] }) in
      (result ≡ ok tt) × ((ui_get u k db).0 ≡ ok (some value))
unfolding ui_set ui_get get set lift ◌>>=◌ query statement
ui_get-ui_set u k value t named short = rw (named, short, eq_refl (ui_storage_key u k)) (refl, refl)
