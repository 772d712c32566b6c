-- ===== src/Items/Serve.antt =====
-- items.rs: any sequence of the service's calls, imports included.
use mathlib.Core.Path.{subst}
use my_template.Prelude.{
  ℕ, ◌≡◌, refl, sym, String, Bool, List, [], ◌∷◌, ltb, length, Bool-cases, Option-cases, inl, inr,
}
use my_template.Core.{BantoError, Result, ok, err}
use my_template.Core.Params.{ListParams, Value}
use my_template.Storage.{Pool}
use my_template.Storage.Ensures.{
  Ensures, Ensures-pure, Ensures-raise, Ensures-weaken, Ensures-query, Ensures-lift,
}
use my_template.Storage.Rows.{find_row, DistinctIds, IdsBelow, AllRows}
use my_template.Items.Service.{Store, Engine, list, get, found, item_id}
use my_template.Items.Import.{
  ItemImportRow, ImportRowError, ImportResult, import, import_some, import_valid, row_errors,
  no_rows, max_import_rows,
}
use my_template.Items.Import.Atomic.{Outcome, AllOrNothing, import_valid-Outcome, apply_all}
use my_template.Items.Valid.{IsValid, IsStored, rows-Accepted, apply_all-IsValid}
use my_template.Items.Safety.{Change, change, change-Told}

module _ (listening : Bool) (now : String) (t : Store) (v : IsValid t) (row : ItemImportRow)
    (rows : List ItemImportRow) where
  items-IsValid : (t t' : Store) → t'.items ≡ t.items → IsValid t → IsValid t'
  items-IsValid t t' same v = record {
    distinct = subst (λ items. DistinctIds item_id items.rows) (sym same) v.distinct;
    below = subst (λ items. IdsBelow item_id items.next_id items.rows) (sym same) v.below;
    stored = subst (λ items. AllRows IsStored items.rows) (sym same) v.stored;
  }

  Outcome-IsValid :
      (row_errors 0 (row ∷ rows) ≡ [])
      → (r : Result ImportResult) (t' : Store) → Outcome now listening (row ∷ rows) t r t'
      → IsValid t'
  Outcome-IsValid clean (err e) t' h = subst IsValid (sym h) v
  Outcome-IsValid clean (ok result) t' h = by_errors result.errors h
    where
      by_errors :
          (errors : List ImportRowError)
          → AllOrNothing now listening (row ∷ rows) t result errors t'
          → IsValid t'
      by_errors [] h =
          items-IsValid (apply_all now (row ∷ rows) t) t' h.0
            (apply_all-IsValid now (row ∷ rows) t (rows-Accepted 0 (row ∷ rows) clean) v)
      by_errors (e ∷ errors) h = subst IsValid (sym h.0) v

  import_valid-IsValid :
      (errors : List ImportRowError)
      → row_errors 0 (row ∷ rows) ≡ errors
      → Ensures t (import_valid listening now (row ∷ rows) errors) (λ r t'. IsValid t')
  unfolding import_valid
  import_valid-IsValid (e ∷ errors) found = Ensures-pure _ v
  import_valid-IsValid [] found =
      Ensures-weaken _ (import_valid-Outcome now listening row rows t []) (Outcome-IsValid found)

module _ (t : Store) (v : IsValid t) where
  import_some-IsValid :
      (listening : Bool) (now : String) (rows : List ItemImportRow)
      → Ensures t (import_some listening now rows) (λ r t'. IsValid t')
  unfolding import_some
  import_some-IsValid listening now [] = Ensures-pure no_rows v
  import_some-IsValid listening now (row ∷ rows) =
      import_valid-IsValid listening now t v row rows (row_errors 0 (row ∷ rows)) refl

  import-IsValid :
      (listening : Bool) (now : String) (rows : List ItemImportRow)
      → Ensures t (import listening now rows) (λ r t'. IsValid t')
  unfolding import
  import-IsValid listening now rows = elim (Bool-cases (ltb max_import_rows (length rows))) [
    | inl e ↦ rw e (Ensures-raise _ v)
    | inr e ↦ rw e (import_some-IsValid listening now rows)
  ]

  get-IsValid : (id : ℕ) → Ensures t (get id) (λ r t'. IsValid t')
  unfolding get
  get-IsValid id =
      Ensures-query _ _ (λ text. v)
        (elim (Option-cases (find_row item_id id t.items.rows)) [
          | inl e ↦ rw (e, found) (Ensures-raise _ v)
          | inr (item, e) ↦ rw (e, found) (Ensures-pure item v)
        ])

  list-IsValid :
      (show : Value → String) (engine : Engine) (params : ListParams)
      → Ensures t (list show engine params) (λ r t'. IsValid t')
  unfolding list
  list-IsValid show engine params =
      Ensures-lift _ _ (λ e bad. v)
        λ pieces good.
          Ensures-query _ _ (λ text. v)
            (Ensures-lift _ _ (λ e bad. v)
              λ conditions fine. Ensures-query _ _ (λ text. v) (Ensures-pure _ v))

pub data Call : Type 0 where
  changing : Change → Call
  importing : (now : String) → List ItemImportRow → Call
  getting : ℕ → Call
  listing : (Value → String) → Engine → ListParams → Call

unfoldable pub serve : Bool → Call → Pool Store → Pool Store
serve listening (changing c) db = (change listening c db).1
serve listening (importing now rows) db = (import listening now rows db).1
serve listening (getting id) db = (get id db).1
serve listening (listing show engine params) db = (list show engine params db).1

unfoldable pub serve_all : Bool → List Call → Pool Store → Pool Store
unfolding serve
serve_all listening [] db = db
serve_all listening (call ∷ calls) db = serve_all listening calls (serve listening call db)

changed-IsValid :
    (t t' : Store)
    → IsValid t
    → (r : Result (Unit {0})) → ((e : BantoError) → r ≡ err e → t' ≡ t)
    → (r ≡ ok tt → IsValid t')
    → IsValid t'
changed-IsValid t t' v (ok done) bad good = good refl
changed-IsValid t t' v (err e) bad good = subst IsValid (sym (bad e refl)) v

serve-IsValid :
    (listening : Bool) (call : Call) (db : Pool Store)
    → IsValid db.tables
    → IsValid (serve listening call db).tables
unfolding serve
serve-IsValid listening (changing c) db v =
    let told = change-Told listening c db v in
    changed-IsValid db.tables (change listening c db).1.tables v (change listening c db).0 told.0
      (λ good. (told.1 good).0)
serve-IsValid listening (importing now rows) db v =
    (import-IsValid db.tables v listening now rows).from db.faults
serve-IsValid listening (getting id) db v = (get-IsValid db.tables v id).from db.faults
serve-IsValid listening (listing show engine params) db v =
    (list-IsValid db.tables v show engine params).from db.faults

-- Whatever sequence of calls comes, imports included, whichever statements fail, and with a sender of
-- events or without, the store stays well-formed: the ids are distinct and below the next one, and every
-- stored item has a name of 1 to 40 characters, a price of 0 to 99999 and a stock that is not negative.
pub items_serve_all-IsValid :
    (listening : Bool) (calls : List Call) (db : Pool Store)
    → IsValid db.tables
    → IsValid (serve_all listening calls db).tables
unfolding serve_all
items_serve_all-IsValid listening [] db v = v
items_serve_all-IsValid listening (call ∷ calls) db v =
    items_serve_all-IsValid listening calls (serve listening call db)
      (serve-IsValid listening call db v)
