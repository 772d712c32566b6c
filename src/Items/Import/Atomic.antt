-- ===== src/Items/Import/Atomic.antt =====
-- items.rs, `ItemsService::import`: what it leaves of the table, on each of its ends.
use my_template.Prelude.{
  ℕ, suc, ◌+◌, ◌≡◌, refl, ap, ◌∙◌, String, Bool, true, false, Option, none, some, List, [], ◌∷◌,
  ◌++◌, trim, length, length-append, ltb, ◌==◌, arith, Bool-cases, inl, inr, if◌then◌else◌,
}
use my_template.Events.{ServerEvent, resource_changed}
use my_template.Core.{BantoError, Result, ok, err}
use my_template.Storage.{Pool, pure, ◌>>=◌}
use my_template.Storage.Ensures.{
  Ensures, Post, Goes, Ensures-pure, Ensures-raise, Ensures-weaken, Ensures-then, Ensures-bind,
  Ensures-effect,
}
use my_template.Storage.Transaction.{transaction, Settles, Ensures-transaction}
use my_template.Items.Service.{Store, insert_item, resource, notify_changed}
use my_template.Items.Import.{
  ItemImportRow, ImportRowError, ImportResult, update_counting, add_error, import_row, import_rows,
  no_rows, verdict, announce, import_valid, import_some, import, row_errors, max_import_rows,
}

-- One row, on its own: a change of the row of its id, or a new row.
abbrev pub apply_row : String → ItemImportRow → Option ℕ → Store → Store
apply_row now row (some id) t = (update_counting id (trim row.name) row.price row.stock now t).1
apply_row now row none t = (insert_item (trim row.name) row.price row.stock now t).1

abbrev pub apply_all : String → List ItemImportRow → Store → Store
apply_all now [] t = t
apply_all now (row ∷ rows) t = apply_all now rows (apply_row now row row.id t)

-- The rows that have been gone through.
abbrev seen : ImportResult → ℕ
seen tally = tally.created + tally.updated + length tally.errors

module _ (now : String) where
  abbrev Loop : List ItemImportRow → ImportResult → Store → Post Store ImportResult
  Loop rows tally t (err e) t' = Unit
  Loop rows tally t (ok tally') t' =
      (t' ≡ apply_all now rows t) × (seen tally' ≡ seen tally + length rows)

  count_row :
      (i id affected : ℕ) (tally : ImportResult)
      → seen (
          if affected == 0
          then add_error i id tally
          else record tally { updated = suc tally.updated })
        ≡ suc (seen tally)
  count_row i id affected tally = elim (Bool-cases (affected == 0)) [
    | inl e ↦ rw e (omega (arith, length-append {0}))
    | inr e ↦ rw e (omega arith)
  ]

  Loop-cons :
      (row : ItemImportRow) (rows : List ItemImportRow) (tally tally' : ImportResult) (t : Store)
      → seen tally' ≡ suc (seen tally)
      → (r : Result ImportResult) (t' : Store) → Loop rows tally' (apply_row now row row.id t) r t'
      → Loop (row ∷ rows) tally t r t'
  Loop-cons row rows tally tally' t counted (err e) t' h = tt
  Loop-cons row rows tally tally' t counted (ok done) t' h = (h.0, omega (arith, h.1))

  row-Ensures :
      {Q : Post Store ImportResult} (i : ℕ) (row : ItemImportRow) (id : Option ℕ)
      (rows : List ItemImportRow) (tally : ImportResult) (t : Store)
      → ((e : BantoError) (t' : Store) → Q (err e) t')
      → ((tally' : ImportResult)
          → seen tally' ≡ suc (seen tally)
          → Ensures (apply_row now row id t) (import_rows now (suc i) rows tally') Q)
      → Ensures t (import_row now i row id tally >>= import_rows now (suc i) rows) Q
  unfolding import_row update_counting insert_item
  row-Ensures i row (some id) rows tally t failed next =
      Ensures-bind (import_row now i row (some id) tally) _
        (Ensures-then _ _ (λ text. failed _ t) (Ensures-pure _ (next _ (count_row i id _ tally))))
  row-Ensures i row none rows tally t failed next =
      Ensures-bind (import_row now i row none tally) _
        (Ensures-then _ _ (λ text. failed _ t) (Ensures-pure _ (next _ (omega arith))))

  rows-Loop :
      (i : ℕ) (rows : List ItemImportRow) (tally : ImportResult) (t : Store)
      → Ensures t (import_rows now i rows tally) (Loop rows tally t)
  unfolding import_rows
  rows-Loop i [] tally t = Ensures-pure tally (refl, omega arith)
  rows-Loop i (row ∷ rows) tally t =
      row-Ensures i row row.id rows tally t (λ e t'. tt)
        λ tally' counted.
          Ensures-weaken _ (rows-Loop (suc i) rows tally' (apply_row now row row.id t))
            λ r t' h. Loop-cons row rows tally tally' t counted r t' h

  abbrev pub told : Bool → List ItemImportRow → List ServerEvent → List ServerEvent
  told listening [] sent = sent
  told listening (row ∷ rows) sent =
      if listening then sent ++ resource_changed resource ∷ [] else sent

  -- What a caller may rely on, by the result and its errors.
  abbrev pub AllOrNothing :
      Bool → List ItemImportRow → Store → ImportResult → List ImportRowError → Store → Type 0
  AllOrNothing listening rows t result [] t' =
      (t'.items ≡ (apply_all now rows t).items)
      × (result.created + result.updated ≡ length rows)
      × (t'.sent ≡ told listening rows t.sent)
  AllOrNothing listening rows t result (e ∷ errors) t' =
      (t' ≡ t) × (result.created ≡ 0) × (result.updated ≡ 0)

  abbrev pub Outcome : Bool → List ItemImportRow → Store → Post Store ImportResult
  Outcome listening rows t (err e) t' = t' ≡ t
  Outcome listening rows t (ok result) t' = AllOrNothing listening rows t result result.errors t'

  apply_row-sent :
      (row : ItemImportRow) (id : Option ℕ) (t : Store) → (apply_row now row id t).sent ≡ t.sent
  unfolding update_counting insert_item
  apply_row-sent row (some id) t = refl
  apply_row-sent row none t = refl

  apply_all-sent : (rows : List ItemImportRow) (t : Store) → (apply_all now rows t).sent ≡ t.sent
  apply_all-sent [] t = refl
  apply_all-sent (row ∷ rows) t =
      apply_all-sent rows (apply_row now row row.id t) ∙ apply_row-sent row row.id t

  abbrev after_send : Bool → Store → Store
  after_send listening t =
      if listening then record t { sent = t.sent ++ resource_changed resource ∷ [] } else t

  sent-items : (listening : Bool) (t : Store) → (after_send listening t).items ≡ t.items
  sent-items true t = refl
  sent-items false t = refl

  sent-sent :
      (listening : Bool) (t : Store)
      → (after_send listening t).sent
        ≡ (if listening then t.sent ++ resource_changed resource ∷ [] else t.sent)
  sent-sent true t = refl
  sent-sent false t = refl

  module _ (listening : Bool) (row : ItemImportRow) (rows : List ItemImportRow) (t : Store) where
    abbrev all_rows : List ItemImportRow
    all_rows = row ∷ rows

    abbrev Ending : Post Store ImportResult
    Ending r t' =
        Goes (Outcome listening all_rows t)
          (λ result. announce listening result.errors >>= λ done. pure result) (r, t')

    committed_end :
        (created updated : ℕ) (t' : Store)
        → t' ≡ apply_all now all_rows t
        → created + updated + 0 ≡ length all_rows
        → Ending (ok (record { created = created; updated = updated; errors = [] })) t'
    unfolding announce notify_changed
    committed_end created updated t' same counted = Ensures-effect _ _ (
        Ensures-pure _ (
          sent-items listening t' ∙ ap (λ s. s.items) same,
          omega arith,
          sent-sent listening t'
              ∙ ap (λ sent. if listening then sent ++ resource_changed resource ∷ [] else sent)
                  (ap (λ s. s.sent) same ∙ apply_all-sent all_rows t),
        ))

    settles :
        (created updated : ℕ) (errors : List ImportRowError) (t' : Store)
        → t' ≡ apply_all now all_rows t
        → created + updated + length errors ≡ length all_rows
        → Settles t Ending
            (ok (verdict errors (record { created = created; updated = updated; errors = errors })))
            t'
    unfolding verdict announce
    settles created updated [] t' same counted = committed_end created updated t' same counted
    settles created updated (x ∷ errors) t' same counted =
        Ensures-bind (pure tt) _ (Ensures-pure tt (Ensures-pure _ (refl, refl, refl)))

    body-Settles :
        Ensures t
          (import_rows now 0 all_rows no_rows >>= λ tally. pure (verdict tally.errors tally))
          (Settles t Ending)
    body-Settles =
        Ensures-bind (import_rows now 0 all_rows no_rows) _
          (Ensures-weaken _ (rows-Loop 0 all_rows no_rows t) from_loop)
      where
        from_loop :
            (r : Result ImportResult) (t' : Store)
            → Loop all_rows no_rows t r t'
            → Goes (Settles t Ending) (λ tally. pure (verdict tally.errors tally)) (r, t')
        from_loop (err e) t' h = tt
        from_loop (ok tally) t' h =
            Ensures-pure _
              (settles tally.created tally.updated tally.errors t' h.0 (omega (arith, h.1)))

    pub import_valid-Outcome :
        (errors : List ImportRowError)
        → Ensures t (import_valid listening now all_rows errors) (Outcome listening all_rows t)
    unfolding import_valid
    import_valid-Outcome (e ∷ errors) = Ensures-pure _ (refl, refl, refl)
    import_valid-Outcome [] =
        Ensures-bind (transaction _) _ (Ensures-transaction _ (λ e. refl) body-Settles)

-- An import is all or nothing, whichever statements fail, `begin` and `commit` included. An error leaves the
-- table and the channel as they were. A result with errors does so too, and counts nothing. A result
-- without errors leaves the table that the rows make one after another, each changing the row of its
-- id or adding a row, counts all of them, and sends one event if there are rows and a sender.
pub import-Outcome :
    (listening : Bool) (now : String) (rows : List ItemImportRow) (db : Pool Store)
    → let (result, db') = import listening now rows db in
      Outcome now listening rows db.tables result db'.tables
unfolding import import_some
import-Outcome listening now rows db = (whole rows).from db.faults
  where
    some_rows :
        (rows : List ItemImportRow)
        → Ensures db.tables (import_some listening now rows) (Outcome now listening rows db.tables)
    some_rows [] = Ensures-pure no_rows (refl, refl, refl)
    some_rows (row ∷ rows) =
        import_valid-Outcome now listening row rows db.tables (row_errors 0 (row ∷ rows))

    whole :
        (rows : List ItemImportRow)
        → Ensures db.tables (import listening now rows) (Outcome now listening rows db.tables)
    whole rows = elim (Bool-cases (ltb max_import_rows (length rows))) [
      | inl e ↦ rw e (Ensures-raise _ refl)
      | inr e ↦ rw e (some_rows rows)
    ]
