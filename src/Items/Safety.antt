-- ===== src/Items/Safety.antt =====
-- items.rs: the calls of the service, in any order and whichever of their statements fail.
use my_template.Prelude.{
  ℕ, ℤ, ◌≡◌, ◌≢◌, refl, sym, ap, ◌∙◌, String, Bool, true, false, none, List, [], ◌∷◌, ◌++◌, trim,
  Option-cases, inl, inr,
}
use mathlib.Core.List.{append-nil}
use my_template.Events.{ServerEvent, resource_changed}
use my_template.Core.{BantoError, Result, ok, err}
use my_template.Storage.{Pool, effect, pure, ◌>>=◌}
use my_template.Storage.Ensures.{
  Ensures, Post, Ensures-pure, Ensures-raise, Ensures-then, Ensures-lift, Ensures-effect,
  Ensures-bind,
}
use my_template.Storage.Rows.{find_row, change_row}
use my_template.Storage.Rows.Laws.{drop_row-absent, change_row-absent, find_row-change_row-none}
use my_template.Items.Input.{ItemInput}
use my_template.Items.Service.{
  Item, Store, Items, item_id, set_fields, insert_item, update_item, delete_item, resource, create,
  update, delete, notify_changed, found, missing,
}
use my_template.Items.Valid.{IsValid, insert-IsValid, update-IsValid, delete-IsValid}

-- The event of a change, if a sender is attached.
abbrev pub event_of : Bool → List ServerEvent
event_of true = resource_changed resource ∷ []
event_of false = []

-- A call that fails changes nothing, and a call that succeeds keeps the store well-formed and tells the
-- browsers once, if there is a sender.
abbrev Told : (A : Type 0) → Bool → Store → Post Store A
Told A listening t (err e) t' = t' ≡ t
Told A listening t (ok a) t' = IsValid t' × (t'.sent ≡ t.sent ++ event_of listening)

IsValid-send :
    (t : Store) (sent : List ServerEvent) → IsValid t → IsValid (record t { sent = sent })
IsValid-send t sent v = record { distinct = v.distinct; below = v.below; stored = v.stored }

module _ (t : Store) (v : IsValid t) where
  notifies :
      {A : Type 0} (listening : Bool) (a : A) (t' : Store)
      → IsValid t'
      → t'.sent ≡ t.sent
      → Ensures t' (notify_changed listening >>= λ done. pure a) (Told A listening t)
  unfolding notify_changed
  notifies true a t' v' same = Ensures-effect _ _ (
      Ensures-pure a
        (IsValid-send t' _ v', ap (λ sent. sent ++ resource_changed resource ∷ []) same))
  notifies false a t' v' same =
      Ensures-effect _ _ (Ensures-pure a (v', same ∙ sym (append-nil t.sent)))

  told_last :
      (listening : Bool) (t' : Store)
      → IsValid t'
      → t'.sent ≡ t.sent
      → Ensures t' (notify_changed listening) (Told (Unit {0}) listening t)
  unfolding notify_changed effect
  told_last true t' v' same = record {
    from =
        λ faults. (IsValid-send t' _ v', ap (λ sent. sent ++ resource_changed resource ∷ []) same);
  }
  told_last false t' v' same = record { from = λ faults. (v', same ∙ sym (append-nil t.sent)) }

  create-Told :
      (listening : Bool) (now : String) (input : ItemInput)
      → Ensures t (create listening now input) (Told Item listening t)
  unfolding create insert_item
  create-Told listening now input =
      Ensures-lift _ _ (λ e bad. refl)
        λ done good.
          Ensures-then _ _ (λ text. refl)
            (notifies listening _ _ (insert-IsValid input good now t v) refl)

  -- An update of an id that no row has.
  same_update :
      (id : ℕ) (name : String) (price stock : ℤ) (now : String)
      → find_row item_id id (change_row item_id id (set_fields name price stock now) t.items.rows)
        ≡ none
      → (update_item id name price stock now t).1 ≡ t
  unfolding update_item
  same_update id name price stock now none_after =
      let change = set_fields name price stock now in
      ap (λ rows. record t { items = record t.items { rows = rows } })
        (change_row-absent item_id id change t.items.rows
          (find_row-change_row-none item_id id change (λ r. refl) t.items.rows none_after))

  update-Told :
      (listening : Bool) (now : String) (id : ℕ) (input : ItemInput)
      → Ensures t (update listening now id input) (Told Item listening t)
  unfolding update update_item
  update-Told listening now id input =
      let rows =
        change_row item_id id (set_fields (trim input.name) input.price input.stock now)
          t.items.rows in
      Ensures-lift _ _ (λ e bad. refl)
        λ done good.
          Ensures-then _ _ (λ text. refl)
            (elim (Option-cases (find_row item_id id rows)) [
              | inl e ↦
                  rw (e, found)
                    (Ensures-bind (missing id) _ (
                      Ensures-raise _
                        (same_update id (trim input.name) input.price input.stock now e)))
              | inr (item, e) ↦
                  rw (e, found)
                    (Ensures-bind (pure item) _ (
                      Ensures-pure item
                        (notifies listening item _ (update-IsValid input good now t v id) refl)))
            ])

  delete-Told :
      (listening : Bool) (id : ℕ) → Ensures t (delete listening id) (Told (Unit {0}) listening t)
  unfolding delete delete_item
  delete-Told listening id =
      Ensures-then _ _ (λ text. refl)
        (elim (Option-cases (find_row item_id id t.items.rows)) [
          | inl e ↦ rw e (
              Ensures-raise _ (
                ap (λ rows. record t { items = record t.items { rows = rows } })
                  (drop_row-absent item_id id t.items.rows e)))
          | inr (item, e) ↦ rw e (told_last listening _ (delete-IsValid t v id) refl)
        ])

-- A change of one item, with the date that the database would draw.
pub data Change : Type 0 where
  creating : (now : String) → ItemInput → Change
  updating : (now : String) → ℕ → ItemInput → Change
  deleting : ℕ → Change

abbrev dropped : {A : Type 0} → Result A × Pool Store → Result (Unit {0}) × Pool Store
dropped (ok a, db) = (ok tt, db)
dropped (err e, db) = (err e, db)

unfoldable pub change : Bool → Change → Items (Unit {0})
change listening (creating now input) db = dropped (create listening now input db)
change listening (updating now id input) db = dropped (update listening now id input db)
change listening (deleting id) db = delete listening id db

Told-dropped :
    {A : Type 0} (listening : Bool) (t : Store) (run : Result A × Pool Store)
    → Told A listening t run.0 run.1.tables
    → Told (Unit {0}) listening t (dropped run).0 (dropped run).1.tables
Told-dropped listening t (ok a, db) h = h
Told-dropped listening t (err e, db) h = h

change-by_case :
    (listening : Bool) (c : Change) (db : Pool Store)
    → IsValid db.tables
    → let (result, db') = change listening c db in
      Told (Unit {0}) listening db.tables result db'.tables
unfolding change
change-by_case listening (creating now input) db v =
    Told-dropped listening db.tables (create listening now input db)
      ((create-Told db.tables v listening now input).from db.faults)
change-by_case listening (updating now id input) db v =
    Told-dropped listening db.tables (update listening now id input db)
      ((update-Told db.tables v listening now id input).from db.faults)
change-by_case listening (deleting id) db v = (delete-Told db.tables v listening id).from db.faults

-- From a well-formed store, whichever statements fail: a change of one item that returns an error leaves
-- the table and the channel as they were; one that succeeds leaves a well-formed store, and sends exactly
-- one event, that the items have changed, if the service has a sender, and none if it has not.
pub change-Told :
    (listening : Bool) (c : Change) (db : Pool Store)
    → IsValid db.tables
    → let (result, db') = change listening c db in
      ((e : BantoError) → result ≡ err e → db'.tables ≡ db.tables)
      × (result ≡ ok tt
          → IsValid db'.tables × (db'.tables.sent ≡ db.tables.sent ++ event_of listening))
change-Told listening c db v = split _ _ (change-by_case listening c db v)
  where
    split :
        (r : Result (Unit {0})) (t' : Store)
        → Told (Unit {0}) listening db.tables r t'
        → ((e : BantoError) → r ≡ err e → t' ≡ db.tables)
          × (r ≡ ok tt → IsValid t' × (t'.sent ≡ db.tables.sent ++ event_of listening))
    split (ok done) t' h = (λ e bad. cc bad, λ good. h)
    split (err e) t' h = (λ e' bad. h, λ good. absurd (apart e good))
      where
        apart : (e : BantoError) → ◌≢◌ {A = Result (Unit {0})} (err e) (ok tt)
        apart e bad = cc bad
