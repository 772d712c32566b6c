-- ===== src/Storage/Overlap.antt =====
-- The pool of crates/banto-storage is shared: between two statements of a method the statements of others run. A
-- method is here its statements one by one, and the methods that run are taken further in any order.
pub mod Guarantee
use my_template.Prelude.{String, ◌≡◌, refl, sym, ◌∙◌, Option, none, some, List, [], ◌∷◌, ◌++◌}
use my_template.Core.{BantoError, storage, Result, ok, err}
use my_template.Storage.{Pool, Exec, Sql, statement, answer, lift, raise, pure, resume, ◌>>=◌}

-- `step write next` is a statement, by what it makes of the tables and by what follows on its answer, which
-- the tables from before it give.
pub data Program (T A : Type 0) : Type 0 where
  done : Result A → Program T A
  step : (T → T) → (T → Program T A) → Program T A

module _ {T A X : Type 0} where
  -- What follows a value, or its error.
  unfoldable pub follow : (X → Program T A) → Result X → Program T A
  follow next (ok x) = next x
  follow next (err e) = done (err e)

  unfoldable pub send : Sql T X → (X → Program T A) → Program T A
  unfolding follow
  send run next = step (λ t. (run t).1) (λ t. follow next (run t).0)

  unfoldable pub ask : (T → X) → (X → Program T A) → Program T A
  unfolding send
  ask read next = send (λ t. (ok (read t), t)) next

module _ {T A : Type 0} where
  unfoldable pub run_step : (T → T) → (T → Exec T A) → List (Option String) → T → Result A × Pool T
  run_step write next [] t = next t (record { tables = write t; faults = [] })
  run_step write next (none ∷ faults) t = next t (record { tables = write t; faults = faults })
  run_step write next (some text ∷ faults) t =
      (err (storage text), record { tables = t; faults = faults })

  -- Nothing else runs.
  unfoldable pub run : Program T A → Exec T A
  unfolding run_step
  run (done r) db = (r, db)
  run (step write next) db = run_step write (λ t. run (next t)) db.faults db.tables

  run_follow :
      {X : Type 0} (next : X → Program T A) (method : X → Exec T A)
      → ((x : X) (db : Pool T) → run (next x) db ≡ method x db)
      → (r : Result X) (db : Pool T) → run (follow next r) db ≡ resume method (r, db)
  unfolding follow run resume
  run_follow next method same (ok x) db = same x db
  run_follow next method same (err e) db = refl

  -- A statement, and what follows it.
  pub run-send :
      {X : Type 0} (sql : Sql T X) (next : X → Program T A) (method : X → Exec T A)
      → ((x : X) (db : Pool T) → run (next x) db ≡ method x db)
      → (db : Pool T) → run (send sql next) db ≡ (statement sql >>= method) db
  unfolding run send statement resume ◌>>=◌
  run-send sql next method same db = by_faults db.faults db.tables
    where
      by_faults :
          (faults : List (Option String)) (t : T)
          → run_step (λ t. (sql t).1) (λ t. run (follow next (sql t).0)) faults t
            ≡ resume method (answer faults sql (record { tables = t; faults = faults }))
      by_faults [] t = run_follow next method same (sql t).0 _
      by_faults (none ∷ faults) t = run_follow next method same (sql t).0 _
      by_faults (some text ∷ faults) t = refl

module _ {T A X Y : Type 0} (after : Y → Exec T A) where
  resume_assoc :
      (method : X → Exec T Y) (r : Result X × Pool T)
      → resume after (resume method r) ≡ resume (λ x. method x >>= after) r
  unfolding resume ◌>>=◌
  resume_assoc method (ok x, db) = refl
  resume_assoc method (err e, db) = refl

  -- A statement within a method that something follows.
  pub run-send_then :
      (sql : Sql T X) (next : X → Program T A) (method : X → Exec T Y)
      → ((x : X) (db : Pool T) → run (next x) db ≡ (method x >>= after) db)
      → (db : Pool T) → run (send sql next) db ≡ (statement sql >>= method >>= after) db
  unfolding ◌>>=◌
  run-send_then sql next method same db =
      run-send sql next (λ x. method x >>= after) same db
      ∙ sym (resume_assoc method (statement sql db))

  pub run-follow_then :
      (next : X → Program T A) (method : X → Exec T Y)
      → ((x : X) (db : Pool T) → run (next x) db ≡ (method x >>= after) db)
      → (r : Result X) (db : Pool T) → run (follow next r) db ≡ (lift r >>= method >>= after) db
  unfolding run follow ◌>>=◌ lift
  run-follow_then next method same (ok x) db = same x db
  run-follow_then next method same (err e) db = refl

module _ {T A Y : Type 0} (after : Y → Exec T A) where
  pub run-raise : (e : BantoError) (db : Pool T) → run (done (err e)) db ≡ (raise e >>= after) db
  unfolding run ◌>>=◌ resume raise
  run-raise e db = refl

-- An answer, and what the caller makes of it.
unfoldable pub labelled : {A Y : Type 0} → (Y → A) → Result Y → Result A
labelled label (ok y) = ok (label y)
labelled label (err e) = err e

module _ {T A Y : Type 0} (label : Y → A) where
  pub run-labelled :
      (r : Result Y) (db : Pool T)
      → run (done (labelled label r)) db ≡ (lift r >>= λ y. pure (label y)) db
  unfolding run labelled ◌>>=◌ resume lift pure
  run-labelled (ok y) db = refl
  run-labelled (err e) db = refl

  pub run-pure :
      (y : Y) (db : Pool T) → run (done (ok (label y))) db ≡ (pure y >>= λ y. pure (label y)) db
  unfolding run ◌>>=◌ resume pure
  run-pure y db = refl

-- The tables, and the calls that run.
pub record Running (T A : Type 0) : Type 0 where
  pub tables : T
  pub calls : List (Program T A)

module _ {T A C : Type 0} (program : C → Program T A) where
  -- A call comes, one of those that run executes its next statement, or that statement fails.
  pub data Step (v : Running T A) : Running T A → Type 0 where
    begin : (call : C) → Step v (record v { calls = program call ∷ v.calls })
    execute :
        (xs ys : List (Program T A)) (write : T → T) (next : T → Program T A)
        → v.calls ≡ xs ++ step write next ∷ ys
        → Step v (record { tables = write v.tables; calls = xs ++ next v.tables ∷ ys })
    fail :
        (xs ys : List (Program T A)) (write : T → T) (next : T → Program T A) (text : String)
        → v.calls ≡ xs ++ step write next ∷ ys
        → Step v (record v { calls = xs ++ done (err (storage text)) ∷ ys })

  pub data Reach (v : Running T A) : Running T A → Type 0 where
    here : Reach v v
    next : {u w : Running T A} → Reach v u → Step u w → Reach v w
