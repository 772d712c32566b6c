-- ===== src/Storage/Transaction.antt =====
-- Transactions (sqlx `begin`, `commit`, `rollback`, and the rollback of a dropped transaction): what the
-- body wrote is kept if the body asks for it and the commit succeeds.
use my_template.Prelude.{String, Option, none, some, List, [], ◌∷◌}
use my_template.Core.{BantoError, storage, Result, ok, err}
use my_template.Storage.{Pool, Exec, answer, statement}
use my_template.Storage.Ensures.{Ensures, Post}
use my_template.Storage.Spending.{Remains, Remains-all, Remains-trans, Spends, Spends-statement}

-- How a body ends that raises no error.
pub data Verdict (A : Type 0) : Type 0 where
  commit : A → Verdict A
  rollback : A → Verdict A

module _ {T A : Type 0} where
  committed : T → Result A × Pool T → Result A × Pool T
  committed before (ok a, db) = (ok a, db)
  committed before (err e, db) = (err e, record db { tables = before })

  settle : T → Result (Verdict A) × Pool T → Result A × Pool T
  unfolding committed
  settle before (err e, db) = (err e, record db { tables = before })
  settle before (ok (rollback a), db) = statement (λ t. (ok a, t)) (record db { tables = before })
  settle before (ok (commit a), db) = committed before (statement (λ t. (ok a, t)) db)

  opened : Exec T (Verdict A) → Result (Unit {0}) × Pool T → Result A × Pool T
  unfolding settle
  opened body (err e, db) = (err e, db)
  opened body (ok done, db) = settle db.tables (body db)

  unfoldable pub transaction : Exec T (Verdict A) → Exec T A
  unfolding opened
  transaction body db = opened body (statement (λ t. (ok tt, t)) db)

  -- What is left to show of the body: nothing where it raises an error.
  abbrev pub Settles : T → Post T A → Result (Verdict A) → T → Type 0
  Settles before Q (err e) t = Unit
  Settles before Q (ok (rollback a)) t = Q (ok a) before
  Settles before Q (ok (commit a)) t = Q (ok a) t

  module _ (before : T) (Q : Post T A) (failed : (e : BantoError) → Q (err e) before) where
    commit-from :
        (a : A) (t : T) (fs : List (Option String))
        → Q (ok a) t
        → let (r, db) =
            committed before (answer fs (λ t. (ok a, t)) (record { tables = t; faults = fs })) in
          Q r db.tables
    unfolding committed answer
    commit-from a t [] q = q
    commit-from a t (none ∷ fs) q = q
    commit-from a t (some text ∷ fs) q = failed (storage text)

    rollback-from :
        (a : A) (fs : List (Option String))
        → Q (ok a) before
        → let (r, db) = answer fs (λ t. (ok a, t)) (record { tables = before; faults = fs }) in
          Q r db.tables
    unfolding answer
    rollback-from a [] q = q
    rollback-from a (none ∷ fs) q = q
    rollback-from a (some text ∷ fs) q = failed (storage text)

    settle-from :
        (r : Result (Verdict A)) (t : T) (fs : List (Option String))
        → Settles before Q r t
        → let (r, db) = settle before (r, record { tables = t; faults = fs }) in Q r db.tables
    unfolding settle statement
    settle-from (err e) t fs q = failed e
    settle-from (ok (rollback a)) t fs q = rollback-from a fs q
    settle-from (ok (commit a)) t fs q = commit-from a t fs q

    transaction-from :
        (body : Exec T (Verdict A))
        → Ensures before body (Settles before Q)
        → (fs : List (Option String))
        → let (r, db) = transaction body (record { tables = before; faults = fs }) in Q r db.tables
    unfolding transaction opened statement answer
    transaction-from body g [] =
        let (r, db) = body (record { tables = before; faults = [] }) in
        settle-from r db.tables db.faults (g.from [])
    transaction-from body g (none ∷ fs) =
        let (r, db) = body (record { tables = before; faults = fs }) in
        settle-from r db.tables db.faults (g.from fs)
    transaction-from body g (some text ∷ fs) = failed (storage text)

-- An error, also one of `begin` or of `commit`, leaves the tables as they were.
pub Ensures-transaction :
    {T A : Type 0} {Q : Post T A} {t : T} (body : Exec T (Verdict A))
    → ((e : BantoError) → Q (err e) t)
    → Ensures t body (Settles t Q)
    → Ensures t (transaction body) Q
Ensures-transaction {Q = Q} {t = t} body failed g = record {
  from = transaction-from t Q failed body g;
}

module _ {T A : Type 0} where
  committed-Remains :
      (before : T) (r : Result A) (db : Pool T)
      → Remains db.faults (committed before (r, db)).1.faults
  unfolding committed
  committed-Remains before (ok a) db = Remains-all db.faults
  committed-Remains before (err e) db = Remains-all db.faults

  settle-Remains :
      (before : T) (r : Result (Verdict A)) (db : Pool T)
      → Remains db.faults (settle before (r, db)).1.faults
  unfolding settle
  settle-Remains before (err e) db = Remains-all db.faults
  settle-Remains before (ok (rollback a)) db =
      (Spends-statement (λ t. (ok a, t))).from (record db { tables = before })
  settle-Remains before (ok (commit a)) db =
      let (r, db') = statement (λ t. (ok a, t)) db in
      Remains-trans db.faults db'.faults _ ((Spends-statement (λ t. (ok a, t))).from db)
        (committed-Remains before r db')

  opened-Remains :
      (body : Exec T (Verdict A)) (r : Result (Unit {0})) (db : Pool T)
      → Spends body
      → Remains db.faults (opened body (r, db)).1.faults
  unfolding opened
  opened-Remains body (err e) db g = Remains-all db.faults
  opened-Remains body (ok done) db g =
      let (r, db') = body db in
      Remains-trans db.faults db'.faults _ (g.from db) (settle-Remains db.tables r db')

  -- A transaction consults the failures of its begin, its body and its commit.
  pub Spends-transaction : (body : Exec T (Verdict A)) → Spends body → Spends (transaction body)
  unfolding transaction
  Spends-transaction body g = record {
    from = λ db.
        let (r, db') = statement (λ t. (ok tt, t)) db in
        Remains-trans db.faults db'.faults _ ((Spends-statement (λ t. (ok tt, t))).from db)
          (opened-Remains body r db' g);
  }
