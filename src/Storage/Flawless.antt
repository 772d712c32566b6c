-- ===== src/Storage/Flawless.antt =====
-- What a service method ensures where every statement runs: one rule for each way to build a method. What the
-- tables themselves refuse, and what fails beside the database, is still there.
use mathlib.Core.Path.{subst}
use my_template.Prelude.{◌≡◌, refl, sym, []}
use my_template.Core.{BantoError, Result, ok, err}
use my_template.Storage.{
  Exec, Pool, Sql, statement, query, pure, raise, lift, answer, resume, ◌>>=◌,
}
use my_template.Storage.Ensures.{Post}

-- No statement's failure is to come, before or after.
pub record Flawless {T A : Type 0} (t : T) (m : Exec T A) (Q : Post T A) : Type 0 where
  pub from : let (r, db) = m (record { tables = t; faults = [] }) in Q r db.tables
  pub clean : (m (record { tables = t; faults = [] })).1.faults ≡ []

module _ {T A : Type 0} {t : T} {Q : Post T A} where
  pub Flawless-pure : (a : A) → Q (ok a) t → Flawless t (pure a) Q
  unfolding pure
  Flawless-pure a q = record { from = q; clean = refl }

  pub Flawless-raise : (e : BantoError) → Q (err e) t → Flawless t (raise e) Q
  unfolding raise
  Flawless-raise e q = record { from = q; clean = refl }

  pub Flawless-weaken :
      {P : Post T A} (m : Exec T A)
      → Flawless t m P
      → ((r : Result A) (t' : T) → P r t' → Q r t')
      → Flawless t m Q
  Flawless-weaken m p imp = record { from = imp _ _ p.from; clean = p.clean }

module _ {T X A : Type 0} (Q : Post T A) where
  -- What is left to show once a first part has run.
  abbrev pub Goes : (X → Exec T A) → Result X × T → Type 0
  Goes next (ok x, t) = Flawless t (next x) Q
  Goes next (err e, t) = Q (err e) t

  pub Goes-Flawless :
      (next : X → Exec T A) (r : Result X) (t : T)
      → Goes next (r, t)
      → let (a, db) = resume next (r, record { tables = t; faults = [] }) in
        Q a db.tables × (db.faults ≡ [])
  unfolding resume
  Goes-Flawless next (ok x) t g = (g.from, g.clean)
  Goes-Flawless next (err e) t g = (g, refl)

  after-clean :
      (next : X → Exec T A) (r : Result X) (db : Pool T)
      → db.faults ≡ []
      → Goes next (r, db.tables)
      → let (a, db') = resume next (r, db) in Q a db'.tables × (db'.faults ≡ [])
  after-clean next r db clean g =
      subst
        (λ faults.
          let (a, db') = resume next (r, record { tables = db.tables; faults = faults }) in
          Q a db'.tables × (db'.faults ≡ []))
        (sym clean) (Goes-Flawless next r db.tables g)

module _ {T X A : Type 0} {Q : Post T A} where
  pub Flawless-then :
      (run : Sql T X) (next : X → Exec T A) {t : T}
      → Goes Q next (run t)
      → Flawless t (statement run >>= next) Q
  unfolding statement ◌>>=◌ answer
  Flawless-then run next {t} g =
      let (r, t') = run t in
      let h = Goes-Flawless Q next r t' g in record { from = h.0; clean = h.1 }

  pub Flawless-query :
      (read : T → X) (next : X → Exec T A) {t : T}
      → Flawless t (next (read t)) Q
      → Flawless t (query read >>= next) Q
  unfolding query
  Flawless-query read next {t} g = Flawless-then (λ t. (ok (read t), t)) next g

  pub Flawless-lift :
      (r : Result X) (next : X → Exec T A) {t : T}
      → ((e : BantoError) → r ≡ err e → Q (err e) t)
      → ((x : X) → r ≡ ok x → Flawless t (next x) Q)
      → Flawless t (lift r >>= next) Q
  unfolding lift ◌>>=◌ resume
  Flawless-lift (ok x) next bad good =
      let g = good x refl in record { from = g.from; clean = g.clean }
  Flawless-lift (err e) next bad good = record { from = bad e refl; clean = refl }

  pub Flawless-bind :
      (m : Exec T X) (next : X → Exec T A) {t : T}
      → Flawless t m (λ r t'. Goes Q next (r, t'))
      → Flawless t (m >>= next) Q
  unfolding ◌>>=◌ resume
  Flawless-bind m next {t} g =
      let (r, db) = m (record { tables = t; faults = [] }) in
      let h = after-clean Q next r db g.clean g.from in record { from = h.0; clean = h.1 }
