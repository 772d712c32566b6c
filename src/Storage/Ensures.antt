-- ===== src/Storage/Ensures.antt =====
-- What a service method ensures, from given tables and whatever statements fail: one rule for each way
-- to build a method.
use mathlib.Core.Path.{subst}
use my_template.Prelude.{
  String, ◌≡◌, refl, Bool, true, false, Option, none, some, List, [], ◌∷◌, if◌then◌else◌,
}
use my_template.Core.{BantoError, storage, Result, ok, err}
use my_template.Storage.{
  Exec, Pool, Sql, statement, query, pure, raise, lift, effect, answer, resume, ◌>>=◌,
}

-- A claim about the result and the tables that are left.
abbrev pub Post : Type 0 → Type 0 → Type 1
Post T A = Result A → T → Type 0

pub record Ensures {T A : Type 0} (t : T) (m : Exec T A) (Q : Post T A) : Type 0 where
  pub from :
      (faults : List (Option String))
      → let (r, db) = m (record { tables = t; faults = faults }) in Q r db.tables

module _ {T A : Type 0} (t : T) (Q : Post T A) where
  statement-from :
      (run : Sql T A) (fs : List (Option String))
      → ((text : String) → Q (err (storage text)) t)
      → Q (run t).0 (run t).1
      → let (r, db) = answer fs run (record { tables = t; faults = fs }) in Q r db.tables
  unfolding answer
  statement-from run [] fail q = q
  statement-from run (none ∷ fs) fail q = q
  statement-from run (some text ∷ fs) fail q = fail text

module _ {T A : Type 0} {t : T} {Q : Post T A} where
  pub Ensures-pure : (a : A) → Q (ok a) t → Ensures t (pure a) Q
  unfolding pure
  Ensures-pure a q = record { from = λ fs. q }

  pub Ensures-raise : (e : BantoError) → Q (err e) t → Ensures t (raise e) Q
  unfolding raise
  Ensures-raise e q = record { from = λ fs. q }

  pub Ensures-weaken :
      {P : Post T A} (m : Exec T A)
      → Ensures t m P
      → ((r : Result A) (t' : T) → P r t' → Q r t')
      → Ensures t m Q
  Ensures-weaken m p imp = record {
    from =
        λ fs. let (r, db) = m (record { tables = t; faults = fs }) in imp r db.tables (p.from fs);
  }

  pub Ensures-if :
      (b : Bool) (m n : Exec T A)
      → (b ≡ true → Ensures t m Q)
      → (b ≡ false → Ensures t n Q)
      → Ensures t (if b then m else n) Q
  Ensures-if true m n first second = first refl
  Ensures-if false m n first second = second refl

  -- A method's last statement.
  pub Ensures-statement :
      (run : Sql T A)
      → ((text : String) → Q (err (storage text)) t)
      → Q (run t).0 (run t).1
      → Ensures t (statement run) Q
  unfolding statement
  Ensures-statement run fail q = record { from = λ fs. statement-from t Q run fs fail q }

module _ {T X A : Type 0} (Q : Post T A) where
  -- What is left to show once a statement has run.
  abbrev pub Goes : (X → Exec T A) → Result X × T → Type 0
  Goes next (ok x, t) = Ensures t (next x) Q
  Goes next (err e, t) = Q (err e) t

  goes-from :
      (next : X → Exec T A) (r : Result X) (t : T) (fs : List (Option String))
      → Goes next (r, t)
      → let (a, db) = resume next (r, record { tables = t; faults = fs }) in Q a db.tables
  unfolding resume
  goes-from next (ok x) t fs g = g.from fs
  goes-from next (err e) t fs g = g

  then-from :
      (run : Sql T X) (next : X → Exec T A) (t : T) (fs : List (Option String))
      → ((text : String) → Q (err (storage text)) t)
      → Goes next (run t)
      → let (a, db) = resume next (answer fs run (record { tables = t; faults = fs })) in
        Q a db.tables
  unfolding answer resume
  then-from run next t [] fail g = let (r, t') = run t in goes-from next r t' [] g
  then-from run next t (none ∷ fs) fail g = let (r, t') = run t in goes-from next r t' fs g
  then-from run next t (some text ∷ fs) fail g = fail text

module _ {T X A : Type 0} {Q : Post T A} where
  pub Ensures-then :
      (run : Sql T X) (next : X → Exec T A) {t : T}
      → ((text : String) → Q (err (storage text)) t)
      → Goes Q next (run t)
      → Ensures t (statement run >>= next) Q
  unfolding statement ◌>>=◌
  Ensures-then run next {t} fail g = record { from = λ fs. then-from Q run next t fs fail g }

  pub Ensures-query :
      (read : T → X) (next : X → Exec T A) {t : T}
      → ((text : String) → Q (err (storage text)) t)
      → Ensures t (next (read t)) Q
      → Ensures t (query read >>= next) Q
  unfolding query ◌>>=◌
  Ensures-query read next {t} fail g = record {
    from = λ fs. then-from Q (λ t. (ok (read t), t)) next t fs fail g;
  }

  pub Ensures-lift :
      (r : Result X) (next : X → Exec T A) {t : T}
      → ((e : BantoError) → r ≡ err e → Q (err e) t)
      → ((x : X) → r ≡ ok x → Ensures t (next x) Q)
      → Ensures t (lift r >>= next) Q
  unfolding lift ◌>>=◌ resume
  Ensures-lift (ok x) next fail g = g x refl
  Ensures-lift (err e) next fail g = record { from = λ fs. fail e refl }

  pub Ensures-bind :
      (m : Exec T X) (next : X → Exec T A) {t : T}
      → Ensures t m (λ r t'. Goes Q next (r, t'))
      → Ensures t (m >>= next) Q
  unfolding ◌>>=◌ resume
  Ensures-bind m next {t} g = record {
    from = λ fs.
        let (r, db) = m (record { tables = t; faults = fs }) in
        goes-from Q next r db.tables db.faults (g.from fs);
  }

module _ {T A : Type 0} {Q : Post T A} where
  pub Ensures-effect :
      (change : T → T) (next : Unit {0} → Exec T A) {t : T}
      → Ensures (change t) (next tt) Q
      → Ensures t (effect change >>= next) Q
  unfolding effect ◌>>=◌ resume
  Ensures-effect change next g = record { from = λ fs. g.from fs }

module _ {T X Y A : Type 0} (first : Exec T X) (second : X → Exec T Y) (next : Y → Exec T A) where
  pub resume_assoc :
      (r : Result X) (db : Pool T)
      → resume (λ x. second x >>= next) (r, db) ≡ resume next (resume second (r, db))
  unfolding ◌>>=◌ resume
  resume_assoc (ok x) db = refl
  resume_assoc (err e) db = refl

  -- A sequence within a sequence.
  pub Ensures-assoc :
      (t : T) (Q : Post T A)
      → Ensures t (first >>= λ x. second x >>= next) Q
      → Ensures t ((first >>= second) >>= next) Q
  unfolding ◌>>=◌
  Ensures-assoc t Q g = record {
    from = λ fs.
        let (r, db) = first (record { tables = t; faults = fs }) in
        subst (λ out. Q out.0 out.1.tables) (resume_assoc r db) (g.from fs);
  }
