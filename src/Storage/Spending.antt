-- ===== src/Storage/Spending.antt =====
-- A service method consults the failures that are to come in turn: what it leaves of them is an end of what it
-- found. What a method ensures from any end of a list of failures: rules for the ways to build a method.
use mathlib.Core.Path.{subst}
use mathlib.Core.List.{append_assoc}
use my_template.Prelude.{
  String, ◌≡◌, refl, sym, ap, ◌∙◌, Bool, true, false, Option, none, some, List, [], ◌∷◌, ◌++◌,
  if◌then◌else◌,
}
use my_template.Core.{BantoError, Result, ok, err}
use my_template.Storage.{
  Exec, Pool, Sql, statement, query, pure, raise, lift, effect, answer, resume, ◌>>=◌,
}
use my_template.Storage.Ensures.{Post, resume_assoc}

-- The second is an end of the first.
abbrev pub Remains : List (Option String) → List (Option String) → Type 0
Remains faults left = (used : List (Option String)) × (faults ≡ used ++ left)

pub Remains-all : (faults : List (Option String)) → Remains faults faults
Remains-all faults = ([], refl)

pub Remains-trans : (a b c : List (Option String)) → Remains a b → Remains b c → Remains a c
Remains-trans a b c (used, p) (more, q) =
    (used ++ more, p ∙ ap (λ fs. used ++ fs) q ∙ sym (append_assoc used more c))

pub record Spends {T A : Type 0} (m : Exec T A) : Type 0 where
  pub from : (db : Pool T) → Remains db.faults (m db).1.faults

pub Spends-effect : {T : Type 0} (change : T → T) → Spends (effect change)
unfolding effect
Spends-effect change = record { from = λ db. Remains-all db.faults }

module _ {T A : Type 0} where
  pub Spends-pure : (a : A) → Spends {T = T} (pure a)
  unfolding pure
  Spends-pure a = record { from = λ db. Remains-all db.faults }

  pub Spends-raise : (e : BantoError) → Spends {T = T} {A = A} (raise e)
  unfolding raise
  Spends-raise e = record { from = λ db. Remains-all db.faults }

  pub Spends-lift : (r : Result A) → Spends {T = T} (lift r)
  unfolding lift
  Spends-lift r = record { from = λ db. Remains-all db.faults }

  answer-Remains :
      (run : Sql T A) (t : T) (fs : List (Option String))
      → Remains fs (answer fs run (record { tables = t; faults = fs })).1.faults
  unfolding answer
  answer-Remains run t [] = ([], refl)
  answer-Remains run t (none ∷ fs) = (none ∷ [], refl)
  answer-Remains run t (some text ∷ fs) = (some text ∷ [], refl)

  pub Spends-statement : (run : Sql T A) → Spends (statement run)
  unfolding statement
  Spends-statement run = record { from = λ db. answer-Remains run db.tables db.faults }

  pub Spends-query : (read : T → A) → Spends (query read)
  unfolding query
  Spends-query read = Spends-statement _

  pub Spends-if : (b : Bool) (m n : Exec T A) → Spends m → Spends n → Spends (if b then m else n)
  Spends-if true m n first second = first
  Spends-if false m n first second = second

module _ {T X A : Type 0} where
  resume-Remains :
      (next : X → Exec T A) (r : Result X) (db : Pool T)
      → ((x : X) → Spends (next x))
      → Remains db.faults (resume next (r, db)).1.faults
  unfolding resume
  resume-Remains next (ok x) db g = (g x).from db
  resume-Remains next (err e) db g = Remains-all db.faults

  pub Spends-bind :
      (m : Exec T X) (next : X → Exec T A)
      → Spends m
      → ((x : X) → Spends (next x))
      → Spends (m >>= next)
  unfolding ◌>>=◌
  Spends-bind m next first g = record {
    from = λ db.
        let (r, db') = m db in
        Remains-trans db.faults db'.faults _ (first.from db) (resume-Remains next r db' g);
  }

-- What a method ensures where the failures that are to come are an end of the given ones.
pub record Within {T A : Type 0} (faults : List (Option String)) (t : T) (m : Exec T A)
    (Q : Post T A) : Type 0 where
  pub from :
      (fs : List (Option String))
      → Remains faults fs
      → let (r, db) = m (record { tables = t; faults = fs }) in Q r db.tables

module _ {T A : Type 0} (faults : List (Option String)) {t : T} {Q : Post T A} where
  pub Within-pure : (a : A) → Q (ok a) t → Within faults t (pure a) Q
  unfolding pure
  Within-pure a q = record { from = λ fs h. q }

  pub Within-effect :
      (change : T → T) (next : Unit {0} → Exec T A)
      → Within faults (change t) (next tt) Q
      → Within faults t (effect change >>= next) Q
  unfolding effect ◌>>=◌ resume
  Within-effect change next g = record { from = λ fs h. g.from fs h }

  module _ {X : Type 0} (next : X → Exec T A) where
    pub Within-returned : (x : X) → Within faults t (next x) Q → Within faults t (pure x >>= next) Q
    unfolding pure ◌>>=◌ resume
    Within-returned x g = record { from = λ fs h. g.from fs h }

    pub Within-raised : (e : BantoError) → Q (err e) t → Within faults t (raise e >>= next) Q
    unfolding raise ◌>>=◌ resume
    Within-raised e q = record { from = λ fs h. q }

    pub Within-assoc :
        {Y : Type 0} (first : Exec T Y) (second : Y → Exec T X)
        → Within faults t (first >>= λ y. second y >>= next) Q
        → Within faults t (first >>= second >>= next) Q
    unfolding ◌>>=◌
    Within-assoc first second g = record {
      from = λ fs h.
          let (r, db) = first (record { tables = t; faults = fs }) in
          subst (λ out. Q out.0 out.1.tables) (resume_assoc first second next r db) (g.from fs h);
    }
