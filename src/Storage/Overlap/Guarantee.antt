-- ===== src/Storage/Overlap/Guarantee.antt =====
-- What overlapping calls keep, by what each relies on of the others and guarantees to them.
use mathlib.Core.Path.{subst}
use my_template.Prelude.{List, [], ◌∷◌, ◌++◌}
use my_template.Storage.Overlap.{
  Program, done, step, Running, Step, begin, execute, fail, Reach, here, next,
}

-- `Rely t t'` is how the tables may change between two statements of a call.
module _ {T A C : Type 0} (program : C → Program T A) (Good : T → Type 0) (Rely : T → T → Type 0)
    (trans : (t u w : T) → Rely t u → Rely u w → Rely t w) where
  -- Each statement that is left keeps the tables good, within what the others rely on.
  abbrev pub Behaves : Program T A → T → Type 0
  Behaves (done r) t = Unit
  Behaves (step write then_) t =
      (u : T) → Rely t u → Good u → Good (write u) × Rely u (write u) × Behaves (then_ u) (write u)

  Behaves-later : (p : Program T A) (t u : T) → Rely t u → Behaves p t → Behaves p u
  Behaves-later (done r) t u change b = tt
  Behaves-later (step write then_) t u change b =
      λ w later good. b w (trans t u w change later) good

  abbrev AllBehave : List (Program T A) → T → Type 0
  AllBehave [] t = Unit
  AllBehave (p ∷ calls) t = Behaves p t × AllBehave calls t

  AllBehave-later :
      (calls : List (Program T A)) (t u : T) → Rely t u → AllBehave calls t → AllBehave calls u
  AllBehave-later [] t u change b = tt
  AllBehave-later (p ∷ calls) t u change b =
      (Behaves-later p t u change b.0, AllBehave-later calls t u change b.1)

  -- The call in the middle, and another in its place.
  AllBehave-middle :
      (xs ys : List (Program T A)) (p : Program T A) (t : T)
      → AllBehave (xs ++ p ∷ ys) t
      → Behaves p t
  AllBehave-middle [] ys p t b = b.0
  AllBehave-middle (x ∷ xs) ys p t b = AllBehave-middle xs ys p t b.1

  AllBehave-replace :
      (xs ys : List (Program T A)) (p q : Program T A) (t : T)
      → AllBehave (xs ++ p ∷ ys) t
      → Behaves q t
      → AllBehave (xs ++ q ∷ ys) t
  AllBehave-replace [] ys p q t b c = (c, b.1)
  AllBehave-replace (x ∷ xs) ys p q t b c = (b.0, AllBehave-replace xs ys p q t b.1 c)

  abbrev Fine : Running T A → Type 0
  Fine v = Good v.tables × AllBehave v.calls v.tables

  module _ (refl_ : (t : T) → Rely t t)
      (starts : (call : C) (t : T) → Good t → Behaves (program call) t) where
    Step-Fine : {v w : Running T A} → Step program v w → Fine v → Fine w
    Step-Fine {v} (begin call) f = (f.0, (starts call v.tables f.0, f.1))
    Step-Fine {v} (execute xs ys write then_ e) f =
        let calls = subst (λ l. AllBehave l v.tables) e f.1 in
        let (good, change, rest) =
          AllBehave-middle xs ys _ v.tables calls v.tables (refl_ v.tables) f.0 in
        (
          good,
          AllBehave-replace xs ys (step write then_) (then_ v.tables) (write v.tables)
              (AllBehave-later (xs ++ step write then_ ∷ ys) v.tables (write v.tables) change calls)
              rest,
        )
    Step-Fine {v} (fail xs ys write then_ text e) f = (
      f.0,
      AllBehave-replace xs ys (step write then_) (done _) v.tables
          (subst (λ l. AllBehave l v.tables) e f.1) tt,
    )

    Reach-Fine : {v w : Running T A} → Fine v → Reach program v w → Fine w
    Reach-Fine f here = f
    Reach-Fine f (next r s) = Step-Fine s (Reach-Fine f r)

    -- From good tables and no call that runs.
    pub Reach-Good :
        (t : T) {w : Running T A}
        → Good t
        → Reach program (record { tables = t; calls = [] }) w
        → Good w.tables
    Reach-Good t good r = (Reach-Fine (good, tt) r).0
