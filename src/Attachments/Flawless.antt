-- ===== src/Attachments/Flawless.antt =====
-- The rules for the calls of `AttachmentsService` that work on the files, whichever operations on them fail.
use mathlib.Core.Path.{subst}
use my_template.Prelude.{◌≡◌, refl, sym, []}
use my_template.Core.{Result, ok, err}
use my_template.Disk.{Files, Fault, Attempt, Op, attempt, Disk, Fs}
use my_template.Disk.Ensures
use my_template.Storage.{Pool, Sql, statement, answer, resume, ◌>>=◌}
use my_template.Storage.Ensures.{Post}
use my_template.Storage.Flawless.{Flawless, Goes, Goes-Flawless}
use my_template.Attachments.{Attached}
use my_template.Attachments.Service.{Attachments, on_disk, outcome}

abbrev pub at_disk : Attached → Disk → Attached
at_disk t disk = record t { disk = disk }

module _ {X A : Type 0} (Q : Post Attached A) where
  after-clean-outcome :
      (next : Result X → Attachments A) (r : Result X) (db : Pool Attached)
      → db.faults ≡ []
      → Flawless db.tables (next r) Q
      → let (a, db') = next r db in Q a db'.tables × (db'.faults ≡ [])
  after-clean-outcome next r db clean g =
      subst
        (λ faults.
          let (a, db') = next r (record { tables = db.tables; faults = faults }) in
          Q a db'.tables × (db'.faults ≡ []))
        (sym clean) (g.from, g.clean)

module _ {A : Type 0} {Q : Post Attached A} where
  pub Flawless-files :
      {P : Ensures.Post A} (m : Fs A) {t : Attached}
      → Ensures.Ensures t.disk.files m P
      → ((r : Result A) (disk : Disk) → P r disk.files → Q r (at_disk t disk))
      → Flawless t (on_disk m) Q
  unfolding on_disk
  Flawless-files m {t} p q =
      let (r, disk) = m t.disk in record { from = q r disk (p.from t.disk.faults); clean = refl }

module _ {X A : Type 0} {Q : Post Attached A} where
  pub Flawless-on_disk :
      {P : Ensures.Post X} (m : Fs X) (next : X → Attachments A) {t : Attached}
      → Ensures.Ensures t.disk.files m P
      → ((r : Result X) (disk : Disk) → P r disk.files → Goes Q next (r, at_disk t disk))
      → Flawless t (on_disk m >>= next) Q
  unfolding on_disk ◌>>=◌
  Flawless-on_disk m next {t} p g =
      let (r, disk) = m t.disk in
      let h = Goes-Flawless Q next r (at_disk t disk) (g r disk (p.from t.disk.faults)) in
      record { from = h.0; clean = h.1 }

  pub Flawless-outcome-on_disk :
      {P : Ensures.Post X} (m : Fs X) (next : Result X → Attachments A) {t : Attached}
      → Ensures.Ensures t.disk.files m P
      → ((r : Result X) (disk : Disk) → P r disk.files → Flawless (at_disk t disk) (next r) Q)
      → Flawless t (outcome (on_disk m) >>= next) Q
  unfolding outcome on_disk ◌>>=◌ resume
  Flawless-outcome-on_disk m next {t} p g =
      let (r, disk) = m t.disk in
      let h = g r disk (p.from t.disk.faults) in record { from = h.from; clean = h.clean }

  pub Flawless-outcome :
      {P : Post Attached X} (m : Attachments X) (next : Result X → Attachments A) {t : Attached}
      → Flawless t m P
      → ((r : Result X) (t' : Attached) → P r t' → Flawless t' (next r) Q)
      → Flawless t (outcome m >>= next) Q
  unfolding outcome ◌>>=◌ resume
  Flawless-outcome m next {t} p g =
      let (r, db) = m (record { tables = t; faults = [] }) in
      let h = after-clean-outcome Q next r db p.clean (g r db.tables p.from) in
      record { from = h.0; clean = h.1 }

  pub Flawless-outcome-statement :
      (run : Sql Attached X) (next : Result X → Attachments A) {t : Attached}
      → Flawless (run t).1 (next (run t).0) Q
      → Flawless t (outcome (statement run) >>= next) Q
  unfolding outcome statement answer ◌>>=◌ resume
  Flawless-outcome-statement run next g = record { from = g.from; clean = g.clean }

module _ {X : Type 0} (R : Files → Type 0) where
  -- An attempt is never an error.
  abbrev Tried : Ensures.Post (Attempt X)
  Tried (ok a) files = R files
  Tried (err e) files = ⊥

module _ {X A : Type 0} {Q : Post Attached A} (op : Op X) (next : Attachments A)
    {t : Attached} where
  pub Flawless-attempt :
      (R : Files → Type 0)
      → ((fault : Fault) → R (op.broken fault.partial t.disk.files))
      → R (op.run t.disk.files).1
      → ((disk : Disk) → R disk.files → Flawless (at_disk t disk) next Q)
      → Flawless t (on_disk (attempt op) >>= λ tried. next) Q
  Flawless-attempt R fault good after =
      Flawless-on_disk (attempt op) (λ tried. next)
        (record { from = Ensures.attempt-from op (Tried R) fault good }) (goes R after)
    where
      goes :
          (R : Files → Type 0)
          → ((disk : Disk) → R disk.files → Flawless (at_disk t disk) next Q)
          → (r : Result (Attempt X)) (disk : Disk) → Tried R r disk.files
          → Goes Q (λ tried. next) (r, at_disk t disk)
      goes R after (ok a) disk h = after disk h
      goes R after (err e) disk h = absurd h
