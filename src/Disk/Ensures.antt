-- ===== src/Disk/Ensures.antt =====
-- What a sequence of operations on the files ensures, whichever of them fail: one rule for each way to
-- build it, and the laws of the files.
use my_template.Prelude.{
  ℕ, String, eq_iff, ◌≡◌, ◌≢◌, refl, sym, ap, ◌∙◌, Option, none, some, List, [], ◌∷◌, arith,
  Option-cases, inl, inr,
}
use mathlib.Core.Path.{subst}
use my_template.Core.{BantoError, Result, ok, err}
use my_template.Disk.{
  Bytes, File, Files, lookup, erase, put, IoError, Fault, Attempt, done, failed, Op, Disk, Fs,
  remove_file, left, perform, attempt, settled, io, pure, raise, lift, look, alter, resume, ◌>>=◌,
}

pub lookup-erase : (p : String) (files : Files) → lookup p (erase p files) ≡ none
unfolding lookup erase
lookup-erase p [] = refl
lookup-erase p (f ∷ files) = ground (arith, lookup-erase p files)

pub lookup-erase_ne :
    (p q : String) (files : Files) → p ≢ q → lookup q (erase p files) ≡ lookup q files
unfolding lookup erase
lookup-erase_ne p q [] ne = refl
lookup-erase_ne p q (f ∷ files) ne =
    ground (arith, ne, eq_iff f.0 p, eq_iff f.0 q, lookup-erase_ne p q files ne)

pub lookup-put :
    (p : String) (file : File) (files : Files) → lookup p (put p file files) ≡ some file
unfolding lookup put
lookup-put p file files = ground (arith, eq_iff p p)

pub lookup-put_ne :
    (p q : String) (file : File) (files : Files)
    → p ≢ q
    → lookup q (put p file files) ≡ lookup q files
unfolding lookup put
lookup-put_ne p q file files ne = ground (arith, ne, eq_iff p q, lookup-erase_ne p q files ne)

pub lookup-left :
    (now : ℕ) (p q : String) (partial : Option Bytes) (files : Files)
    → p ≢ q
    → lookup q (left now p partial files) ≡ lookup q files
lookup-left now p q none files ne = refl
lookup-left now p q (some bytes) files ne =
    lookup-put_ne p q (record { bytes = bytes; modified = now }) files ne

pub removed :
    (p q : String) (files : Files) → p ≢ q → lookup q ((remove_file p).run files).1 ≡ lookup q files
removed p q files ne = elim (Option-cases (lookup p files)) [
  | inl e ↦ rw e refl
  | inr (file, e) ↦ rw e (lookup-erase_ne p q files ne)
]

abbrev pub Post : Type 0 → Type 1
Post A = Result A → Files → Type 0

pub record Ensures {A : Type 0} (files : Files) (m : Fs A) (Q : Post A) : Type 0 where
  pub from :
      (faults : List (Option Fault))
      → let (r, disk) = m (record { files = files; faults = faults }) in Q r disk.files

module _ {A : Type 0} {files : Files} {Q : Post A} where
  pub Ensures-pure : (a : A) → Q (ok a) files → Ensures files (pure a) Q
  unfolding pure
  Ensures-pure a q = record { from = λ fs. q }

  pub Ensures-raise : (e : BantoError) → Q (err e) files → Ensures files (raise e) Q
  unfolding raise
  Ensures-raise e q = record { from = λ fs. q }

  pub Ensures-weaken :
      {P : Post A} (m : Fs A)
      → Ensures files m P
      → ((r : Result A) (files' : Files) → P r files' → Q r files')
      → Ensures files m Q
  Ensures-weaken m p imp = record {
    from = λ fs.
        let (r, disk) = m (record { files = files; faults = fs }) in imp r disk.files (p.from fs);
  }

module _ {X A : Type 0} (Q : Post A) where
  -- What is left to show of what follows.
  abbrev pub Goes : (X → Fs A) → Result X → Files → Type 0
  Goes next (ok x) files = Ensures files (next x) Q
  Goes next (err e) files = Q (err e) files

  goes-from :
      (next : X → Fs A) (r : Result X) (files : Files) (fs : List (Option Fault))
      → Goes next r files
      → let (a, disk) = resume next (r, record { files = files; faults = fs }) in Q a disk.files
  unfolding resume
  goes-from next (ok x) files fs g = g.from fs
  goes-from next (err e) files fs g = g

module _ {X A : Type 0} {Q : Post A} where
  pub Ensures-bind :
      (m : Fs X) (next : X → Fs A) {files : Files}
      → Ensures files m (Goes Q next)
      → Ensures files (m >>= next) Q
  unfolding ◌>>=◌ resume
  Ensures-bind m next {files} g = record {
    from = λ fs.
        let (r, disk) = m (record { files = files; faults = fs }) in
        goes-from Q next r disk.files disk.faults (g.from fs);
  }

module _ {X : Type 0} (Q : Post X) where
  settled-from :
      (problem : IoError → BantoError) (a : Attempt X) (disk : Disk)
      → ((x : X) → a ≡ done x → Q (ok x) disk.files)
      → ((e : IoError) → a ≡ failed e → Q (err (problem e)) disk.files)
      → let (r, disk') = settled problem (a, disk) in Q r disk'.files
  unfolding settled
  settled-from problem (done x) disk good bad = good x refl
  settled-from problem (failed e) disk good bad = bad e refl

module _ {X : Type 0} (op : Op X) {files : Files} where
  pub io-from :
      (P : Post X) (problem : IoError → BantoError)
      → ((fault : Fault) → P (err (problem fault.error)) (op.broken fault.partial files))
      → ((e : IoError) → (op.run files).0 ≡ failed e → P (err (problem e)) (op.run files).1)
      → ((x : X) → (op.run files).0 ≡ done x → P (ok x) (op.run files).1)
      → (fs : List (Option Fault))
      → let (r, disk) = io problem op (record { files = files; faults = fs }) in P r disk.files
  unfolding io settled perform
  io-from P problem fault bad good [] =
      settled-from P problem (op.run files).0 (record { files = (op.run files).1; faults = [] })
        good bad
  io-from P problem fault bad good (none ∷ fs) =
      settled-from P problem (op.run files).0 (record { files = (op.run files).1; faults = fs })
        good bad
  io-from P problem fault bad good (some f ∷ fs) = fault f

  pub attempt-from :
      (P : Post (Attempt X))
      → ((fault : Fault) → P (ok (failed fault.error)) (op.broken fault.partial files))
      → P (ok (op.run files).0) (op.run files).1
      → (fs : List (Option Fault))
      → let (r, disk) = attempt op (record { files = files; faults = fs }) in P r disk.files
  unfolding attempt perform
  attempt-from P fault good [] = good
  attempt-from P fault good (none ∷ fs) = good
  attempt-from P fault good (some f ∷ fs) = fault f

module _ {X A : Type 0} {Q : Post A} (op : Op X) {files : Files} where
  pub Ensures-io :
      (problem : IoError → BantoError) (next : X → Fs A)
      → ((fault : Fault) → Q (err (problem fault.error)) (op.broken fault.partial files))
      → ((e : IoError) → (op.run files).0 ≡ failed e → Q (err (problem e)) (op.run files).1)
      → ((x : X) → (op.run files).0 ≡ done x → Ensures (op.run files).1 (next x) Q)
      → Ensures files (io problem op >>= next) Q
  Ensures-io problem next fault bad good =
      Ensures-bind (io problem op) next
        (record { from = io-from op (Goes Q next) problem fault bad good })

  -- An operation whose result is not looked at.
  pub Ensures-ignored :
      (R : Files → Type 0) (next : Fs A)
      → ((fault : Fault) → R (op.broken fault.partial files))
      → R (op.run files).1
      → ((files' : Files) → R files' → Ensures files' next Q)
      → Ensures files (attempt op >>= λ result. next) Q
  Ensures-ignored R next fault good after =
      Ensures-bind (attempt op) (λ result. next)
        (record {
          from = attempt-from op (Goes Q (λ result. next)) (λ f. after _ (fault f)) (after _ good);
        })

  pub Ensures-attempt :
      (next : Attempt X → Fs A)
      → ((fault : Fault) → Ensures (op.broken fault.partial files) (next (failed fault.error)) Q)
      → Ensures (op.run files).1 (next (op.run files).0) Q
      → Ensures files (attempt op >>= next) Q
  Ensures-attempt next fault good =
      Ensures-bind (attempt op) next (record { from = attempt-from op (Goes Q next) fault good })

pub attempt_apart : {X : Type 0} (x : X) (e : IoError) → ◌≢◌ {A = Attempt X} (done x) (failed e)
attempt_apart x e h = cc h

value_or : {X : Type 0} → X → Attempt X → X
value_or x (done y) = y
value_or x (failed e) = x

module _ {X : Type 0} (op : Op X) {files : Files} (x : X) (files' : Files)
    (ran : op.run files ≡ (done x, files')) where
  same_value : (y : X) → (op.run files).0 ≡ done y → x ≡ y
  unfolding value_or
  same_value y e = sym (ap (λ p. value_or x p.0) ran) ∙ ap (value_or x) e

module _ {X A : Type 0} {Q : Post A} (op : Op X) {files : Files} (x : X) (files' : Files)
    (ran : op.run files ≡ (done x, files')) where
  -- An operation that is known to succeed but for a fault.
  pub Ensures-io-done :
      (problem : IoError → BantoError) (next : X → Fs A)
      → ((fault : Fault) → Q (err (problem fault.error)) (op.broken fault.partial files))
      → Ensures files' (next x) Q
      → Ensures files (io problem op >>= next) Q
  Ensures-io-done problem next fault good =
      Ensures-io op problem next fault
        (λ e bad. absurd (attempt_apart x e (sym (ap (λ p. p.0) ran) ∙ bad)))
        λ y e.
          subst (λ f. Ensures f (next y) Q) (sym (ap (λ p. p.1) ran))
            (subst (λ z. Ensures files' (next z) Q) (same_value op x files' ran y e) good)

module _ {X A : Type 0} {Q : Post A} {files : Files} where
  pub Ensures-lift :
      (r : Result X) (next : X → Fs A)
      → ((e : BantoError) → r ≡ err e → Q (err e) files)
      → ((x : X) → r ≡ ok x → Ensures files (next x) Q)
      → Ensures files (lift r >>= next) Q
  unfolding lift ◌>>=◌ resume
  Ensures-lift (ok x) next bad good = good x refl
  Ensures-lift (err e) next bad good = record { from = λ fs. bad e refl }

  pub Ensures-look :
      (read : Files → X) (next : X → Fs A)
      → Ensures files (next (read files)) Q
      → Ensures files (look read >>= next) Q
  unfolding look ◌>>=◌ resume
  Ensures-look read next g = record { from = λ fs. g.from fs }

module _ {A : Type 0} {Q : Post A} {files : Files} where
  pub Ensures-alter :
      (change : Files → Files) (next : Unit {0} → Fs A)
      → Ensures (change files) (next tt) Q
      → Ensures files (alter change >>= next) Q
  unfolding alter ◌>>=◌ resume
  Ensures-alter change next g = record { from = λ fs. g.from fs }
