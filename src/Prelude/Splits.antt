-- ===== src/Prelude/Splits.antt =====
-- Texts that are joined by a separator.
use Prim.Native.Nat.{ℕ}
use Prim.Native.Char.{Char, code}
use Prim.Native.String.{String, [], ◌∷◌}
use mathlib.Core.Bool.{true, false}
use mathlib.Core.Path.{◌≡◌, refl, sym, ap}
use mathlib.Core.Logic.{◌≢◌}
use native.Mathlib.Omega.{arith}
use my_template.Prelude.Texts.{◌<>◌, has_char}

abbrev first : String → ℕ
first [] = 0
first (c ∷ s) = code c

abbrev rest : String → String
rest [] = []
rest (c ∷ s) = s

module _ (m : Char) where
  abbrev Free : String → Type 0
  Free s = has_char (code m) s ≡ false

  separator_head : (c : Char) (s : String) → code m ≡ code c → Free (c ∷ s) → ⊥
  separator_head c s e p = ground arith

  -- What stands before the first separator, and what after it, are determined by the text.
  pub split_unique :
      (a b x y : String) → Free a → Free b → a <> (m ∷ x) ≡ b <> (m ∷ y) → (a ≡ b) × (x ≡ y)
  split_unique [] [] x y p q e = (refl, cc)
  split_unique [] (d ∷ b) x y p q e = absurd (separator_head d b (ap first e) q)
  split_unique (c ∷ a) [] x y p q e = absurd (separator_head c a (sym (ap first e)) p)
  split_unique (c ∷ a) (d ∷ b) x y p q e =
      let r = split_unique a b x y (ground arith) (ground arith) (ap rest e) in (cc (e, r.0), r.1)

-- Equal texts with the same beginning go on alike.
pub cancel_prefix : (p x y : String) → p <> x ≡ p <> y → x ≡ y
cancel_prefix [] x y e = e
cancel_prefix (c ∷ p) x y e = cancel_prefix p x y (ap rest e)

pub heads_ne : (c d : Char) (x y : String) → code c ≢ code d → c ∷ x ≢ d ∷ y
heads_ne c d x y ne e = ne (ap first e)

pub starts_apart :
    (p : String) (c d : Char) (x y : String) → code c ≢ code d → p <> (c ∷ x) ≢ p <> (d ∷ y)
starts_apart p c d x y ne e = heads_ne c d x y ne (cancel_prefix p (c ∷ x) (d ∷ y) e)

pub has_char-append : (d : ℕ) (s t : String) → has_char d t ≡ true → has_char d (s <> t) ≡ true
has_char-append d [] t h = h
has_char-append d (c ∷ s) t h = ground (arith, has_char-append d s t h)
