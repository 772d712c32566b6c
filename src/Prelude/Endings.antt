-- ===== src/Prelude/Endings.antt =====
-- Texts: the order of the same text twice, and endings.
use Prim.Native.Nat.{ℕ, suc, ◌+◌}
use Prim.Native.String.{String, [], ◌∷◌}
use mathlib.Core.Path.{◌≡◌, refl, sym, ap, ◌∙◌, subst}
use mathlib.Core.Logic.{inl, inr}
use mathlib.Core.Bool.{true, false}
use native.Mathlib.Omega.{arith}
use my_template.Prelude.Tests.{Bool-cases}
use my_template.Prelude.Texts.{◌<>◌, char_count, str_eq, eq_iff}
use my_template.Prelude.Chars.{ends_with, leb_text}

char_count-append : (s t : String) → char_count (s <> t) ≡ char_count s + char_count t
char_count-append [] t = omega arith
char_count-append (c ∷ s) t = ground (arith, char_count-append s t)

leb_text_itself : (s : String) → leb_text s s ≡ true
unfolding leb_text
leb_text_itself [] = refl
leb_text_itself (c ∷ s) = ground (arith, leb_text_itself s)

pub leb_text_refl : (s t : String) → s ≡ t → leb_text t s ≡ true
leb_text_refl s t e = subst (λ x. leb_text x s ≡ true) e (leb_text_itself s)

pub ends_with-stem :
    (suffix name : String)
    → ends_with suffix name ≡ true
    → (stem : String) × (name ≡ stem <> suffix)
unfolding ends_with
ends_with-stem suffix [] h = ([], (eq_iff [] suffix).0 h)
ends_with-stem suffix (c ∷ name) h = elim (Bool-cases (str_eq (c ∷ name) suffix)) [
  | inl e ↦ ([], (eq_iff (c ∷ name) suffix).0 e)
  | inr e ↦
      let (stem, same) = ends_with-stem suffix name (ground arith) in
      (c ∷ stem, ap (λ (s : String). c ∷ s) same)
]

pub ends_with-itself : (suffix : String) → ends_with suffix suffix ≡ true
unfolding ends_with
ends_with-itself [] = refl
ends_with-itself (c ∷ suffix) = ground (arith, eq_iff (c ∷ suffix) (c ∷ suffix))

too_long : (m n : ℕ) → suc m + n ≡ n → ⊥
too_long m n e = omega arith

pub append-itself : (s suffix : String) → (s ≡ "" → ⊥) → str_eq (s <> suffix) suffix ≡ false
append-itself [] suffix named = absurd (named refl)
append-itself (c ∷ s) suffix named = elim (Bool-cases (str_eq ((c ∷ s) <> suffix) suffix)) [
  | inl e ↦ absurd (
      too_long (char_count s) (char_count suffix) (
        sym (char_count-append (c ∷ s) suffix)
        ∙ ap char_count ((eq_iff ((c ∷ s) <> suffix) suffix).0 e)))
  | inr e ↦ e
]
