-- ===== src/Storage/ListQuery/Like.antt =====
-- list_query.rs, `escape_like`, and what LIKE makes of the pattern.
use Prim.Native.String.{[], ◌∷◌}
use my_template.Prelude.{
  String, ◌<>◌, ◌≡◌, refl, ap, ◌∙◌, Bool, true, false, ◌||◌, ◌&&◌, code, ◌==◌, arith, if◌then◌else◌,
  Bool-cases, inl, inr, Char,
}

escape_char : Char → String → String
escape_char c rest =
    if code c == b'\\' || code c == b'%' || code c == b'_' then "\\" <> (c ∷ rest) else c ∷ rest

unfoldable pub escape_like : String → String
unfolding escape_char
escape_like [] = ""
escape_like (c ∷ s) = escape_char c (escape_like s)

-- What SQL's LIKE reads in a pattern with the escape character `\`.
pub data Pattern : Type 0 where
  done : Pattern
  one : Char → Pattern → Pattern
  any_one : Pattern → Pattern
  any_many : Pattern → Pattern

-- The flag says that the escape character has just been read.
abbrev pub pattern_from : Bool → String → Pattern
pattern_from escaped [] = done
pattern_from true (c ∷ s) = one c (pattern_from false s)
pattern_from false (c ∷ s) =
    if code c == b'\\'
    then pattern_from true s
    else if code c == b'%'
    then any_many (pattern_from false s)
    else if code c == b'_'
    then any_one (pattern_from false s)
    else one c (pattern_from false s)

abbrev pub some_suffix : (String → Bool) → String → Bool
some_suffix f [] = f []
some_suffix f (c ∷ s) = f (c ∷ s) || some_suffix f s

abbrev pub matches : Pattern → String → Bool
matches done [] = true
matches done (c ∷ s) = false
matches (one d p) [] = false
matches (one d p) (c ∷ s) = code c == code d && matches p s
matches (any_one p) [] = false
matches (any_one p) (c ∷ s) = matches p s
matches (any_many p) s = some_suffix (matches p) s

abbrev pub like : String → String → Bool
like pattern s = matches (pattern_from false pattern) s

abbrev pub has_prefix : String → String → Bool
has_prefix [] s = true
has_prefix (d ∷ p) [] = false
has_prefix (d ∷ p) (c ∷ s) = code c == code d && has_prefix p s

abbrev pub has_part : String → String → Bool
has_part p s = some_suffix (has_prefix p) s

literal : String → Pattern → Pattern
literal [] p = p
literal (c ∷ s) p = one c (literal s p)

pattern-escape_like :
    (raw rest : String)
    → pattern_from false (escape_like raw <> rest) ≡ literal raw (pattern_from false rest)
unfolding escape_like literal
pattern-escape_like [] rest = refl
pattern-escape_like (c ∷ s) rest =
    elim (Bool-cases (code c == b'\\' || code c == b'%' || code c == b'_')) [
      | inl e ↦ rw (e, escape_char) (ap (one c) (pattern-escape_like s rest))
      | inr e ↦
          rw (e, escape_char)
            (plain c (escape_like s <> rest) e ∙ ap (one c) (pattern-escape_like s rest))
    ]
  where
    plain :
        (c : Char) (s : String)
        → (code c == b'\\' || code c == b'%' || code c == b'_') ≡ false
        → pattern_from false (c ∷ s) ≡ one c (pattern_from false s)
    plain c s e = ground arith

ends : (s : String) → some_suffix (matches done) s ≡ true
ends [] = refl
ends (c ∷ s) = ends s

matches-literal : (raw s : String) → matches (literal raw (any_many done)) s ≡ has_prefix raw s
unfolding literal
matches-literal [] s = ends s
matches-literal (d ∷ p) [] = refl
matches-literal (d ∷ p) (c ∷ s) = ap (λ b. code c == code d && b) (matches-literal p s)

some_suffix-cong :
    (f g : String → Bool)
    → ((s : String) → f s ≡ g s)
    → (s : String) → some_suffix f s ≡ some_suffix g s
some_suffix-cong f g h [] = h []
some_suffix-cong f g h (c ∷ s) = cc (h (c ∷ s), some_suffix-cong f g h s)

-- With LIKE and the escape character, the pattern made of an escaped operand and a last `%` matches exactly
-- the texts that begin with the operand, and with a `%` in front as well exactly those that hold it
-- somewhere: no character of the operand is taken for a wildcard.
pub like-escape_like :
    (operand s : String)
    → (like (escape_like operand <> "%") s ≡ has_prefix operand s)
      × (like ("%" <> escape_like operand <> "%") s ≡ has_part operand s)
like-escape_like operand s = (
  ap (λ p. matches p s) (pattern-escape_like operand "%") ∙ matches-literal operand s,
  some_suffix-cong (matches (pattern_from false (escape_like operand <> "%"))) (has_prefix operand)
      (λ t. ap (λ p. matches p t) (pattern-escape_like operand "%") ∙ matches-literal operand t) s,
)
