-- ===== src/Prelude/Numerals.antt =====
-- The decimal texts of numbers: `to_string`, and `parse` for the unsigned types and for `i64`.
use Prim.Native.Nat.{ℕ, zero, suc, ◌+◌, ◌-◌, ◌*◌, ◌/◌, ◌%◌, ◌≤◌, ◌<◌}
use Prim.Native.Char.{Char, code}
use Prim.Native.String.{String, [], ◌∷◌}
use mathlib.Core.Bool.{true, false, ◌&&◌}
use mathlib.Core.Option.{Option, none, some}
use mathlib.Core.Path.{◌≡◌, refl, sym, ap, ◌∙◌}
use mathlib.Core.Logic.{inl, inr}
use native.Mathlib.Omega.{arith}
use my_template.Prelude.Tests.{◌==◌, leb, ltb, if◌then◌else◌, Bool-cases}
use my_template.Prelude.Texts.{◌<>◌, all_chars}
use my_template.Prelude.Chars.{is_ascii_digit}
use my_template.Prelude.Int.{ℤ, pos, negsuc}

digit : ℕ → Char
digit zero = "0"
digit (suc zero) = "1"
digit (suc (suc zero)) = "2"
digit (suc (suc (suc zero))) = "3"
digit (suc (suc (suc (suc zero)))) = "4"
digit (suc (suc (suc (suc (suc zero))))) = "5"
digit (suc (suc (suc (suc (suc (suc zero)))))) = "6"
digit (suc (suc (suc (suc (suc (suc (suc zero))))))) = "7"
digit (suc (suc (suc (suc (suc (suc (suc (suc zero)))))))) = "8"
digit (suc (suc (suc (suc (suc (suc (suc (suc (suc d))))))))) = "9"

-- The digits of a number in front of a text; the fuel is the number, which its digits never exceed.
digits : ℕ → ℕ → String → String
unfolding digit
digits zero n after = digit (n % 10) ∷ after
digits (suc fuel) n after = elim (ltb n 10) [
  | true ↦ digit n ∷ after
  | false ↦ digits fuel (n / 10) (digit (n % 10) ∷ after)
]

unfoldable pub to_string : ℕ → String
unfolding digits
to_string n = digits n n []

value : ℕ → String → Option ℕ
value acc [] = some acc
value acc (c ∷ s) =
    if leb 48 (code c) && leb (code c) 57 then value (10 * acc + (code c - 48)) s else none

-- At least one digit, and nothing else.
parse_digits : String → Option ℕ
unfolding value
parse_digits [] = none
parse_digits (c ∷ s) = value 0 (c ∷ s)

unsigned : String → Option ℕ
unfolding parse_digits
unsigned [] = none
unsigned (c ∷ s) = if code c == b'+' then parse_digits s else parse_digits (c ∷ s)

at_most : ℕ → Option ℕ → Option ℕ
at_most bound none = none
at_most bound (some n) = if leb n bound then some n else none

-- `parse::<u16>`, where the bound is 65535: an optional plus sign, digits, and no overflow.
unfoldable pub parse_unsigned : ℕ → String → Option ℕ
unfolding at_most unsigned
parse_unsigned bound s = at_most bound (unsigned s)

abbrev as_pos : Option ℕ → Option ℤ
as_pos none = none
as_pos (some n) = some (pos n)

abbrev minus : ℕ → ℤ
minus zero = pos 0
minus (suc n) = negsuc n

abbrev as_minus : Option ℕ → Option ℤ
as_minus none = none
as_minus (some n) = some (minus n)

abbrev pub max_i64 : ℕ
max_i64 = 9223372036854775807

-- `parse::<i64>`
unfoldable pub parse_i64 : String → Option ℤ
unfolding at_most unsigned
parse_i64 [] = none
parse_i64 (c ∷ s) =
    if code c == b'-'
    then as_minus (at_most (suc max_i64) (parse_digits s))
    else as_pos (at_most max_i64 (unsigned (c ∷ s)))

-- `to_string` of an `i64`
unfoldable pub to_string_ℤ : ℤ → String
unfolding to_string
to_string_ℤ (pos n) = to_string n
to_string_ℤ (negsuc n) = "-" <> to_string (suc n)

abbrev IsDigit : Char → Type 0
IsDigit c = (48 ≤ code c) × (code c ≤ 57)

digit-code : (d : ℕ) → d < 10 → code (digit d) ≡ 48 + d
unfolding digit
digit-code zero lt = refl
digit-code (suc zero) lt = refl
digit-code (suc (suc zero)) lt = refl
digit-code (suc (suc (suc zero))) lt = refl
digit-code (suc (suc (suc (suc zero)))) lt = refl
digit-code (suc (suc (suc (suc (suc zero))))) lt = refl
digit-code (suc (suc (suc (suc (suc (suc zero)))))) lt = refl
digit-code (suc (suc (suc (suc (suc (suc (suc zero))))))) lt = refl
digit-code (suc (suc (suc (suc (suc (suc (suc (suc zero)))))))) lt = refl
digit-code (suc (suc (suc (suc (suc (suc (suc (suc (suc zero))))))))) lt = refl
digit-code (suc (suc (suc (suc (suc (suc (suc (suc (suc (suc d)))))))))) lt = omega arith

value-digit : (acc d : ℕ) (s : String) → d < 10 → value acc (digit d ∷ s) ≡ value (10 * acc + d) s
unfolding value
value-digit acc d s lt = ground (arith, digit-code d lt)

all_chars-digits :
    (fuel n : ℕ) (after : String)
    → all_chars is_ascii_digit after ≡ true
    → all_chars is_ascii_digit (digits fuel n after) ≡ true
unfolding digits is_ascii_digit
all_chars-digits zero n after h = ground (arith, digit-code (n % 10) (omega arith))
all_chars-digits (suc fuel) n after h = elim (Bool-cases (ltb n 10)) [
  | inl e ↦ rw (e, digits) (ground (arith, digit-code n (ground arith)))
  | inr e ↦
      rw (e, digits)
        (all_chars-digits fuel (n / 10) (digit (n % 10) ∷ after)
          (ground (arith, digit-code (n % 10) (omega arith))))
]

pub all_chars-to_string : (n : ℕ) → all_chars is_ascii_digit (to_string n) ≡ true
unfolding to_string
all_chars-to_string n = all_chars-digits n n [] refl

value-digits :
    (fuel n : ℕ) (after : String) → n ≤ fuel → value 0 (digits fuel n after) ≡ value n after
unfolding digits
value-digits zero n after le =
    value-digit 0 (n % 10) after (omega arith) ∙ ap (λ m. value m after) (omega arith)
value-digits (suc fuel) n after le = elim (Bool-cases (ltb n 10)) [
  | inl e ↦
      rw (e, digits) (value-digit 0 n after (ground arith) ∙ ap (λ m. value m after) (omega arith))
  | inr e ↦
      rw (e, digits)
        (value-digits fuel (n / 10) (digit (n % 10) ∷ after) (ground arith)
          ∙ value-digit (n / 10) (n % 10) after (omega arith)
          ∙ ap (λ m. value m after) (omega arith))
]

digits-head :
    (fuel n : ℕ) (after : String)
    → (d : ℕ) × (rest : String) × (d < 10) × (digits fuel n after ≡ digit d ∷ rest)
unfolding digits
digits-head zero n after = (n % 10, after, omega arith, refl)
digits-head (suc fuel) n after = elim (Bool-cases (ltb n 10)) [
  | inl e ↦ (n, after, ground arith, rw (e, digits) refl)
  | inr e ↦
      let (d, rest, lt, same) = digits-head fuel (n / 10) (digit (n % 10) ∷ after) in
      (d, rest, lt, rw (e, digits) same)
]

unsigned-digit :
    (d : ℕ) (rest : String) → d < 10 → unsigned (digit d ∷ rest) ≡ value 0 (digit d ∷ rest)
unfolding unsigned parse_digits
unsigned-digit d rest lt = ground (arith, digit-code d lt)

unsigned-to_string : (n : ℕ) → unsigned (to_string n) ≡ some n
unfolding to_string value
unsigned-to_string n =
    let (d, rest, lt, same) = digits-head n n [] in
    ap unsigned same
    ∙ unsigned-digit d rest lt
    ∙ ap (value 0) (sym same)
    ∙ value-digits n n [] (omega arith)

-- The text of a number reads back as the number, up to the type's bound.
pub parse_unsigned-to_string :
    (bound n : ℕ) → n ≤ bound → parse_unsigned bound (to_string n) ≡ some n
unfolding parse_unsigned
parse_unsigned-to_string bound n le = rw (unsigned-to_string n) (ground arith)

value_of : Option ℕ → ℕ
value_of none = 0
value_of (some n) = n

pub to_string_injective : (m n : ℕ) → to_string m ≡ to_string n → m ≡ n
unfolding value_of
to_string_injective m n same =
    ap value_of (sym (unsigned-to_string m))
    ∙ ap (λ s. value_of (unsigned s)) same
    ∙ ap value_of (unsigned-to_string n)

i64-digit :
    (d : ℕ) (rest : String)
    → d < 10
    → parse_i64 (digit d ∷ rest) ≡ as_pos (at_most max_i64 (unsigned (digit d ∷ rest)))
unfolding parse_i64
i64-digit d rest lt = ground (arith, digit-code d lt)

-- The text of a natural number reads back as that `i64`, where it is one.
pub parse_i64-to_string : (n : ℕ) → n ≤ max_i64 → parse_i64 (to_string n) ≡ some (pos n)
unfolding to_string at_most
parse_i64-to_string n le =
    let (d, rest, lt, same) = digits-head n n [] in
    ap parse_i64 same
    ∙ i64-digit d rest lt
    ∙ ap (λ s. as_pos (at_most max_i64 (unsigned s))) (sym same)
    ∙ ap (λ v. as_pos (at_most max_i64 v)) (unsigned-to_string n)
    ∙ fits le
  where
    fits : n ≤ max_i64 → as_pos (at_most max_i64 (some n)) ≡ some (pos n)
    fits le = ground arith
