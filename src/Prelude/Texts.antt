-- ===== src/Prelude/Texts.antt =====
-- Texts: Rust's `String` is the native `String`, a list of characters. The functions are those of
-- `str` that the program calls.
use Prim.Native.Nat.{ℕ, suc, ◌+◌}
use Prim.Native.Char.{Char, code}
use Prim.Native.String.{String, [], ◌∷◌}
use mathlib.Core.Bool.{Bool, true, false, ◌&&◌, ◌||◌}
use mathlib.Core.Path.{◌≡◌, refl}
use mathlib.Core.Logic.{◌≢◌, inl, inr}
use native.Mathlib.Omega.{arith}
use my_template.Prelude.Tests.{◌==◌, leb, ltb, if◌then◌else◌, Bool-cases}
pub use text.Mathlib.Text.{◌==◌ as str_eq}
pub use text.Mathlib.TextEquality.{eq_iff}
pub use text.Mathlib.TextPositions.{eq_refl}

-- `chars().count()`
abbrev pub char_count : String → ℕ
char_count [] = 0
char_count (c ∷ s) = suc (char_count s)

-- The length in bytes of a character's UTF-8 form.
abbrev utf8_len : Char → ℕ
utf8_len c =
    if ltb (code c) 0x80
    then 1
    else if ltb (code c) 0x800
    then 2
    else if ltb (code c) 0x10000
    then 3
    else 4

-- `str::len`
abbrev pub byte_len : String → ℕ
byte_len [] = 0
byte_len (c ∷ s) = utf8_len c + byte_len s

-- Concatenation, by characters.
infixr 65 ◌<>◌
abbrev pub ◌<>◌ : String → String → String
[] <> t = t
(c ∷ s) <> t = c ∷ (s <> t)

abbrev pub is_empty : String → Bool
is_empty [] = true
is_empty (c ∷ s) = false

-- `chars().all(p)`
abbrev pub all_chars : (Char → Bool) → String → Bool
all_chars p [] = true
all_chars p (c ∷ s) = p c && all_chars p s

-- `contains(d)` for a character
abbrev pub has_char : ℕ → String → Bool
has_char d [] = false
has_char d (c ∷ s) = code c == d || has_char d s

-- `char::is_whitespace`: the Unicode property `White_Space`.
unfoldable pub is_whitespace : Char → Bool
is_whitespace c =
    let n = code c in
    (leb 9 n && leb n 13)
    || n == 0x20
    || n == 0x85
    || n == 0xa0
    || n == 0x1680
    || (leb 0x2000 n && leb n 0x200a)
    || n == 0x2028
    || n == 0x2029
    || n == 0x202f
    || n == 0x205f
    || n == 0x3000

unfoldable pub is_ascii_alphanumeric : Char → Bool
is_ascii_alphanumeric c =
    let n = code c in
    (leb b'0' n && leb n b'9') || (leb b'A' n && leb n b'Z') || (leb b'a' n && leb n b'z')

unfoldable pub trim_start : String → String
unfolding is_whitespace
trim_start [] = []
trim_start (c ∷ s) = if is_whitespace c then trim_start s else c ∷ s

abbrev cons_unless_blank : Bool → Char → String → String
cons_unless_blank true c [] = []
cons_unless_blank true c (d ∷ s) = c ∷ d ∷ s
cons_unless_blank false c s = c ∷ s

unfoldable pub trim_end : String → String
unfolding is_whitespace
trim_end [] = []
trim_end (c ∷ s) = cons_unless_blank (is_whitespace c) c (trim_end s)

unfoldable pub trim : String → String
unfolding trim_start trim_end
trim s = trim_end (trim_start s)

trim_example : trim "  a b " ≡ "a b"
unfolding trim
trim_example = refl

-- No text starts with white space once it is trimmed, and trimming it again changes nothing.
abbrev pub StartsClean : String → Type 0
StartsClean [] = Unit
StartsClean (c ∷ s) = is_whitespace c ≡ false

trim_start-StartsClean : (s : String) → StartsClean (trim_start s)
unfolding trim_start
trim_start-StartsClean [] = tt
trim_start-StartsClean (c ∷ s) = elim (Bool-cases (is_whitespace c)) [
  | inl e ↦ rw (e, trim_start) (trim_start-StartsClean s)
  | inr e ↦ rw (e, trim_start) e
]

pub is_empty_ne : (s : String) → s ≢ "" → is_empty s ≡ false
is_empty_ne [] ne = absurd (ne refl)
is_empty_ne (c ∷ s) ne = refl

pub is_empty-count : (s : String) → is_empty s ≡ ltb (char_count s) 1
is_empty-count [] = refl
is_empty-count (c ∷ s) = ground arith
