-- ===== src/Prelude/Chars.antt =====
-- Texts by their characters: what holds of all characters, filters, endings.
use Prim.Native.Nat.{ℕ, zero, suc, ◌-◌}
use Prim.Native.Char.{Char, code}
use Prim.Native.String.{String, [], ◌∷◌}
use mathlib.Core.Bool.{Bool, true, false, ◌&&◌, ◌||◌}
use mathlib.Core.Option.{Option, none, some}
use mathlib.Core.Path.{◌≡◌, refl}
use native.Mathlib.Omega.{arith}
use my_template.Prelude.Tests.{◌==◌, leb, if◌then◌else◌, ltb}
use my_template.Prelude.Texts.{◌<>◌, all_chars, has_char, str_eq}

unfoldable pub is_ascii_digit : Char → Bool
is_ascii_digit c = leb b'0' (code c) && leb (code c) b'9'

-- `chars().filter(p).collect()`
unfoldable pub filter_chars : (Char → Bool) → String → String
filter_chars p [] = []
filter_chars p (c ∷ s) = if p c then c ∷ filter_chars p s else filter_chars p s

-- `split_once(d)` for a character
abbrev before_cons : Char → Option (String × String) → Option (String × String)
before_cons c none = none
before_cons c (some (a, b)) = some (c ∷ a, b)

unfoldable pub split_once : ℕ → String → Option (String × String)
split_once d [] = none
split_once d (c ∷ s) = if code c == d then some ([], s) else before_cons c (split_once d s)

unfoldable pub ends_with : String → String → Bool
ends_with suffix [] = str_eq [] suffix
ends_with suffix (c ∷ s) = str_eq (c ∷ s) suffix || ends_with suffix s

unfoldable pub starts_with : String → String → Bool
starts_with [] s = true
starts_with (c ∷ p) [] = false
starts_with (c ∷ p) (d ∷ s) = code c == code d && starts_with p s

-- `contains` of a text
unfoldable pub contains : String → String → Bool
unfolding starts_with
contains t [] = starts_with t []
contains t (c ∷ s) = starts_with t (c ∷ s) || contains t s

-- `char::is_control`: the Unicode category `Cc`.
unfoldable pub is_control : Char → Bool
is_control c = ltb (code c) 0x20 || (leb 0x7f (code c) && leb (code c) 0x9f)

-- The `n`-th character, as a text.
unfoldable pub char_at : ℕ → String → String
char_at n [] = []
char_at zero (c ∷ s) = c ∷ []
char_at (suc n) (c ∷ s) = char_at n s

-- `replace` of a character by a text
unfoldable pub replace_char : ℕ → String → String → String
replace_char d by [] = []
replace_char d by (c ∷ s) =
    if code c == d then by <> replace_char d by s else c ∷ replace_char d by s

-- `{:0w}`: zeros in front, up to a width.
zeros : ℕ → String → String
zeros zero s = s
zeros (suc n) s = "0" <> zeros n s

count : String → ℕ
count [] = 0
count (c ∷ s) = suc (count s)

unfoldable pub padded : ℕ → String → String
unfolding zeros count
padded w s = zeros (w - count s) s

pub all_chars-filter_chars : (p : Char → Bool) (s : String) → all_chars p (filter_chars p s) ≡ true
unfolding filter_chars
all_chars-filter_chars p [] = refl
all_chars-filter_chars p (c ∷ s) = ground (arith, all_chars-filter_chars p s)

pub all_chars-append :
    (p : Char → Bool) (s t : String)
    → all_chars p s ≡ true
    → all_chars p t ≡ true
    → all_chars p (s <> t) ≡ true
all_chars-append p [] t hs ht = ht
all_chars-append p (c ∷ s) t hs ht = ground (arith, all_chars-append p s t)

pub all_chars-weaken :
    (p q : Char → Bool) (s : String)
    → ((c : Char) → p c ≡ true → q c ≡ true)
    → all_chars p s ≡ true
    → all_chars q s ≡ true
all_chars-weaken p q [] imp h = refl
all_chars-weaken p q (c ∷ s) imp h = ground (arith, imp c, all_chars-weaken p q s imp)

pub all_chars-has_char :
    (p : Char → Bool) (d : ℕ) (s : String)
    → ((c : Char) → code c ≡ d → p c ≡ false)
    → all_chars p s ≡ true
    → has_char d s ≡ false
all_chars-has_char p d [] never h = refl
all_chars-has_char p d (c ∷ s) never h = ground (arith, never c, all_chars-has_char p d s never)

pub ends_with-append :
    (suffix s t : String) → ends_with suffix t ≡ true → ends_with suffix (s <> t) ≡ true
unfolding ends_with
ends_with-append suffix [] t h = h
ends_with-append suffix (c ∷ s) t h = ground (arith, ends_with-append suffix s t h)

-- The order of `str`: that of the bytes of UTF-8, which is that of the characters.
unfoldable pub leb_text : String → String → Bool
leb_text [] t = true
leb_text (c ∷ s) [] = false
leb_text (c ∷ s) (d ∷ t) = if ltb (code c) (code d) then true else code c == code d && leb_text s t

pub leb_text_total : (s t : String) → leb_text s t ≡ false → leb_text t s ≡ true
unfolding leb_text
leb_text_total [] t h = ground arith
leb_text_total (c ∷ s) [] h = refl
leb_text_total (c ∷ s) (d ∷ t) h = ground (arith, leb_text_total s t)
