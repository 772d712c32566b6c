-- ===== src/Rest/Headers.antt =====
-- rest/attachments.rs: the header that names a download, for any name of a file.
use Prim.Native.String.{[], ◌∷◌}
use my_template.Prelude.{
  ℕ, zero, suc, ◌+◌, ◌-◌, ◌/◌, ◌%◌, ◌==◌, ◌≡◌, refl, Bool, true, false, not, ◌&&◌, ◌||◌, Char, code,
  String, ◌<>◌, is_empty, is_control, all_chars, all_chars-append, char_at, ltb, leb, if◌then◌else◌,
  arith, Bool-cases, inl, inr,
}

-- The bytes of a character in UTF-8, each turned into a text.
unfoldable pub for_bytes : (ℕ → String) → Char → String
for_bytes f c =
    let n = code c in
    if ltb n 0x80
    then f n
    else if ltb n 0x800
    then f (0xc0 + n / 64) <> f (0x80 + n % 64)
    else if ltb n 0x10000
    then f (0xe0 + n / 4096) <> f (0x80 + n / 64 % 64) <> f (0x80 + n % 64)
    else f (0xf0 + n / 262144)
      <> f (0x80 + n / 4096 % 64)
      <> f (0x80 + n / 64 % 64)
      <> f (0x80 + n % 64)

abbrev graphic : String
graphic =
    "!\"#$%&'()*+,-./0123456789:;<=>?@ABCDEFGHIJKLMNOPQRSTUVWXYZ[\\]^_`abcdefghijklmnopqrstuvwxyz{|}~"

-- `byte as char`, for a byte of ASCII that is neither a space nor a control character.
abbrev pub as_char : ℕ → String
as_char byte = char_at (byte - 0x21) graphic

unfoldable pub is_rfc5987_attr_char : ℕ → Bool
is_rfc5987_attr_char b =
    (leb b'a' b && leb b b'z')
    || (leb b'A' b && leb b b'Z')
    || (leb b'0' b && leb b b'9')
    || b == b'!'
    || b == b'#'
    || b == b'$'
    || b == b'&'
    || b == b'+'
    || b == b'-'
    || b == b'.'
    || b == b'^'
    || b == b'_'
    || b == b'`'
    || b == b'|'
    || b == b'~'

abbrev upper_hex : String
upper_hex = "0123456789ABCDEF"

-- One byte: as it is, or `%{byte:02X}`.
unfoldable pub encode_byte : ℕ → String
unfolding is_rfc5987_attr_char char_at
encode_byte b =
    if is_rfc5987_attr_char b
    then as_char b
    else "%" <> char_at (b / 16) upper_hex <> char_at (b % 16) upper_hex

unfoldable pub rfc5987_encode : String → String
unfolding for_bytes encode_byte
rfc5987_encode [] = []
rfc5987_encode (c ∷ s) = for_bytes encode_byte c <> rfc5987_encode s

abbrev pub is_plain : Char → Bool
is_plain c =
    ltb (code c) 0x80 && not (code c == b'"') && not (code c == b'\\') && not (is_control c)

unfoldable pub ascii_only : String → String
unfolding is_control
ascii_only [] = []
ascii_only (c ∷ s) = (if is_plain c then c else "_") ∷ ascii_only s

unfoldable pub ascii_fallback : String → String
unfolding ascii_only
ascii_fallback file_name =
    if is_empty (ascii_only file_name) then "attachment" else ascii_only file_name

unfoldable pub content_disposition_header_value : String → String
unfolding ascii_fallback rfc5987_encode
content_disposition_header_value file_name =
    "attachment; filename=\""
    <> ascii_fallback file_name
    <> "\"; filename*=UTF-8''"
    <> rfc5987_encode file_name

header_example :
    content_disposition_header_value "写\"1.png"
    ≡ "attachment; filename=\"__1.png\"; filename*=UTF-8''%E5%86%99%221.png"
unfolding content_disposition_header_value
header_example = refl

-- What may stand in a quoted string of a header: visible ASCII and the space, no quote and no backslash.
abbrev pub is_quotable : Char → Bool
is_quotable c =
    leb 0x20 (code c) && ltb (code c) 0x7f && not (code c == b'"') && not (code c == b'\\')

-- Visible ASCII.
abbrev pub is_visible : Char → Bool
is_visible c = ltb 0x20 (code c) && ltb (code c) 0x7f

module _ (p : Char → Bool) where
  all_chars-char_at : (n : ℕ) (s : String) → all_chars p s ≡ true → all_chars p (char_at n s) ≡ true
  unfolding char_at
  all_chars-char_at n [] h = h
  all_chars-char_at zero (c ∷ s) h = ground arith
  all_chars-char_at (suc n) (c ∷ s) h = all_chars-char_at n s (ground arith)

encode_byte-visible : (b : ℕ) → all_chars is_visible (encode_byte b) ≡ true
unfolding encode_byte
encode_byte-visible b = elim (Bool-cases (is_rfc5987_attr_char b)) [
  | inl e ↦ rw e (all_chars-char_at is_visible (b - 0x21) graphic refl)
  | inr e ↦ rw e (
      all_chars-append is_visible "%" (char_at (b / 16) upper_hex <> char_at (b % 16) upper_hex)
        refl
        (all_chars-append is_visible (char_at (b / 16) upper_hex) (char_at (b % 16) upper_hex)
          (all_chars-char_at is_visible (b / 16) upper_hex refl)
          (all_chars-char_at is_visible (b % 16) upper_hex refl)))
]

module _ (p : Char → Bool) (f : ℕ → String) (each : (b : ℕ) → all_chars p (f b) ≡ true) where
  both : (s t : String) → all_chars p s ≡ true → all_chars p t ≡ true → all_chars p (s <> t) ≡ true
  both s t h k = all_chars-append p s t h k

  for_bytes-all : (c : Char) → all_chars p (for_bytes f c) ≡ true
  unfolding for_bytes
  for_bytes-all c = elim (Bool-cases (ltb (code c) 0x80)) [
    | inl e ↦ rw e (each _)
    | inr e ↦ elim (Bool-cases (ltb (code c) 0x800)) [
      | inl e2 ↦ rw (e, e2) (both _ _ (each _) (each _))
      | inr e2 ↦ elim (Bool-cases (ltb (code c) 0x10000)) [
        | inl e3 ↦ rw (e, e2, e3) (both _ _ (each _) (both _ _ (each _) (each _)))
        | inr e3 ↦
            rw (e, e2, e3) (both _ _ (each _) (both _ _ (each _) (both _ _ (each _) (each _))))
      ]
    ]
  ]

rfc5987_encode-visible : (s : String) → all_chars is_visible (rfc5987_encode s) ≡ true
unfolding rfc5987_encode
rfc5987_encode-visible [] = refl
rfc5987_encode-visible (c ∷ s) =
    all_chars-append is_visible (for_bytes encode_byte c) (rfc5987_encode s)
      (for_bytes-all is_visible encode_byte encode_byte-visible c) (rfc5987_encode-visible s)

plain-quotable : (c : Char) → is_plain c ≡ true → is_quotable c ≡ true
unfolding is_control
plain-quotable c h = ground arith

replaced-quotable :
    (c : Char) (b : Bool)
    → (b ≡ true → is_quotable c ≡ true)
    → is_quotable (if b then c else "_") ≡ true
replaced-quotable c true h = h refl
replaced-quotable c false h = refl

both_true : (a b : Bool) → a ≡ true → b ≡ true → a && b ≡ true
both_true true b h k = k
both_true false b h k = h

ascii_only-quotable : (s : String) → all_chars is_quotable (ascii_only s) ≡ true
unfolding ascii_only
ascii_only-quotable [] = refl
ascii_only-quotable (c ∷ s) =
    both_true (is_quotable (if is_plain c then c else "_")) _
      (replaced-quotable c (is_plain c) (plain-quotable c)) (ascii_only-quotable s)

ascii_fallback-quotable :
    (s : String)
    → (is_empty (ascii_fallback s) ≡ false) × (all_chars is_quotable (ascii_fallback s) ≡ true)
unfolding ascii_fallback
ascii_fallback-quotable s = elim (Bool-cases (is_empty (ascii_only s))) [
  | inl e ↦ rw e (refl, refl)
  | inr e ↦ rw e (e, ascii_only-quotable s)
]

-- Whatever the name of a file, the header is one quoted name, not empty and without a quote, a backslash
-- or a control character, and one encoded name of visible ASCII: no name ends the header or the line.
pub content_disposition_header_value-quoted :
    (file_name : String)
    → (quoted : String) × (encoded : String) × (content_disposition_header_value file_name
        ≡ "attachment; filename=\"" <> quoted <> "\"; filename*=UTF-8''" <> encoded)
      × (is_empty quoted ≡ false)
      × (all_chars is_quotable quoted ≡ true)
      × (all_chars is_visible encoded ≡ true)
unfolding content_disposition_header_value
content_disposition_header_value-quoted file_name =
    let (filled, quotable) = ascii_fallback-quotable file_name in
    (
      ascii_fallback file_name,
      rfc5987_encode file_name,
      refl,
      filled,
      quotable,
      rfc5987_encode-visible file_name,
    )
