-- ===== src/Attachments/Image.antt =====
-- lib.rs of banto-attachments: the type of a file by its first bytes, its digest, and the thumbnail of an image.
-- The crates `image` and `sha2` are a parameter.
use my_template.Prelude.{
  ℕ, ◌/◌, ◌%◌, ◌==◌, ◌<>◌, String, Bool, ◌||◌, Option, none, some, List, [], ◌∷◌, map, ltb,
  if◌then◌else◌, str_eq, char_at,
}
use my_template.Disk.{Bytes}

pub data ImageFormat : Type 0 where
  jpeg png web_p gif : ImageFormat
  other_format : ImageFormat

-- `image::Limits`, as far as it is set.
pub record Limits : Type 0 where
  pub max_image_width : ℕ
  pub max_image_height : ℕ
  pub max_alloc : ℕ

pub record Pixel : Type 0 where
  pub r : ℕ
  pub g : ℕ
  pub b : ℕ
  pub a : ℕ

pub record Rgb : Type 0 where
  pub r : ℕ
  pub g : ℕ
  pub b : ℕ

-- An image by its size and its pixels, in the order of `enumerate_pixels`.
pub record RgbaImage : Type 0 where
  pub width : ℕ
  pub height : ℕ
  pub pixels : List Pixel

pub record RgbImage : Type 0 where
  pub width : ℕ
  pub height : ℕ
  pub pixels : List Rgb

-- `blend channel a` is the arithmetic of `f32`: `channel * (a / 255) + 255 * (1 - a / 255)`, rounded.
pub record Libraries (Picture : Type 0) : Type 0 where
  pub guess_format : Bytes → Option ImageFormat
  pub decode : Limits → Bytes → Option Picture
  pub dimensions : Picture → ℕ × ℕ
  pub resize : Picture → ℕ → ℕ → Picture
  pub to_rgba8 : Picture → RgbaImage
  pub blend : ℕ → ℕ → ℕ
  pub write_image : ℕ → RgbImage → Option Bytes
  pub sha256_digest : Bytes → Bytes

abbrev pub default_mime : String
default_mime = "application/octet-stream"

abbrev pub thumbnail_max_edge : ℕ
thumbnail_max_edge = 256

abbrev pub thumbnail_jpeg_quality : ℕ
thumbnail_jpeg_quality = 80

abbrev pub thumbnail_max_source_edge : ℕ
thumbnail_max_source_edge = 10_000

abbrev pub thumbnail_max_decode_alloc : ℕ
thumbnail_max_decode_alloc = 536_870_912

mime_of : Option ImageFormat → String
mime_of none = default_mime
mime_of (some jpeg) = "image/jpeg"
mime_of (some png) = "image/png"
mime_of (some web_p) = "image/webp"
mime_of (some gif) = "image/gif"
mime_of (some other_format) = default_mime

unfoldable pub is_thumbnailable_mime : String → Bool
is_thumbnailable_mime mime =
    str_eq mime "image/jpeg"
    || str_eq mime "image/png"
    || str_eq mime "image/webp"
    || str_eq mime "image/gif"

-- `{b:02x}`
unfoldable pub hex_byte : ℕ → String
unfolding char_at
hex_byte b = char_at (b / 16) "0123456789abcdef" <> char_at (b % 16) "0123456789abcdef"

unfoldable pub hex : Bytes → String
unfolding hex_byte
hex [] = ""
hex (b ∷ bytes) = hex_byte b <> hex bytes

abbrev limits : Limits
limits = record {
  max_image_width = thumbnail_max_source_edge;
  max_image_height = thumbnail_max_source_edge;
  max_alloc = thumbnail_max_decode_alloc;
}

module _ {Picture : Type 0} (lib : Libraries Picture) where
  unfoldable pub detect_mime : Bytes → String
  unfolding mime_of
  detect_mime bytes = mime_of (lib.guess_format bytes)

  unfoldable pub sha256_hex : Bytes → String
  unfolding hex
  sha256_hex bytes = hex (lib.sha256_digest bytes)

  -- One pixel on a white ground.
  abbrev on_white : Pixel → Rgb
  on_white p = record { r = lib.blend p.r p.a; g = lib.blend p.g p.a; b = lib.blend p.b p.a }

  scaled : Picture → ℕ → ℕ → Picture
  scaled decoded width height =
      if ltb thumbnail_max_edge (if ltb width height then height else width)
      then lib.resize decoded thumbnail_max_edge thumbnail_max_edge
      else decoded

  encoded : RgbaImage → Option Bytes
  encoded rgba =
      lib.write_image thumbnail_jpeg_quality
        (record { width = rgba.width; height = rgba.height; pixels = map on_white rgba.pixels })

  of_decoded : Option Picture → Option Bytes
  unfolding scaled encoded
  of_decoded none = none
  of_decoded (some decoded) =
      let (width, height) = lib.dimensions decoded in
      if width == 0 || height == 0
      then none
      else encoded (lib.to_rgba8 (scaled decoded width height))

  unfoldable pub make_thumbnail : Bytes → Option Bytes
  unfolding of_decoded
  make_thumbnail bytes = of_decoded (lib.decode limits bytes)
