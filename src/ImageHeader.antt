-- ===== src/ImageHeader.antt =====
-- `validate_image_header` of src/main.rs: which bytes are accepted as an image, and the size read
-- from its header. A byte is read by
-- `byte_at` where the source has checked the length.
pub mod Bounds
mod Tests
use omarchy_omasend.Common.{
  ℕ, zero, suc, ◌+◌, ◌-◌, ◌*◌, ◌/◌, ◌%◌, ◌≡◌, Bool, true, false, not, ◌&&◌, ◌||◌, List, [], ◌∷◌,
  Option, none, some, ltb, leb, ◌==◌, if◌then◌else◌, get_elem?, length, take, drop, Result, ok, err,
  min,
}
use omarchy_omasend.Common.Text.{codes, text_eq}
use omarchy_omasend.Common.Bytes.{byte_at, be16, be32, le16, le32, slice}

abbrev pub max_image_clip_size : ℕ
max_image_clip_size = 10 * 1024 * 1024

pub data ImageKind : Type 0 where
  image_png image_jpeg image_webp : ImageKind

pub data ImageError : Type 0 where
  empty_data too_large script_payload png_short png_without_ihdr png_empty bad_jpeg bad_webp :
      ImageError
  too_wide : ImageKind → ImageError
  unsupported : ImageError

abbrev pub to_ascii_lowercase : ℕ → ℕ
to_ascii_lowercase b = if leb b'A' b && leb b b'Z' then b + 32 else b

-- `eq_ignore_ascii_case` on byte slices: of one length, and the same but for the case.
pub eq_ignore_ascii_case : List ℕ → List ℕ → Bool
eq_ignore_ascii_case [] [] = true
eq_ignore_ascii_case [] (b ∷ bs) = false
eq_ignore_ascii_case (a ∷ xs) [] = false
eq_ignore_ascii_case (a ∷ xs) (b ∷ bs) =
    to_ascii_lowercase a == to_ascii_lowercase b && eq_ignore_ascii_case xs bs

-- `bytes.windows(n).any(|w| w.eq_ignore_ascii_case(pattern))`.
pub any_window : ℕ → List ℕ → List ℕ → Bool
any_window n pattern [] = false
any_window n pattern (b ∷ bytes) =
    (leb n (length (b ∷ bytes)) && eq_ignore_ascii_case (take n (b ∷ bytes)) pattern)
    || any_window n pattern bytes

pub has_script : List ℕ → Bool
has_script bytes =
    let preview = take (min (length bytes) 1024) bytes in
    any_window 4 (codes "<svg") preview
    || any_window 5 (codes "<?xml") preview
    || any_window 11 (codes "<html") preview
    || any_window 7 (codes "<script") preview

abbrev pub png_signature : List ℕ
png_signature = 0x89 ∷ 80 ∷ 78 ∷ 71 ∷ 13 ∷ 10 ∷ 26 ∷ 10 ∷ []

abbrev pub jpeg_signature : List ℕ
jpeg_signature = 0xff ∷ 0xd8 ∷ 0xff ∷ []

-- The last two tests of each format, on the size that was read.
pub sized : ImageKind → ImageError → ℕ → ℕ → Result (ImageKind × ℕ × ℕ) ImageError
sized kind missing width height =
    if width == 0 || height == 0
    then err missing
    else if ltb 8192 width || ltb 8192 height
    then err (too_wide kind)
    else ok (kind, width, height)

pub png_header : List ℕ → Result (ImageKind × ℕ × ℕ) ImageError
png_header bytes =
    if ltb (length bytes) 24
    then err png_short
    else if not (text_eq (slice bytes 12 4) (codes "IHDR"))
    then err png_without_ihdr
    else sized image_png png_empty (be32 bytes 16) (be32 bytes 20)

abbrev pub is_sof : ℕ → Bool
is_sof m =
    (leb 0xc0 m && leb m 0xc3)
    || (leb 0xc5 m && leb m 0xc7)
    || (leb 0xc9 m && leb m 0xcb)
    || (leb 0xcd m && leb m 0xcf)

-- What one round of the loop does at an offset: it leaves with a size, or goes on further on.
pub data JpegStep : Type 0 where
  leaves : ℕ → ℕ → JpegStep
  goes_on : ℕ → JpegStep

pub jpeg_segment : List ℕ → ℕ → ℕ → JpegStep
jpeg_segment bytes marker offset =
    let len = length bytes in
    let seg_len = be16 bytes offset in
    if marker == 0xff || marker == 0x00
    then goes_on offset
    else if marker == 0xd8 || marker == 0xd9 || (leb 0xd0 marker && leb marker 0xd7)
    then goes_on offset
    else if marker == 0xda || marker == 0xd9
    then leaves 0 0
    else if ltb len (offset + 2)
    then leaves 0 0
    else if ltb seg_len 2 || ltb len (offset + seg_len)
    then leaves 0 0
    else if is_sof marker && leb 7 seg_len && leb (offset + 7) len
    then leaves (be16 bytes (offset + 5)) (be16 bytes (offset + 3))
    else goes_on (offset + seg_len)

pub jpeg_step : List ℕ → ℕ → JpegStep
jpeg_step bytes offset =
    if not (byte_at bytes offset == 0xff)
    then goes_on (offset + 1)
    else jpeg_segment bytes (byte_at bytes (offset + 1)) (offset + 2)

-- The loop, which is given as many rounds as there are bytes; `none` if it would take one more.
pub jpeg_scan : ℕ → List ℕ → ℕ → Option (ℕ × ℕ)
jpeg_scan zero bytes offset = if ltb (offset + 3) (length bytes) then none else some (0, 0)
jpeg_scan (suc rounds) bytes offset =
    if ltb (offset + 3) (length bytes)
    then elim (jpeg_step bytes offset) [
      | leaves w h ↦ some (w, h)
      | goes_on next ↦ jpeg_scan rounds bytes next
    ]
    else some (0, 0)

pub jpeg_header : List ℕ → Option (Result (ImageKind × ℕ × ℕ) ImageError)
jpeg_header bytes = elim (jpeg_scan (length bytes) bytes 2) [
  | none ↦ none
  | some (width, height) ↦ some (sized image_jpeg bad_jpeg width height)
]

-- The size that a WebP chunk tells, zero where it tells none.
pub webp_size : List ℕ → ℕ × ℕ
webp_size bytes =
    let chunk_type = slice bytes 12 4 in
    if text_eq chunk_type (codes "VP8 ")
    then (if leb 30 (length bytes)
          && byte_at bytes 23 == 0x9d
          && byte_at bytes 24 == 0x01
          && byte_at bytes 25 == 0x2a
        then (le16 bytes 26 % 16384, le16 bytes 28 % 16384)
        else (0, 0))
    else if text_eq chunk_type (codes "VP8L")
    then (if leb 25 (length bytes) && byte_at bytes 20 == 0x2f
        then (le32 bytes 21 % 16384 + 1, le32 bytes 21 / 16384 % 16384 + 1)
        else (0, 0))
    else if text_eq chunk_type (codes "VP8X") && leb 30 (length bytes)
    then (
      byte_at bytes 24 + byte_at bytes 25 * 256 + byte_at bytes 26 * 65536 + 1,
      byte_at bytes 27 + byte_at bytes 28 * 256 + byte_at bytes 29 * 65536 + 1,
    )
    else (0, 0)

abbrev pub is_webp : List ℕ → Bool
is_webp bytes =
    leb 16 (length bytes)
    && text_eq (slice bytes 0 4) (codes "RIFF")
    && text_eq (slice bytes 8 4) (codes "WEBP")

abbrev pub starts_with : List ℕ → List ℕ → Bool
starts_with pattern bytes = text_eq (take (length pattern) bytes) pattern

-- `none` if the loop over JPEG segments had not ended.
pub validate_image_header : List ℕ → Option (Result (ImageKind × ℕ × ℕ) ImageError)
validate_image_header bytes =
    if length bytes == 0
    then some (err empty_data)
    else if ltb max_image_clip_size (length bytes)
    then some (err too_large)
    else if has_script bytes
    then some (err script_payload)
    else if starts_with png_signature bytes
    then some (png_header bytes)
    else if starts_with jpeg_signature bytes
    then jpeg_header bytes
    else if is_webp bytes
    then some (sized image_webp bad_webp (webp_size bytes).0 (webp_size bytes).1)
    else some (err unsupported)
