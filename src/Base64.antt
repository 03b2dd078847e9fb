-- ===== src/Base64.antt =====
-- `base64_encode` and `base64_decode` of src/main.rs, over bytes. The shifted parts of a number share
-- no bit, so they are added.
pub mod Laws
mod Tests
use omarchy_omasend.Common.{
  ℕ, ◌+◌, ◌-◌, ◌*◌, ◌/◌, ◌%◌, Bool, true, false, not, ◌&&◌, ◌||◌, List, [], ◌∷◌, ◌++◌, Option, none,
  some, ltb, leb, ◌==◌, if◌then◌else◌, get_elem?, keep_if, length, drop, Result, ok, err,
}
use omarchy_omasend.Common.Text.{codes}

abbrev charset : List ℕ
charset = codes "ABCDEFGHIJKLMNOPQRSTUVWXYZabcdefghijklmnopqrstuvwxyz0123456789+/"

-- `CHARSET[d]`, which is in range for the numbers below 64 it is used at.
pub char_at : ℕ → ℕ
char_at d = elim (get_elem? charset d) [ none ↦ 0 | some c ↦ c ]

-- One chunk of three bytes, whose last ones may be missing.
pub encode_chunk : ℕ → Option ℕ → Option ℕ → List ℕ
encode_chunk b0 o1 o2 =
    let b1 : ℕ = elim o1 [ none ↦ 0 | some b ↦ b ] in
    let b2 : ℕ = elim o2 [ none ↦ 0 | some b ↦ b ] in
    let n = b0 * 65536 + b1 * 256 + b2 in
    char_at (n / 262144 % 64)
    ∷ char_at (n / 4096 % 64)
    ∷ elim o1 [ none ↦ b'=' | some b ↦ char_at (n / 64 % 64) ]
    ∷ elim o2 [ none ↦ b'=' | some b ↦ char_at (n % 64) ]
    ∷ []

pub base64_encode : List ℕ → List ℕ
base64_encode [] = []
base64_encode (b0 ∷ []) = encode_chunk b0 none none
base64_encode (b0 ∷ b1 ∷ []) = encode_chunk b0 (some b1) none
base64_encode (b0 ∷ b1 ∷ b2 ∷ rest) = encode_chunk b0 (some b1) (some b2) ++ base64_encode rest

pub data Base64Error : Type 0 where
  invalid_length invalid_character : Base64Error

abbrev pub is_ascii_whitespace : ℕ → Bool
is_ascii_whitespace b = b == 32 || b == 9 || b == 10 || b == 12 || b == 13

-- The text begins with the pattern.
pub starts_with : List ℕ → List ℕ → Bool
starts_with [] s = true
starts_with (p ∷ ps) [] = false
starts_with (p ∷ ps) (c ∷ s) = p == c && starts_with ps s

abbrev marker : List ℕ
marker = codes ";base64,"

-- What follows the first `;base64,`, or the whole text.
pub strip_marker : List ℕ → Option (List ℕ)
unfolding starts_with
strip_marker [] = none
strip_marker (c ∷ s) =
    let later = strip_marker s in
    if starts_with marker (c ∷ s) then some (drop 8 (c ∷ s)) else later

-- The value of a character, and whether it is padding.
pub char_value : ℕ → Option (ℕ × ℕ)
char_value b =
    if leb b'A' b && leb b b'Z'
    then some (b - b'A', 0)
    else if leb b'a' b && leb b b'z'
    then some (b - b'a' + 26, 0)
    else if leb b'0' b && leb b b'9'
    then some (b - b'0' + 52, 0)
    else if b == b'+'
    then some (62, 0)
    else if b == b'/'
    then some (63, 0)
    else if b == b'='
    then some (0, 1)
    else none

-- The bytes of four values, less those that the padding stands for.
pub quad_bytes : ℕ → ℕ → ℕ → ℕ → ℕ → List ℕ
quad_bytes v0 v1 v2 v3 pad =
    let n = v0 * 262144 + v1 * 4096 + v2 * 64 + v3 in
    n / 65536 % 256
    ∷ ((if ltb pad 2 then n / 256 % 256 ∷ [] else []) ++ (if ltb pad 1 then n % 256 ∷ [] else []))

-- The loop over the chunks; `none` at an invalid character.
pub decode_chunks : List ℕ → Option (List ℕ)
decode_chunks (c0 ∷ c1 ∷ c2 ∷ c3 ∷ rest) =
    let later = decode_chunks rest in
    elim (char_value c0) [
      | none ↦ none
      | some (v0, p0) ↦ elim (char_value c1) [
        | none ↦ none
        | some (v1, p1) ↦ elim (char_value c2) [
          | none ↦ none
          | some (v2, p2) ↦ elim (char_value c3) [
            | none ↦ none
            | some (v3, p3) ↦ elim later [
              | none ↦ none
              | some bytes ↦ some (quad_bytes v0 v1 v2 v3 (p0 + p1 + p2 + p3) ++ bytes)
            ]
          ]
        ]
      ]
    ]
decode_chunks [] = some []
decode_chunks (c0 ∷ []) = some []
decode_chunks (c0 ∷ c1 ∷ []) = some []
decode_chunks (c0 ∷ c1 ∷ c2 ∷ []) = some []

pub base64_decode : List ℕ → Result (List ℕ) Base64Error
base64_decode input =
    let stripped : List ℕ = elim (strip_marker input) [ none ↦ input | some rest ↦ rest ] in
    let clean = keep_if (λ b. not (is_ascii_whitespace b)) stripped in
    if not (length clean % 4 == 0)
    then err invalid_length
    else elim (decode_chunks clean) [ none ↦ err invalid_character | some out ↦ ok out ]
