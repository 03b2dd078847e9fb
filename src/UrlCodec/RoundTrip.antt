-- ===== src/UrlCodec/RoundTrip.antt =====
-- Decoding what was percent-encoded, in src/main.rs.
use omarchy_omasend.Common.{
  ℕ, ◌/◌, ◌%◌, ◌<◌, ◌≡◌, ◌≢◌, refl, ap, ◌∙◌, Bool, true, ◌||◌, List, [], ◌∷◌, ◌++◌, some, arith,
  All, Bool-cases, inl, inr, ◌==◌, all, ltb, all-append,
}
use omarchy_omasend.UrlCodec.{
  is_unreserved, upper_hex, encode_byte, urlencoding_encode, hex_value, from_str_radix_16,
  urlencoding_decode,
}

-- A byte that stands for itself: neither `%` nor `+`.
decode_plain :
    (c : ℕ) (rest : List ℕ)
    → c ≢ b'%'
    → c ≢ b'+'
    → urlencoding_decode (c ∷ rest) ≡ c ∷ urlencoding_decode rest
unfolding urlencoding_decode
decode_plain c [] p q = ground arith
decode_plain c (d ∷ []) p q = ground arith
decode_plain c (d ∷ e ∷ rest) p q = ground arith

hex_value-upper_hex : (d : ℕ) → d < 16 → hex_value (upper_hex d) ≡ some d
unfolding hex_value upper_hex
hex_value-upper_hex d h = ground arith

upper_hex-ne_plus : (d : ℕ) → d < 16 → upper_hex d ≢ b'+'
unfolding upper_hex
upper_hex-ne_plus d h = ground arith

decode_escaped :
    (b : ℕ) (rest : List ℕ)
    → b < 256
    → urlencoding_decode (b'%' ∷ upper_hex (b / 16) ∷ upper_hex (b % 16) ∷ rest)
      ≡ b ∷ urlencoding_decode rest
unfolding urlencoding_decode from_str_radix_16
decode_escaped b rest h = ground (
  arith,
  hex_value-upper_hex (b / 16) (omega arith),
  hex_value-upper_hex (b % 16) (omega arith),
  upper_hex-ne_plus (b / 16) (omega arith),
)

decode-encode_byte :
    (b : ℕ) (rest : List ℕ)
    → b < 256
    → urlencoding_decode (encode_byte b ++ rest) ≡ b ∷ urlencoding_decode rest
unfolding encode_byte is_unreserved
decode-encode_byte b rest h = elim (Bool-cases (is_unreserved b)) [
  | inl plain ↦ ground (arith, plain, decode_plain b rest (ground arith) (ground arith))
  | inr other ↦ ground (arith, other, decode_escaped b rest h)
]

-- Decoding gives every text of bytes back, whatever bytes it holds.
pub decode-encode :
    (s : List ℕ) → All (λ b. b < 256) s → urlencoding_decode (urlencoding_encode s) ≡ s
unfolding urlencoding_encode
decode-encode [] h = unfold urlencoding_decode in refl
decode-encode (b ∷ s) h =
    decode-encode_byte b (urlencoding_encode s) h.0 ∙ ap (◌∷◌ b) (decode-encode s h.1)

-- A byte that may stand in an encoded text.
unfoldable pub is_safe : ℕ → Bool
unfolding is_unreserved
is_safe b = is_unreserved b || b == b'%'

upper_hex-is_safe : (d : ℕ) → d < 16 → is_safe (upper_hex d) ≡ true
unfolding upper_hex is_safe is_unreserved
upper_hex-is_safe d h = elim (Bool-cases (ltb d 10)) [
  | inl low ↦ ground arith
  | inr high ↦ ground arith
]

percent-is_safe : is_safe b'%' ≡ true
unfolding is_safe is_unreserved
percent-is_safe = refl

unreserved-is_safe : (b : ℕ) → is_unreserved b ≡ true → is_safe b ≡ true
unfolding is_safe
unreserved-is_safe b h = ground (arith, h)

encode_byte-safe : (b : ℕ) → b < 256 → all is_safe (encode_byte b) ≡ true
unfolding encode_byte
encode_byte-safe b h = elim (Bool-cases (is_unreserved b)) [
  | inl plain ↦ ground (arith, plain, unreserved-is_safe b plain)
  | inr other ↦ ground (
    arith,
    other,
    percent-is_safe,
    upper_hex-is_safe (b / 16) (omega arith),
    upper_hex-is_safe (b % 16) (omega arith),
  )
]

-- An encoded text of bytes holds letters, digits and `-_.~%` only, so none of the characters that
-- separate the parts of a URL.
pub encode_safe : (s : List ℕ) → All (λ b. b < 256) s → all is_safe (urlencoding_encode s) ≡ true
unfolding urlencoding_encode
encode_safe [] h = refl
encode_safe (b ∷ s) h = ground (
  arith,
  all-append is_safe (encode_byte b) (urlencoding_encode s),
  encode_byte-safe b h.0,
  encode_safe s h.1,
)
