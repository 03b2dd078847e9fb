-- ===== src/Base64/Laws.antt =====
-- Decoding what `base64_encode` of src/main.rs gives, and the sizes of both.
use omarchy_omasend.Common.{
  ℕ, ◌+◌, ◌*◌, ◌/◌, ◌%◌, ◌<◌, ◌≡◌, refl, ap, ◌∙◌, Bool, true, false, not, ◌&&◌, List, [], ◌∷◌, ◌++◌,
  Option, none, some, arith, ◌==◌, keep_if-all, length, ok, all, All, all_below, all_below_sound,
  Bool-cases, inl, inr,
}
use omarchy_omasend.Common.Text.{codes}
use omarchy_omasend.Base64.{
  char_at, encode_chunk, base64_encode, is_ascii_whitespace, starts_with, strip_marker, char_value,
  quad_bytes, decode_chunks, base64_decode,
}

is_value : Option (ℕ × ℕ) → ℕ → Bool
is_value none d = false
is_value (some (v, p)) d = v == d && p == 0

value_of_is_value : (o : Option (ℕ × ℕ)) (d : ℕ) → is_value o d ≡ true → o ≡ some (d, 0)
unfolding is_value
value_of_is_value none d h = cc
value_of_is_value (some (v, p)) d h = ground arith

-- Each character of the alphabet is read back.
char_value-char_at : (d : ℕ) → d < 64 → char_value (char_at d) ≡ some (d, 0)
unfolding all_below char_value char_at is_value
char_value-char_at d h =
    value_of_is_value (char_value (char_at d)) d
      (all_below_sound 64 (λ x. is_value (char_value (char_at x)) x) d refl h)

-- A character that neither spaces nor starts the marker.
abbrev plain : ℕ → Bool
plain c = not (is_ascii_whitespace c) && not (c == b';')

char_at-plain : (d : ℕ) → d < 64 → plain (char_at d) ≡ true
unfolding all_below char_at
char_at-plain d h = all_below_sound 64 (λ x. plain (char_at x)) d refl h

-- The four values of a chunk carry its three bytes.
quad_bytes-encoded :
    (b0 b1 b2 : ℕ)
    → b0 < 256
    → b1 < 256
    → b2 < 256
    → (n : ℕ) → n ≡ b0 * 65536 + b1 * 256 + b2
    → quad_bytes (n / 262144 % 64) (n / 4096 % 64) (n / 64 % 64) (n % 64) 0 ≡ b0 ∷ b1 ∷ b2 ∷ []
unfolding quad_bytes
quad_bytes-encoded b0 b1 b2 h0 h1 h2 n e =
    let same : n / 262144 % 64 * 262144 + n / 4096 % 64 * 4096 + n / 64 % 64 * 64 + n % 64 ≡ n =
      omega arith in
    rw same (ground arith)

decode_four :
    (v0 v1 v2 v3 p2 p3 c2 c3 : ℕ) (rest out : List ℕ)
    → v0 < 64
    → v1 < 64
    → char_value c2 ≡ some (v2, p2)
    → char_value c3 ≡ some (v3, p3)
    → decode_chunks rest ≡ some out
    → decode_chunks (char_at v0 ∷ char_at v1 ∷ c2 ∷ c3 ∷ rest)
      ≡ some (quad_bytes v0 v1 v2 v3 (p2 + p3) ++ out)
unfolding decode_chunks
decode_four v0 v1 v2 v3 p2 p3 c2 c3 rest out h0 h1 e2 e3 e =
    ground (arith, char_value-char_at v0 h0, char_value-char_at v1 h1, e2, e3, e)

char_value-pad : char_value b'=' ≡ some (0, 1)
unfolding char_value
char_value-pad = refl

decode_chunks-encode :
    (s : List ℕ) → All (λ b. b < 256) s → decode_chunks (base64_encode s) ≡ some s
unfolding base64_encode encode_chunk
decode_chunks-encode [] h = unfold decode_chunks in refl
decode_chunks-encode (b0 ∷ []) h =
    let n = b0 * 65536 + 0 * 256 + 0 in
    let back =
      decode_four (n / 262144 % 64) (n / 4096 % 64) 0 0 1 1 b'=' b'=' [] [] (omega arith)
        (omega arith) char_value-pad char_value-pad (unfold decode_chunks in refl) in
    back ∙ unfold quad_bytes in (ground (arith, h.0))
decode_chunks-encode (b0 ∷ b1 ∷ []) h =
    let n = b0 * 65536 + b1 * 256 + 0 in
    let back =
      decode_four (n / 262144 % 64) (n / 4096 % 64) (n / 64 % 64) 0 0 1 (char_at (n / 64 % 64)) b'='
        [] [] (omega arith) (omega arith) (char_value-char_at (n / 64 % 64) (omega arith))
        char_value-pad (unfold decode_chunks in refl) in
    back ∙ unfold quad_bytes in (ground (arith, h.0, h.1.0))
decode_chunks-encode (b0 ∷ b1 ∷ b2 ∷ s) h =
    let n = b0 * 65536 + b1 * 256 + b2 in
    decode_four (n / 262144 % 64) (n / 4096 % 64) (n / 64 % 64) (n % 64) 0 0 (char_at (n / 64 % 64))
      (char_at (n % 64)) (base64_encode s) s (omega arith) (omega arith)
      (char_value-char_at (n / 64 % 64) (omega arith)) (char_value-char_at (n % 64) (omega arith))
      (decode_chunks-encode s h.1.1.1)
    ∙ ap (λ t. some (t ++ s)) (quad_bytes-encoded b0 b1 b2 h.0 h.1.0 h.1.1.0 n refl)

abbrev Plain : List ℕ → Type 0
Plain s = all plain s ≡ true

plain_cons : (c : ℕ) (s : List ℕ) → Plain (c ∷ s) → (plain c ≡ true) × Plain s
plain_cons c s h = elim (Bool-cases (plain c)) [
  | inl e ↦ (e, rw e at h)
  | inr e ↦ absurd (cc (rw e at h))
]

encode-Plain : (s : List ℕ) → All (λ b. b < 256) s → Plain (base64_encode s)
unfolding base64_encode encode_chunk
encode-Plain [] h = refl
encode-Plain (b0 ∷ []) h =
    let n = b0 * 65536 + 0 * 256 + 0 in
    ground (
      arith,
      char_at-plain (n / 262144 % 64) (omega arith),
      char_at-plain (n / 4096 % 64) (omega arith),
    )
encode-Plain (b0 ∷ b1 ∷ []) h =
    let n = b0 * 65536 + b1 * 256 + 0 in
    ground (
      arith,
      char_at-plain (n / 262144 % 64) (omega arith),
      char_at-plain (n / 4096 % 64) (omega arith),
      char_at-plain (n / 64 % 64) (omega arith),
    )
encode-Plain (b0 ∷ b1 ∷ b2 ∷ s) h =
    let n = b0 * 65536 + b1 * 256 + b2 in
    ground (
      arith,
      char_at-plain (n / 262144 % 64) (omega arith),
      char_at-plain (n / 4096 % 64) (omega arith),
      char_at-plain (n / 64 % 64) (omega arith),
      char_at-plain (n % 64) (omega arith),
      encode-Plain s h.1.1.1,
    )

starts_with_other :
    (p c : ℕ) (ps s : List ℕ) → (p == c) ≡ false → starts_with (p ∷ ps) (c ∷ s) ≡ false
unfolding starts_with
starts_with_other p c ps s h = rw h refl

not_semicolon : (c : ℕ) → plain c ≡ true → (b';' == c) ≡ false
not_semicolon c h = ground arith

strip_marker-Plain : (s : List ℕ) → Plain s → strip_marker s ≡ none
unfolding strip_marker
strip_marker-Plain [] h = refl
strip_marker-Plain (c ∷ s) h =
    let (first, rest) = plain_cons c s h in
    rw (starts_with_other b';' c (codes "base64,") s (not_semicolon c first))
      (strip_marker-Plain s rest)

all-weaken :
    (p q : ℕ → Bool)
    → ((c : ℕ) → p c ≡ true → q c ≡ true)
    → (s : List ℕ) → all p s ≡ true
    → all q s ≡ true
all-weaken p q w [] h = refl
all-weaken p q w (c ∷ s) h = ground (arith, w c, all-weaken p q w s)

-- The encoding has four characters for each three bytes, the last ones counted as three.
pub length-base64_encode : (s : List ℕ) → length (base64_encode s) ≡ (length s + 2) / 3 * 4
unfolding base64_encode encode_chunk
length-base64_encode [] = refl
length-base64_encode (b0 ∷ []) = refl
length-base64_encode (b0 ∷ b1 ∷ []) = refl
length-base64_encode (b0 ∷ b1 ∷ b2 ∷ s) = omega (arith, length-base64_encode s)

-- Decoding gives back whatever bytes were encoded.
pub base64_decode-base64_encode :
    (s : List ℕ) → All (λ b. b < 256) s → base64_decode (base64_encode s) ≡ ok s
unfolding base64_decode
base64_decode-base64_encode s h =
    let kept =
      keep_if-all (λ b. not (is_ascii_whitespace b)) (base64_encode s)
        (all-weaken plain (λ b. not (is_ascii_whitespace b)) (λ c e. ground arith) (base64_encode s)
          (encode-Plain s h)) in
    let size : length (base64_encode s) % 4 ≡ 0 = omega (arith, length-base64_encode s) in
    rw
      (
        strip_marker-Plain (base64_encode s) (encode-Plain s h),
        kept,
        decode_chunks-encode s h,
        size,
      )
      refl
