-- ===== src/Base64/Tests.antt =====
-- The round trip of src/main.rs at the four bytes of a text.
use omarchy_omasend.Common.{ℕ, ◌≡◌, ◌<◌, List, [], ◌∷◌, All, arith, ok}
use omarchy_omasend.Base64.{base64_encode, base64_decode}
use omarchy_omasend.Base64.Laws.{base64_decode-base64_encode}

abbrev sample : List ℕ
sample = b'O' ∷ b'm' ∷ 255 ∷ 0 ∷ []

sample_bytes : All (λ b. b < 256) sample
sample_bytes = (omega arith, (omega arith, (omega arith, (omega arith, tt))))

base64_decode-base64_encode_example : base64_decode (base64_encode sample) ≡ ok sample
base64_decode-base64_encode_example = base64_decode-base64_encode sample sample_bytes
