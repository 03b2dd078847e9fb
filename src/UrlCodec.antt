-- ===== src/UrlCodec.antt =====
-- `urlencoding_encode` and `urlencoding_decode` of src/main.rs, over bytes.
pub mod RoundTrip
use omarchy_omasend.Common.{
  ℕ, ◌+◌, ◌-◌, ◌*◌, ◌/◌, ◌%◌, ◌≤◌, ◌<◌, ◌≡◌, Bool, true, false, ◌&&◌, ◌||◌, List, [], ◌∷◌, ◌++◌,
  Option, none, some, ltb, leb, ◌==◌, if◌then◌else◌,
}

abbrev pub is_ascii_alphanumeric : ℕ → Bool
is_ascii_alphanumeric b =
    (leb b'0' b && leb b b'9') || (leb b'A' b && leb b b'Z') || (leb b'a' b && leb b b'z')

unfoldable pub is_unreserved : ℕ → Bool
is_unreserved b = is_ascii_alphanumeric b || b == b'-' || b == b'_' || b == b'.' || b == b'~'

-- A hexadecimal digit as `{:02X}` prints it.
unfoldable pub upper_hex : ℕ → ℕ
upper_hex d = if ltb d 10 then b'0' + d else b'A' + (d - 10)

unfoldable pub encode_byte : ℕ → List ℕ
unfolding is_unreserved upper_hex
encode_byte b =
    if is_unreserved b then b ∷ [] else b'%' ∷ upper_hex (b / 16) ∷ upper_hex (b % 16) ∷ []

unfoldable pub urlencoding_encode : List ℕ → List ℕ
unfolding encode_byte
urlencoding_encode [] = []
urlencoding_encode (b ∷ input) = encode_byte b ++ urlencoding_encode input

-- The value of a hexadecimal digit of either case.
unfoldable pub hex_value : ℕ → Option ℕ
hex_value c =
    if leb b'0' c && leb c b'9'
    then some (c - b'0')
    else if leb b'a' c && leb c b'f'
    then some (c - b'a' + 10)
    else if leb b'A' c && leb c b'F'
    then some (c - b'A' + 10)
    else none

-- `u8::from_str_radix(.., 16)` on a text of two bytes, which may begin with a plus sign. (A text that
-- is no UTF-8 is replaced by the empty one, which is refused too.)
unfoldable pub from_str_radix_16 : ℕ → ℕ → Option ℕ
unfolding hex_value
from_str_radix_16 c d = if c == b'+' then hex_value d else elim (hex_value c) [
  | none ↦ none
  | some hi ↦ elim (hex_value d) [ none ↦ none | some lo ↦ some (hi * 16 + lo) ]
]

abbrev pub plus_to_space : ℕ → ℕ
plus_to_space c = if c == b'+' then b' ' else c

-- The bytes that the loop of `urlencoding_decode` collects.
unfoldable pub urlencoding_decode : List ℕ → List ℕ
unfolding from_str_radix_16
urlencoding_decode [] = []
urlencoding_decode (c ∷ []) = plus_to_space c ∷ []
urlencoding_decode (c ∷ d ∷ []) = plus_to_space c ∷ urlencoding_decode (d ∷ [])
urlencoding_decode (c ∷ d ∷ e ∷ rest) =
    let escaped = urlencoding_decode rest in
    let next = urlencoding_decode (d ∷ e ∷ rest) in
    if c == b'%'
    then elim (from_str_radix_16 d e) [ none ↦ c ∷ next | some h ↦ h ∷ escaped ]
    else plus_to_space c ∷ next
