-- ===== src/Stun.antt =====
-- STUN binding requests and responses of src/rendezvous.rs. A transaction identifier has twelve bytes.
pub mod Laws
mod Tests
use Prim.Native.Nat.{bit_xor}
use omarchy_omasend.Common.{
  ℕ, zero, suc, ◌+◌, ◌-◌, ◌*◌, ◌/◌, ◌%◌, Bool, true, false, not, ◌&&◌, ◌||◌, List, [], ◌∷◌, ◌++◌,
  Option, none, some, ltb, leb, ◌==◌, if◌then◌else◌, length, min,
}
use omarchy_omasend.Common.Text.{text_eq}
use omarchy_omasend.Common.Bytes.{byte_at, be16, slice}
use omarchy_omasend.Net.{IpAddr, v4}

abbrev pub magic_cookie : List ℕ
magic_cookie = 0x21 ∷ 0x12 ∷ 0xa4 ∷ 0x42 ∷ []

-- The packet for a transaction identifier, which the source draws at random.
pub create_stun_binding_request : List ℕ → List ℕ
create_stun_binding_request tx_id = 0x00 ∷ 0x01 ∷ 0x00 ∷ 0x00 ∷ (magic_cookie ++ tx_id)

-- The address in a XOR-MAPPED-ADDRESS attribute whose data starts at `at`.
pub xor_mapped_address : List ℕ → ℕ → IpAddr × ℕ
xor_mapped_address buf at = (
  v4 (bit_xor (byte_at buf (at + 4)) 0x21) (bit_xor (byte_at buf (at + 5)) 0x12)
      (bit_xor (byte_at buf (at + 6)) 0xa4) (bit_xor (byte_at buf (at + 7)) 0x42),
  bit_xor (be16 buf (at + 2)) 0x2112,
)

pub mapped_address : List ℕ → ℕ → IpAddr × ℕ
mapped_address buf at = (
  v4 (byte_at buf (at + 4)) (byte_at buf (at + 5)) (byte_at buf (at + 6)) (byte_at buf (at + 7)),
  be16 buf (at + 2),
)

-- The attribute's data has a port and an IPv4 address.
pub has_ipv4 : List ℕ → ℕ → ℕ → Bool
has_ipv4 buf at len = leb 8 len && byte_at buf (at + 1) == 0x01

-- The first MAPPED-ADDRESS is kept in case no other attribute is found.
pub next_fallback : List ℕ → ℕ → Option (IpAddr × ℕ) → Option (IpAddr × ℕ)
next_fallback buf offset (some found) = some found
next_fallback buf offset none =
    if be16 buf offset == 0x0001 && has_ipv4 buf (offset + 4) (be16 buf (offset + 2))
    then some (mapped_address buf (offset + 4))
    else none

-- The loop over the attributes. Each round moves at least four bytes on, so as many rounds as there
-- are bytes are enough.
pub scan_attributes : ℕ → List ℕ → ℕ → ℕ → Option (IpAddr × ℕ) → Option (IpAddr × ℕ)
scan_attributes zero buf limit offset fallback_addr = fallback_addr
scan_attributes (suc rounds) buf limit offset fallback_addr =
    let attr_len = be16 buf (offset + 2) in
    let padded_len = (attr_len + 3) / 4 * 4 in
    let rest =
      scan_attributes rounds buf limit (offset + (4 + padded_len))
        (next_fallback buf offset fallback_addr) in
    if ltb limit (offset + 4)
    then fallback_addr
    else if ltb limit (offset + 4 + attr_len)
    then fallback_addr
    else if be16 buf offset == 0x0020 && has_ipv4 buf (offset + 4) attr_len
    then some (xor_mapped_address buf (offset + 4))
    else rest

pub parse_stun_response : List ℕ → List ℕ → Option (IpAddr × ℕ)
parse_stun_response buf tx_id =
    if ltb (length buf) 20
    then none
    else if not (be16 buf 0 == 0x0101)
    then none
    else if not (text_eq (slice buf 4 4) magic_cookie)
    then none
    else if not (text_eq (slice buf 8 12) tx_id)
    then none
    else scan_attributes (length buf) buf (min (length buf) (20 + be16 buf 2)) 20 none
