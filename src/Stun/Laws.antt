-- ===== src/Stun/Laws.antt =====
-- Which STUN responses src/rendezvous.rs believes, and the address it reads from them.
use Prim.Native.Nat.{bit_xor}
use omarchy_omasend.Common.{
  ℕ, zero, suc, ◌+◌, ◌*◌, ◌/◌, ◌%◌, ◌≤◌, ◌≡◌, refl, true, List, [], ◌∷◌, ◌++◌, Option, some, ltb,
  ◌==◌, length, arith, Bool-cases, inl, inr,
}
use omarchy_omasend.Common.Bits.{bit_xor_twice}
use omarchy_omasend.Common.Text.{text_eq, text_eq_iff}
use omarchy_omasend.Common.Bytes.{be16, slice}
use omarchy_omasend.Net.{IpAddr, v4}
use omarchy_omasend.Stun.{
  magic_cookie, xor_mapped_address, has_ipv4, next_fallback, scan_attributes, parse_stun_response,
}

-- A response that is believed is a binding success response with the magic cookie and the
-- transaction identifier of the request.
pub parse_stun_response_sound :
    (buf tx_id : List ℕ) (found : IpAddr × ℕ)
    → parse_stun_response buf tx_id ≡ some found
    → (20 ≤ length buf)
      × (be16 buf 0 ≡ 0x0101)
      × (slice buf 4 4 ≡ magic_cookie)
      × (slice buf 8 12 ≡ tx_id)
unfolding parse_stun_response
parse_stun_response_sound buf tx_id found h = elim (Bool-cases (ltb (length buf) 20)) [
  | inl t ↦ absurd (cc (rw t at h))
  | inr t ↦ elim (Bool-cases (be16 buf 0 == 0x0101)) [
    | inr u ↦ absurd (cc (rw (t, u) at h))
    | inl u ↦ elim (Bool-cases (text_eq (slice buf 4 4) magic_cookie)) [
      | inr v ↦ absurd (cc (rw (t, u, v) at h))
      | inl v ↦ elim (Bool-cases (text_eq (slice buf 8 12) tx_id)) [
        | inr w ↦ absurd (cc (rw (t, u, v, w) at h))
        | inl w ↦ (
          ground (arith, t),
          ground (arith, u),
          (text_eq_iff (slice buf 4 4) magic_cookie).0 v,
          (text_eq_iff (slice buf 8 12) tx_id).0 w,
        )
      ]
    ]
  ]
]

-- Beyond as many rounds as bytes are left, more rounds change nothing.
pub scan_rounds :
    (j k : ℕ) (buf : List ℕ) (limit offset : ℕ) (fallback_addr : Option (IpAddr × ℕ))
    → limit ≤ offset + j
    → limit ≤ offset + k
    → scan_attributes j buf limit offset fallback_addr
      ≡ scan_attributes k buf limit offset fallback_addr
unfolding scan_attributes
scan_rounds zero zero buf limit offset f p q = refl
scan_rounds zero (suc k) buf limit offset f p q = ground arith
scan_rounds (suc j) zero buf limit offset f p q = ground arith
scan_rounds (suc j) (suc k) buf limit offset f p q =
    let padded = (be16 buf (offset + 2) + 3) / 4 * 4 in
    rw
      (scan_rounds j k buf limit (offset + (4 + padded)) (next_fallback buf offset f) (omega arith)
        (omega arith))
      refl

-- The response that RFC 5389 asks of a server that saw the request come from the address `a.b.c.d`
-- and a port: a binding success response with one XOR-MAPPED-ADDRESS attribute.
unfoldable pub binding_response : List ℕ → ℕ → ℕ → ℕ → ℕ → ℕ → List ℕ
binding_response tx_id a b c d port =
    0x01
    ∷ 0x01
    ∷ 0
    ∷ 12
    ∷ 0x21
    ∷ 0x12
    ∷ 0xa4
    ∷ 0x42
    ∷ (tx_id
        ++ 0x00
          ∷ 0x20
          ∷ 0
          ∷ 8
          ∷ 0
          ∷ 0x01
          ∷ bit_xor port 0x2112 / 256
          ∷ bit_xor port 0x2112 % 256
          ∷ bit_xor a 0x21
          ∷ bit_xor b 0x12
          ∷ bit_xor c 0xa4
          ∷ bit_xor d 0x42
          ∷ [])

-- The address that the server saw is read back from its response.
pub parse-binding_response :
    (t0 t1 t2 t3 t4 t5 t6 t7 t8 t9 t10 t11 a b c d port : ℕ)
    → let tx_id = t0 ∷ t1 ∷ t2 ∷ t3 ∷ t4 ∷ t5 ∷ t6 ∷ t7 ∷ t8 ∷ t9 ∷ t10 ∷ t11 ∷ [] in
      parse_stun_response (binding_response tx_id a b c d port) tx_id ≡ some (v4 a b c d, port)
unfolding parse_stun_response binding_response scan_attributes xor_mapped_address has_ipv4
parse-binding_response t0 t1 t2 t3 t4 t5 t6 t7 t8 t9 t10 t11 a b c d port =
    let tx_id = t0 ∷ t1 ∷ t2 ∷ t3 ∷ t4 ∷ t5 ∷ t6 ∷ t7 ∷ t8 ∷ t9 ∷ t10 ∷ t11 ∷ [] in
    let same : text_eq tx_id tx_id ≡ true = (text_eq_iff tx_id tx_id).1 refl in
    let whole : bit_xor port 0x2112 / 256 * 256 + bit_xor port 0x2112 % 256 ≡ bit_xor port 0x2112 =
      omega arith in
    rw
      (
        same,
        whole,
        bit_xor_twice a 0x21,
        bit_xor_twice b 0x12,
        bit_xor_twice c 0xa4,
        bit_xor_twice d 0x42,
        bit_xor_twice port 0x2112,
      )
      refl
