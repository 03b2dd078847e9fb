-- ===== src/Net.antt =====
-- Addresses: `std::net::IpAddr` and `is_local_network_ip` of src/rendezvous.rs.
use Prim.Native.Nat.{bit_and}
use omarchy_omasend.Common.{
  ℕ, ◌/◌, ◌%◌, ◌<◌, ◌≡◌, ◌≢◌, refl, ap, ◌⊎◌, inl, inr, Bool-cases, Bool, true, false, ◌&&◌, ◌||◌,
  arith, leb, ◌==◌, if◌then◌else◌,
}

-- An IPv4 address by its four octets, an IPv6 address by its eight segments.
pub data IpAddr : Type 0 where
  v4 : ℕ → ℕ → ℕ → ℕ → IpAddr
  v6 : ℕ → ℕ → ℕ → ℕ → ℕ → ℕ → ℕ → ℕ → IpAddr

-- `a == b` on addresses.
unfoldable pub ip_eq : IpAddr → IpAddr → Bool
ip_eq (v4 a b c d) (v4 a' b' c' d') = a == a' && b == b' && c == c' && d == d'
ip_eq (v4 a b c d) (v6 s t u v w x y z) = false
ip_eq (v6 s t u v w x y z) (v4 a b c d) = false
ip_eq (v6 s t u v w x y z) (v6 s' t' u' v' w' x' y' z') =
    s == s' && t == t' && u == u' && v == v' && w == w' && x == x' && y == y' && z == z'

pub ip_eq_sound : (i j : IpAddr) → ip_eq i j ≡ true → i ≡ j
unfolding ip_eq
ip_eq_sound (v4 a b c d) (v4 a' b' c' d') h = ground arith
ip_eq_sound (v4 a b c d) (v6 s t u v w x y z) h = cc
ip_eq_sound (v6 s t u v w x y z) (v4 a b c d) h = cc
ip_eq_sound (v6 s t u v w x y z) (v6 s' t' u' v' w' x' y' z') h = ground arith

pub ip_eq_refl : (i : IpAddr) → ip_eq i i ≡ true
unfolding ip_eq
ip_eq_refl (v4 a b c d) = ground arith
ip_eq_refl (v6 s t u v w x y z) = ground arith

-- To split on whether two addresses are the same.
pub ip_cases : (i j : IpAddr) → ((i ≡ j) × (ip_eq i j ≡ true)) ⊎ ((i ≢ j) × (ip_eq i j ≡ false))
ip_cases i j = elim (Bool-cases (ip_eq i j)) [
  | inl e ↦ inl (ip_eq_sound i j e, e)
  | inr e ↦ inr (λ same. cc (ap (ip_eq i) same, ip_eq_refl i, e), e)
]

-- `IpAddr::to_canonical`: an IPv4-mapped IPv6 address becomes the IPv4 address.
unfoldable pub to_canonical : IpAddr → IpAddr
to_canonical (v4 a b c d) = v4 a b c d
to_canonical (v6 s t u v w x y z) =
    if s == 0 && t == 0 && u == 0 && v == 0 && w == 0 && x == 0xffff
    then v4 (y / 256) (y % 256) (z / 256) (z % 256)
    else v6 s t u v w x y z

unfoldable pub is_loopback : IpAddr → Bool
is_loopback (v4 a b c d) = a == 127
is_loopback (v6 s t u v w x y z) =
    s == 0 && t == 0 && u == 0 && v == 0 && w == 0 && x == 0 && y == 0 && z == 1

-- `Ipv4Addr::is_private`: 10.0.0.0/8, 172.16.0.0/12 and 192.168.0.0/16.
abbrev is_private : ℕ → ℕ → Bool
is_private a b = a == 10 || (a == 172 && leb 16 b && leb b 31) || (a == 192 && b == 168)

-- `Ipv4Addr::is_link_local`: 169.254.0.0/16.
abbrev is_link_local : ℕ → ℕ → Bool
is_link_local a b = a == 169 && b == 254

local_canonical : IpAddr → Bool
unfolding is_loopback
local_canonical (v4 a b c d) = is_loopback (v4 a b c d) || is_private a b || is_link_local a b
local_canonical (v6 s t u v w x y z) =
    is_loopback (v6 s t u v w x y z) || bit_and s 0xffc0 == 0xfe80 || bit_and s 0xfe00 == 0xfc00

unfoldable pub is_local_network_ip : IpAddr → Bool
unfolding local_canonical to_canonical
is_local_network_ip ip = local_canonical (to_canonical ip)

pub to_canonical_idem : (ip : IpAddr) → to_canonical (to_canonical ip) ≡ to_canonical ip
unfolding to_canonical
to_canonical_idem (v4 a b c d) = refl
to_canonical_idem (v6 s t u v w x y z) = ground arith

-- The addresses of a machine: octets are bytes and segments 16-bit words.
unfoldable pub IsAddr : IpAddr → Type 0
IsAddr (v4 a b c d) = (a < 256) × (b < 256) × (c < 256) × (d < 256)
IsAddr (v6 s t u v w x y z) =
    (s < 65536)
    × (t < 65536)
    × (u < 65536)
    × (v < 65536)
    × (w < 65536)
    × (x < 65536)
    × (y < 65536)
    × (z < 65536)

pub to_canonical-IsAddr : (ip : IpAddr) → IsAddr ip → IsAddr (to_canonical ip)
unfolding to_canonical IsAddr
to_canonical-IsAddr (v4 a b c d) h = h
to_canonical-IsAddr (v6 s t u v w x y z) h = ground arith
