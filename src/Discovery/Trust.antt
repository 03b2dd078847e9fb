-- ===== src/Discovery/Trust.antt =====
-- Which peers src/main.rs shows, and which a beacon makes trusted.
use omarchy_omasend.Common.{
  ℕ, ◌≡◌, refl, Bool, true, false, not, ◌||◌, List, [], ◌∷◌, ◌++◌, map, Option, none, some, all,
  all-keep_if, all-append, keep_if, get_elem?, arith, Bool-cases, inl, inr, ◌⊎◌,
}
use omarchy_omasend.Common.Text.{Text, codes, text_eq}
use omarchy_omasend.Pairing.Model.{PairedPeer}
use omarchy_omasend.OmaId.{normalize_oma_id}
use omarchy_omasend.Discovery.{
  DiscoveredPeer, Beacon, Device, is_local_subnet_or_private_ip, is_known_pair, is_listed,
  with_trust, standby_peer, add_standby, insert, sort_peers, get_discovered_peers,
  is_authenticated_paired,
}

all-weaken :
    (p q : DiscoveredPeer → Bool) (ps : List DiscoveredPeer)
    → ((x : DiscoveredPeer) → p x ≡ true → q x ≡ true)
    → all p ps ≡ true
    → all q ps ≡ true
all-weaken p q [] w h = refl
all-weaken p q (x ∷ ps) w h = ground (arith, w x, all-weaken p q ps w)

all-keep_if_also :
    (p q : DiscoveredPeer → Bool) (ps : List DiscoveredPeer)
    → all p ps ≡ true
    → all p (keep_if q ps) ≡ true
all-keep_if_also p q [] h = refl
all-keep_if_also p q (x ∷ ps) h = ground (arith, all-keep_if_also p q ps)

all-insert :
    (p : DiscoveredPeer → Bool) (x : DiscoveredPeer) (ps : List DiscoveredPeer)
    → p x ≡ true
    → all p ps ≡ true
    → all p (insert x ps) ≡ true
unfolding insert
all-insert p x [] h k = ground (arith, h)
all-insert p x (y ∷ ps) h k = ground (arith, h, k, all-insert p x ps)

all-sort_peers :
    (p : DiscoveredPeer → Bool) (ps : List DiscoveredPeer)
    → all p ps ≡ true
    → all p (sort_peers ps) ≡ true
unfolding sort_peers
all-sort_peers p [] h = refl
all-sort_peers p (x ∷ ps) h = elim (Bool-cases (p x)) [
  | inl t ↦ all-insert p x (sort_peers ps) t (all-sort_peers p ps (rw t at h))
  | inr t ↦ absurd (cc (rw t at h))
]

all-add_standby :
    (p : DiscoveredPeer → Bool) (my_norm : Text) (paired : List PairedPeer)
    (ps : List DiscoveredPeer)
    → ((q : PairedPeer) → p (standby_peer q) ≡ true)
    → all p ps ≡ true
    → all p (add_standby my_norm paired ps) ≡ true
unfolding add_standby
all-add_standby p my_norm [] ps w h = h
all-add_standby p my_norm (q ∷ paired) ps w h = ground (
  arith,
  all-add_standby p my_norm paired ps w h,
  all-add_standby p my_norm paired (ps ++ standby_peer q ∷ []) w
      (ground (arith, all-append p ps (standby_peer q ∷ []), w q, h)),
)

all-map-with_trust :
    (d : Device) (p : DiscoveredPeer → Bool) (ps : List DiscoveredPeer)
    → ((x : DiscoveredPeer) → is_listed d x ≡ true → p (with_trust d x) ≡ true)
    → all (is_listed d) ps ≡ true
    → all p (map (with_trust d) ps) ≡ true
all-map-with_trust d p [] w h = refl
all-map-with_trust d p (x ∷ ps) w h = ground (arith, w x, all-map-with_trust d p ps w)

-- A peer on standby, or one that was heard in the last 15 seconds and is not this device.
abbrev pub may_show : Device → DiscoveredPeer → Bool
may_show d p = text_eq p.transport (codes "OMAID") || is_listed d p

abbrev pub is_near : DiscoveredPeer → Bool
is_near p = p.is_trusted || is_local_subnet_or_private_ip p.ip

listed_trust :
    (d : Device) (x : DiscoveredPeer) → is_listed d x ≡ true → may_show d (with_trust d x) ≡ true
unfolding is_listed with_trust
listed_trust d x h = ground (arith, h)

standby_shown : (d : Device) (q : PairedPeer) → may_show d (standby_peer q) ≡ true
unfolding standby_peer
standby_shown d q = refl

standby_near : (q : PairedPeer) → is_near (standby_peer q) ≡ true
unfolding standby_peer
standby_near q = refl

finish :
    (d : Device) (p : DiscoveredPeer → Bool) (ps : List DiscoveredPeer)
    → ((q : PairedPeer) → p (standby_peer q) ≡ true)
    → all p ps ≡ true
    → all p (sort_peers (add_standby (normalize_oma_id d.my_oma_id) d.paired ps)) ≡ true
finish d p ps w h =
    all-sort_peers p (add_standby (normalize_oma_id d.my_oma_id) d.paired ps)
      (all-add_standby p (normalize_oma_id d.my_oma_id) d.paired ps w h)

-- The list that the file gives, before the standby peers are added.
abbrev marked : Device → Option (List DiscoveredPeer) → List DiscoveredPeer
marked d saved =
    map (with_trust d) (elim saved [ none ↦ [] | some peers ↦ keep_if (is_listed d) peers ])

marked-shown :
    (d : Device) (saved : Option (List DiscoveredPeer)) → all (may_show d) (marked d saved) ≡ true
marked-shown d none = refl
marked-shown d (some peers) =
    all-map-with_trust d (may_show d) (keep_if (is_listed d) peers) (listed_trust d)
      (all-keep_if (is_listed d) peers)

-- Every peer that is shown was heard in the last 15 seconds and is not this device, or is a paired
-- peer on standby.
pub get_discovered_peers_shown :
    (d : Device) (saved : Option (List DiscoveredPeer))
    → all (may_show d) (get_discovered_peers d saved) ≡ true
unfolding get_discovered_peers
get_discovered_peers_shown d saved = elim (Bool-cases (text_eq d.visibility (codes "OFF"))) [
  | inl off ↦ rw off refl
  | inr on ↦ elim (Bool-cases (text_eq d.visibility (codes "KNOWN"))) [
    | inl known ↦
        rw (on, known)
          (finish d (may_show d) (keep_if is_near (marked d saved)) (standby_shown d)
            (all-keep_if_also (may_show d) is_near (marked d saved) (marked-shown d saved)))
    | inr every ↦
        rw (on, every)
          (finish d (may_show d) (marked d saved) (standby_shown d) (marked-shown d saved))
  ]
]

-- While the visibility is for known peers, every peer that is shown is trusted or has an address of
-- the local network.
pub get_discovered_peers_near :
    (d : Device) (saved : Option (List DiscoveredPeer))
    → text_eq d.visibility (codes "KNOWN") ≡ true
    → all is_near (get_discovered_peers d saved) ≡ true
unfolding get_discovered_peers
get_discovered_peers_near d saved known = elim (Bool-cases (text_eq d.visibility (codes "OFF"))) [
  | inl off ↦ rw off refl
  | inr on ↦
      rw (on, known)
        (finish d is_near (keep_if is_near (marked d saved)) standby_near
          (all-keep_if is_near (marked d saved)))
]

abbrev same : Bool → Bool → Bool
same true b = b
same false b = not b

-- A paired peer on standby; or a peer whose trust is what its identifiers give now.
abbrev pub has_own_trust : Device → DiscoveredPeer → Bool
has_own_trust d p =
    text_eq p.transport (codes "OMAID")
    || same p.is_trusted (is_known_pair d p.oma_id || d.is_peer_trusted p.id)

-- The peer is not trusted, or it was in the list before, or the beacon came from the address that an
-- active paired record of its identifier holds.
abbrev pub IsJustified : Device → Beacon → List DiscoveredPeer → DiscoveredPeer → Type 0
IsJustified d packet before p =
    (p.is_trusted ≡ false)
    ⊎ (((i : ℕ) × (get_elem? before i ≡ some p))
        ⊎ ((is_authenticated_paired d packet ≡ true) × (p.ip ≡ packet.ip)))
