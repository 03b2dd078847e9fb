-- ===== src/Discovery.antt =====
-- The list of discovered peers of src/main.rs: what beacons make of it, what is shown, what is pruned.
-- discovered_peers.json is the list that serde_json reads back from it, `none` where that fails.
pub mod Trust
mod Tests
use omarchy_omasend.Common.{
  ℕ, ◌+◌, ◌-◌, ◌*◌, Bool, true, false, not, ◌&&◌, ◌||◌, List, [], ◌∷◌, ◌++◌, map, Option, none,
  some, ltb, leb, ◌==◌, if◌then◌else◌, any, all, keep_if, length,
}
use omarchy_omasend.Common.Text.{Text, codes, text_eq, is_ascii_digit}
use omarchy_omasend.OmaId.{normalize_oma_id}
use omarchy_omasend.Pairing.Model.{PairedPeer, is_active, is_id}
use omarchy_omasend.Http.{strip_prefix, split}

pub record DiscoveredPeer : Type 0 where
  pub id : Text
  pub oma_id : Text
  pub name : Text
  pub ip : Text
  pub port : ℕ
  pub transport : Text
  pub fingerprint : Text
  pub is_trusted : Bool
  pub last_seen_secs : ℕ

-- The fields of `P2pBeaconPacket` that are read here.
pub record Beacon : Type 0 where
  pub id : Text
  pub oma_id : Text
  pub name : Text
  pub ip : Text
  pub port : ℕ
  pub mode : Text
  pub fp : Text

-- What the functions read of the device: its identifiers, its visibility, the paired peers, the peers
-- that are trusted by their device identifier, and the clock.
pub record Device : Type 0 where
  pub my_id : Text
  pub my_oma_id : Text
  pub visibility : Text
  pub paired : List PairedPeer
  pub is_peer_trusted : Text → Bool
  pub now : ℕ

abbrev pub starts_with : Text → Text → Bool
starts_with pre s = elim (strip_prefix pre s) [ none ↦ false | some rest ↦ true ]

-- The number that decimal digits spell, the first ones given.
unfoldable pub digits_value : ℕ → Text → Option ℕ
digits_value n [] = some n
digits_value n (c ∷ s) = if is_ascii_digit c then digits_value (n * 10 + (c - b'0')) s else none

-- `parse::<u8>()`: decimal digits, after a plus sign or not, below 256.
pub parse_u8 : Text → Option ℕ
parse_u8 s =
    let digits : Text = elim (strip_prefix (codes "+") s) [ none ↦ s | some rest ↦ rest ] in
    if text_eq digits []
    then none
    else elim (digits_value 0 digits) [ none ↦ none | some n ↦ if ltb n 256 then some n else none ]

-- The second part between dots is a number in the range.
pub second_within : ℕ → ℕ → Text → Bool
second_within low high ip = elim (split b'.' ip) [
  | [] ↦ false
  | first ∷ rest ↦ elim rest [
    | [] ↦ false
    | second ∷ more ↦ elim (parse_u8 second) [
      | none ↦ false
      | some num ↦ leb low num && leb num high
    ]
  ]
]

pub is_local_subnet_or_private_ip : Text → Bool
is_local_subnet_or_private_ip ip =
    (starts_with (codes "192.168.") ip
      || starts_with (codes "10.") ip
      || text_eq ip (codes "127.0.0.1")
      || text_eq ip (codes "::1")
      || starts_with (codes "169.254.") ip)
    || (starts_with (codes "100.") ip && second_within 64 127 ip)
    || (starts_with (codes "172.") ip && second_within 16 31 ip)

-- `is_peer_paired` on the paired peers that were loaded.
pub is_known_pair : Device → Text → Bool
is_known_pair d oma_id =
    length (normalize_oma_id oma_id) == 16 && any (is_id (normalize_oma_id oma_id)) d.paired

pub is_self : Device → Text → Text → Bool
is_self d id oma_id =
    text_eq id d.my_id
    || (not (text_eq oma_id []) && text_eq (normalize_oma_id oma_id) (normalize_oma_id d.my_oma_id))

-- The filter of `get_discovered_peers` on what the file holds.
pub is_listed : Device → DiscoveredPeer → Bool
is_listed d p = leb (d.now - p.last_seen_secs) 15 && not (is_self d p.id p.oma_id)

pub with_trust : Device → DiscoveredPeer → DiscoveredPeer
with_trust d p = record p {
  is_trusted = is_known_pair d p.oma_id || d.is_peer_trusted p.id;
  transport = codes "LAN";
}

pub standby_peer : PairedPeer → DiscoveredPeer
standby_peer p = record {
  id = codes "paired_" ++ normalize_oma_id p.oma_id;
  oma_id = p.oma_id;
  name = p.name;
  ip = elim p.ip [ none ↦ [] | some ip ↦ ip ];
  port = 53317;
  transport = codes "OMAID";
  fingerprint = p.oma_id;
  is_trusted = true;
  last_seen_secs = 0;
}

-- The loop that adds the paired peers that are not in the list.
pub add_standby : Text → List PairedPeer → List DiscoveredPeer → List DiscoveredPeer
add_standby my_norm [] peers = peers
add_standby my_norm (p ∷ paired) peers =
    let norm = normalize_oma_id p.oma_id in
    let exists =
      any
        (λ (dp : DiscoveredPeer).
          (not (text_eq dp.oma_id []) && text_eq (normalize_oma_id dp.oma_id) norm)
          || text_eq dp.id p.oma_id)
        peers in
    if text_eq norm [] || text_eq norm my_norm || exists
    then add_standby my_norm paired peers
    else add_standby my_norm paired (peers ++ standby_peer p ∷ [])

-- `a.cmp(&b)` is less, on texts.
pub text_less : Text → Text → Bool
text_less [] [] = false
text_less [] (d ∷ t) = true
text_less (c ∷ s) [] = false
text_less (c ∷ s) (d ∷ t) = ltb c d || (c == d && text_less s t)

-- The order of the list: trusted first, then those that are online, then by name.
pub comes_first : DiscoveredPeer → DiscoveredPeer → Bool
comes_first a b =
    let on_a = ltb 0 a.last_seen_secs in
    let on_b = ltb 0 b.last_seen_secs in
    if a.is_trusted
    then (if b.is_trusted then by_online on_a on_b a b else true)
    else (if b.is_trusted then false else by_online on_a on_b a b)
  where
    by_online : Bool → Bool → DiscoveredPeer → DiscoveredPeer → Bool
    by_online true true a b = text_less a.name b.name
    by_online true false a b = true
    by_online false true a b = false
    by_online false false a b = text_less a.name b.name

-- `sort_by`, which is stable: a peer goes before the first one that does not come before it.
pub insert : DiscoveredPeer → List DiscoveredPeer → List DiscoveredPeer
insert x [] = x ∷ []
insert x (y ∷ ys) = if comes_first y x then y ∷ insert x ys else x ∷ y ∷ ys

pub sort_peers : List DiscoveredPeer → List DiscoveredPeer
sort_peers [] = []
sort_peers (x ∷ xs) = insert x (sort_peers xs)

pub get_discovered_peers : Device → Option (List DiscoveredPeer) → List DiscoveredPeer
get_discovered_peers d saved =
    if text_eq d.visibility (codes "OFF")
    then []
    else (let loaded : List DiscoveredPeer = elim saved [
      | none ↦ []
      | some peers ↦ keep_if (is_listed d) peers
    ] in
        let marked = map (with_trust d) loaded in
        let shown =
          if text_eq d.visibility (codes "KNOWN")
          then keep_if (λ (p : DiscoveredPeer). p.is_trusted || is_local_subnet_or_private_ip p.ip)
              marked
          else marked in
        sort_peers (add_standby (normalize_oma_id d.my_oma_id) d.paired shown))

-- `is_authenticated_paired`: an active record of the identifier with the very address of the beacon.
pub is_authenticated_paired : Device → Beacon → Bool
is_authenticated_paired d packet =
    (not (text_eq packet.oma_id []) && is_known_pair d packet.oma_id)
    && any
        (λ p.
          is_active p
          && is_id (normalize_oma_id packet.oma_id) p
          && elim p.ip [ none ↦ false | some ip ↦ text_eq ip packet.ip ])
        d.paired

pub heard : Device → Beacon → Text → DiscoveredPeer
heard d packet id = record {
  id = id;
  oma_id = packet.oma_id;
  name = packet.name;
  ip = packet.ip;
  port = packet.port;
  transport = codes "LAN";
  fingerprint = packet.fp;
  is_trusted = is_authenticated_paired d packet;
  last_seen_secs = d.now;
}

abbrev pub is_of : Beacon → DiscoveredPeer → Bool
is_of packet p =
    (not (text_eq packet.oma_id []) && text_eq p.oma_id packet.oma_id) || text_eq p.id packet.id

-- The first peer of the beacon is updated, or a new one is added.
pub upsert : Device → Beacon → List DiscoveredPeer → List DiscoveredPeer
upsert d packet [] = heard d packet packet.id ∷ []
upsert d packet (p ∷ ps) =
    if is_of packet p then heard d packet p.id ∷ ps else p ∷ upsert d packet ps

-- The beacon of a peer that stops; it names what is kept.
abbrev pub outlives : Beacon → DiscoveredPeer → Bool
outlives packet p =
    not (text_eq p.id packet.id)
    && not (text_eq p.ip packet.ip)
    && (text_eq p.oma_id [] || not (text_eq p.oma_id packet.oma_id))

-- `none` where the file is left as it is.
pub update_discovered_peer :
    Device → Beacon → Option (List DiscoveredPeer) → Option (List DiscoveredPeer)
update_discovered_peer d packet saved =
    let peers = get_discovered_peers d saved in
    let is_paired = not (text_eq packet.oma_id []) && is_known_pair d packet.oma_id in
    if is_self d packet.id packet.oma_id
    then none
    else if text_eq packet.mode (codes "OFF") || text_eq packet.mode (codes "STOP")
    then (if length (keep_if (outlives packet) peers) == length peers
        then none
        else some (keep_if (outlives packet) peers))
    else if text_eq d.visibility (codes "OFF")
    then none
    else if text_eq d.visibility (codes "KNOWN")
        && not is_paired
        && not (is_local_subnet_or_private_ip packet.ip)
        && not (text_eq packet.mode (codes "EVERYONE"))
    then none
    else some (upsert d packet peers)

abbrev pub is_fresh : ℕ → DiscoveredPeer → Bool
is_fresh now p = leb (now - p.last_seen_secs) 15

-- `prune_expired_discovered_peers`: how many peers were dropped, and the file after.
pub prune_expired_discovered_peers :
    ℕ → Option (List DiscoveredPeer) → ℕ × Option (List DiscoveredPeer)
prune_expired_discovered_peers now none = (0, none)
prune_expired_discovered_peers now (some peers) =
    let remaining = keep_if (is_fresh now) peers in
    if length remaining == length peers
    then (0, some peers)
    else (length peers - length remaining, some remaining)
