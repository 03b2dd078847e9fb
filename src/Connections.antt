-- ===== src/Connections.antt =====
-- The connection limits of src/main.rs: a global counter and one count for each address, changed
-- under one lock. Each guard is dropped once.
pub mod Limits
mod Tests
use omarchy_omasend.Common.{
  ℕ, zero, suc, ◌+◌, ◌-◌, ◌≤◌, ◌≡◌, Bool, true, false, List, [], ◌∷◌, Option, none, some, leb, ◌^◌,
  ◌%◌, if◌then◌else◌,
}
use omarchy_omasend.Net.{IpAddr, ip_eq}

abbrev pub max_global_connections : ℕ
max_global_connections = 32

abbrev pub max_peer_connections : ℕ
max_peer_connections = 4

-- `HashMap<IpAddr, usize>`, one entry for each key.
abbrev pub PeerCounts : Type 0
PeerCounts = List (IpAddr × ℕ)

pub record Tracker : Type 0 where
  pub global_active : ℕ
  pub peers : PeerCounts

pub count_of : IpAddr → PeerCounts → Option ℕ
count_of ip [] = none
count_of ip ((j, n) ∷ m) = if ip_eq j ip then some n else count_of ip m

pub put_count : IpAddr → ℕ → PeerCounts → PeerCounts
put_count ip v [] = (ip, v) ∷ []
put_count ip v ((j, n) ∷ m) = if ip_eq j ip then (j, v) ∷ m else (j, n) ∷ put_count ip v m

pub remove_count : IpAddr → PeerCounts → PeerCounts
remove_count ip [] = []
remove_count ip ((j, n) ∷ m) = if ip_eq j ip then remove_count ip m else (j, n) ∷ remove_count ip m

-- `try_acquire_connection`: whether a guard for the address is given, and the tracker after. The
-- entry that `or_insert(0)` makes stays also where the peer limit refuses.
pub try_acquire_connection : IpAddr → Tracker → Bool × Tracker
try_acquire_connection ip t =
    if leb max_global_connections t.global_active
    then (false, t)
    else (let n : ℕ = elim (count_of ip t.peers) [ none ↦ 0 | some n ↦ n ] in
        if leb max_peer_connections n
        then (false, record t { peers = put_count ip n t.peers })
        else (
          true,
          record { global_active = t.global_active + 1; peers = put_count ip (n + 1) t.peers },
        ))

-- `ConnectionGuard::drop` in its two steps, between which other threads run: the atomic counter,
-- which wraps below zero, then the entry of the address, under the lock.
pub drop_global : Tracker → Tracker
drop_global t = record t { global_active = (t.global_active + (2 ^ 64 - 1)) % 2 ^ 64 }

pub drop_peer : IpAddr → Tracker → Tracker
drop_peer ip t = record t {
  peers = elim (count_of ip t.peers) [
    | none ↦ t.peers
    | some n ↦ if leb n 1 then remove_count ip t.peers else put_count ip (n - 1) t.peers
  ];
}

pub drop_guard : IpAddr → Tracker → Tracker
unfolding drop_global drop_peer
drop_guard ip t = drop_peer ip (drop_global t)

-- Nothing is counted yet.
abbrev pub idle_tracker : Tracker
idle_tracker = record { global_active = 0; peers = [] }

-- The tracker with the guards that are alive, and those whose drop is between its two steps.
pub record Server : Type 0 where
  pub tracker : Tracker
  pub held : List IpAddr
  pub dropping : List IpAddr

abbrev pub idle_server : Server
idle_server = record { tracker = idle_tracker; held = []; dropping = [] }

-- One step of some thread.
pub data Event : Type 0 where
  connects : IpAddr → Event
  releases : IpAddr → Event
  finishes : IpAddr → Event

-- How many guards of the list are for the address.
abbrev pub guards_of : IpAddr → List IpAddr → ℕ
guards_of ip [] = 0
guards_of ip (j ∷ js) = (if ip_eq j ip then 1 else 0) + guards_of ip js

abbrev pub take_out : IpAddr → List IpAddr → List IpAddr
take_out ip [] = []
take_out ip (j ∷ js) = if ip_eq j ip then js else j ∷ take_out ip js

-- A guard is released only while it is held, and its drop finishes only once.
pub step : Event → Server → Server
unfolding try_acquire_connection drop_global drop_peer
step (connects ip) s =
    let (granted, t) = try_acquire_connection ip s.tracker in
    record s { tracker = t; held = if granted then ip ∷ s.held else s.held }
step (releases ip) s =
    if leb 1 (guards_of ip s.held)
    then record {
      tracker = drop_global s.tracker;
      held = take_out ip s.held;
      dropping = ip ∷ s.dropping;
    }
    else s
step (finishes ip) s =
    if leb 1 (guards_of ip s.dropping)
    then record s { tracker = drop_peer ip s.tracker; dropping = take_out ip s.dropping }
    else s

pub run : List Event → Server → Server
unfolding step
run [] s = s
run (e ∷ es) s = run es (step e s)
