-- ===== src/Connections/Limits.antt =====
-- The connection limits of src/main.rs hold in every interleaving, and no count leaks.
use omarchy_omasend.Common.{
  ℕ, ◌+◌, ◌-◌, ◌≤◌, ◌≡◌, refl, ap, ◌∙◌, List, [], ◌∷◌, none, some, arith, if◌then◌else◌, length,
  All,
}
use mathlib.Core.Path.{ap₂}
use omarchy_omasend.Net.{IpAddr, ip_eq, ip_eq_refl, ip_cases}
use omarchy_omasend.Connections.{
  PeerCounts, Server, Event, connects, releases, finishes, count_of, put_count, remove_count,
  guards_of, take_out, step, run, idle_server,
}

-- The count of an address, zero for a missing entry.
abbrev pub count_or : IpAddr → PeerCounts → ℕ
count_or ip m = elim (count_of ip m) [ none ↦ 0 | some n ↦ n ]

count_or-put :
    (ip j : IpAddr) (v : ℕ) (m : PeerCounts)
    → count_or j (put_count ip v m) ≡ (if ip_eq ip j then v else count_or j m)
unfolding count_of put_count
count_or-put ip j v [] = ground arith
count_or-put ip j v ((k, n) ∷ m) =
    ground (arith, ip_cases k ip, ip_cases k j, ip_cases ip j, count_or-put ip j v m)

count_or-remove :
    (ip j : IpAddr) (m : PeerCounts)
    → count_or j (remove_count ip m) ≡ (if ip_eq ip j then 0 else count_or j m)
unfolding count_of remove_count
count_or-remove ip j [] = ground arith
count_or-remove ip j ((k, n) ∷ m) =
    ground (arith, ip_cases k ip, ip_cases k j, ip_cases ip j, count_or-remove ip j m)

-- Every entry counts at least one connection.
abbrev pub AllPositive : PeerCounts → Type 0
AllPositive = All (λ (e : IpAddr × ℕ). 1 ≤ e.1)

put-AllPositive :
    (ip : IpAddr) (v : ℕ) (m : PeerCounts) → 1 ≤ v → AllPositive m → AllPositive (put_count ip v m)
unfolding put_count
put-AllPositive ip v [] h p = (h, tt)
put-AllPositive ip v ((k, n) ∷ m) h p = ground (arith, put-AllPositive ip v m h p.1)

remove-AllPositive :
    (ip : IpAddr) (m : PeerCounts) → AllPositive m → AllPositive (remove_count ip m)
unfolding remove_count
remove-AllPositive ip [] p = tt
remove-AllPositive ip ((k, n) ∷ m) p = ground (arith, remove-AllPositive ip m p.1)

guards_of-take_out :
    (ip j : IpAddr) (xs : List IpAddr)
    → 1 ≤ guards_of ip xs
    → guards_of j (take_out ip xs) + (if ip_eq ip j then 1 else 0) ≡ guards_of j xs
guards_of-take_out ip j [] h = absurd (omega arith)
guards_of-take_out ip j (k ∷ xs) h =
    ground (arith, ip_cases k ip, ip_cases k j, ip_cases ip j, guards_of-take_out ip j xs)

length-take_out :
    (ip : IpAddr) (xs : List IpAddr) → 1 ≤ guards_of ip xs → length (take_out ip xs) + 1 ≡ length xs
length-take_out ip [] h = absurd (omega arith)
length-take_out ip (k ∷ xs) h = ground (arith, length-take_out ip xs)

-- The counters agree with the guards: the global one with those that are held, each address's with
-- those that are held or still dropping.
pub record IsCounted (s : Server) : Type 0 where
  pub global_exact : s.tracker.global_active ≡ length s.held
  pub global_limit : length s.held ≤ 32
  pub peer_exact :
      (j : IpAddr) → count_or j s.tracker.peers ≡ guards_of j s.held + guards_of j s.dropping
  pub peer_limit : (j : IpAddr) → guards_of j s.held + guards_of j s.dropping ≤ 4
  pub positive : AllPositive s.tracker.peers

connects-IsCounted : (ip : IpAddr) (s : Server) → IsCounted s → IsCounted (step (connects ip) s)
unfolding step
connects-IsCounted ip s v = record {
  global_exact = ground (arith, v.global_exact);
  global_limit = ground (arith, v.global_exact, v.global_limit);
  peer_exact = λ j. ground (
    arith,
    ip_cases ip j,
    v.peer_exact j,
    v.peer_exact ip,
    count_or-put ip j (count_or ip s.tracker.peers) s.tracker.peers,
    count_or-put ip j (count_or ip s.tracker.peers + 1) s.tracker.peers,
  );
  peer_limit = λ j. ground (arith, ip_cases ip j, v.peer_exact ip, v.peer_limit j);
  positive = ground (
    arith,
    v.positive,
    put-AllPositive ip (count_or ip s.tracker.peers) s.tracker.peers,
    put-AllPositive ip (count_or ip s.tracker.peers + 1) s.tracker.peers,
  );
}

releases-IsCounted : (ip : IpAddr) (s : Server) → IsCounted s → IsCounted (step (releases ip) s)
unfolding step
releases-IsCounted ip s v = record {
  global_exact = ground (arith, v.global_exact, v.global_limit, length-take_out ip s.held);
  global_limit = ground (arith, v.global_limit, length-take_out ip s.held);
  peer_exact = λ j. ground (arith, v.peer_exact j, guards_of-take_out ip j s.held);
  peer_limit = λ j. ground (arith, v.peer_limit j, guards_of-take_out ip j s.held);
  positive = ground (arith, v.positive);
}

finishes-IsCounted : (ip : IpAddr) (s : Server) → IsCounted s → IsCounted (step (finishes ip) s)
unfolding step
finishes-IsCounted ip s v = record {
  global_exact = ground (arith, v.global_exact);
  global_limit = ground (arith, v.global_limit);
  peer_exact = λ j. ground (
    arith,
    ip_cases ip j,
    v.peer_exact j,
    v.peer_exact ip,
    guards_of-take_out ip j s.dropping,
    count_or-put ip j (count_or ip s.tracker.peers - 1) s.tracker.peers,
    count_or-remove ip j s.tracker.peers,
  );
  peer_limit = λ j. ground (arith, v.peer_limit j, guards_of-take_out ip j s.dropping);
  positive = ground (
    arith,
    v.positive,
    put-AllPositive ip (count_or ip s.tracker.peers - 1) s.tracker.peers,
    remove-AllPositive ip s.tracker.peers,
  );
}

step-IsCounted : (e : Event) (s : Server) → IsCounted s → IsCounted (step e s)
step-IsCounted (connects ip) s v = connects-IsCounted ip s v
step-IsCounted (releases ip) s v = releases-IsCounted ip s v
step-IsCounted (finishes ip) s v = finishes-IsCounted ip s v

run-IsCounted : (es : List Event) (s : Server) → IsCounted s → IsCounted (run es s)
unfolding run
run-IsCounted [] s v = v
run-IsCounted (e ∷ es) s v = run-IsCounted es (step e s) (step-IsCounted e s v)

idle-IsCounted : IsCounted idle_server
unfolding count_of
idle-IsCounted = record {
  global_exact = refl;
  global_limit = omega arith;
  peer_exact = λ j. refl;
  peer_limit = λ j. omega arith;
  positive = tt;
}

-- In every interleaving of connections and of the two steps of dropping a guard, at most 32
-- connections are held at a time and at most 4 of one address, and the global counter is the number
-- of connections that are held: it never wraps.
pub run_limits :
    (es : List Event) (ip : IpAddr)
    → let s = run es idle_server in
      (length s.held ≤ 32) × (guards_of ip s.held ≤ 4) × (s.tracker.global_active ≡ length s.held)
run_limits es ip =
    let v = run-IsCounted es idle_server idle-IsCounted in
    (v.global_limit, omega (arith, v.peer_limit ip), v.global_exact)

no_entries : (m : PeerCounts) → AllPositive m → ((j : IpAddr) → count_or j m ≡ 0) → m ≡ []
unfolding count_of
no_entries [] p zeros = refl
no_entries ((k, n) ∷ m) p zeros = absurd (ground (arith, zeros k, ip_eq_refl k, p.0))

-- Nothing leaks: once every guard is dropped, the tracker is as it was at the start, whatever
-- connections were granted and refused before.
pub run_quiet :
    (es : List Event)
    → (run es idle_server).held ≡ []
    → (run es idle_server).dropping ≡ []
    → ((run es idle_server).tracker.global_active ≡ 0) × ((run es idle_server).tracker.peers ≡ [])
run_quiet es none_held none_dropping =
    let s = run es idle_server in
    let v = run-IsCounted es idle_server idle-IsCounted in
    (
      v.global_exact ∙ ap length none_held,
      no_entries s.tracker.peers v.positive (λ j.
          v.peer_exact j ∙ ap₂ (λ a b. guards_of j a + guards_of j b) none_held none_dropping),
    )
