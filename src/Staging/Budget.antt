-- ===== src/Staging/Budget.antt =====
-- `StagingReservationGuard` of src/main.rs: reserving and releasing staged bytes. Reserving runs
-- under a lock; releasing is one atomic subtraction, which wraps below zero.
use omarchy_omasend.Common.{
  ℕ, zero, suc, ◌+◌, ◌-◌, ◌*◌, ◌%◌, ◌^◌, ◌≤◌, ◌<◌, ◌≡◌, refl, List, [], ◌∷◌, Option, none, some,
  arith, ltb, if◌then◌else◌, min, inl, inr, Option-cases, Bool-cases, ◌⊎◌, ◌↔◌, get_elem?, set,
  remove_at,
}

abbrev pub max_aggregate_staging_bytes : ℕ
max_aggregate_staging_bytes = 200 * 1024 * 1024

abbrev pub disk_reserve_bytes : ℕ
disk_reserve_bytes = 25 * 1024 * 1024

pub data ReserveError : Type 0 where
  capacity_exceeded insufficient_space : ReserveError

-- `a.saturating_add(b)` on u64.
abbrev pub saturating_add : ℕ → ℕ → ℕ
saturating_add a b = min (a + b) (2 ^ 64 - 1)

-- The reservation that a call gives, with the counter after it. `avail` is what
-- `get_available_disk_space` returns.
unfoldable pub try_reserve : ℕ → Option ℕ → ℕ → (ReserveError ⊎ ℕ) × ℕ
try_reserve needed avail current =
    if ltb max_aggregate_staging_bytes (saturating_add current needed)
    then (inl capacity_exceeded, current)
    else elim avail [
      | none ↦ (inr needed, (current + needed) % 2 ^ 64)
      | some free ↦
          if ltb free (saturating_add (saturating_add current needed) disk_reserve_bytes)
          then (inl insufficient_space, current)
          else (inr needed, (current + needed) % 2 ^ 64)
    ]

-- `release` of a guard with `reserved` bytes: the guard's bytes after, and the counter.
unfoldable pub release : ℕ → ℕ → ℕ × ℕ
release reserved current =
    if ltb 0 reserved then (0, (current + (2 ^ 64 - reserved)) % 2 ^ 64) else (reserved, current)

-- The counter, and the bytes of each guard that is alive. A guard that was released early, when its
-- file was kept, stays with no bytes until it is dropped.
pub record Ledger : Type 0 where
  pub staged : ℕ
  pub guards : List ℕ

pub data Event : Type 0 where
  reserves : ℕ → Option ℕ → Event
  releases_early : ℕ → Event
  drops : ℕ → Event

abbrev pub total : List ℕ → ℕ
total [] = 0
total (g ∷ gs) = g + total gs

pub step : Event → Ledger → Ledger
unfolding try_reserve release
step (reserves needed avail) l =
    let (outcome, staged') = try_reserve needed avail l.staged in
    record {
      staged = staged';
      guards = elim outcome [ inl e ↦ l.guards | inr bytes ↦ bytes ∷ l.guards ];
    }
step (releases_early i) l = elim (get_elem? l.guards i) [
  | none ↦ l
  | some g ↦ record {
    staged = (release g l.staged).1;
    guards = set l.guards i (release g l.staged).0;
  }
]
step (drops i) l = elim (get_elem? l.guards i) [
  | none ↦ l
  | some g ↦ record { staged = (release g l.staged).1; guards = remove_at l.guards i }
]

pub run : List Event → Ledger → Ledger
unfolding step
run [] l = l
run (e ∷ es) l = run es (step e l)

total-set :
    (gs : List ℕ) (i v g : ℕ) → get_elem? gs i ≡ some g → total (set gs i v) + g ≡ total gs + v
total-set [] i v g h = absurd (cc)
total-set (x ∷ gs) zero v g h = ground arith
total-set (x ∷ gs) (suc i) v g h = omega (arith, total-set gs i v g h)

total-remove_at :
    (gs : List ℕ) (i g : ℕ) → get_elem? gs i ≡ some g → total (remove_at gs i) + g ≡ total gs
total-remove_at [] i g h = absurd (cc)
total-remove_at (x ∷ gs) zero g h = ground arith
total-remove_at (x ∷ gs) (suc i) g h = omega (arith, total-remove_at gs i g h)

-- The counter is the sum of the living guards, and within the budget.
pub record IsBalanced (l : Ledger) : Type 0 where
  pub exact : l.staged ≡ total l.guards
  pub within : l.staged ≤ 209715200

step-IsBalanced : (e : Event) (l : Ledger) → IsBalanced l → IsBalanced (step e l)
unfolding step
step-IsBalanced (reserves needed avail) l v = ground arith
step-IsBalanced (releases_early i) l v = elim (Option-cases (get_elem? l.guards i)) [
  | inl missing ↦ ground (arith, missing)
  | inr (g, there) ↦ ground (arith, there, total-set l.guards i (release g l.staged).0 g there)
]
step-IsBalanced (drops i) l v = elim (Option-cases (get_elem? l.guards i)) [
  | inl missing ↦ ground (arith, missing)
  | inr (g, there) ↦ ground (arith, there, total-remove_at l.guards i g there)
]

run-IsBalanced : (es : List Event) (l : Ledger) → IsBalanced l → IsBalanced (run es l)
unfolding run
run-IsBalanced [] l v = v
run-IsBalanced (e ∷ es) l v = run-IsBalanced es (step e l) (step-IsBalanced e l v)

abbrev pub empty_ledger : Ledger
empty_ledger = record { staged = 0; guards = [] }

-- In every history of reservations, early releases and drops, the counter is the sum of the bytes
-- that the living guards reserve, and never more than 200 MiB: it does not wrap, and a guard that
-- was released early gives nothing back a second time.
pub run_budget :
    (es : List Event)
    → ((run es empty_ledger).staged ≡ total (run es empty_ledger).guards)
      × ((run es empty_ledger).staged ≤ max_aggregate_staging_bytes)
run_budget es =
    let v = run-IsBalanced es empty_ledger (omega arith) in (v.exact, omega (arith, v.within))

-- Enough space on the disk, when it is known.
abbrev pub HasSpace : Option ℕ → ℕ → Type 0
HasSpace none bytes = Unit
HasSpace (some free) bytes = bytes ≤ free

-- A reservation is given exactly when it fits the budget and leaves 25 MiB of the free space, and
-- then for the bytes asked for.
pub try_reserve_iff :
    (needed current : ℕ) (avail : Option ℕ)
    → ((try_reserve needed avail current).0 ≡ inr needed) ↔ (
        (current + needed ≤ max_aggregate_staging_bytes)
        × HasSpace avail (current + needed + disk_reserve_bytes))
unfolding try_reserve
try_reserve_iff needed current none = (λ h. (ground arith, tt), λ h. ground arith)
try_reserve_iff needed current (some free) =
    (λ h. (ground arith, ground arith), λ h. ground (arith, h.0, h.1))

-- A reservation is refused, and the counter stays; or it is given for the bytes asked for, and the
-- counter is higher by them, within the budget.
pub try_reserve_cases :
    (needed current : ℕ) (avail : Option ℕ)
    → ((e : ReserveError) × (try_reserve needed avail current ≡ (inl e, current)))
      ⊎ ((try_reserve needed avail current ≡ (inr needed, current + needed))
          × (current + needed ≤ max_aggregate_staging_bytes))
unfolding try_reserve
try_reserve_cases needed current none =
    elim (Bool-cases (ltb max_aggregate_staging_bytes (saturating_add current needed))) [
      | inl t ↦ inl (capacity_exceeded, rw t refl)
      | inr t ↦ inr (ground (arith, t), ground (arith, t))
    ]
try_reserve_cases needed current (some free) =
    elim (Bool-cases (ltb max_aggregate_staging_bytes (saturating_add current needed))) [
      | inl t ↦ inl (capacity_exceeded, rw t refl)
      | inr t ↦
          elim (Bool-cases
            (ltb free (saturating_add (saturating_add current needed) disk_reserve_bytes))) [
              | inl t2 ↦ inl (insufficient_space, rw (t, t2) refl)
              | inr t2 ↦ inr (ground (arith, t, t2), ground (arith, t))
            ]
    ]

-- Releasing a reservation gives its bytes back.
pub release-back :
    (bytes current : ℕ)
    → current + bytes ≤ max_aggregate_staging_bytes
    → (release bytes (current + bytes)).1 ≡ current
unfolding release
release-back bytes current h = ground arith

-- The same for any counter of 64 bits.
pub release-wraps :
    (bytes current : ℕ)
    → bytes < 2 ^ 64
    → current < 2 ^ 64
    → (release bytes (current + bytes)).1 ≡ current
unfolding release
release-wraps bytes current h k = ground arith
