-- ===== src/Staging/Uploads.antt =====
-- `EncryptedUploadGuard` of src/main.rs: a counter taken by compare-and-exchange in a loop.
use omarchy_omasend.Common.{
  ℕ, ◌+◌, ◌-◌, ◌%◌, ◌^◌, ◌≤◌, ◌≡◌, Bool, not, ◌&&◌, List, [], ◌∷◌, none, some, arith, leb, ◌==◌,
  if◌then◌else◌, min, get_elem?, set, remove_at,
}

abbrev pub max_concurrent_encrypted_uploads : ℕ
max_concurrent_encrypted_uploads = 2

-- The counter, the guards that are alive, and for each thread in the loop of `try_acquire` the
-- value that it last saw.
pub record Uploads : Type 0 where
  pub active : ℕ
  pub guards : ℕ
  pub looping : List ℕ

-- A thread enters the loop; the thread at a position makes one round, in which the weak exchange may
-- fail although the values agree; a guard is dropped.
pub data Event : Type 0 where
  enters : Event
  rounds : ℕ → Bool → Event
  drops : Event

-- One round of the thread that saw `curr`: it gives up, takes the guard, or sees the actual value.
pub round : ℕ → ℕ → Bool → Uploads → Uploads
round i curr spurious u =
    if leb max_concurrent_encrypted_uploads curr
    then record u { looping = remove_at u.looping i }
    else if curr == u.active && not spurious
    then record {
      active = min (curr + 1) (2 ^ 32 - 1);
      guards = u.guards + 1;
      looping = remove_at u.looping i;
    }
    else record u { looping = set u.looping i u.active }

pub step : Event → Uploads → Uploads
unfolding round
step enters u = record u { looping = u.active ∷ u.looping }
step (rounds i spurious) u = elim (get_elem? u.looping i) [
  | none ↦ u
  | some curr ↦ round i curr spurious u
]
step drops u =
    if leb 1 u.guards
    then record u { active = (u.active + (2 ^ 32 - 1)) % 2 ^ 32; guards = u.guards - 1 }
    else u

pub run : List Event → Uploads → Uploads
unfolding step
run [] u = u
run (e ∷ es) u = run es (step e u)

abbrev pub no_uploads : Uploads
no_uploads = record { active = 0; guards = 0; looping = [] }

pub record IsExact (u : Uploads) : Type 0 where
  pub exact : u.active ≡ u.guards
  pub within : u.guards ≤ 2

step-IsExact : (e : Event) (u : Uploads) → IsExact u → IsExact (step e u)
unfolding step
step-IsExact enters u v = ground arith
step-IsExact (rounds i spurious) u v = ground arith
step-IsExact drops u v = ground arith

run-IsExact : (es : List Event) (u : Uploads) → IsExact u → IsExact (run es u)
unfolding run
run-IsExact [] u v = v
run-IsExact (e ∷ es) u v = run-IsExact es (step e u) (step-IsExact e u v)

-- However the threads interleave and whichever exchanges fail, at most two guards are alive, and the
-- counter is their number.
pub run_uploads :
    (es : List Event)
    → ((run es no_uploads).guards ≤ max_concurrent_encrypted_uploads)
      × ((run es no_uploads).active ≡ (run es no_uploads).guards)
run_uploads es = let v = run-IsExact es no_uploads (omega arith) in (v.within, v.exact)
