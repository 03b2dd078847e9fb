-- ===== src/PinLimiter.antt =====
-- The limit on wrong PINs of src/main.rs. Times are nanoseconds of a clock that does not go back.
pub mod Blocking
use omarchy_omasend.Common.{
  ℕ, suc, ◌+◌, ◌-◌, ◌*◌, ◌^◌, ◌≤◌, ◌≡◌, Bool, true, false, ◌&&◌, List, [], ◌∷◌, Option, none, some,
  ltb, leb, if◌then◌else◌, min, length, keep_if,
}
use omarchy_omasend.Net.{IpAddr, ip_eq}

abbrev pub secs : ℕ → ℕ
secs n = n * 1_000_000_000

pub record PinAttemptState : Type 0 where
  pub failed_count : ℕ
  pub window_start : ℕ
  pub blocked_until : Option ℕ

abbrev pub Limiter : Type 0
Limiter = List (IpAddr × PinAttemptState)

unfoldable pub state_of : IpAddr → Limiter → Option PinAttemptState
state_of ip [] = none
state_of ip ((j, s) ∷ m) = if ip_eq j ip then some s else state_of ip m

pub put_state : IpAddr → PinAttemptState → Limiter → Limiter
put_state ip v [] = (ip, v) ∷ []
put_state ip v ((j, s) ∷ m) = if ip_eq j ip then (j, v) ∷ m else (j, s) ∷ put_state ip v m

pub remove_state : IpAddr → Limiter → Limiter
remove_state ip [] = []
remove_state ip ((j, s) ∷ m) = if ip_eq j ip then remove_state ip m else (j, s) ∷ remove_state ip m

unfoldable pub is_pin_rate_limited : IpAddr → ℕ → Limiter → Bool
is_pin_rate_limited ip now m = elim (state_of ip m) [
  | none ↦ false
  | some s ↦ elim s.blocked_until [ none ↦ false | some blocked ↦ ltb now blocked ]
]

-- What a failed attempt makes of the entry, which `or_insert` creates: the answer, and the entry.
pub fail_state : Option PinAttemptState → ℕ → Bool × PinAttemptState
fail_state entry now =
    let s : PinAttemptState = elim entry [
      | none ↦ record { failed_count = 0; window_start = now; blocked_until = none }
      | some s ↦ s
    ] in
    let fresh : Bool = elim s.blocked_until [
      | none ↦ ltb (secs 60) (now - s.window_start)
      | some b ↦ false
    ] in
    let count = min ((if fresh then 0 else s.failed_count) + 1) (2 ^ 32 - 1) in
    let start = if fresh then now else s.window_start in
    if leb 5 count
    then (
      false,
      record { failed_count = count; window_start = start; blocked_until = some (now + secs 60) },
    )
    else (
      true,
      record { failed_count = count; window_start = start; blocked_until = s.blocked_until },
    )

-- Old windows are dropped when the map has more than a thousand entries.
pub prune : ℕ → Limiter → Limiter
prune now m =
    if ltb 1000 (length m)
    then keep_if (λ (e : IpAddr × PinAttemptState). ltb (now - (e.1).window_start) (secs 300)) m
    else m

pub record_pin_attempt : IpAddr → Bool → ℕ → Limiter → Bool × Limiter
unfolding fail_state prune
record_pin_attempt ip success now m =
    let kept = prune now m in
    if success
    then (true, remove_state ip kept)
    else (let (answer, s) = fail_state (state_of ip kept) now in (answer, put_state ip s kept))
