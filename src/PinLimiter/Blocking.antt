-- ===== src/PinLimiter/Blocking.antt =====
-- Which addresses the PIN limit of src/main.rs blocks, and for how long.
use omarchy_omasend.Common.{
  suc, ℕ, ◌+◌, ◌≤◌, ◌<◌, ◌≡◌, refl, ap, ◌∙◌, Bool, true, false, List, [], ◌∷◌, ◌++◌, Option, none,
  some, arith, ltb, if◌then◌else◌, length,
}
use omarchy_omasend.Net.{IpAddr, ip_eq, ip_eq_refl, ip_cases}
use omarchy_omasend.PinLimiter.{
  secs, PinAttemptState, Limiter, state_of, put_state, remove_state, is_pin_rate_limited,
  fail_state, record_pin_attempt,
}

state_of-put :
    (ip j : IpAddr) (v : PinAttemptState) (m : Limiter)
    → state_of j (put_state ip v m) ≡ (if ip_eq ip j then some v else state_of j m)
unfolding state_of put_state
state_of-put ip j v [] = refl
state_of-put ip j v ((k, s) ∷ m) =
    ground (arith, ip_cases k ip, ip_cases k j, ip_cases ip j, state_of-put ip j v m)

state_of-remove :
    (ip j : IpAddr) (m : Limiter)
    → state_of j (remove_state ip m) ≡ (if ip_eq ip j then none else state_of j m)
unfolding state_of remove_state
state_of-remove ip j [] = ground arith
state_of-remove ip j ((k, s) ∷ m) =
    ground (arith, ip_cases k ip, ip_cases k j, ip_cases ip j, state_of-remove ip j m)

length-put :
    (ip : IpAddr) (v : PinAttemptState) (m : Limiter) → length (put_state ip v m) ≤ length m + 1
unfolding put_state
length-put ip v [] = omega arith
length-put ip v ((k, s) ∷ m) = ground (arith, length-put ip v m)

-- What one attempt leaves for any address, while the map is small enough not to be pruned: a success
-- forgets the address, a failure counts against it, and no other address is touched.
pub state_of-record :
    (ip j : IpAddr) (success : Bool) (now : ℕ) (m : Limiter)
    → length m ≤ 1000
    → state_of j (record_pin_attempt ip success now m).1 ≡ (
        if ip_eq ip j
        then (if success then none else some (fail_state (state_of ip m) now).1)
        else state_of j m)
unfolding record_pin_attempt
state_of-record ip j true now m h = ground (arith, state_of-remove ip j m)
state_of-record ip j false now m h =
    ground (arith, state_of-put ip j (fail_state (state_of ip m) now).1 m)

-- The map after failures of one address at the given times.
pub record_failures : IpAddr → List ℕ → Limiter → Limiter
record_failures ip [] m = m
record_failures ip (t ∷ ts) m = record_failures ip ts (record_pin_attempt ip false t m).1

length-record :
    (ip : IpAddr) (now : ℕ) (m : Limiter)
    → length m ≤ 1000
    → length (record_pin_attempt ip false now m).1 ≤ length m + 1
unfolding record_pin_attempt
length-record ip now m h = ground (arith, length-put ip (fail_state (state_of ip m) now).1 m)

-- Failures in one window, without the map.
pub fail_states : Option PinAttemptState → List ℕ → Option PinAttemptState
fail_states s [] = s
fail_states s (t ∷ ts) = fail_states (some (fail_state s t).1) ts

state_of-record_failures :
    (ip : IpAddr) (ts : List ℕ) (m : Limiter)
    → length m + length ts ≤ 1000
    → state_of ip (record_failures ip ts m) ≡ fail_states (state_of ip m) ts
unfolding record_failures fail_states
state_of-record_failures ip [] m h = refl
state_of-record_failures ip (t ∷ ts) m h =
    state_of-record_failures ip ts (record_pin_attempt ip false t m).1
      (omega (arith, length-record ip t m (omega arith)))
    ∙ ap (λ s. fail_states s ts)
        (ground (arith, state_of-record ip ip false t m (omega arith), ip_eq_refl ip))

-- Five failures within a minute of the first, from an address that was not known, give an entry that
-- blocks for a minute after the fifth.
five_fail_states :
    (a b c d e : ℕ)
    → a ≤ b
    → b ≤ c
    → c ≤ d
    → d ≤ e
    → e ≤ a + 60_000_000_000
    → fail_states none (a ∷ b ∷ c ∷ d ∷ e ∷ [])
      ≡ some
          (record { failed_count = 5; window_start = a; blocked_until = some (e + 60_000_000_000) })
unfolding fail_states fail_state
five_fail_states a b c d e p q r s t = ground arith

-- Five failures of an unknown address within a minute block it: at every moment before a minute
-- after the fifth it is limited, if the map stays small enough not to be pruned.
pub five_failures_block :
    (ip : IpAddr) (a b c d e now : ℕ) (m : Limiter)
    → length m + 5 ≤ 1000
    → state_of ip m ≡ none
    → a ≤ b
    → b ≤ c
    → c ≤ d
    → d ≤ e
    → e ≤ a + secs 60
    → now < e + secs 60
    → is_pin_rate_limited ip now (record_failures ip (a ∷ b ∷ c ∷ d ∷ e ∷ []) m) ≡ true
unfolding is_pin_rate_limited
five_failures_block ip a b c d e now m small unknown p q r s t u =
    let found =
      state_of-record_failures ip (a ∷ b ∷ c ∷ d ∷ e ∷ []) m small
      ∙ (ap (λ x. fail_states x (a ∷ b ∷ c ∷ d ∷ e ∷ [])) unknown
          ∙ five_fail_states a b c d e p q r s (omega arith)) in
    ground (arith, found)

-- The limit of an entry.
unfoldable pub entry_limited : Option PinAttemptState → ℕ → Bool
entry_limited none later = false
entry_limited (some s) later = elim s.blocked_until [ none ↦ false | some b ↦ ltb later b ]

limited-entry :
    (ip : IpAddr) (later : ℕ) (m : Limiter)
    → is_pin_rate_limited ip later m ≡ entry_limited (state_of ip m) later
unfolding is_pin_rate_limited entry_limited
limited-entry ip later m = ground arith

answer-fail_state :
    (ip : IpAddr) (now : ℕ) (m : Limiter)
    → length m ≤ 1000
    → (record_pin_attempt ip false now m).0 ≡ (fail_state (state_of ip m) now).0
unfolding record_pin_attempt
answer-fail_state ip now m small = ground arith

fail_state-limits :
    (s : Option PinAttemptState) (now later : ℕ)
    → entry_limited (some (fail_state s now).1) later
      ≡ (if (fail_state s now).0 then entry_limited s later else ltb later (now + secs 60))
unfolding fail_state entry_limited
fail_state-limits none now later = ground arith
fail_state-limits (some s) now later = ground arith

-- After a failure, while the map is small enough not to be pruned, the address is limited as the
-- answer says: a refusal blocks it for a minute from then; an acceptance leaves its block, if any,
-- as it was.
pub record_failure_limits :
    (ip : IpAddr) (now later : ℕ) (m : Limiter)
    → length m ≤ 1000
    → is_pin_rate_limited ip later (record_pin_attempt ip false now m).1 ≡ (
        if (record_pin_attempt ip false now m).0
        then is_pin_rate_limited ip later m
        else ltb later (now + secs 60))
record_failure_limits ip now later m small =
    let found = state_of-record ip ip false now m small in
    ground (
      arith,
      found,
      ip_eq_refl ip,
      limited-entry ip later m,
      limited-entry ip later (record_pin_attempt ip false now m).1,
      answer-fail_state ip now m small,
      fail_state-limits (state_of ip m) now later,
    )

fail_states-unblocked :
    (k : ℕ) (s : PinAttemptState) (ts : List ℕ) (later : ℕ)
    → k + length ts ≤ 4
    → s.failed_count ≤ k
    → s.blocked_until ≡ none
    → entry_limited (fail_states (some s) ts) later ≡ false
unfolding fail_states fail_state entry_limited
fail_states-unblocked k s [] later h few free = ground arith
fail_states-unblocked k s (t ∷ ts) later h few free =
    fail_states-unblocked (suc k) (fail_state (some s) t).1 ts later (omega arith) (ground arith)
      (ground arith)

new_states-unblocked :
    (ts : List ℕ) (later : ℕ) → length ts ≤ 4 → entry_limited (fail_states none ts) later ≡ false
unfolding fail_states fail_state
new_states-unblocked [] later h = unfold entry_limited in refl
new_states-unblocked (t ∷ ts) later h =
    fail_states-unblocked 1 (fail_state none t).1 ts later (omega arith) (ground arith)
      (ground arith)

-- Up to four failures of an unknown address do not limit it.
pub few_failures_allow :
    (ip : IpAddr) (ts : List ℕ) (later : ℕ) (m : Limiter)
    → length ts ≤ 4
    → length m + length ts ≤ 1000
    → state_of ip m ≡ none
    → is_pin_rate_limited ip later (record_failures ip ts m) ≡ false
few_failures_allow ip ts later m few small unknown =
    limited-entry ip later (record_failures ip ts m)
    ∙ (ap (λ s. entry_limited s later)
          (state_of-record_failures ip ts m small ∙ ap (λ s. fail_states s ts) unknown)
        ∙ new_states-unblocked ts later few)

-- One more failure after those at the earlier times.
pub record_failures-snoc :
    (ip : IpAddr) (ts : List ℕ) (t : ℕ) (m : Limiter)
    → record_failures ip (ts ++ t ∷ []) m
      ≡ (record_pin_attempt ip false t (record_failures ip ts m)).1
unfolding record_failures
record_failures-snoc ip [] t m = refl
record_failures-snoc ip (s ∷ ts) t m =
    record_failures-snoc ip ts t (record_pin_attempt ip false s m).1

pub record_failures-none : (ip : IpAddr) (m : Limiter) → record_failures ip [] m ≡ m
unfolding record_failures
record_failures-none ip m = refl

pub unknown_in_empty : (ip : IpAddr) → state_of ip [] ≡ none
unfolding state_of
unknown_in_empty ip = refl
