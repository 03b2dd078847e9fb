-- ===== src/Http/Gate.antt =====
-- Who passes the first part of `handle_connection` of src/main.rs as authorized, and how guessing the
-- PIN ends.
use omarchy_omasend.Common.{
  ℕ, ◌+◌, ◌≤◌, ◌<◌, ◌≡◌, ◌↔◌, refl, ap, sym, ◌∙◌, true, false, List, [], ◌∷◌, ◌++◌, none, some,
  length, map, All, length-append, append-nil, append_assoc, arith, Bool-cases, Option-cases, inl,
  inr,
}
use omarchy_omasend.Common.Text.{Text, codes, text_eq, text_eq_iff}
use omarchy_omasend.Net.{IpAddr}
use omarchy_omasend.PinLimiter.{secs, Limiter, state_of, is_pin_rate_limited, record_pin_attempt}
use omarchy_omasend.PinLimiter.Blocking.{
  record_failures, five_failures_block, few_failures_allow, record_failures-snoc,
  record_failures-none,
}
use omarchy_omasend.Http.{HttpRequest, extract_provided_pin, too_many, goes_on, gate}

-- A request is authorized exactly when it is no preflight, its address is not limited, and the PIN it
-- provides is the right one.
pub gate_authorized_iff :
    (pin : Text) (req : HttpRequest) (client_ip : IpAddr) (checked recorded : ℕ) (m : Limiter)
    → ((gate pin req client_ip checked recorded m).0 ≡ goes_on true) ↔ (
        (text_eq req.method (codes "OPTIONS") ≡ false)
        × (is_pin_rate_limited client_ip checked m ≡ false)
        × (extract_provided_pin req ≡ some pin))
unfolding gate
gate_authorized_iff pin req client_ip checked recorded m = (there, back)
  where
    there :
        (gate pin req client_ip checked recorded m).0 ≡ goes_on true
        → (text_eq req.method (codes "OPTIONS") ≡ false)
          × (is_pin_rate_limited client_ip checked m ≡ false)
          × (extract_provided_pin req ≡ some pin)
    there h = elim (Bool-cases (text_eq req.method (codes "OPTIONS"))) [
      | inl t ↦ absurd (cc (rw t at h))
      | inr t ↦ elim (Bool-cases (is_pin_rate_limited client_ip checked m)) [
        | inl u ↦ absurd (cc (rw (t, u) at h))
        | inr u ↦ elim (Option-cases (extract_provided_pin req)) [
          | inl v ↦ absurd (cc (rw (t, u, v) at h))
          | inr (p, v) ↦ elim (Bool-cases (text_eq p pin)) [
            | inl w ↦ (t, u, v ∙ ap some ((text_eq_iff p pin).0 w))
            | inr w ↦ elim (Bool-cases (record_pin_attempt client_ip false recorded m).0) [
              | inl x ↦ absurd (cc (rw (t, u, v, w, x) at h))
              | inr x ↦ absurd (cc (rw (t, u, v, w, x) at h))
            ]
          ]
        ]
      ]
    ]

    back :
        (text_eq req.method (codes "OPTIONS") ≡ false)
          × (is_pin_rate_limited client_ip checked m ≡ false)
          × (extract_provided_pin req ≡ some pin)
        → (gate pin req client_ip checked recorded m).0 ≡ goes_on true
    back (t, u, v) = rw (t, u, v, (text_eq_iff pin pin).1 refl) refl

gate_limited :
    (pin : Text) (req : HttpRequest) (ip : IpAddr) (now later : ℕ) (m : Limiter)
    → text_eq req.method (codes "OPTIONS") ≡ false
    → is_pin_rate_limited ip now m ≡ true
    → gate pin req ip now later m ≡ (too_many, m)
unfolding gate
gate_limited pin req ip now later m plain blocked = rw (plain, blocked) refl

-- A request that tries a wrong PIN.
pub record Guesses (pin : Text) (req : HttpRequest) : Type 0 where
  pub provided : Text
  pub not_preflight : text_eq req.method (codes "OPTIONS") ≡ false
  pub extracted : extract_provided_pin req ≡ some provided
  pub wrong : text_eq provided pin ≡ false

-- A request with the times at which it is checked and its attempt is recorded.
abbrev pub Timed : Type 0
Timed = HttpRequest × ℕ × ℕ

-- The requests of an address one after the other.
pub requests : Text → IpAddr → List Timed → Limiter → Limiter
requests pin ip [] m = m
requests pin ip ((req, checked, recorded) ∷ rs) m =
    requests pin ip rs (gate pin req ip checked recorded m).1

guess-record :
    (pin : Text) (req : HttpRequest) (ip : IpAddr) (now later : ℕ) (m : Limiter)
    → Guesses pin req
    → is_pin_rate_limited ip now m ≡ false
    → (gate pin req ip now later m).1 ≡ (record_pin_attempt ip false later m).1
unfolding gate
guess-record pin req ip now later m g free = rw (g.not_preflight, free, g.extracted, g.wrong) refl

next_guess :
    (pin : Text) (req : HttpRequest) (ip : IpAddr) (ts : List ℕ) (c t : ℕ) (m : Limiter)
    → Guesses pin req
    → length ts ≤ 4
    → length m + 5 ≤ 1000
    → state_of ip m ≡ none
    → (gate pin req ip c t (record_failures ip ts m)).1 ≡ record_failures ip (ts ++ t ∷ []) m
next_guess pin req ip ts c t m g few small unknown =
    guess-record pin req ip c t (record_failures ip ts m) g
      (few_failures_allow ip ts c m few (omega arith) unknown)
    ∙ sym (record_failures-snoc ip ts t m)

requests_after :
    (pin : Text) (ip : IpAddr) (before : List ℕ) (rs : List Timed) (m : Limiter)
    → All (λ r. Guesses pin r.0) rs
    → length before + length rs ≤ 5
    → length m + 5 ≤ 1000
    → state_of ip m ≡ none
    → requests pin ip rs (record_failures ip before m)
      ≡ record_failures ip (before ++ map (λ r. r.2) rs) m
unfolding requests
requests_after pin ip before [] m g few small unknown =
    ap (λ l. record_failures ip l m) (sym (append-nil before))
requests_after pin ip before ((req, c, t) ∷ rs) m g few small unknown =
    ap (requests pin ip rs) (next_guess pin req ip before c t m g.0 (omega arith) small unknown)
    ∙ (requests_after pin ip (before ++ t ∷ []) rs m g.1
          (omega (arith, length-append before (t ∷ []))) small unknown
        ∙ ap (λ l. record_failures ip l m) (append_assoc before (t ∷ []) (map (λ r. r.2) rs)))

-- After an unknown address sent five requests with wrong PINs, the same or different ones, within a
-- minute by the times at which they are recorded, and with no other request in between, then whatever
-- request it sends before a minute after the fifth, unless a preflight, is answered with too many attempts, the right PIN included, and
-- changes nothing. The map of addresses is taken to be small enough not to be pruned.
pub gate_locks_out :
    (pin : Text) (ra rb rc rd re again : HttpRequest) (ip : IpAddr) (ca cb cc' cd ce : ℕ)
    (a b c d e now later : ℕ) (m : Limiter)
    → All (Guesses pin) (ra ∷ rb ∷ rc ∷ rd ∷ re ∷ [])
    → length m + 5 ≤ 1000
    → state_of ip m ≡ none
    → a ≤ b
    → b ≤ c
    → c ≤ d
    → d ≤ e
    → e ≤ a + secs 60
    → now < e + secs 60
    → text_eq again.method (codes "OPTIONS") ≡ false
    → let after =
        requests pin ip
          ((ra, ca, a) ∷ (rb, cb, b) ∷ (rc, cc', c) ∷ (rd, cd, d) ∷ (re, ce, e) ∷ [])
          m in
      gate pin again ip now later after ≡ (too_many, after)
gate_locks_out pin ra rb rc rd re again ip ca cb cc' cd ce a b c d e now later m g small unknown p q
      r s t u plain =
    let sent : List Timed =
      (ra, ca, a) ∷ (rb, cb, b) ∷ (rc, cc', c) ∷ (rd, cd, d) ∷ (re, ce, e) ∷ [] in
    let five = a ∷ b ∷ c ∷ d ∷ e ∷ [] in
    let same : requests pin ip sent m ≡ record_failures ip five m =
      ap (requests pin ip sent) (sym (record_failures-none ip m))
      ∙ requests_after pin ip [] sent m g (omega arith) small unknown in
    gate_limited pin again ip now later (requests pin ip sent m) plain (
      ap (is_pin_rate_limited ip now) same
      ∙ five_failures_block ip a b c d e now m small unknown p q r s t u)
