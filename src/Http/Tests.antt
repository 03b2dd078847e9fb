-- ===== src/Http/Tests.antt =====
-- The theorems about requests of src/main.rs at one request with a PIN.
use omarchy_omasend.Common.{◌≡◌, ◌↔◌, refl, [], ◌∷◌, some, true, false, arith}
use omarchy_omasend.Common.Text.{Text, codes, text_eq}
use omarchy_omasend.Net.{IpAddr, v4}
use omarchy_omasend.PinLimiter.{secs, is_pin_rate_limited}
use omarchy_omasend.PinLimiter.Blocking.{unknown_in_empty}
use omarchy_omasend.Http.{
  HttpRequest, extract_provided_pin, too_many, goes_on, gate, first_pin, split, strip_prefix,
}
use omarchy_omasend.Http.Gate.{Guesses, requests, gate_authorized_iff, gate_locks_out}

abbrev home : IpAddr
home = v4 192 168 1 7

abbrev with_pin : Text → HttpRequest
with_pin pin = record { method = codes "GET"; path = codes "/"; query = pin; headers = [] }

gate_authorized_iff_example :
    ((gate (codes "4711") (with_pin (codes "a=1&pin=4711")) home 5 6 []).0 ≡ goes_on true) ↔ (
      (text_eq (with_pin (codes "a=1&pin=4711")).method (codes "OPTIONS") ≡ false)
      × (is_pin_rate_limited home 5 [] ≡ false)
      × (extract_provided_pin (with_pin (codes "a=1&pin=4711")) ≡ some (codes "4711")))
gate_authorized_iff_example =
    gate_authorized_iff (codes "4711") (with_pin (codes "a=1&pin=4711")) home 5 6 []

wrong_1 : Guesses (codes "4711") (with_pin (codes "pin=1"))
unfolding extract_provided_pin first_pin split strip_prefix
wrong_1 = record { provided = codes "1"; not_preflight = refl; extracted = refl; wrong = refl }

wrong_2 : Guesses (codes "4711") (with_pin (codes "pin=22"))
unfolding extract_provided_pin first_pin split strip_prefix
wrong_2 = record { provided = codes "22"; not_preflight = refl; extracted = refl; wrong = refl }

gate_locks_out_example :
    let after =
      requests
        (codes "4711")
        home
        ((with_pin (codes "pin=1"), 0, 0)
          ∷ (with_pin (codes "pin=22"), secs 1, secs 1)
          ∷ (with_pin (codes "pin=1"), secs 2, secs 2)
          ∷ (with_pin (codes "pin=22"), secs 3, secs 3)
          ∷ (with_pin (codes "pin=1"), secs 4, secs 4)
          ∷ [])
        [] in
    gate (codes "4711") (with_pin (codes "pin=4711")) home (secs 30) (secs 30) after
    ≡ (too_many, after)
gate_locks_out_example =
    gate_locks_out (codes "4711") (with_pin (codes "pin=1")) (with_pin (codes "pin=22"))
      (with_pin (codes "pin=1")) (with_pin (codes "pin=22")) (with_pin (codes "pin=1"))
      (with_pin (codes "pin=4711")) home 0 (secs 1) (secs 2) (secs 3) (secs 4) 0 (secs 1) (secs 2)
      (secs 3) (secs 4) (secs 30) (secs 30) []
      (wrong_1, (wrong_2, (wrong_1, (wrong_2, (wrong_1, tt))))) (omega arith)
      (unknown_in_empty home) (omega arith) (omega arith) (omega arith) (omega arith) (omega arith)
      (omega arith) refl
