-- ===== src/OmaId/Luhn.antt =====
-- What the Luhn check of src/rendezvous.rs accepts and detects.
use omarchy_omasend.Common.{
  ℕ, ◌+◌, ◌%◌, ◌≤◌, ◌≡◌, Bool, true, false, not, List, [], ◌∷◌, ◌++◌, arith, ◌==◌, length, All,
}
use omarchy_omasend.OmaId.{luhn_value, luhn_sum, luhn_scan, luhn_verify}

abbrev pub AllDigits : List ℕ → Type 0
AllDigits = All (λ d. d ≤ 9)

-- The parity at which the next digit stands.
abbrev pub parity_after : Bool → List ℕ → Bool
parity_after even [] = even
parity_after even (d ∷ ds) = parity_after (not even) ds

pub luhn_scan-sum :
    (even : Bool) (sum : ℕ) (ds : List ℕ)
    → AllDigits ds
    → luhn_scan even sum ds ≡ ((sum + luhn_sum even ds) % 10 == 0)
unfolding luhn_scan luhn_sum
luhn_scan-sum even sum [] h = ground arith
luhn_scan-sum even sum (d ∷ ds) h =
    ground (arith, luhn_scan-sum (not even) (sum + luhn_value even d) ds h.1)

pub luhn_scan-AllDigits :
    (even : Bool) (sum : ℕ) (ds : List ℕ) → luhn_scan even sum ds ≡ true → AllDigits ds
unfolding luhn_scan
luhn_scan-AllDigits even sum [] h = tt
luhn_scan-AllDigits even sum (d ∷ ds) h =
    ground (arith, luhn_scan-AllDigits (not even) (sum + luhn_value even d) ds)

pub luhn_sum-append :
    (even : Bool) (xs ys : List ℕ)
    → luhn_sum even (xs ++ ys) ≡ luhn_sum even xs + luhn_sum (parity_after even xs) ys
unfolding luhn_sum
luhn_sum-append even [] ys = omega arith
luhn_sum-append even (d ∷ xs) ys = omega (arith, luhn_sum-append (not even) xs ys)

-- The check accepts sixteen digits whose sum is a multiple of ten, and nothing else.
pub luhn_verify_iff :
    (ds : List ℕ)
    → luhn_verify ds ≡ true
    → AllDigits ds × (length ds ≡ 16) × (luhn_sum true ds % 10 ≡ 0)
unfolding luhn_verify
luhn_verify_iff ds h =
    let scanned : luhn_scan true 0 ds ≡ true = ground arith in
    let digits : AllDigits ds = luhn_scan-AllDigits true 0 ds scanned in
    (digits, ground arith, ground (arith, luhn_scan-sum true 0 ds digits))

pub luhn_verify_of_sum :
    (ds : List ℕ)
    → AllDigits ds
    → length ds ≡ 16
    → luhn_sum true ds % 10 ≡ 0
    → luhn_verify ds ≡ true
unfolding luhn_verify
luhn_verify_of_sum ds digits n h = ground (arith, luhn_scan-sum true 0 ds digits)

-- Two digits at one place add the same only if they are the same.
pub luhn_value-injective :
    (even : Bool) (rest d e : ℕ)
    → d ≤ 9
    → e ≤ 9
    → (rest + luhn_value even d) % 10 ≡ 0
    → (rest + luhn_value even e) % 10 ≡ 0
    → d ≡ e
unfolding luhn_value
luhn_value-injective true rest d e p q h k = ground arith
luhn_value-injective false rest d e p q h k = omega arith

pub All-second : (pre post : List ℕ) (d : ℕ) → AllDigits (pre ++ d ∷ post) → d ≤ 9
All-second [] post d h = h.0
All-second (x ∷ pre) post d h = All-second pre post d h.1

pub sum_at :
    (pre post : List ℕ) (d : ℕ)
    → luhn_sum true (pre ++ d ∷ post)
      ≡ luhn_sum true pre
        + luhn_sum (not (parity_after true pre)) post
        + luhn_value (parity_after true pre) d
unfolding luhn_sum
sum_at pre post d = omega (arith, luhn_sum-append true pre (d ∷ post))
