-- ===== src/OmaId/Detect.antt =====
-- Which mistyped identifiers the Luhn check of src/rendezvous.rs notices.
use omarchy_omasend.Common.{
  ℕ, ◌+◌, ◌%◌, ◌≤◌, ◌≡◌, refl, ◌⊎◌, Bool, true, false, not, List, [], ◌∷◌, ◌++◌, arith,
}
use omarchy_omasend.OmaId.{luhn_value, luhn_sum, luhn_verify}
use omarchy_omasend.OmaId.Luhn.{
  AllDigits, parity_after, luhn_sum-append, luhn_verify_iff, luhn_value-injective, All-second,
  sum_at,
}

-- One wrong digit is always noticed: of two numbers that differ in one place, wherever that place
-- is, the check accepts at most one.
pub luhn_one_digit :
    (pre post : List ℕ) (d e : ℕ)
    → luhn_verify (pre ++ d ∷ post) ≡ true
    → luhn_verify (pre ++ e ∷ post) ≡ true
    → d ≡ e
luhn_one_digit pre post d e h k =
    let at_d = luhn_verify_iff (pre ++ d ∷ post) h in
    let at_e = luhn_verify_iff (pre ++ e ∷ post) k in
    luhn_value-injective (parity_after true pre)
      (luhn_sum true pre + luhn_sum (not (parity_after true pre)) post) d e
      (All-second pre post d at_d.0) (All-second pre post e at_e.0)
      (omega (arith, sum_at pre post d, at_d.2)) (omega (arith, sum_at pre post e, at_e.2))

-- What two neighbouring digits add.
pair_value : Bool → ℕ → ℕ → ℕ
pair_value even a b = luhn_value even a + luhn_value (not even) b

pair_value_swap :
    (even : Bool) (rest a b : ℕ)
    → a ≤ 9
    → b ≤ 9
    → (rest + pair_value even a b) % 10 ≡ 0
    → (rest + pair_value even b a) % 10 ≡ 0
    → (a ≡ b) ⊎ ((a + b ≡ 9) × ((a ≡ 0) ⊎ (b ≡ 0)))
unfolding pair_value luhn_value
pair_value_swap true rest a b p q h k = ground arith
pair_value_swap false rest a b p q h k = ground arith

luhn_sum-not-not : (even : Bool) (ds : List ℕ) → luhn_sum (not (not even)) ds ≡ luhn_sum even ds
luhn_sum-not-not true ds = refl
luhn_sum-not-not false ds = refl

sum_at_pair :
    (pre post : List ℕ) (a b : ℕ)
    → luhn_sum true (pre ++ a ∷ b ∷ post)
      ≡ luhn_sum true pre
        + luhn_sum (parity_after true pre) post
        + pair_value (parity_after true pre) a b
unfolding luhn_sum pair_value
sum_at_pair pre post a b =
    omega (
      arith,
      luhn_sum-append true pre (a ∷ b ∷ post),
      luhn_sum-not-not (parity_after true pre) post,
    )

All-pair : (pre post : List ℕ) (a b : ℕ) → AllDigits (pre ++ a ∷ b ∷ post) → (a ≤ 9) × (b ≤ 9)
All-pair [] post a b h = (h.0, h.1.0)
All-pair (x ∷ pre) post a b h = All-pair pre post a b h.1

-- Two neighbouring digits that are swapped are noticed unless they are 0 and 9: if the check accepts
-- both orders, the digits are the same, or one is 0 and the other 9.
pub luhn_swap :
    (pre post : List ℕ) (a b : ℕ)
    → luhn_verify (pre ++ a ∷ b ∷ post) ≡ true
    → luhn_verify (pre ++ b ∷ a ∷ post) ≡ true
    → (a ≡ b) ⊎ ((a + b ≡ 9) × ((a ≡ 0) ⊎ (b ≡ 0)))
luhn_swap pre post a b h k =
    let ab = luhn_verify_iff (pre ++ a ∷ b ∷ post) h in
    let ba = luhn_verify_iff (pre ++ b ∷ a ∷ post) k in
    let (small_a, small_b) = All-pair pre post a b ab.0 in
    pair_value_swap (parity_after true pre)
      (luhn_sum true pre + luhn_sum (parity_after true pre) post) a b small_a small_b
      (omega (arith, sum_at_pair pre post a b, ab.2))
      (omega (arith, sum_at_pair pre post b a, ba.2))
