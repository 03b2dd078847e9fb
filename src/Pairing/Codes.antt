-- ===== src/Pairing/Codes.antt =====
-- `random_pair_code` of src/rendezvous.rs.
use omarchy_omasend.Common.{
  ℕ, ◌+◌, ◌*◌, ◌/◌, ◌%◌, ◌<◌, ◌≡◌, ap, ◌↔◌, true, List, [], ◌∷◌, Option, none, some, arith, ltb,
  length, all, ok, Bool-cases, inl, inr,
}
use omarchy_omasend.Common.Text.{Text, is_ascii_digit, as_bytes, len, as_bytes_digits}
use omarchy_omasend.Pairing.Model.{six_digits, random_pair_code, code_limit}

pub six_digits_digits : (n : ℕ) → all is_ascii_digit (six_digits n) ≡ true
unfolding six_digits
six_digits_digits n = ground arith

pub as_bytes-six_digits : (n : ℕ) → as_bytes (six_digits n) ≡ six_digits n
as_bytes-six_digits n = as_bytes_digits (six_digits n) (six_digits_digits n)

pub len-six_digits : (n : ℕ) → len (six_digits n) ≡ 6
unfolding six_digits
len-six_digits n = ap length (as_bytes-six_digits n)

-- A code that is drawn prints a number of at most six digits.
pub random_pair_code-six :
    (draws : List (Option ℕ)) (code : Text)
    → random_pair_code draws ≡ some (ok code)
    → (n : ℕ) × (n < 1_000_000) × (code ≡ six_digits n)
unfolding random_pair_code
random_pair_code-six [] code h = absurd (cc)
random_pair_code-six (none ∷ draws) code h = absurd (cc)
random_pair_code-six (some v ∷ draws) code h = elim (Bool-cases (ltb v code_limit)) [
  | inl low ↦ (v % 1_000_000, omega arith, ground (arith, low))
  | inr high ↦ random_pair_code-six draws code (rw high at h)
]

six_digits-injective :
    (m n : ℕ) → m < 1_000_000 → n < 1_000_000 → six_digits m ≡ six_digits n → m ≡ n
unfolding six_digits
six_digits-injective m n p q h = ground arith

-- No code is favoured: of the words that one draw may give, exactly 4294 lead to any given code,
-- those that stand a multiple k < 4294 of a million above it.
pub random_pair_code_uniform :
    (c v : ℕ)
    → c < 1_000_000
    → (random_pair_code (some v ∷ []) ≡ some (ok (six_digits c)))
      ↔ ((k : ℕ) × (k < 4294) × (v ≡ k * 1_000_000 + c))
unfolding random_pair_code
random_pair_code_uniform c v small = (there, back)
  where
    there :
        random_pair_code (some v ∷ []) ≡ some (ok (six_digits c))
        → (k : ℕ) × (k < 4294) × (v ≡ k * 1_000_000 + c)
    there h = elim (Bool-cases (ltb v code_limit)) [
      | inr high ↦ absurd (ground (arith, high, h))
      | inl low ↦
          let same : six_digits (v % 1_000_000) ≡ six_digits c = ground (arith, low, h) in
          let e : v % 1_000_000 ≡ c =
            six_digits-injective (v % 1_000_000) c (omega arith) small same in
          (v / 1_000_000, ground (arith, low), omega (arith, e))
    ]

    back :
        (k : ℕ) × (k < 4294) × (v ≡ k * 1_000_000 + c)
        → random_pair_code (some v ∷ []) ≡ some (ok (six_digits c))
    back (k, few, e) =
        let r : v % 1_000_000 ≡ c = omega arith in
        let low : ltb v code_limit ≡ true = ground arith in rw (low, r)
