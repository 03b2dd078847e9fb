-- ===== src/Common/Bits.antt =====
-- `^` and `|` on machine words: the facts that comparing and masking bytes rests on.
use Prim.Native.Nat.{
  ℕ, zero, suc, ◌+◌, ◌*◌, ◌/◌, ◌%◌, ◌^◌, ◌≤◌, ◌<◌, max, bit_or, bit_xor, digits, differ,
  bit_or-bitwise, bit_xor-bitwise,
}
use mathlib.Core.Path.{◌≡◌, refl, ap}
use mathlib.Core.Logic.{◌↔◌}
use native.Mathlib.Nat.{pow-suc}
use native.Mathlib.Omega.{arith}

module _ (op : ℕ → ℕ → ℕ) where
  abbrev op_digits : ℕ → ℕ → ℕ → ℕ
  op_digits n a b = digits (λ b. b) op n a b

  op_digits_fuel : (n m a b : ℕ) → a ≤ n → a ≤ m → op_digits n a b ≡ op_digits m a b
  op_digits_fuel zero zero a b p q = refl
  op_digits_fuel zero (suc m) zero b p q = refl
  op_digits_fuel zero (suc m) (suc a) b p q = absurd (omega arith)
  op_digits_fuel (suc n) zero zero b p q = refl
  op_digits_fuel (suc n) zero (suc a) b p q = absurd (omega arith)
  op_digits_fuel (suc n) (suc m) zero b p q = refl
  op_digits_fuel (suc n) (suc m) (suc a) b p q =
      omega (arith, op_digits_fuel n m (suc a / 2) (b / 2) (omega arith) (omega arith))

zero-bit_xor : (b : ℕ) → bit_xor 0 b ≡ b
zero-bit_xor b = bit_xor-bitwise 0 b

zero-bit_or : (b : ℕ) → bit_or 0 b ≡ b
zero-bit_or b = bit_or-bitwise 0 b

pub bit_xor_step : (a b : ℕ) → bit_xor a b ≡ bit_xor (a / 2) (b / 2) * 2 + differ (a % 2) (b % 2)
bit_xor_step zero b = omega (arith, zero-bit_xor b, zero-bit_xor (b / 2))
bit_xor_step (suc a) b = omega (
  arith,
  bit_xor-bitwise (suc a) b,
  bit_xor-bitwise (suc a / 2) (b / 2),
  op_digits_fuel differ a (suc a / 2) (suc a / 2) (b / 2) (omega arith) (omega arith),
)

pub bit_or_step : (a b : ℕ) → bit_or a b ≡ bit_or (a / 2) (b / 2) * 2 + max (a % 2) (b % 2)
bit_or_step zero b = omega (arith, zero-bit_or b, zero-bit_or (b / 2))
bit_or_step (suc a) b = omega (
  arith,
  bit_or-bitwise (suc a) b,
  bit_or-bitwise (suc a / 2) (b / 2),
  op_digits_fuel max a (suc a / 2) (suc a / 2) (b / 2) (omega arith) (omega arith),
)

differ_self : (x : ℕ) → differ x x ≡ 0
differ_self zero = refl
differ_self (suc x) = differ_self x

eq_of_differ : (x y : ℕ) → differ x y ≡ 0 → x ≡ y
eq_of_differ zero y h = omega arith
eq_of_differ (suc x) zero h = omega arith
eq_of_differ (suc x) (suc y) h = omega (arith, eq_of_differ x y h)

-- Two binary digits: `differ` is an involution on them.
differ_digits : (x y : ℕ) → x < 2 → y < 2 → (differ (differ x y) y ≡ x) × (differ x y < 2)
differ_digits zero zero p q = omega arith
differ_digits zero (suc zero) p q = omega arith
differ_digits (suc zero) zero p q = omega arith
differ_digits (suc zero) (suc zero) p q = omega arith
differ_digits x (suc (suc y)) p q = absurd (omega arith)
differ_digits (suc (suc x)) y p q = absurd (omega arith)

bit_xor_self_below : (n a : ℕ) → a ≤ n → bit_xor a a ≡ 0
bit_xor_self_below zero zero h = refl
bit_xor_self_below zero (suc a) h = absurd (omega arith)
bit_xor_self_below (suc n) zero h = refl
bit_xor_self_below (suc n) (suc a) h = omega (
  arith,
  bit_xor_step (suc a) (suc a),
  differ_self (suc a % 2),
  bit_xor_self_below n (suc a / 2) (omega arith),
)

eq_below : (n a b : ℕ) → a ≤ n → b ≤ n → bit_xor a b ≡ 0 → a ≡ b
eq_below zero a b p q h = omega arith
eq_below (suc n) a b p q h = omega (
  arith,
  bit_xor_step a b,
  eq_of_differ (a % 2) (b % 2) (omega (arith, bit_xor_step a b)),
  eq_below n (a / 2) (b / 2) (omega arith) (omega arith) (omega (arith, bit_xor_step a b)),
)

-- `x ^ y == 0` exactly when the words are equal.
pub bit_xor-eq_zero_iff : (a b : ℕ) → (bit_xor a b ≡ 0) ↔ (a ≡ b)
bit_xor-eq_zero_iff a b = (
  eq_below (max a b) a b (omega arith) (omega arith),
  λ e. rw e (bit_xor_self_below b b (omega arith)),
)

or_below : (n a b : ℕ) → a ≤ n → b ≤ n → bit_or a b ≡ 0 → (a ≡ 0) × (b ≡ 0)
or_below zero a b p q h = omega arith
or_below (suc n) a b p q h = omega (
  arith,
  bit_or_step a b,
  or_below n (a / 2) (b / 2) (omega arith) (omega arith) (omega (arith, bit_or_step a b)),
)

-- `a | b == 0` exactly when both are zero.
pub bit_or-eq_zero_iff : (a b : ℕ) → (bit_or a b ≡ 0) ↔ ((a ≡ 0) × (b ≡ 0))
bit_or-eq_zero_iff a b = (or_below (max a b) a b (omega arith) (omega arith), λ e. rw (e.0, e.1))

xor_twice_below : (n a b : ℕ) → a ≤ n → b ≤ n → bit_xor (bit_xor a b) b ≡ a
xor_twice_below zero zero zero p q = refl
xor_twice_below zero zero (suc b) p q = absurd (omega arith)
xor_twice_below zero (suc a) b p q = absurd (omega arith)
xor_twice_below (suc n) a b p q = omega (
  arith,
  bit_xor_step (bit_xor a b) b,
  ap (λ c. bit_xor c (b / 2)) half,
  ap (λ c. differ c (b % 2)) odd,
  xor_twice_below n (a / 2) (b / 2) (omega arith) (omega arith),
  digits_back,
)
  where
    digits_back : (differ (differ (a % 2) (b % 2)) (b % 2) ≡ a % 2) × (differ (a % 2) (b % 2) < 2)
    digits_back = differ_digits (a % 2) (b % 2) (omega arith) (omega arith)

    half : bit_xor a b / 2 ≡ bit_xor (a / 2) (b / 2)
    half = omega (arith, bit_xor_step a b, digits_back)

    odd : bit_xor a b % 2 ≡ differ (a % 2) (b % 2)
    odd = omega (arith, bit_xor_step a b, digits_back)

-- Masking twice with the same word gives the word back.
pub bit_xor_twice : (a b : ℕ) → bit_xor (bit_xor a b) b ≡ a
bit_xor_twice a b = xor_twice_below (max a b) a b (omega arith) (omega arith)

pow_half : (k : ℕ) → 2 ^ suc k / 2 ≡ 2 ^ k
pow_half k = omega (arith, pow-suc 2 k)

-- A mask of two `k`-bit words is a `k`-bit word.
pub bit_xor-lt : (k a b : ℕ) → a < 2 ^ k → b < 2 ^ k → bit_xor a b < 2 ^ k
bit_xor-lt zero a b p q = omega (arith, (bit_xor-eq_zero_iff a b).1 (omega arith))
bit_xor-lt (suc k) a b p q = omega (
  arith,
  pow-suc 2 k,
  bit_xor_step a b,
  differ_digits (a % 2) (b % 2) (omega arith) (omega arith),
  bit_xor-lt k (a / 2) (b / 2) (omega (arith, pow-suc 2 k)) (omega (arith, pow-suc 2 k)),
)
