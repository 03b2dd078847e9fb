-- ===== src/Pairing/ConstantTime.antt =====
-- `constant_time_eq` of src/rendezvous.rs and `constant_time_eq_str` of src/main.rs.
use Prim.Native.Nat.{bit_or, bit_xor}
use omarchy_omasend.Common.{ℕ, ◌≡◌, refl, ◌↔◌, true, List, [], ◌∷◌, arith, length}
use omarchy_omasend.Common.Bits.{bit_or-eq_zero_iff, bit_xor-eq_zero_iff}
use omarchy_omasend.Pairing.Model.{diff_bytes, constant_time_eq}

diff_bytes_sound :
    (diff : ℕ) (a b : List ℕ) → length a ≡ length b → diff_bytes diff a b ≡ 0 → (diff ≡ 0) × (a ≡ b)
unfolding diff_bytes
diff_bytes_sound diff [] [] n h = (h, refl)
diff_bytes_sound diff [] (y ∷ b) n h = absurd (omega arith)
diff_bytes_sound diff (x ∷ a) [] n h = absurd (omega arith)
diff_bytes_sound diff (x ∷ a) (y ∷ b) n h =
    let (folded, rest) = diff_bytes_sound (bit_or diff (bit_xor x y)) a b (omega arith) h in
    let (before, here) = (bit_or-eq_zero_iff diff (bit_xor x y)).0 folded in
    let same = (bit_xor-eq_zero_iff x y).0 here in (before, cc)

diff_bytes_refl : (a : List ℕ) → diff_bytes 0 a a ≡ 0
unfolding diff_bytes
diff_bytes_refl [] = refl
diff_bytes_refl (x ∷ a) =
    rw ((bit_xor-eq_zero_iff x x).1 refl, (bit_or-eq_zero_iff 0 0).1 (refl, refl))
      (diff_bytes_refl a)

-- The comparison accepts exactly the byte strings that are equal, in length and content: no early
-- exit and no wrap of the accumulator changes its answer.
pub constant_time_eq_iff : (a b : List ℕ) → (constant_time_eq a b ≡ true) ↔ (a ≡ b)
unfolding constant_time_eq
constant_time_eq_iff a b = (sound, complete)
  where
    sound : constant_time_eq a b ≡ true → a ≡ b
    sound h = (diff_bytes_sound 0 a b (ground arith) (ground arith)).1

    complete : a ≡ b → constant_time_eq a b ≡ true
    complete e = rw e (ground (arith, diff_bytes_refl b))
