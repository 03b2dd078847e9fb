-- ===== src/OmaId/Tests.antt =====
-- The theorems about OmaIDs in src/rendezvous.rs at the identifier 4539-1488-0343-6467.
use omarchy_omasend.Common.{ℕ, ◌≡◌, refl, List, [], ◌∷◌, some}
use omarchy_omasend.Common.Text.{codes}
use omarchy_omasend.OmaId.{luhn_verify, generate_raw_oma_id}
use omarchy_omasend.OmaId.Detect.{luhn_one_digit}

abbrev start_digits : List ℕ
start_digits = 4 ∷ 5 ∷ 3 ∷ 9 ∷ 1 ∷ 4 ∷ 8 ∷ []

abbrev end_digits : List ℕ
end_digits = 0 ∷ 3 ∷ 4 ∷ 3 ∷ 6 ∷ 4 ∷ 6 ∷ 7 ∷ []

luhn_one_digit_example : ◌≡◌ {A = ℕ} 8 8
unfolding luhn_verify
luhn_one_digit_example = luhn_one_digit start_digits end_digits 8 8 refl refl

abbrev one_round : List (List ℕ)
one_round =
    (255 ∷ 14 ∷ 25 ∷ 33 ∷ 49 ∷ 51 ∷ 64 ∷ 78 ∷ 88 ∷ 90 ∷ 103 ∷ 114 ∷ 123 ∷ 136 ∷ 144 ∷ 156 ∷ 9 ∷ [])
    ∷ []

one_round_gives : generate_raw_oma_id one_round ≡ some (codes "4539148803436467")
unfolding generate_raw_oma_id
one_round_gives = refl
