-- ===== src/Stun/Tests.antt =====
-- The theorems about STUN of src/rendezvous.rs at one response.
use omarchy_omasend.Common.{ℕ, ◌≡◌, List, [], ◌∷◌, some}
use omarchy_omasend.Net.{v4}
use omarchy_omasend.Stun.{parse_stun_response}
use omarchy_omasend.Stun.Laws.{binding_response, parse-binding_response}

abbrev tx : List ℕ
tx = 1 ∷ 2 ∷ 3 ∷ 4 ∷ 5 ∷ 6 ∷ 7 ∷ 8 ∷ 9 ∷ 10 ∷ 11 ∷ 12 ∷ []

abbrev response : List ℕ
response = binding_response tx 203 0 113 9 41000

parse-binding_response_example : parse_stun_response response tx ≡ some (v4 203 0 113 9, 41000)
parse-binding_response_example = parse-binding_response 1 2 3 4 5 6 7 8 9 10 11 12 203 0 113 9 41000
