-- ===== src/OmaId.antt =====
-- The 16 digit OmaID of src/rendezvous.rs: Luhn checksum, normalising, formatting, generating.
pub mod Luhn
pub mod Detect
pub mod Format
pub mod Generate
mod Tests
use omarchy_omasend.Common.{
  ℕ, zero, suc, ◌+◌, ◌-◌, ◌*◌, ◌%◌, ◌≡◌, Bool, true, false, not, ◌&&◌, ◌||◌, List, [], ◌∷◌, ◌++◌,
  map, ltb, leb, ◌==◌, if◌then◌else◌, length, take, drop, keep_if, Option, none, some, refl,
}
use omarchy_omasend.Common.Text.{Text, codes, is_ascii_digit, len, as_bytes}

-- The value that digit `d` adds at an even (`true`) or odd position.
pub luhn_value : Bool → ℕ → ℕ
luhn_value even d =
    let doubled = d * 2 in if even then (if ltb 9 doubled then doubled - 9 else doubled) else d

-- The sum over the digits; the flag says whether the first stands at an even position.
pub luhn_sum : Bool → List ℕ → ℕ
unfolding luhn_value
luhn_sum even [] = 0
luhn_sum even (d ∷ ds) = luhn_value even d + luhn_sum (not even) ds

pub luhn_checksum : List ℕ → ℕ
unfolding luhn_sum
luhn_checksum digits = (10 - luhn_sum true (take 15 digits) % 10) % 10

-- The loop of `luhn_verify`: it stops at a value over 9.
pub luhn_scan : Bool → ℕ → List ℕ → Bool
unfolding luhn_value
luhn_scan even sum [] = sum % 10 == 0
luhn_scan even sum (d ∷ ds) =
    let rest = luhn_scan (not even) (sum + luhn_value even d) ds in if ltb 9 d then false else rest

pub luhn_verify : List ℕ → Bool
unfolding luhn_scan
luhn_verify digits = if not (length digits == 16) then false else luhn_scan true 0 digits

abbrev pub normalize_oma_id : Text → Text
normalize_oma_id input = keep_if is_ascii_digit input

unfoldable pub format_oma_id : Text → Text
format_oma_id raw =
    let normalized = normalize_oma_id raw in
    if len normalized == 16
    then take 4 normalized
      ++ b'-'
        ∷ (take 4 (drop 4 normalized)
            ++ b'-' ∷ (take 4 (drop 8 normalized) ++ b'-' ∷ take 4 (drop 12 normalized)))
    else normalized

unfoldable pub validate_oma_id : Text → Bool
unfolding luhn_verify
validate_oma_id input =
    let norm = normalize_oma_id input in
    if not (len norm == 16) then false else luhn_verify (map (λ b. b - b'0') norm)

-- `for &b in &buf`: a byte below 250 gives a digit, while fewer than 15 are there.
pub push_digits : List ℕ → List ℕ → List ℕ
push_digits [] digits = digits
push_digits (b ∷ buf) digits =
    push_digits buf
      (if ltb b 250 && ltb (length digits) 15 then digits ++ (b % 10) ∷ [] else digits)

-- `while digits.len() < 15`, over the random buffers that the rounds will read; `none` when the
-- loop would ask for one more.
pub draw_digits : List (List ℕ) → List ℕ → Option (List ℕ)
unfolding push_digits
draw_digits [] digits = if ltb (length digits) 15 then none else some digits
draw_digits (buf ∷ bufs) digits =
    let more = draw_digits bufs (push_digits buf digits) in
    if ltb (length digits) 15 then more else some digits

-- A digit below ten prints as one character.
pub generate_raw_oma_id : List (List ℕ) → Option Text
unfolding draw_digits luhn_checksum
generate_raw_oma_id bufs = elim (draw_digits bufs []) [
  | none ↦ none
  | some digits ↦ some (map (λ d. b'0' + d) (digits ++ luhn_checksum digits ∷ []))
]

sample_verifies : validate_oma_id (codes "4539-1488-0343-6467") ≡ true
unfolding validate_oma_id as_bytes
sample_verifies = refl
