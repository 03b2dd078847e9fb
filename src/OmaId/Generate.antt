-- ===== src/OmaId/Generate.antt =====
-- `generate_raw_oma_id` of src/rendezvous.rs.
use omarchy_omasend.Common.{
  ℕ, zero, suc, ◌+◌, ◌-◌, ◌%◌, ◌≤◌, ◌≡◌, refl, ◌∙◌, ap, Bool, true, false, List, [], ◌∷◌, ◌++◌, map,
  some, arith, ltb, if◌then◌else◌, length, all, keep_if-all, All-append, length-append, length-map,
  min, not, Bool-cases, inl, inr, Option-cases, take_all,
}
use omarchy_omasend.Common.Text.{Text, is_ascii_digit}
use omarchy_omasend.OmaId.{
  luhn_sum, luhn_checksum, luhn_verify, push_digits, draw_digits, generate_raw_oma_id,
  validate_oma_id, normalize_oma_id,
}
use omarchy_omasend.OmaId.Luhn.{AllDigits, parity_after, luhn_sum-append, luhn_verify_of_sum}
use omarchy_omasend.OmaId.Format.{validate_of_digits}

parity_even : ℕ → Bool
parity_even zero = true
parity_even (suc n) = not (parity_even n)

parity_after-length :
    (even : Bool) (ds : List ℕ)
    → parity_after even ds ≡ (if parity_even (length ds) then even else not even)
unfolding parity_even
parity_after-length even [] = refl
parity_after-length even (d ∷ ds) = ground (arith, parity_after-length (not even) ds)

-- The check digit completes fifteen digits to a number that the check accepts.
pub luhn_verify-checksum :
    (ds : List ℕ) → AllDigits ds → length ds ≡ 15 → luhn_verify (ds ++ luhn_checksum ds ∷ []) ≡ true
unfolding luhn_checksum parity_even
luhn_verify-checksum ds digits n =
    luhn_verify_of_sum (ds ++ luhn_checksum ds ∷ [])
      (All-append _ ds (luhn_checksum ds ∷ []) digits (omega arith))
      (omega (arith, length-append ds (luhn_checksum ds ∷ [])))
      (omega (
        arith,
        luhn_sum-append true ds (luhn_checksum ds ∷ []),
        last_value,
        ap (luhn_sum true) (take_all 15 ds (omega arith)),
      ))
  where
    odd : parity_after true ds ≡ false
    odd = parity_after-length true ds ∙ ap (λ k. if parity_even k then true else false) n

    last_value : luhn_sum (parity_after true ds) (luhn_checksum ds ∷ []) ≡ luhn_checksum ds
    last_value = rw odd (omega arith)

-- How many random bytes are usable.
abbrev pub usable : List ℕ → ℕ
usable [] = 0
usable (b ∷ buf) = (if ltb b 250 then 1 else 0) + usable buf

abbrev pub usable_in : List (List ℕ) → ℕ
usable_in [] = 0
usable_in (buf ∷ bufs) = usable buf + usable_in bufs

push_digits_lem :
    (buf digits : List ℕ)
    → AllDigits digits
    → length digits ≤ 15
    → AllDigits (push_digits buf digits)
      × (length (push_digits buf digits) ≡ min 15 (length digits + usable buf))
unfolding push_digits
push_digits_lem [] digits h n = (h, omega arith)
push_digits_lem (b ∷ buf) digits h n = ground (
  arith,
  push_digits_lem buf digits h n,
  All-append (λ d. d ≤ 9) digits (b % 10 ∷ []) h (omega arith),
  length-append digits (b % 10 ∷ []),
  push_digits_lem buf (digits ++ (b % 10) ∷ []),
)

-- The loop returns once the rounds have read fifteen usable bytes, with fifteen digits.
draw_digits_total :
    (bufs : List (List ℕ)) (digits : List ℕ)
    → AllDigits digits
    → length digits ≤ 15
    → 15 ≤ length digits + usable_in bufs
    → (ds : List ℕ) × (draw_digits bufs digits ≡ some ds)
unfolding draw_digits
draw_digits_total [] digits h n enough = (digits, ground arith)
draw_digits_total (buf ∷ bufs) digits h n enough = elim (Bool-cases (ltb (length digits) 15)) [
  | inl more ↦
      let next = push_digits_lem buf digits h n in
      rw more (
        draw_digits_total bufs (push_digits buf digits) next.0 (omega (arith, next.1))
          (omega (arith, next.1)))
  | inr done ↦ (digits, rw done)
]

draw_digits_sound :
    (bufs : List (List ℕ)) (digits ds : List ℕ)
    → AllDigits digits
    → length digits ≤ 15
    → draw_digits bufs digits ≡ some ds
    → AllDigits ds × (length ds ≡ 15)
unfolding draw_digits
draw_digits_sound [] digits ds h n e = ground arith
draw_digits_sound (buf ∷ bufs) digits ds h n e =
    let next = push_digits_lem buf digits h n in
    ground (arith, next, draw_digits_sound bufs (push_digits buf digits) ds)

print_digits : (ds : List ℕ) → AllDigits ds → all is_ascii_digit (map (λ d. b'0' + d) ds) ≡ true
print_digits [] h = refl
print_digits (d ∷ ds) h = ground (arith, print_digits ds h.1)

read_digits : (ds : List ℕ) → map (λ b. b - b'0') (map (λ d. b'0' + d) ds) ≡ ds
read_digits [] = refl
read_digits (d ∷ ds) = ground (arith, read_digits ds)

printed-IsValid :
    (ds : List ℕ)
    → AllDigits ds
    → length ds ≡ 15
    → let raw = map (λ d. b'0' + d) (ds ++ luhn_checksum ds ∷ []) in
      (validate_oma_id raw ≡ true) × (length raw ≡ 16) × (normalize_oma_id raw ≡ raw)
unfolding luhn_checksum
printed-IsValid ds digits n = (
  validate_of_digits raw printed sixteen (rw (read_digits full) (luhn_verify-checksum ds digits n)),
  sixteen,
  keep_if-all is_ascii_digit raw printed,
)
  where
    full : List ℕ
    full = ds ++ luhn_checksum ds ∷ []

    raw : Text
    raw = map (λ d. b'0' + d) full

    printed : all is_ascii_digit raw ≡ true
    printed =
        print_digits full (All-append (λ d. d ≤ 9) ds (luhn_checksum ds ∷ []) digits (omega arith))

    sixteen : length raw ≡ 16
    sixteen =
        omega (arith, length-map full (λ d. b'0' + d), length-append ds (luhn_checksum ds ∷ []))

-- Every identifier that the generator returns is a valid OmaID of sixteen characters, all digits,
-- whatever random bytes it drew.
pub generate-IsValid :
    (bufs : List (List ℕ)) (raw : Text)
    → generate_raw_oma_id bufs ≡ some raw
    → (validate_oma_id raw ≡ true) × (length raw ≡ 16) × (normalize_oma_id raw ≡ raw)
unfolding generate_raw_oma_id
generate-IsValid bufs raw e = elim (Option-cases (draw_digits bufs [])) [
  | inl none_drawn ↦ ground (arith, none_drawn)
  | inr (ds, drawn) ↦
      let (digits, n) = draw_digits_sound bufs [] ds tt (omega arith) drawn in
      ground (arith, printed-IsValid ds digits n)
]

-- The generator returns as soon as its rounds have read fifteen bytes below 250.
pub generate_total :
    (bufs : List (List ℕ))
    → 15 ≤ usable_in bufs
    → (raw : Text) × (generate_raw_oma_id bufs ≡ some raw)
unfolding generate_raw_oma_id
generate_total bufs enough =
    let (ds, drawn) = draw_digits_total bufs [] tt (omega arith) (omega arith) in
    (map (λ d. b'0' + d) (ds ++ luhn_checksum ds ∷ []), ground arith)
