-- ===== src/OmaId/Format.antt =====
-- Normalising and formatting of OmaIDs in src/rendezvous.rs.
use omarchy_omasend.Common.{
  ℕ, zero, suc, ◌≡◌, refl, ◌∙◌, ap, sym, Bool, true, [], ◌∷◌, ◌++◌, map, arith, ◌==◌, ◌-◌, length,
  take, drop, all, keep_if-append, keep_if-all, all-keep_if, Bool-cases, inl, inr, length-drop,
  take-append-drop, take_all, drop-drop,
}
use omarchy_omasend.Common.Text.{Text, is_ascii_digit, len, as_bytes_digits}
use omarchy_omasend.OmaId.{luhn_verify, normalize_oma_id, format_oma_id, validate_oma_id}

pub len-normalize : (s : Text) → len (normalize_oma_id s) ≡ length (normalize_oma_id s)
len-normalize s = ap length (as_bytes_digits (normalize_oma_id s) (all-keep_if is_ascii_digit s))

pub normalize_idem : (s : Text) → normalize_oma_id (normalize_oma_id s) ≡ normalize_oma_id s
normalize_idem s = keep_if-all is_ascii_digit (normalize_oma_id s) (all-keep_if is_ascii_digit s)

all-take : (p : ℕ → Bool) (n : ℕ) (s : Text) → all p s ≡ true → all p (take n s) ≡ true
all-take p zero s h = refl
all-take p (suc n) [] h = refl
all-take p (suc n) (c ∷ s) h = ground (arith, all-take p n s)

all-drop : (p : ℕ → Bool) (n : ℕ) (s : Text) → all p s ≡ true → all p (drop n s) ≡ true
all-drop p zero s h = h
all-drop p (suc n) [] h = refl
all-drop p (suc n) (c ∷ s) h = ground (arith, all-drop p n s)

-- The four blocks of four spell the sixteen digits.
blocks :
    (s : Text)
    → length s ≡ 16
    → take 4 s ++ (take 4 (drop 4 s) ++ (take 4 (drop 8 s) ++ take 4 (drop 12 s))) ≡ s
blocks s h =
    ap (λ t. take 4 s ++ (take 4 (drop 4 s) ++ (take 4 (drop 8 s) ++ t)))
      (take_all 4 (drop 12 s) (omega (arith, length-drop 12 s)))
    ∙ (ap (λ t. take 4 s ++ (take 4 (drop 4 s) ++ t))
          (ap (λ t. take 4 (drop 8 s) ++ t) (sym (drop-drop 4 8 12 s refl))
            ∙ take-append-drop 4 (drop 8 s))
        ∙ (ap (λ t. take 4 s ++ t)
              (ap (λ t. take 4 (drop 4 s) ++ t) (sym (drop-drop 4 4 8 s refl))
                ∙ take-append-drop 4 (drop 4 s))
            ∙ take-append-drop 4 s))

keep_block :
    (s rest : Text)
    → all is_ascii_digit s ≡ true
    → normalize_oma_id (s ++ b'-' ∷ rest) ≡ s ++ normalize_oma_id rest
keep_block s rest h =
    keep_if-append is_ascii_digit s (b'-' ∷ rest)
    ∙ ap (λ t. t ++ normalize_oma_id rest) (keep_if-all is_ascii_digit s h)

-- Formatting loses nothing: the digits of a formatted identifier are those of the given text,
-- whatever it was.
pub normalize-format : (s : Text) → normalize_oma_id (format_oma_id s) ≡ normalize_oma_id s
unfolding format_oma_id
normalize-format s = elim (Bool-cases (len (normalize_oma_id s) == 16)) [
  | inl e ↦ rw e (
      grouped (normalize_oma_id s) (all-keep_if is_ascii_digit s) (ground (arith, len-normalize s)))
  | inr e ↦ rw e (normalize_idem s)
]
  where
    grouped :
        (n : Text)
        → all is_ascii_digit n ≡ true
        → length n ≡ 16
        → normalize_oma_id (
            take 4 n
            ++ b'-'
              ∷ (take 4 (drop 4 n) ++ b'-' ∷ (take 4 (drop 8 n) ++ b'-' ∷ take 4 (drop 12 n))))
          ≡ n
    grouped n d h =
        let part =
          λ (k : ℕ). all-take is_ascii_digit 4 (drop k n) (all-drop is_ascii_digit k n d) in
        rw
          (
            keep_block (take 4 n) _ (part 0),
            keep_block (take 4 (drop 4 n)) _ (part 4),
            keep_block (take 4 (drop 8 n)) _ (part 8),
            keep_if-all is_ascii_digit (take 4 (drop 12 n)) (part 12),
          )
          (blocks n h)

-- So formatting changes neither which identifiers are valid nor, done again, the text itself.
pub validate-format :
    (s : Text)
    → (validate_oma_id (format_oma_id s) ≡ validate_oma_id s)
      × (format_oma_id (format_oma_id s) ≡ format_oma_id s)
unfolding validate_oma_id format_oma_id
validate-format s = (rw (normalize-format s), rw (normalize-format s))

-- A valid identifier has sixteen digits.
pub validate-length : (s : Text) → validate_oma_id s ≡ true → length (normalize_oma_id s) ≡ 16
unfolding validate_oma_id
validate-length s h = ground (arith, len-normalize s)

pub validate_of_digits :
    (s : Text)
    → all is_ascii_digit s ≡ true
    → length s ≡ 16
    → luhn_verify (map (λ b. b - b'0') s) ≡ true
    → validate_oma_id s ≡ true
unfolding validate_oma_id
validate_of_digits s digits n h =
    rw (keep_if-all is_ascii_digit s digits) (ground (arith, ap length (as_bytes_digits s digits)))
