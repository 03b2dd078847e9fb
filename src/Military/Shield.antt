-- ===== src/Military/Shield.antt =====
-- `is_sensitive_clipboard_payload` of src/military/crypto.rs.
pub mod Keys
use omarchy_omasend.Common.{
  ℕ, ◌+◌, ◌≡◌, refl, sym, ◌∙◌, ap, subst, Bool, true, false, not, ◌&&◌, ◌||◌, List, [], ◌∷◌, ◌++◌,
  Option, none, some, leb, ◌==◌, if◌then◌else◌, length, any, all, arith, Bool-cases, inl, inr,
  append_assoc,
}
use mathlib.Core.List.{reverse, reverse-append, reverse-reverse}
use omarchy_omasend.Common.Text.{
  Text, codes, text_eq, text_eq_iff, trim, trim_start, is_whitespace, is_ascii_digit, len,
}
use omarchy_omasend.Discovery.{starts_with}
use omarchy_omasend.Http.{strip_prefix}
use omarchy_omasend.Http.Headers.{words_from}

-- `s.contains(pattern)`, for a pattern that is not empty.
unfoldable pub contains : Text → Text → Bool
contains pattern [] = false
contains pattern (c ∷ s) = starts_with pattern (c ∷ s) || contains pattern s

abbrev pub contains_char : ℕ → Text → Bool
contains_char c s = any (λ d. d == c) s

abbrev pub count_char : ℕ → Text → ℕ
count_char c [] = 0
count_char c (d ∷ s) = (if d == c then 1 else 0) + count_char c s

abbrev pub is_ascii_lowercase : ℕ → Bool
is_ascii_lowercase c = leb b'a' c && leb c b'z'

abbrev pub is_ascii_uppercase : ℕ → Bool
is_ascii_uppercase c = leb b'A' c && leb c b'Z'

abbrev pub key_markers : List Text
key_markers =
    codes "BEGIN PRIVATE KEY"
    ∷ codes "BEGIN RSA PRIVATE KEY"
    ∷ codes "BEGIN OPENSSH PRIVATE KEY"
    ∷ codes "BEGIN PGP PRIVATE KEY"
    ∷ codes "BEGIN CERTIFICATE"
    ∷ []

abbrev pub token_prefixes : List Text
token_prefixes =
    codes "ghp_"
    ∷ codes "gho_"
    ∷ codes "ghu_"
    ∷ codes "ghs_"
    ∷ codes "glpat-"
    ∷ codes "sk_live_"
    ∷ codes "rk_live_"
    ∷ codes "AIzaSy"
    ∷ codes "AKIA"
    ∷ codes "ASIA"
    ∷ codes "xoxb-"
    ∷ codes "xoxp-"
    ∷ []

unfoldable pub is_token : Text → Bool
is_token t =
    any (λ p. starts_with p t) token_prefixes
    || (starts_with (codes "eyJ") t && contains_char b'.' t && count_char b'.' t == 2)

-- Twelve or twenty-four words of small letters.
unfoldable pub is_mnemonic : Text → Bool
unfolding words_from
is_mnemonic t =
    let words = words_from [] t in
    (length words == 12 || length words == 24) && all (λ w. all is_ascii_lowercase w) words

abbrev pub special_characters : Text
special_characters = codes "!@#$%^&*()-_=+[]{}|;:,<>?"

-- One word of 20 to 128 bytes with a capital and a small letter, a digit and a special character.
unfoldable pub is_password : Text → Bool
is_password t =
    not (contains_char b' ' t)
    && not (contains_char 10 t)
    && not (contains_char b'/' t)
    && not (contains_char b'.' t)
    && leb 20 (len t)
    && leb (len t) 128
    && any is_ascii_uppercase t
    && any is_ascii_lowercase t
    && any is_ascii_digit t
    && any (λ c. contains_char c special_characters) t

unfoldable pub is_sensitive_clipboard_payload : Text → Bool
is_sensitive_clipboard_payload text =
    let t = trim text in
    if text_eq t []
    then false
    else if any (λ m. contains m t) key_markers
    then true
    else if is_token t
    then true
    else if is_mnemonic t
    then true
    else is_password t
