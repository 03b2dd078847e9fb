-- ===== src/Common/Text.antt =====
-- Text as the list of its code points, its UTF-8 bytes, and the `str` and `char` methods that the
-- code calls.
use Prim.Native.Char.{code}
use Prim.Native.String.{String}
use Prim.Native.Nat.{ℕ, ◌+◌, ◌/◌, ◌%◌, ◌≤◌}
use mathlib.Core.Path.{◌≡◌, refl}
use mathlib.Core.Bool.{Bool, true, false, ◌&&◌, ◌||◌}
use mathlib.Core.List.{List, [], ◌∷◌, ◌++◌, reverse, reverse_aux}
use mathlib.Core.Logic.{◌↔◌, inl, inr}
use native.Mathlib.Omega.{arith}
use omarchy_omasend.Common.Tests.{ltb, leb, ◌==◌, if◌then◌else◌, Bool-cases}
use omarchy_omasend.Common.Lists.{length, all, length-append}

abbrev pub Text : Type 0
Text = List ℕ

-- The code points of a literal.
abbrev pub codes : String → Text
codes String.[] = []
codes (String.◌∷◌ c s) = code c ∷ codes s

-- `a == b` on strings.
abbrev pub text_eq : Text → Text → Bool
text_eq [] [] = true
text_eq [] (y ∷ ys) = false
text_eq (x ∷ xs) [] = false
text_eq (x ∷ xs) (y ∷ ys) = x == y && text_eq xs ys

pub text_eq_iff : (s t : Text) → (text_eq s t ≡ true) ↔ (s ≡ t)
text_eq_iff [] [] = (λ h. refl, λ h. refl)
text_eq_iff [] (y ∷ ys) = (λ h. cc, λ h. cc)
text_eq_iff (x ∷ xs) [] = (λ h. cc, λ h. cc)
text_eq_iff (x ∷ xs) (y ∷ ys) =
    (λ h. ground (arith, (text_eq_iff xs ys).0), λ h. ground (arith, (text_eq_iff xs ys).1))

-- `char::is_ascii_digit`.
abbrev pub is_ascii_digit : ℕ → Bool
is_ascii_digit c = leb b'0' c && leb c b'9'

-- `char::is_control`: the general category Cc.
abbrev pub is_control : ℕ → Bool
is_control c = ltb c 32 || (leb 127 c && ltb c 160)

-- `char::is_whitespace`: the property White_Space.
unfoldable pub is_whitespace : ℕ → Bool
is_whitespace c =
    (leb 9 c && leb c 13)
    || c == 32
    || c == 0x85
    || c == 0xa0
    || c == 0x1680
    || (leb 0x2000 c && leb c 0x200a)
    || c == 0x2028
    || c == 0x2029
    || c == 0x202f
    || c == 0x205f
    || c == 0x3000

-- The UTF-8 bytes of a character.
unfoldable pub utf8 : ℕ → List ℕ
utf8 c =
    if ltb c 0x80
    then c ∷ []
    else if ltb c 0x800
    then (0xc0 + c / 64) ∷ (0x80 + c % 64) ∷ []
    else if ltb c 0x10000
    then (0xe0 + c / 4096) ∷ (0x80 + c / 64 % 64) ∷ (0x80 + c % 64) ∷ []
    else (0xf0 + c / 262144) ∷ (0x80 + c / 4096 % 64) ∷ (0x80 + c / 64 % 64) ∷ (0x80 + c % 64) ∷ []

-- `str::as_bytes`.
unfoldable pub as_bytes : Text → List ℕ
unfolding utf8
as_bytes [] = []
as_bytes (c ∷ s) = utf8 c ++ as_bytes s

-- `str::len` counts bytes.
abbrev pub len : Text → ℕ
len s = length (as_bytes s)

-- `str::trim`.
unfoldable pub trim_start : Text → Text
trim_start [] = []
trim_start (c ∷ s) = if is_whitespace c then trim_start s else c ∷ s

unfoldable pub trim : Text → Text
unfolding trim_start is_whitespace
trim s = reverse (trim_start (reverse (trim_start s)))

-- A text of decimal digits is its own bytes.
pub as_bytes_digits : (s : Text) → all is_ascii_digit s ≡ true → as_bytes s ≡ s
unfolding as_bytes
as_bytes_digits [] h = refl
as_bytes_digits (c ∷ s) h = ground (arith, as_bytes_digits s)

pub utf8-nonempty : (c : ℕ) → 1 ≤ length (utf8 c)
unfolding utf8
utf8-nonempty c = ground arith

-- A text has at least as many bytes as characters.
pub length-le-len : (s : Text) → length s ≤ len s
unfolding as_bytes
length-le-len [] = omega arith
length-le-len (c ∷ s) =
    omega (arith, length-append (utf8 c) (as_bytes s), length-le-len s, utf8-nonempty c)

all-trim_start : (p : ℕ → Bool) (s : Text) → all p s ≡ true → all p (trim_start s) ≡ true
unfolding trim_start
all-trim_start p [] h = refl
all-trim_start p (c ∷ s) h = ground (arith, all-trim_start p s)

all-reverse_aux :
    (p : ℕ → Bool) (s acc : Text)
    → all p s ≡ true
    → all p acc ≡ true
    → all p (reverse_aux s acc) ≡ true
all-reverse_aux p [] acc h k = k
all-reverse_aux p (c ∷ s) acc h k = elim (Bool-cases (p c)) [
  | inl t ↦ all-reverse_aux p s (c ∷ acc) (rw t at h) (rw t k)
  | inr t ↦ absurd (cc (rw t at h))
]

all-reverse : (p : ℕ → Bool) (s : Text) → all p s ≡ true → all p (reverse s) ≡ true
all-reverse p s h = all-reverse_aux p s [] h refl

-- Trimming only drops characters.
pub all-trim : (p : ℕ → Bool) (s : Text) → all p s ≡ true → all p (trim s) ≡ true
unfolding trim
all-trim p s h = all-reverse p (trim_start (reverse (trim_start s))) (
    all-trim_start p (reverse (trim_start s)) (all-reverse p (trim_start s) (all-trim_start p s h)))
