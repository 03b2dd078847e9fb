-- ===== src/Military/Shield/Keys.antt =====
-- The shield of src/military/crypto.rs finds the marker of a key wherever it stands.
use mathlib.Core.List.{reverse, reverse-append, reverse-reverse}
use omarchy_omasend.Common.{
  ℕ, ◌≡◌, refl, sym, ◌∙◌, ap, subst, Bool, true, false, not, ◌&&◌, List, [], ◌∷◌, ◌++◌, some, any,
  all, arith, Bool-cases, inl, inr, append_assoc,
}
use omarchy_omasend.Common.Text.{Text, text_eq, text_eq_iff, trim, trim_start, is_whitespace}
use omarchy_omasend.Discovery.{starts_with}
use omarchy_omasend.Http.{strip_prefix}
use omarchy_omasend.Military.Shield.{contains, key_markers, is_sensitive_clipboard_payload}

strip_prefix-append : (p b : Text) → strip_prefix p (p ++ b) ≡ some b
unfolding strip_prefix
strip_prefix-append [] b = refl
strip_prefix-append (c ∷ p) b = ground (arith, strip_prefix-append p b)

begins_with : (p b : Text) → starts_with p (p ++ b) ≡ true
begins_with p b = rw (strip_prefix-append p b, starts_with) refl

-- A text that has the pattern somewhere contains it.
contains-middle : (a : Text) (c : ℕ) (q b : Text) → contains (c ∷ q) (a ++ ((c ∷ q) ++ b)) ≡ true
unfolding contains
contains-middle [] c q b = rw (begins_with (c ∷ q) b) refl
contains-middle (x ∷ a) c q b = ground (arith, contains-middle a c q b)

trim_start-keeps :
    (a : Text) (c : ℕ) (q : Text)
    → is_whitespace c ≡ false
    → (a' : Text) × (trim_start (a ++ c ∷ q) ≡ a' ++ c ∷ q)
unfolding trim_start
trim_start-keeps [] c q h = ([], rw (h, trim_start) refl)
trim_start-keeps (x ∷ a) c q h = elim (Bool-cases (is_whitespace x)) [
  | inl t ↦ let (a', e) = trim_start-keeps a c q h in (a', rw (t, trim_start) e)
  | inr t ↦ (x ∷ a, rw (t, trim_start) refl)
]

reverse_three : (a p b : Text) → reverse (a ++ (p ++ b)) ≡ reverse b ++ (reverse p ++ reverse a)
reverse_three a p b =
    reverse-append a (p ++ b)
    ∙ ap (λ x. x ++ reverse a) (reverse-append p b)
    ∙ append_assoc (reverse b) (reverse p) (reverse a)

-- What begins and ends with a character that is no space survives trimming.
trim-keeps :
    (a p b : Text) (c d : ℕ) (q r : Text)
    → p ≡ c ∷ q
    → is_whitespace c ≡ false
    → reverse p ≡ d ∷ r
    → is_whitespace d ≡ false
    → (a' : Text) × (b' : Text) × (trim (a ++ (p ++ b)) ≡ a' ++ (p ++ b'))
unfolding trim
trim-keeps a p b c d q r e h f k =
    let (a', first) = trim_start-keeps a c (q ++ b) h in
    let (b', second) = trim_start-keeps (reverse b) d (r ++ reverse a') k in
    let first' : trim_start (a ++ (p ++ b)) ≡ a' ++ (p ++ b) =
      subst (λ x. trim_start (a ++ (x ++ b)) ≡ a' ++ (x ++ b)) (sym e) first in
    let second' : trim_start (reverse b ++ (reverse p ++ reverse a'))
        ≡ b' ++ (reverse p ++ reverse a') =
      subst (λ x. trim_start (reverse b ++ (x ++ reverse a')) ≡ b' ++ (x ++ reverse a')) (sym f)
        second in
    (
      a',
      reverse b',
      ap (λ x. reverse (trim_start (reverse x))) first'
          ∙ ap (λ x. reverse (trim_start x)) (reverse_three a' p b)
          ∙ ap reverse second'
          ∙ reverse_three b' (reverse p) (reverse a')
          ∙ rw (reverse-reverse a', reverse-reverse p) refl,
    )

-- A pattern that begins and ends with a character that is no space.
abbrev pub is_solid : Text → Bool
is_solid [] = false
is_solid (c ∷ q) =
    not (is_whitespace c) && elim (reverse (c ∷ q)) [ [] ↦ false | d ∷ r ↦ not (is_whitespace d) ]

solid_markers : all is_solid key_markers ≡ true
unfolding is_whitespace
solid_markers = refl

both : {a b : Bool} → (a && b) ≡ true → (a ≡ true) × (b ≡ true)
both {a} {b} e = ground arith

member_solid :
    (ms : List Text) (m : Text)
    → all is_solid ms ≡ true
    → any (λ k. text_eq k m) ms ≡ true
    → is_solid m ≡ true
member_solid [] m h k = absurd (cc k)
member_solid (x ∷ ms) m h k = elim (Bool-cases (text_eq x m)) [
  | inl t ↦ subst (λ y. is_solid y ≡ true) ((text_eq_iff x m).0 t) (both {a = is_solid x} h).0
  | inr t ↦ member_solid ms m (both {a = is_solid x} h).1 (rw t at k)
]

member_found :
    (ms : List Text) (m t : Text)
    → any (λ k. text_eq k m) ms ≡ true
    → contains m t ≡ true
    → any (λ k. contains k t) ms ≡ true
member_found [] m t h k = absurd (cc h)
member_found (x ∷ ms) m t h k = elim (Bool-cases (text_eq x m)) [
  | inl e ↦ rw ((text_eq_iff x m).0 e, k) refl
  | inr e ↦ ground (arith, member_found ms m t (rw e at h) k)
]

not-true : (b : Bool) → not b ≡ true → b ≡ false
not-true b h = ground arith

last_solid :
    (s : Text)
    → elim s [ [] ↦ false | d ∷ r ↦ not (is_whitespace d) ] ≡ true
    → (d : ℕ) × (r : Text) × (s ≡ d ∷ r) × (is_whitespace d ≡ false)
last_solid [] h = absurd (cc h)
last_solid (d ∷ r) h = (d, r, refl, not-true (is_whitespace d) h)

solid-parts :
    (m : Text)
    → is_solid m ≡ true
    → (c : ℕ) × (q : Text) × (d : ℕ) × (r : Text) × (m ≡ c ∷ q)
      × (is_whitespace c ≡ false)
      × (reverse m ≡ d ∷ r)
      × (is_whitespace d ≡ false)
solid-parts [] h = absurd (cc h)
solid-parts (c ∷ q) h =
    let (first, last) = both {a = not (is_whitespace c)} h in
    let (d, r, f, k) = last_solid (reverse (c ∷ q)) last in
    (c, q, d, r, refl, not-true (is_whitespace c) first, f, k)

trimmed_contains :
    (m before after : Text) → is_solid m ≡ true → contains m (trim (before ++ (m ++ after))) ≡ true
trimmed_contains m before after h =
    let (c, q, d, r, e, first, f, last) = solid-parts m h in
    let (a', b', same) = trim-keeps before m after c d q r e first f last in
    rw same (subst (λ x. contains x (a' ++ (x ++ b')) ≡ true) (sym e) (contains-middle a' c q b'))

not_empty : (m t : Text) → contains m t ≡ true → text_eq t [] ≡ false
unfolding contains
not_empty m [] h = absurd (cc h)
not_empty m (c ∷ t) h = refl

-- A text that contains one of the five markers `BEGIN PRIVATE KEY`, `BEGIN RSA PRIVATE KEY`,
-- `BEGIN OPENSSH PRIVATE KEY`, `BEGIN PGP PRIVATE KEY` and `BEGIN CERTIFICATE` is sensitive, whatever
-- stands before and after it, spaces that are trimmed included.
pub shield_finds_keys :
    (m before after : Text)
    → any (λ k. text_eq k m) key_markers ≡ true
    → is_sensitive_clipboard_payload (before ++ (m ++ after)) ≡ true
unfolding is_sensitive_clipboard_payload
shield_finds_keys m before after h =
    let t = trim (before ++ (m ++ after)) in
    let inside = trimmed_contains m before after (member_solid key_markers m solid_markers h) in
    rw (not_empty m t inside, member_found key_markers m t h inside, is_sensitive_clipboard_payload)
      refl
