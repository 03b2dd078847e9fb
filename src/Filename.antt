-- ===== src/Filename.antt =====
-- File names of received files in src/main.rs: cleaning a name that was sent, and finding one that is
-- not taken. `char::is_alphanumeric`, the printing of numbers and the clock are parameters.
pub mod Safe
mod Tests
use omarchy_omasend.Common.{
  ℕ, zero, suc, ◌+◌, ◌-◌, ◌≡◌, Bool, true, false, not, ◌&&◌, ◌||◌, List, [], ◌∷◌, ◌++◌, Option,
  none, some, ltb, leb, ◌==◌, if◌then◌else◌, keep_if, length,
}
use omarchy_omasend.Common.Text.{Text, codes, text_eq, trim, len, utf8}

pub record Deps : Type 0 where
  pub is_alphanumeric : ℕ → Bool
  pub show : ℕ → Text

-- The part before the last dot, and the part after it.
unfoldable pub last_dot : Text → Option (Text × Text)
last_dot [] = none
last_dot (c ∷ s) = elim (last_dot s) [
  | some (before, after) ↦ some (c ∷ before, after)
  | none ↦ if c == b'.' then some ([], s) else none
]

-- `Path::file_stem` and `Path::extension` of a name: a name whose only dot is its first character has
-- no extension.
unfoldable pub stem_and_extension : Text → Text × Text
stem_and_extension name = elim (last_dot name) [
  | none ↦ (name, [])
  | some (before, after) ↦ if text_eq before [] then (name, []) else (before, after)
]

unfoldable pub contains_dots : Text → Bool
contains_dots [] = false
contains_dots (c ∷ []) = false
contains_dots (c ∷ d ∷ s) = (c == b'.' && d == b'.') || contains_dots (d ∷ s)

abbrev pub starts_with_dot : Text → Bool
starts_with_dot [] = false
starts_with_dot (c ∷ s) = c == b'.'

-- `s[..n]` for a place that the text reaches; `none` is the panic inside a character.
unfoldable pub cut : ℕ → Text → Option Text
cut n [] = some []
cut n (c ∷ s) =
    let rest = cut (n - length (utf8 c)) s in
    if n == 0
    then some []
    else if ltb n (length (utf8 c))
    then none
    else elim rest [ none ↦ none | some t ↦ some (c ∷ t) ]

module _ (deps : Deps) where
  abbrev pub is_allowed : ℕ → Bool
  is_allowed c = deps.is_alphanumeric c || c == b'.' || c == b'-' || c == b'_' || c == b' '

  -- `none` is the panic of the slice.
  unfoldable pub sanitize_filename : ℕ → Text → Option Text
  sanitize_filename now_secs raw =
      let trimmed = trim (keep_if is_allowed raw) in
      if text_eq trimmed [] || starts_with_dot trimmed || contains_dots trimmed
      then some (codes "file_" ++ deps.show now_secs)
      else if ltb 180 (len trimmed)
      then cut 180 trimmed
      else some trimmed

  unfoldable pub candidate_name : Text → Text → ℕ → Text
  candidate_name stem ext i =
      if text_eq ext []
      then stem ++ codes "_" ++ deps.show i
      else stem ++ codes "_" ++ deps.show i ++ codes "." ++ ext

  -- The loop `for i in 1..1000`, by how many candidates are left.
  unfoldable pub first_free : (Text → Bool) → Text → Text → ℕ → Option Text
  first_free exists stem ext zero = none
  first_free exists stem ext (suc left) =
      let later = first_free exists stem ext left in
      let name = candidate_name stem ext (999 - left) in
      if not (exists name) then some name else later

  unfoldable pub get_unique_filepath : (Text → Bool) → ℕ → Text → Text
  get_unique_filepath exists now_millis filename =
      let (stem, ext) = stem_and_extension filename in
      if not (exists filename) then filename else elim (first_free exists stem ext 999) [
        | some name ↦ name
        | none ↦ stem ++ codes "_" ++ deps.show now_millis
      ]
