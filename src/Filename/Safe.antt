-- ===== src/Filename/Safe.antt =====
-- What src/main.rs makes of a file name that was sent, and that it does not overwrite.
use omarchy_omasend.Common.{
  ℕ, zero, suc, ◌-◌, ◌≤◌, ◌≡◌, refl, ap, sym, ◌∙◌, subst, Bool, true, false, ◌||◌, [], ◌∷◌, ◌++◌,
  none, some, ltb, ◌==◌, keep_if, length, length-append, all, all-keep_if, arith, Bool-cases,
  Option-cases, inl, inr, ◌⊎◌,
}
use omarchy_omasend.Common.Text.{Text, codes, text_eq, trim, len, utf8, as_bytes, all-trim}
use omarchy_omasend.Filename.{
  Deps, is_allowed, cut, sanitize_filename, candidate_name, first_free, get_unique_filepath,
  starts_with_dot, contains_dots, stem_and_extension,
}

cut-cases :
    (n c : ℕ) (s t : Text)
    → cut n (c ∷ s) ≡ some t
    → (t ≡ [])
      ⊎ ((u : Text) × (t ≡ c ∷ u) × (cut (n - length (utf8 c)) s ≡ some u) × (length (utf8 c) ≤ n))
unfolding cut
cut-cases n c s t h = elim (Bool-cases (n == 0)) [
  | inl zero_left ↦ inl (cc (rw zero_left at h))
  | inr more ↦ elim (Bool-cases (ltb n (length (utf8 c)))) [
    | inl inside ↦ absurd (cc (rw (more, inside) at h))
    | inr fits ↦ elim (Option-cases (cut (n - length (utf8 c)) s)) [
      | inl e ↦ absurd (cc (rw (more, fits, e) at h))
      | inr (u, e) ↦ inr (u, cc (rw (more, fits, e) at h), e, ground (arith, fits))
    ]
  ]
]

all-cut : (p : ℕ → Bool) (n : ℕ) (s t : Text) → cut n s ≡ some t → all p s ≡ true → all p t ≡ true
all-cut p n [] t h k = unfold cut in ground arith
all-cut p n (c ∷ s) t h k = elim (cut-cases n c s t h) [
  | inl e ↦ rw e refl
  | inr (u, e, rest, fits) ↦ rw e (ground (arith, k, all-cut p (n - length (utf8 c)) s u rest))
]

len-cut : (n : ℕ) (s t : Text) → cut n s ≡ some t → len t ≤ n
unfolding as_bytes
len-cut n [] t h = unfold cut in ground arith
len-cut n (c ∷ s) t h = elim (cut-cases n c s t h) [
  | inl e ↦ rw e (omega arith)
  | inr (u, e, rest, fits) ↦ rw e (
      omega
        (arith, fits, length-append (utf8 c) (as_bytes u), len-cut (n - length (utf8 c)) s u rest))
]

within : (n : ℕ) → ltb 180 n ≡ false → n ≤ 180
within n h = ground arith

-- A cleaned name is the one made from the clock, or it has only characters that are letters, digits,
-- dots, dashes, underscores or spaces, and at most 180 bytes.
pub sanitize_filename_safe :
    (deps : Deps) (now_secs : ℕ) (raw name : Text)
    → sanitize_filename deps now_secs raw ≡ some name
    → (name ≡ codes "file_" ++ deps.show now_secs)
      ⊎ ((all (is_allowed deps) name ≡ true) × (len name ≤ 180))
unfolding sanitize_filename
sanitize_filename_safe deps now_secs raw name h =
    let trimmed = trim (keep_if (is_allowed deps) raw) in
    let clean =
      all-trim (is_allowed deps) (keep_if (is_allowed deps) raw)
        (all-keep_if (is_allowed deps) raw) in
    elim (Bool-cases (text_eq trimmed [] || starts_with_dot trimmed || contains_dots trimmed)) [
      | inl bad ↦ inl (cc (rw bad at h))
      | inr good ↦ elim (Bool-cases (ltb 180 (len trimmed))) [
        | inl long ↦
            let e : cut 180 trimmed ≡ some name = rw (good, long) at h in
            inr (all-cut (is_allowed deps) 180 trimmed name e clean, len-cut 180 trimmed name e)
        | inr short ↦
            let e : trimmed ≡ name = cc (rw (good, short) at h) in
            inr (
              subst (λ t. all (is_allowed deps) t ≡ true) e clean,
              subst (λ t. len t ≤ 180) e (within (len trimmed) short),
            )
      ]
    ]

first_free-free :
    (deps : Deps) (exists : Text → Bool) (stem ext : Text) (left : ℕ) (name : Text)
    → first_free deps exists stem ext left ≡ some name
    → exists name ≡ false
unfolding first_free
first_free-free deps exists stem ext zero name h = absurd (cc h)
first_free-free deps exists stem ext (suc left) name h =
    elim (Bool-cases (exists (candidate_name deps stem ext (999 - left)))) [
      | inl taken ↦ first_free-free deps exists stem ext left name (rw taken at h)
      | inr free ↦
          let e : candidate_name deps stem ext (999 - left) ≡ name = cc (rw free at h) in
          ap exists (sym e) ∙ free
    ]

-- The name that is chosen is not taken, or it is the one made from the clock, after the name and
-- all its 999 numbered variants were found taken.
pub get_unique_filepath_free :
    (deps : Deps) (exists : Text → Bool) (now_millis : ℕ) (filename : Text)
    → let name = get_unique_filepath deps exists now_millis filename in
      let (stem, ext) = stem_and_extension filename in
      (exists name ≡ false)
      ⊎ ((first_free deps exists stem ext 999 ≡ none)
          × (name ≡ stem ++ codes "_" ++ deps.show now_millis))
unfolding get_unique_filepath
get_unique_filepath_free deps exists now_millis filename =
    let (stem, ext) = stem_and_extension filename in
    elim (Bool-cases (exists filename)) [
      | inr free ↦ inl (ap exists (rw free refl) ∙ free)
      | inl taken ↦ elim (Option-cases (first_free deps exists stem ext 999)) [
        | inl e ↦ inr (e, rw (taken, e) refl)
        | inr (name, e) ↦
            inl (ap exists (rw (taken, e) refl) ∙ first_free-free deps exists stem ext 999 name e)
      ]
    ]
