-- ===== src/Filename/Tests.antt =====
-- The theorems about file names of src/main.rs at one name, with letters of ASCII only.
use omarchy_omasend.Common.{
  ◌+◌, ◌%◌, ◌≤◌, ◌≡◌, refl, Bool, true, ◌||◌, ◌&&◌, leb, [], ◌∷◌, ◌++◌, some, all, ◌⊎◌,
}
use omarchy_omasend.Common.Text.{Text, codes, text_eq, len, as_bytes, trim}
use omarchy_omasend.Filename.{Deps, is_allowed, cut, sanitize_filename, contains_dots}
use omarchy_omasend.Filename.Safe.{sanitize_filename_safe}

abbrev sample_deps : Deps
sample_deps = record {
  is_alphanumeric =
      λ c. (leb b'0' c && leb c b'9') || (leb b'a' c && leb c b'z') || (leb b'A' c && leb c b'Z');
  show = λ n. (b'0' + n % 10) ∷ [];
}

cleaned : sanitize_filename sample_deps 5 (codes " ../My photo?.png ") ≡ some (codes "file_5")
unfolding sanitize_filename trim contains_dots
cleaned = refl

kept :
    sanitize_filename sample_deps 5 (codes "/tmp/My photo?.png ") ≡ some (codes "tmpMy photo.png")
unfolding sanitize_filename trim contains_dots as_bytes cut
kept = refl

sanitize_filename_safe_example :
    (codes "tmpMy photo.png" ≡ codes "file_" ++ sample_deps.show 5)
    ⊎ ((all (is_allowed sample_deps) (codes "tmpMy photo.png") ≡ true)
        × (len (codes "tmpMy photo.png") ≤ 180))
sanitize_filename_safe_example =
    sanitize_filename_safe sample_deps 5 (codes "/tmp/My photo?.png ") (codes "tmpMy photo.png")
      kept

abbrev taken : Text → Bool
taken name = text_eq name (codes "a.png") || text_eq name (codes "a_1.png")
