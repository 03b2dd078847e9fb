-- ===== src/ImageHeader/Tests.antt =====
-- The theorems about image headers of src/main.rs at the header of a PNG of 2 by 3.
use omarchy_omasend.Common.{ℕ, ◌≡◌, ◌≤◌, refl, List, [], ◌∷◌, ◌++◌, some, ok, false, length}
use omarchy_omasend.Common.Text.{codes}
use omarchy_omasend.ImageHeader.{
  image_png, max_image_clip_size, any_window, has_script, png_signature, validate_image_header,
  sized, png_header, eq_ignore_ascii_case,
}
use omarchy_omasend.ImageHeader.Bounds.{HasMagic, validate_sound}

abbrev sample : List ℕ
sample =
    png_signature ++ (0 ∷ 0 ∷ 0 ∷ 13 ∷ []) ++ codes "IHDR" ++ (0 ∷ 0 ∷ 0 ∷ 2 ∷ 0 ∷ 0 ∷ 0 ∷ 3 ∷ [])

sample_accepted : validate_image_header sample ≡ some (ok (image_png, 2, 3))
unfolding validate_image_header has_script any_window eq_ignore_ascii_case png_header sized
sample_accepted = refl

validate_sound_example :
    (length sample ≤ max_image_clip_size)
    × (has_script sample ≡ false)
    × HasMagic image_png sample
    × (◌≤◌ 1 2)
    × (◌≤◌ 2 8192)
    × (◌≤◌ 1 3)
    × (◌≤◌ 3 8192)
validate_sound_example = validate_sound sample image_png 2 3 sample_accepted
