-- ===== src/ImageHeader/Bounds.antt =====
-- What `validate_image_header` of src/main.rs accepts, and that it always answers.
use omarchy_omasend.Common.{
  ℕ, zero, suc, ◌+◌, ◌≤◌, ◌<◌, ◌≡◌, refl, sym, subst, Bool, true, false, ◌||◌, List, [], ◌∷◌,
  Option, some, ltb, ◌⊎◌, ◌==◌, if◌then◌else◌, length, take, Result, ok, err, min, arith,
  Bool-cases, inl, inr, length-take,
}
use omarchy_omasend.Common.Bytes.{byte_at, be32}
use omarchy_omasend.Common.Text.{codes}
use omarchy_omasend.ImageHeader.{
  ImageKind, image_png, image_jpeg, image_webp, ImageError, max_image_clip_size,
  eq_ignore_ascii_case, any_window, has_script, sized, png_header, png_empty, bad_jpeg, bad_webp,
  unsupported, JpegStep, leaves, goes_on, jpeg_segment, jpeg_step, jpeg_scan, jpeg_header,
  webp_size, is_webp, starts_with, png_signature, jpeg_signature, validate_image_header,
}

jpeg_segment_on :
    (bytes : List ℕ) (marker offset next : ℕ)
    → jpeg_segment bytes marker offset ≡ goes_on next
    → offset ≤ next
unfolding jpeg_segment
jpeg_segment_on bytes marker offset next h = ground arith

-- A round that goes on moves forward.
jpeg_step_on :
    (bytes : List ℕ) (offset next : ℕ) → jpeg_step bytes offset ≡ goes_on next → offset + 1 ≤ next
unfolding jpeg_step
jpeg_step_on bytes offset next h =
    ground (arith, jpeg_segment_on bytes (byte_at bytes (offset + 1)) (offset + 2) next)

step_cases :
    (s : JpegStep) → ((w : ℕ) × (h : ℕ) × (s ≡ leaves w h)) ⊎ ((next : ℕ) × (s ≡ goes_on next))
step_cases (leaves w h) = inl (w, h, refl)
step_cases (goes_on next) = inr (next, refl)

-- The loop ends within as many rounds as bytes are left.
jpeg_scan_total :
    (rounds : ℕ) (bytes : List ℕ) (offset : ℕ)
    → length bytes ≤ offset + rounds
    → (size : ℕ × ℕ) × (jpeg_scan rounds bytes offset ≡ some size)
unfolding jpeg_scan
jpeg_scan_total zero bytes offset h = ((0, 0), ground arith)
jpeg_scan_total (suc rounds) bytes offset h = elim (Bool-cases (ltb (offset + 3) (length bytes))) [
  | inr done ↦ ((0, 0), rw done refl)
  | inl more ↦ elim (step_cases (jpeg_step bytes offset)) [
    | inl (width, height, e) ↦ ((width, height), rw (more, e) refl)
    | inr (next, e) ↦
        let forward = jpeg_step_on bytes offset next e in
        let (size, found) = jpeg_scan_total rounds bytes next (omega arith) in
        (size, rw (more, e) found)
  ]
]

if_total :
    {A : Type 0} (b : Bool) {x y : Option A}
    → (a : A) × (x ≡ some a)
    → (a : A) × (y ≡ some a)
    → (a : A) × ((if b then x else y) ≡ some a)
if_total true p q = p
if_total false p q = q

jpeg_total :
    (bytes : List ℕ) → (r : Result (ImageKind × ℕ × ℕ) ImageError) × (jpeg_header bytes ≡ some r)
unfolding jpeg_header
jpeg_total bytes =
    let (size, found) = jpeg_scan_total (length bytes) bytes 2 (omega arith) in
    (sized image_jpeg bad_jpeg size.0 size.1, ground (arith, found))

-- The check always answers: the loop over JPEG segments ends within as many rounds as there are
-- bytes.
pub validate_total :
    (bytes : List ℕ)
    → (r : Result (ImageKind × ℕ × ℕ) ImageError) × (validate_image_header bytes ≡ some r)
unfolding validate_image_header
validate_total bytes =
    if_total (length bytes == 0) (_, refl)
      (if_total (ltb max_image_clip_size (length bytes)) (_, refl)
        (if_total (has_script bytes) (_, refl)
          (if_total (starts_with png_signature bytes) (_, refl)
            (if_total (starts_with jpeg_signature bytes) (jpeg_total bytes)
              (if_total (is_webp bytes) (_, refl) (_, refl))))))

-- The kind, by the first bytes.
abbrev pub HasMagic : ImageKind → List ℕ → Type 0
HasMagic image_png bytes = starts_with png_signature bytes ≡ true
HasMagic image_jpeg bytes = starts_with jpeg_signature bytes ≡ true
HasMagic image_webp bytes = is_webp bytes ≡ true

sized_ok :
    (kind k : ImageKind) (missing : ImageError) (width height w h : ℕ)
    → sized kind missing width height ≡ ok (k, w, h)
    → (k ≡ kind) × (1 ≤ w) × (w ≤ 8192) × (1 ≤ h) × (h ≤ 8192)
unfolding sized
sized_ok kind k missing width height w h e = ground arith

png_ok :
    (bytes : List ℕ) (k : ImageKind) (w h : ℕ)
    → png_header bytes ≡ ok (k, w, h)
    → (k ≡ image_png) × (1 ≤ w) × (w ≤ 8192) × (1 ≤ h) × (h ≤ 8192)
unfolding png_header
png_ok bytes k w h e =
    ground (arith, sized_ok image_png k png_empty (be32 bytes 16) (be32 bytes 20) w h)

jpeg_ok :
    (bytes : List ℕ) (k : ImageKind) (w h : ℕ)
    → jpeg_header bytes ≡ some (ok (k, w, h))
    → (k ≡ image_jpeg) × (1 ≤ w) × (w ≤ 8192) × (1 ≤ h) × (h ≤ 8192)
unfolding jpeg_header
jpeg_ok bytes k w h e =
    let (size, found) = jpeg_scan_total (length bytes) bytes 2 (omega arith) in
    sized_ok image_jpeg k bad_jpeg size.0 size.1 w h (ground (arith, found, e))

within : (n : ℕ) → ltb max_image_clip_size n ≡ false → n ≤ max_image_clip_size
within n h = ground arith

-- An accepted image has at most 10 MiB and none of the script markers that are looked for, begins
-- with the bytes of its kind, and is from 1 to 8192 wide and high.
pub validate_sound :
    (bytes : List ℕ) (kind : ImageKind) (width height : ℕ)
    → validate_image_header bytes ≡ some (ok (kind, width, height))
    → (length bytes ≤ max_image_clip_size)
      × (has_script bytes ≡ false)
      × HasMagic kind bytes
      × (1 ≤ width)
      × (width ≤ 8192)
      × (1 ≤ height)
      × (height ≤ 8192)
unfolding validate_image_header
validate_sound bytes kind width height e = elim (Bool-cases (length bytes == 0)) [
  | inl t0 ↦ absurd (cc (rw t0 at e))
  | inr t0 ↦ elim (Bool-cases (ltb max_image_clip_size (length bytes))) [
    | inl t1 ↦ absurd (cc (rw (t0, t1) at e))
    | inr t1 ↦ elim (Bool-cases (has_script bytes)) [
      | inl t2 ↦ absurd (cc (rw (t0, t1, t2) at e))
      | inr t2 ↦
          let r = by_format (rw (t0, t1, t2) at e) in
          (within (length bytes) t1, t2, r.0, r.1, r.2, r.3, r.4)
    ]
  ]
]
  where
    by_format :
        (if starts_with png_signature bytes
            then some (png_header bytes)
            else if starts_with jpeg_signature bytes
            then jpeg_header bytes
            else if is_webp bytes
            then some (sized image_webp bad_webp (webp_size bytes).0 (webp_size bytes).1)
            else some (err unsupported))
          ≡ some (ok (kind, width, height))
        → HasMagic kind bytes × (1 ≤ width) × (width ≤ 8192) × (1 ≤ height) × (height ≤ 8192)
    by_format f = elim (Bool-cases (starts_with png_signature bytes)) [
      | inl t3 ↦
          let r = png_ok bytes kind width height (cc (rw t3 at f)) in
          (subst (λ x. HasMagic x bytes) (sym (r.0)) t3, r.1, r.2, r.3, r.4)
      | inr t3 ↦ elim (Bool-cases (starts_with jpeg_signature bytes)) [
        | inl t4 ↦
            let r = jpeg_ok bytes kind width height (rw (t3, t4) at f) in
            (subst (λ x. HasMagic x bytes) (sym (r.0)) t4, r.1, r.2, r.3, r.4)
        | inr t4 ↦ elim (Bool-cases (is_webp bytes)) [
          | inl t5 ↦
              let r =
                sized_ok image_webp kind bad_webp (webp_size bytes).0 (webp_size bytes).1 width
                  height (cc (rw (t3, t4, t5) at f)) in
              (subst (λ x. HasMagic x bytes) (sym (r.0)) t5, r.1, r.2, r.3, r.4)
          | inr t5 ↦ absurd (cc (rw (t3, t4, t5) at f))
        ]
      ]
    ]

eq_ignore_length : (a b : List ℕ) → eq_ignore_ascii_case a b ≡ true → length a ≡ length b
unfolding eq_ignore_ascii_case
eq_ignore_length [] [] h = refl
eq_ignore_length [] (b ∷ bs) h = cc
eq_ignore_length (a ∷ xs) [] h = cc
eq_ignore_length (a ∷ xs) (b ∷ bs) h = ground (arith, eq_ignore_length xs bs)

-- A pattern that is shorter than the window is never found.
pub short_pattern_never_found :
    (n : ℕ) (pattern bytes : List ℕ) → length pattern < n → any_window n pattern bytes ≡ false
unfolding any_window
short_pattern_never_found n pattern [] h = refl
short_pattern_never_found n pattern (b ∷ bytes) h = ground (
  arith,
  eq_ignore_length (take n (b ∷ bytes)) pattern,
  length-take n (b ∷ bytes),
  short_pattern_never_found n pattern bytes h,
)

or_false_middle : (a b c d : Bool) → c ≡ false → (a || b || c || d) ≡ (a || b || d)
or_false_middle a b c d h = ground arith

-- The test for `<html` compares it with windows of eleven bytes, so it never answers yes: the test
-- for script content is that for the three other markers.
pub has_script_without_html :
    (bytes : List ℕ)
    → let preview = take (min (length bytes) 1024) bytes in
      has_script bytes ≡ (
        any_window 4 (codes "<svg") preview
        || any_window 5 (codes "<?xml") preview
        || any_window 7 (codes "<script") preview)
unfolding has_script
has_script_without_html bytes =
    let preview = take (min (length bytes) 1024) bytes in
    or_false_middle (any_window 4 (codes "<svg") preview) (any_window 5 (codes "<?xml") preview)
      (any_window 11 (codes "<html") preview) (any_window 7 (codes "<script") preview)
      (short_pattern_never_found 11 (codes "<html") preview (omega arith))
