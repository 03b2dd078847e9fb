-- ===== src/Clipboard.antt =====
-- The clipboard of src/main.rs: which bytes count as text, and `cleanup_clip_staging`, which keeps the
-- staged images within their limits. The UTF-8 decoder is a parameter.
pub mod Limits
use omarchy_omasend.Common.{
  ℕ, zero, suc, ◌+◌, ◌-◌, ◌*◌, ◌≤◌, ◌≡◌, Bool, true, false, not, ◌&&◌, ◌||◌, List, [], ◌∷◌, ◌++◌,
  map, Option, none, some, ltb, leb, ◌==◌, if◌then◌else◌, any, keep_if, length, take,
}
use omarchy_omasend.Common.Text.{Text, codes, text_eq, trim, is_control}
use omarchy_omasend.Common.Bytes.{slice}
use omarchy_omasend.Filename.{stem_and_extension}
use omarchy_omasend.Http.{strip_prefix}

abbrev pub begins : List ℕ → List ℕ → Bool
begins pattern bytes = text_eq (take (length pattern) bytes) pattern

-- PNG, JPEG, GIF, ELF or WebP.
unfoldable pub has_binary_signature : List ℕ → Bool
has_binary_signature bytes =
    begins (0x89 ∷ codes "PNG") bytes
    || begins (0xff ∷ 0xd8 ∷ 0xff ∷ []) bytes
    || begins (codes "GIF8") bytes
    || begins (0x7f ∷ codes "ELF") bytes
    || (leb 12 (length bytes)
        && text_eq (slice bytes 0 4) (codes "RIFF")
        && text_eq (slice bytes 8 4) (codes "WEBP"))

abbrev pub is_odd_control : ℕ → Bool
is_odd_control c = is_control c && not (c == 10) && not (c == 13) && not (c == 9)

unfoldable pub is_valid_text_clipboard : (List ℕ → Option Text) → List ℕ → Option Text
is_valid_text_clipboard from_utf8 bytes =
    if length bytes == 0
    then none
    else if has_binary_signature bytes
    then none
    else if any (λ b. b == 0) (take 2048 bytes)
    then none
    else elim (from_utf8 bytes) [
      | none ↦ none
      | some s ↦
          if text_eq (trim s) []
          then none
          else if ltb 2 (length (keep_if is_odd_control (take 200 (trim s))))
          then none
          else some (trim s)
    ]

abbrev pub max_clip_staging_bytes : ℕ
max_clip_staging_bytes = 50 * 1024 * 1024

abbrev pub max_clip_staging_files : ℕ
max_clip_staging_files = 20

-- An entry of the staging directory.
pub data EntryKind : Type 0 where
  symlink regular other : EntryKind

pub record Entry : Type 0 where
  pub name : Text
  pub kind : EntryKind
  pub size : ℕ
  pub modified : ℕ

abbrev pub thumb_suffix : Text
thumb_suffix = codes "_thumb.webp"

-- The text without the suffix, if it ends with it.
pub strip_suffix : Text → Text → Option Text
strip_suffix suffix [] = none
strip_suffix suffix (c ∷ s) =
    if text_eq (c ∷ s) suffix
    then some []
    else elim (strip_suffix suffix s) [ none ↦ none | some t ↦ some (c ∷ t) ]

-- `trim_end_matches`: each round drops the suffix once more, so as many rounds as there are
-- characters are enough.
pub trim_end_matches : ℕ → Text → Text → Text
trim_end_matches zero suffix s = s
trim_end_matches (suc rounds) suffix s = elim (strip_suffix suffix s) [
  | none ↦ s
  | some t ↦ trim_end_matches rounds suffix t
]

pub is_thumb : Entry → Bool
is_thumb e = elim (strip_suffix thumb_suffix e.name) [ none ↦ false | some t ↦ true ]

pub hash_of : Entry → Text
hash_of e =
    if is_thumb e
    then trim_end_matches (length e.name) thumb_suffix e.name
    else (stem_and_extension e.name).0

-- A temporary file of more than ten seconds, by a clock in seconds; one of the future stays.
pub is_stale_temporary : ℕ → Entry → Bool
is_stale_temporary now e = elim (strip_prefix (codes ".tmp_") e.name) [
  | none ↦ false
  | some t ↦ leb e.modified now && ltb 10 (now - e.modified)
]

-- The entries that are collected in the first loop; symbolic links and stale temporary files are
-- removed, and what is neither is left alone.
pub is_collected : ℕ → Entry → Bool
is_collected now e = elim e.kind [
  | symlink ↦ false
  | other ↦ false
  | regular ↦ not (is_stale_temporary now e)
]

-- `sort_by_key(Reverse(modified))`, which is stable.
pub insert_newest : Entry → List Entry → List Entry
insert_newest x [] = x ∷ []
insert_newest x (y ∷ ys) = if ltb x.modified y.modified then y ∷ insert_newest x ys else x ∷ y ∷ ys

pub sort_newest : List Entry → List Entry
sort_newest [] = []
sort_newest (x ∷ xs) = insert_newest x (sort_newest xs)

-- The second loop: the entries that are kept, given what was kept before.
pub sweep : List Entry → ℕ → ℕ → List Text → List Entry
sweep [] total_size kept_count kept_hashes = []
sweep (e ∷ es) total_size kept_count kept_hashes =
    let fits =
      ltb kept_count max_clip_staging_files && leb (total_size + e.size) max_clip_staging_bytes in
    let skipped = sweep es total_size kept_count kept_hashes in
    let as_thumb = sweep es (total_size + e.size) (kept_count + 1) kept_hashes in
    let as_image = sweep es (total_size + e.size) (kept_count + 1) (hash_of e ∷ kept_hashes) in
    if not (is_thumb e)
    then (if fits then e ∷ as_image else skipped)
    else (if any (text_eq (hash_of e)) kept_hashes && fits then e ∷ as_thumb else skipped)

-- The collected entries that `cleanup_clip_staging` keeps. (An image that is not kept
-- takes the thumbnail's file of its hash with it, which only removes more.)
pub cleanup_clip_staging : ℕ → List Entry → List Entry
cleanup_clip_staging now entries = sweep (sort_newest (keep_if (is_collected now) entries)) 0 0 []
