-- ===== src/Clipboard/Limits.antt =====
-- The limits that `cleanup_clip_staging` of src/main.rs keeps.
use omarchy_omasend.Common.{ℕ, ◌+◌, ◌≤◌, List, [], ◌∷◌, length, arith, keep_if}
use omarchy_omasend.Common.Text.{Text}
use omarchy_omasend.Clipboard.{
  Entry, hash_of, is_collected, sort_newest, sweep, cleanup_clip_staging, max_clip_staging_bytes,
  max_clip_staging_files,
}

abbrev pub total_size_of : List Entry → ℕ
total_size_of [] = 0
total_size_of (e ∷ es) = e.size + total_size_of es

sweep_limits :
    (es : List Entry) (total_size kept_count : ℕ) (kept_hashes : List Text)
    → total_size ≤ max_clip_staging_bytes
    → kept_count ≤ max_clip_staging_files
    → (total_size + total_size_of (sweep es total_size kept_count kept_hashes)
        ≤ max_clip_staging_bytes)
      × (kept_count + length (sweep es total_size kept_count kept_hashes) ≤ max_clip_staging_files)
unfolding sweep
sweep_limits [] t k hs p q = (omega arith, omega arith)
sweep_limits (e ∷ es) t k hs p q = ground (
  arith,
  sweep_limits es t k hs p q,
  sweep_limits es (t + e.size) (k + 1) hs,
  sweep_limits es (t + e.size) (k + 1) (hash_of e ∷ hs),
)

-- Whatever the directory holds, what is kept of its regular files is at most 20 files of 50 MiB
-- together.
pub cleanup_limits :
    (now : ℕ) (entries : List Entry)
    → (total_size_of (cleanup_clip_staging now entries) ≤ max_clip_staging_bytes)
      × (length (cleanup_clip_staging now entries) ≤ max_clip_staging_files)
unfolding cleanup_clip_staging
cleanup_limits now entries =
    let r =
      sweep_limits (sort_newest (keep_if (is_collected now) entries)) 0 0 [] (omega arith)
        (omega arith) in
    (omega (arith, r.0), omega (arith, r.1))
