-- ===== src/SecureFile.antt =====
-- `write_secure_bytes` of src/main.rs on a directory of regular files: the bytes go to a temporary
-- file beside the target, which then takes the target's name.
use omarchy_omasend.Common.{
  ℕ, ◌≡◌, refl, Bool, true, false, List, ◌∷◌, ◌++◌, take, length, take_all, arith, ap, sym,
}
use omarchy_omasend.Common.Text.{Text, codes}

-- The files of a directory, the newest first.
abbrev pub Directory : Type 0
Directory = List (Text × List ℕ)

-- How far a call comes: it is done; it stops before the temporary file is made (no directory, an
-- unsafe target, no file); the write stops after some bytes; the sync fails; the rename fails, and the
-- temporary file is removed.
pub data WriteEnd : Type 0 where
  done refused not_synced not_renamed : WriteEnd
  cut_short : ℕ → WriteEnd

-- `.tmp_{name}_{pid}_{random}`; the last two parts are the suffix.
abbrev pub tmp_name : Text → Text → Text
tmp_name suffix name = codes ".tmp_" ++ (name ++ (codes "_" ++ suffix))

-- For a target that does not exist yet, as the callers that save received files choose it.
unfoldable pub write_secure_bytes : WriteEnd → Text → Text → List ℕ → Directory → Bool × Directory
write_secure_bytes done suffix name bytes dir = (true, (name, bytes) ∷ dir)
write_secure_bytes refused suffix name bytes dir = (false, dir)
write_secure_bytes (cut_short n) suffix name bytes dir =
    (false, (tmp_name suffix name, take n bytes) ∷ dir)
write_secure_bytes not_synced suffix name bytes dir = (false, (tmp_name suffix name, bytes) ∷ dir)
write_secure_bytes not_renamed suffix name bytes dir = (false, dir)

-- Nothing was added, or a temporary file with the first bytes of what was to be saved.
pub data Leaves (bytes : List ℕ) (before after : Directory) : Type 0 where
  same : after ≡ before → Leaves bytes before after
  temporary :
      (name : Text) (n : ℕ)
      → after ≡ (codes ".tmp_" ++ name, take n bytes) ∷ before
      → Leaves bytes before after

-- The file is there with all its bytes; or the call failed.
pub data Saves (name : Text) (bytes : List ℕ) (dir : Directory) (r : Bool × Directory)
    : Type 0 where
  whole : r ≡ (true, (name, bytes) ∷ dir) → Saves name bytes dir r
  fails : (left : Directory) → r ≡ (false, left) → Leaves bytes dir left → Saves name bytes dir r

pub write_secure_bytes-Saves :
    (end : WriteEnd) (suffix name : Text) (bytes : List ℕ) (dir : Directory)
    → Saves name bytes dir (write_secure_bytes end suffix name bytes dir)
unfolding write_secure_bytes
write_secure_bytes-Saves done suffix name bytes dir = whole refl
write_secure_bytes-Saves refused suffix name bytes dir = fails dir refl (same refl)
write_secure_bytes-Saves (cut_short n) suffix name bytes dir =
    fails ((tmp_name suffix name, take n bytes) ∷ dir) refl
      (temporary (name ++ (codes "_" ++ suffix)) n refl)
write_secure_bytes-Saves not_synced suffix name bytes dir =
    fails ((tmp_name suffix name, bytes) ∷ dir) refl (
      temporary (name ++ (codes "_" ++ suffix)) (length bytes) (
        ap (λ b. (tmp_name suffix name, b) ∷ dir)
          (sym (take_all (length bytes) bytes (omega arith)))))
write_secure_bytes-Saves not_renamed suffix name bytes dir = fails dir refl (same refl)
