-- ===== src/Transfer/Upload/Progress.antt =====
-- Sequences of uploads of src/main.rs to one transfer: every stored file leaves one file less.
use omarchy_omasend.Common.{
  ℕ, zero, suc, ◌+◌, ◌^◌, ◌<◌, ◌≡◌, refl, sym, ◌∙◌, ap, subst, Bool, true, false, ◌&&◌, List, [],
  ◌∷◌, map, Option, none, some, length, all, All, ◌==◌, arith,
}
use omarchy_omasend.Common.Text.{Text}
use mathlib.Core.Quot
use omarchy_omasend.Transfer.Model.{
  TransferFileInfo, PendingFileTransfer, save_pending_transfer, clear_pending_transfer,
}
use omarchy_omasend.Transfer.Upload.{
  Deps, Io, Upload, UploadReply, Server, or_default, is_in_pending, without_file, is_empty, settle,
  clean_filename, upload,
}
use omarchy_omasend.Transfer.Upload.Receipt.{is_stored, upload_sound}
use omarchy_omasend.Transfer.Upload.Remaining.{
  IsAligned, Bag, put, outstanding, without_file-IsAligned, without_file-outstanding,
  length-without_file,
}

-- pending_transfer.json can be written and removed.
abbrev pub IsFaultless : Io × Upload → Type 0
IsFaultless call = (call.0.writes_pending ≡ true) × (call.0.removes_pending ≡ true)

-- The transfer waits for `n` files, none meaning that it is cleared.
abbrev pub Waits : ℕ → Option PendingFileTransfer → Type 0
Waits zero o = o ≡ none
Waits (suc n) o =
    (p : PendingFileTransfer) × (o ≡ some p) × IsAligned p × (length p.file_names ≡ suc n)

both : {a b : Bool} → (a && b) ≡ true → (a ≡ true) × (b ≡ true)
both {a} {b} h = ground arith

-- The two lists are empty together.
both_empty :
    (fs : List TransferFileInfo) (names : List Text)
    → map (λ f. f.name) fs ≡ names
    → (is_empty names && is_empty fs) ≡ (length names == 0)
both_empty [] [] a = refl
both_empty [] (n ∷ names) a = absurd (cc a)
both_empty (f ∷ fs) [] a = absurd (cc a)
both_empty (f ∷ fs) (n ∷ names) a = ground arith

nil_of_length : (xs : List Text) → length xs ≡ 0 → xs ≡ []
nil_of_length [] h = refl
nil_of_length (x ∷ xs) h = absurd (cc h)

none_left : {o : Option PendingFileTransfer} (m : ℕ) → o ≡ none → Waits m o → m ≡ 0
none_left zero e w = refl
none_left (suc m) e (p, found, aligned, size) = absurd (cc (e, found))

positive : (n : ℕ) → (suc n == 0) ≡ false
positive n = ground arith

mk_bag : List Text → Bag
mk_bag xs = Quot.mk xs

-- What is left when the transfer without the file is `q`.
settle-cases :
    (io : Io) (clean : Text) (p : PendingFileTransfer) (file : Option PendingFileTransfer) (n : ℕ)
    → (io.writes_pending ≡ true) × (io.removes_pending ≡ true)
    → IsAligned (without_file clean p)
    → length (without_file clean p).file_names ≡ n
    → Waits n (settle io clean p file)
      × (outstanding (settle io clean p file) ≡ outstanding (some (without_file clean p)))
unfolding settle mk_bag outstanding save_pending_transfer clear_pending_transfer
settle-cases io clean p file zero ok a h =
    let q = without_file clean p in
    rw (both_empty q.files q.file_names a, h, ok.1, clear_pending_transfer)
      (refl, sym (ap mk_bag (nil_of_length q.file_names h)))
settle-cases io clean p file (suc n) ok a h =
    let q = without_file clean p in
    rw (both_empty q.files q.file_names a, h, positive n, ok.0, save_pending_transfer)
      ((q, refl, a, h), refl)

settle-Waits :
    (io : Io) (clean : Text) (p : PendingFileTransfer) (file : Option PendingFileTransfer) (n : ℕ)
    → (io.writes_pending ≡ true) × (io.removes_pending ≡ true)
    → IsAligned p
    → is_in_pending clean p ≡ true
    → length p.file_names ≡ suc n
    → Waits n (settle io clean p file)
      × (put clean (outstanding (settle io clean p file)) ≡ outstanding (some p))
settle-Waits io clean p file n ok a listed h =
    let (waits, same) =
      settle-cases io clean p file n ok (without_file-IsAligned clean p a)
        (omega (arith, h, length-without_file clean p a listed)) in
    (waits, ap (put clean) same ∙ without_file-outstanding clean p a listed)

abbrev pub put_all : List Text → Bag → Bag
put_all [] b = b
put_all (x ∷ xs) b = put x (put_all xs b)

module _ (deps : Deps) where
  abbrev pub run_uploads : List (Io × Upload) → Server deps → List UploadReply × Server deps
  run_uploads [] s = ([], s)
  run_uploads ((io, u) ∷ calls) s =
      let (reply, s') = upload deps io u s in
      let (replies, s'') = run_uploads calls s' in (reply ∷ replies, s'')

  -- The names that the calls give, cleaned.
  abbrev pub names_of : List (Io × Upload) → List Text
  names_of calls = map (λ c. or_default (clean_filename deps c.0 c.1.req)) calls

  -- One stored file of a transfer that waits for some.
  upload-Waits :
      (io : Io) (u : Upload) (s : Server deps) (n : ℕ)
      → s.world.staged_bytes < 2 ^ 64
      → (io.writes_pending ≡ true) × (io.removes_pending ≡ true)
      → Waits n s.pending
      → is_stored (upload deps io u s).0 ≡ true
      → (m : ℕ) × (n ≡ suc m)
        × Waits m (upload deps io u s).1.pending
        × (put
              (or_default (clean_filename deps io u.req))
              (outstanding (upload deps io u s).1.pending)
            ≡ outstanding s.pending)
        × ((upload deps io u s).1.world.staged_bytes ≡ s.world.staged_bytes)
  upload-Waits io u s zero small ok w h =
      let (clean, p, bytes, admitted, got) = upload_sound deps io u s small h in
      absurd (cc (w, admitted.waiting))
  upload-Waits io u s (suc m) small ok (q, e, aligned, size) h =
      let (clean, p, bytes, admitted, got) = upload_sound deps io u s small h in
      let same : q ≡ p = cc (e, admitted.waiting) in
      let (waits, taken) =
        settle-Waits io clean p s.pending m ok (subst IsAligned same aligned) admitted.listed
          (subst (λ t. length t.file_names ≡ suc m) same size) in
      (
        m,
        refl,
        rw got.pending waits,
        rw (admitted.named, got.pending, e, same)
            (ap (λ o. put clean (outstanding (settle io clean p o))) (sym (e ∙ ap some same))
              ∙ taken),
        got.balanced,
      )

  -- Uploads come one after the other, each is stored, and nothing fails at pending_transfer.json: then the
  -- transfer waited for as many files as there are uploads, and for those that are left. As bags,
  -- the names of the stored files together with the outstanding ones are the names of before, in
  -- whatever order the files came.
  pub run_uploads_refines :
      (calls : List (Io × Upload)) (s : Server deps) (n : ℕ)
      → s.world.staged_bytes < 2 ^ 64
      → All IsFaultless calls
      → Waits n s.pending
      → all is_stored (run_uploads calls s).0 ≡ true
      → (m : ℕ) × (n ≡ length calls + m)
        × Waits m (run_uploads calls s).1.pending
        × (put_all (names_of calls) (outstanding (run_uploads calls s).1.pending)
            ≡ outstanding s.pending)
  run_uploads_refines [] s n small ok w h = (n, omega arith, w, refl)
  run_uploads_refines ((io, u) ∷ calls) s n small (ok, oks) w h =
      let (m, size, waits, taken, balanced) =
        upload-Waits io u s n small ok w (both {a = is_stored (upload deps io u s).0} h).0 in
      let (k, count, left, rest) =
        run_uploads_refines calls (upload deps io u s).1 m (rw balanced small) oks waits
          (both {a = is_stored (upload deps io u s).0} h).1 in
      (
        k,
        omega (arith, size, count),
        left,
        ap (put (or_default (clean_filename deps io u.req))) rest ∙ taken,
      )
