-- ===== src/Transfer/Upload/Remaining.antt =====
-- The files that a transfer of src/main.rs still waits for: the names beside their descriptions, and
-- the bag of names, which forgets their order.
use omarchy_omasend.Common.{
  ℕ, suc, ◌+◌, ◌≡◌, refl, ◌∙◌, ap, true, List, [], ◌∷◌, map, Option, none, some, if◌then◌else◌, any,
  find, length, arith, Bool-cases, Option-cases, inl, inr,
}
use omarchy_omasend.Common.Text.{Text, text_eq, text_eq_iff}
use mathlib.Core.Quot
use mathlib.Core.Quot.{Quot, Quot-set}
use omarchy_omasend.Transfer.Model.{TransferFileInfo, PendingFileTransfer, remove_first}
use omarchy_omasend.Transfer.Upload.{is_info, is_in_pending, without_file, matching_info}

-- Each description stands at the place of its name.
abbrev pub IsAligned : PendingFileTransfer → Type 0
IsAligned p = map (λ f. f.name) p.files ≡ p.file_names

abbrev pub occurrences : Text → List Text → ℕ
occurrences a [] = 0
occurrences a (x ∷ xs) = (if text_eq x a then 1 else 0) + occurrences a xs

-- Two lists hold the same names, as often.
abbrev pub SameNames : List Text → List Text → Type 0
SameNames xs ys = (a : Text) → occurrences a xs ≡ occurrences a ys

abbrev pub Bag : Type 0
Bag = Quot SameNames

pub SameNames-cons : (x : Text) (xs ys : List Text) → SameNames xs ys → SameNames (x ∷ xs) (x ∷ ys)
SameNames-cons x xs ys h a = omega (arith, h a)

unfoldable pub put : Text → Bag → Bag
put x =
    Quot.lift Quot-set (λ xs. Quot.mk (x ∷ xs)) (λ xs ys h. Quot.sound (SameNames-cons x xs ys h))

-- The names that are outstanding: none once the transfer is cleared.
unfoldable pub outstanding : Option PendingFileTransfer → Bag
outstanding none = Quot.mk []
outstanding (some p) = Quot.mk p.file_names

remove_first-names :
    (clean : Text) (fs : List TransferFileInfo)
    → map (λ f. f.name) (remove_first (is_info clean) fs)
      ≡ remove_first (λ n. text_eq n clean) (map (λ f. f.name) fs)
unfolding remove_first
remove_first-names clean [] = refl
remove_first-names clean (f ∷ fs) = elim (Bool-cases (text_eq f.name clean)) [
  | inl t ↦ rw t refl
  | inr t ↦ rw t (ap (◌∷◌ f.name) (remove_first-names clean fs))
]

-- Removing a file keeps names and descriptions side by side.
pub without_file-IsAligned :
    (clean : Text) (p : PendingFileTransfer) → IsAligned p → IsAligned (without_file clean p)
unfolding without_file
without_file-IsAligned clean p h =
    remove_first-names clean p.files ∙ ap (remove_first (λ n. text_eq n clean)) h

find-any :
    (clean : Text) (fs : List TransferFileInfo) (f : TransferFileInfo)
    → find (is_info clean) fs ≡ some f
    → any (λ n. text_eq n clean) (map (λ f. f.name) fs) ≡ true
find-any clean [] f h = absurd (cc h)
find-any clean (g ∷ fs) f h = elim (Bool-cases (text_eq g.name clean)) [
  | inl t ↦ rw t refl
  | inr t ↦ rw t (find-any clean fs f (rw t at h))
]

-- A listed file is among the names.
listed_name :
    (clean : Text) (p : PendingFileTransfer)
    → IsAligned p
    → is_in_pending clean p ≡ true
    → any (λ n. text_eq n clean) p.file_names ≡ true
unfolding is_in_pending
listed_name clean p a h = elim (Option-cases (matching_info clean p)) [
  | inl e ↦ ground (arith, e, h)
  | inr (f, e) ↦ rw (← a) (find-any clean p.files f e)
]

occurrences-remove :
    (clean : Text) (xs : List Text)
    → any (λ n. text_eq n clean) xs ≡ true
    → SameNames (clean ∷ remove_first (λ n. text_eq n clean) xs) xs
unfolding remove_first
occurrences-remove clean [] h a = absurd (cc h)
occurrences-remove clean (x ∷ xs) h a = elim (Bool-cases (text_eq x clean)) [
  | inl t ↦ rw (t, (text_eq_iff x clean).0 t) refl
  | inr t ↦ rw t (omega (arith, occurrences-remove clean xs (rw t at h) a))
]

length-remove :
    (clean : Text) (xs : List Text)
    → any (λ n. text_eq n clean) xs ≡ true
    → suc (length (remove_first (λ n. text_eq n clean) xs)) ≡ length xs
unfolding remove_first
length-remove clean [] h = absurd (cc h)
length-remove clean (x ∷ xs) h = elim (Bool-cases (text_eq x clean)) [
  | inl t ↦ rw t refl
  | inr t ↦ rw t (ap suc (length-remove clean xs (rw t at h)))
]

-- Where a listed file is removed, it is the one that the bag had more.
pub without_file-outstanding :
    (clean : Text) (p : PendingFileTransfer)
    → IsAligned p
    → is_in_pending clean p ≡ true
    → put clean (outstanding (some (without_file clean p))) ≡ outstanding (some p)
unfolding put outstanding without_file
without_file-outstanding clean p a h =
    Quot.sound (occurrences-remove clean p.file_names (listed_name clean p a h))

pub length-without_file :
    (clean : Text) (p : PendingFileTransfer)
    → IsAligned p
    → is_in_pending clean p ≡ true
    → suc (length (without_file clean p).file_names) ≡ length p.file_names
unfolding without_file
length-without_file clean p a h = length-remove clean p.file_names (listed_name clean p a h)
