-- ===== src/Pairing/Store.antt =====
-- Looking up a peer in the list of src/rendezvous.rs, before and after the list is changed, and
-- reading back what was saved.
use omarchy_omasend.Common.{
  ◌≡◌, ◌≢◌, refl, ap, sym, ◌∙◌, true, false, not, List, [], ◌∷◌, ◌++◌, Option, none, some, arith,
  if◌then◌else◌, find, keep_if, Result, ok, err, inl, inr, Bool-cases, ◌↔◌,
}
use omarchy_omasend.Common.Text.{Text, text_eq_iff}
use omarchy_omasend.OmaId.{normalize_oma_id}
use omarchy_omasend.Pairing.Model.{PairedPeer, Deps, Io, Disk, is_id, set_first}
use omarchy_omasend.Pairing.Ops.{load_paired_peers, save_then}

pub is_id_iff :
    (norm : Text) (p : PairedPeer) → (is_id norm p ≡ true) ↔ (normalize_oma_id p.oma_id ≡ norm)
is_id_iff norm p = text_eq_iff (normalize_oma_id p.oma_id) norm

-- A peer has one identifier.
is_id_other : (m n : Text) (p : PairedPeer) → m ≢ n → is_id n p ≡ true → is_id m p ≡ false
is_id_other m n p ne h = elim (Bool-cases (is_id m p)) [
  | inl hm ↦ absurd (ne (sym ((is_id_iff m p).0 hm) ∙ (is_id_iff n p).0 h))
  | inr e ↦ e
]

pub find-is_id :
    (n : Text) (ps : List PairedPeer) (p : PairedPeer)
    → find (is_id n) ps ≡ some p
    → is_id n p ≡ true
find-is_id n [] p h = absurd (cc)
find-is_id n (x ∷ ps) p h = elim (Bool-cases (is_id n x)) [
  | inl here ↦ ground (arith, here)
  | inr there ↦ find-is_id n ps p (rw there at h)
]

pub find-set_first :
    (n : Text) (q p : PairedPeer) (ps : List PairedPeer)
    → is_id n q ≡ true
    → find (is_id n) ps ≡ some p
    → find (is_id n) (set_first (is_id n) q ps) ≡ some q
unfolding set_first
find-set_first n q p [] hq h = absurd (cc)
find-set_first n q p (x ∷ ps) hq h = elim (Bool-cases (is_id n x)) [
  | inl here ↦ rw (here, hq)
  | inr there ↦ rw (there, there) (find-set_first n q p ps hq (rw there at h))
]

pub find-set_first_other :
    (m n : Text) (q : PairedPeer) (ps : List PairedPeer)
    → m ≢ n
    → is_id n q ≡ true
    → find (is_id m) (set_first (is_id n) q ps) ≡ find (is_id m) ps
unfolding set_first
find-set_first_other m n q [] ne hq = refl
find-set_first_other m n q (x ∷ ps) ne hq = elim (Bool-cases (is_id n x)) [
  | inl here ↦ rw (here, is_id_other m n q ne hq, is_id_other m n x ne here)
  | inr there ↦
      rw there (ap (λ r. if is_id m x then some x else r) (find-set_first_other m n q ps ne hq))
]

pub find-replace :
    (n : Text) (q : PairedPeer) (ps : List PairedPeer)
    → is_id n q ≡ true
    → find (is_id n) (keep_if (λ p. not (is_id n p)) ps ++ q ∷ []) ≡ some q
find-replace n q [] hq = rw hq
find-replace n q (x ∷ ps) hq = elim (Bool-cases (is_id n x)) [
  | inl here ↦ rw here (find-replace n q ps hq)
  | inr there ↦ rw (there, there) (find-replace n q ps hq)
]

pub find-replace_other :
    (m n : Text) (q : PairedPeer) (ps : List PairedPeer)
    → m ≢ n
    → is_id n q ≡ true
    → find (is_id m) (keep_if (λ p. not (is_id n p)) ps ++ q ∷ []) ≡ find (is_id m) ps
find-replace_other m n q [] ne hq = rw (is_id_other m n q ne hq)
find-replace_other m n q (x ∷ ps) ne hq = elim (Bool-cases (is_id n x)) [
  | inl here ↦ rw (here, is_id_other m n x ne here) (find-replace_other m n q ps ne hq)
  | inr there ↦
      rw there (ap (λ r. if is_id m x then some x else r) (find-replace_other m n q ps ne hq))
]

pub find-append :
    (m : Text) (q : PairedPeer) (ps : List PairedPeer)
    → find (is_id m) (ps ++ q ∷ [])
      ≡ elim (find (is_id m) ps) [ none ↦ if is_id m q then some q else none | some p ↦ some p ]
find-append m q [] = refl
find-append m q (x ∷ ps) = elim (Bool-cases (is_id m x)) [
  | inl here ↦ rw here
  | inr there ↦ rw there (find-append m q ps)
]

module _ (deps : Deps) where
  -- The two ways in which saving ends: the file is as before and the call fails, or it holds the
  -- list and the call ends with its outcome.
  pub data Saved {A E : Type 0} (peers : List PairedPeer) (disk : Disk) (wrap : Text → E)
      (outcome : Result A E) (r : Result A E × Disk) : Type 0 where
    kept : (e : Text) → r ≡ (err (wrap e), disk) → Saved peers disk wrap outcome r
    written : r.0 ≡ outcome → load_paired_peers deps r.1 ≡ peers → Saved peers disk wrap outcome r

  pub save_then-Saved :
      {A E : Type 0} (io : Io) (peers : List PairedPeer) (disk : Disk) (wrap : Text → E)
      (outcome : Result A E)
      → Saved peers disk wrap outcome (save_then deps io peers disk wrap outcome)
  unfolding save_then load_paired_peers
  save_then-Saved io peers disk wrap outcome = go (deps.to_json peers) refl io.write_error refl
    where
      go :
          (j : Result Text Text)
          → deps.to_json peers ≡ j
          → (w : Option Text) → io.write_error ≡ w
          → Saved peers disk wrap outcome (save_then deps io peers disk wrap outcome)
      go (err e) ej w ew = kept e (ground (arith, ej))
      go (ok s) ej (some e) ew = kept e (ground (arith, ej, ew))
      go (ok s) ej none ew =
          let back = deps.from_json-to_json peers s ej in
          written (ground (arith, ej, ew)) (ground (arith, ej, ew, back))
