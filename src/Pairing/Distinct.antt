-- ===== src/Pairing/Distinct.antt =====
-- No two records of the list in src/rendezvous.rs have one identifier, and the three ways in which
-- the list is changed keep it so.
use omarchy_omasend.Common.{
  ◌≡◌, ◌≢◌, refl, ap, sym, ◌∙◌, Bool, true, false, not, List, [], ◌∷◌, ◌++◌, none, some, subst,
  arith, find, keep_if, All, inl, inr, Bool-cases,
}
use omarchy_omasend.Common.Text.{Text}
use omarchy_omasend.OmaId.{normalize_oma_id}
use omarchy_omasend.Pairing.Model.{PairedPeer, is_id, set_first}
use omarchy_omasend.Pairing.Store.{is_id_iff, find-set_first_other, find-replace_other, find-append}

abbrev pub id_of : PairedPeer → Text
id_of p = normalize_oma_id p.oma_id

abbrev pub Distinct : List PairedPeer → Type 0
Distinct [] = Unit
Distinct (p ∷ ps) = (find (is_id (id_of p)) ps ≡ none) × Distinct ps

ne_of_is_id : (n : Text) (p : PairedPeer) → is_id n p ≡ false → id_of p ≢ n
ne_of_is_id n p h e = cc ((is_id_iff n p).1 e, h)

pub set_first-Distinct :
    (n : Text) (q : PairedPeer) (ps : List PairedPeer)
    → is_id n q ≡ true
    → Distinct ps
    → Distinct (set_first (is_id n) q ps)
unfolding set_first
set_first-Distinct n q [] hq d = tt
set_first-Distinct n q (x ∷ ps) hq d = elim (Bool-cases (is_id n x)) [
  | inl here ↦
      let same : id_of q ≡ id_of x = (is_id_iff n q).0 hq ∙ sym ((is_id_iff n x).0 here) in
      rw here (ap (λ k. find (is_id k) ps) same ∙ d.0, d.1)
  | inr there ↦ rw there (
    find-set_first_other (id_of x) n q ps (ne_of_is_id n x there) hq ∙ d.0,
    set_first-Distinct n q ps hq d.1,
  )
]

pub replace-Distinct :
    (n : Text) (q : PairedPeer) (ps : List PairedPeer)
    → is_id n q ≡ true
    → Distinct ps
    → Distinct (keep_if (λ p. not (is_id n p)) ps ++ q ∷ [])
replace-Distinct n q [] hq d = (refl, tt)
replace-Distinct n q (x ∷ ps) hq d = elim (Bool-cases (is_id n x)) [
  | inl here ↦ rw here (replace-Distinct n q ps hq d.1)
  | inr there ↦ rw there (
    find-replace_other (id_of x) n q ps (ne_of_is_id n x there) hq ∙ d.0,
    replace-Distinct n q ps hq d.1,
  )
]

pub append-Distinct :
    (n : Text) (q : PairedPeer) (ps : List PairedPeer)
    → is_id n q ≡ true
    → find (is_id n) ps ≡ none
    → Distinct ps
    → Distinct (ps ++ q ∷ [])
append-Distinct n q [] hq new d = (refl, tt)
append-Distinct n q (x ∷ ps) hq new d = elim (Bool-cases (is_id n x)) [
  | inl here ↦ absurd (ground (arith, here, new))
  | inr there ↦
      let apart : is_id (id_of x) q ≡ false = elim (Bool-cases (is_id (id_of x) q)) [
        | inl both ↦
            absurd
              (ne_of_is_id n x there (sym ((is_id_iff (id_of x) q).0 both) ∙ (is_id_iff n q).0 hq))
        | inr e ↦ e
      ] in
      (
        find-append (id_of x) q ps ∙ ground (arith, d.0, apart),
        append-Distinct n q ps hq (rw there at new) d.1,
      )
]

module _ {κ} (P : PairedPeer → Type κ) where
  pub All-set_first :
      (test : PairedPeer → Bool) (q : PairedPeer) (ps : List PairedPeer)
      → P q
      → All P ps
      → All P (set_first test q ps)
  unfolding set_first
  All-set_first test q [] hq h = tt
  All-set_first test q (x ∷ ps) hq h = elim (Bool-cases (test x)) [
    | inl here ↦ rw here (hq, h.1)
    | inr there ↦ rw there (h.0, All-set_first test q ps hq h.1)
  ]

  pub All-find :
      (test : PairedPeer → Bool) (ps : List PairedPeer) (p : PairedPeer)
      → All P ps
      → find test ps ≡ some p
      → P p
  All-find test [] p h e = absurd (cc)
  All-find test (x ∷ ps) p h e = elim (Bool-cases (test x)) [
    | inl here ↦
        let hit : some x ≡ some p = rw here at e in let same : x ≡ p = cc hit in subst P same h.0
    | inr there ↦ All-find test ps p h.1 (rw there at e)
  ]
