-- ===== src/Pairing/Invariant.antt =====
-- What holds of paired_peers.json after any sequence of calls of src/rendezvous.rs.
use omarchy_omasend.Common.{
  ℕ, suc, ◌+◌, ◌≡◌, ◌≢◌, refl, ap, sym, ◌∙◌, subst, true, false, not, List, [], ◌∷◌, ◌++◌, none,
  some, arith, length, keep_if, All, All-append, All-keep_if, ok, Bool-cases, inl, inr, leb, min,
  ◌-◌, ◌^◌,
}
use omarchy_omasend.Common.Text.{Text, as_bytes, len}
use omarchy_omasend.Net.{IpAddr}
use omarchy_omasend.OmaId.{normalize_oma_id, validate_oma_id}
use omarchy_omasend.Pairing.Model.{
  PairedPeer, Deps, Io, is_id, accepted, refused, is_pending, attempt, random_hex_token,
}
use omarchy_omasend.Pairing.Attempt.{stale, passed, failed, attempt-Attempted, attempt-oma_id}
use omarchy_omasend.Pairing.Distinct.{Distinct, replace-Distinct}

-- The three states of a record: known, waiting for its code, paired. Only a record that waits has a
-- code; one that waits or is paired has a token that is not empty; a paired one has an address.
pub data Phase (p : PairedPeer) : Type 0 where
  known : p.confirmed ≡ false → p.pair_code ≡ none → Phase p
  waiting :
      (code token : Text)
      → p.confirmed ≡ false
      → p.pair_code ≡ some code
      → p.auth_token ≡ some token
      → token ≢ []
      → Phase p
  paired :
      (ip token : Text)
      → p.confirmed ≡ true
      → p.pair_code ≡ none
      → p.ip ≡ some ip
      → p.auth_token ≡ some token
      → token ≢ []
      → Phase p

pub record PeerOk (p : PairedPeer) : Type 0 where
  pub valid : validate_oma_id p.oma_id ≡ true
  pub phase : Phase p

pub record IsStore (ps : List PairedPeer) : Type 0 where
  pub distinct : Distinct ps
  pub each : All PeerOk ps

pub nonempty_of_len : (t : Text) (n : ℕ) → len t ≡ suc n → t ≢ []
unfolding as_bytes
nonempty_of_len t n h e = let none_left : len t ≡ 0 = ap len e in omega (arith, none_left)

-- The system gives the random bytes that were asked for, when it gives any.
pub data GivesBytes (io : Io) : Type 0 where
  no_bytes : io.token_bytes ≡ none → GivesBytes io
  gave_bytes : (bs : List ℕ) → io.token_bytes ≡ some bs → length bs ≡ 32 → GivesBytes io

module _ (deps : Deps) where
  token-nonempty :
      (io : Io) (token : Text) (bytes : List ℕ)
      → io.token_bytes ≡ some bytes
      → length bytes ≡ 32
      → random_hex_token deps io ≡ ok token
      → token ≢ []
  unfolding random_hex_token
  token-nonempty io token bytes drawn n h =
      let same : token ≡ deps.hex_encode bytes = ground arith in
      nonempty_of_len token 63 (ap len same ∙ (deps.hex_encode-len bytes ∙ omega arith))

  accepted-Phase :
      (p : PairedPeer) (source : IpAddr) (now : ℕ)
      → Phase p
      → p.confirmed ≡ false
      → p.pair_code ≢ none
      → Phase (accepted deps p source now)
  accepted-Phase p source now (known u e) f has = absurd (has e)
  accepted-Phase p source now (waiting code token u c t ne) f has =
      paired (deps.show_ip source) token refl refl refl t ne
  accepted-Phase p source now (paired ip token u c i t ne) f has = absurd (has c)

  refused-Phase : (p : PairedPeer) → Phase p → Phase (refused deps p)
  unfolding refused
  refused-Phase p (known u c) = known (ground arith) (ground arith)
  refused-Phase p (paired ip token u c i t ne) =
      paired ip token (ground arith) (ground arith) (ground arith) (ground arith) ne
  refused-Phase p (waiting code token u c t ne) =
      elim (Bool-cases (leb 5 (min (p.pair_failures + 1) (2 ^ 32 - 1)))) [
        | inl many ↦ known (ground (arith, many)) (ground (arith, many))
        | inr few ↦
            waiting code token (ground (arith, few)) (ground (arith, few)) (ground (arith, few)) ne
      ]

  pub attempt-PeerOk :
      (p : PairedPeer) (code : Text) (source : IpAddr) (now : ℕ)
      → PeerOk p
      → PeerOk (attempt deps p code source now).1
  unfolding is_pending
  attempt-PeerOk p code source now v = record {
    valid = ap validate_oma_id (attempt-oma_id deps p code source now) ∙ v.valid;
    phase = elim (attempt-Attempted deps p code source now) [
      | stale _ r ↦ subst (λ t. Phase t.1) (sym r) v.phase
      | failed _ _ r ↦ subst (λ t. Phase t.1) (sym r) (refused-Phase p v.phase)
      | passed pending _ _ r ↦
          subst (λ t. Phase t.1) (sym r)
            (accepted-Phase p source now v.phase (ground arith) (λ e. ground arith))
    ];
  }

  pub drawn-nonempty :
      (io : Io) (token : Text) → GivesBytes io → random_hex_token deps io ≡ ok token → token ≢ []
  unfolding random_hex_token
  drawn-nonempty io token (no_bytes e) h = absurd (ground arith)
  drawn-nonempty io token (gave_bytes bs e n) h = token-nonempty io token bs e n h

  pub replace-IsStore :
      (oma_id : Text) (peer : PairedPeer) (ps : List PairedPeer)
      → is_id (normalize_oma_id oma_id) peer ≡ true
      → PeerOk peer
      → IsStore ps
      → IsStore (keep_if (λ p. not (is_id (normalize_oma_id oma_id) p)) ps ++ peer ∷ [])
  replace-IsStore oma_id peer ps named v s = record {
    distinct = replace-Distinct (normalize_oma_id oma_id) peer ps named s.distinct;
    each =
        All-append PeerOk (keep_if (λ p. not (is_id (normalize_oma_id oma_id) p)) ps) (peer ∷ [])
          (All-keep_if PeerOk (λ p. not (is_id (normalize_oma_id oma_id) p)) ps s.each) (v, tt);
  }
