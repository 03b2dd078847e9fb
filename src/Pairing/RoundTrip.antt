-- ===== src/Pairing/RoundTrip.antt =====
-- A pairing of src/rendezvous.rs from local consent to remote completion.
use omarchy_omasend.Common.{
  ℕ, ◌+◌, ◌-◌, ◌^◌, ◌≤◌, ◌≡◌, refl, ap, sym, ◌∙◌, true, false, List, Option, none, some, arith, all,
  find, ok, inl, inr, Bool-cases, min,
}
use omarchy_omasend.Common.Text.{Text, as_bytes, len, trim, is_ascii_digit}
use omarchy_omasend.Net.{
  IpAddr, to_canonical, to_canonical_idem, to_canonical-IsAddr, ip_eq_refl, is_local_network_ip,
}
use omarchy_omasend.OmaId.{normalize_oma_id, validate_oma_id}
use omarchy_omasend.Pairing.Model.{
  PairedPeer, Deps, Io, Disk, is_id, peer_record, parse_local_ip_hint, source_ok, accepted,
  random_pair_code, saturating_u64, pair_code_ttl_secs,
}
use omarchy_omasend.Pairing.Ops.{load_paired_peers, begin_local_pairing, complete_remote_pairing}
use omarchy_omasend.Pairing.Attempt.{Awaits, attempt_complete}
use omarchy_omasend.Pairing.Store.{find-replace}
use omarchy_omasend.Pairing.Complete.{source_allowed, well_formed}
use omarchy_omasend.Pairing.Lockout.{Request, Faultless, complete_stored}
use omarchy_omasend.Pairing.Codes.{
  random_pair_code-six, six_digits_digits, as_bytes-six_digits, len-six_digits,
}
use omarchy_omasend.Pairing.Outcomes.{
  unchanged, replaced, began_not, began, begin-Began, peer_record-is_id,
}

module _ (deps : Deps) where
  -- The hint that was given with the consent does not exclude the source.
  pub data HintAllows (hint : Option Text) (source_ip : IpAddr) : Type 0 where
    no_hint : hint ≡ none → HintAllows hint source_ip
    blank : (s : Text) → hint ≡ some s → deps.parse_ip (trim s) ≡ none → HintAllows hint source_ip
    same_address :
        (s : Text) (ip : IpAddr)
        → hint ≡ some s
        → deps.parse_ip (trim s) ≡ some ip
        → to_canonical ip ≡ to_canonical source_ip
        → HintAllows hint source_ip

  HintAllows-source_ok :
      (hint : Option Text) (source_ip : IpAddr)
      → HintAllows hint source_ip
      → source_ok deps (parse_local_ip_hint deps hint) (to_canonical source_ip) ≡ true
  unfolding source_ok parse_local_ip_hint
  HintAllows-source_ok hint source_ip (no_hint e) = ground arith
  HintAllows-source_ok hint source_ip (blank s e n) = ground arith
  HintAllows-source_ok hint source_ip (same_address s ip e read same) =
      elim (Bool-cases (is_local_network_ip (to_canonical ip))) [
        | inr far ↦ ground (arith, far)
        | inl near ↦
            let back =
              deps.parse-show (to_canonical ip)
                (to_canonical-IsAddr ip (deps.parse-IsAddr (trim s) ip read)) in
            ground (arith, near, back, to_canonical_idem ip, ip_eq_refl (to_canonical source_ip))
      ]

  issued_completes :
      (oma_id name : Text) (hint : Option Text) (now : ℕ) (code token : Text) (g : Request)
      (disk : Disk)
      → ((ps : List PairedPeer) → (s : Text) × (deps.to_json ps ≡ ok s))
      → Faultless g
      → source_allowed g.source_ip ≡ true
      → HintAllows hint g.source_ip
      → g.now ≤ min (now + pair_code_ttl_secs) (2 ^ 64 - 1)
      → well_formed oma_id code ≡ true
      → g.code ≡ code
      → (let peer =
            peer_record
              (normalize_oma_id oma_id)
              name
              (parse_local_ip_hint deps hint)
              now
              token
              false
              (some code)
              (some (saturating_u64 (now + pair_code_ttl_secs))) in
          find (is_id (normalize_oma_id oma_id)) (load_paired_peers deps disk) ≡ some peer
          → (complete_remote_pairing deps g.io oma_id g.code g.source_ip g.now disk).0
            ≡ ok (accepted deps peer (to_canonical g.source_ip) g.now))
  unfolding saturating_u64
  issued_completes oma_id name hint now code token g disk writes calm near allows t w same found =
      let peer =
        peer_record (normalize_oma_id oma_id) name (parse_local_ip_hint deps hint) now token false
          (some code) (some (saturating_u64 (now + pair_code_ttl_secs))) in
      let waits : Awaits deps peer g.code g.now = record {
        expected = code;
        deadline = saturating_u64 (now + pair_code_ttl_secs);
        unconfirmed = refl;
        pending_code = refl;
        pending_until = refl;
        in_time = t;
        code_matches = ap as_bytes (sym same);
      } in
      (complete_stored deps oma_id g disk peer writes calm (ground arith) found).0
      ∙ ap (λ r. r.0)
          (attempt_complete deps peer g.code (to_canonical g.source_ip) g.now waits
            (HintAllows-source_ok hint g.source_ip allows))

  drawn-well_formed :
      (oma_id code : Text) (draws : List (Option ℕ))
      → validate_oma_id (normalize_oma_id oma_id) ≡ true
      → random_pair_code draws ≡ some (ok code)
      → well_formed oma_id code ≡ true
  drawn-well_formed oma_id code draws fine drawn =
      let (n, small, e) = random_pair_code-six draws code drawn in
      let size : len code ≡ 6 = ap len e ∙ len-six_digits n in
      let digits : all is_ascii_digit (as_bytes code) ≡ true =
        ap (λ s. all is_ascii_digit (as_bytes s)) e
        ∙ (ap (all is_ascii_digit) (as_bytes-six_digits n) ∙ six_digits_digits n) in
      ground (arith, fine, size, digits)

  -- The code that local consent issues completes the pairing: if `begin_local_pairing` succeeds, then
  -- on the file that it leaves a completion with its code succeeds, from any allowed source that the
  -- hint does not exclude, up to `pair_code_ttl_secs` later, if the system answers it without
  -- faults. It returns the issued record, confirmed at that source.
  pub complete-begin :
      (io : Io) (oma_id name : Text) (hint : Option Text) (now : ℕ) (disk disk' : Disk)
      (peer : PairedPeer) (code : Text) (g : Request)
      → begin_local_pairing deps io oma_id name hint now disk ≡ some (ok (peer, code), disk')
      → ((ps : List PairedPeer) → (s : Text) × (deps.to_json ps ≡ ok s))
      → Faultless g
      → source_allowed g.source_ip ≡ true
      → HintAllows hint g.source_ip
      → g.now ≤ min (now + pair_code_ttl_secs) (2 ^ 64 - 1)
      → g.code ≡ code
      → (complete_remote_pairing deps g.io oma_id g.code g.source_ip g.now disk').0
        ≡ ok (accepted deps peer (to_canonical g.source_ip) g.now)
  complete-begin io oma_id name hint now disk disk' peer code g h writes calm near allows t same =
      elim (begin-Began deps io oma_id name hint now disk (ok (peer, code), disk') h) [
        | began_not e r ↦ absurd (cc (ap (λ x. x.0) r))
        | began code' token fine drawn _ r ↦ elim r [
          | unchanged e q ↦ absurd (cc (ap (λ x. x.0) q))
          | replaced q d ↦
              let norm = normalize_oma_id oma_id in
              let read = parse_local_ip_hint deps hint in
              let expires = some (saturating_u64 (now + pair_code_ttl_secs)) in
              let issued = peer_record norm name read now token false (some code') expires in
              let pair_eq : ◌≡◌ {A = PairedPeer × Text} (peer, code) (issued, code') = cc q in
              let peer_eq : peer ≡ issued = ap (λ x. x.0) pair_eq in
              let code_eq : code ≡ code' = ap (λ x. x.1) pair_eq in
              let found : find (is_id norm) (load_paired_peers deps disk') ≡ some issued =
                ap (find (is_id norm)) d
                ∙ find-replace norm issued (load_paired_peers deps disk)
                    (peer_record-is_id oma_id name read now token false (some code') expires) in
              issued_completes oma_id name hint now code' token g disk' writes calm near allows t
                (drawn-well_formed oma_id code' io.code_draws fine drawn) (same ∙ code_eq) found
              ∙ ap (λ p. ok (accepted deps p (to_canonical g.source_ip) g.now)) (sym peer_eq)
        ]
      ]
