-- ===== src/Pairing/Complete.antt =====
-- What `complete_remote_pairing` of src/rendezvous.rs accepts, and what it leaves alone.
use omarchy_omasend.Common.{
  ℕ, ◌≡◌, ◌≢◌, refl, ap, sym, ◌∙◌, Bool, true, not, ◌&&◌, Option, some, arith, ◌==◌, all, find,
  Result, ok, err, ◌⊎◌, inl, inr, Bool-cases, Option-cases,
}
use omarchy_omasend.Common.Text.{Text, is_ascii_digit, as_bytes, len, text_eq, text_eq_iff}
use omarchy_omasend.Net.{IpAddr, to_canonical, is_loopback, is_local_network_ip}
use omarchy_omasend.OmaId.{normalize_oma_id, validate_oma_id}
use omarchy_omasend.Pairing.Model.{
  PairedPeer, Deps, Io, Disk, PairingError, not_authorized, storage, is_id, set_first, source_ok,
  accepted, attempt,
}
use omarchy_omasend.Pairing.Ops.{load_paired_peers, save_then, complete_remote_pairing}
use omarchy_omasend.Pairing.Attempt.{
  Awaits, attempt_ok, attempt_err, attempt-is_id, refused-confirmed,
}
use omarchy_omasend.Pairing.Store.{
  Saved, kept, written, save_then-Saved, find-is_id, find-set_first, find-set_first_other,
}

-- The source is on the local network and no loopback address.
abbrev pub source_allowed : IpAddr → Bool
source_allowed source_ip =
    is_local_network_ip (to_canonical source_ip) && not (is_loopback (to_canonical source_ip))

-- The identifier is valid and the code has six digits.
abbrev pub well_formed : Text → Text → Bool
well_formed oma_id code =
    validate_oma_id (normalize_oma_id oma_id) && len code == 6 && all is_ascii_digit (as_bytes code)

module _ (deps : Deps) where
  abbrev pub lookup_peer : Text → Disk → Option PairedPeer
  lookup_peer norm disk = find (is_id norm) (load_paired_peers deps disk)

  -- The ways in which a completion ends.
  pub data Completed (oma_id code : Text) (source_ip : IpAddr) (now : ℕ) (disk : Disk)
      (r : Result PairedPeer PairingError × Disk) : Type 0 where
    rejected : (e : PairingError) → r ≡ (err e, disk) → Completed oma_id code source_ip now disk r
    tried :
        (p p' : PairedPeer) (outcome : Result PairedPeer PairingError)
        → source_allowed source_ip ≡ true
        → well_formed oma_id code ≡ true
        → find (is_id (normalize_oma_id oma_id)) (load_paired_peers deps disk) ≡ some p
        → attempt deps p code (to_canonical source_ip) now ≡ (outcome, p')
        → r.0 ≡ outcome
        → load_paired_peers deps r.1
          ≡ set_first (is_id (normalize_oma_id oma_id)) p' (load_paired_peers deps disk)
        → Completed oma_id code source_ip now disk r

  Saved-Completed :
      (oma_id code : Text) (source_ip : IpAddr) (now : ℕ) (disk : Disk) (p p' : PairedPeer)
      (outcome : Result PairedPeer PairingError) {r : Result PairedPeer PairingError × Disk}
      → source_allowed source_ip ≡ true
      → well_formed oma_id code ≡ true
      → find (is_id (normalize_oma_id oma_id)) (load_paired_peers deps disk) ≡ some p
      → attempt deps p code (to_canonical source_ip) now ≡ (outcome, p')
      → Saved deps
          (set_first (is_id (normalize_oma_id oma_id)) p' (load_paired_peers deps disk))
          disk
          storage
          outcome
          r
      → Completed oma_id code source_ip now disk r
  Saved-Completed oma_id code source_ip now disk p p' outcome a w f t (kept e r) =
      rejected (storage e) r
  Saved-Completed oma_id code source_ip now disk p p' outcome a w f t (written r d) =
      tried p p' outcome a w f t r d

  pub complete-Completed :
      (io : Io) (oma_id code : Text) (source_ip : IpAddr) (now : ℕ) (disk : Disk)
      → Completed oma_id code source_ip now disk
          (complete_remote_pairing deps io oma_id code source_ip now disk)
  unfolding complete_remote_pairing
  complete-Completed io oma_id code source_ip now disk =
      elim (Bool-cases (source_allowed source_ip)) [
        | inr far ↦ rejected not_authorized (ground (arith, far))
        | inl near ↦ elim (Bool-cases (well_formed oma_id code)) [
          | inr odd ↦ rejected not_authorized (ground (arith, near, odd))
          | inl fine ↦ elim (Option-cases io.lock_error) [
            | inr (e, busy) ↦ rejected (storage e) (ground (arith, near, fine, busy))
            | inl free ↦ elim (Option-cases (lookup_peer (normalize_oma_id oma_id) disk)) [
              | inl unknown ↦ rejected not_authorized (ground (arith, near, fine, free, unknown))
              | inr (p, found) ↦
                  let tail = attempt deps p code (to_canonical source_ip) now in
                  let peers =
                    set_first (is_id (normalize_oma_id oma_id)) tail.1
                      (load_paired_peers deps disk) in
                  let reached : complete_remote_pairing deps io oma_id code source_ip now disk
                      ≡ save_then deps io peers disk storage tail.0 =
                    ground (arith, near, fine, free, found) in
                  Saved-Completed oma_id code source_ip now disk p tail.1 tail.0 near fine found
                    refl (rw reached (save_then-Saved deps io peers disk storage tail.0))
            ]
          ]
        ]
      ]

  -- A completion succeeds only from an allowed source, with a well-formed code, for a peer that was
  -- recorded as waiting for exactly this code at this time and whose recorded address, if readable,
  -- is the source. The peer that is returned, and found in the file afterwards, is the recorded one
  -- with its identifier, name and token, confirmed at the observed source with the code used up.
  pub complete_sound :
      (io : Io) (oma_id code : Text) (source_ip : IpAddr) (now : ℕ) (disk : Disk) (q : PairedPeer)
      → (complete_remote_pairing deps io oma_id code source_ip now disk).0 ≡ ok q
      → (source_allowed source_ip ≡ true)
        × (well_formed oma_id code ≡ true)
        × ((p : PairedPeer) × (lookup_peer (normalize_oma_id oma_id) disk ≡ some p)
            × Awaits deps p code now
            × (source_ok deps p.ip (to_canonical source_ip) ≡ true)
            × (q ≡ accepted deps p (to_canonical source_ip) now)
            × (lookup_peer
                  (normalize_oma_id oma_id)
                  (complete_remote_pairing deps io oma_id code source_ip now disk).1
                ≡ some q))
  complete_sound io oma_id code source_ip now disk q h =
      elim (complete-Completed io oma_id code source_ip now disk) [
        | rejected e r ↦ absurd (cc (ap (λ t. t.0) r, h))
        | tried p p' outcome a w f t r d ↦
            let norm = normalize_oma_id oma_id in
            let ended : attempt deps p code (to_canonical source_ip) now ≡ (ok q, p') =
              cc (t, r, h) in
            let (waits, here, same, kept_same) =
              attempt_ok deps p q p' code (to_canonical source_ip) now ended in
            let named =
              attempt-is_id deps norm p p' code (to_canonical source_ip) now outcome t
                (find-is_id norm (load_paired_peers deps disk) p f) in
            (
              a,
              w,
              (
                p,
                f,
                waits,
                here,
                same,
                ap (find (is_id norm)) d
                    ∙ (find-set_first norm p' p (load_paired_peers deps disk) named f
                        ∙ ap some kept_same),
              ),
            )
      ]

  -- A completion, however it ends, changes no record but that of the given identifier.
  pub complete_frame :
      (io : Io) (oma_id code : Text) (source_ip : IpAddr) (now : ℕ) (disk : Disk) (m : Text)
      → m ≢ normalize_oma_id oma_id
      → lookup_peer m (complete_remote_pairing deps io oma_id code source_ip now disk).1
        ≡ lookup_peer m disk
  complete_frame io oma_id code source_ip now disk m ne =
      elim (complete-Completed io oma_id code source_ip now disk) [
        | rejected e r ↦ ap (λ t. lookup_peer m t.1) r
        | tried p p' outcome a w f t r d ↦
            let norm = normalize_oma_id oma_id in
            let named =
              attempt-is_id deps norm p p' code (to_canonical source_ip) now outcome t
                (find-is_id norm (load_paired_peers deps disk) p f) in
            ap (find (is_id m)) d
            ∙ find-set_first_other m norm p' (load_paired_peers deps disk) ne named
      ]

  -- A pairing code serves once: after a completion that succeeded, no completion for that peer
  -- succeeds on the file that it left, whatever code, source and time are given.
  pub complete_once :
      (io io' : Io) (oma_id code code' : Text) (source_ip source_ip' : IpAddr) (now now' : ℕ)
      (disk : Disk) (q q' : PairedPeer)
      → (complete_remote_pairing deps io oma_id code source_ip now disk).0 ≡ ok q
      → (complete_remote_pairing deps io' oma_id code' source_ip' now'
          (complete_remote_pairing deps io oma_id code source_ip now disk).1).0
        ≢ ok q'
  complete_once io io' oma_id code code' source_ip source_ip' now now' disk q q' h h' =
      let first = complete_sound io oma_id code source_ip now disk q h in
      let second = complete_sound io' oma_id code' source_ip' now' _ q' h' in
      let confirmed : q.confirmed ≡ true = ap (λ (p : PairedPeer). p.confirmed) first.2.4 in
      let same : some q ≡ some second.2.0 = sym first.2.5 ∙ second.2.1 in
      cc (confirmed, same, second.2.2.unconfirmed)

  Result-cases :
      (r : Result PairedPeer PairingError)
      → ((q : PairedPeer) × (r ≡ ok q)) ⊎ ((e : PairingError) × (r ≡ err e))
  Result-cases (ok q) = inl (q, refl)
  Result-cases (err e) = inr (e, refl)

  -- A completion that is refused confirms nobody: a confirmed record in the file afterwards was
  -- there before, unchanged.
  pub complete_err_confirms_none :
      (io : Io) (oma_id code : Text) (source_ip : IpAddr) (now : ℕ) (disk : Disk) (m : Text)
      (e : PairingError) (c : PairedPeer)
      → (complete_remote_pairing deps io oma_id code source_ip now disk).0 ≡ err e
      → lookup_peer m (complete_remote_pairing deps io oma_id code source_ip now disk).1 ≡ some c
      → c.confirmed ≡ true
      → lookup_peer m disk ≡ some c
  complete_err_confirms_none io oma_id code source_ip now disk m e c h found yes_c =
      elim (complete-Completed io oma_id code source_ip now disk) [
        | rejected e' r ↦ sym (ap (λ t. lookup_peer m t.1) r) ∙ found
        | tried p p' outcome a w f t r d ↦
            let norm = normalize_oma_id oma_id in
            let source = to_canonical source_ip in
            let ended : attempt deps p code source now ≡ (err e, p') = cc (t, r, h) in
            elim (Bool-cases (text_eq m norm)) [
              | inr other ↦
                  sym (
                    complete_frame io oma_id code source_ip now disk m
                      (λ s. cc ((text_eq_iff m norm).1 s, other)))
                  ∙ found
              | inl same ↦
                  let named =
                    attempt-is_id deps norm p p' code source now outcome t
                      (find-is_id norm (load_paired_peers deps disk) p f) in
                  let at_m : m ≡ norm = (text_eq_iff m norm).0 same in
                  let is_p' : some c ≡ some p' =
                    sym found
                    ∙ (ap (find (is_id m)) d
                        ∙ (ap
                              (λ k.
                                find (is_id k)
                                  (set_first (is_id norm) p' (load_paired_peers deps disk)))
                              at_m
                            ∙ find-set_first norm p' p (load_paired_peers deps disk) named f)) in
                  elim (attempt_err deps p p' e code source now ended) [
                    | inl kept_p ↦ cc (is_p', kept_p, f, at_m)
                    | inr (changed, unconfirmed) ↦
                        absurd (cc (is_p', changed, refused-confirmed deps p, unconfirmed, yes_c))
                  ]
            ]
      ]
