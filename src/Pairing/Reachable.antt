-- ===== src/Pairing/Reachable.antt =====
-- Any sequence of calls of src/rendezvous.rs that write records keeps paired_peers.json in order.
use omarchy_omasend.Common.{
  ℕ, ◌+◌, ◌≡◌, refl, sym, ◌∙◌, subst, true, false, [], ◌∷◌, Option, none, some, All-append, Result,
}
use omarchy_omasend.Common.Text.{Text}
use omarchy_omasend.Net.{IpAddr, to_canonical}
use omarchy_omasend.OmaId.{normalize_oma_id, format_oma_id, validate_oma_id}
use omarchy_omasend.OmaId.Format.{validate-format}
use omarchy_omasend.Pairing.Model.{
  PairedPeer, Deps, Io, Disk, PairingError, StoreError, is_id, peer_record, parse_local_ip_hint,
  saturating_u64, pair_code_ttl_secs,
}
use omarchy_omasend.Pairing.Ops.{
  load_paired_peers, add_paired_peer, begin_local_pairing, complete_remote_pairing,
  store_completed_pairing,
}
use omarchy_omasend.Pairing.Attempt.{attempt-is_id}
use omarchy_omasend.Pairing.Store.{find-is_id}
use omarchy_omasend.Pairing.Complete.{Completed, rejected, tried, complete-Completed}
use omarchy_omasend.Pairing.Distinct.{set_first-Distinct, append-Distinct, All-set_first, All-find}
use omarchy_omasend.Pairing.Outcomes.{
  Replaced, unchanged, replaced, Began, began_not, began, begin-Began, StoredPeer, stored_not,
  stored, store-StoredPeer, Added, added_not, added, add-Added, peer_record-is_id,
}
use omarchy_omasend.Pairing.Invariant.{
  known, waiting, paired, PeerOk, IsStore, GivesBytes, nonempty_of_len, drawn-nonempty,
  replace-IsStore, attempt-PeerOk,
}

module _ (deps : Deps) where
  -- One call that writes records.
  pub data Step (d d' : Disk) : Type 0 where
    adds :
        (io : Io) (oma_id name : Text) (ip : Option Text)
        → GivesBytes io
        → d' ≡ (add_paired_peer deps io oma_id name ip d).1
        → Step d d'
    begins :
        (io : Io) (oma_id name : Text) (ip : Option Text) (now : ℕ)
        (r : Result (PairedPeer × Text) StoreError × Disk)
        → GivesBytes io
        → begin_local_pairing deps io oma_id name ip now d ≡ some r
        → d' ≡ r.1
        → Step d d'
    completes :
        (io : Io) (oma_id code : Text) (source_ip : IpAddr) (now : ℕ)
        → d' ≡ (complete_remote_pairing deps io oma_id code source_ip now d).1
        → Step d d'
    stores :
        (io : Io) (oma_id name : Text) (peer_ip : IpAddr) (token : Text) (now : ℕ)
        → d' ≡ (store_completed_pairing deps io oma_id name peer_ip token now d).1
        → Step d d'

  pub data Reach (d : Disk) : Disk → Type 0 where
    here : Reach d d
    next : {e f : Disk} → Reach d e → Step e f → Reach d f

  Replaced-IsStore :
      {A : Type 0} (oma_id : Text) (peer : PairedPeer) (result : A) (disk : Disk)
      {r : Result A StoreError × Disk}
      → Replaced deps (normalize_oma_id oma_id) peer result disk r
      → is_id (normalize_oma_id oma_id) peer ≡ true
      → PeerOk peer
      → IsStore (load_paired_peers deps disk)
      → IsStore (load_paired_peers deps r.1)
  Replaced-IsStore oma_id peer result disk (unchanged e r) named v s =
      subst (λ t. IsStore (load_paired_peers deps t.1)) (sym r) s
  Replaced-IsStore oma_id peer result disk (replaced _ d) named v s =
      subst IsStore (sym d)
        (replace-IsStore deps oma_id peer (load_paired_peers deps disk) named v s)

  format-valid :
      (oma_id : Text)
      → validate_oma_id (normalize_oma_id oma_id) ≡ true
      → validate_oma_id (format_oma_id (normalize_oma_id oma_id)) ≡ true
  format-valid oma_id h = (validate-format (normalize_oma_id oma_id)).0 ∙ h

  Added-IsStore :
      (io : Io) (oma_id name : Text) (ip : Option Text) (disk : Disk)
      {r : Result PairedPeer StoreError × Disk}
      → Added deps io oma_id name ip disk r
      → IsStore (load_paired_peers deps disk)
      → IsStore (load_paired_peers deps r.1)
  Added-IsStore io oma_id name ip disk (added_not e) s =
      subst (λ t. IsStore (load_paired_peers deps t)) (sym e) s
  Added-IsStore io oma_id name ip disk (added token fine new t d) s =
      let peer =
        peer_record (normalize_oma_id oma_id) name (parse_local_ip_hint deps ip) io.clock token
          false none none in
      subst IsStore (sym d) (record {
        distinct =
            append-Distinct (normalize_oma_id oma_id) peer (load_paired_peers deps disk)
              (peer_record-is_id oma_id name (parse_local_ip_hint deps ip) io.clock token false none
                none)
              new s.distinct;
        each =
            All-append PeerOk (load_paired_peers deps disk) (peer ∷ []) s.each
              (record { valid = format-valid oma_id fine; phase = known refl refl }, tt);
      })

  Began-IsStore :
      (io : Io) (oma_id name : Text) (ip : Option Text) (now : ℕ) (disk : Disk)
      {r : Result (PairedPeer × Text) StoreError × Disk}
      → GivesBytes io
      → Began deps io oma_id name ip now disk r
      → IsStore (load_paired_peers deps disk)
      → IsStore (load_paired_peers deps r.1)
  Began-IsStore io oma_id name ip now disk g (began_not e r) s =
      subst (λ t. IsStore (load_paired_peers deps t.1)) (sym r) s
  Began-IsStore io oma_id name ip now disk g (began code token fine c t r) s =
      let expires = some (saturating_u64 (now + pair_code_ttl_secs)) in
      let hint = parse_local_ip_hint deps ip in
      Replaced-IsStore oma_id
        (peer_record (normalize_oma_id oma_id) name hint now token false (some code) expires) _ disk
        r (peer_record-is_id oma_id name hint now token false (some code) expires)
        (record {
          valid = format-valid oma_id fine;
          phase = waiting code token refl refl refl (drawn-nonempty deps io token g t);
        })
        s

  StoredPeer-IsStore :
      (oma_id name : Text) (peer_ip : IpAddr) (token : Text) (now : ℕ) (disk : Disk)
      {r : Result PairedPeer StoreError × Disk}
      → StoredPeer deps oma_id name peer_ip token now disk r
      → IsStore (load_paired_peers deps disk)
      → IsStore (load_paired_peers deps r.1)
  StoredPeer-IsStore oma_id name peer_ip token now disk (stored_not e r) s =
      subst (λ t. IsStore (load_paired_peers deps t.1)) (sym r) s
  StoredPeer-IsStore oma_id name peer_ip token now disk (stored fine full r) s =
      let ip = deps.show_ip (to_canonical peer_ip) in
      Replaced-IsStore oma_id
        (peer_record (normalize_oma_id oma_id) name (some ip) now token true none none) _ disk r
        (peer_record-is_id oma_id name (some ip) now token true none none)
        (record {
          valid = format-valid oma_id fine;
          phase = paired ip token refl refl refl refl (nonempty_of_len token 63 full);
        })
        s

  Completed-IsStore :
      (oma_id code : Text) (source_ip : IpAddr) (now : ℕ) (disk : Disk)
      {r : Result PairedPeer PairingError × Disk}
      → Completed deps oma_id code source_ip now disk r
      → IsStore (load_paired_peers deps disk)
      → IsStore (load_paired_peers deps r.1)
  Completed-IsStore oma_id code source_ip now disk (rejected e r) s =
      subst (λ t. IsStore (load_paired_peers deps t.1)) (sym r) s
  Completed-IsStore oma_id code source_ip now disk (tried p p' outcome a w f t _ d) s =
      let norm = normalize_oma_id oma_id in
      let peers = load_paired_peers deps disk in
      let named =
        attempt-is_id deps norm p p' code (to_canonical source_ip) now outcome t
          (find-is_id norm peers p f) in
      let fine : PeerOk p' =
        subst (λ u. PeerOk u.1) t
          (attempt-PeerOk deps p code (to_canonical source_ip) now
            (All-find PeerOk (is_id norm) peers p s.each f)) in
      subst IsStore (sym d) (record {
        distinct = set_first-Distinct norm p' peers named s.distinct;
        each = All-set_first PeerOk (is_id norm) p' peers fine s.each;
      })

  -- Each call that writes records, whether it succeeds or fails, keeps the file in order: no two
  -- records of one identifier, every identifier valid, and each record known, waiting for a code
  -- with a token, or paired with a token, an address and no code.
  pub Step-IsStore :
      (d d' : Disk)
      → Step d d'
      → IsStore (load_paired_peers deps d)
      → IsStore (load_paired_peers deps d')
  Step-IsStore d d' (adds io oma_id name ip g e) s =
      subst (λ t. IsStore (load_paired_peers deps t)) (sym e)
        (Added-IsStore io oma_id name ip d (add-Added deps io oma_id name ip d) s)
  Step-IsStore d d' (begins io oma_id name ip now r g b e) s =
      subst (λ t. IsStore (load_paired_peers deps t)) (sym e)
        (Began-IsStore io oma_id name ip now d g (begin-Began deps io oma_id name ip now d r b) s)
  Step-IsStore d d' (completes io oma_id code source_ip now e) s =
      subst (λ t. IsStore (load_paired_peers deps t)) (sym e)
        (Completed-IsStore oma_id code source_ip now d
          (complete-Completed deps io oma_id code source_ip now d) s)
  Step-IsStore d d' (stores io oma_id name peer_ip token now e) s =
      subst (λ t. IsStore (load_paired_peers deps t)) (sym e)
        (StoredPeer-IsStore oma_id name peer_ip token now d
          (store-StoredPeer deps io oma_id name peer_ip token now d) s)

  pub Reach-IsStore :
      (d d' : Disk)
      → Reach d d'
      → IsStore (load_paired_peers deps d)
      → IsStore (load_paired_peers deps d')
  Reach-IsStore d d' here s = s
  Reach-IsStore d d' (next {e = e} r st) s = Step-IsStore e d' st (Reach-IsStore d e r s)

  -- A file that is missing or unreadable is in order.
  pub missing-IsStore : IsStore (load_paired_peers deps (record { content = none }))
  unfolding load_paired_peers
  missing-IsStore = record { distinct = tt; each = tt }
