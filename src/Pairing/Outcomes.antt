-- ===== src/Pairing/Outcomes.antt =====
-- How the operations of src/rendezvous.rs that write records end.
use omarchy_omasend.Common.{
  ℕ, ◌+◌, ◌≡◌, refl, ap, sym, ◌∙◌, Bool, true, false, not, ◌||◌, [], ◌∷◌, ◌++◌, Option, none, some,
  arith, ◌==◌, ◌&&◌, subst, all, find, keep_if, Result, ok, err, inl, inr, Bool-cases, Option-cases,
}
use omarchy_omasend.Common.Text.{Text, as_bytes, len}
use omarchy_omasend.Net.{IpAddr, to_canonical, is_loopback, is_local_network_ip}
use omarchy_omasend.OmaId.{normalize_oma_id, validate_oma_id}
use omarchy_omasend.OmaId.Format.{normalize-format, normalize_idem}
use omarchy_omasend.Pairing.Model.{
  PairedPeer, Deps, Io, Disk, StoreError, io_error, is_id, peer_record, random_pair_code,
  parse_local_ip_hint, random_hex_token, saturating_u64, pair_code_ttl_secs,
}
use omarchy_omasend.Pairing.Model.{
  invalid_oma_id, invalid_responder, bad_peer_address, bad_token, bad_ip_hint,
}
use omarchy_omasend.Pairing.Ops.{
  is_hex_token, has_hint, load_paired_peers, save_then, add_paired_peer, replace_peer,
  begin_local_pairing, store_completed_pairing,
}
use omarchy_omasend.Pairing.Store.{Saved, kept, written, save_then-Saved, is_id_iff}

-- A record built for a normalised identifier is found under it.
pub peer_record-is_id :
    (oma_id name : Text) (ip : Option Text) (now : ℕ) (token : Text) (confirmed : Bool)
    (code : Option Text) (expires : Option ℕ)
    → is_id
        (normalize_oma_id oma_id)
        (peer_record (normalize_oma_id oma_id) name ip now token confirmed code expires)
      ≡ true
peer_record-is_id oma_id name ip now token confirmed code expires =
    (is_id_iff (normalize_oma_id oma_id)
        (peer_record (normalize_oma_id oma_id) name ip now token confirmed code expires)).1
      (normalize-format (normalize_oma_id oma_id) ∙ normalize_idem oma_id)

module _ (deps : Deps) where
  -- A call that may put one record in place of those of its identifier.
  pub data Replaced {A : Type 0} (norm : Text) (peer : PairedPeer) (result : A) (disk : Disk)
      (r : Result A StoreError × Disk) : Type 0 where
    unchanged : (e : StoreError) → r ≡ (err e, disk) → Replaced norm peer result disk r
    replaced :
        r.0 ≡ ok result
        → load_paired_peers deps r.1
          ≡ keep_if (λ p. not (is_id norm p)) (load_paired_peers deps disk) ++ peer ∷ []
        → Replaced norm peer result disk r

  Saved-Replaced :
      {A : Type 0} (norm : Text) (peer : PairedPeer) (result : A) (disk : Disk)
      {r : Result A StoreError × Disk}
      → Saved deps
          (keep_if (λ p. not (is_id norm p)) (load_paired_peers deps disk) ++ peer ∷ [])
          disk
          io_error
          (ok result)
          r
      → Replaced norm peer result disk r
  Saved-Replaced norm peer result disk (kept e r) = unchanged (io_error e) r
  Saved-Replaced norm peer result disk (written a b) = replaced a b

  pub replace_peer-Replaced :
      {A : Type 0} (io : Io) (norm : Text) (peer : PairedPeer) (result : A) (disk : Disk)
      → Replaced norm peer result disk (replace_peer deps io norm peer result disk)
  unfolding replace_peer
  replace_peer-Replaced io norm peer result disk = elim (Option-cases io.lock_error) [
    | inr (e, busy) ↦ unchanged (io_error e) (ground (arith, busy))
    | inl free ↦
        rw (free, replace_peer)
          (Saved-Replaced norm peer result disk
            (save_then-Saved deps io _ disk io_error (ok result)))
  ]

  -- `begin_local_pairing`: it refuses and leaves the file, or issues a record with the hint, a new
  -- token and a code that was drawn, good for `pair_code_ttl_secs`.
  pub data Began (io : Io) (oma_id name : Text) (ip_hint : Option Text) (now : ℕ) (disk : Disk)
      (r : Result (PairedPeer × Text) StoreError × Disk) : Type 0 where
    began_not : (e : StoreError) → r ≡ (err e, disk) → Began io oma_id name ip_hint now disk r
    began :
        (code token : Text)
        → validate_oma_id (normalize_oma_id oma_id) ≡ true
        → random_pair_code io.code_draws ≡ some (ok code)
        → random_hex_token deps io ≡ ok token
        → (let peer =
              peer_record
                (normalize_oma_id oma_id)
                name
                (parse_local_ip_hint deps ip_hint)
                now
                token
                false
                (some code)
                (some (saturating_u64 (now + pair_code_ttl_secs))) in
            Replaced (normalize_oma_id oma_id) peer (peer, code) disk r)
        → Began io oma_id name ip_hint now disk r

  pub begin-Began :
      (io : Io) (oma_id name : Text) (ip_hint : Option Text) (now : ℕ) (disk : Disk)
      (r : Result (PairedPeer × Text) StoreError × Disk)
      → begin_local_pairing deps io oma_id name ip_hint now disk ≡ some r
      → Began io oma_id name ip_hint now disk r
  unfolding begin_local_pairing
  begin-Began io oma_id name ip_hint now disk r h =
      elim (Bool-cases (validate_oma_id (normalize_oma_id oma_id))) [
        | inr odd ↦ began_not invalid_oma_id (ground (arith, odd, h))
        | inl fine ↦
            elim (Bool-cases (
              has_hint ip_hint
              && elim (parse_local_ip_hint deps ip_hint) [ none ↦ true | some s ↦ false ])) [
                | inl far ↦ began_not bad_ip_hint (ground (arith, fine, far, h))
                | inr near ↦
                    drawn fine near (random_pair_code io.code_draws) refl (random_hex_token deps io)
                      refl
              ]
      ]
    where
      drawn :
          validate_oma_id (normalize_oma_id oma_id) ≡ true
          → has_hint ip_hint
              && elim (parse_local_ip_hint deps ip_hint) [ none ↦ true | some s ↦ false ]
            ≡ false
          → (c : Option (Result Text StoreError)) → random_pair_code io.code_draws ≡ c
          → (t : Result Text StoreError) → random_hex_token deps io ≡ t
          → Began io oma_id name ip_hint now disk r
      drawn fine near none ec t et = absurd (ground (arith, fine, near, ec, h))
      drawn fine near (some (err e)) ec t et = began_not e (ground (arith, fine, near, ec, h))
      drawn fine near (some (ok code)) ec (err e) et =
          began_not e (ground (arith, fine, near, ec, et, h))
      drawn fine near (some (ok code)) ec (ok token) et =
          let peer =
            peer_record (normalize_oma_id oma_id) name (parse_local_ip_hint deps ip_hint) now token
              false (some code) (some (saturating_u64 (now + pair_code_ttl_secs))) in
          let ends : replace_peer deps io (normalize_oma_id oma_id) peer (peer, code) disk ≡ r =
            ground (arith, fine, near, ec, et, h) in
          began code token fine ec et (
            subst (Replaced (normalize_oma_id oma_id) peer (peer, code) disk) ends
              (replace_peer-Replaced io (normalize_oma_id oma_id) peer (peer, code) disk))

  -- `store_completed_pairing`.
  pub data StoredPeer (oma_id name : Text) (peer_ip : IpAddr) (token : Text) (now : ℕ) (disk : Disk)
      (r : Result PairedPeer StoreError × Disk) : Type 0 where
    stored_not :
        (e : StoreError) → r ≡ (err e, disk) → StoredPeer oma_id name peer_ip token now disk r
    stored :
        validate_oma_id (normalize_oma_id oma_id) ≡ true
        → len token ≡ 64
        → (let peer =
              peer_record
                (normalize_oma_id oma_id)
                name
                (some (deps.show_ip (to_canonical peer_ip)))
                now
                token
                true
                none
                none in
            Replaced (normalize_oma_id oma_id) peer peer disk r)
        → StoredPeer oma_id name peer_ip token now disk r

  pub store-StoredPeer :
      (io : Io) (oma_id name : Text) (peer_ip : IpAddr) (token : Text) (now : ℕ) (disk : Disk)
      → StoredPeer oma_id name peer_ip token now disk
          (store_completed_pairing deps io oma_id name peer_ip token now disk)
  unfolding store_completed_pairing
  store-StoredPeer io oma_id name peer_ip token now disk =
      elim (Bool-cases (validate_oma_id (normalize_oma_id oma_id))) [
        | inr odd ↦ stored_not invalid_responder (ground (arith, odd))
        | inl fine ↦
            elim (Bool-cases (
              not (is_local_network_ip (to_canonical peer_ip))
              || is_loopback (to_canonical peer_ip))) [
                | inl far ↦ stored_not bad_peer_address (ground (arith, fine, far))
                | inr near ↦ elim (Bool-cases (len token == 64)) [
                  | inr short ↦ stored_not bad_token (ground (arith, fine, near, short))
                  | inl full ↦ elim (Bool-cases (all is_hex_token (as_bytes token))) [
                    | inr odd ↦ stored_not bad_token (ground (arith, fine, near, full, odd))
                    | inl hex ↦
                        let norm = normalize_oma_id oma_id in
                        let peer =
                          peer_record norm name (some (deps.show_ip (to_canonical peer_ip))) now
                            token true none none in
                        let ends : store_completed_pairing deps io oma_id name peer_ip token now
                              disk
                            ≡ replace_peer deps io norm peer peer disk =
                          ground (arith, fine, near, full, hex) in
                        stored fine (ground (arith, full)) (
                          subst (Replaced norm peer peer disk) (sym ends)
                            (replace_peer-Replaced io norm peer peer disk))
                  ]
                ]
              ]
      ]

  -- `add_paired_peer`: the file is left as it is, or gets one unconfirmed record more, for an
  -- identifier that it did not hold.
  pub data Added (io : Io) (oma_id name : Text) (ip : Option Text) (disk : Disk)
      (r : Result PairedPeer StoreError × Disk) : Type 0 where
    added_not : r.1 ≡ disk → Added io oma_id name ip disk r
    added :
        (token : Text)
        → validate_oma_id (normalize_oma_id oma_id) ≡ true
        → find (is_id (normalize_oma_id oma_id)) (load_paired_peers deps disk) ≡ none
        → random_hex_token deps io ≡ ok token
        → (let peer =
              peer_record
                (normalize_oma_id oma_id)
                name
                (parse_local_ip_hint deps ip)
                io.clock
                token
                false
                none
                none in
            load_paired_peers deps r.1 ≡ load_paired_peers deps disk ++ peer ∷ [])
        → Added io oma_id name ip disk r

  Saved-Added :
      (io : Io) (oma_id name : Text) (ip : Option Text) (disk : Disk) (token : Text)
      {r : Result PairedPeer StoreError × Disk}
      → validate_oma_id (normalize_oma_id oma_id) ≡ true
      → find (is_id (normalize_oma_id oma_id)) (load_paired_peers deps disk) ≡ none
      → random_hex_token deps io ≡ ok token
      → (let peer =
            peer_record
              (normalize_oma_id oma_id)
              name
              (parse_local_ip_hint deps ip)
              io.clock
              token
              false
              none
              none in
          Saved deps (load_paired_peers deps disk ++ peer ∷ []) disk io_error (ok peer) r)
      → Added io oma_id name ip disk r
  Saved-Added io oma_id name ip disk token fine new t (kept e r) = added_not (ap (λ x. x.1) r)
  Saved-Added io oma_id name ip disk token fine new t (written a b) = added token fine new t b

  pub add-Added :
      (io : Io) (oma_id name : Text) (ip : Option Text) (disk : Disk)
      → Added io oma_id name ip disk (add_paired_peer deps io oma_id name ip disk)
  unfolding add_paired_peer
  add-Added io oma_id name ip disk = elim (Bool-cases (validate_oma_id (normalize_oma_id oma_id))) [
    | inr odd ↦ added_not (ground (arith, odd))
    | inl fine ↦ elim (Option-cases io.lock_error) [
      | inr (e, busy) ↦ added_not (ground (arith, fine, busy))
      | inl free ↦
          elim (Option-cases
            (find (is_id (normalize_oma_id oma_id)) (load_paired_peers deps disk))) [
              | inr (p, known) ↦ added_not (ground (arith, fine, free, known))
              | inl new ↦ drawn fine free new (random_hex_token deps io) refl
            ]
    ]
  ]
    where
      drawn :
          validate_oma_id (normalize_oma_id oma_id) ≡ true
          → io.lock_error ≡ none
          → find (is_id (normalize_oma_id oma_id)) (load_paired_peers deps disk) ≡ none
          → (t : Result Text StoreError) → random_hex_token deps io ≡ t
          → Added io oma_id name ip disk (add_paired_peer deps io oma_id name ip disk)
      drawn fine free new (err e) et = added_not (ground (arith, fine, free, new, et))
      drawn fine free new (ok token) et =
          let peer =
            peer_record (normalize_oma_id oma_id) name (parse_local_ip_hint deps ip) io.clock token
              false none none in
          let ends : add_paired_peer deps io oma_id name ip disk
              ≡ save_then deps io (load_paired_peers deps disk ++ peer ∷ []) disk io_error
                  (ok peer) =
            ground (arith, fine, free, new, et) in
          subst (Added io oma_id name ip disk) (sym ends) (
            Saved-Added io oma_id name ip disk token fine new et (
              save_then-Saved deps io (load_paired_peers deps disk ++ peer ∷ []) disk io_error
                (ok peer)))
