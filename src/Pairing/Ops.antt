-- ===== src/Pairing/Ops.antt =====
-- The operations of src/rendezvous.rs on paired_peers.json. Each takes what the system answers, the
-- file, and returns its result and the file after it.
use omarchy_omasend.Common.{
  ℕ, ◌+◌, Bool, true, false, not, ◌&&◌, ◌||◌, List, [], ◌∷◌, ◌++◌, Option, none, some, leb, ◌==◌,
  if◌then◌else◌, any, all, find, keep_if, Result, ok, err,
}
use omarchy_omasend.Common.Text.{Text, is_ascii_digit, text_eq, as_bytes, len, trim}
use omarchy_omasend.Net.{IpAddr, to_canonical, is_loopback, is_local_network_ip}
use omarchy_omasend.OmaId.{normalize_oma_id, validate_oma_id}
use omarchy_omasend.Pairing.Model.{
  PairedPeer, Deps, Io, Disk, PairingError, not_authorized, storage, StoreError, invalid_oma_id,
  bad_ip_hint, invalid_responder, bad_peer_address, bad_token, io_error, is_id, constant_time_eq,
  random_pair_code, saturating_u64, set_first, parse_local_ip_hint, random_hex_token, peer_record,
  attempt, pair_code_ttl_secs,
}

-- The hint is given and not blank.
unfoldable pub has_hint : Option Text → Bool
has_hint none = false
has_hint (some s) = not (text_eq (trim s) [])

-- A lowercase hexadecimal digit.
unfoldable pub is_hex_token : ℕ → Bool
is_hex_token b = is_ascii_digit b || (leb b'a' b && leb b b'f')

-- The token test for the record that was found.
unfoldable pub token_ok : PairedPeer → Text → Bool
token_ok p provided = if not p.confirmed then false else elim p.auth_token [
  | none ↦ true
  | some expected ↦
      if not (text_eq expected [])
      then not (text_eq provided []) && constant_time_eq (as_bytes expected) (as_bytes provided)
      else true
]

module _ (deps : Deps) where
  open deps use {to_json, from_json, show_ip}

  unfoldable pub load_paired_peers : Disk → List PairedPeer
  load_paired_peers disk = elim disk.content [
    | none ↦ []
    | some s ↦ elim (from_json s) [ none ↦ [] | some peers ↦ peers ]
  ]

  -- `save_paired_peers_locked(..).map_err(wrap)?; outcome`. A write that fails leaves the file.
  unfoldable pub save_then :
      {A E : Type 0} → Io → List PairedPeer → Disk → (Text → E) → Result A E → Result A E × Disk
  save_then io peers disk wrap outcome = elim (to_json peers) [
    | err e ↦ (err (wrap e), disk)
    | ok s ↦ elim io.write_error [
      | some e ↦ (err (wrap e), disk)
      | none ↦ (outcome, record { content = some s })
    ]
  ]

  unfoldable pub is_peer_paired : Text → Disk → Bool
  is_peer_paired oma_id disk =
      let norm = normalize_oma_id oma_id in
      if not (len norm == 16) then false else any (is_id norm) (load_paired_peers disk)

  unfoldable pub is_peer_confirmed : Text → Disk → Bool
  is_peer_confirmed oma_id disk =
      let norm = normalize_oma_id oma_id in
      if not (len norm == 16)
      then false
      else any (λ p. p.confirmed && is_id norm p) (load_paired_peers disk)

  unfoldable pub verify_peer_auth_token : Text → Text → Disk → Bool
  unfolding token_ok
  verify_peer_auth_token oma_id provided disk =
      let norm = normalize_oma_id oma_id in
      if not (len norm == 16) then false else elim (find (is_id norm) (load_paired_peers disk)) [
        | none ↦ false
        | some peer ↦ token_ok peer provided
      ]

  unfoldable pub add_paired_peer :
      Io → Text → Text → Option Text → Disk → Result PairedPeer StoreError × Disk
  add_paired_peer io oma_id name ip disk =
      let norm = normalize_oma_id oma_id in
      let peers = load_paired_peers disk in
      if not (validate_oma_id norm) then (err invalid_oma_id, disk) else elim io.lock_error [
        | some e ↦ (err (io_error e), disk)
        | none ↦ elim (find (is_id norm) peers) [
          | some existing ↦ (ok existing, disk)
          | none ↦ elim (random_hex_token deps io) [
            | err e ↦ (err e, disk)
            | ok token ↦
                let peer =
                  peer_record norm name (parse_local_ip_hint deps ip) io.clock token false none
                    none in
                save_then io (peers ++ peer ∷ []) disk io_error (ok peer)
          ]
        ]
      ]

  -- `peers.retain(other ids); peers.push(peer); save; Ok(..)` under the lock.
  unfoldable pub replace_peer :
      {A : Type 0} → Io → Text → PairedPeer → A → Disk → Result A StoreError × Disk
  replace_peer io norm peer result disk = elim io.lock_error [
    | some e ↦ (err (io_error e), disk)
    | none ↦
        save_then io (keep_if (λ p. not (is_id norm p)) (load_paired_peers disk) ++ peer ∷ []) disk
          io_error (ok result)
  ]

  -- `none` while the code is still being drawn.
  unfoldable pub begin_local_pairing :
      Io
      → Text
      → Text
      → Option Text
      → ℕ
      → Disk
      → Option (Result (PairedPeer × Text) StoreError × Disk)
  unfolding has_hint
  begin_local_pairing io oma_id name ip_hint now disk =
      let norm = normalize_oma_id oma_id in
      let hint = parse_local_ip_hint deps ip_hint in
      if not (validate_oma_id norm)
      then some (err invalid_oma_id, disk)
      else if has_hint ip_hint && elim hint [ none ↦ true | some h ↦ false ]
      then some (err bad_ip_hint, disk)
      else elim (random_pair_code io.code_draws) [
        | none ↦ none
        | some (err e) ↦ some (err e, disk)
        | some (ok code) ↦ elim (random_hex_token deps io) [
          | err e ↦ some (err e, disk)
          | ok token ↦
              let expires = saturating_u64 (now + pair_code_ttl_secs) in
              let peer = peer_record norm name hint now token false (some code) (some expires) in
              some (replace_peer io norm peer (peer, code) disk)
        ]
      ]

  unfoldable pub complete_remote_pairing :
      Io → Text → Text → IpAddr → ℕ → Disk → Result PairedPeer PairingError × Disk
  complete_remote_pairing io oma_id code source_ip now disk =
      let source = to_canonical source_ip in
      let norm = normalize_oma_id oma_id in
      let peers = load_paired_peers disk in
      if not (is_local_network_ip source) || is_loopback source
      then (err not_authorized, disk)
      else if not (validate_oma_id norm)
          || not (len code == 6)
          || not (all is_ascii_digit (as_bytes code))
      then (err not_authorized, disk)
      else elim io.lock_error [
        | some e ↦ (err (storage e), disk)
        | none ↦ elim (find (is_id norm) peers) [
          | none ↦ (err not_authorized, disk)
          | some peer ↦
              let (outcome, peer') = attempt deps peer code source now in
              save_then io (set_first (is_id norm) peer' peers) disk storage outcome
        ]
      ]

  unfoldable pub store_completed_pairing :
      Io → Text → Text → IpAddr → Text → ℕ → Disk → Result PairedPeer StoreError × Disk
  unfolding is_hex_token
  store_completed_pairing io peer_oma_id name peer_ip token now disk =
      let norm = normalize_oma_id peer_oma_id in
      let ip = to_canonical peer_ip in
      let peer = peer_record norm name (some (show_ip ip)) now token true none none in
      if not (validate_oma_id norm)
      then (err invalid_responder, disk)
      else if not (is_local_network_ip ip) || is_loopback ip
      then (err bad_peer_address, disk)
      else if not (len token == 64) || not (all is_hex_token (as_bytes token))
      then (err bad_token, disk)
      else replace_peer io norm peer peer disk
