-- ===== src/Rendezvous/Record.antt =====
-- Blinded rendezvous records of src/rendezvous.rs: topics, keys, sealing and opening a record, and the
-- anchors that carry it. A file is its content as `read_secure_file` gives it.
pub mod Opening
use omarchy_omasend.Common.{
  ℕ, ◌+◌, ◌%◌, ◌^◌, ◌≡◌, Bool, true, false, not, List, [], ◌∷◌, ◌++◌, Option, none, some, ltb, ◌==◌,
  if◌then◌else◌, length, all, Result, ok, err, ◌>>=◌, ◌>>◌, guard, or_fail,
}
use omarchy_omasend.Common.Text.{Text, codes, text_eq, as_bytes, len, trim}
use omarchy_omasend.OmaId.{normalize_oma_id}
use omarchy_omasend.Rendezvous.{Deps, hmac_sha256, hkdf_sha256}

pub record RendezvousRecord : Type 0 where
  pub v : ℕ
  pub topic : Text
  pub device_id : Text
  pub hostname : Text
  pub local_ip : Text
  pub local_port : ℕ
  pub stun_addr : Option Text
  pub wan_url : Option Text
  pub timestamp : ℕ
  pub expires_at : ℕ

pub record EncryptedRendezvousEnvelope : Type 0 where
  pub topic : Text
  pub nonce : Text
  pub ciphertext : Text
  pub updated_at : ℕ

-- serde_json at records and envelopes: what it writes, it reads back.
pub record Json : Type 0 where
  pub record_to_vec : RendezvousRecord → Option (List ℕ)
  pub record_from_slice : List ℕ → Option RendezvousRecord
  pub record-back :
      (r : RendezvousRecord) (bs : List ℕ)
      → record_to_vec r ≡ some bs
      → record_from_slice bs ≡ some r
  pub envelope_to_string : EncryptedRendezvousEnvelope → Option Text
  pub envelope_from_str : Text → Option EncryptedRendezvousEnvelope
  pub envelope-back :
      (e : EncryptedRendezvousEnvelope) (s : Text)
      → envelope_to_string e ≡ some s
      → envelope_from_str s ≡ some e

pub data RendezvousError : Type 0 where
  nonce_failed serialization_failed encryption_failed topic_mismatch bad_nonce_hex bad_nonce_length
        bad_ciphertext_hex decryption_failed deserialization_failed bad_envelope :
      RendezvousError
  write_failed : Text → RendezvousError

abbrev pub rendezvous_salt : List ℕ
rendezvous_salt = codes "omasend-e2ee-rendezvous-salt-v1"

abbrev pub rendezvous_info : List ℕ
rendezvous_info = codes "omasend-e2ee-rendezvous-aes256-gcm-key-v1"

abbrev pub rendezvous_topic_key : List ℕ
rendezvous_topic_key = codes "omasend-gh-rendezvous-v1"

-- The bytes that stand for an identifier: its sixteen digits, or the trimmed text.
unfoldable pub identity_bytes : Text → List ℕ
identity_bytes oma_id =
    let normalized = normalize_oma_id oma_id in
    if len normalized == 16 then as_bytes normalized else as_bytes (trim oma_id)

module _ (deps : Deps) where
  unfoldable pub compute_rendezvous_topic : Text → Text
  compute_rendezvous_topic oma_id =
      deps.hex_encode (hmac_sha256 deps (identity_bytes oma_id) rendezvous_topic_key)

  unfoldable pub derive_rendezvous_key : Text → List ℕ
  derive_rendezvous_key oma_id =
      hkdf_sha256 deps (identity_bytes oma_id) rendezvous_salt rendezvous_info

-- What the device tells about itself.
pub record Device : Type 0 where
  pub local_ip : Text
  pub port : ℕ
  pub stun_addr : Option Text
  pub wan_url : Option Text
  pub device_id : Text
  pub hostname : Text

module _ (deps : Deps) (json : Json) where
  -- `random` is what `getrandom` gives for the nonce.
  unfoldable pub encrypt_rendezvous_record :
      Option (List ℕ) → Text → RendezvousRecord → Result EncryptedRendezvousEnvelope RendezvousError
  encrypt_rendezvous_record random oma_id r = do
    nonce ← or_fail random nonce_failed
    plaintext ← or_fail (json.record_to_vec r) serialization_failed
    ciphertext ←
        or_fail (deps.seal (derive_rendezvous_key deps oma_id) nonce plaintext) encryption_failed
    ok (record {
      topic = compute_rendezvous_topic deps oma_id;
      nonce = deps.hex_encode nonce;
      ciphertext = deps.hex_encode ciphertext;
      updated_at = r.timestamp;
    })

  unfoldable pub decrypt_rendezvous_record :
      Text → EncryptedRendezvousEnvelope → Result RendezvousRecord RendezvousError
  decrypt_rendezvous_record oma_id envelope = do
    guard (text_eq envelope.topic (compute_rendezvous_topic deps oma_id)) topic_mismatch
    nonce ← or_fail (deps.hex_decode envelope.nonce) bad_nonce_hex
    guard (length nonce == 12) bad_nonce_length
    ciphertext ← or_fail (deps.hex_decode envelope.ciphertext) bad_ciphertext_hex
    plaintext ←
        or_fail (deps.unseal (derive_rendezvous_key deps oma_id) nonce ciphertext) decryption_failed
    or_fail (json.record_from_slice plaintext) deserialization_failed

  unfoldable pub build_github_anchor_payload :
      Option (List ℕ) → Text → RendezvousRecord → Result Text RendezvousError
  build_github_anchor_payload random oma_id r = do
    envelope ← encrypt_rendezvous_record random oma_id r
    or_fail (json.envelope_to_string envelope) serialization_failed

  unfoldable pub parse_github_anchor_payload : Text → Text → Result RendezvousRecord RendezvousError
  parse_github_anchor_payload oma_id raw_json = do
    envelope ← or_fail (json.envelope_from_str raw_json) bad_envelope
    decrypt_rendezvous_record oma_id envelope

  abbrev pub anchor_record : Text → Device → ℕ → RendezvousRecord
  anchor_record oma_id d now = record {
    v = 1;
    topic = compute_rendezvous_topic deps oma_id;
    device_id = d.device_id;
    hostname = d.hostname;
    local_ip = d.local_ip;
    local_port = d.port;
    stun_addr = d.stun_addr;
    wan_url = d.wan_url;
    timestamp = now;
    expires_at = (now + 3600) % 2 ^ 64;
  }

  -- The result, and the content of rendezvous_anchor.json after it; a write that fails leaves it.
  unfoldable pub publish_local_rendezvous_anchor :
      Option (List ℕ)
      → Option Text
      → Text
      → Device
      → ℕ
      → Option Text
      → Result EncryptedRendezvousEnvelope RendezvousError × Option Text
  publish_local_rendezvous_anchor random write_error oma_id d now file =
      elim (encrypt_rendezvous_record random oma_id (anchor_record oma_id d now)) [
        | err e ↦ (err e, file)
        | ok envelope ↦ elim (json.envelope_to_string envelope) [
          | none ↦ (err serialization_failed, file)
          | some s ↦ elim write_error [
            | some e ↦ (err (write_failed e), file)
            | none ↦ (ok envelope, some s)
          ]
        ]
      ]

  unfoldable pub query_local_rendezvous_anchor : Text → Option Text → Option RendezvousRecord
  query_local_rendezvous_anchor oma_id none = none
  query_local_rendezvous_anchor oma_id (some content) = elim (json.envelope_from_str content) [
    | none ↦ none
    | some envelope ↦ elim (decrypt_rendezvous_record oma_id envelope) [
      | err e ↦ none
      | ok r ↦ some r
    ]
  ]
