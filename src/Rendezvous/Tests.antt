-- ===== src/Rendezvous/Tests.antt =====
-- The theorems about sealed records and payloads of src/rendezvous.rs at one record and one payload.
use omarchy_omasend.Common.{
  ℕ, ◌+◌, ◌<◌, ◌≡◌, refl, true, List, [], ◌∷◌, Option, none, some, length, arith, Result, ok, err,
}
use omarchy_omasend.Common.Text.{Text, codes, as_bytes, utf8}
use omarchy_omasend.OmaId.{format_oma_id}
use omarchy_omasend.Pairing.Sample.{
  get_number, put_number, get_text, put_text, get_option, put_option,
}
use omarchy_omasend.Rendezvous.{replicate, hkdf_sha256, hmac_sha256}
use omarchy_omasend.Rendezvous.Kdf.{hkdf, hkdf_sha256-rfc}
use omarchy_omasend.Rendezvous.Record.{
  RendezvousRecord, EncryptedRendezvousEnvelope, RendezvousError, Device, identity_bytes,
  compute_rendezvous_topic, derive_rendezvous_key, encrypt_rendezvous_record,
  decrypt_rendezvous_record, anchor_record, publish_local_rendezvous_anchor,
  query_local_rendezvous_anchor,
}
use omarchy_omasend.Rendezvous.Record.Opening.{
  query-publish_anchor, decrypt_rendezvous_record_sound,
}
use omarchy_omasend.Rendezvous.Tunnel.{
  EncryptedP2pEnvelope, encrypt_p2p_payload, decrypt_p2p_payload, decrypt-encrypt_p2p,
}
use omarchy_omasend.Rendezvous.Cache.{
  RendezvousStatus, immediate_status, get_rendezvous_status_fast,
}
use omarchy_omasend.Rendezvous.Sample.{
  sample_deps, sample_json, open_seal, put_record, get_record, put_envelope, get_envelope, put_ones,
  get_ones,
}

hkdf_sha256-rfc_example :
    hkdf_sha256 sample_deps (1 ∷ 2 ∷ []) (codes "salt") (codes "info")
    ≡ hkdf sample_deps.sha256 (codes "salt") (1 ∷ 2 ∷ []) (codes "info") 32
hkdf_sha256-rfc_example = hkdf_sha256-rfc sample_deps (1 ∷ 2 ∷ []) (codes "salt") (codes "info")

abbrev nonce : List ℕ
nonce = replicate 12 3

abbrev my_id : Text
my_id = codes "4539-1488-0343-6467"

abbrev my_digits : Text
my_digits = codes "4539148803436467"

same_identity : identity_bytes my_digits ≡ identity_bytes my_id
unfolding identity_bytes as_bytes utf8
same_identity = refl

abbrev device : Device
device = record {
  local_ip = codes "192.168.1.7";
  port = 80;
  stun_addr = none;
  wan_url = none;
  device_id = codes "d";
  hostname = codes "h";
}

abbrev kept_record : RendezvousRecord
kept_record = anchor_record sample_deps sample_json my_id device 100

envelope_of : Result EncryptedRendezvousEnvelope RendezvousError → EncryptedRendezvousEnvelope
envelope_of (ok e) = e
envelope_of (err e) = record { topic = []; nonce = []; ciphertext = []; updated_at = 0 }

published : Result EncryptedRendezvousEnvelope RendezvousError × Option Text
published =
    publish_local_rendezvous_anchor sample_deps sample_json (some nonce) none my_id device 100 none

is_published : published ≡ (ok (envelope_of published.0), published.1)
unfolding published envelope_of publish_local_rendezvous_anchor encrypt_rendezvous_record
    decrypt_rendezvous_record sample_json sample_deps open_seal put_record get_record put_envelope
    get_envelope put_number get_number put_text get_text put_ones get_ones put_option get_option
    compute_rendezvous_topic hmac_sha256
is_published = refl

query-publish_anchor_example :
    query_local_rendezvous_anchor sample_deps sample_json my_digits published.1 ≡ some kept_record
unfolding publish_local_rendezvous_anchor published
query-publish_anchor_example =
    query-publish_anchor sample_deps sample_json nonce none my_id my_digits device 100 none
      published.1 (envelope_of published.0) refl refl same_identity is_published

does_open :
    decrypt_rendezvous_record sample_deps sample_json my_id (envelope_of published.0)
    ≡ ok kept_record
unfolding published envelope_of publish_local_rendezvous_anchor encrypt_rendezvous_record
    decrypt_rendezvous_record sample_json sample_deps open_seal put_record get_record put_envelope
    get_envelope put_number get_number put_text get_text put_ones get_ones put_option get_option
    compute_rendezvous_topic hmac_sha256
does_open = refl

decrypt_rendezvous_record_sound_example :
    ((envelope_of published.0).topic ≡ compute_rendezvous_topic sample_deps my_id)
    × ((n : List ℕ) × (ciphertext : List ℕ) × (plaintext : List ℕ) × (sample_deps.hex_decode
            (envelope_of published.0).nonce
          ≡ some n)
        × (length n ≡ 12)
        × (sample_deps.hex_decode (envelope_of published.0).ciphertext ≡ some ciphertext)
        × (sample_deps.unseal (derive_rendezvous_key sample_deps my_id) n ciphertext
            ≡ some plaintext)
        × (sample_json.record_from_slice plaintext ≡ some kept_record))
decrypt_rendezvous_record_sound_example =
    decrypt_rendezvous_record_sound sample_deps sample_json my_id (envelope_of published.0)
      kept_record does_open

abbrev other_id : Text
other_id = codes "0000-0000-0000-0000"

abbrev secret : List ℕ
secret = codes "secret"

abbrev sealed : EncryptedP2pEnvelope
sealed = record {
  v = 2;
  sender_oma_id = my_id;
  nonce = nonce;
  ciphertext = secret;
  timestamp = 100;
}

is_sealed : encrypt_p2p_payload sample_deps (some nonce) 100 my_digits other_id secret ≡ ok sealed
unfolding encrypt_p2p_payload sample_deps open_seal format_oma_id as_bytes utf8
is_sealed = refl

decrypt-encrypt_p2p_example : decrypt_p2p_payload sample_deps other_id sealed ≡ ok secret
decrypt-encrypt_p2p_example =
    decrypt-encrypt_p2p sample_deps nonce 100 my_digits other_id secret sealed refl refl is_sealed

abbrev first_call : RendezvousStatus × Option RendezvousStatus
first_call =
    get_rendezvous_status_fast sample_deps sample_json true my_id (codes "a") (codes "LAN") 100 none
      none

stays_near : 120 < first_call.0.updated_at + 30
unfolding get_rendezvous_status_fast immediate_status
stays_near = omega arith
