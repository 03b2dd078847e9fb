-- ===== src/Rendezvous/Tunnel.antt =====
-- Sealed payloads between two devices, of src/rendezvous.rs: the key of a pair of identifiers, sealing
-- and opening.
use omarchy_omasend.Common.{
  ℕ, ◌≡◌, refl, ◌∙◌, ap, subst, Bool, true, false, ◌&&◌, List, [], ◌∷◌, ◌++◌, Option, some, ltb,
  ◌==◌, if◌then◌else◌, length, all, Result, ok, ◌>>=◌, ◌>>◌, guard, or_fail, arith, Bool-cases,
  Option-cases, inl, inr,
}
use omarchy_omasend.Common.Text.{Text, codes, as_bytes}
use omarchy_omasend.OmaId.{normalize_oma_id, format_oma_id}
use omarchy_omasend.OmaId.Format.{normalize-format}
use omarchy_omasend.Rendezvous.{Deps, is_byte, hkdf_sha256}

pub record EncryptedP2pEnvelope : Type 0 where
  pub v : ℕ
  pub sender_oma_id : Text
  pub nonce : Text
  pub ciphertext : Text
  pub timestamp : ℕ

pub data P2pError : Type 0 where
  nonce_failed encryption_failed bad_nonce_hex bad_nonce_length bad_ciphertext_hex
        decryption_failed :
      P2pError

-- `a <= b` on strings: their bytes, in the order of a dictionary.
unfoldable pub bytes_le : List ℕ → List ℕ → Bool
bytes_le [] b = true
bytes_le (x ∷ a) [] = false
bytes_le (x ∷ a) (y ∷ b) = if ltb x y then true else x == y && bytes_le a b

-- The two parts one after the other, the smaller one first.
unfoldable pub canonical_order : List ℕ → List ℕ → List ℕ
canonical_order first second = if bytes_le first second then first ++ second else second ++ first

module _ (deps : Deps) where
  unfoldable pub derive_p2p_session_key : Text → Text → List ℕ
  derive_p2p_session_key local_oma_id remote_oma_id =
      let norm_local = as_bytes (normalize_oma_id local_oma_id) in
      let norm_remote = as_bytes (normalize_oma_id remote_oma_id) in
      hkdf_sha256 deps (canonical_order norm_local norm_remote) (codes "omasend-p2p-noise-salt-v2")
        (codes "omasend-p2p-chacha-aes-tunnel-v2")

  -- `random` is what `getrandom` gives for the nonce.
  unfoldable pub encrypt_p2p_payload :
      Option (List ℕ) → ℕ → Text → Text → List ℕ → Result EncryptedP2pEnvelope P2pError
  encrypt_p2p_payload random now local_oma_id remote_oma_id plaintext = do
    nonce ← or_fail random nonce_failed
    ciphertext ←
        or_fail (deps.seal (derive_p2p_session_key local_oma_id remote_oma_id) nonce plaintext)
          encryption_failed
    ok (record {
      v = 2;
      sender_oma_id = format_oma_id local_oma_id;
      nonce = deps.hex_encode nonce;
      ciphertext = deps.hex_encode ciphertext;
      timestamp = now;
    })

  unfoldable pub decrypt_p2p_payload : Text → EncryptedP2pEnvelope → Result (List ℕ) P2pError
  decrypt_p2p_payload local_oma_id envelope = do
    nonce ← or_fail (deps.hex_decode envelope.nonce) bad_nonce_hex
    guard (length nonce == 12) bad_nonce_length
    ciphertext ← or_fail (deps.hex_decode envelope.ciphertext) bad_ciphertext_hex
    or_fail
        (deps.unseal (derive_p2p_session_key local_oma_id envelope.sender_oma_id) nonce ciphertext)
        decryption_failed

ok_path : {A E : Type 0} {x y : A} → ◌≡◌ {A = Result A E} (ok x) (ok y) → x ≡ y
ok_path {A} {E} {x} {y} h = cc

bytes_le-antisym : (a b : List ℕ) → bytes_le a b ≡ true → bytes_le b a ≡ true → a ≡ b
unfolding bytes_le
bytes_le-antisym [] [] h k = refl
bytes_le-antisym [] (y ∷ b) h k = absurd (cc k)
bytes_le-antisym (x ∷ a) [] h k = absurd (cc h)
bytes_le-antisym (x ∷ a) (y ∷ b) h k = ground (arith, bytes_le-antisym a b)

bytes_le-total : (a b : List ℕ) → bytes_le a b ≡ false → bytes_le b a ≡ true
unfolding bytes_le
bytes_le-total [] b h = absurd (cc h)
bytes_le-total (x ∷ a) [] h = refl
bytes_le-total (x ∷ a) (y ∷ b) h = ground (arith, bytes_le-total a b)

canonical_order_comm : (a b : List ℕ) → canonical_order a b ≡ canonical_order b a
unfolding canonical_order
canonical_order_comm a b = elim (Bool-cases (bytes_le a b)) [
  | inr f ↦ rw (f, bytes_le-total a b f) refl
  | inl t ↦ elim (Bool-cases (bytes_le b a)) [
    | inr f ↦ rw (t, f) refl
    | inl u ↦ rw (bytes_le-antisym a b t u) refl
  ]
]

module _ (deps : Deps) where
  -- Both devices derive the same key, from any spelling of the two identifiers.
  derive_p2p_session_key_comm :
      (a b a' : Text)
      → normalize_oma_id a' ≡ normalize_oma_id a
      → derive_p2p_session_key deps b a' ≡ derive_p2p_session_key deps a b
  unfolding derive_p2p_session_key
  derive_p2p_session_key_comm a b a' h =
      let salt : List ℕ = codes "omasend-p2p-noise-salt-v2" in
      let info : List ℕ = codes "omasend-p2p-chacha-aes-tunnel-v2" in
      ap (λ ikm. hkdf_sha256 deps ikm salt info)
        (ap (λ n. canonical_order (as_bytes (normalize_oma_id b)) (as_bytes n)) h
          ∙ canonical_order_comm (as_bytes (normalize_oma_id b)) (as_bytes (normalize_oma_id a)))

  abbrev sealed : List ℕ → ℕ → Text → List ℕ → EncryptedP2pEnvelope
  sealed nonce now sender ciphertext = record {
    v = 2;
    sender_oma_id = format_oma_id sender;
    nonce = deps.hex_encode nonce;
    ciphertext = deps.hex_encode ciphertext;
    timestamp = now;
  }

  -- What one device seals for another, the other opens, whatever is sealed, if the nonce is of twelve
  -- bytes: the key does not depend on the side or on how the identifiers are written.
  pub decrypt-encrypt_p2p :
      (nonce : List ℕ) (now : ℕ) (sender receiver : Text) (plaintext : List ℕ)
      (envelope : EncryptedP2pEnvelope)
      → all is_byte nonce ≡ true
      → length nonce ≡ 12
      → encrypt_p2p_payload deps (some nonce) now sender receiver plaintext ≡ ok envelope
      → decrypt_p2p_payload deps receiver envelope ≡ ok plaintext
  unfolding encrypt_p2p_payload decrypt_p2p_payload
  decrypt-encrypt_p2p nonce now sender receiver plaintext envelope bytes twelve h =
      let key = derive_p2p_session_key deps sender receiver in
      elim (Option-cases (deps.seal key nonce plaintext)) [
        | inl e ↦ absurd (cc (rw (e, encrypt_p2p_payload) at h))
        | inr (c, e) ↦
            let same : sealed nonce now sender c ≡ envelope =
              ok_path (rw (e, encrypt_p2p_payload) at h) in
            subst (λ env. decrypt_p2p_payload deps receiver env ≡ ok plaintext) same
              (rw
                (
                  deps.decode-encode nonce bytes,
                  twelve,
                  deps.decode-encode c (deps.seal-bytes key nonce plaintext c e),
                  derive_p2p_session_key_comm sender receiver (format_oma_id sender)
                      (normalize-format sender),
                  deps.unseal-seal key nonce plaintext c e,
                  decrypt_p2p_payload,
                )
                refl)
      ]
