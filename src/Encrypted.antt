-- ===== src/Encrypted.antt =====
-- Files that arrive encrypted with the key of the session, in src/main.rs: the cipher's two functions,
-- and in Upload the endpoint `/api/upload-encrypted`. AES-256-GCM and hex are those of
-- `Rendezvous.Deps`.
pub mod Upload
pub mod Receipt
pub mod Sent
pub mod Clipboard
mod Tests
use omarchy_omasend.Common.{
  ℕ, ◌≡◌, refl, List, Option, some, ◌==◌, length, Result, ok, ◌>>=◌, ◌>>◌, guard, or_fail,
  Bool-cases, Option-cases, inl, inr, subst,
}
use omarchy_omasend.Common.Text.{Text}
use omarchy_omasend.Rendezvous.{Deps}

pub data CipherError : Type 0 where
  bad_key_hex bad_key_length bad_iv_length random_failed encryption_failed decryption_failed :
      CipherError

module _ (deps : Deps) where
  unfoldable pub decrypt_aes256_gcm : Text → List ℕ → List ℕ → Result (List ℕ) CipherError
  decrypt_aes256_gcm key_hex iv_bytes ciphertext = do
    key_bytes ← or_fail (deps.hex_decode key_hex) bad_key_hex
    guard (length key_bytes == 32) bad_key_length
    guard (length iv_bytes == 12) bad_iv_length
    or_fail (deps.unseal key_bytes iv_bytes ciphertext) decryption_failed

  -- `random` is what `getrandom` gives for the twelve bytes of the nonce.
  unfoldable pub encrypt_aes256_gcm :
      Option (List ℕ) → Text → List ℕ → Result (List ℕ × List ℕ) CipherError
  encrypt_aes256_gcm random key_hex plaintext = do
    key_bytes ← or_fail (deps.hex_decode key_hex) bad_key_hex
    guard (length key_bytes == 32) bad_key_length
    iv ← or_fail random random_failed
    ciphertext ← or_fail (deps.seal key_bytes iv plaintext) encryption_failed
    ok (iv, ciphertext)

  sealed-ok : {A E : Type 0} {x y : A} → ◌≡◌ {A = Result A E} (ok x) (ok y) → x ≡ y
  sealed-ok {A} {E} {x} {y} h = cc

  -- What is encrypted under a key is decrypted again under it, with the nonce that was drawn.
  pub decrypt-encrypt_aes256_gcm :
      (key_hex : Text) (random iv plaintext ciphertext : List ℕ)
      → length random ≡ 12
      → encrypt_aes256_gcm (some random) key_hex plaintext ≡ ok (iv, ciphertext)
      → decrypt_aes256_gcm key_hex iv ciphertext ≡ ok plaintext
  unfolding encrypt_aes256_gcm decrypt_aes256_gcm
  decrypt-encrypt_aes256_gcm key_hex random iv plaintext ciphertext twelve h =
      elim (Option-cases (deps.hex_decode key_hex)) [
        | inl bad ↦ absurd (cc (rw (bad, encrypt_aes256_gcm) at h))
        | inr (key, good) ↦ elim (Bool-cases (length key == 32)) [
          | inr short ↦ absurd (cc (rw (good, short, encrypt_aes256_gcm) at h))
          | inl long ↦ elim (Option-cases (deps.seal key random plaintext)) [
            | inl fails ↦ absurd (cc (rw (good, long, fails, encrypt_aes256_gcm) at h))
            | inr (c, e) ↦
                let same : (random, c) ≡ (iv, ciphertext) =
                  sealed-ok (rw (good, long, e, encrypt_aes256_gcm) at h) in
                subst (λ s. decrypt_aes256_gcm key_hex s.0 s.1 ≡ ok plaintext) same
                  (rw
                    (
                      good,
                      long,
                      twelve,
                      deps.unseal-seal key random plaintext c e,
                      decrypt_aes256_gcm,
                    )
                    refl)
          ]
        ]
      ]
