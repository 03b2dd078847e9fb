-- ===== src/Rendezvous.antt =====
-- Keys, topics and sealed payloads of src/rendezvous.rs. The hash, the cipher, hex and JSON are
-- outside the repository: `Deps` has them with their documented laws.
pub mod Kdf
pub mod Record
pub mod Tunnel
pub mod Cache
pub mod Sample
mod Tests
use Prim.Native.Nat.{bit_xor}
use omarchy_omasend.Common.{
  ℕ, zero, suc, ◌+◌, ◌≡◌, Bool, true, false, List, [], ◌∷◌, ◌++◌, Option, none, some, ltb,
  if◌then◌else◌, length, drop, all,
}
use omarchy_omasend.Common.Text.{Text, codes, as_bytes}

abbrev pub is_byte : ℕ → Bool
is_byte b = ltb b 256

-- SHA-256 of sha2, AES-256-GCM of aes_gcm (a key, a nonce and a text; encryption fails on texts that
-- are too long, decryption on a wrong tag), and hex.
pub record Deps : Type 0 where
  pub sha256 : List ℕ → List ℕ
  pub sha256-length : (bs : List ℕ) → length (sha256 bs) ≡ 32
  pub seal : List ℕ → List ℕ → List ℕ → Option (List ℕ)
  pub unseal : List ℕ → List ℕ → List ℕ → Option (List ℕ)
  pub unseal-seal :
      (key nonce plaintext ciphertext : List ℕ)
      → seal key nonce plaintext ≡ some ciphertext
      → unseal key nonce ciphertext ≡ some plaintext
  pub seal-bytes :
      (key nonce plaintext ciphertext : List ℕ)
      → seal key nonce plaintext ≡ some ciphertext
      → all is_byte ciphertext ≡ true
  pub hex_encode : List ℕ → Text
  pub hex_decode : Text → Option (List ℕ)
  pub decode-encode : (bs : List ℕ) → all is_byte bs ≡ true → hex_decode (hex_encode bs) ≡ some bs

abbrev pub replicate : ℕ → ℕ → List ℕ
replicate zero x = []
replicate (suc n) x = x ∷ replicate n x

-- `target[..src.len()].copy_from_slice(src)`.
unfoldable pub copy_into : List ℕ → List ℕ → List ℕ
copy_into target src = src ++ drop (length src) target

-- `target[i] ^= src[i]` for each place.
unfoldable pub xor_into : List ℕ → List ℕ → List ℕ
xor_into [] src = []
xor_into (t ∷ target) [] = t ∷ target
xor_into (t ∷ target) (s ∷ src) = bit_xor t s ∷ xor_into target src

module _ (deps : Deps) where
  unfoldable pub hmac_sha256 : List ℕ → List ℕ → List ℕ
  hmac_sha256 key message =
      let k_padded =
        copy_into (replicate 64 0) (if ltb 64 (length key) then deps.sha256 key else key) in
      let ipad = xor_into (replicate 64 0x36) k_padded in
      let opad = xor_into (replicate 64 0x5c) k_padded in
      let inner_hash = deps.sha256 (ipad ++ message) in deps.sha256 (opad ++ inner_hash)

  unfoldable pub hkdf_sha256 : List ℕ → List ℕ → List ℕ → List ℕ
  hkdf_sha256 ikm salt info = let prk = hmac_sha256 salt ikm in hmac_sha256 prk (info ++ 1 ∷ [])
