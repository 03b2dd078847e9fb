-- ===== src/Rendezvous/Kdf.antt =====
-- `hmac_sha256` and `hkdf_sha256` of src/rendezvous.rs against RFC 2104 and RFC 5869.
use Prim.Native.Nat.{bit_xor}
use omarchy_omasend.Common.{
  ℕ, zero, suc, ◌+◌, ◌-◌, ◌/◌, ◌≤◌, ◌≡◌, refl, sym, ◌∙◌, ap, List, [], ◌∷◌, ◌++◌, map, ltb,
  if◌then◌else◌, length, drop, take, take_all, length-append, arith, Bool-cases, inl, inr,
}
use omarchy_omasend.Rendezvous.{Deps, replicate, copy_into, xor_into, hmac_sha256, hkdf_sha256}

-- RFC 2104 with the block length 64: zeros are appended to the key, which is hashed first when it is
-- longer than a block; each of its bytes is combined with the inner and the outer pad.
module _ (hash : List ℕ → List ℕ) where
  abbrev pub block_key : List ℕ → List ℕ
  block_key key =
      let k = if ltb 64 (length key) then hash key else key in k ++ replicate (64 - length k) 0

  abbrev pub hmac : List ℕ → List ℕ → List ℕ
  hmac key text =
      hash (map (bit_xor 0x5c) (block_key key) ++ hash (map (bit_xor 0x36) (block_key key) ++ text))

  -- RFC 5869 with a hash of 32 bytes: the blocks T(1), T(2), .. , and the first `l` bytes of them.
  abbrev pub block : List ℕ → List ℕ → ℕ → List ℕ
  block prk info zero = []
  block prk info (suc i) = hmac prk (block prk info i ++ info ++ suc i ∷ [])

  abbrev pub blocks : List ℕ → List ℕ → ℕ → List ℕ
  blocks prk info zero = []
  blocks prk info (suc n) = blocks prk info n ++ block prk info (suc n)

  abbrev pub hkdf : List ℕ → List ℕ → List ℕ → ℕ → List ℕ
  hkdf salt ikm info l = take l (blocks (hmac salt ikm) info ((l + 31) / 32))

length-replicate : (n x : ℕ) → length (replicate n x) ≡ n
length-replicate zero x = refl
length-replicate (suc n) x = ap suc (length-replicate n x)

drop-replicate : (k n x : ℕ) → drop k (replicate n x) ≡ replicate (n - k) x
drop-replicate zero n x = ap (λ m. replicate m x) {x = n} {y = n - 0} (omega arith)
drop-replicate (suc k) zero x = ap (λ m. replicate m x) {x = 0} {y = 0 - suc k} (omega arith)
drop-replicate (suc k) (suc n) x =
    drop-replicate k n x ∙ ap (λ m. replicate m x) {x = n - k} {y = suc n - suc k} (omega arith)

xor-constant :
    (n c : ℕ) (ks : List ℕ) → length ks ≡ n → xor_into (replicate n c) ks ≡ map (bit_xor c) ks
unfolding xor_into
xor-constant zero c [] h = refl
xor-constant zero c (k ∷ ks) h = absurd (omega arith)
xor-constant (suc n) c [] h = absurd (omega arith)
xor-constant (suc n) c (k ∷ ks) h = ap (◌∷◌ (bit_xor c k)) (xor-constant n c ks (omega arith))

module _ (deps : Deps) where
  key_fits : (key : List ℕ) → length (if ltb 64 (length key) then deps.sha256 key else key) ≤ 64
  key_fits key = elim (Bool-cases (ltb 64 (length key))) [
    | inl long ↦ rw long (omega (arith, deps.sha256-length key))
    | inr short ↦ rw short (ground (arith, short))
  ]

  padded : (k : List ℕ) → copy_into (replicate 64 0) k ≡ k ++ replicate (64 - length k) 0
  unfolding copy_into
  padded k = ap (λ zeros. k ++ zeros) (drop-replicate (length k) 64 0)

  length-block_key : (key : List ℕ) → length (block_key deps.sha256 key) ≡ 64
  length-block_key key =
      let k = if ltb 64 (length key) then deps.sha256 key else key in
      omega (
        arith,
        length-append k (replicate (64 - length k) 0),
        length-replicate (64 - length k) 0,
        key_fits key,
      )

  hmac_sha256-rfc : (key text : List ℕ) → hmac_sha256 deps key text ≡ hmac deps.sha256 key text
  unfolding hmac_sha256
  hmac_sha256-rfc key text =
      let k = if ltb 64 (length key) then deps.sha256 key else key in
      let full = length-block_key key in
      combine (xor_into (replicate 64 0x36) (copy_into (replicate 64 0) k))
        (map (bit_xor 0x36) (block_key deps.sha256 key))
        (xor_into (replicate 64 0x5c) (copy_into (replicate 64 0) k))
        (map (bit_xor 0x5c) (block_key deps.sha256 key))
        (ap (xor_into (replicate 64 0x36)) (padded k)
          ∙ xor-constant 64 0x36 (block_key deps.sha256 key) full)
        (ap (xor_into (replicate 64 0x5c)) (padded k)
          ∙ xor-constant 64 0x5c (block_key deps.sha256 key) full)
    where
      combine :
          (a b c d : List ℕ)
          → a ≡ b
          → c ≡ d
          → deps.sha256 (c ++ deps.sha256 (a ++ text)) ≡ deps.sha256 (d ++ deps.sha256 (b ++ text))
      combine a b c d p q = rw (p, q) refl

  length-hmac_sha256 : (key text : List ℕ) → length (hmac_sha256 deps key text) ≡ 32
  unfolding hmac_sha256
  length-hmac_sha256 key text = deps.sha256-length _

  -- The key that is derived is the 32 bytes that RFC 5869 gives for the salt, the input and the info,
  -- over HMAC as RFC 2104 has it.
  pub hkdf_sha256-rfc :
      (ikm salt info : List ℕ) → hkdf_sha256 deps ikm salt info ≡ hkdf deps.sha256 salt ikm info 32
  unfolding hkdf_sha256
  hkdf_sha256-rfc ikm salt info =
      let prk = hmac_sha256 deps salt ikm in
      let okm = hmac_sha256 deps prk (info ++ 1 ∷ []) in
      sym (take_all 32 okm (omega (arith, length-hmac_sha256 prk (info ++ 1 ∷ []))))
      ∙ ap (take 32) (
          hmac_sha256-rfc prk (info ++ 1 ∷ [])
          ∙ ap (λ p. hmac deps.sha256 p (info ++ 1 ∷ [])) (hmac_sha256-rfc salt ikm))
