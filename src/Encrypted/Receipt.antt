-- ===== src/Encrypted/Receipt.antt =====
-- What one encrypted upload of src/main.rs leaves behind, on every path.
use omarchy_omasend.Common.{
  ℕ, ◌+◌, ◌%◌, ◌^◌, ◌≤◌, ◌<◌, ◌≡◌, refl, Bool, true, false, List, ◌∷◌, none, some, ltb, length,
  arith, Bool-cases, Option-cases, inl, inr, Result, ok, err, subst, ◌⊎◌,
}
use omarchy_omasend.Common.Text.{Text}
use omarchy_omasend.HttpBody
use omarchy_omasend.HttpBody.{memory, staged, World, read_http_body}
use omarchy_omasend.HttpBody.Exact.{IsExact, IsSent, undone, done, read_http_body-Ended}
use omarchy_omasend.Filename.{get_unique_filepath}
use omarchy_omasend.SecureFile.{Leaves, whole, fails, write_secure_bytes-Saves}
use omarchy_omasend.Notified.{record_notified_file}
use omarchy_omasend.Transfer.Upload.{Deps, Upload, drop_body}
use omarchy_omasend.Transfer.Upload.Receipt.{exact-IsRead}
use omarchy_omasend.Rendezvous
use omarchy_omasend.Encrypted.{CipherError, decrypt_aes256_gcm}
use omarchy_omasend.Encrypted.Upload.{
  Io, EncryptedReply, name_panics, too_large, busy, bad_iv, bad_iv_hex, body_failed, write_failed,
  stored, cipher_failed, max_encrypted_upload_size, try_acquire, let_go, iv_header, lacks_space,
  Server, exists, to_bytes, clean_filename, decrypt_body, save_decrypted, end_upload, take_body,
  upload_encrypted,
}

abbrev pub is_stored : EncryptedReply → Bool
is_stored (stored filename size) = true
is_stored _ = false

-- A guard that was taken and dropped is counted no more.
let_go-acquire : (active active' : ℕ) → try_acquire active ≡ some active' → let_go active' ≡ active
unfolding try_acquire let_go
let_go-acquire active active' h = ground (arith, h)

some_path : {x y : List ℕ} → some x ≡ some y → x ≡ y
some_path {x} {y} e = cc

module _ (deps : Deps) (cipher : Rendezvous.Deps) where
  -- The file that was stored is what the body decrypts to, under the key of the session and the
  -- nonce of the header; the body has the announced length.
  pub record IsSaved (io : Io) (key_hex : Text) (u : Upload) (s : Server deps cipher) (clean : Text)
      (plaintext : List ℕ) (r : EncryptedReply × Server deps cipher) : Type 0 where
    pub allowed : u.content_length ≤ max_encrypted_upload_size
    pub named : clean_filename deps cipher io u.req ≡ some clean
    pub iv_hex : Text
    pub iv : List ℕ
    pub ciphertext : List ℕ
    pub with_header : iv_header u.req ≡ some iv_hex
    pub decoded : cipher.hex_decode iv_hex ≡ some iv
    pub sent : IsSent deps.bodies u.content_length u.initial_body s.world r.1.world ciphertext
    pub opened : decrypt_aes256_gcm cipher key_hex iv ciphertext ≡ ok plaintext
    pub reply : r.0 ≡ stored clean (length plaintext)
    pub downloads :
        r.1.downloads
        ≡ (get_unique_filepath deps.names (exists deps cipher s) io.name_millis clean, plaintext)
          ∷ s.downloads
    pub notified :
        r.1.notified
        ≡ record_notified_file io.locks io.notified_at
            (get_unique_filepath deps.names (exists deps cipher s) io.name_millis clean)
            s.notified
    pub received : r.1.received ≡ (s.received + 1) % 2 ^ 64
    pub balanced : r.1.world.staged_bytes ≡ s.world.staged_bytes
    pub released : r.1.active_encrypted_uploads ≡ s.active_encrypted_uploads

  -- Nothing was stored, and nothing is left of the request but, where the write failed, perhaps a
  -- temporary file with what was decrypted.
  pub record IsRefused (s : Server deps cipher) (r : EncryptedReply × Server deps cipher)
      : Type 0 where
    pub not_stored : is_stored r.0 ≡ false
    pub downloads :
        (r.1.downloads ≡ s.downloads)
        ⊎ ((r.0 ≡ write_failed) × (bytes : List ℕ) × Leaves bytes s.downloads r.1.downloads)
    pub notified : r.1.notified ≡ s.notified
    pub received : r.1.received ≡ s.received
    pub balanced : r.1.world.staged_bytes ≡ s.world.staged_bytes
    pub released : r.1.active_encrypted_uploads ≡ s.active_encrypted_uploads

  pub data Outcome (io : Io) (key_hex : Text) (u : Upload) (s : Server deps cipher)
      (r : EncryptedReply × Server deps cipher) : Type 0 where
    aborted :
        r.0 ≡ name_panics → clean_filename deps cipher io u.req ≡ none → Outcome io key_hex u s r
    refused : IsRefused s r → Outcome io key_hex u s r
    saved :
        (clean : Text) (plaintext : List ℕ)
        → IsSaved io key_hex u s clean plaintext r
        → Outcome io key_hex u s r

  refused_at_once :
      (io : Io) (key_hex : Text) (u : Upload) (s : Server deps cipher) (e : EncryptedReply)
      → is_stored e ≡ false
      → Outcome io key_hex u s (e, s)
  refused_at_once io key_hex u s e h = refused (record {
    not_stored = h;
    downloads = inl refl;
    notified = refl;
    received = refl;
    balanced = refl;
    released = refl;
  })

  -- A body that is given back is the one that was sent.
  to_bytes-IsSent :
      (io : Io) (body : HttpBody.HttpBody) (n : ℕ) (initial : List ℕ)
      (before after : World deps.bodies) (ciphertext : List ℕ)
      → IsExact deps.bodies body n initial before after
      → to_bytes deps cipher io body after ≡ some ciphertext
      → IsSent deps.bodies n initial before (drop_body deps body after) ciphertext
  unfolding to_bytes drop_body
  to_bytes-IsSent io (memory bs) n initial before after c exact h =
      subst (IsSent deps.bodies n initial before after) (some_path h) exact.0
  to_bytes-IsSent io (staged total reserved b s m) n initial before after c
        (bytes, file, sent, _, _, _, _, _, _) h =
      elim (Bool-cases (ltb max_encrypted_upload_size total)) [
        | inl long ↦ absurd (cc (rw (long, to_bytes) at h))
        | inr fits ↦ elim (Bool-cases io.reads) [
          | inr unread ↦ absurd (cc (rw (fits, unread, to_bytes) at h))
          | inl reads ↦
              let same : bytes ≡ c = some_path (rw (fits, reads, file, to_bytes) at h) in
              subst
                (IsSent deps.bodies n initial before
                  (drop_body deps (staged total reserved b s m) after))
                same (record { size = sent.size; content = sent.content })
        ]
      ]

  -- What a body that decrypts went through.
  pub record IsOpened (io : Io) (key_hex : Text) (u : Upload) (body : HttpBody.HttpBody)
      (w : World deps.bodies) (plaintext : List ℕ) : Type 0 where
    pub iv_hex : Text
    pub iv : List ℕ
    pub ciphertext : List ℕ
    pub with_header : iv_header u.req ≡ some iv_hex
    pub decoded : cipher.hex_decode iv_hex ≡ some iv
    pub read_back : to_bytes deps cipher io body w ≡ some ciphertext
    pub opened : decrypt_aes256_gcm cipher key_hex iv ciphertext ≡ ok plaintext

  pub data Decrypted (io : Io) (key_hex : Text) (u : Upload) (body : HttpBody.HttpBody)
      (w : World deps.bodies) (r : Result (List ℕ) EncryptedReply) : Type 0 where
    wrong : (e : EncryptedReply) → r ≡ err e → is_stored e ≡ false → Decrypted io key_hex u body w r
    opens :
        (plaintext : List ℕ)
        → r ≡ ok plaintext
        → IsOpened io key_hex u body w plaintext
        → Decrypted io key_hex u body w r

  cipher_cases :
      (r : Result (List ℕ) CipherError)
      → ((e : CipherError) × (r ≡ err e)) ⊎ ((a : List ℕ) × (r ≡ ok a))
  cipher_cases (ok a) = inr (a, refl)
  cipher_cases (err e) = inl (e, refl)

  decrypt_body-Decrypted :
      (io : Io) (key_hex : Text) (u : Upload) (body : HttpBody.HttpBody) (w : World deps.bodies)
      → Decrypted io key_hex u body w (decrypt_body deps cipher io key_hex u.req body w)
  unfolding decrypt_body
  decrypt_body-Decrypted io key_hex u body w = elim (Option-cases (iv_header u.req)) [
    | inl no_iv ↦ rw (no_iv, decrypt_body) (wrong bad_iv refl refl)
    | inr (iv_hex, with_iv) ↦ elim (Option-cases (cipher.hex_decode iv_hex)) [
      | inl no_hex ↦ rw (with_iv, no_hex, decrypt_body) (wrong bad_iv_hex refl refl)
      | inr (iv, decoded) ↦ elim (Option-cases (to_bytes deps cipher io body w)) [
        | inl lost ↦ rw (with_iv, decoded, lost, decrypt_body) (wrong body_failed refl refl)
        | inr (c, found) ↦ elim (cipher_cases (decrypt_aes256_gcm cipher key_hex iv c)) [
          | inl (e, bad) ↦
              rw (with_iv, decoded, found, bad, decrypt_body) (wrong (cipher_failed e) refl refl)
          | inr (plaintext, right) ↦
              rw (with_iv, decoded, found, right, decrypt_body)
                (opens plaintext refl (record {
                  iv_hex = iv_hex;
                  iv = iv;
                  ciphertext = c;
                  with_header = with_iv;
                  decoded = decoded;
                  read_back = found;
                  opened = right;
                }))
        ]
      ]
    ]
  ]

  take_body-Outcome :
      (io : Io) (key_hex : Text) (u : Upload) (s : Server deps cipher) (body : HttpBody.HttpBody)
      (w : World deps.bodies) (active : ℕ)
      → u.content_length ≤ max_encrypted_upload_size
      → s.world.staged_bytes < 2 ^ 64
      → let_go active ≡ s.active_encrypted_uploads
      → IsExact deps.bodies body u.content_length u.initial_body s.world w
      → Outcome io key_hex u s (
          take_body deps cipher io key_hex u.req body
            (record s { world = w; active_encrypted_uploads = active }))
  unfolding take_body end_upload save_decrypted clean_filename
  take_body-Outcome io key_hex u s body w active allowed small back exact =
      let bound : u.content_length < 2 ^ 64 = omega (arith, allowed) in
      let read =
        exact-IsRead deps body u.content_length u.initial_body s.world w small bound exact in
      elim (Option-cases (clean_filename deps cipher io u.req)) [
        | inl panics ↦ rw (panics, take_body) (aborted refl panics)
        | inr (clean, name) ↦ elim (decrypt_body-Decrypted io key_hex u body w) [
          | wrong e bad no_file ↦
              rw (name, bad, take_body)
                (refused (record {
                  not_stored = no_file;
                  downloads = inl refl;
                  notified = refl;
                  received = refl;
                  balanced = read.1.balanced;
                  released = back;
                }))
          | opens plaintext right went ↦
              elim (Bool-cases (lacks_space io.avail (length plaintext))) [
                | inl full ↦
                    rw (name, right, full, take_body, save_decrypted)
                      (refused (record {
                        not_stored = refl;
                        downloads = inl refl;
                        notified = refl;
                        received = refl;
                        balanced = read.1.balanced;
                        released = back;
                      }))
                | inr free ↦
                    elim (write_secure_bytes-Saves io.write io.tmp_suffix
                      (get_unique_filepath deps.names (exists deps cipher s) io.name_millis clean)
                      plaintext s.downloads) [
                        | fails left e kept ↦
                            rw (name, right, free, e, take_body, save_decrypted)
                              (refused (record {
                                not_stored = refl;
                                downloads = inr (refl, plaintext, kept);
                                notified = refl;
                                received = refl;
                                balanced = read.1.balanced;
                                released = back;
                              }))
                        | whole e ↦
                            rw (name, right, free, e, take_body, save_decrypted)
                              (saved clean plaintext (record {
                                allowed = allowed;
                                named = name;
                                iv_hex = went.iv_hex;
                                iv = went.iv;
                                ciphertext = went.ciphertext;
                                with_header = went.with_header;
                                decoded = went.decoded;
                                sent =
                                    to_bytes-IsSent io body u.content_length u.initial_body s.world
                                      w went.ciphertext exact went.read_back;
                                opened = went.opened;
                                reply = refl;
                                downloads = refl;
                                notified = refl;
                                received = refl;
                                balanced = read.1.balanced;
                                released = back;
                              }))
                      ]
              ]
        ]
      ]

  within : (n : ℕ) → ltb max_encrypted_upload_size n ≡ false → n ≤ max_encrypted_upload_size
  within n h = ground arith

  -- While the counter of staged bytes is below 2 ^ 64, an encrypted upload ends in one of three ways.
  -- The name panics. Or it is not answered as stored: then the counters, the guard and the announced
  -- files are as before, and the download directory too, but that a failed write can leave a file
  -- there whose name begins with `.tmp_`. Or the body is what was sent, of the announced length, and the file that it decrypts to is stored whole under a
  -- name that `get_unique_filepath` gives, while the answer has the cleaned name.
  pub upload_encrypted-Outcome :
      (io : Io) (key_hex : Text) (u : Upload) (s : Server deps cipher)
      → s.world.staged_bytes < 2 ^ 64
      → Outcome io key_hex u s (upload_encrypted deps cipher io key_hex u s)
  unfolding upload_encrypted end_upload
  upload_encrypted-Outcome io key_hex u s small =
      elim (Bool-cases (ltb max_encrypted_upload_size u.content_length)) [
        | inl large ↦ rw (large, upload_encrypted) (refused_at_once io key_hex u s too_large refl)
        | inr fits ↦ elim (Option-cases (try_acquire s.active_encrypted_uploads)) [
          | inl full ↦ rw (fits, full, upload_encrypted) (refused_at_once io key_hex u s busy refl)
          | inr (active, free) ↦
              let back = let_go-acquire s.active_encrypted_uploads active free in
              elim (read_http_body-Ended deps.bodies io.files u.content_length u.initial_body true
                max_encrypted_upload_size s.world) [
                  | undone e c f ↦
                      rw (fits, free, e, upload_encrypted)
                        (refused (record {
                          not_stored = refl;
                          downloads = inl refl;
                          notified = refl;
                          received = refl;
                          balanced = c;
                          released = back;
                        }))
                  | done body e exact ↦
                      rw (fits, free, e, upload_encrypted)
                        (take_body-Outcome io key_hex u s body
                          (read_http_body deps.bodies io.files u.content_length u.initial_body true
                            max_encrypted_upload_size s.world).1
                          active (within u.content_length fits) small back exact)
                ]
        ]
      ]
