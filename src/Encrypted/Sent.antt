-- ===== src/Encrypted/Sent.antt =====
-- A file that a device encrypts and sends to `/api/upload-encrypted` of src/main.rs is saved.
use omarchy_omasend.Common.{
  ◌++◌, inr, ℕ, ◌≤◌, ◌<◌, ◌≡◌, refl, ap, true, false, List, ◌∷◌, some, ltb, length, ◌+◌, arith, ok,
}
use omarchy_omasend.Common.Text.{Text}
use omarchy_omasend.HttpBody
use omarchy_omasend.HttpBody.Delivery.{
  IsWilling, Delivers, Holds, Arrives, arrives, read_http_body-Delivers,
}
use omarchy_omasend.SecureFile.{done, write_secure_bytes}
use omarchy_omasend.Staging.Budget.{try_reserve}
use omarchy_omasend.HttpBody.{
  staged, Files, memory, World, fill, read_memory, read_http_body, in_memory_body_limit,
}
use omarchy_omasend.Filename.{get_unique_filepath}
use omarchy_omasend.Transfer.Upload.{Deps, Upload, drop_body}
use omarchy_omasend.Rendezvous
use omarchy_omasend.Encrypted.{decrypt_aes256_gcm, encrypt_aes256_gcm, decrypt-encrypt_aes256_gcm}
use omarchy_omasend.Staging.Uploads.{max_concurrent_encrypted_uploads}
use omarchy_omasend.Encrypted.Upload.{
  Io, stored, max_encrypted_upload_size, try_acquire, iv_header, lacks_space, Server, exists,
  to_bytes, clean_filename, decrypt_body, save_decrypted, end_upload, take_body, upload_encrypted,
}

pub not_less : (a b : ℕ) → b ≤ a → ltb a b ≡ false
not_less a b h = ground arith

module _ (deps : Deps) (cipher : Rendezvous.Deps) where
  save_decrypted-saves :
      (io : Io) (clean : Text) (plaintext : List ℕ) (s : Server deps cipher)
      → lacks_space io.avail (length plaintext) ≡ false
      → io.write ≡ done
      → ((save_decrypted deps cipher io clean plaintext s).0 ≡ stored clean (length plaintext))
        × ((save_decrypted deps cipher io clean plaintext s).1.downloads
            ≡ (
              get_unique_filepath deps.names (exists deps cipher s) io.name_millis clean,
              plaintext,
            )
              ∷ s.downloads)
  unfolding save_decrypted write_secure_bytes
  save_decrypted-saves io clean plaintext s room written =
      (rw (room, written, save_decrypted) refl, rw (room, written, save_decrypted) refl)

  try_acquire-free :
      (active : ℕ)
      → active < max_concurrent_encrypted_uploads
      → try_acquire active ≡ some (active + 1)
  unfolding try_acquire
  try_acquire-free active h = ground arith

  to_bytes-Holds :
      (io : Io) (body : HttpBody.HttpBody) (w : World deps.bodies) (bytes : List ℕ)
      → Holds deps.bodies body w bytes
      → length bytes ≤ max_encrypted_upload_size
      → io.reads ≡ true
      → to_bytes deps cipher io body w ≡ some bytes
  unfolding to_bytes
  to_bytes-Holds io (memory b) w bytes held small reads = ap some held
  to_bytes-Holds io (staged total reserved b s m) w bytes (file, size) small reads =
      rw (not_less max_encrypted_upload_size total (omega (arith, small, size)), reads, to_bytes)
        file

  -- What a device encrypts with the key of the session and sends with the nonce in its header is saved
  -- as it was, under a name that `get_unique_filepath` gives, in whatever pieces it comes: if all of it
  -- comes, it is of at most 25 mebibytes, a guard is free, the name does not panic, the disk has room
  -- and the file is written; staged files are read back; and, beyond one mebibyte, the body can be
  -- reserved and staged.
  pub upload_encrypted-encrypt :
      (io : Io) (key_hex iv_hex clean : Text) (u : Upload) (s : Server deps cipher)
      (random iv plaintext ciphertext rest : List ℕ)
      → length random ≡ 12
      → encrypt_aes256_gcm cipher (some random) key_hex plaintext ≡ ok (iv, ciphertext)
      → iv_header u.req ≡ some iv_hex
      → cipher.hex_decode iv_hex ≡ some iv
      → ciphertext ≡ u.initial_body ++ rest
      → Delivers deps.bodies s.world.stream rest
      → u.content_length ≡ length (u.initial_body ++ rest)
      → u.content_length ≤ max_encrypted_upload_size
      → (in_memory_body_limit < length (u.initial_body ++ rest)
          → IsWilling io.files
            × ((try_reserve (length (u.initial_body ++ rest)) io.files.avail s.world.staged_bytes).0
                ≡ inr (length (u.initial_body ++ rest))))
      → io.reads ≡ true
      → s.active_encrypted_uploads < max_concurrent_encrypted_uploads
      → clean_filename deps cipher io u.req ≡ some clean
      → lacks_space io.avail (length plaintext) ≡ false
      → io.write ≡ done
      → ((upload_encrypted deps cipher io key_hex u s).0 ≡ stored clean (length plaintext))
        × ((upload_encrypted deps cipher io key_hex u s).1.downloads
            ≡ (
              get_unique_filepath deps.names (exists deps cipher s) io.name_millis clean,
              plaintext,
            )
              ∷ s.downloads)
  unfolding upload_encrypted take_body decrypt_body end_upload drop_body
  upload_encrypted-encrypt io key_hex iv_hex clean u s random iv plaintext ciphertext rest twelve
        sealed header decoded sent comes announced small stage reads free name room written =
      let bytes : List ℕ = u.initial_body ++ rest in
      let large : ltb max_encrypted_upload_size u.content_length ≡ false =
        not_less max_encrypted_upload_size u.content_length small in
      let arrived : Arrives deps.bodies bytes (
          read_http_body deps.bodies io.files u.content_length u.initial_body true
            max_encrypted_upload_size s.world) =
        rw announced (
          read_http_body-Delivers deps.bodies io.files u.initial_body rest true
            max_encrypted_upload_size s.world comes (omega (arith, announced, small))
            (λ long. (refl, (stage long).0, (stage long).1))) in
      let acquired = try_acquire-free s.active_encrypted_uploads free in
      let w : World deps.bodies =
        (read_http_body deps.bodies io.files u.content_length u.initial_body true
          max_encrypted_upload_size s.world).1 in
      elim arrived [
        | arrives body present held ↦
            let opened : decrypt_aes256_gcm cipher key_hex iv bytes ≡ ok plaintext = rw (← sent) (
              decrypt-encrypt_aes256_gcm cipher key_hex random iv plaintext ciphertext twelve
                sealed) in
            let given =
              to_bytes-Holds io body w bytes held (omega (arith, announced, small)) reads in
            let whole : decrypt_body deps cipher io key_hex u.req body w ≡ ok plaintext =
              rw (header, decoded, given, opened, decrypt_body) refl in
            let waiting : Server deps cipher = record s {
              world = drop_body deps body w;
              active_encrypted_uploads = s.active_encrypted_uploads + 1;
            } in
            rw (large, acquired, present, name, whole, upload_encrypted, take_body)
              (save_decrypted-saves io clean plaintext waiting room written)
      ]
