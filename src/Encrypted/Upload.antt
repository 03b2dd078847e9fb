-- ===== src/Encrypted/Upload.antt =====
-- The endpoint `/api/upload-encrypted` of `handle_connection` in src/main.rs. It ends with what it
-- answers; a panic ends the process, so that nothing is put back then.
use omarchy_omasend.Common.{
  ℕ, ◌+◌, ◌*◌, ◌%◌, ◌^◌, ◌-◌, Bool, true, false, List, Option, none, some, ltb, leb, ◌==◌,
  if◌then◌else◌, min, any, length, Result, ok, err, ◌>>=◌, or_fail,
}
use omarchy_omasend.Common.Text.{Text, codes, text_eq, as_bytes, len}
use omarchy_omasend.Http.{HttpRequest, get_header}
use omarchy_omasend.HttpBody
use omarchy_omasend.HttpBody.{Files, memory, staged, World, read_http_body}
use omarchy_omasend.Filename.{sanitize_filename, get_unique_filepath}
use omarchy_omasend.Staging.Budget.{saturating_add}
use omarchy_omasend.Staging.Uploads.{max_concurrent_encrypted_uploads}
use omarchy_omasend.UrlCodec.{urlencoding_decode}
use omarchy_omasend.SecureFile.{Directory, WriteEnd, write_secure_bytes}
use omarchy_omasend.Notified.{Announced, record_notified_file}
use omarchy_omasend.Transfer.Upload.{Deps, Upload, drop_body, save_reserve_bytes}
use omarchy_omasend.Rendezvous
use omarchy_omasend.Encrypted.{CipherError, decrypt_aes256_gcm}

abbrev pub max_encrypted_upload_size : ℕ
max_encrypted_upload_size = 25 * 1024 * 1024

pub data EncryptedReply : Type 0 where
  name_panics too_large busy closed bad_iv bad_iv_hex body_failed no_space write_failed :
      EncryptedReply
  cipher_failed : CipherError → EncryptedReply
  stored : (filename : Text) (size : ℕ) → EncryptedReply

-- The clocks, the answers of the file system, the free space, whether the staged file is read back,
-- how far the write of the decrypted file comes and the end of its temporary name, and whether the map
-- of announced files is locked.
pub record Io : Type 0 where
  pub name_secs : ℕ
  pub name_millis : ℕ
  pub notified_at : ℕ
  pub files : Files
  pub reads : Bool
  pub avail : Option ℕ
  pub write : WriteEnd
  pub tmp_suffix : Text
  pub locks : Bool

-- `EncryptedUploadGuard::try_acquire` of a thread that is alone, and the drop of the guard.
unfoldable pub try_acquire : ℕ → Option ℕ
try_acquire active =
    if leb max_concurrent_encrypted_uploads active
    then none
    else some (min (active + 1) (2 ^ 32 - 1))

unfoldable pub let_go : ℕ → ℕ
let_go active = (active + (2 ^ 32 - 1)) % 2 ^ 32

-- `X-OmaSend-IV`, of twenty-four bytes.
unfoldable pub iv_header : HttpRequest → Option Text
iv_header req = elim (get_header (codes "x-omasend-iv") req) [
  | none ↦ none
  | some iv ↦ if len iv == 24 then some iv else none
]

unfoldable pub filename_header : HttpRequest → Text
filename_header req = elim (get_header (codes "x-omasend-filename") req) [
  | none ↦ codes "received_file.bin"
  | some name ↦ name
]

unfoldable pub lacks_space : Option ℕ → ℕ → Bool
lacks_space none size = false
lacks_space (some avail) size = ltb avail (saturating_add size save_reserve_bytes)

abbrev pub or_cipher_failed : {A : Type 0} → Result A CipherError → Result A EncryptedReply
or_cipher_failed (ok a) = ok a
or_cipher_failed (err e) = err (cipher_failed e)

module _ (deps : Deps) (cipher : Rendezvous.Deps) where
  pub record Server : Type 0 where
    pub world : World deps.bodies
    pub active_encrypted_uploads : ℕ
    pub notified : Announced
    pub downloads : Directory
    pub received : ℕ

  abbrev pub exists : Server → Text → Bool
  exists s name = any (λ d. text_eq d.0 name) s.downloads

  -- `HttpBody::to_bytes`: a staged body is read back from its file, if it is not too long.
  unfoldable pub to_bytes : Io → HttpBody.HttpBody → World deps.bodies → Option (List ℕ)
  to_bytes io (memory bytes) w = some bytes
  to_bytes io (staged total_written reserved b s m) w =
      if ltb max_encrypted_upload_size total_written
      then none
      else if io.reads
      then w.file
      else none

  unfoldable pub clean_filename : Io → HttpRequest → Option Text
  clean_filename io req =
      sanitize_filename deps.names io.name_secs
        (deps.from_utf8_lossy (urlencoding_decode (as_bytes (filename_header req))))

  -- From the headers and the body to the plaintext, or to the answer of the check that fails first.
  unfoldable pub decrypt_body :
      Io
      → Text
      → HttpRequest
      → HttpBody.HttpBody
      → World deps.bodies
      → Result (List ℕ) EncryptedReply
  decrypt_body io key_hex req body w = do
    iv_hex ← or_fail (iv_header req) bad_iv
    iv_bytes ← or_fail (cipher.hex_decode iv_hex) bad_iv_hex
    ciphertext ← or_fail (to_bytes io body w) body_failed
    or_cipher_failed (decrypt_aes256_gcm cipher key_hex iv_bytes ciphertext)

  -- The part after the decryption.
  unfoldable pub save_decrypted : Io → Text → List ℕ → Server → EncryptedReply × Server
  save_decrypted io clean decrypted s =
      let final_name = get_unique_filepath deps.names (exists s) io.name_millis clean in
      let saved = write_secure_bytes io.write io.tmp_suffix final_name decrypted s.downloads in
      if lacks_space io.avail (length decrypted)
      then (no_space, s)
      else if saved.0
      then (
        stored clean (length decrypted),
        record s {
          notified = record_notified_file io.locks io.notified_at final_name s.notified;
          downloads = saved.1;
          received = (s.received + 1) % 2 ^ 64;
        },
      )
      else (write_failed, record s { downloads = saved.1 })

  -- The guard is dropped when the handler returns, whatever it answers.
  unfoldable pub end_upload : EncryptedReply × Server → EncryptedReply × Server
  end_upload r =
      (r.0, record (r.1) { active_encrypted_uploads = let_go r.1.active_encrypted_uploads })

  -- The part after the body was read: the body is dropped with the guard.
  unfoldable pub take_body :
      Io → Text → HttpRequest → HttpBody.HttpBody → Server → EncryptedReply × Server
  take_body io key_hex req body s =
      let dropped = record s { world = drop_body deps body s.world } in
      elim (clean_filename io req) [
        | none ↦ (name_panics, s)
        | some clean ↦ elim (decrypt_body io key_hex req body s.world) [
          | err e ↦ end_upload (e, dropped)
          | ok decrypted ↦ end_upload (save_decrypted io clean decrypted dropped)
        ]
      ]

  unfoldable pub upload_encrypted : Io → Text → Upload → Server → EncryptedReply × Server
  upload_encrypted io key_hex u s =
      let (body, w) =
        read_http_body deps.bodies io.files u.content_length u.initial_body true
          max_encrypted_upload_size s.world in
      if ltb max_encrypted_upload_size u.content_length
      then (too_large, s)
      else elim (try_acquire s.active_encrypted_uploads) [
        | none ↦ (busy, s)
        | some active ↦
            let held = record s { world = w; active_encrypted_uploads = active } in
            elim body [
              | none ↦ end_upload (closed, held)
              | some b ↦ take_body io key_hex u.req b held
            ]
      ]
