-- ===== src/Encrypted/Tests.antt =====
-- The theorems about encrypted uploads and clipboards of src/main.rs at two bytes each.
use omarchy_omasend.Common.{
  false, ℕ, ◌≡◌, refl, true, List, [], ◌∷◌, Option, none, some, all, arith, ok,
}
use omarchy_omasend.Common.Text.{Text, codes, trim, trim_start, is_whitespace, as_bytes, utf8}
use omarchy_omasend.UrlCodec.{urlencoding_decode, from_str_radix_16, hex_value}
use omarchy_omasend.Filename.{sanitize_filename, contains_dots, cut, get_unique_filepath}
use omarchy_omasend.Http.{find_header, get_header}
use omarchy_omasend.Clipboard.{is_valid_text_clipboard, has_binary_signature}
use omarchy_omasend.Rendezvous
use omarchy_omasend.Rendezvous.{is_byte, replicate}
use omarchy_omasend.Rendezvous.Sample.{sample_deps, open_seal}
use omarchy_omasend.Transfer.Upload.{Deps, Upload}
use omarchy_omasend.HttpBody.Tests.{byte_deps, all_come}
use omarchy_omasend.SecureFile.{done}
use omarchy_omasend.Transfer.Tests
use omarchy_omasend.Transfer.Tests.{files}
use omarchy_omasend.Encrypted.{encrypt_aes256_gcm}
use omarchy_omasend.Encrypted.Upload.{
  Io, stored, iv_header, filename_header, lacks_space, Server, exists, clean_filename,
  upload_encrypted,
}
use omarchy_omasend.Encrypted.Receipt.{Outcome, upload_encrypted-Outcome}
use omarchy_omasend.Encrypted.Sent.{upload_encrypted-encrypt}
use omarchy_omasend.Encrypted.Clipboard.{
  Board, Desktop, updated, fetched, get_pc_clipboard, get_clipboard_encrypted,
  post_clipboard_encrypted, clipboard_travels,
}

-- Two digits for each byte: the byte, and a zero.
unfoldable spread : List ℕ → Text
spread [] = []
spread (b ∷ bs) = b ∷ 0 ∷ spread bs

unfoldable gather : Text → Option (List ℕ)
gather [] = some []
gather (a ∷ []) = none
gather (a ∷ b ∷ s) = elim (gather s) [ none ↦ none | some bs ↦ some (a ∷ bs) ]

gather-spread : (bs : List ℕ) → all is_byte bs ≡ true → gather (spread bs) ≡ some bs
unfolding gather spread
gather-spread [] h = refl
gather-spread (b ∷ bs) h = rw (gather-spread bs (ground (arith, h))) refl

unfoldable cipher : Rendezvous.Deps
unfolding sample_deps spread gather
cipher = record sample_deps {
  hex_encode = spread;
  hex_decode = gather;
  decode-encode = gather-spread;
}

-- The bytes of a body come through the stream.
abbrev deps : Deps
deps = record Tests.deps { bodies = byte_deps }

abbrev nonce : List ℕ
nonce = replicate 12 3

abbrev key_hex : Text
key_hex = replicate 64 5

abbrev upload : Upload
upload = record {
  req = record {
    method = codes "POST";
    path = codes "/api/upload-encrypted";
    query = [];
    headers =
        (codes "x-omasend-filename", codes "a.txt") ∷ (codes "x-omasend-iv", replicate 24 3) ∷ [];
  };
  content_length = 2;
  initial_body = 7 ∷ [];
}

abbrev io : Io
io = record {
  name_secs = 100;
  name_millis = 100;
  notified_at = 100;
  files = files;
  reads = true;
  avail = none;
  write = done;
  tmp_suffix = codes "1_ab";
  locks = true;
}

abbrev server : Server deps cipher
server = record {
  world = record { stream = 8 ∷ []; staged_bytes = 5; file = none };
  active_encrypted_uploads = 1;
  notified = none;
  downloads = [];
  received = 0;
}

upload_encrypted-Outcome_example :
    Outcome deps cipher io key_hex upload server
      (upload_encrypted deps cipher io key_hex upload server)
upload_encrypted-Outcome_example =
    upload_encrypted-Outcome deps cipher io key_hex upload server (omega arith)

sealed : encrypt_aes256_gcm cipher (some nonce) key_hex (7 ∷ 8 ∷ []) ≡ ok (nonce, 7 ∷ 8 ∷ [])
unfolding encrypt_aes256_gcm cipher sample_deps open_seal gather
sealed = refl

header : iv_header upload.req ≡ some (replicate 24 3)
unfolding iv_header get_header find_header utf8 as_bytes
header = refl

decoded : cipher.hex_decode (replicate 24 3) ≡ some nonce
unfolding cipher gather
decoded = refl

clean : clean_filename deps cipher io upload.req ≡ some (codes "a.txt")
unfolding clean_filename filename_header get_header find_header sanitize_filename trim trim_start
    is_whitespace urlencoding_decode from_str_radix_16 hex_value as_bytes utf8 contains_dots cut
clean = refl

upload_encrypted-encrypt_example :
    ((upload_encrypted deps cipher io key_hex upload server).0 ≡ stored (codes "a.txt") 2)
    × ((upload_encrypted deps cipher io key_hex upload server).1.downloads
        ≡ (
          get_unique_filepath deps.names (exists deps cipher server) 100 (codes "a.txt"),
          7 ∷ 8 ∷ [],
        )
          ∷ [])
unfolding lacks_space
upload_encrypted-encrypt_example =
    upload_encrypted-encrypt deps cipher io key_hex (replicate 24 3) (codes "a.txt") upload server
      nonce nonce (7 ∷ 8 ∷ []) (7 ∷ 8 ∷ []) (8 ∷ []) refl sealed header decoded refl
      (all_come 1 (8 ∷ []) (omega arith)) refl (omega arith) (λ long. absurd (omega (arith, long)))
      refl (omega arith) clean refl refl

abbrev board : Board deps cipher
board = record {
  world = record { stream = codes "i"; staged_bytes = 5; file = none };
  wl = none;
  xclip = none;
  last_synced = none;
}

abbrev desktop : Desktop
desktop = record {
  wl_paste = some (codes "hi");
  xclip_paste = none;
  wl_copies = true;
  xclip_copies = true;
}

abbrev from_utf8 : List ℕ → Option Text
from_utf8 bs = some bs

abbrev clipboard_of : ℕ → List ℕ → Upload
clipboard_of n bytes = record {
  req = record {
    method = codes "POST";
    path = codes "/api/clipboard-encrypted";
    query = [];
    headers = (codes "x-omasend-iv", spread nonce) ∷ [];
  };
  content_length = n;
  initial_body = bytes;
}

fetched_hi :
    get_clipboard_encrypted deps cipher from_utf8 desktop (some nonce) key_hex
    ≡ fetched (spread nonce) (spread (codes "hi"))
unfolding get_clipboard_encrypted get_pc_clipboard encrypt_aes256_gcm cipher sample_deps open_seal
    gather spread as_bytes utf8 is_valid_text_clipboard has_binary_signature trim trim_start
    is_whitespace
fetched_hi = refl

clipboard_header : iv_header (clipboard_of 2 (codes "hi")).req ≡ some (spread nonce)
unfolding iv_header get_header find_header utf8 as_bytes spread
clipboard_header = refl

clipboard_body : cipher.hex_decode (spread (codes "hi")) ≡ some (codes "hi")
unfolding cipher gather spread
clipboard_body = refl

hi_back :
    deps.from_utf8_lossy (as_bytes (get_pc_clipboard from_utf8 desktop))
    ≡ get_pc_clipboard from_utf8 desktop
unfolding get_pc_clipboard as_bytes utf8 is_valid_text_clipboard has_binary_signature trim
    trim_start is_whitespace
hi_back = refl

clipboard_travels_example :
    let after =
      post_clipboard_encrypted deps cipher io desktop key_hex (clipboard_of 2 (codes "h")) board in
    (after.0 ≡ updated)
    × (desktop.wl_copies ≡ true → after.1.wl ≡ some (as_bytes (get_pc_clipboard from_utf8 desktop)))
    × (desktop.wl_copies ≡ false
        → desktop.xclip_copies ≡ true
        → after.1.xclip ≡ some (as_bytes (get_pc_clipboard from_utf8 desktop)))
clipboard_travels_example =
    clipboard_travels deps cipher from_utf8 desktop desktop io nonce (codes "i") key_hex
      (spread nonce) (spread (codes "hi")) (clipboard_of 2 (codes "h")) board refl refl fetched_hi
      clipboard_header clipboard_body (all_come 1 (codes "i") (omega arith)) refl (omega arith)
      hi_back
