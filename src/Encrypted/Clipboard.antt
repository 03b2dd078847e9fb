-- ===== src/Encrypted/Clipboard.antt =====
-- The endpoint `/api/clipboard-encrypted` of `handle_connection` in src/main.rs, in both directions.
-- The programs that reach the desktop's clipboard are outside the repository: `Desktop` has what they
-- answer.
use omarchy_omasend.Common.{
  ◌++◌, ℕ, ◌*◌, ◌≤◌, ◌≡◌, refl, ap, Bool, true, false, List, [], Option, none, some, ltb,
  if◌then◌else◌, length, arith, ok, err, Bool-cases, Option-cases, inl, inr, ◌==◌, all, sym, ◌∙◌,
}
use omarchy_omasend.Common.Text.{Text, as_bytes}
use omarchy_omasend.Http.{HttpRequest}
use omarchy_omasend.HttpBody
use omarchy_omasend.HttpBody.{
  Files, memory, World, read_http_body, read_memory, read_staged, in_memory_body_limit,
}
use omarchy_omasend.Clipboard.{is_valid_text_clipboard}
use omarchy_omasend.Transfer.Upload.{Deps, Upload, drop_body}
use omarchy_omasend.Rendezvous
use omarchy_omasend.Rendezvous.{is_byte}
use omarchy_omasend.Encrypted.{
  CipherError, encrypt_aes256_gcm, decrypt_aes256_gcm, decrypt-encrypt_aes256_gcm,
}
use omarchy_omasend.Encrypted.Upload.{Io, EncryptedReply, iv_header, to_bytes, decrypt_body}
use omarchy_omasend.HttpBody.Delivery.{Delivers, read_http_body-short}
use omarchy_omasend.Encrypted.Sent.{not_less}

abbrev pub max_clipboard_body : ℕ
max_clipboard_body = 10 * 1024 * 1024

-- What wl-paste and xclip give, and whether wl-copy and xclip take the text.
pub record Desktop : Type 0 where
  pub wl_paste : Option (List ℕ)
  pub xclip_paste : Option (List ℕ)
  pub wl_copies : Bool
  pub xclip_copies : Bool

pub data ClipboardReply : Type 0 where
  too_large closed updated : ClipboardReply
  rejected : EncryptedReply → ClipboardReply
  not_encrypted : CipherError → ClipboardReply
  fetched : (iv ciphertext : Text) → ClipboardReply

abbrev pub valid_text : (List ℕ → Option Text) → Option (List ℕ) → Option Text
valid_text from_utf8 none = none
valid_text from_utf8 (some out) = is_valid_text_clipboard from_utf8 out

unfoldable pub get_pc_clipboard : (List ℕ → Option Text) → Desktop → Text
get_pc_clipboard from_utf8 d = elim (valid_text from_utf8 d.wl_paste) [
  | some res ↦ res
  | none ↦ elim (valid_text from_utf8 d.xclip_paste) [ some res ↦ res | none ↦ [] ]
]

module _ (deps : Deps) (cipher : Rendezvous.Deps) where
  -- The bytes that each of the two programs was given last, and `LAST_SYNCED_CLIPBOARD_HASH`.
  pub record Board : Type 0 where
    pub world : World deps.bodies
    pub wl : Option (List ℕ)
    pub xclip : Option (List ℕ)
    pub last_synced : Option Text

  unfoldable pub set_pc_clipboard : Desktop → Text → Board → Board
  set_pc_clipboard d text b =
      if d.wl_copies
      then record b { wl = some (as_bytes text) }
      else if d.xclip_copies
      then record b { xclip = some (as_bytes text) }
      else b

  unfoldable pub compute_clipboard_hash : Text → Text
  compute_clipboard_hash text = cipher.hex_encode (cipher.sha256 (as_bytes text))

  unfoldable pub set_last_synced_clipboard_hash : Bool → Text → Board → Board
  set_last_synced_clipboard_hash locks hash b =
      if locks then record b { last_synced = some hash } else b

  -- The part after the body was read.
  unfoldable pub take_clipboard :
      Io → Desktop → Text → HttpRequest → HttpBody.HttpBody → Board → ClipboardReply × Board
  take_clipboard io d key_hex req body b =
      let dropped = record b { world = drop_body deps body b.world } in
      elim (decrypt_body deps cipher io key_hex req body b.world) [
        | err e ↦ (rejected e, dropped)
        | ok decrypted ↦
            let text = deps.from_utf8_lossy decrypted in
            (
              updated,
              set_pc_clipboard d text
                  (set_last_synced_clipboard_hash io.locks (compute_clipboard_hash text) dropped),
            )
      ]

  unfoldable pub post_clipboard_encrypted :
      Io → Desktop → Text → Upload → Board → ClipboardReply × Board
  post_clipboard_encrypted io d key_hex u b =
      let (body, w) =
        read_http_body deps.bodies io.files u.content_length u.initial_body false max_clipboard_body
          b.world in
      if ltb max_clipboard_body u.content_length then (too_large, b) else elim body [
        | none ↦ (closed, record b { world = w })
        | some read ↦ take_clipboard io d key_hex u.req read (record b { world = w })
      ]

  -- `random` is what `getrandom` gives for the nonce.
  unfoldable pub get_clipboard_encrypted :
      (List ℕ → Option Text) → Desktop → Option (List ℕ) → Text → ClipboardReply
  get_clipboard_encrypted from_utf8 d random key_hex =
      elim (encrypt_aes256_gcm cipher random key_hex (as_bytes (get_pc_clipboard from_utf8 d))) [
        | err e ↦ not_encrypted e
        | ok sealed ↦ fetched (cipher.hex_encode sealed.0) (cipher.hex_encode sealed.1)
      ]

module _ (deps : Deps) (cipher : Rendezvous.Deps) where
  fetched-is : (x y z w : Text) → fetched x y ≡ fetched z w → (x ≡ z) × (y ≡ w)
  fetched-is x y z w h = (ap first h, ap second h)
    where
      first : ClipboardReply → Text
      first (fetched iv c) = iv
      first _ = []

      second : ClipboardReply → Text
      second (fetched iv c) = c
      second _ = []

  -- What the endpoint gave for a nonce decrypts to the clipboard, once hex is undone.
  fetched-opens :
      (from_utf8 : List ℕ → Option Text) (d : Desktop) (random : List ℕ)
      (key_hex iv_hex c_hex : Text)
      → length random ≡ 12
      → all is_byte random ≡ true
      → get_clipboard_encrypted deps cipher from_utf8 d (some random) key_hex ≡ fetched iv_hex c_hex
      → (iv : List ℕ) × (ciphertext : List ℕ) × (cipher.hex_decode iv_hex ≡ some iv)
        × (cipher.hex_decode c_hex ≡ some ciphertext)
        × (decrypt_aes256_gcm cipher key_hex iv ciphertext
            ≡ ok (as_bytes (get_pc_clipboard from_utf8 d)))
  unfolding get_clipboard_encrypted encrypt_aes256_gcm
  fetched-opens from_utf8 d random key_hex iv_hex c_hex twelve bytes h =
      let text = as_bytes (get_pc_clipboard from_utf8 d) in
      elim (Option-cases (cipher.hex_decode key_hex)) [
        | inl bad ↦ absurd (cc (rw (bad, get_clipboard_encrypted, encrypt_aes256_gcm) at h))
        | inr (key, good) ↦ elim (Bool-cases (length key == 32)) [
          | inr short ↦
              absurd (cc (rw (good, short, get_clipboard_encrypted, encrypt_aes256_gcm) at h))
          | inl long ↦ elim (Option-cases (cipher.seal key random text)) [
            | inl fails ↦
                absurd
                  (cc (rw (good, long, fails, get_clipboard_encrypted, encrypt_aes256_gcm) at h))
            | inr (c, e) ↦
                let same =
                  fetched-is (cipher.hex_encode random) (cipher.hex_encode c) iv_hex c_hex
                    (rw (good, long, e, get_clipboard_encrypted, encrypt_aes256_gcm) at h) in
                (
                  random,
                  c,
                  rw (← same.0) (cipher.decode-encode random bytes),
                  rw (← same.1) (cipher.decode-encode c (cipher.seal-bytes key random text c e)),
                  decrypt-encrypt_aes256_gcm cipher key_hex random random text c twelve
                      (rw (good, long, e, encrypt_aes256_gcm) refl),
                )
          ]
        ]
      ]

  -- The program that takes the text gets it.
  set_pc_clipboard-given :
      (d : Desktop) (text : Text) (b : Board deps cipher)
      → (d.wl_copies ≡ true → (set_pc_clipboard deps cipher d text b).wl ≡ some (as_bytes text))
        × (d.wl_copies ≡ false
            → d.xclip_copies ≡ true
            → (set_pc_clipboard deps cipher d text b).xclip ≡ some (as_bytes text))
  unfolding set_pc_clipboard
  set_pc_clipboard-given d text b =
      (λ t. rw (t, set_pc_clipboard) refl, λ f t. rw (f, t, set_pc_clipboard) refl)

  -- The clipboard of one computer, fetched from its endpoint and sent, in whatever pieces, to that of
  -- another that has the same key, is given there to wl-copy, or to xclip if wl-copy fails. The
  -- ciphertext all comes and is of at most one mebibyte, its nonce is in the header, and decoding the
  -- clipboard's bytes gives the clipboard back.
  pub clipboard_travels :
      (from_utf8 : List ℕ → Option Text) (here there : Desktop) (io : Io) (random rest : List ℕ)
      (key_hex iv_hex c_hex : Text) (u : Upload) (b : Board deps cipher)
      → length random ≡ 12
      → all is_byte random ≡ true
      → get_clipboard_encrypted deps cipher from_utf8 here (some random) key_hex
        ≡ fetched iv_hex c_hex
      → iv_header u.req ≡ some iv_hex
      → cipher.hex_decode c_hex ≡ some (u.initial_body ++ rest)
      → Delivers deps.bodies b.world.stream rest
      → u.content_length ≡ length (u.initial_body ++ rest)
      → u.content_length ≤ in_memory_body_limit
      → deps.from_utf8_lossy (as_bytes (get_pc_clipboard from_utf8 here))
        ≡ get_pc_clipboard from_utf8 here
      → let after = post_clipboard_encrypted deps cipher io there key_hex u b in
        (after.0 ≡ updated)
        × (there.wl_copies ≡ true → after.1.wl ≡ some (as_bytes (get_pc_clipboard from_utf8 here)))
        × (there.wl_copies ≡ false
            → there.xclip_copies ≡ true
            → after.1.xclip ≡ some (as_bytes (get_pc_clipboard from_utf8 here)))
  unfolding post_clipboard_encrypted take_clipboard decrypt_body to_bytes
  clipboard_travels from_utf8 here there io random rest key_hex iv_hex c_hex u b twelve bytes got
        header sent comes announced short back =
      let (iv, c, div, dc, opened) =
        fetched-opens from_utf8 here random key_hex iv_hex c_hex twelve bytes got in
      let body : List ℕ = u.initial_body ++ rest in
      let same : c ≡ body = some_path (sym dc ∙ sent) in
      let large : ltb max_clipboard_body u.content_length ≡ false =
        not_less max_clipboard_body u.content_length (omega (arith, short)) in
      let present : (read_http_body deps.bodies io.files u.content_length u.initial_body false
            max_clipboard_body b.world).0
          ≡ some (memory body) =
        rw announced (
          read_http_body-short deps.bodies io.files u.initial_body rest false max_clipboard_body
            b.world comes (omega (arith, announced, short)) (omega (arith, announced, short))) in
      let w : World deps.bodies =
        (read_http_body deps.bodies io.files u.content_length u.initial_body false
          max_clipboard_body b.world).1 in
      let opened' : decrypt_aes256_gcm cipher key_hex iv body
          ≡ ok (as_bytes (get_pc_clipboard from_utf8 here)) =
        rw (← same) opened in
      let whole : decrypt_body deps cipher io key_hex u.req (memory body) w
          ≡ ok (as_bytes (get_pc_clipboard from_utf8 here)) =
        rw (header, div, opened', decrypt_body) refl in
      let text : Text = get_pc_clipboard from_utf8 here in
      let put : Board deps cipher =
        set_last_synced_clipboard_hash deps cipher io.locks
          (compute_clipboard_hash deps cipher text)
          (record b { world = drop_body deps (memory body) w }) in
      let given = set_pc_clipboard-given there text put in
      rw (large, present, whole, back, post_clipboard_encrypted, take_clipboard)
        (refl, given.0, given.1)
    where
      some_path : {x y : List ℕ} → some x ≡ some y → x ≡ y
      some_path {x} {y} e = cc
