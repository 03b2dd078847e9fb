-- ===== src/Transfer/Upload/Receipt.antt =====
-- What one upload of src/main.rs leaves behind, on every path.
use omarchy_omasend.Common.{
  ℕ, ◌+◌, ◌%◌, ◌^◌, ◌≤◌, ◌<◌, ◌≡◌, refl, ap, subst, Bool, true, false, not, List, ◌∷◌, Option, none,
  some, ltb, if◌then◌else◌, length, arith, Bool-cases, Option-cases, inl, inr, ◌⊎◌,
}
use omarchy_omasend.Common.Text.{Text, codes, text_eq_iff}
use omarchy_omasend.Http.{HttpRequest, get_param}
use omarchy_omasend.HttpBody
use omarchy_omasend.HttpBody.{memory, staged, World, read_http_body}
use omarchy_omasend.SecureFile.{
  Directory, Leaves, same, Saves, whole, fails, write_secure_bytes-Saves,
}
use omarchy_omasend.HttpBody.Exact.{IsSent, undone, done, IsExact, read_http_body-Ended}
use omarchy_omasend.Notified.{record_notified_file}
use omarchy_omasend.Filename.{get_unique_filepath}
use omarchy_omasend.Staging.Budget.{release-wraps}
use omarchy_omasend.Transfer.Model.{
  TransferFileInfo, PendingFileTransfer, status_accepted, get_pending_transfer,
}
use omarchy_omasend.Transfer.Upload.{
  Deps, Io, Upload, UploadReply, stored, blake3_mismatch, sha256_mismatch, md5_mismatch, agrees,
  expected_digest, Server, exists, max_body_size, or_default, has_valid_token, is_in_pending,
  matching_info, check_digests, settle, body_len, compute_military_hashes, drop_body, save_body,
  lacks_space, receive, clean_filename, take_upload, begin_upload, name_panics, unauthorized,
  write_failed, upload,
}

abbrev pub is_stored : UploadReply → Bool
is_stored (stored filename size sha256 md5) = true
is_stored _ = false

module _ (deps : Deps) where
  -- What a body of `n` bytes that was read amounts to: the bytes that were sent, saved as they are if
  -- they are saved, and a world that is back at the reservations of before once the body is dropped.
  pub record IsRead (body : HttpBody.HttpBody) (n : ℕ) (initial : List ℕ)
      (before after : World deps.bodies) (bytes : List ℕ) : Type 0 where
    pub sent : IsSent deps.bodies n initial before (drop_body deps body after) bytes
    pub measured : body_len deps body ≡ n
    pub hashed :
        compute_military_hashes deps body
        ≡ (deps.bodies.blake3 bytes, deps.bodies.sha256 bytes, deps.bodies.md5 bytes)
    pub saved :
        (io : Io) (name : Text) (dir : Directory)
        → Saves name bytes dir (save_body deps io name body after dir)
    pub balanced : (drop_body deps body after).staged_bytes ≡ before.staged_bytes

  persist-Saves :
      (io : Io) (name : Text) (total reserved : ℕ) (b s m : Text) (w : World deps.bodies)
      (bytes : List ℕ) (dir : Directory)
      → w.file ≡ some bytes
      → Saves name bytes dir (save_body deps io name (staged total reserved b s m) w dir)
  unfolding save_body
  persist-Saves io name total reserved b s m w bytes dir file = elim (Bool-cases io.persists) [
    | inl t ↦ rw (t, file, save_body) (whole refl)
    | inr f ↦ rw (f, save_body) (fails dir refl (same refl))
  ]

  pub exact-IsRead :
      (body : HttpBody.HttpBody) (n : ℕ) (initial : List ℕ) (before after : World deps.bodies)
      → before.staged_bytes < 2 ^ 64
      → n < 2 ^ 64
      → IsExact deps.bodies body n initial before after
      → (bytes : List ℕ) × IsRead body n initial before after bytes
  unfolding save_body drop_body
  exact-IsRead (memory bs) n initial before after small fits exact = (
    bs,
    record {
      sent = exact.0;
      measured = exact.0.size;
      hashed = refl;
      saved = λ io name dir. write_secure_bytes-Saves io.write io.tmp_suffix name bs dir;
      balanced = exact.1;
    },
  )
  exact-IsRead (staged total reserved b s m) n initial before after small fits
        (bytes, file, sent, written, held, counted, eb, es, em) =
      (
        bytes,
        record {
          sent = record { size = sent.size; content = sent.content };
          measured = written;
          hashed = rw (eb, es, em) refl;
          saved = λ io name dir. persist-Saves io name total reserved b s m after bytes dir file;
          balanced = rw (held, counted) (release-wraps n before.staged_bytes fits small);
        },
      )

  -- The request was for the transfer that waits: its token, accepted, in time, listing the file.
  pub record IsAdmitted (io : Io) (u : Upload) (file : Option PendingFileTransfer) (clean : Text)
      (p : PendingFileTransfer) : Type 0 where
    pub waiting : file ≡ some p
    pub same_token : p.token ≡ or_default (get_param (codes "token") u.req)
    pub accepted : p.status ≡ status_accepted
    pub in_time : io.now ≤ p.expires_at
    pub named : clean_filename deps io u.req ≡ some clean
    pub listed : is_in_pending clean p ≡ true

  -- The file was stored: `bytes` are what was announced, they agree with the expected digests, and
  -- they are what the new file holds; the transfer waits for one file less.
  pub record IsReceived (io : Io) (u : Upload) (s : Server deps) (clean : Text)
      (p : PendingFileTransfer) (bytes : List ℕ) (r : UploadReply × Server deps) : Type 0 where
    pub allowed : u.content_length ≤ max_body_size
    pub complete : length bytes ≡ u.content_length
    pub sent : IsSent deps.bodies u.content_length u.initial_body s.world r.1.world bytes
    pub verified :
        check_digests u.req
          (matching_info clean p)
          (deps.bodies.blake3 bytes, deps.bodies.sha256 bytes, deps.bodies.md5 bytes)
        ≡ none
    pub reply :
        r.0
        ≡ stored
            (get_unique_filepath deps.names (exists deps s) io.name_millis clean)
            u.content_length
            (deps.bodies.sha256 bytes)
            (deps.bodies.md5 bytes)
    pub downloads :
        r.1.downloads
        ≡ (get_unique_filepath deps.names (exists deps s) io.name_millis clean, bytes) ∷ s.downloads
    pub pending : r.1.pending ≡ settle io clean p s.pending
    pub received : r.1.received ≡ (s.received + 1) % 2 ^ 64
    pub notified :
        r.1.notified
        ≡ record_notified_file io.locks io.notified_at
            (get_unique_filepath deps.names (exists deps s) io.name_millis clean)
            s.notified
    pub balanced : r.1.world.staged_bytes ≡ s.world.staged_bytes

  -- Nothing was stored, and nothing is left of the request but, where the write failed, perhaps a
  -- temporary file.
  pub record IsRefused (s : Server deps) (r : UploadReply × Server deps) : Type 0 where
    pub not_stored : is_stored r.0 ≡ false
    pub pending : r.1.pending ≡ s.pending
    pub downloads :
        (r.1.downloads ≡ s.downloads)
        ⊎ ((r.0 ≡ write_failed) × (bytes : List ℕ) × Leaves bytes s.downloads r.1.downloads)
    pub received : r.1.received ≡ s.received
    pub notified : r.1.notified ≡ s.notified
    pub balanced : r.1.world.staged_bytes ≡ s.world.staged_bytes

  pub data Outcome (io : Io) (u : Upload) (file : Option PendingFileTransfer) (s : Server deps)
      (r : UploadReply × Server deps) : Type 0 where
    refused : IsRefused s r → Outcome io u file s r
    received :
        (clean : Text) (p : PendingFileTransfer) (bytes : List ℕ)
        → IsAdmitted io u file clean p
        → IsReceived io u s clean p bytes r
        → Outcome io u file s r

  -- Each of the three mismatches is a refusal.
  first_mismatch :
      (a b c : Bool) (e : UploadReply)
      → (if not a
          then some blake3_mismatch
          else if not b
          then some sha256_mismatch
          else if not c
          then some md5_mismatch
          else none)
        ≡ some e
      → is_stored e ≡ false
  first_mismatch false b c e h = subst (λ x. is_stored x ≡ false) {x = blake3_mismatch} (cc h) refl
  first_mismatch true false c e h =
      subst (λ x. is_stored x ≡ false) {x = sha256_mismatch} (cc h) refl
  first_mismatch true true false e h =
      subst (λ x. is_stored x ≡ false) {x = md5_mismatch} (cc h) refl
  first_mismatch true true true e h = absurd (cc h)

  check_digests-refuses :
      (req : HttpRequest) (info : Option TransferFileInfo) (h : Text × Text × Text)
      (e : UploadReply)
      → check_digests req info h ≡ some e
      → is_stored e ≡ false
  unfolding check_digests
  check_digests-refuses req info h e eq =
      first_mismatch
        (agrees (expected_digest (codes "blake3") (codes "x-file-blake3") (λ f. f.blake3) req info)
          h.0)
        (agrees (expected_digest (codes "sha256") (codes "x-file-sha256") (λ f. f.sha256) req info)
          h.1)
        (agrees (expected_digest (codes "md5") (codes "x-file-md5") (λ f. f.md5) req info) h.2) e eq

  receive-Outcome :
      (io : Io) (u : Upload) (file : Option PendingFileTransfer) (s : Server deps) (clean : Text)
      (p : PendingFileTransfer) (body : HttpBody.HttpBody) (w : World deps.bodies) (bytes : List ℕ)
      → IsAdmitted io u file clean p
      → u.content_length ≤ max_body_size
      → IsRead body u.content_length u.initial_body s.world w bytes
      → Outcome io u file s (receive deps io u.req clean p body (record s { world = w }))
  unfolding receive
  receive-Outcome io u file s clean p body w bytes ok small read =
      elim (Option-cases
        (check_digests u.req (matching_info clean p) (compute_military_hashes deps body))) [
          | inr (e, bad) ↦
              rw (bad, receive)
                (refused (record {
                  not_stored =
                      check_digests-refuses u.req (matching_info clean p)
                        (compute_military_hashes deps body) e bad;
                  pending = refl;
                  downloads = inl refl;
                  received = refl;
                  notified = refl;
                  balanced = read.balanced;
                }))
          | inl good ↦ elim (Bool-cases (lacks_space deps io body)) [
            | inl full ↦
                rw (good, full, receive)
                  (refused (record {
                    not_stored = refl;
                    pending = refl;
                    downloads = inl refl;
                    received = refl;
                    notified = refl;
                    balanced = read.balanced;
                  }))
            | inr free ↦
                elim (read.saved io
                  (get_unique_filepath deps.names (exists deps s) io.name_millis clean)
                  s.downloads) [
                    | fails left e kept ↦
                        rw (good, free, e, receive)
                          (refused (record {
                            not_stored = refl;
                            pending = refl;
                            downloads = inr (refl, bytes, kept);
                            received = refl;
                            notified = refl;
                            balanced = read.balanced;
                          }))
                    | whole e ↦
                        rw (good, free, e, receive)
                          (received clean p bytes ok (record {
                            allowed = small;
                            complete = read.sent.size;
                            sent = read.sent;
                            verified =
                                subst (λ h. check_digests u.req (matching_info clean p) h ≡ none)
                                  read.hashed good;
                            reply = rw (read.hashed, read.measured) refl;
                            downloads = refl;
                            pending = refl;
                            received = refl;
                            notified = refl;
                            balanced = read.balanced;
                          }))
                  ]
          ]
        ]

  refused_at_once :
      (io : Io) (u : Upload) (file : Option PendingFileTransfer) (s : Server deps) (e : UploadReply)
      → is_stored e ≡ false
      → Outcome io u file s (e, s)
  refused_at_once io u file s e h = refused (record {
    not_stored = h;
    pending = refl;
    downloads = inl refl;
    received = refl;
    notified = refl;
    balanced = refl;
  })

  within : (n : ℕ) → ltb max_body_size n ≡ false → n ≤ max_body_size
  within n h = ground arith

  pending-waits :
      (now : ℕ) (o : Option PendingFileTransfer) (p : PendingFileTransfer)
      → get_pending_transfer now o ≡ some p
      → o ≡ some p
  unfolding get_pending_transfer
  pending-waits now none p h = absurd (cc h)
  pending-waits now (some t) p h = ground (arith, h)

  admit :
      (io : Io) (u : Upload) (file : Option PendingFileTransfer) (clean : Text)
      (p : PendingFileTransfer)
      → get_pending_transfer io.read_at file ≡ some p
      → has_valid_token (or_default (get_param (codes "token") u.req)) io.now (some p) ≡ true
      → clean_filename deps io u.req ≡ some clean
      → is_in_pending clean p ≡ true
      → IsAdmitted io u file clean p
  unfolding has_valid_token
  admit io u file clean p found valid name listed = record {
    waiting = pending-waits io.read_at file p found;
    same_token =
        (text_eq_iff p.token (or_default (get_param (codes "token") u.req))).0
          (ground (arith, valid));
    accepted = (text_eq_iff p.status status_accepted).0 (ground (arith, valid));
    in_time = ground (arith, valid);
    named = name;
    listed = listed;
  }

  pub take_upload-Outcome :
      (io : Io) (u : Upload) (file : Option PendingFileTransfer) (s : Server deps) (clean : Text)
      (p : PendingFileTransfer)
      → s.world.staged_bytes < 2 ^ 64
      → (is_in_pending clean p ≡ true → IsAdmitted io u file clean p)
      → Outcome io u file s (take_upload deps io u clean p s)
  unfolding take_upload
  take_upload-Outcome io u file s clean p small ok = elim (Bool-cases (is_in_pending clean p)) [
    | inr missing ↦ rw (missing, take_upload) (refused_at_once io u file s _ refl)
    | inl listed ↦ elim (Bool-cases (ltb max_body_size u.content_length)) [
      | inl large ↦ rw (listed, large, take_upload) (refused_at_once io u file s _ refl)
      | inr fits ↦
          elim (read_http_body-Ended deps.bodies io.files u.content_length u.initial_body true
            max_body_size s.world) [
              | undone e c f ↦
                  rw (listed, fits, e, take_upload)
                    (refused (record {
                      not_stored = refl;
                      pending = refl;
                      downloads = inl refl;
                      received = refl;
                      notified = refl;
                      balanced = c;
                    }))
              | done body e exact ↦
                  let bound : u.content_length ≤ max_body_size = within u.content_length fits in
                  let (bytes, read) =
                    exact-IsRead body u.content_length u.initial_body s.world
                      (read_http_body deps.bodies io.files u.content_length u.initial_body true
                        max_body_size s.world).1
                      small (omega (arith, bound)) exact in
                  rw (listed, fits, e, take_upload)
                    (receive-Outcome io u file s clean p body
                      (read_http_body deps.bodies io.files u.content_length u.initial_body true
                        max_body_size s.world).1
                      bytes (ok listed) bound read)
            ]
    ]
  ]

  pub begin_upload-cases :
      (io : Io) (u : Upload) (file : Option PendingFileTransfer)
      → ((e : UploadReply) × (begin_upload deps io u file ≡ inl e) × (is_stored e ≡ false))
        ⊎ ((clean : Text) × (p : PendingFileTransfer) × (begin_upload deps io u file
              ≡ inr (clean, p))
            × (is_in_pending clean p ≡ true → IsAdmitted io u file clean p)
            × (file ≡ some p)
            × (p.status ≡ status_accepted))
  unfolding begin_upload has_valid_token
  begin_upload-cases io u file = elim (Option-cases (clean_filename deps io u.req)) [
    | inl panics ↦ inl (name_panics, rw (panics, begin_upload) refl, refl)
    | inr (clean, name) ↦ elim (Option-cases (get_pending_transfer io.read_at file)) [
      | inl nothing ↦
          inl (unauthorized, rw (name, nothing, begin_upload, has_valid_token) refl, refl)
      | inr (p, found) ↦
          elim (Bool-cases
            (has_valid_token (or_default (get_param (codes "token") u.req)) io.now (some p))) [
              | inr bad ↦ inl (unauthorized, rw (name, found, bad, begin_upload) refl, refl)
              | inl valid ↦ inr (
                clean,
                p,
                rw (name, found, valid, begin_upload) refl,
                admit io u file clean p found valid name,
                pending-waits io.read_at file p found,
                (text_eq_iff p.status status_accepted).0 (ground (arith, valid)),
              )
            ]
    ]
  ]

  upload-Outcome :
      (io : Io) (u : Upload) (s : Server deps)
      → s.world.staged_bytes < 2 ^ 64
      → Outcome io u s.pending s (upload deps io u s)
  unfolding upload
  upload-Outcome io u s small = elim (begin_upload-cases io u s.pending) [
    | inl (e, refuses, no_file) ↦ rw (refuses, upload) (refused_at_once io u s.pending s e no_file)
    | inr (clean, p, begun, ok, waits, accepted) ↦
        rw (begun, upload) (take_upload-Outcome io u s.pending s clean p small ok)
  ]

  -- Where an upload is answered as stored, it came with the token of the transfer that waits, which
  -- is accepted, in time, and lists the file; the body is what was sent, in order and of the announced
  -- length, and has the expected digests; it is what the new file holds, and the counter of staged
  -- bytes is as before. This holds while that counter is below 2 ^ 64.
  pub upload_sound :
      (io : Io) (u : Upload) (s : Server deps)
      → s.world.staged_bytes < 2 ^ 64
      → is_stored (upload deps io u s).0 ≡ true
      → (clean : Text) × (p : PendingFileTransfer) × (bytes : List ℕ) × IsAdmitted io u s.pending
          clean p
        × IsReceived io u s clean p bytes (upload deps io u s)
  upload_sound io u s small h = elim (upload-Outcome io u s small) [
    | refused r ↦ absurd (cc (h, r.not_stored))
    | received clean p bytes ok r ↦ (clean, p, bytes, ok, r)
  ]

  -- An upload that is not answered as stored leaves the transfer that waits and the counters as they
  -- were, on every path, while the counter of staged bytes is below 2 ^ 64; the download directory
  -- too, but that a failed write can leave a file there whose name begins with `.tmp_`.
  pub upload-IsRefused :
      (io : Io) (u : Upload) (s : Server deps)
      → s.world.staged_bytes < 2 ^ 64
      → is_stored (upload deps io u s).0 ≡ false
      → IsRefused s (upload deps io u s)
  upload-IsRefused io u s small h = elim (upload-Outcome io u s small) [
    | refused r ↦ r
    | received clean p bytes ok r ↦ absurd (cc (h, ap is_stored r.reply))
  ]
