-- ===== src/Transfer/Upload.antt =====
-- The endpoint `/api/p2p/upload` of `handle_connection` in src/main.rs, on top of `read_http_body`.
-- `Deps` has the code outside the repository, `Io` what the system answers during one request.
pub mod Receipt
pub mod Remaining
pub mod Progress
use omarchy_omasend.Common.{
  ℕ, ◌+◌, ◌*◌, ◌%◌, ◌^◌, Bool, true, false, not, ◌&&◌, ◌||◌, List, [], ◌∷◌, ◌++◌, Option, none,
  some, ltb, leb, ◌==◌, if◌then◌else◌, any, find, length, ◌⊎◌, inl, inr,
}
use omarchy_omasend.Common.Text.{Text, codes, text_eq, as_bytes}
use omarchy_omasend.Http.{HttpRequest, get_header, get_param}
use omarchy_omasend.HttpBody
use omarchy_omasend.HttpBody.{Files, memory, staged, World, read_http_body}
use omarchy_omasend.Filename
use omarchy_omasend.Filename.{sanitize_filename, get_unique_filepath}
use omarchy_omasend.Staging.Budget.{saturating_add, release}
use omarchy_omasend.SecureFile.{Directory, WriteEnd, write_secure_bytes}
use omarchy_omasend.Notified.{Announced, record_notified_file}
use omarchy_omasend.UrlCodec.{urlencoding_decode}
use omarchy_omasend.Transfer.Model.{
  TransferFileInfo, PendingFileTransfer, status_accepted, get_pending_transfer,
  save_pending_transfer, clear_pending_transfer, eq_ignore_ascii_case, remove_first,
}

abbrev pub max_body_size : ℕ
max_body_size = 100 * 1024 * 1024

abbrev pub save_reserve_bytes : ℕ
save_reserve_bytes = 10 * 1024 * 1024

-- `String::from_utf8_lossy`, what names need, and what bodies need.
pub record Deps : Type 1 where
  pub from_utf8_lossy : List ℕ → Text
  pub names : Filename.Deps
  pub bodies : HttpBody.Deps

-- The clocks, the answers of the file system while the body is read, the free space before a body in
-- memory is saved, how far its write comes and the end of its temporary name, whether a staged body is
-- renamed, whether pending_transfer.json is written or removed, and the clock and the lock of the
-- announced files.
pub record Io : Type 0 where
  pub now : ℕ
  pub read_at : ℕ
  pub name_secs : ℕ
  pub name_millis : ℕ
  pub files : Files
  pub avail : Option ℕ
  pub write : WriteEnd
  pub tmp_suffix : Text
  pub persists : Bool
  pub writes_pending : Bool
  pub removes_pending : Bool
  pub notified_at : ℕ
  pub locks : Bool

pub data UploadReply : Type 0 where
  name_panics unauthorized not_listed too_large closed blake3_mismatch sha256_mismatch md5_mismatch
        no_space write_failed :
      UploadReply
  stored : (filename : Text) (size : ℕ) (sha256 md5 : Text) → UploadReply

-- One request: what was parsed of it, and the bytes that came with the headers.
pub record Upload : Type 0 where
  pub req : HttpRequest
  pub content_length : ℕ
  pub initial_body : List ℕ

abbrev pub or_default : Option Text → Text
or_default none = []
or_default (some s) = s

-- `a.or_else(|| b)`.
abbrev pub or_else {ℓ} : {A : Type ℓ} → Option A → Option A → Option A
or_else none b = b
or_else (some a) b = some a

unfoldable pub has_valid_token : Text → ℕ → Option PendingFileTransfer → Bool
has_valid_token token now none = false
has_valid_token token now (some p) =
    text_eq p.token token && text_eq p.status status_accepted && leb now p.expires_at

abbrev pub is_info : Text → TransferFileInfo → Bool
is_info clean f = text_eq f.name clean

abbrev pub matching_info : Text → PendingFileTransfer → Option TransferFileInfo
matching_info clean p = find (is_info clean) p.files

unfoldable pub is_in_pending : Text → PendingFileTransfer → Bool
is_in_pending clean p =
    elim (matching_info clean p) [ none ↦ false | some f ↦ true ]
    || any (λ n. text_eq n clean) p.file_names

-- The digest that is expected: the parameter, else the header, else the one of the request.
unfoldable pub expected_digest :
    Text
    → Text
    → (TransferFileInfo → Option Text)
    → HttpRequest
    → Option TransferFileInfo
    → Option Text
expected_digest param header digest req info =
    or_else (get_param param req)
      (or_else (get_header header req) (elim info [ none ↦ none | some f ↦ digest f ]))

unfoldable pub agrees : Option Text → Text → Bool
agrees none computed = true
agrees (some exp) computed = eq_ignore_ascii_case exp computed

-- The three comparisons, in this order; `none` when all agree.
unfoldable pub check_digests :
    HttpRequest → Option TransferFileInfo → Text × Text × Text → Option UploadReply
check_digests req info h =
    let exp_blake3 =
      expected_digest (codes "blake3") (codes "x-file-blake3") (λ f. f.blake3) req info in
    let exp_sha256 =
      expected_digest (codes "sha256") (codes "x-file-sha256") (λ f. f.sha256) req info in
    let exp_md5 = expected_digest (codes "md5") (codes "x-file-md5") (λ f. f.md5) req info in
    if not (agrees exp_blake3 h.0)
    then some blake3_mismatch
    else if not (agrees exp_sha256 h.1)
    then some sha256_mismatch
    else if not (agrees exp_md5 h.2)
    then some md5_mismatch
    else none

-- The transfer without the file of this name.
unfoldable pub without_file : Text → PendingFileTransfer → PendingFileTransfer
unfolding remove_first
without_file clean p = record p {
  file_names = remove_first (λ n. text_eq n clean) p.file_names;
  files = remove_first (is_info clean) p.files;
}

abbrev pub is_empty {ℓ} : {A : Type ℓ} → List A → Bool
is_empty [] = true
is_empty (x ∷ xs) = false

-- What is left in pending_transfer.json once a file of the transfer was stored.
unfoldable pub settle :
    Io → Text → PendingFileTransfer → Option PendingFileTransfer → Option PendingFileTransfer
settle io clean p file =
    let p' = without_file clean p in
    if is_empty p'.file_names && is_empty p'.files
    then clear_pending_transfer io.removes_pending file
    else save_pending_transfer io.writes_pending p' file

module _ (deps : Deps) where
  -- `HttpBody::len` and `compute_military_hashes`. A staged body has all three digests, so that its
  -- file is not read again.
  abbrev pub body_len : HttpBody.HttpBody → ℕ
  body_len (memory bytes) = length bytes
  body_len (staged total_written reserved b s m) = total_written

  abbrev pub compute_military_hashes : HttpBody.HttpBody → Text × Text × Text
  compute_military_hashes (memory bytes) =
      (deps.bodies.blake3 bytes, deps.bodies.sha256 bytes, deps.bodies.md5 bytes)
  compute_military_hashes (staged total_written reserved b s m) = (b, s, m)

  -- What the server keeps: the stream and the staging of bodies, the transfer that waits, the files
  -- in the download directory, the counter of received files, and the files announced recently.
  pub record Server : Type 0 where
    pub world : World deps.bodies
    pub pending : Option PendingFileTransfer
    pub downloads : Directory
    pub received : ℕ
    pub notified : Announced

  abbrev pub exists : Server → Text → Bool
  exists s name = any (λ d. text_eq d.0 name) s.downloads

  -- A body that is dropped: a staged one takes its file and its reservation with it.
  unfoldable pub drop_body : HttpBody.HttpBody → World deps.bodies → World deps.bodies
  drop_body (memory bytes) w = w
  drop_body (staged total_written reserved b s m) w = record w {
    staged_bytes = (release reserved w.staged_bytes).1;
    file = none;
  }

  -- Whether the body was saved under this name, and the directory then: bytes in memory are written,
  -- and `StagedFile::persist` renames the staging file. Dropping the body releases its reservation
  -- either way.
  unfoldable pub save_body :
      Io → Text → HttpBody.HttpBody → World deps.bodies → Directory → Bool × Directory
  save_body io name (memory bytes) w dir = write_secure_bytes io.write io.tmp_suffix name bytes dir
  save_body io name (staged total_written reserved b s m) w dir =
      if io.persists
      then elim w.file [ none ↦ (false, dir) | some bytes ↦ (true, (name, bytes) ∷ dir) ]
      else (false, dir)

  -- A body in memory needs ten mebibytes more than itself.
  unfoldable pub lacks_space : Io → HttpBody.HttpBody → Bool
  lacks_space io (staged total_written reserved b s m) = false
  lacks_space io (memory bytes) = elim io.avail [
    | none ↦ false
    | some free ↦ ltb free (saturating_add (length bytes) save_reserve_bytes)
  ]

  -- The part after the body was read.
  unfoldable pub receive :
      Io
      → HttpRequest
      → Text
      → PendingFileTransfer
      → HttpBody.HttpBody
      → Server
      → UploadReply × Server
  receive io req clean p body s =
      let h = compute_military_hashes body in
      let final_name = get_unique_filepath deps.names (exists s) io.name_millis clean in
      let dropped = record s { world = drop_body body s.world } in
      let saved = save_body io final_name body s.world s.downloads in
      elim (check_digests req (matching_info clean p) h) [
        | some mismatch ↦ (mismatch, dropped)
        | none ↦
            if lacks_space io body
            then (no_space, dropped)
            else if saved.0
            then (
              stored final_name (body_len body) h.1 h.2,
              record dropped {
                pending = settle io clean p s.pending;
                downloads = saved.1;
                received = (s.received + 1) % 2 ^ 64;
                notified = record_notified_file io.locks io.notified_at final_name s.notified;
              },
            )
            else (write_failed, record dropped { downloads = saved.1 })
      ]

  -- The name that the request gives, cleaned; `none` is the panic of `sanitize_filename`.
  unfoldable pub clean_filename : Io → HttpRequest → Option Text
  clean_filename io req = sanitize_filename deps.names io.name_secs (
      deps.from_utf8_lossy
        (urlencoding_decode (as_bytes (or_default (get_param (codes "filename") req)))))

  -- The part after the transfer was found: the file must be listed, and its size allowed.
  unfoldable pub take_upload :
      Io → Upload → Text → PendingFileTransfer → Server → UploadReply × Server
  take_upload io u clean p s =
      let (body, w) =
        read_http_body deps.bodies io.files u.content_length u.initial_body true max_body_size
          s.world in
      if not (is_in_pending clean p)
      then (not_listed, s)
      else if ltb max_body_size u.content_length
      then (too_large, s)
      else elim body [
        | none ↦ (closed, record s { world = w })
        | some b ↦ receive io u.req clean p b (record s { world = w })
      ]

  -- The part before the body: the transfer is read from the file once, here, and the part after it
  -- works with what was read. Other requests are answered between the two.
  unfoldable pub begin_upload :
      Io → Upload → Option PendingFileTransfer → UploadReply ⊎ (Text × PendingFileTransfer)
  begin_upload io u file =
      let token = or_default (get_param (codes "token") u.req) in
      let pending_opt = get_pending_transfer io.read_at file in
      elim (clean_filename io u.req) [
        | none ↦ inl name_panics
        | some clean ↦
            if not (has_valid_token token io.now pending_opt)
            then inl unauthorized
            else elim pending_opt [ none ↦ inl unauthorized | some p ↦ inr (clean, p) ]
      ]

  -- An upload that meets no other request.
  unfoldable pub upload : Io → Upload → Server → UploadReply × Server
  upload io u s = elim (begin_upload io u s.pending) [
    | inl refusal ↦ (refusal, s)
    | inr begun ↦ take_upload io u begun.0 begun.1 s
  ]
