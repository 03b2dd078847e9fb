-- ===== src/Transfer/Tests.antt =====
-- The theorems about transfers of src/main.rs at two uploads of two bytes each.
use omarchy_omasend.Common.{
  ℕ, ◌+◌, ◌≤◌, ◌≡◌, refl, true, false, List, [], ◌∷◌, none, some, length, all, arith,
}
use omarchy_omasend.Common.Text.{Text, codes, trim, trim_start, is_whitespace, as_bytes, utf8}
use omarchy_omasend.UrlCodec.{urlencoding_decode, from_str_radix_16, hex_value}
use omarchy_omasend.HttpBody
use omarchy_omasend.HttpBody.{got, Files, read_http_body, read_memory, fill}
use omarchy_omasend.Filename
use omarchy_omasend.Filename.{
  sanitize_filename, contains_dots, cut, get_unique_filepath, stem_and_extension, last_dot,
  first_free, candidate_name,
}
use omarchy_omasend.Http.{
  get_param, first_with_prefix, split, strip_prefix, find_header, get_header,
}
use omarchy_omasend.Transfer.Model.{
  TransferFileInfo, PendingFileTransfer, status_accepted, get_pending_transfer, remove_first,
  save_pending_transfer, clear_pending_transfer,
}
use omarchy_omasend.SecureFile.{done, write_secure_bytes}
use omarchy_omasend.Transfer.Upload.{
  Deps, Io, Upload, Server, upload, begin_upload, clean_filename, has_valid_token, take_upload,
  is_in_pending, receive, check_digests, expected_digest, agrees, lacks_space, save_body, drop_body,
  settle, without_file,
}
use omarchy_omasend.Transfer.Upload.Receipt.{
  is_stored, IsAdmitted, IsReceived, IsRefused, upload_sound, upload-IsRefused,
}
use omarchy_omasend.Transfer.Upload.Remaining.{outstanding}
use omarchy_omasend.Transfer.Upload.Progress.{
  Waits, run_uploads, names_of, put_all, run_uploads_refines,
}

-- No more bytes come than those with the headers; digests are the bytes themselves.
pub read_end_fits : (cap : ℕ) (s : Unit {0}) (bs : List ℕ) → got [] ≡ got bs → length bs ≤ cap
read_end_fits cap s [] h = omega arith
read_end_fits cap s (b ∷ bs) h = absurd (cc h)

abbrev pub bodies : HttpBody.Deps
bodies = record {
  Stream = Unit;
  read = λ cap s. (got [], s);
  read_fits = read_end_fits;
  blake3 = λ bs. bs;
  sha256 = λ bs. bs;
  md5 = λ bs. bs;
}

abbrev pub names : Filename.Deps
names = record { is_alphanumeric = λ c. true; show = λ n. n ∷ [] }

abbrev pub deps : Deps
deps = record { from_utf8_lossy = λ bs. bs; names = names; bodies = bodies }

abbrev pub files : Files
files = record { avail = none; opens = true; writes = λ n. true; flushes = true }

abbrev pub io : Io
io = record {
  now = 100;
  read_at = 100;
  name_secs = 100;
  name_millis = 100;
  files = files;
  avail = none;
  write = done;
  tmp_suffix = codes "1_ab";
  persists = true;
  writes_pending = true;
  removes_pending = true;
  notified_at = 100;
  locks = true;
}

abbrev pub upload_of : Text → Upload
upload_of query = record {
  req = record {
    method = codes "POST";
    path = codes "/api/p2p/upload";
    query = query;
    headers = [];
  };
  content_length = 2;
  initial_body = 7 ∷ 8 ∷ [];
}

abbrev pub info : Text → TransferFileInfo
info name = record {
  name = name;
  size_bytes = 2;
  blake3 = none;
  sha256 = some (7 ∷ 8 ∷ []);
  md5 = none;
}

abbrev pub transfer : PendingFileTransfer
transfer = record {
  token = codes "t";
  sender_id = codes "s";
  sender_name = codes "s";
  sender_ip = [];
  file_names = codes "a" ∷ codes "b" ∷ [];
  files = info (codes "a") ∷ info (codes "b") ∷ [];
  remaining_files = 2;
  total_size_bytes = 4;
  created_at = 90;
  expires_at = 690;
  status = status_accepted;
}

abbrev pub server : Server deps
server = record {
  world = record { stream = tt; staged_bytes = 5; file = none };
  pending = some transfer;
  downloads = [];
  received = 0;
  notified = none;
}

abbrev pub first_b : Upload
first_b = upload_of (codes "token=t&filename=b")

abbrev then_a : Upload
then_a = upload_of (codes "token=t&filename=a")

abbrev calls : List (Io × Upload)
calls = (io, first_b) ∷ (io, then_a) ∷ []

first_stored : is_stored (upload deps io first_b server).0 ≡ true
unfolding upload begin_upload clean_filename sanitize_filename trim trim_start is_whitespace
    urlencoding_decode from_str_radix_16 hex_value as_bytes utf8 get_param first_with_prefix split
    strip_prefix contains_dots cut has_valid_token get_pending_transfer take_upload is_in_pending
    read_http_body read_memory fill receive get_unique_filepath stem_and_extension last_dot
    first_free candidate_name find_header get_header check_digests expected_digest agrees
    lacks_space save_body drop_body write_secure_bytes settle without_file remove_first
    save_pending_transfer clear_pending_transfer
first_stored = refl

upload_sound_example :
    (clean : Text) × (p : PendingFileTransfer) × (bytes : List ℕ) × IsAdmitted deps io first_b
      server.pending clean p
    × IsReceived deps io first_b server clean p bytes (upload deps io first_b server)
upload_sound_example = upload_sound deps io first_b server (omega arith) first_stored

wrong_token : Upload
wrong_token = upload_of (codes "token=x&filename=b")

wrong_token_refused : is_stored (upload deps io wrong_token server).0 ≡ false
unfolding wrong_token upload begin_upload clean_filename sanitize_filename trim trim_start
    is_whitespace urlencoding_decode from_str_radix_16 hex_value as_bytes utf8 get_param
    first_with_prefix split strip_prefix contains_dots cut has_valid_token get_pending_transfer
    take_upload is_in_pending read_http_body read_memory fill receive get_unique_filepath
    stem_and_extension last_dot first_free candidate_name find_header get_header check_digests
    expected_digest agrees lacks_space save_body drop_body write_secure_bytes settle without_file
    remove_first save_pending_transfer clear_pending_transfer
wrong_token_refused = refl

upload-IsRefused_example : IsRefused deps server (upload deps io wrong_token server)
upload-IsRefused_example =
    upload-IsRefused deps io wrong_token server (omega arith) wrong_token_refused

both_stored : all is_stored (run_uploads deps calls server).0 ≡ true
unfolding upload begin_upload clean_filename sanitize_filename trim trim_start is_whitespace
    urlencoding_decode from_str_radix_16 hex_value as_bytes utf8 get_param first_with_prefix split
    strip_prefix contains_dots cut has_valid_token get_pending_transfer take_upload is_in_pending
    read_http_body read_memory fill receive get_unique_filepath stem_and_extension last_dot
    first_free candidate_name find_header get_header check_digests expected_digest agrees
    lacks_space save_body drop_body write_secure_bytes settle without_file remove_first
    save_pending_transfer clear_pending_transfer
both_stored = refl

two_wait : Waits 2 server.pending
two_wait = (transfer, refl, refl, refl)

run_uploads_refines_example :
    (m : ℕ) × (2 ≡ length calls + m)
    × Waits m (run_uploads deps calls server).1.pending
    × (put_all (names_of deps calls) (outstanding (run_uploads deps calls server).1.pending)
        ≡ outstanding server.pending)
run_uploads_refines_example =
    run_uploads_refines deps calls server 2 (omega arith) ((refl, refl), ((refl, refl), tt))
      two_wait both_stored
