-- ===== src/Pairing/Tests.antt =====
-- The theorems about pairing in src/rendezvous.rs at one file with one peer.
use omarchy_omasend.Common.{
  ℕ, ◌≡◌, ◌≢◌, ◌↔◌, ◌∷◌, [], refl, arith, Option, none, some, List, true, false, Result, ok, err,
  find, ◌≤◌,
}
use omarchy_omasend.Common.Text.{Text, codes, as_bytes, trim}
use omarchy_omasend.Net.{IpAddr, v4, to_canonical, is_local_network_ip, is_loopback}
use omarchy_omasend.OmaId.{normalize_oma_id, validate_oma_id, format_oma_id}
use omarchy_omasend.Pairing.Model.{
  PairedPeer, Io, Disk, not_authorized, StoreError, is_id, constant_time_eq, random_pair_code,
  accepted, attempt, source_ok, set_first, random_hex_token, display_name, parse_local_ip_hint,
  saturating_u64,
}
use omarchy_omasend.Pairing.Ops.{
  load_paired_peers, verify_peer_auth_token, begin_local_pairing, complete_remote_pairing,
  save_then, replace_peer,
}
use omarchy_omasend.Pairing.Complete.{
  source_allowed, well_formed, lookup_peer, complete_sound, complete_once,
  complete_err_confirms_none,
}
use omarchy_omasend.Pairing.Lockout.{
  Request, guesses, complete, run, AllRefused, complete_locks_out,
}
use omarchy_omasend.Pairing.Attempt.{Awaits}
use omarchy_omasend.Pairing.RoundTrip.{no_hint, complete-begin}
use omarchy_omasend.Pairing.Invariant.{IsStore, waiting, paired}
use omarchy_omasend.Pairing.Reachable.{completes, Step-IsStore}
use omarchy_omasend.Pairing.Auth.{Holds, verify_peer_auth_token_iff}
use omarchy_omasend.PinLimiter.{is_pin_rate_limited, state_of}
use omarchy_omasend.Json.{missing, text, as_str}
use omarchy_omasend.Http.PairEndpoint.{
  PairData, parse_pair, PairRequest, body_slice, pair_endpoint, answer_pair, pairing_done,
  pairing_refused, max_control_body, token_of, pair_endpoint_done,
}
use omarchy_omasend.Http.RequestAuth.{check_sender, admitted, check_sender_iff}
use omarchy_omasend.Pairing.Sample.{sample_deps, writes, disk_of}

abbrev desk_id : Text
desk_id = codes "4539-1488-0343-6467"

abbrev desk_code : Text
desk_code = codes "123456"

abbrev desk : PairedPeer
desk = record {
  oma_id = desk_id;
  name = codes "Desk";
  ip = none;
  paired_at = 0;
  auth_token = some (codes "ab12");
  confirmed = false;
  pair_code = some desk_code;
  pair_expires_at = some 600;
  pair_failures = 0;
}

abbrev desk_paired : PairedPeer
desk_paired = record desk {
  oma_id = codes "0000-0000-0000-0000";
  confirmed = true;
  ip = some (codes "x");
  pair_code = none;
  pair_expires_at = none;
}

abbrev calm_io : Io
calm_io = record {
  lock_error = none;
  write_error = none;
  token_bytes = some (1 ∷ 2 ∷ 3 ∷ []);
  code_draws = some 123456 ∷ [];
  clock = 7;
}

abbrev home : IpAddr
home = v4 192 168 1 7

abbrev guess : Text → Request
guess code = record { io = calm_io; code = code; source_ip = home; now = 10 }

abbrev wrong : Request
wrong = guess (codes "000000")

abbrev five_wrong : List Request
five_wrong = wrong ∷ wrong ∷ wrong ∷ wrong ∷ wrong ∷ []

-- What the tests run on computes.
accepts :
    (complete_remote_pairing sample_deps calm_io desk_id desk_code home 10 (disk_of (desk ∷ []))).0
    ≡ ok (accepted sample_deps desk home 10)
unfolding complete_remote_pairing is_local_network_ip is_loopback to_canonical validate_oma_id
    load_paired_peers sample_deps attempt as_bytes disk_of save_then constant_time_eq set_first
accepts = refl

refuses :
    (complete_remote_pairing sample_deps calm_io desk_id
      (codes "000000")
      home
      10
      (disk_of (desk ∷ []))).0
    ≡ err not_authorized
unfolding complete_remote_pairing is_local_network_ip is_loopback to_canonical validate_oma_id
    load_paired_peers sample_deps attempt as_bytes disk_of save_then constant_time_eq set_first
refuses = refl

complete_sound_example :
    (source_allowed home ≡ true)
    × (well_formed desk_id desk_code ≡ true)
    × ((p : PairedPeer) × (lookup_peer sample_deps (normalize_oma_id desk_id) (disk_of (desk ∷ []))
          ≡ some p)
        × Awaits sample_deps p desk_code 10
        × (source_ok sample_deps p.ip (to_canonical home) ≡ true)
        × (accepted sample_deps desk home 10 ≡ accepted sample_deps p (to_canonical home) 10)
        × (lookup_peer sample_deps
              (normalize_oma_id desk_id)
              (complete_remote_pairing sample_deps calm_io desk_id desk_code home 10
                (disk_of (desk ∷ []))).1
            ≡ some (accepted sample_deps desk home 10)))
complete_sound_example =
    complete_sound sample_deps calm_io desk_id desk_code home 10 (disk_of (desk ∷ []))
      (accepted sample_deps desk home 10) accepts

complete_once_example :
    (complete_remote_pairing sample_deps calm_io desk_id desk_code home 11
      (complete_remote_pairing sample_deps calm_io desk_id desk_code home 10
        (disk_of (desk ∷ []))).1).0
    ≢ ok (accepted sample_deps desk home 11)
complete_once_example =
    complete_once sample_deps calm_io calm_io desk_id desk_code desk_code home home 10 11
      (disk_of (desk ∷ [])) (accepted sample_deps desk home 10) (accepted sample_deps desk home 11)
      accepts

refused_keeps :
    lookup_peer sample_deps
      (codes "0000000000000000")
      (complete_remote_pairing sample_deps calm_io desk_id
        (codes "000000")
        home
        10
        (disk_of (desk ∷ desk_paired ∷ []))).1
    ≡ some desk_paired
unfolding complete_remote_pairing is_local_network_ip is_loopback to_canonical validate_oma_id
    load_paired_peers sample_deps attempt as_bytes disk_of save_then constant_time_eq set_first
refused_keeps = refl

refuses_two :
    (complete_remote_pairing sample_deps calm_io desk_id
      (codes "000000")
      home
      10
      (disk_of (desk ∷ desk_paired ∷ []))).0
    ≡ err not_authorized
unfolding complete_remote_pairing is_local_network_ip is_loopback to_canonical validate_oma_id
    load_paired_peers sample_deps attempt as_bytes disk_of save_then constant_time_eq set_first
refuses_two = refl

complete_err_confirms_none_example :
    lookup_peer sample_deps (codes "0000000000000000") (disk_of (desk ∷ desk_paired ∷ []))
    ≡ some desk_paired
complete_err_confirms_none_example =
    complete_err_confirms_none sample_deps calm_io desk_id (codes "000000") home 10
      (disk_of (desk ∷ desk_paired ∷ [])) (codes "0000000000000000") not_authorized desk_paired
      refuses_two refused_keeps refl

five_refused : AllRefused sample_deps desk_id five_wrong (disk_of (desk ∷ []))
unfolding complete_remote_pairing is_local_network_ip is_loopback to_canonical validate_oma_id
    load_paired_peers sample_deps attempt as_bytes disk_of save_then constant_time_eq set_first
five_refused =
    ((λ q e. cc e), ((λ q e. cc e), ((λ q e. cc e), ((λ q e. cc e), ((λ q e. cc e), tt)))))

desk_found :
    find (is_id (normalize_oma_id desk_id)) (load_paired_peers sample_deps (disk_of (desk ∷ [])))
    ≡ some desk
unfolding complete_remote_pairing is_local_network_ip is_loopback to_canonical validate_oma_id
    load_paired_peers sample_deps attempt as_bytes disk_of save_then constant_time_eq set_first
desk_found = refl

five_guesses : 5 ≤ guesses sample_deps desk_id 600 five_wrong
unfolding complete_remote_pairing is_local_network_ip is_loopback to_canonical validate_oma_id
    load_paired_peers sample_deps attempt as_bytes disk_of save_then constant_time_eq set_first
five_guesses = omega arith

complete_locks_out_example :
    (complete sample_deps desk_id
      (guess desk_code)
      (run sample_deps desk_id five_wrong (disk_of (desk ∷ [])))).0
    ≢ ok (accepted sample_deps desk home 10)
complete_locks_out_example =
    complete_locks_out sample_deps desk_id five_wrong (guess desk_code) (disk_of (desk ∷ [])) 600
      desk (accepted sample_deps desk home 10) writes
      ((refl, refl), ((refl, refl), ((refl, refl), ((refl, refl), ((refl, refl), tt)))))
      five_refused desk_found refl refl five_guesses

-- A desk that is paired from a file that does not exist.
abbrev begun : Option (Result (PairedPeer × Text) StoreError × Disk)
begun =
    begin_local_pairing sample_deps calm_io desk_id (codes "Desk") none 0
      (record { content = none })

abbrev begun_peer : PairedPeer
begun_peer = record {
  oma_id = desk_id;
  name = codes "Desk";
  ip = none;
  paired_at = 0;
  auth_token = some (codes "010203");
  confirmed = false;
  pair_code = some desk_code;
  pair_expires_at = some 600;
  pair_failures = 0;
}

begins_so : begun ≡ some (ok (begun_peer, desk_code), disk_of (begun_peer ∷ []))
unfolding begin_local_pairing replace_peer random_pair_code validate_oma_id format_oma_id
    load_paired_peers sample_deps as_bytes disk_of save_then random_hex_token display_name
    parse_local_ip_hint saturating_u64 trim
begins_so = refl

complete-begin_example :
    (complete_remote_pairing sample_deps calm_io desk_id desk_code home 10
      (disk_of (begun_peer ∷ []))).0
    ≡ ok (accepted sample_deps begun_peer (to_canonical home) 10)
unfolding is_local_network_ip
complete-begin_example =
    complete-begin sample_deps calm_io desk_id (codes "Desk") none 0 (record { content = none })
      (disk_of (begun_peer ∷ [])) begun_peer desk_code (guess desk_code) begins_so writes
      (refl, refl) refl (no_hint refl) (omega arith) refl

desk_in_order : IsStore (load_paired_peers sample_deps (disk_of (desk ∷ [])))
unfolding load_paired_peers sample_deps disk_of
desk_in_order = record {
  distinct = (refl, tt);
  each = (
    record {
      valid = unfold validate_oma_id as_bytes in refl;
      phase = waiting desk_code (codes "ab12") refl refl refl (λ e. cc e);
    },
    tt,
  );
}

Step-IsStore_example : IsStore (
    load_paired_peers sample_deps
      (complete_remote_pairing sample_deps calm_io desk_id desk_code home 10
        (disk_of (desk ∷ []))).1)
Step-IsStore_example =
    Step-IsStore sample_deps (disk_of (desk ∷ []))
      (complete_remote_pairing sample_deps calm_io desk_id desk_code home 10
        (disk_of (desk ∷ []))).1
      (completes calm_io desk_id desk_code home 10 refl) desk_in_order

paired_in_order : IsStore (load_paired_peers sample_deps (disk_of (desk_paired ∷ [])))
unfolding load_paired_peers sample_deps disk_of
paired_in_order = record {
  distinct = (refl, tt);
  each = (
    record {
      valid = unfold validate_oma_id as_bytes in refl;
      phase = paired (codes "x") (codes "ab12") refl refl refl refl (λ e. cc e);
    },
    tt,
  );
}

verify_peer_auth_token_iff_example :
    (verify_peer_auth_token sample_deps desk_paired.oma_id
        (codes "ab12")
        (disk_of (desk_paired ∷ []))
      ≡ true)
    ↔ ((p : PairedPeer) × (find
            (is_id (normalize_oma_id desk_paired.oma_id))
            (load_paired_peers sample_deps (disk_of (desk_paired ∷ [])))
          ≡ some p)
        × Holds p (codes "ab12"))
verify_peer_auth_token_iff_example =
    verify_peer_auth_token_iff sample_deps desk_paired.oma_id (codes "ab12")
      (disk_of (desk_paired ∷ [])) paired_in_order

abbrev parse_sample : List ℕ → Option PairData
parse_sample bytes =
    some (record { oma_id = missing; sender_id = text desk_id; pair_code = text bytes })

abbrev pair_request : Text → PairRequest
pair_request code = record {
  io = calm_io;
  visible = true;
  content_length = 6;
  body = body_slice code;
  client_ip = home;
  now_secs = 10;
  now = 5;
}

pairs :
    (pair_endpoint sample_deps parse_sample (pair_request desk_code) [] (disk_of (desk ∷ []))).0
    ≡ pairing_done (codes "ab12")
unfolding pair_endpoint parse_pair as_str answer_pair is_pin_rate_limited state_of
    complete_remote_pairing is_local_network_ip is_loopback to_canonical validate_oma_id
    load_paired_peers sample_deps attempt as_bytes disk_of save_then constant_time_eq set_first
pairs = refl

pair_endpoint_done_example :
    (true ≡ true)
    × (is_pin_rate_limited home 5 [] ≡ false)
    × (6 ≤ max_control_body)
    × ((bytes : List ℕ) × (oma_id : Text) × (code : Text) × (peer : PairedPeer) × (body_slice
            desk_code
          ≡ body_slice bytes)
        × (parse_pair parse_sample bytes ≡ some (oma_id, code))
        × ((complete_remote_pairing sample_deps calm_io oma_id code home 10 (disk_of (desk ∷ []))).0
            ≡ ok peer)
        × (codes "ab12" ≡ token_of peer)
        × ((pair_endpoint sample_deps parse_sample
              (pair_request desk_code)
              []
              (disk_of (desk ∷ []))).2
            ≡ (complete_remote_pairing sample_deps calm_io oma_id code home 10
                (disk_of (desk ∷ []))).1))
pair_endpoint_done_example =
    pair_endpoint_done sample_deps parse_sample (pair_request desk_code) [] (disk_of (desk ∷ []))
      (codes "ab12") pairs

pair_refused :
    (pair_endpoint sample_deps parse_sample
      (pair_request (codes "000000"))
      []
      (disk_of (desk ∷ desk_paired ∷ []))).0
    ≡ pairing_refused
unfolding pair_endpoint parse_pair as_str answer_pair is_pin_rate_limited state_of
    complete_remote_pairing is_local_network_ip is_loopback to_canonical validate_oma_id
    load_paired_peers sample_deps attempt as_bytes disk_of save_then constant_time_eq set_first
pair_refused = refl

pair_keeps :
    lookup_peer sample_deps
      (codes "0000000000000000")
      (pair_endpoint sample_deps parse_sample
        (pair_request (codes "000000"))
        []
        (disk_of (desk ∷ desk_paired ∷ []))).2
    ≡ some desk_paired
unfolding pair_endpoint parse_pair as_str answer_pair is_pin_rate_limited state_of
    complete_remote_pairing is_local_network_ip is_loopback to_canonical validate_oma_id
    load_paired_peers sample_deps attempt as_bytes disk_of save_then constant_time_eq set_first
pair_keeps = refl

check_sender_iff_example :
    (check_sender sample_deps desk_paired.oma_id (codes "ab12") (disk_of (desk_paired ∷ []))
      ≡ admitted)
    ↔ (verify_peer_auth_token sample_deps desk_paired.oma_id
          (codes "ab12")
          (disk_of (desk_paired ∷ []))
        ≡ true)
check_sender_iff_example =
    check_sender_iff sample_deps desk_paired.oma_id (codes "ab12") (disk_of (desk_paired ∷ []))
