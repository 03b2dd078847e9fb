-- ===== src/Pairing/Model.antt =====
-- The data of src/rendezvous.rs behind pairing, and the functions on one record. `Io` is what the
-- system answers during one call; `Deps` stands for the code outside the repository.
use Prim.Native.Nat.{bit_or, bit_xor}
use omarchy_omasend.Common.{
  ℕ, ◌+◌, ◌-◌, ◌*◌, ◌/◌, ◌%◌, ◌^◌, ◌≡◌, Bool, true, false, not, ◌&&◌, List, [], ◌∷◌, ◌++◌, Option,
  none, some, min, ltb, leb, ◌==◌, if◌then◌else◌, length, take, keep_if, Result, ok, err,
}
use omarchy_omasend.Common.Text.{Text, codes, is_control, text_eq, as_bytes, len, trim}
use omarchy_omasend.Net.{IpAddr, ip_eq, to_canonical, is_local_network_ip, IsAddr}
use omarchy_omasend.OmaId.{normalize_oma_id, format_oma_id}

abbrev pub pair_code_ttl_secs : ℕ
pair_code_ttl_secs = 600

abbrev pub pair_code_max_failures : ℕ
pair_code_max_failures = 5

abbrev pub max_peer_name_chars : ℕ
max_peer_name_chars = 64

pub record PairedPeer : Type 0 where
  pub oma_id : Text
  pub name : Text
  pub ip : Option Text
  pub paired_at : ℕ
  pub auth_token : Option Text
  pub confirmed : Bool
  pub pair_code : Option Text
  pub pair_expires_at : Option ℕ
  pub pair_failures : ℕ

-- The text of an address (`IpAddr`'s `FromStr` and `Display`), `serde_json` at `PairedPeersDb`, and
-- `hex::encode`.
pub record Deps : Type 0 where
  pub parse_ip : Text → Option IpAddr
  pub show_ip : IpAddr → Text
  pub parse-show : (ip : IpAddr) → IsAddr ip → parse_ip (show_ip ip) ≡ some ip
  pub parse-IsAddr : (s : Text) (ip : IpAddr) → parse_ip s ≡ some ip → IsAddr ip
  pub to_json : List PairedPeer → Result Text Text
  pub from_json : Text → Option (List PairedPeer)
  pub from_json-to_json :
      (ps : List PairedPeer) (s : Text) → to_json ps ≡ ok s → from_json s ≡ some ps
  pub hex_encode : List ℕ → Text
  pub hex_encode-len : (bs : List ℕ) → len (hex_encode bs) ≡ 2 * length bs

-- What the system answers in one call: an error of taking the lock or of writing the file, the 32
-- bytes of `getrandom` for a token (`none` for an error), the words drawn for a code, the clock.
pub record Io : Type 0 where
  pub lock_error : Option Text
  pub write_error : Option Text
  pub token_bytes : Option (List ℕ)
  pub code_draws : List (Option ℕ)
  pub clock : ℕ

-- The content of paired_peers.json as `read_secure_file` gives it, `none` where that fails.
pub record Disk : Type 0 where
  pub content : Option Text

pub data PairingError : Type 0 where
  not_authorized : PairingError
  storage : Text → PairingError

-- The messages of the functions that return `Err(String)`.
pub data StoreError : Type 0 where
  invalid_oma_id bad_ip_hint csprng_failure invalid_responder bad_peer_address bad_token :
      StoreError
  io_error : Text → StoreError

-- `PairedPeer::is_active`.
unfoldable pub is_active : PairedPeer → Bool
is_active p = p.confirmed && elim p.ip [ none ↦ false | some s ↦ not (text_eq s []) ]

abbrev pub is_id : Text → PairedPeer → Bool
is_id norm p = text_eq (normalize_oma_id p.oma_id) norm

unfoldable pub sanitize_peer_name : Text → Text
sanitize_peer_name name = trim (take max_peer_name_chars (keep_if (λ c. not (is_control c)) name))

-- The fold `diff |= x ^ y` over the zipped bytes.
unfoldable pub diff_bytes : ℕ → List ℕ → List ℕ → ℕ
diff_bytes diff [] b = diff
diff_bytes diff (x ∷ a) [] = diff
diff_bytes diff (x ∷ a) (y ∷ b) = diff_bytes (bit_or diff (bit_xor x y)) a b

unfoldable pub constant_time_eq : List ℕ → List ℕ → Bool
unfolding diff_bytes
constant_time_eq a b = if not (length a == length b) then false else diff_bytes 0 a b == 0

-- `format!("{:06}", n)` for a number of at most six digits.
unfoldable pub six_digits : ℕ → Text
six_digits n =
    (b'0' + n / 100000 % 10)
    ∷ (b'0' + n / 10000 % 10)
    ∷ (b'0' + n / 1000 % 10)
    ∷ (b'0' + n / 100 % 10)
    ∷ (b'0' + n / 10 % 10)
    ∷ (b'0' + n % 10)
    ∷ []

abbrev pub code_limit : ℕ
code_limit = 4_294_000_000

-- The loop over the words that `getrandom` gives; `none` when it would draw once more.
unfoldable pub random_pair_code : List (Option ℕ) → Option (Result Text StoreError)
unfolding six_digits
random_pair_code [] = none
random_pair_code (none ∷ draws) = some (err csprng_failure)
random_pair_code (some v ∷ draws) =
    let again = random_pair_code draws in
    if ltb v code_limit then some (ok (six_digits (v % 1_000_000))) else again

unfoldable pub saturating_u64 : ℕ → ℕ
saturating_u64 n = min n (2 ^ 64 - 1)

unfoldable pub saturating_u32 : ℕ → ℕ
saturating_u32 n = min n (2 ^ 32 - 1)

-- `peers[idx] = q` at the first peer that the test picks.
unfoldable pub set_first : (PairedPeer → Bool) → PairedPeer → List PairedPeer → List PairedPeer
set_first test q [] = []
set_first test q (p ∷ ps) = if test p then q ∷ ps else p ∷ set_first test q ps

module _ (deps : Deps) where
  open deps use {parse_ip, show_ip, hex_encode}

  unfoldable pub parse_local_ip_hint : Option Text → Option Text
  parse_local_ip_hint none = none
  parse_local_ip_hint (some s) = elim (parse_ip (trim s)) [
    | none ↦ none
    | some ip ↦
        if is_local_network_ip (to_canonical ip) then some (show_ip (to_canonical ip)) else none
  ]

  unfoldable pub random_hex_token : Io → Result Text StoreError
  random_hex_token io = elim io.token_bytes [
    | none ↦ err csprng_failure
    | some bytes ↦ ok (hex_encode bytes)
  ]

-- The name shown for a peer: the cleaned name, or one made from its first four digits.
unfoldable pub display_name : Text → Text → Text
unfolding sanitize_peer_name
display_name norm name =
    let clean = sanitize_peer_name name in
    if text_eq clean [] then codes "OmaID-" ++ take 4 norm else clean

-- The record that the three operations build.
abbrev pub peer_record :
    Text → Text → Option Text → ℕ → Text → Bool → Option Text → Option ℕ → PairedPeer
peer_record norm name ip now token confirmed code expires = record {
  oma_id = format_oma_id norm;
  name = display_name norm name;
  ip = ip;
  paired_at = now;
  auth_token = some token;
  confirmed = confirmed;
  pair_code = code;
  pair_expires_at = expires;
  pair_failures = 0;
}

-- The part of `complete_remote_pairing` that changes one record: its outcome, and the record after.
module _ (deps : Deps) where
  -- `peer.ip` read as an address agrees with the source; a missing or unreadable one does too.
  unfoldable pub source_ok : Option Text → IpAddr → Bool
  source_ok none source = true
  source_ok (some h) source = elim (deps.parse_ip h) [
    | none ↦ true
    | some ip ↦ ip_eq (to_canonical ip) source
  ]

  unfoldable pub is_pending : PairedPeer → ℕ → Bool
  is_pending p now =
      not p.confirmed
      && elim p.pair_code [ none ↦ false | some c ↦ true ]
      && elim p.pair_expires_at [ none ↦ false | some exp ↦ leb now exp ]

  abbrev pub accepted : PairedPeer → IpAddr → ℕ → PairedPeer
  accepted p source now = record p {
    ip = some (deps.show_ip source);
    paired_at = now;
    confirmed = true;
    pair_code = none;
    pair_expires_at = none;
    pair_failures = 0;
  }

  unfoldable pub refused : PairedPeer → PairedPeer
  unfolding saturating_u32
  refused p =
      let failures = saturating_u32 (p.pair_failures + 1) in
      if leb pair_code_max_failures failures
      then record p { pair_code = none; pair_expires_at = none; pair_failures = failures }
      else record p { pair_failures = failures }

  unfoldable pub attempt :
      PairedPeer → Text → IpAddr → ℕ → Result PairedPeer PairingError × PairedPeer
  unfolding source_ok is_pending refused
  attempt p code source now =
      let expected : Text = elim p.pair_code [ none ↦ [] | some c ↦ c ] in
      let code_ok = constant_time_eq (as_bytes expected) (as_bytes code) in
      if not (is_pending p now)
      then (err not_authorized, p)
      else if code_ok && source_ok p.ip source
      then (ok (accepted p source now), accepted p source now)
      else (err not_authorized, refused p)
