-- ===== src/Transfer/Request.antt =====
-- The endpoint `/api/p2p/request` of `handle_connection` in src/main.rs, from the data of the request
-- on: the sender is checked, and a transfer with the announced files is saved.
pub mod Opened
use omarchy_omasend.Common.{
  ℕ, ◌+◌, ◌*◌, ◌≡◌, refl, sym, ◌∙◌, ap, subst, Bool, true, false, List, [], ◌∷◌, ◌++◌, map, Option,
  none, some, ltb, if◌then◌else◌, length, max, arith, Bool-cases, Option-cases, inl, inr,
}
use omarchy_omasend.Common.Text.{Text, codes}
use omarchy_omasend.Filename
use omarchy_omasend.Filename.{sanitize_filename}
use omarchy_omasend.Http.{HttpRequest, get_header}
use omarchy_omasend.Http.RequestAuth.{
  SenderCheck, not_paired, not_confirmed, bad_token, admitted, check_sender, check_sender_iff,
}
use omarchy_omasend.Json.{Field, as_str, or_field}
use omarchy_omasend.Pairing.Model
use omarchy_omasend.Pairing.Model.{Disk}
use omarchy_omasend.Pairing.Ops.{verify_peer_auth_token}
use omarchy_omasend.Staging.Budget.{saturating_add, disk_reserve_bytes}
use omarchy_omasend.Transfer.Model.{
  TransferFileInfo, PendingFileTransfer, status_accepted, status_pending, save_pending_transfer,
}
use omarchy_omasend.Transfer.Upload.{or_default, or_else}
use omarchy_omasend.Transfer.Upload.Remaining.{IsAligned}

-- One entry of the array `files`; `size_bytes` is what `as_u64` gives.
pub record FileItem : Type 0 where
  pub name : Field
  pub size_bytes : Option ℕ
  pub blake3 : Field
  pub sha256 : Field
  pub md5 : Field

pub record RequestData : Type 0 where
  pub oma_id : Field
  pub sender_oma_id : Field
  pub sender_id : Field
  pub sender_name : Field
  pub sender_ip : Field
  pub auth_token : Field
  pub files : Option (List FileItem)

-- `str::to_lowercase`, what names need, and what paired peers need.
pub record Deps : Type 0 where
  pub lowercase : Text → Text
  pub names : Filename.Deps
  pub peers : Model.Deps

-- The clock, its seconds when names are cleaned, the free space, the 16 bytes of the token, and
-- whether pending_transfer.json can be written.
pub record Io : Type 0 where
  pub now : ℕ
  pub name_secs : ℕ
  pub avail : Option ℕ
  pub token_bytes : List ℕ
  pub writes_pending : Bool

pub data RequestReply : Type 0 where
  peer_not_paired pairing_not_confirmed invalid_token name_panics : RequestReply
  insufficient_space : (available required : ℕ) → RequestReply
  opened : (status token : Text) → RequestReply

abbrev pub sender_id_of : HttpRequest → RequestData → Text
sender_id_of req json =
    elim (or_else (as_str (or_field json.oma_id (or_field json.sender_oma_id json.sender_id)))
      (get_header (codes "x-omasend-omaid") req)) [ none ↦ codes "unknown" | some s ↦ s ]

abbrev pub provided_token : HttpRequest → RequestData → Text
provided_token req json =
    or_default (or_else (get_header (codes "x-omasend-auth-token") req) (as_str json.auth_token))

module _ (deps : Deps) where
  abbrev pub lower_digest : Field → Option Text
  lower_digest f = elim (as_str f) [ none ↦ none | some s ↦ some (deps.lowercase s) ]

  abbrev pub info_of : FileItem → Text → TransferFileInfo
  info_of item clean = record {
    name = clean;
    size_bytes = elim item.size_bytes [ none ↦ 0 | some n ↦ n ];
    blake3 = lower_digest item.blake3;
    sha256 = lower_digest item.sha256;
    md5 = lower_digest item.md5;
  }

  -- The loop over the array: the names, the descriptions and the size so far; `none` is the panic of
  -- `sanitize_filename`.
  unfoldable pub collect :
      ℕ
      → List FileItem
      → List Text
      → List TransferFileInfo
      → ℕ
      → Option (List Text × List TransferFileInfo × ℕ)
  collect now [] names infos total = some (names, infos, total)
  collect now (item ∷ items) names infos total = elim (as_str item.name) [
    | none ↦ collect now items names infos total
    | some n ↦ elim (sanitize_filename deps.names now n) [
      | none ↦ none
      | some clean ↦
          let info = info_of item clean in
          collect now items (names ++ clean ∷ []) (infos ++ info ∷ [])
            (saturating_add total info.size_bytes)
    ]
  ]

  abbrev pub lacks_space : Option ℕ → ℕ → Bool
  lacks_space none total = false
  lacks_space (some free) total = ltb free (saturating_add total disk_reserve_bytes)

  abbrev pub transfer_of :
      Io
      → HttpRequest
      → RequestData
      → Bool
      → List Text
      → List TransferFileInfo
      → ℕ
      → PendingFileTransfer
  transfer_of io req json is_trusted names infos total = record {
    token = deps.peers.hex_encode io.token_bytes;
    sender_id = sender_id_of req json;
    sender_name = elim (as_str json.sender_name) [
      | none ↦ codes "Unknown Omarchy Device"
      | some s ↦ s
    ];
    sender_ip = or_default (as_str json.sender_ip);
    file_names = names;
    files = infos;
    remaining_files = max (length infos) 1;
    total_size_bytes = total;
    created_at = io.now;
    expires_at = if is_trusted then saturating_add io.now 600 else saturating_add io.now 30;
    status = if is_trusted then status_accepted else status_pending;
  }

  -- The part after the sender was checked. `is_trusted` is true there, since a sender that is not
  -- confirmed was refused.
  unfoldable pub open_transfer :
      Io
      → HttpRequest
      → RequestData
      → Bool
      → Option PendingFileTransfer
      → RequestReply × Option PendingFileTransfer
  open_transfer io req json is_trusted file =
      elim (collect io.name_secs (elim json.files [ none ↦ [] | some items ↦ items ]) [] [] 0) [
        | none ↦ (name_panics, file)
        | some (names, infos, total) ↦
            let t = transfer_of io req json is_trusted names infos total in
            if lacks_space io.avail total
            then (insufficient_space (or_zero io.avail) total, file)
            else (opened t.status t.token, save_pending_transfer io.writes_pending t file)
      ]
    where
      or_zero : Option ℕ → ℕ
      or_zero none = 0
      or_zero (some free) = free

  unfoldable pub request_transfer :
      Io
      → HttpRequest
      → RequestData
      → Disk
      → Option PendingFileTransfer
      → RequestReply × Option PendingFileTransfer
  request_transfer io req json disk file =
      elim (check_sender deps.peers (sender_id_of req json) (provided_token req json) disk) [
        | not_paired ↦ (peer_not_paired, file)
        | not_confirmed ↦ (pairing_not_confirmed, file)
        | bad_token ↦ (invalid_token, file)
        | admitted ↦ open_transfer io req json true file
      ]
