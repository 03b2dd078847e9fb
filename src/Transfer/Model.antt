-- ===== src/Transfer/Model.antt =====
-- `TransferFileInfo`, `PendingFileTransfer`, the file pending_transfer.json and the peers that are
-- trusted by their device identifier, of src/main.rs. A file is the value that serde_json reads back
-- from it, `none` where that fails.
use omarchy_omasend.Common.{
  ℕ, Bool, List, [], ◌∷◌, ◌++◌, Option, none, some, leb, if◌then◌else◌, any,
}
use omarchy_omasend.Common.Text.{Text, codes, text_eq}
use omarchy_omasend.Http.{to_lowercase}
use omarchy_omasend.OmaId.{validate_oma_id}
use omarchy_omasend.Pairing.Model.{Disk}
use omarchy_omasend.Pairing.Model
use omarchy_omasend.Pairing.Ops.{add_paired_peer}

pub record TransferFileInfo : Type 0 where
  pub name : Text
  pub size_bytes : ℕ
  pub blake3 : Option Text
  pub sha256 : Option Text
  pub md5 : Option Text

pub record PendingFileTransfer : Type 0 where
  pub token : Text
  pub sender_id : Text
  pub sender_name : Text
  pub sender_ip : Text
  pub file_names : List Text
  pub files : List TransferFileInfo
  pub remaining_files : ℕ
  pub total_size_bytes : ℕ
  pub created_at : ℕ
  pub expires_at : ℕ
  pub status : Text

pub record TrustedPeer : Type 0 where
  pub id : Text
  pub name : Text
  pub fingerprint : Text
  pub trusted_at : ℕ

abbrev pub status_pending : Text
status_pending = codes "PENDING"

abbrev pub status_accepted : Text
status_accepted = codes "ACCEPTED"

abbrev pub status_rejected : Text
status_rejected = codes "REJECTED"

-- The transfer that waits and has not ended at the given time.
unfoldable pub get_pending_transfer : ℕ → Option PendingFileTransfer → Option PendingFileTransfer
get_pending_transfer now none = none
get_pending_transfer now (some t) = if leb now t.expires_at then some t else none

-- A file is replaced as a whole; a write or a removal that fails leaves it, and goes unnoticed.
unfoldable pub save_pending_transfer :
    Bool → PendingFileTransfer → Option PendingFileTransfer → Option PendingFileTransfer
save_pending_transfer written t file = if written then some t else file

unfoldable pub clear_pending_transfer :
    Bool → Option PendingFileTransfer → Option PendingFileTransfer
clear_pending_transfer removed file = if removed then none else file

-- `a.eq_ignore_ascii_case(b)`.
abbrev pub eq_ignore_ascii_case : Text → Text → Bool
eq_ignore_ascii_case a b = text_eq (to_lowercase a) (to_lowercase b)

-- `v.iter().position(test)` and `v.remove(pos)`.
unfoldable pub remove_first {ℓ} : {A : Type ℓ} → (A → Bool) → List A → List A
remove_first test [] = []
remove_first test (x ∷ xs) = if test x then xs else x ∷ remove_first test xs

unfoldable pub load_trusted_peers : Option (List TrustedPeer) → List TrustedPeer
load_trusted_peers none = []
load_trusted_peers (some peers) = peers

-- `written` tells whether trusted_peers.json can be written.
unfoldable pub add_trusted_peer :
    Model.Deps
    → Model.Io
    → Bool
    → Text
    → Text
    → Text
    → ℕ
    → Option (List TrustedPeer)
    → Disk
    → Option (List TrustedPeer) × Disk
unfolding load_trusted_peers
add_trusted_peer deps io written id name fingerprint now trusted disk =
    let disk' =
      if validate_oma_id id then (add_paired_peer deps io id name none disk).1 else disk in
    let peers = load_trusted_peers trusted in
    let peer : TrustedPeer = record {
      id = id;
      name = name;
      fingerprint = fingerprint;
      trusted_at = now;
    } in
    if any (λ p. text_eq p.id id) peers
    then (trusted, disk')
    else (if written then some (peers ++ peer ∷ []) else trusted, disk')
