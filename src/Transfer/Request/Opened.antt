-- ===== src/Transfer/Request/Opened.antt =====
-- What a request for a transfer leaves behind, in src/main.rs.
use omarchy_omasend.Common.{
  ℕ, ◌≡◌, refl, ◌∙◌, ap, subst, Bool, true, false, List, [], ◌∷◌, ◌++◌, map, Option, none, some,
  Bool-cases, Option-cases, inl, inr, ◌⊎◌, find, ◌==◌,
}
use omarchy_omasend.Common.Text.{Text, len}
use omarchy_omasend.Filename.{sanitize_filename}
use omarchy_omasend.Http.{HttpRequest}
use omarchy_omasend.Http.RequestAuth.{
  SenderCheck, not_paired, not_confirmed, bad_token, admitted, check_sender, check_sender_iff,
}
use omarchy_omasend.OmaId.{normalize_oma_id}
use omarchy_omasend.Json.{as_str}
use omarchy_omasend.Pairing.Model
use omarchy_omasend.Pairing.Model.{PairedPeer, Disk, is_id}
use omarchy_omasend.Pairing.Ops.{load_paired_peers, token_ok, verify_peer_auth_token}
use omarchy_omasend.Staging.Budget.{saturating_add}
use omarchy_omasend.Transfer.Model.{
  TransferFileInfo, PendingFileTransfer, status_accepted, save_pending_transfer,
}
use omarchy_omasend.Transfer.Request.{
  Deps, Io, FileItem, RequestData, RequestReply, opened, sender_id_of, provided_token, info_of,
  collect, lacks_space, open_transfer, request_transfer, transfer_of,
}
use omarchy_omasend.Transfer.Upload.Remaining.{IsAligned}

map_append {ℓ κ} :
    {A : Type ℓ} {B : Type κ} (f : A → B) (xs ys : List A) → map f (xs ++ ys) ≡ map f xs ++ map f ys
map_append f [] ys = refl
map_append f (x ∷ xs) ys = ap (◌∷◌ (f x)) (map_append f xs ys)

SenderCheck-cases :
    (c : SenderCheck) → (c ≡ admitted) ⊎ (c ≡ not_paired) ⊎ (c ≡ not_confirmed) ⊎ (c ≡ bad_token)
SenderCheck-cases admitted = inl refl
SenderCheck-cases not_paired = inr (inl refl)
SenderCheck-cases not_confirmed = inr (inr (inl refl))
SenderCheck-cases bad_token = inr (inr (inr refl))

some_path {ℓ} : {A : Type ℓ} {x y : A} → some x ≡ some y → x ≡ y
some_path {A} {x} {y} h = cc

abbrev pub is_opened : RequestReply → Bool
is_opened (opened status token) = true
is_opened _ = false

confirmed_of : (p : PairedPeer) (provided : Text) → token_ok p provided ≡ true → p.confirmed ≡ true
unfolding token_ok
confirmed_of p provided h = elim (Bool-cases p.confirmed) [
  | inl t ↦ t
  | inr f ↦ absurd (cc (rw f at h))
]

-- A token that is accepted is accepted by the first record of the identifier, which is confirmed.
verify-found :
    (deps : Model.Deps) (oma_id provided : Text) (disk : Disk)
    → verify_peer_auth_token deps oma_id provided disk ≡ true
    → (p : PairedPeer) × (find (is_id (normalize_oma_id oma_id)) (load_paired_peers deps disk)
        ≡ some p)
      × (p.confirmed ≡ true)
      × (token_ok p provided ≡ true)
unfolding verify_peer_auth_token
verify-found deps oma_id provided disk h = elim (Bool-cases (len (normalize_oma_id oma_id) == 16)) [
  | inr f ↦ absurd (cc (rw (f, verify_peer_auth_token) at h))
  | inl t ↦
      elim (Option-cases (find (is_id (normalize_oma_id oma_id)) (load_paired_peers deps disk))) [
        | inl e ↦ absurd (cc (rw (t, e, verify_peer_auth_token) at h))
        | inr (p, e) ↦
            let good = rw (t, e, verify_peer_auth_token) at h in
            (p, e, confirmed_of p provided good, good)
      ]
]

module _ (deps : Deps) where
  collect-aligned :
      (now : ℕ) (items : List FileItem) (names : List Text) (infos : List TransferFileInfo)
      (total : ℕ) (r : List Text × List TransferFileInfo × ℕ)
      → collect deps now items names infos total ≡ some r
      → map (λ (f : TransferFileInfo). f.name) infos ≡ names
      → map (λ (f : TransferFileInfo). f.name) r.1 ≡ r.0
  unfolding collect
  collect-aligned now [] names infos total r h a =
      subst
        (λ (x : List Text × List TransferFileInfo × ℕ).
          map (λ (f : TransferFileInfo). f.name) x.1 ≡ x.0)
        {x = (names, infos, total)} {y = r} (some_path h) a
  collect-aligned now (item ∷ items) names infos total r h a =
      elim (Option-cases (as_str item.name)) [
        | inl e ↦ collect-aligned now items names infos total r (rw (e, collect) at h) a
        | inr (n, e) ↦ elim (Option-cases (sanitize_filename deps.names now n)) [
          | inl panics ↦ absurd (cc (rw (e, panics, collect) at h))
          | inr (clean, cleaned) ↦
              collect-aligned now items (names ++ clean ∷ [])
                (infos ++ info_of deps item clean ∷ [])
                (saturating_add total (info_of deps item clean).size_bytes) r
                (rw (e, cleaned, collect) at h)
                (map_append (λ (f : TransferFileInfo). f.name) infos (info_of deps item clean ∷ [])
                  ∙ ap (λ xs. xs ++ clean ∷ []) a)
        ]
      ]

  -- The check of the sender's token succeeded, and the transfer that is saved is accepted for ten
  -- minutes from now, with as many descriptions as names, side by side.
  pub record IsOpened (io : Io) (req : HttpRequest) (json : RequestData) (disk : Disk)
      (file : Option PendingFileTransfer) (r : RequestReply × Option PendingFileTransfer)
      (p : PendingFileTransfer) : Type 0 where
    pub verified :
        verify_peer_auth_token deps.peers (sender_id_of req json) (provided_token req json) disk
        ≡ true
    pub sender_record : PairedPeer
    pub found :
        find (is_id (normalize_oma_id (sender_id_of req json))) (load_paired_peers deps.peers disk)
        ≡ some sender_record
    pub sender_confirmed : sender_record.confirmed ≡ true
    pub token_given : token_ok sender_record (provided_token req json) ≡ true
    pub reply : r.0 ≡ opened status_accepted p.token
    pub saved : r.1 ≡ save_pending_transfer io.writes_pending p file
    pub accepted : p.status ≡ status_accepted
    pub sender : p.sender_id ≡ sender_id_of req json
    pub token : p.token ≡ deps.peers.hex_encode io.token_bytes
    pub expires : p.expires_at ≡ saturating_add io.now 600
    pub aligned : IsAligned p

  -- A request is answered with a token, or it changes nothing.
  pub data Outcome (io : Io) (req : HttpRequest) (json : RequestData) (disk : Disk)
      (file : Option PendingFileTransfer) (r : RequestReply × Option PendingFileTransfer)
      : Type 0 where
    refused : is_opened r.0 ≡ false → r.1 ≡ file → Outcome io req json disk file r
    accepted :
        (p : PendingFileTransfer)
        → IsOpened io req json disk file r p
        → Outcome io req json disk file r

  open_transfer-Outcome :
      (io : Io) (req : HttpRequest) (json : RequestData) (disk : Disk)
      (file : Option PendingFileTransfer)
      → verify_peer_auth_token deps.peers (sender_id_of req json) (provided_token req json) disk
        ≡ true
      → Outcome io req json disk file (open_transfer deps io req json true file)
  unfolding open_transfer
  open_transfer-Outcome io req json disk file ok =
      let peer =
        verify-found deps.peers (sender_id_of req json) (provided_token req json) disk ok in
      let items : List FileItem = elim json.files [ none ↦ [] | some items ↦ items ] in
      elim (Option-cases (collect deps io.name_secs items [] [] 0)) [
        | inl panics ↦ rw (panics, open_transfer) (refused refl refl)
        | inr ((names, infos, total), e) ↦ elim (Bool-cases (lacks_space deps io.avail total)) [
          | inl full ↦ rw (e, full, open_transfer) (refused refl refl)
          | inr free ↦
              rw (e, free, open_transfer)
                (accepted (transfer_of deps io req json true names infos total) (record {
                  verified = ok;
                  sender_record = peer.0;
                  found = peer.1;
                  sender_confirmed = peer.2;
                  token_given = peer.3;
                  reply = refl;
                  saved = refl;
                  accepted = refl;
                  sender = refl;
                  token = refl;
                  expires = refl;
                  aligned = collect-aligned io.name_secs items [] [] 0 (names, infos, total) e refl;
                }))
        ]
      ]

  -- A request for a transfer, whatever the files hold: either no token is answered and the transfer
  -- that waits stays; or the first record of the sender's identifier is confirmed and the token that the
  -- sender gave passes its test (a record without a token passes any), and the transfer that is saved, if the write succeeds, is the sender's, accepted for 600 seconds from now, under the
  -- token that is answered, with its names and descriptions side by side.
  pub request_transfer-Outcome :
      (io : Io) (req : HttpRequest) (json : RequestData) (disk : Disk)
      (file : Option PendingFileTransfer)
      → Outcome io req json disk file (request_transfer deps io req json disk file)
  unfolding request_transfer
  request_transfer-Outcome io req json disk file =
      let sender = sender_id_of req json in
      let provided = provided_token req json in
      elim (SenderCheck-cases (check_sender deps.peers sender provided disk)) [
        | inl e ↦
            rw (e, request_transfer)
              (open_transfer-Outcome io req json disk file
                ((check_sender_iff deps.peers sender provided disk).0 e))
        | inr (inl e) ↦ rw (e, request_transfer) (refused refl refl)
        | inr (inr (inl e)) ↦ rw (e, request_transfer) (refused refl refl)
        | inr (inr (inr e)) ↦ rw (e, request_transfer) (refused refl refl)
      ]
