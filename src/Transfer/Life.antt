-- ===== src/Transfer/Life.antt =====
-- Transfers of src/main.rs through all their endpoints: what decides, what ends them, and what holds
-- of the transfer that waits whatever came before.
use omarchy_omasend.Common.{
  ℕ, ◌^◌, ◌≤◌, ◌<◌, ◌≡◌, ◌≢◌, refl, subst, Bool, true, false, ◌&&◌, Option, none, some, ltb, arith,
  Bool-cases, Option-cases, inl, inr, ◌⊎◌,
}
use omarchy_omasend.Common.Text.{Text, codes, text_eq, text_eq_iff}
use omarchy_omasend.Http.{HttpRequest, get_param}
use omarchy_omasend.Pairing.Model
use omarchy_omasend.Pairing.Model.{Disk}
use omarchy_omasend.Staging.Budget.{saturating_add}
use omarchy_omasend.Transfer.Model.{
  PendingFileTransfer, status_accepted, status_rejected, get_pending_transfer,
  save_pending_transfer, clear_pending_transfer,
}
use omarchy_omasend.Transfer.Request
use omarchy_omasend.Transfer.Request.{RequestData, request_transfer}
use omarchy_omasend.Transfer.Request.Opened
use omarchy_omasend.Transfer.Request.Opened.{request_transfer-Outcome}
use omarchy_omasend.Transfer.Decision
use omarchy_omasend.Transfer.Decision.{
  Store, DecisionReply, not_found, expired, accepted, rejected, decision_status, decide,
  with_status,
}
use omarchy_omasend.Transfer.Upload
use omarchy_omasend.Transfer.Upload.{
  or_default, is_empty, Upload, UploadReply, Server, upload, begin_upload, take_upload,
  is_in_pending, settle, without_file,
}
use omarchy_omasend.Transfer.Upload.Receipt.{
  is_stored, IsAdmitted, refused, received, take_upload-Outcome, begin_upload-cases, upload_sound,
  upload-IsRefused,
}
use omarchy_omasend.Transfer.Upload.Remaining.{IsAligned, without_file-IsAligned}

found :
    (now : ℕ) (o : Option PendingFileTransfer) (p : PendingFileTransfer)
    → get_pending_transfer now o ≡ some p
    → (o ≡ some p) × (now ≤ p.expires_at)
unfolding get_pending_transfer
found now none p h = absurd (cc h)
found now (some t) p h = ground (arith, h)

not_late : (e n : ℕ) → n ≤ e → ltb e n ≡ false
not_late e n h = ground arith

-- The state of a transfer is asked for with a clock that does not go back between the two readings:
-- then the answer is never that it has expired, since such a transfer is not found any more.
pub decision_status-not_expired :
    (io : Decision.Io) (req : HttpRequest) (s : Store)
    → io.now ≤ io.read_at
    → decision_status io req s ≢ expired
unfolding decision_status
decision_status-not_expired io req s order h =
    elim (Option-cases (get_pending_transfer io.read_at s.pending)) [
      | inl e ↦ cc (rw (e, decision_status) at h)
      | inr (p, e) ↦
          elim (Bool-cases (text_eq p.token (or_default (get_param (codes "token") req)))) [
            | inr other ↦ cc (rw (e, other, decision_status) at h)
            | inl same ↦
                let late =
                  not_late p.expires_at io.now
                    (omega (arith, order, found io.read_at s.pending p e)) in
                cc (rw (e, same, late, decision_status) at h)
          ]
    ]

module _ (deps : Model.Deps) where
  -- What a decision does to the transfer that waits.
  pub data Decided (io : Decision.Io) (token action : Text) (s : Store) (r : DecisionReply × Store)
      : Type 0 where
    unchanged : r.0 ≢ accepted → r.0 ≢ rejected → r.1 ≡ s → Decided io token action s r
    accepts :
        (p : PendingFileTransfer)
        → s.pending ≡ some p
        → p.token ≡ token
        → io.read_at ≤ p.expires_at
        → action ≡ codes "accept"
        → r.0 ≡ accepted
        → r.1.pending
          ≡ save_pending_transfer io.writes_pending
              (record p { status = status_accepted; expires_at = saturating_add io.now 600 })
              s.pending
        → Decided io token action s r
    rejects :
        (p : PendingFileTransfer)
        → s.pending ≡ some p
        → p.token ≡ token
        → io.read_at ≤ p.expires_at
        → action ≡ codes "reject"
        → r.0 ≡ rejected
        → r.1.pending
          ≡ save_pending_transfer io.writes_pending (with_status status_rejected p) s.pending
        → r.1.trusted ≡ s.trusted
        → r.1.paired ≡ s.paired
        → Decided io token action s r

  -- A decision changes the files only for the token of the transfer that waits and has not ended:
  -- `accept` makes it accepted for 600 seconds from now, and `reject` makes it rejected and leaves the
  -- peers alone.
  pub decide-Decided :
      (io : Decision.Io) (token action : Text) (s : Store)
      → Decided io token action s (decide deps io token action s)
  unfolding decide
  decide-Decided io token action s =
      elim (Option-cases (get_pending_transfer io.read_at s.pending)) [
        | inl e ↦ rw (e, decide) (unchanged (λ e. cc) (λ e. cc) refl)
        | inr (p, e) ↦
            let (waiting, in_time) = found io.read_at s.pending p e in
            elim (Bool-cases (text_eq p.token token)) [
              | inr other ↦ rw (e, other, decide) (unchanged (λ e. cc) (λ e. cc) refl)
              | inl same ↦ elim (Bool-cases (text_eq action (codes "accept"))) [
                | inl accept ↦
                    rw (e, same, accept, decide)
                      (accepts p waiting ((text_eq_iff p.token token).0 same) in_time
                        ((text_eq_iff action (codes "accept")).0 accept) refl refl)
                | inr no_accept ↦ elim (Bool-cases (text_eq action (codes "reject"))) [
                  | inl reject ↦
                      rw (e, same, no_accept, reject, decide)
                        (rejects p waiting ((text_eq_iff p.token token).0 same) in_time
                          ((text_eq_iff action (codes "reject")).0 reject) refl refl refl refl)
                  | inr no_reject ↦
                      rw (e, same, no_accept, no_reject, decide)
                        (unchanged (λ e. cc) (λ e. cc) refl)
                ]
              ]
            ]
      ]

-- A transfer that waits is accepted or rejected, and describes its files one by one.
abbrev pub IsOrderly : Option PendingFileTransfer → Type 0
IsOrderly none = Unit
IsOrderly (some p) = IsAligned p × ((p.status ≡ status_accepted) ⊎ (p.status ≡ status_rejected))

-- One call of an endpoint, with whatever the system answers, and the other files at that time.
pub data Step : Option PendingFileTransfer → Option PendingFileTransfer → Type 1 where
  requests :
      (deps : Request.Deps) (io : Request.Io) (req : HttpRequest) (json : RequestData) (disk : Disk)
      (file : Option PendingFileTransfer)
      → Step file (request_transfer deps io req json disk file).1
  decides :
      (deps : Model.Deps) (io : Decision.Io) (token action : Text) (s : Store)
      → Step s.pending (decide deps io token action s).1.pending
  uploads :
      (deps : Upload.Deps) (io : Upload.Io) (u : Upload) (s : Server deps)
      → s.world.staged_bytes < 2 ^ 64
      → Step s.pending (upload deps io u s).1.pending

-- Calls one after the other, and uploads that end with what they read from the file at any other time.
pub data Reachable : Option PendingFileTransfer → Type 1 where
  start : Reachable none
  next :
      {before after : Option PendingFileTransfer}
      → Reachable before
      → Step before after
      → Reachable after
  finishes :
      {early before : Option PendingFileTransfer} (deps : Upload.Deps) (io : Upload.Io) (u : Upload)
      (clean : Text) (p : PendingFileTransfer) (s : Server deps)
      → Reachable early
      → Reachable before
      → begin_upload deps io u early ≡ inr (clean, p)
      → s.pending ≡ before
      → s.world.staged_bytes < 2 ^ 64
      → Reachable (take_upload deps io u clean p s).1.pending

save-IsOrderly :
    (written : Bool) (p : PendingFileTransfer) (file : Option PendingFileTransfer)
    → IsOrderly (some p)
    → IsOrderly file
    → IsOrderly (save_pending_transfer written p file)
unfolding save_pending_transfer
save-IsOrderly true p file h k = h
save-IsOrderly false p file h k = k

clear-IsOrderly :
    (removed : Bool) (file : Option PendingFileTransfer)
    → IsOrderly file
    → IsOrderly (clear_pending_transfer removed file)
unfolding clear_pending_transfer
clear-IsOrderly true file k = tt
clear-IsOrderly false file k = k

without_file-status :
    (clean : Text) (p : PendingFileTransfer) → (without_file clean p).status ≡ p.status
unfolding without_file
without_file-status clean p = refl

settle-IsOrderly :
    (io : Upload.Io) (clean : Text) (p : PendingFileTransfer) (file : Option PendingFileTransfer)
    → IsOrderly (some p)
    → IsOrderly file
    → IsOrderly (settle io clean p file)
unfolding settle
settle-IsOrderly io clean p file h k =
    let q = without_file clean p in
    elim (Bool-cases (is_empty q.file_names && is_empty q.files)) [
      | inl t ↦ rw (t, settle) (clear-IsOrderly io.removes_pending file k)
      | inr t ↦
          rw (t, settle)
            (save-IsOrderly io.writes_pending q file
              (without_file-IsAligned clean p h.0, rw (without_file-status clean p) h.1) k)
    ]

waiting-IsOrderly :
    (file : Option PendingFileTransfer) (p : PendingFileTransfer)
    → file ≡ some p
    → IsOrderly file
    → IsOrderly (some p)
waiting-IsOrderly file p e h = subst IsOrderly e h

-- Every call keeps the transfer that waits in order.
pub Step-IsOrderly :
    (before after : Option PendingFileTransfer)
    → Step before after
    → IsOrderly before
    → IsOrderly after
Step-IsOrderly before after (requests deps io req json disk file) h =
    elim (request_transfer-Outcome deps io req json disk file) [
      | Opened.refused r e ↦ rw e h
      | Opened.accepted p o ↦
          rw o.saved (save-IsOrderly io.writes_pending p file (o.aligned, inl o.accepted) h)
    ]
Step-IsOrderly before after (decides deps io token action s) h =
    elim (decide-Decided deps io token action s) [
      | unchanged no_accept no_reject e ↦ rw e h
      | accepts p e t time a r saved ↦ rw saved (
          save-IsOrderly io.writes_pending
            (record p { status = status_accepted; expires_at = saturating_add io.now 600 })
            s.pending ((waiting-IsOrderly s.pending p e h).0, inl refl) h)
      | rejects p e t time a r saved same same' ↦ rw saved (
          save-IsOrderly io.writes_pending (with_status status_rejected p) s.pending
            ((waiting-IsOrderly s.pending p e h).0, inr refl) h)
    ]
Step-IsOrderly before after (uploads deps io u s small) h =
    elim (Bool-cases (is_stored (upload deps io u s).0)) [
      | inr failed ↦ rw (upload-IsRefused deps io u s small failed).pending h
      | inl yes_stored ↦
          let (clean, p, bytes, admitted, got) = upload_sound deps io u s small yes_stored in
          rw got.pending (
            settle-IsOrderly io clean p s.pending (waiting-IsOrderly s.pending p admitted.waiting h)
              h)
    ]

begun_is :
    {clean clean' : Text} {p p' : PendingFileTransfer}
    {r : UploadReply ⊎ (Text × PendingFileTransfer)}
    → r ≡ inr (clean, p)
    → r ≡ inr (clean', p')
    → ◌≡◌ {A = Text × PendingFileTransfer} (clean', p') (clean, p)
begun_is {clean} {clean'} {p} {p'} {r} h k = cc

-- The end of an upload that read the transfer from `early`, when the file holds `before`.
finished-IsOrderly :
    (deps : Upload.Deps) (io : Upload.Io) (u : Upload) (early before : Option PendingFileTransfer)
    (clean : Text) (p : PendingFileTransfer) (s : Server deps)
    → IsOrderly early
    → IsOrderly before
    → begin_upload deps io u early ≡ inr (clean, p)
    → s.pending ≡ before
    → s.world.staged_bytes < 2 ^ 64
    → IsOrderly (take_upload deps io u clean p s).1.pending
finished-IsOrderly deps io u early before clean p s h k begun now small =
    elim (begin_upload-cases deps io u early) [
      | inl (e, refuses, r) ↦ absurd (cc (begun, refuses))
      | inr (clean', p', begun', ok, waits, is_accepted) ↦
          let same = begun_is begun begun' in
          let admits : is_in_pending clean p ≡ true → IsAdmitted deps io u early clean p =
            subst (λ c. is_in_pending c.0 c.1 ≡ true → IsAdmitted deps io u early c.0 c.1) same
              ok in
          elim (take_upload-Outcome deps io u early s clean p small admits) [
            | refused r ↦ rw (r.pending, now) k
            | received clean'' q bytes admitted got ↦ rw got.pending (
                settle-IsOrderly io clean'' q s.pending
                  (waiting-IsOrderly early q admitted.waiting h) (rw now k))
          ]
    ]

-- Whatever calls came before, in whatever order and with whatever faults, uploads included that end
-- long after they read the transfer: the transfer that waits is accepted or rejected, never pending,
-- and its names and descriptions stand side by side.
pub Reachable-IsOrderly : (file : Option PendingFileTransfer) → Reachable file → IsOrderly file
Reachable-IsOrderly file start = tt
Reachable-IsOrderly file (next r step) = Step-IsOrderly _ file step (Reachable-IsOrderly _ r)
Reachable-IsOrderly file (finishes deps io u clean p s r r' begun now small) =
    finished-IsOrderly deps io u _ _ clean p s (Reachable-IsOrderly _ r) (Reachable-IsOrderly _ r')
      begun now small
