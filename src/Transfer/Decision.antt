-- ===== src/Transfer/Decision.antt =====
-- The endpoint `/api/p2p/decision` of `handle_connection` in src/main.rs: asking for the state of a
-- transfer, accepting and rejecting it. Parsing the body as JSON is a parameter.
use omarchy_omasend.Common.{ℕ, Bool, not, List, [], Option, none, some, ltb, if◌then◌else◌}
use omarchy_omasend.Common.Text.{Text, codes, text_eq}
use omarchy_omasend.Http.{HttpRequest, get_param}
use omarchy_omasend.Http.PairEndpoint.{BodyRead, no_body, no_slice, body_slice, max_control_body}
use omarchy_omasend.Pairing.Model
use omarchy_omasend.Pairing.Model.{Disk}
use omarchy_omasend.Staging.Budget.{saturating_add}
use omarchy_omasend.Transfer.Model.{
  PendingFileTransfer, TrustedPeer, status_accepted, status_rejected, get_pending_transfer,
  save_pending_transfer, add_trusted_peer,
}
use omarchy_omasend.Transfer.Upload.{or_default}

-- The clock of the endpoint, those of `get_pending_transfer` and `add_trusted_peer`, whether the
-- files can be written, and what adding a paired peer meets.
pub record Io : Type 0 where
  pub now : ℕ
  pub read_at : ℕ
  pub trusted_at : ℕ
  pub writes_pending : Bool
  pub writes_trusted : Bool
  pub pairing : Model.Io

-- The files that the endpoint reads and writes.
pub record Store : Type 0 where
  pub pending : Option PendingFileTransfer
  pub trusted : Option (List TrustedPeer)
  pub paired : Disk

-- `falls_through` stands for another method, which no answer here is given to.
pub data DecisionReply : Type 0 where
  not_found expired too_large closed invalid_payload invalid_decision accepted rejected
        falls_through :
      DecisionReply
  status_is : Text → DecisionReply

pub record DecisionRequest : Type 0 where
  pub req : HttpRequest
  pub content_length : ℕ
  pub body : BodyRead

unfoldable pub decision_status : Io → HttpRequest → Store → DecisionReply
decision_status io req s =
    let token = or_default (get_param (codes "token") req) in
    elim (get_pending_transfer io.read_at s.pending) [
      | none ↦ not_found
      | some pending ↦
          if text_eq pending.token token
          then (if ltb pending.expires_at io.now then expired else status_is pending.status)
          else not_found
    ]

abbrev pub with_status : Text → PendingFileTransfer → PendingFileTransfer
with_status status p = record p { status = status }

module _ (deps : Model.Deps) where
  -- The part after the body was parsed; the fingerprint of the peer is left empty.
  unfoldable pub decide : Io → Text → Text → Store → DecisionReply × Store
  decide io token action s = elim (get_pending_transfer io.read_at s.pending) [
    | none ↦ (invalid_decision, s)
    | some p ↦
        let p' = record p { status = status_accepted; expires_at = saturating_add io.now 600 } in
        let (trusted', paired') =
          add_trusted_peer deps io.pairing io.writes_trusted p.sender_id p.sender_name []
            io.trusted_at s.trusted s.paired in
        if not (text_eq p.token token)
        then (invalid_decision, s)
        else if text_eq action (codes "accept")
        then (
          accepted,
          record {
            pending = save_pending_transfer io.writes_pending p' s.pending;
            trusted = trusted';
            paired = paired';
          },
        )
        else if text_eq action (codes "reject")
        then (
          rejected,
          record s {
            pending =
                save_pending_transfer io.writes_pending (with_status status_rejected p) s.pending;
          },
        )
        else (invalid_decision, s)
  ]

module _ (deps : Model.Deps) (parse : List ℕ → Option (Text × Text)) where
  unfoldable pub post_decision : Io → DecisionRequest → Store → DecisionReply × Store
  post_decision io r s =
      if ltb max_control_body r.content_length then (too_large, s) else elim r.body [
        | no_body ↦ (closed, s)
        | no_slice ↦ (invalid_payload, s)
        | body_slice bytes ↦ elim (parse bytes) [
          | none ↦ (invalid_decision, s)
          | some (token, action) ↦ decide deps io token action s
        ]
      ]

  unfoldable pub decision : Io → DecisionRequest → Store → DecisionReply × Store
  decision io r s =
      if text_eq r.req.method (codes "GET")
      then (decision_status io r.req s, s)
      else if text_eq r.req.method (codes "POST")
      then post_decision io r s
      else (falls_through, s)
