-- ===== src/Http/PairEndpoint.antt =====
-- The endpoint `/api/p2p/pair` of `handle_connection` in src/main.rs, after the gate, on top of
-- `complete_remote_pairing`. Parsing the body as JSON, `from_slice`, is a
-- parameter.
use omarchy_omasend.Common.{
  ℕ, ◌≤◌, ◌≡◌, refl, ap, sym, ◌∙◌, Bool, true, false, not, List, [], Option, ◌≢◌, none, some, ltb,
  if◌then◌else◌, Result, ok, err, arith, Bool-cases, Option-cases, inl, inr, ◌⊎◌,
}
use omarchy_omasend.Common.Text.{Text}
use omarchy_omasend.Json.{Field, as_str, or_field}
use omarchy_omasend.Net.{IpAddr, to_canonical, is_loopback}
use omarchy_omasend.PinLimiter.{Limiter, is_pin_rate_limited, record_pin_attempt}
use omarchy_omasend.Pairing.Model.{PairedPeer, Deps, Io, Disk, PairingError}
use omarchy_omasend.Pairing.Ops.{complete_remote_pairing}
use omarchy_omasend.Pairing.Complete.{lookup_peer, complete_err_confirms_none}

abbrev pub max_control_body : ℕ
max_control_body = 65536

pub data PairReply : Type 0 where
  visibility_off too_large closed invalid_request invalid_json pairing_refused too_many_attempts :
      PairReply
  pairing_done : Text → PairReply

-- What reading the body gave: nothing, where the connection is dropped; a staged body, which has no
-- slice; or the bytes.
pub data BodyRead : Type 0 where
  no_body no_slice : BodyRead
  body_slice : List ℕ → BodyRead

-- One request: whether the device is visible, what is read, who sends it and when, by the clock of
-- the day and by the one that does not go back.
pub record PairRequest : Type 0 where
  pub io : Io
  pub visible : Bool
  pub content_length : ℕ
  pub body : BodyRead
  pub client_ip : IpAddr
  pub now_secs : ℕ
  pub now : ℕ

-- The fields of the body's object that are read.
pub record PairData : Type 0 where
  pub oma_id : Field
  pub sender_id : Field
  pub pair_code : Field

abbrev pub str_or_default : Field → Text
str_or_default f = elim (as_str f) [ none ↦ [] | some s ↦ s ]

-- The identifier, which only a missing `oma_id` leaves to `sender_id`, and the code.
unfoldable pub parse_pair : (List ℕ → Option PairData) → List ℕ → Option (Text × Text)
parse_pair from_slice bytes = elim (from_slice bytes) [
  | none ↦ none
  | some data_of ↦
      some (
        str_or_default (or_field data_of.oma_id data_of.sender_id),
        str_or_default data_of.pair_code,
      )
]

-- `auth_token.unwrap_or_default()`.
abbrev pub token_of : PairedPeer → Text
token_of peer = elim peer.auth_token [ none ↦ [] | some token ↦ token ]

module _ (deps : Deps) (from_slice : List ℕ → Option PairData) where
  unfoldable pub answer_pair :
      PairRequest → Text → Text → Limiter → Disk → PairReply × Limiter × Disk
  answer_pair r oma_id code m disk =
      if is_loopback (to_canonical r.client_ip)
      then (pairing_refused, m, disk)
      else if is_pin_rate_limited r.client_ip r.now m
      then (too_many_attempts, m, disk)
      else (let (outcome, disk') =
            complete_remote_pairing deps r.io oma_id code r.client_ip r.now_secs disk in
          elim outcome [
            | ok peer ↦ (
              pairing_done (token_of peer),
              (record_pin_attempt r.client_ip true r.now m).1,
              disk',
            )
            | err e ↦ (pairing_refused, (record_pin_attempt r.client_ip false r.now m).1, disk')
          ])

  unfoldable pub pair_endpoint : PairRequest → Limiter → Disk → PairReply × Limiter × Disk
  pair_endpoint r m disk =
      if not r.visible
      then (visibility_off, m, disk)
      else if ltb max_control_body r.content_length
      then (too_large, m, disk)
      else elim r.body [
        | no_body ↦ (closed, m, disk)
        | no_slice ↦ (invalid_request, m, disk)
        | body_slice bytes ↦ elim (parse_pair from_slice bytes) [
          | none ↦ (invalid_json, m, disk)
          | some (oma_id, code) ↦ answer_pair r oma_id code m disk
        ]
      ]

  Result-cases :
      (x : Result PairedPeer PairingError)
      → ((p : PairedPeer) × (x ≡ ok p)) ⊎ ((e : PairingError) × (x ≡ err e))
  Result-cases (ok p) = inl (p, refl)
  Result-cases (err e) = inr (e, refl)

  -- How a request ends: turned away before the pairing, with nothing changed; refused by it, which
  -- counts as a failed attempt of the address; or completed.
  data Ended (r : PairRequest) (m : Limiter) (disk : Disk) (t : PairReply × Limiter × Disk)
      : Type 0 where
    away :
        (reply : PairReply)
        → ((token : Text) → reply ≢ pairing_done token)
        → t ≡ (reply, m, disk)
        → Ended r m disk t
    refused :
        (oma_id code : Text) (e : PairingError)
        → (complete_remote_pairing deps r.io oma_id code r.client_ip r.now_secs disk).0 ≡ err e
        → t ≡ (
          pairing_refused,
          (record_pin_attempt r.client_ip false r.now m).1,
          (complete_remote_pairing deps r.io oma_id code r.client_ip r.now_secs disk).1,
        )
        → Ended r m disk t
    completed :
        (bytes : List ℕ) (oma_id code : Text) (peer : PairedPeer)
        → r.body ≡ body_slice bytes
        → parse_pair from_slice bytes ≡ some (oma_id, code)
        → r.visible ≡ true
        → ltb max_control_body r.content_length ≡ false
        → is_pin_rate_limited r.client_ip r.now m ≡ false
        → (complete_remote_pairing deps r.io oma_id code r.client_ip r.now_secs disk).0 ≡ ok peer
        → t ≡ (
          pairing_done (token_of peer),
          (record_pin_attempt r.client_ip true r.now m).1,
          (complete_remote_pairing deps r.io oma_id code r.client_ip r.now_secs disk).1,
        )
        → Ended r m disk t

  BodyRead-cases :
      (b : BodyRead)
      → (b ≡ no_body) ⊎ ((b ≡ no_slice) ⊎ ((bytes : List ℕ) × (b ≡ body_slice bytes)))
  BodyRead-cases no_body = inl refl
  BodyRead-cases no_slice = inr (inl refl)
  BodyRead-cases (body_slice bytes) = inr (inr (bytes, refl))

  pair_endpoint-Ended :
      (r : PairRequest) (m : Limiter) (disk : Disk) → Ended r m disk (pair_endpoint r m disk)
  unfolding pair_endpoint answer_pair
  pair_endpoint-Ended r m disk = elim (Bool-cases r.visible) [
    | inr hidden ↦ away visibility_off (λ token e. cc e) (rw hidden refl)
    | inl shown ↦ elim (Bool-cases (ltb max_control_body r.content_length)) [
      | inl big ↦ away too_large (λ token e. cc e) (rw (shown, big) refl)
      | inr fits ↦ elim (BodyRead-cases r.body) [
        | inl b ↦ away closed (λ token e. cc e) (rw (shown, fits, b) refl)
        | inr (inl b) ↦ away invalid_request (λ token e. cc e) (rw (shown, fits, b) refl)
        | inr (inr (bytes, b)) ↦ elim (Option-cases (parse_pair from_slice bytes)) [
          | inl bad ↦ away invalid_json (λ token e. cc e) (ground (arith, shown, fits, b, bad))
          | inr ((oma_id, code), read) ↦
              elim (Bool-cases (is_loopback (to_canonical r.client_ip))) [
                | inl loop ↦
                    away pairing_refused (λ token e. cc e)
                      (ground (arith, shown, fits, b, read, loop))
                | inr far ↦ elim (Bool-cases (is_pin_rate_limited r.client_ip r.now m)) [
                  | inl limited ↦
                      away too_many_attempts (λ token e. cc e)
                        (ground (arith, shown, fits, b, read, far, limited))
                  | inr free ↦
                      elim (Result-cases
                        (complete_remote_pairing deps r.io oma_id code r.client_ip r.now_secs
                          disk).0) [
                            | inl (peer, e) ↦
                                completed bytes oma_id code peer b read shown fits free e
                                  (ground (arith, shown, fits, b, read, far, free, e))
                            | inr (x, e) ↦
                                refused oma_id code x e
                                  (ground (arith, shown, fits, b, read, far, free, e))
                          ]
                ]
              ]
        ]
      ]
    ]
  ]

  -- A token is handed out only for a completed pairing: the device is visible, the body is small and
  -- parsed, the address is not limited, and `complete_remote_pairing` accepts the code that it holds;
  -- the token is that of the accepted record, and the file is as the pairing left it.
  pub pair_endpoint_done :
      (r : PairRequest) (m : Limiter) (disk : Disk) (token : Text)
      → (pair_endpoint r m disk).0 ≡ pairing_done token
      → (r.visible ≡ true)
        × (is_pin_rate_limited r.client_ip r.now m ≡ false)
        × (r.content_length ≤ max_control_body)
        × ((bytes : List ℕ) × (oma_id : Text) × (code : Text) × (peer : PairedPeer) × (r.body
              ≡ body_slice bytes)
            × (parse_pair from_slice bytes ≡ some (oma_id, code))
            × ((complete_remote_pairing deps r.io oma_id code r.client_ip r.now_secs disk).0
                ≡ ok peer)
            × (token ≡ token_of peer)
            × ((pair_endpoint r m disk).2
                ≡ (complete_remote_pairing deps r.io oma_id code r.client_ip r.now_secs disk).1))
  pair_endpoint_done r m disk token h = elim (pair_endpoint-Ended r m disk) [
    | away reply other e ↦ absurd (other token (sym (ap (λ t. t.0) e) ∙ h))
    | refused oma_id code x e t ↦ absurd (cc (ap (λ u. u.0) t, h))
    | completed bytes oma_id code peer b read shown fits free e t ↦ (
      shown,
      free,
      ground (arith, fits),
      (bytes, oma_id, code, peer, b, read, e, cc (ap (λ u. u.0) t, h), ap (λ u. u.2) t),
    )
  ]

  -- A request that hands out no token confirms nobody: a confirmed record in the file afterwards was
  -- there before, unchanged.
  pub pair_endpoint_refused :
      (r : PairRequest) (m : Limiter) (disk : Disk) (norm : Text) (c : PairedPeer)
      → ((token : Text) → (pair_endpoint r m disk).0 ≢ pairing_done token)
      → lookup_peer deps norm (pair_endpoint r m disk).2 ≡ some c
      → c.confirmed ≡ true
      → lookup_peer deps norm disk ≡ some c
  pair_endpoint_refused r m disk norm c unpaired found confirmed_c =
      elim (pair_endpoint-Ended r m disk) [
        | away reply other e ↦ sym (ap (λ t. lookup_peer deps norm t.2) e) ∙ found
        | refused oma_id code x e t ↦
            complete_err_confirms_none deps r.io oma_id code r.client_ip r.now_secs disk norm x c e
              (sym (ap (λ u. lookup_peer deps norm u.2) t) ∙ found) confirmed_c
        | completed bytes oma_id code peer b read shown fits free e t ↦
            absurd (unpaired (token_of peer) (ap (λ u. u.0) t))
      ]
