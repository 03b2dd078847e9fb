-- ===== src/Http/RequestAuth.antt =====
-- The check of the sender in `/api/p2p/request` of `handle_connection` in src/main.rs, against
-- `verify_peer_auth_token` of src/rendezvous.rs.
use omarchy_omasend.Common.{
  ◌≡◌, refl, ap, sym, ◌∙◌, Bool, true, false, not, ◌&&◌, ◌||◌, List, [], ◌∷◌, none, some, ◌==◌,
  if◌then◌else◌, any, find, arith, Bool-cases, Option-cases, inl, inr, ◌↔◌,
}
use omarchy_omasend.Common.Text.{Text, text_eq, as_bytes, len}
use omarchy_omasend.OmaId.{normalize_oma_id}
use omarchy_omasend.Pairing.Model.{PairedPeer, Deps, Disk, is_id, constant_time_eq}
use omarchy_omasend.Pairing.Ops.{
  load_paired_peers, is_peer_confirmed, verify_peer_auth_token, token_ok,
}

pub data SenderCheck : Type 0 where
  not_paired not_confirmed bad_token admitted : SenderCheck

-- The test of the stored token against the one provided; a record without a token passes.
unfoldable pub refuses_token : PairedPeer → Text → Bool
refuses_token peer provided = elim peer.auth_token [
  | none ↦ false
  | some expected ↦
      not (text_eq expected [])
      && (text_eq provided [] || not (constant_time_eq (as_bytes expected) (as_bytes provided)))
]

module _ (deps : Deps) where
  unfoldable pub check_sender : Text → Text → Disk → SenderCheck
  check_sender sender_id provided disk =
      if not (is_peer_confirmed deps sender_id disk)
      then not_paired
      else elim (find (is_id (normalize_oma_id sender_id)) (load_paired_peers deps disk)) [
        | none ↦ admitted
        | some peer ↦
            if not peer.confirmed
            then not_confirmed
            else if refuses_token peer provided
            then bad_token
            else admitted
      ]

  any-find :
      (norm : Text) (ps : List PairedPeer)
      → any (λ p. p.confirmed && is_id norm p) ps ≡ true
      → (p : PairedPeer) × (find (is_id norm) ps ≡ some p)
  any-find norm [] h = absurd (cc h)
  any-find norm (p ∷ ps) h = elim (Bool-cases (is_id norm p)) [
    | inl t ↦ (p, rw t refl)
    | inr t ↦ let (q, found) = any-find norm ps (ground (arith, t, h)) in (q, rw t found)
  ]

  find-any :
      (norm : Text) (ps : List PairedPeer) (p : PairedPeer)
      → find (is_id norm) ps ≡ some p
      → p.confirmed ≡ true
      → any (λ q. q.confirmed && is_id norm q) ps ≡ true
  find-any norm [] p h c = absurd (cc h)
  find-any norm (q ∷ ps) p h c = elim (Bool-cases (is_id norm q)) [
    | inl t ↦ ground (arith, t, h, c)
    | inr t ↦ ground (arith, t, find-any norm ps p)
  ]

  refuses-token_ok :
      (p : PairedPeer) (provided : Text)
      → p.confirmed ≡ true
      → token_ok p provided ≡ not (refuses_token p provided)
  unfolding token_ok refuses_token
  refuses-token_ok p provided h = elim (Option-cases p.auth_token) [
    | inl t ↦ ground (arith, h, t)
    | inr (e, t) ↦ ground (arith, h, t)
  ]

  token_ok-confirmed :
      (p : PairedPeer) (provided : Text) → p.confirmed ≡ false → token_ok p provided ≡ false
  unfolding token_ok
  token_ok-confirmed p provided h = rw h refl

  not-true : (b : Bool) → not b ≡ true → b ≡ false
  not-true b h = ground arith

  -- The endpoint admits a sender exactly when `verify_peer_auth_token` accepts its token, whatever
  -- the file holds: the check that is written out in the endpoint is that function.
  pub check_sender_iff :
      (sender_id provided : Text) (disk : Disk)
      → (check_sender sender_id provided disk ≡ admitted)
        ↔ (verify_peer_auth_token deps sender_id provided disk ≡ true)
  unfolding check_sender is_peer_confirmed verify_peer_auth_token refuses_token
  check_sender_iff sender_id provided disk = (there, back)
    where
      norm : Text
      norm = normalize_oma_id sender_id

      peers : List PairedPeer
      peers = load_paired_peers deps disk

      there :
          check_sender sender_id provided disk ≡ admitted
          → verify_peer_auth_token deps sender_id provided disk ≡ true
      there h = elim (Bool-cases (len norm == 16)) [
        | inr short ↦ absurd (cc (rw short at h))
        | inl full ↦ elim (Bool-cases (any (λ p. p.confirmed && is_id norm p) peers)) [
          | inr nobody ↦ absurd (cc (rw (full, nobody) at h))
          | inl somebody ↦
              let (p, found) = any-find norm peers somebody in
              elim (Bool-cases p.confirmed) [
                | inr open_code ↦ absurd (cc (rw (full, somebody, found, open_code) at h))
                | inl c ↦ elim (Bool-cases (refuses_token p provided)) [
                  | inl r ↦ absurd (cc (rw (full, somebody, found, c, r) at h))
                  | inr r ↦ rw (full, found) (refuses-token_ok p provided c ∙ ap not r)
                ]
              ]
        ]
      ]

      back :
          verify_peer_auth_token deps sender_id provided disk ≡ true
          → check_sender sender_id provided disk ≡ admitted
      back h = elim (Bool-cases (len norm == 16)) [
        | inr short ↦ absurd (cc (rw short at h))
        | inl full ↦ elim (Option-cases (find (is_id norm) peers)) [
          | inl missing ↦ absurd (cc (rw (full, missing) at h))
          | inr (p, found) ↦
              let accepted : token_ok p provided ≡ true = rw (full, found) at h in
              elim (Bool-cases p.confirmed) [
                | inr open_code ↦ absurd (cc (token_ok-confirmed p provided open_code, accepted))
                | inl c ↦
                    let r : refuses_token p provided ≡ false =
                      not-true (refuses_token p provided)
                        (sym (refuses-token_ok p provided c) ∙ accepted) in
                    rw (full, find-any norm peers p found c, found, c, r) refl
              ]
        ]
      ]
