-- ===== src/Pairing/Attempt.antt =====
-- What one completion attempt of src/rendezvous.rs does to the record that it finds.
use omarchy_omasend.Common.{
  ℕ, ◌≤◌, ◌≡◌, sym, ap, ◌∙◌, Bool, true, false, Option, none, some, arith, Result, ok, err, ◌⊎◌,
  inl, inr, Bool-cases, [], Option-cases,
}
use omarchy_omasend.Common.Text.{Text, as_bytes, text_eq}
use omarchy_omasend.OmaId.{normalize_oma_id}
use omarchy_omasend.Net.{IpAddr}
use omarchy_omasend.Pairing.Model.{
  PairedPeer, Deps, PairingError, not_authorized, constant_time_eq, source_ok, is_pending, accepted,
  refused, attempt, is_id,
}
use omarchy_omasend.Pairing.ConstantTime.{constant_time_eq_iff}

-- The code that the record waits for, empty if there is none.
abbrev pub expected_code : PairedPeer → Text
expected_code p = elim p.pair_code [ none ↦ [] | some c ↦ c ]

abbrev pub code_ok : PairedPeer → Text → Bool
code_ok p code = constant_time_eq (as_bytes (expected_code p)) (as_bytes code)

module _ (deps : Deps) where
  -- The three ways in which an attempt ends.
  pub data Attempted (p : PairedPeer) (code : Text) (source : IpAddr) (now : ℕ)
      (r : Result PairedPeer PairingError × PairedPeer) : Type 0 where
    stale :
        is_pending deps p now ≡ false → r ≡ (err not_authorized, p) → Attempted p code source now r
    passed :
        is_pending deps p now ≡ true
        → code_ok p code ≡ true
        → source_ok deps p.ip source ≡ true
        → r ≡ (ok (accepted deps p source now), accepted deps p source now)
        → Attempted p code source now r
    failed :
        is_pending deps p now ≡ true
        → (code_ok p code ≡ false) ⊎ (source_ok deps p.ip source ≡ false)
        → r ≡ (err not_authorized, refused deps p)
        → Attempted p code source now r

  pub attempt-Attempted :
      (p : PairedPeer) (code : Text) (source : IpAddr) (now : ℕ)
      → Attempted p code source now (attempt deps p code source now)
  unfolding attempt
  attempt-Attempted p code source now = elim (Bool-cases (is_pending deps p now)) [
    | inr not_pending ↦ stale not_pending (ground (arith, not_pending))
    | inl pending ↦ elim (Bool-cases (code_ok p code)) [
      | inr bad ↦ failed pending (inl bad) (ground (arith, pending, bad))
      | inl good ↦ elim (Bool-cases (source_ok deps p.ip source)) [
        | inr elsewhere ↦ failed pending (inr elsewhere) (ground (arith, pending, good, elsewhere))
        | inl here ↦ passed pending good here (ground (arith, pending, good, here))
      ]
    ]
  ]

  -- The record waits for `code` at time `now`.
  pub record Awaits (p : PairedPeer) (code : Text) (now : ℕ) : Type 0 where
    pub expected : Text
    pub deadline : ℕ
    pub unconfirmed : p.confirmed ≡ false
    pub pending_code : p.pair_code ≡ some expected
    pub pending_until : p.pair_expires_at ≡ some deadline
    pub in_time : now ≤ deadline
    pub code_matches : as_bytes expected ≡ as_bytes code

  pending-fields :
      (p : PairedPeer) (now : ℕ)
      → is_pending deps p now ≡ true
      → (c : Text) × (exp : ℕ) × (p.confirmed ≡ false)
        × (p.pair_code ≡ some c)
        × (p.pair_expires_at ≡ some exp)
        × (now ≤ exp)
  unfolding is_pending
  pending-fields p now h = elim (Option-cases p.pair_code) [
    | inl e ↦ ground (arith, e)
    | inr (c, e) ↦ elim (Option-cases p.pair_expires_at) [
      | inl e' ↦ ground (arith, e, e')
      | inr (exp, e') ↦ (c, exp, ground (arith, e, e'), e, e', ground (arith, e, e'))
    ]
  ]

  -- An attempt that succeeds found a record that waits for this very code, and confirms it at the
  -- source that was observed.
  pub attempt_ok :
      (p q p' : PairedPeer) (code : Text) (source : IpAddr) (now : ℕ)
      → attempt deps p code source now ≡ (ok q, p')
      → Awaits p code now
        × (source_ok deps p.ip source ≡ true)
        × (q ≡ accepted deps p source now)
        × (p' ≡ q)
  attempt_ok p q p' code source now h = elim (attempt-Attempted p code source now) [
    | stale _ e ↦ absurd (cc (e, h))
    | failed _ _ e ↦ absurd (cc (e, h))
    | passed pending good here e ↦
        let (c, exp, u, pc, pe, t) = pending-fields p now pending in
        (
          record {
            expected = c;
            deadline = exp;
            unconfirmed = u;
            pending_code = pc;
            pending_until = pe;
            in_time = t;
            code_matches =
                ap (λ (o : Option Text). as_bytes (elim o [ none ↦ [] | some d ↦ d ])) (sym pc)
                ∙ (constant_time_eq_iff _ _).0 good;
          },
          here,
          cc (e, h),
          cc (e, h),
        )
  ]

  -- It succeeds whenever the record waits for the code and the source is not excluded by its hint.
  pub attempt_complete :
      (p : PairedPeer) (code : Text) (source : IpAddr) (now : ℕ)
      → Awaits p code now
      → source_ok deps p.ip source ≡ true
      → attempt deps p code source now
        ≡ (ok (accepted deps p source now), accepted deps p source now)
  unfolding attempt
  attempt_complete p code source now w here = ground (
    arith,
    w.unconfirmed,
    w.pending_code,
    w.pending_until,
    w.in_time,
    (constant_time_eq_iff (as_bytes w.expected) (as_bytes code)).1 w.code_matches,
  )

  -- A refused attempt leaves the record's identity, address, token and confirmation as they were.
  pub attempt_err :
      (p p' : PairedPeer) (e : PairingError) (code : Text) (source : IpAddr) (now : ℕ)
      → attempt deps p code source now ≡ (err e, p')
      → (p' ≡ p) ⊎ ((p' ≡ refused deps p) × (p.confirmed ≡ false))
  attempt_err p p' e code source now h = elim (attempt-Attempted p code source now) [
    | stale _ r ↦ inl (cc (r, h))
    | failed pending _ r ↦
        let (c, exp, u, pc, pe, t) = pending-fields p now pending in inr (cc (r, h), u)
    | passed _ _ _ r ↦ absurd (cc (r, h))
  ]

  pub attempt-oma_id :
      (p : PairedPeer) (code : Text) (source : IpAddr) (now : ℕ)
      → ((attempt deps p code source now).1).oma_id ≡ p.oma_id
  unfolding attempt
  attempt-oma_id p code source now = ground arith

  pub attempt-is_id :
      (n : Text) (p p' : PairedPeer) (code : Text) (source : IpAddr) (now : ℕ)
      (outcome : Result PairedPeer PairingError)
      → attempt deps p code source now ≡ (outcome, p')
      → is_id n p ≡ true
      → is_id n p' ≡ true
  attempt-is_id n p p' code source now outcome t h =
      let same : p'.oma_id ≡ p.oma_id =
        ap (λ (r : Result PairedPeer PairingError × PairedPeer). (r.1).oma_id) (sym t)
        ∙ attempt-oma_id p code source now in
      ap (λ (s : Text). text_eq (normalize_oma_id s) n) same ∙ h

  pub refused-confirmed : (p : PairedPeer) → (refused deps p).confirmed ≡ p.confirmed
  unfolding refused
  refused-confirmed p = ground arith
