-- ===== src/Pairing/Auth.antt =====
-- `verify_peer_auth_token` and `is_peer_confirmed` of src/rendezvous.rs on a file in order.
use omarchy_omasend.Common.{
  ◌≡◌, ◌≢◌, refl, ap, sym, ◌∙◌, true, false, List, [], ◌∷◌, some, arith, find, ◌↔◌, inl, inr,
  Option-cases, length, length-append,
}
use omarchy_omasend.Common.Text.{Text, text_eq, text_eq_iff, as_bytes, utf8, utf8-nonempty}
use omarchy_omasend.OmaId.{normalize_oma_id}
use omarchy_omasend.OmaId.Format.{len-normalize, validate-length}
use omarchy_omasend.Pairing.Model.{PairedPeer, Deps, Disk, is_id}
use omarchy_omasend.Pairing.Ops.{load_paired_peers, token_ok, verify_peer_auth_token}
use omarchy_omasend.Pairing.ConstantTime.{constant_time_eq_iff}
use omarchy_omasend.Pairing.Store.{find-is_id, is_id_iff}
use omarchy_omasend.Pairing.Distinct.{All-find}
use omarchy_omasend.Pairing.Invariant.{Phase, known, waiting, paired, PeerOk, IsStore}

-- The record holds this very token, after a completed handshake.
pub record Holds (p : PairedPeer) (provided : Text) : Type 0 where
  pub token : Text
  pub confirmed : p.confirmed ≡ true
  pub stored : p.auth_token ≡ some token
  pub nonempty : token ≢ []
  pub same : as_bytes token ≡ as_bytes provided

as_bytes-nil : (s : Text) → as_bytes s ≡ [] → s ≡ []
unfolding as_bytes
as_bytes-nil [] h = refl
as_bytes-nil (c ∷ s) h =
    absurd (omega (arith, ap length h, length-append (utf8 c) (as_bytes s), utf8-nonempty c))

token_ok_sound :
    (p : PairedPeer) (provided : Text) → Phase p → token_ok p provided ≡ true → Holds p provided
unfolding token_ok
token_ok_sound p provided (known u c) h = absurd (ground arith)
token_ok_sound p provided (waiting code token u c t ne) h = absurd (ground arith)
token_ok_sound p provided (paired ip token u c i t ne) h = record {
  token = token;
  confirmed = u;
  stored = t;
  nonempty = ne;
  same =
      (constant_time_eq_iff (as_bytes token) (as_bytes provided)).0
        (ground (arith, (text_eq_iff token []).0));
}

not_text_eq : (s : Text) → s ≢ [] → text_eq s [] ≡ false
not_text_eq [] h = absurd (h refl)
not_text_eq (c ∷ s) h = refl

token_ok_complete :
    (p : PairedPeer) (provided : Text) → Holds p provided → token_ok p provided ≡ true
unfolding token_ok as_bytes
token_ok_complete p provided h =
    let filled : text_eq h.token [] ≡ false = not_text_eq h.token h.nonempty in
    let given : text_eq provided [] ≡ false =
      not_text_eq provided (λ e. h.nonempty (as_bytes-nil h.token (h.same ∙ ap as_bytes e))) in
    ground (
      arith,
      h.confirmed,
      h.stored,
      filled,
      given,
      (constant_time_eq_iff (as_bytes h.token) (as_bytes provided)).1 h.same,
    )

find_norm-length :
    (ps : List PairedPeer) (norm : Text) (p : PairedPeer)
    → IsStore ps
    → find (is_id norm) ps ≡ some p
    → length norm ≡ 16
find_norm-length ps norm p s f =
    let v = All-find PeerOk (is_id norm) ps p s.each f in
    ap length (sym ((is_id_iff norm p).0 (find-is_id norm ps p f)))
    ∙ validate-length p.oma_id v.valid

module _ (deps : Deps) where
  -- On a file in order a token is accepted for an identifier exactly when the record of that
  -- identifier completed the handshake and holds this token, byte for byte. (A confirmed record with
  -- no token would accept any; the file has none.)
  pub verify_peer_auth_token_iff :
      (oma_id provided : Text) (disk : Disk)
      → IsStore (load_paired_peers deps disk)
      → (verify_peer_auth_token deps oma_id provided disk ≡ true) ↔ (
          (p : PairedPeer) × (find (is_id (normalize_oma_id oma_id)) (load_paired_peers deps disk)
            ≡ some p)
          × Holds p provided)
  unfolding verify_peer_auth_token
  verify_peer_auth_token_iff oma_id provided disk s = (sound, complete)
    where
      norm : Text
      norm = normalize_oma_id oma_id

      peers : List PairedPeer
      peers = load_paired_peers deps disk

      sound :
          verify_peer_auth_token deps oma_id provided disk ≡ true
          → (p : PairedPeer) × (find (is_id norm) peers ≡ some p) × Holds p provided
      sound h = elim (Option-cases (find (is_id norm) peers)) [
        | inl missing ↦ absurd (ground (arith, missing, h))
        | inr (p, found) ↦ (
          p,
          found,
          token_ok_sound p provided (All-find PeerOk (is_id norm) peers p s.each found).phase
              (ground (arith, found, h)),
        )
      ]

      complete :
          (p : PairedPeer) × (find (is_id norm) peers ≡ some p) × Holds p provided
          → verify_peer_auth_token deps oma_id provided disk ≡ true
      complete (p, found, holds) = ground (
        arith,
        found,
        len-normalize oma_id,
        find_norm-length peers norm p s found,
        token_ok_complete p provided holds,
      )
