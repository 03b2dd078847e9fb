-- ===== src/Pairing/Lockout.antt =====
-- Guessing a pairing code in src/rendezvous.rs: how many refused completions a code survives.
use omarchy_omasend.Common.{
  ℕ, suc, ◌+◌, ◌≤◌, ◌<◌, ◌≡◌, ◌≢◌, refl, ap, sym, ◌∙◌, subst, Bool, true, false, ◌&&◌, List, [],
  ◌∷◌, Option, none, some, arith, leb, if◌then◌else◌, All, find, Result, ok, ◌⊎◌, inl, inr,
  Bool-cases,
}
use omarchy_omasend.Common.Text.{Text}
use omarchy_omasend.Net.{IpAddr, to_canonical}
use omarchy_omasend.OmaId.{normalize_oma_id}
use omarchy_omasend.Pairing.Model.{
  PairedPeer, Deps, Io, Disk, PairingError, is_id, set_first, is_pending, refused, attempt,
}
use omarchy_omasend.Pairing.Ops.{load_paired_peers, save_then, complete_remote_pairing}
use omarchy_omasend.Pairing.Attempt.{stale, passed, failed, attempt-Attempted, attempt-is_id}
use omarchy_omasend.Pairing.Store.{find-is_id, find-set_first}
use omarchy_omasend.Pairing.Complete.{
  rejected, tried, complete-Completed, complete_sound, source_allowed, well_formed,
}

-- One call of `complete_remote_pairing`, by whoever sends it.
pub record Request : Type 0 where
  pub io : Io
  pub code : Text
  pub source_ip : IpAddr
  pub now : ℕ

-- The lock and the file can be had.
abbrev pub Faultless : Request → Type 0
Faultless g = (g.io.lock_error ≡ none) × (g.io.write_error ≡ none)

module _ (deps : Deps) (oma_id : Text) where
  abbrev pub complete : Request → Disk → Result PairedPeer PairingError × Disk
  complete g disk = complete_remote_pairing deps g.io oma_id g.code g.source_ip g.now disk

  abbrev pub find_peer : Disk → Option PairedPeer
  find_peer disk = find (is_id (normalize_oma_id oma_id)) (load_paired_peers deps disk)

  -- The file after a sequence of requests.
  abbrev pub run : List Request → Disk → Disk
  run [] disk = disk
  run (g ∷ gs) disk = run gs (complete g disk).1

  -- Each request of the sequence is refused.
  abbrev pub AllRefused : List Request → Disk → Type 0
  AllRefused [] disk = Unit
  AllRefused (g ∷ gs) disk =
      ((q : PairedPeer) → (complete g disk).0 ≢ ok q) × AllRefused gs (complete g disk).1

  -- A guess: a request that reaches the record in time.
  abbrev pub is_guess : ℕ → Request → Bool
  is_guess exp g = source_allowed g.source_ip && well_formed oma_id g.code && leb g.now exp

  abbrev pub guesses : ℕ → List Request → ℕ
  guesses exp [] = 0
  guesses exp (g ∷ gs) = (if is_guess exp g then 1 else 0) + guesses exp gs

  -- After `k` refused guesses the record has no code left, or at least `k` failures noted.
  pub record Guarded (exp k : ℕ) (p : PairedPeer) : Type 0 where
    pub unconfirmed : p.confirmed ≡ false
    pub spent :
        (p.pair_code ≡ none) ⊎ ((p.pair_expires_at ≡ some exp) × (k ≤ p.pair_failures) × (k < 5))

  -- A request that reaches the record stores what the attempt made of it.
  pub complete_stored :
      (g : Request) (disk : Disk) (p : PairedPeer)
      → ((ps : List PairedPeer) → (s : Text) × (deps.to_json ps ≡ ok s))
      → Faultless g
      → source_allowed g.source_ip && well_formed oma_id g.code ≡ true
      → find_peer disk ≡ some p
      → ((complete g disk).0 ≡ (attempt deps p g.code (to_canonical g.source_ip) g.now).0)
        × (find_peer (complete g disk).1
            ≡ some (attempt deps p g.code (to_canonical g.source_ip) g.now).1)
  unfolding complete_remote_pairing save_then load_paired_peers
  complete_stored g disk p writes calm guards found =
      let norm = normalize_oma_id oma_id in
      let tail = attempt deps p g.code (to_canonical g.source_ip) g.now in
      let peers = set_first (is_id norm) tail.1 (load_paired_peers deps disk) in
      let s = (writes peers).0 in
      let ends : complete g disk ≡ (tail.0, record { content = some s }) =
        ground (arith, calm.0, calm.1, guards, found, (writes peers).1) in
      let named =
        attempt-is_id deps norm p tail.1 g.code (to_canonical g.source_ip) g.now tail.0 refl
          (find-is_id norm (load_paired_peers deps disk) p found) in
      let back : load_paired_peers deps (complete g disk).1 ≡ peers =
        ap (λ t. load_paired_peers deps t.1) ends
        ∙ ground (arith, deps.from_json-to_json peers s (writes peers).1) in
      (
        ap (λ t. t.0) ends,
        ap (find (is_id norm)) back
            ∙ find-set_first norm tail.1 p (load_paired_peers deps disk) named found,
      )

  attempt-Guarded :
      (exp k now : ℕ) (p : PairedPeer) (code : Text) (source : IpAddr)
      → Guarded exp k p
      → ((q : PairedPeer) → (attempt deps p code source now).0 ≢ ok q)
      → Guarded exp (if leb now exp then suc k else k) (attempt deps p code source now).1
  unfolding is_pending refused
  attempt-Guarded exp k now p code source v unlucky =
      elim (attempt-Attempted deps p code source now) [
        | passed _ _ _ r ↦ absurd (unlucky _ (ap (λ t. t.0) r))
        | stale idle r ↦ rw r (record { unconfirmed = v.unconfirmed; spent = ground arith })
        | failed pending _ r ↦ rw r (record { unconfirmed = ground arith; spent = ground arith })
      ]

  complete-Guarded :
      (g : Request) (disk : Disk) (exp k : ℕ) (p : PairedPeer)
      → ((ps : List PairedPeer) → (s : Text) × (deps.to_json ps ≡ ok s))
      → Faultless g
      → ((q : PairedPeer) → (complete g disk).0 ≢ ok q)
      → find_peer disk ≡ some p
      → Guarded exp k p
      → (p' : PairedPeer) × (find_peer (complete g disk).1 ≡ some p')
        × Guarded exp (if is_guess exp g then suc k else k) p'
  complete-Guarded g disk exp k p writes calm unlucky found v =
      elim (Bool-cases (source_allowed g.source_ip && well_formed oma_id g.code)) [
        | inl guards ↦
            let (answer, stored) = complete_stored g disk p writes calm guards found in
            (
              (attempt deps p g.code (to_canonical g.source_ip) g.now).1,
              stored,
              subst
                  (λ b.
                    Guarded exp (if b then suc k else k)
                      (attempt deps p g.code (to_canonical g.source_ip) g.now).1)
                  (sym (ap (λ b. b && leb g.now exp) guards))
                  (attempt-Guarded exp k g.now p g.code (to_canonical g.source_ip) v
                    (λ q e. unlucky q (answer ∙ e))),
            )
        | inr blocked ↦ elim (complete-Completed deps g.io oma_id g.code g.source_ip g.now disk) [
          | tried _ _ _ a w _ _ _ _ ↦ absurd (ground (arith, blocked, a, w))
          | rejected _ r ↦ (
            p,
            ap (λ t. find_peer t.1) r ∙ found,
            subst (λ b. Guarded exp (if b then suc k else k) p)
                (sym (ap (λ b. b && leb g.now exp) blocked)) v,
          )
        ]
      ]

  run-Guarded :
      (gs : List Request) (disk : Disk) (exp k : ℕ) (p : PairedPeer)
      → ((ps : List PairedPeer) → (s : Text) × (deps.to_json ps ≡ ok s))
      → All Faultless gs
      → AllRefused gs disk
      → find_peer disk ≡ some p
      → Guarded exp k p
      → (p' : PairedPeer) × (find_peer (run gs disk) ≡ some p')
        × Guarded exp (k + guesses exp gs) p'
  run-Guarded [] disk exp k p writes calm unlucky found v =
      (p, found, subst (λ n. Guarded exp n p) (let e : k ≡ k + 0 = omega arith in e) v)
  run-Guarded (g ∷ gs) disk exp k p writes calm unlucky found v =
      let next = complete-Guarded g disk exp k p writes calm.0 unlucky.0 found v in
      let k' = if is_guess exp g then suc k else k in
      let rest =
        run-Guarded gs (complete g disk).1 exp k' next.0 writes calm.1 unlucky.1 next.1 next.2 in
      (
        rest.0,
        rest.1,
        subst (λ n. Guarded exp n rest.0)
            (let e : k' + guesses exp gs ≡ k + guesses exp (g ∷ gs) = ground arith in e) rest.2,
      )

  -- A code survives at most four refused guesses. Take a file in which the peer is unconfirmed with
  -- a code that ends at `exp`, and any sequence of completions that the system answers without
  -- faults and that are all refused, for whatever reason. If five of them reach the record by `exp`
  -- with a well-formed code from an allowed source, then every later completion for this peer fails,
  -- the right code included.
  pub complete_locks_out :
      (gs : List Request) (g : Request) (disk : Disk) (exp : ℕ) (p q : PairedPeer)
      → ((ps : List PairedPeer) → (s : Text) × (deps.to_json ps ≡ ok s))
      → All Faultless gs
      → AllRefused gs disk
      → find_peer disk ≡ some p
      → p.confirmed ≡ false
      → p.pair_expires_at ≡ some exp
      → 5 ≤ guesses exp gs
      → (complete g (run gs disk)).0 ≢ ok q
  complete_locks_out gs g disk exp p q writes calm unlucky found fresh until many won =
      let start : Guarded exp 0 p = record {
        unconfirmed = fresh;
        spent = inr (until, omega arith, omega arith);
      } in
      let (p', found', v) = run-Guarded gs disk exp 0 p writes calm unlucky found start in
      let (a, w, hit) =
        complete_sound deps g.io oma_id g.code g.source_ip g.now (run gs disk) q won in
      elim v.spent [
        | inr (_, _, few) ↦ absurd (omega arith)
        | inl gone ↦ cc (gone, found', hit.1, hit.2.pending_code)
      ]
