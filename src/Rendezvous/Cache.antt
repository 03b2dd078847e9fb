-- ===== src/Rendezvous/Cache.antt =====
-- The cache of the rendezvous status in src/rendezvous.rs. The file is the status that serde_json reads
-- back from it, `none` where that fails.
use omarchy_omasend.Common.{
  ℕ, ◌+◌, ◌-◌, ◌<◌, ◌≡◌, refl, sym, ◌∙◌, ap, Bool, true, ◌&&◌, Option, none, some, ltb,
  if◌then◌else◌, arith, Bool-cases, inl, inr,
}
use omarchy_omasend.Common.Text.{Text, text_eq, text_eq_iff}
use omarchy_omasend.Rendezvous.{Deps}
use omarchy_omasend.Rendezvous.Record.{
  Json, compute_rendezvous_topic, query_local_rendezvous_anchor,
}

abbrev pub rendezvous_cache_ttl_secs : ℕ
rendezvous_cache_ttl_secs = 30

pub record RendezvousStatus : Type 0 where
  pub oma_id : Text
  pub cluster_id : Text
  pub local_ip : Text
  pub mode : Text
  pub stun_addr : Option Text
  pub tailscale_ip : Option Text
  pub updated_at : ℕ

-- `written` tells whether the file can be written; a failure leaves it.
unfoldable pub save_rendezvous_status_cache :
    Bool → RendezvousStatus → Option RendezvousStatus → Option RendezvousStatus
save_rendezvous_status_cache written status file = if written then some status else file

-- `now.saturating_sub(cached.updated_at) < TTL`, for the same identifier, address and mode.
unfoldable pub is_usable : ℕ → Text → Text → Text → RendezvousStatus → Bool
is_usable now oma_id local_ip mode c =
    ltb (now - c.updated_at) rendezvous_cache_ttl_secs
    && text_eq c.oma_id oma_id
    && text_eq c.local_ip local_ip
    && text_eq c.mode mode

abbrev pub field_of {ℓ} : {A : Type ℓ} → (A → Option Text) → Option A → Option Text
field_of f none = none
field_of f (some a) = f a

module _ (deps : Deps) (json : Json) where
  -- The status without asking the network: what the cache or the anchor knew is kept.
  unfoldable pub immediate_status :
      Text → Text → Text → ℕ → Option Text → Option RendezvousStatus → RendezvousStatus
  immediate_status oma_id local_ip mode now anchor cached =
      let prev_stun : Option Text = elim (field_of (λ c. c.stun_addr) cached) [
        | some a ↦ some a
        | none ↦ field_of (λ r. r.stun_addr) (query_local_rendezvous_anchor deps json oma_id anchor)
      ] in
      record {
        oma_id = oma_id;
        cluster_id = compute_rendezvous_topic deps oma_id;
        local_ip = local_ip;
        mode = mode;
        stun_addr = prev_stun;
        tailscale_ip = field_of (λ c. c.tailscale_ip) cached;
        updated_at = now;
      }

  -- The status, and the file of the cache after it.
  unfoldable pub get_rendezvous_status_fast :
      Bool
      → Text
      → Text
      → Text
      → ℕ
      → Option Text
      → Option RendezvousStatus
      → RendezvousStatus × Option RendezvousStatus
  get_rendezvous_status_fast written oma_id local_ip mode now anchor cached =
      let fresh = immediate_status oma_id local_ip mode now anchor cached in
      let stale : RendezvousStatus × Option RendezvousStatus =
        (fresh, save_rendezvous_status_cache written fresh cached) in
      elim cached [
        | none ↦ stale
        | some c ↦ if is_usable now oma_id local_ip mode c then (c, some c) else stale
      ]

  same_text : (t : Text) → text_eq t t ≡ true
  same_text t = (text_eq_iff t t).1 refl

  usable_now :
      (oma_id local_ip mode : Text) (now : ℕ) (anchor : Option Text)
      (cached : Option RendezvousStatus)
      → is_usable now oma_id local_ip mode (immediate_status oma_id local_ip mode now anchor cached)
        ≡ true
  unfolding immediate_status is_usable
  usable_now oma_id local_ip mode now anchor cached =
      ground (arith, same_text oma_id, same_text local_ip, same_text mode)

  -- The status that is returned is for the identifier, address and mode that were asked for, and is
  -- less than 30 seconds old by the clock of the call.
  pub fast_status_usable :
      (written : Bool) (oma_id local_ip mode : Text) (now : ℕ) (anchor : Option Text)
      (cached : Option RendezvousStatus)
      → is_usable now oma_id local_ip mode
          (get_rendezvous_status_fast written oma_id local_ip mode now anchor cached).0
        ≡ true
  unfolding get_rendezvous_status_fast
  fast_status_usable written oma_id local_ip mode now anchor none =
      usable_now oma_id local_ip mode now anchor none
  fast_status_usable written oma_id local_ip mode now anchor (some c) =
      elim (Bool-cases (is_usable now oma_id local_ip mode c)) [
        | inl t ↦ rw (t, get_rendezvous_status_fast) t
        | inr f ↦
            rw (f, get_rendezvous_status_fast) (usable_now oma_id local_ip mode now anchor (some c))
      ]

  -- A file that can be written holds the status that was returned.
  kept :
      (oma_id local_ip mode : Text) (now : ℕ) (anchor : Option Text)
      (cached : Option RendezvousStatus)
      → (get_rendezvous_status_fast true oma_id local_ip mode now anchor cached).1
        ≡ some (get_rendezvous_status_fast true oma_id local_ip mode now anchor cached).0
  unfolding get_rendezvous_status_fast save_rendezvous_status_cache
  kept oma_id local_ip mode now anchor none = refl
  kept oma_id local_ip mode now anchor (some c) =
      elim (Bool-cases (is_usable now oma_id local_ip mode c)) [
        | inl t ↦ rw (t, get_rendezvous_status_fast) refl
        | inr f ↦ rw (f, get_rendezvous_status_fast) refl
      ]

  later_usable :
      (oma_id local_ip mode : Text) (now later : ℕ) (c : RendezvousStatus)
      → is_usable now oma_id local_ip mode c ≡ true
      → later < c.updated_at + 30
      → is_usable later oma_id local_ip mode c ≡ true
  unfolding is_usable
  later_usable oma_id local_ip mode now later c h near = ground (arith, h, near)

  again :
      (oma_id local_ip mode : Text) (later : ℕ) (anchor : Option Text) (written : Bool)
      (c : RendezvousStatus)
      → is_usable later oma_id local_ip mode c ≡ true
      → get_rendezvous_status_fast written oma_id local_ip mode later anchor (some c) ≡ (c, some c)
  unfolding get_rendezvous_status_fast
  again oma_id local_ip mode later anchor written c h = rw (h, get_rendezvous_status_fast) refl

  -- After a call whose file could be written, a call with the same identifier, address and mode less
  -- than 30 seconds after the time of the status returns the same status and leaves the file, whatever
  -- the anchor holds by then.
  pub fast_status_stable :
      (oma_id local_ip mode : Text) (now later : ℕ) (anchor anchor' : Option Text)
      (cached : Option RendezvousStatus) (written : Bool)
      → later
        < (get_rendezvous_status_fast true oma_id local_ip mode now anchor cached).0.updated_at + 30
      → get_rendezvous_status_fast written oma_id local_ip mode later anchor'
          (get_rendezvous_status_fast true oma_id local_ip mode now anchor cached).1
        ≡ get_rendezvous_status_fast true oma_id local_ip mode now anchor cached
  fast_status_stable oma_id local_ip mode now later anchor anchor' cached written near =
      let r = get_rendezvous_status_fast true oma_id local_ip mode now anchor cached in
      let left = kept oma_id local_ip mode now anchor cached in
      ap (get_rendezvous_status_fast written oma_id local_ip mode later anchor') left
      ∙ again oma_id local_ip mode later anchor' written r.0 (
          later_usable oma_id local_ip mode now later r.0
            (fast_status_usable true oma_id local_ip mode now anchor cached) near)
      ∙ ap (λ f. (r.0, f)) (sym left)
