-- ===== src/Rendezvous/Record/Opening.antt =====
-- Which rendezvous records of src/rendezvous.rs open, and that those that were sealed do.
use omarchy_omasend.Common.{
  ℕ, ◌≡◌, refl, ◌∙◌, ap, subst, true, List, Option, some, ◌==◌, length, all, Result, ok, err,
  Bool-cases, ==_iff, Option-cases, inl, inr, ◌⊎◌,
}
use omarchy_omasend.Common.Text.{Text, text_eq, text_eq_iff}
use omarchy_omasend.Rendezvous.{Deps, is_byte, hmac_sha256, hkdf_sha256}
use omarchy_omasend.Rendezvous.Record.{
  RendezvousRecord, EncryptedRendezvousEnvelope, Json, Device, identity_bytes, rendezvous_topic_key,
  rendezvous_salt, rendezvous_info, compute_rendezvous_topic, derive_rendezvous_key,
  encrypt_rendezvous_record, decrypt_rendezvous_record, build_github_anchor_payload,
  parse_github_anchor_payload, anchor_record, publish_local_rendezvous_anchor,
  query_local_rendezvous_anchor,
}

ok_path : {A E : Type 0} {x y : A} → ◌≡◌ {A = Result A E} (ok x) (ok y) → x ≡ y
ok_path {A} {E} {x} {y} h = cc

Result-cases : {A E : Type 0} (r : Result A E) → ((e : E) × (r ≡ err e)) ⊎ ((a : A) × (r ≡ ok a))
Result-cases (ok a) = inr (a, refl)
Result-cases (err e) = inl (e, refl)

module _ (deps : Deps) (json : Json) where
  abbrev sealed : List ℕ → Text → ℕ → List ℕ → EncryptedRendezvousEnvelope
  sealed nonce oma_id now ciphertext = record {
    topic = compute_rendezvous_topic deps oma_id;
    nonce = deps.hex_encode nonce;
    ciphertext = deps.hex_encode ciphertext;
    updated_at = now;
  }

  same_topic :
      (a b : Text)
      → identity_bytes a ≡ identity_bytes b
      → compute_rendezvous_topic deps a ≡ compute_rendezvous_topic deps b
  unfolding compute_rendezvous_topic
  same_topic a b h = ap (λ bs. deps.hex_encode (hmac_sha256 deps bs rendezvous_topic_key)) h

  same_key :
      (a b : Text)
      → identity_bytes a ≡ identity_bytes b
      → derive_rendezvous_key deps a ≡ derive_rendezvous_key deps b
  unfolding derive_rendezvous_key
  same_key a b h = ap (λ bs. hkdf_sha256 deps bs rendezvous_salt rendezvous_info) h

  -- A sealed record opens under any spelling of the identifier it was sealed for.
  decrypt-encrypt_record :
      (nonce : List ℕ) (oma_id other : Text) (r : RendezvousRecord)
      (envelope : EncryptedRendezvousEnvelope)
      → all is_byte nonce ≡ true
      → length nonce ≡ 12
      → identity_bytes other ≡ identity_bytes oma_id
      → encrypt_rendezvous_record deps json (some nonce) oma_id r ≡ ok envelope
      → decrypt_rendezvous_record deps json other envelope ≡ ok r
  unfolding encrypt_rendezvous_record decrypt_rendezvous_record
  decrypt-encrypt_record nonce oma_id other r envelope bytes twelve same h =
      let key = derive_rendezvous_key deps oma_id in
      elim (Option-cases (json.record_to_vec r)) [
        | inl e ↦ absurd (cc (rw (e, encrypt_rendezvous_record) at h))
        | inr (plaintext, e) ↦ elim (Option-cases (deps.seal key nonce plaintext)) [
          | inl f ↦ absurd (cc (rw (e, f, encrypt_rendezvous_record) at h))
          | inr (c, f) ↦
              let is_sealed : sealed nonce oma_id r.timestamp c ≡ envelope =
                ok_path (rw (e, f, encrypt_rendezvous_record) at h) in
              subst (λ env. decrypt_rendezvous_record deps json other env ≡ ok r) is_sealed
                (rw
                  (
                    same_topic other oma_id same,
                    (text_eq_iff (compute_rendezvous_topic deps oma_id)
                          (compute_rendezvous_topic deps oma_id)).1
                        refl,
                    deps.decode-encode nonce bytes,
                    twelve,
                    deps.decode-encode c (deps.seal-bytes key nonce plaintext c f),
                    same_key other oma_id same,
                    deps.unseal-seal key nonce plaintext c f,
                    json.record-back r plaintext e,
                    decrypt_rendezvous_record,
                  )
                  refl)
        ]
      ]

  -- The payload built for an anchor gives its record back, for the identifier it was built for in any
  -- spelling, if the nonce is of twelve bytes.
  pub parse-build_github_anchor :
      (nonce : List ℕ) (oma_id other : Text) (r : RendezvousRecord) (payload : Text)
      → all is_byte nonce ≡ true
      → length nonce ≡ 12
      → identity_bytes other ≡ identity_bytes oma_id
      → build_github_anchor_payload deps json (some nonce) oma_id r ≡ ok payload
      → parse_github_anchor_payload deps json other payload ≡ ok r
  unfolding build_github_anchor_payload parse_github_anchor_payload
  parse-build_github_anchor nonce oma_id other r payload bytes twelve same h =
      elim (Result-cases (encrypt_rendezvous_record deps json (some nonce) oma_id r)) [
        | inl (e, f) ↦ absurd (cc (rw (f, build_github_anchor_payload) at h))
        | inr (envelope, f) ↦ elim (Option-cases (json.envelope_to_string envelope)) [
          | inl g ↦ absurd (cc (rw (f, g, build_github_anchor_payload) at h))
          | inr (s, g) ↦
              let is_s : s ≡ payload = ok_path (rw (f, g, build_github_anchor_payload) at h) in
              subst (λ t. parse_github_anchor_payload deps json other t ≡ ok r) is_s
                (rw (json.envelope-back envelope s g, parse_github_anchor_payload)
                  (decrypt-encrypt_record nonce oma_id other r envelope bytes twelve same f))
        ]
      ]

  -- The anchor that is published is found again by the identifier it was published for, in any
  -- spelling, however much later, if the nonce is of twelve bytes.
  pub query-publish_anchor :
      (nonce : List ℕ) (write_error : Option Text) (oma_id other : Text) (d : Device) (now : ℕ)
      (before after : Option Text) (envelope : EncryptedRendezvousEnvelope)
      → all is_byte nonce ≡ true
      → length nonce ≡ 12
      → identity_bytes other ≡ identity_bytes oma_id
      → publish_local_rendezvous_anchor deps json (some nonce) write_error oma_id d now before
        ≡ (ok envelope, after)
      → query_local_rendezvous_anchor deps json other after
        ≡ some (anchor_record deps json oma_id d now)
  unfolding publish_local_rendezvous_anchor query_local_rendezvous_anchor
  query-publish_anchor nonce write_error oma_id other d now before after envelope bytes twelve same
        h =
      let r = anchor_record deps json oma_id d now in
      elim (Result-cases (encrypt_rendezvous_record deps json (some nonce) oma_id r)) [
        | inl (e, f) ↦ absurd (cc (rw (f, publish_local_rendezvous_anchor) at h))
        | inr (env, f) ↦ elim (Option-cases (json.envelope_to_string env)) [
          | inl g ↦ absurd (cc (rw (f, g, publish_local_rendezvous_anchor) at h))
          | inr (s, g) ↦ elim (Option-cases write_error) [
            | inr (e, w) ↦ absurd (cc (rw (f, g, w, publish_local_rendezvous_anchor) at h))
            | inl w ↦
                let left : some s ≡ after =
                  ap (λ x. x.1) (rw (f, g, w, publish_local_rendezvous_anchor) at h) in
                subst (λ t. query_local_rendezvous_anchor deps json other t ≡ some r) left
                  (rw
                    (
                      json.envelope-back env s g,
                      decrypt-encrypt_record nonce oma_id other r env bytes twelve same f,
                      query_local_rendezvous_anchor,
                    )
                    refl)
          ]
        ]
      ]

  -- A record that opens has the topic of the identifier, a nonce of twelve bytes, and a ciphertext
  -- that the cipher accepted under the key of the identifier.
  pub decrypt_rendezvous_record_sound :
      (oma_id : Text) (envelope : EncryptedRendezvousEnvelope) (r : RendezvousRecord)
      → decrypt_rendezvous_record deps json oma_id envelope ≡ ok r
      → (envelope.topic ≡ compute_rendezvous_topic deps oma_id)
        × ((nonce : List ℕ) × (ciphertext : List ℕ) × (plaintext : List ℕ) × (deps.hex_decode
                envelope.nonce
              ≡ some nonce)
            × (length nonce ≡ 12)
            × (deps.hex_decode envelope.ciphertext ≡ some ciphertext)
            × (deps.unseal (derive_rendezvous_key deps oma_id) nonce ciphertext ≡ some plaintext)
            × (json.record_from_slice plaintext ≡ some r))
  unfolding decrypt_rendezvous_record
  decrypt_rendezvous_record_sound oma_id envelope r h =
      elim (Bool-cases (text_eq envelope.topic (compute_rendezvous_topic deps oma_id))) [
        | inr t ↦ absurd (cc (rw (t, decrypt_rendezvous_record) at h))
        | inl t ↦ elim (Option-cases (deps.hex_decode envelope.nonce)) [
          | inl e ↦ absurd (cc (rw (t, e, decrypt_rendezvous_record) at h))
          | inr (nonce, e) ↦ elim (Bool-cases (length nonce == 12)) [
            | inr l ↦ absurd (cc (rw (t, e, l, decrypt_rendezvous_record) at h))
            | inl l ↦ elim (Option-cases (deps.hex_decode envelope.ciphertext)) [
              | inl f ↦ absurd (cc (rw (t, e, l, f, decrypt_rendezvous_record) at h))
              | inr (c, f) ↦
                  elim (Option-cases (deps.unseal (derive_rendezvous_key deps oma_id) nonce c)) [
                    | inl g ↦ absurd (cc (rw (t, e, l, f, g, decrypt_rendezvous_record) at h))
                    | inr (p, g) ↦ elim (Option-cases (json.record_from_slice p)) [
                      | inl k ↦ absurd (cc (rw (t, e, l, f, g, k, decrypt_rendezvous_record) at h))
                      | inr (r', k) ↦ (
                        (text_eq_iff envelope.topic (compute_rendezvous_topic deps oma_id)).0 t,
                        (
                          nonce,
                          c,
                          p,
                          e,
                          (==_iff (length nonce) 12).0 l,
                          f,
                          g,
                          k
                              ∙ ap some
                                  (ok_path (rw (t, e, l, f, g, k, decrypt_rendezvous_record) at h)),
                        ),
                      )
                    ]
                  ]
            ]
          ]
        ]
      ]
