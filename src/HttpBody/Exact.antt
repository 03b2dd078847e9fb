-- ===== src/HttpBody/Exact.antt =====
-- What `read_http_body` of src/main.rs returns and leaves.
use omarchy_omasend.Common.{
  ℕ, zero, suc, ◌+◌, ◌-◌, ◌≤◌, ◌≡◌, refl, ap, sym, ◌∙◌, subst, Bool, true, false, not, List, [],
  ◌++◌, Option, none, some, ltb, leb, ◌==◌, if◌then◌else◌, length, length-append, length-take, take,
  min, ◌⊎◌, inl, inr, arith, Bool-cases, Option-cases,
}
use omarchy_omasend.Staging.Budget.{
  release, max_aggregate_staging_bytes, try_reserve_cases, release-back,
}
use omarchy_omasend.HttpBody.Received.{
  outcome_cases, nothing, Extends, fill-Extends, fill_file-Extends,
}
use omarchy_omasend.HttpBody.{
  Deps, Files, HttpBody, memory, staged, World, fill, fill_file, give_up, read_staged, read_memory,
  read_http_body, in_memory_body_limit, memory_chunk, stream_chunk,
}

module _ (deps : Deps) where
  open deps use {Stream, read}

  -- The loop never takes more bytes than remain.
  fill_bound :
      (rounds remaining : ℕ) (body out : List ℕ) (s : Stream)
      → (fill deps rounds remaining body s).0 ≡ some out
      → length out ≤ length body + remaining
  unfolding fill
  fill_bound zero remaining body out s h = ground arith
  fill_bound (suc rounds) remaining body out s h = elim (Bool-cases (remaining == 0)) [
    | inl done ↦ ground (arith, done)
    | inr more ↦ elim (outcome_cases deps (read (min remaining memory_chunk) s).0) [
      | inl e ↦ absurd (ground (arith, more, e))
      | inr (bs, e) ↦
          let fits = deps.read_fits (min remaining memory_chunk) s bs e in
          ground (
            arith,
            more,
            e,
            length-append body bs,
            fits,
            fill_bound rounds (remaining - length bs) (body ++ bs) out
                (read (min remaining memory_chunk) s).1,
          )
    ]
  ]

  -- With as many rounds as bytes remain, the loop that writes ends with exactly the bytes that
  -- were missing.
  fill_file_exact :
      (writes : ℕ → Bool) (rounds remaining count : ℕ) (content out : List ℕ) (s : Stream)
      → remaining ≤ rounds
      → (fill_file deps writes rounds remaining count content s).0 ≡ some out
      → length out ≡ length content + remaining
  unfolding fill_file
  fill_file_exact writes zero remaining count content out s enough h = ground arith
  fill_file_exact writes (suc rounds) remaining count content out s enough h =
      elim (Bool-cases (remaining == 0)) [
        | inl done ↦ ground (arith, done)
        | inr more ↦ elim (outcome_cases deps (read (min remaining stream_chunk) s).0) [
          | inl e ↦ absurd (ground (arith, more, e))
          | inr (bs, e) ↦
              let fits = deps.read_fits (min remaining stream_chunk) s bs e in
              ground (
                arith,
                more,
                e,
                length-append content bs,
                fits,
                fill_file_exact writes rounds (remaining - length bs) (suc count) (content ++ bs)
                    out (read (min remaining stream_chunk) s).1,
              )
        ]
      ]

  -- The bytes are the first `n` that came: those with the headers, as far as the body goes, and then
  -- what was received from the stream, in that order.
  pub record IsSent (n : ℕ) (initial : List ℕ) (before after : World deps) (bytes : List ℕ)
      : Type 0 where
    pub size : length bytes ≡ n
    pub content : Extends deps (take n initial) bytes before.stream after.stream

  -- The body is the one that was sent: in memory, or staged in a file that holds it, so that its
  -- bytes are reserved and counted and the digests are those of the file.
  abbrev pub IsExact : HttpBody → ℕ → List ℕ → World deps → World deps → Type 0
  IsExact (memory bs) n initial before after =
      IsSent n initial before after bs
      × (after.staged_bytes ≡ before.staged_bytes)
      × (after.file ≡ before.file)
  IsExact (staged total_written reserved blake3 sha256 md5) n initial before after =
      (bytes : List ℕ) × (after.file ≡ some bytes)
      × IsSent n initial before after bytes
      × (total_written ≡ n)
      × (reserved ≡ n)
      × (after.staged_bytes ≡ before.staged_bytes + n)
      × (blake3 ≡ deps.blake3 bytes)
      × (sha256 ≡ deps.sha256 bytes)
      × (md5 ≡ deps.md5 bytes)

  read_memory-IsExact :
      (n : ℕ) (initial : List ℕ) (w : World deps) (body : HttpBody)
      → (read_memory deps n initial w).0 ≡ some body
      → IsExact body n initial w (read_memory deps n initial w).1
  unfolding read_memory
  read_memory-IsExact n initial w body h =
      let head = take n initial in
      elim (Option-cases (fill deps n (n - length head) head w.stream).0) [
        | inl e ↦ absurd (ground (arith, e))
        | inr (bytes, e) ↦ elim (Bool-cases (ltb (length bytes) n)) [
          | inl short ↦ absurd (ground (arith, e, short))
          | inr full ↦
              let bound = fill_bound n (n - length head) head bytes w.stream e in
              let size : length bytes ≡ n = ground (arith, bound, full, length-take n initial) in
              let same : body ≡ memory bytes = ground (arith, e, full, h) in
              subst (λ b. IsExact b n initial w (read_memory deps n initial w).1) (sym same)
                (
                  record {
                    size = size;
                    content =
                        rw (e, full, read_memory)
                          (fill-Extends deps n (n - length head) head bytes w.stream e);
                  },
                  ground (arith, e, full),
                  ground (arith, e, full),
                )
        ]
      ]

  empty_body :
      (n : ℕ) (initial : List ℕ) (w : World deps) → (n == 0) ≡ true → IsSent n initial w w []
  empty_body zero initial w h = record { size = refl; content = ([], refl, nothing) }
  empty_body (suc n) initial w h = absurd (ground (arith, h))

  -- The two ends of a staged read: nothing is left of it, or the body is the announced one.
  pub data Ended (n : ℕ) (initial : List ℕ) (w : World deps) (r : Option HttpBody × World deps)
      : Type 0 where
    undone :
        r.0 ≡ none
        → r.1.staged_bytes ≡ w.staged_bytes
        → (r.1.file ≡ none) ⊎ (r.1.file ≡ w.file)
        → Ended n initial w r
    done : (body : HttpBody) → r.0 ≡ some body → IsExact body n initial w r.1 → Ended n initial w r

  give_up-Ended :
      (n : ℕ) (initial : List ℕ) (w held : World deps) (r : Option HttpBody × World deps)
      → held.staged_bytes ≡ w.staged_bytes + n
      → w.staged_bytes + n ≤ max_aggregate_staging_bytes
      → r ≡ (none, give_up deps n held)
      → Ended n initial w r
  unfolding give_up
  give_up-Ended n initial w held r e small h =
      undone (ap (λ t. t.0) h)
        (ap (λ t. t.1.staged_bytes) h
          ∙ (ap (λ c. (release n c).1) e ∙ release-back n w.staged_bytes small))
        (inl (ap (λ t. t.1.file) h))

  read_staged-Ended :
      (files : Files) (n : ℕ) (initial : List ℕ) (w : World deps)
      → Ended n initial w (read_staged deps files n initial w)
  unfolding read_staged
  read_staged-Ended files n initial w = elim (try_reserve_cases n w.staged_bytes files.avail) [
    | inl (e, r) ↦ undone (ground (arith, r)) (ground (arith, r)) (inr (ground (arith, r)))
    | inr (r, small) ↦
        let held : World deps = record w { staged_bytes = w.staged_bytes + n } in
        let head = take n initial in
        elim (Bool-cases files.opens) [
          | inr t ↦
              give_up-Ended n initial w held (read_staged deps files n initial w) refl small
                (ground (arith, r, t))
          | inl t ↦ elim (Bool-cases (files.writes 0)) [
            | inr t2 ↦
                give_up-Ended n initial w held (read_staged deps files n initial w) refl small
                  (ground (arith, r, t, t2))
            | inl t2 ↦
                let tail = fill_file deps files.writes n (n - length head) 1 head w.stream in
                let held' : World deps = record held { stream = tail.1 } in
                elim (Option-cases tail.0) [
                  | inl e ↦
                      give_up-Ended n initial w held' (read_staged deps files n initial w) refl
                        small (ground (arith, r, t, t2, e))
                  | inr (bytes, e) ↦ elim (Bool-cases files.flushes) [
                    | inr t3 ↦
                        give_up-Ended n initial w held' (read_staged deps files n initial w) refl
                          small (ground (arith, r, t, t2, e, t3))
                    | inl t3 ↦
                        let size =
                          fill_file_exact files.writes n (n - length head) 1 head bytes w.stream
                            (omega arith) e in
                        let full : length bytes ≡ n = ground (arith, size, length-take n initial) in
                        let ends : read_staged deps files n initial w ≡ (
                          some (
                              staged (length bytes) n (deps.blake3 bytes) (deps.sha256 bytes)
                                (deps.md5 bytes)),
                          record held' { file = some bytes },
                        ) =
                          ground (arith, r, t, t2, e, t3) in
                        done _ (ap (λ x. x.0) ends) (
                          bytes,
                          ap (λ x. x.1.file) ends,
                          record {
                            size = full;
                            content =
                                subst (λ v. Extends deps head bytes w.stream v.stream)
                                  {x = record held' { file = some bytes }}
                                  (sym (ap (λ x. x.1) ends))
                                  (fill_file-Extends deps files.writes n (n - length head) 1 head
                                    bytes w.stream e);
                          },
                          full,
                          refl,
                          ap (λ x. x.1.staged_bytes) ends,
                          refl,
                          refl,
                          refl,
                        )
                  ]
                ]
          ]
        ]
  ]

  read_memory-none :
      (n : ℕ) (initial : List ℕ) (w : World deps)
      → ((read_memory deps n initial w).1.staged_bytes ≡ w.staged_bytes)
        × ((read_memory deps n initial w).1.file ≡ w.file)
  unfolding read_memory
  read_memory-none n initial w =
      let head = take n initial in
      elim (Option-cases (fill deps n (n - length head) head w.stream).0) [
        | inl e ↦ (ground (arith, e), ground (arith, e))
        | inr (bytes, e) ↦ (ground (arith, e), ground (arith, e))
      ]

  read_memory-Ended :
      (n : ℕ) (initial : List ℕ) (w : World deps) → Ended n initial w (read_memory deps n initial w)
  read_memory-Ended n initial w = elim (Option-cases (read_memory deps n initial w).0) [
    | inl e ↦ undone e (read_memory-none n initial w).0 (inr (read_memory-none n initial w).1)
    | inr (body, e) ↦ done body e (read_memory-IsExact n initial w body e)
  ]

  pub read_http_body-Ended :
      (files : Files) (n : ℕ) (initial : List ℕ) (staging_allowed : Bool) (limit : ℕ)
      (w : World deps)
      → Ended n initial w (read_http_body deps files n initial staging_allowed limit w)
  unfolding read_http_body
  read_http_body-Ended files n initial staging_allowed limit w =
      if_Ended (ltb limit n) (λ t. undone refl refl (inr refl))
        (λ u.
          if_Ended (n == 0) (λ t. done (memory []) refl (empty_body (n) initial w t, refl, refl))
            (λ v.
              if_Ended (leb n in_memory_body_limit) (λ t. read_memory-Ended n initial w)
                (λ x.
                  if_Ended (not staging_allowed) (λ t. undone refl refl (inr refl))
                    (λ y. read_staged-Ended files n initial w))))
    where
      if_Ended :
          (b : Bool) {r s : Option HttpBody × World deps}
          → (b ≡ true → Ended n initial w r)
          → (b ≡ false → Ended n initial w s)
          → Ended n initial w (if b then r else s)
      if_Ended true f g = f refl
      if_Ended false f g = g refl

  -- A body that is returned is the one that was sent: the limit allows it, it has the announced
  -- length, and it is what came with the headers followed by what was received from the stream, in
  -- order; staged, it is what the file holds, it is reserved and counted, and its digests are returned.
  pub read_http_body-IsExact :
      (files : Files) (content_length : ℕ) (initial : List ℕ) (staging_allowed : Bool) (limit : ℕ)
      (w : World deps) (body : HttpBody)
      → (read_http_body deps files content_length initial staging_allowed limit w).0 ≡ some body
      → (content_length ≤ limit)
        × IsExact body content_length initial w
            (read_http_body deps files content_length initial staging_allowed limit w).1
  read_http_body-IsExact files n initial staging_allowed limit w body h =
      elim (read_http_body-Ended files n initial staging_allowed limit w) [
        | undone e c f ↦ absurd (cc (e, h))
        | done body' e exact ↦ (
          unfold read_http_body in ground (arith, h),
          subst
              (λ b.
                IsExact b n initial w
                  (read_http_body deps files n initial staging_allowed limit w).1)
              (cc (e, h)) exact,
        )
      ]

  -- A body that is not returned leaves nothing: the counter of staged bytes is as before, and the
  -- staging file, if one was made, is removed.
  pub read_http_body-undone :
      (files : Files) (content_length : ℕ) (initial : List ℕ) (staging_allowed : Bool) (limit : ℕ)
      (w : World deps)
      → (read_http_body deps files content_length initial staging_allowed limit w).0 ≡ none
      → w.file ≡ none
      → ((read_http_body deps files content_length initial staging_allowed limit w).1.staged_bytes
          ≡ w.staged_bytes)
        × ((read_http_body deps files content_length initial staging_allowed limit w).1.file ≡ none)
  read_http_body-undone files n initial staging_allowed limit w h clean =
      elim (read_http_body-Ended files n initial staging_allowed limit w) [
        | undone e c f ↦ (c, elim f [ inl gone ↦ gone | inr same ↦ same ∙ clean ])
        | done body e exact ↦ absurd (cc (e, h))
      ]

  -- The loop in memory takes no more rounds than bytes remain: given that many or more, its answer
  -- does not depend on how many it is given.
  pub fill_rounds :
      (j k remaining : ℕ) (body : List ℕ) (s : Stream)
      → remaining ≤ j
      → remaining ≤ k
      → fill deps j remaining body s ≡ fill deps k remaining body s
  unfolding fill
  fill_rounds zero zero remaining body s p q = refl
  fill_rounds zero (suc k) remaining body s p q = ground arith
  fill_rounds (suc j) zero remaining body s p q = ground arith
  fill_rounds (suc j) (suc k) remaining body s p q = elim (Bool-cases (remaining == 0)) [
    | inl t ↦ ground (arith, t)
    | inr more ↦ elim (outcome_cases deps (read (min remaining memory_chunk) s).0) [
      | inl e ↦ ground (arith, more, e)
      | inr (bs, e) ↦ elim (Bool-cases (length bs == 0)) [
        | inl t ↦ ground (arith, more, e, t)
        | inr some_bytes ↦ ground (
          arith,
          more,
          e,
          some_bytes,
          fill_rounds j k (remaining - length bs) (body ++ bs)
              (read (min remaining memory_chunk) s).1,
        )
      ]
    ]
  ]
