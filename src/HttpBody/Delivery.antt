-- ===== src/HttpBody/Delivery.antt =====
-- Bodies of src/main.rs whose bytes all arrive: `read_http_body` then returns them.
use omarchy_omasend.Common.{
  ℕ, zero, suc, ◌-◌, ◌≤◌, ◌≡◌, refl, ap, sym, ◌∙◌, Bool, true, false, List, [], ◌∷◌, ◌++◌, Option,
  some, ltb, leb, ◌==◌, length, length-append, append-nil, append_assoc, take_all, ◌<◌, min, inl,
  inr, arith, Bool-cases,
}
use omarchy_omasend.Staging.Budget.{try_reserve}
use omarchy_omasend.HttpBody.{
  Deps, got, Files, HttpBody, memory, staged, World, fill, fill_file, read_staged, read_memory,
  read_http_body, in_memory_body_limit, memory_chunk, stream_chunk,
}

-- The file system takes every write of the staging file.
pub record IsWilling (files : Files) : Type 0 where
  pub opens : files.opens ≡ true
  pub writes : (n : ℕ) → files.writes n ≡ true
  pub flushes : files.flushes ≡ true

not_less : (a b : ℕ) → b ≤ a → ltb a b ≡ false
not_less a b h = ground arith

at_most : (a b : ℕ) → a ≤ b → leb a b ≡ true
at_most a b h = ground arith

not_zero : (n : ℕ) → 1 ≤ n → (n == 0) ≡ false
not_zero n h = ground arith

nil_of : (bs : List ℕ) → length bs ≡ 0 → bs ≡ []
nil_of [] h = refl
nil_of (b ∷ bs) h = absurd (cc h)

module _ (deps : Deps) where
  open deps use {Stream, read}

  -- However many bytes are asked for, the stream gives some, in their order, until it gave them all.
  pub data Delivers : Stream → List ℕ → Type 0 where
    ended : {s : Stream} → Delivers s []
    more :
        {s : Stream} {bs : List ℕ} (chunk rest : ℕ → List ℕ)
        → ((cap : ℕ) → 1 ≤ cap → (read cap s).0 ≡ got (chunk cap))
        → ((cap : ℕ) → 1 ≤ cap → 1 ≤ length (chunk cap))
        → ((cap : ℕ) → 1 ≤ cap → bs ≡ chunk cap ++ rest cap)
        → ((cap : ℕ) → 1 ≤ cap → Delivers (read cap s).1 (rest cap))
        → Delivers s bs

  fill-Delivers :
      (rounds remaining : ℕ) (body bs : List ℕ) (s : Stream)
      → Delivers s bs
      → length bs ≡ remaining
      → remaining ≤ rounds
      → (fill deps rounds remaining body s).0 ≡ some (body ++ bs)
  unfolding fill
  fill-Delivers zero remaining body bs s d size enough =
      rw (nil_of bs (omega (arith, size, enough)), append-nil body) refl
  fill-Delivers (suc rounds) remaining body bs s ended size enough =
      rw (← size, append-nil body) refl
  fill-Delivers (suc rounds) remaining body bs s (more chunk rest gives some_bytes split later) size
        enough =
      elim (Bool-cases (remaining == 0)) [
        | inl done ↦
            rw (done, fill)
              (ap some (
                sym (append-nil body)
                ∙ ap (λ x. body ++ x) (sym (nil_of bs (ground (arith, done, size))))))
        | inr left ↦
            let cap = min remaining memory_chunk in
            let asked : 1 ≤ cap = ground (arith, left) in
            let sizes = length-append (chunk cap) (rest cap) in
            let total = ap length (split cap asked) in
            rw (left, gives cap asked, not_zero (length (chunk cap)) (some_bytes cap asked), fill)
              (fill-Delivers rounds (remaining - length (chunk cap)) (body ++ chunk cap) (rest cap)
                  (read cap s).1 (later cap asked) (omega (arith, sizes, total, size))
                  (omega (arith, enough, some_bytes cap asked))
                ∙ ap some (
                    append_assoc body (chunk cap) (rest cap)
                    ∙ ap (λ x. body ++ x) (sym (split cap asked))))
      ]

  fill_file-Delivers :
      (writes : ℕ → Bool) (rounds remaining count : ℕ) (body bs : List ℕ) (s : Stream)
      → ((n : ℕ) → writes n ≡ true)
      → Delivers s bs
      → length bs ≡ remaining
      → remaining ≤ rounds
      → (fill_file deps writes rounds remaining count body s).0 ≡ some (body ++ bs)
  unfolding fill_file
  fill_file-Delivers writes zero remaining count body bs s ok d size enough =
      rw (nil_of bs (omega (arith, size, enough)), append-nil body) refl
  fill_file-Delivers writes (suc rounds) remaining count body bs s ok ended size enough =
      rw (← size, append-nil body) refl
  fill_file-Delivers writes (suc rounds) remaining count body bs s ok
        (more chunk rest gives some_bytes split later) size enough =
      elim (Bool-cases (remaining == 0)) [
        | inl done ↦
            rw (done, fill_file)
              (ap some (
                sym (append-nil body)
                ∙ ap (λ x. body ++ x) (sym (nil_of bs (ground (arith, done, size))))))
        | inr left ↦
            let cap = min remaining stream_chunk in
            let asked : 1 ≤ cap = ground (arith, left) in
            let sizes = length-append (chunk cap) (rest cap) in
            let total = ap length (split cap asked) in
            rw
              (
                left,
                gives cap asked,
                not_zero (length (chunk cap)) (some_bytes cap asked),
                ok count,
                fill_file,
              )
              (fill_file-Delivers writes rounds (remaining - length (chunk cap)) (suc count)
                  (body ++ chunk cap) (rest cap) (read cap s).1 ok (later cap asked)
                  (omega (arith, sizes, total, size)) (omega (arith, enough, some_bytes cap asked))
                ∙ ap some (
                    append_assoc body (chunk cap) (rest cap)
                    ∙ ap (λ x. body ++ x) (sym (split cap asked))))
      ]

  -- The body holds these bytes.
  abbrev pub Holds : HttpBody → World deps → List ℕ → Type 0
  Holds (memory b) w bytes = b ≡ bytes
  Holds (staged total_written reserved b s m) w bytes =
      (w.file ≡ some bytes) × (total_written ≡ length bytes)

  pub data Arrives (bytes : List ℕ) (r : Option HttpBody × World deps) : Type 0 where
    arrives : (body : HttpBody) → r.0 ≡ some body → Holds body r.1 bytes → Arrives bytes r

  read_memory-Delivers :
      (initial rest : List ℕ) (w : World deps)
      → Delivers w.stream rest
      → Arrives (initial ++ rest) (read_memory deps (length (initial ++ rest)) initial w)
  unfolding read_memory
  read_memory-Delivers initial rest w d =
      let n = length (initial ++ rest) in
      let sizes = length-append initial rest in
      let whole = take_all n initial (omega (arith, sizes)) in
      let filled =
        fill-Delivers n (n - length initial) initial rest w.stream d (omega (arith, sizes))
          (omega arith) in
      arrives (memory (initial ++ rest))
        (rw (whole, filled, not_less (length (initial ++ rest)) n (omega arith), read_memory) refl)
        refl

  read_staged-Delivers :
      (files : Files) (initial rest : List ℕ) (w : World deps)
      → IsWilling files
      → (try_reserve (length (initial ++ rest)) files.avail w.staged_bytes).0
        ≡ inr (length (initial ++ rest))
      → Delivers w.stream rest
      → Arrives (initial ++ rest) (read_staged deps files (length (initial ++ rest)) initial w)
  unfolding read_staged
  read_staged-Delivers files initial rest w ok room d =
      let n = length (initial ++ rest) in
      let sizes = length-append initial rest in
      let whole = take_all n initial (omega (arith, sizes)) in
      let filled =
        fill_file-Delivers files.writes n (n - length initial) 1 initial rest w.stream ok.writes d
          (omega (arith, sizes)) (omega arith) in
      arrives
        (staged (length (initial ++ rest)) n (deps.blake3 (initial ++ rest))
          (deps.sha256 (initial ++ rest)) (deps.md5 (initial ++ rest)))
        (rw (room, ok.opens, ok.writes 0, whole, filled, ok.flushes, read_staged) refl)
        (rw (room, ok.opens, ok.writes 0, whole, filled, ok.flushes, read_staged) (refl, refl))

  -- A body within the limit whose bytes all arrive is read, whatever pieces they come in, and is those
  -- bytes: up to one mebibyte in memory, and beyond it if staging is allowed, has room and takes every
  -- write.
  pub read_http_body-Delivers :
      (files : Files) (initial rest : List ℕ) (staging_allowed : Bool) (limit : ℕ) (w : World deps)
      → Delivers w.stream rest
      → length (initial ++ rest) ≤ limit
      → (in_memory_body_limit < length (initial ++ rest)
          → (staging_allowed ≡ true)
            × IsWilling files
            × ((try_reserve (length (initial ++ rest)) files.avail w.staged_bytes).0
                ≡ inr (length (initial ++ rest))))
      → Arrives
          (initial ++ rest)
          (read_http_body deps files (length (initial ++ rest)) initial staging_allowed limit w)
  unfolding read_http_body
  read_http_body-Delivers files initial rest staging_allowed limit w d allowed stage =
      let n = length (initial ++ rest) in
      elim (Bool-cases (n == 0)) [
        | inl nothing ↦
            rw (not_less limit n allowed, nothing, read_http_body)
              (arrives (memory []) refl (sym (nil_of (initial ++ rest) (ground (arith, nothing)))))
        | inr some_bytes ↦ elim (Bool-cases (leb n in_memory_body_limit)) [
          | inl short ↦
              rw (not_less limit n allowed, some_bytes, short, read_http_body)
                (read_memory-Delivers initial rest w d)
          | inr long ↦
              let (staging, ok, room) = stage (ground (arith, long)) in
              rw (not_less limit n allowed, some_bytes, long, staging, read_http_body)
                (read_staged-Delivers files initial rest w ok room d)
        ]
      ]

  -- A body of at most one mebibyte whose bytes all arrive is read into memory.
  pub read_http_body-short :
      (files : Files) (initial rest : List ℕ) (staging_allowed : Bool) (limit : ℕ) (w : World deps)
      → Delivers w.stream rest
      → length (initial ++ rest) ≤ limit
      → length (initial ++ rest) ≤ in_memory_body_limit
      → (read_http_body deps files (length (initial ++ rest)) initial staging_allowed limit w).0
        ≡ some (memory (initial ++ rest))
  unfolding read_http_body read_memory
  read_http_body-short files initial rest staging_allowed limit w d allowed short =
      let n = length (initial ++ rest) in
      let sizes = length-append initial rest in
      let whole = take_all n initial (omega (arith, sizes)) in
      let filled =
        fill-Delivers n (n - length initial) initial rest w.stream d (omega (arith, sizes))
          (omega arith) in
      elim (Bool-cases (n == 0)) [
        | inl nothing ↦
            rw (not_less limit n allowed, nothing, read_http_body)
              (ap (λ bs. some (memory bs))
                (sym (nil_of (initial ++ rest) (ground (arith, nothing)))))
        | inr some_bytes ↦
            rw
              (
                not_less limit n allowed,
                some_bytes,
                at_most n in_memory_body_limit short,
                whole,
                filled,
                not_less n n (omega arith),
                read_http_body,
                read_memory,
              )
              refl
      ]
