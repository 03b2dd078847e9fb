-- ===== src/Http/Headers/Consumed.antt =====
-- What the header reader of src/main.rs returns, against the bytes that it has read from the stream.
use omarchy_omasend.Common.{
  ℕ, zero, suc, ◌+◌, ◌-◌, ◌≤◌, ◌<◌, ◌≡◌, refl, sym, ◌∙◌, ap, subst, true, false, List, [], ◌∷◌,
  ◌++◌, some, ltb, leb, ◌==◌, length, take, drop, min, length-append, length-take, take-append-drop,
  take_all, append-nil, append_assoc, arith, Bool-cases, Option-cases, inl, inr, ◌⊎◌,
}
use omarchy_omasend.Common.Text.{Text, codes, text_eq}
use omarchy_omasend.HttpBody.{got}
use omarchy_omasend.HttpBody.Received.{outcome_cases}
use omarchy_omasend.Http.{HttpRequest}
use omarchy_omasend.Http.Headers.{
  Deps, HttpHeaderResult, max_header_size, max_body_size, header_chunk, head_end, header_of,
  parse_usize, or_zero, content_length_of, parse_head, lines, finish, read_loop, read_http_headers,
}

some_path {ℓ} : {A : Type ℓ} {x y : A} → some x ≡ some y → x ≡ y
some_path {A} {x} {y} h = cc

module _ (deps : Deps) where
  open deps.bodies use {Stream, read}

  -- Reading from one state of the stream to another gives these bytes, one chunk after the other.
  pub data Reads : Stream → List ℕ → Stream → Type 0 where
    nothing : {s : Stream} → Reads s [] s
    chunk :
        {s t : Stream} {rest : List ℕ} (bs : List ℕ)
        → (read header_chunk s).0 ≡ got bs
        → Reads (read header_chunk s).1 rest t
        → Reads s (bs ++ rest) t

  -- The bytes that were read are the buffer and what did not fit into it; the head ends where the
  -- first empty line does, and everything that is returned is read off the buffer.
  pub record IsHead (s s' : Stream) (r : HttpHeaderResult) (buf lost : List ℕ) (pos : ℕ)
      : Type 0 where
    pub consumed : Reads s (buf ++ lost) s'
    pub bounded : length buf ≤ max_header_size
    pub nothing_lost : (lost ≡ []) ⊎ (length buf ≡ max_header_size)
    pub ends : head_end buf ≡ some pos
    pub parsed : parse_head deps (deps.from_utf8_lossy (take pos buf)) ≡ some r.req
    pub announced :
        content_length_of deps 0 (lines (deps.from_utf8_lossy (take pos buf)))
        ≡ some r.content_length
    pub body : r.initial_body ≡ drop (pos + 4) buf
    pub allowed : r.content_length ≤ max_body_size

  content_length_of-le :
      (ls : List Text) (n m : ℕ)
      → n ≤ max_body_size
      → content_length_of deps n ls ≡ some m
      → m ≤ max_body_size
  unfolding content_length_of
  content_length_of-le [] n m h e = subst (λ k. k ≤ max_body_size) (some_path e) h
  content_length_of-le (l ∷ ls) n m h e = elim (Option-cases (header_of deps l)) [
    | inl f ↦ content_length_of-le ls n m h (rw (f, content_length_of) at e)
    | inr ((k, v), f) ↦ elim (Bool-cases (text_eq k (codes "content-length"))) [
      | inr t ↦ content_length_of-le ls n m h (rw (f, t, content_length_of) at e)
      | inl t ↦ elim (Bool-cases (ltb max_body_size (or_zero (parse_usize v)))) [
        | inl large ↦ absurd (cc (rw (f, t, large, content_length_of) at e))
        | inr fits ↦
            content_length_of-le ls (or_zero (parse_usize v)) m (not_larger _ fits)
              (rw (f, t, fits, content_length_of) at e)
      ]
    ]
  ]
    where
      not_larger : (k : ℕ) → ltb max_body_size k ≡ false → k ≤ max_body_size
      not_larger k h = ground arith

  -- The loop from a buffer on: what it adds, and what it drops.
  pub data Ended (buf : List ℕ) (s s' : Stream) (r : HttpHeaderResult) : Type 0 where
    ended :
        (more lost : List ℕ) (pos : ℕ)
        → Reads s (more ++ lost) s'
        → length (buf ++ more) ≤ max_header_size
        → (lost ≡ []) ⊎ (length (buf ++ more) ≡ max_header_size)
        → head_end (buf ++ more) ≡ some pos
        → finish deps (buf ++ more) pos ≡ some r
        → Ended buf s s' r

  ended_now :
      (buf : List ℕ) (s : Stream) (r : HttpHeaderResult) (pos : ℕ)
      → length buf ≤ max_header_size
      → head_end buf ≡ some pos
      → finish deps buf pos ≡ some r
      → Ended buf s s r
  ended_now buf s r pos fits e f =
      let same : buf ≡ buf ++ [] = sym (append-nil buf) in
      ended [] [] pos nothing (subst (λ b. length b ≤ max_header_size) same fits) (inl refl)
        (subst (λ b. head_end b ≡ some pos) same e) (subst (λ b. finish deps b pos ≡ some r) same f)

  one_chunk :
      (s : Stream) (bs : List ℕ)
      → (read header_chunk s).0 ≡ got bs
      → Reads s bs (read header_chunk s).1
  one_chunk s bs e =
      subst (λ x. Reads s x (read header_chunk s).1) (append-nil bs) (chunk bs e nothing)

  full_buffer :
      (buf bs : List ℕ)
      → length buf ≤ max_header_size
      → ltb (min (length bs) (max_header_size - length buf)) (length bs) ≡ true
      → length (buf ++ take (min (length bs) (max_header_size - length buf)) bs) ≡ max_header_size
  full_buffer buf bs fits over =
      let taken = min (length bs) (max_header_size - length buf) in
      ground (arith, over, length-append buf (take taken bs), length-take taken bs)

  ended_full :
      (buf : List ℕ) (s : Stream) (r : HttpHeaderResult) (bs : List ℕ) (pos : ℕ)
      → length buf ≤ max_header_size
      → (read header_chunk s).0 ≡ got bs
      → ltb (min (length bs) (max_header_size - length buf)) (length bs) ≡ true
      → let whole = buf ++ take (min (length bs) (max_header_size - length buf)) bs in
        head_end whole ≡ some pos
        → finish deps whole pos ≡ some r
        → Ended buf s (read header_chunk s).1 r
  ended_full buf s r bs pos fits e over f g =
      let taken = min (length bs) (max_header_size - length buf) in
      let full = full_buffer buf bs fits over in
      ended (take taken bs) (drop taken bs) pos
        (subst (λ x. Reads s x (read header_chunk s).1) (sym (take-append-drop taken bs))
          (one_chunk s bs e))
        (omega (arith, full)) (inr full) f g

  not_over : (a b : ℕ) → ltb a b ≡ false → b ≤ a
  not_over a b h = ground arith

  still_fits :
      (buf bs : List ℕ)
      → leb max_header_size (length buf) ≡ false
      → length (buf ++ take (min (length bs) (max_header_size - length buf)) bs) ≤ max_header_size
  still_fits buf bs room =
      let taken = min (length bs) (max_header_size - length buf) in
      ground (arith, room, length-append buf (take taken bs), length-take taken bs)

  -- What is ended after a chunk is ended before it.
  extend :
      (buf t bs : List ℕ) (s s' : Stream) (r : HttpHeaderResult)
      → t ≡ bs
      → (read header_chunk s).0 ≡ got bs
      → Ended (buf ++ t) (read header_chunk s).1 s' r
      → Ended buf s s' r
  extend buf t bs s s' r same e (ended more lost pos reads fits kept f g) =
      let moved : (buf ++ t) ++ more ≡ buf ++ (t ++ more) = append_assoc buf t more in
      ended (t ++ more) lost pos
        (subst (λ x. Reads s x s')
          (ap (λ x. x ++ (more ++ lost)) (sym same) ∙ sym (append_assoc t more lost))
          (chunk bs e reads))
        (subst (λ b. length b ≤ max_header_size) moved fits)
        (subst (λ b. (lost ≡ []) ⊎ (length b ≡ max_header_size)) moved kept)
        (subst (λ b. head_end b ≡ some pos) moved f)
        (subst (λ b. finish deps b pos ≡ some r) moved g)

  read_loop-Ended :
      (rounds : ℕ) (buf : List ℕ) (s : Stream) (r : HttpHeaderResult)
      → length buf ≤ max_header_size
      → (read_loop deps rounds buf s).0 ≡ some r
      → Ended buf s (read_loop deps rounds buf s).1 r
  unfolding read_loop
  read_loop-Ended zero buf s r fits h = absurd (cc h)
  read_loop-Ended (suc rounds) buf s r fits h = elim (Option-cases (head_end buf)) [
    | inr (pos, e) ↦ rw (e, read_loop) (ended_now buf s r pos fits e (rw (e, read_loop) at h))
    | inl open_head ↦ elim (Bool-cases (leb max_header_size (length buf))) [
      | inl full ↦ absurd (cc (rw (open_head, full, read_loop) at h))
      | inr room ↦ elim (outcome_cases deps.bodies (read header_chunk s).0) [
        | inl e ↦ absurd (cc (rw (open_head, room, e, read_loop) at h))
        | inr (bs, e) ↦ elim (Bool-cases (length bs == 0)) [
          | inl at_end ↦ absurd (cc (rw (open_head, room, e, at_end, read_loop) at h))
          | inr some_bytes ↦
              let taken = min (length bs) (max_header_size - length buf) in
              elim (Bool-cases (ltb taken (length bs))) [
                | inl over ↦ elim (Option-cases (head_end (buf ++ take taken bs))) [
                  | inl f ↦
                      absurd (cc (rw (open_head, room, e, some_bytes, over, f, read_loop) at h))
                  | inr (pos, f) ↦
                      rw (open_head, room, e, some_bytes, over, read_loop)
                        (ended_full buf s r bs pos fits e over f
                          (rw (open_head, room, e, some_bytes, over, f, read_loop) at h))
                ]
                | inr whole ↦
                    let all_taken : take taken bs ≡ bs =
                      take_all taken bs (not_over taken (length bs) whole) in
                    rw (open_head, room, e, some_bytes, whole, read_loop)
                      (extend buf (take taken bs) bs s _ r all_taken e (
                        read_loop-Ended rounds (buf ++ take taken bs) (read header_chunk s).1 r
                          (still_fits buf bs room)
                          (rw (open_head, room, e, some_bytes, whole, read_loop) at h)))
              ]
        ]
      ]
    ]
  ]

  abbrev made : HttpRequest → ℕ → List ℕ → HttpHeaderResult
  made req n body = record { req = req; content_length = n; initial_body = body }

  finish-parts :
      (buf : List ℕ) (pos : ℕ) (r : HttpHeaderResult)
      → finish deps buf pos ≡ some r
      → (parse_head deps (deps.from_utf8_lossy (take pos buf)) ≡ some r.req)
        × (content_length_of deps 0 (lines (deps.from_utf8_lossy (take pos buf)))
            ≡ some r.content_length)
        × (r.initial_body ≡ drop (pos + 4) buf)
  unfolding finish
  finish-parts buf pos r h =
      let head = deps.from_utf8_lossy (take pos buf) in
      elim (Option-cases (content_length_of deps 0 (lines head))) [
        | inl e ↦ absurd (cc (rw (e, finish) at h))
        | inr (n, e) ↦ elim (Option-cases (parse_head deps head)) [
          | inl f ↦ absurd (cc (rw (e, f, finish) at h))
          | inr (req, f) ↦
              let same : made req n (drop (pos + 4) buf) ≡ r = some_path (rw (e, f, finish) at h) in
              (
                f ∙ ap (λ x. some x.req) same,
                e ∙ ap (λ x. some x.content_length) same,
                sym (ap (λ x. x.initial_body) same),
              )
        ]
      ]

  -- The head that is returned is read off a buffer of at most 64 KiB that holds the bytes read from
  -- the stream, up to what did not fit; nothing is left out unless the buffer is full. The head ends
  -- at the first empty line, the bytes after it are the beginning of the body, and the announced
  -- length, which is at most 100 MiB, is the last one among the lines.
  pub read_http_headers-IsHead :
      (s : Stream) (r : HttpHeaderResult)
      → (read_http_headers deps s).0 ≡ some r
      → (buf : List ℕ) × (lost : List ℕ) × (pos : ℕ) × IsHead s
          (read_http_headers deps s).1
          r
          buf
          lost
          pos
  unfolding read_http_headers
  read_http_headers-IsHead s r h =
      elim (read_loop-Ended (suc (suc max_header_size)) [] s r (omega arith) h) [
        | ended more lost pos reads fits kept f g ↦
            let (parsed, announced, body) = finish-parts more pos r g in
            (
              more,
              lost,
              pos,
              record {
                consumed = reads;
                bounded = fits;
                nothing_lost = kept;
                ends = f;
                parsed = parsed;
                announced = announced;
                body = body;
                allowed = content_length_of-le _ 0 r.content_length (omega arith) announced;
              },
            )
      ]

  got_some : (n : ℕ) → (n == 0) ≡ false → 1 ≤ n
  got_some n h = ground arith

  -- Each round that goes on has a longer buffer, so more rounds than there is room make no difference.
  read_loop_rounds :
      (j k : ℕ) (buf : List ℕ) (s : Stream)
      → max_header_size - length buf < j
      → max_header_size - length buf < k
      → read_loop deps j buf s ≡ read_loop deps k buf s
  unfolding read_loop
  read_loop_rounds zero k buf s p q = absurd (omega arith)
  read_loop_rounds (suc j) zero buf s p q = absurd (omega arith)
  read_loop_rounds (suc j) (suc k) buf s p q = elim (Option-cases (head_end buf)) [
    | inr (pos, e) ↦ rw (e, read_loop) refl
    | inl open_head ↦ elim (Bool-cases (leb max_header_size (length buf))) [
      | inl full ↦ rw (open_head, full, read_loop) refl
      | inr room ↦ elim (outcome_cases deps.bodies (read header_chunk s).0) [
        | inl e ↦ rw (open_head, room, e, read_loop) refl
        | inr (bs, e) ↦ elim (Bool-cases (length bs == 0)) [
          | inl at_end ↦ rw (open_head, room, e, at_end, read_loop) refl
          | inr some_bytes ↦
              let taken = min (length bs) (max_header_size - length buf) in
              elim (Bool-cases (ltb taken (length bs))) [
                | inl over ↦ rw (open_head, room, e, some_bytes, over, read_loop) refl
                | inr whole ↦
                    let longer = length-append buf (take taken bs) in
                    let size = length-take taken bs in
                    let some_read = got_some (length bs) some_bytes in
                    let there = not_over taken (length bs) whole in
                    let free = not_full (length buf) room in
                    rw (open_head, room, e, some_bytes, whole, read_loop)
                      (read_loop_rounds j k (buf ++ take taken bs) (read header_chunk s).1
                        (omega (arith, longer, size, some_read, there, free))
                        (omega (arith, longer, size, some_read, there, free)))
              ]
        ]
      ]
    ]
  ]
    where
      not_full : (n : ℕ) → leb max_header_size n ≡ false → n < max_header_size
      not_full n h = ground arith

  -- The loop is given enough rounds: with any greater number it returns the same.
  pub read_http_headers_rounds :
      (rounds : ℕ) (s : Stream)
      → max_header_size < rounds
      → read_loop deps rounds [] s ≡ read_http_headers deps s
  unfolding read_http_headers
  read_http_headers_rounds rounds s h =
      read_loop_rounds rounds (suc (suc max_header_size)) [] s (omega arith) (omega arith)
