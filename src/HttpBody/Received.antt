-- ===== src/HttpBody/Received.antt =====
-- What the two loops of `read_http_body` in src/main.rs add to what came with the headers.
use omarchy_omasend.Common.{
  ℕ, zero, suc, ◌-◌, ◌≡◌, refl, ap, sym, ◌∙◌, Bool, true, List, [], ◌∷◌, ◌++◌, some, ◌==◌, length,
  append-nil, append_assoc, min, ◌⊎◌, inl, inr, arith, Bool-cases,
}
use omarchy_omasend.HttpBody.{
  Deps, ReadOutcome, failed, got, fill, fill_file, memory_chunk, stream_chunk,
}

pub some_path : {x y : List ℕ} → some x ≡ some y → x ≡ y
some_path {x} {y} h = cc

empty_of : (bs : List ℕ) → (length bs == 0) ≡ true → bs ≡ []
empty_of [] h = refl
empty_of (b ∷ bs) h = absurd (ground (arith, h))

module _ (deps : Deps) where
  open deps use {Stream, read}

  pub outcome_cases : (o : ReadOutcome) → (o ≡ failed) ⊎ ((bs : List ℕ) × (o ≡ got bs))
  outcome_cases failed = inl refl
  outcome_cases (got bs) = inr (bs, refl)

  -- Reading some times from `s` gives these bytes, one chunk after the other, and leaves the stream at
  -- the last place.
  pub data Received : Stream → List ℕ → Stream → Type 0 where
    nothing : {s : Stream} → Received s [] s
    chunk :
        {s t : Stream} {rest : List ℕ} (cap : ℕ) (bs : List ℕ)
        → (read cap s).0 ≡ got bs
        → Received (read cap s).1 rest t
        → Received s (bs ++ rest) t

  -- `out` is `head` and then what was received.
  abbrev pub Extends : List ℕ → List ℕ → Stream → Stream → Type 0
  Extends head out s t = (more : List ℕ) × (out ≡ head ++ more) × Received s more t

  extends_none : (head out : List ℕ) (s : Stream) → head ≡ out → Extends head out s s
  extends_none head out s h = ([], sym h ∙ sym (append-nil head), nothing)

  extends_more :
      (head out bs : List ℕ) (cap : ℕ) (s t : Stream)
      → (read cap s).0 ≡ got bs
      → Extends (head ++ bs) out (read cap s).1 t
      → Extends head out s t
  extends_more head out bs cap s t e (more, h, r) =
      (bs ++ more, h ∙ append_assoc head bs more, chunk cap bs e r)

  pub fill-Extends :
      (rounds remaining : ℕ) (body out : List ℕ) (s : Stream)
      → (fill deps rounds remaining body s).0 ≡ some out
      → Extends body out s (fill deps rounds remaining body s).1
  unfolding fill
  fill-Extends zero remaining body out s h = extends_none body out s (some_path h)
  fill-Extends (suc rounds) remaining body out s h = elim (Bool-cases (remaining == 0)) [
    | inl done ↦ rw (done, fill) (extends_none body out s (some_path (rw (done, fill) at h)))
    | inr more ↦ elim (outcome_cases (read (min remaining memory_chunk) s).0) [
      | inl e ↦ absurd (cc (rw (more, e, fill) at h))
      | inr (bs, e) ↦ elim (Bool-cases (length bs == 0)) [
        | inl t ↦
            rw (more, e, t, fill)
              (extends_more body out bs (min remaining memory_chunk) s _ e (
                extends_none (body ++ bs) out (read (min remaining memory_chunk) s).1 (
                  ap (λ x. body ++ x) (empty_of bs t)
                  ∙ (append-nil body ∙ some_path (rw (more, e, t, fill) at h)))))
        | inr some_bytes ↦
            rw (more, e, some_bytes, fill)
              (extends_more body out bs (min remaining memory_chunk) s _ e (
                fill-Extends rounds (remaining - length bs) (body ++ bs) out
                  (read (min remaining memory_chunk) s).1 (rw (more, e, some_bytes, fill) at h)))
      ]
    ]
  ]

  pub fill_file-Extends :
      (writes : ℕ → Bool) (rounds remaining count : ℕ) (content out : List ℕ) (s : Stream)
      → (fill_file deps writes rounds remaining count content s).0 ≡ some out
      → Extends content out s (fill_file deps writes rounds remaining count content s).1
  unfolding fill_file
  fill_file-Extends writes zero remaining count content out s h =
      extends_none content out s (some_path h)
  fill_file-Extends writes (suc rounds) remaining count content out s h =
      elim (Bool-cases (remaining == 0)) [
        | inl done ↦
            rw (done, fill_file)
              (extends_none content out s (some_path (rw (done, fill_file) at h)))
        | inr more ↦ elim (outcome_cases (read (min remaining stream_chunk) s).0) [
          | inl e ↦ absurd (cc (rw (more, e, fill_file) at h))
          | inr (bs, e) ↦ elim (Bool-cases (length bs == 0)) [
            | inl t ↦ absurd (cc (rw (more, e, t, fill_file) at h))
            | inr some_bytes ↦ elim (Bool-cases (writes count)) [
              | inr fails ↦ absurd (cc (rw (more, e, some_bytes, fails, fill_file) at h))
              | inl written ↦
                  rw (more, e, some_bytes, written, fill_file)
                    (extends_more content out bs (min remaining stream_chunk) s _ e (
                      fill_file-Extends writes rounds (remaining - length bs) (suc count)
                        (content ++ bs) out (read (min remaining stream_chunk) s).1
                        (rw (more, e, some_bytes, written, fill_file) at h)))
            ]
          ]
        ]
      ]
