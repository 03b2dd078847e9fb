-- ===== src/HttpBody.antt =====
-- `read_http_body` of src/main.rs: a body of the announced length, kept in memory or staged in a
-- file. The stream, the file system's answers and the digests are parameters.
pub mod Received
pub mod Exact
pub mod Delivery
pub mod Tests
use omarchy_omasend.Common.{
  ℕ, zero, suc, ◌+◌, ◌-◌, ◌*◌, ◌≤◌, ◌≡◌, Bool, true, false, not, List, [], ◌∷◌, ◌++◌, Option, none,
  some, ltb, leb, ◌==◌, if◌then◌else◌, length, take, min, ◌⊎◌, inl, inr,
}
use omarchy_omasend.Common.Text.{Text}
use omarchy_omasend.Staging.Budget.{try_reserve, release}

abbrev pub in_memory_body_limit : ℕ
in_memory_body_limit = 1024 * 1024

abbrev pub memory_chunk : ℕ
memory_chunk = 8192

abbrev pub stream_chunk : ℕ
stream_chunk = 131072

-- `read_stream_chunk_with_deadline`: an error, or the bytes read; no bytes mean the end.
pub data ReadOutcome : Type 0 where
  failed : ReadOutcome
  got : List ℕ → ReadOutcome

-- A stream that gives at most the bytes that were asked for, and the three digests.
pub record Deps : Type 1 where
  pub Stream : Type 0
  pub read : ℕ → Stream → ReadOutcome × Stream
  pub read_fits : (cap : ℕ) (s : Stream) (bs : List ℕ) → (read cap s).0 ≡ got bs → length bs ≤ cap
  pub blake3 : List ℕ → Text
  pub sha256 : List ℕ → Text
  pub md5 : List ℕ → Text

-- What the file system answers: the free space, whether the file opens, whether the n-th write
-- succeeds, whether the flush does.
pub record Files : Type 0 where
  pub avail : Option ℕ
  pub opens : Bool
  pub writes : ℕ → Bool
  pub flushes : Bool

-- `HttpBody`, with the fields of `StagedFile` that stay.
pub data HttpBody : Type 0 where
  memory : List ℕ → HttpBody
  staged : (total_written reserved : ℕ) → (blake3 sha256 md5 : Text) → HttpBody

module _ (deps : Deps) where
  open deps use {Stream, read}

  -- What a call changes: the stream, the counter of staged bytes, and the staging file.
  pub record World : Type 0 where
    pub stream : Stream
    pub staged_bytes : ℕ
    pub file : Option (List ℕ)

  -- The loop in memory; each round lowers `remaining`, so that many rounds are enough.
  unfoldable pub fill : ℕ → ℕ → List ℕ → Stream → Option (List ℕ) × Stream
  fill zero remaining body s = (some body, s)
  fill (suc rounds) remaining body s =
      if remaining == 0
      then (some body, s)
      else (let (outcome, s') = read (min remaining memory_chunk) s in
          elim outcome [
            | failed ↦ (none, s')
            | got bs ↦
                if length bs == 0
                then (some body, s')
                else fill rounds (remaining - length bs) (body ++ bs) s'
          ])

  -- The loop that writes to the staging file; `count` numbers the writes.
  unfoldable pub fill_file : (ℕ → Bool) → ℕ → ℕ → ℕ → List ℕ → Stream → Option (List ℕ) × Stream
  fill_file writes zero remaining count content s = (some content, s)
  fill_file writes (suc rounds) remaining count content s =
      if remaining == 0
      then (some content, s)
      else (let (outcome, s') = read (min remaining stream_chunk) s in
          elim outcome [
            | failed ↦ (none, s')
            | got bs ↦
                if length bs == 0
                then (none, s')
                else if not (writes count)
                then (none, s')
                else fill_file writes rounds (remaining - length bs) (suc count) (content ++ bs) s'
          ])

  -- A failure while the reservation is held: it is released, and no file stays.
  unfoldable pub give_up : ℕ → World → World
  give_up reserved w = record w { staged_bytes = (release reserved w.staged_bytes).1; file = none }

  unfoldable pub read_staged : Files → ℕ → List ℕ → World → Option HttpBody × World
  read_staged files content_length initial w =
      let (reservation, counter) = try_reserve content_length files.avail w.staged_bytes in
      elim reservation [
        | inl e ↦ (none, w)
        | inr reserved ↦
            let held = record w { staged_bytes = counter } in
            let head = take content_length initial in
            if not files.opens
            then (none, give_up reserved held)
            else if not (files.writes 0)
            then (none, give_up reserved held)
            else (let (content, s) =
                  fill_file files.writes content_length (content_length - length head) 1 head
                    w.stream in
                elim content [
                  | none ↦ (none, give_up reserved (record held { stream = s }))
                  | some bytes ↦
                      if not files.flushes
                      then (none, give_up reserved (record held { stream = s }))
                      else (
                        some (
                            staged (length bytes) reserved (deps.blake3 bytes) (deps.sha256 bytes)
                              (deps.md5 bytes)),
                        record held { stream = s; file = some bytes },
                      )
                ])
      ]

  unfoldable pub read_memory : ℕ → List ℕ → World → Option HttpBody × World
  read_memory content_length initial w =
      let head = take content_length initial in
      let (body, s) = fill content_length (content_length - length head) head w.stream in
      elim body [
        | none ↦ (none, record w { stream = s })
        | some bytes ↦
            if ltb (length bytes) content_length
            then (none, record w { stream = s })
            else (some (memory bytes), record w { stream = s })
      ]

  unfoldable pub read_http_body : Files → ℕ → List ℕ → Bool → ℕ → World → Option HttpBody × World
  read_http_body files content_length initial staging_allowed max_allowed_bytes w =
      if ltb max_allowed_bytes content_length
      then (none, w)
      else if content_length == 0
      then (some (memory []), w)
      else if leb content_length in_memory_body_limit
      then read_memory content_length initial w
      else if not staging_allowed
      then (none, w)
      else read_staged files content_length initial w
