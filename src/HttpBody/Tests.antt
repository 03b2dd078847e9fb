-- ===== src/HttpBody/Tests.antt =====
-- The theorems about bodies of src/main.rs at a stream that gives its chunks one by one.
use omarchy_omasend.Common.{
  drop, length-drop, take-append-drop, sym, zero, suc, ℕ, ◌≡◌, ◌≤◌, refl, List, [], ◌∷◌, none, some,
  true, false, take, length, length-take, arith,
}
use omarchy_omasend.HttpBody.{
  Deps, ReadOutcome, got, Files, memory, World, fill, read_memory, read_http_body,
}
use omarchy_omasend.HttpBody.Delivery.{Delivers, ended, more, Arrives, read_http_body-Delivers}
use omarchy_omasend.HttpBody.Exact.{IsExact, read_http_body-IsExact}

read_chunk : ℕ → List (List ℕ) → ReadOutcome × List (List ℕ)
read_chunk cap [] = (got [], [])
read_chunk cap (bs ∷ rest) = (got (take cap bs), rest)

read_chunk_fits :
    (cap : ℕ) (s : List (List ℕ)) (bs : List ℕ) → (read_chunk cap s).0 ≡ got bs → length bs ≤ cap
unfolding read_chunk
read_chunk_fits cap [] bs h = ground arith
read_chunk_fits cap (c ∷ s) bs h = ground (arith, length-take cap c)

abbrev sample_deps : Deps
sample_deps = record {
  Stream = List (List ℕ);
  read = read_chunk;
  read_fits = read_chunk_fits;
  blake3 = λ bs. bs;
  sha256 = λ bs. bs;
  md5 = λ bs. bs;
}

abbrev files : Files
files = record { avail = none; opens = true; writes = λ n. true; flushes = true }

abbrev world : World sample_deps
world = record { stream = (3 ∷ 4 ∷ []) ∷ (5 ∷ []) ∷ []; staged_bytes = 7; file = none }

reads_all :
    (read_http_body sample_deps files 5 (1 ∷ 2 ∷ []) false 100 world).0
    ≡ some (memory (1 ∷ 2 ∷ 3 ∷ 4 ∷ 5 ∷ []))
unfolding read_http_body read_memory fill read_chunk
reads_all = refl

read_http_body-IsExact_example :
    (5 ≤ 100)
    × IsExact sample_deps
        (memory (1 ∷ 2 ∷ 3 ∷ 4 ∷ 5 ∷ []))
        5
        (1 ∷ 2 ∷ [])
        world
        (read_http_body sample_deps files 5 (1 ∷ 2 ∷ []) false 100 world).1
read_http_body-IsExact_example =
    read_http_body-IsExact sample_deps files 5 (1 ∷ 2 ∷ []) false 100 world
      (memory (1 ∷ 2 ∷ 3 ∷ 4 ∷ 5 ∷ [])) reads_all

stops_short : (read_http_body sample_deps files 6 (1 ∷ 2 ∷ []) false 100 world).0 ≡ none
unfolding read_http_body read_memory fill read_chunk
stops_short = refl

-- A stream that holds the bytes that are to come.
unfoldable pub read_bytes : ℕ → List ℕ → ReadOutcome × List ℕ
read_bytes cap s = (got (take cap s), drop cap s)

pub read_bytes_fits :
    (cap : ℕ) (s : List ℕ) (bs : List ℕ) → (read_bytes cap s).0 ≡ got bs → length bs ≤ cap
unfolding read_bytes
read_bytes_fits cap s bs h = ground (arith, h, length-take cap s)

abbrev pub byte_deps : Deps
byte_deps = record {
  Stream = List ℕ;
  read = read_bytes;
  read_fits = read_bytes_fits;
  blake3 = λ bs. bs;
  sha256 = λ bs. bs;
  md5 = λ bs. bs;
}

drop_shorter :
    (n cap b : ℕ) (s : List ℕ) → 1 ≤ cap → length (b ∷ s) ≤ suc n → length (drop cap (b ∷ s)) ≤ n
drop_shorter n zero b s h k = absurd (omega (arith, h))
drop_shorter n (suc cap) b s h k = omega (arith, k, length-drop cap s)

pub all_come : (n : ℕ) (s : List ℕ) → length s ≤ n → Delivers byte_deps s s
unfolding read_bytes
all_come n [] h = ended
all_come zero (b ∷ s) h = absurd (omega (arith, h))
all_come (suc n) (b ∷ s) h =
    more (λ cap. take cap (b ∷ s)) (λ cap. drop cap (b ∷ s)) (λ cap asked. refl)
      (λ cap asked. omega (arith, asked, length-take cap (b ∷ s)))
      (λ cap asked. sym (take-append-drop cap (b ∷ s)))
      (λ cap asked. all_come n (drop cap (b ∷ s)) (drop_shorter n cap b s asked h))

read_http_body-Delivers_example : Arrives byte_deps (1 ∷ 2 ∷ 3 ∷ 4 ∷ 5 ∷ []) (
    read_http_body byte_deps files 5
      (1 ∷ 2 ∷ [])
      false
      100
      (record { stream = 3 ∷ 4 ∷ 5 ∷ []; staged_bytes = 7; file = none }))
read_http_body-Delivers_example =
    read_http_body-Delivers byte_deps files (1 ∷ 2 ∷ []) (3 ∷ 4 ∷ 5 ∷ []) false 100
      (record { stream = 3 ∷ 4 ∷ 5 ∷ []; staged_bytes = 7; file = none })
      (all_come 3 (3 ∷ 4 ∷ 5 ∷ []) (omega arith)) (omega arith)
      (λ long. absurd (omega (arith, long)))
