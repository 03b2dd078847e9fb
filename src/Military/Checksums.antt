-- ===== src/Military/Checksums.antt =====
-- `compute_stream_checksums` and `verify_file_military_integrity` of src/military/crypto.rs. The three
-- hash functions are outside the repository.
use omarchy_omasend.Common.{
  ℕ, ◌≡◌, ◌↔◌, refl, sym, ◌∙◌, ap, Bool, true, false, not, ◌&&◌, List, [], ◌∷◌, ◌++◌, Option, none,
  some, ◌==◌, if◌then◌else◌, length, append-nil, append_assoc, Bool-cases, inl, inr,
}
use omarchy_omasend.Common.Text.{Text, text_eq}
use omarchy_omasend.HttpBody.{ReadOutcome, failed, got}
use omarchy_omasend.Transfer.Model.{eq_ignore_ascii_case}

abbrev pub feed : {A : Type 0} → (List ℕ → A → A) → A → List (List ℕ) → A
feed update a [] = a
feed update a (c ∷ chunks) = feed update (update c a) chunks

abbrev pub concat : List (List ℕ) → List ℕ
concat [] = []
concat (c ∷ chunks) = c ++ concat chunks

-- A hash function that takes its input in pieces, with the text of its digest: the pieces do not
-- matter.
pub record Hasher : Type 1 where
  pub State : Type 0
  pub new : State
  pub update : List ℕ → State → State
  pub finalize : State → Text
  pub digest : List ℕ → Text
  pub finalize-feed :
      (chunks : List (List ℕ)) → finalize (feed update new chunks) ≡ digest (concat chunks)

pub record Deps : Type 1 where
  pub blake3 : Hasher
  pub sha256 : Hasher
  pub md5 : Hasher

pub record MilitaryChecksums : Type 0 where
  pub blake3_hex : Text
  pub sha256_hex : Text
  pub md5_hex : Text

-- The bytes that come before the first read that gives none; `none` where a read fails before.
abbrev pub content : List ReadOutcome → Option (List ℕ)
content [] = some []
content (failed ∷ reads) = none
content (got bs ∷ reads) =
    let rest = content reads in
    if length bs == 0 then some [] else elim rest [ none ↦ none | some cs ↦ some (bs ++ cs) ]

-- One comparison; an expectation that is empty is none.
unfoldable pub differs : Option Text → Text → Bool
differs none actual = false
differs (some exp) actual = not (text_eq exp []) && not (eq_ignore_ascii_case exp actual)

module _ (deps : Deps) where
  open deps use {blake3, sha256, md5}

  abbrev pub finalized : blake3.State → sha256.State → md5.State → MilitaryChecksums
  finalized b s m = record {
    blake3_hex = blake3.finalize b;
    sha256_hex = sha256.finalize s;
    md5_hex = md5.finalize m;
  }

  -- The loop over what the reads give; after the last one the reader is at its end. `none` is an
  -- error.
  unfoldable pub hash_loop :
      blake3.State → sha256.State → md5.State → List ReadOutcome → Option MilitaryChecksums
  hash_loop b s m [] = some (finalized b s m)
  hash_loop b s m (failed ∷ reads) = none
  hash_loop b s m (got chunk ∷ reads) =
      let rest =
        hash_loop (blake3.update chunk b) (sha256.update chunk s) (md5.update chunk m) reads in
      if length chunk == 0 then some (finalized b s m) else rest

  unfoldable pub compute_stream_checksums : List ReadOutcome → Option MilitaryChecksums
  compute_stream_checksums reader = hash_loop blake3.new sha256.new md5.new reader

  -- A file that does not open is `none`.
  unfoldable pub compute_file_military_checksums :
      Option (List ReadOutcome) → Option MilitaryChecksums
  compute_file_military_checksums none = none
  compute_file_military_checksums (some reader) = compute_stream_checksums reader

  unfoldable pub verify_file_military_integrity :
      Option (List ReadOutcome) → Option Text → Option Text → Option Text → Option Bool
  verify_file_military_integrity file expected_blake3 expected_sha256 expected_md5 =
      elim (compute_file_military_checksums file) [
        | none ↦ none
        | some actual ↦
            if differs expected_blake3 actual.blake3_hex
            then some false
            else if differs expected_sha256 actual.sha256_hex
            then some false
            else if differs expected_md5 actual.md5_hex
            then some false
            else some true
      ]

feed-append :
    {A : Type 0} (update : List ℕ → A → A) (a : A) (cs : List (List ℕ)) (c : List ℕ)
    → feed update a (cs ++ c ∷ []) ≡ update c (feed update a cs)
feed-append update a [] c = refl
feed-append update a (d ∷ cs) c = feed-append update (update d a) cs c

concat-append : (cs : List (List ℕ)) (c : List ℕ) → concat (cs ++ c ∷ []) ≡ concat cs ++ c
concat-append [] c = append-nil c
concat-append (d ∷ cs) c =
    ap (λ x. d ++ x) (concat-append cs c) ∙ sym (append_assoc d (concat cs) c)

module _ (deps : Deps) where
  open deps use {blake3, sha256, md5}

  -- The three digests of some bytes.
  abbrev pub checksums_of : List ℕ → MilitaryChecksums
  checksums_of bs = record {
    blake3_hex = blake3.digest bs;
    sha256_hex = sha256.digest bs;
    md5_hex = md5.digest bs;
  }

  abbrev pub after_bytes : List ℕ → Option (List ℕ) → Option MilitaryChecksums
  after_bytes before none = none
  after_bytes before (some bs) = some (checksums_of (before ++ bs))

  after_bytes-step :
      (before c : List ℕ) (o : Option (List ℕ))
      → after_bytes (before ++ c) o
        ≡ after_bytes before (elim o [ none ↦ none | some bs ↦ some (c ++ bs) ])
  after_bytes-step before c none = refl
  after_bytes-step before c (some bs) = ap (λ x. some (checksums_of x)) (append_assoc before c bs)

  ended :
      (cs : List (List ℕ))
      → hash_loop deps
          (feed blake3.update blake3.new cs)
          (feed sha256.update sha256.new cs)
          (feed md5.update md5.new cs)
          []
        ≡ some (checksums_of (concat cs ++ []))
  unfolding hash_loop
  ended cs =
      rw
        (
          append-nil (concat cs),
          blake3.finalize-feed cs,
          sha256.finalize-feed cs,
          md5.finalize-feed cs,
        )
        refl

  hash_loop-content :
      (cs : List (List ℕ)) (reads : List ReadOutcome)
      → hash_loop deps
          (feed blake3.update blake3.new cs)
          (feed sha256.update sha256.new cs)
          (feed md5.update md5.new cs)
          reads
        ≡ after_bytes (concat cs) (content reads)
  unfolding hash_loop
  hash_loop-content cs [] = ended cs
  hash_loop-content cs (failed ∷ reads) = refl
  hash_loop-content cs (got c ∷ reads) = elim (Bool-cases (length c == 0)) [
    | inl t ↦ rw (t, hash_loop) (ended cs)
    | inr t ↦
        let later = hash_loop-content (cs ++ c ∷ []) reads in
        rw (t, hash_loop)
          (rw
              (
                feed-append blake3.update blake3.new cs c,
                feed-append sha256.update sha256.new cs c,
                feed-append md5.update md5.new cs c,
                concat-append cs c,
              )
              at later
            ∙ after_bytes-step (concat cs) c (content reads))
  ]

  -- One pass over a stream, in whatever pieces it comes, gives the three digests of all its bytes up
  -- to its end, and an error exactly when a read fails before.
  pub compute_stream_checksums-content :
      (reads : List ReadOutcome)
      → compute_stream_checksums deps reads ≡ after_bytes [] (content reads)
  unfolding compute_stream_checksums
  compute_stream_checksums-content reads = hash_loop-content [] reads

  -- A file that can be read is found intact exactly when each digest that is expected, and not the
  -- empty text, is that of its bytes, in small letters or capitals.
  pub verify_iff :
      (reads : List ReadOutcome) (bs : List ℕ) (exp_blake3 exp_sha256 exp_md5 : Option Text)
      → content reads ≡ some bs
      → (verify_file_military_integrity deps (some reads) exp_blake3 exp_sha256 exp_md5 ≡ some true)
        ↔ ((differs exp_blake3 (blake3.digest bs) ≡ false)
            × (differs exp_sha256 (sha256.digest bs) ≡ false)
            × (differs exp_md5 (md5.digest bs) ≡ false))
  unfolding verify_file_military_integrity compute_file_military_checksums
  verify_iff reads bs x y z h =
      let sums : compute_stream_checksums deps reads ≡ some (checksums_of bs) =
        compute_stream_checksums-content reads ∙ ap (after_bytes []) h in
      rw (sums, verify_file_military_integrity)
        (none_differs (differs x (blake3.digest bs)) (differs y (sha256.digest bs))
          (differs z (md5.digest bs)))
    where
      none_differs :
          (a b c : Bool)
          → ((if a
                then some false
                else if b
                then some false
                else if c
                then some false
                else some true)
              ≡ some true)
            ↔ ((a ≡ false) × (b ≡ false) × (c ≡ false))
      none_differs true b c = (λ h. absurd (cc h), λ h. absurd (cc (h.0)))
      none_differs false true c = (λ h. absurd (cc h), λ h. absurd (cc (h.1)))
      none_differs false false true = (λ h. absurd (cc h), λ h. absurd (cc (h.2)))
      none_differs false false false = (λ h. (refl, refl, refl), λ h. refl)
