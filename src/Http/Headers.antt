-- ===== src/Http/Headers.antt =====
-- `read_http_headers` and `read_http_request_stream` of src/main.rs: the head of a request, its
-- parsing, and the body after it. The stream is that of `HttpBody`; a deadline that passes is an error
-- of the stream.
pub mod Consumed
use omarchy_omasend.Common.{
  ℕ, zero, suc, ◌+◌, ◌-◌, ◌*◌, ◌^◌, Bool, true, false, not, ◌&&◌, List, [], ◌∷◌, ◌++◌, Option, none,
  some, ltb, leb, ◌==◌, if◌then◌else◌, length, take, drop, min,
}
use omarchy_omasend.Common.Text.{Text, codes, text_eq, trim, is_whitespace}
use omarchy_omasend.Discovery.{digits_value}
use omarchy_omasend.Http.{HttpRequest, split, strip_prefix}
use omarchy_omasend.HttpBody
use omarchy_omasend.HttpBody.{Files, World, failed, got, read_http_body}
use omarchy_omasend.Staging.Budget

abbrev pub max_header_size : ℕ
max_header_size = 65536

abbrev pub max_body_size : ℕ
max_body_size = 100 * 1024 * 1024

abbrev pub header_chunk : ℕ
header_chunk = 4096

-- `String::from_utf8_lossy`, and the cases of Unicode.
pub record Deps : Type 1 where
  pub from_utf8_lossy : List ℕ → Text
  pub to_lowercase : Text → Text
  pub to_uppercase : Text → Text
  pub bodies : HttpBody.Deps

pub record HttpHeaderResult : Type 0 where
  pub req : HttpRequest
  pub content_length : ℕ
  pub initial_body : List ℕ

abbrev pub begins_with_end : List ℕ → Bool
begins_with_end bytes = elim (strip_prefix (13 ∷ 10 ∷ 13 ∷ 10 ∷ []) bytes) [
  | none ↦ false
  | some rest ↦ true
]

-- `windows(4).position(|w| w == b"\r\n\r\n")`.
unfoldable pub head_end : List ℕ → Option ℕ
head_end [] = none
head_end (b ∷ bytes) =
    let later = head_end bytes in
    if begins_with_end (b ∷ bytes)
    then some 0
    else elim later [ none ↦ none | some pos ↦ some (suc pos) ]

-- A line without the carriage return at its end.
unfoldable pub chop : Text → Text
chop [] = []
chop (c ∷ []) = if c == 13 then [] else c ∷ []
chop (c ∷ d ∷ s) = c ∷ chop (d ∷ s)

-- `str::lines`, from the parts between the line feeds: the last one is no line when it is empty, and
-- keeps its carriage return.
unfoldable pub lines_of : List Text → List Text
unfolding chop
lines_of [] = []
lines_of (l ∷ []) = if text_eq l [] then [] else l ∷ []
lines_of (l ∷ m ∷ parts) = chop l ∷ lines_of (m ∷ parts)

abbrev pub lines : Text → List Text
lines s = lines_of (split 10 s)

-- The text before the first occurrence, and the text after it.
unfoldable pub cut_at : ℕ → Text → Option (Text × Text)
cut_at c [] = none
cut_at c (d ∷ s) =
    let later = cut_at c s in
    if d == c
    then some ([], s)
    else elim later [ none ↦ none | some (before, after) ↦ some (d ∷ before, after) ]

-- `str::split_whitespace`: the word that is being read, and the words after it.
unfoldable pub words_from : Text → Text → List Text
words_from word [] = if text_eq word [] then [] else word ∷ []
words_from word (c ∷ s) =
    let ended = words_from [] s in
    let longer = words_from (word ++ c ∷ []) s in
    if is_whitespace c then (if text_eq word [] then ended else word ∷ ended) else longer

-- `parse::<usize>()`: decimal digits, after a plus sign or not, below 2 ^ 64.
unfoldable pub parse_usize : Text → Option ℕ
parse_usize s =
    let digits : Text = elim (strip_prefix (codes "+") s) [ none ↦ s | some rest ↦ rest ] in
    if text_eq digits [] then none else elim (digits_value 0 digits) [
      | none ↦ none
      | some n ↦ if ltb n (2 ^ 64) then some n else none
    ]

abbrev pub or_zero : Option ℕ → ℕ
or_zero none = 0
or_zero (some n) = n

module _ (deps : Deps) where
  -- One line as a header: its name in lower case and its value, trimmed.
  unfoldable pub header_of : Text → Option (Text × Text)
  header_of line = elim (cut_at b':' line) [
    | none ↦ none
    | some (k, v) ↦ some (deps.to_lowercase (trim k), trim v)
  ]

  -- The loop over all lines, the length so far first; `none` is the refusal of a body that is too
  -- large. A number that does not parse counts as 0.
  unfoldable pub content_length_of : ℕ → List Text → Option ℕ
  content_length_of n [] = some n
  content_length_of n (line ∷ rest) = elim (header_of line) [
    | none ↦ content_length_of n rest
    | some (k, v) ↦
        let m = or_zero (parse_usize v) in
        let kept = content_length_of n rest in
        let found = content_length_of m rest in
        if text_eq k (codes "content-length")
        then (if ltb max_body_size m then none else found)
        else kept
  ]

  unfoldable pub headers_of : List Text → List (Text × Text)
  headers_of [] = []
  headers_of (line ∷ rest) = elim (header_of line) [
    | none ↦ headers_of rest
    | some h ↦ h ∷ headers_of rest
  ]

  -- The request line and the headers after it.
  unfoldable pub parse_head : Text → Option HttpRequest
  unfolding words_from
  parse_head head = elim (lines head) [
    | [] ↦ none
    | req_line ∷ rest ↦ elim (words_from [] req_line) [
      | [] ↦ none
      | method ∷ others ↦ elim others [
        | [] ↦ none
        | full_path ∷ more ↦
            let (path, query) : Text × Text = elim (cut_at b'?' full_path) [
              | none ↦ (full_path, [])
              | some (p, q) ↦ (p, q)
            ] in
            some (record {
              method = deps.to_uppercase method;
              path = path;
              query = query;
              headers = headers_of rest;
            })
      ]
    ]
  ]

  -- What is made of a buffer whose head ends at `pos`.
  unfoldable pub finish : List ℕ → ℕ → Option HttpHeaderResult
  finish buf pos =
      let head = deps.from_utf8_lossy (take pos buf) in
      elim (content_length_of 0 (lines head)) [
        | none ↦ none
        | some n ↦ elim (parse_head head) [
          | none ↦ none
          | some req ↦
              some (record { req = req; content_length = n; initial_body = drop (pos + 4) buf })
        ]
      ]

  -- The loop. Each round that goes on has read a byte, so as many rounds as the header may have bytes,
  -- and one more, are enough. What a read gives beyond the limit is dropped.
  unfoldable pub read_loop :
      ℕ → List ℕ → deps.bodies.Stream → Option HttpHeaderResult × deps.bodies.Stream
  read_loop zero buf s = (none, s)
  read_loop (suc rounds) buf s =
      let (outcome, s') = deps.bodies.read header_chunk s in
      elim (head_end buf) [
        | some pos ↦ (finish buf pos, s)
        | none ↦ if leb max_header_size (length buf) then (none, s) else elim outcome [
          | failed ↦ (none, s')
          | got bs ↦
              let taken = min (length bs) (max_header_size - length buf) in
              let buf' = buf ++ take taken bs in
              if length bs == 0
              then (none, s')
              else if ltb taken (length bs)
              then (elim (head_end buf') [ none ↦ none | some pos ↦ finish buf' pos ], s')
              else read_loop rounds buf' s'
        ]
      ]

  unfoldable pub read_http_headers :
      deps.bodies.Stream → Option HttpHeaderResult × deps.bodies.Stream
  read_http_headers s = read_loop (suc (suc max_header_size)) [] s

  unfoldable pub read_http_request_stream :
      Files → World deps.bodies → Option (HttpRequest × HttpBody.HttpBody) × World deps.bodies
  read_http_request_stream files w =
      let (head, s') = read_http_headers w.stream in
      elim head [
        | none ↦ (none, record w { stream = s' })
        | some h ↦
            let (body, w') =
              read_http_body deps.bodies files h.content_length h.initial_body true max_body_size
                (record w { stream = s' }) in
            elim body [ none ↦ (none, w') | some b ↦ (some (h.req, b), w') ]
      ]
