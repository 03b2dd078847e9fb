-- ===== src/Http/HeaderTests.antt =====
-- The theorems about the header reader of src/main.rs at one request that comes in two chunks.
use omarchy_omasend.Common.{
  ℕ, ◌≤◌, ◌≡◌, refl, List, [], ◌∷◌, ◌++◌, some, take, length, length-take, arith,
}
use omarchy_omasend.Common.Text.{codes, trim, trim_start, is_whitespace}
use omarchy_omasend.HttpBody
use omarchy_omasend.HttpBody.{got, ReadOutcome}
use omarchy_omasend.Http.{split, strip_prefix, to_lowercase}
use omarchy_omasend.Http.Headers.{
  Deps, HttpHeaderResult, head_end, chop, lines_of, cut_at, words_from, parse_usize, header_of,
  content_length_of, headers_of, parse_head, finish, read_loop, read_http_headers,
}
use omarchy_omasend.Http.Headers.Consumed.{
  IsHead, read_http_headers-IsHead, read_http_headers_rounds,
}
use omarchy_omasend.Discovery.{digits_value}

unfoldable pub read_chunk : ℕ → List (List ℕ) → ReadOutcome × List (List ℕ)
read_chunk cap [] = (got [], [])
read_chunk cap (bs ∷ rest) = (got (take cap bs), rest)

pub read_chunk_fits :
    (cap : ℕ) (s : List (List ℕ)) (bs : List ℕ) → (read_chunk cap s).0 ≡ got bs → length bs ≤ cap
unfolding read_chunk
read_chunk_fits cap [] bs h = ground arith
read_chunk_fits cap (c ∷ s) bs h = ground (arith, length-take cap c)

abbrev bodies : HttpBody.Deps
bodies = record {
  Stream = List (List ℕ);
  read = read_chunk;
  read_fits = read_chunk_fits;
  blake3 = λ bs. bs;
  sha256 = λ bs. bs;
  md5 = λ bs. bs;
}

abbrev deps : Deps
deps = record {
  from_utf8_lossy = λ bs. bs;
  to_lowercase = to_lowercase;
  to_uppercase = λ s. s;
  bodies = bodies;
}

abbrev stream : List (List ℕ)
stream =
    (codes "GET /a?b=1 HTTP/1.1" ++ 13 ∷ 10 ∷ [])
    ∷ (codes "Content-Length: 2" ++ 13 ∷ 10 ∷ 13 ∷ 10 ∷ codes "xy")
    ∷ []

abbrev head : HttpHeaderResult
head = record {
  req = record {
    method = codes "GET";
    path = codes "/a";
    query = codes "b=1";
    headers = (codes "content-length", codes "2") ∷ [];
  };
  content_length = 2;
  initial_body = codes "xy";
}

is_read : (read_http_headers deps stream).0 ≡ some head
unfolding read_http_headers read_loop read_chunk head_end finish lines_of chop split strip_prefix
    cut_at words_from parse_usize header_of content_length_of headers_of parse_head trim trim_start
    is_whitespace digits_value
is_read = refl

read_http_headers-IsHead_example :
    (buf : List ℕ) × (lost : List ℕ) × (pos : ℕ) × IsHead deps stream
      (read_http_headers deps stream).1
      head
      buf
      lost
      pos
read_http_headers-IsHead_example = read_http_headers-IsHead deps stream head is_read

read_http_headers_rounds_example : read_loop deps 65600 [] stream ≡ read_http_headers deps stream
read_http_headers_rounds_example = read_http_headers_rounds deps 65600 stream (omega arith)
