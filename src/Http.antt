-- ===== src/Http.antt =====
-- The requests of src/main.rs after parsing: headers, parameters, the PIN, trusted origins, and what
-- `handle_connection` decides before it looks at the path.
pub mod Gate
pub mod PairEndpoint
pub mod RequestAuth
pub mod Headers
mod Tests
mod HeaderTests
use omarchy_omasend.Common.{
  ℕ, ◌+◌, Bool, true, false, not, ◌&&◌, ◌||◌, List, [], ◌∷◌, ◌++◌, map, Option, none, some, leb,
  ◌==◌, if◌then◌else◌, length, take, drop,
}
use omarchy_omasend.Common.Text.{Text, codes, text_eq, trim}
use omarchy_omasend.Net.{IpAddr}
use omarchy_omasend.PinLimiter.{Limiter, is_pin_rate_limited, record_pin_attempt}

-- The fields of `HttpRequest` that are read; the names of the headers are in lower case.
pub record HttpRequest : Type 0 where
  pub method : Text
  pub path : Text
  pub query : Text
  pub headers : List (Text × Text)

-- `to_lowercase` on the ASCII names that the callers ask for.
abbrev pub to_lowercase : Text → Text
to_lowercase s = map (λ c. if leb b'A' c && leb c b'Z' then c + 32 else c) s

unfoldable pub find_header : Text → List (Text × Text) → Option Text
find_header lower [] = none
find_header lower ((k, v) ∷ headers) = if text_eq k lower then some v else find_header lower headers

unfoldable pub get_header : Text → HttpRequest → Option Text
get_header name req = find_header (to_lowercase name) req.headers

-- `s.split(sep)`: the parts between the separators, at least one.
unfoldable pub split : ℕ → Text → List Text
split sep [] = [] ∷ []
split sep (c ∷ s) =
    let parts = split sep s in
    if c == sep then [] ∷ parts else elim parts [ [] ↦ (c ∷ []) ∷ [] | p ∷ ps ↦ (c ∷ p) ∷ ps ]

-- `s.strip_prefix(prefix)`.
unfoldable pub strip_prefix : Text → Text → Option Text
strip_prefix [] s = some s
strip_prefix (p ∷ ps) [] = none
strip_prefix (p ∷ ps) (c ∷ s) = if p == c then strip_prefix ps s else none

-- The first part that begins with the prefix, without it.
unfoldable pub first_with_prefix : Text → List Text → Option Text
first_with_prefix pre [] = none
first_with_prefix pre (part ∷ parts) = elim (strip_prefix pre part) [
  | none ↦ first_with_prefix pre parts
  | some rest ↦ some rest
]

unfoldable pub get_param : Text → HttpRequest → Option Text
get_param key req = first_with_prefix (key ++ codes "=") (split b'&' req.query)

-- The first part `pin=..` with a value that is not empty.
pub first_pin : List Text → Option Text
first_pin [] = none
first_pin (part ∷ parts) = elim (strip_prefix (codes "pin=") part) [
  | none ↦ first_pin parts
  | some val ↦ if text_eq val [] then first_pin parts else some val
]

pub cookie_pin : HttpRequest → Option Text
cookie_pin req = elim (get_header (codes "cookie") req) [
  | none ↦ none
  | some cookie_val ↦ first_pin (map trim (split b';' cookie_val))
]

-- The query comes first, then the header, then the cookie.
pub extract_provided_pin : HttpRequest → Option Text
extract_provided_pin req = elim (first_pin (split b'&' req.query)) [
  | some val ↦ some val
  | none ↦ elim (get_header (codes "x-omasend-pin") req) [
    | none ↦ cookie_pin req
    | some h ↦ if text_eq h [] then cookie_pin req else some h
  ]
]

-- The text is the origin, or the origin and a colon with what follows.
pub is_origin : Text → Text → Bool
is_origin origin clean =
    text_eq clean origin
    || elim (strip_prefix (origin ++ codes ":") clean) [ none ↦ false | some rest ↦ true ]

pub is_trusted_origin : Text → Text → Bool
is_trusted_origin origin local_ip =
    let clean = trim origin in
    is_origin (codes "http://localhost") clean
    || is_origin (codes "http://127.0.0.1") clean
    || is_origin (codes "http://" ++ local_ip) clean

-- The answer to a preflight, the refusal for too many PINs, or going on to the path, authorized or
-- not.
pub data Decision : Type 0 where
  preflight too_many : Decision
  goes_on : Bool → Decision

-- The first part of `handle_connection`. The clock is read when the limit is checked and again when
-- the attempt is recorded.
pub gate : Text → HttpRequest → IpAddr → ℕ → ℕ → Limiter → Decision × Limiter
gate pin req client_ip checked recorded m =
    if text_eq req.method (codes "OPTIONS")
    then (preflight, m)
    else if is_pin_rate_limited client_ip checked m
    then (too_many, m)
    else elim (extract_provided_pin req) [
      | none ↦ (goes_on false, m)
      | some p ↦
          if text_eq p pin
          then (goes_on true, (record_pin_attempt client_ip true recorded m).1)
          else (let (not_blocked, m') = record_pin_attempt client_ip false recorded m in
              (if not_blocked then goes_on false else too_many, m'))
    ]
