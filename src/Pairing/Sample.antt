-- ===== src/Pairing/Sample.antt =====
-- A concrete stand-in for the code outside src/rendezvous.rs, on which the tests run: texts and
-- records are written xs their numbers, one after the other.
use omarchy_omasend.Common.{
  ℕ, zero, suc, ◌+◌, ◌*◌, ◌/◌, ◌%◌, ◌<◌, ◌≡◌, refl, ap, ◌∙◌, Bool, true, false, ◌&&◌, List, [], ◌∷◌,
  ◌++◌, Option, none, some, arith, ltb, ◌==◌, if◌then◌else◌, length, length-append, take, drop,
  Result, ok,
}
use omarchy_omasend.Common.Text.{Text, len, as_bytes, utf8}
use omarchy_omasend.Net.{IpAddr, v4, v6, IsAddr}
use omarchy_omasend.Pairing.Model.{PairedPeer, Deps, Disk}

abbrev pub is_byte : ℕ → Bool
is_byte a = ltb a 256

abbrev pub is_word : ℕ → Bool
is_word a = ltb a 65536

pub show_ip : IpAddr → Text
show_ip (v4 a b c d) = a ∷ b ∷ c ∷ d ∷ []
show_ip (v6 s t u v w x y z) = s ∷ t ∷ u ∷ v ∷ w ∷ x ∷ y ∷ z ∷ []

pub parse_ip : Text → Option IpAddr
parse_ip (a ∷ b ∷ c ∷ d ∷ []) =
    if is_byte a && is_byte b && is_byte c && is_byte d then some (v4 a b c d) else none
parse_ip (s ∷ t ∷ u ∷ v ∷ w ∷ x ∷ y ∷ z ∷ []) =
    if is_word s
      && is_word t
      && is_word u
      && is_word v
      && is_word w
      && is_word x
      && is_word y
      && is_word z
    then some (v6 s t u v w x y z)
    else none
parse_ip [] = none
parse_ip (a ∷ []) = none
parse_ip (a ∷ b ∷ []) = none
parse_ip (a ∷ b ∷ c ∷ []) = none
parse_ip (a ∷ b ∷ c ∷ d ∷ e ∷ []) = none
parse_ip (a ∷ b ∷ c ∷ d ∷ e ∷ f ∷ []) = none
parse_ip (a ∷ b ∷ c ∷ d ∷ e ∷ f ∷ g ∷ []) = none
parse_ip (a ∷ b ∷ c ∷ d ∷ e ∷ f ∷ g ∷ h ∷ i ∷ l) = none

pub parse-show : (ip : IpAddr) → IsAddr ip → parse_ip (show_ip ip) ≡ some ip
unfolding parse_ip show_ip IsAddr
parse-show (v4 a b c d) h = ground arith
parse-show (v6 s t u v w x y z) h = ground arith

pub parse-IsAddr : (s : Text) (ip : IpAddr) → parse_ip s ≡ some ip → IsAddr ip
unfolding parse_ip IsAddr
parse-IsAddr (a ∷ b ∷ c ∷ d ∷ []) ip h = ground arith
parse-IsAddr (s ∷ t ∷ u ∷ v ∷ w ∷ x ∷ y ∷ z ∷ []) ip h = ground arith
parse-IsAddr [] ip found = cc
parse-IsAddr (a ∷ []) ip found = cc
parse-IsAddr (a ∷ b ∷ []) ip found = cc
parse-IsAddr (a ∷ b ∷ c ∷ []) ip found = cc
parse-IsAddr (a ∷ b ∷ c ∷ d ∷ e ∷ []) ip found = cc
parse-IsAddr (a ∷ b ∷ c ∷ d ∷ e ∷ f ∷ []) ip found = cc
parse-IsAddr (a ∷ b ∷ c ∷ d ∷ e ∷ f ∷ g ∷ []) ip found = cc
parse-IsAddr (a ∷ b ∷ c ∷ d ∷ e ∷ f ∷ g ∷ h ∷ i ∷ l) ip found = cc

-- A value read from the front of a text, with what is left, handed on.
abbrev pub then_read : {A C : Type 0} → Option (A × Text) → (A → Text → Option C) → Option C
then_read none f = none
then_read (some (a, rest)) f = f a rest

unfoldable pub get_number : Text → Option (ℕ × Text)
get_number [] = none
get_number (n ∷ rest) = some (n, rest)

unfoldable pub put_text : Text → Text → Text
put_text t rest = length t ∷ t ++ rest

unfoldable pub get_text : Text → Option (Text × Text)
get_text [] = none
get_text (n ∷ rest) = some (take n rest, drop n rest)

take-length :
    (t rest : Text) → (take (length t) (t ++ rest) ≡ t) × (drop (length t) (t ++ rest) ≡ rest)
take-length [] rest = (refl, refl)
take-length (c ∷ t) rest = (ap (◌∷◌ c) (take-length t rest).0, (take-length t rest).1)

pub get_text-put : (t rest : Text) → get_text (put_text t rest) ≡ some (t, rest)
unfolding get_text put_text
get_text-put t rest = ground (arith, take-length t rest)

module _ {A : Type 0} (put : A → Text → Text) (get : Text → Option (A × Text)) where
  unfoldable pub put_option : Option A → Text → Text
  put_option none rest = 0 ∷ rest
  put_option (some a) rest = 1 ∷ put a rest

  unfoldable pub get_option : Text → Option (Option A × Text)
  get_option [] = none
  get_option (n ∷ rest) =
      if n == 0 then some (none, rest) else then_read (get rest) (λ a left. some (some a, left))

  pub get_option-put :
      ((a : A) (rest : Text) → get (put a rest) ≡ some (a, rest))
      → (o : Option A) (rest : Text) → get_option (put_option o rest) ≡ some (o, rest)
  unfolding get_option put_option
  get_option-put back none rest = refl
  get_option-put back (some a) rest =
      ap (λ r. then_read r (λ a left. some (some a, left))) (back a rest)

  unfoldable pub put_list : List A → Text → Text
  put_list [] rest = rest
  put_list (a ∷ xs) rest = put a (put_list xs rest)

  unfoldable pub get_list : ℕ → Text → Option (List A × Text)
  get_list zero rest = some ([], rest)
  get_list (suc n) s =
      then_read (get s) (λ a left. then_read (get_list n left) (λ xs left'. some (a ∷ xs, left')))

  get_list-put :
      ((a : A) (rest : Text) → get (put a rest) ≡ some (a, rest))
      → (xs : List A) (rest : Text) → get_list (length xs) (put_list xs rest) ≡ some (xs, rest)
  unfolding get_list put_list
  get_list-put back [] rest = refl
  get_list-put back (a ∷ xs) rest =
      ap
        (λ r.
          then_read r
            (λ b left. then_read (get_list (length xs) left) (λ bs left'. some (b ∷ bs, left'))))
        (back a (put_list xs rest))
      ∙ ap (λ r. then_read r (λ bs left'. some (a ∷ bs, left'))) (get_list-put back xs rest)

pub put_bool : Bool → Text → Text
put_bool b rest = (if b then 1 else 0) ∷ rest

unfoldable pub put_number : ℕ → Text → Text
put_number n rest = n ∷ rest

pub put_peer : PairedPeer → Text → Text
put_peer p rest = put_text p.oma_id (
    put_text p.name (
      put_option put_text get_text p.ip (
        put_number p.paired_at (
          put_option put_text get_text p.auth_token (
            put_bool p.confirmed (
              put_option put_text get_text p.pair_code (
                put_option put_number get_number p.pair_expires_at
                  (put_number p.pair_failures rest))))))))

pub get_peer : Text → Option (PairedPeer × Text)
get_peer s0 = then_read (get_text s0) (λ oma_id s1. then_read (get_text s1) (λ name s2.
    then_read (get_option put_text get_text s2) (λ ip s3. then_read (get_number s3) (λ paired_at s4.
      then_read (get_option put_text get_text s4) (λ auth_token s5.
        then_read (get_number s5) (λ confirmed s6.
          then_read (get_option put_text get_text s6) (λ pair_code s7.
            then_read (get_option put_number get_number s7) (λ pair_expires_at s8.
              then_read (get_number s8) (λ pair_failures s9. some (
                record {
                  oma_id = oma_id;
                  name = name;
                  ip = ip;
                  paired_at = paired_at;
                  auth_token = auth_token;
                  confirmed = confirmed == 1;
                  pair_code = pair_code;
                  pair_expires_at = pair_expires_at;
                  pair_failures = pair_failures;
                },
                s9,
              ))))))))))

pub get_number-put : (n : ℕ) (rest : Text) → get_number (put_number n rest) ≡ some (n, rest)
unfolding get_number put_number
get_number-put n rest = refl

bool_back : (b : Bool) → ((if b then 1 else 0) == 1) ≡ b
bool_back true = refl
bool_back false = refl

get_peer-put : (p : PairedPeer) (rest : Text) → get_peer (put_peer p rest) ≡ some (p, rest)
unfolding get_peer put_peer get_number put_number put_bool
get_peer-put p rest =
    let text_back = get_option-put put_text get_text get_text-put in
    rw
      (
        get_text-put p.oma_id _,
        get_text-put p.name _,
        text_back p.ip _,
        text_back p.auth_token _,
        text_back p.pair_code _,
        get_option-put put_number get_number get_number-put p.pair_expires_at _,
        bool_back p.confirmed,
      )
      refl

pub to_json : List PairedPeer → Result Text Text
to_json ps = ok (length ps ∷ put_list put_peer get_peer ps [])

pub from_json : Text → Option (List PairedPeer)
from_json [] = none
from_json (n ∷ s) = then_read (get_list put_peer get_peer n s) (λ ps rest. some ps)

pub from_json-to_json :
    (ps : List PairedPeer) (s : Text) → to_json ps ≡ ok s → from_json s ≡ some ps
unfolding to_json from_json
from_json-to_json ps s h =
    let same : s ≡ length ps ∷ put_list put_peer get_peer ps [] = cc h in
    rw (same, get_list-put put_peer get_peer get_peer-put ps []) refl

pub hex_digit : ℕ → ℕ
hex_digit d = if ltb d 10 then b'0' + d else 87 + d

pub hex_encode : List ℕ → Text
hex_encode [] = []
hex_encode (b ∷ bs) = hex_digit (b / 16 % 16) ∷ hex_digit (b % 16) ∷ hex_encode bs

len-hex_digit : (d : ℕ) → d < 16 → length (utf8 (hex_digit d)) ≡ 1
unfolding utf8 hex_digit
len-hex_digit d h = ground arith

pub hex_encode-len : (bs : List ℕ) → len (hex_encode bs) ≡ 2 * length bs
unfolding as_bytes hex_encode
hex_encode-len [] = refl
hex_encode-len (b ∷ bs) = omega (
  arith,
  len-hex_digit (b / 16 % 16) (omega arith),
  len-hex_digit (b % 16) (omega arith),
  hex_encode-len bs,
  length-append (utf8 (hex_digit (b / 16 % 16)))
      (utf8 (hex_digit (b % 16)) ++ as_bytes (hex_encode bs)),
  length-append (utf8 (hex_digit (b % 16))) (as_bytes (hex_encode bs)),
)

unfoldable pub sample_deps : Deps
unfolding parse_ip show_ip to_json from_json hex_encode hex_digit put_list get_list put_peer
    get_peer put_text get_text put_option get_option put_bool put_number get_number
sample_deps = record {
  parse_ip = parse_ip;
  show_ip = show_ip;
  parse-show = parse-show;
  parse-IsAddr = parse-IsAddr;
  to_json = to_json;
  from_json = from_json;
  from_json-to_json = from_json-to_json;
  hex_encode = hex_encode;
  hex_encode-len = hex_encode-len;
}

pub writes : (ps : List PairedPeer) → (s : Text) × (sample_deps.to_json ps ≡ ok s)
unfolding sample_deps
writes ps = (length ps ∷ put_list put_peer get_peer ps [], refl)

-- The file that keeps the given records.
unfoldable pub disk_of : List PairedPeer → Disk
unfolding put_list put_peer put_text put_option put_bool put_number
disk_of ps = record { content = some (length ps ∷ put_list put_peer get_peer ps []) }
