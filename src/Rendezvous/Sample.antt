-- ===== src/Rendezvous/Sample.antt =====
-- A concrete stand-in for the code outside src/rendezvous.rs that seals and stores records: the tests
-- run on it. Nothing is hidden; texts are their own bytes.
use omarchy_omasend.Common.{
  ℕ, zero, suc, ◌==◌, ◌≡◌, refl, subst, true, List, [], ◌∷◌, Option, none, some, if◌then◌else◌, all,
  Bool-cases, inl, inr,
}
use omarchy_omasend.Common.Text.{Text}
use omarchy_omasend.Pairing.Sample.{
  then_read, get_number, put_number, get_text, put_text, get_text-put, get_option, put_option,
  get_option-put,
}
use omarchy_omasend.Rendezvous.{Deps, is_byte, replicate}
use omarchy_omasend.Rendezvous.Record.{RendezvousRecord, EncryptedRendezvousEnvelope, Json}

unfoldable pub open_seal : List ℕ → List ℕ → List ℕ → Option (List ℕ)
open_seal key nonce text = if all is_byte text then some text else none

pub open_seal-same :
    (key nonce text c : List ℕ)
    → open_seal key nonce text ≡ some c
    → (text ≡ c) × (all is_byte c ≡ true)
unfolding open_seal
open_seal-same key nonce text c h = elim (Bool-cases (all is_byte text)) [
  | inl t ↦ let same = some_path (rw (t, open_seal) at h) in (same, rw (← same) t)
  | inr f ↦ absurd (cc (rw (f, open_seal) at h))
]
  where
    some_path : {x y : List ℕ} → some x ≡ some y → x ≡ y
    some_path {x} {y} h = cc

pub seal-back :
    (key nonce plaintext ciphertext : List ℕ)
    → open_seal key nonce plaintext ≡ some ciphertext
    → some ciphertext ≡ some plaintext
seal-back key nonce p c h = rw (open_seal-same key nonce p c h).0 refl

unfoldable pub sample_deps : Deps
unfolding open_seal
sample_deps = record {
  sha256 = λ bs. replicate 32 7;
  sha256-length = λ bs. refl;
  seal = open_seal;
  unseal = λ key nonce c. some c;
  unseal-seal = seal-back;
  seal-bytes = λ key nonce p c h. (open_seal-same key nonce p c h).1;
  hex_encode = λ bs. bs;
  hex_decode = λ s. some s;
  decode-encode = λ bs h. refl;
}

-- A number as that many ones, so that every part of a record is a byte.
unfoldable pub put_ones : ℕ → List ℕ → List ℕ
put_ones zero rest = 0 ∷ rest
put_ones (suc n) rest = 1 ∷ put_ones n rest

unfoldable pub get_ones : List ℕ → Option (ℕ × List ℕ)
get_ones [] = none
get_ones (b ∷ rest) =
    let more = get_ones rest in
    if b == 0 then some (0, rest) else then_read more (λ n left. some (suc n, left))

get_ones-put : (n : ℕ) (rest : List ℕ) → get_ones (put_ones n rest) ≡ some (n, rest)
unfolding get_ones put_ones
get_ones-put zero rest = refl
get_ones-put (suc n) rest = rw (get_ones-put n rest) refl

unfoldable pub put_record : RendezvousRecord → List ℕ
put_record r = put_number r.v (
    put_text r.topic (
      put_text r.device_id (
        put_text r.hostname (
          put_text r.local_ip (
            put_number r.local_port (
              put_option put_text get_text r.stun_addr (
                put_option put_text get_text r.wan_url
                  (put_ones r.timestamp (put_ones r.expires_at [])))))))))

unfoldable pub get_record : List ℕ → Option RendezvousRecord
get_record s0 = then_read (get_number s0) (λ v s1. then_read (get_text s1) (λ topic s2.
    then_read (get_text s2) (λ device_id s3. then_read (get_text s3) (λ hostname s4.
      then_read (get_text s4) (λ local_ip s5. then_read (get_number s5) (λ local_port s6.
        then_read (get_option put_text get_text s6) (λ stun_addr s7.
          then_read (get_option put_text get_text s7) (λ wan_url s8.
            then_read (get_ones s8) (λ timestamp s9. then_read (get_ones s9) (λ expires_at s10.
              some (record {
                v = v;
                topic = topic;
                device_id = device_id;
                hostname = hostname;
                local_ip = local_ip;
                local_port = local_port;
                stun_addr = stun_addr;
                wan_url = wan_url;
                timestamp = timestamp;
                expires_at = expires_at;
              })))))))))))

pub get_record-put : (r : RendezvousRecord) → get_record (put_record r) ≡ some r
unfolding get_record put_record get_number put_number
get_record-put r =
    let text_back = get_option-put put_text get_text get_text-put in
    rw
      (
        get_text-put r.topic _,
        get_text-put r.device_id _,
        get_text-put r.hostname _,
        get_text-put r.local_ip _,
        text_back r.stun_addr _,
        text_back r.wan_url _,
        get_ones-put r.timestamp _,
        get_ones-put r.expires_at _,
      )
      refl

unfoldable pub put_envelope : EncryptedRendezvousEnvelope → Text
put_envelope e =
    put_text e.topic (put_text e.nonce (put_text e.ciphertext (put_number e.updated_at [])))

unfoldable pub get_envelope : Text → Option EncryptedRendezvousEnvelope
get_envelope s0 = then_read (get_text s0) (λ topic s1. then_read (get_text s1) (λ nonce s2.
    then_read (get_text s2) (λ ciphertext s3. then_read (get_number s3) (λ updated_at s4.
      some (record {
        topic = topic;
        nonce = nonce;
        ciphertext = ciphertext;
        updated_at = updated_at;
      })))))

pub get_envelope-put : (e : EncryptedRendezvousEnvelope) → get_envelope (put_envelope e) ≡ some e
unfolding get_envelope put_envelope get_number put_number
get_envelope-put e =
    rw (get_text-put e.topic _, get_text-put e.nonce _, get_text-put e.ciphertext _) refl

pub back_of :
    {A B : Type 0} (put : A → B) (get : B → Option A)
    → ((a : A) → get (put a) ≡ some a)
    → (a : A) (b : B) → some (put a) ≡ some b
    → get b ≡ some a
back_of {A} {B} put get back a b h = subst (λ c. get c ≡ some a) (some_path h) (back a)
  where
    some_path : {x y : B} → some x ≡ some y → x ≡ y
    some_path {x} {y} e = cc

unfoldable pub sample_json : Json
unfolding put_record get_record put_envelope get_envelope
sample_json = record {
  record_to_vec = λ r. some (put_record r);
  record_from_slice = get_record;
  record-back = back_of put_record get_record get_record-put;
  envelope_to_string = λ e. some (put_envelope e);
  envelope_from_str = get_envelope;
  envelope-back = back_of put_envelope get_envelope get_envelope-put;
}
