-- ===== src/Common/Results.antt =====
-- Rust's `Result`, with the error type as its second parameter, and `do` notation for it.
use mathlib.Core.Option.{Option, none, some}
use mathlib.Core.Bool.{Bool, true, false}

pub data Result {ℓ κ} (A : Type ℓ) (E : Type κ) : Type (ℓ ⊔ κ) where
  ok : A → Result A E
  err : E → Result A E

infixl 5 ◌>>=◌ ◌>>◌
abbrev pub ◌>>=◌ {ℓ κ ι} :
    {A : Type ℓ} {B : Type κ} {E : Type ι} → Result A E → (A → Result B E) → Result B E
ok a >>= f = f a
err e >>= f = err e

abbrev pub ◌>>◌ {κ ι} : {B : Type κ} {E : Type ι} → Result (Unit {0}) E → Result B E → Result B E
m >> k = m >>= λ _. k

-- `if !test { return Err(e); }`
abbrev pub guard {ι} : {E : Type ι} → Bool → E → Result (Unit {0}) E
guard true e = ok tt
guard false e = err e

-- `o.ok_or(e)?`
abbrev pub or_fail {ℓ ι} : {A : Type ℓ} {E : Type ι} → Option A → E → Result A E
or_fail none e = err e
or_fail (some a) e = ok a
