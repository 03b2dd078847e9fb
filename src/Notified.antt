-- ===== src/Notified.antt =====
-- The map of files that were announced a short time ago, in src/main.rs. `locks` says whether the lock
-- is free of poison; the map is made at the first entry.
use omarchy_omasend.Common.{
  ℕ, ◌-◌, ◌≡◌, refl, Bool, true, false, not, List, [], ◌∷◌, Option, none, some, ltb, if◌then◌else◌,
  any, keep_if, arith, Bool-cases, inl, inr,
}
use omarchy_omasend.Common.Text.{Text, text_eq, text_eq_iff}
use omarchy_omasend.PinLimiter.{secs}

abbrev pub Announced : Type 0
Announced = Option (List (Text × ℕ))

abbrev pub is_recent : ℕ → Text × ℕ → Bool
is_recent now e = ltb (now - e.1) (secs 60)

abbrev pub entries : Announced → List (Text × ℕ)
entries none = []
entries (some map) = map

unfoldable pub record_notified_file : Bool → ℕ → Text → Announced → Announced
record_notified_file locks now file_name announced =
    if locks
    then some (
        (file_name, now)
        ∷ keep_if (λ e. not (text_eq e.0 file_name)) (keep_if (is_recent now) (entries announced)))
    else announced

unfoldable pub is_recently_notified : Bool → ℕ → Text → Announced → Bool × Announced
is_recently_notified locks now file_name none = (false, none)
is_recently_notified locks now file_name (some map) =
    let kept = keep_if (is_recent now) map in
    if locks then (any (λ e. text_eq e.0 file_name) kept, some kept) else (false, some map)

-- Once the entries of a name are gone, keeping fewer of the others does not bring it back.
gone-any :
    (now : ℕ) (name : Text) (es : List (Text × ℕ))
    → any
        (λ e. text_eq e.0 name)
        (keep_if (is_recent now) (keep_if (λ e. not (text_eq e.0 name)) es))
      ≡ false
gone-any now name [] = refl
gone-any now name (e ∷ es) = ground (arith, gone-any now name es)

-- A file that was recorded is recently notified for less than sixty seconds and no longer, whatever
-- was recorded before.
pub notified-record :
    (now later : ℕ) (name : Text) (announced : Announced)
    → (is_recently_notified true later name (record_notified_file true now name announced)).0
      ≡ ltb (later - now) (secs 60)
unfolding record_notified_file is_recently_notified
notified-record now later name announced =
    let same : text_eq name name ≡ true = (text_eq_iff name name).1 refl in
    let older = gone-any later name (keep_if (is_recent now) (entries announced)) in
    elim (Bool-cases (ltb (later - now) (secs 60))) [
      | inl t ↦ rw (t, same) refl
      | inr f ↦ rw (f, older) refl
    ]
