-- ===== src/Common/Bytes.antt =====
-- Bytes and numbers at a place of a byte string. Out of range a byte reads as 0; the sources check
-- the length before.
use Prim.Native.Nat.{ℕ, ◌+◌, ◌*◌}
use mathlib.Core.Option.{none, some}
use mathlib.Core.List.{List}
use omarchy_omasend.Common.Lists.{get_elem?, take, drop}

abbrev pub byte_at : List ℕ → ℕ → ℕ
byte_at bytes i = elim (get_elem? bytes i) [ none ↦ 0 | some b ↦ b ]

abbrev pub be16 : List ℕ → ℕ → ℕ
be16 bytes i = byte_at bytes i * 256 + byte_at bytes (i + 1)

abbrev pub be32 : List ℕ → ℕ → ℕ
be32 bytes i = be16 bytes i * 65536 + be16 bytes (i + 2)

abbrev pub le16 : List ℕ → ℕ → ℕ
le16 bytes i = byte_at bytes i + byte_at bytes (i + 1) * 256

abbrev pub le32 : List ℕ → ℕ → ℕ
le32 bytes i = le16 bytes i + le16 bytes (i + 2) * 65536

-- `&data[i..i + n]`.
abbrev pub slice : List ℕ → ℕ → ℕ → List ℕ
slice bytes i n = take n (drop i bytes)
