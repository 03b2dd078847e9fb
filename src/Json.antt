-- ===== src/Json.antt =====
-- The fields of JSON objects that the endpoints of src/main.rs read.
use omarchy_omasend.Common.{Option, none, some}
use omarchy_omasend.Common.Text.{Text}

-- A field of a JSON object: missing, a string, or another value.
pub data Field : Type 0 where
  missing other : Field
  text : Text → Field

unfoldable pub as_str : Field → Option Text
as_str (text s) = some s
as_str _ = none

-- `a.or_else(|| b)` on fields, which only a missing one passes on.
abbrev pub or_field : Field → Field → Field
or_field missing b = b
or_field a b = a
