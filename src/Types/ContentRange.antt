-- ===== src/Types/ContentRange.antt =====
-- `ContentRange` (core/src/core/types/content_range.rs).
use braid_rs.Prelude.{◌≡◌, ◌≢◌, none, some, Text, arith, [], ◌∷◌, ◌++◌, All, Result, ok, err}
use braid_rs.Prelude.Chars.{codes, split_once, split_once_skip, split_once-Splits}

pub record ContentRange : Type 0 where
  pub unit : Text
  pub range : Text

abbrev pub default_range : ContentRange
default_range = record { unit = codes "bytes"; range = codes "0:0" }

unfoldable pub to_header_value : ContentRange → Text
to_header_value r = r.unit ++ (b' ' ∷ r.range)

-- The error holds the value that has no space.
unfoldable pub from_header_value : Text → Result Text ContentRange
unfolding split_once
from_header_value value = elim (split_once (b' ' ∷ []) value) [
  | none ↦ err value
  | some (unit, range) ↦ ok (record { unit = unit; range = range })
]

-- A range whose unit has no space is read back from its header value, whatever its range holds.
pub from_header_value-to_header_value :
    (r : ContentRange) → All (λ c. c ≢ b' ') r.unit → from_header_value (to_header_value r) ≡ ok r
unfolding from_header_value to_header_value
from_header_value-to_header_value r h = ground (arith, split_once_skip b' ' [] r.unit r.range h)

-- What is read from a header value prints as that value again.
pub to_header_value-from_header_value :
    (value : Text) {r : ContentRange} → from_header_value value ≡ ok r → to_header_value r ≡ value
unfolding from_header_value to_header_value
to_header_value-from_header_value value h = ground (arith, split_once-Splits (b' ' ∷ []) value)
