-- ===== src/Types/Examples.antt =====
-- Instances of the theorems about the types (core/src/core/types).
use braid_rs.Prelude.{◌≡◌, arith, ok}
use braid_rs.Prelude.Chars.{codes}
use braid_rs.Types.ContentRange.{
  ContentRange, to_header_value, from_header_value, from_header_value-to_header_value,
}

abbrev user_name : ContentRange
user_name = record { unit = codes "json"; range = codes ".users[0] name" }

from_header_value-to_header_value_example :
    from_header_value (to_header_value user_name) ≡ ok user_name
from_header_value-to_header_value_example =
    from_header_value-to_header_value user_name (omega arith)
