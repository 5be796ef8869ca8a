-- ===== src/Types/Version.antt =====
-- `Version` (core/src/core/types/version.rs): a text or an `i64`.
use braid_rs.Prelude.{Bool, true, false, Option, none, some, Text}
use braid_rs.Prelude.Int.{ℤ, show_int}
use braid_rs.Prelude.Json.{Value}

pub data Version : Type 0 where
  string : Text → Version
  integer : ℤ → Version

pub is_string : Version → Bool
is_string (string _) = true
is_string (integer _) = false

pub is_integer : Version → Bool
is_integer (string _) = false
is_integer (integer _) = true

pub as_str : Version → Option Text
as_str (string s) = some s
as_str (integer _) = none

pub as_integer : Version → Option ℤ
as_integer (integer i) = some i
as_integer (string _) = none

-- `Display`.
unfoldable pub to_string : Version → Text
unfolding show_int
to_string (string s) = s
to_string (integer i) = show_int i

pub to_json : Version → Value
to_json (string s) = Value.string s
to_json (integer i) = Value.integer i

-- A number that is no `i64`, and any other value, becomes its text; `render` is the JSON printer.
pub from_json : (Value → Text) → Value → Version
from_json render (Value.string s) = string s
from_json render (Value.integer i) = integer i
from_json render (Value.other_number s) = string s
from_json render v = string (render v)
