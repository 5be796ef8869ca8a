-- ===== src/Types/Patch.antt =====
-- `Patch` (core/src/core/types/patch.rs).
use braid_rs.Prelude.{
  ℕ, Bool, true, false, Option, some, Text, Bytes, [], ◌∷◌, ◌++◌, length, unwrap_or, ◌==◌, Result,
  ok, err,
}
use braid_rs.Prelude.Chars.{codes}
use braid_rs.Prelude.Utf8.{encode_utf8}

pub record Patch : Type 0 where
  pub unit : Text
  pub range : Text
  pub content : Bytes
  pub content_length : Option ℕ

unfoldable pub new_patch : Text → Text → Bytes → Patch
new_patch unit range content = record {
  unit = unit;
  range = range;
  content = content;
  content_length = some (length content);
}

pub json_patch : Text → Bytes → Patch
unfolding new_patch
json_patch range content = new_patch (codes "json") range content

pub bytes_patch : Text → Bytes → Patch
unfolding new_patch
bytes_patch range content = new_patch (codes "bytes") range content

pub text_patch : Text → Text → Patch
unfolding new_patch encode_utf8
text_patch range content = new_patch (codes "text") range (encode_utf8 content)

pub lines_patch : Text → Text → Patch
unfolding new_patch encode_utf8
lines_patch range content = new_patch (codes "lines") range (encode_utf8 content)

unfoldable pub with_length : Text → Text → Bytes → ℕ → Patch
with_length unit range content n = record {
  unit = unit;
  range = range;
  content = content;
  content_length = some n;
}

-- `len` trusts the stated length.
unfoldable pub len : Patch → ℕ
len p = unwrap_or p.content_length (length p.content)

pub is_empty : Patch → Bool
unfolding len
is_empty p = len p == 0

pub content_range_header : Patch → Text
content_range_header p = p.unit ++ (b' ' ∷ p.range)

abbrev empty_text : Text → Bool
empty_text [] = true
empty_text (_ ∷ _) = false

pub data PatchError : Type 0 where
  empty_unit empty_range : PatchError

-- The two checks of `validate`, the unit first.
check_parts : Bool → Bool → Result PatchError (Unit {0})
check_parts true _ = err empty_unit
check_parts false true = err empty_range
check_parts false false = ok tt

pub validate : Patch → Result PatchError (Unit {0})
unfolding check_parts
validate p = check_parts (empty_text p.unit) (empty_text p.range)
