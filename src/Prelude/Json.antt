-- ===== src/Prelude/Json.antt =====
-- `serde_json::Value`, as far as the program looks into it: a number is a `u64`, an `i64` below
-- zero, or another number with its text.
use Prim.Native.Nat.{ℕ}
use mathlib.Core.Bool.{Bool}
use mathlib.Core.List.{List, [], ◌∷◌}
use mathlib.Core.Option.{Option, none, some}
use braid_rs.Prelude.Tests.{if◌then◌else◌}
use braid_rs.Prelude.Lists.{Text}
use braid_rs.Prelude.Strings.{str_eq}
use braid_rs.Prelude.Int.{ℤ}

mutual
  pub data Value : Type 0 where
    null : Value
    bool : Bool → Value
    integer : ℤ → Value
    other_number : Text → Value
    string : Text → Value
    array : Items → Value
    object : Fields → Value

  pub data Items : Type 0 where
    nil : Items
    cons : Value → Items → Items

  pub data Fields : Type 0 where
    end : Fields
    field : Text → Value → Fields → Fields

unfoldable pub field_of : Text → Fields → Option Value
field_of key end = none
field_of key (field k v fs) = if str_eq k key then some v else field_of key fs

-- `Value::get` with a text.
unfoldable pub get : Text → Value → Option Value
unfolding field_of
get key (object fs) = field_of key fs
get key _ = none

abbrev pub is_object : Value → Bool
is_object (object _) = Bool.true
is_object _ = Bool.false

abbrev pub as_str : Value → Option Text
as_str (string s) = some s
as_str _ = none

abbrev pub as_u64 : Value → Option ℕ
as_u64 (integer (ℤ.pos n)) = some n
as_u64 _ = none

abbrev pub to_list : Items → List Value
to_list nil = []
to_list (cons v vs) = v ∷ to_list vs

abbrev pub of_list : List Value → Items
of_list [] = nil
of_list (v ∷ vs) = cons v (of_list vs)

abbrev pub as_array : Value → Option (List Value)
as_array (array vs) = some (to_list vs)
as_array _ = none
