-- ===== src/Prelude/Int.antt =====
-- Signed integers (`i64`), as a sign and a native number.
use Prim.Native.Nat.{ℕ, suc}
use mathlib.Core.List.{◌∷◌}
use braid_rs.Prelude.Decimal.{show}
use braid_rs.Prelude.Lists.{Text}

-- `negsuc n` is -(n + 1).
pub data ℤ : Type 0 where
  pos : ℕ → ℤ
  negsuc : ℕ → ℤ

-- `to_string` of an integer.
unfoldable pub show_int : ℤ → Text
unfolding show
show_int (pos n) = show n
show_int (negsuc n) = b'-' ∷ show (suc n)
