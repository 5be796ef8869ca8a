-- ===== src/Prelude/Set.antt =====
-- `HashSet<String>` as a list of texts; the iteration order is the order of the list.
use mathlib.Core.Path.{◌≡◌}
use mathlib.Core.Bool.{Bool, true, false, ◌||◌, ◌&&◌, not}
use mathlib.Core.List.{List, [], ◌∷◌}
use native.Mathlib.Omega.{arith}
use braid_rs.Prelude.Lists.{Text}
use braid_rs.Prelude.Strings.{str_eq, eq_iff, str_eq_self}
use braid_rs.Prelude.Tests.{if◌then◌else◌}

abbrev pub StrSet : Type 0
StrSet = List Text

unfoldable pub contains : Text → StrSet → Bool
contains k [] = false
contains k (j ∷ s) = str_eq j k || contains k s

unfoldable pub insert : Text → StrSet → StrSet
unfolding contains
insert k s = if contains k s then s else k ∷ s

unfoldable pub remove : Text → StrSet → StrSet
remove k [] = []
remove k (j ∷ s) = let rest = remove k s in if str_eq j k then rest else j ∷ rest

-- Inserts every element of a list.
unfoldable pub extend : List Text → StrSet → StrSet
extend [] s = s
extend (k ∷ ks) s = extend ks (insert k s)

pub contains-insert :
    (k j : Text) (s : StrSet) → contains j (insert k s) ≡ (str_eq k j || contains j s)
unfolding insert
contains-insert k j s = ground (arith, eq_iff k j)

pub contains-remove :
    (k j : Text) (s : StrSet) → contains j (remove k s) ≡ (not (str_eq k j) && contains j s)
unfolding contains remove
contains-remove k j [] = ground arith
contains-remove k j (i ∷ s) =
    ground (arith, eq_iff k j, eq_iff i k, eq_iff i j, contains-remove k j s)

pub contains-insert_self : (k : Text) (s : StrSet) → contains k (insert k s) ≡ true
contains-insert_self k s = ground (arith, contains-insert k k s, str_eq_self k)
