-- ===== src/Prelude/Maps.antt =====
-- `HashMap<String, V>` and `BTreeMap<String, V>` as association lists. The iteration order of a
-- hash map is the order of the list, so a statement about every list covers every order.
use mathlib.Core.Path.{◌≡◌, refl}
use mathlib.Core.Bool.{Bool}
use mathlib.Core.List.{List, [], ◌∷◌}
use mathlib.Core.Option.{Option, none, some}
use native.Mathlib.Omega.{arith}
use braid_rs.Prelude.Lists.{Text}
use braid_rs.Prelude.Strings.{str_eq, eq_iff, str_eq_self}
use braid_rs.Prelude.Tests.{if◌then◌else◌, is_some}

abbrev pub Map {ℓ} : Type ℓ → Type ℓ
Map V = List (Text × V)

module _ {ℓ} {V : Type ℓ} where
  unfoldable pub lookup : Text → Map V → Option V
  lookup key [] = none
  lookup key ((stored, value) ∷ entries) =
      if str_eq stored key then some value else lookup key entries

  -- The entry of the key is replaced where it stands, or put at the end.
  unfoldable pub insert : Text → V → Map V → Map V
  insert key value [] = (key, value) ∷ []
  insert key value ((stored, old) ∷ entries) =
      let kept : Map V = (stored, old) ∷ insert key value entries in
      if str_eq stored key then (key, value) ∷ entries else kept

  unfoldable pub remove : Text → Map V → Map V
  remove k [] = []
  remove k ((j, w) ∷ m) = let rest = remove k m in if str_eq j k then rest else (j, w) ∷ rest

  abbrev pub contains_key : Text → Map V → Bool
  contains_key k m = is_some (lookup k m)

  abbrev pub keys : Map V → List Text
  keys [] = []
  keys ((j, _) ∷ m) = j ∷ keys m

  abbrev pub values : Map V → List V
  values [] = []
  values ((_, v) ∷ m) = v ∷ values m

  pub lookup-insert :
      (key asked : Text) (value : V) (entries : Map V)
      → lookup asked (insert key value entries)
        ≡ (if str_eq key asked then some value else lookup asked entries)
  unfolding insert lookup
  lookup-insert key asked value [] = refl
  lookup-insert key asked value ((stored, old) ∷ entries) = ground (
    arith,
    lookup-insert key asked value entries,
    eq_iff stored asked,
    eq_iff stored key,
    eq_iff key asked,
  )

  pub lookup-remove :
      (key asked : Text) (entries : Map V)
      → lookup asked (remove key entries)
        ≡ (if str_eq key asked then none else lookup asked entries)
  unfolding remove lookup
  lookup-remove key asked [] = ground arith
  lookup-remove key asked ((stored, old) ∷ entries) = ground (
    arith,
    lookup-remove key asked entries,
    eq_iff stored asked,
    eq_iff stored key,
    eq_iff key asked,
  )

  -- A second value for a key takes the place of the first.
  pub insert-insert :
      (key : Text) (value old : V) (entries : Map V)
      → insert key value (insert key old entries) ≡ insert key value entries
  unfolding insert
  insert-insert key value old [] = ground (arith, str_eq_self key)
  insert-insert key value old ((stored, older) ∷ entries) =
      ground (arith, str_eq_self key, insert-insert key value old entries)
