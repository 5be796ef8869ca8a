-- ===== src/Antimatter/Search.antt =====
-- `ancestors`, `descendants` and `get_child_map` (core/src/antimatter/algorithm/bubble.rs). The two
-- inner functions `recurse` differ in the map that they follow only; the depth of their recursion
-- is bounded by fuel, and Search/Exact shows that one more than the number of versions is enough.
pub mod Walk
pub mod Exact
pub mod Children
use braid_rs.Prelude.{
  ℕ, zero, suc, Bool, true, false, List, [], ◌∷◌, Option, none, some, Text, Map, lookup, insert,
  contains_key, keys, unwrap_or, length, StrSet,
}
use braid_rs.Prelude.Set

-- The DAG: the parents of each version.
abbrev pub Graph : Type 0
Graph = Map StrSet

-- The versions found so far, or the version that does not exist.
pub data Found : Type 0 where
  found : Map Bool → Found
  missing : Text → Found
  out_of_fuel : Found

abbrev pub next_of : Graph → Text → StrSet
next_of next v = unwrap_or (lookup v next) []

-- The `?` of the loops.
abbrev pub and_then : Found → (Map Bool → Found) → Found
and_then (found r) f = f r
and_then (missing w) f = missing w
and_then out_of_fuel f = out_of_fuel

-- The loop over the neighbours, which ends at the first error.
unfoldable pub each : (Text → Map Bool → Found) → List Text → Map Bool → Found
each step [] result = found result
each step (p ∷ ps) result = and_then (step p result) (each step ps)

unfoldable pub recurse : Graph → Graph → Bool → ℕ → Text → Map Bool → Found
unfolding each
recurse next t ignore_nonexistent zero v result = out_of_fuel
recurse next t ignore_nonexistent (suc n) v result = elim (contains_key v result) [
  | true ↦ found result
  | false ↦ elim (contains_key v t) [
    | false ↦ elim ignore_nonexistent [ true ↦ found result | false ↦ missing v ]
    | true ↦ each (recurse next t ignore_nonexistent n) (next_of next v) (insert v true result)
  ]
]

unfoldable pub ancestors : Graph → Map Bool → Bool → Found
unfolding recurse each
ancestors t versions ignore_nonexistent =
    each (recurse t t ignore_nonexistent (suc (length t))) (keys versions) []

-- One round of the inner loop of `get_child_map`.
abbrev pub add_child : Text → Text → Graph → Graph
add_child v parent children = insert parent (Set.insert v (next_of children parent)) children

unfoldable pub add_children : Text → List Text → Graph → Graph
unfolding Set.insert
add_children v [] children = children
add_children v (p ∷ ps) children = add_children v ps (add_child v p children)

unfoldable pub child_map_from : Graph → Graph → Graph
unfolding add_children
child_map_from [] children = children
child_map_from ((v, parents) ∷ t) children = child_map_from t (add_children v parents children)

unfoldable pub get_child_map : Graph → Graph
unfolding child_map_from
get_child_map t = child_map_from t []

unfoldable pub descendants : Graph → Map Bool → Bool → Found
unfolding recurse each get_child_map
descendants t versions ignore_nonexistent =
    each (recurse (get_child_map t) t ignore_nonexistent (suc (length t))) (keys versions) []
