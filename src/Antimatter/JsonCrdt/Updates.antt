-- ===== src/Antimatter/JsonCrdt/Updates.antt =====
-- `generate_braid` of the JSON CRDT (core/src/antimatter/json_crdt.rs): the updates that a peer lacks.
-- Its stack loop is on fuel.
use braid_rs.Prelude.Decimal.{show}
use braid_rs.Prelude.{
  ℕ, zero, suc, length, StrSet, ◌+◌, Bool, true, false, List, [], ◌∷◌, ◌++◌, Option, none, some,
  Text, if◌then◌else◌,
}
use mathlib.Core.List.{reverse}
use braid_rs.Prelude.Maps.{Map, lookup, contains_key, keys}
use braid_rs.Prelude.Json.{Value}
use braid_rs.Prelude.Set
use braid_rs.Antimatter.Search.{Graph, next_of}
use braid_rs.Antimatter.Bubble.{push_all, pending}
use braid_rs.Antimatter.Sequence.{SequenceElems, indices, string}
use braid_rs.Antimatter.Sequence.Splices.{Splice}
use braid_rs.Antimatter.JsonCrdt.{JsonCrdt, JsonPatch, generate_version_splices}

-- The keys of the parents of each version.
unfoldable pub graph_of : Map (Map Bool) → Graph
graph_of [] = []
graph_of ((v, parents) ∷ t) = (v, keys parents) ∷ graph_of t

-- The loop of `generate_braid` over a stack, with the keys of `ancestors_of_known`.
unfoldable pub known_ancestors : Graph → ℕ → List Text → StrSet → Option StrSet
unfolding push_all Set.insert Set.contains lookup
known_ancestors t zero stack seen = none
known_ancestors t (suc n) [] seen = some seen
known_ancestors t (suc n) (v ∷ stack) seen = elim (Set.contains v seen) [
  | true ↦ known_ancestors t n stack seen
  | false ↦ elim (contains_key v t) [
    | true ↦ known_ancestors t n (push_all (next_of t v) stack) (Set.insert v seen)
    | false ↦ known_ancestors t n stack seen
  ]
]

abbrev pub content_of : SequenceElems → Value
content_of (string s) = Value.string s
content_of (indices v) = Value.null

-- `format!("{}:{}", pos, pos + delete_count)`.
unfoldable pub to_patch : Splice → JsonPatch
unfolding show
to_patch s = record {
  range = show s.pos ++ (b':' ∷ show (s.pos + s.delete_count));
  content = content_of s.insert;
}

unfoldable pub to_patches : List Splice → List JsonPatch
unfolding to_patch
to_patches [] = []
to_patches (s ∷ ss) = to_patch s ∷ to_patches ss

abbrev pub Update : Type 0
Update = Text × (Map Bool × List JsonPatch)

abbrev pub add_update : JsonCrdt → Text → Option (Map Bool) → List Update → List Update
unfolding to_patches generate_version_splices
add_update c version none updates = updates
add_update c version (some parents) updates =
    (version, (parents, to_patches (generate_version_splices c version))) ∷ updates

-- The updates of the versions in turn that are not among the known.
unfoldable pub updates_of : JsonCrdt → StrSet → List Text → List Update
unfolding add_update Set.contains lookup
updates_of c seen [] = []
updates_of c seen (version ∷ versions) =
    let later = updates_of c seen versions in
    if Set.contains version seen then later else add_update c version (lookup version c.t) later

abbrev pub sent_to : JsonCrdt → Option StrSet → Option (List Update)
unfolding updates_of
sent_to c none = none
sent_to c (some seen) = some (updates_of c seen (keys c.t))

-- `none` only if the fuel ran out.
unfoldable pub generate_braid : JsonCrdt → Map Bool → Option (List Update)
unfolding known_ancestors sent_to pending graph_of
generate_braid c known =
    let stack = reverse (keys known) in
    let t = graph_of c.t in
    sent_to c (known_ancestors t (suc (length stack + pending t [])) stack [])
