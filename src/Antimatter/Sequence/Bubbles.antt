-- ===== src/Antimatter/Sequence/Bubbles.antt =====
-- Pruning the sequence CRDT (`apply_bubbles` of core/src/antimatter/sequence_crdt.rs): versions are
-- renamed to the bottom of their bubble, and then nodes are merged. The set of those that have deleted a
-- node is gone through in the order of its list.
pub mod Content
mod Examples
pub mod Merging
use braid_rs.Prelude.Maps.{Map, lookup}
use braid_rs.Prelude.{
  ℕ, Bool, true, false, not, ◌&&◌, ◌==◌, List, [], ◌∷◌, ◌++◌, Option, none, some, Text, str_eq,
  StrSet, Outcome, returned, panicked, bind, if◌then◌else◌,
}
use braid_rs.Prelude.Set
use braid_rs.Antimatter.Sequence.{
  SequenceElems, string, indices, len, SequenceNode, node, Nodes, no_nodes, nodes, Next, no_next,
  next, version_of,
}

-- From a version to the bottom and the top of its bubble.
abbrev pub Bubbles : Type 0
Bubbles = Map (Text × Text)

unfoldable pub concat : SequenceElems → SequenceElems → Outcome SequenceElems
concat (string a) (string b) = returned (string (a ++ b))
concat (indices a) (indices b) = returned (indices (a ++ b))
concat (string a) (indices b) = panicked
concat (indices a) (string b) = panicked

abbrev pub bottom : Text → Option (Text × Text) → Text
bottom v none = v
bottom v (some (b, t)) = b

-- The version of a node afterwards.
unfoldable pub renamed : Bubbles → Text → Text
unfolding lookup
renamed to_bubble v = bottom v (lookup v to_bubble)

abbrev pub renamed_version : Bubbles → Option Text → Option Text
unfolding renamed
renamed_version to_bubble none = none
renamed_version to_bubble (some v) = some (renamed to_bubble v)

-- A version that is renamed stays as the sort key, unless there is one.
abbrev pub renamed_key : Bubbles → Option Text → Option Text → Option Text
unfolding renamed
renamed_key to_bubble (some v) none = if str_eq (renamed to_bubble v) v then none else some v
renamed_key to_bubble none none = none
renamed_key to_bubble version (some key) = some key

abbrev pub rename_one : Text → Option (Text × Text) → StrSet → StrSet
unfolding Set.insert Set.remove
rename_one v none deleted_by = deleted_by
rename_one v (some (b, t)) deleted_by = Set.insert b (Set.remove v deleted_by)

unfoldable pub rename_deleted : Bubbles → List Text → StrSet → StrSet
unfolding rename_one lookup
rename_deleted to_bubble [] deleted_by = deleted_by
rename_deleted to_bubble (v ∷ old) deleted_by =
    rename_deleted to_bubble old (rename_one v (lookup v to_bubble) deleted_by)

unfoldable mutual
  unfolding renamed_version renamed_key rename_deleted

  pub rename_versions : Bubbles → SequenceNode → SequenceNode
  rename_versions to_bubble (node version sort_key elems end_cap deleted_by nexts tail) =
      node (renamed_version to_bubble version) (renamed_key to_bubble version sort_key) elems
        end_cap (rename_deleted to_bubble deleted_by deleted_by) (rename_nexts to_bubble nexts)
        (rename_next to_bubble tail)

  pub rename_nexts : Bubbles → Nodes → Nodes
  rename_nexts to_bubble no_nodes = no_nodes
  rename_nexts to_bubble (nodes n ns) =
      nodes (rename_versions to_bubble n) (rename_nexts to_bubble ns)

  pub rename_next : Bubbles → Next → Next
  rename_next to_bubble no_next = no_next
  rename_next to_bubble (next n) = next (rename_versions to_bubble n)

-- Equality of optional versions.
unfoldable pub same_version : Option Text → Option Text → Bool
same_version none none = true
same_version none (some v) = false
same_version (some v) none = false
same_version (some v) (some w) = str_eq v w

unfoldable pub all_same : Option Text → Nodes → Bool
unfolding same_version
all_same version no_nodes = true
all_same version (nodes n ns) = same_version (version_of n) version && all_same version ns

-- Whether the branches of a node are dropped: there are some, and all have the version of the node.
unfoldable pub clears : Option Text → Nodes → Bool
unfolding all_same
clears version no_nodes = false
clears version (nodes n ns) = all_same version (nodes n ns)

unfoldable pub all_in : StrSet → StrSet → Bool
unfolding Set.contains
all_in [] s = true
all_in (v ∷ vs) s = Set.contains v s && all_in vs s

-- Whether a node without branches takes in the next one.
unfoldable pub mergeable : SequenceElems → StrSet → SequenceElems → StrSet → Bool
unfolding len all_in
mergeable elems deleted_by elems' deleted_by' =
    not (len elems == 0)
    && not (len elems' == 0)
    && all_in deleted_by deleted_by'
    && all_in deleted_by' deleted_by

-- A node in front of a next one that it does not take in.
abbrev pub linked :
    Option Text
    → Option Text
    → StrSet
    → SequenceElems
    → Bool
    → Outcome SequenceNode
    → Outcome SequenceNode
linked version sort_key deleted_by elems end_cap tail =
    bind tail (λ n. returned (node version sort_key elems end_cap deleted_by no_nodes (next n)))

-- A node with its branches and what is next.
abbrev pub branched :
    Option Text
    → Option Text
    → StrSet
    → SequenceElems
    → Bool
    → Outcome Nodes
    → Outcome Next
    → Outcome SequenceNode
branched version sort_key deleted_by elems end_cap nexts tail =
    bind nexts
      (λ ns. bind tail (λ t. returned (node version sort_key elems end_cap deleted_by ns t)))

-- The node and the branches behind it.
abbrev pub consed : Outcome SequenceNode → Outcome Nodes → Outcome Nodes
consed n ns = bind n (λ m. bind ns (λ ms. returned (nodes m ms)))

-- `merge_nodes` goes through the tree. The loop that takes in the next nodes is `take_next`, at a node
-- without branches; it ends with the recursive calls.
unfoldable mutual
  unfolding clears mergeable concat

  pub merge_nodes : SequenceNode → Outcome SequenceNode
  merge_nodes (node version sort_key elems end_cap deleted_by no_nodes tail) =
      take_next version sort_key deleted_by elems end_cap tail
  merge_nodes (node version sort_key elems end_cap deleted_by (nodes n ns) tail) =
      elim (clears version (nodes n ns)) as (λ x. Outcome SequenceNode) [
        | true ↦ take_next version sort_key deleted_by elems end_cap tail
        | false ↦
            branched version sort_key deleted_by elems end_cap
              (consed (merge_nodes n) (merge_branches ns)) (merge_next tail)
      ]

  pub merge_branches : Nodes → Outcome Nodes
  merge_branches no_nodes = returned no_nodes
  merge_branches (nodes n ns) = consed (merge_nodes n) (merge_branches ns)

  pub merge_next : Next → Outcome Next
  merge_next no_next = returned no_next
  merge_next (next n) = bind (merge_nodes n) (λ m. returned (next m))

  pub take_next :
      Option Text → Option Text → StrSet → SequenceElems → Bool → Next → Outcome SequenceNode
  take_next version sort_key deleted_by elems end_cap no_next =
      returned (node version sort_key elems end_cap deleted_by no_nodes no_next)
  take_next version sort_key deleted_by elems end_cap (next n) =
      take_in version sort_key deleted_by elems end_cap n

  pub take_in :
      Option Text
      → Option Text
      → StrSet
      → SequenceElems
      → Bool
      → SequenceNode
      → Outcome SequenceNode
  take_in version sort_key deleted_by elems end_cap
        (node version' sort_key' elems' end_cap' deleted_by' no_nodes tail) =
      elim (mergeable elems deleted_by elems' deleted_by') as (λ x. Outcome SequenceNode) [
        | true ↦
            bind (concat elems elems')
              (λ both. take_next version sort_key deleted_by both end_cap' tail)
        | false ↦
            linked version sort_key deleted_by elems end_cap
              (take_next version' sort_key' deleted_by' elems' end_cap' tail)
      ]
  take_in version sort_key deleted_by elems end_cap
        (node version' sort_key' elems' end_cap' deleted_by' (nodes n ns) tail) =
      elim (mergeable elems deleted_by elems' deleted_by') as (λ x. Outcome SequenceNode) [
        | true ↦ bind (concat elems elems') (λ both.
            branched version sort_key deleted_by both end_cap'
              (consed (merge_nodes n) (merge_branches ns)) (merge_next tail))
        | false ↦
            linked version sort_key deleted_by elems end_cap
              (elim (clears version' (nodes n ns)) as (λ x. Outcome SequenceNode) [
                | true ↦ take_next version' sort_key' deleted_by' elems' end_cap' tail
                | false ↦
                    branched version' sort_key' deleted_by' elems' end_cap'
                      (consed (merge_nodes n) (merge_branches ns)) (merge_next tail)
              ])
      ]

unfoldable pub apply_bubbles : SequenceNode → Bubbles → Outcome SequenceNode
unfolding rename_versions merge_nodes
apply_bubbles root to_bubble = merge_nodes (rename_versions to_bubble root)
