-- ===== src/Antimatter/Sequence/Bubbles/Examples.antt =====
-- Pruning a broken root of text (core/src/antimatter/sequence_crdt.rs), and an instance of the theorem.
use braid_rs.Antimatter.Sequence.Bubbles.Content.{apply_bubbles-content}
use braid_rs.Antimatter.Sequence.Bubbles.Merging.{keeps}
use braid_rs.Antimatter.Sequence.Bubbles.{Bubbles, apply_bubbles, rename_versions}
use braid_rs.Prelude.{◌≡◌, refl, Bool, true, false, [], ◌∷◌, none, some, Text, returned, str_eq}
use braid_rs.Prelude.Chars.{codes}
use braid_rs.Antimatter.Sequence.{
  SequenceNode, no_nodes, nodes, no_next, next, new_node, string, content, node,
}

abbrev everyone : Text → Bool
everyone v = true

abbrev renames : Bubbles
renames = (codes "a2", (codes "a1", codes "a2")) ∷ (codes "d2", (codes "a1", codes "a2")) ∷ []

-- "he", then a branch, and "l" and "lo" that are deleted by versions of one bubble.
abbrev broken_root : SequenceNode
broken_root =
    node (some (codes "a2")) none (string (codes "he")) false []
      (nodes (new_node (some (codes "b1")) (string (codes "y ")) true none) no_nodes)
      (next (
        node none none (string (codes "l")) false (codes "a2" ∷ []) no_nodes
          (next (node none none (string (codes "lo")) false (codes "d2" ∷ []) no_nodes no_next))))

apply_bubbles_run :
    apply_bubbles broken_root renames
    ≡ returned (
        node
          (some (codes "a1"))
          (some (codes "a2"))
          (string (codes "he"))
          false
          []
          (nodes (new_node (some (codes "b1")) (string (codes "y ")) true none) no_nodes)
          (next (node none none (string (codes "llo")) false (codes "a1" ∷ []) no_nodes no_next)))
unfolding apply_bubbles str_eq
apply_bubbles_run = refl

-- A branch with the version of its node is dropped, and its text with it.
apply_bubbles_drops :
    apply_bubbles
      (node
        (some (codes "a1"))
        none
        (string (codes "he"))
        false
        []
        (nodes (new_node (some (codes "a1")) (string (codes "y ")) true none) no_nodes)
        no_next)
      []
    ≡ returned (new_node (some (codes "a1")) (string (codes "he")) false none)
unfolding apply_bubbles str_eq
apply_bubbles_drops = refl

apply_bubbles-content_example :
    (root' : SequenceNode) × (apply_bubbles broken_root renames ≡ returned root')
    × (content everyone root' ≡ content everyone broken_root)
unfolding keeps rename_versions str_eq
apply_bubbles-content_example = apply_bubbles-content everyone renames broken_root (λ v. refl) refl
