-- ===== src/Antimatter/Sequence/Examples.antt =====
-- A node of text, after the tests of core/src/antimatter/sequence_crdt.rs.
use braid_rs.Prelude.{◌≡◌, refl, Bool, true, none, some, Text}
use braid_rs.Prelude.Chars.{codes}
use braid_rs.Antimatter.Sequence.{SequenceNode, new_node, string, content}

abbrev everyone : Text → Bool
everyone v = true

abbrev alice : SequenceNode
alice = new_node (some (codes "alice1")) (string (codes "hello")) true none

abbrev bob : SequenceNode
bob = new_node (some (codes "bob1")) (string (codes "y ")) true none

-- `test_content`.
content_run : content everyone alice ≡ codes "hello"
unfolding content
content_run = refl
