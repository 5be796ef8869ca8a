-- ===== src/Antimatter/Sequence/Splices/Examples.antt =====
-- Splices at a root of text (core/src/antimatter/sequence_crdt.rs), and instances of the theorems.
use braid_rs.Antimatter.Sequence.Splices.Braids.{generate_braid-add_version, mentions}
use braid_rs.Antimatter.Sequence.Splices.Inserts.{add_version-content, fits, insert_of}
use braid_rs.Antimatter.Sequence.Splices.{add_version, deletion, generate_braid}
use braid_rs.Prelude.{
  ◌≡◌, refl, Bool, true, [], ◌∷◌, ◌++◌, none, some, Text, any, returned, str_eq, take, drop, arith,
  false,
}
use braid_rs.Prelude.Chars.{codes}
use braid_rs.Prelude.Utf8.{encode_utf8}
use braid_rs.Antimatter.Sequence.{
  SequenceNode, no_nodes, no_next, new_node, string, content, len, node, next,
}

abbrev everyone : Text → Bool
everyone v = true

abbrev hello : SequenceNode
hello = new_node (some (codes "alice1")) (string (codes "hello")) false none

-- Behind the root's text nothing is looked at: the splice is dropped.
add_version_beyond :
    add_version everyone hello (codes "bob1") (insert_of 6 (codes "y") none ∷ [])
    ≡ returned (hello, [])
unfolding add_version
add_version_beyond = refl

-- A deletion in the middle only breaks the root: nothing is marked as deleted.
add_version_delete :
    add_version everyone hello (codes "bob1") (
      record { pos = 1; delete_count = 2; insert = string []; sort_key = none; op_type = deletion }
      ∷ [])
    ≡ returned (
      node
          (some (codes "alice1"))
          none
          (string (codes "h"))
          false
          []
          no_nodes
          (next (new_node none (string (codes "ello")) false none)),
      [],
    )
unfolding add_version
add_version_delete = refl

add_version-content_example :
    (root' : SequenceNode) × (add_version everyone hello
        (codes "bob1")
        (insert_of 2 (codes "y he") none ∷ insert_of 0 (codes "x") none ∷ [])
      ≡ returned (root', []))
    × (content everyone root'
        ≡ take 2 (content everyone hello) ++ (codes "y he" ++ drop 2 (content everyone hello)))
unfolding any fits
add_version-content_example =
    add_version-content everyone (some (codes "alice1")) none (codes "hello") false [] no_nodes
      no_next (codes "bob1") (codes "y he") 2 none (insert_of 0 (codes "x") none ∷ []) refl refl
      (omega arith) refl

generate_braid-add_version_example :
    (root' : SequenceNode) × (add_version everyone hello
        (codes "bob1")
        (insert_of 2 (codes "y he") none ∷ [])
      ≡ returned (root', []))
    × (generate_braid everyone root' (codes "bob1") ≡ insert_of 2 (codes "y he") none ∷ [])
unfolding any fits mentions len encode_utf8 str_eq
generate_braid-add_version_example =
    generate_braid-add_version everyone (some (codes "alice1")) none (codes "hello") false []
      no_nodes no_next (codes "bob1") (codes "y he") 2 none refl refl refl refl refl
