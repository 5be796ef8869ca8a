-- ===== src/Antimatter/Sequence/Splices/Braids.antt =====
-- What `generate_braid` gives back of an insertion that `add_version` has put into the tree
-- (core/src/antimatter/sequence_crdt.rs).
use braid_rs.Antimatter.Sequence.Splices.Inserts.{
  insert_of, add_version-placed, fits, if_either, placed,
}
use braid_rs.Antimatter.Sequence.Splices.{
  Braid, braid, braid_next, braid_nexts, braid_offset, braid_splices, is_target, generate_braid,
  inserted, replaced, seen, add_version, push_next,
}
use braid_rs.Prelude.{
  ℕ, ◌≡◌, refl, ◌∙◌, ap, Bool, true, false, not, ◌&&◌, ◌||◌, ◌==◌, [], ◌∷◌, ◌++◌, Option, none,
  Text, any, take, drop, StrSet, returned, arith, str_eq_self,
}
use mathlib.Core.List.{append-nil}
use braid_rs.Prelude.Set
use braid_rs.Antimatter.Sequence.{
  SequenceElems, string, len, SequenceNode, node, Nodes, no_nodes, nodes, Next, no_next, next,
}

-- Whether a version is the version of a node of the tree, or has deleted one.
unfoldable mutual
  unfolding Set.contains

  pub mentions : Text → SequenceNode → Bool
  mentions target (node version _ _ _ deleted_by nexts tail) =
      is_target target version
      || Set.contains target deleted_by
      || mentions_nexts target nexts
      || mentions_next target tail

  pub mentions_nexts : Text → Nodes → Bool
  mentions_nexts target no_nodes = false
  mentions_nexts target (nodes n ns) = mentions target n || mentions_nexts target ns

  pub mentions_next : Text → Next → Bool
  mentions_next target no_next = false
  mentions_next target (next n) = mentions target n

braid_splices_none :
    (target : Text) (end_cap : Bool) (version key : Option Text) (elems : SequenceElems)
    (deleted_by : StrSet) (offset : ℕ)
    → is_target target version ≡ false
    → Set.contains target deleted_by ≡ false
    → braid_splices target end_cap version key elems deleted_by offset ≡ []
unfolding braid_splices
braid_splices_none target end_cap version key elems deleted_by offset other kept = rw (other, kept)

module _ (is_anc : Text → Bool) where
  mutual
    unfolding braid mentions

    braid_unmentioned :
        (target : Text) (end_cap : Bool) (n : SequenceNode) (b : Braid)
        → mentions target n ≡ false
        → (braid is_anc target end_cap n b).splices ≡ b.splices
    braid_unmentioned target end_cap (node version key elems cap deleted_by nexts tail) b h =
        let b1 : Braid = record {
          splices = b.splices ++ braid_splices target end_cap version key elems deleted_by b.offset;
          offset = braid_offset is_anc version elems deleted_by b.offset;
        } in
        braid_next_unmentioned target tail (braid_nexts is_anc target cap nexts b1)
          (ground (arith, h))
        ∙ braid_nexts_unmentioned target cap nexts b1 (ground (arith, h))
        ∙ ap (◌++◌ b.splices) (
            braid_splices_none target end_cap version key elems deleted_by b.offset
              (ground (arith, h)) (ground (arith, h)))
        ∙ append-nil b.splices

    braid_nexts_unmentioned :
        (target : Text) (end_cap : Bool) (ns : Nodes) (b : Braid)
        → mentions_nexts target ns ≡ false
        → (braid_nexts is_anc target end_cap ns b).splices ≡ b.splices
    braid_nexts_unmentioned target end_cap no_nodes b h = refl
    braid_nexts_unmentioned target end_cap (nodes n ns) b h =
        braid_nexts_unmentioned target end_cap ns (braid is_anc target end_cap n b)
          (ground (arith, h))
        ∙ braid_unmentioned target end_cap n b (ground (arith, h))

    braid_next_unmentioned :
        (target : Text) (tail : Next) (b : Braid)
        → mentions_next target tail ≡ false
        → (braid_next is_anc target tail b).splices ≡ b.splices
    braid_next_unmentioned target no_next b h = refl
    braid_next_unmentioned target (next n) b h = braid_unmentioned target false n b h

  -- The new node where nothing has been collected yet.
  braid_new :
      (version t : Text) (x : ℕ) (key : Option Text) (b : Braid)
      → b.splices ≡ []
      → b.offset ≡ x
      → (braid_nexts is_anc version false
          (nodes (inserted version (insert_of x t key)) no_nodes)
          b).splices
        ≡ insert_of x t key ∷ []
  unfolding braid braid_splices
  braid_new version t x key b none_yet here = rw (str_eq_self version, none_yet, here)

  -- The splices of a node that is not mentioned, with the new node and then a tail behind it.
  braid_around :
      (v k : Option Text) (s : Text) (deleted_by : StrSet) (tail : Next) (version t : Text) (x : ℕ)
      (key : Option Text)
      → any is_anc deleted_by ≡ false
      → seen is_anc v ≡ true
      → len (string s) ≡ x
      → is_target version v ≡ false
      → Set.contains version deleted_by ≡ false
      → mentions_next version tail ≡ false
      → generate_braid is_anc
          (node v k
            (string s)
            false
            deleted_by
            (nodes (inserted version (insert_of x t key)) no_nodes)
            tail)
          version
        ≡ insert_of x t key ∷ []
  unfolding generate_braid braid braid_offset
  braid_around v k s deleted_by tail version t x key live known width other kept behind =
      let b : Braid = record {
        splices = braid_splices version false v k (string s) deleted_by 0;
        offset = braid_offset is_anc v (string s) deleted_by 0;
      } in
      let m = nodes (inserted version (insert_of x t key)) no_nodes in
      ap replaced (
        braid_next_unmentioned version tail (braid_nexts is_anc version false m b) behind
        ∙ braid_new version t x key b
            (braid_splices_none version false v k (string s) deleted_by 0 other kept)
            (ground (arith, live, known, width)))

  -- The same of what `placed` makes of the root.
  pub braid-placed :
      (v k : Option Text) (s : Text) (cap : Bool) (deleted_by : StrSet) (nexts : Nodes)
      (tail : Next) (version t : Text) (x : ℕ) (key : Option Text)
      → any is_anc deleted_by ≡ false
      → seen is_anc v ≡ true
      → len (string (take x s)) ≡ x
      → fits x (node v k (string s) cap deleted_by nexts tail) ≡ true
      → mentions version (node v k (string s) cap deleted_by nexts tail) ≡ false
      → generate_braid is_anc
          (placed
            (inserted version (insert_of x t key))
            x
            (node v k (string s) cap deleted_by nexts tail))
          version
        ≡ insert_of x t key ∷ []
  unfolding placed fits mentions push_next
  braid-placed v k s false deleted_by no_nodes tail version t x key live known width fit new =
      if_either (x == len (string s) && not false)
        (λ m. generate_braid is_anc m version ≡ insert_of x t key ∷ [])
        (λ at_end.
          braid_around v k s deleted_by tail version t x key live known (ground (arith, at_end))
            (ground (arith, new)) (ground (arith, new)) (ground (arith, new)))
        (braid_around v k (take x s) deleted_by
          (next (node none none (string (drop x s)) false deleted_by no_nodes tail)) version t x key
          live known width (ground (arith, new)) (ground (arith, new)) (ground (arith, new)))
  braid-placed v k s true deleted_by no_nodes tail version t x key live known width fit new =
      if_either (x == len (string s) && not true)
        (λ m. generate_braid is_anc m version ≡ insert_of x t key ∷ [])
        (λ at_end. absurd (ground (arith, at_end, fit)))
        (braid_around v k (take x s) deleted_by
          (next (node none none (string (drop x s)) true deleted_by no_nodes tail)) version t x key
          live known width (ground (arith, new)) (ground (arith, new)) (ground (arith, new)))
  braid-placed v k s cap deleted_by (nodes n ns) tail version t x key live known width fit new =
      if_either (x == len (string s) && not cap)
        (λ m. generate_braid is_anc m version ≡ insert_of x t key ∷ [])
        (λ at_end. absurd (ground (arith, at_end, fit)))
        (braid_around v k (take x s) deleted_by
          (next (node none none (string (drop x s)) cap deleted_by (nodes n ns) tail)) version t x
          key live known width (ground (arith, new)) (ground (arith, new)) (ground (arith, new)))

  -- A text is inserted with a splice at a position of the root that `add_version` does not pass over,
  -- where the characters in front of it take one byte each. The root is not deleted and its version,
  -- if it has one, is included, and the version of the insertion occurs nowhere in the tree. Then
  -- `generate_braid` of that version gives back that one splice from the tree that `add_version` leaves.
  pub generate_braid-add_version :
      (v k : Option Text) (s : Text) (cap : Bool) (deleted_by : StrSet) (nexts : Nodes)
      (tail : Next) (version t : Text) (x : ℕ) (key : Option Text)
      → any is_anc deleted_by ≡ false
      → seen is_anc v ≡ true
      → len (string (take x s)) ≡ x
      → fits x (node v k (string s) cap deleted_by nexts tail) ≡ true
      → mentions version (node v k (string s) cap deleted_by nexts tail) ≡ false
      → (root' : SequenceNode) × (add_version is_anc
            (node v k (string s) cap deleted_by nexts tail)
            version
            (insert_of x t key ∷ [])
          ≡ returned (root', []))
        × (generate_braid is_anc root' version ≡ insert_of x t key ∷ [])
  generate_braid-add_version v k s cap deleted_by nexts tail version t x key live known width fit
        new =
      (
        placed (inserted version (insert_of x t key)) x
            (node v k (string s) cap deleted_by nexts tail),
        add_version-placed is_anc v k s cap deleted_by nexts tail version t x key [] live fit,
        braid-placed v k s cap deleted_by nexts tail version t x key live known width fit new,
      )
