-- ===== src/Antimatter/Sequence/Splices.antt =====
-- Splices on the sequence CRDT (core/src/antimatter/sequence_crdt.rs): `add_version` with its
-- `process_splices`, which the code calls at the root only, and `generate_braid`. A negative
-- difference panics, as in a build with overflow checks.
pub mod Braids
pub mod Inserts
mod Examples
use braid_rs.Prelude.{
  ℕ, ◌^◌, ◌+◌, ◌-◌, Bool, true, false, not, ◌&&◌, ◌||◌, ◌==◌, List, [], ◌∷◌, ◌++◌, Option, none,
  some, Text, str_eq, any, leb, ltb, get_elem?, StrSet, Outcome, returned, panicked, if◌then◌else◌,
}
use braid_rs.Prelude.Set
use braid_rs.Antimatter.Sequence.{
  SequenceElems, string, indices, len, SequenceNode, node, Nodes, no_nodes, nodes, Next, no_next,
  next, new_node, break_node, elems_of,
}

pub record Splice : Type 0 where
  pub pos : ℕ
  pub delete_count : ℕ
  pub insert : SequenceElems
  pub sort_key : Option Text
  pub op_type : ℕ

-- The kinds 'i', 'd' and 'r'.
abbrev pub insertion : ℕ
insertion = 105

abbrev pub deletion : ℕ
deletion = 100

abbrev pub replacement : ℕ
replacement = 114

-- `si`, `delete_up_to` and `offset`.
pub record Progress : Type 0 where
  pub si : ℕ
  pub delete_up_to : ℕ
  pub offset : ℕ

-- `si += 1`.
abbrev pub advance : Progress → Progress
advance p = record { si = p.si + 1; delete_up_to = p.delete_up_to; offset = p.offset }

abbrev pub cap_of : SequenceNode → Bool
cap_of (node _ _ _ end_cap _ _ _) = end_cap

abbrev pub deleted_by_of : SequenceNode → StrSet
deleted_by_of (node _ _ _ _ deleted_by _ _) = deleted_by

abbrev pub branches : SequenceNode → Bool
branches (node _ _ _ _ _ no_nodes _) = false
branches (node _ _ _ _ _ (nodes _ _) _) = true

unfoldable pub push_nodes : SequenceNode → Nodes → Nodes
push_nodes m no_nodes = nodes m no_nodes
push_nodes m (nodes n ns) = nodes n (push_nodes m ns)

-- `node.nexts.push(new_node)`.
unfoldable pub push_next : SequenceNode → SequenceNode → SequenceNode
unfolding push_nodes
push_next m (node version sort_key elems end_cap deleted_by nexts tail) =
    node version sort_key elems end_cap deleted_by (push_nodes m nexts) tail

-- `node.deleted_by.insert(version)`.
unfoldable pub mark_deleted : Text → SequenceNode → SequenceNode
unfolding Set.insert
mark_deleted v (node version sort_key elems end_cap deleted_by nexts tail) =
    node version sort_key elems end_cap (Set.insert v deleted_by) nexts tail

-- The new node of a splice.
abbrev pub inserted : Text → Splice → SequenceNode
inserted version s = new_node (some version) s.insert false s.sort_key

-- The node is broken at `position - offset`.
unfoldable pub break_at :
    SequenceNode → ℕ → ℕ → Bool → Option SequenceNode → Outcome (SequenceNode × SequenceNode)
unfolding break_node
break_at n position offset end_cap new_next =
    if ltb position offset then panicked else break_node n (position - offset) end_cap new_next

-- The node in front, with the progress.
abbrev pub broken :
    Progress → Outcome (SequenceNode × SequenceNode) → Outcome (SequenceNode × Progress)
broken p (returned (n, tail)) = returned (n, p)
broken p panicked = panicked

-- The node in front marked as deleted.
abbrev pub broken_deleted :
    Text → Progress → Outcome (SequenceNode × SequenceNode) → Outcome (SequenceNode × Progress)
unfolding mark_deleted
broken_deleted version p (returned (n, tail)) = returned (mark_deleted version n, p)
broken_deleted version p panicked = panicked

-- An insertion at a node that is deleted.
unfoldable pub splice_deleted : SequenceNode → Text → Splice → Progress → SequenceNode × Progress
unfolding push_next
splice_deleted n version s p =
    if s.delete_count == 0 && s.pos == p.offset
    then (push_next (inserted version s) n, advance p)
    else (n, p)

-- Behind the end, the code has nothing to do. A position from 2^63 on is negative as an `isize`, and
-- so is taken for one in front of the end, where breaking the node panics: the length of the elements
-- is an `isize`.
abbrev pub behind_end : SequenceNode → Splice → Progress → Outcome (SequenceNode × Progress)
behind_end n s p = if leb (2 ^ 63) s.pos then panicked else returned (n, p)

-- A pure insertion.
unfoldable pub splice_insert :
    SequenceNode → Text → Splice → Progress → Outcome (SequenceNode × Progress)
unfolding len push_next break_at
splice_insert n version s p =
    let end = p.offset + len (elems_of n) in
    if ltb end s.pos
    then behind_end n s p
    else if s.pos == end && not (cap_of n) && branches n
    then returned (n, p)
    else if s.pos == end && not (cap_of n)
    then returned (push_next (inserted version s) n, advance p)
    else broken (advance p) (break_at n s.pos p.offset false (some (inserted version s)))

-- The last part: the node is marked as deleted up to `delete_up_to`.
unfoldable pub splice_mark : SequenceNode → Text → Progress → Outcome (SequenceNode × Progress)
unfolding len break_at mark_deleted
splice_mark n version p =
    let end = p.offset + len (elems_of n) in
    if not (ltb p.offset p.delete_up_to)
    then returned (n, p)
    else if ltb end p.delete_up_to
    then returned (mark_deleted version n, p)
    else if ltb p.delete_up_to end
    then broken_deleted version (advance p) (break_at n p.delete_up_to p.offset false none)
    else returned (mark_deleted version n, advance p)

-- A deletion, or a replacement.
unfoldable pub splice_delete :
    SequenceNode → Text → Splice → Progress → Outcome (SequenceNode × Progress)
unfolding len break_at splice_mark
splice_delete n version s p =
    let end = p.offset + len (elems_of n) in
    let reached : Progress = record {
      si = p.si;
      delete_up_to = s.pos + s.delete_count;
      offset = p.offset;
    } in
    if not (leb p.delete_up_to p.offset)
    then splice_mark n version p
    else if leb end s.pos
    then behind_end n s p
    else if leb (2 ^ 64) (s.pos + s.delete_count)
    then panicked
    else if not (len s.insert == 0)
    then broken reached (break_at n s.pos p.offset true (some (inserted version s)))
    else if not (s.pos == p.offset)
    then broken reached (break_at n s.pos p.offset false none)
    else splice_mark n version reached

-- The root afterwards, and the rebased splices: the code returns none.
abbrev pub added : Outcome (SequenceNode × Progress) → Outcome (SequenceNode × List Splice)
added (returned (root, p)) = returned (root, [])
added panicked = panicked

-- What `generate_braid` has collected.
pub record Braid : Type 0 where
  pub splices : List Splice
  pub offset : ℕ

abbrev pub is_target : Text → Option Text → Bool
is_target target none = false
is_target target (some v) = str_eq v target

-- `empty_like`.
abbrev pub empty_like : SequenceElems → SequenceElems
empty_like (string s) = string []
empty_like (indices v) = indices []

abbrev pub kind_of : Bool → ℕ
kind_of end_cap = if end_cap then replacement else insertion

-- The splices of one node.
unfoldable pub braid_splices :
    Text → Bool → Option Text → Option Text → SequenceElems → StrSet → ℕ → List Splice
unfolding Set.contains len
braid_splices target end_cap version sort_key elems deleted_by offset =
    if is_target target version
    then record {
      pos = offset;
      delete_count = 0;
      insert = elems;
      sort_key = sort_key;
      op_type = kind_of end_cap;
    }
      ∷ []
    else if Set.contains target deleted_by && not (len elems == 0)
    then record {
      pos = offset;
      delete_count = len elems;
      insert = empty_like elems;
      sort_key = none;
      op_type = deletion;
    }
      ∷ []
    else []

-- A replacement deletes at least one element.
abbrev pub at_least_one : Splice → Splice
at_least_one s = record {
  pos = s.pos;
  delete_count = if s.op_type == replacement && s.delete_count == 0 then 1 else s.delete_count;
  insert = s.insert;
  sort_key = s.sort_key;
  op_type = s.op_type;
}

unfoldable pub replaced : List Splice → List Splice
replaced [] = []
replaced (s ∷ ss) = at_least_one s ∷ replaced ss

module _ (is_anc : Text → Bool) where
  unfoldable pub splice_node :
      SequenceNode → Text → Splice → Progress → Outcome (SequenceNode × Progress)
  unfolding any splice_deleted splice_insert splice_delete
  splice_node n version s p =
      if any is_anc (deleted_by_of n)
      then returned (splice_deleted n version s p)
      else if s.delete_count == 0
      then splice_insert n version s p
      else splice_delete n version s p

  abbrev pub splice_read :
      SequenceNode → Text → Progress → Option Splice → Outcome (SequenceNode × Progress)
  unfolding splice_node
  splice_read n version p none = returned (n, p)
  splice_read n version p (some s) = splice_node n version s p

  unfoldable pub process_splices :
      SequenceNode → List Splice → Text → Progress → Outcome (SequenceNode × Progress)
  unfolding splice_read
  process_splices n splices version p = splice_read n version p (get_elem? splices p.si)

  unfoldable pub add_version :
      SequenceNode → Text → List Splice → Outcome (SequenceNode × List Splice)
  unfolding process_splices
  add_version root version [] = returned (root, [])
  add_version root version (s ∷ ss) =
      added
        (process_splices root (s ∷ ss) version (record { si = 0; delete_up_to = 0; offset = 0 }))

  abbrev pub seen : Option Text → Bool
  seen none = true
  seen (some v) = is_anc v

  -- The offset behind one node.
  unfoldable pub braid_offset : Option Text → SequenceElems → StrSet → ℕ → ℕ
  unfolding any len
  braid_offset version elems deleted_by offset =
      if seen version && not (any is_anc deleted_by) then offset + len elems else offset

  unfoldable mutual
    unfolding braid_splices braid_offset

    pub braid : Text → Bool → SequenceNode → Braid → Braid
    braid target end_cap (node version sort_key elems cap deleted_by nexts tail) b =
        let b1 : Braid = record {
          splices =
              b.splices ++ braid_splices target end_cap version sort_key elems deleted_by b.offset;
          offset = braid_offset version elems deleted_by b.offset;
        } in
        braid_next target tail (braid_nexts target cap nexts b1)

    pub braid_nexts : Text → Bool → Nodes → Braid → Braid
    braid_nexts target end_cap no_nodes b = b
    braid_nexts target end_cap (nodes n ns) b =
        braid_nexts target end_cap ns (braid target end_cap n b)

    pub braid_next : Text → Next → Braid → Braid
    braid_next target no_next b = b
    braid_next target (next n) b = braid target false n b

  unfoldable pub generate_braid : SequenceNode → Text → List Splice
  unfolding braid replaced
  generate_braid root version =
      replaced (braid version false root (record { splices = []; offset = 0 })).splices
