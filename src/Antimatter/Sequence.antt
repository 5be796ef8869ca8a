-- ===== src/Antimatter/Sequence.antt =====
-- The sequence CRDT (core/src/antimatter/sequence_crdt.rs): its tree, `traverse` with the readers
-- that use it, and `break_node`. The difference in `slice` panics where it is negative, as in a build
-- with overflow checks.
pub mod Breaks
pub mod Bubbles
pub mod Splices
mod Examples
use braid_rs.Prelude.{
  ℕ, ◌+◌, ◌-◌, ◌≤◌, Bool, true, false, not, ◌&&◌, List, [], ◌∷◌, ◌++◌, Option, none, some, Text,
  any, length, take, drop, leb, ltb, get_elem?, StrSet, Outcome, returned, panicked, if◌then◌else◌,
}
use braid_rs.Prelude.Utf8.{encode_utf8}

pub data SequenceElems : Type 0 where
  string : Text → SequenceElems
  indices : List ℕ → SequenceElems

-- The bytes of a string, or the number of indices.
unfoldable pub len : SequenceElems → ℕ
unfolding encode_utf8
len (string s) = length (encode_utf8 s)
len (indices v) = length v

-- The characters of a string between two positions, or the indices between them.
unfoldable pub slice : SequenceElems → ℕ → ℕ → Outcome SequenceElems
slice (string s) start end =
    if leb start end then returned (string (take (end - start) (drop start s))) else panicked
slice (indices v) start end =
    if leb start end && leb end (length v)
    then returned (indices (take (end - start) (drop start v)))
    else panicked

mutual
  -- version, sort_key, elems, end_cap, deleted_by, nexts, next
  pub data SequenceNode : Type 0 where
    node : Option Text → Option Text → SequenceElems → Bool → StrSet → Nodes → Next → SequenceNode

  pub data Nodes : Type 0 where
    no_nodes : Nodes
    nodes : SequenceNode → Nodes → Nodes

  pub data Next : Type 0 where
    no_next : Next
    next : SequenceNode → Next

abbrev pub version_of : SequenceNode → Option Text
version_of (node version _ _ _ _ _ _) = version

abbrev pub new_node : Option Text → SequenceElems → Bool → Option Text → SequenceNode
new_node version elems end_cap sort_key = node version sort_key elems end_cap [] no_nodes no_next

module _ (is_anc : Text → Bool) where
  -- `version.as_ref().map_or(false, is_anc)`.
  abbrev pub includes : Option Text → Bool
  includes none = false
  includes (some v) = is_anc v

  abbrev pub any_included : Nodes → Bool
  any_included no_nodes = false
  any_included (nodes n ns) = if includes (version_of n) then true else any_included ns

  -- The state of a walk: the callback's, the offset, and whether it goes on.
  pub record Walk (S : Type 0) : Type 0 where
    pub state : S
    pub offset : ℕ
    pub going : Bool

  -- What the callback is called with: the elements, the offset, whether included nodes branch off,
  -- the version, and whether the node is deleted. It also says whether to go on.
  abbrev pub Callback : Type 0 → Type 0
  Callback S = SequenceElems → ℕ → Bool → Option Text → Bool → S → S × Bool

  unfoldable pub call :
      {S : Type 0} → Callback S → SequenceElems → Bool → Option Text → Bool → Walk S → Walk S
  unfolding len
  call callback elems has_nexts version deleted w =
      let (s, goes_on) = callback elems w.offset has_nexts version deleted w.state in
      record {
        state = s;
        offset = if goes_on && not deleted then w.offset + len elems else w.offset;
        going = goes_on;
      }

  -- The rest of a walk, unless it has stopped.
  abbrev pub onward : {S : Type 0} → Walk S → (Walk S → Walk S) → Walk S
  onward w f = if w.going then f w else w

  unfoldable mutual
    unfolding call any

    pub walk : {S : Type 0} → Callback S → Option Text → SequenceNode → Walk S → Walk S
    walk callback version (node _ _ elems _ deleted_by nexts tail) w =
        onward (call callback elems (any_included nexts) version (any is_anc deleted_by) w)
          (λ w1. onward (walk_nexts callback nexts w1) (walk_next callback version tail))

    pub walk_nexts : {S : Type 0} → Callback S → Nodes → Walk S → Walk S
    walk_nexts callback no_nodes w = w
    walk_nexts callback (nodes n ns) w =
        if includes (version_of n)
        then onward (walk callback (version_of n) n w) (walk_nexts callback ns)
        else walk_nexts callback ns w

    pub walk_next : {S : Type 0} → Callback S → Option Text → Next → Walk S → Walk S
    walk_next callback version no_next w = w
    walk_next callback version (next n) w = walk callback version n w

  -- The callback's state at the end.
  unfoldable pub traverse : {S : Type 0} → SequenceNode → Callback S → S → S
  unfolding walk
  traverse root callback s =
      (walk callback (version_of root) root (record { state = s; offset = 0; going = true })).state

  abbrev pub push_str : Callback Text
  push_str (string s) offset has_nexts version false result = (result ++ s, true)
  push_str (string s) offset has_nexts version true result = (result, true)
  push_str (indices v) offset has_nexts version deleted result = (result, true)

  unfoldable pub content : SequenceNode → Text
  unfolding traverse
  content root = traverse root push_str []

  abbrev pub count_len : Callback ℕ
  unfolding len
  count_len elems offset has_nexts version deleted count =
      (if deleted then count else count + len elems, true)

  unfoldable pub sequence_length : SequenceNode → ℕ
  unfolding traverse count_len
  sequence_length root = traverse root count_len 0

  -- The offset that `get` counts itself, and its result.
  abbrev pub find_char : ℕ → Callback (ℕ × Option ℕ)
  unfolding len
  find_char i elems offset has_nexts version true (counted, result) = ((counted, result), true)
  find_char i (string s) offset has_nexts version false (counted, result) =
      if ltb i (counted + len (string s))
      then ((counted, get_elem? s (i - counted)), false)
      else ((counted + len (string s), result), true)
  find_char i (indices v) offset has_nexts version false (counted, result) =
      if ltb i (counted + len (indices v))
      then ((counted, result), false)
      else ((counted + len (indices v), result), true)

  unfoldable pub get : SequenceNode → ℕ → Option ℕ
  unfolding traverse find_char
  get root i = (traverse root (find_char i) (0, none)).1

-- `SequenceNode::text`.
abbrev pub text : Text → Text → SequenceNode
text version s = new_node (some version) (string s) false none

unfoldable pub effective_sort_key : SequenceNode → Option Text
effective_sort_key (node version none _ _ _ _ _) = version
effective_sort_key (node version (some key) _ _ _ _ _) = some key

unfoldable pub nodes_of : Option SequenceNode → Nodes
nodes_of none = no_nodes
nodes_of (some n) = nodes n no_nodes

abbrev pub break_into :
    SequenceNode
    → Bool
    → Option SequenceNode
    → Outcome SequenceElems
    → Outcome SequenceElems
    → Outcome (SequenceNode × SequenceNode)
unfolding nodes_of
break_into (node version sort_key _ old_cap deleted_by nexts tail) end_cap new_next (returned front)
      (returned back) =
    let rest = node none none back old_cap deleted_by nexts tail in
    returned (node version sort_key front end_cap deleted_by (nodes_of new_next) (next rest), rest)
break_into n end_cap new_next panicked back = panicked
break_into n end_cap new_next (returned _) panicked = panicked

abbrev pub elems_of : SequenceNode → SequenceElems
elems_of (node _ _ elems _ _ _ _) = elems

-- The node afterwards, and its tail.
unfoldable pub break_node :
    SequenceNode → ℕ → Bool → Option SequenceNode → Outcome (SequenceNode × SequenceNode)
unfolding break_into slice len
break_node n x end_cap new_next =
    break_into n end_cap new_next (slice (elems_of n) 0 x) (slice (elems_of n) x (len (elems_of n)))
