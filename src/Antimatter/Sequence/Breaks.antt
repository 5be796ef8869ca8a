-- ===== src/Antimatter/Sequence/Breaks.antt =====
-- Breaking a node of the sequence keeps the text (core/src/antimatter/sequence_crdt.rs).
use braid_rs.Prelude.{
  ℕ, zero, suc, ◌-◌, ◌≤◌, ◌≡◌, refl, ◌∙◌, ap, sym, Bool, true, false, List, [], ◌∷◌, ◌++◌, Option,
  none, some, Text, any, length, take, drop, StrSet, returned, if◌then◌else◌, arith,
  take-append-drop, length-drop, le→leb,
}
use mathlib.Core.List.{append-nil, append_assoc}
use braid_rs.Prelude.Utf8.{encode_utf8, length-encode_utf8}
use braid_rs.Antimatter.Sequence.{
  SequenceElems, string, indices, len, slice, SequenceNode, node, Nodes, no_nodes, nodes, Next,
  no_next, next, version_of, includes, any_included, Walk, call, onward, walk, walk_nexts,
  walk_next, traverse, push_str, content, nodes_of, break_node, break_into,
}

abbrev pub text_of : SequenceElems → Text
text_of (string s) = s
text_of (indices v) = []

pub take_all : {A : Type 0} (n : ℕ) (xs : List A) → length xs ≤ n → take n xs ≡ xs
take_all zero [] h = refl
take_all (suc n) [] h = refl
take_all zero (x ∷ xs) h = absurd (omega arith)
take_all (suc n) (x ∷ xs) h = ap (◌∷◌ x) (take_all n xs (omega arith))

pub slice_front : (s : Text) (x : ℕ) → slice (string s) 0 x ≡ returned (string (take x s))
unfolding slice
slice_front s x = ground (arith, le→leb 0 x (omega arith))

pub slice_back :
    (s : Text) (x : ℕ)
    → x ≤ len (string s)
    → slice (string s) x (len (string s)) ≡ returned (string (drop x s))
unfolding slice len
slice_back s x within = ground (
  arith,
  le→leb x (length (encode_utf8 s)) within,
  take_all (length (encode_utf8 s) - x) (drop x s)
      (omega (arith, length-drop x s, length-encode_utf8 s)),
)

-- The text of a node in front of a position and behind it, and more text.
front_back :
    (deleted : Bool) (x : ℕ) (s rest : Text)
    → (if deleted then [] else s) ++ rest
      ≡ (if deleted then [] else take x s) ++ ((if deleted then [] else drop x s) ++ rest)
front_back true x s rest = refl
front_back false x s rest =
    ap (λ t. t ++ rest) (sym (take-append-drop x s)) ∙ append_assoc (take x s) (drop x s) rest

module _ (is_anc : Text → Bool) where
  -- The text that a node and what hangs below it show, in the order of the tree.
  unfoldable mutual
    unfolding any

    pub shown : SequenceNode → Text
    shown (node _ _ elems _ deleted_by nexts tail) =
        (if any is_anc deleted_by then [] else text_of elems)
        ++ (shown_nexts nexts ++ shown_next tail)

    pub shown_nexts : Nodes → Text
    shown_nexts no_nodes = []
    shown_nexts (nodes n ns) =
        (if includes is_anc (version_of n) then shown n else []) ++ shown_nexts ns

    pub shown_next : Next → Text
    shown_next no_next = []
    shown_next (next n) = shown n

  -- The walk has gone on to the end and has put this text behind the state.
  record Pushed (t : Text) (w w' : Walk is_anc Text) : Type 0 where
    state : w'.state ≡ w.state ++ t
    going : w'.going ≡ true

  call-Pushed :
      (elems : SequenceElems) (has_nexts : Bool) (version : Option Text) (deleted : Bool)
      (w : Walk is_anc Text)
      → Pushed
          (if deleted then [] else text_of elems)
          w
          (call is_anc (push_str is_anc) elems has_nexts version deleted w)
  unfolding call
  call-Pushed (string s) has_nexts version false w = record { state = refl; going = refl }
  call-Pushed (string s) has_nexts version true w = record {
    state = sym (append-nil w.state);
    going = refl;
  }
  call-Pushed (indices v) has_nexts version false w = record {
    state = sym (append-nil w.state);
    going = refl;
  }
  call-Pushed (indices v) has_nexts version true w = record {
    state = sym (append-nil w.state);
    going = refl;
  }

  Pushed-onward :
      (s t : Text) (w w1 : Walk is_anc Text) (f : Walk is_anc Text → Walk is_anc Text)
      → Pushed s w w1
      → (w1.going ≡ true → Pushed t w1 (f w1))
      → Pushed (s ++ t) w (onward is_anc w1 f)
  Pushed-onward s t w w1 f a next_ =
      let b = next_ a.going in
      record {
        state = ground (arith, a.going, a.state, b.state, append_assoc w.state s t);
        going = ground (arith, a.going, b.going);
      }

  Pushed-nothing : (w : Walk is_anc Text) → w.going ≡ true → Pushed [] w w
  Pushed-nothing w going = record { state = sym (append-nil w.state); going = going }

  Pushed-if :
      (b : Bool) (s t : Text) (w w1 : Walk is_anc Text) (f : Walk is_anc Text → Walk is_anc Text)
      → Pushed s w w1
      → (w1.going ≡ true → Pushed t w1 (f w1))
      → Pushed t w (f w)
      → Pushed ((if b then s else []) ++ t) w (if b then onward is_anc w1 f else f w)
  Pushed-if true s t w w1 f a next_ skip = Pushed-onward s t w w1 f a next_
  Pushed-if false s t w w1 f a next_ skip = skip

  mutual
    unfolding walk shown

    walk-Pushed :
        (version : Option Text) (n : SequenceNode) (w : Walk is_anc Text)
        → Pushed (shown n) w (walk is_anc (push_str is_anc) version n w)
    walk-Pushed version (node v k elems cap deleted_by nexts tail) w =
        let w1 =
          call is_anc (push_str is_anc) elems (any_included is_anc nexts) version
            (any is_anc deleted_by) w in
        let w2 = walk_nexts is_anc (push_str is_anc) nexts w1 in
        Pushed-onward _ _ w w1
          (λ w1.
            onward is_anc (walk_nexts is_anc (push_str is_anc) nexts w1)
              (walk_next is_anc (push_str is_anc) version tail))
          (call-Pushed elems (any_included is_anc nexts) version (any is_anc deleted_by) w)
          (λ going.
            Pushed-onward _ _ w1 w2 (walk_next is_anc (push_str is_anc) version tail)
              (walk_nexts-Pushed nexts w1 going) (walk_next-Pushed version tail w2))

    walk_nexts-Pushed :
        (ns : Nodes) (w : Walk is_anc Text)
        → w.going ≡ true
        → Pushed (shown_nexts ns) w (walk_nexts is_anc (push_str is_anc) ns w)
    walk_nexts-Pushed no_nodes w going = Pushed-nothing w going
    walk_nexts-Pushed (nodes n ns) w going =
        let w1 = walk is_anc (push_str is_anc) (version_of n) n w in
        Pushed-if (includes is_anc (version_of n)) (shown n) (shown_nexts ns) w w1
          (walk_nexts is_anc (push_str is_anc) ns) (walk-Pushed (version_of n) n w)
          (walk_nexts-Pushed ns w1) (walk_nexts-Pushed ns w going)

    walk_next-Pushed :
        (version : Option Text) (tail : Next) (w : Walk is_anc Text)
        → w.going ≡ true
        → Pushed (shown_next tail) w (walk_next is_anc (push_str is_anc) version tail w)
    walk_next-Pushed version no_next w going = Pushed-nothing w going
    walk_next-Pushed version (next n) w going = walk-Pushed version n w

  -- The content is the shown text.
  pub content_lem : (root : SequenceNode) → content is_anc root ≡ shown root
  unfolding content traverse
  content_lem root =
      (walk-Pushed (version_of root) root (record { state = []; offset = 0; going = true })).state

  -- The text of a branch that is put behind a node.
  abbrev pub branch_text : Option SequenceNode → Text
  branch_text none = []
  branch_text (some n) = if includes is_anc (version_of n) then shown n else []

  shown_branch :
      (new_next : Option SequenceNode) → shown_nexts (nodes_of new_next) ≡ branch_text new_next
  unfolding shown nodes_of
  shown_branch none = refl
  shown_branch (some n) = append-nil (branch_text (some n))

  -- A node of text that is broken at a position within its length, with another node put there or
  -- not. The content of what it was is some text and then the rest, where that text is the part of
  -- the node in front of the position if the node is not deleted; and its content afterwards is that
  -- text, the content of the other node if its version is included, and the same rest.
  break_node-content :
      (v k : Option Text) (s : Text) (cap end_cap : Bool) (deleted_by : StrSet) (nexts : Nodes)
      (tail : Next) (x : ℕ) (new_next : Option SequenceNode)
      → x ≤ len (string s)
      → let n = node v k (string s) cap deleted_by nexts tail in
        let front = if any is_anc deleted_by then [] else take x s in
        (n' : SequenceNode) × (back : SequenceNode) × (rest : Text) × (break_node n x end_cap
            new_next
          ≡ returned (n', back))
        × (content is_anc n ≡ front ++ rest)
        × (content is_anc n' ≡ front ++ (branch_text new_next ++ rest))
  unfolding break_node break_into shown
  break_node-content v k s cap end_cap deleted_by nexts tail x new_next within =
      let n = node v k (string s) cap deleted_by nexts tail in
      let back = node none none (string (drop x s)) cap deleted_by nexts tail in
      let n' = node v k (string (take x s)) end_cap deleted_by (nodes_of new_next) (next back) in
      let deleted = any is_anc deleted_by in
      let front : Text = if deleted then [] else take x s in
      (
        n',
        back,
        shown back,
        ap (λ a. break_into n end_cap new_next a (slice (string s) x (len (string s))))
              (slice_front s x)
            ∙ ap (break_into n end_cap new_next (returned (string (take x s))))
                (slice_back s x within),
        content_lem n ∙ front_back deleted x s (shown_nexts nexts ++ shown_next tail),
        content_lem n' ∙ ap (λ b. front ++ (b ++ shown back)) (shown_branch new_next),
      )
