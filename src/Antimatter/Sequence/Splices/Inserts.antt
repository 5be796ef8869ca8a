-- ===== src/Antimatter/Sequence/Splices/Inserts.antt =====
-- An insertion within the root of the sequence (`add_version` of
-- core/src/antimatter/sequence_crdt.rs) and the text it leaves.
use braid_rs.Prelude.{
  ℕ, ◌≤◌, ◌≡◌, refl, ◌∙◌, ap, Bool, true, false, not, ◌&&◌, ◌||◌, ◌==◌, List, [], ◌∷◌, ◌++◌, Option,
  none, some, Text, any, length, take, drop, StrSet, returned, if◌then◌else◌, arith, ltb,
  drop-append_le, suc, take-append_le, zero,
}
use braid_rs.Prelude.Utf8.{length-encode_utf8}
use mathlib.Core.List.{append-nil}
use braid_rs.Antimatter.Sequence.{
  string, len, slice, SequenceNode, node, Nodes, no_nodes, nodes, Next, next, content, nodes_of,
  break_node, break_into,
}
use braid_rs.Antimatter.Sequence.Breaks.{
  slice_front, slice_back, shown, content_lem, take_all, shown_next, shown_nexts,
}
use braid_rs.Antimatter.Sequence.Splices.{
  Splice, insertion, inserted, push_next, break_at, splice_insert, splice_node, process_splices,
  add_version, branches, Progress,
}

drop_all : {A : Type 0} (n : ℕ) (xs : List A) → length xs ≤ n → drop n xs ≡ []
drop_all zero [] h = refl
drop_all (suc n) [] h = refl
drop_all zero (x ∷ xs) h = absurd (omega arith)
drop_all (suc n) (x ∷ xs) h = drop_all n xs (omega arith)

pub if_either :
    {A : Type 0} {x y : A} (b : Bool) (P : A → Type 0)
    → (b ≡ true → P x)
    → P y
    → P (if b then x else y)
if_either true P at_true at_false = at_true refl
if_either false P at_true at_false = at_false

-- A splice that inserts a text.
abbrev pub insert_of : ℕ → Text → Option Text → Splice
insert_of x t sort_key = record {
  pos = x;
  delete_count = 0;
  insert = string t;
  sort_key = sort_key;
  op_type = insertion;
}

break_node-string :
    (v k : Option Text) (s : Text) (cap end_cap : Bool) (deleted_by : StrSet) (nexts : Nodes)
    (tail : Next) (x : ℕ) (new_next : Option SequenceNode)
    → x ≤ len (string s)
    → break_node (node v k (string s) cap deleted_by nexts tail) x end_cap new_next
      ≡ returned (
        node v k
            (string (take x s))
            end_cap
            deleted_by
            (nodes_of new_next)
            (next (node none none (string (drop x s)) cap deleted_by nexts tail)),
        node none none (string (drop x s)) cap deleted_by nexts tail,
      )
unfolding break_node break_into
break_node-string v k s cap end_cap deleted_by nexts tail x new_next within =
    ap
      (λ a.
        break_into (node v k (string s) cap deleted_by nexts tail) end_cap new_next a
          (slice (string s) x (len (string s))))
      (slice_front s x)
    ∙ ap
        (break_into (node v k (string s) cap deleted_by nexts tail) end_cap new_next
          (returned (string (take x s))))
        (slice_back s x within)

-- The root with a node put at a position: behind the branches at the end of the root, and otherwise
-- between the two parts of it.
unfoldable pub placed : SequenceNode → ℕ → SequenceNode → SequenceNode
unfolding len push_next
placed m x (node v k (string s) cap deleted_by nexts tail) =
    if x == len (string s) && not cap
    then push_next m (node v k (string s) cap deleted_by nexts tail)
    else node v k (string (take x s)) false deleted_by (nodes m no_nodes)
        (next (node none none (string (drop x s)) cap deleted_by nexts tail))
placed m x n = n

-- Where an insertion is not passed over: in front of the end of the root, or at its end where nothing
-- branches off or the root is the end of a replacement.
unfoldable pub fits : ℕ → SequenceNode → Bool
unfolding len
fits x (node v k elems cap deleted_by nexts tail) =
    ltb x (len elems)
    || x == len elems && (cap || not (branches (node v k elems cap deleted_by nexts tail)))

abbrev start : Progress
start = record { si = 0; delete_up_to = 0; offset = 0 }

abbrev behind : Progress
behind = record { si = 1; delete_up_to = 0; offset = 0 }

splice_insert-placed :
    (v k : Option Text) (s : Text) (cap : Bool) (deleted_by : StrSet) (nexts : Nodes) (tail : Next)
    (version t : Text) (x : ℕ) (key : Option Text)
    → fits x (node v k (string s) cap deleted_by nexts tail) ≡ true
    → splice_insert
        (node v k (string s) cap deleted_by nexts tail)
        version
        (insert_of x t key)
        start
      ≡ returned (
        placed
            (inserted version (insert_of x t key))
            x
            (node v k (string s) cap deleted_by nexts tail),
        behind,
      )
unfolding splice_insert fits placed break_at nodes_of
splice_insert-placed v k s cap deleted_by no_nodes tail version t x key fit = ground (
  arith,
  break_node-string v k s cap false deleted_by no_nodes tail x
      (some (inserted version (insert_of x t key))) (ground arith),
)
splice_insert-placed v k s cap deleted_by (nodes n ns) tail version t x key fit = ground (
  arith,
  break_node-string v k s cap false deleted_by (nodes n ns) tail x
      (some (inserted version (insert_of x t key))) (ground arith),
)

module _ (is_anc : Text → Bool) where
  -- The first splice is an insertion that fits at the root, and the root is not deleted.
  pub add_version-placed :
      (v k : Option Text) (s : Text) (cap : Bool) (deleted_by : StrSet) (nexts : Nodes)
      (tail : Next) (version t : Text) (x : ℕ) (key : Option Text) (more : List Splice)
      → any is_anc deleted_by ≡ false
      → fits x (node v k (string s) cap deleted_by nexts tail) ≡ true
      → add_version is_anc
          (node v k (string s) cap deleted_by nexts tail)
          version
          (insert_of x t key ∷ more)
        ≡ returned (
          placed
              (inserted version (insert_of x t key))
              x
              (node v k (string s) cap deleted_by nexts tail),
          [],
        )
  unfolding add_version process_splices splice_node
  add_version-placed v k s cap deleted_by nexts tail version t x key more live fit =
      rw (live, splice_insert-placed v k s cap deleted_by nexts tail version t x key fit)

  -- What the new node shows.
  shown_new :
      (version t : Text) (x : ℕ) (key : Option Text)
      → is_anc version ≡ true
      → shown_nexts is_anc (nodes (inserted version (insert_of x t key)) no_nodes) ≡ t
  unfolding shown any
  shown_new version t x key known = rw (known, append-nil (t ++ []), append-nil t)

  shown_between :
      (v k : Option Text) (s : Text) (cap : Bool) (deleted_by : StrSet) (nexts : Nodes)
      (tail : Next) (version t : Text) (x : ℕ) (key : Option Text)
      → any is_anc deleted_by ≡ false
      → is_anc version ≡ true
      → shown is_anc (
          node v k
            (string (take x s))
            false
            deleted_by
            (nodes (inserted version (insert_of x t key)) no_nodes)
            (next (node none none (string (drop x s)) cap deleted_by nexts tail)))
        ≡ take x s ++ (t ++ (drop x s ++ (shown_nexts is_anc nexts ++ shown_next is_anc tail)))
  unfolding shown
  shown_between v k s cap deleted_by nexts tail version t x key live known =
      rw (shown_new version t x key known, live)

  shown_behind :
      (v k : Option Text) (s : Text) (cap : Bool) (deleted_by : StrSet) (tail : Next)
      (version t : Text) (x : ℕ) (key : Option Text)
      → any is_anc deleted_by ≡ false
      → is_anc version ≡ true
      → length s ≤ x
      → shown is_anc (
          push_next
            (inserted version (insert_of x t key))
            (node v k (string s) cap deleted_by no_nodes tail))
        ≡ take x s ++ (t ++ (drop x s ++ ([] ++ shown_next is_anc tail)))
  unfolding shown push_next
  shown_behind v k s cap deleted_by tail version t x key live known within =
      rw (shown_new version t x key known, live, take_all x s within, drop_all x s within)

  shown-placed :
      (v k : Option Text) (s : Text) (cap : Bool) (deleted_by : StrSet) (nexts : Nodes)
      (tail : Next) (version t : Text) (x : ℕ) (key : Option Text)
      → any is_anc deleted_by ≡ false
      → is_anc version ≡ true
      → fits x (node v k (string s) cap deleted_by nexts tail) ≡ true
      → shown is_anc (
          placed
            (inserted version (insert_of x t key))
            x
            (node v k (string s) cap deleted_by nexts tail))
        ≡ take x s ++ (t ++ (drop x s ++ (shown_nexts is_anc nexts ++ shown_next is_anc tail)))
  unfolding placed fits len shown
  shown-placed v k s cap deleted_by no_nodes tail version t x key live known fit =
      if_either (x == len (string s) && not cap)
        (λ n. shown is_anc n ≡ take x s ++ (t ++ (drop x s ++ ([] ++ shown_next is_anc tail))))
        (λ at_end.
          shown_behind v k s cap deleted_by tail version t x key live known
            (ground (arith, at_end, length-encode_utf8 s)))
        (shown_between v k s cap deleted_by no_nodes tail version t x key live known)
  shown-placed v k s cap deleted_by (nodes n ns) tail version t x key live known fit =
      ground
        (arith, shown_between v k s cap deleted_by (nodes n ns) tail version t x key live known)

  pub content-placed :
      (v k : Option Text) (s : Text) (cap : Bool) (deleted_by : StrSet) (nexts : Nodes)
      (tail : Next) (version t : Text) (x : ℕ) (key : Option Text)
      → any is_anc deleted_by ≡ false
      → is_anc version ≡ true
      → x ≤ length s
      → fits x (node v k (string s) cap deleted_by nexts tail) ≡ true
      → let root = node v k (string s) cap deleted_by nexts tail in
        content is_anc (placed (inserted version (insert_of x t key)) x root)
        ≡ take x (content is_anc root) ++ (t ++ drop x (content is_anc root))
  unfolding shown
  content-placed v k s cap deleted_by nexts tail version t x key live known within fit =
      let root = node v k (string s) cap deleted_by nexts tail in
      let rest = shown_nexts is_anc nexts ++ shown_next is_anc tail in
      let before : content is_anc root ≡ s ++ rest = content_lem is_anc root ∙ rw (live) in
      content_lem is_anc (placed (inserted version (insert_of x t key)) x root)
      ∙ shown-placed v k s cap deleted_by nexts tail version t x key live known fit
      ∙ rw (before, take-append_le x s rest within, drop-append_le x s rest within)

  -- A text is inserted with a splice at a position that is within the text of the root, in characters,
  -- and is in front of its end, in bytes, or at its end where nothing branches off there or the root
  -- ends a replacement. The root is not deleted, and its own version need not be included, but that of
  -- the insertion is. Then `add_version` returns no rebased splices, and the content afterwards is the
  -- content before with the text inserted at the position. Splices after the first change nothing.
  pub add_version-content :
      (v k : Option Text) (s : Text) (cap : Bool) (deleted_by : StrSet) (nexts : Nodes)
      (tail : Next) (version t : Text) (x : ℕ) (key : Option Text) (more : List Splice)
      → any is_anc deleted_by ≡ false
      → is_anc version ≡ true
      → x ≤ length s
      → fits x (node v k (string s) cap deleted_by nexts tail) ≡ true
      → let root = node v k (string s) cap deleted_by nexts tail in
        (root' : SequenceNode) × (add_version is_anc root version (insert_of x t key ∷ more)
          ≡ returned (root', []))
        × (content is_anc root'
            ≡ take x (content is_anc root) ++ (t ++ drop x (content is_anc root)))
  add_version-content v k s cap deleted_by nexts tail version t x key more live known within fit = (
    placed (inserted version (insert_of x t key)) x (node v k (string s) cap deleted_by nexts tail),
    add_version-placed v k s cap deleted_by nexts tail version t x key more live fit,
    content-placed v k s cap deleted_by nexts tail version t x key live known within fit,
  )
