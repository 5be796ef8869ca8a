-- ===== src/Antimatter/Sequence/Bubbles/Merging.antt =====
-- Merging the nodes of the sequence (`merge_nodes` of core/src/antimatter/sequence_crdt.rs) and the text
-- that they show.
use braid_rs.Prelude.Strings.{eq_iff}
use braid_rs.Antimatter.Sequence.Breaks.{shown, shown_next, shown_nexts}
use braid_rs.Antimatter.Sequence.Bubbles.{
  all_in, branched, clears, consed, linked, concat, merge_branches, merge_next, merge_nodes,
  mergeable, take_in, take_next,
}
use braid_rs.Prelude.{
  ◌≡◌, refl, ◌∙◌, ap, Bool, true, false, not, ◌&&◌, [], ◌∷◌, ◌++◌, Option, Text, any, StrSet,
  Outcome, returned, bind, if◌then◌else◌, arith,
}
use mathlib.Core.List.{append_assoc}
use braid_rs.Prelude.Set
use braid_rs.Antimatter.Sequence.{
  SequenceElems, string, indices, SequenceNode, node, Nodes, no_nodes, nodes, Next, no_next, next,
  version_of, includes,
}

-- Whether the elements are text and no branches are dropped, in the whole tree.
abbrev pub is_string : SequenceElems → Bool
is_string (string s) = true
is_string (indices v) = false

unfoldable mutual
  unfolding clears

  pub keeps : SequenceNode → Bool
  keeps (node version _ elems _ _ nexts tail) =
      is_string elems && not (clears version nexts) && keeps_nexts nexts && keeps_next tail

  pub keeps_nexts : Nodes → Bool
  keeps_nexts no_nodes = true
  keeps_nexts (nodes n ns) = keeps n && keeps_nexts ns

  pub keeps_next : Next → Bool
  keeps_next no_next = true
  keeps_next (next n) = keeps n

pub case_either :
    {A : Type 0} {x y : A} (b : Bool) (P : A → Type 0)
    → (b ≡ true → P x)
    → (b ≡ false → P y)
    → P (elim b as (λ c. A) [ true ↦ x | false ↦ y ])
case_either true P at_true at_false = at_true refl
case_either false P at_true at_false = at_false refl

pub any-contains :
    (f : Text → Bool) (v : Text) (s : StrSet)
    → Set.contains v s ≡ true
    → f v ≡ true
    → any f s ≡ true
unfolding Set.contains any
any-contains f v [] h fv = absurd (ground (arith, h))
any-contains f v (w ∷ s) h fv = ground (arith, eq_iff w v, any-contains f v s, h, fv)

any-all_in : (f : Text → Bool) (s t : StrSet) → all_in s t ≡ true → any f s ≡ true → any f t ≡ true
unfolding all_in any
any-all_in f [] t h g = absurd (ground (arith, g))
any-all_in f (v ∷ s) t h g = ground (arith, any-contains f v t, any-all_in f s t, h, g)

same_any :
    (f : Text → Bool) (s t : StrSet) → all_in s t ≡ true → all_in t s ≡ true → any f s ≡ any f t
same_any f s t to from = ground (arith, any-all_in f s t to, any-all_in f t s from)

abbrev visible : Bool → Text → Text
visible deleted s = if deleted then [] else s

visible-append :
    (a b : Bool) (s t rest : Text)
    → a ≡ b
    → visible a (s ++ t) ++ rest ≡ visible a s ++ (visible b t ++ rest)
visible-append true true s t rest h = refl
visible-append false false s t rest h = append_assoc s t rest
visible-append true false s t rest h = absurd (ground (arith, h))
visible-append false true s t rest h = absurd (ground (arith, h))

module _ (is_anc : Text → Bool) where
  -- A node comes out, with this version, that shows this text.
  pub record Merged (version : Option Text) (t : Text) (o : Outcome SequenceNode) : Type 0 where
    pub merged : SequenceNode
    pub comes : o ≡ returned merged
    pub version_kept : version_of merged ≡ version
    pub text_kept : shown is_anc merged ≡ t

  record MergedNodes (t : Text) (o : Outcome Nodes) : Type 0 where
    merged : Nodes
    comes : o ≡ returned merged
    text_kept : shown_nexts is_anc merged ≡ t

  record MergedNext (t : Text) (o : Outcome Next) : Type 0 where
    merged : Next
    comes : o ≡ returned merged
    text_kept : shown_next is_anc merged ≡ t

  linked-Merged :
      (v w k : Option Text) (d : StrSet) (s : Text) (c : Bool) (t : Text) (o : Outcome SequenceNode)
      → Merged w t o
      → Merged v (visible (any is_anc d) s ++ t) (linked v k d (string s) c o)
  unfolding shown
  linked-Merged v w k d s c t o m = record {
    merged = node v k (string s) c d no_nodes (next m.merged);
    comes = ap (linked v k d (string s) c) m.comes;
    version_kept = refl;
    text_kept = ap (◌++◌ (visible (any is_anc d) s)) m.text_kept;
  }

  branched-Merged :
      (v k : Option Text) (d : StrSet) (s : Text) (c : Bool) (t t' : Text) (o : Outcome Nodes)
      (o' : Outcome Next)
      → MergedNodes t o
      → MergedNext t' o'
      → Merged v (visible (any is_anc d) s ++ (t ++ t')) (branched v k d (string s) c o o')
  unfolding shown
  branched-Merged v k d s c t t' o o' m m' = record {
    merged = node v k (string s) c d m.merged m'.merged;
    comes =
        ap (λ o. branched v k d (string s) c o o') m.comes
        ∙ ap (branched v k d (string s) c (returned m.merged)) m'.comes;
    version_kept = refl;
    text_kept = rw (m.text_kept, m'.text_kept);
  }

  consed-Merged :
      (v : Option Text) (t t' : Text) (o : Outcome SequenceNode) (o' : Outcome Nodes)
      → Merged v t o
      → MergedNodes t' o'
      → MergedNodes ((if includes is_anc v then t else []) ++ t') (consed o o')
  unfolding shown
  consed-Merged v t t' o o' m m' = record {
    merged = nodes m.merged m'.merged;
    comes = ap (λ o. consed o o') m.comes ∙ ap (consed (returned m.merged)) m'.comes;
    text_kept = rw (m.version_kept, m.text_kept, m'.text_kept);
  }

  taken-Merged :
      (v k : Option Text) (d d' : StrSet) (s s' : Text) (rest : Text) (o : Outcome SequenceNode)
      → mergeable (string s) d (string s') d' ≡ true
      → Merged v (visible (any is_anc d) (s ++ s') ++ rest) o
      → Merged v (visible (any is_anc d) s ++ (visible (any is_anc d') s' ++ rest)) o
  unfolding mergeable
  taken-Merged v k d d' s s' rest o h m = record {
    merged = m.merged;
    comes = m.comes;
    version_kept = m.version_kept;
    text_kept =
        m.text_kept
        ∙ visible-append (any is_anc d) (any is_anc d') s s' rest
            (same_any is_anc d d' (ground (arith, h)) (ground (arith, h)));
  }

  mutual
    unfolding merge_nodes keeps shown concat

    pub merge_nodes-Merged :
        (n : SequenceNode) → keeps n ≡ true → Merged (version_of n) (shown is_anc n) (merge_nodes n)
    merge_nodes-Merged (node v k (string s) c d no_nodes tail) h =
        take_next-Merged v k d s c tail (ground (arith, h))
    merge_nodes-Merged (node v k (string s) c d (nodes n ns) tail) h =
        case_either (clears v (nodes n ns))
          (Merged v (shown is_anc (node v k (string s) c d (nodes n ns) tail)))
          (λ dropped. absurd (ground (arith, h, dropped)))
          (λ kept.
            branched-Merged v k d s c _ _ _ _
              (consed-Merged _ _ _ _ _ (merge_nodes-Merged n (ground (arith, h)))
                (merge_branches-Merged ns (ground (arith, h))))
              (merge_next-Merged tail (ground (arith, h))))
    merge_nodes-Merged (node v k (indices s) c d ns tail) h = absurd (ground (arith, h))

    merge_branches-Merged :
        (ns : Nodes)
        → keeps_nexts ns ≡ true
        → MergedNodes (shown_nexts is_anc ns) (merge_branches ns)
    merge_branches-Merged no_nodes h = record { merged = no_nodes; comes = refl; text_kept = refl }
    merge_branches-Merged (nodes n ns) h =
        consed-Merged (version_of n) (shown is_anc n) (shown_nexts is_anc ns) (merge_nodes n)
          (merge_branches ns) (merge_nodes-Merged n (ground (arith, h)))
          (merge_branches-Merged ns (ground (arith, h)))

    merge_next-Merged :
        (tail : Next)
        → keeps_next tail ≡ true
        → MergedNext (shown_next is_anc tail) (merge_next tail)
    merge_next-Merged no_next h = record { merged = no_next; comes = refl; text_kept = refl }
    merge_next-Merged (next n) h =
        let m = merge_nodes-Merged n h in
        record {
          merged = next m.merged;
          comes = ap (λ o. bind o (λ m. returned (next m))) m.comes;
          text_kept = m.text_kept;
        }

    take_next-Merged :
        (v k : Option Text) (d : StrSet) (s : Text) (c : Bool) (tail : Next)
        → keeps_next tail ≡ true
        → Merged v
            (visible (any is_anc d) s ++ shown_next is_anc tail)
            (take_next v k d (string s) c tail)
    take_next-Merged v k d s c no_next h = record {
      merged = node v k (string s) c d no_nodes no_next;
      comes = refl;
      version_kept = refl;
      text_kept = refl;
    }
    take_next-Merged v k d s c (next n) h = take_in-Merged v k d s c n h

    take_in-Merged :
        (v k : Option Text) (d : StrSet) (s : Text) (c : Bool) (n : SequenceNode)
        → keeps n ≡ true
        → Merged v (visible (any is_anc d) s ++ shown is_anc n) (take_in v k d (string s) c n)
    take_in-Merged v k d s c (node v' k' (string s') c' d' no_nodes tail) h =
        case_either (mergeable (string s) d (string s') d')
          (Merged v
            (visible (any is_anc d) s ++ shown is_anc (node v' k' (string s') c' d' no_nodes tail)))
          (λ taken.
            taken-Merged v k d d' s s' (shown_next is_anc tail) _ taken
              (take_next-Merged v k d (s ++ s') c' tail (ground (arith, h))))
          (λ left.
            linked-Merged v v' k d s c _ _
              (take_next-Merged v' k' d' s' c' tail (ground (arith, h))))
    take_in-Merged v k d s c (node v' k' (string s') c' d' (nodes n ns) tail) h =
        case_either (mergeable (string s) d (string s') d')
          (Merged v (
            visible (any is_anc d) s
            ++ shown is_anc (node v' k' (string s') c' d' (nodes n ns) tail)))
          (λ taken.
            taken-Merged v k d d' s s' (shown_nexts is_anc (nodes n ns) ++ shown_next is_anc tail) _
              taken
              (branched-Merged v k d (s ++ s') c' _ _ _ _
                (consed-Merged _ _ _ _ _ (merge_nodes-Merged n (ground (arith, h)))
                  (merge_branches-Merged ns (ground (arith, h))))
                (merge_next-Merged tail (ground (arith, h)))))
          (λ left. linked-Merged v v' k d s c _ _ (
            case_either (clears v' (nodes n ns))
              (Merged v' (shown is_anc (node v' k' (string s') c' d' (nodes n ns) tail)))
              (λ dropped. absurd (ground (arith, h, dropped)))
              (λ kept.
                branched-Merged v' k' d' s' c' _ _ _ _
                  (consed-Merged _ _ _ _ _ (merge_nodes-Merged n (ground (arith, h)))
                    (merge_branches-Merged ns (ground (arith, h))))
                  (merge_next-Merged tail (ground (arith, h))))))
    take_in-Merged v k d s c (node v' k' (indices s') c' d' ns tail) h = absurd (ground (arith, h))
