-- ===== src/Antimatter/Sequence/Bubbles/Content.antt =====
-- The text of the sequence after pruning (`apply_bubbles` of
-- core/src/antimatter/sequence_crdt.rs).
use braid_rs.Prelude.Maps.{lookup}
use braid_rs.Antimatter.Sequence.Bubbles.Merging.{any-contains, keeps, merge_nodes-Merged}
use braid_rs.Prelude.Strings.{eq_iff}
use braid_rs.Antimatter.Sequence.Breaks.{content_lem, shown, shown_next, shown_nexts}
use braid_rs.Antimatter.Sequence.Bubbles.{
  Bubbles, apply_bubbles, bottom, rename_deleted, rename_next, rename_nexts, rename_one,
  rename_versions, renamed, renamed_version,
}
use braid_rs.Prelude.{
  ◌≡◌, refl, ◌∙◌, sym, Bool, true, false, ◌||◌, [], ◌∷◌, Option, none, some, Text, any, StrSet,
  returned, arith,
}
use braid_rs.Prelude.Set
use braid_rs.Antimatter.Sequence.{
  SequenceNode, node, Nodes, no_nodes, nodes, Next, no_next, next, version_of, includes, content,
}

any-insert : (f : Text → Bool) (v : Text) (s : StrSet) → any f (Set.insert v s) ≡ (f v || any f s)
unfolding Set.insert any
any-insert f v s = ground (arith, any-contains f v s)

-- Removing a version that does not count.
any-remove :
    (f : Text → Bool) (v : Text) (s : StrSet) → f v ≡ false → any f (Set.remove v s) ≡ any f s
unfolding Set.remove any
any-remove f v [] h = refl
any-remove f v (w ∷ s) h = ground (arith, eq_iff w v, any-remove f v s h, h)

module _ (is_anc : Text → Bool) where
  any-rename_one :
      (v : Text) (o : Option (Text × Text)) (deleted_by : StrSet)
      → is_anc (bottom v o) ≡ is_anc v
      → (is_anc v ≡ true → any is_anc deleted_by ≡ true)
      → any is_anc (rename_one v o deleted_by) ≡ any is_anc deleted_by
  unfolding rename_one
  any-rename_one v none deleted_by same held = refl
  any-rename_one v (some (b, t)) deleted_by same held = ground (
    arith,
    any-insert is_anc b (Set.remove v deleted_by),
    any-remove is_anc v deleted_by,
    same,
    held,
  )

  module _ (to_bubble : Bubbles)
      (follows : (v : Text) → is_anc (renamed to_bubble v) ≡ is_anc v) where
    any-rename_deleted :
        (old deleted_by : StrSet)
        → (any is_anc old ≡ true → any is_anc deleted_by ≡ true)
        → any is_anc (rename_deleted to_bubble old deleted_by) ≡ any is_anc deleted_by
    unfolding rename_deleted any renamed
    any-rename_deleted [] deleted_by held = refl
    any-rename_deleted (v ∷ old) deleted_by held =
        let one =
          any-rename_one v (lookup v to_bubble) deleted_by (follows v)
            (λ h. held (ground (arith, h))) in
        any-rename_deleted old (rename_one v (lookup v to_bubble) deleted_by)
          (λ h. one ∙ held (ground (arith, h)))
        ∙ one

    includes-renamed :
        (version : Option Text)
        → includes is_anc (renamed_version to_bubble version) ≡ includes is_anc version
    unfolding renamed_version
    includes-renamed none = refl
    includes-renamed (some v) = follows v

    version_of-rename :
        (n : SequenceNode)
        → version_of (rename_versions to_bubble n) ≡ renamed_version to_bubble (version_of n)
    unfolding rename_versions
    version_of-rename (node v k e c d ns t) = refl

    mutual
      unfolding rename_versions shown

      shown-rename :
          (n : SequenceNode) → shown is_anc (rename_versions to_bubble n) ≡ shown is_anc n
      shown-rename (node v k elems c d ns tail) =
          rw (any-rename_deleted d d (λ h. h), shown-rename_nexts ns, shown-rename_next tail)

      shown-rename_nexts :
          (ns : Nodes) → shown_nexts is_anc (rename_nexts to_bubble ns) ≡ shown_nexts is_anc ns
      shown-rename_nexts no_nodes = refl
      shown-rename_nexts (nodes n ns) = rw (
        version_of-rename n,
        includes-renamed (version_of n),
        shown-rename n,
        shown-rename_nexts ns,
      )

      shown-rename_next :
          (tail : Next) → shown_next is_anc (rename_next to_bubble tail) ≡ shown_next is_anc tail
      shown-rename_next no_next = refl
      shown-rename_next (next n) = shown-rename n

  -- A version counts if and only if the bottom of its bubble does. After renaming, every node is of
  -- text, and none has branches that all have its own version. Then `apply_bubbles` does not panic, and
  -- the content of the tree is what it was.
  pub apply_bubbles-content :
      (to_bubble : Bubbles) (root : SequenceNode)
      → ((v : Text) → is_anc (renamed to_bubble v) ≡ is_anc v)
      → keeps (rename_versions to_bubble root) ≡ true
      → (root' : SequenceNode) × (apply_bubbles root to_bubble ≡ returned root')
        × (content is_anc root' ≡ content is_anc root)
  unfolding apply_bubbles
  apply_bubbles-content to_bubble root follows kept =
      let m = merge_nodes-Merged is_anc (rename_versions to_bubble root) kept in
      (
        m.merged,
        m.comes,
        content_lem is_anc m.merged
            ∙ m.text_kept
            ∙ shown-rename to_bubble follows root
            ∙ sym (content_lem is_anc root),
      )
