-- ===== src/Antimatter/Bubble/Ends.antt =====
-- The loop of `find_one_bubble` ends (core/src/antimatter/algorithm/bubble.rs).
use braid_rs.Prelude.{
  ℕ, zero, suc, ◌+◌, ◌≤◌, ◌<◌, ◌≡◌, refl, Bool, true, false, not, List, [], ◌∷◌, Option, none, some,
  Text, Map, lookup, contains_key, keys, length, StrSet, arith, eq_iff, if◌then◌else◌, all, is_none,
}
use braid_rs.Prelude.Set
use braid_rs.Antimatter.Search.{Graph, next_of}
use braid_rs.Antimatter.Bubble.{
  ChildSet, Scan, Round, returns, continues, push_all, top_found, sibling_top, after_top, enter,
  scan_one, siblings_done, entered, is_empty, is_restricted, scan, seen_below, pending,
  find_one_bubble,
}

pub push_all-length : (ps queue : List Text) → length (push_all ps queue) ≡ length ps + length queue
unfolding push_all
push_all-length [] queue = omega arith
push_all-length (p ∷ ps) queue = omega (arith, push_all-length ps (p ∷ queue))

pending_anti :
    (t : Graph) (seen seen' : StrSet)
    → ((v : Text) → Set.contains v seen ≡ true → Set.contains v seen' ≡ true)
    → pending t seen' ≤ pending t seen
unfolding pending
pending_anti [] seen seen' g = omega arith
pending_anti ((v, ps) ∷ t) seen seen' g = ground (arith, pending_anti t seen seen' g, g v)

pub pending-insert :
    (t : Graph) (cur : Text) (seen : StrSet)
    → Set.contains cur seen ≡ false
    → pending t (Set.insert cur seen) + length (next_of t cur) ≤ pending t seen
unfolding pending lookup
pending-insert [] cur seen new = ground arith
pending-insert ((v, ps) ∷ t) cur seen new = ground (
  arith,
  pending-insert t cur seen new,
  pending_anti t seen (Set.insert cur seen) (λ w h. ground (arith, Set.contains-insert cur w seen)),
  Set.contains-insert cur v seen,
  eq_iff v cur,
)

-- The rounds that the loop has left.
abbrev left : Graph → Scan → ℕ
left t s = length s.queue + pending t s.seen

-- A round that goes on leaves a smaller queue, or one that its version pays for.
abbrev Bounded : Graph → ℕ → Round → Type 0
Bounded t n (returns _) = Unit
Bounded t n (continues s) = left t s ≤ n

Bounded-if :
    (t : Graph) (n : ℕ) (b : Bool) (r r' : Round)
    → (b ≡ true → Bounded t n r)
    → (b ≡ false → Bounded t n r')
    → Bounded t n (if b then r else r')
Bounded-if t n true r r' yes_ no_ = yes_ refl
Bounded-if t n false r r' yes_ no_ = no_ refl

module _ (t children : Graph) (child_sets : Map ChildSet) (restricted : Option (Map Bool)) where
  top_found-Bounded :
      (restricted : Option (Map Bool)) (top : Map Bool) (s : Scan) (n : ℕ)
      → left t s ≤ n
      → Bounded t n (top_found restricted top s)
  top_found-Bounded none top s n h = tt
  top_found-Bounded (some _) top s n h = h

  sibling_top-Bounded :
      (siblings : Option ChildSet) (parents : StrSet) (s : Scan) (n : ℕ)
      → left t s ≤ n
      → Bounded t n (sibling_top restricted siblings parents s)
  sibling_top-Bounded none parents s n h = h
  sibling_top-Bounded (some cs) parents s n h =
      Bounded-if t n (siblings_done cs parents s) (top_found restricted cs.members s) (continues s)
        (λ _. top_found-Bounded restricted cs.members s n h) (λ _. h)

  follow-Bounded :
      (cur : Text) (r : Round) (n k : ℕ)
      → Bounded t n r
      → n + length (next_of t cur) ≤ k
      → Bounded t k (after_top t child_sets restricted cur r)
  follow-Bounded cur (returns top) n k h room = tt
  follow-Bounded cur (continues s) n k h room =
      sibling_top-Bounded (lookup cur child_sets) (next_of t cur) _ k
        (omega (arith, h, room, push_all-length (next_of t cur) s.queue))

  enter-Bounded :
      (cur : Text) (s : Scan)
      → Set.contains cur s.seen ≡ false
      → Bounded t (left t s) (enter t child_sets restricted cur s)
  unfolding enter
  enter-Bounded cur s new =
      follow-Bounded cur _ (length s.queue + pending t (Set.insert cur s.seen)) (left t s)
        (Bounded-if t _ (is_empty (entered cur s).expecting)
          (top_found restricted ((cur, true) ∷ []) (entered cur s)) (continues (entered cur s))
          (λ _. top_found-Bounded restricted ((cur, true) ∷ []) _ _ (omega arith))
          (λ _. omega arith))
        (omega (arith, pending-insert t cur s.seen new))

  scan_one-Bounded :
      (cur : Text) (s : Scan)
      → Bounded t (left t s) (scan_one t children child_sets restricted cur s)
  unfolding scan_one
  scan_one-Bounded cur s =
      let n = left t s in
      let kids_seen = all (λ c. Set.contains c s.seen) (next_of children cur) in
      let e = enter t child_sets restricted cur s in
      let r3 = if kids_seen then e else continues s in
      let r2 = if Set.contains cur s.seen then continues s else r3 in
      let r1 = if is_restricted restricted cur then returns s.last_top else r2 in
      Bounded-if t n (not (contains_key cur t))
        (returns (if is_none restricted then none else s.last_top)) r1 (λ _. tt)
        (λ _.
          Bounded-if t n (is_restricted restricted cur) (returns s.last_top) r2 (λ _. tt)
            (λ _.
              Bounded-if t n (Set.contains cur s.seen) (continues s) r3 (λ _. omega arith)
                (λ new.
                  Bounded-if t n kids_seen e (continues s) (λ _. enter-Bounded cur s new)
                    (λ _. omega arith))))

  scan_ends :
      (n : ℕ) (s : Scan)
      → left t s < n
      → (top : Option (Map Bool)) × (scan t children child_sets restricted n s ≡ some top)
  unfolding scan
  scan_ends zero s h = absurd (omega arith)
  scan_ends (suc n) s h = by_queue s.queue refl (scan_ends n)
    where
      by_round :
          (r : Round) (k : ℕ)
          → Bounded t k r
          → k < n
          → ((s' : Scan)
              → left t s' < n
              → (top : Option (Map Bool)) × (scan t children child_sets restricted n s' ≡ some top))
          → (top : Option (Map Bool)) × ((elim r [
            | returns top' ↦ some top'
            | continues s' ↦ scan t children child_sets restricted n s'
          ])
              ≡ some top)
      by_round (returns top) k b room next_ = (top, refl)
      by_round (continues s') k b room next_ = next_ s' (omega (arith, b, room))

      by_queue :
          (q : List Text)
          → s.queue ≡ q
          → ((s' : Scan)
              → left t s' < n
              → (top : Option (Map Bool)) × (scan t children child_sets restricted n s' ≡ some top))
          → (top : Option (Map Bool)) × ((elim q [
            | [] ↦ some s.last_top
            | cur ∷ queue ↦
                elim (scan_one t children child_sets restricted cur (record s { queue = queue })) [
                  | returns top' ↦ some top'
                  | continues s' ↦ scan t children child_sets restricted n s'
                ]
          ])
              ≡ some top)
      by_queue [] e next_ = (s.last_top, refl)
      by_queue (cur ∷ queue) e next_ =
          by_round (scan_one t children child_sets restricted cur (record s { queue = queue }))
            (left t (record s { queue = queue }))
            (scan_one-Bounded cur (record s { queue = queue })) (ground (arith, h, e)) next_

  -- The fuel of `find_one_bubble` is enough.
  pub find_one_bubble_ends :
      (bottom : Map Bool)
      → (top : Option (Map Bool)) × (find_one_bubble t bottom children child_sets restricted
          ≡ some top)
  unfolding find_one_bubble Set.contains
  find_one_bubble_ends bottom = scan_ends (suc (length (keys bottom) + pending t [])) _ (
      omega (
        arith,
        pending_anti t [] (seen_below children (keys bottom) []) (λ v h. absurd (ground arith)),
      ))
