-- ===== src/Antimatter/Bubble/Marks.antt =====
-- The recursion of `mark_bubble` ends (core/src/antimatter/algorithm/prune.rs).
use braid_rs.Prelude.{
  ℕ, zero, suc, ◌<◌, ◌≡◌, refl, Bool, true, false, List, [], ◌∷◌, Option, none, some, Text, Map,
  lookup, insert, contains_key, StrSet, arith, unwrap_or, subst, sym,
}
use braid_rs.Antimatter.Search.Walk.{
  Has, Grows, Grows-insert, unvisited, unvisited_anti, unvisited-insert,
}
use braid_rs.Antimatter.Search.{Graph, next_of}
use braid_rs.Antimatter.Bubble.{Bubble, mark_each, mark_bubble}

-- The marks that are there stay.
abbrev pub Marks : Map Bubble → Option (Map Bubble) → Type 0
Marks m result = (m' : Map Bubble) × (result ≡ some m') × Grows m m'

Marks-then :
    (m : Map Bubble) (result : Option (Map Bubble)) (f : Map Bubble → Option (Map Bubble))
    → Marks m result
    → ((m' : Map Bubble) → Grows m m' → Marks m' (f m'))
    → Marks m (elim result [ none ↦ none | some m' ↦ f m' ])
Marks-then m none f (m1, e, g) rest = absurd (ground arith)
Marks-then m (some m1) f (_, e, g) rest =
    let (m2, e2, g2) = rest m1 (λ w h.
      subst (λ (o : Option (Map Bubble)). elim o [ none ↦ Unit | some x ↦ Has w x ]) (sym e)
        (g w h)) in
    (
      m2,
      e2,
      λ w h. g2 w (
          subst (λ (o : Option (Map Bubble)). elim o [ none ↦ Unit | some x ↦ Has w x ]) (sym e)
            (g w h)),
    )

pub mark_each-Marks :
    (t : Graph) (n : ℕ) (mark : Text → Map Bubble → Option (Map Bubble))
    → ((v : Text) (m : Map Bubble) → unvisited t m < n → Marks m (mark v m))
    → (vs : List Text) (m : Map Bubble) → unvisited t m < n
    → Marks m (mark_each mark vs m)
unfolding mark_each
mark_each-Marks t n mark one [] m fuel = (m, refl, λ w h. h)
mark_each-Marks t n mark one (v ∷ vs) m fuel =
    Marks-then m (mark v m) (mark_each mark vs) (one v m fuel)
      (λ m' g. mark_each-Marks t n mark one vs m' (omega (arith, fuel, unvisited_anti t m m' g)))

mark_new :
    (t : Graph) (bubble : Bubble) (n : ℕ) (v : Text) (m : Map Bubble) (parents : Option StrSet)
    → lookup v t ≡ parents
    → contains_key v m ≡ false
    → unvisited t m < suc n
    → ((w : Text) (m' : Map Bubble) → unvisited t m' < n → Marks m' (mark_bubble t bubble n w m'))
    → Marks
        (insert v bubble m)
        (mark_each (mark_bubble t bubble n) (unwrap_or parents []) (insert v bubble m))
unfolding mark_each
mark_new t bubble n v m none here new fuel ih = (insert v bubble m, refl, λ w h. h)
mark_new t bubble n v m (some ps) here new fuel ih =
    mark_each-Marks t n (mark_bubble t bubble n) ih ps (insert v bubble m)
      (omega (arith, fuel, unvisited-insert t v bubble m (ground arith) new))

-- The recursion of `mark_bubble` ends, at a depth that the number of versions bounds.
pub mark_bubble-Marks :
    (t : Graph) (bubble : Bubble) (n : ℕ) (v : Text) (m : Map Bubble)
    → unvisited t m < n
    → Marks m (mark_bubble t bubble n v m)
unfolding mark_bubble
mark_bubble-Marks t bubble zero v m fuel = absurd (omega arith)
mark_bubble-Marks t bubble (suc n) v m fuel =
    branch (contains_key v m) refl (mark_bubble-Marks t bubble n)
  where
    branch :
        (old : Bool)
        → contains_key v m ≡ old
        → ((w : Text) (m' : Map Bubble)
            → unvisited t m' < n
            → Marks m' (mark_bubble t bubble n w m'))
        → Marks m (elim old [
          | true ↦ some m
          | false ↦ mark_each (mark_bubble t bubble n) (next_of t v) (insert v bubble m)
        ])
    branch true e ih = (m, refl, λ w h. h)
    branch false new ih =
        let (m', e, g) = mark_new t bubble n v m (lookup v t) refl new fuel ih in
        (m', e, λ w h. g w (Grows-insert v bubble m w h))
