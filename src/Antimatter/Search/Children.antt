-- ===== src/Antimatter/Search/Children.antt =====
-- `get_child_map` turns the edges of the version graph around, so that `descendants` is the converse
-- of `ancestors` (core/src/antimatter/algorithm/bubble.rs).
use braid_rs.Prelude.{
  ◌≡◌, refl, ◌∙◌, sym, Bool, true, false, ◌&&◌, ◌||◌, List, [], ◌∷◌, Text, Map, lookup,
  contains_key, ◌↔◌, arith, lookup-insert, eq_iff, str_eq,
}
use braid_rs.Prelude.Set
use braid_rs.Antimatter.Search.{
  Graph, Found, found, missing, out_of_fuel, next_of, add_child, add_children, child_map_from,
  get_child_map, descendants,
}
use braid_rs.Antimatter.Search.Walk.{Has, Among, Reach, start, step}
use braid_rs.Antimatter.Search.Exact.{Exact, descendants-Exact}

-- The map has each key once.
abbrev pub Distinct : {V : Type 0} → Map V → Type 0
Distinct [] = Unit
Distinct ((k, _) ∷ m) = (contains_key k m ≡ false) × Distinct m

add_children-next :
    (v : Text) (ps : List Text) (children : Graph) (c p : Text)
    → Set.contains c (next_of (add_children v ps children) p)
      ≡ ((str_eq v c && Set.contains p ps) || Set.contains c (next_of children p))
unfolding add_children Set.contains
add_children-next v [] children c p = ground arith
add_children-next v (q ∷ ps) children c p = ground (
  arith,
  add_children-next v ps (add_child v q children) c p,
  lookup-insert q p (Set.insert v (next_of children q)) children,
  Set.contains-insert v c (next_of children q),
  eq_iff q p,
)

child_map_from-next :
    (t : Graph) (children : Graph) (c p : Text)
    → Distinct t
    → Set.contains c (next_of (child_map_from t children) p)
      ≡ (Set.contains p (next_of t c) || Set.contains c (next_of children p))
unfolding child_map_from lookup Set.contains
child_map_from-next [] children c p h = refl
child_map_from-next ((v, ps) ∷ t) children c p (new, h) = ground (
  arith,
  child_map_from-next t (add_children v ps children) c p h,
  add_children-next v ps children c p,
  eq_iff v c,
)

-- A version is among the children of another exactly if that one is among its parents.
pub get_child_map-next :
    (t : Graph) (c p : Text)
    → Distinct t
    → Set.contains c (next_of (get_child_map t) p) ≡ Set.contains p (next_of t c)
unfolding get_child_map lookup Set.contains
get_child_map-next t c p h = ground (arith, child_map_from-next t [] c p h)

module _ (one other t : Graph)
    (dual : (c p : Text) → Among c (next_of one p) → Among p (next_of other c)) where
  Reach-snoc :
      {w p v : Text}
      → Reach other t true w p
      → Among v (next_of other p)
      → Has v t
      → Reach other t true w v
  Reach-snoc (start h) among here = step h among (start here)
  Reach-snoc (step h first path) among here = step h first (Reach-snoc path among here)

  Reach-reverse : {v w : Text} → Reach one t true v w → Reach other t true w v
  Reach-reverse (start h) = start h
  Reach-reverse (step {v} {p} h among path) = Reach-snoc (Reach-reverse path) (dual p v among) h

-- Over a graph that lists each version once, `descendants` without errors for missing versions
-- returns exactly the versions from which one of the asked versions can be reached over parents.
pub descendants_reverse :
    (t : Graph) (versions : Map Bool)
    → Distinct t
    → (r : Map Bool) × (descendants t versions true ≡ found r)
      × ((w : Text) → Has w r ↔ ((v : Text) × Has v versions × Reach t t true w v))
descendants_reverse t versions h =
    go (descendants t versions true) (descendants-Exact t versions true)
  where
    go :
        (x : Found)
        → Exact (get_child_map t) t true versions x
        → (r : Map Bool) × (x ≡ found r)
          × ((w : Text) → Has w r ↔ ((v : Text) × Has v versions × Reach t t true w v))
    go (found r) (exact, _) = (
      r,
      refl,
      λ w. (
        λ here.
            let (v, asked, path) = (exact w).0 here in
            (
              v,
              asked,
              Reach-reverse (get_child_map t) t t (λ c p a. sym (get_child_map-next t c p h) ∙ a)
                  path,
            ),
        λ (v, asked, path). (exact w).1 (
          v,
          asked,
          Reach-reverse t (get_child_map t) t (λ c p a. get_child_map-next t p c h ∙ a) path,
        ),
      ),
    )
    go (missing w) (strict, _, _) = absurd (ground arith)
    go out_of_fuel never = absurd never
