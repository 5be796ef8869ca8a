-- ===== src/Antimatter/Prune/Versions.antt =====
-- Which versions the graph has after the bubbles are applied (`apply_bubbles` of
-- core/src/antimatter/algorithm/bubble.rs).
use braid_rs.Prelude.{
  ◌≡◌, refl, ◌∙◌, ap, sym, subst, true, ◌||◌, List, [], ◌∷◌, map, Text, Map, lookup, insert,
  contains_key, keys, arith, lookup-insert, inl, inr,
}
use braid_rs.Prelude.Set
use braid_rs.Antimatter.Search.{Graph, next_of}
use braid_rs.Antimatter.Search.Walk.{Has, Among, Among-cases, Among-nothing, Among-head, Among-tail}
use braid_rs.Antimatter.Search.Exact.{Among-keys}
use braid_rs.Antimatter.Bubble.{Bubble, insert_all}
use braid_rs.Antimatter.Peer.{PrunableCrdt, AntimatterCrdt}
use braid_rs.Antimatter.Prune.{new_version, new_parent, bubbled_graph, apply_bubbles}

insert_all-contains :
    {V : Type 0} (vs : List Text) (x : V) (m : Map V) (w : Text)
    → contains_key w (insert_all vs x m) ≡ (Set.contains w vs || contains_key w m)
unfolding insert_all Set.contains
insert_all-contains [] x m w = refl
insert_all-contains (v ∷ vs) x m w =
    ground (arith, insert_all-contains vs x (insert v x m) w, lookup-insert v w x m)

bubbled_graph-contains :
    (b : Map Bubble) (old t : Graph) (w : Text)
    → contains_key w (bubbled_graph b old t)
      ≡ (Set.contains w (map (new_version b) (keys old)) || contains_key w t)
unfolding bubbled_graph Set.contains
bubbled_graph-contains b [] t w = refl
bubbled_graph-contains b ((v, parents) ∷ old) t w =
    let v' = new_version b v in
    let ps = Set.extend (Set.extend (map (new_parent b) parents) []) (next_of t v') in
    ground (arith, bubbled_graph-contains b old (insert v' ps t) w, lookup-insert v' w ps t)

Among-map : (f : Text → Text) (v : Text) (vs : List Text) → Among v vs → Among (f v) (map f vs)
Among-map f v [] h = absurd (Among-nothing v h)
Among-map f v (u ∷ vs) h = elim (Among-cases v u vs h) [
  | inl e ↦ subst (λ x. Among (f x) (f u ∷ map f vs)) e (Among-head (f u) (map f vs))
  | inr later ↦ Among-tail (f v) (f u) (map f vs) (Among-map f v vs later)
]

map_mono :
    (f : Text → Text) (vs us : List Text)
    → ((v : Text) → Among v vs → Among v us)
    → (w : Text) → Among w (map f vs)
    → Among w (map f us)
map_mono f [] us g w h = absurd (Among-nothing w h)
map_mono f (v ∷ vs) us g w h = elim (Among-cases w (f v) (map f vs) h) [
  | inl e ↦ subst (λ x. Among x (map f us)) e (Among-map f v us (g v (Among-head v vs)))
  | inr later ↦ map_mono f vs us (λ u a. g u (Among-tail u v vs a)) w later
]

-- Without bubbles every version stands for itself.
map_unbubbled : (vs : List Text) → map (new_version []) vs ≡ vs
unfolding lookup
map_unbubbled [] = refl
map_unbubbled (v ∷ vs) = ap (◌∷◌ v) (map_unbubbled vs)

contains-keys : {V : Type 0} (w : Text) (m : Map V) → contains_key w m ≡ Set.contains w (keys m)
contains-keys w m = ground (arith, Among-keys w m)

-- Every key of the one map is a key of the other.
abbrev pub IsWithin : {V W : Type 0} → Map V → Map W → Type 0
IsWithin m m' = (v : Text) → Has v m → Has v m'

module _ (pc : PrunableCrdt) where
  apply_bubbles-contains :
      (b : Map Bubble) (s : AntimatterCrdt pc) (w : Text)
      → (contains_key w (apply_bubbles pc b s).t ≡ Set.contains w (map (new_version b) (keys s.t)))
        × (contains_key w (apply_bubbles pc b s).current_version
            ≡ Set.contains w (map (new_version b) (keys s.current_version)))
  unfolding apply_bubbles lookup
  apply_bubbles-contains [] s w = (
    contains-keys w s.t ∙ ap (Set.contains w) (sym (map_unbubbled (keys s.t))),
    contains-keys w s.current_version
        ∙ ap (Set.contains w) (sym (map_unbubbled (keys s.current_version))),
  )
  apply_bubbles-contains (e ∷ b) s w = (
    ground (arith, bubbled_graph-contains (e ∷ b) s.t [] w),
    ground
        (arith, insert_all-contains (map (new_version (e ∷ b)) (keys s.current_version)) true [] w),
  )

  -- After any bubbles are applied, the versions of the graph are exactly the representatives of the
  -- versions before, and a frontier whose versions are in the graph has its versions in the graph
  -- again.
  pub apply_bubbles-versions :
      (b : Map Bubble) (s : AntimatterCrdt pc)
      → IsWithin s.current_version s.t
      → ((w : Text)
          → contains_key w (apply_bubbles pc b s).t
            ≡ Set.contains w (map (new_version b) (keys s.t)))
        × IsWithin (apply_bubbles pc b s).current_version (apply_bubbles pc b s).t
  apply_bubbles-versions b s known = (
    λ w. (apply_bubbles-contains b s w).0,
    λ w h.
        let (graph, frontier) = apply_bubbles-contains b s w in
        graph
        ∙ map_mono (new_version b) (keys s.current_version) (keys s.t)
            (λ v a. (Among-keys v s.t).1 (known v ((Among-keys v s.current_version).0 a))) w
            (sym frontier ∙ h),
  )
