-- ===== src/Antimatter/Prune.antt =====
-- `prune_with_time` (core/src/antimatter/algorithm/prune.rs) and `apply_bubbles`
-- (core/src/antimatter/algorithm/bubble.rs). The keys to delete are not sorted and deduplicated
-- first: they are removed one by one, which comes to the same.
pub mod Ends
pub mod Versions
use braid_rs.Prelude.{
  ℕ, suc, ◌+◌, Bool, true, false, not, ◌&&◌, List, [], ◌∷◌, ◌++◌, map, Option, none, some, Text,
  Map, lookup, insert, contains_key, keys, values, length, str_eq, StrSet, if◌then◌else◌,
}
use braid_rs.Prelude.Set
use braid_rs.Antimatter.Messages.{Fissure}
use braid_rs.Antimatter.Search.{
  Graph, Found, found, missing, out_of_fuel, next_of, ancestors, get_child_map,
}
use braid_rs.Antimatter.Bubble.{
  ParentSet, ChildSet, Bubble, all_true, insert_all, is_empty, get_parent_and_child_sets,
  find_one_bubble, mark_each, mark_bubble,
}
use braid_rs.Antimatter.Peer.{PrunableCrdt, AntimatterCrdt, fissure_key, remove_all}

-- The keys of the fissures that both sides have, with those of their counterparts.
unfoldable pub matched : Map Fissure → Map Fissure → List Text
matched all [] = []
matched all ((key, f) ∷ fs) =
    let rest = matched all fs in
    let other_key = fissure_key f.b f.a f.conn in
    if contains_key other_key all then key ∷ other_key ∷ rest else rest

unfoldable pub restrict_fissures : List Fissure → Map Bool → Map Bool
unfolding insert_all
restrict_fissures [] restricted = restricted
restrict_fissures (f ∷ fs) restricted =
    restrict_fissures fs (insert_all (keys f.versions) true restricted)

unfoldable pub restrict_unacked : List Text → Map Bool → Map Bool → Map Bool
restrict_unacked [] acked restricted = restricted
restrict_unacked (v ∷ vs) acked restricted =
    restrict_unacked vs acked
      (if contains_key v acked then restricted else insert v true restricted)

-- What the search of one bubble gives: `return true` of a mere check, or the marks.
pub data Marked : Type 0 where
  checked : Marked
  marked : Map Bubble → Marked

-- The first key, or the empty text.
abbrev pub first_key : Map Bool → Text
first_key [] = []
first_key ((k, _) ∷ _) = k

unfoldable pub take_bubble : Bool → Graph → Map Bool → Map Bool → Map Bubble → Option Marked
unfolding insert_all mark_each mark_bubble
take_bubble true t bottom top m = some checked
take_bubble false t bottom top m =
    let bubble : Bubble = (first_key bottom, first_key top) in
    elim (mark_each (mark_bubble t bubble (suc (length t))) (keys bottom)
      (insert_all (keys top) bubble m)) [ none ↦ none | some m' ↦ some (marked m') ]

-- A bubble found is taken, except where `skip` holds of its top.
unfoldable pub take_top :
    Bool
    → Graph
    → Map Bool
    → (Map Bool → Bool)
    → Map Bubble
    → Option (Option (Map Bool))
    → Option Marked
unfolding take_bubble
take_top just_checking t bottom skip m none = none
take_top just_checking t bottom skip m (some none) = some (marked m)
take_top just_checking t bottom skip m (some (some top)) =
    if skip top then some (marked m) else take_bubble just_checking t bottom top m

module _ (just_checking : Bool) (t children : Graph) (parent_sets : Map ParentSet)
    (child_sets : Map ChildSet) (restricted : Map Bool) where
  unfoldable pub search_from : Map Bool → (Map Bool → Bool) → Map Bubble → Option Marked
  unfolding find_one_bubble take_top
  search_from bottom skip m =
      take_top just_checking t bottom skip m
        (find_one_bubble t bottom children child_sets (some restricted))

  -- The bubble at one version of the frontier.
  unfoldable pub bubble_at : Option ParentSet → Text → Map Bubble → Option Marked
  unfolding search_from
  bubble_at none v m = search_from ((v, true) ∷ []) (contains_key v) m
  bubble_at (some ps) v m =
      if ps.done then some (marked m) else search_from ps.members (λ _. false) m

  unfoldable pub find_bubbles : List Text → StrSet → Map Bubble → Option Marked
  unfolding bubble_at
  find_bubbles [] visited m = some (marked m)
  find_bubbles (v ∷ vs) visited m =
      if Set.contains v visited
      then find_bubbles vs visited m
      else elim (bubble_at (lookup v parent_sets) v m) [
        | none ↦ none
        | some checked ↦ some checked
        | some (marked m') ↦ find_bubbles vs (Set.insert v visited) m'
      ]

-- The version that stands for a version, and for a parent, after the bubbles are applied.
abbrev pub new_version : Map Bubble → Text → Text
new_version to_bubble v = elim (lookup v to_bubble) [ none ↦ v | some (bottom, _) ↦ bottom ]

abbrev pub new_parent : Map Bubble → Text → Text
new_parent to_bubble p = elim (lookup p to_bubble) [ none ↦ p | some (_, top) ↦ top ]

unfoldable pub bubbled_graph : Map Bubble → Graph → Graph → Graph
bubbled_graph to_bubble [] t = t
bubbled_graph to_bubble ((v, parents) ∷ old) t =
    let v' = new_version to_bubble v in
    let parents' = Set.extend (map (new_parent to_bubble) parents) [] in
    bubbled_graph to_bubble old (insert v' (Set.extend parents' (next_of t v')) t)

unfoldable pub group_bubbles : List (Text × Bubble) → Map (List Text) → Map (List Text)
group_bubbles [] groups = groups
group_bubbles ((v, (bottom, _)) ∷ bs) groups = group_bubbles bs (
    if str_eq v bottom
    then groups
    else insert bottom (elim (lookup bottom groups) [ none ↦ [] | some g ↦ g ] ++ (v ∷ [])) groups)

module _ (pc : PrunableCrdt) where
  unfoldable pub prune_bubbled : List (Text × Bubble) → pc.Crdt → pc.Crdt
  prune_bubbled [] crdt = crdt
  prune_bubbled ((v, (bottom, _)) ∷ bs) crdt =
      prune_bubbled bs (if str_eq v bottom then crdt else pc.prune v crdt)

  unfoldable pub apply_bubbles : Map Bubble → AntimatterCrdt pc → AntimatterCrdt pc
  unfolding bubbled_graph group_bubbles prune_bubbled insert_all Set.extend
  apply_bubbles to_bubble s = if is_empty to_bubble then s else record s {
    t = bubbled_graph to_bubble s.t [];
    current_version = insert_all (map (new_version to_bubble) (keys s.current_version)) true [];
    acked_boundary = Set.extend (map (new_version to_bubble) s.acked_boundary) [];
    version_groups = group_bubbles to_bubble s.version_groups;
    crdt = prune_bubbled to_bubble s.crdt;
  }

  -- The versions that no bubble may take; `none` if the fuel of `ancestors` runs out.
  unfoldable pub restricted_versions : Bool → AntimatterCrdt pc → Option (Map Bool)
  unfolding restrict_fissures restrict_unacked ancestors
  restricted_versions true s = some (restrict_fissures (values s.fissures) [])
  restricted_versions false s =
      let restricted = restrict_fissures (values s.fissures) [] in
      elim (ancestors s.t (all_true s.acked_boundary) true) [
        | found acked ↦ some (restrict_unacked (keys s.t) acked restricted)
        | missing _ ↦ some restricted
        | out_of_fuel ↦ none
      ]

  -- The bubbles that are found, applied unless this is a mere check.
  unfoldable pub finish : Bool → AntimatterCrdt pc → Marked → AntimatterCrdt pc × Bool
  unfolding apply_bubbles
  finish just_checking s checked = (s, true)
  finish true s (marked m) = (s, false)
  finish false s (marked m) = (apply_bubbles m s, false)

  unfoldable pub search_bubbles : Bool → AntimatterCrdt pc → Map Bool → Option Marked
  unfolding get_child_map get_parent_and_child_sets find_bubbles
  search_bubbles just_checking s restricted =
      let children = get_child_map s.t in
      let (parent_sets, child_sets) = get_parent_and_child_sets s.t s.current_version children in
      find_bubbles just_checking s.t children parent_sets child_sets restricted
        (keys s.current_version) [] []

  unfoldable pub prune_versions : Bool → AntimatterCrdt pc → Option (AntimatterCrdt pc × Bool)
  unfolding restricted_versions search_bubbles finish
  prune_versions just_checking s = elim (restricted_versions just_checking s) [
    | none ↦ none
    | some restricted ↦ elim (search_bubbles just_checking s restricted) [
      | none ↦ none
      | some result ↦ some (finish just_checking s result)
    ]
  ]

  -- The state afterwards, and the result; `none` if the fuel of a search runs out.
  unfoldable pub prune_with_time : Bool → AntimatterCrdt pc → Option (AntimatterCrdt pc × Bool)
  unfolding matched prune_versions remove_all
  prune_with_time true s =
      if is_empty (matched s.fissures s.fissures) then prune_versions true s else some (s, true)
  prune_with_time false s =
      prune_versions false
        (record s { fissures = remove_all (matched s.fissures s.fissures) s.fissures })

  unfoldable pub prune : Bool → AntimatterCrdt pc → Option (AntimatterCrdt pc × Bool)
  unfolding prune_with_time
  prune just_checking s = prune_with_time just_checking s
