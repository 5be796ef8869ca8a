-- ===== src/Antimatter/Prune/Ends.antt =====
-- Pruning ends, and what it leaves alone (core/src/antimatter/algorithm/prune.rs).
use braid_rs.Prelude.{
  suc, ◌≡◌, refl, ◌∙◌, ap, Bool, true, false, List, [], ◌∷◌, Option, none, some, Text, Map, lookup,
  contains_key, keys, values, length, StrSet, arith, if◌then◌else◌,
}
use braid_rs.Prelude.Set
use braid_rs.Antimatter.Search.{Graph, Found, found, missing, out_of_fuel, ancestors, get_child_map}
use braid_rs.Antimatter.Search.Walk.{unvisited-length}
use braid_rs.Antimatter.Search.Exact.{Exact, ancestors-Exact}
use braid_rs.Antimatter.Bubble.{
  ParentSet, ChildSet, Bubble, all_true, insert_all, is_empty, get_parent_and_child_sets,
  find_one_bubble, mark_bubble,
}
use braid_rs.Antimatter.Bubble.Ends.{find_one_bubble_ends}
use braid_rs.Antimatter.Bubble.Marks.{mark_each-Marks, mark_bubble-Marks}
use braid_rs.Antimatter.Peer.{PrunableCrdt, AntimatterCrdt, remove_all}
use braid_rs.Antimatter.Prune.{
  matched, restrict_fissures, restrict_unacked, Marked, checked, marked, first_key, take_bubble,
  take_top, search_from, bubble_at, find_bubbles, apply_bubbles, restricted_versions, finish,
  search_bubbles, prune_versions, prune_with_time, prune,
}

-- A search has not run out of fuel.
abbrev pub Returns {ℓ} : {A : Type ℓ} → Option A → Type ℓ
Returns {A = A} o = (a : A) × (o ≡ some a)

take_bubble-Returns :
    (check : Bool) (t : Graph) (bottom top : Map Bool) (m : Map Bubble)
    → Returns (take_bubble check t bottom top m)
unfolding take_bubble
take_bubble-Returns true t bottom top m = (checked, refl)
take_bubble-Returns false t bottom top m =
    let bubble : Bubble = (first_key bottom, first_key top) in
    let m0 = insert_all (keys top) bubble m in
    let (m', e, _) =
      mark_each-Marks t (suc (length t)) (mark_bubble t bubble (suc (length t)))
        (mark_bubble-Marks t bubble (suc (length t))) (keys bottom) m0
        (omega (arith, unvisited-length t m0)) in
    (
      marked m',
      ap (λ (o : Option (Map Bubble)). elim o [ none ↦ none | some m' ↦ some (marked m') ]) e,
    )

take_top-Returns :
    (check : Bool) (t : Graph) (bottom : Map Bool) (skip : Map Bool → Bool) (m : Map Bubble)
    (o : Option (Map Bool))
    → Returns (take_top check t bottom skip m (some o))
unfolding take_top
take_top-Returns check t bottom skip m none = (marked m, refl)
take_top-Returns check t bottom skip m (some top) = branch (skip top)
  where
    branch : (b : Bool) → Returns (if b then some (marked m) else take_bubble check t bottom top m)
    branch true = (marked m, refl)
    branch false = take_bubble-Returns check t bottom top m

module _ (check : Bool) (t children : Graph) (parent_sets : Map ParentSet)
    (child_sets : Map ChildSet) (restricted : Map Bool) where
  search-Returns :
      (bottom : Map Bool) (skip : Map Bool → Bool) (m : Map Bubble)
      → Returns (
          take_top check t bottom skip m
            (find_one_bubble t bottom children child_sets (some restricted)))
  search-Returns bottom skip m =
      let (top, e) = find_one_bubble_ends t children child_sets (some restricted) bottom in
      let (result, e') = take_top-Returns check t bottom skip m top in
      (result, ap (take_top check t bottom skip m) e ∙ e')

  bubble_at-Returns :
      (ps : Option ParentSet) (v : Text) (m : Map Bubble)
      → Returns (bubble_at check t children parent_sets child_sets restricted ps v m)
  unfolding bubble_at search_from
  bubble_at-Returns none v m = search-Returns ((v, true) ∷ []) (contains_key v) m
  bubble_at-Returns (some ps) v m = branch ps.done
    where
      branch :
          (b : Bool)
          → Returns (
              if b
              then some (marked m)
              else take_top check t ps.members
                  (λ _. false)
                  m
                  (find_one_bubble t ps.members children child_sets (some restricted)))
      branch true = (marked m, refl)
      branch false = search-Returns ps.members (λ _. false) m

  find_bubbles-Returns :
      (vs : List Text) (visited : StrSet) (m : Map Bubble)
      → Returns (find_bubbles check t children parent_sets child_sets restricted vs visited m)
  unfolding find_bubbles
  find_bubbles-Returns [] visited m = (marked m, refl)
  find_bubbles-Returns (v ∷ vs) visited m =
      let (result, e) = bubble_at-Returns (lookup v parent_sets) v m in
      branch (Set.contains v visited) result e (find_bubbles-Returns vs)
    where
      branch :
          {o : Option Marked} (b : Bool) (result : Marked)
          → o ≡ some result
          → ((visited : StrSet) (m : Map Bubble)
              → Returns
                  (find_bubbles check t children parent_sets child_sets restricted vs visited m))
          → Returns (
              if b
              then find_bubbles check t children parent_sets child_sets restricted vs visited m
              else elim o [
                | none ↦ none
                | some checked ↦ some checked
                | some (marked m') ↦
                    find_bubbles check t children parent_sets child_sets restricted vs
                      (Set.insert v visited)
                      m'
              ])
      branch true result e rest = rest visited m
      branch false checked e rest = (checked, ground arith)
      branch false (marked m') e rest =
          let (r, e') = rest (Set.insert v visited) m' in (r, ground (arith, e'))

module _ (pc : PrunableCrdt) where
  restricted-Returns :
      (check : Bool) (s : AntimatterCrdt pc) → Returns (restricted_versions pc check s)
  unfolding restricted_versions
  restricted-Returns true s = (restrict_fissures (values s.fissures) [], refl)
  restricted-Returns false s =
      by_found (ancestors s.t (all_true s.acked_boundary) true)
        (ancestors-Exact s.t (all_true s.acked_boundary) true)
    where
      by_found :
          (x : Found)
          → Exact s.t s.t true (all_true s.acked_boundary) x
          → Returns (elim x as (λ _. Option (Map Bool)) [
            | found acked ↦
                some (restrict_unacked (keys s.t) acked (restrict_fissures (values s.fissures) []))
            | missing _ ↦ some (restrict_fissures (values s.fissures) [])
            | out_of_fuel ↦ none
          ])
      by_found (found acked) h = (_, refl)
      by_found (missing w) h = (_, refl)
      by_found out_of_fuel h = absurd h

  -- What pruning leaves alone; and a mere check leaves everything alone.
  pub record Keeps (s s' : AntimatterCrdt pc) : Type 0 where
    pub id : s'.id ≡ s.id
    pub conns : s'.conns ≡ s.conns
    pub proto_conns : s'.proto_conns ≡ s.proto_conns
    pub conn_count : s'.conn_count ≡ s.conn_count
    pub ackmes : s'.ackmes ≡ s.ackmes
    pub sent : s'.sent ≡ s.sent

  abbrev pub Pruned : Bool → AntimatterCrdt pc → AntimatterCrdt pc → Type 0
  Pruned true s s' = s' ≡ s
  Pruned false s s' =
      Keeps s s' × (s'.fissures ≡ remove_all (matched s.fissures s.fissures) s.fissures)

  Keeps-itself : (s : AntimatterCrdt pc) → Keeps s s
  Keeps-itself s = record {
    id = refl;
    conns = refl;
    proto_conns = refl;
    conn_count = refl;
    ackmes = refl;
    sent = refl;
  }

  apply_bubbles-Keeps :
      (m : Map Bubble) (s : AntimatterCrdt pc)
      → Keeps s (apply_bubbles pc m s) × ((apply_bubbles pc m s).fissures ≡ s.fissures)
  unfolding apply_bubbles
  apply_bubbles-Keeps [] s = (Keeps-itself s, refl)
  apply_bubbles-Keeps (b ∷ m) s = (
    record {
      id = refl;
      conns = refl;
      proto_conns = refl;
      conn_count = refl;
      ackmes = refl;
      sent = refl;
    },
    refl,
  )

  finish-Keeps :
      (check : Bool) (s : AntimatterCrdt pc) (r : Marked)
      → Keeps s (finish pc check s r).0 × ((finish pc check s r).0.fissures ≡ s.fissures)
  unfolding finish
  finish-Keeps check s checked = (Keeps-itself s, refl)
  finish-Keeps true s (marked m) = (Keeps-itself s, refl)
  finish-Keeps false s (marked m) = apply_bubbles-Keeps m s

  finish_check : (s : AntimatterCrdt pc) (r : Marked) → (finish pc true s r).0 ≡ s
  unfolding finish
  finish_check s checked = refl
  finish_check s (marked m) = refl

  prune_versions_returns :
      (check : Bool) (s : AntimatterCrdt pc)
      → (r : Marked) × (prune_versions pc check s ≡ some (finish pc check s r))
  unfolding prune_versions search_bubbles
  prune_versions_returns check s =
      let (restricted, e) = restricted-Returns check s in
      let children = get_child_map s.t in
      let sets = get_parent_and_child_sets s.t s.current_version children in
      let (r, e') =
        find_bubbles-Returns check s.t children sets.0 sets.1 restricted (keys s.current_version) []
          [] in
      (r, ground (arith, e, e'))

  -- Pruning always returns. A mere check leaves the whole state as it was. Otherwise the connections,
  -- the acknowledgement requests, the counter and the messages stay, and the fissures that are
  -- removed are exactly the matched ones.
  pub prune_returns :
      (check : Bool) (s : AntimatterCrdt pc)
      → (s' : AntimatterCrdt pc) × (answer : Bool) × (prune pc check s ≡ some (s', answer))
        × Pruned check s s'
  unfolding prune prune_with_time
  prune_returns true s =
      branch (is_empty (matched s.fissures s.fissures)) (prune_versions_returns true s)
    where
      branch :
          (b : Bool)
          → ((r : Marked) × (prune_versions pc true s ≡ some (finish pc true s r)))
          → (s' : AntimatterCrdt pc) × (answer : Bool) × ((if b
                then prune_versions pc true s
                else some (s, true))
              ≡ some (s', answer))
            × (s' ≡ s)
      branch true (r, e) = ((finish pc true s r).0, (finish pc true s r).1, e, finish_check s r)
      branch false h = (s, true, refl, refl)
  prune_returns false s =
      let s1 = record s { fissures = remove_all (matched s.fissures s.fissures) s.fissures } in
      let (r, e) = prune_versions_returns false s1 in
      let (k, f) = finish-Keeps false s1 r in
      (
        (finish pc false s1 r).0,
        (finish pc false s1 r).1,
        e,
        (
          record {
            id = k.id;
            conns = k.conns;
            proto_conns = k.proto_conns;
            conn_count = k.conn_count;
            ackmes = k.ackmes;
            sent = k.sent;
          },
          f,
        ),
      )
