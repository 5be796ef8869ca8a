-- ===== src/Antimatter/Peer/Frontier.antt =====
-- The frontier of the version graph (core/src/antimatter/antimatter.rs, `add_version` and
-- `get_leaves`).
use braid_rs.Prelude.{
  ◌≡◌, refl, sym, subst, Bool, true, false, ◌||◌, List, [], ◌∷◌, none, some, Text, Map, lookup,
  insert, remove, contains_key, keys, ◌⊎◌, inl, inr, arith, lookup-insert, lookup-remove, eq_iff,
  str_eq, str_eq_self, Bool-cases, if◌then◌else◌,
}
use braid_rs.Prelude.Set
use braid_rs.Antimatter.Messages.{Patch}
use braid_rs.Antimatter.Search.{Graph, next_of}
use braid_rs.Antimatter.Search.Walk.{Has, Among}
use braid_rs.Antimatter.Search.Exact.{Among-keys}
use braid_rs.Antimatter.Peer.{
  PrunableCrdt, AntimatterCrdt, remove_all, add_new_version, add_version, apply_patches,
  drop_parents, get_leaves,
}

module _ (pc : PrunableCrdt) where
  pub remove_all-lookup :
      {V : Type 0} (ks : List Text) (m : Map V) (w : Text)
      → lookup w (remove_all ks m) ≡ (if Set.contains w ks then none else lookup w m)
  unfolding remove_all Set.contains
  remove_all-lookup [] m w = refl
  remove_all-lookup (k ∷ ks) m w =
      ground (arith, remove_all-lookup ks (remove k m) w, lookup-remove k w m)

  -- Some version of the list has the version as a parent.
  unfoldable pub has_child : Graph → List Text → Text → Bool
  unfolding Set.contains
  has_child t [] w = false
  has_child t (v ∷ vs) w = Set.contains w (next_of t v) || has_child t vs w

  drop_parents-lookup :
      (vs : List Text) (t : Graph) (m : Map Bool) (w : Text)
      → lookup w (drop_parents pc vs t m) ≡ (if has_child t vs w then none else lookup w m)
  unfolding drop_parents has_child
  drop_parents-lookup [] t m w = refl
  drop_parents-lookup (v ∷ vs) t m w = ground (
    arith,
    drop_parents-lookup vs t (remove_all (next_of t v) m) w,
    remove_all-lookup (next_of t v) m w,
  )

  -- The leaves of a set of versions are exactly those of its versions that are no parent of another
  -- version of the set.
  get_leaves-lookup :
      (versions : Map Bool) (s : AntimatterCrdt pc) (w : Text)
      → lookup w (get_leaves pc versions s)
        ≡ (if has_child s.t (keys versions) w then none else lookup w versions)
  unfolding get_leaves
  get_leaves-lookup versions s w = drop_parents-lookup (keys versions) s.t versions w

  -- The frontier is exactly the versions of the graph that are no version's parent.
  pub record IsFrontier (s : AntimatterCrdt pc) : Type 0 where
    pub known : (w : Text) → Has w s.current_version → Has w s.t
    pub childless : (w c : Text) → Has w s.current_version → Set.contains w (next_of s.t c) ≡ false
    pub complete :
        (w : Text) → Has w s.t → Has w s.current_version ⊎ ((c : Text) × Among w (next_of s.t c))

  -- The parents in the graph that has one version more.
  next_of-insert :
      (v c : Text) (ps : List Text) (t : Graph)
      → next_of (insert v ps t) c ≡ (if str_eq v c then ps else next_of t c)
  next_of-insert v c ps t = ground (arith, lookup-insert v c ps t)

  frontier-lookup :
      (v w : Text) (ps : List Text) (m : Map Bool)
      → lookup w (insert v true (remove_all ps m))
        ≡ (if str_eq v w then some true else (if Set.contains w ps then none else lookup w m))
  frontier-lookup v w ps m =
      ground (arith, lookup-insert v w true (remove_all ps m), remove_all-lookup ps m w)

  module _ (version : Text) (parents : Map Bool) (patches : List Patch) (s : AntimatterCrdt pc)
      (fresh : contains_key version s.t ≡ false) (other : contains_key version parents ≡ false)
      (causal : (c : Text) → Set.contains version (next_of s.t c) ≡ false) where
    abbrev s' : AntimatterCrdt pc
    unfolding add_new_version
    s' = add_new_version pc version parents patches s

    frontier_after :
        (w : Text)
        → lookup w s'.current_version ≡ (
            if str_eq version w
            then some true
            else (if Set.contains w (keys parents) then none else lookup w s.current_version))
    unfolding add_new_version
    frontier_after w = frontier-lookup version w (keys parents) s.current_version

    graph_after :
        (w : Text)
        → lookup w s'.t ≡ (if str_eq version w then some (keys parents) else lookup w s.t)
    unfolding add_new_version
    graph_after w = lookup-insert version w (keys parents) s.t

    next_after :
        (c : Text) → next_of s'.t c ≡ (if str_eq version c then keys parents else next_of s.t c)
    unfolding add_new_version
    next_after c = next_of-insert version c (keys parents) s.t

    known_after :
        ((w : Text) → Has w s.current_version → Has w s.t)
        → (w : Text) → Has w s'.current_version
        → Has w s'.t
    known_after known w h = ground (arith, frontier_after w, graph_after w, known w)

    childless_after :
        ((w c : Text) → Has w s.current_version → Set.contains w (next_of s.t c) ≡ false)
        → (w c : Text) → Has w s'.current_version
        → Set.contains w (next_of s'.t c) ≡ false
    childless_after childless w c h = ground (
      arith,
      frontier_after w,
      next_after c,
      childless w c,
      causal c,
      Among-keys version parents,
      eq_iff version w,
    )

    child_after : (w c : Text) → Among w (next_of s.t c) → Among w (next_of s'.t c)
    unfolding Set.contains
    child_after w c h = ground (arith, next_after c, eq_iff version c, fresh)

    complete_after :
        ((w : Text) → Has w s.t → Has w s.current_version ⊎ ((c : Text) × Among w (next_of s.t c)))
        → (w : Text) → Has w s'.t
        → Has w s'.current_version ⊎ ((c : Text) × Among w (next_of s'.t c))
    complete_after complete w h = elim (Bool-cases (str_eq version w)) [
      | inl same ↦ inl (ground (arith, frontier_after w))
      | inr differs ↦ elim (complete w (ground (arith, graph_after w))) [
        | inr (c, child) ↦ inr (c, child_after w c child)
        | inl leaf ↦ elim (Bool-cases (Set.contains w (keys parents))) [
          | inl parent ↦ inr (version, ground (arith, next_after version, str_eq_self version))
          | inr none_ ↦ inl (ground (arith, frontier_after w))
        ]
      ]
    ]

    add_new_version-IsFrontier : IsFrontier s → IsFrontier s'
    add_new_version-IsFrontier h = record {
      known = known_after h.known;
      childless = childless_after h.childless;
      complete = complete_after h.complete;
    }

  add_version_known :
      (version : Text) (parents : Map Bool) (patches : List Patch) (s : AntimatterCrdt pc)
      → Has version s.t
      → add_version pc version parents patches s ≡ (s, [])
  unfolding add_version
  add_version_known version parents patches s old = rw old

  add_version_fresh :
      (version : Text) (parents : Map Bool) (patches : List Patch) (s : AntimatterCrdt pc)
      → contains_key version s.t ≡ false
      → add_version pc version parents patches s
        ≡ (add_new_version pc version parents patches s, patches)
  unfolding add_version
  add_version_fresh version parents patches s fresh = rw fresh

  -- If versions arrive in causal order, so that no version of the graph has the new one as a parent,
  -- nor it itself, then after `add_version` the frontier is again exactly the childless versions of
  -- the graph. A version that is there already gives back no patches and leaves the CRDT as it was;
  -- any other gives its own patches back, which the CRDT has applied in order.
  pub add_version-IsFrontier :
      (version : Text) (parents : Map Bool) (patches : List Patch) (s : AntimatterCrdt pc)
      → IsFrontier s
      → contains_key version parents ≡ false
      → ((c : Text) → Set.contains version (next_of s.t c) ≡ false)
      → IsFrontier (add_version pc version parents patches s).0
        × ((add_version pc version parents patches s).1
            ≡ (if contains_key version s.t then [] else patches))
        × ((add_version pc version parents patches s).0.crdt
            ≡ (if contains_key version s.t then s.crdt else apply_patches pc patches s.crdt))
  unfolding add_version
  add_version-IsFrontier version parents patches s h other causal =
      elim (Bool-cases (contains_key version s.t)) [
        | inl old ↦ (
          subst (λ (r : AntimatterCrdt pc × List Patch). IsFrontier r.0)
              (sym (add_version_known version parents patches s old)) h,
          rw old,
          rw old,
        )
        | inr fresh ↦ (
          subst (λ (r : AntimatterCrdt pc × List Patch). IsFrontier r.0)
              (sym (add_version_fresh version parents patches s fresh))
              (add_new_version-IsFrontier version parents patches s fresh other causal h),
          rw fresh,
          rw fresh,
        )
      ]
