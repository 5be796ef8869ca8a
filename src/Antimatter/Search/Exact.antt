-- ===== src/Antimatter/Search/Exact.antt =====
-- `ancestors` and `descendants` (core/src/antimatter/algorithm/bubble.rs) find what can be reached,
-- and end.
use braid_rs.Prelude.{
  ℕ, zero, suc, ◌<◌, ◌≡◌, refl, sym, subst, Bool, true, false, [], ◌∷◌, Text, Map, lookup, insert,
  contains_key, keys, length, ◌⊎◌, inl, inr, ◌↔◌, arith, lookup-insert, eq_iff, str_eq, Bool-cases,
}
use braid_rs.Prelude.Set
use braid_rs.Antimatter.Search.{
  Graph, Found, found, missing, out_of_fuel, next_of, each, recurse, ancestors, descendants,
  get_child_map,
}
use braid_rs.Antimatter.Search.Walk.{
  Has, Among, unvisited, unvisited-length, unvisited-insert, Grows-insert, Has-insert, Reach,
  Reach-Has, start, step, Finished, Walked, Dangling, root, behind, Ends, each-Ends, Among-head,
  Among-cases, Among-nothing,
}

module _ (next t : Graph) (ignore : Bool) where
  recurse_stay :
      (v : Text) (r : Map Bool)
      → (Has v t → Has v r)
      → (ignore ≡ false → Has v r)
      → Walked next t ignore (v ∷ []) r r
  recurse_stay v r old strict = record {
    grows = λ w h. h;
    rooted = λ w a h. elim (Among-cases w v [] a) [
      | inl e ↦ subst (λ x. Has x r) e (old (subst (λ x. Has x t) (sym e) h))
      | inr never ↦ absurd (Among-nothing w never)
    ];
    real = λ w a s. elim (Among-cases w v [] a) [
      | inl e ↦ subst (λ x. Has x r) e (strict s)
      | inr never ↦ absurd (Among-nothing w never)
    ];
    finished = λ w h. inl h;
    from = λ w h. inl h;
  }

  Dangling-behind :
      {v w : Text}
      → Has v t
      → Dangling next t ignore (next_of next v) w
      → Dangling next t ignore (v ∷ []) w
  Dangling-behind {v} {w} here (root a) = behind (Among-head v []) (start here) a
  Dangling-behind {v} {w} here (behind a path last) =
      behind (Among-head v []) (step here a path) last

  -- What the walk found in front of `v`, or `v` itself.
  Has-entered : (v w : Text) (r : Map Bool) → Has w (insert v true r) → (v ≡ w) ⊎ Has w r
  Has-entered v w r h = elim (Bool-cases (str_eq v w)) [
    | inl e ↦ inl ((eq_iff v w).0 e)
    | inr ne ↦ inr (ground (arith, lookup-insert v w true r))
  ]

  recurse_enter :
      (v : Text) (r : Map Bool) (x : Found)
      → Has v t
      → Ends next t ignore (next_of next v) (insert v true r) x
      → Ends next t ignore (v ∷ []) r x
  recurse_enter v r (found r') here a =
      let self = a.grows v (Has-insert v true r) in
      record {
        grows = λ w h. a.grows w (Grows-insert v true r w h);
        rooted = λ w among h. elim (Among-cases w v [] among) [
          | inl e ↦ subst (λ x. Has x r') e self
          | inr never ↦ absurd (Among-nothing w never)
        ];
        real = λ w among s. elim (Among-cases w v [] among) [
          | inl e ↦ subst (λ x. Has x r') e self
          | inr never ↦ absurd (Among-nothing w never)
        ];
        finished = λ w h. elim (a.finished w h) [
          | inr f ↦ inr f
          | inl entered ↦ elim (Has-entered v w r entered) [
            | inr old ↦ inl old
            | inl e ↦ inr (
                subst (λ x. Finished next t ignore r' x) e
                  (record { exists = here; followed = a.rooted; whole = a.real }))
          ]
        ];
        from = λ w h. elim (a.from w h) [
          | inr (p, among, path) ↦ inr (v, Among-head v [], step here among path)
          | inl entered ↦ elim (Has-entered v w r entered) [
            | inr old ↦ inl old
            | inl e ↦ inr (v, Among-head v [], subst (λ x. Reach next t ignore v x) e (start here))
          ]
        ];
      }
  recurse_enter v r (missing w) here (strict, absent, d) = (strict, absent, Dangling-behind here d)
  recurse_enter v r out_of_fuel here a = a

  -- The three branches of `recurse`.
  recurse_branch :
      (n : ℕ) (v : Text) (r : Map Bool) (old here skip : Bool)
      → contains_key v r ≡ old
      → contains_key v t ≡ here
      → ignore ≡ skip
      → (old ≡ false
          → here ≡ true
          → Ends next t ignore
              (v ∷ [])
              r
              (each (recurse next t ignore n) (next_of next v) (insert v true r)))
      → Ends next t ignore (v ∷ []) r (elim old [
        | true ↦ found r
        | false ↦ elim here [
          | false ↦ elim skip [ true ↦ found r | false ↦ missing v ]
          | true ↦ each (recurse next t ignore n) (next_of next v) (insert v true r)
        ]
      ])
  recurse_branch n v r true here skip e1 e2 e3 enter = recurse_stay v r (λ _. e1) (λ _. e1)
  recurse_branch n v r false true skip e1 e2 e3 enter = enter refl refl
  recurse_branch n v r false false true e1 e2 e3 enter =
      recurse_stay v r (λ h. absurd (ground arith)) (λ s. absurd (ground arith))
  recurse_branch n v r false false false e1 e2 e3 enter = (e3, e2, root (Among-head v []))

  recurse-Ends :
      (n : ℕ) (v : Text) (r : Map Bool)
      → unvisited t r < n
      → Ends next t ignore (v ∷ []) r (recurse next t ignore n v r)
  unfolding recurse
  recurse-Ends zero v r fuel = absurd (omega arith)
  recurse-Ends (suc n) v r fuel =
      recurse_branch n v r (contains_key v r) (contains_key v t) ignore refl refl refl (λ new here.
        recurse_enter v r (each (recurse next t ignore n) (next_of next v) (insert v true r)) here (
          each-Ends next t ignore n (recurse next t ignore n) (recurse-Ends n) (next_of next v)
            (insert v true r) (omega (arith, fuel, unvisited-insert t v true r here new))))

  -- The whole walk: the loop over the asked versions.
  search-Ends :
      (versions : Map Bool)
      → Ends next t ignore
          (keys versions)
          []
          (each (recurse next t ignore (suc (length t))) (keys versions) [])
  search-Ends versions =
      each-Ends next t ignore (suc (length t)) (recurse next t ignore (suc (length t)))
        (λ v r fuel. recurse-Ends (suc (length t)) v r fuel) (keys versions) []
        (omega (arith, unvisited-length {V = Bool} t []))

-- The keys of a map, and the map.
pub Among-keys : {V : Type 0} (v : Text) (m : Map V) → Among v (keys m) ↔ Has v m
unfolding Set.contains lookup
Among-keys v [] = (λ h. h, λ h. h)
Among-keys v ((k, _) ∷ m) = ground (arith, Among-keys v m)

-- Where missing versions are errors, a result has all asked versions and is closed.
abbrev pub Closed : Graph → Bool → Map Bool → Map Bool → Type 0
Closed next true versions r = Unit
Closed next false versions r =
    ((v : Text) → Has v versions → Has v r)
    × ((w p : Text) → Has w r → Among p (next_of next w) → Has p r)

-- The answer to a question for the versions behind `versions`.
abbrev pub Exact : Graph → Graph → Bool → Map Bool → Found → Type 0
Exact next t ignore versions (found r) =
    ((w : Text) → Has w r ↔ ((v : Text) × Has v versions × Reach next t ignore v w))
    × Closed next ignore versions r
Exact next t ignore versions (missing w) =
    (ignore ≡ false) × (contains_key w t ≡ false) × Dangling next t ignore (keys versions) w
Exact next t ignore versions out_of_fuel = ⊥

module _ (next t : Graph) (ignore : Bool) (versions : Map Bool) where
  all-Finished :
      (r : Map Bool)
      → Walked next t ignore (keys versions) [] r
      → (w : Text) → Has w r
      → Finished next t ignore r w
  unfolding lookup
  all-Finished r a w h = elim (a.finished w h) [ inl never ↦ absurd (ground arith) | inr f ↦ f ]

  -- A finished walk is closed, so that it holds what can be reached from what it holds.
  complete :
      (r : Map Bool)
      → Walked next t ignore (keys versions) [] r
      → {v w : Text} → Reach next t ignore v w
      → Has v r
      → Has w r
  complete r a (start _) h = h
  complete r a (step here among path) h =
      let f = all-Finished r a _ h in
      complete r a path (f.followed _ among (Reach-Has next t ignore path))

  closed :
      (r : Map Bool) (strict : Bool)
      → (strict ≡ false → Closed next false versions r)
      → Closed next strict versions r
  closed r true f = tt
  closed r false f = f refl

  Ends-Exact :
      (x : Found) → Ends next t ignore (keys versions) [] x → Exact next t ignore versions x
  unfolding lookup
  Ends-Exact (found r) a = (
    λ w. (
      λ h. elim (a.from w h) [
        | inl never ↦ absurd (ground arith)
        | inr (v, among, path) ↦ (v, (Among-keys v versions).0 among, path)
      ],
      λ (v, asked, path).
          complete r a path
            (a.rooted v ((Among-keys v versions).1 asked) (Reach-Has next t ignore path)),
    ),
    closed r ignore (λ strict. (
      λ v asked. a.real v ((Among-keys v versions).1 asked) strict,
      λ w p h among. (all-Finished r a w h).whole p among strict,
    )),
  )
  Ends-Exact (missing w) a = a
  Ends-Exact out_of_fuel a = a

-- The call of `ancestors` returns. A result holds exactly the versions that can be reached from
-- the asked ones over parents that exist; where missing versions are errors, all asked versions and
-- all parents of the result are in it. An error occurs in that case only, and names a version that
-- does not exist and that is asked for or is a parent of one that can be reached.
pub ancestors-Exact :
    (t : Graph) (versions : Map Bool) (ignore : Bool)
    → Exact t t ignore versions (ancestors t versions ignore)
unfolding ancestors
ancestors-Exact t versions ignore =
    Ends-Exact t t ignore versions (ancestors t versions ignore) (search-Ends t t ignore versions)

pub descendants-Exact :
    (t : Graph) (versions : Map Bool) (ignore : Bool)
    → Exact (get_child_map t) t ignore versions (descendants t versions ignore)
unfolding descendants
descendants-Exact t versions ignore =
    Ends-Exact (get_child_map t) t ignore versions (descendants t versions ignore)
      (search-Ends (get_child_map t) t ignore versions)
