-- ===== src/Antimatter/Search/Walk.antt =====
-- What one walk of the version graph does (core/src/antimatter/algorithm/bubble.rs).
use braid_rs.Prelude.{
  ℕ, ◌+◌, ◌≤◌, ◌<◌, ◌≡◌, sym, subst, Bool, true, false, List, [], ◌∷◌, Text, Map, lookup, insert,
  contains_key, length, ◌⊎◌, inl, inr, arith, lookup-insert, eq_iff, str_eq, str_eq_self,
  Bool-cases, if◌then◌else◌,
}
use braid_rs.Prelude.Set
use braid_rs.Antimatter.Search.{Graph, Found, found, missing, out_of_fuel, next_of, and_then, each}

abbrev pub Has : {V : Type 0} → Text → Map V → Type 0
Has v m = contains_key v m ≡ true

abbrev pub Among : Text → List Text → Type 0
Among p ps = Set.contains p ps ≡ true

-- The versions of the graph that the walk has not reached.
unfoldable pub unvisited : {V : Type 0} → Graph → Map V → ℕ
unvisited [] r = 0
unvisited ((v, _) ∷ t) r = (if contains_key v r then 0 else 1) + unvisited t r

abbrev pub Grows : {V : Type 0} → Map V → Map V → Type 0
Grows r r' = (w : Text) → Has w r → Has w r'

module _ {V : Type 0} where
  pub unvisited_anti : (t : Graph) (r r' : Map V) → Grows r r' → unvisited t r' ≤ unvisited t r
  unfolding unvisited
  unvisited_anti [] r r' g = omega arith
  unvisited_anti ((v, _) ∷ t) r r' g = ground (arith, unvisited_anti t r r' g, g v)

  pub unvisited-length : (t : Graph) (r : Map V) → unvisited t r ≤ length t
  unfolding unvisited
  unvisited-length [] r = omega arith
  unvisited-length ((v, _) ∷ t) r = ground (arith, unvisited-length t r)

  pub Grows-insert : (v : Text) (x : V) (r : Map V) → Grows r (insert v x r)
  Grows-insert v x r w h = ground (arith, lookup-insert v w x r)

  pub Has-insert : (v : Text) (x : V) (r : Map V) → Has v (insert v x r)
  Has-insert v x r = ground (arith, lookup-insert v v x r, str_eq_self v)

  pub unvisited-insert :
      (t : Graph) (v : Text) (x : V) (r : Map V)
      → Has v t
      → contains_key v r ≡ false
      → unvisited t (insert v x r) < unvisited t r
  unfolding unvisited lookup
  unvisited-insert [] v x r here new = absurd (ground arith)
  unvisited-insert ((j, ps) ∷ t) v x r here new = elim (Bool-cases (str_eq j v)) [
    | inl same ↦ ground (
      arith,
      unvisited_anti t r (insert v x r) (Grows-insert v x r),
      eq_iff j v,
      Has-insert v x r,
    )
    | inr other ↦ ground (arith, unvisited-insert t v x r (ground arith) new, Grows-insert v x r j)
  ]

pub Among-nothing : (v : Text) → Among v [] → ⊥
unfolding Set.contains
Among-nothing v h = ground arith

pub Among-head : (p : Text) (ps : List Text) → Among p (p ∷ ps)
unfolding Set.contains
Among-head p ps = ground (arith, str_eq_self p)

pub Among-tail : (v p : Text) (ps : List Text) → Among v ps → Among v (p ∷ ps)
unfolding Set.contains
Among-tail v p ps h = ground arith

pub Among-cases : (v p : Text) (ps : List Text) → Among v (p ∷ ps) → (p ≡ v) ⊎ Among v ps
unfolding Set.contains
Among-cases v p ps h = elim (Bool-cases (str_eq p v)) [
  | inl e ↦ inl ((eq_iff p v).0 e)
  | inr ne ↦ inr (ground arith)
]

pub Among-one : (v p : Text) (ps : List Text) → Among v (p ∷ []) → Among v (p ∷ ps)
unfolding Set.contains
Among-one v p ps h = ground arith

module _ (next t : Graph) (ignore : Bool) where
  -- A path from one version to another along existing versions.
  pub data Reach : Text → Text → Type 0 where
    start : {v : Text} → Has v t → Reach v v
    step : {v p w : Text} → Has v t → Among p (next_of next v) → Reach p w → Reach v w

  pub Reach-Has : {v w : Text} → Reach v w → Has v t
  Reach-Has (start h) = h
  Reach-Has (step h _ _) = h

  -- A version that the walk has finished: it exists, and so do its neighbours that it needs.
  pub record Finished (r : Map Bool) (w : Text) : Type 0 where
    pub exists : Has w t
    pub followed : (p : Text) → Among p (next_of next w) → Has p t → Has p r
    pub whole : (p : Text) → Among p (next_of next w) → ignore ≡ false → Has p r

  -- A walk that has gone from the found versions `r` to `r'`, from the roots `vs`.
  pub record Walked (vs : List Text) (r r' : Map Bool) : Type 0 where
    pub grows : Grows r r'
    pub rooted : (v : Text) → Among v vs → Has v t → Has v r'
    pub real : (v : Text) → Among v vs → (ignore ≡ false) → Has v r'
    pub finished : (w : Text) → Has w r' → Has w r ⊎ Finished r' w
    pub from : (w : Text) → Has w r' → Has w r ⊎ ((v : Text) × Among v vs × Reach v w)

  -- A version that does not exist and that the walk from `vs` comes to.
  pub data Dangling (vs : List Text) (w : Text) : Type 0 where
    root : Among w vs → Dangling vs w
    behind : {v u : Text} → Among v vs → Reach v u → Among w (next_of next u) → Dangling vs w

  -- The ways in which a walk ends.
  abbrev pub Ends : List Text → Map Bool → Found → Type 0
  Ends vs r (found r') = Walked vs r r'
  Ends vs r (missing w) = (ignore ≡ false) × (contains_key w t ≡ false) × Dangling vs w
  Ends vs r out_of_fuel = ⊥

  Walked-none : (r : Map Bool) → Walked [] r r
  unfolding Set.contains
  Walked-none r = record {
    grows = λ w h. h;
    rooted = λ v h _. absurd (ground arith);
    real = λ v h _. absurd (ground arith);
    finished = λ w h. inl h;
    from = λ w h. inl h;
  }

  -- What is finished stays finished as the walk goes on.
  Finished-Grows : {r r' : Map Bool} {w : Text} → Grows r r' → Finished r w → Finished r' w
  Finished-Grows g f = record {
    exists = f.exists;
    followed = λ p a h. g p (f.followed p a h);
    whole = λ p a strict. g p (f.whole p a strict);
  }

  Walked-then :
      {p : Text} {ps : List Text} {r r1 r2 : Map Bool}
      → Walked (p ∷ []) r r1
      → Walked ps r1 r2
      → Walked (p ∷ ps) r r2
  Walked-then {p} {ps} {r} {r1} {r2} a b = record {
    grows = λ w h. b.grows w (a.grows w h);
    rooted = λ v h there. elim (Among-cases v p ps h) [
      | inl e ↦
          b.grows v (a.rooted v (subst (λ x. Among v (x ∷ [])) (sym e) (Among-head v [])) there)
      | inr later ↦ b.rooted v later there
    ];
    real = λ v h strict. elim (Among-cases v p ps h) [
      | inl e ↦
          b.grows v (a.real v (subst (λ x. Among v (x ∷ [])) (sym e) (Among-head v [])) strict)
      | inr later ↦ b.real v later strict
    ];
    finished = λ w h. elim (b.finished w h) [
      | inl before ↦ elim (a.finished w before) [
        | inl first ↦ inl first
        | inr f ↦ inr (Finished-Grows b.grows f)
      ]
      | inr f ↦ inr f
    ];
    from = λ w h. elim (b.from w h) [
      | inl before ↦ elim (a.from w before) [
        | inl first ↦ inl first
        | inr (v, at, path) ↦ inr (v, Among-one v p ps at, path)
      ]
      | inr (v, at, path) ↦ inr (v, Among-tail v p ps at, path)
    ];
  }

  Dangling-later : {p w : Text} {ps : List Text} → Dangling ps w → Dangling (p ∷ ps) w
  Dangling-later {p} {w} {ps} (root h) = root (Among-tail w p ps h)
  Dangling-later {p} {w} {ps} (behind {v} h path last) = behind (Among-tail v p ps h) path last

  Dangling-first : {p w : Text} {ps : List Text} → Dangling (p ∷ []) w → Dangling (p ∷ ps) w
  Dangling-first {p} {w} {ps} (root h) = root (Among-one w p ps h)
  Dangling-first {p} {w} {ps} (behind {v} h path last) = behind (Among-one v p ps h) path last

  Ends-later :
      (p : Text) (ps : List Text) {r r1 : Map Bool} (x : Found)
      → Walked (p ∷ []) r r1
      → Ends ps r1 x
      → Ends (p ∷ ps) r x
  Ends-later p ps (found r2) a b = Walked-then a b
  Ends-later p ps (missing w) a (strict, absent, d) = (strict, absent, Dangling-later d)
  Ends-later p ps out_of_fuel a b = b

  -- The rest of the loop behind its first round.
  Ends-and_then :
      (p : Text) (ps : List Text) (r : Map Bool) (n : ℕ) (f : Map Bool → Found) (x : Found)
      → unvisited t r < n
      → Ends (p ∷ []) r x
      → ((r1 : Map Bool) → unvisited t r1 < n → Ends ps r1 (f r1))
      → Ends (p ∷ ps) r (and_then x f)
  Ends-and_then p ps r n f (found r1) fuel a rest =
      Ends-later p ps (f r1) a (rest r1 (omega (arith, fuel, unvisited_anti t r r1 a.grows)))
  Ends-and_then p ps r n f (missing w) fuel (strict, absent, d) rest =
      (strict, absent, Dangling-first d)
  Ends-and_then p ps r n f out_of_fuel fuel h rest = h

  pub each-Ends :
      (n : ℕ) (walk : Text → Map Bool → Found)
      → ((p : Text) (r : Map Bool) → unvisited t r < n → Ends (p ∷ []) r (walk p r))
      → (ps : List Text) (r : Map Bool) → unvisited t r < n
      → Ends ps r (each walk ps r)
  unfolding each
  each-Ends n walk one [] r fuel = Walked-none r
  each-Ends n walk one (p ∷ ps) r fuel =
      Ends-and_then p ps r n (each walk ps) (walk p r) fuel (one p r fuel) (each-Ends n walk one ps)
