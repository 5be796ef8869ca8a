-- ===== src/Antimatter/Bubble.antt =====
-- The bubbles of the version graph (core/src/antimatter/algorithm/bubble.rs, and `mark_bubble` of
-- core/src/antimatter/algorithm/prune.rs). A `Vec` that is used as a stack has its top in front.
-- The loop of `find_one_bubble` and the recursion of `mark_bubble` are on fuel; Bubble/Ends and
-- Bubble/Marks show that the fuel that they are given is enough.
pub mod Ends
pub mod Marks
use braid_rs.Prelude.{
  ℕ, zero, suc, ◌+◌, Bool, true, false, not, ◌&&◌, List, [], ◌∷◌, ◌++◌, Option, none, some, Text,
  Map, lookup, insert, remove, contains_key, keys, unwrap_or, length, all, leb, StrSet,
  if◌then◌else◌, ◌==◌, is_none,
}
use braid_rs.Prelude.Set
use braid_rs.Antimatter.Search.{Graph, next_of}

-- The versions that `get_parent_and_child_sets` keeps: `ParentSet` and `ChildSet`.
pub record ParentSet : Type 0 where
  pub members : Map Bool
  pub done : Bool

pub record ChildSet : Type 0 where
  pub members : Map Bool

-- A bubble: its bottom and its top.
abbrev pub Bubble : Type 0
Bubble = Text × Text

abbrev pub all_true : List Text → Map Bool
all_true [] = []
all_true (v ∷ vs) = insert v true (all_true vs)

-- Every key of the list gets the value.
unfoldable pub insert_all {ℓ} : {V : Type ℓ} → List Text → V → Map V → Map V
insert_all [] x m = m
insert_all (v ∷ vs) x m = insert_all vs x (insert v x m)

abbrev pub is_empty {ℓ} : {A : Type ℓ} → List A → Bool
is_empty [] = true
is_empty (_ ∷ _) = false

unfoldable pub parent_sets_of : Map Bool → Map ParentSet
unfolding insert_all
parent_sets_of current_version =
    if leb 2 (length current_version)
    then insert_all (keys current_version) (record { members = current_version; done = false }) []
    else []

-- Whether the parents of a version are the given ones.
abbrev pub same_parents : Graph → StrSet → Text → Bool
same_parents t first c = elim (lookup c t) [
  | none ↦ false
  | some ps ↦ (length ps == length first) && all (λ p. Set.contains p first) ps
]

abbrev pub siblings : Graph → StrSet → Text → Map ChildSet → Map ChildSet
siblings t kids first child_sets = elim (lookup first t) [
  | none ↦ child_sets
  | some ps ↦
      if all (same_parents t ps) kids
      then insert_all kids (record { members = all_true kids }) child_sets
      else child_sets
]

-- The child sets that the children of one version give.
abbrev pub add_child_set : Graph → StrSet → Map ChildSet → Map ChildSet
add_child_set t [] child_sets = child_sets
add_child_set t (_ ∷ []) child_sets = child_sets
add_child_set t (k ∷ l ∷ ks) child_sets = siblings t (k ∷ l ∷ ks) k child_sets

unfoldable pub child_sets_of : Graph → Graph → List Text → StrSet → Map ChildSet → Map ChildSet
unfolding insert_all
child_sets_of t children [] done child_sets = child_sets
child_sets_of t children (v ∷ vs) done child_sets =
    if Set.contains v done
    then child_sets_of t children vs done child_sets
    else child_sets_of t children vs (Set.insert v done)
        (add_child_set t (next_of children v) child_sets)

unfoldable pub get_parent_and_child_sets : Graph → Map Bool → Graph → Map ParentSet × Map ChildSet
unfolding parent_sets_of child_sets_of
get_parent_and_child_sets t current_version children =
    let parent_sets = parent_sets_of current_version in
    (parent_sets, child_sets_of t children (keys t) (keys parent_sets) [])

-- The variables of the loop of `find_one_bubble`.
pub record Scan : Type 0 where
  pub expecting : Map Bool
  pub seen : StrSet
  pub queue : List Text
  pub last_top : Option (Map Bool)

-- One round of the loop: it returns, or it goes on.
pub data Round : Type 0 where
  returns : Option (Map Bool) → Round
  continues : Scan → Round

unfoldable pub push_all : List Text → List Text → List Text
push_all [] queue = queue
push_all (p ∷ ps) queue = push_all ps (p ∷ queue)

-- A new top: the search ends with it if it is not restricted.
abbrev pub top_found : Option (Map Bool) → Map Bool → Scan → Round
top_found none top s = returns (some top)
top_found (some _) top s = continues (record s { last_top = some top })

-- All siblings are seen, and what is expected are their parents.
abbrev pub siblings_done : ChildSet → StrSet → Scan → Bool
siblings_done cs parents s =
    all (λ v. Set.contains v s.seen) (keys cs.members)
    && ((length s.expecting == length parents)
        && all (λ e. Set.contains e parents) (keys s.expecting))

-- The top that the siblings of a version make.
abbrev pub sibling_top : Option (Map Bool) → Option ChildSet → StrSet → Scan → Round
sibling_top restricted none parents s = continues s
sibling_top restricted (some cs) parents s =
    if siblings_done cs parents s then top_found restricted cs.members s else continues s

-- A round that enters a version, with the parents that it then expects.
abbrev pub follow : Graph → Map ChildSet → Option (Map Bool) → Text → Scan → Round
follow t child_sets restricted cur s =
    let parents = next_of t cur in
    sibling_top restricted (lookup cur child_sets) parents (record s {
      expecting = insert_all parents true s.expecting;
      queue = push_all parents s.queue;
    })

abbrev pub after_top : Graph → Map ChildSet → Option (Map Bool) → Text → Round → Round
after_top t child_sets restricted cur (returns top) = returns top
after_top t child_sets restricted cur (continues s) = follow t child_sets restricted cur s

-- The version is seen, and expected no more.
abbrev pub entered : Text → Scan → Scan
entered cur s = record s { seen = Set.insert cur s.seen; expecting = remove cur s.expecting }

unfoldable pub enter : Graph → Map ChildSet → Option (Map Bool) → Text → Scan → Round
unfolding insert_all push_all
enter t child_sets restricted cur s =
    let s' = entered cur s in
    after_top t child_sets restricted cur
      (if is_empty s'.expecting then top_found restricted ((cur, true) ∷ []) s' else continues s')

abbrev pub is_restricted : Option (Map Bool) → Text → Bool
is_restricted none cur = false
is_restricted (some r) cur = contains_key cur r

unfoldable pub scan_one : Graph → Graph → Map ChildSet → Option (Map Bool) → Text → Scan → Round
unfolding enter
scan_one t children child_sets restricted cur s =
    if not (contains_key cur t)
    then returns (if is_none restricted then none else s.last_top)
    else if is_restricted restricted cur
    then returns s.last_top
    else if Set.contains cur s.seen
    then continues s
    else if all (λ c. Set.contains c s.seen) (next_of children cur)
    then enter t child_sets restricted cur s
    else continues s

-- The loop: `none` if the fuel runs out.
unfoldable pub scan :
    Graph → Graph → Map ChildSet → Option (Map Bool) → ℕ → Scan → Option (Option (Map Bool))
unfolding scan_one
scan t children child_sets restricted zero s = none
scan t children child_sets restricted (suc n) s = elim s.queue [
  | [] ↦ some s.last_top
  | cur ∷ queue ↦
      elim (scan_one t children child_sets restricted cur (record s { queue = queue })) [
        | returns top ↦ some top
        | continues s' ↦ scan t children child_sets restricted n s'
      ]
]

-- The children of the bottom, which count as seen.
unfoldable pub seen_below : Graph → List Text → StrSet → StrSet
unfolding Set.extend
seen_below children [] seen = seen
seen_below children (v ∷ vs) seen = seen_below children vs (Set.extend (next_of children v) seen)

-- The parents that the versions that are not seen have.
unfoldable pub pending : Graph → StrSet → ℕ
pending [] seen = 0
pending ((v, ps) ∷ t) seen = (if Set.contains v seen then 0 else length ps) + pending t seen

unfoldable pub find_one_bubble :
    Graph → Map Bool → Graph → Map ChildSet → Option (Map Bool) → Option (Option (Map Bool))
unfolding scan seen_below pending
find_one_bubble t bottom children child_sets restricted =
    scan t children child_sets restricted (suc (length (keys bottom) + pending t [])) (record {
      expecting = bottom;
      seen = seen_below children (keys bottom) [];
      queue = keys bottom;
      last_top = none;
    })

unfoldable pub mark_each :
    (Text → Map Bubble → Option (Map Bubble)) → List Text → Map Bubble → Option (Map Bubble)
mark_each mark [] m = some m
mark_each mark (v ∷ vs) m = elim (mark v m) [ none ↦ none | some m' ↦ mark_each mark vs m' ]

unfoldable pub mark_bubble : Graph → Bubble → ℕ → Text → Map Bubble → Option (Map Bubble)
unfolding mark_each
mark_bubble t bubble zero v m = none
mark_bubble t bubble (suc n) v m = elim (contains_key v m) [
  | true ↦ some m
  | false ↦ mark_each (mark_bubble t bubble n) (next_of t v) (insert v bubble m)
]
