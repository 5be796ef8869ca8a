-- ===== src/Server/Resources.antt =====
-- `ResourceState` and `ResourceStateManager` (core/src/core/server/resource_state.rs). The registry
-- is a map from resource ids to states; nothing is ever removed from it, so an `Arc` to a resource
-- is its id. Every method that locks a resource takes the ids that the calling task has locked
-- already: the mutexes are `parking_lot`'s, which a task that holds one cannot lock again, so such
-- a call blocks for ever. The clock is an argument.
pub mod Edits
pub mod Promises
mod Examples
use braid_rs.Prelude.{
  ℕ, Bool, true, false, not, ◌&&◌, List, [], ◌∷◌, ◌++◌, Option, none, some, Text, Map, insert,
  lookup, keys, str_eq, StrSet, Result, ok, err, if◌then◌else◌, is_some,
}
use braid_rs.Prelude.Set
use braid_rs.Prelude.Chars.{codes}
use braid_rs.Prelude.Json.{Value}
use braid_rs.Merge.Diamond
use braid_rs.Merge.Diamond.{DiamondTypes, DiamondCrdt}

-- A call that may wait for a lock for ever, or panic.
pub data Attempt {ℓ} (A : Type ℓ) : Type ℓ where
  done : A → Attempt A
  blocked : Attempt A
  panics : Attempt A

infixl 5 ◌>>=◌
abbrev pub ◌>>=◌ {ℓ κ} : {A : Type ℓ} {B : Type κ} → Attempt A → (A → Attempt B) → Attempt B
done a >>= f = f a
blocked >>= f = blocked
panics >>= f = panics

module _ (dt : DiamondTypes) where
  pub record ResourceState : Type 0 where
    pub crdt : DiamondCrdt dt
    pub last_sync : ℕ
    pub seen_versions : StrSet
    pub merge_type : Text

  abbrev pub ResourceStateManager : Type 0
  ResourceStateManager = Map ResourceState

  abbrev pub new_manager : ResourceStateManager
  new_manager = []

  unfoldable pub new_resource : Text → Option Text → ℕ → ResourceState
  new_resource initial_agent_id requested now = record {
    crdt = Diamond.new_crdt dt initial_agent_id;
    last_sync = now;
    seen_versions = [];
    merge_type = elim requested [ none ↦ codes "diamond" | some m ↦ m ];
  }

  -- The registry afterwards, and the resource.
  unfoldable pub get_or_create_resource :
      ResourceStateManager → Text → Text → Option Text → ℕ → ResourceStateManager × ResourceState
  get_or_create_resource m id initial_agent_id requested now = elim (lookup id m) [
    | some s ↦ (m, s)
    | none ↦ let s = new_resource initial_agent_id requested now in (insert id s m, s)
  ]

  abbrev pub get_resource : ResourceStateManager → Text → Option ResourceState
  get_resource m id = lookup id m

  pub list_resources : ResourceStateManager → List Text
  list_resources m = keys m

  -- `resource.lock()` by a task that holds the locks `held`.
  unfoldable pub lock {ℓ} : {A : Type ℓ} → StrSet → Text → Attempt A → Attempt A
  unfolding Set.contains
  lock held id rest = if Set.contains id held then blocked else rest

  unfoldable pub has_version : StrSet → ResourceStateManager → Text → Text → Attempt Bool
  unfolding lock
  has_version held m id version_id = elim (get_resource m id) [
    | none ↦ done false
    | some s ↦ lock held id (done (Set.contains version_id s.seen_versions))
  ]

  abbrev pub mismatches : ResourceState → Option Text → Bool
  mismatches s none = false
  mismatches s (some requested) = not (str_eq s.merge_type requested)

  abbrev pub has_seen : ResourceState → Option Text → Bool
  has_seen s none = false
  has_seen s (some version_id) = Set.contains version_id s.seen_versions

  abbrev pub mark_seen : Option Text → StrSet → StrSet
  mark_seen none seen = seen
  mark_seen (some version_id) seen = Set.insert version_id seen

  abbrev pub Edit : Type 0
  Edit = DiamondCrdt dt → DiamondCrdt dt

  -- The body that `apply_update`, `apply_remote_insert` and `apply_remote_delete` share, on the
  -- locked resource. The error stands for the text "Merge-type mismatch: …".
  unfoldable pub edit_locked :
      Edit → Option Text → Option Text → ℕ → ResourceState → ResourceState × Result Text Value
  edit_locked edit version_id requested now s =
      if mismatches s requested
      then (s, err (codes "Merge-type mismatch"))
      else if has_seen s version_id
      then (s, ok (Diamond.export_operations dt s.crdt))
      else (let crdt = edit s.crdt in
          (
            record s {
              crdt = crdt;
              last_sync = now;
              seen_versions = mark_seen version_id s.seen_versions;
            },
            ok (Diamond.export_operations dt crdt),
          ))

  -- Their common frame: the resource is found or created, locked, and edited in place.
  unfoldable pub edit_resource :
      Edit
      → StrSet
      → ResourceStateManager
      → Text
      → Text
      → Option Text
      → Option Text
      → ℕ
      → Attempt (ResourceStateManager × Result Text Value)
  unfolding get_or_create_resource lock edit_locked
  edit_resource edit held m id agent_id version_id requested now =
      let (m', s) = get_or_create_resource m id agent_id requested now in
      lock held id
        (let (s', r) = edit_locked edit version_id requested now s in done (insert id s' m', r))

  unfoldable pub apply_update :
      StrSet
      → ResourceStateManager
      → Text
      → Text
      → Text
      → Option Text
      → Option Text
      → ℕ
      → Attempt (ResourceStateManager × Result Text Value)
  unfolding edit_resource
  apply_update held m id content agent_id =
      edit_resource (Diamond.add_insert dt 0 content) held m id agent_id

  unfoldable pub apply_remote_insert :
      StrSet
      → ResourceStateManager
      → Text
      → Text
      → ℕ
      → Text
      → Option Text
      → Option Text
      → ℕ
      → Attempt (ResourceStateManager × Result Text Value)
  unfolding edit_resource
  apply_remote_insert held m id agent_id pos text =
      edit_resource (Diamond.add_insert_remote dt agent_id pos text) held m id agent_id

  unfoldable pub apply_remote_delete :
      StrSet
      → ResourceStateManager
      → Text
      → Text
      → ℕ
      → ℕ
      → Option Text
      → Option Text
      → ℕ
      → Attempt (ResourceStateManager × Result Text Value)
  unfolding edit_resource
  apply_remote_delete held m id agent_id start end =
      edit_resource (Diamond.add_delete_remote dt agent_id start end) held m id agent_id

  unfoldable pub get_resource_state : StrSet → ResourceStateManager → Text → Attempt (Option Value)
  unfolding lock
  get_resource_state held m id = elim (get_resource m id) [
    | none ↦ done none
    | some s ↦ lock held id (done (some (Diamond.checkpoint dt s.crdt)))
  ]

  unfoldable pub get_merge_quality : StrSet → ResourceStateManager → Text → Attempt (Option ℕ)
  unfolding lock
  get_merge_quality held m id = elim (get_resource m id) [
    | none ↦ done none
    | some s ↦ lock held id (done (some (Diamond.merge_quality dt s.crdt)))
  ]

  unfoldable pub register_version_mapping :
      StrSet → ResourceStateManager → Text → Text → dt.Frontier → Attempt ResourceStateManager
  unfolding lock
  register_version_mapping held m id version frontier = elim (get_resource m id) [
    | none ↦ done m
    | some s ↦ lock held id (
        done (
          insert id
            (record s { crdt = Diamond.register_version_mapping dt version frontier s.crdt }) m))
  ]

  -- The frontiers of the known versions, or the first version that is not known.
  unfoldable pub resolve_all : DiamondCrdt dt → List Text → Result Text (List dt.Frontier)
  resolve_all crdt [] = ok []
  resolve_all crdt (v ∷ vs) =
      let rest = resolve_all crdt vs in
      elim (Diamond.resolve_version dt v crdt) [
        | none ↦ err v
        | some f ↦ elim rest [ err unknown ↦ err unknown | ok fs ↦ ok (f ∷ fs) ]
      ]

  pub get_history :
      StrSet
      → ResourceStateManager
      → Text
      → List Text
      → Attempt (Result Text (List dt.SerializedOps))
  unfolding lock resolve_all
  get_history held m id since_versions = elim (get_resource m id) [
    | none ↦ done (err (codes "Resource not found"))
    | some s ↦ lock held id (
        done (elim (resolve_all s.crdt since_versions) [
          | err unknown ↦ err unknown
          | ok frontiers ↦ ok (Diamond.get_ops_since dt frontiers s.crdt)
        ]))
  ]
