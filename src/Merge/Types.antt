-- ===== src/Merge/Types.antt =====
-- The interface of merge algorithms (core/src/core/merge/merge_type.rs): patches, results, the trait
-- `MergeType` as a record of its operations, and the registry. A hash map is an association list.
use braid_rs.Prelude.{
  Bool, true, false, List, [], Option, none, some, Text, Map, lookup, insert, keys,
}
use braid_rs.Prelude.Json.{Value}

pub record MergePatch : Type 0 where
  pub range : Text
  pub content : Value
  pub version : Option Text
  pub parents : List Text

-- `MergePatch::new`.
unfoldable pub new_patch : Text → Value → MergePatch
new_patch range content = record { range = range; content = content; version = none; parents = [] }

unfoldable pub with_version : Text → Value → Text → List Text → MergePatch
with_version range content version parents = record {
  range = range;
  content = content;
  version = some version;
  parents = parents;
}

pub record MergeResult : Type 0 where
  pub success : Bool
  pub rebased_patches : List MergePatch
  pub version : Option Text
  pub error : Option Text

-- `MergeResult::success` and `MergeResult::failure`.
abbrev pub succeeded : Option Text → List MergePatch → MergeResult
succeeded version rebased_patches = record {
  success = true;
  rebased_patches = rebased_patches;
  version = version;
  error = none;
}

abbrev pub failure : Text → MergeResult
failure error = record { success = false; rebased_patches = []; version = none; error = some error }

pub record MergeType : Type 1 where
  pub State : Type 0
  pub name : Text
  pub initialize : Text → State → State × MergeResult
  pub apply_patch : MergePatch → State → State × MergeResult
  pub local_edit : MergePatch → State → State × MergeResult
  pub get_content : State → Text
  pub get_version : State → List Text
  pub get_all_versions : State → Map (List Text)
  pub prune : State → State × Bool
  pub supports_pruning : Bool

-- A boxed merge type with its state.
pub record Instance : Type 1 where
  pub merge_type : MergeType
  pub state : merge_type.State

abbrev pub MergeTypeRegistry : Type 1
MergeTypeRegistry = Map (Text → Instance)

unfoldable pub register : Text → (Text → Instance) → MergeTypeRegistry → MergeTypeRegistry
unfolding insert
register name factory registry = insert name factory registry

abbrev pub made : Text → Option (Text → Instance) → Option Instance
made peer_id none = none
made peer_id (some factory) = some (factory peer_id)

unfoldable pub create : Text → Text → MergeTypeRegistry → Option Instance
unfolding lookup
create name peer_id registry = made peer_id (lookup name registry)

-- `MergeTypeRegistry::list`.
unfoldable pub registered : MergeTypeRegistry → List Text
registered registry = keys registry
