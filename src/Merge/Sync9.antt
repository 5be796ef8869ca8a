-- ===== src/Merge/Sync9.antt =====
-- `Sync9MergeType`, the last write wins, and the registry that offers it
-- (core/src/core/merge/merge_type.rs). The printer of `serde_json` is a parameter.
pub mod Replicas
mod Examples
use braid_rs.Prelude.{
  ℕ, ◌+◌, ◌%◌, ◌^◌, Bool, true, false, List, [], ◌∷◌, ◌++◌, Option, none, some, Text, Map, insert,
  unwrap_or,
}
use braid_rs.Prelude.Chars.{codes}
use braid_rs.Prelude.Decimal.{show}
use braid_rs.Prelude.Json.{Value}
use braid_rs.Merge.Types.{
  MergePatch, MergeResult, succeeded, MergeType, Instance, MergeTypeRegistry, register,
}

pub record Sync9MergeType : Type 0 where
  pub content : Text
  pub version : Text
  pub seq : ℕ
  pub id : Text

-- `Sync9MergeType::new`.
unfoldable pub new_sync9 : Text → Sync9MergeType
new_sync9 id = record { content = []; version = []; seq = 0; id = id }

-- The counter is a `u64`.
unfoldable pub next_version : Sync9MergeType → Sync9MergeType × Text
unfolding show
next_version s =
    let seq = (s.seq + 1) % 2 ^ 64 in (record s { seq = seq }, show seq ++ (b'@' ∷ s.id))

unfoldable pub initialize : Text → Sync9MergeType → Sync9MergeType × MergeResult
unfolding next_version
initialize content s =
    let (s', version) = next_version s in
    (record s' { content = content; version = version }, succeeded (some version) [])

module _ (to_string : Value → Text) where
  abbrev pub written : Value → Text
  written (Value.string s) = s
  written v = to_string v

  unfoldable pub apply_patch : MergePatch → Sync9MergeType → Sync9MergeType × MergeResult
  apply_patch patch s = (
    record s { content = written patch.content; version = unwrap_or patch.version s.version },
    succeeded patch.version [],
  )

  unfoldable pub local_edit : MergePatch → Sync9MergeType → Sync9MergeType × MergeResult
  unfolding next_version
  local_edit patch s =
      let (s', version) = next_version s in
      (
        record s' { content = written patch.content; version = version },
        succeeded (some version) ((record patch { version = some version }) ∷ []),
      )

  -- The implementation of the trait.
  abbrev pub sync9 : MergeType
  sync9 = record {
    State = Sync9MergeType;
    name = codes "sync9";
    initialize = initialize;
    apply_patch = apply_patch;
    local_edit = local_edit;
    get_content = λ s. s.content;
    get_version = λ s. s.version ∷ [];
    get_all_versions = λ s. insert s.version [] [];
    prune = λ s. (s, false);
    supports_pruning = false;
  }

  -- `MergeTypeRegistry::new`.
  unfoldable pub new_registry : MergeTypeRegistry
  unfolding register
  new_registry =
      register (codes "sync9") (λ id. record { merge_type = sync9; state = new_sync9 id }) []
