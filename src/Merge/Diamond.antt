-- ===== src/Merge/Diamond.antt =====
-- `DiamondCRDT` (core/src/core/merge/diamond.rs), over the vendored `diamond_types` library, which
-- is a parameter: its operation log, its branch and the functions of theirs that the code calls.
pub mod Quality
pub mod Examples
use braid_rs.Prelude.{
  ℕ, ◌+◌, ◌*◌, ◌/◌, Bool, List, [], ◌∷◌, ◌++◌, Option, none, some, Text, Map, insert, lookup,
  unwrap_or, length, ◌==◌,
}
use braid_rs.Prelude.Chars.{codes}
use braid_rs.Prelude.Decimal.{show}
use braid_rs.Prelude.Json.{Value, Fields}
use braid_rs.Prelude.Int.{ℤ}

-- A `TextOperation`: `new_insert(pos, text)` or `new_delete(start..end)`.
pub data TextOperation : Type 0 where
  new_insert : ℕ → Text → TextOperation
  new_delete : ℕ → ℕ → TextOperation

pub record DiamondTypes : Type 1 where
  pub OpLog : Type 0
  pub Branch : Type 0
  pub Frontier : Type 0
  pub SerializedOps : Type 0
  pub new_oplog : OpLog
  pub get_or_create_agent_id : OpLog → Text → OpLog × ℕ
  -- `local_map_set(agent, ROOT_CRDT_ID, "content", NewCRDT(Text))`
  pub local_map_set : OpLog → ℕ → OpLog × ℕ
  pub local_text_op : OpLog → ℕ → ℕ → TextOperation → OpLog
  pub checkout_tip : OpLog → Branch
  pub branch_text : Branch → ℕ → Option Text
  pub cg_len : OpLog → ℕ
  pub cg_version : OpLog → Frontier
  pub frontier_lvs : Frontier → List ℕ
  pub ops_since : OpLog → List ℕ → SerializedOps
  -- The percentage that `merge_quality` computes in `f64` from a number of remote agents.
  pub diversity : ℕ → ℕ

module _ (dt : DiamondTypes) where
  open dt use {
    OpLog, Branch, Frontier, SerializedOps, new_oplog, get_or_create_agent_id, local_map_set,
    local_text_op, checkout_tip, branch_text, cg_len, cg_version, frontier_lvs, ops_since,
    diversity,
  }

  pub record DiamondCrdt : Type 0 where
    pub agent_id : Text
    pub oplog : OpLog
    pub branch : Branch
    pub remote_versions : Map ℕ
    pub version_fronties : Map Frontier
    pub text_id : ℕ

  unfoldable pub new_crdt : Text → DiamondCrdt
  new_crdt agent_id =
      let (with_agent, agent) = get_or_create_agent_id new_oplog agent_id in
      let (oplog, text_id) = local_map_set with_agent agent in
      record {
        agent_id = agent_id;
        oplog = oplog;
        branch = checkout_tip oplog;
        remote_versions = [];
        version_fronties = [];
        text_id = text_id;
      }

  -- The steps that the four editing methods share: the agent's id, the text operation, and the
  -- branch at the tip.
  unfoldable pub edit_as : Text → TextOperation → DiamondCrdt → DiamondCrdt
  edit_as agent_id operation c =
      let (with_agent, agent) = get_or_create_agent_id c.oplog agent_id in
      let oplog = local_text_op with_agent agent c.text_id operation in
      record c { oplog = oplog; branch = checkout_tip oplog }

  unfoldable pub get_version : DiamondCrdt → Text
  get_version c = codes "diamond-" ++ (c.agent_id ++ (b'-' ∷ show (cg_len c.oplog)))

  unfoldable pub get_local_frontier : DiamondCrdt → Frontier
  get_local_frontier c = cg_version c.oplog

  -- A local edit also records the frontier under the new version.
  unfoldable pub note_version : DiamondCrdt → DiamondCrdt
  unfolding get_version get_local_frontier
  note_version c = record c {
    version_fronties = insert (get_version c) (get_local_frontier c) c.version_fronties;
  }

  unfoldable pub add_insert : ℕ → Text → DiamondCrdt → DiamondCrdt
  unfolding edit_as note_version
  add_insert pos text c = note_version (edit_as c.agent_id (new_insert pos text) c)

  unfoldable pub add_delete : ℕ → ℕ → DiamondCrdt → DiamondCrdt
  unfolding edit_as note_version
  add_delete start end c = note_version (edit_as c.agent_id (new_delete start end) c)

  unfoldable pub add_insert_remote : Text → ℕ → Text → DiamondCrdt → DiamondCrdt
  unfolding edit_as
  add_insert_remote agent_id pos text = edit_as agent_id (new_insert pos text)

  unfoldable pub add_delete_remote : Text → ℕ → ℕ → DiamondCrdt → DiamondCrdt
  unfolding edit_as
  add_delete_remote agent_id start end = edit_as agent_id (new_delete start end)

  unfoldable pub content : DiamondCrdt → Text
  content c = unwrap_or (branch_text c.branch c.text_id) []

  pub operation_count : DiamondCrdt → ℕ
  operation_count c = cg_len c.oplog

  pub is_empty : DiamondCrdt → Bool
  is_empty c = cg_len c.oplog == 0

  unfoldable pub export_operations : DiamondCrdt → Value
  unfolding content
  export_operations c =
      let version = codes "oplog-" ++ (c.agent_id ++ (b'-' ∷ show (cg_len c.oplog))) in
      Value.object (
        Fields.field (codes "agent_id") (Value.string c.agent_id) (
          Fields.field (codes "operations_count") (Value.integer (ℤ.pos (cg_len c.oplog))) (
            Fields.field (codes "content") (Value.string (content c))
              (Fields.field (codes "version") (Value.string version) Fields.end))))

  unfoldable pub checkpoint : DiamondCrdt → Value
  unfolding content get_version
  checkpoint c = Value.object (
      Fields.field (codes "content") (Value.string (content c)) (
        Fields.field (codes "version") (Value.string (get_version c)) (
          Fields.field (codes "agent_id") (Value.string c.agent_id) (
            Fields.field (codes "oplog_len") (Value.integer (ℤ.pos (cg_len c.oplog))) Fields.end))))

  unfoldable pub merge_quality : DiamondCrdt → ℕ
  merge_quality c = elim c.remote_versions [
    | [] ↦ 100
    | _ ∷ _ ↦ diversity (length c.remote_versions)
  ]

  unfoldable pub resolve_version : Text → DiamondCrdt → Option Frontier
  resolve_version version c = lookup version c.version_fronties

  unfoldable pub register_version_mapping : Text → Frontier → DiamondCrdt → DiamondCrdt
  register_version_mapping version frontier c = record c {
    version_fronties = insert version frontier c.version_fronties;
  }

  all_lvs : List Frontier → List ℕ
  all_lvs [] = []
  all_lvs (f ∷ fs) = frontier_lvs f ++ all_lvs fs

  unfoldable pub get_ops_since : List Frontier → DiamondCrdt → List SerializedOps
  unfolding all_lvs
  get_ops_since since c = ops_since c.oplog (all_lvs since) ∷ []
