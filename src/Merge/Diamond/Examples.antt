-- ===== src/Merge/Diamond/Examples.antt =====
-- A small operation log in place of `diamond_types`, and a run of `DiamondCRDT`
-- (core/src/core/merge/diamond.rs) over it.
use braid_rs.Prelude.{ℕ, ◌≡◌, refl, List, [], ◌∷◌, ◌++◌, some, Text, length, take, drop}
use braid_rs.Prelude.Chars.{codes}
use braid_rs.Merge.Diamond.{
  DiamondTypes, TextOperation, new_insert, new_delete, new_crdt, content, add_insert, add_delete,
  add_insert_remote,
}
use braid_rs.Merge.Diamond.Quality.{Edit, insert_local, delete_local, insert_remote, apply_edits}

-- The operations, newest first.
abbrev Log : Type 0
Log = List (ℕ × TextOperation)

abbrev text_of : Log → Text
text_of [] = []
text_of ((_, new_insert pos text) ∷ ops) =
    take pos (text_of ops) ++ (text ++ drop pos (text_of ops))
text_of ((_, new_delete start end) ∷ ops) = take start (text_of ops) ++ drop end (text_of ops)

abbrev pub log_types : DiamondTypes
log_types = record {
  OpLog = Log;
  Branch = Log;
  Frontier = ℕ;
  SerializedOps = List ℕ;
  new_oplog = [];
  get_or_create_agent_id = λ log agent. (log, length agent);
  local_map_set = λ log agent. (log, 0);
  local_text_op = λ log agent id operation. (agent, operation) ∷ log;
  checkout_tip = λ log. log;
  branch_text = λ log id. some (text_of log);
  cg_len = λ log. length log;
  cg_version = λ log. length log;
  frontier_lvs = λ version. version ∷ [];
  ops_since = λ log versions. versions;
  diversity = λ agents. agents;
}

abbrev edits : List (Edit log_types)
edits =
    insert_local 0 (codes "hello")
    ∷ insert_remote (codes "bo") 5 (codes " you")
    ∷ delete_local 0 1
    ∷ []

text_after :
    content log_types (apply_edits log_types edits (new_crdt log_types (codes "ann")))
    ≡ codes "ello you"
unfolding content apply_edits new_crdt add_insert add_delete add_insert_remote
text_after = refl
