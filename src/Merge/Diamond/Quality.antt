-- ===== src/Merge/Diamond/Quality.antt =====
-- What every sequence of edits keeps true of a `DiamondCRDT` (core/src/core/merge/diamond.rs).
use braid_rs.Prelude.{ℕ, ◌≡◌, List, [], ◌∷◌, Text}
use braid_rs.Merge.Diamond.{
  DiamondTypes, DiamondCrdt, add_insert, add_delete, add_insert_remote, add_delete_remote,
  register_version_mapping,
}

module _ (dt : DiamondTypes) where
  -- The methods of `DiamondCRDT` that change it.
  pub data Edit : Type 0 where
    insert_local : ℕ → Text → Edit
    delete_local : ℕ → ℕ → Edit
    insert_remote : Text → ℕ → Text → Edit
    delete_remote : Text → ℕ → ℕ → Edit
    register : Text → dt.Frontier → Edit

  unfoldable pub apply_edit : Edit → DiamondCrdt dt → DiamondCrdt dt
  apply_edit (insert_local pos text) = add_insert dt pos text
  apply_edit (delete_local start end) = add_delete dt start end
  apply_edit (insert_remote agent pos text) = add_insert_remote dt agent pos text
  apply_edit (delete_remote agent start end) = add_delete_remote dt agent start end
  apply_edit (register version frontier) = register_version_mapping dt version frontier

  unfoldable pub apply_edits : List Edit → DiamondCrdt dt → DiamondCrdt dt
  unfolding apply_edit
  apply_edits [] c = c
  apply_edits (e ∷ es) c = apply_edits es (apply_edit e c)

  pub record IsAtTip (agent : Text) (c : DiamondCrdt dt) : Type 0 where
    pub tip : c.branch ≡ dt.checkout_tip c.oplog
    pub agent_kept : c.agent_id ≡ agent
    pub no_remote : c.remote_versions ≡ []
