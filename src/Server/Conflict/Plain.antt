-- ===== src/Server/Conflict/Plain.antt =====
-- The plain text path of `resolve_update` (core/src/core/server/conflict_resolver.rs).
use braid_rs.Prelude.{
  ℕ, ◌≡◌, [], none, some, Text, Bytes, lookup, str_eq_self, err, ok, arith, ◌++◌, contains_key,
  if◌then◌else◌, Option-cases, inl, inr,
}
use braid_rs.Prelude.Set
use braid_rs.Prelude.Chars.{codes}
use braid_rs.Prelude.Utf8.{from_utf8_lossy}
use braid_rs.Prelude.Json.{Value}
use braid_rs.Types.Version.{to_string}
use braid_rs.Types.Update.{Update, primary_version, snapshot, with_merge_type}
use braid_rs.Merge.Diamond
use braid_rs.Merge.Diamond.{DiamondTypes, DiamondCrdt}
use braid_rs.Server.Resources.{
  done, blocked, ResourceState, ResourceStateManager, get_resource_state, register_version_mapping,
  lock, apply_update,
}
use braid_rs.Server.Resources.Edits.{edit_resource_unrequested}
use braid_rs.Server.Conflict.{
  extract_string, SerdeJson, state_missing, json_operations, version_text, register_update,
  build_merged_response, respond, resolve_diamond_merge, resolve_update,
}

module _ (dt : DiamondTypes) (serde : SerdeJson) where
  -- Whoever registers the version of a resource that exists waits for his own lock.
  register_update-blocked :
      (m : ResourceStateManager dt) (id v : Text) {s : ResourceState dt}
      → lookup id m ≡ some s
      → register_update dt serde m id v ≡ blocked
  unfolding register_update register_version_mapping lock
  register_update-blocked m id v found =
      ground (arith, Set.contains-insert_self id [], str_eq_self id)

  -- A response names a version, so that its registration is always tried.
  respond-blocked :
      (m : ResourceStateManager dt) (id agent : Text) {s : ResourceState dt}
      → lookup id m ≡ some s
      → respond dt serde m id agent ≡ blocked
  unfolding respond build_merged_response get_resource_state lock Set.contains version_text
      primary_version to_string snapshot with_merge_type
  respond-blocked m id agent {s} found =
      let version =
        extract_string (Diamond.checkpoint dt s.crdt) (codes "version")
          (codes "merged-" ++ agent) in
      ground (arith, register_update-blocked m id version found)

  respond_missing :
      (m : ResourceStateManager dt) (id agent : Text)
      → lookup id m ≡ none
      → respond dt serde m id agent ≡ done (m, err state_missing)
  unfolding respond build_merged_response get_resource_state
  respond_missing m id agent absent = ground arith

  -- A diamond update with a body that is not read as a JSON object. The call of `apply_update` in it returns
  -- without an error, and leaves a registry that holds the resource; and `resolve_update` never
  -- returns, since from that registry the registration of the version of the response waits for the
  -- lock that the call holds itself.
  pub resolve_update-blocked :
      (m : ResourceStateManager dt) (id agent : Text) (update : Update) (now : ℕ) (bytes : Bytes)
      → update.merge_type ≡ some (codes "diamond")
      → update.body ≡ some bytes
      → json_operations dt serde (from_utf8_lossy bytes) ≡ none
      → (m' : ResourceStateManager dt) × (answer : Value) × (s : ResourceState dt) × (apply_update
            dt [] m id
            (from_utf8_lossy bytes)
            agent
            (version_text dt serde update)
            none
            now
          ≡ done (m', ok answer))
        × (lookup id m' ≡ some s)
        × (respond dt serde m' id agent ≡ blocked)
        × (resolve_update dt serde m id update agent now ≡ blocked)
  unfolding resolve_update resolve_diamond_merge apply_update
  resolve_update-blocked m id agent update now bytes typed bodied plain =
      let body = from_utf8_lossy bytes in
      let (m', answer, s, made, found) =
        edit_resource_unrequested dt (Diamond.add_insert dt 0 body) m id agent
          (version_text dt serde update) now in
      (
        m',
        answer,
        s,
        made,
        found,
        respond-blocked m' id agent found,
        ground (arith, str_eq_self (codes "diamond"), made, respond-blocked m' id agent found),
      )

  -- A diamond update without a body is an error that changes nothing where the resource does not
  -- exist; where it exists, the call never returns.
  pub resolve_update_bodiless :
      (m : ResourceStateManager dt) (id agent : Text) (update : Update) (now : ℕ)
      → update.merge_type ≡ some (codes "diamond")
      → update.body ≡ none
      → resolve_update dt serde m id update agent now
        ≡ (if contains_key id m then blocked else done (m, err state_missing))
  unfolding resolve_update resolve_diamond_merge
  resolve_update_bodiless m id agent update now typed bodiless = elim (Option-cases (lookup id m)) [
    | inl absent ↦ ground (arith, str_eq_self (codes "diamond"), respond_missing m id agent absent)
    | inr (s, found) ↦
        ground (arith, str_eq_self (codes "diamond"), respond-blocked m id agent found)
  ]
