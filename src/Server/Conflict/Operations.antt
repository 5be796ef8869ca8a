-- ===== src/Server/Conflict/Operations.antt =====
-- The JSON path of `resolve_update` (core/src/core/server/conflict_resolver.rs): which of the
-- operations of one update reach the document.
use braid_rs.Prelude.{
  ℕ, ◌≡◌, refl, ◌∙◌, ap, true, false, List, [], ◌∷◌, Option, none, some, Text, lookup, insert, ok,
  arith,
}
use braid_rs.Prelude.Set
use braid_rs.Prelude.Chars.{codes}
use braid_rs.Prelude.Json.{Value}
use braid_rs.Types.Update.{Update}
use braid_rs.Merge.Diamond
use braid_rs.Merge.Diamond.{DiamondTypes, DiamondCrdt}
use braid_rs.Server.Resources.{
  Attempt, done, ◌>>=◌, ResourceState, ResourceStateManager, Edit, get_resource_state,
  get_merge_quality, lock, edit_resource, apply_remote_insert, apply_remote_delete,
}
use braid_rs.Server.Resources.Edits.{
  edit_resource_found, lookup-insert_same, edit_locked_seen_any, edit_locked_unseen,
  lookup-insert_self,
}
use braid_rs.Server.Conflict.{
  SerdeJson, read_insert, read_delete, operations, insert_read, delete_read, insert_each,
  delete_each, apply_insert_operations, apply_delete_operations, handle_diamond_json, answer_json,
  json_answer,
}

module _ (dt : DiamondTypes) (serde : SerdeJson) where
  -- Two registries with the same resources.
  abbrev pub Same : ResourceStateManager dt → ResourceStateManager dt → Type 0
  Same m m' = (j : Text) → lookup j m' ≡ lookup j m

  -- A call that returns a registry with the same resources.
  abbrev Returns : ResourceStateManager dt → Attempt (ResourceStateManager dt) → Type 0
  Returns m a = (m' : ResourceStateManager dt) × (a ≡ done m') × Same m m'

  module _ (id agent v : Text) (now : ℕ) where
    edit_seen :
        (edit : Edit dt) (m : ResourceStateManager dt) (requested : Option Text)
        {s : ResourceState dt}
        → lookup id m ≡ some s
        → Set.contains v s.seen_versions ≡ true
        → Returns m
            (edit_resource dt edit [] m id agent (some v) requested now >>= λ (m', _). done m')
    edit_seen edit m requested {s} found seen = (
      insert id s m,
      ap (λ a. a >>= λ (m', _). done m')
            (edit_resource_found dt edit m id agent (some v) requested now s found)
          ∙ ap (λ t. done (insert id t m)) (edit_locked_seen_any dt edit v requested now s seen),
      λ j. lookup-insert_same dt id j m found,
    )

    abbrev diamond : Option Text
    diamond = some (codes "diamond")

    insert_read_seen :
        (op : Option (ℕ × Text)) (m : ResourceStateManager dt) {s : ResourceState dt}
        → lookup id m ≡ some s
        → Set.contains v s.seen_versions ≡ true
        → Returns m (insert_read dt serde id agent (some v) now m op)
    unfolding insert_read apply_remote_insert
    insert_read_seen none m found seen = (m, refl, λ j. refl)
    insert_read_seen (some (pos, text)) m found seen =
        edit_seen (Diamond.add_insert_remote dt agent pos text) m diamond found seen

    delete_read_seen :
        (op : Option (ℕ × ℕ)) (m : ResourceStateManager dt) {s : ResourceState dt}
        → lookup id m ≡ some s
        → Set.contains v s.seen_versions ≡ true
        → Returns m (delete_read dt serde id agent (some v) now m op)
    unfolding delete_read apply_remote_delete
    delete_read_seen none m found seen = (m, refl, λ j. refl)
    delete_read_seen (some (start, end)) m found seen =
        edit_seen (Diamond.add_delete_remote dt agent start end) m diamond found seen

    insert_each_seen :
        (ops : List Value) (m : ResourceStateManager dt) {s : ResourceState dt}
        → lookup id m ≡ some s
        → Set.contains v s.seen_versions ≡ true
        → Returns m (insert_each dt serde id agent (some v) now ops m)
    unfolding insert_each
    insert_each_seen [] m found seen = (m, refl, λ j. refl)
    insert_each_seen (op ∷ ops) m found seen =
        let (m1, first, same) = insert_read_seen (read_insert dt serde op) m found seen in
        let (m2, rest, same') = insert_each_seen ops m1 (same id ∙ found) seen in
        (
          m2,
          ap (λ a. a >>= insert_each dt serde id agent (some v) now ops) first ∙ rest,
          λ j. same' j ∙ same j,
        )

    delete_each_seen :
        (ops : List Value) (m : ResourceStateManager dt) {s : ResourceState dt}
        → lookup id m ≡ some s
        → Set.contains v s.seen_versions ≡ true
        → Returns m (delete_each dt serde id agent (some v) now ops m)
    unfolding delete_each
    delete_each_seen [] m found seen = (m, refl, λ j. refl)
    delete_each_seen (op ∷ ops) m found seen =
        let (m1, first, same) = delete_read_seen (read_delete dt serde op) m found seen in
        let (m2, rest, same') = delete_each_seen ops m1 (same id ∙ found) seen in
        (
          m2,
          ap (λ a. a >>= delete_each dt serde id agent (some v) now ops) first ∙ rest,
          λ j. same' j ∙ same j,
        )

    -- The resource after the one insertion that is made.
    abbrev pub inserted_once : ℕ → Text → ResourceState dt → ResourceState dt
    inserted_once pos text s = record s {
      crdt = Diamond.add_insert_remote dt agent pos text s.crdt;
      last_sync = now;
      seen_versions = Set.insert v s.seen_versions;
    }

    insert_read_first :
        (pos : ℕ) (text : Text) (m : ResourceStateManager dt) (s : ResourceState dt)
        → lookup id m ≡ some s
        → s.merge_type ≡ codes "diamond"
        → Set.contains v s.seen_versions ≡ false
        → insert_read dt serde id agent (some v) now m (some (pos, text))
          ≡ done (insert id (inserted_once pos text s) m)
    unfolding insert_read apply_remote_insert
    insert_read_first pos text m s found typed unseen =
        let edit = Diamond.add_insert_remote dt agent pos text in
        ap (λ a. a >>= λ (m', _). done m')
          (edit_resource_found dt edit m id agent (some v) diamond now s found)
        ∙ ap (λ t. done (insert id t m))
            (edit_locked_unseen dt edit v (codes "diamond") now s typed unseen)

    -- All insertions and deletions of an update whose first insertion is well formed.
    all_operations_first :
        (json op : Value) (rest : List Value) (pos : ℕ) (text : Text) (m : ResourceStateManager dt)
        (s : ResourceState dt)
        → lookup id m ≡ some s
        → s.merge_type ≡ codes "diamond"
        → Set.contains v s.seen_versions ≡ false
        → operations dt serde (codes "inserts") json ≡ op ∷ rest
        → read_insert dt serde op ≡ some (pos, text)
        → Returns (insert id (inserted_once pos text s) m) (
            apply_insert_operations dt serde id agent (some v) now json m
            >>= apply_delete_operations dt serde id agent (some v) now json)
    unfolding apply_insert_operations apply_delete_operations
    all_operations_first json op rest pos text m s found typed unseen listed formed =
        let s1 = inserted_once pos text s in
        let m1 = insert id s1 m in
        let found1 : lookup id m1 ≡ some s1 = lookup-insert_self dt id s1 m in
        let seen1 = Set.contains-insert_self v s.seen_versions in
        let (m2, inserts, same) = insert_each_seen rest m1 found1 seen1 in
        let (m3, deletes, same') =
          delete_each_seen (operations dt serde (codes "deletes") json) m2 (same id ∙ found1)
            seen1 in
        (
          m3,
          ap
                (λ ops.
                  insert_each dt serde id agent (some v) now ops m
                  >>= delete_each dt serde id agent (some v) now
                      (operations dt serde (codes "deletes") json))
                listed
              ∙ ap
                  (λ o.
                    (insert_read dt serde id agent (some v) now m o
                      >>= insert_each dt serde id agent (some v) now rest)
                    >>= delete_each dt serde id agent (some v) now
                        (operations dt serde (codes "deletes") json))
                  formed
              ∙ ap
                  (λ a.
                    (a >>= insert_each dt serde id agent (some v) now rest)
                    >>= delete_each dt serde id agent (some v) now
                        (operations dt serde (codes "deletes") json))
                  (insert_read_first pos text m s found typed unseen)
              ∙ ap
                  (λ a.
                    a
                    >>= delete_each dt serde id agent (some v) now
                        (operations dt serde (codes "deletes") json))
                  inserts
              ∙ deletes,
          λ j. same' j ∙ same j,
        )

  answer_json_found :
      (id agent : Text) (m : ResourceStateManager dt) {s : ResourceState dt}
      → lookup id m ≡ some s
      → answer_json dt serde id agent m
        ≡ done (
          m,
          ok (
              json_answer dt serde
                (Diamond.checkpoint dt s.crdt)
                (Diamond.merge_quality dt s.crdt)
                agent),
        )
  unfolding answer_json get_resource_state get_merge_quality lock Set.contains
  answer_json_found id agent m found = ground arith

  -- A JSON update whose version is new to a diamond resource, and whose first insertion is well
  -- formed, is answered with an update, and makes that insertion only: every further insertion and
  -- every deletion of the same update carries the same version and is dropped. The other resources
  -- stay as they were.
  pub handle_diamond_json_first :
      (id agent v : Text) (now : ℕ) (json op : Value) (rest : List Value) (pos : ℕ) (text : Text)
      (m : ResourceStateManager dt) (s : ResourceState dt)
      → lookup id m ≡ some s
      → s.merge_type ≡ codes "diamond"
      → Set.contains v s.seen_versions ≡ false
      → operations dt serde (codes "inserts") json ≡ op ∷ rest
      → read_insert dt serde op ≡ some (pos, text)
      → (m' : ResourceStateManager dt) × (answer : Update) × (handle_diamond_json dt serde m id json
            agent
            (some v)
            now
          ≡ done (m', ok answer))
        × ((j : Text)
            → lookup j m' ≡ lookup j (insert id (inserted_once id agent v now pos text s) m))
  unfolding handle_diamond_json
  handle_diamond_json_first id agent v now json op rest pos text m s found typed unseen listed
        formed =
      let s1 = inserted_once id agent v now pos text s in
      let (m', made, same) =
        all_operations_first id agent v now json op rest pos text m s found typed unseen listed
          formed in
      let found' : lookup id m' ≡ some s1 = same id ∙ lookup-insert_self dt id s1 m in
      (
        m',
        json_answer dt serde (Diamond.checkpoint dt s1.crdt) (Diamond.merge_quality dt s1.crdt)
            agent,
        ap (λ a. a >>= answer_json dt serde id agent) made ∙ answer_json_found id agent m' found',
        same,
      )
