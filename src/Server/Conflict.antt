-- ===== src/Server/Conflict.antt =====
-- `ConflictResolver` (core/src/core/server/conflict_resolver.rs): the registry is its state. The
-- JSON parser and printer of `serde_json` are parameters. All steps of a call read one clock value,
-- and no other task runs between them.
mod Operations
mod Plain
mod Examples
use braid_rs.Prelude.{
  ℕ, Bool, true, false, ◌&&◌, List, [], ◌∷◌, ◌++◌, Option, none, some, Text, Bytes, lookup, str_eq,
  Result, ok, err, if◌then◌else◌, unwrap_or, map, ◌==◌, StrSet,
}
use braid_rs.Prelude.Chars.{codes}
use braid_rs.Prelude.Utf8.{from_utf8_lossy, encode_utf8}
use braid_rs.Prelude.Int.{ℤ}
use braid_rs.Prelude.Json.{
  get as json_get, Value, Fields, of_list, is_object, as_str, as_u64, as_array,
}
use braid_rs.Types.Version.{Version, to_string}
use braid_rs.Types.Update.{Update, snapshot, with_merge_type, primary_version}
use braid_rs.Merge.Diamond
use braid_rs.Merge.Diamond.{DiamondTypes}
use braid_rs.Server.Resources.{
  Attempt, done, blocked, panics, ◌>>=◌, ResourceStateManager, apply_update, apply_remote_insert,
  apply_remote_delete, get_resource_state, get_merge_quality, register_version_mapping, lock,
}

-- `serde_json::from_str` and `Value::to_string`.
pub record SerdeJson : Type 0 where
  pub parse : Text → Option Value
  pub render : Value → Text

-- The texts of the errors.
pub data ResolveError : Type 0 where
  update_refused : Text → ResolveError
  state_missing : ResolveError

-- `extract_string`.
unfoldable pub extract_string : Value → Text → Text → Text
unfolding json_get
extract_string json key default = elim (json_get key json) [
  | none ↦ default
  | some v ↦ unwrap_or (as_str v) default
]

unfoldable pub starts_with_char : ℕ → Text → Bool
starts_with_char c [] = false
starts_with_char c (d ∷ _) = d == c

unfoldable pub ends_with_char : ℕ → Text → Bool
ends_with_char c [] = false
ends_with_char c (d ∷ []) = d == c
ends_with_char c (_ ∷ e ∷ s) = ends_with_char c (e ∷ s)

module _ (dt : DiamondTypes) (serde : SerdeJson) where
  abbrev pub Manager : Type 0
  Manager = ResourceStateManager dt

  -- The two numbers or the number and the text of an operation, or `none` if it is malformed.
  unfoldable pub read_insert : Value → Option (ℕ × Text)
  unfolding json_get
  read_insert op = elim (json_get (codes "pos") op) [
    | none ↦ none
    | some p ↦ elim (json_get (codes "text") op) [
      | none ↦ none
      | some t ↦ elim (as_u64 p) [
        | none ↦ none
        | some pos ↦ elim (as_str t) [ none ↦ none | some text ↦ some (pos, text) ]
      ]
    ]
  ]

  unfoldable pub read_delete : Value → Option (ℕ × ℕ)
  unfolding json_get
  read_delete op = elim (json_get (codes "start") op) [
    | none ↦ none
    | some a ↦ elim (json_get (codes "end") op) [
      | none ↦ none
      | some b ↦ elim (as_u64 a) [
        | none ↦ none
        | some start ↦ elim (as_u64 b) [ none ↦ none | some end ↦ some (start, end) ]
      ]
    ]
  ]

  -- The array under a key; nothing if it is missing or no array.
  unfoldable pub operations : Text → Value → List Value
  unfolding json_get
  operations key json = elim (json_get key json) [ none ↦ [] | some v ↦ unwrap_or (as_array v) [] ]

  module _ (id agent_id : Text) (version_id : Option Text) (now : ℕ) where
    -- One round of the loop of `apply_insert_operations`; the result of the edit is dropped.
    unfoldable pub insert_read : Manager → Option (ℕ × Text) → Attempt Manager
    insert_read m none = done m
    insert_read m (some (pos, text)) =
        apply_remote_insert dt [] m id agent_id pos text version_id (some (codes "diamond")) now
        >>= λ (m', _). done m'

    unfoldable pub delete_read : Manager → Option (ℕ × ℕ) → Attempt Manager
    delete_read m none = done m
    delete_read m (some (start, end)) =
        apply_remote_delete dt [] m id agent_id start end version_id (some (codes "diamond")) now
        >>= λ (m', _). done m'

    unfoldable pub insert_each : List Value → Manager → Attempt Manager
    insert_each [] m = done m
    insert_each (op ∷ ops) m = insert_read m (read_insert op) >>= insert_each ops

    unfoldable pub delete_each : List Value → Manager → Attempt Manager
    delete_each [] m = done m
    delete_each (op ∷ ops) m = delete_read m (read_delete op) >>= delete_each ops

    unfoldable pub apply_insert_operations : Value → Manager → Attempt Manager
    unfolding operations insert_each
    apply_insert_operations json = insert_each (operations (codes "inserts") json)

    unfoldable pub apply_delete_operations : Value → Manager → Attempt Manager
    unfolding operations delete_each
    apply_delete_operations json = delete_each (operations (codes "deletes") json)

  -- The version text of a merged state.
  abbrev pub merged_version : Value → Text → Version
  merged_version state agent_id =
      Version.string (extract_string state (codes "version") (codes "merged-" ++ agent_id))

  abbrev pub merged_body : Value → ℕ → Text → Value
  merged_body state quality agent_id = Value.object (
      Fields.field (codes "content") (Value.string (extract_string state (codes "content") [])) (
        Fields.field (codes "merge_quality") (Value.integer (ℤ.pos quality)) (
          Fields.field (codes "agents") (Value.array (of_list (Value.string agent_id ∷ [])))
            Fields.end)))

  abbrev pub json_answer : Value → ℕ → Text → Update
  json_answer state quality agent_id =
      let body = merged_body state quality agent_id in
      with_merge_type (snapshot (merged_version state agent_id) (encode_utf8 (serde.render body)))
        (codes "diamond")

  -- The end of `handle_diamond_json`, behind the operations.
  unfoldable pub answer_json :
      Text → Text → Manager → Attempt (Manager × Result ResolveError Update)
  answer_json id agent_id m = do
    state ← get_resource_state dt [] m id
    quality ← get_merge_quality dt [] m id
    done (
      m,
      elim state [
        | none ↦ err state_missing
        | some s ↦ ok (json_answer s (unwrap_or quality 0) agent_id)
      ],
    )

  unfoldable pub handle_diamond_json :
      Manager
      → Text
      → Value
      → Text
      → Option Text
      → ℕ
      → Attempt (Manager × Result ResolveError Update)
  unfolding apply_insert_operations apply_delete_operations answer_json
  handle_diamond_json m id json agent_id version_id now =
      apply_insert_operations id agent_id version_id now json m
      >>= apply_delete_operations id agent_id version_id now json
      >>= answer_json id agent_id

  unfoldable pub build_merged_response :
      Manager → Text → Text → Attempt (Result ResolveError Update)
  unfolding extract_string
  build_merged_response m id agent_id = get_resource_state dt [] m id >>= λ state.
      done (elim state [
        | none ↦ err state_missing
        | some s ↦ ok (
            with_merge_type
              (snapshot (merged_version s agent_id)
                (encode_utf8 (extract_string s (codes "content") [])))
              (codes "diamond"))
      ])

  -- `update.version.get(0).map(|v| v.to_string())`.
  unfoldable pub version_text : Update → Option Text
  unfolding primary_version to_string
  version_text update = elim (primary_version update) [ none ↦ none | some v ↦ some (to_string v) ]

  -- The mapping of the new version. The frontier is read from the locked resource, and the lock is
  -- still held when `register_version_mapping` asks for it.
  unfoldable pub register_update : Manager → Text → Text → Attempt Manager
  unfolding lock
  register_update m id version = elim (lookup id m) [
    | none ↦ panics
    | some s ↦
        lock dt [] id (
          register_version_mapping dt (id ∷ []) m id version (Diamond.get_local_frontier dt s.crdt))
  ]

  -- The end of `resolve_diamond_merge`, behind the edit. The version is that of the response.
  unfoldable pub respond : Manager → Text → Text → Attempt (Manager × Result ResolveError Update)
  unfolding build_merged_response register_update version_text
  respond m id agent_id = build_merged_response m id agent_id >>= λ r. elim r [
    | err e ↦ done (m, err e)
    | ok merged ↦ elim (version_text merged) [
      | none ↦ done (m, ok merged)
      | some v ↦ register_update m id v >>= λ m'. done (m', ok merged)
    ]
  ]

  -- The JSON object in a body that looks like one.
  unfoldable pub json_operations : Text → Option Value
  unfolding starts_with_char ends_with_char
  json_operations body =
      if starts_with_char b'{' body && ends_with_char b'}' body
      then elim (serde.parse body) [ none ↦ none | some v ↦ if is_object v then some v else none ]
      else none

  unfoldable pub resolve_diamond_merge :
      Manager → Text → Update → Text → ℕ → Attempt (Manager × Result ResolveError Update)
  unfolding json_operations handle_diamond_json respond version_text
  resolve_diamond_merge m id update agent_id now = elim update.body [
    | none ↦ respond m id agent_id
    | some bytes ↦
        let body = from_utf8_lossy bytes in
        elim (json_operations body) [
          | some json ↦ handle_diamond_json m id json agent_id (version_text update) now
          | none ↦
              apply_update dt [] m id body agent_id (version_text update) none now >>= λ (m', r).
              elim r [ err e ↦ done (m', err (update_refused e)) | ok _ ↦ respond m' id agent_id ]
        ]
  ]

  unfoldable pub resolve_update :
      Manager → Text → Update → Text → ℕ → Attempt (Manager × Result ResolveError Update)
  unfolding resolve_diamond_merge
  resolve_update m id update agent_id now = elim update.merge_type [
    | none ↦ done (m, ok update)
    | some t ↦
        if str_eq t (codes "diamond")
        then resolve_diamond_merge m id update agent_id now
        else done (m, ok update)
  ]

  pub get_resource_content : Manager → Text → Attempt (Option Text)
  unfolding json_get
  get_resource_content m id = get_resource_state dt [] m id >>= λ state. done (elim state [
    | none ↦ none
    | some s ↦ elim (json_get (codes "content") s) [ none ↦ none | some v ↦ as_str v ]
  ])

  pub get_resource_version : Manager → Text → Attempt (Option Version)
  unfolding json_get
  get_resource_version m id = get_resource_state dt [] m id >>= λ state. done (elim state [
    | none ↦ none
    | some s ↦ elim (json_get (codes "version") s) [
      | none ↦ none
      | some v ↦ elim (as_str v) [ none ↦ none | some t ↦ some (Version.string t) ]
    ]
  ])
