-- ===== src/Server/Conflict/Examples.antt =====
-- Updates that `resolve_update` gets (core/src/core/server/conflict_resolver.rs).
use braid_rs.Prelude.{
  ℕ, ◌≡◌, refl, [], ◌∷◌, none, some, Text, Bytes, lookup, insert, str_eq, ok, err, contains_key,
  if◌then◌else◌,
}
use braid_rs.Prelude.Set
use braid_rs.Prelude.Chars.{codes}
use braid_rs.Prelude.Utf8.{from_utf8_lossy}
use braid_rs.Prelude.Int.{ℤ}
use braid_rs.Prelude.Json.{get as json_get, Value, Fields, of_list}
use braid_rs.Types.Version.{Version}
use braid_rs.Types.Update.{Update, default_update}
use braid_rs.Merge.Diamond.Examples.{log_types}
use braid_rs.Server.Resources.{
  done, blocked, ResourceState, ResourceStateManager, new_resource, new_manager, apply_update,
}
use braid_rs.Server.Conflict.{
  SerdeJson, state_missing, operations, read_insert, handle_diamond_json, resolve_update,
  json_operations, respond, version_text,
}
use braid_rs.Server.Conflict.Operations.{inserted_once, handle_diamond_json_first}
use braid_rs.Server.Conflict.Plain.{resolve_update-blocked, resolve_update_bodiless}

-- A parser that knows no text, and a printer that prints one.
abbrev serde : SerdeJson
serde = record { parse = λ text. none; render = λ value. codes "{}" }

abbrev page : Text
page = codes "/page"

abbrev ann : Text
ann = codes "ann"

abbrev bytes : Bytes
bytes = codes "hello"

abbrev versioned : Update
versioned = record default_update {
  version = Version.string (codes "v1") ∷ [];
  merge_type = some (codes "diamond");
  body = some bytes;
}

abbrev bodiless : Update
bodiless = record default_update { merge_type = some (codes "diamond") }

resolve_update-blocked_example :
    (m' : ResourceStateManager log_types) × (answer : Value) × (s : ResourceState log_types)
    × (apply_update log_types [] [] page
          (from_utf8_lossy bytes)
          ann
          (version_text log_types serde versioned)
          none
          7
        ≡ done (m', ok answer))
    × (lookup page m' ≡ some s)
    × (respond log_types serde m' page ann ≡ blocked)
    × (resolve_update log_types serde [] page versioned ann 7 ≡ blocked)
unfolding json_operations from_utf8_lossy
resolve_update-blocked_example =
    resolve_update-blocked log_types serde [] page ann versioned 7 bytes refl refl refl

resolve_update_bodiless_example :
    resolve_update log_types serde [] page bodiless ann 7
    ≡ (if contains_key page (new_manager log_types) then blocked else done ([], err state_missing))
resolve_update_bodiless_example =
    resolve_update_bodiless log_types serde [] page ann bodiless 7 refl refl

-- An operation `{"pos": …, "text": …}`.
abbrev insertion : ℕ → Text → Value
insertion pos text = Value.object (
    Fields.field (codes "pos") (Value.integer (ℤ.pos pos))
      (Fields.field (codes "text") (Value.string text) Fields.end))

abbrev two_inserts : Value
two_inserts = Value.object (
    Fields.field (codes "inserts")
      (Value.array (of_list (insertion 0 (codes "a") ∷ insertion 1 (codes "b") ∷ []))) Fields.end)

abbrev resource : ResourceState log_types
resource = new_resource log_types ann none 7

abbrev registry : ResourceStateManager log_types
registry = (page, resource) ∷ []

handle_diamond_json_first_example :
    (m' : ResourceStateManager log_types) × (answer : Update) × (handle_diamond_json log_types serde
        registry page two_inserts ann
        (some (codes "v1"))
        8
      ≡ done (m', ok answer))
    × ((j : Text)
        → lookup j m'
          ≡ lookup j (
              insert page
                (inserted_once log_types serde page ann (codes "v1") 8 0 (codes "a") resource)
                registry))
unfolding lookup str_eq new_resource Set.contains operations read_insert json_get
handle_diamond_json_first_example =
    handle_diamond_json_first log_types serde page ann (codes "v1") 8 two_inserts
      (insertion 0 (codes "a")) (insertion 1 (codes "b") ∷ []) 0 (codes "a") registry resource refl
      refl refl refl refl
