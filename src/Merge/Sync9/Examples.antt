-- ===== src/Merge/Sync9/Examples.antt =====
-- Tests after those of core/src/core/merge/merge_type.rs, and an instance of the theorem.
use braid_rs.Prelude.Decimal.{show}
use braid_rs.Merge.Sync9.Replicas.{Agree, session, session-Agree}
use braid_rs.Merge.Sync9.{
  Sync9MergeType, initialize, local_edit, new_registry, new_sync9, next_version, sync9,
}
use braid_rs.Prelude.{◌≡◌, refl, [], ◌∷◌, Text, some, true, str_eq}
use braid_rs.Prelude.Chars.{codes}
use braid_rs.Prelude.Json.{Value}
use braid_rs.Merge.Types.{new_patch, create}

abbrev null_text : Value → Text
null_text v = codes "null"

abbrev hello : Sync9MergeType
unfolding initialize new_sync9
hello = (initialize (codes "hello") (new_sync9 (codes "alice"))).0

-- `test_sync9_initialize`, `test_sync9_local_edit`.
local_edit_run :
    (hello.content ≡ codes "hello")
    × (hello.version ≡ codes "1@alice")
    × ((local_edit null_text (new_patch [] (Value.string (codes "world"))) hello).0.content
        ≡ codes "world")
    × ((local_edit null_text (new_patch [] (Value.string (codes "world"))) hello).1.success ≡ true)
unfolding initialize new_sync9 local_edit new_patch next_version show
local_edit_run = (refl, refl, refl, refl)

-- `test_registry`.
create_run :
    create (codes "sync9") (codes "alice") (new_registry null_text)
    ≡ some (record { merge_type = sync9 null_text; state = new_sync9 (codes "alice") })
unfolding create new_registry str_eq
create_run = refl

session-Agree_example : Agree (sync9 null_text) (
    session
      (sync9 null_text)
      (new_patch [] (Value.string (codes "world")) ∷ new_patch [] Value.null ∷ [])
      (hello, new_sync9 (codes "bob")))
unfolding new_sync9 initialize
session-Agree_example =
    session-Agree null_text (new_patch [] (Value.string (codes "world")))
      (new_patch [] Value.null ∷ []) hello (new_sync9 (codes "bob"))
