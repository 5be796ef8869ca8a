-- ===== src/Server/Resources/Examples.antt =====
-- Edits of a registry with one resource (core/src/core/server/resource_state.rs).
use braid_rs.Prelude.{
  ◌≡◌, refl, [], ◌∷◌, none, some, Text, lookup, insert, str_eq, Result, ok, err, if◌then◌else◌,
}
use braid_rs.Prelude.Set
use braid_rs.Prelude.Chars.{codes}
use braid_rs.Prelude.Json.{Value}
use braid_rs.Merge.Diamond
use braid_rs.Merge.Diamond.Examples.{log_types}
use braid_rs.Server.Resources.{
  done, ResourceState, ResourceStateManager, Edit, new_resource, edit_resource, edit_locked,
  mismatches,
}
use braid_rs.Server.Resources.Edits.{Keeps, refuse}
use braid_rs.Server.Resources.Promises.{
  edit_resource_isolated, edit_resource_existing, edit_resource_once,
}

abbrev page : Text
page = codes "/page"

abbrev ann : Text
ann = codes "ann"

abbrev hello : Edit log_types
hello = Diamond.add_insert log_types 0 (codes "hello")

abbrev other : Edit log_types
other = Diamond.add_insert_remote log_types (codes "bo") 0 (codes "x")

abbrev fresh : ResourceState log_types
fresh = new_resource log_types ann none 7

abbrev registry : ResourceStateManager log_types
registry = (page, fresh) ∷ []

abbrev after : ResourceState log_types
after = (edit_locked log_types hello (some (codes "v1")) none 8 fresh).0

edited :
    edit_resource log_types hello [] registry page ann (some (codes "v1")) none 8
    ≡ done ((page, after) ∷ [], ok (Diamond.export_operations log_types after.crdt))
unfolding edit_resource edit_locked new_resource lookup str_eq insert Diamond.new_crdt
    Diamond.add_insert
edited = refl

edit_resource_isolated_example :
    lookup (codes "/other") ((page, after) ∷ []) ≡ lookup (codes "/other") registry
unfolding str_eq
edit_resource_isolated_example =
    edit_resource_isolated log_types hello [] registry page ann (some (codes "v1")) none 8
      (codes "/other") edited refl

edit_resource_existing_example :
    (m' : ResourceStateManager log_types) × (r : Result Text Value) × (s' : ResourceState log_types)
    × (edit_resource log_types hello [] registry page ann
          (some (codes "v1"))
          (some (codes "simpleton"))
          8
        ≡ done (m', r))
    × (lookup page m' ≡ some s')
    × Keeps log_types fresh s'
    × (refuse log_types fresh (some (codes "simpleton")) (s', r) ≡ (s', r))
unfolding lookup str_eq Set.contains
edit_resource_existing_example =
    edit_resource_existing log_types hello [] registry page ann (some (codes "v1"))
      (some (codes "simpleton")) 8 fresh refl refl

edit_resource_once_example :
    (s' : ResourceState log_types) × (m'' : ResourceStateManager log_types) × (lookup page
        ((page, after) ∷ [])
      ≡ some s')
    × (edit_resource log_types other []
          ((page, after) ∷ [])
          page
          (codes "bo")
          (some (codes "v1"))
          (some (codes "simpleton"))
          9
        ≡ done (
          m'',
          if mismatches log_types s' (some (codes "simpleton"))
              then err (codes "Merge-type mismatch")
              else ok (Diamond.export_operations log_types after.crdt),
        ))
    × ((j : Text) → lookup j m'' ≡ lookup j ((page, after) ∷ []))
unfolding Set.contains
edit_resource_once_example =
    edit_resource_once log_types hello other [] [] registry page ann (codes "bo") (codes "v1") none
      (some (codes "simpleton")) 8 9 edited refl
