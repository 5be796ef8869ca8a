-- ===== src/Server/Resources/Promises.antt =====
-- What an edit of the registry promises (core/src/core/server/resource_state.rs): it touches one
-- resource, it keeps its merge type, and it is made once per version.
use braid_rs.Prelude.{
  ℕ, ◌≡◌, ◌∙◌, sym, ap, false, Option, some, Text, lookup, insert, lookup-insert, str_eq, StrSet,
  Result, ok, err, arith, if◌then◌else◌,
}
use braid_rs.Prelude.Set
use braid_rs.Prelude.Chars.{codes}
use braid_rs.Prelude.Json.{Value}
use braid_rs.Merge.Diamond.{DiamondTypes}
use braid_rs.Server.Resources.{
  done, ResourceState, ResourceStateManager, Edit, edit_locked, edit_resource, mismatches,
}
use braid_rs.Server.Resources.Edits.{
  edit_resource_returns, opened-lookup, opened_found, edited, opened, edit_locked-Keeps,
  edit_locked_mismatch, edit_locked-Settled, edit_locked_again, edit_resource_free,
  lookup-insert_same, lookup-insert_self, Settled, Keeps, refuse,
}

module _ (dt : DiamondTypes) where
  -- An edit of one resource, successful or not, leaves every other resource of the registry as it
  -- was, and creates none but its own.
  pub edit_resource_isolated :
      (edit : Edit dt) (held : StrSet) (m : ResourceStateManager dt) (id agent : Text)
      (version requested : Option Text) (now : ℕ) (j : Text) {m' : ResourceStateManager dt}
      {r : Result Text Value}
      → edit_resource dt edit held m id agent version requested now ≡ done (m', r)
      → str_eq id j ≡ false
      → lookup j m' ≡ lookup j m
  edit_resource_isolated edit held m id agent version requested now j {m'} {r} h other =
      let (e, _) = edit_resource_returns dt m id agent requested now edit held version h in
      let before = opened-lookup dt m id agent requested now j other in
      ground (
        arith,
        lookup-insert id j (edited dt m id agent requested now edit held version).0
            (opened dt m id agent requested now).0,
      )

  -- An edit of a resource that exists and that the task has not locked returns. The resource keeps
  -- its merge type and every version that it has seen, and a request for another merge type is an
  -- error that leaves it exactly as it was.
  pub edit_resource_existing :
      (edit : Edit dt) (held : StrSet) (m : ResourceStateManager dt) (id agent : Text)
      (version requested : Option Text) (now : ℕ) (s : ResourceState dt)
      → lookup id m ≡ some s
      → Set.contains id held ≡ false
      → (m' : ResourceStateManager dt) × (r : Result Text Value) × (s' : ResourceState dt)
        × (edit_resource dt edit held m id agent version requested now ≡ done (m', r))
        × (lookup id m' ≡ some s')
        × Keeps dt s s'
        × (refuse dt s requested (s', r) ≡ (s', r))
  edit_resource_existing edit held m id agent version requested now s found free =
      let o = opened_found dt m id agent requested now found in
      let (s', r) = edit_locked dt edit version requested now s in
      (
        insert id s' m,
        r,
        s',
        edit_resource_free dt m id agent requested now edit held version free
            ∙ ap
                (λ (o : ResourceStateManager dt × ResourceState dt). done (
                  insert id (edit_locked dt edit version requested now o.1).0 o.0,
                  (edit_locked dt edit version requested now o.1).1,
                ))
                o,
        lookup-insert_self dt id s' m,
        edit_locked-Keeps dt edit version requested now s,
        edit_locked_mismatch dt edit version requested now s,
      )

  -- A version is applied once. After an edit under a version that succeeded, any edit of the same
  -- resource under the same version, by a task that does not hold its lock, returns and leaves every
  -- resource of the registry as it was, whoever sends it and whatever it would do. Its answer is that
  -- of the first edit, unless it requests a merge type that is not that of the resource: that is an
  -- error.
  pub edit_resource_once :
      (edit again : Edit dt) (held locks : StrSet) (m : ResourceStateManager dt)
      (id agent other v : Text) (requested asked : Option Text) (now later : ℕ)
      {m' : ResourceStateManager dt} {answer : Value}
      → edit_resource dt edit held m id agent (some v) requested now ≡ done (m', ok answer)
      → Set.contains id locks ≡ false
      → (s' : ResourceState dt) × (m'' : ResourceStateManager dt) × (lookup id m' ≡ some s')
        × (edit_resource dt again locks m' id other (some v) asked later
            ≡ done (
              m'',
              if mismatches dt s' asked then err (codes "Merge-type mismatch") else ok answer,
            ))
        × ((j : Text) → lookup j m'' ≡ lookup j m')
  edit_resource_once edit again held locks m id agent other v requested asked now later {m'}
        {answer} h free =
      let s = (opened dt m id agent requested now).1 in
      let (stored, answered) =
        edit_resource_returns dt m id agent requested now edit held (some v) h in
      let s' = (edit_locked dt edit (some v) requested now s).0 in
      let settled : Settled dt v s s' answer =
        edit_locked-Settled dt edit v requested now s (ap (λ r. (s', r)) (sym answered)) in
      let found : lookup id m' ≡ some s' =
        ap (lookup id) stored
        ∙ lookup-insert_self dt id s' (opened dt m id agent requested now).0 in
      let o = opened_found dt m' id other asked later found in
      (
        s',
        insert id s' m',
        found,
        edit_resource_free dt m' id other asked later again locks (some v) free
            ∙ ap
                (λ (o : ResourceStateManager dt × ResourceState dt). done (
                  insert id (edit_locked dt again (some v) asked later o.1).0 o.0,
                  (edit_locked dt again (some v) asked later o.1).1,
                ))
                o
            ∙ ap (λ (p : ResourceState dt × Result Text Value). done (insert id p.0 m', p.1))
                (edit_locked_again dt again v asked later s' settled.seen)
            ∙ ap
                (λ r. done (
                  insert id s' m',
                  if mismatches dt s' asked then err (codes "Merge-type mismatch") else ok r,
                ))
                (sym settled.answer),
        λ j. lookup-insert_same dt id j m' found,
      )
