-- ===== src/Server/Resources/Edits.antt =====
-- What the three editing methods of `ResourceStateManager` do to the registry
-- (core/src/core/server/resource_state.rs). They differ in the edit of the document only, so every
-- statement ranges over that edit.
use braid_rs.Prelude.{
  ℕ, ◌≡◌, refl, ◌∙◌, ap, true, false, [], Option, none, some, Text, lookup, insert, lookup-insert,
  str_eq, str_eq_self, eq_iff, StrSet, Result, ok, err, arith, Bool-cases, Option-cases, inl, inr,
  if◌then◌else◌,
}
use braid_rs.Prelude.Set
use braid_rs.Prelude.Chars.{codes}
use braid_rs.Prelude.Json.{Value}
use braid_rs.Merge.Diamond
use braid_rs.Merge.Diamond.{DiamondTypes, DiamondCrdt}
use braid_rs.Server.Resources.{
  done, ResourceState, ResourceStateManager, Edit, edit_locked, edit_resource, new_resource, lock,
  get_or_create_resource, mismatches,
}

module _ (dt : DiamondTypes) where
  -- A versioned edit that succeeded: the version is marked, the answer is the export of the new
  -- state, and the merge type is as before.
  pub record Settled (v : Text) (s s' : ResourceState dt) (r : Value) : Type 0 where
    pub seen : Set.contains v s'.seen_versions ≡ true
    pub answer : r ≡ Diamond.export_operations dt s'.crdt
    pub kept : s'.merge_type ≡ s.merge_type

  pub edit_locked-Settled :
      (edit : Edit dt) (v : Text) (requested : Option Text) (now : ℕ) (s : ResourceState dt)
      {s' : ResourceState dt} {r : Value}
      → edit_locked dt edit (some v) requested now s ≡ (s', ok r)
      → Settled v s s' r
  unfolding edit_locked
  edit_locked-Settled edit v requested now s h =
      ground (arith, Set.contains-insert_self v s.seen_versions)

  -- A version that was seen changes nothing, whatever the edit.
  pub edit_locked_seen :
      (edit : Edit dt) (v : Text) (now : ℕ) (s : ResourceState dt)
      → Set.contains v s.seen_versions ≡ true
      → edit_locked dt edit (some v) none now s ≡ (s, ok (Diamond.export_operations dt s.crdt))
  unfolding edit_locked
  edit_locked_seen edit v now s h = rw h

  -- The same for any requested merge type: one that does not match is an error.
  pub edit_locked_again :
      (edit : Edit dt) (v : Text) (requested : Option Text) (now : ℕ) (s : ResourceState dt)
      → Set.contains v s.seen_versions ≡ true
      → edit_locked dt edit (some v) requested now s ≡ (
        s,
        if mismatches dt s requested
            then err (codes "Merge-type mismatch")
            else ok (Diamond.export_operations dt s.crdt),
      )
  unfolding edit_locked
  edit_locked_again edit v requested now s h = elim (Bool-cases (mismatches dt s requested)) [
    | inl wrong ↦ rw wrong
    | inr right ↦ rw (right, h)
  ]

  -- What every edit keeps of the resource that it finds.
  pub record Keeps (s s' : ResourceState dt) : Type 0 where
    pub merge_type : s'.merge_type ≡ s.merge_type
    pub versions :
        (w : Text) → Set.contains w s.seen_versions ≡ true → Set.contains w s'.seen_versions ≡ true

  pub edit_locked-Keeps :
      (edit : Edit dt) (version : Option Text) (requested : Option Text) (now : ℕ)
      (s : ResourceState dt)
      → Keeps s (edit_locked dt edit version requested now s).0
  unfolding edit_locked
  edit_locked-Keeps edit none requested now s = record {
    merge_type = ground arith;
    versions = λ w h. ground arith;
  }
  edit_locked-Keeps edit (some v) requested now s = record {
    merge_type = ground arith;
    versions = λ w h. ground (arith, Set.contains-insert v w s.seen_versions);
  }

  accepted :
      (edit : Edit dt) (version : Option Text) (now : ℕ) (s : ResourceState dt)
      → (answer : Value) × ((edit_locked dt edit version none now s).1 ≡ ok answer)
  unfolding edit_locked
  accepted edit none now s = (Diamond.export_operations dt (edit s.crdt), refl)
  accepted edit (some v) now s = elim (Bool-cases (Set.contains v s.seen_versions)) [
    | inl old ↦ (Diamond.export_operations dt s.crdt, rw old)
    | inr new ↦ (Diamond.export_operations dt (edit s.crdt), rw new)
  ]

  -- The resource and the answer, where a mismatch is an error that changes nothing.
  abbrev pub refuse :
      ResourceState dt
      → Option Text
      → ResourceState dt × Result Text Value
      → ResourceState dt × Result Text Value
  refuse s requested x =
      if mismatches dt s requested then (s, err (codes "Merge-type mismatch")) else x

  pub edit_locked_mismatch :
      (edit : Edit dt) (version requested : Option Text) (now : ℕ) (s : ResourceState dt)
      → refuse s requested (edit_locked dt edit version requested now s)
        ≡ edit_locked dt edit version requested now s
  unfolding edit_locked
  edit_locked_mismatch edit version requested now s = ground arith

  module _ (m : ResourceStateManager dt) (id agent : Text) (requested : Option Text) (now : ℕ) where
    -- The registry and the resource once the id is found or created.
    abbrev pub opened : ResourceStateManager dt × ResourceState dt
    opened = get_or_create_resource dt m id agent requested now

    pub opened-lookup : (j : Text) → str_eq id j ≡ false → lookup j opened.0 ≡ lookup j m
    unfolding get_or_create_resource
    opened-lookup j other = elim (Option-cases (lookup id m)) [
      | inl absent ↦
          let s = new_resource dt agent requested now in
          ground (arith, absent, lookup-insert id j s m)
      | inr (s, found) ↦ ground arith
    ]

    pub opened_found : {s : ResourceState dt} → lookup id m ≡ some s → opened ≡ (m, s)
    unfolding get_or_create_resource
    opened_found found = ground arith

    module _ (edit : Edit dt) (held : StrSet) (version : Option Text) where
      abbrev pub edited : ResourceState dt × Result Text Value
      edited = edit_locked dt edit version requested now opened.1

      pub edit_resource_free :
          Set.contains id held ≡ false
          → edit_resource dt edit held m id agent version requested now
            ≡ done (insert id edited.0 opened.0, edited.1)
      unfolding edit_resource lock
      edit_resource_free free = rw free

      pub edit_resource_returns :
          {m' : ResourceStateManager dt} {r : Result Text Value}
          → edit_resource dt edit held m id agent version requested now ≡ done (m', r)
          → (m' ≡ insert id edited.0 opened.0) × (r ≡ edited.1)
      unfolding edit_resource lock
      edit_resource_returns h = ground arith

  pub lookup-insert_self :
      (id : Text) (s : ResourceState dt) (m : ResourceStateManager dt)
      → lookup id (insert id s m) ≡ some s
  lookup-insert_self id s m = ground (arith, lookup-insert id id s m, str_eq_self id)

  -- Without a requested merge type an edit succeeds, and the resource is there.
  pub edit_resource_unrequested :
      (edit : Edit dt) (m : ResourceStateManager dt) (id agent : Text) (version : Option Text)
      (now : ℕ)
      → (m' : ResourceStateManager dt) × (answer : Value) × (s' : ResourceState dt) × (edit_resource
            dt edit [] m id agent version none now
          ≡ done (m', ok answer))
        × (lookup id m' ≡ some s')
  unfolding Set.contains
  edit_resource_unrequested edit m id agent version now =
      let (m0, s) = opened m id agent none now in
      let (s', r) = edit_locked dt edit version none now s in
      let (answer, e) = accepted edit version now s in
      (
        insert id s' m0,
        answer,
        s',
        edit_resource_free m id agent none now edit [] version refl
            ∙ ap (λ r. done (insert id s' m0, r)) e,
        lookup-insert_self id s' m0,
      )

  -- An edit of a resource that is there, by a task with no locks.
  pub edit_resource_found :
      (edit : Edit dt) (m : ResourceStateManager dt) (id agent : Text)
      (version requested : Option Text) (now : ℕ) (s : ResourceState dt)
      → lookup id m ≡ some s
      → edit_resource dt edit [] m id agent version requested now
        ≡ done (
          insert id (edit_locked dt edit version requested now s).0 m,
          (edit_locked dt edit version requested now s).1,
        )
  unfolding Set.contains
  edit_resource_found edit m id agent version requested now s found =
      edit_resource_free m id agent requested now edit [] version refl
      ∙ ap
          (λ (o : ResourceStateManager dt × ResourceState dt). done (
            insert id (edit_locked dt edit version requested now o.1).0 o.0,
            (edit_locked dt edit version requested now o.1).1,
          ))
          (opened_found m id agent requested now found)

  pub lookup-insert_same :
      (id j : Text) {s : ResourceState dt} (m : ResourceStateManager dt)
      → lookup id m ≡ some s
      → lookup j (insert id s m) ≡ lookup j m
  lookup-insert_same id j {s} m found = ground (arith, lookup-insert id j s m, eq_iff id j)

  -- A version that was seen: the resource stays, also where the merge type does not match.
  pub edit_locked_seen_any :
      (edit : Edit dt) (v : Text) (requested : Option Text) (now : ℕ) (s : ResourceState dt)
      → Set.contains v s.seen_versions ≡ true
      → (edit_locked dt edit (some v) requested now s).0 ≡ s
  unfolding edit_locked
  edit_locked_seen_any edit v requested now s h = ground arith

  -- The first edit under a version, for the merge type of the resource.
  pub edit_locked_unseen :
      (edit : Edit dt) (v requested : Text) (now : ℕ) (s : ResourceState dt)
      → s.merge_type ≡ requested
      → Set.contains v s.seen_versions ≡ false
      → (edit_locked dt edit (some v) (some requested) now s).0 ≡ record s {
        crdt = edit s.crdt;
        last_sync = now;
        seen_versions = Set.insert v s.seen_versions;
      }
  unfolding edit_locked
  edit_locked_unseen edit v requested now s same h = ground (arith, eq_iff s.merge_type requested)
