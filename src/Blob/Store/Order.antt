-- ===== src/Blob/Store/Order.antt =====
-- The order in which `BlobStore` (core/src/blob/store.rs) gets the versions of a key.
use braid_rs.Prelude.Strings.{eq_iff, str_eq}
use braid_rs.Types.Version.{Version}
use braid_rs.Prelude.{
  Option, Text, arith, if◌then◌else◌, none, some, ◌≡◌, ◌≢◌, Bool-cases, Bytes, List, [], ap, false,
  inl, inr, ok, refl, sym, true, ◌∙◌, ◌∷◌, ◌⊎◌,
}
use braid_rs.Blob.Versions.{compare_versions}
use braid_rs.Blob.Versions.Order.{compare_versions-IsOrder}
use braid_rs.Blob.Store.{
  Libraries, first_version, is_stale, BlobStore, ReadsBack, calm, get, metadata_of,
}
use braid_rs.Blob.Store.Kept.{Entry, IsStored, apply_all, contents, putting}
use braid_rs.Blob.Store.Refines.{
  is_newer, Contents, calmly, get-apply_all, spec_apply, spec_apply_all, spec_put,
}
use Prim.Native.Nat.{Ordering}

module _ (l : Libraries) where
  abbrev name_of : Entry → Text
  name_of e = first_version l e.1.version

  abbrev older : Entry → Entry → Ordering
  older a b = compare_versions (name_of a) (name_of b)

  pick : Entry → Option Entry → Option Entry
  unfolding is_newer
  pick new held = if is_newer l new held then some new else held

  pick-pick :
      (p q : Entry) (held : Option Entry)
      → name_of p ≢ name_of q
      → pick q (pick p held) ≡ pick p (pick q held)
  unfolding pick is_newer is_stale
  pick-pick p q none ne =
      let o = compare_versions-IsOrder in
      ground (arith, o.swapped (name_of p) (name_of q), o.tied (name_of p) (name_of q))
  pick-pick p q (some r) ne =
      let o = compare_versions-IsOrder in
      let a = name_of p in
      let b = name_of q in
      let c = name_of r in
      ground (
        arith,
        o.swapped a b,
        o.swapped a c,
        o.swapped b c,
        o.tied a b,
        o.tied a c,
        o.tied b c,
        o.chained c a b,
        o.chained c b a,
        o.chained a c b,
        o.chained b c a,
        o.chained a b c,
        o.chained b a c,
      )

  spec_put-pick :
      (new : Entry) (c : Contents) (j : Text)
      → spec_put l new c j ≡ (if str_eq new.1.key j then pick new (c j) else c j)
  unfolding spec_put pick
  spec_put-pick new c j = ground arith

  spec_puts :
      (p q : Entry) (c : Contents) (j : Text)
      → (p.1.key ≡ q.1.key → name_of p ≢ name_of q)
      → spec_put l q (spec_put l p c) j ≡ spec_put l p (spec_put l q c) j
  spec_puts p q c j differ =
      spec_put-pick q (spec_put l p c) j
      ∙ go (Bool-cases (str_eq p.1.key j)) (Bool-cases (str_eq q.1.key j))
      ∙ sym (spec_put-pick p (spec_put l q c) j)
    where
      go :
          (str_eq p.1.key j ≡ true) ⊎ (str_eq p.1.key j ≡ false)
          → (str_eq q.1.key j ≡ true) ⊎ (str_eq q.1.key j ≡ false)
          → (if str_eq q.1.key j then pick q (spec_put l p c j) else spec_put l p c j)
            ≡ (if str_eq p.1.key j then pick p (spec_put l q c j) else spec_put l q c j)
      go (inl a) (inl b) =
          rw (spec_put-pick p c j, spec_put-pick q c j, a, b)
            (pick-pick p q (c j) (differ ((eq_iff p.1.key j).0 a ∙ sym ((eq_iff q.1.key j).0 b))))
      go (inl a) (inr b) = rw (spec_put-pick p c j, spec_put-pick q c j, a, b) refl
      go (inr a) (inl b) = rw (spec_put-pick p c j, spec_put-pick q c j, a, b) refl
      go (inr a) (inr b) = rw (spec_put-pick p c j, spec_put-pick q c j, a, b) refl

-- Two puts, under one key with different first versions or under two keys, can come in either
-- order: afterwards every key reads the same.
pub puts_converge :
    (l : Libraries) (key1 : Text) (bytes1 : Bytes) (version1 parents1 : List Version)
    (type1 : Option Text) (key2 : Text) (bytes2 : Bytes) (version2 parents2 : List Version)
    (type2 : Option Text) (s : BlobStore)
    → ReadsBack l
    → IsStored l s
    → (key1 ≡ key2 → first_version l version1 ≢ first_version l version2)
    → (j : Text)
    → let first = putting key1 bytes1 version1 parents1 type1 in
      let second = putting key2 bytes2 version2 parents2 type2 in
      get l calm j (apply_all l (calmly (first ∷ second ∷ [])) s)
      ≡ get l calm j (apply_all l (calmly (second ∷ first ∷ [])) s)
unfolding spec_apply_all spec_apply
puts_converge l key1 bytes1 version1 parents1 type1 key2 bytes2 version2 parents2 type2 s reads h
      differ j =
    let first = putting key1 bytes1 version1 parents1 type1 in
    let second = putting key2 bytes2 version2 parents2 type2 in
    get-apply_all l reads (first ∷ second ∷ []) s j h
    ∙ ap ok (
        spec_puts l (bytes1, metadata_of l key1 bytes1 version1 parents1 type1)
          (bytes2, metadata_of l key2 bytes2 version2 parents2 type2) (contents l s) j differ)
    ∙ sym (get-apply_all l reads (second ∷ first ∷ []) s j h)
