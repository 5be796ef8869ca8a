-- ===== src/Blob/Store/Refines.antt =====
-- `BlobStore` (core/src/blob/store.rs) as a map from keys to blobs, in which the newest version of a
-- key stays.
use braid_rs.Blob.Versions.{compare_versions}
use mathlib.Core.Path.{fun_ext}
use braid_rs.Types.Version.{Version}
use Prim.Native.Nat.{Ordering}
use braid_rs.Prelude.{
  Bool, Bytes, Option, Text, if◌then◌else◌, inl, inr, none, not, ok, refl, some, true, ◌&&◌, ◌≡◌,
  ◌⊎◌, Bool-cases, ap, false, ◌∙◌, List, [], arith, sym, Result, is_some, ◌++◌, ◌∷◌,
}
use braid_rs.Prelude.Strings.{str_eq, eq_iff}
use braid_rs.Prelude.Maps.{lookup, Map, lookup-remove, remove}
use braid_rs.Blob.Store.Kept.{
  Entry, IsStored, Row, contents, entry_of, contents-stored, stored, Call, apply, apply-IsStored,
  apply_all, apply_all-IsStored, deleting, get-contents, paths_differ, putting,
}
use braid_rs.Blob.Store.{
  BlobMetadata, BlobStore, Libraries, ReadsBack, calm, get_file_path, get_meta, is_stale, read_row,
  put_over, write_blob, StoreEvent, delete_from, remove_blob, Env, StoreError, delete, deletion,
  get, metadata_of, put, first_version,
}

-- A map from keys to blobs.
abbrev pub Contents : Type 0
Contents = Text → Option Entry

unfoldable pub is_newer : Libraries → Entry → Option Entry → Bool
is_newer l new none = true
is_newer l new (some old) =
    elim (compare_versions (first_version l new.1.version) (first_version l old.1.version)) [
      | Ordering.gt ↦ true
      | _ ↦ false
    ]

-- The newest version stays; on a tie the first one.
unfoldable pub spec_put : Libraries → Entry → Contents → Contents
unfolding is_newer
spec_put l new c j = if str_eq new.1.key j && is_newer l new (c j) then some new else c j

unfoldable pub spec_delete : Text → Contents → Contents
spec_delete key c j = if str_eq key j then none else c j

-- The calls as they act on a map.
unfoldable pub spec_apply : Libraries → Call → Contents → Contents
unfolding spec_put spec_delete
spec_apply l (putting key bytes version parents content_type) c =
    spec_put l (bytes, metadata_of l key bytes version parents content_type) c
spec_apply l (deleting key) c = spec_delete key c

unfoldable pub spec_apply_all : Libraries → List Call → Contents → Contents
spec_apply_all l [] c = c
spec_apply_all l (call ∷ calls) c = spec_apply_all l calls (spec_apply l call c)

abbrev pub calmly : List Call → List (Env × Call)
calmly [] = []
calmly (call ∷ calls) = (calm, call) ∷ calmly calls

module _ (l : Libraries) (reads : ReadsBack l) where
  -- What the metadata of a key say of the contents.
  abbrev Known : BlobStore → Text → Type 0
  Known s key =
      ((get_meta l calm key s ≡ ok none) × (contents l s key ≡ none))
      ⊎ ((meta : BlobMetadata) × (bytes : Bytes) × (get_meta l calm key s ≡ ok (some meta))
          × (contents l s key ≡ some (bytes, meta)))

  known : (s : BlobStore) (key : Text) → IsStored l s → Known s key
  unfolding get_meta contents
  known s key h = go (lookup key s.meta) (lookup (get_file_path l key) s.files) (h key)
    where
      go :
          (o : Option Text) (f : Option Bytes)
          → Row l o f
          → ((read_row l o ≡ ok none)
              × (entry_of (elim o [ none ↦ none | some text ↦ l.parse text ]) f ≡ none))
            ⊎ ((meta : BlobMetadata) × (bytes : Bytes) × (read_row l o ≡ ok (some meta))
                × (entry_of (elim o [ none ↦ none | some text ↦ l.parse text ]) f
                    ≡ some (bytes, meta)))
      go none f r = inl (refl, refl)
      go (some text) none r = absurd r
      go (some text) (some bytes) (m, p) = inr (m, bytes, rw (p, read_row) refl, rw p refl)

  kept_or_new :
      (stale same : Bool) (c : Option Entry) (new : Entry)
      → (if stale then c else (if same then some new else c))
        ≡ (if same && not stale then some new else c)
  kept_or_new true true c new = refl
  kept_or_new true false c new = refl
  kept_or_new false true c new = refl
  kept_or_new false false c new = refl

  unless_same :
      (same b d : Bool) (c : Option Entry) (new : Entry)
      → same ≡ false
      → (if same && b then some new else c) ≡ (if same && d then some new else c)
  unless_same true b d c new h = cc
  unless_same false b d c new h = refl

  module _ (s : BlobStore) (new : BlobMetadata) (bytes : Bytes) (j : Text) where
    abbrev chosen : Bool → Option Entry
    chosen newer = if str_eq new.key j && newer then some (bytes, new) else contents l s j

    abbrev decided :
        Bool → List Version → List Version → BlobStore × Result StoreError (List Version)
    decided stale v w = if stale then (s, ok v) else (stored l reads s new bytes, ok w)

    stale_contents :
        (stale : Bool) (v w : List Version)
        → contents l (decided stale v w).0 j ≡ chosen (not stale)
    stale_contents true v w = kept_or_new true (str_eq new.key j) (contents l s j) (bytes, new)
    stale_contents false v w =
        contents-stored l reads s new bytes j
        ∙ kept_or_new false (str_eq new.key j) (contents l s j) (bytes, new)

    -- What is held under the key decides, under any key that is the same.
    chosen_held :
        (held : Option Entry)
        → contents l s new.key ≡ held
        → chosen (is_newer l (bytes, new) held) ≡ spec_put l (bytes, new) (contents l s) j
    unfolding spec_put
    chosen_held held e = elim (Bool-cases (str_eq new.key j)) [
      | inl same ↦
          ap (λ c. chosen (is_newer l (bytes, new) c))
            (sym e ∙ ap (contents l s) ((eq_iff new.key j).0 same))
      | inr other ↦ unless_same _ _ _ (contents l s j) (bytes, new) other
    ]

    -- What the code does not hold stale is newer.
    fresh_newer :
        (old : Bytes) (meta : BlobMetadata)
        → not (is_stale l new.version meta) ≡ is_newer l (bytes, new) (some (old, meta))
    unfolding is_stale is_newer
    fresh_newer old meta = ground arith

    put_contents :
        IsStored l s
        → contents l (put_over l calm new bytes (get_meta l calm new.key s) s).0 j
          ≡ spec_put l (bytes, new) (contents l s) j
    unfolding is_newer put_over write_blob
    put_contents h = go (known s new.key h)
      where
        go :
            Known s new.key
            → contents l (put_over l calm new bytes (get_meta l calm new.key s) s).0 j
              ≡ spec_put l (bytes, new) (contents l s) j
        go (inl (row, held)) =
            ap (λ r. contents l (put_over l calm new bytes r s).0 j) row
            ∙ stale_contents false [] []
            ∙ chosen_held none held
        go (inr (meta, old, row, held)) =
            ap (λ r. contents l (put_over l calm new bytes r s).0 j) row
            ∙ stale_contents (is_stale l new.version meta) meta.version new.version
            ∙ ap chosen (fresh_newer old meta)
            ∙ chosen_held (some (old, meta)) held

  -- Whether the file was there or not, the row is gone.
  unfiled_contents :
      (s : BlobStore) (key j : Text) (files : Map Bytes) (events : List StoreEvent)
      → ((k : Text)
          → str_eq key k ≡ false
          → lookup (get_file_path l k) files ≡ lookup (get_file_path l k) s.files)
      → contents l (record { meta = remove key s.meta; files = files; events = events }) j
        ≡ spec_delete key (contents l s) j
  unfolding contents spec_delete
  unfiled_contents s key j files events same_files = elim (Bool-cases (str_eq key j)) [
    | inl same ↦ ground (arith, lookup-remove key j s.meta)
    | inr other ↦ ground (arith, lookup-remove key j s.meta, same_files j other)
  ]

  other_files :
      (s : BlobStore) (key k : Text)
      → str_eq key k ≡ false
      → lookup (get_file_path l k) (remove (get_file_path l key) s.files)
        ≡ lookup (get_file_path l k) s.files
  other_files s key k other =
      rw
        (
          lookup-remove (get_file_path l key) (get_file_path l k) s.files,
          paths_differ l reads key k,
          other,
        )
        refl

  deleted_contents :
      (s : BlobStore) (key j : Text) (current : Option BlobMetadata)
      → contents l (delete_from l calm key (ok current) s).0 j ≡ spec_delete key (contents l s) j
  unfolding delete_from remove_blob
  deleted_contents s key j current =
      let told = s.events ++ (deletion l key current ∷ []) in
      elim (Bool-cases (is_some (lookup (get_file_path l key) s.files))) [
        | inl there ↦ rw there (
            unfiled_contents s key j (remove (get_file_path l key) s.files) told
              (other_files s key))
        | inr missing ↦ rw missing (unfiled_contents s key j s.files told (λ k e. refl))
      ]

  delete_contents :
      (s : BlobStore) (key j : Text)
      → IsStored l s
      → contents l (delete_from l calm key (get_meta l calm key s) s).0 j
        ≡ spec_delete key (contents l s) j
  delete_contents s key j h = elim (known s key h) [
    | inl (row, _) ↦
        ap (λ r. contents l (delete_from l calm key r s).0 j) row ∙ deleted_contents s key j none
    | inr (meta, _, row, _) ↦
        ap (λ r. contents l (delete_from l calm key r s).0 j) row
        ∙ deleted_contents s key j (some meta)
  ]

  contents-apply :
      (call : Call) (s : BlobStore)
      → IsStored l s
      → contents l (apply l calm call s) ≡ spec_apply l call (contents l s)
  unfolding apply spec_apply put delete
  contents-apply (putting key bytes version parents content_type) s h =
      fun_ext (λ j. put_contents s (metadata_of l key bytes version parents content_type) bytes j h)
  contents-apply (deleting key) s h = fun_ext (λ j. delete_contents s key j h)

  contents-apply_all :
      (calls : List Call) (s : BlobStore)
      → IsStored l s
      → contents l (apply_all l (calmly calls) s) ≡ spec_apply_all l calls (contents l s)
  unfolding apply_all spec_apply_all
  contents-apply_all [] s h = refl
  contents-apply_all (call ∷ calls) s h =
      contents-apply_all calls (apply l calm call s) (apply-IsStored l reads calm call s h)
      ∙ ap (spec_apply_all l calls) (contents-apply call s h)

  -- With no failing input or output, the store answers `get` as a map from keys to blobs does, on
  -- which a put writes its key if the key is free or the new version is the newer one, and changes
  -- nothing otherwise, and on which a delete frees its key. No call touches another key.
  pub get-apply_all :
      (calls : List Call) (s : BlobStore) (j : Text)
      → IsStored l s
      → get l calm j (apply_all l (calmly calls) s) ≡ ok (spec_apply_all l calls (contents l s) j)
  get-apply_all calls s j h =
      get-contents l reads (apply_all l (calmly calls) s) j
        (apply_all-IsStored l reads (calmly calls) s h)
      ∙ ap (λ c. ok (c j)) (contents-apply_all calls s h)
