-- ===== src/Blob/Store/Kept.antt =====
-- Every row of `BlobStore` (core/src/blob/store.rs) has its file, whatever fails.
use braid_rs.Types.Version.{Version}
use braid_rs.Blob.Names.{encode_filename}
use braid_rs.Blob.Names.RoundTrip.{encode_filename-injective}
use braid_rs.Prelude.{
  Bytes, Option, Text, arith, if◌then◌else◌, none, ok, some, true, ◌≡◌, Bool-cases, [], inl, inr,
  refl, ◌++◌, ◌∷◌, Result, err, is_some, List,
}
use braid_rs.Prelude.Strings.{str_eq, eq_iff, str_eq_self}
use braid_rs.Prelude.Maps.{lookup, insert, lookup-insert, lookup-remove, remove}
use braid_rs.Blob.Store.{
  BlobMetadata, BlobStore, Libraries, ReadsBack, calm, get, get_file_path, get_meta, is_stale,
  read_blob, read_row, put_event, written, Env, StoreError, put_over, remove_blob, remove_file,
  replace_meta, test_file, torn_write, write_blob, write_file, delete, delete_from, delete_meta,
  metadata_of, put,
}

abbrev pub Entry : Type 0
Entry = Bytes × BlobMetadata

abbrev pub Row : Libraries → Option Text → Option Bytes → Type 0
Row l none file = Unit {0}
Row l (some text) none = ⊥
Row l (some text) (some bytes) = (m : BlobMetadata) × (l.parse text ≡ some m)

-- Every row is readable and has its file.
abbrev pub IsStored : Libraries → BlobStore → Type 0
IsStored l s = (j : Text) → Row l (lookup j s.meta) (lookup (get_file_path l j) s.files)

abbrev pub entry_of : Option BlobMetadata → Option Bytes → Option Entry
entry_of (some meta) (some bytes) = some (bytes, meta)
entry_of (some meta) none = none
entry_of none file = none

-- What the store holds under a key.
unfoldable pub contents : Libraries → BlobStore → Text → Option Entry
contents l s j =
    entry_of (elim (lookup j s.meta) [ none ↦ none | some text ↦ l.parse text ])
      (lookup (get_file_path l j) s.files)

-- The calls that change a store, each with what fails in it.
pub data Call : Type 0 where
  putting : Text → Bytes → List Version → List Version → Option Text → Call
  deleting : Text → Call

unfoldable pub apply : Libraries → Env → Call → BlobStore → BlobStore
apply l env (putting key bytes version parents content_type) s =
    (put l env key bytes version parents content_type s).0
apply l env (deleting key) s = (delete l env key s).0

unfoldable pub apply_all : Libraries → List (Env × Call) → BlobStore → BlobStore
apply_all l [] s = s
apply_all l ((env, call) ∷ calls) s = apply_all l calls (apply l env call s)

module _ (l : Libraries) (reads : ReadsBack l) where
  pub get-contents :
      (s : BlobStore) (j : Text) → IsStored l s → get l calm j s ≡ ok (contents l s j)
  unfolding get get_meta read_row read_blob contents
  get-contents s j h = ground (arith, h j)

  -- Two keys have one path only if they are one key.
  pub paths_differ : (j k : Text) → str_eq (get_file_path l j) (get_file_path l k) ≡ str_eq j k
  unfolding get_file_path
  paths_differ j k = elim (Bool-cases (str_eq j k)) [
    | inl same ↦ rw (same, (eq_iff j k).0 same) (str_eq_self (encode_filename l.letters k))
    | inr other ↦
        elim (Bool-cases (str_eq (encode_filename l.letters j) (encode_filename l.letters k))) [
          | inr differ ↦ rw (other, differ) refl
          | inl equal ↦
              let e = encode_filename-injective l.letters j k ((eq_iff _ _).0 equal) in
              let yes_same : str_eq j k ≡ true = (eq_iff j k).1 e in absurd (cc)
        ]
  ]

  -- A write of the row and of the file of a key.
  module _ (s : BlobStore) (new : BlobMetadata) (bytes : Bytes) where
    abbrev pub stored : BlobStore
    stored = record (written l new bytes s) {
      meta = insert new.key (l.print new) s.meta;
      events = s.events ++ (put_event new bytes ∷ []);
    }

    pub contents-stored :
        (j : Text)
        → contents l stored j ≡ (if str_eq new.key j then some (bytes, new) else contents l s j)
    unfolding contents
    contents-stored j = ground (
      arith,
      lookup-insert new.key j (l.print new) s.meta,
      lookup-insert (get_file_path l new.key) (get_file_path l j) bytes s.files,
      paths_differ new.key j,
      reads new,
    )

    stored-IsStored : IsStored l s → IsStored l stored
    stored-IsStored h j = elim (Bool-cases (str_eq new.key j)) [
      | inl same ↦
          rw
            (
              lookup-insert new.key j (l.print new) s.meta,
              lookup-insert (get_file_path l new.key) (get_file_path l j) bytes s.files,
              paths_differ new.key j,
              same,
            )
            (new, reads new)
      | inr other ↦
          rw
            (
              lookup-insert new.key j (l.print new) s.meta,
              lookup-insert (get_file_path l new.key) (get_file_path l j) bytes s.files,
              paths_differ new.key j,
              other,
            )
            (h j)
    ]

  more_files :
      (o : Option Text) (f : Option Bytes) (bytes : Bytes) → Row l o f → Row l o (some bytes)
  more_files none f bytes h = tt
  more_files (some text) none bytes h = absurd h
  more_files (some text) (some old) bytes h = h

  -- Another content of a file leaves the rows with their files.
  refilled-IsStored :
      (s : BlobStore) (key : Text) (bytes : Bytes)
      → IsStored l s
      → IsStored l (record s { files = insert (get_file_path l key) bytes s.files })
  refilled-IsStored s key bytes h j = elim (Bool-cases (str_eq key j)) [
    | inl same ↦
        rw
          (
            lookup-insert (get_file_path l key) (get_file_path l j) bytes s.files,
            paths_differ key j,
            same,
          )
          (more_files (lookup j s.meta) (lookup (get_file_path l j) s.files) bytes (h j))
    | inr other ↦
        rw
          (
            lookup-insert (get_file_path l key) (get_file_path l j) bytes s.files,
            paths_differ key j,
            other,
          )
          (h j)
  ]

  torn-IsStored :
      (s : BlobStore) (key : Text) (o : Option Bytes)
      → IsStored l s
      → IsStored l (torn_write l o (get_file_path l key) s)
  unfolding torn_write
  torn-IsStored s key none h = h
  torn-IsStored s key (some bytes) h = refilled-IsStored s key bytes h

  write_blob-IsStored :
      (env : Env) (meta : BlobMetadata) (bytes : Bytes) (s : BlobStore)
      → IsStored l s
      → IsStored l (write_blob l env meta bytes s).0
  unfolding write_blob
  write_blob-IsStored env meta bytes s h = elim (Bool-cases (env.fails write_file)) [
    | inl bad ↦ rw bad (torn-IsStored s meta.key env.torn h)
    | inr good ↦ elim (Bool-cases (env.fails replace_meta)) [
      | inl bad ↦ rw (good, bad) (refilled-IsStored s meta.key bytes h)
      | inr fine ↦ rw (good, fine) (stored-IsStored s meta bytes h)
    ]
  ]

  put_over-IsStored :
      (env : Env) (meta : BlobMetadata) (bytes : Bytes)
      (r : Result StoreError (Option BlobMetadata)) (s : BlobStore)
      → IsStored l s
      → IsStored l (put_over l env meta bytes r s).0
  unfolding put_over
  put_over-IsStored env meta bytes (err e) s h = h
  put_over-IsStored env meta bytes (ok none) s h = write_blob-IsStored env meta bytes s h
  put_over-IsStored env meta bytes (ok (some current)) s h =
      elim (Bool-cases (is_stale l meta.version current)) [
        | inl old ↦ rw old h
        | inr new ↦ rw new (write_blob-IsStored env meta bytes s h)
      ]

  -- Without its row, a key needs no file.
  removed-IsStored :
      (s : BlobStore) (key : Text)
      → IsStored l s
      → IsStored l (record s { meta = remove key s.meta })
  removed-IsStored s key h j = elim (Bool-cases (str_eq key j)) [
    | inl same ↦ rw (lookup-remove key j s.meta, same) tt
    | inr other ↦ rw (lookup-remove key j s.meta, other) (h j)
  ]

  unfiled-IsStored :
      (s : BlobStore) (key : Text)
      → IsStored l s
      → IsStored l
          (record s { meta = remove key s.meta; files = remove (get_file_path l key) s.files })
  unfiled-IsStored s key h j = elim (Bool-cases (str_eq key j)) [
    | inl same ↦ rw (lookup-remove key j s.meta, same) tt
    | inr other ↦
        rw
          (
            lookup-remove key j s.meta,
            lookup-remove (get_file_path l key) (get_file_path l j) s.files,
            paths_differ key j,
            other,
          )
          (h j)
  ]

  remove_blob-IsStored :
      (env : Env) (key : Text) (current : Option BlobMetadata) (s : BlobStore)
      → IsStored l s
      → IsStored l (remove_blob l env key current (record s { meta = remove key s.meta })).0
  unfolding remove_blob
  remove_blob-IsStored env key current s h =
      let gone = removed-IsStored s key h in
      elim (Bool-cases (env.fails test_file)) [
        | inl bad ↦ rw bad gone
        | inr good ↦ elim (Bool-cases (is_some (lookup (get_file_path l key) s.files))) [
          | inr missing ↦ rw (good, missing) gone
          | inl there ↦ elim (Bool-cases (env.fails remove_file)) [
            | inl bad ↦ rw (good, there, bad) gone
            | inr fine ↦ rw (good, there, fine) (unfiled-IsStored s key h)
          ]
        ]
      ]

  -- One call of the store's interface that changes it.
  delete_from-IsStored :
      (env : Env) (key : Text) (r : Result StoreError (Option BlobMetadata)) (s : BlobStore)
      → IsStored l s
      → IsStored l (delete_from l env key r s).0
  unfolding delete_from
  delete_from-IsStored env key (err e) s h = h
  delete_from-IsStored env key (ok current) s h = elim (Bool-cases (env.fails delete_meta)) [
    | inl bad ↦ rw bad h
    | inr good ↦ rw good (remove_blob-IsStored env key current s h)
  ]

  pub apply-IsStored :
      (env : Env) (call : Call) (s : BlobStore) → IsStored l s → IsStored l (apply l env call s)
  unfolding apply put delete
  apply-IsStored env (putting key bytes version parents content_type) s h =
      put_over-IsStored env (metadata_of l key bytes version parents content_type) bytes
        (get_meta l env key s) s h
  apply-IsStored env (deleting key) s h = delete_from-IsStored env key (get_meta l env key s) s h

  -- After any calls, of which any inputs and outputs may have failed and torn the file, every row of
  -- the table can be read and has its file: `get` never answers that a blob with metadata is not
  -- there.
  pub apply_all-IsStored :
      (calls : List (Env × Call)) (s : BlobStore) → IsStored l s → IsStored l (apply_all l calls s)
  unfolding apply_all
  apply_all-IsStored [] s h = h
  apply_all-IsStored ((env, call) ∷ calls) s h =
      apply_all-IsStored calls (apply l env call s) (apply-IsStored env call s h)
