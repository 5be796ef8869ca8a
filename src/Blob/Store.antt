-- ===== src/Blob/Store.antt =====
-- `BlobStore` (core/src/blob/store.rs). The table of metadata and the directory of files are maps;
-- the subscribers' channel is the list of the events that were sent. The environment says which
-- input or output fails in a call, and what a failing write leaves in the file. The printer and the
-- parser of `serde_json`, SHA-256 and the Unicode tables are parameters. One call runs at a time.
mod Kept
mod Refines
mod Order
mod Codec
mod Examples
mod Retry
use braid_rs.Prelude.{
  ℕ, ◌≡◌, Bool, true, false, List, [], ◌∷◌, ◌++◌, Option, none, some, Text, Bytes, Map, insert,
  lookup, remove, keys, length, is_some, if◌then◌else◌, Result, ok, err,
}
use Prim.Native.Nat.{Ordering}
use braid_rs.Types.Version.{Version, to_string}
use braid_rs.Blob.Names.{Letters, encode_filename}
use braid_rs.Blob.Versions.{compare_versions}

pub record BlobMetadata : Type 0 where
  pub key : Text
  pub version : List Version
  pub content_type : Option Text
  pub parents : List Version
  pub content_hash : Option Text
  pub size : Option ℕ

pub data StoreEvent : Type 0 where
  put_event : BlobMetadata → Bytes → StoreEvent
  delete_event : Text → List Version → Option Text → StoreEvent

pub record BlobStore : Type 0 where
  pub meta : Map Text
  pub files : Map Bytes
  pub events : List StoreEvent

abbrev pub new_store : BlobStore
new_store = record { meta = []; files = []; events = [] }

pub record Libraries : Type 0 where
  pub letters : Letters
  pub print : BlobMetadata → Text
  pub parse : Text → Option BlobMetadata
  pub sha256 : Bytes → Text

-- `serde_json` reads back what it prints.
abbrev pub ReadsBack : Libraries → Type 0
ReadsBack l = (m : BlobMetadata) → l.parse (l.print m) ≡ some m

-- The inputs and outputs of a call.
pub data Io : Type 0 where
  query_meta test_file read_file write_file replace_meta delete_meta remove_file : Io

pub record Env : Type 0 where
  pub fails : Io → Bool
  pub torn : Option Bytes

abbrev pub calm : Env
calm = record { fails = λ io. false; torn = none }

pub data StoreError : Type 0 where
  failed : Io → StoreError
  unreadable_meta : StoreError

module _ (l : Libraries) where
  unfoldable pub get_file_path : Text → Text
  get_file_path key = encode_filename l.letters key

  -- What a row of the table holds.
  unfoldable pub read_row : Option Text → Result StoreError (Option BlobMetadata)
  read_row none = ok none
  read_row (some text) = elim (l.parse text) [
    | none ↦ err unreadable_meta
    | some meta ↦ ok (some meta)
  ]

  unfoldable pub get_meta : Env → Text → BlobStore → Result StoreError (Option BlobMetadata)
  unfolding read_row lookup
  get_meta env key s =
      if env.fails query_meta then err (failed query_meta) else read_row (lookup key s.meta)

  -- The file of the key, if it is there.
  unfoldable pub read_blob : Env → Text → BlobStore → Result StoreError (Option Bytes)
  unfolding get_file_path lookup
  read_blob env key s =
      if env.fails test_file
      then err (failed test_file)
      else elim (lookup (get_file_path key) s.files) [
        | none ↦ ok none
        | some bytes ↦ if env.fails read_file then err (failed read_file) else ok (some bytes)
      ]

  abbrev pub with_meta :
      BlobMetadata
      → Result StoreError (Option Bytes)
      → Result StoreError (Option (Bytes × BlobMetadata))
  with_meta meta (err e) = err e
  with_meta meta (ok none) = ok none
  with_meta meta (ok (some bytes)) = ok (some (bytes, meta))

  unfoldable pub get : Env → Text → BlobStore → Result StoreError (Option (Bytes × BlobMetadata))
  unfolding get_meta read_blob
  get env key s = elim (get_meta env key s) [
    | err e ↦ err e
    | ok none ↦ ok none
    | ok (some meta) ↦ with_meta meta (read_blob env key s)
  ]

  -- `version.first().map(to_string).unwrap_or_default()`.
  unfoldable pub first_version : List Version → Text
  unfolding to_string
  first_version [] = []
  first_version (v ∷ _) = to_string v

  -- A version that is not newer than the stored one.
  unfoldable pub is_stale : List Version → BlobMetadata → Bool
  unfolding first_version compare_versions
  is_stale version current =
      elim (compare_versions (first_version version) (first_version current.version)) [
        | Ordering.gt ↦ false
        | _ ↦ true
      ]

  abbrev pub metadata_of : Text → Bytes → List Version → List Version → Option Text → BlobMetadata
  metadata_of key bytes version parents content_type = record {
    key = key;
    version = version;
    content_type = content_type;
    parents = parents;
    content_hash = some (l.sha256 bytes);
    size = some (length bytes);
  }

  -- A failing write leaves the file alone or torn.
  unfoldable pub torn_write : Option Bytes → Text → BlobStore → BlobStore
  unfolding insert
  torn_write none path s = s
  torn_write (some bytes) path s = record s { files = insert path bytes s.files }

  abbrev pub written : BlobMetadata → Bytes → BlobStore → BlobStore
  written meta bytes s = record s { files = insert (get_file_path meta.key) bytes s.files }

  -- The part of `put` behind the check of the version.
  unfoldable pub write_blob :
      Env → BlobMetadata → Bytes → BlobStore → BlobStore × Result StoreError (List Version)
  unfolding torn_write get_file_path insert
  write_blob env meta bytes s =
      if env.fails write_file
      then (torn_write env.torn (get_file_path meta.key) s, err (failed write_file))
      else if env.fails replace_meta
      then (written meta bytes s, err (failed replace_meta))
      else (
        record (written meta bytes s) {
          meta = insert meta.key (l.print meta) s.meta;
          events = s.events ++ (put_event meta bytes ∷ []);
        },
        ok meta.version,
      )

  -- By the metadata that are stored.
  unfoldable pub put_over :
      Env
      → BlobMetadata
      → Bytes
      → Result StoreError (Option BlobMetadata)
      → BlobStore
      → BlobStore × Result StoreError (List Version)
  unfolding is_stale write_blob
  put_over env meta bytes (err e) s = (s, err e)
  put_over env meta bytes (ok none) s = write_blob env meta bytes s
  put_over env meta bytes (ok (some current)) s =
      if is_stale meta.version current then (s, ok current.version) else write_blob env meta bytes s

  unfoldable pub put :
      Env
      → Text
      → Bytes
      → List Version
      → List Version
      → Option Text
      → BlobStore
      → BlobStore × Result StoreError (List Version)
  unfolding get_meta put_over
  put env key bytes version parents content_type s =
      put_over env (metadata_of key bytes version parents content_type) bytes (get_meta env key s) s

  abbrev pub deletion : Text → Option BlobMetadata → StoreEvent
  deletion key none = delete_event key [] none
  deletion key (some meta) = delete_event key meta.version meta.content_type

  -- The file and the event, once the row is gone.
  unfoldable pub remove_blob :
      Env → Text → Option BlobMetadata → BlobStore → BlobStore × Result StoreError (Unit {0})
  unfolding get_file_path lookup remove
  remove_blob env key current s =
      let told = s.events ++ (deletion key current ∷ []) in
      if env.fails test_file
      then (s, err (failed test_file))
      else if is_some (lookup (get_file_path key) s.files)
      then (if env.fails remove_file
          then (s, err (failed remove_file))
          else (record s { files = remove (get_file_path key) s.files; events = told }, ok tt))
      else (record s { events = told }, ok tt)

  unfoldable pub delete_from :
      Env
      → Text
      → Result StoreError (Option BlobMetadata)
      → BlobStore
      → BlobStore × Result StoreError (Unit {0})
  unfolding remove_blob remove
  delete_from env key (err e) s = (s, err e)
  delete_from env key (ok current) s =
      if env.fails delete_meta
      then (s, err (failed delete_meta))
      else remove_blob env key current (record s { meta = remove key s.meta })

  unfoldable pub delete : Env → Text → BlobStore → BlobStore × Result StoreError (Unit {0})
  unfolding get_meta delete_from
  delete env key s = delete_from env key (get_meta env key s) s

  -- The methods of the trait `BraidStorage`, whose metadata are texts.
  abbrev unit_of :
      BlobStore × Result StoreError (List Version) → BlobStore × Result StoreError (Unit {0})
  unit_of (s, err e) = (s, err e)
  unit_of (s, ok _) = (s, ok tt)

  pub storage_put : Env → Text → Bytes → Text → BlobStore → BlobStore × Result StoreError (Unit {0})
  unfolding put
  storage_put env key bytes text s = elim (l.parse text) [
    | none ↦ (s, err unreadable_meta)
    | some meta ↦ unit_of (put env key bytes meta.version meta.parents meta.content_type s)
  ]

  pub storage_get : Env → Text → BlobStore → Result StoreError (Option (Bytes × Text))
  unfolding get
  storage_get env key s = elim (get env key s) [
    | err e ↦ err e
    | ok none ↦ ok none
    | ok (some (bytes, meta)) ↦ ok (some (bytes, l.print meta))
  ]

pub list_keys : Env → BlobStore → Result StoreError (List Text)
list_keys env s = if env.fails query_meta then err (failed query_meta) else ok (keys s.meta)
