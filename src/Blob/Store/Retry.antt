-- ===== src/Blob/Store/Retry.antt =====
-- Failed calls of `BlobStore::put` (core/src/blob/store.rs), repeated.
use braid_rs.Prelude.Maps.{insert, insert-insert}
use braid_rs.Prelude.{
  Bytes, List, Option, Text, arith, err, ◌≡◌, Bool-cases, inl, inr, none, refl, some, Bool, Result,
  [], ap, false, if◌then◌else◌, ok, sym, true, ◌++◌, ◌∙◌, ◌∷◌, ◌⊎◌,
}
use braid_rs.Types.Version.{Version}
use braid_rs.Blob.Store.{
  BlobMetadata, BlobStore, Env, Libraries, StoreError, calm, metadata_of, torn_write, write_blob,
  get_file_path, put, replace_meta, write_file, written, failed, get_meta, is_stale, put_event,
  put_over, query_meta,
}

module _ (l : Libraries) (env : Env) (key : Text) (bytes : Bytes) (version parents : List Version)
    (content_type : Option Text) (s : BlobStore) where
  abbrev meta : BlobMetadata
  meta = metadata_of l key bytes version parents content_type

  -- A failed write leaves the row and the subscribers alone, and the next one mends the file.
  abbrev Mendable : BlobStore → Type 0
  Mendable t =
      (t.meta ≡ s.meta)
      × (insert (get_file_path l key) bytes t.files ≡ insert (get_file_path l key) bytes s.files)
      × (t.events ≡ s.events)

  torn-Mendable : (o : Option Bytes) → Mendable (torn_write l o (get_file_path l key) s)
  unfolding torn_write
  torn-Mendable none = (refl, refl, refl)
  torn-Mendable (some torn) = (refl, insert-insert (get_file_path l key) bytes torn s.files, refl)

  written-Mendable : Mendable (written l meta bytes s)
  written-Mendable = (refl, insert-insert (get_file_path l key) bytes bytes s.files, refl)

  write_blob-Mendable :
      (e : StoreError)
      → (write_blob l env meta bytes s).1 ≡ err e
      → Mendable (write_blob l env meta bytes s).0
  unfolding write_blob
  write_blob-Mendable e h = go (env.fails write_file) (env.fails replace_meta) h
    where
      outcome : Bool → Bool → BlobStore × Result StoreError (List Version)
      outcome bad worse =
          if bad
          then (torn_write l env.torn (get_file_path l key) s, err (failed write_file))
          else if worse
          then (written l meta bytes s, err (failed replace_meta))
          else (
            record (written l meta bytes s) {
              meta = insert key (l.print meta) s.meta;
              events = s.events ++ (put_event meta bytes ∷ []);
            },
            ok version,
          )

      go : (bad worse : Bool) → (outcome bad worse).1 ≡ err e → Mendable (outcome bad worse).0
      go true worse q = torn-Mendable env.torn
      go false true q = written-Mendable
      go false false q = cc

  -- The stored metadata let the write go on.
  abbrev Fresh : Result StoreError (Option BlobMetadata) → Type 0
  Fresh (err e) = ⊥
  Fresh (ok none) = Unit {0}
  Fresh (ok (some current)) = is_stale l version current ≡ false

  -- A failed call left everything as it was, or it failed in its writing.
  put_over_failed :
      (r : Result StoreError (Option BlobMetadata)) (e : StoreError)
      → (put_over l env meta bytes r s).1 ≡ err e
      → ((put_over l env meta bytes r s).0 ≡ s)
        ⊎ (Fresh r × Mendable (put_over l env meta bytes r s).0)
  unfolding put_over
  put_over_failed (err x) e h = inl refl
  put_over_failed (ok none) e h = inr (tt, write_blob-Mendable e h)
  put_over_failed (ok (some current)) e h = elim (Bool-cases (is_stale l version current)) [
    | inl old ↦ rw old (inl refl)
    | inr new ↦ rw new (inr (refl, write_blob-Mendable e (rw new at h)))
  ]

  write_again :
      (t : BlobStore) → Mendable t → write_blob l calm meta bytes t ≡ write_blob l calm meta bytes s
  unfolding write_blob
  write_again t m = ground arith

  put_over-Fresh :
      (t : BlobStore) (r : Result StoreError (Option BlobMetadata))
      → Fresh r
      → Mendable t
      → put_over l calm meta bytes r t ≡ put_over l calm meta bytes r s
  unfolding put_over
  put_over-Fresh t (err e) f m = absurd f
  put_over-Fresh t (ok none) f m = write_again t m
  put_over-Fresh t (ok (some current)) f m = rw f (write_again t m)

  -- A row that could be read is read again.
  get_meta-calm :
      (t : BlobStore)
      → Fresh (get_meta l env key s)
      → t.meta ≡ s.meta
      → (get_meta l calm key t ≡ get_meta l env key s)
        × (get_meta l calm key s ≡ get_meta l env key s)
  unfolding get_meta
  get_meta-calm t f m = elim (Bool-cases (env.fails query_meta)) [
    | inl bad ↦ ground arith
    | inr good ↦ rw (good, m) (refl, refl)
  ]

  -- A put that failed, wherever it failed and whatever it left in the file, can be repeated: the
  -- repeated call without a failure gives the same store and the same result as a first one.
  pub put_again :
      (e : StoreError)
      → (put l env key bytes version parents content_type s).1 ≡ err e
      → put l calm key bytes version parents content_type
          (put l env key bytes version parents content_type s).0
        ≡ put l calm key bytes version parents content_type s
  unfolding put
  put_again e h = go (put_over_failed (get_meta l env key s) e h)
    where
      t : BlobStore
      t = (put_over l env meta bytes (get_meta l env key s) s).0

      go :
          (t ≡ s) ⊎ (Fresh (get_meta l env key s) × Mendable t)
          → put_over l calm meta bytes (get_meta l calm key t) t
            ≡ put_over l calm meta bytes (get_meta l calm key s) s
      go (inl same) = ap (λ u. put_over l calm meta bytes (get_meta l calm key u) u) same
      go (inr (f, m)) =
          let (there, here) = get_meta-calm t f m.0 in
          ap (λ r. put_over l calm meta bytes r t) there
          ∙ put_over-Fresh t (get_meta l env key s) f m
          ∙ ap (λ r. put_over l calm meta bytes r s) (sym here)
