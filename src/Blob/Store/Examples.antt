-- ===== src/Blob/Store/Examples.antt =====
-- Tests of the blob store (core/src/blob/store.rs) and instances of its theorems.
use Prim.Native.Nat.{Ordering}
use braid_rs.Blob.Versions.{compare_versions}
use braid_rs.Prelude.{List, [], false, lookup, none, ok, refl, some, true, ◌∷◌, ◌≡◌, ◌≢◌}
use braid_rs.Prelude.Chars.{codes}
use braid_rs.Types.Version.{Version}
use braid_rs.Blob.Names.{decode_filename, encode_filename}
use braid_rs.Blob.Names.RoundTrip.{decode_filename-encode_filename}
use braid_rs.Blob.Store.{
  Env, calm, failed, first_version, get, get_meta, new_store, put, write_blob, write_file,
}
use braid_rs.Blob.Store.Kept.{
  Call, IsStored, apply_all, apply_all-IsStored, contents, deleting, putting,
}
use braid_rs.Blob.Store.Refines.{calmly, get-apply_all, spec_apply_all}
use braid_rs.Blob.Store.Codec.{plain_libraries, plain_libraries-ReadsBack}
use braid_rs.Blob.Store.Retry.{put_again}
use braid_rs.Blob.Store.Order.{puts_converge}

new_store-IsStored : IsStored plain_libraries new_store
unfolding lookup
new_store-IsStored j = tt

abbrev seven : List Version
seven = Version.string (codes "ann-7") ∷ []

abbrev ten : List Version
ten = Version.string (codes "bob-10") ∷ []

abbrev first_put : Call
first_put = putting (codes "a/b") (codes "old") seven [] none

abbrev second_put : Call
second_put = putting (codes "a/b") (codes "new") ten seven none

abbrev tearing : Env
tearing = record { fails = λ io. elim io [ write_file ↦ true | _ ↦ false ]; torn = some [] }

apply_all-IsStored_example :
    IsStored plain_libraries
      (apply_all plain_libraries ((calm, first_put) ∷ (tearing, second_put) ∷ []) new_store)
apply_all-IsStored_example =
    apply_all-IsStored plain_libraries plain_libraries-ReadsBack
      ((calm, first_put) ∷ (tearing, second_put) ∷ []) new_store new_store-IsStored

get-apply_all_example :
    get plain_libraries calm (codes "a/b") (
      apply_all plain_libraries
        (calmly (first_put ∷ deleting (codes "c") ∷ second_put ∷ []))
        new_store)
    ≡ ok (
        spec_apply_all plain_libraries
          (first_put ∷ deleting (codes "c") ∷ second_put ∷ [])
          (contents plain_libraries new_store)
          (codes "a/b"))
get-apply_all_example =
    get-apply_all plain_libraries plain_libraries-ReadsBack
      (first_put ∷ deleting (codes "c") ∷ second_put ∷ []) new_store (codes "a/b")
      new_store-IsStored

seven_ten : codes "ann-7" ≢ codes "bob-10"
seven_ten e = cc

puts_converge_example :
    get plain_libraries calm
      (codes "a/b")
      (apply_all plain_libraries (calmly (first_put ∷ second_put ∷ [])) new_store)
    ≡ get plain_libraries calm
        (codes "a/b")
        (apply_all plain_libraries (calmly (second_put ∷ first_put ∷ [])) new_store)
unfolding first_version
puts_converge_example =
    puts_converge plain_libraries (codes "a/b") (codes "old") seven [] none (codes "a/b")
      (codes "new") ten seven none new_store plain_libraries-ReadsBack new_store-IsStored
      (λ e. seven_ten) (codes "a/b")

put_again_example :
    put plain_libraries calm
      (codes "a/b")
      (codes "new")
      ten
      seven
      none
      (put plain_libraries tearing (codes "a/b") (codes "new") ten seven none new_store).0
    ≡ put plain_libraries calm (codes "a/b") (codes "new") ten seven none new_store
unfolding put get_meta write_blob lookup
put_again_example =
    put_again plain_libraries tearing (codes "a/b") (codes "new") ten seven none new_store
      (failed write_file) refl

-- The longer sequence number is the newer one.
bob_is_newer : compare_versions (codes "bob-10") (codes "ann-7") ≡ Ordering.gt
unfolding compare_versions
bob_is_newer = refl

decode_filename-encode_filename_example :
    decode_filename (encode_filename plain_libraries.letters (codes "aux.d/50%!"))
    ≡ codes "aux.d/50%!"
decode_filename-encode_filename_example =
    decode_filename-encode_filename plain_libraries.letters (codes "aux.d/50%!")

name_of_reserved :
    encode_filename plain_libraries.letters (codes "aux.d/50%!") ≡ codes "au%78.d!50%25%2F.0"
unfolding encode_filename
name_of_reserved = refl
