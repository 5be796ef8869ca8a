-- ===== src/Blob/Store/Codec.antt =====
-- A printer and a parser of metadata, with which the tests of the blob store
-- (core/src/blob/store.rs) stand for `serde_json`: numbers, and texts behind their length.
use braid_rs.Prelude.{
  List, Option, Text, [], arith, drop, drop-length-append, if◌then◌else◌, leb, length, none, refl,
  some, suc, take, take-length-append, zero, ℕ, ◌&&◌, ◌++◌, ◌==◌, ◌||◌, ◌∷◌, ◌≡◌,
}
use braid_rs.Prelude.Int.{ℤ}
use braid_rs.Types.Version.{Version}
use braid_rs.Blob.Store.{BlobMetadata, Libraries, ReadsBack}

abbrev Reader : Type 0 → Type 0
Reader A = Text → Option (A × Text)

infixl 5 ◌>>=◌
abbrev ◌>>=◌ : {A B : Type 0} → Reader A → (A → Reader B) → Reader B
◌>>=◌ r f text = elim (r text) [ none ↦ none | some (a, rest) ↦ f a rest ]

abbrev give : {A : Type 0} → A → Reader A
give a text = some (a, text)

read_number : Reader ℕ
read_number [] = none
read_number (n ∷ rest) = some (n, rest)

read_text : Reader Text
read_text [] = none
read_text (n ∷ rest) = some (take n rest, drop n rest)

write_text : Text → Text → Text
write_text t rest = length t ∷ (t ++ rest)

write_version : Version → Text → Text
unfolding write_text
write_version (Version.string s) rest = 0 ∷ write_text s rest
write_version (Version.integer (ℤ.pos n)) rest = 1 ∷ n ∷ rest
write_version (Version.integer (ℤ.negsuc n)) rest = 2 ∷ n ∷ rest

version_kind : ℕ → Reader Version
unfolding read_text read_number
version_kind k =
    if k == 0
    then read_text >>= (λ s. give (Version.string s))
    else if k == 1
    then read_number >>= (λ n. give (Version.integer (ℤ.pos n)))
    else read_number >>= (λ n. give (Version.integer (ℤ.negsuc n)))

read_version : Reader Version
unfolding version_kind read_number
read_version = read_number >>= version_kind

write_items : List Version → Text → Text
unfolding write_version
write_items [] rest = rest
write_items (v ∷ vs) rest = write_version v (write_items vs rest)

read_items : ℕ → Reader (List Version)
unfolding read_version
read_items zero = give []
read_items (suc n) = read_version >>= (λ v. read_items n >>= (λ vs. give (v ∷ vs)))

write_versions : List Version → Text → Text
unfolding write_items
write_versions vs rest = length vs ∷ write_items vs rest

read_versions : Reader (List Version)
unfolding read_items read_number
read_versions = read_number >>= read_items

write_option : Option Text → Text → Text
unfolding write_text
write_option none rest = 0 ∷ rest
write_option (some t) rest = 1 ∷ write_text t rest

read_option : Reader (Option Text)
unfolding read_text read_number
read_option =
    read_number >>= (λ k. if k == 0 then give none else read_text >>= (λ t. give (some t)))

write_size : Option ℕ → Text
write_size none = []
write_size (some n) = n ∷ []

read_size : Text → Option ℕ
read_size [] = none
read_size (n ∷ _) = some n

pub print_meta : BlobMetadata → Text
unfolding write_text write_versions write_option write_size
print_meta m = write_text m.key (
    write_versions m.version (
      write_option m.content_type
        (write_versions m.parents (write_option m.content_hash (write_size m.size)))))

read_meta : Reader BlobMetadata
unfolding read_text read_versions read_option read_size
read_meta = read_text >>= (λ key. read_versions >>= (λ version. read_option >>= (λ content_type.
    read_versions >>= (λ parents. read_option >>= (λ hash. λ rest. some (
      record {
        key = key;
        version = version;
        content_type = content_type;
        parents = parents;
        content_hash = hash;
        size = read_size rest;
      },
      [],
    ))))))

pub parse_meta : Text → Option BlobMetadata
unfolding read_meta
parse_meta text = elim (read_meta text) [ none ↦ none | some (m, _) ↦ some m ]

read-write_text : (t rest : Text) → read_text (write_text t rest) ≡ some (t, rest)
unfolding read_text write_text
read-write_text t rest = ground (arith, take-length-append t rest, drop-length-append t rest)

read-write_version :
    (v : Version) (rest : Text) → read_version (write_version v rest) ≡ some (v, rest)
unfolding read_version write_version
read-write_version (Version.string s) rest = ground (arith, read-write_text s rest)
read-write_version (Version.integer (ℤ.pos n)) rest = refl
read-write_version (Version.integer (ℤ.negsuc n)) rest = refl

read-write_items :
    (vs : List Version) (rest : Text)
    → read_items (length vs) (write_items vs rest) ≡ some (vs, rest)
unfolding read_items write_items
read-write_items [] rest = refl
read-write_items (v ∷ vs) rest =
    ground (arith, read-write_version v (write_items vs rest), read-write_items vs rest)

read-write_versions :
    (vs : List Version) (rest : Text) → read_versions (write_versions vs rest) ≡ some (vs, rest)
unfolding read_versions write_versions read_number
read-write_versions vs rest = read-write_items vs rest

read-write_option :
    (o : Option Text) (rest : Text) → read_option (write_option o rest) ≡ some (o, rest)
unfolding read_option write_option
read-write_option none rest = refl
read-write_option (some t) rest = ground (arith, read-write_text t rest)

read-write_size : (o : Option ℕ) → read_size (write_size o) ≡ o
unfolding read_size write_size
read-write_size none = refl
read-write_size (some n) = refl

parse_meta-print_meta : (m : BlobMetadata) → parse_meta (print_meta m) ≡ some m
unfolding parse_meta print_meta
parse_meta-print_meta m =
    let hash = write_option m.content_hash (write_size m.size) in
    let parents = write_versions m.parents hash in
    let kind = write_option m.content_type parents in
    let version = write_versions m.version kind in
    ground (
      arith,
      read-write_text m.key version,
      read-write_versions m.version kind,
      read-write_option m.content_type parents,
      read-write_versions m.parents hash,
      read-write_option m.content_hash (write_size m.size),
      read-write_size m.size,
    )

-- ASCII letters, and a digest that is the data themselves.
abbrev pub plain_libraries : Libraries
plain_libraries = record {
  letters = record {
    is_alphabetic = λ c. leb b'A' c && leb c b'Z' || leb b'a' c && leb c b'z';
    is_uppercase = λ c. leb b'A' c && leb c b'Z';
  };
  print = print_meta;
  parse = parse_meta;
  sha256 = λ bytes. bytes;
}

pub plain_libraries-ReadsBack : ReadsBack plain_libraries
plain_libraries-ReadsBack = parse_meta-print_meta
