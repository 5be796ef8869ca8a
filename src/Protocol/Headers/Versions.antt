-- ===== src/Protocol/Headers/Versions.antt =====
-- The version headers (core/src/core/protocol/headers.rs), printed and read again.
use braid_rs.Prelude.{
  All, Bool-cases, List, Text, arith, if◌then◌else◌, inl, inr, map, ok, refl, returned, some, true,
  unwrap_or, ◌∷◌, ◌≡◌, [], ◌||◌,
}
use braid_rs.Types.Version.{Version}
use braid_rs.Protocol.Headers.{
  BareItem, Sfv, format_version_header, integer_item, item, parse_version_header, read_entries,
  read_entry, string_item, token_item, version_items, version_to_item,
}

-- Texts that are tokens or structured strings, and integers in the range of structured fields.
abbrev pub IsPrintable : Sfv → Version → Type 0
IsPrintable sfv (Version.string s) = (sfv.is_token s || sfv.is_string s) ≡ true
IsPrintable sfv (Version.integer i) = sfv.is_integer i ≡ true

-- The item that a printable version becomes.
abbrev pub item_of : Sfv → Version → BareItem
item_of sfv (Version.string s) = if sfv.is_token s then token_item s else string_item s
item_of sfv (Version.integer i) = integer_item i

version_to_item_lem :
    (sfv : Sfv) (v : Version) → IsPrintable sfv v → version_to_item sfv v ≡ returned (item_of sfv v)
unfolding version_to_item
version_to_item_lem sfv (Version.string s) h = ground arith
version_to_item_lem sfv (Version.integer i) h = ground arith

read_entry-item_of : (sfv : Sfv) (v : Version) → read_entry (item (item_of sfv v)) ≡ ok v
unfolding read_entry
read_entry-item_of sfv (Version.string s) = elim (Bool-cases (sfv.is_token s)) [
  | inl e ↦ rw e refl
  | inr e ↦ rw e refl
]
read_entry-item_of sfv (Version.integer i) = refl

version_items_lem :
    (sfv : Sfv) (vs : List Version)
    → All (IsPrintable sfv) vs
    → version_items sfv vs ≡ returned (map (item_of sfv) vs)
unfolding version_items
version_items_lem sfv [] h = refl
version_items_lem sfv (v ∷ vs) h =
    rw (version_to_item_lem sfv v h.0, version_items_lem sfv vs h.1) refl

read_entries-items :
    (sfv : Sfv) (vs : List Version) → read_entries (map item (map (item_of sfv) vs)) ≡ ok vs
unfolding read_entries
read_entries-items sfv [] = refl
read_entries-items sfv (v ∷ vs) = rw (read_entry-item_of sfv v, read_entries-items sfv vs) refl

format_version_header_lem :
    (sfv : Sfv) (vs : List Version) (value : Text)
    → All (IsPrintable sfv) vs
    → sfv.serialize (map (item_of sfv) vs) ≡ some value
    → format_version_header sfv vs ≡ returned value
unfolding format_version_header
format_version_header_lem sfv vs value h printed = rw (version_items_lem sfv vs h, printed) refl

-- Printable versions do not panic, whether or not the crate prints the list of their items.
pub format_version_header-returns :
    (sfv : Sfv) (vs : List Version)
    → All (IsPrintable sfv) vs
    → format_version_header sfv vs ≡ returned (unwrap_or (sfv.serialize (map (item_of sfv) vs)) [])
unfolding format_version_header
format_version_header-returns sfv vs h = rw (version_items_lem sfv vs h)

-- Versions that are tokens, structured strings or structured integers are printed without a panic
-- and are read back from their header in their order, a token as the text that it was, if `sfv`
-- reads the list of their items back from what it prints for them.
pub parse_version_header-format_version_header :
    (sfv : Sfv) (vs : List Version) (value : Text)
    → All (IsPrintable sfv) vs
    → sfv.serialize (map (item_of sfv) vs) ≡ some value
    → sfv.parse value ≡ some (map item (map (item_of sfv) vs))
    → (format_version_header sfv vs ≡ returned value) × (parse_version_header sfv value ≡ ok vs)
unfolding parse_version_header
parse_version_header-format_version_header sfv vs value h printed parsed = (
  format_version_header_lem sfv vs value h printed,
  rw (parsed, parse_version_header) (read_entries-items sfv vs),
)
