-- ===== src/Protocol/Headers.antt =====
-- The header values of the protocol (core/src/core/protocol/headers.rs) and the constants that they
-- use (core/src/core/protocol/constants.rs). Structured fields are printed and read by the crate
-- `sfv`, which is a parameter.
pub mod Versions
mod Heartbeat
pub mod Examples
use braid_rs.Prelude.{
  ℕ, ◌+◌, ◌/◌, ◌^◌, Bool, true, false, ◌||◌, List, [], ◌∷◌, ◌++◌, Option, none, some, Text, Bytes,
  Map, insert, lookup, length, unwrap_or, if◌then◌else◌, Result, ok, err, Outcome, returned,
  panicked, bind, str_eq, map,
}
use mathlib.Core.List.{reverse}
use braid_rs.Prelude.Int.{ℤ}
use braid_rs.Prelude.Chars.{codes, split_once, strip_prefix, trim}
use braid_rs.Prelude.Decimal.{parse_unsigned}
use braid_rs.Prelude.Lines.{lines}
use braid_rs.Prelude.Utf8.{from_utf8_lossy, encode_utf8}
use braid_rs.Types.Version.{Version}

pub data BareItem : Type 0 where
  string_item token_item : Text → BareItem
  integer_item : ℤ → BareItem
  other_item : BareItem

pub data ListEntry : Type 0 where
  item : BareItem → ListEntry
  inner_list : ListEntry

-- The crate `sfv`: which values it takes, its parser and its printer of lists.
pub record Sfv : Type 0 where
  pub is_token : Text → Bool
  pub is_string : Text → Bool
  pub is_integer : ℤ → Bool
  pub parse : Text → Option (List ListEntry)
  pub serialize : List BareItem → Option Text

-- `HeaderParse` errors by their places, with the refused value.
pub data HeaderError : Type 0 where
  invalid_field unsupported_item inner_lists : HeaderError
  invalid_range invalid_heartbeat unsupported_merge_type : Text → HeaderError
  incomplete_headers : HeaderError

unfoldable pub read_entry : ListEntry → Result HeaderError Version
read_entry (item (string_item s)) = ok (Version.string s)
read_entry (item (integer_item i)) = ok (Version.integer i)
read_entry (item (token_item s)) = ok (Version.string s)
read_entry (item other_item) = err unsupported_item
read_entry inner_list = err inner_lists

abbrev pub push_version :
    Result HeaderError Version
    → Result HeaderError (List Version)
    → Result HeaderError (List Version)
push_version (err e) rest = err e
push_version (ok v) (err e) = err e
push_version (ok v) (ok vs) = ok (v ∷ vs)

-- The loop over the entries stops at the first error.
unfoldable pub read_entries : List ListEntry → Result HeaderError (List Version)
unfolding read_entry
read_entries [] = ok []
read_entries (entry ∷ entries) = push_version (read_entry entry) (read_entries entries)

-- A text is a token where it can be one; a text that is no structured string panics.
unfoldable pub text_to_item : Sfv → Text → Outcome BareItem
text_to_item sfv s =
    if sfv.is_token s
    then returned (token_item s)
    else if sfv.is_string s
    then returned (string_item s)
    else panicked

unfoldable pub version_to_item : Sfv → Version → Outcome BareItem
unfolding text_to_item
version_to_item sfv (Version.string s) = text_to_item sfv s
version_to_item sfv (Version.integer i) =
    if sfv.is_integer i then returned (integer_item i) else panicked

unfoldable pub version_items : Sfv → List Version → Outcome (List BareItem)
unfolding version_to_item
version_items sfv [] = returned []
version_items sfv (v ∷ vs) =
    bind (version_to_item sfv v) λ i. bind (version_items sfv vs) λ is. returned (i ∷ is)

-- A list that cannot be printed, such as the empty one, is the empty text.
unfoldable pub format_version_header : Sfv → List Version → Outcome Text
unfolding version_items
format_version_header sfv versions =
    bind (version_items sfv versions) λ items. returned (unwrap_or (sfv.serialize items) [])

unfoldable pub parse_version_header : Sfv → Text → Result HeaderError (List Version)
unfolding read_entries
parse_version_header sfv value = elim (sfv.parse value) [
  | none ↦ err invalid_field
  | some entries ↦ read_entries entries
]

pub parse_current_version_header : Sfv → Text → Result HeaderError (List Version)
unfolding parse_version_header
parse_current_version_header = parse_version_header

unfoldable pub parse_content_range : Text → Result HeaderError (Text × Text)
unfolding split_once
parse_content_range value = elim (split_once (codes " ") value) [
  | none ↦ err (invalid_range value)
  | some parts ↦ ok parts
]

unfoldable pub format_content_range : Text → Text → Text
format_content_range unit range = unit ++ (b' ' ∷ range)

-- `str::strip_suffix`.
unfoldable pub strip_suffix : Text → Text → Option Text
unfolding strip_prefix
strip_suffix suffix text = elim (strip_prefix (reverse suffix) (reverse text)) [
  | none ↦ none
  | some rest ↦ some (reverse rest)
]

abbrev or_invalid : Text → Option ℕ → Result HeaderError ℕ
or_invalid value none = err (invalid_heartbeat value)
or_invalid value (some n) = ok n

-- Seconds as a `u64`; milliseconds are rounded down.
unfoldable pub parse_heartbeat : Text → Result HeaderError ℕ
unfolding strip_suffix trim
parse_heartbeat value = elim (strip_suffix (codes "ms") (trim value)) [
  | some digits ↦
      or_invalid value
        (elim (parse_unsigned (2 ^ 64) digits) [ none ↦ none | some n ↦ some (n / 1000) ])
  | none ↦ elim (strip_suffix (codes "s") (trim value)) [
    | some digits ↦ or_invalid value (parse_unsigned (2 ^ 64) digits)
    | none ↦ or_invalid value (parse_unsigned (2 ^ 64) (trim value))
  ]
]

abbrev pub sync9 : Text
sync9 = codes "sync9"

abbrev pub diamond : Text
diamond = codes "diamond"

unfoldable pub parse_merge_type : Text → Result HeaderError Text
unfolding trim
parse_merge_type value =
    if str_eq (trim value) sync9 || str_eq (trim value) diamond
    then ok (trim value)
    else err (unsupported_merge_type value)

-- One line of a tunneled response; `lowercase` is that of Unicode. An empty line has no colon.
unfoldable pub tunneled_line : (Text → Text) → Text → ℕ × Map Text → ℕ × Map Text
unfolding strip_prefix split_once trim
tunneled_line lowercase line (status, headers) = elim (strip_prefix (codes ":status:") line) [
  | some value ↦ (unwrap_or (parse_unsigned (2 ^ 16) (trim value)) 200, headers)
  | none ↦ elim (split_once (codes ":") line) [
    | none ↦ (status, headers)
    | some (name, value) ↦ (status, insert (lowercase (trim name)) (trim value) headers)
  ]
]

unfoldable pub tunneled_lines : (Text → Text) → List Text → ℕ × Map Text → ℕ × Map Text
unfolding tunneled_line trim
tunneled_lines lowercase [] so_far = so_far
tunneled_lines lowercase (line ∷ rest) so_far =
    tunneled_lines lowercase rest (tunneled_line lowercase (trim line) so_far)

-- The last number is the place behind the headers in the bytes of the text that the input is read
-- as, where an ill-formed part takes three bytes.
unfoldable pub parse_tunneled_response :
    (Text → Text) → Bytes → Result HeaderError (ℕ × Map Text × ℕ)
unfolding tunneled_lines lines split_once from_utf8_lossy encode_utf8
parse_tunneled_response lowercase bytes =
    elim (split_once (codes "\r\n\r\n") (from_utf8_lossy bytes)) [
      | none ↦ err incomplete_headers
      | some (before, _) ↦
          let (status, headers) = tunneled_lines lowercase (lines before) (200, []) in
          ok (status, headers, length (encode_utf8 before) + 4)
    ]
