-- ===== src/Protocol/Headers/Examples.antt =====
-- Instances of the theorems about the header values (core/src/core/protocol/headers.rs).
use braid_rs.Prelude.{
  List, Text, [], false, if◌then◌else◌, map, none, ok, refl, returned, some, true, ◌∷◌, ◌≡◌,
}
use braid_rs.Prelude.Strings.{str_eq}
use braid_rs.Prelude.Int.{ℤ}
use braid_rs.Prelude.Chars.{codes}
use braid_rs.Types.Version.{Version}
use braid_rs.Protocol.Headers.{
  BareItem, Sfv, format_version_header, integer_item, item, parse_version_header, string_item,
  version_items,
}
use braid_rs.Protocol.Headers.Versions.{parse_version_header-format_version_header}

-- `sfv` on one list of two versions.
abbrev pub two_versions : List Version
two_versions = Version.string (codes "v 1") ∷ Version.integer (ℤ.pos 2) ∷ []

abbrev pub two_items : List BareItem
two_items = string_item (codes "v 1") ∷ integer_item (ℤ.pos 2) ∷ []

abbrev pub two_values : Text
two_values = codes "\"v 1\", 2"

abbrev pub small_sfv : Sfv
small_sfv = record {
  is_token = λ text. false;
  is_string = λ text. true;
  is_integer = λ i. true;
  parse = λ text. if str_eq text two_values then some (map item two_items) else none;
  serialize = λ items. some two_values;
}

parse_version_header-format_version_header_example :
    (format_version_header small_sfv two_versions ≡ returned two_values)
    × (parse_version_header small_sfv two_values ≡ ok two_versions)
unfolding str_eq version_items
parse_version_header-format_version_header_example =
    parse_version_header-format_version_header small_sfv two_versions two_values (refl, (refl, tt))
      refl refl
