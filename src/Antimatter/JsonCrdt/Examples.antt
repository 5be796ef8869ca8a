-- ===== src/Antimatter/JsonCrdt/Examples.antt =====
-- Documents after the tests of core/src/antimatter/json_crdt.rs, and instances of the theorems.
use braid_rs.Antimatter.JsonCrdt.Syncs.{generate_braid-syncs}
use braid_rs.Antimatter.JsonCrdt.Edits.{add_version-with_content}
use braid_rs.Prelude.Decimal.{show}
use braid_rs.Antimatter.JsonCrdt.Updates.{generate_braid}
use braid_rs.Antimatter.JsonCrdt.{
  JsonCrdt, JsonPatch, add_version, generate_version, get_content, get_frontier, get_length,
  parse_range, version_name, with_content,
}
use braid_rs.Prelude.{◌≡◌, refl, true, [], ◌∷◌, some, Text, returned, List, arith, lookup}
use braid_rs.Prelude.Chars.{codes}
use braid_rs.Prelude.Utf8.{encode_utf8}
use braid_rs.Prelude.Json.{Value}
use braid_rs.Antimatter.Sequence.{len}

-- `test_parse_range`.
parse_range_run :
    (parse_range (codes "5") ≡ (5, 0))
    × (parse_range (codes "5:10") ≡ (5, 5))
    × (parse_range (codes "0:3") ≡ (0, 3))
    × (parse_range (codes "1:2:3") ≡ (0, 0))
unfolding parse_range
parse_range_run = (refl, refl, refl, refl)

-- `test_with_content`.
with_content_run :
    (get_content (with_content (codes "alice") (codes "hello")) ≡ codes "hello")
    × (get_length (with_content (codes "alice") (codes "hello")) ≡ 5)
unfolding with_content get_content get_length
with_content_run = (refl, refl)

abbrev print_null : Value → Text
print_null v = codes "null"

abbrev greeting : JsonCrdt
unfolding with_content generate_version
greeting = (generate_version (with_content (codes "alice") (codes "hello"))).0

add_version-with_content_example :
    (c' : JsonCrdt) × (add_version print_null greeting
        (codes "1@alice")
        greeting.current_version
        (record { range = codes "5"; content = Value.string (codes " world") } ∷ [])
      ≡ returned (c', []))
    × (get_content c' ≡ codes "hello world")
    × (get_frontier c' ≡ codes "1@alice" ∷ [])
    × (lookup (codes "1@alice") c'.t ≡ some ((codes "0@alice", true) ∷ []))
unfolding generate_version version_name with_content show
add_version-with_content_example =
    add_version-with_content print_null (codes "alice") (codes "hello") (codes " world") 5
      (omega arith) (omega arith)

-- The document of alice at bob, as she made it.
abbrev at_bob : JsonCrdt
unfolding with_content
at_bob = record (with_content (codes "alice") (codes "hello")) { next_seq = 0; id = codes "bob" }

generate_braid-syncs_example :
    (c' : JsonCrdt) × (sent : List JsonPatch) × (add_version print_null greeting
        (codes "1@alice")
        greeting.current_version
        (record { range = codes "2"; content = Value.string (codes "y he") } ∷ [])
      ≡ returned (c', []))
    × (generate_braid c' at_bob.current_version
        ≡ some ((codes "1@alice", (greeting.current_version, sent)) ∷ []))
    × (add_version print_null at_bob (codes "1@alice") greeting.current_version sent
        ≡ returned (record c' { next_seq = 0; id = codes "bob" }, []))
unfolding generate_version version_name with_content show len encode_utf8
generate_braid-syncs_example =
    generate_braid-syncs print_null (codes "alice") (codes "hello") (codes "y he") 2 0 (codes "bob")
      (omega arith) (omega arith) refl
