-- ===== src/Protocol/Formatter.antt =====
-- `format_update` (core/src/core/protocol/formatter.rs): an update as the bytes of a message.
use braid_rs.Prelude.{
  List, [], ◌∷◌, ◌++◌, Option, none, some, Text, Bytes, Map, length, Outcome, returned, bind,
}
use braid_rs.Prelude.Chars.{codes}
use braid_rs.Prelude.Decimal.{show}
use braid_rs.Prelude.Utf8.{encode_utf8}
use braid_rs.Types.Version.{Version}
use braid_rs.Types.Patch.{Patch}
use braid_rs.Types.Update.{Update}
use braid_rs.Protocol.Headers.{Sfv, format_version_header}

unfoldable pub write_header : Bytes → Text → Text → Bytes
unfolding encode_utf8
write_header buffer key value =
    buffer ++ (encode_utf8 key ++ (codes ": " ++ (encode_utf8 value ++ codes "\r\n")))

unfoldable pub write_headers : Map Text → Bytes → Bytes
unfolding write_header
write_headers [] buffer = buffer
write_headers ((key, value) ∷ rest) buffer = write_headers rest (write_header buffer key value)

-- An empty list of versions has no header.
unfoldable pub write_versions : Sfv → Text → List Version → Bytes → Outcome Bytes
unfolding write_header format_version_header
write_versions sfv key [] buffer = returned buffer
write_versions sfv key (v ∷ vs) buffer =
    bind (format_version_header sfv (v ∷ vs)) λ value. returned (write_header buffer key value)

unfoldable pub write_optional : Text → Option Text → Bytes → Bytes
unfolding write_header
write_optional key none buffer = buffer
write_optional key (some value) buffer = write_header buffer key value

unfoldable pub format_patch : Bytes → Patch → Bytes
unfolding write_header show
format_patch buffer patch =
    write_header (write_header buffer (codes "content-length") (show (length patch.content)))
      (codes "content-range") (patch.unit ++ (b' ' ∷ patch.range))
    ++ (codes "\r\n" ++ patch.content)

unfoldable pub format_patches : List Patch → Bytes → Bytes
unfolding format_patch
format_patches [] buffer = buffer
format_patches (patch ∷ rest) buffer = format_patches rest (format_patch buffer patch)

-- An update without content says that its body has length zero.
abbrev pub write_empty : Bytes → Bytes
unfolding write_header
write_empty buffer = write_header buffer (codes "content-length") (codes "0") ++ codes "\r\n"

-- The body or, without one, the patches, behind the headers that announce them.
unfoldable pub write_content : Update → Bytes → Bytes
unfolding write_header write_optional format_patches write_empty
write_content u buffer = elim u.body [
  | some body ↦
      write_optional (codes "content-type") u.content_type
        (write_header buffer (codes "content-length") (show (length body)))
      ++ (codes "\r\n" ++ body)
  | none ↦ elim u.patches [
    | none ↦ write_empty buffer
    | some [] ↦ write_empty buffer
    | some (patch ∷ patches) ↦
        format_patches (patch ∷ patches)
          (write_header buffer (codes "patches") (show (length (patch ∷ patches))) ++ codes "\r\n")
  ]
]

unfoldable pub format_update : Sfv → Update → Outcome Bytes
unfolding write_versions write_optional write_headers write_content
format_update sfv u = bind (write_versions sfv (codes "version") u.version []) λ with_version.
    bind (write_versions sfv (codes "parents") u.parents with_version) λ with_parents. returned (
      write_content u (
        write_headers u.extra_headers
          (write_optional (codes "merge-type") u.merge_type with_parents)))
