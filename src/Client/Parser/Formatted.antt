-- ===== src/Client/Parser/Formatted.antt =====
-- Updates that `format_update` prints (core/src/core/protocol/formatter.rs), read by
-- `MessageParser::feed` (core/src/core/client/parser.rs).
use braid_rs.Prelude.Rounds.{fed}
use braid_rs.Client.Messages.{Texts, header_end, new_parser}
use braid_rs.Client.Parser.{feed}
use braid_rs.Client.Parser.Bodies.{message_of}
use braid_rs.Client.Parser.Begins.{Announces, IsFaithful, IsQuiet}
use braid_rs.Client.Parser.Pieces.{feed_whole}
use mathlib.Core.List.{append_assoc}
use braid_rs.Prelude.{
  All, All-imp, Bytes, List, Map, Option, Text, [], ap, arith, length, map, unwrap_or, none, refl,
  returned, some, ℕ, ◌++◌, ◌<◌, ◌∙◌, ◌∷◌, ◌≡◌,
}
use braid_rs.Prelude.Utf8.{encode_utf8}
use braid_rs.Prelude.Decimal.{show}
use braid_rs.Prelude.Chars.{codes}
use braid_rs.Types.Update.{Update}
use braid_rs.Types.Version.{Version}
use braid_rs.Protocol.Headers.{Sfv}
use braid_rs.Protocol.Headers.Versions.{IsPrintable, item_of, format_version_header-returns}
use braid_rs.Protocol.Formatter.{
  format_update, write_content, write_header, write_headers, write_optional, write_versions,
}
use braid_rs.Client.Parser.Blocks.{IsHeader, block_text, header_text, insert_all}

write_headers-append :
    (xs ys : Map Text) (buffer : Bytes)
    → write_headers (xs ++ ys) buffer ≡ write_headers ys (write_headers xs buffer)
unfolding write_headers
write_headers-append [] ys buffer = refl
write_headers-append ((key, value) ∷ xs) ys buffer =
    write_headers-append xs ys (write_header buffer key value)

abbrev pub optional_header : Text → Option Text → Map Text
optional_header key none = []
optional_header key (some value) = (key, value) ∷ []

write_optional_lem :
    (key : Text) (value : Option Text) (buffer : Bytes)
    → write_optional key value buffer ≡ write_headers (optional_header key value) buffer
unfolding write_optional write_headers
write_optional_lem key none buffer = refl
write_optional_lem key (some value) buffer = refl

-- The header value of a list of versions that are tokens, structured strings or structured integers;
-- an empty list has none. The value is what `sfv` prints for their items.
abbrev pub Formats : Sfv → List Version → Option Text → Type 0
Formats sfv [] none = Unit {0}
Formats sfv [] (some _) = ⊥
Formats sfv (v ∷ vs) none = ⊥
Formats sfv (v ∷ vs) (some value) =
    All (IsPrintable sfv) (v ∷ vs)
    × (unwrap_or (sfv.serialize (map (item_of sfv) (v ∷ vs))) [] ≡ value)

write_versions_lem :
    (sfv : Sfv) (key : Text) (vs : List Version) (value : Option Text) (buffer : Bytes)
    → Formats sfv vs value
    → write_versions sfv key vs buffer ≡ returned (write_headers (optional_header key value) buffer)
unfolding write_versions write_headers
write_versions_lem sfv key [] none buffer h = refl
write_versions_lem sfv key [] (some value) buffer h = absurd h
write_versions_lem sfv key (v ∷ vs) none buffer h = absurd h
write_versions_lem sfv key (v ∷ vs) (some value) buffer h =
    rw (format_version_header-returns sfv (v ∷ vs) h.0, h.1) refl

-- The headers behind the version of an update with a body, in the order of the wire.
abbrev pub later_headers : Option Text → Update → ℕ → Map Text
later_headers parents u n =
    optional_header (codes "parents") parents
    ++ (optional_header (codes "merge-type") u.merge_type
        ++ (u.extra_headers
            ++ ((codes "content-length", show n)
                ∷ optional_header (codes "content-type") u.content_type)))

encode_utf8_ascii : (text : Text) → All (λ c. c < 128) text → encode_utf8 text ≡ text
unfolding encode_utf8
encode_utf8_ascii [] h = refl
encode_utf8_ascii (c ∷ text) h = ground (arith, encode_utf8_ascii text h.1)

write_header_lem :
    (buffer : Bytes) (h : Text × Text)
    → IsHeader h
    → write_header buffer h.0 h.1 ≡ buffer ++ (header_text h ++ codes "\r\n")
unfolding write_header
write_header_lem buffer (key, value) (k, v) =
    rw
      (
        encode_utf8_ascii key (All-imp (λ c q. omega arith) key k),
        encode_utf8_ascii value (All-imp (λ c q. omega arith) value v.0),
        append_assoc key (codes ":" ++ (b' ' ∷ value)) (codes "\r\n"),
      )
      refl

-- The printed headers are the block and the end of its last line.
write_headers-block_text :
    (h : Text × Text) (hs : Map Text) (buffer : Bytes)
    → All IsHeader (h ∷ hs)
    → write_headers (h ∷ hs) buffer ≡ buffer ++ (block_text h hs ++ codes "\r\n")
unfolding write_headers block_text
write_headers-block_text (key, value) [] buffer good = write_header_lem buffer (key, value) good.0
write_headers-block_text (key, value) (next ∷ later) buffer good =
    write_headers-block_text next later (write_header buffer key value) good.1
    ∙ ap (λ b. b ++ (block_text next later ++ codes "\r\n"))
        (write_header_lem buffer (key, value) good.0)
    ∙ simp (append_assoc)

module _ (sfv : Sfv) (u : Update) (version : Text) (parents : Option Text) (body : Bytes)
    (one_body : u.body ≡ some body) (versioned : Formats sfv u.version (some version))
    (descends : Formats sfv u.parents parents) where
  abbrev all_headers : Map Text
  all_headers = (codes "version", version) ∷ later_headers parents u (length body)

  abbrev sized_headers : Map Text
  sized_headers =
      (codes "content-length", show (length body))
      ∷ optional_header (codes "content-type") u.content_type

  write_content_lem :
      (buffer : Bytes)
      → write_content u buffer ≡ write_headers sized_headers buffer ++ (codes "\r\n" ++ body)
  unfolding write_content write_headers
  write_content_lem buffer =
      rw (one_body, write_content)
        (ap (λ b. b ++ (codes "\r\n" ++ body))
          (write_optional_lem (codes "content-type") u.content_type
            (write_header buffer (codes "content-length") (show (length body)))))

  later_headers_lem :
      (buffer : Bytes)
      → write_headers sized_headers (
          write_headers u.extra_headers (
            write_optional
              (codes "merge-type")
              u.merge_type
              (write_headers (optional_header (codes "parents") parents) buffer)))
        ≡ write_headers (later_headers parents u (length body)) buffer
  later_headers_lem buffer =
      rw
        (
          write_optional_lem (codes "merge-type") u.merge_type
              (write_headers (optional_header (codes "parents") parents) buffer),
          write_headers-append (optional_header (codes "parents") parents)
              (optional_header (codes "merge-type") u.merge_type
                ++ (u.extra_headers ++ sized_headers))
              buffer,
          write_headers-append (optional_header (codes "merge-type") u.merge_type)
              (u.extra_headers ++ sized_headers)
              (write_headers (optional_header (codes "parents") parents) buffer),
          write_headers-append u.extra_headers sized_headers (
              write_headers (optional_header (codes "merge-type") u.merge_type)
                (write_headers (optional_header (codes "parents") parents) buffer)),
        )
        refl

  abbrev with_version : Bytes
  with_version = write_headers (optional_header (codes "version") (some version)) []

  format_update_headers :
      format_update sfv u ≡ returned (write_headers all_headers [] ++ (codes "\r\n" ++ body))
  unfolding format_update write_headers
  format_update_headers =
      rw
        (
          write_versions_lem sfv (codes "version") u.version (some version) [] versioned,
          write_versions_lem sfv (codes "parents") u.parents parents with_version descends,
        )
        (ap returned (
          write_content_lem _
          ∙ ap (λ b. b ++ (codes "\r\n" ++ body)) (later_headers_lem with_version)))

  -- An update has at least one version, any parents and a body. Every version and parent is a token, a
  -- structured string or a structured integer by the tests of the crate `sfv`. All the headers that the
  -- update has, in the order of the wire, have names of printable ASCII without a space, an upper-case
  -- letter or a colon, and trimmed values of printable ASCII, the printed versions and parents among
  -- them; none is called "patches", and the length that they give is that of the body, below 2^64. The
  -- body neither holds `\r\n\r\n` nor begins with `\r\n`. The lower case of Unicode is that of ASCII on
  -- ASCII, and only a text that begins with "HTTP" is a status line. Then the update is formatted
  -- without a panic, and a new parser that is fed the bytes in one piece gives out one message, with
  -- the same body and with every header: the versions, the parents, the merge type, the further
  -- headers, the length of the body and the content type, of those with one name the last.
  pub feed-format_update :
      (t : Texts)
      → IsFaithful t
      → Announces (codes "version", version) (later_headers parents u (length body)) (length body)
      → IsQuiet body
      → (bytes : Bytes) × (format_update sfv u ≡ returned bytes)
        × (feed t new_parser bytes
            ≡ fed new_parser (message_of (insert_all all_headers []) body ∷ []))
  feed-format_update t faithful announced quiet =
      let h : Text × Text = (codes "version", version) in
      let hs = later_headers parents u (length body) in
      (
        block_text h hs ++ (header_end ++ body),
        format_update_headers
            ∙ ap (λ b. returned (b ++ (codes "\r\n" ++ body)))
                (write_headers-block_text h hs [] announced.good)
            ∙ ap returned (append_assoc (block_text h hs) (codes "\r\n") (codes "\r\n" ++ body)),
        feed_whole t h hs (length body) faithful announced body refl quiet,
      )
