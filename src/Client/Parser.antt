-- ===== src/Client/Parser.antt =====
-- The rounds of `MessageParser` and its `feed` (core/src/core/client/parser.rs), over the readers of
-- Client/Messages. `feed` loops on fuel; Parser/Ends shows that the fuel it gives is enough. The two
-- regular expressions are parameters.
mod Ends
mod Blocks
mod Bodies
mod Begins
mod Pieces
mod Formatted
mod Examples
use braid_rs.Prelude.{
  ℕ, suc, ◌+◌, ◌-◌, ◌%◌, ◌^◌, ◌≡◌, Bool, true, false, not, ◌&&◌, ◌||◌, List, [], ◌∷◌, ◌++◌, Option,
  none, some, Bytes, Text, ltb, leb, ◌==◌, if◌then◌else◌, length, take, drop, Map, insert, lookup,
  unwrap_or, Result, ok, err, All, ◌<◌, any, get_elem?, str_eq,
}
use braid_rs.Prelude.Decimal.{parse_unsigned, show}
use braid_rs.Prelude.Chars.{codes, split_once, trim, trim_start_matches, to_lowercase, strip_prefix}
use braid_rs.Prelude.Utf8.{from_utf8}
use braid_rs.Prelude.Lines.{lines, split_whitespace, find_end, rfind_end}
use braid_rs.Prelude.Rounds.{Round, goes_on, waits, fails, Fed, loop}
use braid_rs.Types.Patch.{Patch, with_length}
use braid_rs.Client.Messages.{
  LowersAscii, Message, MessageParser, ParseError, ParseState, Parsed, Texts, body_remaining,
  complete, consume, content_length, count_patches, encoding_length, encoding_utf8, error,
  finalize_message, find_double_newline, find_header_end, header_end, headers_utf8, length_header,
  missing_length, new_parser, parsed, parsing_headers, patch_content_length, patch_remaining,
  range_word, read_counts, read_lines, read_patch_length_header, refused, replace_status, reset,
  skip_newlines, skipping_separator, try_parse_body, try_parse_patch_body, usize_add, usize_mod,
  usize_sub, waiting_for_body, waiting_for_headers, waiting_for_patch_body,
  waiting_for_patch_headers,
}

-- A complete message is given out and the parser turns to the next one.
abbrev pub deliver : MessageParser → Round MessageParser ParseError Message
deliver p = goes_on (finalize_message p ∷ []) (record (reset p) { state = waiting_for_headers })

-- `none` if the buffer holds no encoding block.
unfoldable pub encoding_header :
    MessageParser → ℕ → Text × Text → Result ParseError (Option MessageParser)
unfolding show
encoding_header p end (encoding, digits) = elim (parse_unsigned usize_mod digits) [
  | none ↦ err encoding_length
  | some n ↦ ok (
      some (record (consume p end) {
        headers = insert (codes "length") (show n) (insert (codes "encoding") encoding p.headers);
        expected_body_length = n;
        is_encoding_block = true;
      }))
]

abbrev pub starts_with_e : Bytes → Bool
starts_with_e [] = false
starts_with_e (b ∷ _) = b == b'E' || b == b'e'

-- After a round's part, in the state that follows it.
abbrev pub turn : ParseState → Parsed → Round MessageParser ParseError Message
turn s (parsed p) = goes_on [] (record p { state = s })
turn s (refused p e) = fails p e

-- The rounds that need no library.
unfoldable pub body_round : MessageParser → Round MessageParser ParseError Message
unfolding try_parse_body
body_round p =
    if ltb 0 p.expected_patches
    then goes_on [] (record p { state = waiting_for_patch_headers })
    else (let (q, read) = try_parse_body p in if read then deliver q else waits q)

-- A patch is complete: the next one, or the message.
unfoldable pub patch_read : MessageParser → Round MessageParser ParseError Message
patch_read p =
    if ltb p.patches_read p.expected_patches
    then goes_on [] (record p { state = skipping_separator })
    else deliver p

unfoldable pub patch_body_round : MessageParser → Round MessageParser ParseError Message
unfolding try_parse_patch_body patch_read
patch_body_round p =
    let (q, read) = try_parse_patch_body p in
    if read then patch_read (record q { patches_read = usize_add q.patches_read 1 }) else waits q

abbrev pub to_patch_headers : MessageParser → ℕ → Round MessageParser ParseError Message
to_patch_headers p n = goes_on [] (record (consume p n) { state = waiting_for_patch_headers })

-- By the bytes of the buffer.
unfoldable pub separator_round : Bytes → MessageParser → Round MessageParser ParseError Message
separator_round [] p = waits p
separator_round (b ∷ []) p = if b == b'\n' then to_patch_headers p 1 else waits p
separator_round (b ∷ c ∷ _) p =
    if b == b'\r' && c == b'\n'
    then to_patch_headers p 2
    else if b == b'\n'
    then to_patch_headers p 1
    else to_patch_headers p 0

module _ (t : Texts) where
  -- What the text of the header block gives, where it is one.
  unfoldable pub encoding_in :
      MessageParser → ℕ → Option Text → Result ParseError (Option MessageParser)
  unfolding encoding_header
  encoding_in p end none = err encoding_utf8
  encoding_in p end (some text) = elim (t.encoding_block text) [
    | none ↦ ok none
    | some groups ↦ encoding_header p end groups
  ]

  unfoldable pub check_encoding_block : MessageParser → Result ParseError (Option MessageParser)
  unfolding encoding_in find_double_newline from_utf8
  check_encoding_block p =
      if starts_with_e p.buffer
      then elim (find_double_newline p.buffer) [
        | none ↦ ok none
        | some end ↦ encoding_in p end (from_utf8 (take end p.buffer))
      ]
      else ok none

  unfoldable pub headers_in : MessageParser → Option Text → Parsed
  unfolding read_counts read_lines replace_status lines
  headers_in p none = refused p headers_utf8
  headers_in p (some text) = read_counts (record p {
    headers = read_lines t.lowercase (lines (replace_status (t.http_status text) text)) p.headers;
  })

  unfoldable pub parse_headers : MessageParser → ℕ → Parsed
  unfolding headers_in from_utf8
  parse_headers p end = headers_in (consume p end) (from_utf8 (take (end - 4) p.buffer))

  unfoldable pub patch_headers_in : MessageParser → Option Text → Parsed
  unfolding read_patch_length_header read_lines lines
  patch_headers_in p none = refused p headers_utf8
  patch_headers_in p (some text) =
      read_patch_length_header (record p { patch_headers = read_lines t.lowercase (lines text) [] })

  unfoldable pub parse_patch_headers : MessageParser → ℕ → Parsed
  unfolding patch_headers_in from_utf8
  parse_patch_headers p end = patch_headers_in (consume p end) (from_utf8 (take (end - 4) p.buffer))

  unfoldable pub headers_to : MessageParser → Option ℕ → Round MessageParser ParseError Message
  unfolding parse_headers
  headers_to p none = waits p
  headers_to p (some pos) = turn waiting_for_body (parse_headers p pos)

  -- With an encoding block or without one.
  unfoldable pub after_check :
      MessageParser
      → Result ParseError (Option MessageParser)
      → Round MessageParser ParseError Message
  unfolding headers_to find_header_end
  after_check p (err e) = fails p e
  after_check p (ok (some q)) = goes_on [] (record q { state = waiting_for_body })
  after_check p (ok none) = headers_to p (find_header_end p.buffer)

  -- Behind the leading newlines.
  unfoldable pub begin_message : MessageParser → Round MessageParser ParseError Message
  unfolding check_encoding_block after_check
  begin_message p = elim p.buffer [ [] ↦ waits p | _ ∷ _ ↦ after_check p (check_encoding_block p) ]

  unfoldable pub headers_round : MessageParser → Round MessageParser ParseError Message
  unfolding begin_message skip_newlines
  headers_round p = begin_message (skip_newlines p)

  unfoldable pub patch_headers_to :
      MessageParser → Option ℕ → Round MessageParser ParseError Message
  unfolding parse_patch_headers
  patch_headers_to p none = waits p
  patch_headers_to p (some pos) = turn waiting_for_patch_body (parse_patch_headers p pos)

  unfoldable pub patch_headers_round : MessageParser → Round MessageParser ParseError Message
  unfolding find_header_end patch_headers_to
  patch_headers_round p = patch_headers_to p (find_header_end p.buffer)

  unfoldable pub round_in : ParseState → MessageParser → Round MessageParser ParseError Message
  unfolding headers_round body_round patch_headers_round patch_body_round separator_round
  round_in waiting_for_headers p = headers_round p
  round_in waiting_for_body p = body_round p
  round_in waiting_for_patch_headers p = patch_headers_round p
  round_in waiting_for_patch_body p = patch_body_round p
  round_in skipping_separator p = separator_round p.buffer p
  round_in parsing_headers p = waits p
  round_in complete p = waits p
  round_in error p = waits p

  abbrev pub round : MessageParser → Round MessageParser ParseError Message
  round p = round_in p.state p

-- States that a round may leave with no byte read.
abbrev pub rank : ParseState → ℕ
rank skipping_separator = 1
rank waiting_for_body = 1
rank waiting_for_patch_body = 2
rank _ = 0

abbrev pub work : MessageParser → ℕ
work p = length p.buffer + rank p.state

abbrev pub receive : MessageParser → Bytes → MessageParser
receive p bytes = record p { buffer = p.buffer ++ bytes }

unfoldable pub feed : Texts → MessageParser → Bytes → Fed MessageParser ParseError Message
unfolding loop round_in
feed t p bytes = loop (round t) (suc (work (receive p bytes))) (receive p bytes)
