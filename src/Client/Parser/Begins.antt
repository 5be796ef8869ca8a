-- ===== src/Client/Parser/Begins.antt =====
-- A header block through `MessageParser::feed` (core/src/core/client/parser.rs).
use braid_rs.Prelude.{
  All, Bytes, Map, Text, [], ap, arith, drop, length, lookup, none, ok, some, suc, take,
  take-length-append, ℕ, ◌++◌, ◌+◌, ◌-◌, ◌<◌, ◌^◌, ◌∙◌, ◌∷◌, ◌≡◌, ◌≢◌, ◌⊎◌, subst, sym,
}
use braid_rs.Prelude.Utf8.{from_utf8, from_utf8_ascii}
use braid_rs.Prelude.Decimal.{parse_unsigned-show, show}
use braid_rs.Prelude.Lines.{lines, rfind_end}
use braid_rs.Prelude.Chars.{codes, strip_prefix, trim_start_matches}
use braid_rs.Prelude.Rounds.{Fed, failed, fed, goes_on, out_of_fuel, prepend}
use braid_rs.Client.Messages.{
  LowersAscii, Message, MessageParser, ParseError, Texts, consume, count_patches, find_header_end,
  header_end, length_header, new_parser, parsed, read_counts, read_lines, replace_status,
  skip_newlines, waiting_for_body, waiting_for_headers,
}
use braid_rs.Client.Parser.{
  after_check, begin_message, check_encoding_block, feed, headers_in, headers_round, headers_to,
  parse_headers, receive, round_in, turn,
}
use braid_rs.Client.Parser.Blocks.{
  IsHeader, block_text, block_text-ascii, insert_all, read_lines-block_text, rfind_end-append,
  rfind_end-here, IsKey,
}
use braid_rs.Client.Parser.Bodies.{feed-round, in_body, settle-feed}
use mathlib.Core.Path.{refl}

-- An answer of the status expression needs a status line.
abbrev pub ReadsStatusLines : Texts → Type 0
ReadsStatusLines t = (s : Text) → strip_prefix (codes "HTTP") s ≡ none → t.http_status s ≡ none

prepend-nil : (r : Fed MessageParser ParseError Message) → prepend [] r ≡ r
prepend-nil (fed p messages) = refl
prepend-nil (failed p e) = refl
prepend-nil out_of_fuel = refl

drop_past : (xs ys : Bytes) (k : ℕ) → drop (length xs + k) (xs ++ ys) ≡ drop k ys
drop_past [] ys k = ap (λ n. drop n ys) (omega arith)
drop_past (x ∷ xs) ys k =
    let e : suc (length xs) + k ≡ suc (length xs + k) = omega arith in rw e (drop_past xs ys k)

-- Bytes behind a header block in which no later block ends: they hold no `\r\n\r\n`, and they do
-- not begin with `\r\n`.
abbrev pub IsQuiet : Bytes → Type 0
IsQuiet rest = rfind_end header_end (codes "\n\r\n" ++ rest) ≡ none

find_header_end-block :
    (block rest : Bytes)
    → IsQuiet rest
    → find_header_end (block ++ (header_end ++ rest)) ≡ some (length block + 4)
unfolding find_header_end
find_header_end-block block rest quiet =
    rfind_end-append header_end block (header_end ++ rest) 4
      (rfind_end-here b'\r' (codes "\n\r\n") rest quiet)

module _ (t : Texts) (c : ℕ) (tail : Text) (headers : Map Text) (n : ℕ)
    (ascii : All (λ b. b < 128) (c ∷ tail)) (plain : (32 < c) × (c ≢ b'e') × (c ≢ b'E'))
    (unmarked : t.http_status (c ∷ tail) ≡ none)
    (read : read_lines t.lowercase (lines (c ∷ tail)) [] ≡ headers)
    (single : lookup (codes "patches") headers ≡ none)
    (sized : length_header headers ≡ some (show n)) (small : n < 2 ^ 64) where
  abbrev whole : Bytes → MessageParser
  whole rest = receive new_parser ((c ∷ tail) ++ (header_end ++ rest))

  skipped : (rest : Bytes) → skip_newlines (whole rest) ≡ whole rest
  unfolding skip_newlines trim_start_matches
  skipped rest = ground arith

  no_encoding : (rest : Bytes) → check_encoding_block t (whole rest) ≡ ok none
  unfolding check_encoding_block
  no_encoding rest = ground arith

  read_counts_lem :
      (rest : Bytes)
      → read_counts (record (receive new_parser rest) { headers = headers })
        ≡ parsed (record (receive (in_body headers n [] 0) rest) { state = waiting_for_headers })
  unfolding read_counts count_patches
  read_counts_lem rest = ground (arith, parse_unsigned-show (2 ^ 64) n small)

  text_read :
      (rest : Bytes)
      → from_utf8 (take (length (c ∷ tail) + 4 - 4) (whole rest).buffer) ≡ some (c ∷ tail)
  text_read rest =
      let size : length (c ∷ tail) + 4 - 4 ≡ length (c ∷ tail) = omega arith in
      rw (size, take-length-append (c ∷ tail) (header_end ++ rest))
        (from_utf8_ascii (c ∷ tail) ascii)

  consumed : (rest : Bytes) → consume (whole rest) (length (c ∷ tail) + 4) ≡ receive new_parser rest
  consumed rest = ap (receive new_parser) (drop_past (c ∷ tail) (header_end ++ rest) 4)

  read_block :
      (rest : Bytes)
      → parse_headers t (whole rest) (length (c ∷ tail) + 4)
        ≡ parsed (record (receive (in_body headers n [] 0) rest) { state = waiting_for_headers })
  unfolding parse_headers headers_in
  read_block rest =
      (λ i. headers_in t (consumed rest i) (text_read rest i))
      ∙ rw (unmarked, replace_status, read) (read_counts_lem rest)

  block_round :
      (rest : Bytes)
      → IsQuiet rest
      → headers_round t (whole rest) ≡ goes_on [] (receive (in_body headers n [] 0) rest)
  unfolding headers_round begin_message after_check headers_to
  block_round rest quiet =
      ap (begin_message t) (skipped rest)
      ∙ ap (after_check t (whole rest)) (no_encoding rest)
      ∙ ap (headers_to t (whole rest)) (find_header_end-block (c ∷ tail) rest quiet)
      ∙ ap (turn waiting_for_body) (read_block rest)

  -- Behind its header block, a message is the bytes that its body is read from.
  pub feed-block :
      (rest : Bytes)
      → IsQuiet rest
      → feed t new_parser ((c ∷ tail) ++ (header_end ++ rest))
        ≡ feed t (in_body headers n [] 0) rest
  unfolding round_in
  feed-block rest quiet =
      feed-round t new_parser ((c ∷ tail) ++ (header_end ++ rest)) (block_round rest quiet)
      ∙ prepend-nil _
      ∙ settle-feed t (in_body headers n [] 0) rest

-- What the parser relies on in its libraries.
pub record IsFaithful (t : Texts) : Type 0 where
  pub lowers : LowersAscii t
  pub statuses : ReadsStatusLines t

-- A name that begins neither a line end nor an encoding block.
abbrev pub StartsPlain : Text → Type 0
StartsPlain [] = ⊥
StartsPlain (c ∷ _) = c ≢ b'e'

-- A printed block that announces one body of `n` bytes.
pub record Announces (h : Text × Text) (hs : Map Text) (n : ℕ) : Type 0 where
  pub good : All IsHeader (h ∷ hs)
  pub starts : StartsPlain h.0
  pub single : lookup (codes "patches") (insert_all (h ∷ hs) []) ≡ none
  pub sized : length_header (insert_all (h ∷ hs) []) ≡ some (show n)
  pub small : n < 2 ^ 64

no_status_line :
    (c : ℕ) (tail : Text) → (c < b'A') ⊎ (b'Z' < c) → strip_prefix (codes "HTTP") (c ∷ tail) ≡ none
unfolding strip_prefix
no_status_line c tail h = ground arith

block_text_cons :
    (c : ℕ) (key value : Text) (hs : Map Text)
    → (tail : Text) × (block_text ((c ∷ key), value) hs ≡ c ∷ tail)
unfolding block_text
block_text_cons c key value [] = (_, refl)
block_text_cons c key value (next ∷ later) = (_, refl)

key_starts : (c : ℕ) (key : Text) → IsKey (c ∷ key) → c ≢ b'e' → (32 < c) × (c ≢ b'e') × (c ≢ b'E')
key_starts c key h ne = ground arith

-- Behind a block that announces a body of `n` bytes, `feed` reads the body.
pub feed-block_text :
    (t : Texts) (h : Text × Text) (hs : Map Text) (n : ℕ) (rest : Bytes)
    → IsFaithful t
    → Announces h hs n
    → IsQuiet rest
    → feed t new_parser (block_text h hs ++ (header_end ++ rest))
      ≡ feed t (in_body (insert_all (h ∷ hs) []) n [] 0) rest
feed-block_text t ([], value) hs n rest f a quiet = absurd a.starts
feed-block_text t ((c ∷ key), value) hs n rest f a quiet =
    let (tail, e) = block_text_cons c key value hs in
    subst
      (λ b.
        feed t new_parser (b ++ (header_end ++ rest))
        ≡ feed t (in_body (insert_all (((c ∷ key), value) ∷ hs) []) n [] 0) rest)
      (sym e)
      (feed-block t c tail (insert_all (((c ∷ key), value) ∷ hs) []) n
        (subst (All (λ b. b < 128)) e (block_text-ascii ((c ∷ key), value) hs a.good))
        (key_starts c key a.good.0.0 a.starts)
        (f.statuses (c ∷ tail) (no_status_line c tail a.good.0.0.0.2))
        (subst (λ b. read_lines t.lowercase (lines b) [] ≡ insert_all (((c ∷ key), value) ∷ hs) [])
          e (read_lines-block_text t f.lowers ((c ∷ key), value) hs a.good))
        a.single a.sized a.small rest quiet)
