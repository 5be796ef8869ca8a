-- ===== src/Client/Parser/Pieces.antt =====
-- Whole messages through `MessageParser::feed` (core/src/core/client/parser.rs): one header block
-- and its body, in one piece, in two and in three.
use mathlib.Core.List.{append-nil}
use braid_rs.Prelude.{
  Bytes, Map, Text, [], ap, arith, length, refl, sym, ℕ, ◌++◌, ◌+◌, ◌<◌, ◌∙◌, ◌∷◌, ◌≡◌,
}
use braid_rs.Prelude.Rounds.{fed, prepend}
use braid_rs.Client.Messages.{MessageParser, Texts, header_end, new_parser}
use braid_rs.Client.Parser.{begin_message, feed, headers_round, round_in}
use braid_rs.Client.Parser.Blocks.{block_text, insert_all}
use braid_rs.Client.Parser.Bodies.{body_done, body_more, body_none, feed-round, in_body, message_of}
use braid_rs.Client.Parser.Begins.{Announces, IsFaithful, IsQuiet, feed-block_text}

feed-nothing : (t : Texts) → feed t new_parser [] ≡ fed new_parser []
unfolding round_in headers_round begin_message
feed-nothing t = feed-round t new_parser [] refl

module _ (t : Texts) (h : Text × Text) (hs : Map Text) (n : ℕ) (faithful : IsFaithful t)
    (announced : Announces h hs n) where
  abbrev headers : Map Text
  headers = insert_all (h ∷ hs) []

  -- A message that arrives as one piece is given out: its header block with all names and values,
  -- its body of exactly the announced length, no patches; the parser is as new afterwards. The
  -- block is a list of headers with lower-case names of printable ASCII and trimmed ASCII values,
  -- the first not beginning with "e", none of them "patches"; the body is any bytes that hold no
  -- `\r\n\r\n` and do not begin with `\r\n`.
  pub feed_whole :
      (body : Bytes)
      → length body ≡ n
      → IsQuiet body
      → feed t new_parser (block_text h hs ++ (header_end ++ body))
        ≡ fed new_parser (message_of headers body ∷ [])
  feed_whole [] size quiet =
      feed-block_text t h hs n [] faithful announced quiet
      ∙ ap (λ k. feed t (in_body headers k [] 0) []) (sym size)
      ∙ body_none t headers []
      ∙ ap (prepend (message_of headers [] ∷ [])) (feed-nothing t)
  feed_whole (b ∷ body) size quiet =
      feed-block_text t h hs n (b ∷ body) faithful announced quiet
      ∙ ap (feed t (in_body headers n [] 0)) (sym (append-nil (b ∷ body)))
      ∙ body_done t headers n announced.small [] (b ∷ body) [] 0 (omega arith) (omega arith)
      ∙ ap (prepend (message_of headers (b ∷ body) ∷ [])) (feed-nothing t)

  -- The block and a first part of the body, too short to complete it.
  begun :
      (front : Bytes)
      → length front < n
      → IsQuiet front
      → feed t new_parser (block_text h hs ++ (header_end ++ front))
        ≡ fed (in_body headers n front (length front)) []
  begun front short quiet =
      feed-block_text t h hs n front faithful announced quiet
      ∙ body_more t headers n announced.small [] front 0 (omega arith) (omega arith)
      ∙ ap (λ k. fed (in_body headers n front k) []) (let small = announced.small in omega arith)

  -- A message whose body is cut once is put together. Its header block is a printed list of headers,
  -- with names of printable ASCII without a space, an upper-case letter or a colon, the first not empty
  -- and not beginning with "e", and trimmed values of printable ASCII; none is called "patches", and
  -- the length that they give is `n`, below 2^64. The first part of the body is shorter than `n`, and
  -- neither holds `\r\n\r\n` nor begins with `\r\n`; the second part completes it, and may hold any
  -- bytes. The lower case of Unicode is that of ASCII on ASCII, and only a text that begins with "HTTP"
  -- is a status line. Then the first piece, with the header block, gives no message and an unfinished
  -- parser; the second gives out the whole message, and what follows the body in it is read as `feed`
  -- reads it in a new parser.
  pub feed_two_pieces :
      (front back rest : Bytes)
      → length front < n
      → length front + length back ≡ n
      → IsQuiet front
      → (p : MessageParser) × (feed t new_parser (block_text h hs ++ (header_end ++ front))
          ≡ fed p [])
        × (feed t p (back ++ rest)
            ≡ prepend (message_of headers (front ++ back) ∷ []) (feed t new_parser rest))
  feed_two_pieces front back rest short size quiet = (
    in_body headers n front (length front),
    begun front short quiet,
    body_done t headers n announced.small front back rest (length front) short (omega arith),
  )
