-- ===== src/Client/Parser/Examples.antt =====
-- Tests of `MessageParser` (core/src/core/client/parser.rs) and instances of its theorems.
use braid_rs.Protocol.Headers.{format_version_header}
use braid_rs.Protocol.Headers.Examples.{small_sfv, two_values, two_versions}
use braid_rs.Types.Update.{Update, default_update}
use braid_rs.Protocol.Formatter.{format_update}
use braid_rs.Client.Parser.Formatted.{feed-format_update, later_headers}
use braid_rs.Prelude.{
  Bytes, List, Map, Option, Text, [], arith, drop, insert, lookup, none, refl, some, str_eq, take,
  ℕ, ◌++◌, ◌<◌, ◌∷◌, ◌≡◌, ◌≢◌, returned,
}
use braid_rs.Prelude.Utf8.{from_utf8}
use braid_rs.Prelude.Decimal.{show, parse_unsigned}
use braid_rs.Prelude.Lines.{rfind_end}
use braid_rs.Prelude.Chars.{
  codes, is_whitespace, strip_prefix, to_lowercase, trim, trim_start_matches,
}
use braid_rs.Prelude.Rounds.{Fed, fed, loop, out_of_fuel, prepend}
use braid_rs.Client.Messages.{
  Message, MessageParser, ParseError, Texts, header_end, length_header, new_parser,
  finalize_message,
}
use braid_rs.Client.Parser.{feed, receive, round, work}
use braid_rs.Client.Parser.Ends.{feed_returns}
use braid_rs.Client.Parser.Blocks.{block_text, insert_all}
use braid_rs.Client.Parser.Bodies.{message_of}
use braid_rs.Client.Parser.Begins.{Announces, IsFaithful, IsQuiet}
use braid_rs.Client.Parser.Pieces.{feed_two_pieces}

-- Enough of the libraries for these messages.
abbrev plain_texts : Texts
plain_texts = record {
  lowercase = to_lowercase;
  http_status = λ text. elim (strip_prefix (codes "HTTP") text) [
    | none ↦ none
    | some rest ↦ some (take 3 (drop 5 rest))
  ];
  encoding_block = λ text. none;
}

plain_texts-IsFaithful : IsFaithful plain_texts
unfolding strip_prefix
plain_texts-IsFaithful = record { lowers = λ s h. refl; statuses = λ s h. rw h refl }

abbrev version_header : Text × Text
version_header = (codes "version", codes "\"v1\"")

abbrev length_headers : Map Text
length_headers = (codes "content-length", codes "10") ∷ []

version_length-Announces : Announces version_header length_headers 10
unfolding insert_all lookup length_header show trim is_whitespace trim_start_matches str_eq insert
version_length-Announces = record {
  good = ((omega arith, (omega arith, refl)), ((omega arith, (omega arith, refl)), tt));
  starts = λ e. omega arith;
  single = refl;
  sized = refl;
  small = omega arith;
}

feed_returns_example :
    (feed plain_texts new_parser (codes "a: b\r\n\r\n") ≢ out_of_fuel)
    × ((fuel : ℕ)
        → work (receive new_parser (codes "a: b\r\n\r\n")) < fuel
        → loop (round plain_texts) fuel (receive new_parser (codes "a: b\r\n\r\n"))
          ≡ feed plain_texts new_parser (codes "a: b\r\n\r\n"))
feed_returns_example = feed_returns plain_texts new_parser (codes "a: b\r\n\r\n")

IsQuiet-body : IsQuiet (codes "helloworld")
unfolding rfind_end
IsQuiet-body = refl

-- The same message by evaluation.
read_message :
    feed plain_texts new_parser (codes "version: \"v1\"\r\ncontent-length: 10\r\n\r\nhelloworld")
    ≡ fed new_parser (
        message_of
          ((codes "version", codes "\"v1\"") ∷ (codes "content-length", codes "10") ∷ [])
          (codes "helloworld")
        ∷ [])
unfolding feed from_utf8 insert str_eq to_lowercase parse_unsigned finalize_message
read_message = refl

IsQuiet-front : IsQuiet (codes "hel")
unfolding rfind_end
IsQuiet-front = refl

feed_two_pieces_example :
    (p : MessageParser) × (feed plain_texts new_parser
        (block_text version_header length_headers ++ (header_end ++ codes "hel"))
      ≡ fed p [])
    × (feed plain_texts p (codes "loworld" ++ codes "\r\n")
        ≡ prepend
            (message_of (insert_all (version_header ∷ length_headers) []) (codes "helloworld") ∷ [])
            (feed plain_texts new_parser (codes "\r\n")))
feed_two_pieces_example =
    feed_two_pieces plain_texts version_header length_headers 10 plain_texts-IsFaithful
      version_length-Announces (codes "hel") (codes "loworld") (codes "\r\n") (omega arith) refl
      IsQuiet-front

abbrev messages_of : Fed MessageParser ParseError Message → Option (List Message)
messages_of (fed p messages) = some messages
messages_of _ = none

-- Two patches in one piece: the headers up to the last one are taken as those of the message, and
-- no message comes.
two_patches_at_once :
    messages_of (
      feed plain_texts new_parser (
        codes "Patches: 2\r\n\r\nContent-Length: 5\r\nContent-Range: json .a\r\n\r\nhello\r\n"
        ++ codes "Content-Length: 5\r\nContent-Range: json .b\r\n\r\nworld\r\n"))
    ≡ some []
unfolding feed from_utf8 insert str_eq to_lowercase parse_unsigned
two_patches_at_once = refl

-- An update with parents, a merge type and a further header.
abbrev greeting : Update
greeting = record default_update {
  version = two_versions;
  parents = two_versions;
  merge_type = some (codes "diamond");
  extra_headers = (codes "x-seen", codes "yes") ∷ [];
  body = some (codes "hello");
  content_type = some (codes "text/plain");
}

greeting-Announces :
    Announces (codes "version", two_values) (later_headers (some two_values) greeting 5) 5
unfolding insert_all lookup length_header show trim is_whitespace trim_start_matches str_eq insert
greeting-Announces = record {
  good = (
    (omega arith, (omega arith, refl)),
    (
      (omega arith, (omega arith, refl)),
      (
        (omega arith, (omega arith, refl)),
        (
          (omega arith, (omega arith, refl)),
          ((omega arith, (omega arith, refl)), ((omega arith, (omega arith, refl)), tt)),
        ),
      ),
    ),
  );
  starts = λ e. omega arith;
  single = refl;
  sized = refl;
  small = omega arith;
}

greeting_body : IsQuiet (codes "hello")
unfolding rfind_end
greeting_body = refl

feed-format_update_example :
    (bytes : Bytes) × (format_update small_sfv greeting ≡ returned bytes)
    × (feed plain_texts new_parser bytes
        ≡ fed new_parser (
            message_of
              (insert_all
                ((codes "version", two_values) ∷ later_headers (some two_values) greeting 5)
                [])
              (codes "hello")
            ∷ []))
unfolding format_version_header
feed-format_update_example =
    feed-format_update small_sfv greeting two_values (some two_values) (codes "hello") refl
      ((refl, (refl, tt)), refl) ((refl, (refl, tt)), refl) plain_texts plain_texts-IsFaithful
      greeting-Announces greeting_body
