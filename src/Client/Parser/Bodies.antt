-- ===== src/Client/Parser/Bodies.antt =====
-- The bodies of messages through `MessageParser::feed` (core/src/core/client/parser.rs).
use braid_rs.Prelude.{
  Bytes, Map, Text, [], arith, length, lookup, none, refl, ℕ, ◌%◌, ◌++◌, ◌+◌, ◌-◌, ◌<◌, ◌^◌, ◌∷◌,
  ◌≡◌, ◌≤◌, ap, drop-length-append, length-append, take-length-append, ◌∙◌,
}
use braid_rs.Prelude.Chars.{codes}
use braid_rs.Prelude.Rounds.{Round, after_round, fed, prepend, settle, settle-round, goes_on, waits}
use braid_rs.Client.Messages.{
  Message, MessageParser, ParseError, Texts, finalize_message, new_parser, try_parse_body,
  waiting_for_body,
}
use braid_rs.Client.Parser.{body_round, feed, receive, round, round_in, work}
use braid_rs.Client.Parser.Ends.{round-Shrinks}

-- Behind the header block, while the body is read: what is accumulated, and the count of it.
abbrev pub in_body : Map Text → ℕ → Bytes → ℕ → MessageParser
in_body headers n acc read = record new_parser {
  state = waiting_for_body;
  headers = headers;
  body_buffer = acc;
  expected_body_length = n;
  read_body_length = read;
}

abbrev pub message_of : Map Text → Bytes → Message
message_of headers body = record {
  headers = headers;
  body = body;
  patches = [];
  status_code = none;
  encoding = lookup (codes "encoding") headers;
  url = lookup (codes "content-location") headers;
}

-- The loop steps by its rounds.
pub feed-round :
    (t : Texts) (p : MessageParser) (bytes : Bytes) {r : Round MessageParser ParseError Message}
    → round t (receive p bytes) ≡ r
    → feed t p bytes ≡ after_round (settle (round t) work (round-Shrinks t)) r
unfolding feed settle
feed-round t p bytes h = settle-round (round t) work (round-Shrinks t) (receive p bytes) h

-- The loop from a state is a call of `feed` that brings nothing new.
pub settle-feed :
    (t : Texts) (p : MessageParser) (bytes : Bytes)
    → settle (round t) work (round-Shrinks t) (receive p bytes) ≡ feed t p bytes
unfolding feed settle
settle-feed t p bytes = refl

-- An empty body is complete at once.
pub body_none :
    (t : Texts) (headers : Map Text) (rest : Bytes)
    → feed t (in_body headers 0 [] 0) rest
      ≡ prepend (message_of headers [] ∷ []) (feed t new_parser rest)
unfolding round_in body_round try_parse_body finalize_message
body_none t headers rest =
    feed-round t (in_body headers 0 [] 0) rest refl
    ∙ ap (prepend (message_of headers [] ∷ [])) (settle-feed t new_parser rest)

module _ (t : Texts) (headers : Map Text) (n : ℕ) (small : n < 2 ^ 64) where
  remaining : (read : ℕ) → read ≤ n → (n + 2 ^ 64 - read) % 2 ^ 64 ≡ n - read
  remaining read h = omega arith

  body_round_more :
      (acc part : Bytes) (read : ℕ)
      → read ≤ n
      → length part < n - read
      → body_round (receive (in_body headers n acc read) part)
        ≡ waits (in_body headers n (acc ++ part) ((read + length (acc ++ part)) % 2 ^ 64))
  unfolding body_round try_parse_body
  body_round_more acc part read h k = ground (arith, remaining read h)

  -- A part that leaves the body incomplete is accumulated.
  pub body_more :
      (acc part : Bytes) (read : ℕ)
      → read ≤ n
      → length part < n - read
      → feed t (in_body headers n acc read) part
        ≡ fed (in_body headers n (acc ++ part) ((read + length (acc ++ part)) % 2 ^ 64)) []
  unfolding round_in
  body_more acc part read h k =
      feed-round t (in_body headers n acc read) part (body_round_more acc part read h k)

  body_round_done :
      (acc part rest : Bytes) (read : ℕ)
      → read < n
      → length part ≡ n - read
      → body_round (receive (in_body headers n acc read) (part ++ rest))
        ≡ goes_on (message_of headers (acc ++ part) ∷ []) (receive new_parser rest)
  unfolding body_round try_parse_body finalize_message
  body_round_done acc part rest read h k =
      rw (remaining read (omega arith), ← k)
        (ground (
          arith,
          length-append part rest,
          take-length-append part rest,
          drop-length-append part rest,
        ))

  -- A part that completes the body, as the counter has it, ends the message; the bytes behind are
  -- read as the next one.
  pub body_done :
      (acc part rest : Bytes) (read : ℕ)
      → read < n
      → length part ≡ n - read
      → feed t (in_body headers n acc read) (part ++ rest)
        ≡ prepend (message_of headers (acc ++ part) ∷ []) (feed t new_parser rest)
  unfolding round_in
  body_done acc part rest read h k =
      feed-round t (in_body headers n acc read) (part ++ rest)
        (body_round_done acc part rest read h k)
      ∙ ap (prepend (message_of headers (acc ++ part) ∷ [])) (settle-feed t new_parser rest)
