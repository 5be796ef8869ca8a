-- ===== src/Protocol/Multiplex/RoundTrip.antt =====
-- The frames of a list of events, printed as core/src/core/protocol/multiplex.rs prints them, are
-- read back by its parser, however the stream is cut.
use braid_rs.Prelude.Tokens.{IsToken}
use mathlib.Core.List.{append_assoc, append-nil}
use braid_rs.Prelude.{
  ℕ, ◌<◌, ◌^◌, ◌≡◌, refl, ◌≢◌, ◌∙◌, sym, ap, subst, List, [], ◌∷◌, ◌++◌, some, Bytes, length, arith,
  All, All-append, All-imp, length-append, take-length-append, drop-length-append,
}
use braid_rs.Prelude.Decimal.{show, AreDigits-show}
use braid_rs.Prelude.Chars.{codes}
use braid_rs.Prelude.Utf8.{from_utf8_lossy, from_utf8_lossy_ascii}
use braid_rs.Protocol.Multiplex.{
  MultiplexEvent, start_response, data_for, close_response, MultiplexParser, header, body, consume,
  goes_on, header_line, header_round, round_in, round, find_newline, display, Fed, fed, failed,
  out_of_fuel, prepend, loop, feed, new_parser,
}
use braid_rs.Protocol.Multiplex.Loop.{settle, settle-round}
use braid_rs.Protocol.Multiplex.Chunks.{prepend-nil, feed-append, then_feed}
use braid_rs.Protocol.Multiplex.Lines.{header_line-start, header_line-close, header_line-data}

-- A frame on the wire: the header line, and the bytes of a data frame.
unfoldable pub wire : MultiplexEvent → Bytes
wire (start_response id) = display (start_response id)
wire (data_for id bytes) = display (data_for id bytes) ++ bytes
wire (close_response id) = display (close_response id)

unfoldable pub wire_all : List MultiplexEvent → Bytes
unfolding wire
wire_all [] = []
wire_all (e ∷ events) = wire e ++ wire_all events

abbrev pub IsSendable : MultiplexEvent → Type 0
IsSendable (start_response id) = IsToken id
IsSendable (data_for id bytes) = IsToken id × (length bytes < 2 ^ 64)
IsSendable (close_response id) = IsToken id

-- A byte of a line before its line feed: ASCII, and no line feed.
abbrev IsPlain : ℕ → Type 0
IsPlain c = (c < 128) × (c ≢ b'\n')

-- A line is plain bytes and a line feed.
record IsLine (line : Bytes) : Type 0 where
  front : Bytes
  splits : line ≡ front ++ (b'\n' ∷ [])
  plain : All IsPlain front

token-IsPlain : (id : Bytes) → IsToken id → All IsPlain id
token-IsPlain id h = All-imp (λ x t. (omega arith, omega arith)) id h

show-IsPlain : (n : ℕ) → All IsPlain (show n)
show-IsPlain n = All-imp (λ x t. (omega arith, omega arith)) (show n) (AreDigits-show n)

find_newline_line :
    (front rest : Bytes)
    → All IsPlain front
    → find_newline ((front ++ (b'\n' ∷ [])) ++ rest) ≡ some (length (front ++ (b'\n' ∷ [])))
unfolding find_newline
find_newline_line [] rest h = refl
find_newline_line (c ∷ front) rest h = ground (arith, find_newline_line front rest h.1)

line_ascii : (front : Bytes) → All IsPlain front → All (λ b. b < 128) (front ++ (b'\n' ∷ []))
line_ascii front h =
    All-append (λ b. b < 128) front (b'\n' ∷ []) (All-imp (λ x t. t.0) front h) (omega arith, tt)

abbrev at_header : Bytes → MultiplexParser
at_header bytes = record { buffer = bytes; state = header }

-- The round on a buffer that starts with a line.
round_line :
    (line rest : Bytes)
    → IsLine line
    → round (at_header (line ++ rest)) ≡ header_line (at_header (line ++ rest)) (length line) line
unfolding round_in header_round
round_line line rest l =
    let found : find_newline (line ++ rest) ≡ some (length line) =
      rw l.splits (find_newline_line l.front rest l.plain) in
    let ascii : from_utf8_lossy line ≡ line =
      rw l.splits (from_utf8_lossy_ascii _ (line_ascii l.front l.plain)) in
    ground (arith, found, take-length-append line rest, ascii)

consume_line :
    (line rest : Bytes) → consume (at_header (line ++ rest)) (length line) ≡ at_header rest
unfolding consume
consume_line line rest = rw (drop-length-append line rest)

-- The three displayed lines are lines.
framed :
    (mark : Bytes)
    → All IsPlain mark
    → (id : Bytes) → IsToken id
    → IsLine (mark ++ (id ++ codes "\r\n"))
framed mark h id token = record {
  front = mark ++ (id ++ (b'\r' ∷ []));
  splits =
      ap (◌++◌ mark) (sym (append_assoc id (b'\r' ∷ []) (b'\n' ∷ [])))
      ∙ sym (append_assoc mark (id ++ (b'\r' ∷ [])) (b'\n' ∷ []));
  plain =
      All-append IsPlain mark _ h
        (All-append IsPlain id _ (token-IsPlain id token) ((omega arith, omega arith), tt));
}

IsPlain-marks :
    All IsPlain (codes "start response ")
    × All IsPlain (codes " bytes for response ")
    × All IsPlain (codes "close response ")
IsPlain-marks = omega arith

start-IsLine : (id : Bytes) → IsToken id → IsLine (display (start_response id))
unfolding display
start-IsLine id token = framed (codes "start response ") IsPlain-marks.0 id token

close-IsLine : (id : Bytes) → IsToken id → IsLine (display (close_response id))
unfolding display
close-IsLine id token = framed (codes "close response ") IsPlain-marks.2 id token

data-IsLine : (id bytes : Bytes) → IsToken id → IsLine (display (data_for id bytes))
unfolding display
data-IsLine id bytes token =
    subst IsLine
      (append_assoc (show (length bytes)) (codes " bytes for response ") (id ++ codes "\r\n"))
      (framed (show (length bytes) ++ codes " bytes for response ")
        (All-append IsPlain (show (length bytes)) _ (show-IsPlain (length bytes)) IsPlain-marks.1)
        id token)

body_round :
    (id bytes rest : Bytes)
    → round (record { buffer = bytes ++ rest; state = body id (length bytes) })
      ≡ goes_on (data_for id bytes ∷ []) (at_header rest)
unfolding round_in consume
body_round id bytes rest =
    ground (
      arith,
      length-append bytes rest,
      take-length-append bytes rest,
      drop-length-append bytes rest,
    )

settle-body :
    (id bytes rest : Bytes)
    → settle (record { buffer = bytes ++ rest; state = body id (length bytes) })
      ≡ prepend (data_for id bytes ∷ []) (settle (at_header rest))
settle-body id bytes rest = settle-round _ (body_round id bytes rest)

-- One frame at the front of the buffer is one event.
settle-wire :
    (e : MultiplexEvent) (rest : Bytes)
    → IsSendable e
    → settle (at_header (wire e ++ rest)) ≡ prepend (e ∷ []) (settle (at_header rest))
unfolding wire
settle-wire (start_response id) rest h =
    settle-round (at_header (display (start_response id) ++ rest)) (
      round_line (display (start_response id)) rest (start-IsLine id h)
      ∙ header_line-start (at_header (display (start_response id) ++ rest))
          (length (display (start_response id))) id h)
    ∙ ap (λ q. prepend (start_response id ∷ []) (settle q))
        (consume_line (display (start_response id)) rest)
settle-wire (close_response id) rest h =
    settle-round (at_header (display (close_response id) ++ rest)) (
      round_line (display (close_response id)) rest (close-IsLine id h)
      ∙ header_line-close (at_header (display (close_response id) ++ rest))
          (length (display (close_response id))) id h)
    ∙ ap (λ q. prepend (close_response id ∷ []) (settle q))
        (consume_line (display (close_response id)) rest)
settle-wire (data_for id bytes) rest h =
    let line = display (data_for id bytes) in
    let later = bytes ++ rest in
    ap (λ b. settle (at_header b)) (append_assoc line bytes rest)
    ∙ settle-round (at_header (line ++ later)) (
        round_line line later (data-IsLine id bytes h.0)
        ∙ header_line-data (at_header (line ++ later)) (length line) id h.0 bytes h.1)
    ∙ prepend-nil (settle _)
    ∙ ap (λ q. settle (record q { state = body id (length bytes) })) (consume_line line later)
    ∙ settle-body id bytes rest

settle-wire_all :
    (events : List MultiplexEvent)
    → All IsSendable events
    → settle (at_header (wire_all events)) ≡ fed new_parser events
unfolding wire_all settle loop round_in find_newline
settle-wire_all [] h = refl
settle-wire_all (e ∷ events) h =
    settle-wire e (wire_all events) h.0 ∙ ap (prepend (e ∷ [])) (settle-wire_all events h.1)

-- The pieces of a stream, fed one after the other until one fails.
abbrev pub and_then : Fed → (MultiplexParser → Fed) → Fed
and_then (fed q events) f = prepend events (f q)
and_then (failed q e) f = failed q e
and_then out_of_fuel f = out_of_fuel

pub feed_all : List Bytes → MultiplexParser → Fed
feed_all [] p = fed p []
feed_all (piece ∷ pieces) p = and_then (feed p piece) (feed_all pieces)

abbrev pub concat : List Bytes → Bytes
concat [] = []
concat (piece ∷ pieces) = piece ++ concat pieces

prepend-eq-fed :
    (xs : List MultiplexEvent) (r : Fed) {q : MultiplexParser} {events : List MultiplexEvent}
    → prepend xs r ≡ fed q events
    → (ys : List MultiplexEvent) × (r ≡ fed q ys) × (xs ++ ys ≡ events)
prepend-eq-fed xs (fed q later) h = (later, cc, cc)
prepend-eq-fed xs (failed q e) h = cc
prepend-eq-fed xs out_of_fuel h = cc

then_feed-and_then :
    (rest : Bytes) (pieces : List Bytes) (r : Fed) {q : MultiplexParser}
    {events : List MultiplexEvent}
    → ((p : MultiplexParser) (later : List MultiplexEvent)
        → feed p rest ≡ fed q later
        → feed_all pieces p ≡ fed q later)
    → then_feed rest r ≡ fed q events
    → and_then r (feed_all pieces) ≡ fed q events
then_feed-and_then rest pieces (fed p found) {q} ih h =
    let (later, e, joined) = prepend-eq-fed found (feed p rest) h in
    ap (prepend found) (ih p later e) ∙ ap (fed q) joined
then_feed-and_then rest pieces (failed p x) ih h = cc
then_feed-and_then rest pieces out_of_fuel ih h = cc

feed_all-concat :
    (piece : Bytes) (pieces : List Bytes) (p : MultiplexParser) {q : MultiplexParser}
    {events : List MultiplexEvent}
    → feed p (concat (piece ∷ pieces)) ≡ fed q events
    → feed_all (piece ∷ pieces) p ≡ fed q events
unfolding feed_all
feed_all-concat piece [] p {q} {events} h =
    ap (λ r. and_then r (λ q. fed q [])) (ap (feed p) (sym (append-nil piece)) ∙ h)
    ∙ ap (fed q) (append-nil events)
feed_all-concat piece (next ∷ pieces) p h =
    then_feed-and_then (concat (next ∷ pieces)) (next ∷ pieces) (feed p piece)
      (λ q' later e. feed_all-concat next pieces q' e)
      (sym (feed-append p piece (concat (next ∷ pieces))) ∙ h)

-- Round trip: the frames of any list of events whose identifiers are printable ASCII without
-- spaces, and whose data have lengths that fit 64 bits, are read back as exactly these events, in
-- order and with nothing left in the parser, for every way to cut the stream into pieces.
pub feed_all-wire_all :
    (events : List MultiplexEvent) (piece : Bytes) (pieces : List Bytes)
    → All IsSendable events
    → concat (piece ∷ pieces) ≡ wire_all events
    → feed_all (piece ∷ pieces) new_parser ≡ fed new_parser events
unfolding feed settle
feed_all-wire_all events piece pieces sendable cut =
    feed_all-concat piece pieces new_parser
      (ap (feed new_parser) cut ∙ settle-wire_all events sendable)
