-- ===== src/Protocol/Multiplex/Examples.antt =====
-- Runs of the multiplex parser (core/src/core/protocol/multiplex.rs) and the instances of its
-- theorems.
use braid_rs.Prelude.{ℕ, ◌<◌, ◌≡◌, refl, ◌≢◌, List, [], ◌∷◌, ◌++◌, arith, Bytes}
use braid_rs.Prelude.Chars.{codes, strip_prefix, contains_text, trim}
use braid_rs.Prelude.Utf8.{from_utf8_lossy}
use braid_rs.Prelude.Decimal.{parse_unsigned}
use braid_rs.Prelude.Decimal.{show}
use braid_rs.Protocol.Multiplex.{
  MultiplexEvent, start_response, data_for, close_response, unknown_header, MultiplexParser, header,
  body, new_parser, round_in, find_newline, display, fed, failed, out_of_fuel, loop, work, receive,
  feed,
}
use braid_rs.Protocol.Multiplex.Loop.{feed_total}
use braid_rs.Protocol.Multiplex.Chunks.{then_feed, feed-append, IsShort, feed-IsShort}
use braid_rs.Protocol.Multiplex.RoundTrip.{wire_all, feed_all, feed_all-wire_all}

-- All that a run computes with.
program : Unit {0}
unfolding feed round_in find_newline strip_prefix from_utf8_lossy contains_text parse_unsigned trim
program = tt

abbrev half : Bytes
half = codes "start response r1\r\n5 bytes for response r1\r\nhel"

abbrev waiting : MultiplexParser
waiting = record { buffer = codes "hel"; state = body (codes "r1") 5 }

-- A call that stops in the middle of a data frame.
feed-half : feed new_parser half ≡ fed waiting (start_response (codes "r1") ∷ [])
unfolding program
feed-half = refl

abbrev nonsense : MultiplexParser
nonsense = record { buffer = codes "what\r\n"; state = header }

feed-nonsense :
    feed new_parser (codes "start response r1\r\nwhat\r\n")
    ≡ failed nonsense (unknown_header (codes "what\r\n"))
unfolding program
feed-nonsense = refl

abbrev frames : List MultiplexEvent
frames =
    start_response (codes "r1")
    ∷ data_for (codes "r1") (codes "a\nb")
    ∷ close_response (codes "r1")
    ∷ []

abbrev first_piece : Bytes
first_piece = codes "start response r1\r\n3 by"

abbrev second_piece : Bytes
second_piece = codes "tes for response r1\r\na\nbclose response r1\r\n"

feed_total_example :
    (feed new_parser half ≢ out_of_fuel)
    × ((fuel : ℕ)
        → work (receive new_parser half) < fuel
        → loop fuel (receive new_parser half) ≡ feed new_parser half)
feed_total_example = feed_total new_parser half

feed-append_example :
    feed new_parser (half ++ codes "lo") ≡ then_feed (codes "lo") (feed new_parser half)
feed-append_example = feed-append new_parser half (codes "lo")

feed-IsShort_example : IsShort waiting.state waiting.buffer
feed-IsShort_example = feed-IsShort new_parser half feed-half

feed_all-wire_all_example :
    feed_all (first_piece ∷ second_piece ∷ []) new_parser ≡ fed new_parser frames
unfolding wire_all display show
feed_all-wire_all_example =
    feed_all-wire_all frames first_piece (second_piece ∷ []) (omega arith) refl
