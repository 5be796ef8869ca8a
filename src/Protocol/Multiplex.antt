-- ===== src/Protocol/Multiplex.antt =====
-- The multiplexing frames and `MultiplexParser` (core/src/core/protocol/multiplex.rs). Texts are
-- lists of code points and data are lists of bytes. `feed` loops on fuel; `Multiplex/Loop.antt`
-- shows that the fuel it gives is enough.
mod Loop
mod Chunks
mod Lines
mod RoundTrip
mod Examples
use braid_rs.Prelude.{
  ℕ, zero, suc, ◌+◌, ◌-◌, ◌*◌, ◌^◌, Bool, true, false, ◌||◌, List, [], ◌∷◌, ◌++◌, Option, none,
  some, Bytes, leb, ◌==◌, if◌then◌else◌, length, take, drop,
}
use braid_rs.Prelude.Decimal.{parse_unsigned, show}
use braid_rs.Prelude.Chars.{
  codes, strip_prefix, split_once, contains_text, trim, trim_start_matches,
}
use braid_rs.Prelude.Utf8.{from_utf8_lossy}

pub data MultiplexEvent : Type 0 where
  start_response : Bytes → MultiplexEvent
  data_for : Bytes → Bytes → MultiplexEvent
  close_response : Bytes → MultiplexEvent

-- The texts of the three error messages, each with the refused line.
pub data MultiplexError : Type 0 where
  invalid_size invalid_header unknown_header : Bytes → MultiplexError

-- `Display`: the header line of an event. The bytes of `data_for` follow it on the wire.
unfoldable pub display : MultiplexEvent → Bytes
display (start_response id) = codes "start response " ++ (id ++ codes "\r\n")
display (data_for id bytes) =
    show (length bytes) ++ (codes " bytes for response " ++ (id ++ codes "\r\n"))
display (close_response id) = codes "close response " ++ (id ++ codes "\r\n")

pub data ParserState : Type 0 where
  header : ParserState
  body : Bytes → ℕ → ParserState

pub record MultiplexParser : Type 0 where
  pub buffer : Bytes
  pub state : ParserState

abbrev pub new_parser : MultiplexParser
new_parser = record { buffer = []; state = header }

-- One past the first `\n` of the buffer.
unfoldable pub find_newline : Bytes → Option ℕ
find_newline [] = none
find_newline (c ∷ cs) =
    let rest = find_newline cs in
    if c == b'\n' then some 1 else elim rest [ none ↦ none | some n ↦ some (suc n) ]

unfoldable pub consume : MultiplexParser → ℕ → MultiplexParser
consume p n = record p { buffer = drop n p.buffer }

-- What one round of the loop does: it goes on with the events that it pushed, waits for more
-- bytes, or returns an error.
pub data Round : Type 0 where
  goes_on : List MultiplexEvent → MultiplexParser → Round
  waits : Round
  fails : MultiplexError → Round

-- The header line that announces `size` bytes, its two parts already split.
size_line : MultiplexParser → ℕ → Bytes → Bytes → Bytes → Round
unfolding consume
size_line p line_end line before after =
    elim (parse_unsigned (2 ^ 64)
      (trim (trim_start_matches (λ c. c == b'\r' || c == b'\n') before))) [
        | none ↦ fails (invalid_size line)
        | some size ↦ goes_on [] (record (consume p line_end) { state = body (trim after) size })
      ]

-- The branches on a complete line, in their order.
unfoldable pub header_line : MultiplexParser → ℕ → Bytes → Round
unfolding size_line consume
header_line p line_end line = elim (strip_prefix (codes "start response ") line) [
  | some suffix ↦ goes_on (start_response (trim suffix) ∷ []) (consume p line_end)
  | none ↦
      if contains_text (codes " bytes for response ") line
      then elim (split_once (codes " bytes for response ") line) [
        | none ↦ fails (invalid_header line)
        | some (before, after) ↦ size_line p line_end line before after
      ]
      else elim (strip_prefix (codes "close response ") line) [
        | some suffix ↦ goes_on (close_response (trim suffix) ∷ []) (consume p line_end)
        | none ↦ elim (trim line) [
          | [] ↦ goes_on [] (consume p line_end)
          | _ ∷ _ ↦ fails (unknown_header line)
        ]
      ]
]

-- The header state, once the end of the first line is looked for.
unfoldable pub header_round : MultiplexParser → Option ℕ → Round
unfolding header_line
header_round p none = waits
header_round p (some line_end) = header_line p line_end (from_utf8_lossy (take line_end p.buffer))

unfoldable pub round_in : ParserState → MultiplexParser → Round
unfolding header_round consume
round_in header p = header_round p (find_newline p.buffer)
round_in (body id remaining) p =
    if leb remaining (length p.buffer)
    then goes_on (data_for id (take remaining p.buffer) ∷ [])
        (record (consume p remaining) { state = header })
    else waits

abbrev pub round : MultiplexParser → Round
round p = round_in p.state p

-- How `feed` ends: with the events found, with an error (the events are dropped, the buffer
-- stays), or, never in fact, out of fuel.
pub data Fed : Type 0 where
  fed : MultiplexParser → List MultiplexEvent → Fed
  failed : MultiplexParser → MultiplexError → Fed
  out_of_fuel : Fed

abbrev pub prepend : List MultiplexEvent → Fed → Fed
prepend events (fed p later) = fed p (events ++ later)
prepend events (failed p e) = failed p e
prepend events out_of_fuel = out_of_fuel

-- What the loop does with a round; `again` is the loop itself.
abbrev pub after_round : MultiplexParser → (MultiplexParser → Fed) → Round → Fed
after_round p again (goes_on events q) = prepend events (again q)
after_round p again waits = fed p []
after_round p again (fails e) = failed p e

unfoldable pub loop : ℕ → MultiplexParser → Fed
loop zero p = out_of_fuel
loop (suc fuel) p = after_round p (loop fuel) (round p)

-- Each round shortens the buffer, or leaves the data state.
abbrev pub work : MultiplexParser → ℕ
work p = elim p.state [
  | header ↦ length p.buffer + length p.buffer
  | body _ _ ↦ suc (length p.buffer + length p.buffer)
]

abbrev pub receive : MultiplexParser → Bytes → MultiplexParser
receive p bytes = record p { buffer = p.buffer ++ bytes }

unfoldable pub feed : MultiplexParser → Bytes → Fed
unfolding loop
feed p bytes = loop (suc (work (receive p bytes))) (receive p bytes)
