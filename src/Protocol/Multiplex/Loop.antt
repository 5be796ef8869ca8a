-- ===== src/Protocol/Multiplex/Loop.antt =====
-- The loop of `MultiplexParser::feed` (core/src/core/protocol/multiplex.rs) ends.
use braid_rs.Prelude.{
  subst, sym, ℕ, zero, suc, ◌+◌, ◌≤◌, ◌<◌, ◌≡◌, refl, ◌≢◌, ◌∙◌, ap, List, [], ◌∷◌, Option, none,
  some, Bytes, length, take, length-drop, arith,
}
use braid_rs.Prelude.Utf8.{from_utf8_lossy}
use braid_rs.Protocol.Multiplex.{
  MultiplexEvent, MultiplexParser, ParserState, header, body, find_newline, consume, Round, goes_on,
  waits, fails, size_line, header_line, header_round, round_in, round, Fed, fed, failed,
  out_of_fuel, prepend, after_round, loop, work, receive, feed,
}

abbrev pub InBuffer : Bytes → Option ℕ → Type 0
InBuffer bs none = Unit {0}
InBuffer bs (some n) = (0 < n) × (n ≤ length bs)

pub find_newline_bounds : (bs : Bytes) → InBuffer bs (find_newline bs)
unfolding find_newline
find_newline_bounds [] = tt
find_newline_bounds (c ∷ cs) = ground (arith, find_newline_bounds cs)

abbrev Shrinks : ℕ → Round → Type 0
Shrinks w (goes_on _ p') = work p' < w
Shrinks w waits = Unit {0}
Shrinks w (fails _) = Unit {0}

header_line-Shrinks :
    (p : MultiplexParser) (n : ℕ) (line : Bytes)
    → p.state ≡ header
    → 0 < n
    → n ≤ length p.buffer
    → Shrinks (length p.buffer + length p.buffer) (header_line p n line)
unfolding header_line size_line consume
header_line-Shrinks p n line e h k = ground (arith, length-drop n p.buffer)

header_round-Shrinks :
    (p : MultiplexParser) (end : Option ℕ)
    → p.state ≡ header
    → InBuffer p.buffer end
    → Shrinks (length p.buffer + length p.buffer) (header_round p end)
unfolding header_round
header_round-Shrinks p none e h = tt
header_round-Shrinks p (some n) e h =
    header_line-Shrinks p n (from_utf8_lossy (take n p.buffer)) e h.0 h.1

round_in-Shrinks :
    (s : ParserState) (p : MultiplexParser) → p.state ≡ s → Shrinks (work p) (round_in s p)
unfolding round_in
round_in-Shrinks header p e =
    subst (λ s. Shrinks (work (record p { state = s })) (header_round p (find_newline p.buffer)))
      (sym e) (header_round-Shrinks p (find_newline p.buffer) e (find_newline_bounds p.buffer))
round_in-Shrinks (body id remaining) p e = ground (arith, length-drop remaining p.buffer)

round-Shrinks : (p : MultiplexParser) → Shrinks (work p) (round p)
round-Shrinks p = round_in-Shrinks p.state p refl

pub round-lt :
    (p : MultiplexParser) {events : List MultiplexEvent} (q : MultiplexParser)
    → round p ≡ goes_on events q
    → work q < work p
round-lt p q h = subst (Shrinks (work p)) h (round-Shrinks p)

-- Two continuations that agree on smaller parsers, and one that never runs out of fuel.
after_round_agrees :
    (p : MultiplexParser) (f g : MultiplexParser → Fed) (r : Round)
    → Shrinks (work p) r
    → ((q : MultiplexParser) → work q < work p → f q ≡ g q)
    → after_round p f r ≡ after_round p g r
after_round_agrees p f g (goes_on events q) lt same = ap (prepend events) (same q lt)
after_round_agrees p f g waits lt same = refl
after_round_agrees p f g (fails e) lt same = refl

loop_fuel : (f g : ℕ) (p : MultiplexParser) → work p < f → work p < g → loop f p ≡ loop g p
unfolding loop
loop_fuel zero g p h k = absurd (omega arith)
loop_fuel (suc f) zero p h k = absurd (omega arith)
loop_fuel (suc f) (suc g) p h k =
    after_round_agrees p (loop f) (loop g) (round p) (round-Shrinks p)
      (λ q lt. loop_fuel f g q (omega arith) (omega arith))

prepend-ne :
    (events : List MultiplexEvent) (r : Fed) → r ≢ out_of_fuel → prepend events r ≢ out_of_fuel
prepend-ne events (fed p later) h e = cc
prepend-ne events (failed p x) h e = cc
prepend-ne events out_of_fuel h e = h refl

after_round_ends :
    (p : MultiplexParser) (f : MultiplexParser → Fed) (r : Round)
    → Shrinks (work p) r
    → ((q : MultiplexParser) → work q < work p → f q ≢ out_of_fuel)
    → after_round p f r ≢ out_of_fuel
after_round_ends p f (goes_on events q) lt ih = prepend-ne events (f q) (ih q lt)
after_round_ends p f waits lt ih = λ e. cc
after_round_ends p f (fails x) lt ih = λ e. cc

loop_ends : (f : ℕ) (p : MultiplexParser) → work p < f → loop f p ≢ out_of_fuel
unfolding loop
loop_ends zero p h = absurd (omega arith)
loop_ends (suc f) p h =
    after_round_ends p (loop f) (round p) (round-Shrinks p) (λ q lt. loop_ends f q (omega arith))

-- The loop with the fuel that `feed` gives it, and its equation.
unfoldable pub settle : MultiplexParser → Fed
settle p = loop (suc (work p)) p

pub settle_lem : (p : MultiplexParser) → settle p ≡ after_round p settle (round p)
unfolding settle loop
settle_lem p =
    after_round_agrees p (loop (work p)) settle (round p) (round-Shrinks p)
      (λ q lt. loop_fuel (work p) (suc (work q)) q lt (omega arith))

pub settle-round :
    (p : MultiplexParser) {r : Round} → round p ≡ r → settle p ≡ after_round p settle r
settle-round p h = settle_lem p ∙ ap (after_round p settle) h

-- `feed` returns on every input: its loop never runs out of fuel, and more fuel than the work that
-- the buffer holds changes nothing.
pub feed_total :
    (p : MultiplexParser) (bytes : Bytes)
    → (feed p bytes ≢ out_of_fuel)
      × ((fuel : ℕ) → work (receive p bytes) < fuel → loop fuel (receive p bytes) ≡ feed p bytes)
unfolding feed
feed_total p bytes =
    let q = receive p bytes in
    (
      loop_ends (suc (work q)) q (omega arith),
      λ fuel h. loop_fuel fuel (suc (work q)) q h (omega arith),
    )
