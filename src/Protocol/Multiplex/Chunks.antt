-- ===== src/Protocol/Multiplex/Chunks.antt =====
-- `MultiplexParser` (core/src/core/protocol/multiplex.rs) does not depend on how the stream is cut
-- into calls of `feed`, and an error is final.
use mathlib.Core.List.{append_assoc}
use braid_rs.Prelude.{
  ℕ, zero, suc, ◌≤◌, ◌<◌, ◌≡◌, refl, ◌≢◌, ◌∙◌, sym, ap, subst, List, [], ◌∷◌, ◌++◌, Option, none,
  some, Bytes, All, length, take, length-append, drop-append_le, take-append_le, arith,
}
use braid_rs.Prelude.Utf8.{from_utf8_lossy}
use braid_rs.Protocol.Multiplex.{
  MultiplexEvent, MultiplexError, MultiplexParser, ParserState, header, body, find_newline, consume,
  Round, goes_on, waits, fails, size_line, header_line, header_round, round_in, round, Fed, fed,
  failed, out_of_fuel, prepend, after_round, loop, work, receive, feed,
}
use braid_rs.Protocol.Multiplex.Loop.{InBuffer, find_newline_bounds, settle, settle-round, round-lt}

-- What a round does when more bytes stand behind the buffer.
abbrev more : Bytes → Round → Round
more bytes (goes_on events p) = goes_on events (receive p bytes)
more bytes waits = waits
more bytes (fails e) = fails e

abbrev Extends : Bytes → Option ℕ → Option ℕ → Type 0
Extends bytes none later = Unit {0}
Extends bytes (some n) later = later ≡ some n

find_newline-append :
    (xs bytes : Bytes) → Extends bytes (find_newline xs) (find_newline (xs ++ bytes))
unfolding find_newline
find_newline-append [] bytes = tt
find_newline-append (c ∷ xs) bytes = ground (arith, find_newline-append xs bytes)

module _ (p : MultiplexParser) (bytes : Bytes) where
  consume-receive :
      (n : ℕ) → n ≤ length p.buffer → consume (receive p bytes) n ≡ receive (consume p n) bytes
  unfolding consume
  consume-receive n h = rw (drop-append_le n p.buffer bytes h)

  header_line-receive :
      (n : ℕ) (line : Bytes)
      → n ≤ length p.buffer
      → header_line (receive p bytes) n line ≡ more bytes (header_line p n line)
  unfolding header_line size_line
  header_line-receive n line h = ground (arith, consume-receive n h)

  -- A round that does not wait does the same when more bytes have arrived.
  abbrev Unaffected : Round → Round → Type 0
  Unaffected r later = (r ≢ waits) → later ≡ more bytes r

  header_round-receive :
      (end later : Option ℕ)
      → InBuffer p.buffer end
      → Extends bytes end later
      → Unaffected (header_round p end) (header_round (receive p bytes) later)
  unfolding header_round
  header_round-receive none later h e moved = absurd (moved refl)
  header_round-receive (some n) later h e moved =
      rw (e, take-append_le n p.buffer bytes h.1)
        (header_line-receive n (from_utf8_lossy (take n p.buffer)) h.1)

  round_in-receive : (s : ParserState) → Unaffected (round_in s p) (round_in s (receive p bytes))
  unfolding round_in
  round_in-receive header moved =
      header_round-receive (find_newline p.buffer) (find_newline (p.buffer ++ bytes))
        (find_newline_bounds p.buffer) (find_newline-append p.buffer bytes) moved
  round_in-receive (body id n) moved =
      ground
        (arith, consume-receive n, take-append_le n p.buffer bytes, length-append p.buffer bytes)

  round-receive : Unaffected (round p) (round (receive p bytes))
  round-receive = round_in-receive p.state

-- The end of the loop on the longer buffer, from its end on the shorter one.
abbrev pub resume : Bytes → Fed → Fed
resume bytes (fed p events) = prepend events (settle (receive p bytes))
resume bytes (failed p e) = failed (receive p bytes) e
resume bytes out_of_fuel = out_of_fuel

pub prepend-nil : (r : Fed) → prepend [] r ≡ r
prepend-nil (fed p events) = refl
prepend-nil (failed p e) = refl
prepend-nil out_of_fuel = refl

prepend-append :
    (xs ys : List MultiplexEvent) (r : Fed) → prepend (xs ++ ys) r ≡ prepend xs (prepend ys r)
prepend-append xs ys (fed p events) = ap (fed p) (append_assoc xs ys events)
prepend-append xs ys (failed p e) = refl
prepend-append xs ys out_of_fuel = refl

prepend-resume :
    (events : List MultiplexEvent) (bytes : Bytes) (r : Fed)
    → prepend events (resume bytes r) ≡ resume bytes (prepend events r)
prepend-resume events bytes (fed p later) =
    sym (prepend-append events later (settle (receive p bytes)))
prepend-resume events bytes (failed p e) = refl
prepend-resume events bytes out_of_fuel = refl

resume-round :
    (p : MultiplexParser) (bytes : Bytes) (again : MultiplexParser → Fed) (r : Round)
    → round p ≡ r
    → ((events : List MultiplexEvent) (q : MultiplexParser)
        → r ≡ goes_on events q
        → settle (receive q bytes) ≡ resume bytes (again q))
    → settle (receive p bytes) ≡ resume bytes (after_round p again r)
resume-round p bytes again (goes_on events q) h ih =
    settle-round (receive p bytes) (round-receive p bytes (λ e. cc) ∙ ap (more bytes) h)
    ∙ ap (prepend events) (ih events q refl)
    ∙ prepend-resume events bytes (again q)
resume-round p bytes again waits h ih = sym (prepend-nil (settle (receive p bytes)))
resume-round p bytes again (fails e) h ih =
    settle-round (receive p bytes) (round-receive p bytes (λ e. cc) ∙ ap (more bytes) h)

resume-loop :
    (f : ℕ) (p : MultiplexParser) (bytes : Bytes)
    → work p < f
    → settle (receive p bytes) ≡ resume bytes (loop f p)
unfolding loop
resume-loop zero p bytes h = absurd (omega arith)
resume-loop (suc f) p bytes h =
    resume-round p bytes (loop f) (round p) refl
      λ events q e. resume-loop f q bytes (omega (arith, round-lt p q e))

receive_twice :
    (p : MultiplexParser) (xs ys : Bytes) → receive (receive p xs) ys ≡ receive p (xs ++ ys)
receive_twice p xs ys = ap (λ bytes. record p { buffer = bytes }) (append_assoc p.buffer xs ys)

-- What is fed after the bytes whose outcome is given.
abbrev pub then_feed : Bytes → Fed → Fed
then_feed bytes (fed q events) = prepend events (feed q bytes)
then_feed bytes (failed q e) = failed (receive q bytes) e
then_feed bytes out_of_fuel = out_of_fuel

-- How the stream is cut does not matter: one call of `feed` on two pieces is the call on the
-- second piece after the call on the first, with the events of both in order. If the first piece
-- fails, the whole fails with the same error.
pub feed-append :
    (p : MultiplexParser) (xs ys : Bytes) → feed p (xs ++ ys) ≡ then_feed ys (feed p xs)
unfolding feed settle
feed-append p xs ys =
    ap settle (sym (receive_twice p xs ys))
    ∙ resume-loop (suc (work (receive p xs))) (receive p xs) ys (omega arith)
    ∙ same (feed p xs)
  where
    same : (r : Fed) → resume ys r ≡ then_feed ys r
    same (fed q events) = refl
    same (failed q e) = refl
    same out_of_fuel = refl

abbrev pub IsSettled : Fed → Type 0
IsSettled (fed q _) = round q ≡ waits
IsSettled (failed q e) = round q ≡ fails e
IsSettled out_of_fuel = ⊥

prepend-IsSettled :
    (events : List MultiplexEvent) (r : Fed) → IsSettled r → IsSettled (prepend events r)
prepend-IsSettled events (fed q _) h = h
prepend-IsSettled events (failed q e) h = h
prepend-IsSettled events out_of_fuel h = h

after_round-IsSettled :
    (p : MultiplexParser) (again : MultiplexParser → Fed) (r : Round)
    → round p ≡ r
    → ((events : List MultiplexEvent) (q : MultiplexParser)
        → r ≡ goes_on events q
        → IsSettled (again q))
    → IsSettled (after_round p again r)
after_round-IsSettled p again (goes_on events q) h ih =
    prepend-IsSettled events (again q) (ih events q refl)
after_round-IsSettled p again waits h ih = h
after_round-IsSettled p again (fails e) h ih = h

loop-IsSettled : (f : ℕ) (p : MultiplexParser) → work p < f → IsSettled (loop f p)
unfolding loop
loop-IsSettled zero p h = absurd (omega arith)
loop-IsSettled (suc f) p h =
    after_round-IsSettled p (loop f) (round p) refl
      λ events q e. loop-IsSettled f q (omega (arith, round-lt p q e))

pub feed-IsSettled : (p : MultiplexParser) (bytes : Bytes) → IsSettled (feed p bytes)
unfolding feed
feed-IsSettled p bytes =
    loop-IsSettled (suc (work (receive p bytes))) (receive p bytes) (omega arith)

-- An error is final: after a call of `feed` that failed, every later call fails with the same
-- error, and the refused line stays at the front of the buffer.
feed_after_failed :
    (p : MultiplexParser) (xs ys : Bytes) {q : MultiplexParser} {e : MultiplexError}
    → feed p xs ≡ failed q e
    → feed q ys ≡ failed (receive q ys) e
unfolding feed settle
feed_after_failed p xs ys {q} {e} h =
    let stuck : round q ≡ fails e = subst IsSettled h (feed-IsSettled p xs) in
    settle-round (receive q ys) (round-receive q ys (λ w. cc) ∙ ap (more ys) stuck)

-- In the header state no line feed is left, in the data state fewer bytes than the frame needs.
abbrev pub IsShort : ParserState → Bytes → Type 0
IsShort header buffer = All (λ b. b ≢ b'\n') buffer
IsShort (body id remaining) buffer = length buffer < remaining

no_newline : (bs : Bytes) → find_newline bs ≡ none → All (λ b. b ≢ b'\n') bs
unfolding find_newline
no_newline [] h = tt
no_newline (c ∷ bs) h = (ground arith, no_newline bs (ground arith))

round_in-waits : (s : ParserState) (p : MultiplexParser) → round_in s p ≡ waits → IsShort s p.buffer
unfolding round_in header_round header_line size_line
round_in-waits header p h = no_newline p.buffer (ground arith)
round_in-waits (body id remaining) p h = ground arith

-- A call that returns has read all that it can: it leaves no line feed in the header state, and in
-- the data state fewer bytes than the announced frame still needs.
pub feed-IsShort :
    (p : MultiplexParser) (bytes : Bytes) {q : MultiplexParser} {events : List MultiplexEvent}
    → feed p bytes ≡ fed q events
    → IsShort q.state q.buffer
feed-IsShort p bytes {q} h = round_in-waits q.state q (subst IsSettled h (feed-IsSettled p bytes))
