-- ===== src/Client/Parser/Ends.antt =====
-- The loop of `MessageParser::feed` (core/src/core/client/parser.rs) ends: a round reads bytes, or
-- it turns to a state of lower rank.
use braid_rs.Client.Messages.{
  MessageParser, ParseError, ParseState, Parsed, Texts, body_remaining, consume, count_patches,
  find_double_newline, find_header_end, header_end, parsed, patch_remaining, read_counts,
  read_patch_length_header, refused, try_parse_body, try_parse_patch_body, waiting_for_body,
  Message, complete, error, parsing_headers, skip_newlines, skipping_separator, waiting_for_headers,
  waiting_for_patch_body, waiting_for_patch_headers,
}
use braid_rs.Client.Parser.{
  body_round, encoding_header, encoding_in, headers_in, parse_headers, parse_patch_headers,
  patch_body_round, patch_headers_in, patch_read, rank, separator_round, turn, work, begin_message,
  check_encoding_block, starts_with_e, feed, headers_round, patch_headers_round, receive, round,
  round_in, after_check, headers_to, patch_headers_to,
}
use braid_rs.Prelude.{
  ℕ, suc, ◌+◌, ◌-◌, ◌≤◌, ◌<◌, ◌≡◌, ◌≢◌, [], ◌∷◌, Option, none, some, Bytes, length, take,
  length-drop, arith, Result, ok, err, ◌==◌, Bool, ◌||◌, Text, inl, inr, Bool-cases,
}
use braid_rs.Prelude.Lines.{Within, rfind_end_bounds, find_end_bounds}
use braid_rs.Prelude.Rounds.{
  Round, Shrinks, out_of_fuel, loop_ends, loop_fuel, loop, waits, fails, goes_on,
}
use braid_rs.Prelude.Chars.{codes, trim_start_matches}
use braid_rs.Prelude.Utf8.{from_utf8}

-- What a step leaves in the buffer.
abbrev Leaves : ℕ → Parsed → Type 0
Leaves bound (parsed p) = length p.buffer ≤ bound
Leaves bound (refused _ _) = Unit {0}

abbrev Consumes : ℕ → Result ParseError (Option MessageParser) → Type 0
Consumes bound (err _) = Unit {0}
Consumes bound (ok none) = Unit {0}
Consumes bound (ok (some p)) = length p.buffer + 2 ≤ bound

Shrinks-widen :
    (m n : ℕ) (r : Round MessageParser ParseError Message)
    → m ≤ n
    → Shrinks work m r
    → Shrinks work n r
Shrinks-widen m n (goes_on _ p) h s = omega arith
Shrinks-widen m n (waits p) h s = tt
Shrinks-widen m n (fails p e) h s = tt

trim_start_le : (p : ℕ → Bool) (bytes : Bytes) → length (trim_start_matches p bytes) ≤ length bytes
unfolding trim_start_matches
trim_start_le p [] = omega arith
trim_start_le p (b ∷ bytes) = ground (arith, trim_start_le p bytes)

find_header_end-Within : (b : Bytes) → Within 4 (length b) (find_header_end b)
unfolding find_header_end
find_header_end-Within b = rfind_end_bounds header_end b

find_double_newline-Within : (b : Bytes) → Within 2 (length b) (find_double_newline b)
unfolding find_double_newline
find_double_newline-Within b =
    ground (arith, find_end_bounds header_end b, find_end_bounds (codes "\n\n") b)

read_counts-Leaves : (p : MessageParser) → Leaves (length p.buffer) (read_counts p)
unfolding read_counts count_patches
read_counts-Leaves p = ground arith

read_patch_length_header-Leaves :
    (p : MessageParser) → Leaves (length p.buffer) (read_patch_length_header p)
unfolding read_patch_length_header
read_patch_length_header-Leaves p = ground arith

Leaves-turn :
    (s : ParseState) (r : Parsed) (bound w : ℕ)
    → Leaves bound r
    → bound + rank s < w
    → Shrinks work w (turn s r)
Leaves-turn s (parsed p) bound w h k = omega arith
Leaves-turn s (refused p e) bound w h k = tt

try_parse_body_le : (p : MessageParser) → length (try_parse_body p).0.buffer ≤ length p.buffer
unfolding try_parse_body
try_parse_body_le p = ground (arith, length-drop (body_remaining p) p.buffer)

body_round-Shrinks : (p : MessageParser) → Shrinks work (suc (length p.buffer)) (body_round p)
unfolding body_round
body_round-Shrinks p = ground (arith, try_parse_body_le p)

try_parse_patch_body_le :
    (p : MessageParser) → length (try_parse_patch_body p).0.buffer ≤ length p.buffer
unfolding try_parse_patch_body
try_parse_patch_body_le p = ground (arith, length-drop (patch_remaining p) p.buffer)

patch_body_round-Shrinks :
    (p : MessageParser) → Shrinks work (suc (suc (length p.buffer))) (patch_body_round p)
unfolding patch_body_round patch_read
patch_body_round-Shrinks p = ground (arith, try_parse_patch_body_le p)

separator_round-Shrinks :
    (b : Bytes) (p : MessageParser) → Shrinks work (suc (length p.buffer)) (separator_round b p)
unfolding separator_round
separator_round-Shrinks [] p = tt
separator_round-Shrinks (b ∷ []) p = ground (arith, length-drop 1 p.buffer)
separator_round-Shrinks (b ∷ c ∷ _) p =
    ground (arith, length-drop 1 p.buffer, length-drop 2 p.buffer)

encoding_header-Consumes :
    (p : MessageParser) (end : ℕ) (groups : Text × Text)
    → 2 ≤ end
    → end ≤ length p.buffer
    → Consumes (length p.buffer) (encoding_header p end groups)
unfolding encoding_header
encoding_header-Consumes p end (encoding, digits) h k = ground (arith, length-drop end p.buffer)

module _ (t : Texts) where
  headers_in-Leaves :
      (p : MessageParser) (o : Option Text) → Leaves (length p.buffer) (headers_in t p o)
  unfolding headers_in
  headers_in-Leaves p none = tt
  headers_in-Leaves p (some text) = read_counts-Leaves _

  parse_headers-Leaves :
      (p : MessageParser) (end : ℕ) → Leaves (length p.buffer - end) (parse_headers t p end)
  unfolding parse_headers
  parse_headers-Leaves p end =
      rw (← length-drop end p.buffer)
        (headers_in-Leaves (consume p end) (from_utf8 (take (end - 4) p.buffer)))

  patch_headers_in-Leaves :
      (p : MessageParser) (o : Option Text) → Leaves (length p.buffer) (patch_headers_in t p o)
  unfolding patch_headers_in
  patch_headers_in-Leaves p none = tt
  patch_headers_in-Leaves p (some text) = read_patch_length_header-Leaves _

  parse_patch_headers-Leaves :
      (p : MessageParser) (end : ℕ) → Leaves (length p.buffer - end) (parse_patch_headers t p end)
  unfolding parse_patch_headers
  parse_patch_headers-Leaves p end =
      rw (← length-drop end p.buffer)
        (patch_headers_in-Leaves (consume p end) (from_utf8 (take (end - 4) p.buffer)))

  encoding_in-Consumes :
      (p : MessageParser) (end : ℕ) (o : Option Text)
      → 2 ≤ end
      → end ≤ length p.buffer
      → Consumes (length p.buffer) (encoding_in t p end o)
  unfolding encoding_in
  encoding_in-Consumes p end none h k = tt
  encoding_in-Consumes p end (some text) h k =
      elim (t.encoding_block text)
        as (λ groups.
          Consumes (length p.buffer)
            (elim groups [ none ↦ ok none | some g ↦ encoding_header p end g ])) [
              | none ↦ tt
              | some groups ↦ encoding_header-Consumes p end groups h k
            ]

  headers_to-Shrinks :
      (p : MessageParser) (o : Option ℕ)
      → Within 4 (length p.buffer) o
      → Shrinks work (length p.buffer) (headers_to t p o)
  unfolding headers_to
  headers_to-Shrinks p none h = tt
  headers_to-Shrinks p (some pos) h =
      Leaves-turn waiting_for_body (parse_headers t p pos) _ _ (parse_headers-Leaves p pos)
        (omega arith)

  check_encoding_block-Consumes :
      (p : MessageParser) → Consumes (length p.buffer) (check_encoding_block t p)
  unfolding check_encoding_block
  check_encoding_block-Consumes p = elim (Bool-cases (starts_with_e p.buffer)) [
    | inl e ↦ rw e (go (find_double_newline p.buffer) (find_double_newline-Within p.buffer))
    | inr e ↦ rw e tt
  ]
    where
      go :
          (o : Option ℕ)
          → Within 2 (length p.buffer) o
          → Consumes (length p.buffer) (elim o [
            | none ↦ ok none
            | some end ↦ encoding_in t p end (from_utf8 (take end p.buffer))
          ])
      go none h = tt
      go (some end) h =
          encoding_in-Consumes p end (from_utf8 (take end p.buffer)) (omega arith) (omega arith)

  after_check-Shrinks :
      (p : MessageParser) (r : Result ParseError (Option MessageParser))
      → Consumes (length p.buffer) r
      → Shrinks work (length p.buffer) (after_check t p r)
  unfolding after_check
  after_check-Shrinks p (err e) c = tt
  after_check-Shrinks p (ok none) c =
      headers_to-Shrinks p (find_header_end p.buffer) (find_header_end-Within p.buffer)
  after_check-Shrinks p (ok (some q)) c = omega arith

  begin_message-Shrinks : (p : MessageParser) → Shrinks work (length p.buffer) (begin_message t p)
  unfolding begin_message
  begin_message-Shrinks p =
      let checked =
        after_check-Shrinks p (check_encoding_block t p) (check_encoding_block-Consumes p) in
      elim p.buffer
        as (λ b.
          Shrinks work (length p.buffer)
            (elim b [ [] ↦ waits p | _ ∷ _ ↦ after_check t p (check_encoding_block t p) ])) [
              | [] ↦ tt
              | _ ∷ _ ↦ checked
            ]

  headers_round-Shrinks : (p : MessageParser) → Shrinks work (length p.buffer) (headers_round t p)
  unfolding headers_round skip_newlines
  headers_round-Shrinks p =
      Shrinks-widen _ _ (headers_round t p) (trim_start_le (λ c. c == b'\r' || c == b'\n') p.buffer)
        (begin_message-Shrinks (skip_newlines p))

  patch_headers_to-Shrinks :
      (p : MessageParser) (o : Option ℕ)
      → Within 4 (length p.buffer) o
      → Shrinks work (length p.buffer) (patch_headers_to t p o)
  unfolding patch_headers_to
  patch_headers_to-Shrinks p none h = tt
  patch_headers_to-Shrinks p (some pos) h =
      Leaves-turn waiting_for_patch_body (parse_patch_headers t p pos) _ _
        (parse_patch_headers-Leaves p pos) (omega arith)

  patch_headers_round-Shrinks :
      (p : MessageParser) → Shrinks work (length p.buffer) (patch_headers_round t p)
  unfolding patch_headers_round
  patch_headers_round-Shrinks p =
      patch_headers_to-Shrinks p (find_header_end p.buffer) (find_header_end-Within p.buffer)

  round_in-Shrinks :
      (s : ParseState) (p : MessageParser)
      → Shrinks work (length p.buffer + rank s) (round_in t s p)
  unfolding round_in
  round_in-Shrinks waiting_for_headers p =
      Shrinks-widen _ _ (headers_round t p) (omega arith) (headers_round-Shrinks p)
  round_in-Shrinks waiting_for_body p =
      Shrinks-widen _ _ (body_round p) (omega arith) (body_round-Shrinks p)
  round_in-Shrinks waiting_for_patch_headers p =
      Shrinks-widen _ _ (patch_headers_round t p) (omega arith) (patch_headers_round-Shrinks p)
  round_in-Shrinks waiting_for_patch_body p =
      Shrinks-widen _ _ (patch_body_round p) (omega arith) (patch_body_round-Shrinks p)
  round_in-Shrinks skipping_separator p =
      Shrinks-widen _ _ (separator_round p.buffer p) (omega arith)
        (separator_round-Shrinks p.buffer p)
  round_in-Shrinks parsing_headers p = tt
  round_in-Shrinks complete p = tt
  round_in-Shrinks error p = tt

  pub round-Shrinks : (p : MessageParser) → Shrinks work (work p) (round t p)
  round-Shrinks p = round_in-Shrinks p.state p

  -- `feed` returns on every input: its loop never runs out of fuel, whatever the libraries answer,
  -- and more fuel than the length of the buffer and the rank of the state changes nothing.
  pub feed_returns :
      (p : MessageParser) (bytes : Bytes)
      → (feed t p bytes ≢ out_of_fuel)
        × ((fuel : ℕ)
            → work (receive p bytes) < fuel
            → loop (round t) fuel (receive p bytes) ≡ feed t p bytes)
  unfolding feed
  feed_returns p bytes =
      let q = receive p bytes in
      (
        loop_ends (round t) work round-Shrinks (suc (work q)) q (omega arith),
        λ fuel h. loop_fuel (round t) work round-Shrinks fuel (suc (work q)) q h (omega arith),
      )
