-- ===== src/Protocol/Multiplex/Lines.antt =====
-- The header lines that `Display` prints (core/src/core/protocol/multiplex.rs), read by the
-- branches of the parser.
use braid_rs.Prelude.Tokens.{IsToken, digits-IsToken, digits_skip, trim_line_end, trim_token}
use braid_rs.Prelude.{
  ℕ, ◌<◌, ◌^◌, ◌≡◌, refl, [], ◌∷◌, ◌++◌, none, false, Bytes, length, arith, ◌==◌, ◌||◌,
}
use braid_rs.Prelude.Decimal.{
  AreDigits, AreDigits-show, StartsWithDigit-show, show, parse_unsigned-show, StartsWithDigit,
  starts,
}
use braid_rs.Prelude.Chars.{
  count, count-append, contains_text_of_count, contains_text_append, split_once_skip, codes,
  strip_prefix, contains_text, trim_start_matches,
}
use braid_rs.Protocol.Multiplex.{
  start_response, data_for, close_response, MultiplexParser, body, consume, goes_on, size_line,
  header_line, display,
}

module _ (p : MultiplexParser) (n : ℕ) (id : Bytes) (token : IsToken id) where
  pub header_line-start :
      header_line p n (display (start_response id)) ≡ goes_on (start_response id ∷ []) (consume p n)
  unfolding header_line display strip_prefix
  header_line-start = rw (trim_line_end id token)

  count-token : (xs : Bytes) → IsToken xs → count 32 xs ≡ 0
  unfolding count
  count-token [] h = refl
  count-token (x ∷ xs) h = ground (arith, count-token xs h.1)

  close_is_no_size_line :
      contains_text (codes " bytes for response ") (display (close_response id)) ≡ false
  unfolding display count
  close_is_no_size_line =
      contains_text_of_count 32 (codes " bytes for response ") (display (close_response id)) (
        omega (
          arith,
          count-append 32 (codes "close response ") (id ++ codes "\r\n"),
          count-append 32 id (codes "\r\n"),
          count-token id token,
        ))

  pub header_line-close :
      header_line p n (display (close_response id)) ≡ goes_on (close_response id ∷ []) (consume p n)
  unfolding header_line display strip_prefix
  header_line-close = rw (close_is_no_size_line, trim_line_end id token) refl

abbrev size_mark : Bytes
size_mark = codes " bytes for response "

no_start :
    (ds rest : Bytes)
    → StartsWithDigit ds
    → strip_prefix (codes "start response ") (ds ++ rest) ≡ none
unfolding strip_prefix
no_start _ rest (starts c cs h) = ground arith

digits_no_line_end :
    (ds : Bytes) → AreDigits ds → trim_start_matches (λ c. c == b'\r' || c == b'\n') ds ≡ ds
unfolding trim_start_matches
digits_no_line_end [] h = refl
digits_no_line_end (d ∷ ds) h = ground arith

module _ (p : MultiplexParser) (n : ℕ) (id : Bytes) (token : IsToken id) where
  pub header_line-data :
      (bytes : Bytes)
      → length bytes < 2 ^ 64
      → header_line p n (display (data_for id bytes))
        ≡ goes_on [] (record (consume p n) { state = body id (length bytes) })
  unfolding header_line display size_line
  header_line-data bytes h =
      let ds = show (length bytes) in
      let digits = AreDigits-show (length bytes) in
      ground (
        arith,
        no_start ds (size_mark ++ (id ++ codes "\r\n")) (StartsWithDigit-show (length bytes)),
        contains_text_append size_mark ds (id ++ codes "\r\n"),
        split_once_skip b' ' (codes "bytes for response ") ds (id ++ codes "\r\n")
            (digits_skip ds digits),
        digits_no_line_end ds digits,
        trim_token ds (digits-IsToken ds digits),
        parse_unsigned-show (2 ^ 64) (length bytes) h,
        trim_line_end id token,
      )
