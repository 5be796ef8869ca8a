-- ===== src/Protocol/Headers/Heartbeat.antt =====
-- `parse_heartbeat` (core/src/core/protocol/headers.rs) on the decimal texts of its three forms.
use braid_rs.Prelude.Tokens.{All-reverse, IsToken, digits-IsToken, trim_token}
use braid_rs.Prelude.Decimal.{AreDigits, AreDigits-show, parse_unsigned-show, show}
use mathlib.Core.List.{reverse, reverse-append, reverse-reverse}
use braid_rs.Prelude.{
  Text, ap, some, ◌++◌, ◌≡◌, All-append, [], arith, none, ok, refl, ℕ, ◌/◌, ◌<◌, ◌^◌, ◌∷◌,
}
use braid_rs.Prelude.Chars.{strip_prefix_self, codes, strip_prefix, trim}
use braid_rs.Protocol.Headers.{strip_suffix, parse_heartbeat}

strip_suffix_self : (text suffix : Text) → strip_suffix suffix (text ++ suffix) ≡ some text
unfolding strip_suffix
strip_suffix_self text suffix =
    rw (reverse-append text suffix, strip_prefix_self (reverse suffix) (reverse text), strip_suffix)
      (ap some (reverse-reverse text))

-- A text of digits does not end in a letter.
strip_suffix_digits :
    (c : ℕ) (suffix ds : Text) → b'9' < c → AreDigits ds → strip_prefix (c ∷ suffix) ds ≡ none
unfolding strip_prefix
strip_suffix_digits c suffix [] big h = refl
strip_suffix_digits c suffix (d ∷ ds) big h = ground arith

AreDigits-reverse : (ds : Text) → AreDigits ds → AreDigits (reverse ds)
AreDigits-reverse ds h = All-reverse _ ds h

-- The three forms: with no unit, in seconds and in milliseconds.
module _ (n : ℕ) (fits : n < 2 ^ 64) where
  ends_in_no_letter :
      (c : ℕ) (suffix : Text) → b'9' < c → strip_prefix (c ∷ suffix) (reverse (show n)) ≡ none
  ends_in_no_letter c suffix big =
      strip_suffix_digits c suffix (reverse (show n)) big
        (AreDigits-reverse (show n) (AreDigits-show n))

  no_suffix :
      (suffix : Text) (c : ℕ) (rest : Text)
      → b'9' < c
      → reverse suffix ≡ c ∷ rest
      → strip_suffix suffix (show n) ≡ none
  unfolding strip_suffix
  no_suffix suffix c rest big e = rw (e, ends_in_no_letter c rest big, strip_suffix) refl

  no_milliseconds : strip_suffix (codes "ms") (show n ++ codes "s") ≡ none
  unfolding strip_suffix strip_prefix
  no_milliseconds =
      rw
        (reverse-append (show n) (codes "s"), ends_in_no_letter b'm' [] (omega arith), strip_suffix)
        refl

  trim_unit : (unit : Text) → IsToken unit → trim (show n ++ unit) ≡ show n ++ unit
  trim_unit unit h =
      trim_token (show n ++ unit)
        (All-append _ (show n) unit (digits-IsToken (show n) (AreDigits-show n)) h)

  trim_number : trim (show n) ≡ show n
  trim_number = trim_token (show n) (digits-IsToken (show n) (AreDigits-show n))

  plain_number : parse_heartbeat (show n) ≡ ok n
  unfolding parse_heartbeat
  plain_number = ground (
    arith,
    trim_number,
    no_suffix (codes "ms") b's' (codes "m") (omega arith) refl,
    no_suffix (codes "s") b's' [] (omega arith) refl,
    parse_unsigned-show (2 ^ 64) n fits,
  )

  in_seconds : parse_heartbeat (show n ++ codes "s") ≡ ok n
  unfolding parse_heartbeat
  in_seconds = ground (
    arith,
    trim_unit (codes "s") (omega arith),
    no_milliseconds,
    strip_suffix_self (show n) (codes "s"),
    parse_unsigned-show (2 ^ 64) n fits,
  )

  in_milliseconds : parse_heartbeat (show n ++ codes "ms") ≡ ok (n / 1000)
  unfolding parse_heartbeat
  in_milliseconds = ground (
    arith,
    trim_unit (codes "ms") (omega arith),
    strip_suffix_self (show n) (codes "ms"),
    parse_unsigned-show (2 ^ 64) n fits,
  )

  -- A number of seconds below 2^64 is read back from its decimal text, with or without the unit
  -- "s"; with the unit "ms" it is read as whole seconds, rounded down.
  parse_heartbeat-show :
      (parse_heartbeat (show n) ≡ ok n)
      × (parse_heartbeat (show n ++ codes "s") ≡ ok n)
      × (parse_heartbeat (show n ++ codes "ms") ≡ ok (n / 1000))
  parse_heartbeat-show = (plain_number, in_seconds, in_milliseconds)
