-- ===== src/Blob/Names.antt =====
-- `encode_filename` and `decode_filename` (core/src/blob/store.rs): the file name of a key. The
-- Unicode tables of letters are parameters.
pub mod RoundTrip
use braid_rs.Prelude.{
  ℕ, ◌+◌, ◌-◌, ◌*◌, ◌/◌, ◌%◌, Bool, true, false, ◌&&◌, ◌||◌, List, [], ◌∷◌, ◌++◌, Option, none,
  some, Text, ltb, leb, ◌==◌, if◌then◌else◌, length, map, str_eq,
}
use braid_rs.Prelude.Chars.{codes, to_lowercase, strip_prefix, trim_start_matches}

-- `char::is_alphabetic` and `char::is_uppercase`.
pub record Letters : Type 0 where
  pub is_alphabetic : ℕ → Bool
  pub is_uppercase : ℕ → Bool

-- `{:X}` and `{:x}` of a number below 16.
unfoldable pub upper_digit : ℕ → ℕ
upper_digit n = if ltb n 10 then b'0' + n else b'A' + (n - 10)

unfoldable pub lower_digit : ℕ → ℕ
lower_digit n = if ltb n 10 then b'0' + n else b'a' + (n - 10)

-- `%{:02X}` of `c as u8`.
unfoldable pub encode_char : ℕ → Text
unfolding upper_digit
encode_char c = b'%' ∷ upper_digit (c % 256 / 16) ∷ upper_digit (c % 16) ∷ []

unfoldable pub swap_slash : ℕ → ℕ
swap_slash c = if c == b'/' then b'!' else if c == b'!' then b'/' else c

unfoldable pub is_unsafe : ℕ → Bool
is_unsafe c =
    c == b'<'
    || c == b'>'
    || c == b':'
    || c == b'"'
    || c == b'/'
    || c == b'|'
    || c == b'\\'
    || c == b'?'
    || c == b'*'
    || c == b'%'
    || leb c 0x1f
    || c == 0x7f

unfoldable pub encode_unsafe : Text → Text
unfolding is_unsafe encode_char
encode_unsafe [] = []
encode_unsafe (c ∷ cs) = (if is_unsafe c then encode_char c else c ∷ []) ++ encode_unsafe cs

-- `split('.').next()`.
unfoldable pub before_dot : Text → Text
before_dot [] = []
before_dot (c ∷ cs) = let more = c ∷ before_dot cs in if c == b'.' then [] else more

-- A device name with a digit from 1 to 9: a text of four bytes behind three letters is one letter
-- more.
unfoldable pub is_numbered : Text → Text → Bool
unfolding strip_prefix
is_numbered device name = elim (strip_prefix device name) [
  | some (d ∷ []) ↦ leb b'1' d && leb d b'9'
  | _ ↦ false
]

unfoldable pub is_reserved_name : Text → Bool
unfolding str_eq is_numbered
is_reserved_name name =
    str_eq name (codes "con")
    || str_eq name (codes "prn")
    || str_eq name (codes "aux")
    || str_eq name (codes "nul")
    || is_numbered (codes "com") name
    || is_numbered (codes "lpt") name

-- The lower case of Unicode gives the letters of these names from their own upper case only.
unfoldable pub is_reserved : Text → Bool
unfolding is_reserved_name before_dot to_lowercase
is_reserved s = is_reserved_name (before_dot (to_lowercase s))

unfoldable pub encode_third : Text → Text
unfolding encode_char
encode_third (a ∷ b ∷ c ∷ rest) = a ∷ b ∷ (encode_char c ++ rest)
encode_third (a ∷ b ∷ []) = a ∷ b ∷ []
encode_third (a ∷ []) = a ∷ []
encode_third [] = []

abbrev pub bit_of : Letters → ℕ → ℕ
bit_of letters c = if letters.is_uppercase c then 1 else 0

-- The bits of the letters, padded to the left; four make a digit.
unfoldable pub case_bits : Letters → Text → List ℕ
case_bits letters [] = []
case_bits letters (c ∷ cs) =
    let rest = case_bits letters cs in
    if letters.is_alphabetic c then bit_of letters c ∷ rest else rest

unfoldable pub nibbles : List ℕ → Text
unfolding lower_digit
nibbles (a ∷ b ∷ c ∷ d ∷ bits) = lower_digit (a * 8 + b * 4 + c * 2 + d) ∷ nibbles bits
nibbles _ = []

unfoldable pub pad : List ℕ → List ℕ
pad bits =
    if length bits % 4 == 0
    then bits
    else if length bits % 4 == 1
    then 0 ∷ 0 ∷ 0 ∷ bits
    else if length bits % 4 == 2
    then 0 ∷ 0 ∷ bits
    else 0 ∷ bits

abbrev pub or_zero : Text → Text
or_zero [] = codes "0"
or_zero (c ∷ cs) = c ∷ cs

unfoldable pub bits_to_hex : List ℕ → Text
unfolding nibbles pad trim_start_matches
bits_to_hex bits = or_zero (trim_start_matches (λ c. c == b'0') (nibbles (pad bits)))

-- The name before its postfix.
unfoldable pub encode_stem : Text → Text
unfolding encode_unsafe swap_slash is_reserved encode_third
encode_stem key =
    let s = encode_unsafe (map swap_slash key) in if is_reserved s then encode_third s else s

unfoldable pub encode_filename : Letters → Text → Text
unfolding encode_stem bits_to_hex case_bits
encode_filename letters key = encode_stem key ++ (b'.' ∷ bits_to_hex (case_bits letters key))

-- What stands before the last dot, or all of it.
unfoldable pub before_last_dot : Text → Option Text
before_last_dot [] = none
before_last_dot (c ∷ cs) = elim (before_last_dot cs) [
  | some before ↦ some (c ∷ before)
  | none ↦ if c == b'.' then some [] else none
]

unfoldable pub hex_value : ℕ → Option ℕ
hex_value c =
    if leb b'0' c && leb c b'9'
    then some (c - b'0')
    else if leb b'A' c && leb c b'F'
    then some (c - b'A' + 10)
    else if leb b'a' c && leb c b'f'
    then some (c - b'a' + 10)
    else none

abbrev pub pair_value : Option ℕ → Option ℕ → Option ℕ
pair_value (some high) (some low) = some (high * 16 + low)
pair_value (some high) none = none
pair_value none low = none

-- `u8::from_str_radix` of two characters, which takes a leading `+`.
unfoldable pub hex_pair : ℕ → ℕ → Option ℕ
unfolding hex_value
hex_pair a b = if a == b'+' then hex_value b else pair_value (hex_value a) (hex_value b)

-- The byte of two digits, or what stood there.
abbrev pub byte_or : Option ℕ → ℕ → ℕ → Text
byte_or (some byte) a b = byte ∷ []
byte_or none a b = b'%' ∷ a ∷ b ∷ []

-- A `%` takes up to two characters with it.
unfoldable pub decode_percent : Text → Text
unfolding hex_pair
decode_percent [] = []
decode_percent (c ∷ []) = c ∷ []
decode_percent (c ∷ a ∷ []) =
    let kept = c ∷ decode_percent (a ∷ []) in if c == b'%' then c ∷ a ∷ [] else kept
decode_percent (c ∷ a ∷ b ∷ rest) =
    let pair = byte_or (hex_pair a b) a b ++ decode_percent rest in
    let kept = c ∷ decode_percent (a ∷ b ∷ rest) in if c == b'%' then pair else kept

unfoldable pub decode_filename : Text → Text
unfolding decode_percent before_last_dot swap_slash
decode_filename name = elim (before_last_dot name) [
  | some stem ↦ map swap_slash (decode_percent stem)
  | none ↦ map swap_slash (decode_percent name)
]
