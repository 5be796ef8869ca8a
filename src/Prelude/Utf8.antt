-- ===== src/Prelude/Utf8.antt =====
-- `String::from_utf8_lossy`: bytes to code points, where each maximal ill-formed part becomes one
-- U+FFFD.
use Prim.Native.Nat.{◌/◌, ◌%◌, ℕ, ◌+◌, ◌-◌, ◌*◌, ◌<◌, ◌≤◌}
use mathlib.Core.Path.{◌≡◌, refl}
use mathlib.Core.Bool.{Bool, true, ◌&&◌, ◌||◌}
use mathlib.Core.Option.{Option, none, some}
use mathlib.Core.List.{[], ◌∷◌, ◌++◌}
use native.Mathlib.Omega.{arith}
use braid_rs.Prelude.Tests.{ltb, leb, ◌==◌, if◌then◌else◌}
use braid_rs.Prelude.Lists.{Bytes, All, length, length-append}

-- Between two bytes: how many continuation bytes are missing, the range of the next one, and the
-- bits that are read so far.
pub record Decoder : Type 0 where
  pub need : ℕ
  pub low : ℕ
  pub high : ℕ
  pub bits : ℕ

abbrev pub idle : Decoder
idle = record { need = 0; low = 0x80; high = 0xbf; bits = 0 }

abbrev pub replacement : ℕ
replacement = 0xfffd

abbrev lead : ℕ → ℕ → ℕ → ℕ → Bytes × Decoder
lead need low high bits = ([], record { need = need; low = low; high = high; bits = bits })

-- A byte where a character starts.
first_byte : ℕ → Bytes × Decoder
first_byte b =
    if ltb b 0x80
    then (b ∷ [], idle)
    else if ltb b 0xc2
    then (replacement ∷ [], idle)
    else if ltb b 0xe0
    then lead 1 0x80 0xbf (b - 0xc0)
    else if b == 0xe0
    then lead 2 0xa0 0xbf 0
    else if b == 0xed
    then lead 2 0x80 0x9f 13
    else if ltb b 0xf0
    then lead 2 0x80 0xbf (b - 0xe0)
    else if b == 0xf0
    then lead 3 0x90 0xbf 0
    else if ltb b 0xf4
    then lead 3 0x80 0xbf (b - 0xf0)
    else if b == 0xf4
    then lead 3 0x80 0x8f 4
    else (replacement ∷ [], idle)

-- A byte inside a character; one that does not fit ends the part and is read anew.
next_byte : Decoder → ℕ → Bytes × Decoder
unfolding first_byte
next_byte d b =
    if leb d.low b && leb b d.high
    then (if d.need == 1
        then ((d.bits * 64 + (b - 0x80)) ∷ [], idle)
        else lead (d.need - 1) 0x80 0xbf (d.bits * 64 + (b - 0x80)))
    else (let (out, d') = first_byte b in (replacement ∷ out, d'))

decode_byte : Decoder → ℕ → Bytes × Decoder
unfolding first_byte next_byte
decode_byte d b = if d.need == 0 then first_byte b else next_byte d b

unfoldable pub decode_from : Decoder → Bytes → Bytes
unfolding decode_byte
decode_from d [] = if d.need == 0 then [] else replacement ∷ []
decode_from d (b ∷ bs) = let (out, d') = decode_byte d b in out ++ decode_from d' bs

unfoldable pub from_utf8_lossy : Bytes → Bytes
unfolding decode_from
from_utf8_lossy = decode_from idle

-- ASCII bytes are their own code points.
pub from_utf8_lossy_ascii : (bs : Bytes) → All (λ b. b < 128) bs → from_utf8_lossy bs ≡ bs
unfolding from_utf8_lossy
from_utf8_lossy_ascii [] h = refl
from_utf8_lossy_ascii (b ∷ bs) h = ground (arith, from_utf8_lossy_ascii bs h.1)

-- `String::into_bytes`: the UTF-8 bytes of a code point.
encode_char : ℕ → Bytes
encode_char c =
    if ltb c 0x80
    then c ∷ []
    else if ltb c 0x800
    then (0xc0 + c / 64) ∷ (0x80 + c % 64) ∷ []
    else if ltb c 0x10000
    then (0xe0 + c / 4096) ∷ (0x80 + c / 64 % 64) ∷ (0x80 + c % 64) ∷ []
    else (0xf0 + c / 262144) ∷ (0x80 + c / 4096 % 64) ∷ (0x80 + c / 64 % 64) ∷ (0x80 + c % 64) ∷ []

unfoldable pub encode_utf8 : Bytes → Bytes
unfolding encode_char
encode_utf8 [] = []
encode_utf8 (c ∷ cs) = encode_char c ++ encode_utf8 cs

-- A text has at least as many bytes as code points.
pub length-encode_utf8 : (s : Bytes) → length s ≤ length (encode_utf8 s)
unfolding encode_utf8 encode_char
length-encode_utf8 [] = omega arith
length-encode_utf8 (c ∷ cs) =
    ground (arith, length-encode_utf8 cs, length-append (encode_char c) (encode_utf8 cs))

-- A byte that may stand where the decoder is.
fits : Decoder → ℕ → Bool
fits d b =
    if d.need == 0 then ltb b 0x80 || leb 0xc2 b && leb b 0xf4 else leb d.low b && leb b d.high

valid_from : Decoder → Bytes → Bool
unfolding fits decode_byte first_byte next_byte
valid_from d [] = d.need == 0
valid_from d (b ∷ bs) = fits d b && valid_from (decode_byte d b).1 bs

-- `String::from_utf8` and `str::from_utf8`: nothing is read from bytes that are not well-formed.
unfoldable pub from_utf8 : Bytes → Option Bytes
unfolding valid_from from_utf8_lossy
from_utf8 bs = if valid_from idle bs then some (from_utf8_lossy bs) else none

valid_from_ascii : (bs : Bytes) → All (λ b. b < 128) bs → valid_from idle bs ≡ true
unfolding valid_from
valid_from_ascii [] h = refl
valid_from_ascii (b ∷ bs) h = ground (arith, valid_from_ascii bs h.1)

pub from_utf8_ascii : (bs : Bytes) → All (λ b. b < 128) bs → from_utf8 bs ≡ some bs
unfolding from_utf8
from_utf8_ascii bs h = rw (valid_from_ascii bs h, from_utf8_lossy_ascii bs h) refl
