-- ===== src/Client/Parser/Blocks.antt =====
-- Blocks of header lines as `MessageParser` reads them (core/src/core/client/parser.rs): the lines
-- of a printed block, their names and values, and the end of the block in the buffer.
use braid_rs.Prelude.Tokens.{IsToken, trim_token}
use braid_rs.Client.Messages.{LowersAscii, Texts, read_lines}
use mathlib.Core.List.{append-nil, append_assoc}
use braid_rs.Prelude.{
  All, Map, Text, [], ap, arith, false, if◌then◌else◌, insert, refl, ℕ, ◌++◌, ◌<◌, ◌==◌, ◌∙◌, ◌∷◌,
  ◌≡◌, ◌≢◌, ◌⊎◌, All-append, All-imp, Bytes, List, length, length-append, map, some, ◌+◌, none,
}
use braid_rs.Prelude.Lines.{lines_from, strip_return, lines, rfind_end}
use braid_rs.Prelude.Chars.{codes, trim, split_once_skip, to_lowercase, strip_prefix_self}

-- A name in lower case, as the protocol's own names are: printable ASCII with no colon.
abbrev pub IsKey : Text → Type 0
IsKey = All (λ c. (32 < c) × (c < 127) × ((c < b'A') ⊎ (b'Z' < c)) × (c ≢ b':'))

-- Printable ASCII that trimming leaves whole.
abbrev pub IsValue : Text → Type 0
IsValue value = All (λ c. (31 < c) × (c < 127)) value × (trim value ≡ value)

abbrev pub IsHeader : Text × Text → Type 0
IsHeader (key, value) = IsKey key × IsValue value

abbrev pub header_text : Text × Text → Text
header_text (key, value) = key ++ (codes ":" ++ (b' ' ∷ value))

-- The block without the four bytes that end it.
unfoldable pub block_text : Text × Text → Map Text → Text
block_text header [] = header_text header
block_text header (next ∷ later) = header_text header ++ (codes "\r\n" ++ block_text next later)

unfoldable pub insert_all : Map Text → Map Text → Map Text
insert_all [] headers = headers
insert_all ((key, value) ∷ later) headers = insert_all later (insert key value headers)

lines_from-step :
    (line : Text) (c : ℕ) (cs : Text)
    → lines_from line (c ∷ cs) ≡ (
        if c == b'\n'
        then strip_return line ∷ lines_from [] cs
        else lines_from (line ++ (c ∷ [])) cs)
unfolding lines_from
lines_from-step [] c cs = refl
lines_from-step (l ∷ line) c cs = refl

strip_return-append : (line : Text) → strip_return (line ++ codes "\r") ≡ line
unfolding strip_return
strip_return-append [] = refl
strip_return-append (c ∷ []) = refl
strip_return-append (c ∷ d ∷ line) = ap (◌∷◌ c) (strip_return-append (d ∷ line))

abbrev NoBreak : Text → Type 0
NoBreak = All (λ c. c ≢ b'\n')

no_break : (c : ℕ) → c ≢ b'\n' → (c == b'\n') ≡ false
no_break c ne = ground arith

lines_from-line :
    (line xs rest : Text)
    → NoBreak xs
    → lines_from line (xs ++ (codes "\r\n" ++ rest)) ≡ (line ++ xs) ∷ lines_from [] rest
lines_from-line line [] rest h =
    lines_from-step line b'\r' (b'\n' ∷ rest)
    ∙ lines_from-step (line ++ codes "\r") b'\n' rest
    ∙ rw (strip_return-append line, append-nil line) refl
lines_from-line line (x ∷ xs) rest h =
    lines_from-step line x (xs ++ (codes "\r\n" ++ rest))
    ∙ rw (no_break x h.0, lines_from-line (line ++ (x ∷ [])) xs rest h.1)
        (ap (λ l. l ∷ lines_from [] rest) (append_assoc line (x ∷ []) xs))

lines_from-last :
    (line xs : Text) → NoBreak xs → 0 < length (line ++ xs) → lines_from line xs ≡ (line ++ xs) ∷ []
unfolding lines_from
lines_from-last [] [] h ne = absurd (omega arith)
lines_from-last (c ∷ line) [] h ne = rw (append-nil (c ∷ line)) refl
lines_from-last line (x ∷ xs) h ne =
    lines_from-step line x xs
    ∙ rw (no_break x h.0) (
        lines_from-last (line ++ (x ∷ [])) xs h.1 (rw (append_assoc line (x ∷ []) xs) ne)
        ∙ ap (λ l. l ∷ []) (append_assoc line (x ∷ []) xs))

header_text-NoBreak : (h : Text × Text) → IsHeader h → NoBreak (header_text h)
header_text-NoBreak (key, value) (k, v) =
    All-append _ key (codes ":" ++ (b' ' ∷ value)) (All-imp (λ c q. omega arith) key k)
      (omega arith, (omega arith, All-imp (λ c q. omega arith) value v.0))

length-header_text : (h : Text × Text) → 0 < length (header_text h)
length-header_text (key, value) = omega (arith, length-append key (codes ":" ++ (b' ' ∷ value)))

header_ascii : (h : Text × Text) → IsHeader h → All (λ c. c < 128) (header_text h)
header_ascii (key, value) (k, v) =
    All-append _ key (codes ":" ++ (b' ' ∷ value)) (All-imp (λ c q. omega arith) key k)
      (omega arith, (omega arith, All-imp (λ c q. omega arith) value v.0))

-- The lines of a block are its headers.
lines-block_text :
    (h : Text × Text) (hs : Map Text)
    → IsHeader h
    → All IsHeader hs
    → lines (block_text h hs) ≡ header_text h ∷ map header_text hs
unfolding lines block_text
lines-block_text h [] good goods =
    lines_from-last [] (header_text h) (header_text-NoBreak h good) (length-header_text h)
lines-block_text h (next ∷ later) good goods =
    lines_from-line [] (header_text h) (block_text next later) (header_text-NoBreak h good)
    ∙ ap (◌∷◌ (header_text h)) (lines-block_text next later goods.0 goods.1)

lower_key : (key : Text) → IsKey key → to_lowercase key ≡ key
unfolding to_lowercase
lower_key [] h = refl
lower_key (c ∷ key) h = ground (arith, lower_key key h.1)

key-IsToken : (key : Text) → IsKey key → IsToken key
key-IsToken key h = All-imp (λ c q. (q.0, q.1)) key h

trim_space : (value : Text) → trim (b' ' ∷ value) ≡ trim value
unfolding trim
trim_space value = refl

module _ (t : Texts) (lowers : LowersAscii t) where
  lowercase_key : (key : Text) → IsKey key → t.lowercase (trim key) ≡ key
  lowercase_key key h =
      rw (trim_token key (key-IsToken key h), lowers key (All-imp (λ c q. omega arith) key h))
        (lower_key key h)

  read_line :
      (key value : Text) (rest : List Text) (m : Map Text)
      → IsHeader (key, value)
      → read_lines t.lowercase (header_text (key, value) ∷ rest) m
        ≡ read_lines t.lowercase rest (insert key value m)
  unfolding read_lines
  read_line key value rest m (k, v) =
      rw
        (
          split_once_skip b':' [] key (b' ' ∷ value) (All-imp (λ c q. q.3) key k),
          read_lines,
          lowercase_key key k,
          trim_space value,
          v.1,
        )
        refl

  read_lines-headers :
      (hs m : Map Text)
      → All IsHeader hs
      → read_lines t.lowercase (map header_text hs) m ≡ insert_all hs m
  unfolding insert_all read_lines
  read_lines-headers [] m h = refl
  read_lines-headers ((key, value) ∷ hs) m h =
      read_line key value (map header_text hs) m h.0
      ∙ read_lines-headers hs (insert key value m) h.1

  -- Every header of a printed block is read.
  pub read_lines-block_text :
      (h : Text × Text) (hs : Map Text)
      → All IsHeader (h ∷ hs)
      → read_lines t.lowercase (lines (block_text h hs)) [] ≡ insert_all (h ∷ hs) []
  read_lines-block_text h hs good =
      rw (lines-block_text h hs good.0 good.1) (read_lines-headers (h ∷ hs) [] good)

-- The last place of a pattern in a text that ends with another is its last place there.
pub rfind_end-append :
    (p xs ys : Bytes) (n : ℕ)
    → rfind_end p ys ≡ some n
    → rfind_end p (xs ++ ys) ≡ some (length xs + n)
unfolding rfind_end
rfind_end-append p [] ys n h = rw h (ap some (omega arith))
rfind_end-append p (x ∷ xs) ys n h =
    rw (rfind_end-append p xs ys n h, rfind_end) (ap some (omega arith))

-- A pattern with no later place behind its first byte.
pub rfind_end-here :
    (b : ℕ) (p rest : Bytes)
    → rfind_end (b ∷ p) (p ++ rest) ≡ none
    → rfind_end (b ∷ p) (b ∷ (p ++ rest)) ≡ some (length (b ∷ p))
unfolding rfind_end
rfind_end-here b p rest h = rw (h, strip_prefix_self (b ∷ p) rest, rfind_end) refl

pub block_text-ascii :
    (h : Text × Text) (hs : Map Text) → All IsHeader (h ∷ hs) → All (λ c. c < 128) (block_text h hs)
unfolding block_text
block_text-ascii h [] good = header_ascii h good.0
block_text-ascii h (next ∷ later) good =
    All-append _ (header_text h) (codes "\r\n" ++ block_text next later) (header_ascii h good.0)
      (omega arith, (omega arith, block_text-ascii next later good.1))
