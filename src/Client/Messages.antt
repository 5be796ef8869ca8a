-- ===== src/Client/Messages.antt =====
-- The state of `MessageParser` and `Message` (core/src/core/client/parser.rs), and what reads the
-- buffer: the headers of a message and of a patch, and the two kinds of bodies. Buffers are lists of
-- bytes, texts are lists of code points and a `usize` wraps around at 2^64, as in a release build. The
-- Unicode tables of `to_lowercase` are a parameter.
use braid_rs.Prelude.{
  ℕ, ◌+◌, ◌-◌, ◌%◌, ◌^◌, ◌≡◌, Bool, true, false, ◌||◌, List, [], ◌∷◌, ◌++◌, Option, none, some,
  Bytes, Text, leb, ◌==◌, if◌then◌else◌, length, take, drop, Map, insert, lookup, unwrap_or, All,
  ◌<◌, get_elem?,
}
use braid_rs.Prelude.Decimal.{parse_unsigned}
use braid_rs.Prelude.Chars.{codes, split_once, trim, trim_start_matches, to_lowercase}
use braid_rs.Prelude.Lines.{split_whitespace, find_end, rfind_end}
use braid_rs.Types.Patch.{Patch, with_length}

abbrev pub usize_mod : ℕ
usize_mod = 2 ^ 64

abbrev pub usize_add : ℕ → ℕ → ℕ
usize_add a b = (a + b) % usize_mod

abbrev pub usize_sub : ℕ → ℕ → ℕ
usize_sub a b = (a + usize_mod - b) % usize_mod

pub data ParseState : Type 0 where
  waiting_for_headers parsing_headers waiting_for_body : ParseState
  waiting_for_patch_headers waiting_for_patch_body skipping_separator : ParseState
  complete error : ParseState

pub record MessageParser : Type 0 where
  pub buffer : Bytes
  pub state : ParseState
  pub headers : Map Text
  pub body_buffer : Bytes
  pub expected_body_length : ℕ
  pub read_body_length : ℕ
  pub patches : List Patch
  pub expected_patches : ℕ
  pub patches_read : ℕ
  pub patch_headers : Map Text
  pub expected_patch_length : ℕ
  pub read_patch_length : ℕ
  pub is_encoding_block : Bool

abbrev pub new_parser : MessageParser
new_parser = record {
  buffer = [];
  state = waiting_for_headers;
  headers = [];
  body_buffer = [];
  expected_body_length = 0;
  read_body_length = 0;
  patches = [];
  expected_patches = 0;
  patches_read = 0;
  patch_headers = [];
  expected_patch_length = 0;
  read_patch_length = 0;
  is_encoding_block = false;
}

pub record Message : Type 0 where
  pub headers : Map Text
  pub body : Bytes
  pub patches : List Patch
  pub status_code : Option ℕ
  pub encoding : Option Text
  pub url : Option Text

-- The errors by their places; a refused length comes with its text.
pub data ParseError : Type 0 where
  encoding_utf8 encoding_length headers_utf8 : ParseError
  content_length patch_content_length : Text → ParseError
  missing_length : ParseError

-- What the program takes from its libraries: lower case of all Unicode, the first group of the
-- status expression, and the two groups of the encoding expression.
pub record Texts : Type 0 where
  pub lowercase : Text → Text
  pub http_status : Text → Option Text
  pub encoding_block : Text → Option (Text × Text)

-- Unicode's lower case is that of ASCII on ASCII texts.
abbrev pub LowersAscii : Texts → Type 0
LowersAscii t = (s : Text) → All (λ c. c < 128) s → t.lowercase s ≡ to_lowercase s

abbrev pub header_end : Bytes
header_end = codes "\r\n\r\n"

unfoldable pub find_double_newline : Bytes → Option ℕ
unfolding find_end
find_double_newline buffer = elim (find_end header_end buffer) [
  | some pos ↦ some pos
  | none ↦ find_end (codes "\n\n") buffer
]

unfoldable pub find_header_end : Bytes → Option ℕ
unfolding rfind_end
find_header_end = rfind_end header_end

-- `buffer.split_to(n)`: what stays in the buffer.
abbrev pub consume : MessageParser → ℕ → MessageParser
consume p n = record p { buffer = drop n p.buffer }

-- The `\r` and `\n` before the headers.
unfoldable pub skip_newlines : MessageParser → MessageParser
unfolding trim_start_matches
skip_newlines p = record p { buffer = trim_start_matches (λ c. c == b'\r' || c == b'\n') p.buffer }

-- A step that ends with the parser as it is then, or with an error.
pub data Parsed : Type 0 where
  parsed : MessageParser → Parsed
  refused : MessageParser → ParseError → Parsed

-- The headers of the lines, each at its first colon; a line with none is passed over.
unfoldable pub read_lines : (Text → Text) → List Text → Map Text → Map Text
unfolding split_once trim
read_lines lowercase [] headers = headers
read_lines lowercase (line ∷ rest) headers =
    read_lines lowercase rest (elim (split_once (codes ":") line) [
      | none ↦ headers
      | some (key, value) ↦ insert (lowercase (trim key)) (trim value) headers
    ])

-- The status line becomes a header, unless it is all there is.
unfoldable pub replace_status : Option Text → Text → Text
unfolding split_once
replace_status none text = text
replace_status (some status) text = elim (split_once (codes "\n") text) [
  | none ↦ text
  | some (_, rest) ↦ codes ":status: " ++ (status ++ (codes "\r\n" ++ rest))
]

-- `headers.get("content-length").or_else(|| headers.get("length"))`.
unfoldable pub length_header : Map Text → Option Text
unfolding lookup
length_header headers = elim (lookup (codes "content-length") headers) [
  | some text ↦ some text
  | none ↦ lookup (codes "length") headers
]

-- A number of patches that cannot be read is none.
unfoldable pub count_patches : MessageParser → MessageParser
unfolding lookup
count_patches p = elim (lookup (codes "patches") p.headers) [
  | none ↦ p
  | some text ↦ record p { expected_patches = unwrap_or (parse_unsigned usize_mod text) 0 }
]

-- The number of patches and the length of the body, once the headers are read.
unfoldable pub read_counts : MessageParser → Parsed
unfolding length_header count_patches
read_counts p = elim (length_header p.headers) [
  | none ↦ parsed (count_patches p)
  | some text ↦ elim (parse_unsigned usize_mod text) [
    | none ↦ refused (count_patches p) (content_length text)
    | some n ↦ parsed (record (count_patches p) { expected_body_length = n })
  ]
]

unfoldable pub read_patch_length_header : MessageParser → Parsed
unfolding lookup
read_patch_length_header p = elim (lookup (codes "content-length") p.patch_headers) [
  | none ↦ refused p missing_length
  | some text ↦ elim (parse_unsigned usize_mod text) [
    | none ↦ refused p (patch_content_length text)
    | some n ↦ parsed (record p { expected_patch_length = n; read_patch_length = 0 })
  ]
]

-- The word at a place of the patch's `content-range`.
unfoldable pub range_word : MessageParser → ℕ → Text → Text
unfolding split_whitespace lookup
range_word p i default = elim (lookup (codes "content-range") p.patch_headers) [
  | none ↦ default
  | some text ↦ unwrap_or (get_elem? (split_whitespace text) i) default
]

abbrev pub patch_remaining : MessageParser → ℕ
patch_remaining p = usize_sub p.expected_patch_length p.read_patch_length

unfoldable pub try_parse_patch_body : MessageParser → MessageParser × Bool
unfolding range_word with_length
try_parse_patch_body p =
    if leb (patch_remaining p) (length p.buffer)
    then (
      record p {
        buffer = drop (patch_remaining p) p.buffer;
        patches =
            p.patches
            ++ (with_length (range_word p 0 (codes "bytes")) (range_word p 1 [])
                  (take (patch_remaining p) p.buffer) p.expected_patch_length
                ∷ []);
        read_patch_length = usize_add p.read_patch_length (patch_remaining p);
      },
      true,
    )
    else (p, false)

abbrev pub body_remaining : MessageParser → ℕ
body_remaining p = usize_sub p.expected_body_length p.read_body_length

-- In the last branch the length of all that is accumulated is added, not that of the new part.
unfoldable pub try_parse_body : MessageParser → MessageParser × Bool
try_parse_body p =
    if p.expected_body_length == 0
    then (p, true)
    else if leb (body_remaining p) (length p.buffer)
    then (
      record p {
        buffer = drop (body_remaining p) p.buffer;
        body_buffer = p.body_buffer ++ take (body_remaining p) p.buffer;
        read_body_length = usize_add p.read_body_length (length (take (body_remaining p) p.buffer));
      },
      true,
    )
    else (
      record p {
        buffer = [];
        body_buffer = p.body_buffer ++ p.buffer;
        read_body_length = usize_add p.read_body_length (length (p.body_buffer ++ p.buffer));
      },
      false,
    )

-- The message; the parser gives away its body, headers and patches.
unfoldable pub finalize_message : MessageParser → Message
finalize_message p = record {
  headers = p.headers;
  body = p.body_buffer;
  patches = p.patches;
  status_code = none;
  encoding = lookup (codes "encoding") p.headers;
  url = lookup (codes "content-location") p.headers;
}

-- `reset`; the buffer and the state stay.
abbrev pub reset : MessageParser → MessageParser
reset p = record new_parser { buffer = p.buffer; state = p.state }
