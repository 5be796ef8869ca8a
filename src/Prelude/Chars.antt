-- ===== src/Prelude/Chars.antt =====
-- Texts as lists of code points: the operations of `str` that the program uses. Lower-casing and
-- white space are those of Unicode; `to_lowercase` maps the letters A to Z only, which is all that
-- a search for an ASCII text in its result sees.
use Prim.Native.Nat.{ℕ, ◌+◌, ◌<◌}
use Prim.Native.Char.{code}
use Prim.Native.String.{String}
use mathlib.Core.Bool.{Bool, true, false, ◌&&◌, ◌||◌}
use mathlib.Core.List.{[], ◌∷◌, ◌++◌, map, reverse, map-append}
use mathlib.Core.Path.{◌≡◌, refl, ap}
use mathlib.Core.Logic.{◌≢◌}
use native.Mathlib.Omega.{arith}
use mathlib.Core.Option.{Option, none, some}
use braid_rs.Prelude.Tests.{leb, ◌==◌, if◌then◌else◌}
use braid_rs.Prelude.Lists.{Bytes, All}

-- The code points of a text.
abbrev pub codes : String → Bytes
codes String.[] = []
codes (String.◌∷◌ c s) = code c ∷ codes s

unfoldable pub lower : ℕ → ℕ
lower c = if leb b'A' c && leb c b'Z' then c + 32 else c

unfoldable pub to_lowercase : Bytes → Bytes
unfolding lower
to_lowercase = map lower

-- `str::strip_prefix`.
unfoldable pub strip_prefix : Bytes → Bytes → Option Bytes
strip_prefix [] text = some text
strip_prefix (p ∷ ps) [] = none
strip_prefix (p ∷ ps) (c ∷ cs) = if p == c then strip_prefix ps cs else none

-- `splitn(2, pattern)` as the text before the first match and the text behind it.
unfoldable pub split_once : Bytes → Bytes → Option (Bytes × Bytes)
unfolding strip_prefix
split_once pattern [] = elim (strip_prefix pattern []) [ none ↦ none | some rest ↦ some ([], rest) ]
split_once pattern (c ∷ cs) = elim (strip_prefix pattern (c ∷ cs)) [
  | some rest ↦ some ([], rest)
  | none ↦ elim (split_once pattern cs) [
    | none ↦ none
    | some (before, rest) ↦ some (c ∷ before, rest)
  ]
]

-- `str::contains` of a text.
unfoldable pub contains_text : Bytes → Bytes → Bool
unfolding split_once
contains_text pattern text = elim (split_once pattern text) [ none ↦ false | some _ ↦ true ]

-- The Unicode property White_Space.
unfoldable pub is_whitespace : ℕ → Bool
is_whitespace c =
    leb 9 c && leb c 13
    || c == 32
    || c == 0x85
    || c == 0xa0
    || c == 0x1680
    || leb 0x2000 c && leb c 0x200a
    || c == 0x2028
    || c == 0x2029
    || c == 0x202f
    || c == 0x205f
    || c == 0x3000

unfoldable pub trim_start_matches : (ℕ → Bool) → Bytes → Bytes
trim_start_matches p [] = []
trim_start_matches p (c ∷ cs) = if p c then trim_start_matches p cs else c ∷ cs

unfoldable pub trim : Bytes → Bytes
unfolding is_whitespace trim_start_matches
trim text =
    reverse (trim_start_matches is_whitespace (reverse (trim_start_matches is_whitespace text)))

pub strip_prefix_self : (p rest : Bytes) → strip_prefix p (p ++ rest) ≡ some rest
unfolding strip_prefix
strip_prefix_self [] rest = refl
strip_prefix_self (c ∷ p) rest = ground (arith, strip_prefix_self p rest)

-- A text that stands somewhere in another is found.
pub contains_text_append : (p xs ys : Bytes) → contains_text p (xs ++ (p ++ ys)) ≡ true
unfolding contains_text split_once
contains_text_append [] [] [] = refl
contains_text_append [] [] (y ∷ ys) = refl
contains_text_append (c ∷ p) [] ys = ground (arith, strip_prefix_self (c ∷ p) ys)
contains_text_append p (x ∷ xs) ys = ground (arith, contains_text_append p xs ys)

pub to_lowercase-append :
    (xs ys : Bytes) → to_lowercase (xs ++ ys) ≡ to_lowercase xs ++ to_lowercase ys
unfolding to_lowercase
to_lowercase-append = map-append lower

-- Where the pattern is found, the text is what stands before, the pattern and what stands behind.
abbrev pub Splits : Bytes → Bytes → Option (Bytes × Bytes) → Type 0
Splits p text none = Unit {0}
Splits p text (some (before, after)) = text ≡ before ++ (p ++ after)

abbrev pub Strips : Bytes → Bytes → Option Bytes → Type 0
Strips p text none = Unit {0}
Strips p text (some rest) = text ≡ p ++ rest

pub strip_prefix-Strips : (p text : Bytes) → Strips p text (strip_prefix p text)
unfolding strip_prefix
strip_prefix-Strips [] text = refl
strip_prefix-Strips (c ∷ p) [] = tt
strip_prefix-Strips (c ∷ p) (d ∷ text) = ground (arith, strip_prefix-Strips p text)

pub split_once-Splits : (p text : Bytes) → Splits p text (split_once p text)
unfolding split_once
split_once-Splits p [] = ground (arith, strip_prefix-Strips p [])
split_once-Splits p (c ∷ text) =
    ground (arith, strip_prefix-Strips p (c ∷ text), split_once-Splits p text)

-- A text with no byte that starts the pattern is skipped.
pub split_once_skip :
    (c : ℕ) (p xs ys : Bytes)
    → All (λ x. x ≢ c) xs
    → split_once (c ∷ p) (xs ++ ((c ∷ p) ++ ys)) ≡ some (xs, ys)
unfolding split_once
split_once_skip c p [] ys h = ground (arith, strip_prefix_self (c ∷ p) ys)
split_once_skip c p (x ∷ xs) ys h = ground (arith, split_once_skip c p xs ys h.1)

-- The occurrences of a byte.
unfoldable pub count : ℕ → Bytes → ℕ
count byte [] = 0
count byte (first ∷ later) = count byte later + (if first == byte then 1 else 0)

pub count-append :
    (byte : ℕ) (front back : Bytes)
    → count byte (front ++ back) ≡ count byte front + count byte back
unfolding count
count-append byte [] back = omega arith
count-append byte (first ∷ front) back = omega (arith, count-append byte front back)

-- A text with fewer occurrences of some byte than the pattern does not hold the pattern.
pub contains_text_of_count :
    (b : ℕ) (p text : Bytes) → count b text < count b p → contains_text p text ≡ false
unfolding contains_text
contains_text_of_count b p text h = go (split_once p text) (split_once-Splits p text)
  where
    go :
        (o : Option (Bytes × Bytes))
        → Splits p text o
        → (elim o [ none ↦ false | some _ ↦ true ]) ≡ false
    go none s = refl
    go (some (x, y)) s =
        absurd (omega (arith, ap (count b) s, count-append b x (p ++ y), count-append b p y))
