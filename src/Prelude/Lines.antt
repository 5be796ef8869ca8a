-- ===== src/Prelude/Lines.antt =====
-- Texts cut into lines and words, and the ends of blocks: the operations of `str` and of slices
-- that the parsers of headers use.
use Prim.Native.Nat.{ℕ, suc, ◌+◌, ◌≤◌}
use mathlib.Core.Path.{◌≡◌, ap, subst}
use mathlib.Core.Logic.{inl, inr}
use native.Mathlib.Omega.{arith}
use mathlib.Core.Bool.{true}
use mathlib.Core.List.{List, [], ◌∷◌, ◌++◌}
use mathlib.Core.Option.{Option, none, some}
use braid_rs.Prelude.Tests.{◌==◌, if◌then◌else◌, is_some, Option-cases}
use braid_rs.Prelude.Lists.{Text, Bytes, length, length-append}
use braid_rs.Prelude.Chars.{
  strip_prefix, split_once, is_whitespace, Strips, strip_prefix-Strips, Splits, split_once-Splits,
}

-- The `\r` that stands last in a text goes.
unfoldable pub strip_return : Text → Text
strip_return [] = []
strip_return (c ∷ []) = if c == b'\r' then [] else c ∷ []
strip_return (c ∷ d ∷ cs) = c ∷ strip_return (d ∷ cs)

-- `str::lines`: every line ends at a `\n`, of which a `\r` before it is a part; what follows the
-- last `\n` is a line if it is not empty. The first argument is the line so far.
unfoldable pub lines_from : Text → Text → List Text
unfolding strip_return
lines_from [] [] = []
lines_from (c ∷ line) [] = (c ∷ line) ∷ []
lines_from line (c ∷ cs) =
    let next = strip_return line ∷ lines_from [] cs in
    let more = lines_from (line ++ (c ∷ [])) cs in if c == b'\n' then next else more

unfoldable pub lines : Text → List Text
unfolding lines_from
lines = lines_from []

-- `str::split_whitespace`; the first argument is the word so far.
unfoldable pub words_from : Text → Text → List Text
words_from [] [] = []
words_from (c ∷ word) [] = (c ∷ word) ∷ []
words_from [] (c ∷ cs) =
    let skipped = words_from [] cs in
    let started = words_from (c ∷ []) cs in if is_whitespace c then skipped else started
words_from (w ∷ word) (c ∷ cs) =
    let next = (w ∷ word) ∷ words_from [] cs in
    let more = words_from (w ∷ word ++ (c ∷ [])) cs in if is_whitespace c then next else more

unfoldable pub split_whitespace : Text → List Text
unfolding words_from is_whitespace
split_whitespace = words_from []

-- One past the first place of the pattern, as `windows(n).position` and the length give it.
unfoldable pub find_end : Bytes → Bytes → Option ℕ
unfolding split_once
find_end pattern bytes = elim (split_once pattern bytes) [
  | none ↦ none
  | some (before, _) ↦ some (length before + length pattern)
]

-- One past the last place of the pattern, as `windows(n).rposition` and the length give it.
unfoldable pub rfind_end : Bytes → Bytes → Option ℕ
unfolding strip_prefix
rfind_end pattern [] = if is_some (strip_prefix pattern []) then some (length pattern) else none
rfind_end pattern (b ∷ bs) =
    let later = rfind_end pattern bs in
    elim later [
      | some n ↦ some (suc n)
      | none ↦ if is_some (strip_prefix pattern (b ∷ bs)) then some (length pattern) else none
    ]

-- A place that a search finds leaves room for the pattern before it.
abbrev pub Within : ℕ → ℕ → Option ℕ → Type 0
Within least bound none = Unit {0}
Within least bound (some n) = (least ≤ n) × (n ≤ bound)

prefix_fits : (p text rest : Bytes) → strip_prefix p text ≡ some rest → length p ≤ length text
prefix_fits p text rest h =
    let e = subst (Strips p text) h (strip_prefix-Strips p text) in
    omega (arith, ap length e, length-append p rest)

is_prefix_fits : (p text : Bytes) → is_some (strip_prefix p text) ≡ true → length p ≤ length text
is_prefix_fits p text h = elim (Option-cases (strip_prefix p text)) [
  | inl missing ↦ ground (arith)
  | inr (rest, found) ↦ prefix_fits p text rest found
]

pub rfind_end_bounds : (p bytes : Bytes) → Within (length p) (length bytes) (rfind_end p bytes)
unfolding rfind_end
rfind_end_bounds p [] = ground (arith, is_prefix_fits p [])
rfind_end_bounds p (b ∷ bytes) =
    ground (arith, is_prefix_fits p (b ∷ bytes), rfind_end_bounds p bytes)

pub find_end_bounds : (p bytes : Bytes) → Within (length p) (length bytes) (find_end p bytes)
unfolding find_end
find_end_bounds p bytes = go (split_once p bytes) (split_once-Splits p bytes)
  where
    go :
        (o : Option (Bytes × Bytes))
        → Splits p bytes o
        → Within
            (length p)
            (length bytes)
            (elim o [ none ↦ none | some (before, _) ↦ some (length before + length p) ])
    go none s = tt
    go (some (before, after)) s =
        omega (arith, ap length s, length-append before (p ++ after), length-append p after)
