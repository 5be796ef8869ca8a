-- ===== src/Blob/Versions.antt =====
-- The order of blob versions and their sequence numbers (core/src/blob/store.rs). A comparison
-- gives an `Ordering` for the sign of the source's `i32`; texts have fewer than 2^31 bytes.
pub mod Order
use braid_rs.Prelude.{
  ℕ, ◌+◌, Bool, true, false, ◌&&◌, List, [], ◌∷◌, ◌++◌, Option, none, some, Text, leb, ◌==◌,
  if◌then◌else◌, length,
}
use Prim.Native.Nat.{compare, Ordering}
use mathlib.Core.List.{reverse}
use braid_rs.Prelude.Chars.{codes}
use braid_rs.Prelude.Utf8.{encode_utf8}

-- The second comparison decides where the first gives a tie.
abbrev pub then_by : Ordering → Ordering → Ordering
then_by Ordering.lt second = Ordering.lt
then_by Ordering.eq second = second
then_by Ordering.gt second = Ordering.gt

-- `<` and `>` of texts: the order of their bytes is that of their code points.
unfoldable pub compare_texts : Text → Text → Ordering
compare_texts [] [] = Ordering.eq
compare_texts [] (_ ∷ _) = Ordering.lt
compare_texts (_ ∷ _) [] = Ordering.gt
compare_texts (a ∷ s) (b ∷ t) = then_by (compare a b) (compare_texts s t)

-- What stands behind the last `-`.
unfoldable pub after_last_dash : Text → Option Text
after_last_dash [] = none
after_last_dash (c ∷ cs) = elim (after_last_dash cs) [
  | some seq ↦ some seq
  | none ↦ if c == b'-' then some cs else none
]

unfoldable pub get_event_seq : Text → Text
unfolding after_last_dash
get_event_seq e = elim (after_last_dash e) [ some seq ↦ seq | none ↦ e ]

unfoldable pub compare_seqs : Text → Text → Ordering
unfolding compare_texts encode_utf8
compare_seqs a b =
    then_by (compare (length (encode_utf8 a)) (length (encode_utf8 b))) (compare_texts a b)

unfoldable pub compare_versions : Text → Text → Ordering
unfolding compare_seqs get_event_seq compare_texts
compare_versions a b =
    then_by (compare_seqs (get_event_seq a) (get_event_seq b)) (compare_texts a b)

unfoldable pub max_seq : Text → Text → Text
unfolding compare_seqs
max_seq a b = elim (compare_seqs a b) [ Ordering.lt ↦ b | _ ↦ a ]

-- The digits from the last one on, and whether the carry is left over.
unfoldable pub carry_digits : Text → Text × Bool
carry_digits [] = ([], true)
carry_digits (c ∷ cs) =
    let (rest, carry) = carry_digits cs in
    if c == b'9'
    then (b'0' ∷ rest, carry)
    else if leb b'0' c && leb c b'9'
    then ((c + 1) ∷ cs, false)
    else (c ∷ cs, true)

-- The text is read from its end.
unfoldable pub increment_seq : Text → Text
unfolding carry_digits
increment_seq [] = codes "1"
increment_seq (c ∷ cs) =
    let (digits, carry) = carry_digits (reverse (c ∷ cs)) in
    if carry then b'1' ∷ reverse digits else reverse digits
