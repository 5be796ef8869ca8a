-- ===== src/Blob/Versions/Order.antt =====
-- The comparison of blob versions (core/src/blob/store.rs) is a total order on texts.
use Prim.Native.Nat.{compare, Ordering}
use braid_rs.Prelude.{Text, [], arith, length, refl, ◌∷◌, ◌≡◌}
use braid_rs.Prelude.Utf8.{encode_utf8}
use braid_rs.Blob.Versions.{compare_seqs, compare_texts, compare_versions, get_event_seq, then_by}

abbrev pub flip : Ordering → Ordering
flip Ordering.lt = Ordering.gt
flip Ordering.eq = Ordering.eq
flip Ordering.gt = Ordering.lt

pub record IsOrder {A : Type 0} (cmp : A → A → Ordering) : Type 0 where
  pub same : (a : A) → cmp a a ≡ Ordering.eq
  pub swapped : (a b : A) → cmp b a ≡ flip (cmp a b)
  pub chained : (a b c : A) → cmp a b ≡ Ordering.lt → cmp b c ≡ Ordering.lt → cmp a c ≡ Ordering.lt
  pub tied : (a b : A) → cmp a b ≡ Ordering.eq → a ≡ b

numbers-IsOrder : IsOrder compare
numbers-IsOrder = record {
  same = λ a. ground arith;
  swapped = λ a b. ground arith;
  chained = λ a b c p q. ground arith;
  tied = λ a b p. ground arith;
}

-- First by an order of a measure, then by an order of the values.
module _ {A B : Type 0} (f : A → B) (outer : B → B → Ordering) (inner : A → A → Ordering)
    (o : IsOrder outer) (i : IsOrder inner) where
  abbrev by : A → A → Ordering
  by a b = then_by (outer (f a) (f b)) (inner a b)

  by-IsOrder : IsOrder by
  by-IsOrder = record {
    same = λ a. rw (o.same (f a), i.same a) refl;
    swapped = λ a b. ground (arith, o.swapped (f a) (f b), i.swapped a b);
    chained = λ a b c p q. ground (
      arith,
      o.chained (f a) (f b) (f c),
      o.tied (f a) (f b),
      o.tied (f b) (f c),
      i.chained a b c,
    );
    tied = λ a b p. ground (arith, i.tied a b);
  }

texts_same : (s : Text) → compare_texts s s ≡ Ordering.eq
unfolding compare_texts
texts_same [] = refl
texts_same (c ∷ s) = ground (arith, texts_same s)

texts_swapped : (s t : Text) → compare_texts t s ≡ flip (compare_texts s t)
unfolding compare_texts
texts_swapped [] [] = refl
texts_swapped [] (d ∷ t) = refl
texts_swapped (c ∷ s) [] = refl
texts_swapped (c ∷ s) (d ∷ t) = ground (arith, texts_swapped s t)

texts_chained :
    (s t u : Text)
    → compare_texts s t ≡ Ordering.lt
    → compare_texts t u ≡ Ordering.lt
    → compare_texts s u ≡ Ordering.lt
unfolding compare_texts
texts_chained [] [] u p q = cc
texts_chained (a ∷ s) [] u p q = cc
texts_chained [] (b ∷ t) [] p q = cc
texts_chained (a ∷ s) (b ∷ t) [] p q = cc
texts_chained [] (b ∷ t) (c ∷ u) p q = refl
texts_chained (a ∷ s) (b ∷ t) (c ∷ u) p q = ground (arith, texts_chained s t u)

texts_tied : (s t : Text) → compare_texts s t ≡ Ordering.eq → s ≡ t
unfolding compare_texts
texts_tied [] [] p = refl
texts_tied [] (d ∷ t) p = cc
texts_tied (c ∷ s) [] p = cc
texts_tied (c ∷ s) (d ∷ t) p = ground (arith, texts_tied s t)

texts-IsOrder : IsOrder compare_texts
texts-IsOrder = record {
  same = texts_same;
  swapped = texts_swapped;
  chained = texts_chained;
  tied = texts_tied;
}

seqs-IsOrder : IsOrder compare_seqs
unfolding compare_seqs
seqs-IsOrder =
    by-IsOrder (λ s. length (encode_utf8 s)) compare compare_texts numbers-IsOrder texts-IsOrder

-- `compare_versions` is a total order: by the sequence numbers, first by their lengths, and then by
-- the whole texts. Only equal texts tie.
pub compare_versions-IsOrder : IsOrder compare_versions
unfolding compare_versions
compare_versions-IsOrder =
    by-IsOrder get_event_seq compare_seqs compare_texts seqs-IsOrder texts-IsOrder
