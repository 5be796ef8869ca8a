-- ===== src/Prelude/Tokens.antt =====
-- Texts of printable ASCII with no space, which trimming and splitting leave whole.
use braid_rs.Prelude.{Bool, List, [], arith, false, refl, subst, sym, ℕ, ◌++◌, ◌<◌, ◌∷◌, ◌≡◌, ◌≢◌}
use braid_rs.Prelude.Decimal.{AreDigits}
use braid_rs.Prelude.Chars.{codes, is_whitespace, trim, trim_start_matches}
use braid_rs.Prelude.Lists.{All, All-append, All-imp, Bytes}
use mathlib.Core.List.{reverse, reverse-append, reverse-reverse}

-- Printable ASCII with no space.
abbrev pub IsToken : Bytes → Type 0
IsToken = All (λ c. (32 < c) × (c < 127))

trim_start_matches-keep :
    (p : ℕ → Bool) (c : ℕ) (cs : Bytes) → p c ≡ false → trim_start_matches p (c ∷ cs) ≡ c ∷ cs
unfolding trim_start_matches
trim_start_matches-keep p c cs h = rw h

trim_start_token :
    (xs ys : Bytes) → IsToken xs → xs ≢ [] → trim_start_matches is_whitespace (xs ++ ys) ≡ xs ++ ys
unfolding trim_start_matches is_whitespace
trim_start_token [] ys h ne = absurd (ne refl)
trim_start_token (x ∷ xs) ys h ne = ground arith

pub All-reverse {ℓ κ} : {A : Type ℓ} (P : A → Type κ) (xs : List A) → All P xs → All P (reverse xs)
All-reverse P [] h = tt
All-reverse P (x ∷ xs) h =
    subst (All P) (sym (reverse-append (x ∷ []) xs))
      (All-append P (reverse xs) (x ∷ []) (All-reverse P xs h.1) (h.0, tt))

trim_start_of_token : (xs : Bytes) → IsToken xs → trim_start_matches is_whitespace xs ≡ xs
unfolding trim_start_matches is_whitespace
trim_start_of_token [] h = refl
trim_start_of_token (x ∷ xs) h = ground arith

trim_start_line_end :
    (xs : Bytes)
    → IsToken xs
    → reverse (trim_start_matches is_whitespace (reverse (xs ++ codes "\r\n"))) ≡ xs
unfolding trim_start_matches is_whitespace
trim_start_line_end xs h =
    rw (reverse-append xs (codes "\r\n"), trim_start_of_token (reverse xs) (All-reverse _ xs h))
      (reverse-reverse xs)

pub trim_line_end : (xs : Bytes) → IsToken xs → trim (xs ++ codes "\r\n") ≡ xs
unfolding trim trim_start_matches is_whitespace
trim_line_end [] h = refl
trim_line_end (x ∷ xs) h =
    rw (trim_start_token (x ∷ xs) (codes "\r\n") h (λ e. cc)) (trim_start_line_end (x ∷ xs) h)

pub trim_token : (xs : Bytes) → IsToken xs → trim xs ≡ xs
unfolding trim
trim_token xs h =
    rw (trim_start_of_token xs h, trim_start_of_token (reverse xs) (All-reverse _ xs h))
      (reverse-reverse xs)

pub digits_skip : (ds : Bytes) → AreDigits ds → All (λ x. x ≢ b' ') ds
digits_skip ds h = All-imp (λ x d. omega arith) ds h

pub digits-IsToken : (ds : Bytes) → AreDigits ds → IsToken ds
digits-IsToken ds h = All-imp (λ x d. omega arith) ds h
