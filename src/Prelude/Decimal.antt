-- ===== src/Prelude/Decimal.antt =====
-- Rust's `str::parse` of an unsigned integer and the decimal `to_string`, over code points.
use Prim.Native.Nat.{◌≤◌, ℕ, zero, suc, ◌+◌, ◌-◌, ◌*◌, ◌/◌, ◌%◌, ◌<◌}
use mathlib.Core.Path.{◌≡◌, refl, ◌∙◌}
use mathlib.Core.Bool.{Bool, true, ◌&&◌}
use mathlib.Core.Logic.{inl, inr}
use mathlib.Core.List.{[], ◌∷◌, ◌++◌}
use mathlib.Core.Option.{Option, none, some}
use native.Mathlib.Omega.{arith}
use braid_rs.Prelude.Tests.{ltb, leb, ◌==◌, if◌then◌else◌, Bool-cases, ltb→lt}
use braid_rs.Prelude.Lists.{All, All-append, Bytes}

abbrev pub is_digit : ℕ → Bool
is_digit c = leb b'0' c && leb c b'9'

-- The digits after the sign; the number must stay below `bound`, which is `2 ^ w` for `w` bits.
unfoldable pub parse_digits : ℕ → ℕ → Bytes → Option ℕ
parse_digits bound acc [] = some acc
parse_digits bound acc (c ∷ cs) =
    let next = acc * 10 + (c - b'0') in
    let rest = parse_digits bound next cs in if is_digit c && ltb next bound then rest else none

-- An empty text and a lone sign are refused; one leading `+` is taken.
unfoldable pub parse_unsigned : ℕ → Bytes → Option ℕ
unfolding parse_digits
parse_unsigned bound [] = none
parse_unsigned bound (c ∷ []) = parse_digits bound 0 (c ∷ [])
parse_unsigned bound (c ∷ d ∷ cs) =
    if c == b'+' then parse_digits bound 0 (d ∷ cs) else parse_digits bound 0 (c ∷ d ∷ cs)

-- The digits of `n`, most significant first; `n < fuel` is enough.
unfoldable pub show_fuel : ℕ → ℕ → Bytes
show_fuel zero n = []
show_fuel (suc fuel) n =
    let high = show_fuel fuel (n / 10) in
    if ltb n 10 then (b'0' + n) ∷ [] else high ++ ((b'0' + n % 10) ∷ [])

unfoldable pub show : ℕ → Bytes
unfolding show_fuel
show n = show_fuel (suc n) n

abbrev continue : ℕ → Option ℕ → Bytes → Option ℕ
continue bound none ys = none
continue bound (some a) ys = parse_digits bound a ys

parse_digits-append :
    (bound acc : ℕ) (xs ys : Bytes)
    → parse_digits bound acc (xs ++ ys) ≡ continue bound (parse_digits bound acc xs) ys
unfolding parse_digits
parse_digits-append bound acc [] ys = refl
parse_digits-append bound acc (c ∷ xs) ys =
    ground (arith, parse_digits-append bound (acc * 10 + (c - b'0')) xs ys)

parse_digits_one :
    (bound a d : ℕ)
    → d < 10
    → a * 10 + d < bound
    → parse_digits bound a ((b'0' + d) ∷ []) ≡ some (a * 10 + d)
unfolding parse_digits
parse_digits_one bound a d h k = ground arith

parse_digits-show_fuel :
    (bound fuel n : ℕ) → n < fuel → n < bound → parse_digits bound 0 (show_fuel fuel n) ≡ some n
unfolding show_fuel
parse_digits-show_fuel bound zero n h k = absurd (omega arith)
parse_digits-show_fuel bound (suc fuel) n h k = elim (Bool-cases (ltb n 10)) [
  | inl small ↦
      let one = parse_digits_one bound 0 n (ltb→lt n 10 small) (omega arith) in ground arith
  | inr big ↦
      let ih = parse_digits-show_fuel bound fuel (n / 10) (ground arith) (omega arith) in
      let last = parse_digits_one bound (n / 10) (n % 10) (omega arith) (omega arith) in
      rw (big, parse_digits-append bound 0 (show_fuel fuel (n / 10)) ((b'0' + n % 10) ∷ []), ih)
        (ground arith)
]

-- A text that starts with a digit has no sign to strip.
pub data StartsWithDigit : Bytes → Type 0 where
  starts : (c : ℕ) (cs : Bytes) → is_digit c ≡ true → StartsWithDigit (c ∷ cs)

StartsWithDigit-append : (xs ys : Bytes) → StartsWithDigit xs → StartsWithDigit (xs ++ ys)
StartsWithDigit-append _ ys (starts c cs h) = starts c (cs ++ ys) h

StartsWithDigit-show_fuel : (fuel n : ℕ) → n < fuel → StartsWithDigit (show_fuel fuel n)
unfolding show_fuel
StartsWithDigit-show_fuel zero n h = absurd (omega arith)
StartsWithDigit-show_fuel (suc fuel) n h = elim (Bool-cases (ltb n 10)) [
  | inl small ↦ rw small (starts (b'0' + n) [] (ground arith))
  | inr big ↦
      rw big (StartsWithDigit-append _ _ (StartsWithDigit-show_fuel fuel (n / 10) (ground arith)))
]

pub StartsWithDigit-show : (n : ℕ) → StartsWithDigit (show n)
unfolding show
StartsWithDigit-show n = StartsWithDigit-show_fuel (suc n) n (omega arith)

parse_unsigned_of_digit :
    (bound : ℕ) (xs : Bytes)
    → StartsWithDigit xs
    → parse_unsigned bound xs ≡ parse_digits bound 0 xs
unfolding parse_unsigned
parse_unsigned_of_digit bound _ (starts c [] h) = refl
parse_unsigned_of_digit bound _ (starts c (d ∷ cs) h) = ground arith

abbrev pub AreDigits : Bytes → Type 0
AreDigits = All (λ c. (b'0' ≤ c) × (c ≤ b'9'))

AreDigits-show_fuel : (fuel n : ℕ) → AreDigits (show_fuel fuel n)
unfolding show_fuel
AreDigits-show_fuel zero n = tt
AreDigits-show_fuel (suc fuel) n = elim (Bool-cases (ltb n 10)) [
  | inl small ↦ rw small ((omega arith, omega (arith, ltb→lt n 10 small)), tt)
  | inr big ↦ rw big (
      All-append _ (show_fuel fuel (n / 10)) _ (AreDigits-show_fuel fuel (n / 10))
        ((omega arith, omega arith), tt))
]

pub AreDigits-show : (n : ℕ) → AreDigits (show n)
unfolding show
AreDigits-show n = AreDigits-show_fuel (suc n) n

-- What `to_string` prints is read back, if it fits the integer type.
pub parse_unsigned-show : (bound n : ℕ) → n < bound → parse_unsigned bound (show n) ≡ some n
unfolding show
parse_unsigned-show bound n h =
    parse_unsigned_of_digit bound (show n) (StartsWithDigit-show n)
    ∙ parse_digits-show_fuel bound (suc n) n (omega arith) h
