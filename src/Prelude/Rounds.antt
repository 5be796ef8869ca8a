-- ===== src/Prelude/Rounds.antt =====
-- A loop that works off a buffer in rounds, as the parsers of streams do: it runs on fuel, and a
-- measure that every round lowers shows that the fuel is enough.
use Prim.Native.Nat.{ℕ, zero, suc, ◌<◌}
use mathlib.Core.Path.{◌≡◌, refl, ap, ◌∙◌}
use mathlib.Core.Logic.{◌≢◌}
use mathlib.Core.List.{List, [], ◌++◌}
use native.Mathlib.Omega.{arith}

-- What one round does: it goes on with what it pushed, waits for more bytes, or returns an error.
pub data Round (S E A : Type 0) : Type 0 where
  goes_on : List A → S → Round S E A
  waits : S → Round S E A
  fails : S → E → Round S E A

-- How the loop ends. An error drops what was pushed before it.
pub data Fed (S E A : Type 0) : Type 0 where
  fed : S → List A → Fed S E A
  failed : S → E → Fed S E A
  out_of_fuel : Fed S E A

abbrev pub prepend : {S E A : Type 0} → List A → Fed S E A → Fed S E A
prepend items (fed s later) = fed s (items ++ later)
prepend items (failed s e) = failed s e
prepend items out_of_fuel = out_of_fuel

abbrev pub after_round : {S E A : Type 0} → (S → Fed S E A) → Round S E A → Fed S E A
after_round again (goes_on items s) = prepend items (again s)
after_round again (waits s) = fed s []
after_round again (fails s e) = failed s e

unfoldable pub loop : {S E A : Type 0} → (S → Round S E A) → ℕ → S → Fed S E A
loop round zero s = out_of_fuel
loop round (suc fuel) s = after_round (loop round fuel) (round s)

abbrev pub Shrinks : {S E A : Type 0} → (S → ℕ) → ℕ → Round S E A → Type 0
Shrinks work bound (goes_on _ s) = work s < bound
Shrinks work bound (waits _) = Unit {0}
Shrinks work bound (fails _ _) = Unit {0}

after_round_agrees :
    {S E A : Type 0} (work : S → ℕ) (bound : ℕ) (f g : S → Fed S E A) (r : Round S E A)
    → Shrinks work bound r
    → ((s : S) → work s < bound → f s ≡ g s)
    → after_round f r ≡ after_round g r
after_round_agrees work bound f g (goes_on items s) lt same = ap (prepend items) (same s lt)
after_round_agrees work bound f g (waits s) lt same = refl
after_round_agrees work bound f g (fails s e) lt same = refl

prepend-ne :
    {S E A : Type 0} (items : List A) (r : Fed S E A)
    → r ≢ out_of_fuel
    → prepend items r ≢ out_of_fuel
prepend-ne items (fed s later) h e = cc
prepend-ne items (failed s x) h e = cc
prepend-ne items out_of_fuel h e = h refl

after_round_ends :
    {S E A : Type 0} (work : S → ℕ) (bound : ℕ) (f : S → Fed S E A) (r : Round S E A)
    → Shrinks work bound r
    → ((s : S) → work s < bound → f s ≢ out_of_fuel)
    → after_round f r ≢ out_of_fuel
after_round_ends work bound f (goes_on items s) lt ih = prepend-ne items (f s) (ih s lt)
after_round_ends work bound f (waits s) lt ih = λ e. cc
after_round_ends work bound f (fails s x) lt ih = λ e. cc

module _ {S E A : Type 0} (round : S → Round S E A) (work : S → ℕ)
    (shrinks : (s : S) → Shrinks work (work s) (round s)) where
  pub loop_fuel : (f g : ℕ) (s : S) → work s < f → work s < g → loop round f s ≡ loop round g s
  unfolding loop
  loop_fuel zero g s h k = absurd (omega arith)
  loop_fuel (suc f) zero s h k = absurd (omega arith)
  loop_fuel (suc f) (suc g) s h k =
      after_round_agrees work (work s) (loop round f) (loop round g) (round s) (shrinks s)
        (λ q lt. loop_fuel f g q (omega arith) (omega arith))

  pub loop_ends : (f : ℕ) (s : S) → work s < f → loop round f s ≢ out_of_fuel
  unfolding loop
  loop_ends zero s h = absurd (omega arith)
  loop_ends (suc f) s h =
      after_round_ends work (work s) (loop round f) (round s) (shrinks s)
        (λ q lt. loop_ends f q (omega arith))

  -- The loop with enough fuel steps by its rounds.
  unfoldable pub settle : S → Fed S E A
  settle s = loop round (suc (work s)) s

  pub settle-round : (s : S) {r : Round S E A} → round s ≡ r → settle s ≡ after_round settle r
  unfolding settle loop
  settle-round s h =
      after_round_agrees work (work s) (loop round (work s)) settle (round s) (shrinks s)
        (λ q lt. loop_fuel (work s) (suc (work q)) q lt (omega arith))
      ∙ ap (after_round settle) h
