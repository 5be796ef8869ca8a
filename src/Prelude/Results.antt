-- ===== src/Prelude/Results.antt =====
-- The ends of a Rust call: `Result` for a returned error, `Outcome` where a step may panic.

pub data Result {ℓ κ} (E : Type κ) (A : Type ℓ) : Type (ℓ ⊔ κ) where
  ok : A → Result E A
  err : E → Result E A

-- `panicked` stands for a panic, such as an overflowing `Duration` addition.
pub data Outcome {ℓ} (A : Type ℓ) : Type ℓ where
  returned : A → Outcome A
  panicked : Outcome A

abbrev pub bind {ℓ κ} : {A : Type ℓ} {B : Type κ} → Outcome A → (A → Outcome B) → Outcome B
bind (returned a) f = f a
bind panicked f = panicked
