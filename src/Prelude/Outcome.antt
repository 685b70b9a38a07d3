-- ===== src/Prelude/Outcome.antt =====
-- debug.h: `ASSERT` and `Debug::panic`. `panic` never returns, so a computation that reaches it
-- has no further effect; a loop that is cut off by its fuel is kept apart.
use mathlib.Core.Bool.{Bool, true, false}

pub data Outcome {ℓ} (A : Type ℓ) : Type ℓ where
  ok : A → Outcome A
  panic : Outcome A
  spinning : Outcome A

infixl 5 ◌>>=◌ ◌>>◌
abbrev pub ◌>>=◌ {ℓ κ} : {A : Type ℓ} {B : Type κ} → Outcome A → (A → Outcome B) → Outcome B
ok a >>= f = f a
panic >>= f = panic
spinning >>= f = spinning

abbrev pub ◌>>◌ {ℓ} : {B : Type ℓ} → Outcome (Unit {0}) → Outcome B → Outcome B
m >> k = m >>= λ _. k

-- Debug::assert
abbrev pub assert : Bool → Outcome (Unit {0})
assert true = ok tt
assert false = panic
