-- ===== src/Base/Outcome.antt =====
-- What a run of kernel code comes to: a value, or one of the ways in which it stops. ASSERT and
-- PANIC disable interrupts and spin for ever, an access outside an array is undefined in C, and
-- `out_of_fuel` is the model's own: theorems about results exclude it.
use mathlib.Core.Bool.{Bool, true, false}
use mathlib.Core.Path.{◌≡◌}

pub data Stop : Type 0 where
  assertion_failed panicked out_of_bounds null_pointer divide_error out_of_fuel : Stop

pub data Outcome {ℓ} (A : Type ℓ) : Type ℓ where
  ok : A → Outcome A
  stop : Stop → Outcome A

infixl 5 ◌>>=◌ ◌>>◌
abbrev pub ◌>>=◌ {ℓ κ} : {A : Type ℓ} {B : Type κ} → Outcome A → (A → Outcome B) → Outcome B
ok a >>= f = f a
stop s >>= f = stop s

abbrev pub ◌>>◌ {ℓ} : {B : Type ℓ} → Outcome (Unit {0}) → Outcome B → Outcome B
m >> k = m >>= λ _. k

-- ASSERT(b)
abbrev pub assert : Bool → Outcome (Unit {0})
assert true = ok tt
assert false = stop assertion_failed

pub ok-injective {ℓ} : {A : Type ℓ} {a b : A} → ok a ≡ ok b → a ≡ b
ok-injective h = cc
