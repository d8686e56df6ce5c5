-- ===== src/Outcome.antt =====
-- The results of code that may fault or loop. A read through a null pointer and a failed assert are
-- `fault`; `out_of_fuel` says that a loop did not end in the rounds that it was given.
use ced.Base.{Option, none, some}

pub data Outcome {ℓ} (A : Type ℓ) : Type ℓ where
  ok : A → Outcome A
  fault : Outcome A
  out_of_fuel : Outcome A

abbrev pub ◌>>=◌ {κ ℓ} : {X : Type κ} {Y : Type ℓ} → Outcome X → (X → Outcome Y) → Outcome Y
fault >>= next = fault
out_of_fuel >>= next = out_of_fuel
ok x >>= next = next x

infixl 5 ◌>>=◌
-- `*p`
abbrev pub deref {ℓ} : {A : Type ℓ} → Option A → Outcome A
deref none = fault
deref (some a) = ok a
