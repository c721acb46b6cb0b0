-- ===== src/Common/Outcome.antt =====
-- What a run of C code comes to: a value, an access that C leaves undefined, or more rounds of a
-- loop than the fuel allows.
use mathlib.Core.Option.{Option, none, some}

pub data Run {ℓ} (A : Type ℓ) : Type ℓ where
  done : A → Run A
  fault : Run A
  out_of_fuel : Run A

infixl 5 ◌>>=◌
abbrev pub ◌>>=◌ {ℓ κ} : {A : Type ℓ} {B : Type κ} → Run A → (A → Run B) → Run B
done a >>= f = f a
fault >>= f = fault
out_of_fuel >>= f = out_of_fuel

-- A memory access that may be out of bounds.
abbrev pub access {ℓ} : {A : Type ℓ} → Option A → Run A
access none = fault
access (some a) = done a

-- The 0 and -1 that C functions return.
pub data Rc : Type 0 where
  ok : Rc
  failed : Rc
