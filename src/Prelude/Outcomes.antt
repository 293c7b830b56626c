-- ===== src/Prelude/Outcomes.antt =====
-- What a Go call gives back: a value with a nil error, an error, or for the program's own functions a
-- panic.
use Prim.Native.String.{String}

pub data Error : Type 0 where
  -- what `k8serrors.IsNotFound` answers true on
  not_found : String → Error
  other : String → Error

-- What a call of a library returns: a value, or an error.
pub data Result {ℓ} (A : Type ℓ) : Type ℓ where
  value : A → Result A
  failure : Error → Result A

pub data Outcome {ℓ} (A : Type ℓ) : Type ℓ where
  ok : A → Outcome A
  err : Error → Outcome A
  panic : Outcome A

abbrev pub from_result {ℓ} : {A : Type ℓ} → Result A → Outcome A
from_result (value a) = ok a
from_result (failure e) = err e
