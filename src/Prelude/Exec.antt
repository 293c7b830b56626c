-- ===== src/Prelude/Exec.antt =====
-- Go functions with effects and an error result: a state, passed on, and an outcome.
use mathlib.Core.Path.{◌≡◌, refl}
use native.Mathlib.Omega.{arith}
use layer7_operator.Prelude.Outcomes.{Error, Outcome, ok, err, panic}

abbrev pub Exec : Type 0 → Type 0 → Type 0
Exec S A = S → Outcome A × S

module _ {S A B : Type 0} where
  -- What follows a call: its error, and a panic, end the function.
  abbrev pub proceed : Outcome A → S → (A → Exec S B) → Outcome B × S
  proceed (ok a) s f = f a s
  proceed (err e) s f = (err e, s)
  proceed panic s f = (panic, s)

  infixl 5 ◌>>=◌
  abbrev pub ◌>>=◌ : Exec S A → (A → Exec S B) → Exec S B
  ◌>>=◌ m f s = let (r, s') = m s in proceed r s' f

module _ {S B : Type 0} where
  infixl 5 ◌>>◌
  abbrev pub ◌>>◌ : Exec S (Unit {0}) → Exec S B → Exec S B
  m >> k = m >>= λ _. k

-- `v, _ := f()` where `f` returns a zero value with its error.
abbrev pub or_zero : {A : Type 0} → A → Outcome A → Outcome A
or_zero zero_value (ok a) = ok a
or_zero zero_value (err e) = ok zero_value
or_zero zero_value panic = panic

module _ {S A : Type 0} where
  abbrev pub pure : A → Exec S A
  pure a s = (ok a, s)

  abbrev pub raise : Error → Exec S A
  raise e s = (err e, s)

  -- A pure result, taken into the chain.
  abbrev pub lift : Outcome A → Exec S A
  lift r s = (r, s)

  abbrev pub ignore_error : A → Exec S A → Exec S A
  ignore_error zero_value m s = let (r, s') = m s in (or_zero zero_value r, s')

-- Binds may be bracketed to the right.
pub proceed_assoc :
    {S A B D : Type 0} (r : Outcome A) (s : S) (f : A → Exec S B) (g : B → Exec S D)
    → proceed (proceed r s f).0 (proceed r s f).1 g
      ≡ proceed r s (λ a t. proceed (f a t).0 (f a t).1 g)
proceed_assoc (ok a) s f g = refl
proceed_assoc (err e) s f g = refl
proceed_assoc panic s f g = refl

-- A chain that ends well has passed its first call well.
pub proceed-ok :
    {S A B : Type 0} (r : Outcome A) (s s' : S) (f : A → Exec S B) {b : B}
    → proceed r s f ≡ (ok b, s')
    → (a : A) × (r ≡ ok a) × (f a s ≡ (ok b, s'))
proceed-ok (ok a) s s' f h = (a, refl, h)
proceed-ok (err e) s s' f h = ground arith
proceed-ok panic s s' f h = ground arith

-- What follows a call may be replaced by what acts alike.
pub proceed-ext :
    {S A B : Type 0} (r : Outcome A) (s : S) (f g : A → Exec S B)
    → ((a : A) (t : S) → f a t ≡ g a t)
    → proceed r s f ≡ proceed r s g
proceed-ext (ok a) s f g h = h a s
proceed-ext (err e) s f g h = refl
proceed-ext panic s f g h = refl
