-- ===== src/Base/Results.antt =====
-- What a call of a C++ member function comes to: a value, an exception, or no defined behaviour.
use mathlib.Core.Path.{◌≡◌, refl}
use mathlib.Core.Option.{Option, none, some}

pub data Error : Type 0 where
  -- `throw std::logic_error(...)`
  logic_error : Error
  -- `throw std::runtime_error(...)`
  runtime_error : Error
  -- an access through an index or a pointer that is not valid
  undefined_behaviour : Error
  -- a loop that has used up the fuel of the model
  out_of_fuel : Error

pub data Outcome {ℓ} (A : Type ℓ) : Type ℓ where
  ok : A → Outcome A
  err : Error → Outcome A

infixl 5 ◌>>=◌
abbrev pub ◌>>=◌ {ℓ κ} : {A : Type ℓ} {B : Type κ} → Outcome A → (A → Outcome B) → Outcome B
ok a >>= f = f a
err e >>= f = err e

-- An index into a deque or an array: past its end there is no defined behaviour.
abbrev pub checked {ℓ} : {A : Type ℓ} → Option A → Outcome A
checked none = err undefined_behaviour
checked (some a) = ok a

-- A chain whose first two links return, and one of two values that do not depend on one another.
pub chained {ℓ κ μ} :
    {A : Type ℓ} {B : Type κ} {C : Type μ} (a : Outcome A) (f : A → Outcome B) (g : B → Outcome C)
    (b : B)
    → (a >>= λ x. f x) ≡ ok b
    → (a >>= λ x. f x >>= g) ≡ g b
chained (ok x) f g b e = rw e refl
chained (err x) f g b e = cc

pub with_two {ℓ κ} :
    {A : Type ℓ} {B : Type κ} (o o' : Outcome A) (p p' : A) (f : A → A → Outcome B)
    → o ≡ ok p
    → o' ≡ ok p'
    → (o >>= λ a. o' >>= λ b. f a b) ≡ f p p'
with_two o o' p p' f e e' = rw (e, e') refl
