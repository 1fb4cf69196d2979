-- ===== src/Base/Result.antt =====
-- What a call of the C code comes to.
use mathlib.Core.Bool.{Bool, true, false}
use mathlib.Core.Option.{Option, none, some}
use mathlib.Core.Path.{◌≡◌, refl}
use mathlib.Core.Logic.{◌⊎◌, inl, inr}

-- `ok a`: it succeeded. `fails`: it returned FALSE or NULL. `fault`: it read or wrote outside the
-- memory that it was handed. `spins`: a loop used up the rounds that the model gives it.
pub data Result {ℓ} (A : Type ℓ) : Type ℓ where
  ok : A → Result A
  fails : Result A
  fault : Result A
  spins : Result A

infixl 5 ◌>>=◌ ◌>>◌
abbrev pub ◌>>=◌ {ℓ κ} : {A : Type ℓ} {B : Type κ} → Result A → (A → Result B) → Result B
ok a >>= f = f a
fails >>= f = fails
fault >>= f = fault
spins >>= f = spins

abbrev pub ◌>>◌ {ℓ} : {B : Type ℓ} → Result (Unit {0}) → Result B → Result B
m >> k = m >>= λ _. k

-- An early `return FALSE` unless the test holds.
abbrev pub require : Bool → Result (Unit {0})
require true = ok tt
require false = fails

-- An access to memory.
abbrev pub access {ℓ} : {A : Type ℓ} → Option A → Result A
access none = fault
access (some a) = ok a

-- A pointer that the code tests for NULL.
abbrev pub non_null {ℓ} : {A : Type ℓ} → Option A → Result A
non_null none = fails
non_null (some a) = ok a

pub Result-cases {ℓ} :
    {A : Type ℓ} (r : Result A)
    → ((a : A) × (r ≡ ok a)) ⊎ ((r ≡ fails) ⊎ ((r ≡ fault) ⊎ (r ≡ spins)))
Result-cases (ok a) = inl (a, refl)
Result-cases fails = inr (inl refl)
Result-cases fault = inr (inr (inl refl))
Result-cases spins = inr (inr (inr refl))

-- What a computation returns, where it returns, has the property.
abbrev pub Yields {ℓ κ} : {A : Type ℓ} → (A → Type κ) → Result A → Type κ
Yields P (ok a) = P a
Yields P fails = Unit
Yields P fault = Unit
Yields P spins = Unit

pub Yields-bind {ℓ κ μ} :
    {A : Type ℓ} {B : Type κ} (P : B → Type μ) (r : Result A) (f : A → Result B)
    → ((a : A) → Yields P (f a))
    → Yields P (r >>= f)
Yields-bind P (ok a) f h = h a
Yields-bind P fails f h = tt
Yields-bind P fault f h = tt
Yields-bind P spins f h = tt
