-- ===== src/Base/Call.antt =====
-- What a call comes to that sets `errno` where it fails.
use libmongo_client.Base.Errno.{Errno}
use mathlib.Core.Bool.{Bool, true, false}
use mathlib.Core.Option.{Option, none, some}
use mathlib.Core.Path.{◌≡◌, refl}
use mathlib.Core.Logic.{◌⊎◌, inl, inr}

-- `fault`: it read or wrote outside the memory that it was handed or has allocated.
pub data Call {ℓ} (A : Type ℓ) : Type ℓ where
  returns : A → Call A
  errs : Errno → Call A
  fault : Call A

infixl 5 ◌>>=◌ ◌>>◌
abbrev pub ◌>>=◌ {ℓ κ} : {A : Type ℓ} {B : Type κ} → Call A → (A → Call B) → Call B
returns a >>= f = f a
errs e >>= f = errs e
fault >>= f = fault

abbrev pub ◌>>◌ {ℓ κ} : {A : Type ℓ} {B : Type κ} → Call A → Call B → Call B
m >> k = m >>= λ _. k

-- `if (test) { errno = e; return NULL; }`
abbrev pub refuse : Bool → Errno → Call (Unit {0})
refuse true e = errs e
refuse false e = returns tt

-- A pointer that must not be NULL.
abbrev pub given {ℓ} : {A : Type ℓ} → Option A → Errno → Call A
given none e = errs e
given (some a) e = returns a

-- An access to memory.
abbrev pub need {ℓ} : {A : Type ℓ} → Option A → Call A
need none = fault
need (some a) = returns a

pub Call-cases {ℓ} :
    {A : Type ℓ} (r : Call A)
    → ((a : A) × (r ≡ returns a)) ⊎ (((e : Errno) × (r ≡ errs e)) ⊎ (r ≡ fault))
Call-cases (returns a) = inl (a, refl)
Call-cases (errs e) = inr (inl (e, refl))
Call-cases fault = inr (inr refl)
