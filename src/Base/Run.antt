-- ===== src/Base/Run.antt =====
-- A call that works on a state and sets `errno` where it fails. The state comes back after a failure
-- too, since what was written stays written.
use mathlib.Core.Path.{◌≡◌, refl}
use mathlib.Core.Logic.{◌⊎◌, inl, inr}
use libmongo_client.Base.Errno.{Errno}
use libmongo_client.Base.Result.{Result, ok, fails, fault, spins}

-- `crashes`: it reads or writes outside of its memory, or through NULL. `loops`: a loop did not end
-- within the rounds that it was given.
pub data Run {ℓ κ} (S : Type ℓ) (A : Type κ) : Type (ℓ ⊔ κ) where
  gives : A → S → Run S A
  stops : Errno → S → Run S A
  crashes : Run S A
  loops : Run S A

pub Run-cases {ℓ κ} :
    {S : Type ℓ} {A : Type κ} (r : Run S A)
    → ((a : A) × (s : S) × (r ≡ gives a s))
      ⊎ (((e : Errno) × (s : S) × (r ≡ stops e s)) ⊎ ((r ≡ crashes) ⊎ (r ≡ loops)))
Run-cases (gives a s) = inl (a, s, refl)
Run-cases (stops e s) = inr (inl (e, s, refl))
Run-cases crashes = inr (inr (inl refl))
Run-cases loops = inr (inr (inr refl))

infixl 5 ◌>>=◌
abbrev pub ◌>>=◌ {ℓ κ μ} :
    {S : Type ℓ} {A : Type κ} {B : Type μ} → Run S A → (A → S → Run S B) → Run S B
gives a s >>= f = f a s
stops e s >>= f = stops e s
crashes >>= f = crashes
loops >>= f = loops

-- A computation without `errno` inside a call: its failure is the given one.
abbrev pub lift {ℓ κ} : {S : Type ℓ} {A : Type κ} → Errno → S → Result A → Run S A
lift e s (ok a) = gives a s
lift e s fails = stops e s
lift e s fault = crashes
lift e s spins = loops
