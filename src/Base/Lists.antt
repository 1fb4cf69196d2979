-- ===== src/Base/Lists.antt =====
-- Lists measured and cut by native numbers, with the lemmas on cutting an append.
use Prim.Native.Nat.{ℕ, zero, suc, ◌+◌}
use mathlib.Core.Path.{◌≡◌, refl, ap}
use mathlib.Core.List.{List, [], ◌∷◌, ◌++◌}
use mathlib.Core.Option
use mathlib.Core.Option.{Option, none, some}
use native.Mathlib.Omega.{arith}

module _ {ℓ} {A : Type ℓ} where
  abbrev pub length : List A → ℕ
  length [] = 0
  length (x ∷ xs) = suc (length xs)

  abbrev pub drop : ℕ → List A → List A
  drop zero xs = xs
  drop (suc n) [] = []
  drop (suc n) (x ∷ xs) = drop n xs

  abbrev pub get_elem? : List A → ℕ → Option A
  get_elem? [] i = none
  get_elem? (x ∷ xs) zero = some x
  get_elem? (x ∷ xs) (suc i) = get_elem? xs i

  -- A write out of bounds changes nothing.
  abbrev pub set : List A → ℕ → A → List A
  set [] i v = []
  set (x ∷ xs) zero v = v ∷ xs
  set (x ∷ xs) (suc i) v = x ∷ set xs i v

  -- The first `n` entries, and none where there are fewer.
  abbrev pub take? : ℕ → List A → Option (List A)
  take? zero xs = some []
  take? (suc n) [] = none
  take? (suc n) (x ∷ xs) = Option.map (λ ys. x ∷ ys) (take? n xs)

  -- The list with its first entries replaced; it keeps its length.
  abbrev pub overwrite : List A → List A → List A
  overwrite [] ys = []
  overwrite (x ∷ xs) [] = x ∷ xs
  overwrite (x ∷ xs) (y ∷ ys) = y ∷ overwrite xs ys

  abbrev pub All {κ} : (A → Type κ) → List A → Type κ
  All P [] = Unit {κ}
  All P (x ∷ xs) = P x × All P xs

module _ {ℓ} {A : Type ℓ} where
  pub length-append : (xs ys : List A) → length (xs ++ ys) ≡ length xs + length ys
  length-append [] ys = omega arith
  length-append (x ∷ xs) ys = omega (arith, length-append xs ys)

  pub drop-append : (xs ys : List A) → drop (length xs) (xs ++ ys) ≡ ys
  drop-append [] ys = refl
  drop-append (x ∷ xs) ys = drop-append xs ys

  pub drop_from : (xs ys : List A) (n : ℕ) → n ≡ length xs → drop n (xs ++ ys) ≡ ys
  drop_from [] ys zero h = refl
  drop_from [] ys (suc n) h = absurd (omega arith)
  drop_from (x ∷ xs) ys zero h = absurd (omega arith)
  drop_from (x ∷ xs) ys (suc n) h = drop_from xs ys n (omega arith)

  pub take?-append : (xs ys : List A) → take? (length xs) (xs ++ ys) ≡ some xs
  take?-append [] ys = refl
  take?-append (x ∷ xs) ys = ap (Option.map (λ zs. x ∷ zs)) (take?-append xs ys)

  pub take?_from : (xs ys : List A) (n : ℕ) → n ≡ length xs → take? n (xs ++ ys) ≡ some xs
  take?_from [] ys zero h = refl
  take?_from [] ys (suc n) h = absurd (omega arith)
  take?_from (x ∷ xs) ys zero h = absurd (omega arith)
  take?_from (x ∷ xs) ys (suc n) h =
      ap (Option.map (λ zs. x ∷ zs)) (take?_from xs ys n (omega arith))

  pub take?_all : (xs : List A) → take? (length xs) xs ≡ some xs
  take?_all [] = refl
  take?_all (x ∷ xs) = ap (Option.map (λ zs. x ∷ zs)) (take?_all xs)

  pub take?_exact : (xs : List A) (n : ℕ) → length xs ≡ n → take? n xs ≡ some xs
  take?_exact [] zero h = refl
  take?_exact [] (suc n) h = absurd (omega arith)
  take?_exact (x ∷ xs) zero h = absurd (omega arith)
  take?_exact (x ∷ xs) (suc n) h = ap (Option.map (λ zs. x ∷ zs)) (take?_exact xs n (omega arith))

  overwrite-nil : (xs : List A) → overwrite xs [] ≡ xs
  overwrite-nil [] = refl
  overwrite-nil (x ∷ xs) = refl

  pub overwrite-append :
      (xs ys zs : List A) → length xs ≡ length ys → overwrite (xs ++ zs) ys ≡ ys ++ zs
  overwrite-append [] [] zs h = overwrite-nil zs
  overwrite-append [] (y ∷ ys) zs h = absurd (omega arith)
  overwrite-append (x ∷ xs) [] zs h = absurd (omega arith)
  overwrite-append (x ∷ xs) (y ∷ ys) zs h =
      ap (λ ws. y ∷ ws) (overwrite-append xs ys zs (omega arith))

  pub length-overwrite : (xs ys : List A) → length (overwrite xs ys) ≡ length xs
  length-overwrite [] ys = refl
  length-overwrite (x ∷ xs) [] = refl
  length-overwrite (x ∷ xs) (y ∷ ys) = ap suc (length-overwrite xs ys)

  pub length-set : (xs : List A) (i : ℕ) (v : A) → length (set xs i v) ≡ length xs
  length-set [] i v = refl
  length-set (x ∷ xs) zero v = refl
  length-set (x ∷ xs) (suc i) v = ap suc (length-set xs i v)

pub All-append {ℓ κ} :
    {A : Type ℓ} (P : A → Type κ) (xs ys : List A) → All P (xs ++ ys) → All P xs × All P ys
All-append P [] ys h = (tt, h)
All-append P (x ∷ xs) ys h = let rest = All-append P xs ys h.1 in ((h.0, rest.0), rest.1)

module _ {ℓ} {A : Type ℓ} where
  abbrev pub replicate : ℕ → A → List A
  replicate zero a = []
  replicate (suc n) a = a ∷ replicate n a

  pub length-replicate : (n : ℕ) (x : A) → length (replicate n x) ≡ n
  length-replicate zero x = refl
  length-replicate (suc n) x = ap suc (length-replicate n x)
