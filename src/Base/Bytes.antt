-- ===== src/Base/Bytes.antt =====
-- Bytes of memory. A pointer is the list of the bytes that can be read from it on, so a read that
-- leaves the list is a fault, `none`. Integers are stored in little-endian order, as on the wire.
use mathlib.Core.Option
use mathlib.Core.Option.{Option, none, some}
use mathlib.Core.List.{List, [], ◌∷◌, ◌++◌}
use mathlib.Core.Bool.{Bool, true, false, ◌&&◌}
use mathlib.Core.Path.{◌≡◌, refl, ap, ◌∙◌}
use mathlib.Core.Logic.{◌≢◌}
use native.Mathlib.Omega.{arith}
use native.Mathlib.Nat.{pow-suc}
use Prim.Native.Nat.{ℕ, zero, suc, ◌+◌, ◌*◌, ◌/◌, ◌%◌, ◌^◌, ◌<◌}
use libmongo_client.Base.Tests.{if◌then◌else◌, ◌==◌, ne→==}
use libmongo_client.Base.Lists.{length, take?, take?_from, All}

-- The `n` lowest bytes of `w`, lowest first.
unfoldable pub le : ℕ → ℕ → List ℕ
le zero w = []
le (suc n) w = (w % 256) ∷ le n (w / 256)

unfoldable pub of_le : List ℕ → ℕ
of_le [] = 0
of_le (x ∷ xs) = x + 256 * of_le xs

pub length-le : (n w : ℕ) → length (le n w) ≡ n
unfolding le
length-le zero w = refl
length-le (suc n) w = ap suc (length-le n (w / 256))

pub of_le-le : (n w : ℕ) → w < 256 ^ n → of_le (le n w) ≡ w
unfolding le of_le
of_le-le zero w h = omega arith
of_le-le (suc n) w h =
    omega (arith, pow-suc 256 n, of_le-le n (w / 256) (omega (arith, pow-suc 256 n)))

-- `memcpy` of an n-byte integer out of memory, and its conversion from little-endian order.
unfoldable pub read : ℕ → List ℕ → Option ℕ
read n mem = Option.map of_le (take? n mem)

pub read-le : (n w : ℕ) (rest : List ℕ) → w < 256 ^ n → read n (le n w ++ rest) ≡ some w
unfolding read
read-le n w rest h =
    ap (Option.map of_le) (take?_from (le n w) rest n (omega (arith, length-le n w)))
    ∙ ap some (of_le-le n w h)

-- `strlen`.
unfoldable pub strlen : List ℕ → Option ℕ
strlen [] = none
strlen (x ∷ xs) = if x == 0 then some 0 else Option.map suc (strlen xs)

-- The bytes of a C string, which end before the first NUL.
abbrev pub IsCString : List ℕ → Type 0
IsCString = All (λ b. b ≢ 0)

pub strlen-append : (s rest : List ℕ) → IsCString s → strlen (s ++ 0 ∷ rest) ≡ some (length s)
unfolding strlen
strlen-append [] rest h = refl
strlen-append (x ∷ xs) rest h =
    ap (λ b. if b then some 0 else Option.map suc (strlen (xs ++ 0 ∷ rest))) (ne→== x 0 h.0)
    ∙ ap (Option.map suc) (strlen-append xs rest h.1)

-- Byte strings compared for equality, as by `memcmp` at equal lengths.
unfoldable pub bytes_eq : List ℕ → List ℕ → Bool
bytes_eq [] [] = true
bytes_eq [] (y ∷ ys) = false
bytes_eq (x ∷ xs) [] = false
bytes_eq (x ∷ xs) (y ∷ ys) = x == y && bytes_eq xs ys

pub bytes_eq_self : (xs : List ℕ) → bytes_eq xs xs ≡ true
unfolding bytes_eq
bytes_eq_self [] = refl
bytes_eq_self (x ∷ xs) = ground (arith, bytes_eq_self xs)

pub bytes_eq→eq : (xs ys : List ℕ) → bytes_eq xs ys ≡ true → xs ≡ ys
unfolding bytes_eq
bytes_eq→eq [] [] h = refl
bytes_eq→eq [] (y ∷ ys) h = cc
bytes_eq→eq (x ∷ xs) [] h = cc
bytes_eq→eq (x ∷ xs) (y ∷ ys) h = ground (arith, bytes_eq→eq xs ys)
