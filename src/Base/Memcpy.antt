-- ===== src/Base/Memcpy.antt =====
-- A buffer of `g_malloc` and the `memcpy` calls that fill it. The bytes of a fresh buffer are
-- unspecified: each is `junk`, any number.
use mathlib.Core.Option
use mathlib.Core.Option.{Option, none, some}
use mathlib.Core.List.{List, [], ◌∷◌, ◌++◌, append_assoc}
use mathlib.Core.Path.{◌≡◌, refl, ap, ◌∙◌}
use native.Mathlib.Omega.{arith}
use Prim.Native.Nat.{ℕ, zero, suc, ◌+◌}
use libmongo_client.Base.Lists.{length, length-append, replicate}

-- `memcpy (buf + n, src, length src)`; none where it would leave the buffer.
unfoldable pub blit : List ℕ → ℕ → List ℕ → Option (List ℕ)
blit buf zero [] = some buf
blit [] zero (y ∷ src) = none
blit (x ∷ buf) zero (y ∷ src) = Option.map (λ b. y ∷ b) (blit buf zero src)
blit [] (suc n) src = none
blit (x ∷ buf) (suc n) src = Option.map (λ b. x ∷ b) (blit buf n src)

-- The calls in order, each with its offset.
unfoldable pub memcpy_all : List ℕ → List (ℕ × List ℕ) → Option (List ℕ)
memcpy_all buf [] = some buf
memcpy_all buf ((n, src) ∷ rest) = elim (blit buf n src) [
  | none ↦ none
  | some buf' ↦ memcpy_all buf' rest
]

blit_start :
    (src rest : List ℕ) (junk : ℕ)
    → blit (replicate (length src) junk ++ rest) zero src ≡ some (src ++ rest)
unfolding blit
blit_start [] [] junk = refl
blit_start [] (x ∷ rest) junk = refl
blit_start (y ∷ src) rest junk = ap (Option.map (λ b. y ∷ b)) (blit_start src rest junk)

-- Behind what is written already.
blit_behind :
    (done src rest : List ℕ) (junk n : ℕ)
    → n ≡ length done
    → blit (done ++ (replicate (length src) junk ++ rest)) n src ≡ some (done ++ (src ++ rest))
unfolding blit
blit_behind [] src rest junk zero h = blit_start src rest junk
blit_behind [] src rest junk (suc n) h = absurd (omega arith)
blit_behind (x ∷ done) src rest junk zero h = absurd (omega arith)
blit_behind (x ∷ done) src rest junk (suc n) h =
    ap (Option.map (λ b. x ∷ b)) (blit_behind done src rest junk n (omega arith))

replicate_add : (m n junk : ℕ) → replicate (m + n) junk ≡ replicate m junk ++ replicate n junk
replicate_add zero n junk = ap (λ k. replicate k junk) (omega arith)
replicate_add (suc m) n junk =
    let e : suc m + n ≡ suc (m + n) = omega arith in
    ap (λ k. replicate k junk) e ∙ ap (λ r. junk ∷ r) (replicate_add m n junk)

-- The contents of the buffer, chunk by chunk.
abbrev pub concat : List (ℕ × List ℕ) → List ℕ
concat [] = []
concat ((n, src) ∷ rest) = src ++ concat rest

-- Each chunk starts where the one before it ends.
abbrev pub IsConsecutive : ℕ → List (ℕ × List ℕ) → Type 0
IsConsecutive p [] = Unit {0}
IsConsecutive p ((n, src) ∷ rest) = (n ≡ p) × IsConsecutive (p + length src) rest

memcpy_all_fill :
    (chunks : List (ℕ × List ℕ)) (done : List ℕ) (p junk : ℕ)
    → p ≡ length done
    → IsConsecutive p chunks
    → memcpy_all (done ++ replicate (length (concat chunks)) junk) chunks
      ≡ some (done ++ concat chunks)
unfolding memcpy_all
memcpy_all_fill [] done p junk h c = refl
memcpy_all_fill ((n, src) ∷ rest) done p junk h c =
    ap (λ buf. memcpy_all (done ++ buf) ((n, src) ∷ rest))
      (ap (λ k. replicate k junk) (length-append src (concat rest))
        ∙ replicate_add (length src) (length (concat rest)) junk)
    ∙ rw
        (
          blit_behind done src (replicate (length (concat rest)) junk) junk n (omega arith),
          memcpy_all,
        )
        (rw (← append_assoc done src (replicate (length (concat rest)) junk)) (
          memcpy_all_fill rest (done ++ src) (p + length src) junk
            (omega (arith, length-append done src)) c.1
          ∙ ap some (append_assoc done src (concat rest))))

-- Chunks that follow one another from the start of a buffer of their whole length fill it: no call
-- leaves the buffer, and no unspecified byte is left.
pub memcpy_all-concat :
    (total junk : ℕ) (chunks : List (ℕ × List ℕ))
    → total ≡ length (concat chunks)
    → IsConsecutive 0 chunks
    → memcpy_all (replicate total junk) chunks ≡ some (concat chunks)
memcpy_all-concat total junk chunks h c =
    ap (λ n. memcpy_all (replicate n junk) chunks) h ∙ memcpy_all_fill chunks [] 0 junk refl c
