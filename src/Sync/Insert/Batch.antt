-- ===== src/Sync/Insert/Batch.antt =====
-- src/mongo-sync.c: how many documents go into one packet.
use libmongo_client.Base.{
  ℕ, suc, ◌+◌, ◌%◌, ◌^◌, ◌≤◌, ◌<◌, ◌≡◌, refl, ap, sym, ◌∙◌, Bool, true, false, Option, none, some,
  List, [], ◌∷◌, ◌++◌, ◌⊎◌, inl, inr, All, arith, length, append-nil, subst, Bool-cases, ltb,
  lt→ltb, le→ltb,
}
use libmongo_client.Base.Int.{pos, slt}
use libmongo_client.Bson.Object.{Bson, size}
use libmongo_client.Sync.Insert.{fill, batch_count, next_batch}

-- The sizes, added up.
abbrev pub total_size : List (Option Bson) → ℕ
total_size [] = 0
total_size (d ∷ ds) = size d + total_size ds

abbrev pub Small : ℕ → List (Option Bson) → Type 0
Small max = All (λ d. size d < max)

pub slt_small : (a b : ℕ) → a < 2 ^ 31 → b < 2 ^ 31 → a < b → slt a b ≡ true
slt_small a b ha hb h = lt→ltb _ _ (omega arith)

pub slt_large : (a b : ℕ) → a < 2 ^ 31 → b < 2 ^ 31 → b ≤ a → slt a b ≡ false
slt_large a b ha hb h = le→ltb _ _ (omega arith)

-- The loop takes all documents, or it stops behind the one with which the maximum is reached.
abbrev Filled : ℕ → List (Option Bson) → ℕ → Type 0
Filled max ds total =
    ((fill max (length ds) ds total ≡ some (length ds, false))
      × (total + total_size ds < max + max))
    ⊎ ((front : List (Option Bson)) × (x y : Option Bson) × (back : List (Option Bson)) × (ds
          ≡ front ++ (x ∷ (y ∷ back)))
        × (fill max (length ds) ds total ≡ some (suc (length front), true))
        × (total + total_size front < max)
        × (max ≤ total + total_size front + size x))

abbrev one_more : Option (ℕ × Bool) → Option (ℕ × Bool)
one_more none = none
one_more (some (c, early)) = some (suc c, early)

fill_goes :
    (max n : ℕ) (d : Option Bson) (ds : List (Option Bson)) (total : ℕ)
    → max ≤ 2 ^ 30
    → size d < max
    → total < max
    → fill max (suc n) (d ∷ ds) total ≡ one_more (fill max n ds (total + size d))
unfolding fill
fill_goes max n d ds total m h t =
    let sum : (total + size d) % 2 ^ 32 ≡ total + size d = omega arith in
    rw (slt_small total max (omega arith) (omega arith) t)
      (ap (λ k. one_more (fill max n ds k)) sum)

fill_stops :
    (max n : ℕ) (d : Option Bson) (ds : List (Option Bson)) (total : ℕ)
    → max ≤ 2 ^ 30
    → total < max + max
    → max ≤ total
    → fill max (suc n) (d ∷ ds) total ≡ some (0, true)
unfolding fill
fill_stops max n d ds total m small t = rw (slt_large total max (omega arith) (omega arith) t) refl

fill_rest :
    (max : ℕ) (d e : Option Bson) (ds : List (Option Bson)) (total : ℕ)
    → max ≤ 2 ^ 30
    → Small max (d ∷ (e ∷ ds))
    → total < max
    → Filled max (e ∷ ds) (total + size d)
    → Filled max (d ∷ (e ∷ ds)) total
fill_rest max d e ds total m h t (inl (f, b)) =
    inl (fill_goes max _ d (e ∷ ds) total m h.0 t ∙ ap one_more f, omega (arith, b))
fill_rest max d e ds total m h t (inr (front, x, y, back, cut, f, b, c)) = inr (
  d ∷ front,
  x,
  y,
  back,
  ap (λ l. d ∷ l) cut,
  fill_goes max _ d (e ∷ ds) total m h.0 t ∙ ap one_more f,
  omega (arith, b),
  omega (arith, c),
)

empty_fill : (max total : ℕ) → fill max 0 [] total ≡ some (0, false)
unfolding fill
empty_fill max total = refl

fill-Filled :
    (max : ℕ) (ds : List (Option Bson)) (total : ℕ)
    → max ≤ 2 ^ 30
    → Small max ds
    → total < max
    → Filled max ds total
fill-Filled max [] total m h t = inl (empty_fill max total, omega arith)
fill-Filled max (d ∷ []) total m h t =
    let d_small = h.0 in
    inl (
      fill_goes max 0 d [] total m h.0 t ∙ ap one_more (empty_fill max (total + size d)),
      omega arith,
    )
fill-Filled max (d ∷ (e ∷ ds)) total m h t =
    let d_small = h.0 in
    elim (Bool-cases (ltb (total + size d) max)) [
      | inl b ↦
          fill_rest max d e ds total m h t
            (fill-Filled max (e ∷ ds) (total + size d) m h.1 (ground arith))
      | inr b ↦ inr (
        [],
        d,
        e,
        ds,
        refl,
        fill_goes max _ d (e ∷ ds) total m h.0 t
            ∙ ap one_more (fill_stops max _ e ds (total + size d) m (omega arith) (ground arith)),
        omega arith,
        ground arith,
      )
    ]

-- The documents of the next packet and those behind it: all, or so many that their size stays below
-- the maximum and would reach it with the next one.
pub data Cut (max : ℕ) : List (Option Bson) → List (Option Bson) → Type 0 where
  all_left : (b : List (Option Bson)) → 0 < length b → total_size b < max + max → Cut max b []
  as_fits :
      (b rest : List (Option Bson)) (x : Option Bson)
      → 0 < length b
      → total_size b < max
      → max ≤ total_size b + size x
      → Cut max b (x ∷ rest)

next_batch_of :
    (max left c : ℕ) (early : Bool) (ds : List (Option Bson))
    → fill max left ds 0 ≡ some (c, early)
    → next_batch max left ds ≡ some (batch_count c early)
unfolding next_batch
next_batch_of max left c early ds h = rw (h, next_batch) refl

-- The first document always fits.
front_full :
    (max : ℕ) (front back : List (Option Bson)) (x : Option Bson)
    → Small max (front ++ (x ∷ back))
    → max ≤ 0 + total_size front + size x
    → 0 < length front
front_full max [] back x h c = let small = h.0 in omega (arith, c)
front_full max (d ∷ front) back x h c = omega arith

-- With documents that are each smaller than the maximal size of inserts, which is at most 2 ^ 30, the
-- loop of `mongo_sync_cmd_insert_n` puts one document at least into the next packet. It takes all of
-- them, less than twice the maximum, or as many as stay below the maximum while the next one would
-- reach it.
pub next_batch-Cut :
    (max : ℕ) (ds : List (Option Bson))
    → max ≤ 2 ^ 30
    → Small max ds
    → 0 < length ds
    → (b : List (Option Bson)) × (rest : List (Option Bson)) × (ds ≡ b ++ rest)
      × (next_batch max (length ds) ds ≡ some (pos (length b)))
      × Cut max b rest
unfolding batch_count
next_batch-Cut max [] m h full = absurd (omega arith)
next_batch-Cut max (d ∷ ds) m h full =
    elim (fill-Filled max (d ∷ ds) 0 m h (let small = h.0 in omega arith)) [
      | inl (f, b) ↦ (
        d ∷ ds,
        [],
        sym (append-nil (d ∷ ds)),
        next_batch_of max _ _ false (d ∷ ds) f,
        all_left (d ∷ ds) full (omega (arith, b)),
      )
      | inr (front, x, y, back, cut, f, b, c) ↦ (
        front,
        x ∷ (y ∷ back),
        cut,
        next_batch_of max _ _ true (d ∷ ds) f,
        as_fits front (y ∷ back) x (front_full max front (y ∷ back) x (subst (Small max) cut h) c)
            (omega (arith, b)) (omega (arith, c)),
      )
    ]
