-- ===== src/Gridfs/Writer/Feed.antt =====
-- What a stream writes, independent of the code: bytes are gathered one by one, and a chunk goes out
-- once it is full.
use libmongo_client.Base.{
  ℕ, ◌+◌, ◌<◌, ◌≡◌, refl, sym, ◌∙◌, List, [], ◌∷◌, ◌++◌, append_assoc, append-nil, arith, length,
  length-append, eq→==, ne→==, ◌==◌, if◌then◌else◌, All,
}

-- The chunks that are full, and the bytes behind them.
pub record Fed : Type 0 where
  pub full : List (List ℕ)
  pub pending : List ℕ

abbrev pub nothing : Fed
nothing = record { full = []; pending = [] }

unfoldable pub push : ℕ → Fed → ℕ → Fed
push c s x =
    if length s.pending + 1 == c
    then record { full = s.full ++ (s.pending ++ x ∷ []) ∷ []; pending = [] }
    else record { full = s.full; pending = s.pending ++ x ∷ [] }

unfoldable pub feed : ℕ → Fed → List ℕ → Fed
unfolding push
feed c s [] = s
feed c s (x ∷ xs) = feed c (push c s x) xs

-- All bytes, in order.
unfoldable pub joined : List (List ℕ) → List ℕ
joined [] = []
joined (d ∷ ds) = d ++ joined ds

-- Each full chunk has the size `c`, and what is pending is shorter.
abbrev pub IsFed : ℕ → Fed → Type 0
IsFed c s = All (λ d. length d ≡ c) s.full × (length s.pending < c)

pub feed-append : (c : ℕ) (s : Fed) (xs ys : List ℕ) → feed c s (xs ++ ys) ≡ feed c (feed c s xs) ys
unfolding feed
feed-append c s [] ys = refl
feed-append c s (x ∷ xs) ys = feed-append c (push c s x) xs ys

pub joined-append : (xs ys : List (List ℕ)) → joined (xs ++ ys) ≡ joined xs ++ joined ys
unfolding joined
joined-append [] ys = refl
joined-append (x ∷ xs) ys = rw (joined-append xs ys) (sym (append_assoc x (joined xs) (joined ys)))

-- Bytes that do not fill the chunk are pending.
pub feed_partial :
    (c : ℕ) (full : List (List ℕ)) (p xs : List ℕ)
    → length p + length xs < c
    → feed c (record { full = full; pending = p }) xs ≡ record { full = full; pending = p ++ xs }
unfolding feed push
feed_partial c full p [] h = rw append-nil refl
feed_partial c full p (x ∷ xs) h = rw (ne→== (length p + 1) c (omega arith)) (
    feed_partial c full (p ++ x ∷ []) xs (omega (arith, length-append p (x ∷ [])))
    ∙ simp append_assoc)

-- Bytes that fill the chunk make it full.
pub feed_full :
    (c : ℕ) (full : List (List ℕ)) (p : List ℕ) (x : ℕ) (xs : List ℕ)
    → length p + length (x ∷ xs) ≡ c
    → feed c (record { full = full; pending = p }) (x ∷ xs)
      ≡ record { full = full ++ (p ++ x ∷ xs) ∷ []; pending = [] }
unfolding feed push
feed_full c full p x [] h = rw (eq→== (length p + 1) c (omega arith)) refl
feed_full c full p x (y ∷ ys) h = rw (ne→== (length p + 1) c (omega arith)) (
    feed_full c full (p ++ x ∷ []) y ys (omega (arith, length-append p (x ∷ [])))
    ∙ simp append_assoc)
