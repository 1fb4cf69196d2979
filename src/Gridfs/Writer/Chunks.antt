-- ===== src/Gridfs/Writer/Chunks.antt =====
-- The chunks of a stream that is fed bytes: they keep the bytes and their sizes.
use libmongo_client.Base.{
  ℕ, ◌+◌, ◌≡◌, ap, sym, ◌∙◌, Bool-cases, inl, inr, List, [], ◌∷◌, ◌++◌, append_assoc, append-nil,
  arith, length, length-append, ◌==◌, All,
}
use libmongo_client.Gridfs.Writer.Feed.{Fed, push, feed, joined, IsFed, joined-append}

pub All-snoc :
    {A : Type 0} (P : A → Type 0) (xs : List A) (x : A) → All P xs → P x → All P (xs ++ x ∷ [])
All-snoc P [] x h p = (p, tt)
All-snoc P (y ∷ xs) x h p = (h.0, All-snoc P xs x h.1 p)

pub joined-snoc : (full : List (List ℕ)) (d : List ℕ) → joined (full ++ d ∷ []) ≡ joined full ++ d
unfolding joined
joined-snoc full d = joined-append full (d ∷ []) ∙ ap (λ r. joined full ++ r) (append-nil d)

push-IsFed : (c : ℕ) (s : Fed) (x : ℕ) → IsFed c s → IsFed c (push c s x)
unfolding push
push-IsFed c s x h = elim (Bool-cases (length s.pending + 1 == c)) [
  | inl full ↦ rw full (
    All-snoc (λ d. length d ≡ c) s.full (s.pending ++ x ∷ []) h.0
        (ground (arith, length-append s.pending (x ∷ []))),
    omega (arith, h.1),
  )
  | inr room ↦ rw room (h.0, ground (arith, length-append s.pending (x ∷ []), h.1))
]

-- Feeding keeps the sizes: full chunks of the size, and fewer bytes behind them.
pub feed-IsFed : (c : ℕ) (s : Fed) (xs : List ℕ) → IsFed c s → IsFed c (feed c s xs)
unfolding feed
feed-IsFed c s [] h = h
feed-IsFed c s (x ∷ xs) h = feed-IsFed c (push c s x) xs (push-IsFed c s x h)

joined-push :
    (c : ℕ) (s : Fed) (x : ℕ)
    → joined (push c s x).full ++ (push c s x).pending ≡ (joined s.full ++ s.pending) ++ x ∷ []
unfolding push
joined-push c s x = elim (Bool-cases (length s.pending + 1 == c)) [
  | inl full ↦ rw full (
      append-nil _
      ∙ joined-snoc s.full (s.pending ++ x ∷ [])
      ∙ sym (append_assoc (joined s.full) s.pending (x ∷ [])))
  | inr room ↦ rw room (sym (append_assoc (joined s.full) s.pending (x ∷ [])))
]

-- Feeding keeps the bytes, in order.
pub joined-feed :
    (c : ℕ) (s : Fed) (xs : List ℕ)
    → joined (feed c s xs).full ++ (feed c s xs).pending ≡ (joined s.full ++ s.pending) ++ xs
unfolding feed
joined-feed c s [] = sym (append-nil _)
joined-feed c s (x ∷ xs) =
    joined-feed c (push c s x) xs
    ∙ ap (λ b. b ++ xs) (joined-push c s x)
    ∙ append_assoc (joined s.full ++ s.pending) (x ∷ []) xs
