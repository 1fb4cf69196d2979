-- ===== src/Gridfs/Writer/Holding.antt =====
-- The states of a stream of src/sync-gridfs-stream.c that writes, by what it was fed, and the server
-- with the chunks.
use libmongo_client.Base.{
  ℕ, zero, suc, ◌+◌, ◌%◌, ◌^◌, ◌≤◌, ◌<◌, ◌≡◌, refl, ap, ◌∙◌, Option, some, List, [], ◌∷◌, ◌++◌,
  arith, length, take?_from,
}
use libmongo_client.Base.Int.{half64}
use libmongo_client.Base.Memcpy.{blit}
use libmongo_client.Bson.Object.{Bson}
use libmongo_client.Bson.Build.Appends.{document_of}
use libmongo_client.Gridfs.Server.{Server, GridFs}
use libmongo_client.Gridfs.Document.Elements.{chunk_elements}
use libmongo_client.Gridfs.Writer.{Writer, put}
use libmongo_client.Gridfs.Writer.Feed.{Fed, joined}

blit_middle :
    (a b c d : List ℕ) (n : ℕ)
    → n ≡ length a
    → length b ≡ length d
    → blit (a ++ (b ++ c)) n d ≡ some (a ++ (d ++ c))
unfolding blit
blit_middle [] [] [] [] zero h e = refl
blit_middle [] [] (x ∷ c) [] zero h e = refl
blit_middle [] [] c (y ∷ d) zero h e = absurd (omega arith)
blit_middle [] (x ∷ b) c [] zero h e = absurd (omega arith)
blit_middle [] (x ∷ b) c (y ∷ d) zero h e = rw (blit_middle [] b c d zero refl (omega arith)) refl
blit_middle [] b c d (suc n) h e = absurd (omega arith)
blit_middle (x ∷ a) b c d zero h e = absurd (omega arith)
blit_middle (x ∷ a) b c d (suc n) h e = rw (blit_middle a b c d n (omega arith) e) refl

-- The first `n` bytes and the others.
pub cut : (n : ℕ) (xs : List ℕ) → n ≤ length xs → (a b : List ℕ) × (xs ≡ a ++ b) × (length a ≡ n)
cut zero xs h = ([], xs, refl, refl)
cut (suc n) [] h = absurd (omega arith)
cut (suc n) (x ∷ xs) h =
    let r = cut n xs (omega arith) in (x ∷ r.0, r.1, ap (λ l. x ∷ l) r.2, ap suc r.3)

module _ (id : List ℕ) {W : Type 0} (server : Server W) (gfs : GridFs) where
  -- The chunks inserted one after another, from the number `n` on.
  unfoldable pub store : W → ℕ → List (List ℕ) → W
  store s n [] = s
  store s n (d ∷ ds) =
      store (server.insert gfs.chunks_ns (some (document_of (chunk_elements id n d))) s).1 (suc n)
        ds

  pub store-append :
      (s : W) (n : ℕ) (ds : List (List ℕ)) (d : List ℕ)
      → store s n (ds ++ d ∷ [])
        ≡ (server.insert gfs.chunks_ns
            (some (document_of (chunk_elements id (n + length ds) d)))
            (store s n ds)).1
  unfolding store
  store-append s n [] d =
      ap (λ k. (server.insert gfs.chunks_ns (some (document_of (chunk_elements id k d))) s).1)
        (omega arith)
  store-append s n (x ∷ ds) d =
      store-append (server.insert gfs.chunks_ns (some (document_of (chunk_elements id n x))) s).1
        (suc n) ds d
      ∙ ap
          (λ k.
            (server.insert gfs.chunks_ns (some (document_of (chunk_elements id k d))) (
              store (server.insert gfs.chunks_ns (some (document_of (chunk_elements id n x))) s).1
                (suc n) ds)).1)
          (omega arith)

module _ (c : ℕ) (id : List ℕ) (metadata : Option Bson) where
  -- The stream that has been fed `s`; the rest of its buffer is `junk`.
  abbrev pub writer_of : Fed → List ℕ → Writer
  writer_of s junk = record {
    chunk_size = c;
    file_length = length (joined s.full) + length s.pending;
    offset = length (joined s.full) + length s.pending;
    current_chunk = length s.full;
    id = id;
    metadata = metadata;
    buffer = s.pending ++ junk;
    buffer_offset = length s.pending;
    summed = joined s.full;
  }

  -- The stream with the bytes `d` behind those of `s` in its buffer.
  abbrev pub holding : Fed → List ℕ → List ℕ → Writer
  holding s d junk = record {
    chunk_size = c;
    file_length = length (joined s.full) + length s.pending + length d;
    offset = length (joined s.full) + length s.pending + length d;
    current_chunk = length s.full;
    id = id;
    metadata = metadata;
    buffer = s.pending ++ (d ++ junk);
    buffer_offset = length s.pending + length d;
    summed = joined s.full;
  }

  pub put-writer_of :
      (s : Fed) (b junk d rest : List ℕ)
      → length b ≡ length d
      → length (joined s.full) + length s.pending + length d < half64
      → put (length d) (d ++ rest) (writer_of s (b ++ junk)) ≡ some (holding s d junk)
  unfolding put
  put-writer_of s b junk d rest e small =
      let total : (length (joined s.full) + length s.pending + length d) % 2 ^ 64
          ≡ length (joined s.full) + length s.pending + length d =
        omega arith in
      rw (take?_from d rest (length d) refl, put)
        (rw (blit_middle s.pending b junk d (length s.pending) refl e) (rw total refl))
