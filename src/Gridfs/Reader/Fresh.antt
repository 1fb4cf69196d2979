-- ===== src/Gridfs/Reader/Fresh.antt =====
-- The first read of a stream of src/sync-gridfs-stream.c, which asks for the first chunk.
use libmongo_client.Base.{
  ℕ, suc, ◌<◌, ◌≡◌, refl, ap, sym, ◌∙◌, subst, none, List, [], ◌∷◌, ◌++◌, append_assoc, append-nil,
  arith, length, length-append, All, inl, inr, ◌⊎◌,
}
use libmongo_client.Base.Int.{pos, half64}
use libmongo_client.Base.Run.{gives}
use libmongo_client.Gridfs.Server.{Server, GridFs}
use libmongo_client.Gridfs.Writer.Feed.{joined, joined-append}
use libmongo_client.Gridfs.Reader.{Reader, seek_chunk, read_loop, stream_read}
use libmongo_client.Gridfs.Reader.Load.{ServedFile, IsChunk, seek_chunk-Answers}
use libmongo_client.Gridfs.Reader.Reads.{Serves, IsPlace, at_place, Reading, read_loop-Reading}

-- A stream of which nothing has been read.
abbrev pub fresh_reader : ℕ → ℕ → List ℕ → Reader
fresh_reader c total id = record {
  chunk_size = c;
  file_length = total;
  offset = 0;
  current_chunk = 0;
  id = id;
  chunk_data = none;
  start_offset = 0;
  data_length = 0;
  chunk_offset = 0;
}

nil_of_length : (xs : List ℕ) → length xs ≡ 0 → xs ≡ []
nil_of_length [] h = refl
nil_of_length (x ∷ xs) h = absurd (omega arith)

module _ (c : ℕ) (file : ServedFile) {W : Type 0} (server : Server W) (gfs : GridFs) (d : List ℕ)
    (ds : List (List ℕ)) (Holds : W → Type 0) (twelve : length file.id ≡ 12)
    (chunks : All IsChunk (d ∷ ds)) (small : length (joined (d ∷ ds)) < half64)
    (serves : Serves server gfs file (d ∷ ds) Holds) where
  seek_first :
      (s : W)
      → Holds s
      → (s' : W) × (seek_chunk server gfs 0 (fresh_reader c (length (joined (d ∷ ds))) file.id) s
          ≡ gives tt (at_place c file server gfs (d ∷ ds) Holds [] [] d, s'))
        × Holds s'
  unfolding joined
  seek_first s holds =
      let q = serves 0 d s holds refl in
      (
        q.1,
        seek_chunk-Answers file twelve 0 (omega arith) d q.4 server gfs _ s q.1 q.0 refl q.2 q.3,
        q.5,
      )

  stream_read_load :
      (l : ℕ) (r : Reader) (s s' : W)
      → seek_chunk server gfs 0 (fresh_reader c (length (joined (d ∷ ds))) file.id) s
        ≡ gives tt (r, s')
      → stream_read server gfs (pos (suc l)) (fresh_reader c (length (joined (d ∷ ds))) file.id) s
        ≡ read_loop server gfs (suc (suc l)) (suc l) r s'
  unfolding stream_read
  stream_read_load l r s s' e = rw (e, stream_read) refl

  -- The first read of a stream reads from the start of the file.
  pub stream_read-fresh :
      (l : ℕ) (s : W)
      → Holds s
      → Reading c file server gfs (d ∷ ds) Holds (suc l) [] [] (
          stream_read server gfs
            (pos (suc l))
            (fresh_reader c (length (joined (d ∷ ds))) file.id)
            s)
  stream_read-fresh l s holds =
      let q = seek_first s holds in
      subst (Reading c file server gfs (d ∷ ds) Holds (suc l) [] [])
        (sym (stream_read_load l _ s q.0 q.1))
        (read_loop-Reading c file server gfs (d ∷ ds) Holds twelve chunks small serves (suc (suc l))
          (suc l) [] [] d ds q.0 (refl, inl (omega (arith, chunks.0.0))) q.2 (omega arith))

  -- A read of as many bytes as the file has returns them all.
  pub stream_read_all :
      (l : ℕ) (s : W)
      → Holds s
      → suc l ≡ length (joined (d ∷ ds))
      → (r : Reader) × (s' : W) × (stream_read server gfs
            (pos (suc l))
            (fresh_reader c (length (joined (d ∷ ds))) file.id)
            s
          ≡ gives (joined (d ∷ ds)) (r, s'))
        × Holds s'
  stream_read_all l s holds e =
      let (out, front, a, b, after, s', run, still, place, bytes, much) =
        stream_read-fresh l s holds in
      (
        at_place c file server gfs (d ∷ ds) Holds front a b,
        s',
        run
            ∙ ap (λ o. gives o (at_place c file server gfs (d ∷ ds) Holds front a b, s'))
                (all out front a b after place bytes much),
        still,
      )
    where
      split :
          (front : List (List ℕ)) (a b : List ℕ) (after : List (List ℕ))
          → IsPlace (d ∷ ds) front a b after
          → joined (d ∷ ds) ≡ (joined front ++ a) ++ (b ++ joined after)
      split front a b after (place, more) =
          ap joined (sym place)
          ∙ joined-append front ((a ++ b) ∷ after)
          ∙ unfold joined in simp append_assoc

      none_left :
          (out : List ℕ) (front : List (List ℕ)) (a b : List ℕ) (after : List (List ℕ))
          → IsPlace (d ∷ ds) front a b after
          → joined front ++ a ≡ out
          → (length out ≡ suc l) ⊎ ((length out < suc l) × (b ≡ []) × (after ≡ []))
          → b ++ joined after ≡ []
      none_left out front a b after place bytes (inl whole) = nil_of_length (b ++ joined after) (
          omega (
            arith,
            e,
            whole,
            ap length (split front a b after place),
            length-append (joined front ++ a) (b ++ joined after),
            ap length bytes,
          ))
      none_left out front a b after place bytes (inr (less, nb, na)) =
          rw nb (rw na (unfold joined in refl))

      all :
          (out : List ℕ) (front : List (List ℕ)) (a b : List ℕ) (after : List (List ℕ))
          → IsPlace (d ∷ ds) front a b after
          → joined front ++ a ≡ (joined [] ++ []) ++ out
          → (length out ≡ suc l) ⊎ ((length out < suc l) × (b ≡ []) × (after ≡ []))
          → out ≡ joined (d ∷ ds)
      all out front a b after place bytes much = sym (
          split front a b after place
          ∙ ap (λ x. (joined front ++ a) ++ x)
              (none_left out front a b after place (bytes ∙ unfold joined in refl) much)
          ∙ append-nil _
          ∙ bytes
          ∙ unfold joined in refl)
