-- ===== src/Gridfs/Writer/Refines.antt =====
-- `mongo_sync_gridfs_stream_write` of src/sync-gridfs-stream.c, with inserts that succeed, against
-- the bytes fed one by one.
use libmongo_client.Base.{
  ℕ, zero, suc, ◌+◌, ◌-◌, ◌%◌, ◌^◌, ◌≤◌, ◌<◌, ◌≡◌, refl, ap, sym, ◌∙◌, subst, Bool-cases, inl, inr,
  Option, none, some, List, [], ◌∷◌, ◌++◌, append_assoc, append-nil, arith, length, length-append,
  eq→==, ne→==, drop, drop_from, take?, take?_from, lt→ltb, le→ltb, ltb,
}
use libmongo_client.Base.Int.{pos, half64}
use libmongo_client.Base.Result.{ok}
use libmongo_client.Base.Run.{gives}
use libmongo_client.Bson.Object.{Bson}
use libmongo_client.Bson.Build.Appends.{document_of}
use libmongo_client.Gridfs.Server.{Server, GridFs}
use libmongo_client.Gridfs.Document.{chunk_doc}
use libmongo_client.Gridfs.Document.Elements.{chunk_elements, chunk_doc-elements}
use libmongo_client.Gridfs.Writer.{
  Writer, part, chunk_write, flush, write_round, write_loop, stream_write,
}
use libmongo_client.Gridfs.Writer.Feed.{
  Fed, feed, joined, feed-append, joined-append, feed_partial, feed_full,
}
use libmongo_client.Gridfs.Writer.Holding.{
  cut, store, store-append, writer_of, holding, put-writer_of,
}

module _ (c : ℕ) (id : List ℕ) (metadata : Option Bson) where
  module _ {W : Type 0} (server : Server W) (gfs : GridFs)
      (up : (ns : List ℕ) (doc : Option Bson) (s : W) → (server.insert ns doc s).0 ≡ none) where
    pub chunk_write_sent :
        (n : ℕ) (w : Writer) (s : W) (doc : Option Bson)
        → chunk_doc w.id w.current_chunk w.buffer n ≡ ok doc
        → chunk_write server gfs n w s ≡ gives tt (w, (server.insert gfs.chunks_ns doc s).1)
    unfolding chunk_write
    chunk_write_sent n w s doc e = rw (e, chunk_write) (rw (up gfs.chunks_ns doc s) refl)

    -- A full buffer goes out as the next chunk.
    flush-holding :
        (start : W) (s : Fed) (d : List ℕ)
        → length id ≡ 12
        → length s.full + 1 < half64
        → 0 < c
        → length s.pending + length d ≡ c
        → flush server gfs (holding c id metadata s d []) (store id server gfs start 0 s.full)
          ≡ gives tt (
            writer_of c id metadata
                (record { full = s.full ++ (s.pending ++ d) ∷ []; pending = [] })
                (s.pending ++ d),
            store id server gfs start 0 (s.full ++ (s.pending ++ d) ∷ []),
          )
    unfolding flush
    flush-holding start s d twelve few some_size e =
        rw
          (
            chunk_write_sent c (holding c id metadata s d []) (store id server gfs start 0 s.full) _
                doc,
            flush,
          )
          (rw taken (
            rw count (
              rw total (
                rw sums (
                  rw (store-append id server gfs start 0 s.full (s.pending ++ d))
                    (rw (append-nil d) (rw from_zero refl)))))))
      where
        doc :
            chunk_doc id (length s.full) (s.pending ++ (d ++ [])) c
            ≡ ok (some (document_of (chunk_elements id (length s.full) (s.pending ++ d))))
        doc =
            ap (λ b. chunk_doc id (length s.full) b c) (sym (append_assoc s.pending d []))
            ∙ ap (chunk_doc id (length s.full) ((s.pending ++ d) ++ []))
                (omega (arith, length-append s.pending d))
            ∙ chunk_doc-elements id (length s.full) (s.pending ++ d) [] twelve (omega arith)
                (omega (arith, length-append s.pending d))

        taken : take? c (s.pending ++ (d ++ [])) ≡ some (s.pending ++ d)
        taken =
            ap (take? c) (sym (append_assoc s.pending d []))
            ∙ take?_from (s.pending ++ d) [] c (omega (arith, length-append s.pending d))

        from_zero : 0 + length s.full ≡ length s.full
        from_zero = omega arith

        count : length (s.full ++ (s.pending ++ d) ∷ []) ≡ (length s.full + 1) % 2 ^ 64
        count = omega (arith, length-append s.full ((s.pending ++ d) ∷ []))

        sums : joined (s.full ++ (s.pending ++ d) ∷ []) ≡ joined s.full ++ (s.pending ++ d)
        sums =
            unfold joined in
            (joined-append s.full ((s.pending ++ d) ∷ [])
              ∙ ap (λ r. joined s.full ++ r) (append-nil (s.pending ++ d)))

        total :
            length (joined (s.full ++ (s.pending ++ d) ∷ [])) + 0
            ≡ length (joined s.full) + length s.pending + length d
        total = omega (
          arith,
          ap length sums,
          length-append (joined s.full) (s.pending ++ d),
          length-append s.pending d,
        )

    -- A round that leaves room in the buffer.
    write_round_partial :
        (st : W) (s : Fed) (b junk xs rest : List ℕ)
        → length b ≡ length xs
        → length s.pending + length xs < c
        → length (joined s.full) + length s.pending + length xs < half64
        → write_round server gfs (xs ++ rest) (length xs) (writer_of c id metadata s (b ++ junk)) st
          ≡ gives
              (length xs)
              (writer_of c id metadata (record s { pending = s.pending ++ xs }) junk, st)
    unfolding write_round
    write_round_partial st s b junk xs rest e room small =
        rw (le→ltb c (length s.pending) (omega arith)) (
          rw csize (
            rw (put-writer_of c id metadata s b junk xs rest e small) (
              rw (ne→== (length s.pending + length xs) c (omega arith))
                (rw counted (rw total (rw (append_assoc s.pending xs junk) (rw csize refl)))))))
      where
        csize : part (c - length s.pending) (length xs) ≡ length xs
        csize = unfold part in rw (lt→ltb (length xs) (c - length s.pending) (omega arith)) refl

        counted : length (s.pending ++ xs) ≡ length s.pending + length xs
        counted = length-append s.pending xs

        total :
            length (joined s.full) + (length s.pending + length xs)
            ≡ length (joined s.full) + length s.pending + length xs
        total = omega arith

    -- A round that fills the buffer.
    write_round_full :
        (start : W) (s : Fed) (b d rest : List ℕ) (left : ℕ)
        → length id ≡ 12
        → length s.full + 1 < half64
        → 0 < c
        → length b ≡ length d
        → length s.pending + length d ≡ c
        → length d ≤ left
        → length (joined s.full) + length s.pending + length d < half64
        → write_round server gfs
            (d ++ rest)
            left
            (writer_of c id metadata s (b ++ []))
            (store id server gfs start 0 s.full)
          ≡ gives (length d) (
            writer_of c id metadata
                (record { full = s.full ++ (s.pending ++ d) ∷ []; pending = [] })
                (s.pending ++ d),
            store id server gfs start 0 (s.full ++ (s.pending ++ d) ∷ []),
          )
    unfolding write_round
    write_round_full start s b d rest left twelve few some_size e fills enough small =
        rw (le→ltb c (length s.pending) (omega arith)) (
          rw csize (
            rw (put-writer_of c id metadata s b [] d rest e small) (
              rw (eq→== (length s.pending + length d) c fills)
                (rw (flush-holding start s d twelve few some_size fills) (rw csize refl)))))
      where
        csize : part (c - length s.pending) left ≡ length d
        csize = unfold part in rw (le→ltb left (c - length s.pending) (omega arith)) (omega arith)

    writes_end :
        (fuel : ℕ) (mem : List ℕ) (w : Writer) (st : W)
        → write_loop server gfs fuel mem 0 w st ≡ gives tt (w, st)
    unfolding write_loop
    writes_end zero mem w st = refl
    writes_end (suc fuel) mem w st = refl

    -- A round of the loop, once it is known what the round does.
    write_loop_step :
        (fuel : ℕ) (mem : List ℕ) (left n : ℕ) (w w' : Writer) (st st' : W)
        → write_round server gfs mem (suc left) w st ≡ gives n (w', st')
        → write_loop server gfs (suc fuel) mem (suc left) w st
          ≡ write_loop server gfs fuel (drop n mem) (suc left - n) w' st'
    unfolding write_loop
    write_loop_step fuel mem left n w w' st st' e = rw (e, write_loop) refl

    -- What a loop over the bytes `xs` comes to, from the stream that has been fed `s`.
    abbrev Wrote : W → Fed → List ℕ → List ℕ → ℕ → List ℕ → Type 0
    Wrote start s junk rest fuel xs =
        (junk' : List ℕ) × (length (feed c s xs).pending + length junk' ≡ c)
        × (length (feed c s xs).pending < c)
        × (write_loop server gfs fuel (xs ++ rest) (length xs) (writer_of c id metadata s junk)
              (store id server gfs start 0 s.full)
            ≡ gives tt (
              writer_of c id metadata (feed c s xs) junk',
              store id server gfs start 0 (feed c s xs).full,
            ))

    -- All that the loop needs to know of where it starts.
    abbrev Starts : Fed → List ℕ → List ℕ → Type 0
    Starts s junk xs =
        (length s.pending + length junk ≡ c)
        × (length s.pending < c)
        × (length s.full ≤ length (joined s.full))
        × (length (joined s.full) + length s.pending + length xs < half64)

    write_round_partial-Wrote :
        (start : W) (s : Fed) (junk : List ℕ) (x : ℕ) (xs rest : List ℕ) (fuel : ℕ)
        → Starts s junk (x ∷ xs)
        → length s.pending + length (x ∷ xs) < c
        → Wrote start s junk rest (suc fuel) (x ∷ xs)
    write_round_partial-Wrote start s junk x xs rest fuel h room =
        let k = cut (length (x ∷ xs)) junk (omega arith) in
        let fed = feed_partial c s.full s.pending (x ∷ xs) room in
        (
          k.1,
          ap (λ f. length f.pending + length k.1) fed
              ∙ omega (
                arith,
                length-append s.pending (x ∷ xs),
                ap length k.2,
                length-append k.0 k.1,
                k.3,
              ),
          omega (arith, ap (λ (f : Fed). length f.pending) fed, length-append s.pending (x ∷ xs)),
          ap
                (λ j.
                  write_loop server gfs (suc fuel) ((x ∷ xs) ++ rest) (length (x ∷ xs))
                    (writer_of c id metadata s j) (store id server gfs start 0 s.full))
                k.2
              ∙ write_loop_step fuel ((x ∷ xs) ++ rest) (length xs) (length (x ∷ xs)) _ _ _ _ (
                  write_round_partial (store id server gfs start 0 s.full) s k.0 k.1 (x ∷ xs) rest
                    k.3 room h.3)
              ∙ ap
                  (λ n.
                    write_loop server gfs fuel (drop (length xs) (xs ++ rest)) n
                      (writer_of c id metadata (record s { pending = s.pending ++ x ∷ xs }) k.1)
                      (store id server gfs start 0 s.full))
                  (omega arith)
              ∙ writes_end fuel _ _ _
              ∙ ap
                  (λ f.
                    gives tt (writer_of c id metadata f k.1, store id server gfs start 0 f.full))
                  (sym fed),
        )

    write_round_full-Wrote :
        (start : W) (s : Fed) (junk : List ℕ) (x : ℕ) (d ys rest : List ℕ) (fuel : ℕ)
        → length id ≡ 12
        → Starts s junk ((x ∷ d) ++ ys)
        → length s.pending + length (x ∷ d) ≡ c
        → Wrote start
            (record { full = s.full ++ (s.pending ++ x ∷ d) ∷ []; pending = [] })
            (s.pending ++ x ∷ d)
            rest
            fuel
            ys
        → Wrote start s junk rest (suc fuel) ((x ∷ d) ++ ys)
    write_round_full-Wrote start s junk x d ys rest fuel twelve h fills wrote =
        let s' : Fed = record { full = s.full ++ (s.pending ++ x ∷ d) ∷ []; pending = [] } in
        let fed : feed c s ((x ∷ d) ++ ys) ≡ feed c s' ys =
          feed-append c s (x ∷ d) ys
          ∙ ap (λ f. feed c f ys) (feed_full c s.full s.pending x d fills) in
        (
          wrote.0,
          ap (λ f. length f.pending + length wrote.0) fed ∙ wrote.1,
          omega (arith, ap (λ (f : Fed). length f.pending) fed, wrote.2),
          ap
                (λ j.
                  write_loop server gfs (suc fuel) (((x ∷ d) ++ ys) ++ rest)
                    (length ((x ∷ d) ++ ys)) (writer_of c id metadata s j)
                    (store id server gfs start 0 s.full))
                (sym (append-nil junk))
              ∙ ap
                  (λ m.
                    write_loop server gfs (suc fuel) m (length ((x ∷ d) ++ ys))
                      (writer_of c id metadata s (junk ++ [])) (store id server gfs start 0 s.full))
                  (append_assoc (x ∷ d) ys rest)
              ∙ write_loop_step fuel ((x ∷ d) ++ (ys ++ rest)) (length (d ++ ys)) (length (x ∷ d)) _
                  _ _ _
                  (write_round_full start s junk (x ∷ d) (ys ++ rest) (length ((x ∷ d) ++ ys))
                    twelve (omega (arith, h.2, h.3, length-append (x ∷ d) ys)) (omega arith)
                    (omega arith) fills (omega (arith, length-append (x ∷ d) ys))
                    (omega (arith, h.3, length-append (x ∷ d) ys)))
              ∙ ap
                  (λ m.
                    write_loop server gfs fuel m (suc (length (d ++ ys)) - length (x ∷ d))
                      (writer_of c id metadata s' (s.pending ++ x ∷ d))
                      (store id server gfs start 0 s'.full))
                  (drop_from (x ∷ d) (ys ++ rest) (length (x ∷ d)) refl)
              ∙ ap
                  (λ n.
                    write_loop server gfs fuel (ys ++ rest) n
                      (writer_of c id metadata s' (s.pending ++ x ∷ d))
                      (store id server gfs start 0 s'.full))
                  (omega (arith, length-append d ys))
              ∙ wrote.3
              ∙ ap
                  (λ f.
                    gives tt
                      (writer_of c id metadata f wrote.0, store id server gfs start 0 f.full))
                  (sym fed),
        )

    length-joined_full :
        (s : Fed) (d : List ℕ)
        → length (joined (s.full ++ d ∷ [])) ≡ length (joined s.full) + length d
    unfolding joined
    length-joined_full s d = omega (
      arith,
      ap length (joined-append s.full (d ∷ [])),
      length-append (joined s.full) (d ++ []),
      length-append d [],
    )

    write_loop-feed :
        (fuel : ℕ) (start : W) (s : Fed) (junk xs rest : List ℕ)
        → length id ≡ 12
        → Starts s junk xs
        → length xs ≤ fuel
        → Wrote start s junk rest fuel xs
    unfolding feed
    write_loop-feed fuel start s junk [] rest twelve h enough = (
      junk,
      h.0,
      h.1,
      writes_end fuel rest (writer_of c id metadata s junk) (store id server gfs start 0 s.full),
    )
    write_loop-feed zero start s junk (x ∷ xs) rest twelve h enough = absurd (omega arith)
    write_loop-feed (suc fuel) start s junk (x ∷ xs) rest twelve h enough =
        elim (Bool-cases (ltb (length s.pending + length (x ∷ xs)) c)) [
          | inl room ↦ write_round_partial-Wrote start s junk x xs rest fuel h (ground arith)
          | inr no_room ↦
              let more : c ≤ length s.pending + length (x ∷ xs) = ground arith in
              let k = cut (c - length s.pending - 1) xs (omega arith) in
              let fills : length s.pending + length (x ∷ k.0) ≡ c = omega (arith, k.3, h.1) in
              let e : x ∷ xs ≡ (x ∷ k.0) ++ k.1 = ap (λ l. x ∷ l) k.2 in
              let s' : Fed = record {
                full = s.full ++ (s.pending ++ x ∷ k.0) ∷ [];
                pending = [];
              } in
              subst (Wrote start s junk rest (suc fuel)) (sym e) (
                write_round_full-Wrote start s junk x k.0 k.1 rest fuel twelve
                  (subst (Starts s junk) e h) fills
                  (write_loop-feed fuel start s' (s.pending ++ x ∷ k.0) k.1 rest twelve
                    (
                      omega (arith, length-append s.pending (x ∷ k.0)),
                      omega arith,
                      omega (
                        arith,
                        length-append s.full ((s.pending ++ x ∷ k.0) ∷ []),
                        length-joined_full s (s.pending ++ x ∷ k.0),
                        length-append s.pending (x ∷ k.0),
                        h.2,
                      ),
                      omega (
                        arith,
                        length-joined_full s (s.pending ++ x ∷ k.0),
                        length-append s.pending (x ∷ k.0),
                        h.3,
                        ap length k.2,
                        length-append k.0 k.1,
                      ),
                    )
                    (omega (arith, ap length k.2, length-append k.0 k.1))))
        ]

    -- `mongo_sync_gridfs_stream_write` of one byte or more, with inserts that succeed: the stream and
    -- the server are afterwards as if the bytes had been fed one by one, so each full chunk was
    -- inserted once, in order and under its number, the rest waits in the buffer, and the length,
    -- the offset and the checksum follow, for a length that stays below 2^63.
    pub stream_write-feed :
        (start : W) (s : Fed) (junk : List ℕ) (x : ℕ) (xs rest : List ℕ)
        → length id ≡ 12
        → Starts s junk (x ∷ xs)
        → (junk' : List ℕ) × (length (feed c s (x ∷ xs)).pending + length junk' ≡ c)
          × (length (feed c s (x ∷ xs)).pending < c)
          × (stream_write server gfs
                (some ((x ∷ xs) ++ rest))
                (pos (length (x ∷ xs)))
                (writer_of c id metadata s junk)
                (store id server gfs start 0 s.full)
              ≡ gives tt (
                writer_of c id metadata (feed c s (x ∷ xs)) junk',
                store id server gfs start 0 (feed c s (x ∷ xs)).full,
              ))
    unfolding stream_write
    stream_write-feed start s junk x xs rest twelve h =
        write_loop-feed (suc (suc (length xs))) start s junk (x ∷ xs) rest twelve h (omega arith)
