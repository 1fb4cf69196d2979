-- ===== src/Gridfs/Reader/Reads.antt =====
-- `mongo_sync_gridfs_stream_read` of src/sync-gridfs-stream.c on a file whose chunks the server has
-- as binaries of the generic subtype.
use libmongo_client.Base.{
  ℕ, zero, suc, ◌+◌, ◌-◌, ◌%◌, ◌^◌, ◌<◌, ◌≤◌, ◌≡◌, refl, ap, sym, ◌∙◌, subst, some, true, false,
  List, [], ◌∷◌, ◌++◌, ◌⊎◌, inl, inr, arith, append_assoc, append-nil, length, length-append, All,
  All-append, get_elem?, ltb, Bool-cases,
}
use libmongo_client.Base.Int.{pos, half32, half64}
use libmongo_client.Base.Run.{Run, gives}
use libmongo_client.Bson.Build.Appends.{document_of}
use libmongo_client.Wire.Packet.{Packet}
use libmongo_client.Gridfs.Server.{Server, GridFs}
use libmongo_client.Gridfs.Document.Elements.{query_elements}
use libmongo_client.Gridfs.Writer.Feed.{joined, joined-append}
use libmongo_client.Gridfs.Reader.{
  Reader, seek_chunk, copy_out, has_more, read_round, read_loop, stream_read,
}
use libmongo_client.Gridfs.Reader.Load.{
  ServedFile, chunk_bytes, IsServed, Answers, IsChunk, seek_chunk-Answers,
}
use libmongo_client.Gridfs.Reader.Rounds.{
  length-joined, get_elem?-append, reader_at, copy_out-reader_at, has_more-reader_at, has_more-end,
  read_round_step, read_round_next, part_all, part_some, is_read-inside, is_read-end,
}

pub length-le-joined : (ds : List (List ℕ)) → All IsChunk ds → length ds ≤ length (joined ds)
unfolding joined
length-le-joined [] h = omega arith
length-le-joined (d ∷ ds) h =
    omega (arith, length-append d (joined ds), length-le-joined ds h.1, h.0.0)

pub cut_bytes :
    (n : ℕ) (xs : List ℕ) → n < length xs → (u v : List ℕ) × (xs ≡ u ++ v) × (length u ≡ n)
cut_bytes n [] h = absurd (omega arith)
cut_bytes zero (x ∷ xs) h = ([], x ∷ xs, refl, refl)
cut_bytes (suc n) (x ∷ xs) h =
    let r = cut_bytes n xs (omega arith) in (x ∷ r.0, r.1, ap (λ l. x ∷ l) r.2, ap suc r.3)

-- The server has the chunks `ds` of a file: asked for one by its number, it answers with a document
-- that has its bytes in the field `data`, as a binary of the generic subtype, and has the chunks still.
abbrev pub Serves :
    {W : Type 0} → Server W → GridFs → ServedFile → List (List ℕ) → (W → Type 0) → Type 0
Serves {W} server gfs file ds Holds =
    (n : ℕ) (d : List ℕ) (s : W)
    → Holds s
    → get_elem? ds n ≡ some d
    → (p : Packet) × (s' : W) × (server.query gfs.chunks_ns 0 1
          (some (document_of (query_elements file.id n))) s
        ≡ (inr p, s'))
      × Answers p (chunk_bytes file n d)
      × IsServed file n d
      × Holds s'

-- The place behind the chunks `front` and the bytes `a` of the next chunk; what is left of that
-- chunk is not empty, but in the last one.
abbrev pub IsPlace : List (List ℕ) → List (List ℕ) → List ℕ → List ℕ → List (List ℕ) → Type 0
IsPlace ds front a b after = (front ++ (a ++ b) ∷ after ≡ ds) × ((0 < length b) ⊎ (after ≡ []))

module _ (c : ℕ) (file : ServedFile) {W : Type 0} (server : Server W) (gfs : GridFs)
    (ds : List (List ℕ)) (Holds : W → Type 0) where
  abbrev pub at_place : List (List ℕ) → List ℕ → List ℕ → Reader
  at_place = reader_at c (length (joined ds)) file

  -- What a read of `left` bytes does: the bytes `out` are those behind the place, as many as were
  -- asked for or all that are left, and the stream stands behind them.
  abbrev pub Reading : ℕ → List (List ℕ) → List ℕ → Run (Reader × W) (List ℕ) → Type 0
  Reading left front a run =
      (out : List ℕ) × (front' : List (List ℕ)) × (a' b' : List ℕ) × (after' : List (List ℕ))
      × (s' : W) × (run ≡ gives out (at_place front' a' b', s'))
      × Holds s'
      × IsPlace ds front' a' b' after'
      × (joined front' ++ a' ≡ (joined front ++ a) ++ out)
      × ((length out ≡ left) ⊎ ((length out < left) × (b' ≡ []) × (after' ≡ [])))

  module _ (twelve : length file.id ≡ 12) (chunks : All IsChunk ds)
      (small : length (joined ds) < half64) (serves : Serves server gfs file ds Holds) where
    read_loop_step :
        (fuel l : ℕ) (r r' r'' : Reader) (s s' s'' : W) (bytes more : List ℕ)
        → has_more r ≡ true
        → read_round server gfs (suc l) r s ≡ gives bytes (r', s')
        → read_loop server gfs fuel (suc l - length bytes) r' s' ≡ gives more (r'', s'')
        → read_loop server gfs (suc fuel) (suc l) r s ≡ gives (bytes ++ more) (r'', s'')
    unfolding read_loop
    read_loop_step fuel l r r' r'' s s' s'' bytes more goes round later =
        rw (goes, read_loop) (rw (round, read_loop) (rw later refl))

    read_loop_done :
        (fuel left : ℕ) (r : Reader) (s : W)
        → has_more r ≡ false
        → read_loop server gfs fuel left r s ≡ gives [] (r, s)
    unfolding read_loop
    read_loop_done zero zero r s e = refl
    read_loop_done (suc fuel) zero r s e = refl
    read_loop_done zero (suc left) r s e = rw e refl
    read_loop_done (suc fuel) (suc left) r s e = rw (e, read_loop) refl

    read_loop_none :
        (fuel : ℕ) (r : Reader) (s : W) → read_loop server gfs fuel 0 r s ≡ gives [] (r, s)
    unfolding read_loop
    read_loop_none zero r s = refl
    read_loop_none (suc fuel) r s = refl

    -- A round and what comes after it.
    read_round-Reading :
        (fuel l : ℕ) (front front' : List (List ℕ)) (a b a' b' bytes : List ℕ) (s s' : W)
        → has_more (at_place front a b) ≡ true
        → read_round server gfs (suc l) (at_place front a b) s
          ≡ gives bytes (at_place front' a' b', s')
        → joined front' ++ a' ≡ (joined front ++ a) ++ bytes
        → length bytes ≤ suc l
        → Reading
            (suc l - length bytes)
            front'
            a'
            (read_loop server gfs fuel (suc l - length bytes) (at_place front' a' b') s')
        → Reading (suc l) front a (read_loop server gfs (suc fuel) (suc l) (at_place front a b) s)
    read_round-Reading fuel l front front' a b a' b' bytes s s' goes round place few
          (out, f, x, y, after, t, run, holds, there, so_far, much) =
        (
          bytes ++ out,
          f,
          x,
          y,
          after,
          t,
          read_loop_step fuel l _ _ _ s s' t bytes out goes round run,
          holds,
          there,
          so_far ∙ ap (λ z. z ++ out) place ∙ append_assoc (joined front ++ a) bytes out,
          elim much [
            | inl all ↦ inl (omega (arith, length-append bytes out))
            | inr (less, none_left, last) ↦
                inr (omega (arith, length-append bytes out), none_left, last)
          ],
        )

    -- Sizes at a place.
    place_total :
        (front : List (List ℕ)) (a b : List ℕ) (after : List (List ℕ))
        → front ++ (a ++ b) ∷ after ≡ ds
        → length (joined ds) ≡ length (joined front) + length a + length b + length (joined after)
    place_total front a b after e = omega (
      arith,
      ap (λ (x : List (List ℕ)). length (joined x)) e,
      length-joined front after (a ++ b),
      length-append a b,
    )

    place-IsChunk :
        (front : List (List ℕ)) (a b : List ℕ) (after : List (List ℕ))
        → front ++ (a ++ b) ∷ after ≡ ds
        → All IsChunk front × IsChunk (a ++ b) × All IsChunk after
    place-IsChunk front a b after e =
        let h = All-append IsChunk front ((a ++ b) ∷ after) (subst (All IsChunk) (sym e) chunks) in
        (h.0, h.1.0, h.1.1)

    -- The stream after the last byte of a chunk that another one follows.
    seek_next :
        (front : List (List ℕ)) (e d : List ℕ) (after : List (List ℕ)) (s : W)
        → front ++ e ∷ d ∷ after ≡ ds
        → Holds s
        → (s' : W) × (seek_chunk server gfs
              ((length front + 1) % 2 ^ 64)
              (record (at_place front e []) { current_chunk = (length front + 1) % 2 ^ 64 })
              s
            ≡ gives tt (at_place (front ++ e ∷ []) [] d, s'))
          × Holds s'
    seek_next front e d after s place holds =
        let q = serves (length (front ++ e ∷ [])) d s holds there in
        (
          q.1,
          rw count (
              seek_chunk-Answers file twelve (length (front ++ e ∷ [])) few d q.4 server gfs _ s q.1
                q.0 refl q.2 q.3
              ∙ ap (λ o. gives tt (record (at_place (front ++ e ∷ []) [] d) { offset = o }, q.1))
                  offs),
          q.5,
        )
      where
        regroup : (front ++ e ∷ []) ++ d ∷ after ≡ ds
        regroup = append_assoc front (e ∷ []) (d ∷ after) ∙ place

        there : get_elem? ds (length (front ++ e ∷ [])) ≡ some d
        there =
            ap (λ x. get_elem? x (length (front ++ e ∷ []))) (sym regroup)
            ∙ get_elem?-append (front ++ e ∷ []) after d

        few : length (front ++ e ∷ []) < half64
        few = omega (
          arith,
          length-le-joined ds chunks,
          ap (λ (x : List (List ℕ)). length x) regroup,
          length-append (front ++ e ∷ []) (d ∷ after),
        )

        count : (length front + 1) % 2 ^ 64 ≡ length (front ++ e ∷ [])
        count = omega (arith, length-append front (e ∷ []), few)

        offs : length (joined front) + length e ≡ length (joined (front ++ e ∷ [])) + 0
        offs = unfold joined in omega (arith, length-joined front [] e)

    abbrev Later : ℕ → ℕ → List (List ℕ) → List ℕ → List ℕ → W → Type 0
    Later fuel left front a b s =
        Reading left front a (read_loop server gfs fuel left (at_place front a b) s)

    -- The bytes `u` of a chunk that has more.
    Reading_inside :
        (fuel l : ℕ) (front : List (List ℕ)) (a u v : List ℕ) (after : List (List ℕ)) (s : W)
        → front ++ (a ++ (u ++ v)) ∷ after ≡ ds
        → 0 < length v
        → length u ≡ suc l
        → Later fuel (suc l - length u) front (a ++ u) v s
        → Later (suc fuel) (suc l) front a (u ++ v) s
    Reading_inside fuel l front a u v after s place some_left e later =
        read_round-Reading fuel l front front a (u ++ v) (a ++ u) v u s s
          (has_more-reader_at c (length (joined ds)) file front a (u ++ v)
            (omega (arith, place_total front a (u ++ v) after place, length-append u v)) small)
          (read_round_step c (length (joined ds)) file server gfs s front a (u ++ v) (suc l)
            (length u) u (at_place front (a ++ u) v) few
            (part_some c (length (joined ds)) file server gfs s front a (u ++ v) (suc l)
                (omega (arith, length-append u v))
              ∙ sym e)
            (copy_out-reader_at c (length (joined ds)) file front a u v
              (omega (
                arith,
                place_total front a (u ++ v) after place,
                length-append u v,
                length-append a u,
                small,
              ))
              (omega (arith, few, length-append a (u ++ v), length-append a u, length-append u v)))
            (rw
              (is_read-inside c (length (joined ds)) file front (a ++ u) v
                (omega (
                  arith,
                  few,
                  length-append a (u ++ v),
                  length-append a u,
                  length-append u v,
                  length-append (a ++ u) v,
                ))
                some_left)
              refl))
          (sym (append_assoc (joined front) a u)) (omega arith) later
      where
        few : length (a ++ (u ++ v)) < half32
        few = omega (arith, (place-IsChunk front a (u ++ v) after place).1.1)

    -- The cut of a chunk that has more than what is left to read.
    Reading_cut :
        (fuel l : ℕ) (front : List (List ℕ)) (a b : List ℕ) (after : List (List ℕ)) (s : W)
        → front ++ (a ++ b) ∷ after ≡ ds
        → suc l < length b
        → ((u v : List ℕ)
            → front ++ ((a ++ u) ++ v) ∷ after ≡ ds
            → length u ≡ suc l
            → 0 < length v
            → Later fuel (suc l - length u) front (a ++ u) v s)
        → Later (suc fuel) (suc l) front a b s
    Reading_cut fuel l front a b after s place inside later =
        let k = cut_bytes (suc l) b inside in
        let some_left : 0 < length k.1 = omega (arith, ap length k.2, length-append k.0 k.1, k.3) in
        let place' : front ++ (a ++ (k.0 ++ k.1)) ∷ after ≡ ds =
          subst (λ z. front ++ (a ++ z) ∷ after ≡ ds) k.2 place in
        subst (λ z. Later (suc fuel) (suc l) front a z s) (sym k.2)
          (Reading_inside fuel l front a k.0 k.1 after s place' some_left k.3 (
            later k.0 k.1 (ap (λ z. front ++ z ∷ after) (append_assoc a k.0 k.1) ∙ place') k.3
              some_left))

    -- The rest `b` of the last chunk.
    Reading_last :
        (fuel l : ℕ) (front : List (List ℕ)) (a b : List ℕ) (s : W)
        → front ++ (a ++ b) ∷ [] ≡ ds
        → 0 < length b
        → length b ≤ suc l
        → Later fuel (suc l - length b) front (a ++ b) [] s
        → Later (suc fuel) (suc l) front a b s
    Reading_last fuel l front a b s place some_left all later =
        read_round-Reading fuel l front front a b (a ++ b) [] b s s
          (has_more-reader_at c (length (joined ds)) file front a b
            (omega (arith, place_total front a b [] place)) small)
          (read_round_step c (length (joined ds)) file server gfs s front a b (suc l) (length b) b
            (at_place front (a ++ b) []) few
            (part_all c (length (joined ds)) file server gfs s front a b (suc l) all) copied
            (rw (is_read-end c (length (joined ds)) file front (a ++ b) few)
              (has_more-end c (length (joined ds)) file front (a ++ b) [] at_end small)))
          (sym (append_assoc (joined front) a b)) all later
      where
        few : length (a ++ b) < half32
        few = omega (arith, (place-IsChunk front a b [] place).1.1)

        at_end : length (joined front) + length (a ++ b) ≡ length (joined ds)
        at_end = unfold joined in omega (arith, place_total front a b [] place, length-append a b)

        copied : copy_out (length b) (at_place front a b) ≡ some (b, at_place front (a ++ b) [])
        copied =
            ap (λ z. copy_out (length b) (at_place front a z)) (sym (append-nil b))
            ∙ copy_out-reader_at c (length (joined ds)) file front a b []
                (omega (arith, at_end, small)) few

    -- The rest `b` of a chunk that another one follows.
    Reading_next :
        (fuel l : ℕ) (front : List (List ℕ)) (a b d : List ℕ) (after : List (List ℕ)) (s s' : W)
        → front ++ (a ++ b) ∷ d ∷ after ≡ ds
        → 0 < length b
        → length b ≤ suc l
        → seek_chunk server gfs
            ((length front + 1) % 2 ^ 64)
            (record (at_place front (a ++ b) []) { current_chunk = (length front + 1) % 2 ^ 64 })
            s
          ≡ gives tt (at_place (front ++ (a ++ b) ∷ []) [] d, s')
        → Later fuel (suc l - length b) (front ++ (a ++ b) ∷ []) [] d s'
        → Later (suc fuel) (suc l) front a b s
    Reading_next fuel l front a b d after s s' place some_left all loaded later =
        read_round-Reading fuel l front (front ++ (a ++ b) ∷ []) a b [] d b s s'
          (has_more-reader_at c (length (joined ds)) file front a b
            (omega (arith, place_total front a b (d ∷ after) place)) small)
          (read_round_next c (length (joined ds)) file server gfs s front a b (suc l) (length b) b
            (at_place front (a ++ b) []) (at_place (front ++ (a ++ b) ∷ []) [] d) s' few
            (part_all c (length (joined ds)) file server gfs s front a b (suc l) all) copied
            (rw (is_read-end c (length (joined ds)) file front (a ++ b) few)
              (has_more-reader_at c (length (joined ds)) file front (a ++ b) [] more small))
            loaded)
          moved all later
      where
        few : length (a ++ b) < half32
        few = omega (arith, (place-IsChunk front a b (d ∷ after) place).1.1)

        more : length (joined front) + length (a ++ b) < length (joined ds)
        more =
            unfold joined in
            omega (
              arith,
              place_total front a b (d ∷ after) place,
              length-append a b,
              length-append d (joined after),
              (place-IsChunk front a b (d ∷ after) place).2.0.0,
            )

        copied : copy_out (length b) (at_place front a b) ≡ some (b, at_place front (a ++ b) [])
        copied =
            ap (λ z. copy_out (length b) (at_place front a z)) (sym (append-nil b))
            ∙ copy_out-reader_at c (length (joined ds)) file front a b []
                (omega (arith, more, small)) few

        moved : joined (front ++ (a ++ b) ∷ []) ++ [] ≡ (joined front ++ a) ++ b
        moved =
            append-nil _
            ∙ joined-append front ((a ++ b) ∷ [])
            ∙ unfold joined in simp (append-nil, append_assoc)

    -- The loop from a place, by its rounds.
    pub read_loop-Reading :
        (fuel left : ℕ) (front : List (List ℕ)) (a b : List ℕ) (after : List (List ℕ)) (s : W)
        → IsPlace ds front a b after
        → Holds s
        → left ≤ fuel
        → Reading left front a (read_loop server gfs fuel left (at_place front a b) s)
    read_loop-Reading fuel zero front a b after s place holds enough = (
      [],
      front,
      a,
      b,
      after,
      s,
      read_loop_none fuel (at_place front a b) s,
      holds,
      place,
      sym (append-nil _),
      inl refl,
    )
    read_loop-Reading zero (suc l) front a b after s place holds enough = absurd (omega arith)
    read_loop-Reading (suc fuel) (suc l) front a [] after s (place, inl some_left) holds enough =
        absurd (omega arith)
    read_loop-Reading (suc fuel) (suc l) front a [] after s (place, inr last) holds enough = (
      [],
      front,
      a,
      [],
      after,
      s,
      read_loop_done (suc fuel) (suc l) (at_place front a []) s (
          has_more-end c (length (joined ds)) file front a []
            (unfold joined in
              omega (
                arith,
                place_total front a [] after place,
                ap (λ (z : List (List ℕ)). length (joined z)) last,
              ))
            small),
      holds,
      (place, inr last),
      sym (append-nil _),
      inr (omega arith, refl, last),
    )
    read_loop-Reading (suc fuel) (suc l) front a (x ∷ b) [] s (place, more) holds enough =
        elim (Bool-cases (ltb (suc l) (length (x ∷ b)))) [
          | inl inside ↦
              Reading_cut fuel l front a (x ∷ b) [] s place (ground arith) λ u v there e some_left.
                read_loop-Reading fuel (suc l - length u) front (a ++ u) v [] s (there, inr refl)
                  holds (omega (arith, e))
          | inr all ↦ Reading_last fuel l front a (x ∷ b) s place (omega arith) (ground arith) (
              read_loop-Reading fuel (suc l - length (x ∷ b)) front (a ++ x ∷ b) [] [] s
                (rw append-nil place, inr refl) holds (omega arith))
        ]
    read_loop-Reading (suc fuel) (suc l) front a (x ∷ b) (d ∷ after) s (place, more) holds enough =
        elim (Bool-cases (ltb (suc l) (length (x ∷ b)))) [
          | inl inside ↦
              Reading_cut fuel l front a (x ∷ b) (d ∷ after) s place (ground arith)
                λ u v there e some_left.
                  read_loop-Reading fuel (suc l - length u) front (a ++ u) v (d ∷ after) s
                    (there, inl some_left) holds (omega (arith, e))
          | inr all ↦
              let q = seek_next front (a ++ x ∷ b) d after s place holds in
              Reading_next fuel l front a (x ∷ b) d after s q.0 place (omega arith) (ground arith)
                q.1
                (read_loop-Reading fuel (suc l - length (x ∷ b)) (front ++ (a ++ x ∷ b) ∷ []) [] d
                  after q.0
                  (
                    append_assoc front ((a ++ x ∷ b) ∷ []) (d ∷ after) ∙ place,
                    inl (omega (arith, (place-IsChunk front a (x ∷ b) (d ∷ after) place).2.0.0)),
                  )
                  q.2 (omega arith))
        ]

    -- A stream that stands at a place of a file whose chunks the server has, each as a binary of the
    -- generic subtype in the first field `data` of a valid document: the call of `mongo_sync_gridfs_stream_read` for one byte or more returns the
    -- bytes behind that place, as many as were asked for or all that are left, and the stream stands
    -- behind them. The bytes of the file are fewer than 2^63, and no chunk is empty or too large for
    -- its document.
    pub stream_read-Reading :
        (l : ℕ) (front : List (List ℕ)) (a b : List ℕ) (after : List (List ℕ)) (s : W)
        → IsPlace ds front a b after
        → Holds s
        → Reading (suc l) front a (stream_read server gfs (pos (suc l)) (at_place front a b) s)
    unfolding stream_read
    stream_read-Reading l front a b after s place holds =
        read_loop-Reading (suc (suc l)) (suc l) front a b after s place holds (omega arith)
