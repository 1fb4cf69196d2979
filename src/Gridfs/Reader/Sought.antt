-- ===== src/Gridfs/Reader/Sought.antt =====
-- Where `mongo_sync_gridfs_stream_seek` of src/sync-gridfs-stream.c leaves a stream.
use native.Mathlib.Nat.{div-eq_of_lt, div-eq-sub-div, mod-eq_of_lt, mod-eq-sub-mod}
use libmongo_client.Base.{
  ℕ, ◌+◌, ◌-◌, ◌/◌, ◌%◌, ◌<◌, ◌≤◌, ◌≡◌, refl, ap, sym, ◌∙◌, subst, Bool-cases, inl, inr, List, [],
  ◌∷◌, ◌++◌, arith, length, length-append, All, All-append, get_elem?, ltb, lt→leb, ne→==,
}
use libmongo_client.Base.Int.{ℤ, half32, half64}
use libmongo_client.Base.Run.{gives}
use libmongo_client.Gridfs.Server.{Server, GridFs}
use libmongo_client.Gridfs.Writer.Feed.{joined}
use libmongo_client.Gridfs.Reader.{Reader, seek_chunk}
use libmongo_client.Gridfs.Reader.Load.{ServedFile, IsChunk, seek_chunk-Answers}
use libmongo_client.Gridfs.Reader.Reads.{Serves, IsPlace, at_place, length-le-joined, cut_bytes}
use libmongo_client.Gridfs.Reader.Rounds.{length-joined, get_elem?-append}
use libmongo_client.Gridfs.Reader.Asked.{Asks, target-Asks}
use libmongo_client.Gridfs.Reader.Seek.{goes_to, target, quotient, remainder, seek_to, stream_seek}

-- A file in chunks of the size `c`: only the last one may be shorter.
abbrev pub IsCut : ℕ → List (List ℕ) → Type 0
IsCut c [] = Unit {0}
IsCut c (d ∷ []) = (0 < length d) × (length d ≤ c)
IsCut c (d ∷ e ∷ ds) = (length d ≡ c) × IsCut c (e ∷ ds)

-- A place at the offset `p`, in the chunk and at the byte that division gives.
abbrev pub Found : ℕ → List (List ℕ) → ℕ → Type 0
Found c ds p =
    (front : List (List ℕ)) × (a b : List ℕ) × (after : List (List ℕ)) × (front ++ (a ++ b) ∷ after
      ≡ ds)
    × (0 < length b)
    × (length front ≡ p / c)
    × (length a ≡ p % c)
    × (length (joined front) + length a ≡ p)

here-Found :
    (c p : ℕ) (d : List ℕ) (ds : List (List ℕ)) → p < length d → length d ≤ c → Found c (d ∷ ds) p
unfolding joined
here-Found c p d ds inside fits =
    let k = cut_bytes p d inside in
    (
      [],
      k.0,
      k.1,
      ds,
      ap (λ x. x ∷ ds) (sym k.2),
      omega (arith, ap length k.2, length-append k.0 k.1, k.3),
      sym (div-eq_of_lt (omega arith)),
      k.3 ∙ sym (mod-eq_of_lt (omega arith)),
      omega (arith, k.3),
    )

later-Found :
    (c p : ℕ) (d : List ℕ) (ds : List (List ℕ))
    → 0 < c
    → c ≤ p
    → length d ≡ c
    → Found c ds (p - c)
    → Found c (d ∷ ds) p
unfolding joined
later-Found c p d ds some_size behind size (front, a, b, after, place, left, chunk, byte, offset) =
    (
      d ∷ front,
      a,
      b,
      after,
      ap (λ x. d ∷ x) place,
      left,
      omega (arith, chunk, div-eq-sub-div some_size behind),
      byte ∙ sym (mod-eq-sub-mod behind),
      omega (arith, length-append d (joined front)),
    )

find_place :
    (c p : ℕ) (ds : List (List ℕ)) → 0 < c → IsCut c ds → p < length (joined ds) → Found c ds p
unfolding joined
find_place c p [] some_size h inside = absurd (omega arith)
find_place c p (d ∷ []) some_size h inside =
    here-Found c p d [] (omega (arith, length-append d [])) h.1
find_place c p (d ∷ e ∷ ds) some_size h inside = elim (Bool-cases (ltb p c)) [
  | inl first ↦ here-Found c p d (e ∷ ds) (ground (arith, h.0)) (omega (arith, h.0))
  | inr later ↦ later-Found c p d (e ∷ ds) some_size (ground arith) h.0 (
      find_place c (p - c) (e ∷ ds) some_size h.1
        (ground (arith, length-append d (e ++ joined ds), h.0)))
]

module _ (c : ℕ) (file : ServedFile) {W : Type 0} (server : Server W) (gfs : GridFs)
    (ds : List (List ℕ)) (Holds : W → Type 0) (twelve : length file.id ≡ 12)
    (chunks : All IsChunk ds) (cut : IsCut c ds) (some_size : 0 < c) (size : c < half32)
    (small : length (joined ds) < half64) (serves : Serves server gfs file ds Holds) where
  -- A loaded stream of this file, or one that has not read yet.
  abbrev pub IsOf : Reader → Type 0
  IsOf r =
      (r.chunk_size ≡ c)
      × (r.file_length ≡ length (joined ds))
      × (r.id ≡ file.id)
      × (r.start_offset ≡ 0)
      × (r.offset ≤ length (joined ds))

  quotient_size : (p : ℕ) → quotient p c ≡ p / c
  unfolding quotient
  quotient_size p = rw (lt→leb half32 c size) refl

  remainder_size : (p : ℕ) → remainder p c ≡ p % c
  unfolding remainder
  remainder_size p = rw (lt→leb half32 c size) refl

  seek_to_gives :
      (p : ℕ) (r r' : Reader) (s s' : W)
      → r.chunk_size ≡ c
      → seek_chunk server gfs (p / c) r s ≡ gives tt (r', s')
      → seek_to server gfs p r s
        ≡ gives tt (record r' { chunk_offset = p % c; current_chunk = p / c; offset = p }, s')
  unfolding seek_to
  seek_to_gives p r r' s s' e found = rw (ne→== r.chunk_size 0 (omega (arith, e))) (
      rw (ap (quotient p) e ∙ quotient_size p)
        (rw (ap (remainder p) e ∙ remainder_size p) (rw found refl)))

  stream_seek_goes :
      (z : ℤ) (w p : ℕ) (r : Reader) (s : W)
      → target z w r ≡ goes_to p
      → stream_seek server gfs z w r s ≡ seek_to server gfs p r s
  unfolding stream_seek
  stream_seek_goes z w p r s e = rw (e, stream_seek) refl

  -- A seek to a position before the end, other than the one at hand, from the start, the offset or
  -- the end of a file whose chunks the server has, as binaries of the generic subtype, all of the
  -- size but for the last one, leaves the stream at that position: at the byte of the chunk that a
  -- read goes on with.
  pub stream_seek-Asks :
      (z : ℤ) (w p : ℕ) (r : Reader) (s : W)
      → IsOf r
      → Holds s
      → Asks z w r.offset (length (joined ds)) p
      → p < length (joined ds)
      → (front : List (List ℕ)) × (a b : List ℕ) × (after : List (List ℕ)) × (s' : W) × (stream_seek
            server gfs z w r s
          ≡ gives tt (at_place c file server gfs ds Holds front a b, s'))
        × IsPlace ds front a b after
        × Holds s'
        × (length (joined front) + length a ≡ p)
  stream_seek-Asks z w p r s (of_size, of_length, of_id, of_start, of_offset) holds asks inside =
      let (front, a, b, after, place, left, chunk, byte, offset) =
        find_place c p ds some_size cut inside in
      let q = serves (length front) (a ++ b) s holds (
        ap (λ x. get_elem? x (length front)) (sym place) ∙ get_elem?-append front after (a ++ b)) in
      let here : All IsChunk front × All IsChunk ((a ++ b) ∷ after) =
        All-append IsChunk front ((a ++ b) ∷ after) (subst (All IsChunk) (sym place) chunks) in
      let few : length front < half64 = omega (
        arith,
        length-le-joined front here.0,
        length-joined front after (a ++ b),
        ap (λ (x : List (List ℕ)). length (joined x)) place,
        small,
      ) in
      (
        front,
        a,
        b,
        after,
        q.1,
        stream_seek_goes z w p r s (
              target-Asks z w p r (subst (λ t. Asks z w r.offset t p) (sym of_length) asks)
                (omega (arith, of_length, inside)) (omega (arith, of_length, of_offset))
                (omega (arith, of_length, small)))
            ∙ seek_to_gives p r _ s q.1 of_size (
                ap (λ n. seek_chunk server gfs n r s) (sym chunk)
                ∙ seek_chunk-Answers file twelve (length front) few (a ++ b) q.4 server gfs r s q.1
                    q.0 of_id q.2 q.3)
            ∙ rw of_size (
                rw of_length (
                  rw of_id (
                    rw of_start (
                      rw⁻¹ chunk (
                        rw⁻¹ byte (
                          ap
                            (λ o. gives tt (
                              record (at_place c file server gfs ds Holds front a b) { offset = o },
                              q.1,
                            ))
                            (sym offset))))))),
        (place, inl left),
        q.5,
        offset,
      )
