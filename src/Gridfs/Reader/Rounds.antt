-- ===== src/Gridfs/Reader/Rounds.antt =====
-- A round of the loop of `mongo_sync_gridfs_stream_read` of src/sync-gridfs-stream.c, from a place in a
-- chunk.
use libmongo_client.Base.{
  ℕ, ◌+◌, ◌-◌, ◌%◌, ◌^◌, ◌<◌, ◌≤◌, ◌≡◌, refl, ap, ◌∙◌, some, true, false, not, ◌&&◌, List, [], ◌∷◌,
  ◌++◌, arith, append_assoc, length, length-append, get_elem?, drop, drop-append, take?,
  take?-append, lt→ltb, le→ltb, lt→leb,
}
use libmongo_client.Base.Int.{half32, half64}
use libmongo_client.Base.Run.{gives}
use libmongo_client.Gridfs.Server.{Server, GridFs}
use libmongo_client.Gridfs.Writer.{part}
use libmongo_client.Gridfs.Writer.Feed.{joined, joined-append}
use libmongo_client.Gridfs.Reader.{Reader, seek_chunk, copy_out, has_more, is_read, read_round}
use libmongo_client.Gridfs.Reader.Load.{ServedFile, tail}

pub get_elem?-append :
    (xs ys : List (List ℕ)) (d : List ℕ) → get_elem? (xs ++ d ∷ ys) (length xs) ≡ some d
get_elem?-append [] ys d = refl
get_elem?-append (x ∷ xs) ys d = get_elem?-append xs ys d

pub length-joined :
    (xs ys : List (List ℕ)) (d : List ℕ)
    → length (joined (xs ++ d ∷ ys)) ≡ length (joined xs) + length d + length (joined ys)
unfolding joined
length-joined xs ys d = omega (
  arith,
  ap length (joined-append xs (d ∷ ys)),
  length-append (joined xs) (d ++ joined ys),
  length-append d (joined ys),
)

module _ (c total : ℕ) (file : ServedFile) where
  -- The stream behind the chunks `front` and the bytes `a` of the next one, of which `b` is left.
  abbrev pub reader_at : List (List ℕ) → List ℕ → List ℕ → Reader
  reader_at front a b = record {
    chunk_size = c;
    file_length = total;
    offset = length (joined front) + length a;
    current_chunk = length front;
    id = file.id;
    chunk_data = some ((a ++ b) ++ tail file (length front) (a ++ b));
    start_offset = 0;
    data_length = length (a ++ b);
    chunk_offset = length a;
  }

  pub copy_out-reader_at :
      (front : List (List ℕ)) (a u v : List ℕ)
      → length (joined front) + length (a ++ u) < half64
      → length (a ++ u) < half32
      → copy_out (length u) (reader_at front a (u ++ v)) ≡ some (u, reader_at front (a ++ u) v)
  unfolding copy_out
  copy_out-reader_at front a u v small few =
      rw (taken, copy_out) (rw count (rw place (rw (append_assoc a u v) refl)))
    where
      rest : List ℕ
      rest = tail file (length front) (a ++ (u ++ v))

      taken : take? (length u) (drop (0 + length a) ((a ++ (u ++ v)) ++ rest)) ≡ some u
      taken =
          ap (λ n. take? (length u) (drop n ((a ++ (u ++ v)) ++ rest))) (omega arith)
          ∙ ap (λ m. take? (length u) (drop (length a) m)) (append_assoc a (u ++ v) rest)
          ∙ ap (take? (length u)) (drop-append a ((u ++ v) ++ rest) ∙ append_assoc u v rest)
          ∙ take?-append u (v ++ rest)

      count : (length a + length u) % 2 ^ 32 ≡ length (a ++ u)
      count = omega (arith, length-append a u)

      place :
          (length (joined front) + length a + length u) % 2 ^ 64
          ≡ length (joined front) + length (a ++ u)
      place = omega (arith, length-append a u)

  pub has_more-reader_at :
      (front : List (List ℕ)) (a b : List ℕ)
      → length (joined front) + length a < total
      → total < half64
      → has_more (reader_at front a b) ≡ true
  has_more-reader_at front a b more small = lt→ltb _ _ (omega arith)

  pub has_more-end :
      (front : List (List ℕ)) (a b : List ℕ)
      → length (joined front) + length a ≡ total
      → total < half64
      → has_more (reader_at front a b) ≡ false
  has_more-end front a b more small = le→ltb _ _ (omega arith)

  module _ {W : Type 0} (server : Server W) (gfs : GridFs) (s : W) (front : List (List ℕ))
      (a b : List ℕ) where
    room : (length (a ++ b) < half32) → (length (a ++ b) + 2 ^ 32 - length a) % 2 ^ 32 ≡ length b
    room few = omega (arith, length-append a b)

    -- A round, once its room and what it copies are known.
    pub read_round_step :
        (left csize : ℕ) (u : List ℕ) (r' : Reader)
        → length (a ++ b) < half32
        → part (length b) left ≡ csize
        → copy_out csize (reader_at front a b) ≡ some (u, r')
        → (is_read r' && has_more r') ≡ false
        → read_round server gfs left (reader_at front a b) s ≡ gives u (r', s)
    unfolding read_round
    read_round_step left csize u r' few copied got stays = rw (room few) (
        rw (lt→leb half32 (length b) (omega (arith, length-append a b)))
          (rw copied (rw (got, read_round) (rw stays refl))))

    -- A round that goes on to the next chunk.
    pub read_round_next :
        (left csize : ℕ) (u : List ℕ) (r' r'' : Reader) (s' : W)
        → length (a ++ b) < half32
        → part (length b) left ≡ csize
        → copy_out csize (reader_at front a b) ≡ some (u, r')
        → (is_read r' && has_more r') ≡ true
        → seek_chunk server gfs
            ((r'.current_chunk + 1) % 2 ^ 64)
            (record r' { current_chunk = (r'.current_chunk + 1) % 2 ^ 64 })
            s
          ≡ gives tt (r'', s')
        → read_round server gfs left (reader_at front a b) s ≡ gives u (r'', s')
    unfolding read_round
    read_round_next left csize u r' r'' s' few copied got goes loaded = rw (room few) (
        rw (lt→leb half32 (length b) (omega (arith, length-append a b)))
          (rw copied (rw (got, read_round) (rw goes (rw loaded refl)))))

    pub part_all : (left : ℕ) → length b ≤ left → part (length b) left ≡ length b
    unfolding part
    part_all left h = rw (le→ltb left (length b) h) refl

    pub part_some : (left : ℕ) → left < length b → part (length b) left ≡ left
    unfolding part
    part_some left h = rw (lt→ltb left (length b) h) refl

  pub is_read-inside :
      (front : List (List ℕ)) (a b : List ℕ)
      → length (a ++ b) < half32
      → 0 < length b
      → is_read (reader_at front a b) ≡ false
  is_read-inside front a b few some_left = ap not (lt→ltb _ _ (omega (arith, length-append a b)))

  pub is_read-end :
      (front : List (List ℕ)) (a : List ℕ)
      → length a < half32
      → is_read (reader_at front a []) ≡ true
  is_read-end front a few = ap not (le→ltb _ _ (omega (arith, length-append a [])))
