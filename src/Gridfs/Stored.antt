-- ===== src/Gridfs/Stored.antt =====
-- A file of src/sync-gridfs-stream.c on a server that keeps it: what a stream that writes leaves there,
-- and what one that reads gets back.
use libmongo_client.Base.{
  ℕ, suc, ◌+◌, ◌<◌, ◌≤◌, ◌≡◌, ◌≢◌, ◌⊎◌, refl, ap, sym, ◌∙◌, subst, Option, inr, none, some, List,
  [], ◌∷◌, ◌++◌, append_assoc, append-nil, arith, length, length-append, All,
}
use libmongo_client.Base.Bytes.{IsCString}
use libmongo_client.Base.Int.{ℤ, pos, half32, half64}
use libmongo_client.Base.Run.{gives}
use libmongo_client.Bson.Object.{Bson}
use libmongo_client.Bson.Build.Appends.{document_of, closed}
use libmongo_client.Bson.Element.{Element, tag, framed, encode_all}
use libmongo_client.Bson.Types.{type_string, type_oid}
use libmongo_client.Wire.Packet.{Packet}
use libmongo_client.Gridfs.Server.{Server, GridFs}
use libmongo_client.Gridfs.Document.Elements.{chunk_elements}
use libmongo_client.Gridfs.Writer.{Writer, stream_write}
use libmongo_client.Gridfs.Writer.Feed.{nothing, feed, joined}
use libmongo_client.Gridfs.Writer.Chunks.{All-snoc, joined-snoc, feed-IsFed, joined-feed}
use libmongo_client.Gridfs.Writer.Holding.{store}
use libmongo_client.Gridfs.Writer.Refines.{stream_write-feed}
use libmongo_client.Gridfs.Writer.Close.{writer_close}
use libmongo_client.Gridfs.Writer.Closed.{described, file_doc, writer_close-described}
use libmongo_client.Gridfs.Reader.{Reader, stream_read}
use libmongo_client.Gridfs.Reader.Load.{ServedFile, IsChunk, Answers}
use libmongo_client.Gridfs.Reader.Reads.{Serves}
use libmongo_client.Gridfs.Reader.Fresh.{fresh_reader, stream_read_all}

-- A field that a query can ask for as it is: no operator and no path in its name, and a text or an id
-- as its value.
abbrev pub IsPlain : Element → Type 0
IsPlain e =
    All (λ b. (b ≢ b'$') × (b ≢ b'.')) e.key
    × ((tag e.value ≡ type_string) ⊎ (tag e.value ≡ type_oid))

-- A document with this field, where no field in front has its name.
abbrev pub HasField : Element → List Element → Type 0
HasField e es =
    (front back : List Element) × (es ≡ front ++ e ∷ back) × All (λ x. x.key ≢ e.key) front

-- What is asked of the server. Inserts succeed. `Holds ds` is a state in which it has the chunks `ds`
-- of the file, and no file with the field `sought`. The insert of the document of the next chunk
-- adds it, and the query for a chunk by its number is answered with what is there. Once a file that
-- has the field `sought` was inserted, it is the only one that has it, and the query for that field
-- is answered with its document; on other queries for files nothing is asked.
pub record Storage {W : Type 0} (server : Server W) (gfs : GridFs) (file : ServedFile)
    (sought : Element) : Type 1 where
  pub Holds : List (List ℕ) → W → Type 0
  pub inserts : (ns : List ℕ) (doc : Option Bson) (s : W) → (server.insert ns doc s).0 ≡ none
  pub adds :
      (ds : List (List ℕ)) (d : List ℕ) (s : W)
      → Holds ds s
      → IsChunk d
      → length ds + 1 < half64
      → Holds
          (ds ++ d ∷ [])
          (server.insert gfs.chunks_ns
            (some (document_of (chunk_elements file.id (length ds) d)))
            s).1
  pub serves : (ds : List (List ℕ)) → Serves server gfs file ds (Holds ds)
  pub finds :
      (ds : List (List ℕ)) (es : List Element) (s : W)
      → Holds ds s
      → IsPlain sought
      → HasField sought es
      → (p : Packet) × (s' : W) × (server.query gfs.files_ns 0 1
            (some (document_of (sought ∷ [])))
            (server.insert gfs.files_ns (some (document_of es)) s).1
          ≡ (inr p, s'))
        × Answers p (framed (encode_all es))
        × Holds ds s'

length-le-full :
    (c : ℕ) (ds : List (List ℕ))
    → 0 < c
    → All (λ d. length d ≡ c) ds
    → length ds ≤ length (joined ds)
unfolding joined
length-le-full c [] some_size h = omega arith
length-le-full c (d ∷ ds) some_size h =
    omega (arith, length-append d (joined ds), length-le-full c ds some_size h.1, h.0)

chunks_of_size :
    (c : ℕ) (ds : List (List ℕ))
    → 0 < c
    → c + 64 < half32
    → All (λ d. length d ≡ c) ds
    → All IsChunk ds
chunks_of_size c [] some_size fits h = tt
chunks_of_size c (d ∷ ds) some_size fits h =
    ((omega (arith, h.0), omega (arith, h.0)), chunks_of_size c ds some_size fits h.1)

module _ (c : ℕ) (file : ServedFile) {W : Type 0} (server : Server W) (gfs : GridFs)
    (sought : Element) (law : Storage server gfs file sought) where
  stored-Holds :
      (start : W) (front ds : List (List ℕ))
      → law.Holds front start
      → All IsChunk ds
      → length front + length ds < half64
      → law.Holds (front ++ ds) (store file.id server gfs start (length front) ds)
  unfolding store
  stored-Holds start front [] holds chunks few = rw (append-nil front) holds
  stored-Holds start front (d ∷ ds) holds chunks few =
      let more =
        stored-Holds
          (server.insert gfs.chunks_ns
            (some (document_of (chunk_elements file.id (length front) d))) start).1
          (front ++ d ∷ []) ds (law.adds front d start holds chunks.0 (omega arith)) chunks.1
          (omega (arith, length-append front (d ∷ []))) in
      let next : length (front ++ d ∷ []) ≡ suc (length front) =
        omega (arith, length-append front (d ∷ [])) in
      subst
        (λ n. law.Holds (front ++ d ∷ ds) (
          store file.id server gfs
            (server.insert gfs.chunks_ns
              (some (document_of (chunk_elements file.id (length front) d))) start).1
            n ds))
        next
        (subst
          (λ x. law.Holds x (
            store file.id server gfs
              (server.insert gfs.chunks_ns
                (some (document_of (chunk_elements file.id (length front) d))) start).1
              (length (front ++ d ∷ [])) ds))
          (append_assoc front (d ∷ []) ds) more)

  pub read_back :
      (ds : List (List ℕ)) (l : ℕ) (s : W)
      → law.Holds ds s
      → length file.id ≡ 12
      → All IsChunk ds
      → suc l ≡ length (joined ds)
      → suc l < half64
      → (r : Reader) × (s' : W) × (stream_read server gfs
            (pos (suc l))
            (fresh_reader c (suc l) file.id)
            s
          ≡ gives (joined ds) (r, s'))
  unfolding joined
  read_back [] l s holds twelve chunks e small = absurd (omega (arith, e))
  read_back (d ∷ ds) l s holds twelve chunks e small =
      let q =
        stream_read_all c file server gfs d ds (law.Holds (d ∷ ds)) twelve chunks
          (omega (arith, e, small)) (law.serves (d ∷ ds)) l s holds e in
      (
        q.0,
        q.1,
        ap (λ n. stream_read server gfs (pos (suc l)) (fresh_reader c n file.id) s) e ∙ q.2,
      )

  module _ (body : List ℕ) (md5 : List ℕ → List ℕ) (date : ℤ) where
    -- What is on the server after a file was written in one call and closed: its chunks, which have
    -- the bytes, and behind them its document.
    pub written-closed :
        (start : W) (junk : List ℕ) (x : ℕ) (xs rest : List ℕ)
        → law.Holds [] start
        → length file.id ≡ 12
        → length junk ≡ c
        → 0 < c
        → c + 64 < half32
        → length body + 5 < half32
        → length (x ∷ xs) < half64
        → IsCString (md5 (x ∷ xs))
        → 0 < length (feed c nothing (x ∷ xs)).pending
        → (w : Writer) × (s st : W) × (ds : List (List ℕ)) × (stream_write server gfs
              (some ((x ∷ xs) ++ rest))
              (pos (length (x ∷ xs)))
              (described c file.id body md5 date nothing junk)
              start
            ≡ gives tt (w, s))
          × (writer_close server gfs md5 date w s
              ≡ gives tt
                  (server.insert gfs.files_ns
                    (some (file_doc c file.id body md5 date (length (x ∷ xs)) (x ∷ xs)))
                    st).1)
          × law.Holds ds st
          × All IsChunk ds
          × (joined ds ≡ x ∷ xs)
    unfolding joined store
    written-closed start junk x xs rest holds twelve size some_size fits hb small text some_left =
        let fed = feed c nothing (x ∷ xs) in
        let bytes : joined fed.full ++ fed.pending ≡ x ∷ xs =
          joined-feed c nothing (x ∷ xs) ∙ unfold joined in refl in
        let whole = feed-IsFed c nothing (x ∷ xs) (tt, some_size) in
        let ds = fed.full ++ fed.pending ∷ [] in
        let total : length (joined fed.full) + length fed.pending ≡ suc (length xs) =
          omega (arith, ap length bytes, length-append (joined fed.full) fed.pending) in
        let chunks : All IsChunk ds =
          All-snoc IsChunk fed.full fed.pending (chunks_of_size c fed.full some_size fits whole.0)
            (some_left, omega (arith, whole.1, fits)) in
        let number : length fed.full ≤ length (joined fed.full) =
          length-le-full c fed.full some_size whole.0 in
        let wrote =
          stream_write-feed c file.id (some (closed (framed body))) server gfs law.inserts start
            nothing junk x xs rest twelve
            (omega arith, some_size, omega arith, omega (arith, small)) in
        let closing =
          writer_close-described c file.id body md5 date server gfs law.inserts start fed wrote.0
            twelve some_left (omega (arith, number, total, small)) (omega (arith, total, small))
            (omega (arith, fits)) hb (subst (λ b. IsCString (md5 b)) (sym bytes) text) in
        (
          described c file.id body md5 date fed wrote.0,
          store file.id server gfs start 0 fed.full,
          store file.id server gfs start 0 ds,
          ds,
          wrote.3,
          closing
              ∙ ap
                  (λ n.
                    gives tt
                      (server.insert gfs.files_ns
                        (some (file_doc c file.id body md5 date n (joined fed.full ++ fed.pending)))
                        (store file.id server gfs start 0 ds)).1)
                  total
              ∙ ap
                  (λ b.
                    gives tt
                      (server.insert gfs.files_ns
                        (some (file_doc c file.id body md5 date (suc (length xs)) b))
                        (store file.id server gfs start 0 ds)).1)
                  bytes,
          stored-Holds start [] ds holds chunks (
              omega (
                arith,
                length-append fed.full (fed.pending ∷ []),
                number,
                total,
                small,
                some_left,
              )),
          chunks,
          joined-snoc fed.full fed.pending ∙ bytes,
        )
