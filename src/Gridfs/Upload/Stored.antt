-- ===== src/Gridfs/Upload/Stored.antt =====
-- What `mongo_sync_gridfs_chunked_file_new_from_buffer` of src/sync-gridfs-chunk.c leaves on the server.
use libmongo_client.Base.{
  ℕ, zero, suc, ◌+◌, ◌-◌, ◌%◌, ◌^◌, ◌<◌, ◌≤◌, ◌≡◌, refl, ap, ◌∙◌, Option, none, some, List, [], ◌∷◌,
  ◌++◌, append_assoc, append-nil, arith, length, length-append, drop_from, take?_from,
}
use libmongo_client.Base.Bytes.{IsCString}
use libmongo_client.Base.Int.{ℤ, pos, half32, half64}
use libmongo_client.Base.Result.{ok}
use libmongo_client.Base.Run.{gives}
use libmongo_client.Bson.Object.{Bson}
use libmongo_client.Bson.Build.Appends.{document_of}
use libmongo_client.Gridfs.Server.{Server, GridFs}
use libmongo_client.Gridfs.Document.Elements.{chunk_elements, chunk_doc-elements}
use libmongo_client.Gridfs.Writer.{part}
use libmongo_client.Gridfs.Writer.Feed.{joined}
use libmongo_client.Gridfs.Writer.Holding.{store}
use libmongo_client.Gridfs.Reader.Sought.{IsCut}
use libmongo_client.Gridfs.Upload.Metadata.{upload_metadata, uploaded_pointers}
use libmongo_client.Gridfs.Upload.Document.{
  uploaded, uploaded-fits, upload_metadata-document_of, uploaded_pointers-document_of,
}
use libmongo_client.Gridfs.Stream.{oid_new}
use libmongo_client.Gridfs.Find.{id_key}
use libmongo_client.Gridfs.Writer.Close.{md5_key}
use libmongo_client.Bson.Element.{Element}
use libmongo_client.Bson.Cursor.Search.{IsDocument}
use libmongo_client.Bson.Cursor.Find.{Lacks}
use libmongo_client.Util.Oid.{OidState}
use libmongo_client.Gridfs.Upload.{upload_round, upload_loop, upload_end, new_from_buffer}

module _ {W : Type 0} (server : Server W) (gfs : GridFs) (oid : List ℕ) (twelve : length oid ≡ 12)
    (up : (ns : List ℕ) (doc : Option Bson) (s : W) → (server.insert ns doc s).0 ≡ none) where
  abbrev sent : ℕ → List ℕ → W → W
  sent n d s = (server.insert gfs.chunks_ns (some (document_of (chunk_elements oid n d))) s).1

  upload_round_chunk :
      (n left : ℕ) (d rest : List ℕ) (s : W)
      → n < half64
      → 0 < length d
      → part gfs.chunk_size left ≡ length d
      → upload_round server gfs oid n (d ++ rest) left s ≡ gives d (sent n d s)
  unfolding upload_round
  upload_round_chunk n left d rest s few some_size csize = rw csize (
      rw (chunk_doc-elements oid n d rest twelve few some_size, upload_round)
        (rw (take?_from d rest (length d) refl)
          (rw (up gfs.chunks_ns (some (document_of (chunk_elements oid n d))) s) refl)))

  upload_loop_end :
      (fuel n : ℕ) (mem : List ℕ) (s : W) → upload_loop server gfs fuel oid n mem 0 s ≡ gives [] s
  unfolding upload_loop
  upload_loop_end zero n mem s = refl
  upload_loop_end (suc fuel) n mem s = refl

  upload_loop_step :
      (fuel n left : ℕ) (d rest more : List ℕ) (s t : W)
      → n + 1 < half64
      → 0 < length d
      → part gfs.chunk_size left ≡ length d
      → 0 < left
      → upload_loop server gfs fuel oid (suc n) rest (left - length d) (sent n d s) ≡ gives more t
      → upload_loop server gfs (suc fuel) oid n (d ++ rest) left s ≡ gives (d ++ more) t
  unfolding upload_loop
  upload_loop_step fuel n zero d rest more s t few some_size csize some_left later =
      absurd (omega arith)
  upload_loop_step fuel n (suc left) d rest more s t few some_size csize some_left later =
      rw (upload_round_chunk n (suc left) d rest s (omega arith) some_size csize, upload_loop)
        (rw csize (rw (drop_from d rest (length d) refl) (rw counted (rw later refl))))
    where
      counted : (n + 1) % 2 ^ 64 ≡ suc n
      counted = omega arith

  part_fits : (d : List ℕ) → length d ≤ gfs.chunk_size → part gfs.chunk_size (length d) ≡ length d
  unfolding part
  part_fits d h = ground arith

  part_chunk :
      (d : List ℕ) (left : ℕ)
      → length d ≡ gfs.chunk_size
      → length d ≤ left
      → part gfs.chunk_size left ≡ length d
  unfolding part
  part_chunk d left e h = ground arith

  upload_loop-joined :
      (fuel n : ℕ) (ds : List (List ℕ)) (rest : List ℕ) (s : W)
      → 0 < gfs.chunk_size
      → IsCut gfs.chunk_size ds
      → length ds ≤ fuel
      → n + length ds < half64
      → upload_loop server gfs fuel oid n (joined ds ++ rest) (length (joined ds)) s
        ≡ gives (joined ds) (store oid server gfs s n ds)
  unfolding joined store
  upload_loop-joined fuel n [] rest s some_size cut enough few = upload_loop_end fuel n rest s
  upload_loop-joined zero n (d ∷ ds) rest s some_size cut enough few = absurd (omega arith)
  upload_loop-joined (suc fuel) n (d ∷ []) rest s some_size cut enough few =
      ap (λ m. upload_loop server gfs (suc fuel) oid n m (length (d ++ [])) s)
        (append_assoc d [] rest)
      ∙ upload_loop_step fuel n (length (d ++ [])) d rest [] s _ (omega arith) cut.0
          (ap (part gfs.chunk_size) (ap length (append-nil d)) ∙ part_fits d cut.1)
          (omega (arith, length-append d [], cut.0))
          (ap (λ l. upload_loop server gfs fuel oid (suc n) rest l (sent n d s))
              (omega (arith, length-append d []))
            ∙ upload_loop_end fuel (suc n) rest (sent n d s))
  upload_loop-joined (suc fuel) n (d ∷ e ∷ ds) rest s some_size cut enough few =
      ap (λ m. upload_loop server gfs (suc fuel) oid n m (length (d ++ joined (e ∷ ds))) s)
        (append_assoc d (joined (e ∷ ds)) rest)
      ∙ upload_loop_step fuel n (length (d ++ joined (e ∷ ds))) d (joined (e ∷ ds) ++ rest)
          (joined (e ∷ ds)) s _ (omega arith) (omega (arith, cut.0))
          (part_chunk d (length (d ++ joined (e ∷ ds))) cut.0
            (omega (arith, length-append d (joined (e ∷ ds)))))
          (omega (arith, length-append d (joined (e ∷ ds)), cut.0))
          (ap
              (λ l.
                upload_loop server gfs fuel oid (suc n) (joined (e ∷ ds) ++ rest) l (sent n d s))
              (omega (arith, length-append d (joined (e ∷ ds))))
            ∙ upload_loop-joined fuel (suc n) (e ∷ ds) rest (sent n d s) some_size cut.1
                (omega arith) (omega arith))

length-le-cut : (c : ℕ) (ds : List (List ℕ)) → 0 < c → IsCut c ds → length ds ≤ length (joined ds)
unfolding joined
length-le-cut c [] some_size cut = omega arith
length-le-cut c (d ∷ []) some_size cut = omega (arith, length-append d [], cut.0)
length-le-cut c (d ∷ e ∷ ds) some_size cut =
    omega
      (arith, length-append d (joined (e ∷ ds)), length-le-cut c (e ∷ ds) some_size cut.1, cut.0)

module _ {W : Type 0} (server : Server W) (gfs : GridFs) (md5 : List ℕ → List ℕ) (date : ℤ)
    (ids : OidState) (time request_id : ℕ)
    (up : (ns : List ℕ) (doc : Option Bson) (s : W) → (server.insert ns doc s).0 ≡ none) where
  upload_end_gives :
      (metadata doc : Option Bson) (total : ℕ) (oid bytes sum id : List ℕ) (s : W)
      → upload_metadata metadata total gfs.chunk_size date (md5 bytes) oid ≡ ok doc
      → uploaded_pointers doc ≡ ok (id, sum)
      → upload_end server md5 date ids time request_id gfs metadata total oid bytes s
        ≡ gives
            (record {
              chunk_size = gfs.chunk_size;
              file_length = total;
              oid = id;
              md5 = sum;
              date = pos 0;
              metadata = doc;
            })
            (server.insert gfs.files_ns doc s).1
  unfolding upload_end
  upload_end_gives metadata doc total oid bytes sum id s stored pointers =
      rw (stored, upload_end) (rw (up gfs.files_ns doc s) (rw (pointers, upload_end) refl))

  -- A buffer is uploaded, with inserts that succeed and metadata without an id or a checksum: its
  -- chunks, all of the size but for the last one, are inserted in order and under their numbers, and
  -- then the document of the file: the metadata, the length, the size of the chunks, the date, the
  -- checksum of all bytes, and the id that was made. The call returns the file with that document,
  -- with its id and its checksum. The bytes are one or more and fewer than 2^63.
  pub new_from_buffer-stored :
      (es : List Element) (oid : List ℕ) (ds : List (List ℕ)) (rest : List ℕ) (l : ℕ) (s : W)
      → oid_new ids time request_id ≡ some oid
      → length oid ≡ 12
      → 0 < gfs.chunk_size
      → gfs.chunk_size < half32
      → IsCut gfs.chunk_size ds
      → suc l ≡ length (joined ds)
      → suc l < half64
      → IsCString (md5 (joined ds))
      → IsDocument (uploaded es (suc l) gfs.chunk_size date (md5 (joined ds)) oid)
      → Lacks id_key es
      → Lacks md5_key es
      → let doc = document_of (uploaded es (suc l) gfs.chunk_size date (md5 (joined ds)) oid) in
        (b b' : List ℕ) × (new_from_buffer server md5 date ids time request_id
            (some gfs)
            (some (document_of es))
            (some (joined ds ++ rest))
            (pos (suc l))
            s
          ≡ gives
              (record {
                chunk_size = gfs.chunk_size;
                file_length = suc l;
                oid = oid ++ b;
                md5 = md5 (joined ds) ++ 0 ∷ b';
                date = pos 0;
                metadata = some doc;
              })
              (server.insert gfs.files_ns (some doc) (store oid server gfs s 0 ds)).1)
  unfolding new_from_buffer
  new_from_buffer-stored es oid ds rest l s made twelve some_size size cut total small text doc
        no_id no_sum =
      let pointers =
        uploaded_pointers-document_of es (suc l) gfs.chunk_size date (md5 (joined ds)) oid doc no_id
          no_sum in
      let written =
        ap (λ n. upload_loop server gfs (suc (suc l)) oid 0 (joined ds ++ rest) n s) total
        ∙ upload_loop-joined server gfs oid twelve up (suc (suc l)) 0 ds rest s some_size cut
            (omega (arith, length-le-cut gfs.chunk_size ds some_size cut, total))
            (omega (arith, length-le-cut gfs.chunk_size ds some_size cut, total, small)) in
      (
        pointers.0,
        pointers.1,
        rw (made, new_from_buffer)
            (rw (written, new_from_buffer)
              (upload_end_gives (some (document_of es)) _ (suc l) oid (joined ds) _ _ _
                (upload_metadata-document_of es (suc l) gfs.chunk_size date (md5 (joined ds)) oid
                  (uploaded-fits es (suc l) gfs.chunk_size date (md5 (joined ds)) oid doc) small
                  size text twelve)
                pointers.2)),
      )
