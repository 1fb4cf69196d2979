-- ===== src/Gridfs/RoundTrip.antt =====
-- src/sync-gridfs-stream.c: what is written through a stream and read through another one.
use libmongo_client.Base.{
  ℕ, ◌+◌, ◌<◌, ◌≡◌, ap, sym, ◌∙◌, subst, some, List, [], ◌∷◌, ◌++◌, append_assoc, replicate, arith,
  length, length-append, length-replicate, All-append,
}
use libmongo_client.Base.Bytes.{IsCString}
use libmongo_client.Base.Int.{ℤ, pos, half32, half64}
use libmongo_client.Base.Run.{gives}
use libmongo_client.Bson.Build.Appends.{document_of, closed}
use libmongo_client.Bson.Element.{Value, Element, IsElement, framed, encode_all}
use libmongo_client.Util.Oid.{OidState}
use libmongo_client.Bson.Cursor.Search.{IsDocument, encode_all-append}
use libmongo_client.Bson.Cursor.Find.{Lacks}
use libmongo_client.Gridfs.Server.{Server, GridFs}
use libmongo_client.Gridfs.Writer.{Writer, stream_write}
use libmongo_client.Gridfs.Writer.Feed.{nothing, feed}
use libmongo_client.Gridfs.Writer.Holding.{writer_of}
use libmongo_client.Gridfs.Writer.Close.{length_key, upload_date_key, md5_key, writer_close}
use libmongo_client.Gridfs.Writer.Closed.{file_fields, described}
use libmongo_client.Gridfs.Stream.{stream_new}
use libmongo_client.Gridfs.Stream.Opened.{stream_new-elements}
use libmongo_client.Gridfs.Find.{id_key, stream_find}
use libmongo_client.Gridfs.Find.Found.{oid_element, file_elements, stream_find-elements}
use libmongo_client.Gridfs.Reader.{Reader, stream_read}
use libmongo_client.Gridfs.Reader.Load.{ServedFile, Answers}
use libmongo_client.Gridfs.Reader.Fresh.{fresh_reader}
use libmongo_client.Gridfs.Stored.{Storage, IsPlain, HasField, read_back, written-closed}

-- The elements of the document of a file, and the user's metadata that are asked for: an id, no field
-- of the names that closing adds, and sizes that fit.
module _ (left right : List Element) (c : ℕ) (file : ServedFile) (md5 : List ℕ → List ℕ)
    (date : ℤ) where
  abbrev metadata : List Element
  metadata = left ++ (oid_element file.id ∷ right)

  abbrev pub IsMetadata : ℕ → List ℕ → Type 0
  IsMetadata total text =
      IsDocument (metadata ++ file_fields total c date text)
      × Lacks id_key left
      × Lacks length_key (oid_element file.id ∷ right)
      × IsCString text

  metadata-IsDocument :
      (fields : List Element) → IsDocument (metadata ++ fields) → IsDocument metadata
  metadata-IsDocument fields doc = (
    (All-append IsElement metadata fields doc.0).0,
    omega (
      arith,
      doc.1,
      ap length (encode_all-append metadata fields),
      length-append (encode_all metadata) (encode_all fields),
    ),
  )

  fields_at :
      (total : ℕ) (text : List ℕ)
      → metadata ++ file_fields total c date text
        ≡ file_elements left right []
            (record { key = upload_date_key; value = Value.utc_datetime date }
              ∷ record { key = md5_key; value = Value.string text }
              ∷ [])
            file.id
            total
            c
  fields_at total text = append_assoc left (oid_element file.id ∷ right) _

  kept_field :
      (sought : Element) (fields : List Element)
      → HasField sought metadata
      → HasField sought (metadata ++ fields)
  kept_field sought fields (front, back, e, lacks) = (
    front,
    back ++ fields,
    ap (λ es. es ++ fields) e ∙ append_assoc front (sought ∷ back) fields,
    lacks,
  )

  -- A stream is made with such metadata, given bytes in one call, and closed; then the file is looked
  -- for by a field of these metadata, a text or an id that no other file on the server has, and the
  -- stream that this gives is asked for as many bytes: all five calls succeed, and the bytes read are
  -- those written. The server has nothing of the file before; the bytes are one or more and fewer
  -- than 2^63, and do not fill their last chunk.
  pub stream_read-stream_write :
      {W : Type 0} (server : Server W) (gfs : GridFs) (sought : Element)
      (law : Storage server gfs file sought) (junk : ℕ) (ids : OidState) (time request_id : ℕ)
      (start : W) (x : ℕ) (xs rest : List ℕ)
      → gfs.chunk_size ≡ c
      → law.Holds [] start
      → IsPlain sought
      → HasField sought metadata
      → length file.id ≡ 12
      → 0 < c
      → c + 64 < half32
      → IsMetadata (length (x ∷ xs)) (md5 (x ∷ xs))
      → length (x ∷ xs) < half64
      → 0 < length (feed c nothing (x ∷ xs)).pending
      → (w w' : Writer) × (s s' s'' t : W) × (r r' : Reader) × (stream_new junk ids time request_id
            (some gfs)
            (some (document_of metadata))
            start
          ≡ gives w start)
        × (stream_write server gfs (some ((x ∷ xs) ++ rest)) (pos (length (x ∷ xs))) w start
            ≡ gives tt (w', s))
        × (writer_close server gfs md5 date w' s ≡ gives tt s')
        × (stream_find server (some gfs) (some (document_of (sought ∷ []))) s' ≡ gives r s'')
        × (stream_read server gfs (pos (length (x ∷ xs))) r s'' ≡ gives (x ∷ xs) (r', t))
  stream_read-stream_write server gfs sought law junk ids time request_id start x xs rest of_size
        holds plain field twelve some_size fits (doc, no_id, no_length, text) small some_left =
      let fields = file_fields (length (x ∷ xs)) c date (md5 (x ∷ xs)) in
      let base = metadata-IsDocument fields doc in
      let wrote =
        written-closed c file server gfs sought law (encode_all metadata) md5 date start
          (replicate c junk) x xs rest holds twelve (length-replicate c junk) some_size fits base.1
          small text some_left in
      let (w', s, st, ds, written, closing, there, chunks, same) = wrote in
      let (p, s'', asked, answer, still) =
        law.finds ds (metadata ++ fields) st there plain (kept_field sought fields field) in
      let whole = fields_at (length (x ∷ xs)) (md5 (x ∷ xs)) in
      let back =
        read_back c file server gfs sought law ds (length xs) s'' still twelve chunks
          (sym (ap length same)) small in
      (
        described c file.id (encode_all metadata) md5 date nothing (replicate c junk),
        w',
        s,
        _,
        s'',
        back.1,
        fresh_reader c (length (x ∷ xs)) file.id,
        back.0,
        stream_new-elements junk ids time request_id gfs left right file.id start base no_id twelve
            ∙ ap
                (λ n.
                  gives
                    (writer_of n file.id (some (document_of metadata)) nothing (replicate n junk))
                    start)
                of_size,
        written,
        closing
            ∙ ap (λ b. gives tt (server.insert gfs.files_ns (some (closed (framed b))) st).1)
                (sym (encode_all-append metadata fields)),
        stream_find-elements left right [] _ file.id (length (x ∷ xs)) c
            (subst IsDocument whole doc) no_id no_length
            (λ e. absurd (omega (arith, ap length e)), tt) (omega arith) some_size server gfs
            (document_of (sought ∷ [])) _ s'' p twelve small (omega (arith, fits)) asked
            (subst (λ b. Answers p (framed b)) (ap encode_all whole) answer),
        back.2 ∙ ap (λ o. gives o (back.0, back.1)) same,
      )
