-- ===== src/Gridfs/Writer/Closed.antt =====
-- What closing a stream of src/sync-gridfs-stream.c leaves on the server.
use libmongo_client.Base.{
  ℕ, ◌+◌, ◌-◌, ◌%◌, ◌^◌, ◌<◌, ◌≤◌, ◌≡◌, refl, ap, sym, ◌∙◌, Option, none, some, List, [], ◌∷◌, ◌++◌,
  append_assoc, append-nil, arith, length, length-append, take?, take?_from, ne→==,
}
use libmongo_client.Base.Bytes.{le, length-le, IsCString}
use libmongo_client.Base.Int.{ℤ, pos, signed, half32, half64}
use libmongo_client.Base.Result.{ok}
use libmongo_client.Base.Run.{gives}
use libmongo_client.Bson.Object.{Bson, new_from_data, contents, close, finish}
use libmongo_client.Bson.Element.{Value, Element, encode_all, framed}
use libmongo_client.Bson.Build.Appends.{
  open_with, closed, document_of, size-closed, close-open, length-framed,
}
use libmongo_client.Bson.Build.Single.{
  signed_small, signed_small64, append_int64-encode, append_int32-encode,
  append_utc_datetime-encode, append_string-encode,
}
use libmongo_client.Gridfs.Server.{Server, GridFs}
use libmongo_client.Gridfs.Document.Elements.{chunk_elements, chunk_doc-elements}
use libmongo_client.Gridfs.Writer.{Writer, chunk_write, stream_write}
use libmongo_client.Gridfs.Writer.Feed.{Fed, feed, joined}
use libmongo_client.Gridfs.Writer.Holding.{writer_of, store, store-append}
use libmongo_client.Gridfs.Writer.Refines.{stream_write-feed, chunk_write_sent}
use libmongo_client.Gridfs.Writer.Close.{
  length_key, chunk_size_key, upload_date_key, md5_key, reopen, append_file_fields, stream_metadata,
  close_metadata, writer_close,
}

-- The fields behind the user's.
abbrev pub file_fields : ℕ → ℕ → ℤ → List ℕ → List Element
file_fields total c date text =
    record { key = length_key; value = Value.int64 (pos total) }
    ∷ record { key = chunk_size_key; value = Value.int32 (pos c) }
    ∷ record { key = upload_date_key; value = Value.utc_datetime date }
    ∷ record { key = md5_key; value = Value.string text }
    ∷ []

-- A finished document is open again without its last byte.
pub reopen-closed :
    (body : List ℕ)
    → length body + 5 < half32
    → reopen (some (closed (framed body))) ≡ ok (some (open_with (le 4 (length body + 5) ++ body)))
unfolding reopen new_from_data contents
reopen-closed body small =
    rw (size-closed (framed body) (omega (arith, length-framed body)), reopen)
      (rw index (rw (ne→== (length body + 4) 0 (omega arith)) (rw taken refl)))
  where
    index : signed half32 ((length (framed body) + 2 ^ 32 - 1) % 2 ^ 32) ≡ pos (length body + 4)
    index = ap (signed half32) wrapped ∙ signed_small (length body + 4) (omega arith)
      where
        wrapped : (length (framed body) + 2 ^ 32 - 1) % 2 ^ 32 ≡ length body + 4
        wrapped = omega (arith, length-framed body)

    taken : take? (length body + 4) (framed body) ≡ some (le 4 (length body + 5) ++ body)
    taken =
        ap (take? (length body + 4)) (sym (append_assoc (le 4 (length body + 5)) body (0 ∷ [])))
        ∙ take?_from (le 4 (length body + 5) ++ body) (0 ∷ []) (length body + 4) (
            omega
              (arith, length-append (le 4 (length body + 5)) body, length-le 4 (length body + 5)))

pub append_file_fields-encode :
    (xs : List ℕ) (total c : ℕ) (date : ℤ) (text : List ℕ)
    → total < half64
    → c < half32
    → IsCString text
    → append_file_fields (some (open_with xs)) total c date (some text)
      ≡ ok (some (open_with (xs ++ encode_all (file_fields total c date text))))
unfolding append_file_fields encode_all
append_file_fields-encode xs total c date text ht hc h =
    rw (signed_small64 total ht, signed_small c hc)
      (rw (append_int64-encode xs length_key (pos total)) (
        rw (append_int32-encode _ chunk_size_key (pos c)) (
          rw (append_utc_datetime-encode _ upload_date_key date)
            (rw (append_string-encode _ md5_key text h) (simp (append_assoc, append-nil))))))

module _ (c : ℕ) (id : List ℕ) (body : List ℕ) (md5 : List ℕ → List ℕ) (date : ℤ) where
  -- The stream whose metadata are the elements with these bytes.
  abbrev pub described : Fed → List ℕ → Writer
  described = writer_of c id (some (closed (framed body)))

  -- The document of a file: what the user stored, and the fields of the file.
  abbrev pub file_doc : ℕ → List ℕ → Bson
  file_doc total contents =
      closed (framed (body ++ encode_all (file_fields total c date (md5 contents))))

  stream_metadata-described :
      (w : Writer)
      → w.metadata ≡ some (closed (framed body))
      → w.chunk_size ≡ c
      → length body + 5 < half32
      → 0 < w.file_length
      → w.file_length < half64
      → c < half32
      → IsCString (md5 w.summed)
      → stream_metadata md5 date w ≡ ok (some (file_doc w.file_length w.summed))
  unfolding stream_metadata finish
  stream_metadata-described w hm hs small some_length ht hc text =
      rw (hm, stream_metadata)
        (rw (reopen-closed body small) (
          rw (ne→== w.file_length 0 (omega arith), hs)
            (rw (append_file_fields-encode _ w.file_length c date (md5 w.summed) ht hc text) (
              ap (λ b. ok (some (close b))) (ap open_with regroup)
              ∙ ap (λ b. ok (some b)) (close-open (length body + 5) _)))))
    where
      regroup :
          (le 4 (length body + 5) ++ body)
            ++ encode_all (file_fields w.file_length c date (md5 w.summed))
          ≡ le 4 (length body + 5)
            ++ (body ++ encode_all (file_fields w.file_length c date (md5 w.summed)))
      regroup = append_assoc (le 4 (length body + 5)) body _

  module _ {W : Type 0} (server : Server W) (gfs : GridFs)
      (up : (ns : List ℕ) (doc : Option Bson) (s : W) → (server.insert ns doc s).0 ≡ none) where
    -- Closing a stream that has bytes left in its buffer, with inserts that succeed, inserts them as
    -- the last chunk and then the document of the file, which has the user's metadata, the length,
    -- the size of the chunks, the date and the checksum of all bytes.
    pub writer_close-described :
        (start : W) (s : Fed) (junk : List ℕ)
        → length id ≡ 12
        → 0 < length s.pending
        → length s.full < half64
        → length (joined s.full) + length s.pending < half64
        → c < half32
        → length body + 5 < half32
        → IsCString (md5 (joined s.full ++ s.pending))
        → writer_close server gfs md5 date (described s junk) (store id server gfs start 0 s.full)
          ≡ gives tt
              (server.insert gfs.files_ns
                (some (
                  file_doc
                    (length (joined s.full) + length s.pending)
                    (joined s.full ++ s.pending)))
                (store id server gfs start 0 (s.full ++ s.pending ∷ []))).1
    unfolding writer_close
    writer_close-described start s junk twelve some_left few small hc hb text =
        rw (ne→== (length s.pending) 0 (omega arith)) (
          rw (last_chunk, writer_close)
            (rw (take?_from s.pending junk (length s.pending) refl) (
              metadata_sent _ _ _
                (stream_metadata-described _ refl refl hb (omega arith) small hc text)
              ∙ ap
                  (λ r.
                    gives tt
                      (server.insert gfs.files_ns
                        (some (
                          file_doc (length (joined s.full) + length s.pending)
                            (joined s.full ++ s.pending)))
                        r).1)
                  stored)))
      where
        last_chunk :
            chunk_write server gfs
              (length s.pending)
              (described s junk)
              (store id server gfs start 0 s.full)
            ≡ gives tt (
              described s junk,
              (server.insert gfs.chunks_ns
                  (some (document_of (chunk_elements id (length s.full) s.pending)))
                  (store id server gfs start 0 s.full)).1,
            )
        last_chunk =
            chunk_write_sent c id (some (closed (framed body))) server gfs up (length s.pending)
              (described s junk) _ _
              (chunk_doc-elements id (length s.full) s.pending junk twelve few some_left)

        metadata_sent :
            (w : Writer) (st : W) (doc : Option Bson)
            → stream_metadata md5 date w ≡ ok doc
            → close_metadata server gfs md5 date w st
              ≡ gives tt (server.insert gfs.files_ns doc st).1
        metadata_sent w st doc e =
            unfold close_metadata in rw (e, close_metadata) (rw (up gfs.files_ns doc st) refl)

        stored :
            (server.insert gfs.chunks_ns
              (some (document_of (chunk_elements id (length s.full) s.pending)))
              (store id server gfs start 0 s.full)).1
            ≡ store id server gfs start 0 (s.full ++ s.pending ∷ [])
        stored =
            ap
              (λ k.
                (server.insert gfs.chunks_ns (some (document_of (chunk_elements id k s.pending)))
                  (store id server gfs start 0 s.full)).1)
              (omega arith)
            ∙ sym (store-append id server gfs start 0 s.full s.pending)

    -- Closing a stream whose bytes fill their chunks exactly returns TRUE and inserts nothing: the
    -- chunks that were written are on the server, and no document of the file is.
    pub writer_close-stream_write :
        (start : W) (s : Fed) (junk : List ℕ) (x : ℕ) (xs rest : List ℕ)
        → length id ≡ 12
        → (length s.pending + length junk ≡ c)
          × (length s.pending < c)
          × (length s.full ≤ length (joined s.full))
          × (length (joined s.full) + length s.pending + length (x ∷ xs) < half64)
        → (feed c s (x ∷ xs)).pending ≡ []
        → (w : Writer) × (stream_write server gfs
              (some ((x ∷ xs) ++ rest))
              (pos (length (x ∷ xs)))
              (described s junk)
              (store id server gfs start 0 s.full)
            ≡ gives tt (w, store id server gfs start 0 (feed c s (x ∷ xs)).full))
          × (writer_close server gfs md5 date w
                (store id server gfs start 0 (feed c s (x ∷ xs)).full)
              ≡ gives tt (store id server gfs start 0 (feed c s (x ∷ xs)).full))
    unfolding writer_close
    writer_close-stream_write start s junk x xs rest twelve h whole =
        let r =
          stream_write-feed c id (some (closed (framed body))) server gfs up start s junk x xs rest
            twelve h in
        (described (feed c s (x ∷ xs)) r.0, r.3, rw (ap length whole) refl)
