-- ===== src/Gridfs/Reader/Load.antt =====
-- `_stream_seek_chunk` of src/sync-gridfs-stream.c, where the server answers with a chunk.
use libmongo_client.Base.{
  ℕ, ◌+◌, ◌<◌, ◌≡◌, ◌≢◌, refl, ap, ◌∙◌, Option, none, some, Bool, List, [], ◌∷◌, ◌++◌, inr, arith,
  true, length, length-append,
}
use libmongo_client.Base.Int.{pos, half32, half64}
use libmongo_client.Base.Call.{Call, returns, errs, fault, ◌>>=◌}
use libmongo_client.Base.Result.{ok}
use libmongo_client.Base.Run.{gives}
use libmongo_client.Bson.Object.{Bson, finish}
use libmongo_client.Bson.Element.{Value, Element, encode_all, framed}
use libmongo_client.Bson.Build.Appends.{closed, document_of, length-framed}
use libmongo_client.Bson.Cursor.Find.{Lacks, find_first}
use libmongo_client.Bson.Cursor.Search.{IsDocument}
use libmongo_client.Bson.Cursor.Under.{behind}
use libmongo_client.Bson.Cursor.Values.{getters-value}
use libmongo_client.Wire.Packet.{Packet}
use libmongo_client.Wire.Reply.{ReplyHeader, reply_get_nth_document}
use libmongo_client.Wire.Documents.{reply_body, IsReply, IsReplyHeader, reply_get_nth_document-body}
use libmongo_client.Gridfs.Server.{Server, GridFs}
use libmongo_client.Gridfs.Document.{chunk_query, files_id_key, n_key, data_key, generic}
use libmongo_client.Gridfs.Document.Elements.{
  id_element, n_element, data_element, query_elements, chunk_query-elements,
  chunk_elements-IsDocument,
}
use libmongo_client.Gridfs.Reader.{
  Reader, first_document, chunk_binary, load_chunk, load_answer, seek_chunk,
}

-- A file on a server: its id, and for each number the elements in front of the field `data` of the
-- document of that chunk, and those behind it.
pub record ServedFile : Type 0 where
  pub id : List ℕ
  pub before : ℕ → List Element
  pub after : ℕ → List Element

-- The documents as `_stream_chunk_write` makes them.
abbrev pub as_written : List ℕ → ServedFile
as_written oid = record {
  id = oid;
  before = λ n. id_element oid ∷ n_element n ∷ [];
  after = λ n. [];
}

abbrev pub served_elements : ServedFile → ℕ → List ℕ → List Element
served_elements file n d = file.before n ++ data_element d ∷ file.after n

-- The bytes of the document of a chunk.
abbrev pub chunk_bytes : ServedFile → ℕ → List ℕ → List ℕ
chunk_bytes file n d = framed (encode_all (served_elements file n d))

-- What follows the bytes of a chunk in its document.
abbrev pub tail : ServedFile → ℕ → List ℕ → List ℕ
tail file n d = behind (file.before n) (file.after n) (data_element d)

-- The document of a chunk is one of valid elements, and `data` is its first field of that name.
abbrev pub IsServed : ServedFile → ℕ → List ℕ → Type 0
IsServed file n d = IsDocument (served_elements file n d) × Lacks data_key (file.before n)

-- A packet that answers with one document.
abbrev pub Answers : Packet → List ℕ → Type 0
Answers p doc =
    (h : ReplyHeader) × IsReply p (reply_body h (doc ∷ []))
    × IsReplyHeader h
    × (0 < h.returned)
    × (h.returned < half32)

-- A chunk of a file that can be stored: not empty, and its document fits.
abbrev pub IsChunk : List ℕ → Type 0
IsChunk d = (0 < length d) × (length d + 64 < half32)

-- The first part of what a call returns, seen through `>>=`.
finished_of :
    (m : Call (Option Bson)) (v : Option Bson × Bool)
    → (m >>= λ b. returns (finish b)) ≡ returns v
    → (elim m as (λ _. Call (Option Bson)) [
      | returns b ↦ returns (finish b).0
      | errs e ↦ returns none
      | fault ↦ fault
    ])
      ≡ returns v.0
finished_of (returns b) v e = ground arith
finished_of (errs x) v e = absurd (ground arith)
finished_of fault v e = absurd (ground arith)

-- The document that a packet answers with is finished on the way.
pub first_document-framed :
    (p : Packet) (body : List ℕ)
    → Answers p (framed body)
    → length body + 5 < half32
    → first_document (inr p) ≡ returns (some (closed (framed body)))
unfolding first_document
first_document-framed p body (h, reply, header, some_doc, few) fits =
    finished_of (reply_get_nth_document (some p) (pos 1)) (some (closed (framed body)), true)
      (reply_get_nth_document-body p h [] [] (framed body) reply header ((body, refl, fits), tt)
        (omega (arith, length-append (framed body) [], length-framed body, fits)) some_doc few)

not_id : files_id_key ≢ data_key
not_id = λ e. absurd (omega (arith, ap length e))

not_n : n_key ≢ data_key
not_n = λ e. absurd (omega (arith, ap length e))

pub as_written-IsServed :
    (oid : List ℕ) (n : ℕ) (d : List ℕ)
    → length oid ≡ 12
    → n < half64
    → IsChunk d
    → IsServed (as_written oid) n d
as_written-IsServed oid n d twelve small chunk =
    (chunk_elements-IsDocument oid n d twelve small chunk.0 chunk.1, (not_id, (not_n, tt)))

module _ (file : ServedFile) (twelve : length file.id ≡ 12) (n : ℕ) (small : n < half64)
    (d : List ℕ) (served : IsServed file n d) where
  first_document-Answers :
      (p : Packet)
      → Answers p (chunk_bytes file n d)
      → first_document (inr p) ≡ returns (some (document_of (served_elements file n d)))
  first_document-Answers p answer =
      first_document-framed p (encode_all (served_elements file n d)) answer served.0.1

  chunk_binary-document_of :
      chunk_binary (some (document_of (served_elements file n d)))
      ≡ ok (generic, d ++ tail file n d, length d)
  unfolding chunk_binary
  chunk_binary-document_of =
      rw
        (find_first (file.before n) (file.after n) (data_element d) served.0 served.1, chunk_binary)
        (getters-value (file.before n) (file.after n) data_key (Value.binary generic d) served.0)

  load_answer-Answers :
      {W : Type 0} (r : Reader) (s : W) (p : Packet)
      → Answers p (chunk_bytes file n d)
      → load_answer r (inr p, s)
        ≡ gives tt (
          record r {
            chunk_data = some (d ++ tail file n d);
            data_length = length d;
            chunk_offset = 0;
          },
          s,
        )
  unfolding load_answer load_chunk
  load_answer-Answers r s p answer =
      rw (first_document-Answers p answer, load_answer)
        (rw (chunk_binary-document_of, load_answer) refl)

  -- Where the server answers with the chunk, the stream stands at its start.
  pub seek_chunk-Answers :
      {W : Type 0} (server : Server W) (gfs : GridFs) (r : Reader) (s s' : W) (p : Packet)
      → r.id ≡ file.id
      → server.query gfs.chunks_ns 0 1 (some (document_of (query_elements file.id n))) s
        ≡ (inr p, s')
      → Answers p (chunk_bytes file n d)
      → seek_chunk server gfs n r s
        ≡ gives tt (
          record r {
            chunk_data = some (d ++ tail file n d);
            data_length = length d;
            chunk_offset = 0;
          },
          s',
        )
  unfolding seek_chunk
  seek_chunk-Answers server gfs r s s' p own asked answer =
      asks ∙ ap (load_answer r) asked ∙ load_answer-Answers r s' p answer
    where
      asks :
          seek_chunk server gfs n r s
          ≡ load_answer r
              (server.query gfs.chunks_ns 0 1 (some (document_of (query_elements file.id n))) s)
      asks =
          rw
            (
              ap (λ i. chunk_query i n) own ∙ chunk_query-elements file.id n twelve small,
              seek_chunk,
            )
            refl
