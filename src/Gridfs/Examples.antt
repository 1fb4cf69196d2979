-- ===== src/Gridfs/Examples.antt =====
-- The theorems on src/sync-gridfs-stream.c at small files.
pub mod Log
mod OldBinary
use libmongo_client.Base.{
  ℕ, zero, suc, Bool, true, false, ◌&&◌, ltb, ◌+◌, ◌<◌, ◌≡◌, ◌≢◌, refl, ap, subst, Option, none,
  some, List, [], ◌∷◌, ◌++◌, ◌⊎◌, inl, inr, arith, length, get_elem?, replicate, All,
}
use mathlib.Core.Option.{some-injective}
use libmongo_client.Base.Bytes.{le, IsCString}
use libmongo_client.Base.Int.{pos, negsuc}
use libmongo_client.Base.Errno.{erange}
use libmongo_client.Base.Run.{Run, gives, stops}
use libmongo_client.Bson.Object.{Bson, contents}
use libmongo_client.Bson.Build.Appends.{document_of, closed}
use libmongo_client.Gridfs.Stream.{oid_new, stream_new}
use libmongo_client.Gridfs.Find.{id_key, stream_find}
use libmongo_client.Gridfs.Find.Found.{oid_element}
use libmongo_client.Bson.Element.{IsElement, framed, encode_all, encode, tag, payload}
use libmongo_client.Bson.Cursor.Search.{IsDocument}
use libmongo_client.Util.Oid.{OidState, oid_new_with_time-layout}
use libmongo_client.Gridfs.Upload.{new_from_buffer}
use libmongo_client.Gridfs.Upload.Document.{uploaded}
use libmongo_client.Gridfs.Upload.Stored.{new_from_buffer-stored}
use libmongo_client.Wire.Packet.{Packet, op_reply}
use libmongo_client.Wire.Reply.{ReplyHeader}
use libmongo_client.Wire.Documents.{reply_body, IsReply}
use libmongo_client.Gridfs.Server.{Server, GridFs}
use libmongo_client.Gridfs.Document.Elements.{query_elements}
use libmongo_client.Gridfs.Writer.{Writer, stream_write}
use libmongo_client.Gridfs.Writer.Close.{
  length_key, chunk_size_key, upload_date_key, md5_key, writer_close,
}
use libmongo_client.Gridfs.Writer.Feed.{Fed, nothing, feed, push, joined}
use libmongo_client.Gridfs.Writer.Holding.{store, writer_of}
use libmongo_client.Gridfs.Writer.Refines.{stream_write-feed}
use libmongo_client.Gridfs.Writer.Closed.{
  file_fields, described, file_doc, writer_close-described, writer_close-stream_write,
}
use libmongo_client.Gridfs.Reader.{Reader, stream_read}
use libmongo_client.Gridfs.Reader.Fresh.{fresh_reader}
use libmongo_client.Gridfs.Reader.Seek.{stream_seek}
use libmongo_client.Gridfs.Reader.Asked.{stream_seek_erange}
use libmongo_client.Gridfs.Reader.Sought.{stream_seek-Asks}
use libmongo_client.Gridfs.RoundTrip.{stream_read-stream_write}
use libmongo_client.Gridfs.Stored.{IsPlain, HasField}
use Log.{ChunkLog, named, id, gfs, log_server, documents, log_storage}
use libmongo_client.Gridfs.Reader.Load.{chunk_bytes, as_written, IsChunk}
use libmongo_client.Gridfs.Reader.Reads.{Serves, IsPlace, at_place, Reading, stream_read-Reading}

abbrev digest : List ℕ → List ℕ
digest xs = 65 ∷ 66 ∷ []

stream_write-feed_example :
    (junk' : List ℕ) × (length (feed 2 nothing (1 ∷ 2 ∷ 3 ∷ [])).pending + length junk' ≡ 2)
    × (length (feed 2 nothing (1 ∷ 2 ∷ 3 ∷ [])).pending < 2)
    × (stream_write log_server gfs
          (some (1 ∷ 2 ∷ 3 ∷ 9 ∷ []))
          (pos 3)
          (writer_of 2 id none nothing (0 ∷ 0 ∷ []))
          (store id log_server gfs ([], []) 0 [])
        ≡ gives tt (
          writer_of 2 id none (feed 2 nothing (1 ∷ 2 ∷ 3 ∷ [])) junk',
          store id log_server gfs ([], []) 0 (feed 2 nothing (1 ∷ 2 ∷ 3 ∷ [])).full,
        ))
unfolding joined
stream_write-feed_example =
    stream_write-feed 2 id none log_server gfs (λ ns doc s. refl) ([], []) nothing (0 ∷ 0 ∷ []) 1
      (2 ∷ 3 ∷ []) (9 ∷ []) refl (refl, omega arith, omega arith, omega arith)

abbrev half_full : Fed
half_full = record { full = (1 ∷ 2 ∷ []) ∷ []; pending = 3 ∷ [] }

writer_close-described_example :
    writer_close log_server gfs digest
      (pos 1000)
      (described 2 id [] digest (pos 1000) half_full (0 ∷ []))
      (store id log_server gfs ([], []) 0 half_full.full)
    ≡ gives tt
        (log_server.insert gfs.files_ns
          (some (
            file_doc 2 id [] digest
              (pos 1000)
              (length (joined half_full.full) + length half_full.pending)
              (joined half_full.full ++ half_full.pending)))
          (store id log_server gfs ([], []) 0 (half_full.full ++ half_full.pending ∷ []))).1
unfolding joined
writer_close-described_example =
    writer_close-described 2 id [] digest (pos 1000) log_server gfs (λ ns doc s. refl) ([], [])
      half_full (0 ∷ []) refl (omega arith) (omega arith) (omega arith) (omega arith) (omega arith)
      ((λ e. absurd (omega (arith, e))), ((λ e. absurd (omega (arith, e))), tt))

writer_close-stream_write_example :
    (w : Writer) × (stream_write log_server gfs
        (some (4 ∷ []))
        (pos 1)
        (described 2 id [] digest (pos 1000) half_full (0 ∷ []))
        (store id log_server gfs ([], []) 0 half_full.full)
      ≡ gives tt (w, store id log_server gfs ([], []) 0 (feed 2 half_full (4 ∷ [])).full))
    × (writer_close log_server gfs digest
          (pos 1000)
          w
          (store id log_server gfs ([], []) 0 (feed 2 half_full (4 ∷ [])).full)
        ≡ gives tt (store id log_server gfs ([], []) 0 (feed 2 half_full (4 ∷ [])).full))
unfolding joined
writer_close-stream_write_example =
    writer_close-stream_write 2 id [] digest (pos 1000) log_server gfs (λ ns doc s. refl) ([], [])
      half_full (0 ∷ []) 4 [] [] refl (refl, omega arith, omega arith, omega arith)
      (unfold feed in refl)

abbrev two_chunks : List (List ℕ)
two_chunks = (1 ∷ 2 ∷ []) ∷ (3 ∷ []) ∷ []

two_chunks-IsChunk : All IsChunk two_chunks
two_chunks-IsChunk = ((omega arith, omega arith), ((omega arith, omega arith), tt))

-- Two bytes behind the first one: the rest of the first chunk and the second one.
stream_read-Reading_example :
    Reading 2
      (as_written id)
      log_server
      gfs
      two_chunks
      (log_storage.Holds two_chunks)
      2
      []
      (1 ∷ [])
      (stream_read log_server gfs
        (pos 2)
        (at_place 2
          (as_written id)
          log_server
          gfs
          two_chunks
          (log_storage.Holds two_chunks)
          []
          (1 ∷ [])
          (2 ∷ []))
        (documents 0 two_chunks, []))
unfolding joined log_storage
stream_read-Reading_example =
    stream_read-Reading 2 (as_written id) log_server gfs two_chunks (log_storage.Holds two_chunks)
      refl two_chunks-IsChunk (omega arith) (log_storage.serves two_chunks) 1 [] (1 ∷ []) (2 ∷ [])
      ((3 ∷ []) ∷ []) (documents 0 two_chunks, []) (refl, inl (omega arith))
      (refl, omega arith, two_chunks-IsChunk)

abbrev nothing_there : ChunkLog
nothing_there = ([], [])

no_nul : List ℕ → Bool
no_nul [] = true
no_nul (x ∷ xs) = ltb 0 x && no_nul xs

no_nul-IsCString : (s : List ℕ) → no_nul s ≡ true → IsCString s
unfolding no_nul
no_nul-IsCString [] h = tt
no_nul-IsCString (x ∷ xs) h =
    ((λ e. absurd (ground (arith, h, e))), no_nul-IsCString xs (ground (arith, h)))

digest-IsCString : IsCString (65 ∷ 66 ∷ [])
unfolding no_nul
digest-IsCString = no_nul-IsCString (65 ∷ 66 ∷ []) refl

named-IsElement : IsElement named
unfolding no_nul
named-IsElement =
    (no_nul-IsCString (b'f' ∷ []) refl, (no_nul-IsCString (b'x' ∷ []) refl, omega arith))

named-IsPlain : IsPlain named
unfolding tag
named-IsPlain =
    ((((λ e. absurd (omega (arith, e))), (λ e. absurd (omega (arith, e)))), tt), inl refl)

id_is_not_named : id_key ≢ named.key
id_is_not_named = λ e. absurd (omega (arith, ap length e))

file-IsDocument : IsDocument (oid_element id ∷ named ∷ file_fields 3 2 (pos 1000) (65 ∷ 66 ∷ []))
unfolding encode_all encode tag payload le no_nul
file-IsDocument = (
  (
    (no_nul-IsCString id_key refl, refl),
    (
      named-IsElement,
      (
        (no_nul-IsCString length_key refl, omega arith),
        (
          (no_nul-IsCString chunk_size_key refl, omega arith),
          (
            (no_nul-IsCString upload_date_key refl, omega arith),
            ((no_nul-IsCString md5_key refl, (digest-IsCString, omega arith)), tt),
          ),
        ),
      ),
    ),
  ),
  omega arith,
)

-- Three bytes in chunks of two, and a field of the user.
stream_read-stream_write_example :
    (w w' : Writer) × (s s' s'' t : ChunkLog) × (r r' : Reader) × (stream_new 0
        (record { machine_id = 1; pid = 1 })
        1000
        5
        (some gfs)
        (some (document_of (oid_element id ∷ named ∷ [])))
        nothing_there
      ≡ gives w nothing_there)
    × (stream_write log_server gfs (some (1 ∷ 2 ∷ 3 ∷ 9 ∷ [])) (pos 3) w ([], [])
        ≡ gives tt (w', s))
    × (writer_close log_server gfs digest (pos 1000) w' s ≡ gives tt s')
    × (stream_find log_server (some gfs) (some (document_of (named ∷ []))) s' ≡ gives r s'')
    × (stream_read log_server gfs (pos 3) r s'' ≡ gives (1 ∷ 2 ∷ 3 ∷ []) (r', t))
unfolding feed push documents log_storage encode_all encode tag payload le
stream_read-stream_write_example =
    stream_read-stream_write [] (named ∷ []) 2 (as_written id) digest (pos 1000) log_server gfs
      named log_storage 0 (record { machine_id = 1; pid = 1 }) 1000 5 ([], []) 1 (2 ∷ 3 ∷ [])
      (9 ∷ []) refl (refl, omega arith, tt) named-IsPlain
      (oid_element id ∷ [], [], refl, (id_is_not_named, tt)) refl (omega arith) (omega arith)
      (
        file-IsDocument,
        tt,
        (λ e. absurd (omega (arith, ap length e)), (λ e. absurd (omega (arith, ap length e)), tt)),
        digest-IsCString,
      )
      (omega arith) (omega arith)

-- Two bytes back from the end.
stream_seek-Asks_example :
    (front : List (List ℕ)) × (a b : List ℕ) × (after : List (List ℕ)) × (s' : ChunkLog)
    × (stream_seek log_server gfs (negsuc 1) 2 (fresh_reader 2 3 id) (documents 0 two_chunks, [])
        ≡ gives tt (
          at_place 2
              (as_written id)
              log_server
              gfs
              two_chunks
              (log_storage.Holds two_chunks)
              front
              a
              b,
          s',
        ))
    × IsPlace two_chunks front a b after
    × log_storage.Holds two_chunks s'
    × (length (joined front) + length a ≡ 1)
unfolding joined log_storage
stream_seek-Asks_example =
    stream_seek-Asks 2 (as_written id) log_server gfs two_chunks (log_storage.Holds two_chunks) refl
      two_chunks-IsChunk (refl, (omega arith, omega arith)) (omega arith) (omega arith)
      (omega arith) (log_storage.serves two_chunks) (negsuc 1) 2 1 (fresh_reader 2 3 id)
      (documents 0 two_chunks, []) (refl, refl, refl, refl, omega arith)
      (refl, omega arith, two_chunks-IsChunk) refl (omega arith)

-- Four bytes back from the end of three.
stream_seek_erange_example :
    stream_seek log_server gfs (negsuc 3) 2 (fresh_reader 2 3 id) ([], [])
    ≡ stops erange (fresh_reader 2 3 id, ([], []))
stream_seek_erange_example =
    stream_seek_erange log_server gfs (negsuc 3) 2 (fresh_reader 2 3 id) ([], []) (omega arith)
      (omega arith) (omega arith) (omega arith)

abbrev started : OidState
started = record { machine_id = 1; pid = 1 }

abbrev made_id : List ℕ
made_id = 0 ∷ 0 ∷ 3 ∷ 232 ∷ 1 ∷ 0 ∷ 0 ∷ 1 ∷ 0 ∷ 0 ∷ 0 ∷ 5 ∷ []

upload-IsDocument : IsDocument (uploaded [] 3 2 (pos 1000) (65 ∷ 66 ∷ []) made_id)
unfolding encode_all encode tag payload le no_nul
upload-IsDocument = (
  (
    (no_nul-IsCString length_key refl, omega arith),
    (
      (no_nul-IsCString chunk_size_key refl, omega arith),
      (
        (no_nul-IsCString upload_date_key refl, omega arith),
        (
          (no_nul-IsCString md5_key refl, (digest-IsCString, omega arith)),
          ((no_nul-IsCString id_key refl, refl), tt),
        ),
      ),
    ),
  ),
  omega arith,
)

-- Three bytes in chunks of two, and no metadata of the user.
new_from_buffer-stored_example :
    (b b' : List ℕ) × (new_from_buffer log_server digest
        (pos 1000)
        started
        1000
        5
        (some gfs)
        (some (document_of []))
        (some (1 ∷ 2 ∷ 3 ∷ 9 ∷ []))
        (pos 3)
        nothing_there
      ≡ gives
          (record {
            chunk_size = 2;
            file_length = 3;
            oid = made_id ++ b;
            md5 = (65 ∷ 66 ∷ []) ++ 0 ∷ b';
            date = pos 0;
            metadata = some (document_of (uploaded [] 3 2 (pos 1000) (65 ∷ 66 ∷ []) made_id));
          })
          (log_server.insert gfs.files_ns
            (some (document_of (uploaded [] 3 2 (pos 1000) (65 ∷ 66 ∷ []) made_id)))
            (store made_id log_server gfs nothing_there 0 two_chunks)).1)
unfolding joined
new_from_buffer-stored_example =
    new_from_buffer-stored log_server gfs digest (pos 1000) started 1000 5 (λ ns doc s. refl) []
      made_id two_chunks (9 ∷ []) 2 nothing_there
      (unfold oid_new in oid_new_with_time-layout started 1000 5 (omega arith) (omega arith)) refl
      (omega arith) (omega arith) (refl, (omega arith, omega arith)) refl (omega arith)
      digest-IsCString upload-IsDocument tt tt
