-- ===== src/Gridfs/Find.antt =====
-- Finding a file: `mongo_sync_gridfs_stream_find` of src/sync-gridfs-stream.c and
-- `mongo_sync_gridfs_chunked_find` of src/sync-gridfs-chunk.c.
pub mod Found
use libmongo_client.Base.{
  ℕ, Bool, false, Option, none, some, List, [], ◌∷◌, ◌⊎◌, inl, inr, take?, ◌==◌, if◌then◌else◌,
  ◌||◌,
}
use libmongo_client.Base.Int.{ℤ, pos, negsuc, word, half32, half64}
use libmongo_client.Base.Errno.{Errno, enotconn, einval, eproto}
use libmongo_client.Base.Call
use libmongo_client.Base.Call.{Call, returns, errs}
use libmongo_client.Base.Result
use libmongo_client.Base.Result.{Result, ok, fails, fault, spins, access, ◌>>=◌}
use libmongo_client.Base.Run.{Run, gives, stops, crashes, lift}
use libmongo_client.Bson.Object.{Bson}
use libmongo_client.Bson.Cursor.{Cursor, find, cursor_find}
use libmongo_client.Bson.Get.{get_oid, get_int64, get_int32, get_utc_datetime, get_string}
use libmongo_client.Wire.Packet.{Packet}
use libmongo_client.Gridfs.Server.{Server, GridFs}
use libmongo_client.Gridfs.Writer.Close.{length_key, chunk_size_key, upload_date_key, md5_key}
use libmongo_client.Gridfs.Reader.{Reader, first_document}
use libmongo_client.Gridfs.Reader.Fresh.{fresh_reader}
use libmongo_client.Gridfs.File.{ChunkedFile}

abbrev pub id_key : List ℕ
id_key = b'_' ∷ b'i' ∷ b'd' ∷ []

-- A call whose result the code does not look at: where it fails, what it writes to stays.
unfoldable pub or_kept : {A : Type 0} → A → Result A → Result A
or_kept a (ok b) = ok b
or_kept a fails = ok a
or_kept a Result.fault = Result.fault
or_kept a spins = spins

abbrev pub is_zero : ℤ → Bool
is_zero (pos n) = n == 0
is_zero (negsuc n) = false

-- The length: a 64-bit integer, or where that is 0 a 32-bit one.
unfoldable pub length_under : Cursor → Result ℤ
length_under c = do
  n ← or_kept (pos 0) (get_int64 (some c))
  if is_zero n then or_kept (pos 0) (get_int32 (some c)) else ok n

-- What both kinds of files read first: the id as memory, the length, the size of the chunks, and the
-- cursor behind it. `fails` where the code leaves with EPROTO.
unfoldable pub file_head : Option Bson → Result (List ℕ × ℤ × ℤ × Cursor)
file_head meta = do
  c ← find meta (some id_key)
  oid ← get_oid (some c)
  d ← or_kept c (cursor_find (some c) (some length_key))
  n ← length_under d
  e ← or_kept d (cursor_find (some d) (some chunk_size_key))
  k ← or_kept (pos 0) (get_int32 (some e))
  if is_zero n || is_zero k then fails else ok (oid, n, k, e)

unfoldable pub reader_from : Option Bson → Result Reader
reader_from meta = do
  (oid, n, k, c) ← file_head meta
  id ← access (take? 12 oid)
  ok (fresh_reader (word half32 k) (word half64 n) id)

unfoldable pub chunked_from : Option Bson → Result ChunkedFile
chunked_from meta = do
  (oid, n, k, c) ← file_head meta
  d ← or_kept c (cursor_find (some c) (some upload_date_key))
  date ← get_utc_datetime (some d)
  e ← or_kept d (cursor_find (some d) (some md5_key))
  sum ← get_string (some e)
  ok (record {
    chunk_size = word half32 k;
    file_length = word half64 n;
    oid = oid;
    md5 = sum;
    date = date;
    metadata = meta;
  })

module _ {W : Type 0} (server : Server W) where
  -- The document that both make a file of.
  unfoldable pub with_first :
      {A : Type 0} → (Option Bson → Result A) → (Errno ⊎ Packet) × W → Run W A
  with_first make (inl e, s) = stops e s
  with_first make (inr p, s) = elim (first_document (inr p)) [
    | returns meta ↦ lift eproto s (make meta)
    | errs e ↦ crashes
    | Call.fault ↦ crashes
  ]

  unfoldable pub stream_find : Option GridFs → Option Bson → W → Run W Reader
  stream_find none query s = stops enotconn s
  stream_find (some gfs) none s = stops einval s
  stream_find (some gfs) (some q) s =
      with_first reader_from (server.query gfs.files_ns 0 1 (some q) s)

  unfoldable pub chunked_find : Option GridFs → Option Bson → W → Run W ChunkedFile
  chunked_find none query s = stops enotconn s
  chunked_find (some gfs) none s = stops einval s
  chunked_find (some gfs) (some q) s =
      with_first chunked_from (server.query gfs.files_ns 0 1 (some q) s)
