-- ===== src/Gridfs/Upload/Metadata.antt =====
-- src/sync-gridfs-chunk.c: the document that mongo_sync_gridfs_chunked_file_new_from_buffer stores.
use libmongo_client.Base.{ℕ, Option, none, some, List, []}
use libmongo_client.Base.Int.{ℤ, pos}
use libmongo_client.Base.Result.{Result, ok, fails, spins, ◌>>=◌}
use libmongo_client.Bson.Object.{Bson, new_sized, finish}
use libmongo_client.Bson.Append.{append_oid}
use libmongo_client.Bson.Cursor.{Cursor, find, cursor_find}
use libmongo_client.Bson.Get.{get_oid, get_string}
use libmongo_client.Gridfs.Writer.Close.{md5_key, reopen, append_file_fields}
use libmongo_client.Gridfs.Find.{id_key, or_kept}

-- The metadata, open, or a new object without them.
unfoldable pub upload_base : Option Bson → Result (Option Bson)
upload_base none = ok (some (new_sized (pos 128)))
upload_base (some b) = reopen (some b)

-- `size` is the pattern of a `gint64`, `sum` the text of the checksum.
unfoldable pub upload_metadata : Option Bson → ℕ → ℕ → ℤ → List ℕ → List ℕ → Result (Option Bson)
upload_metadata metadata size chunk_size date sum oid = do
  b ← upload_base metadata
  m ← append_file_fields b size chunk_size date (some sum)
  d ← append_oid m (some id_key) (some oid)
  ok (finish d.0).0

-- The pointers into the stored document that the file keeps: the id and the checksum. The results
-- are not looked at, and a pointer that is not set stays NULL, here no memory.
unfoldable pub pointers_under : Cursor → Result (List ℕ × List ℕ)
pointers_under c = do
  oid ← or_kept [] (get_oid (some c))
  d ← or_kept c (cursor_find (some c) (some md5_key))
  sum ← or_kept [] (get_string (some d))
  ok (oid, sum)

unfoldable pub uploaded_pointers : Option Bson → Result (List ℕ × List ℕ)
uploaded_pointers meta = elim (find meta (some id_key)) [
  | ok c ↦ pointers_under c
  | fails ↦ ok ([], [])
  | Result.fault ↦ Result.fault
  | spins ↦ spins
]
