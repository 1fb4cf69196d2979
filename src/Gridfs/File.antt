-- ===== src/Gridfs/File.antt =====
-- src/sync-gridfs.c: the files and what can be asked of one, whatever its kind, and the default size
-- of the chunks. A file is `gpointer`: it may be NULL.
use libmongo_client.Base.{ℕ, zero, suc, Option, none, some, List}
use libmongo_client.Base.Int.{ℤ, pos, negsuc, signed, half32, half64}
use libmongo_client.Base.Errno.{enotconn, einval, eopnotsupp}
use libmongo_client.Base.Call.{Call, returns, errs}
use libmongo_client.Bson.Object.{Bson}
use libmongo_client.Gridfs.Server.{GridFs}
use libmongo_client.Gridfs.Writer.{Writer}
use libmongo_client.Gridfs.Reader.{Reader}

-- `struct _mongo_sync_gridfs_chunked_file`, the length and the size of the chunks as patterns; the
-- id and the checksum are the memory behind the pointers.
pub record ChunkedFile : Type 0 where
  pub chunk_size : ℕ
  pub file_length : ℕ
  pub oid : List ℕ
  pub md5 : List ℕ
  pub date : ℤ
  pub metadata : Option Bson

-- The type field of the struct, with what belongs to it.
pub data GridFile : Type 0 where
  chunked_file : ChunkedFile → GridFile
  stream_reader : Reader → GridFile
  stream_writer : Writer → GridFile

unfoldable pub get_chunk_size : Option GridFs → Call ℤ
get_chunk_size none = errs enotconn
get_chunk_size (some gfs) = returns (signed half32 gfs.chunk_size)

unfoldable pub set_chunk_size : Option GridFs → ℤ → Call GridFs
set_chunk_size none n = errs enotconn
set_chunk_size (some gfs) (negsuc n) = errs einval
set_chunk_size (some gfs) (pos zero) = errs einval
set_chunk_size (some gfs) (pos (suc n)) = returns (record gfs { chunk_size = suc n })

unfoldable pub file_get_id : Option GridFile → Call (List ℕ)
file_get_id none = errs enotconn
file_get_id (some (chunked_file f)) = returns f.oid
file_get_id (some (stream_reader r)) = returns r.id
file_get_id (some (stream_writer w)) = returns w.id

unfoldable pub file_get_length : Option GridFile → Call ℤ
file_get_length none = errs enotconn
file_get_length (some (chunked_file f)) = returns (signed half64 f.file_length)
file_get_length (some (stream_reader r)) = returns (signed half64 r.file_length)
file_get_length (some (stream_writer w)) = returns (signed half64 w.file_length)

unfoldable pub file_get_chunk_size : Option GridFile → Call ℤ
file_get_chunk_size none = errs enotconn
file_get_chunk_size (some (chunked_file f)) = returns (signed half32 f.chunk_size)
file_get_chunk_size (some (stream_reader r)) = returns (signed half32 r.chunk_size)
file_get_chunk_size (some (stream_writer w)) = returns (signed half32 w.chunk_size)

unfoldable pub file_get_md5 : Option GridFile → Call (List ℕ)
file_get_md5 none = errs enotconn
file_get_md5 (some (chunked_file f)) = returns f.md5
file_get_md5 (some (stream_reader r)) = errs eopnotsupp
file_get_md5 (some (stream_writer w)) = errs eopnotsupp

unfoldable pub file_get_date : Option GridFile → Call ℤ
file_get_date none = errs enotconn
file_get_date (some (chunked_file f)) = returns f.date
file_get_date (some (stream_reader r)) = errs eopnotsupp
file_get_date (some (stream_writer w)) = errs eopnotsupp

unfoldable pub file_get_metadata : Option GridFile → Call (Option Bson)
file_get_metadata none = errs enotconn
file_get_metadata (some (chunked_file f)) = returns f.metadata
file_get_metadata (some (stream_reader r)) = errs eopnotsupp
file_get_metadata (some (stream_writer w)) = errs eopnotsupp
