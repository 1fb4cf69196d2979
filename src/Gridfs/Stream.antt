-- ===== src/Gridfs/Stream.antt =====
-- src/sync-gridfs-stream.c: making a stream that writes, and the calls on a stream of any kind. A
-- stream is a pointer to a file, which may be NULL or of another kind.
pub mod Opened
use libmongo_client.Base.{
  ℕ, Bool, true, false, Option, none, some, List, [], take?, replicate, if◌then◌else◌,
}
use libmongo_client.Base.Int.{ℤ}
use libmongo_client.Base.Errno.{Errno, enotconn, einval, eproto, enoent, eopnotsupp, efault}
use libmongo_client.Base.Result
use libmongo_client.Base.Result.{Result, ok, fails, spins}
use libmongo_client.Base.Run.{Run, gives, stops, crashes, loops, lift, ◌>>=◌}
use libmongo_client.Bson.Object.{Bson, finish}
use libmongo_client.Bson.Append.{append_oid}
use libmongo_client.Bson.Cursor.{find}
use libmongo_client.Bson.Get.{get_oid}
use libmongo_client.Util.Oid.{OidState, oid_new_with_time}
use libmongo_client.Gridfs.Server.{Server, GridFs}
use libmongo_client.Gridfs.Writer.{Writer, stream_write}
use libmongo_client.Gridfs.Writer.Close.{reopen, writer_close}
use libmongo_client.Gridfs.Reader.{Reader, stream_read}
use libmongo_client.Gridfs.Reader.Seek.{stream_seek}
use libmongo_client.Gridfs.File.{GridFile, chunked_file, stream_reader, stream_writer}
use libmongo_client.Gridfs.Find.{id_key}

-- The bytes of the fresh buffer are all `junk`.
unfoldable pub fresh_writer : ℕ → GridFs → List ℕ → Option Bson → Writer
fresh_writer junk gfs oid metadata = record {
  chunk_size = gfs.chunk_size;
  file_length = 0;
  offset = 0;
  current_chunk = 0;
  id = oid;
  metadata = metadata;
  buffer = replicate gfs.chunk_size junk;
  buffer_offset = 0;
  summed = [];
}

-- `mongo_util_oid_new` of src/mongo-utils.c: the time is that of the call.
unfoldable pub oid_new : OidState → ℕ → ℕ → Option (List ℕ)
oid_new ids time seq = oid_new_with_time ids time seq

module _ {W : Type 0} (junk : ℕ) (ids : OidState) (time request_id : ℕ) where
  -- Without an id in the metadata one is made, and stored in the copy.
  unfoldable pub new_id : GridFs → Option Bson → W → Run W Writer
  new_id gfs copy s = elim (oid_new ids time request_id) [
    | none ↦ stops efault s
    | some oid ↦ lift einval s (append_oid copy (some id_key) (some oid)) >>= λ b _.
        gives (fresh_writer junk gfs oid (finish b.0).0) s
  ]

  unfoldable pub own_id : GridFs → Option Bson → Result (List ℕ) → W → Run W Writer
  own_id gfs copy (ok mem) s = elim (take? 12 mem) [
    | none ↦ crashes
    | some oid ↦ gives (fresh_writer junk gfs oid (finish copy).0) s
  ]
  own_id gfs copy fails s = stops eproto s
  own_id gfs copy Result.fault s = crashes
  own_id gfs copy spins s = loops

  unfoldable pub stream_new : Option GridFs → Option Bson → W → Run W Writer
  stream_new none metadata s = stops enotconn s
  stream_new (some gfs) metadata s = lift einval s (reopen metadata) >>= λ copy _.
      elim (find metadata (some id_key)) [
        | ok c ↦ own_id gfs copy (get_oid (some c)) s
        | fails ↦ new_id gfs copy s
        | Result.fault ↦ crashes
        | spins ↦ loops
      ]

-- A stream behind a call on it.
abbrev pub held : {R W A : Type 0} → (R → GridFile) → Run (R × W) A → Run (Option GridFile × W) A
held kind (gives a (r, s)) = gives a (some (kind r), s)
held kind (stops e (r, s)) = stops e (some (kind r), s)
held kind crashes = crashes
held kind loops = loops

module _ {W : Type 0} (server : Server W) (gfs : GridFs) where
  -- `has_buffer`: the buffer is not NULL.
  unfoldable pub file_read : Option GridFile → Bool → ℤ → W → Run (Option GridFile × W) (List ℕ)
  file_read none has_buffer n s = stops enoent (none, s)
  file_read (some (stream_reader r)) true n s = held stream_reader (stream_read server gfs n r s)
  file_read (some (stream_reader r)) false n s = stops einval (some (stream_reader r), s)
  file_read (some (stream_writer w)) has_buffer n s = stops eopnotsupp (some (stream_writer w), s)
  file_read (some (chunked_file f)) has_buffer n s = stops eopnotsupp (some (chunked_file f), s)

  unfoldable pub file_write :
      Option GridFile → Option (List ℕ) → ℤ → W → Run (Option GridFile × W) (Unit {0})
  file_write none mem n s = stops enoent (none, s)
  file_write (some (stream_writer w)) mem n s =
      held stream_writer (stream_write server gfs mem n w s)
  file_write (some (stream_reader r)) mem n s = stops eopnotsupp (some (stream_reader r), s)
  file_write (some (chunked_file f)) mem n s = stops eopnotsupp (some (chunked_file f), s)

  unfoldable pub file_seek : Option GridFile → ℤ → ℕ → W → Run (Option GridFile × W) (Unit {0})
  file_seek none p whence s = stops enoent (none, s)
  file_seek (some (stream_reader r)) p whence s =
      held stream_reader (stream_seek server gfs p whence r s)
  file_seek (some (stream_writer w)) p whence s = stops eopnotsupp (some (stream_writer w), s)
  file_seek (some (chunked_file f)) p whence s = stops eopnotsupp (some (chunked_file f), s)

  unfoldable pub file_close : (List ℕ → List ℕ) → ℤ → Option GridFile → W → Run W (Unit {0})
  file_close md5 date none s = stops enoent s
  file_close md5 date (some (stream_writer w)) s = writer_close server gfs md5 date w s
  file_close md5 date (some (stream_reader r)) s = gives tt s
  file_close md5 date (some (chunked_file f)) s = stops einval s
