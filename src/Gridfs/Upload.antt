-- ===== src/Gridfs/Upload.antt =====
-- `mongo_sync_gridfs_chunked_file_new_from_buffer` of src/sync-gridfs-chunk.c.
pub mod Metadata
pub mod Document
pub mod Stored
use libmongo_client.Base.{
  ℕ, zero, suc, ◌+◌, ◌-◌, ◌%◌, ◌^◌, Option, none, some, List, [], ◌∷◌, ◌++◌, drop, take?, ltb,
  if◌then◌else◌,
}
use libmongo_client.Base.Int.{ℤ, pos, negsuc, word, signed, half32, half64}
use libmongo_client.Base.Errno.{Errno, enotconn, einval, efault}
use libmongo_client.Base.Result
use libmongo_client.Base.Result.{Result, ok, fails, spins}
use libmongo_client.Base.Run.{Run, gives, stops, crashes, loops, lift, ◌>>=◌}
use libmongo_client.Bson.Object.{Bson, new_sized, finish}
use libmongo_client.Bson.Append.{append_oid}
use libmongo_client.Bson.Cursor.{Cursor, find, cursor_find}
use libmongo_client.Bson.Get.{get_oid, get_string}
use libmongo_client.Util.Oid.{OidState}
use libmongo_client.Gridfs.Stream.{oid_new}
use libmongo_client.Gridfs.Server.{Server, GridFs}
use libmongo_client.Gridfs.Document.{chunk_doc}
use libmongo_client.Gridfs.Writer.{part}
use libmongo_client.Gridfs.Writer.Close.{md5_key, reopen, append_file_fields}
use libmongo_client.Gridfs.Upload.Metadata.{upload_metadata, uploaded_pointers}
use libmongo_client.Gridfs.File.{ChunkedFile}
use libmongo_client.Gridfs.Find.{id_key, or_kept}

module _ {W : Type 0} (server : Server W) (gfs : GridFs) where
  -- A round of the loop: the chunk `n`, of at most the size of the chunks; the bytes that it has.
  unfoldable pub upload_round : List ℕ → ℕ → List ℕ → ℕ → W → Run W (List ℕ)
  upload_round oid n mem left s =
      let csize = part gfs.chunk_size left in
      lift einval s (chunk_doc oid n mem csize) >>= λ doc _. elim (take? csize mem) [
        | none ↦ crashes
        | some bytes ↦
            let (failed, s') = server.insert gfs.chunks_ns doc s in
            elim failed [ none ↦ gives bytes s' | some e ↦ stops e s' ]
      ]

  -- `while (pos < size)`, with the memory behind `pos` and what is left of the size: the bytes that
  -- the checksum was updated with.
  unfoldable pub upload_loop : ℕ → List ℕ → ℕ → List ℕ → ℕ → W → Run W (List ℕ)
  upload_loop fuel oid n mem zero s = gives [] s
  upload_loop zero oid n mem (suc left) s = loops
  upload_loop (suc fuel) oid n mem (suc left) s =
      upload_round oid n mem (suc left) s >>= λ bytes s'.
      let csize = part gfs.chunk_size (suc left) in
      upload_loop fuel oid ((n + 1) % 2 ^ 64) (drop csize mem) (suc left - csize) s' >>= λ more t.
      gives (bytes ++ more) t

module _ {W : Type 0} (server : Server W) (md5 : List ℕ → List ℕ) (date : ℤ) (ids : OidState)
    (time request_id : ℕ) where
  -- Behind the loop, which has written `bytes`: the document, and the file that the caller gets.
  unfoldable pub upload_end : GridFs → Option Bson → ℕ → List ℕ → List ℕ → W → Run W ChunkedFile
  upload_end gfs metadata size oid bytes s =
      lift einval s (upload_metadata metadata size gfs.chunk_size date (md5 bytes) oid) >>= λ doc _.
      let (failed, s') = server.insert gfs.files_ns doc s in
      elim failed [
        | some e ↦ stops e s'
        | none ↦ lift einval s' (uploaded_pointers doc) >>= λ pointers _.
            gives
              (record {
                chunk_size = gfs.chunk_size;
                file_length = size;
                oid = pointers.0;
                md5 = pointers.1;
                date = pos 0;
                metadata = doc;
              })
              s'
      ]

  unfoldable pub new_from_buffer :
      Option GridFs → Option Bson → Option (List ℕ) → ℤ → W → Run W ChunkedFile
  new_from_buffer none metadata mem size s = stops enotconn s
  new_from_buffer (some gfs) metadata none size s = stops einval s
  new_from_buffer (some gfs) metadata (some mem) (negsuc n) s = stops einval s
  new_from_buffer (some gfs) metadata (some mem) (pos zero) s = stops einval s
  new_from_buffer (some gfs) metadata (some mem) (pos (suc n)) s =
      elim (oid_new ids time request_id) [
        | none ↦ stops efault s
        | some oid ↦ upload_loop server gfs (suc (suc n)) oid 0 mem (suc n) s >>= λ bytes s'.
            upload_end gfs metadata (suc n) oid bytes s'
      ]
