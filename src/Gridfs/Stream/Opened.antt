-- ===== src/Gridfs/Stream/Opened.antt =====
-- `mongo_sync_gridfs_stream_new` of src/sync-gridfs-stream.c on metadata that have an id.
use libmongo_client.Base.{
  ℕ, ◌+◌, ◌≡◌, ap, some, List, ◌∷◌, ◌++◌, arith, length, replicate, take?_from,
}
use libmongo_client.Base.Run.{gives}
use libmongo_client.Bson.Object.{finish}
use libmongo_client.Bson.Element.{Value, Element, encode_all}
use libmongo_client.Bson.Build.Appends.{document_of, close-open}
use libmongo_client.Bson.Cursor.Search.{IsDocument}
use libmongo_client.Bson.Cursor.Find.{Lacks, find_first}
use libmongo_client.Bson.Cursor.Under.{behind}
use libmongo_client.Bson.Cursor.Values.{getters-value}
use libmongo_client.Util.Oid.{OidState}
use libmongo_client.Gridfs.Server.{GridFs}
use libmongo_client.Gridfs.Writer.Feed.{nothing, joined}
use libmongo_client.Gridfs.Writer.Holding.{writer_of}
use libmongo_client.Gridfs.Writer.Closed.{reopen-closed}
use libmongo_client.Gridfs.Find.{id_key}
use libmongo_client.Gridfs.Find.Found.{oid_element}
use libmongo_client.Gridfs.Stream.{fresh_writer, own_id, stream_new}

module _ {W : Type 0} (junk : ℕ) (ids : OidState) (time request_id : ℕ) where
  -- A new stream takes its id from the metadata, where they have one, and keeps the metadata as they
  -- are; nothing is in its buffer.
  pub stream_new-elements :
      (gfs : GridFs) (left right : List Element) (oid : List ℕ) (s : W)
      → IsDocument (left ++ (oid_element oid ∷ right))
      → Lacks id_key left
      → length oid ≡ 12
      → stream_new junk ids time request_id
          (some gfs)
          (some (document_of (left ++ (oid_element oid ∷ right))))
          s
        ≡ gives
            (writer_of gfs.chunk_size oid
              (some (document_of (left ++ (oid_element oid ∷ right))))
              nothing
              (replicate gfs.chunk_size junk))
            s
  unfolding stream_new own_id fresh_writer finish joined
  stream_new-elements gfs left right oid s h no_id twelve =
      rw (reopen-closed (encode_all (left ++ (oid_element oid ∷ right))) h.1) (
        rw (find_first left right (oid_element oid) h no_id, stream_new)
          (rw (getters-value left right id_key (Value.oid oid) h, own_id)
            (rw (take?_from oid (behind left right (oid_element oid)) 12 (omega arith)) (
              ap (λ b. gives (fresh_writer junk gfs oid (some b)) s)
                (close-open (length (encode_all (left ++ (oid_element oid ∷ right))) + 5) _)))))
