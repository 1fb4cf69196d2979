-- ===== src/Gridfs/Find/Found.antt =====
-- `mongo_sync_gridfs_stream_find` of src/sync-gridfs-stream.c on the document of a file.
use libmongo_client.Base.{
  ℕ, ◌+◌, ◌%◌, ◌<◌, ◌≡◌, refl, ap, sym, ◌∙◌, subst, some, List, ◌∷◌, ◌++◌, append_assoc, arith,
  length, take?_from, ne→==, inr,
}
use libmongo_client.Base.Int.{pos, word, half32, half64}
use libmongo_client.Base.Result.{ok}
use libmongo_client.Base.Run.{gives}
use libmongo_client.Bson.Object.{Bson}
use libmongo_client.Bson.Element.{Value, Element, framed, encode_all}
use libmongo_client.Bson.Build.Appends.{document_of}
use libmongo_client.Bson.Cursor.{cursor_find}
use libmongo_client.Bson.Cursor.Search.{IsDocument}
use libmongo_client.Bson.Cursor.Find.{cursor_at, Lacks, find_first}
use libmongo_client.Bson.Cursor.FindNext.{cursor_find_right}
use libmongo_client.Bson.Cursor.Under.{behind}
use libmongo_client.Bson.Cursor.Values.{getters-value}
use libmongo_client.Wire.Packet.{Packet}
use libmongo_client.Gridfs.Server.{Server, GridFs}
use libmongo_client.Gridfs.Writer.Close.{length_key, chunk_size_key}
use libmongo_client.Gridfs.Reader.Load.{Answers, first_document-framed}
use libmongo_client.Gridfs.Reader.Fresh.{fresh_reader}
use libmongo_client.Gridfs.Find.{
  id_key, or_kept, length_under, file_head, reader_from, with_first, stream_find,
}

abbrev pub oid_element : List ℕ → Element
oid_element oid = record { key = id_key; value = Value.oid oid }

abbrev pub length_element : ℕ → Element
length_element n = record { key = length_key; value = Value.int64 (pos n) }

abbrev pub size_element : ℕ → Element
size_element n = record { key = chunk_size_key; value = Value.int32 (pos n) }

-- The document of a file: an id, and somewhere behind it the length and then the size of the chunks,
-- with no field of the same name in front.
module _ (left mid mid' right : List Element) (oid : List ℕ) (total c : ℕ) where
  abbrev pub file_elements : List Element
  file_elements =
      left
      ++ (oid_element oid ∷ (mid ++ (length_element total ∷ (mid' ++ (size_element c ∷ right)))))

  module _ (h : IsDocument file_elements) (no_id : Lacks id_key left)
      (no_length : Lacks length_key (oid_element oid ∷ mid))
      (no_size : Lacks chunk_size_key (length_element total ∷ mid')) (some_length : 0 < total)
      (some_size : 0 < c) where
    length_place :
        (left ++ (oid_element oid ∷ mid))
          ++ (length_element total ∷ (mid' ++ (size_element c ∷ right)))
        ≡ file_elements
    length_place = append_assoc left (oid_element oid ∷ mid) _

    size_place :
        ((left ++ (oid_element oid ∷ mid)) ++ (length_element total ∷ mid'))
          ++ (size_element c ∷ right)
        ≡ file_elements
    size_place =
        append_assoc (left ++ (oid_element oid ∷ mid)) (length_element total ∷ mid') _
        ∙ length_place

    at_length :
        cursor_find
          (some (
            cursor_at left
              (oid_element oid)
              (mid ++ (length_element total ∷ (mid' ++ (size_element c ∷ right))))))
          (some length_key)
        ≡ ok (
            cursor_at
              (left ++ (oid_element oid ∷ mid))
              (length_element total)
              (mid' ++ (size_element c ∷ right)))
    at_length = cursor_find_right left mid _ (oid_element oid) (length_element total) h no_length

    at_size :
        cursor_find
          (some (
            cursor_at
              (left ++ (oid_element oid ∷ mid))
              (length_element total)
              (mid' ++ (size_element c ∷ right))))
          (some chunk_size_key)
        ≡ ok (
            cursor_at
              ((left ++ (oid_element oid ∷ mid)) ++ (length_element total ∷ mid'))
              (size_element c)
              right)
    at_size =
        cursor_find_right (left ++ (oid_element oid ∷ mid)) mid' right (length_element total)
          (size_element c) (subst IsDocument (sym length_place) h) no_size

    length_under-total :
        length_under (
          cursor_at
            (left ++ (oid_element oid ∷ mid))
            (length_element total)
            (mid' ++ (size_element c ∷ right)))
        ≡ ok (pos total)
    unfolding length_under or_kept
    length_under-total =
        rw
          (
            getters-value (left ++ (oid_element oid ∷ mid)) (mid' ++ (size_element c ∷ right))
                length_key (Value.int64 (pos total)) (subst IsDocument (sym length_place) h),
            length_under,
          )
          (rw (ne→== total 0 (omega arith)) refl)

    file_head-elements :
        file_head (some (document_of file_elements))
        ≡ ok (
          oid
              ++ behind left
                  (mid ++ (length_element total ∷ (mid' ++ (size_element c ∷ right))))
                  (oid_element oid),
          pos total,
          pos c,
          cursor_at
              ((left ++ (oid_element oid ∷ mid)) ++ (length_element total ∷ mid'))
              (size_element c)
              right,
        )
    unfolding file_head or_kept
    file_head-elements =
        rw (find_first left _ (oid_element oid) h no_id, file_head)
          (rw (getters-value left _ id_key (Value.oid oid) h, file_head)
            (rw (at_length, file_head)
              (rw (length_under-total, file_head)
                (rw (at_size, file_head)
                  (rw
                    (
                      getters-value
                          ((left ++ (oid_element oid ∷ mid)) ++ (length_element total ∷ mid')) right
                          chunk_size_key (Value.int32 (pos c))
                          (subst IsDocument (sym size_place) h),
                      file_head,
                    )
                    (rw (ne→== total 0 (omega arith)) (rw (ne→== c 0 (omega arith)) refl)))))))

    reader_from-elements :
        length oid ≡ 12
        → total < half64
        → c < half32
        → reader_from (some (document_of file_elements)) ≡ ok (fresh_reader c total oid)
    unfolding reader_from word
    reader_from-elements twelve ht hc =
        rw (file_head-elements, reader_from)
          (rw
            (take?_from oid
              (behind left (mid ++ (length_element total ∷ (mid' ++ (size_element c ∷ right))))
                (oid_element oid))
              12 (omega arith))
            (ap (λ k. ok (fresh_reader k (total % (half64 + half64)) oid)) (omega arith)
              ∙ ap (λ k. ok (fresh_reader c k oid)) (omega arith)))

    -- Finding a file whose document has its id, length and size of the chunks in this order gives a
    -- stream at the start of that file.
    pub stream_find-elements :
        {W : Type 0} (server : Server W) (gfs : GridFs) (query : Bson) (s s' : W) (p : Packet)
        → length oid ≡ 12
        → total < half64
        → c < half32
        → server.query gfs.files_ns 0 1 (some query) s ≡ (inr p, s')
        → Answers p (framed (encode_all file_elements))
        → stream_find server (some gfs) (some query) s ≡ gives (fresh_reader c total oid) s'
    unfolding stream_find with_first
    stream_find-elements server gfs query s s' p twelve ht hc asked answer = rw asked (
        rw (first_document-framed p (encode_all file_elements) answer h.1, with_first)
          (rw (reader_from-elements twelve ht hc) refl))
