-- ===== src/Gridfs/Upload/Document.antt =====
-- The document of a file that `mongo_sync_gridfs_chunked_file_new_from_buffer` of
-- src/sync-gridfs-chunk.c stores, and the pointers into it.
use libmongo_client.Base.{
  ℕ, ◌+◌, ◌<◌, ◌≡◌, ◌≢◌, refl, ap, sym, ◌∙◌, subst, some, List, [], ◌∷◌, ◌++◌, append_assoc,
  append-nil, arith, length, length-append, All,
}
use libmongo_client.Base.Bytes.{le, IsCString}
use libmongo_client.Base.Int.{ℤ, pos, half32, half64}
use libmongo_client.Base.Result.{ok}
use libmongo_client.Bson.Object.{close, finish}
use libmongo_client.Bson.Element.{Value, Element, encode_all, encode}
use libmongo_client.Bson.Build.Appends.{document_of, open_with, close-open}
use libmongo_client.Bson.Build.Single.{append_oid-encode}
use libmongo_client.Bson.Cursor.{cursor_find}
use libmongo_client.Bson.Cursor.Search.{IsDocument, encode_all-append}
use libmongo_client.Bson.Cursor.Find.{cursor_at, Lacks, find_first}
use libmongo_client.Bson.Cursor.FindNext.{cursor_find_wraps}
use libmongo_client.Bson.Cursor.Under.{behind}
use libmongo_client.Bson.Cursor.Values.{getters-value}
use libmongo_client.Gridfs.Writer.Close.{length_key, chunk_size_key, upload_date_key, md5_key}
use libmongo_client.Gridfs.Writer.Closed.{file_fields, reopen-closed, append_file_fields-encode}
use libmongo_client.Gridfs.Find.{id_key, or_kept}
use libmongo_client.Gridfs.Find.Found.{oid_element}
use libmongo_client.Gridfs.Upload.Metadata.{
  upload_base, upload_metadata, pointers_under, uploaded_pointers,
}

All-join : {A : Type 0} (P : A → Type 0) (xs ys : List A) → All P xs → All P ys → All P (xs ++ ys)
All-join P [] ys h k = k
All-join P (x ∷ xs) ys h k = (h.0, All-join P xs ys h.1 k)

abbrev first : List ℕ → ℕ
first [] = 0
first (x ∷ xs) = x

module _ (es : List Element) (total c : ℕ) (date : ℤ) (text oid : List ℕ) where
  -- The user's elements, the fields of the file, and the id.
  abbrev pub uploaded : List Element
  uploaded = (es ++ file_fields total c date text) ++ oid_element oid ∷ []

  pub upload_metadata-document_of :
      length (encode_all es) + 5 < half32
      → total < half64
      → c < half32
      → IsCString text
      → length oid ≡ 12
      → upload_metadata (some (document_of es)) total c date text oid
        ≡ ok (some (document_of uploaded))
  unfolding upload_metadata upload_base finish
  upload_metadata-document_of small ht hc h twelve = rw (reopen-closed (encode_all es) small) (
      rw (append_file_fields-encode _ total c date text ht hc h) (
        rw (append_oid-encode _ id_key oid twelve) (
          ap (λ b. ok (some (close (open_with b)))) regroup
          ∙ ap (λ b. ok (some b)) (close-open (length (encode_all es) + 5) (encode_all uploaded)))))
    where
      front : List ℕ
      front = le 4 (length (encode_all es) + 5)

      fields : List Element
      fields = file_fields total c date text

      one : encode_all (oid_element oid ∷ []) ≡ encode (oid_element oid)
      one = unfold encode_all in append-nil (encode (oid_element oid))

      regroup :
          ((front ++ encode_all es) ++ encode_all fields) ++ encode (oid_element oid)
          ≡ front ++ encode_all uploaded
      regroup =
          rw (encode_all-append (es ++ fields) (oid_element oid ∷ []))
            (rw (encode_all-append es fields) (rw one (simp append_assoc)))

  fields-Lacks : Lacks id_key (file_fields total c date text)
  fields-Lacks = (
    (λ e. absurd (omega (arith, ap length e))),
    (
      (λ e. absurd (omega (arith, ap length e))),
      ((λ e. absurd (omega (arith, ap length e))), ((λ e. absurd (omega (arith, ap first e))), tt)),
    ),
  )

  pub uploaded-fits : IsDocument uploaded → length (encode_all es) + 5 < half32
  uploaded-fits doc = omega (
    arith,
    doc.1,
    ap length (encode_all-append (es ++ file_fields total c date text) (oid_element oid ∷ [])),
    ap length (encode_all-append es (file_fields total c date text)),
    length-append (encode_all (es ++ file_fields total c date text))
        (encode_all (oid_element oid ∷ [])),
    length-append (encode_all es) (encode_all (file_fields total c date text)),
  )

  abbrev in_front : List Element
  in_front =
      es
      ++ (record { key = length_key; value = Value.int64 (pos total) }
          ∷ record { key = chunk_size_key; value = Value.int32 (pos c) }
          ∷ record { key = upload_date_key; value = Value.utc_datetime date }
          ∷ [])

  abbrev sum_element : Element
  sum_element = record { key = md5_key; value = Value.string text }

  in_front-fields : in_front ++ sum_element ∷ [] ≡ es ++ file_fields total c date text
  in_front-fields = append_assoc es _ (sum_element ∷ [])

  in_front-Lacks : Lacks md5_key es → Lacks md5_key in_front
  in_front-Lacks h =
      All-join (λ e. e.key ≢ md5_key) es _ h
        (
          (λ e. absurd (omega (arith, ap length e))),
          (
            (λ e. absurd (omega (arith, ap length e))),
            ((λ e. absurd (omega (arith, ap length e))), tt),
          ),
        )

  at_sum :
      IsDocument uploaded
      → Lacks md5_key es
      → cursor_find
          (some (cursor_at (es ++ file_fields total c date text) (oid_element oid) []))
          (some md5_key)
        ≡ ok (cursor_at in_front sum_element (oid_element oid ∷ []))
  at_sum doc no_sum =
      ap (λ l. cursor_find (some (cursor_at l (oid_element oid) [])) (some md5_key))
        (sym in_front-fields)
      ∙ cursor_find_wraps in_front [] [] (oid_element oid) sum_element
          (subst (λ l. IsDocument (l ++ oid_element oid ∷ [])) (sym in_front-fields) doc)
          (in_front-Lacks no_sum) ((λ e. absurd (omega (arith, ap first e))), tt)

  pub uploaded_pointers-document_of :
      IsDocument uploaded
      → Lacks id_key es
      → Lacks md5_key es
      → (b b' : List ℕ) × (uploaded_pointers (some (document_of uploaded))
          ≡ ok (oid ++ b, text ++ 0 ∷ b'))
  unfolding uploaded_pointers pointers_under or_kept
  uploaded_pointers-document_of doc no_id no_sum = (
    behind (es ++ file_fields total c date text) [] (oid_element oid),
    behind in_front (oid_element oid ∷ []) sum_element,
    rw
        (
          find_first (es ++ file_fields total c date text) [] (oid_element oid) doc
              (All-join (λ e. e.key ≢ id_key) es _ no_id fields-Lacks),
          uploaded_pointers,
        )
        (rw
          (
            getters-value (es ++ file_fields total c date text) [] id_key (Value.oid oid) doc,
            pointers_under,
          )
          (rw (at_sum doc no_sum, pointers_under)
            (rw
              (
                getters-value in_front (oid_element oid ∷ []) md5_key (Value.string text) sum_place,
                pointers_under,
              )
              refl))),
  )
    where
      sum_place : IsDocument (in_front ++ sum_element ∷ (oid_element oid ∷ []))
      sum_place =
          subst IsDocument
            (ap (λ l. l ++ oid_element oid ∷ []) (sym in_front-fields)
              ∙ append_assoc in_front (sum_element ∷ []) (oid_element oid ∷ []))
            doc
