-- ===== src/Gridfs/Document/Elements.antt =====
-- The documents of GridFS as lists of elements of the BSON format.
use libmongo_client.Base.{
  ℕ, ◌+◌, ◌<◌, ◌≡◌, ap, ◌∙◌, some, List, [], ◌∷◌, ◌++◌, arith, append_assoc, append-nil, length,
  length-append,
}
use libmongo_client.Base.Bytes.{le, length-le, IsCString}
use libmongo_client.Base.Int.{pos, word, half32, half64}
use libmongo_client.Base.Result.{ok}
use libmongo_client.Bson.Object.{new_sized, finish}
use libmongo_client.Bson.Element.{Value, Element, tag, payload, encode, encode_all, framed}
use libmongo_client.Bson.Build.Single.{
  signed_small64, append_oid-encode, append_int64-encode, append_binary-encode,
}
use libmongo_client.Bson.Build.Appends.{open_with, closed, document_of, finish-open}
use libmongo_client.Bson.Cursor.Search.{IsDocument}
use libmongo_client.Gridfs.Document.{files_id_key, n_key, data_key, generic, chunk_doc, chunk_query}

abbrev pub id_element : List ℕ → Element
id_element oid = record { key = files_id_key; value = Value.oid oid }

abbrev pub n_element : ℕ → Element
n_element n = record { key = n_key; value = Value.int64 (pos n) }

abbrev pub data_element : List ℕ → Element
data_element d = record { key = data_key; value = Value.binary generic d }

abbrev pub chunk_elements : List ℕ → ℕ → List ℕ → List Element
chunk_elements oid n d = id_element oid ∷ n_element n ∷ data_element d ∷ []

abbrev pub query_elements : List ℕ → ℕ → List Element
query_elements oid n = id_element oid ∷ n_element n ∷ []

finish-elements :
    (body : List ℕ) → (finish (some (open_with (le 4 0 ++ body)))).0 ≡ some (closed (framed body))
finish-elements body = ap (λ r. r.0) (finish-open body)

-- The document of a chunk holds the file's id, the number and the bytes.
pub chunk_doc-elements :
    (oid : List ℕ) (n : ℕ) (d rest : List ℕ)
    → length oid ≡ 12
    → n < half64
    → 0 < length d
    → chunk_doc oid n (d ++ rest) (length d) ≡ ok (some (document_of (chunk_elements oid n d)))
unfolding chunk_doc new_sized encode_all
chunk_doc-elements oid n d rest ho hn hd = rw (append_oid-encode (le 4 0) files_id_key oid ho) (
    rw (signed_small64 n hn) (
      rw (append_int64-encode (le 4 0 ++ encode (id_element oid)) n_key (pos n)) (
        rw (append_binary-encode _ data_key generic d rest (omega arith) hd) (
          ap ok (
            ap (λ b. (finish (some (open_with b))).0) regroup
            ∙ finish-elements (encode_all (chunk_elements oid n d)))))))
  where
    regroup :
        ((le 4 0 ++ encode (id_element oid)) ++ encode (n_element n)) ++ encode (data_element d)
        ≡ le 4 0 ++ encode_all (chunk_elements oid n d)
    regroup = simp (append_assoc, append-nil)

-- The query for a chunk holds the file's id and the number.
pub chunk_query-elements :
    (oid : List ℕ) (n : ℕ)
    → length oid ≡ 12
    → n < half64
    → chunk_query oid n ≡ ok (some (document_of (query_elements oid n)))
unfolding chunk_query new_sized encode_all
chunk_query-elements oid n ho hn = rw (append_oid-encode (le 4 0) files_id_key oid ho) (
    rw (signed_small64 n hn) (
      rw (append_int64-encode (le 4 0 ++ encode (id_element oid)) n_key (pos n)) (
        ap ok (
          ap (λ b. (finish (some (open_with b))).0) regroup
          ∙ finish-elements (encode_all (query_elements oid n))))))
  where
    regroup :
        (le 4 0 ++ encode (id_element oid)) ++ encode (n_element n)
        ≡ le 4 0 ++ encode_all (query_elements oid n)
    regroup = simp (append_assoc, append-nil)

key-IsCString : IsCString files_id_key × IsCString n_key × IsCString data_key
key-IsCString = omega arith

length-chunk :
    (oid : List ℕ) (n : ℕ) (d : List ℕ)
    → length (encode_all (chunk_elements oid n d)) ≡ length oid + length d + 32
unfolding encode_all encode tag payload
length-chunk oid n d = omega (
  arith,
  length-append oid (encode_all (n_element n ∷ data_element d ∷ [])),
  length-append (le 8 (word half64 (pos n))) (encode_all (data_element d ∷ [])),
  length-append (le 4 (length d) ++ generic ∷ d) [],
  length-append (le 4 (length d)) (generic ∷ d),
  length-le 8 (word half64 (pos n)),
  length-le 4 (length d),
)

-- It is a document of valid elements.
pub chunk_elements-IsDocument :
    (oid : List ℕ) (n : ℕ) (d : List ℕ)
    → length oid ≡ 12
    → n < half64
    → 0 < length d
    → length d + 64 < half32
    → IsDocument (chunk_elements oid n d)
chunk_elements-IsDocument oid n d ho hn hd small = (
  (
    (key-IsCString.0, ho),
    ((key-IsCString.1, hn), ((key-IsCString.2, (omega arith, hd, omega arith)), tt)),
  ),
  omega (arith, length-chunk oid n d),
)
