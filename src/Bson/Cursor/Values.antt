-- ===== src/Bson/Cursor/Values.antt =====
-- The getters of src/bson.c on the element under a cursor.
use libmongo_client.Base.{
  ℕ, ◌+◌, ◌^◌, ◌<◌, ◌≡◌, ◌≢◌, refl, ap, sym, ◌∙◌, some, List, ◌∷◌, ◌++◌, append_assoc, arith,
  length, length-append, eq→==, ne→==,
}
use libmongo_client.Base.Bytes.{le, length-le}
use libmongo_client.Base.Int.{widen}
use libmongo_client.Base.Result.{ok, fails, ◌>>=◌}
use libmongo_client.Bson.Element.{
  Value, Element, double, string, document, array, binary, oid, boolean, utc_datetime, null, regexp,
  js_code, symbol, js_code_w_scope, int32, timestamp, int64, tag, payload, text, IsFramed,
}
use libmongo_client.Bson.Build.Appends.{closed}
use libmongo_client.Bson.Cursor.{Cursor, at, wrap32, wrap64}
use libmongo_client.Bson.Get.{
  value_of_type, copy_document, get_string, get_double, get_document, get_array, get_binary,
  get_oid, get_boolean, get_utc_datetime, get_regex, get_javascript, get_symbol,
  get_javascript_w_scope, get_int32, get_timestamp, get_int64,
}
use libmongo_client.Bson.Cursor.BlockSize.{length-text}
use libmongo_client.Bson.Cursor.Reads.{
  copy_document-framed, at-text, reads_int32, reads_utc_datetime, reads_timestamp, reads_int64,
  reads_double, reads_boolean, reads_binary, reads_regexp, reads_scope,
}
use libmongo_client.Bson.Cursor.Place.{length-encode}
use libmongo_client.Bson.Cursor.Search.{IsDocument, contents-document_of}
use libmongo_client.Bson.Cursor.Find.{cursor_at}
use libmongo_client.Bson.Cursor.Under.{
  behind, value_offset, length-all, cursor_type-under, value-under, IsElement-under,
}

module _ (left right : List Element) (e : Element) (h : IsDocument (left ++ (e ∷ right))) where
  value_of_type-own :
      (t : ℕ)
      → tag e.value ≡ t
      → value_of_type (some (cursor_at left e right)) t
        ≡ ok (payload e.value ++ behind left right e)
  unfolding value_of_type
  value_of_type-own t own = rw (cursor_type-under left right e h) (
      rw (eq→== (tag e.value) t own, contents-document_of (left ++ (e ∷ right)))
        (value-under left right e h))

  -- The type check that the getters start with fails for every type but that of the element under
  -- the cursor.
  pub value_of_type-other :
      (t : ℕ) → tag e.value ≢ t → value_of_type (some (cursor_at left e right)) t ≡ fails
  unfolding value_of_type
  value_of_type-other t other =
      rw (cursor_type-under left right e h) (rw (ne→== (tag e.value) t other))

-- What the getter of the value's type returns, `rest` being the bytes that follow the value.
abbrev pub Reads : Cursor → Value → List ℕ → Type 0
Reads c (double d) rest = get_double (some c) ≡ ok d
Reads c (string s) rest = get_string (some c) ≡ ok (s ++ 0 ∷ rest)
Reads c (document d) rest = get_document (some c) ≡ ok (closed d)
Reads c (array d) rest = get_array (some c) ≡ ok (closed d)
Reads c (binary t d) rest = get_binary (some c) ≡ ok (t, d ++ rest, length d)
Reads c (oid o) rest = get_oid (some c) ≡ ok (o ++ rest)
Reads c (boolean b) rest = get_boolean (some c) ≡ ok b
Reads c (utc_datetime t) rest = get_utc_datetime (some c) ≡ ok t
Reads c null rest = Unit {0}
Reads c (regexp r o) rest = get_regex (some c) ≡ ok (r ++ 0 ∷ (o ++ 0 ∷ rest), o ++ 0 ∷ rest)
Reads c (js_code s) rest = get_javascript (some c) ≡ ok (s ++ 0 ∷ rest)
Reads c (symbol s) rest = get_symbol (some c) ≡ ok (s ++ 0 ∷ rest)
Reads c (js_code_w_scope s d) rest =
    get_javascript_w_scope (some c) ≡ ok (s ++ 0 ∷ (d ++ rest), closed d)
Reads c (int32 i) rest = get_int32 (some c) ≡ ok i
Reads c (timestamp t) rest = get_timestamp (some c) ≡ ok t
Reads c (int64 i) rest = get_int64 (some c) ≡ ok i

reads_text :
    (c : Cursor) (t : ℕ) (s rest : List ℕ)
    → value_of_type (some c) t ≡ ok (text s ++ rest)
    → (value_of_type (some c) t >>= λ v. at v 4) ≡ ok (s ++ 0 ∷ rest)
reads_text c t s rest m = rw m (at-text s rest)

reads_document :
    (c : Cursor) (t : ℕ) (d rest : List ℕ)
    → IsFramed d
    → value_of_type (some c) t ≡ ok (d ++ rest)
    → (value_of_type (some c) t >>= copy_document) ≡ ok (closed d)
reads_document c t d rest h m = rw m (copy_document-framed d rest h)

module _ (left right : List Element) (key : List ℕ) where
  at_value :
      (v : Value)
      → IsDocument (left ++ (record { key = key; value = v } ∷ right))
      → let e : Element = record { key = key; value = v } in
        value_of_type (some (cursor_at left e right)) (tag v)
        ≡ ok (payload v ++ behind left right e)
  at_value v h = value_of_type-own left right (record { key = key; value = v }) h (tag v) refl

  -- On an element of a document, with a value of any type but null, which has no getter, the
  -- getter of that type returns the value: numbers with their sign, nested documents as finished
  -- objects equal to the one that was appended, and for texts and binaries a pointer to their
  -- bytes, followed by what follows in the object.
  pub getters-value :
      (v : Value)
      → IsDocument (left ++ (record { key = key; value = v } ∷ right))
      → let e : Element = record { key = key; value = v } in
        Reads (cursor_at left e right) v (behind left right e)
  unfolding tag payload get_string get_document get_array get_oid get_javascript get_symbol
  getters-value (double d) h = reads_double _ _ d (valid h) (at_value (double d) h)
    where
      valid : IsDocument (left ++ (record { key = key; value = double d } ∷ right)) → d < 2 ^ 64
      valid g = (IsElement-under left right _ g).1
  getters-value (string s) h = reads_text _ 2 s _ (at_value (string s) h)
  getters-value (document d) h =
      reads_document _ 3 d _ (IsElement-under left right _ h).1 (at_value (document d) h)
  getters-value (array d) h =
      reads_document _ 4 d _ (IsElement-under left right _ h).1 (at_value (array d) h)
  getters-value (binary t d) h =
      reads_binary _ _ t d (IsElement-under left right _ h).1 (at_value (binary t d) h)
  getters-value (oid o) h = at_value (oid o) h
  getters-value (boolean b) h = reads_boolean _ _ b (at_value (boolean b) h)
  getters-value (utc_datetime t) h =
      reads_utc_datetime _ _ t (IsElement-under left right _ h).1 (at_value (utc_datetime t) h)
  getters-value null h = tt
  getters-value (regexp r o) h =
      reads_regexp _ _ r o (IsElement-under left right _ h).1.0 (at_value (regexp r o) h)
  getters-value (js_code s) h = reads_text _ 13 s _ (at_value (js_code s) h)
  getters-value (symbol s) h = reads_text _ 14 s _ (at_value (symbol s) h)
  getters-value (js_code_w_scope s d) h =
      let e : Element = record { key = key; value = js_code_w_scope s d } in
      let total = length s + 1 + 4 + 4 + length d in
      let scope_index : wrap64
            ((cursor_at left e right).value_pos + widen (wrap32 (length s + 1 + 4 + 4)))
          ≡ (cursor_at left e right).value_pos + length (le 4 total ++ text s) =
        ground (
          arith,
          length-append (le 4 total) (text s),
          length-le 4 total,
          length-text s,
          length-all left right e,
          length-encode e,
          length-append (le 4 total) (text s ++ d),
          length-append (text s) d,
        ) in
      reads_scope _ _ s d _ (IsElement-under left right e h).1 (at_value (js_code_w_scope s d) h)
        (contents-document_of (left ++ (e ∷ right)))
        (ap (at _) scope_index
          ∙ value_offset left right e h (le 4 total ++ text s) d
              (sym (append_assoc (le 4 total) (text s) d)))
  getters-value (int32 i) h =
      reads_int32 _ _ i (IsElement-under left right _ h).1 (at_value (int32 i) h)
  getters-value (timestamp t) h =
      reads_timestamp _ _ t (IsElement-under left right _ h).1 (at_value (timestamp t) h)
  getters-value (int64 i) h =
      reads_int64 _ _ i (IsElement-under left right _ h).1 (at_value (int64 i) h)
