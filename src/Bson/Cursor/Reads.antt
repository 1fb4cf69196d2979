-- ===== src/Bson/Cursor/Reads.antt =====
-- The getters of src/bson.c, from the memory that starts with the value's bytes.
use native.Mathlib.Nat.{add-zero}
use libmongo_client.Base.{
  ℕ, ◌+◌, ◌-◌, ◌^◌, ◌<◌, ◌≡◌, refl, ap, sym, ◌∙◌, some, List, [], ◌∷◌, ◌++◌, append_assoc, arith,
  length, length-append, drop_from, take?_from,
}
use libmongo_client.Base.Bytes.{le, length-le, read, read-le, strlen-append, IsCString, of_le}
use libmongo_client.Base.Int.{
  ℤ, pos, Fits, word, half32, half64, widen, word32-lt, word64-lt, signed-word32, signed-word64,
}
use libmongo_client.Base.Result.{ok}
use libmongo_client.Bson.Object.{append_bytes, contents, new_sized, close}
use libmongo_client.Bson.Element.{
  Value, double, binary, boolean, utc_datetime, regexp, js_code_w_scope, int32, timestamp, int64,
  tag, payload, text, IsFramed, IsValue,
}
use libmongo_client.Bson.Build.Appends.{closed, close-open}
use libmongo_client.Bson.Cursor.{Cursor, at, wrap32, wrap64}
use libmongo_client.Bson.Get.{
  value_of_type, copy_document, get_double, get_binary, get_boolean, get_utc_datetime, get_regex,
  get_javascript_w_scope, get_int32, get_timestamp, get_int64,
}
use libmongo_client.Bson.Cursor.BlockSize.{stream_doc_size-counted, stream_doc_size-le}
use libmongo_client.Bson.Cursor.Place.{at-append}

-- A copied nested document is the document that was appended.
pub copy_document-framed :
    (d rest : List ℕ) → IsFramed d → copy_document (d ++ rest) ≡ ok (closed d)
unfolding copy_document
copy_document-framed d rest (body, e, small) =
    ap (λ x. copy_document (x ++ rest)) e
    ∙ rw (stream_doc_size-counted (length body + 5) (body ++ 0 ∷ []) rest small, inner, size_of)
        (rw (take?_from body (0 ∷ rest) (length body) refl) copied)
  where
    inner : at ((le 4 (length body + 5) ++ (body ++ 0 ∷ [])) ++ rest) 4 ≡ ok (body ++ 0 ∷ rest)
    inner =
        ap (λ m. at m 4)
          (append_assoc (le 4 (length body + 5)) (body ++ 0 ∷ []) rest
            ∙ ap (λ m. le 4 (length body + 5) ++ m) (append_assoc body (0 ∷ []) rest))
        ∙ at-append (le 4 (length body + 5)) (body ++ 0 ∷ rest) 4
            (omega (arith, length-le 4 (length body + 5)))

    size_of : wrap32 (length body + 5 + 2 ^ 32 - 4 - 1) ≡ length body
    size_of = omega arith

    copied : ok (close (append_bytes (new_sized (pos 0)) body)) ≡ ok (closed d)
    copied = ap ok (unfold append_bytes new_sized in (close-open 0 body ∙ ap closed (sym e)))

-- The text behind a length field.
pub at-text : (s rest : List ℕ) → at (text s ++ rest) 4 ≡ ok (s ++ 0 ∷ rest)
at-text s rest =
    ap (λ m. at m 4)
      (append_assoc (le 4 (length s + 1)) (s ++ 0 ∷ []) rest
        ∙ ap (λ m. le 4 (length s + 1) ++ m) (append_assoc s (0 ∷ []) rest))
    ∙ at-append (le 4 (length s + 1)) (s ++ 0 ∷ rest) 4 (omega (arith, length-le 4 (length s + 1)))

-- The getters, from the memory at the value: `Holds v` says that the value's bytes start there.
module _ (c : Cursor) (rest : List ℕ) where
  abbrev pub Holds : Value → Type 0
  Holds v = value_of_type (some c) (tag v) ≡ ok (payload v ++ rest)

  pub reads_int32 : (i : ℤ) → Fits half32 i → Holds (int32 i) → get_int32 (some c) ≡ ok i
  unfolding get_int32 tag payload
  reads_int32 i h m =
      rw m (rw (read-le 4 (word half32 i) rest (word32-lt i)) (ap ok (signed-word32 i h)))

  pub reads_utc_datetime :
      (i : ℤ) → Fits half64 i → Holds (utc_datetime i) → get_utc_datetime (some c) ≡ ok i
  unfolding get_utc_datetime tag payload
  reads_utc_datetime i h m =
      rw m (rw (read-le 8 (word half64 i) rest (word64-lt i)) (ap ok (signed-word64 i h)))

  pub reads_timestamp :
      (i : ℤ) → Fits half64 i → Holds (timestamp i) → get_timestamp (some c) ≡ ok i
  unfolding get_timestamp tag payload
  reads_timestamp i h m =
      rw m (rw (read-le 8 (word half64 i) rest (word64-lt i)) (ap ok (signed-word64 i h)))

  pub reads_int64 : (i : ℤ) → Fits half64 i → Holds (int64 i) → get_int64 (some c) ≡ ok i
  unfolding get_int64 tag payload
  reads_int64 i h m =
      rw m (rw (read-le 8 (word half64 i) rest (word64-lt i)) (ap ok (signed-word64 i h)))

  pub reads_double : (w : ℕ) → w < 2 ^ 64 → Holds (double w) → get_double (some c) ≡ ok w
  unfolding get_double tag payload
  reads_double w h m = rw m (rw (read-le 8 w rest h))

  pub reads_boolean : (b : ℕ) → Holds (boolean b) → get_boolean (some c) ≡ ok b
  unfolding get_boolean tag payload read of_le
  reads_boolean b m = rw m (ap ok (omega arith))

  pub reads_binary :
      (t : ℕ) (d : List ℕ)
      → IsValue (binary t d)
      → Holds (binary t d)
      → get_binary (some c) ≡ ok (t, d ++ rest, length d)
  unfolding get_binary tag payload read of_le
  reads_binary t d h m = rw m (
      rw (append_assoc (le 4 (length d)) (t ∷ d) rest) (
        rw
          (
            stream_doc_size-le (length d) (t ∷ (d ++ rest)) (omega arith),
            drop_from (le 4 (length d)) (t ∷ (d ++ rest)) 4 (omega (arith, length-le 4 (length d))),
          )
          (rw tail_of (ap (λ x. ok (x, d ++ rest, length d)) (add-zero t)))))
    where
      tail_of : at (le 4 (length d) ++ t ∷ (d ++ rest)) (4 + 1) ≡ ok (d ++ rest)
      tail_of =
          ap (λ x. at x 5) (sym (append_assoc (le 4 (length d)) (t ∷ []) (d ++ rest)))
          ∙ at-append (le 4 (length d) ++ t ∷ []) (d ++ rest) 5
              (omega (arith, length-append (le 4 (length d)) (t ∷ []), length-le 4 (length d)))

  pub reads_regexp :
      (r o : List ℕ)
      → IsCString r
      → Holds (regexp r o)
      → get_regex (some c) ≡ ok (r ++ 0 ∷ (o ++ 0 ∷ rest), o ++ 0 ∷ rest)
  unfolding get_regex tag payload
  reads_regexp r o h m = rw m (rw (shape, strlen-append r (o ++ 0 ∷ rest) h) (rw options))
    where
      shape : ((r ++ 0 ∷ []) ++ (o ++ 0 ∷ [])) ++ rest ≡ r ++ 0 ∷ (o ++ 0 ∷ rest)
      shape = simp append_assoc

      options : at (r ++ 0 ∷ (o ++ 0 ∷ rest)) (length r + 1) ≡ ok (o ++ 0 ∷ rest)
      options =
          ap (λ x. at x (length r + 1)) (sym (append_assoc r (0 ∷ []) (o ++ 0 ∷ rest)))
          ∙ at-append (r ++ 0 ∷ []) (o ++ 0 ∷ rest) (length r + 1)
              (omega (arith, length-append r (0 ∷ [])))

  pub reads_scope :
      (s d all : List ℕ)
      → IsValue (js_code_w_scope s d)
      → Holds (js_code_w_scope s d)
      → contents c.obj ≡ some all
      → at all (wrap64 (c.value_pos + widen (wrap32 (length s + 1 + 4 + 4)))) ≡ ok (d ++ rest)
      → get_javascript_w_scope (some c) ≡ ok (s ++ 0 ∷ (d ++ rest), closed d)
  unfolding get_javascript_w_scope tag payload
  reads_scope s d all h m has scope =
      rw (m, has)
        (rw
          (
            code_text,
            stream_doc_size-counted (length s + 1) (s ++ 0 ∷ []) (d ++ rest) (omega arith),
          )
          (rw (scope, copy_document-framed d rest h.1) (rw js_text)))
    where
      total : ℕ
      total = length s + 1 + 4 + 4 + length d

      code_text : at ((le 4 total ++ (text s ++ d)) ++ rest) 4 ≡ ok (text s ++ (d ++ rest))
      code_text =
          ap (λ x. at x 4)
            (append_assoc (le 4 total) (text s ++ d) rest
              ∙ ap (λ x. le 4 total ++ x) (append_assoc (text s) d rest))
          ∙ at-append (le 4 total) (text s ++ (d ++ rest)) 4 (omega (arith, length-le 4 total))

      js_text : at ((le 4 total ++ (text s ++ d)) ++ rest) (4 + 4) ≡ ok (s ++ 0 ∷ (d ++ rest))
      js_text =
          ap (λ x. at x 8) regroup
          ∙ at-append (le 4 total ++ le 4 (length s + 1)) (s ++ 0 ∷ (d ++ rest)) 8 (
              omega (
                arith,
                length-append (le 4 total) (le 4 (length s + 1)),
                length-le 4 total,
                length-le 4 (length s + 1),
              ))
        where
          regroup :
              (le 4 total ++ (text s ++ d)) ++ rest
              ≡ (le 4 total ++ le 4 (length s + 1)) ++ (s ++ 0 ∷ (d ++ rest))
          regroup = simp append_assoc
