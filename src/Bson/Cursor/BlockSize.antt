-- ===== src/Bson/Cursor/BlockSize.antt =====
-- `_bson_get_block_size` of src/bson.c measures every value of the format.
use libmongo_client.Base.{
  ℕ, ◌+◌, ◌<◌, ◌≡◌, refl, ap, sym, ◌∙◌, List, [], ◌∷◌, ◌++◌, append_assoc, arith, length,
  length-append, drop, drop_from,
}
use libmongo_client.Base.Bytes.{le, length-le, read-le, strlen, strlen-append, IsCString}
use libmongo_client.Base.Int.{half32}
use libmongo_client.Base.Result.{ok, access, ◌>>=◌}
use libmongo_client.Bson.Object.{stream_doc_size}
use libmongo_client.Bson.Element.{
  Value, double, string, document, array, binary, oid, boolean, utc_datetime, null, regexp, js_code,
  symbol, js_code_w_scope, int32, timestamp, int64, tag, payload, text, framed, IsFramed, IsValue,
}
use libmongo_client.Bson.Cursor.{wrap32, get_block_size, regexp_size}

pub stream_doc_size-le :
    (w : ℕ) (rest : List ℕ) → w < half32 → stream_doc_size (le 4 w ++ rest) ≡ ok w
unfolding stream_doc_size
stream_doc_size-le w rest h = ap access (read-le 4 w rest (omega arith))

pub stream_doc_size-counted :
    (w : ℕ) (m rest : List ℕ) → w < half32 → stream_doc_size ((le 4 w ++ m) ++ rest) ≡ ok w
stream_doc_size-counted w m rest h =
    ap stream_doc_size (append_assoc (le 4 w) m rest) ∙ stream_doc_size-le w (m ++ rest) h

regexp_size-append :
    (r o rest : List ℕ)
    → IsCString r
    → IsCString o
    → length r + length o + 2 < half32
    → regexp_size (((r ++ 0 ∷ []) ++ (o ++ 0 ∷ [])) ++ rest) ≡ ok (length r + length o + 2)
unfolding regexp_size
regexp_size-append r o rest hr ho h =
    ap
      (λ m. access (strlen m) >>= λ l.
        access (strlen (drop (l + 1) m)) >>= λ n. ok (wrap32 (l + n + 2)))
      shape
    ∙ rw (strlen-append r ((o ++ 0 ∷ []) ++ rest) hr)
        (rw (skip, strlen-append o rest ho) (ap ok (omega arith)))
  where
    shape : ((r ++ 0 ∷ []) ++ (o ++ 0 ∷ [])) ++ rest ≡ r ++ 0 ∷ ((o ++ 0 ∷ []) ++ rest)
    shape = simp append_assoc

    skip : drop (length r + 1) (r ++ 0 ∷ ((o ++ 0 ∷ []) ++ rest)) ≡ o ++ 0 ∷ rest
    skip =
        ap (drop (length r + 1)) (sym (append_assoc r (0 ∷ []) ((o ++ 0 ∷ []) ++ rest)))
        ∙ drop_from (r ++ 0 ∷ []) ((o ++ 0 ∷ []) ++ rest) (length r + 1)
            (omega (arith, length-append r (0 ∷ [])))
        ∙ append_assoc o (0 ∷ []) rest

pub length-text : (s : List ℕ) → length (text s) ≡ length s + 5
length-text s = omega (
  arith,
  length-append (le 4 (length s + 1)) (s ++ 0 ∷ []),
  length-le 4 (length s + 1),
  length-append s (0 ∷ []),
)

get_block_size-text :
    (s rest : List ℕ)
    → length s + 5 < half32
    → (stream_doc_size (text s ++ rest) >>= λ w. ok (wrap32 (w + 4))) ≡ ok (length (text s))
get_block_size-text s rest h =
    rw (stream_doc_size-counted (length s + 1) (s ++ 0 ∷ []) rest (omega arith))
      (ap ok (omega (arith, length-text s)))

pub length-framed : (body : List ℕ) → length (framed body) ≡ length body + 5
length-framed body = omega (
  arith,
  length-append (le 4 (length body + 5)) (body ++ 0 ∷ []),
  length-le 4 (length body + 5),
  length-append body (0 ∷ []),
)

stream_doc_size-IsFramed :
    (d rest : List ℕ) → IsFramed d → stream_doc_size (d ++ rest) ≡ ok (length d)
stream_doc_size-IsFramed d rest (body, e, h) =
    ap (λ x. stream_doc_size (x ++ rest)) e
    ∙ stream_doc_size-counted (length body + 5) (body ++ 0 ∷ []) rest h
    ∙ ap ok (omega (arith, ap length e, length-framed body))

-- The size of the block behind an element's key is the length of the value's bytes, at a valid
-- value of every type that can be appended and whatever follows the value.
pub get_block_size-payload :
    (v : Value) (rest : List ℕ)
    → IsValue v
    → get_block_size (tag v) (payload v ++ rest) ≡ ok (length (payload v))
unfolding get_block_size tag payload
get_block_size-payload (double d) rest h = ap ok (sym (length-le 8 d))
get_block_size-payload (string s) rest h = get_block_size-text s rest h.1
get_block_size-payload (document d) rest h = stream_doc_size-IsFramed d rest h
get_block_size-payload (array d) rest h = stream_doc_size-IsFramed d rest h
get_block_size-payload (binary t d) rest h =
    rw (stream_doc_size-counted (length d) (t ∷ d) rest (omega arith))
      (ap ok (omega (arith, length-append (le 4 (length d)) (t ∷ d), length-le 4 (length d))))
get_block_size-payload (oid o) rest h = ap ok (sym h)
get_block_size-payload (boolean b) rest h = refl
get_block_size-payload (utc_datetime t) rest h = ap ok (sym (length-le 8 _))
get_block_size-payload null rest h = refl
get_block_size-payload (regexp r o) rest h =
    regexp_size-append r o rest h.0 h.1 h.2
    ∙ ap ok (
        omega (
          arith,
          length-append (r ++ 0 ∷ []) (o ++ 0 ∷ []),
          length-append r (0 ∷ []),
          length-append o (0 ∷ []),
        ))
get_block_size-payload (js_code s) rest h = get_block_size-text s rest h.1
get_block_size-payload (symbol s) rest h = get_block_size-text s rest h.1
get_block_size-payload (js_code_w_scope s d) rest h =
    stream_doc_size-counted (length s + 1 + 4 + 4 + length d) (text s ++ d) rest (omega arith)
    ∙ ap ok (
        omega (
          arith,
          length-append (le 4 (length s + 1 + 4 + 4 + length d)) (text s ++ d),
          length-le 4 (length s + 1 + 4 + 4 + length d),
          length-append (text s) d,
          length-text s,
        ))
get_block_size-payload (int32 i) rest h = ap ok (sym (length-le 4 _))
get_block_size-payload (timestamp t) rest h = ap ok (sym (length-le 8 _))
get_block_size-payload (int64 i) rest h = ap ok (sym (length-le 8 _))
