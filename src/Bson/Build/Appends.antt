-- ===== src/Bson/Build/Appends.antt =====
-- What the appenders of src/bson.c write: one element of the format, behind what was there.
use libmongo_client.Base.{
  ℕ, ◌+◌, ◌%◌, ◌<◌, ◌≡◌, refl, ap, ◌∙◌, Bool, true, false, some, List, [], ◌∷◌, ◌++◌, append_assoc,
  arith, length, length-append, take?-append, take?_all, take?_exact, append-nil, map, overwrite,
  overwrite-append, lt→leb, All,
}
use libmongo_client.Base.Bytes.{le, length-le, strlen-append, IsCString}
use libmongo_client.Base.Int.{pos, negsuc, half32, word}
use libmongo_client.Base.Result.{ok, ◌>>=◌}
use libmongo_client.Bson.Object.{Bson, close, finish, size, contents}
use libmongo_client.Bson.Append.{
  append_string_element, append_document_element, append_javascript_w_scope,
}
use libmongo_client.Bson.Element.{
  Value, Element, tag, payload, text, framed, IsFramed, IsValue, IsElement, encode, encode_all,
}
use libmongo_client.Bson.Build.{Args, Arg, ready, add_args, add_single, add_all, build_full}

-- An object that is still open, and one that is finished.
abbrev pub open_with : List ℕ → Bson
open_with xs = record { data_bytes = xs; finished = false }

abbrev pub closed : List ℕ → Bson
closed xs = record { data_bytes = xs; finished = true }

-- The arguments with which a caller appends a value.
abbrev pub to_args : Value → Args
to_args (Value.double d) = Args.double d
to_args (Value.string s) = Args.string (some (s ++ 0 ∷ [])) (negsuc 0)
to_args (Value.document d) = Args.document (some (closed d))
to_args (Value.array d) = Args.array (some (closed d))
to_args (Value.binary t d) = Args.binary t (some d) (pos (length d))
to_args (Value.oid o) = Args.oid (some o)
to_args (Value.boolean b) = Args.boolean (pos b)
to_args (Value.utc_datetime t) = Args.utc_datetime t
to_args Value.null = Args.null
to_args (Value.regexp r o) = Args.regexp (some r) (some o)
to_args (Value.js_code s) = Args.js_code (some (s ++ 0 ∷ [])) (negsuc 0)
to_args (Value.symbol s) = Args.symbol (some (s ++ 0 ∷ [])) (negsuc 0)
to_args (Value.js_code_w_scope s d) =
    Args.js_code_w_scope (some (s ++ 0 ∷ [])) (negsuc 0) (some (closed d))
to_args (Value.int32 i) = Args.int32 i
to_args (Value.timestamp t) = Args.timestamp t
to_args (Value.int64 i) = Args.int64 i

abbrev pub to_arg : Bool → Element → Arg
to_arg f e = record { name = some e.key; free_after = f; args = to_args e.value }

pub length-framed : (body : List ℕ) → length (framed body) ≡ length body + 5
unfolding le
length-framed body = omega (arith, length-append body (0 ∷ []))

pub IsFramed-lt : (d : List ℕ) → IsFramed d → (4 < length d) × (length d < half32)
IsFramed-lt d (body, e, h) =
    (omega (arith, ap length e, length-framed body), omega (arith, ap length e, length-framed body))

pub size-closed : (d : List ℕ) → length d < half32 → size (some (closed d)) ≡ length d
unfolding size
size-closed d h = omega arith

-- Where the text stands without a length, its own bytes are copied.
pub append_string_element-closed :
    (xs k s : List ℕ) (t : ℕ)
    → IsCString s
    → append_string_element (some (open_with xs)) t (some k) (some (s ++ 0 ∷ [])) (negsuc 0)
      ≡ ok (some (open_with (xs ++ (t % 256 ∷ (k ++ 0 ∷ text s)))), true)
unfolding append_string_element
append_string_element-closed xs k s t h =
    simp (strlen-append s [] h, take?-append s (0 ∷ []), append_assoc)

append_document_element-closed :
    (xs k d : List ℕ) (t : ℕ)
    → IsFramed d
    → append_document_element (some (open_with xs)) t (some k) (some (closed d))
      ≡ (some (open_with (xs ++ (t % 256 ∷ (k ++ 0 ∷ d)))), true)
unfolding append_document_element contents
append_document_element-closed xs k d t h =
    rw (size-closed d (IsFramed-lt d h).1, lt→leb half32 (length d) (IsFramed-lt d h).1)
      (simp append_assoc)

append_javascript_w_scope-closed :
    (xs k s d : List ℕ)
    → IsCString s
    → IsFramed d
    → append_javascript_w_scope
        (some (open_with xs))
        (some k)
        (some (s ++ 0 ∷ []))
        (negsuc 0)
        (some (closed d))
      ≡ ok (
        some (
            open_with
              (xs ++ (15 ∷ (k ++ 0 ∷ (le 4 (length s + 1 + 4 + 4 + length d) ++ (text s ++ d)))))),
        true,
      )
unfolding append_javascript_w_scope contents
append_javascript_w_scope-closed xs k s d hs h =
    rw (size-closed d (IsFramed-lt d h).1, lt→leb half32 (length d) (IsFramed-lt d h).1)
      (simp (strlen-append s [] hs, take?-append s (0 ∷ []), append_assoc))

ready-closed : (f : Bool) (d : List ℕ) → IsFramed d → ready f (some (closed d)) ≡ some (closed d)
unfolding ready
ready-closed false d h = refl
ready-closed true d h =
    rw (size-closed d (IsFramed-lt d h).1, lt→leb half32 (length d) (IsFramed-lt d h).1)

append_value :
    (xs k : List ℕ) (f : Bool) (v : Value)
    → IsValue v
    → add_args (some (open_with xs)) (some k) f (to_args v)
      ≡ ok (some (open_with (xs ++ (tag v ∷ (k ++ 0 ∷ payload v)))), true)
unfolding add_args tag payload
append_value xs k f (Value.double d) h = simp append_assoc
append_value xs k f (Value.string s) h = rw (append_string_element-closed xs k s 2 h.0)
append_value xs k f (Value.document d) h =
    rw (ready-closed f d h, append_document_element-closed xs k d 3 h)
append_value xs k f (Value.array d) h =
    rw (ready-closed f d h, append_document_element-closed xs k d 4 h)
append_value xs k f (Value.binary t []) h = absurd (omega (arith, h.1))
append_value xs k f (Value.binary t (x ∷ d)) h =
    let e : t % 256 ≡ t = omega arith in simp (take?_all d, append_assoc, e)
append_value xs k f (Value.oid o) h = simp (take?_exact o 12 h, append_assoc)
append_value xs k f (Value.boolean b) h =
    let e : word half32 (pos b) % 256 ≡ b = unfold word in omega arith in simp (e, append_assoc)
append_value xs k f (Value.utc_datetime t) h = simp append_assoc
append_value xs k f Value.null h = simp append_assoc
append_value xs k f (Value.regexp r o) h = simp append_assoc
append_value xs k f (Value.js_code s) h = rw (append_string_element-closed xs k s 13 h.0)
append_value xs k f (Value.symbol s) h = rw (append_string_element-closed xs k s 14 h.0)
append_value xs k f (Value.js_code_w_scope s d) h =
    ap
      (λ d'.
        append_javascript_w_scope (some (open_with xs)) (some k) (some (s ++ 0 ∷ [])) (negsuc 0) d'
        >>= λ r. ok (r.0, true))
      (ready-closed f d h.1)
    ∙ rw (append_javascript_w_scope-closed xs k s d h.0 h.1)
append_value xs k f (Value.int32 i) h = simp append_assoc
append_value xs k f (Value.timestamp t) h = simp append_assoc
append_value xs k f (Value.int64 i) h = simp append_assoc

-- Appending a valid value of any type to an open object adds the bytes of its element at the
-- end.
pub add_single-encode :
    (xs : List ℕ) (f : Bool) (e : Element)
    → IsValue e.value
    → add_single (some (open_with xs)) (to_arg f e) ≡ ok (some (open_with (xs ++ encode e)), true)
unfolding add_single encode
add_single-encode xs f e h = append_value xs e.key f e.value h

add_all-encode_all :
    (xs : List ℕ) (f : Bool) (es : List Element)
    → All IsElement es
    → add_all (some (open_with xs)) (map (to_arg f) es)
      ≡ ok (some (open_with (xs ++ encode_all es)))
unfolding add_all encode_all
add_all-encode_all xs f [] h = rw append-nil
add_all-encode_all xs f (e ∷ es) h =
    rw (add_single-encode xs f e h.0.1)
      (add_all-encode_all (xs ++ encode e) f es h.1 ∙ simp append_assoc)

-- The finished document over a list of elements.
abbrev pub document_of : List Element → Bson
document_of es = closed (framed (encode_all es))

pub close-open : (w : ℕ) (body : List ℕ) → close (open_with (le 4 w ++ body)) ≡ closed (framed body)
unfolding close le
close-open w body =
    let size_of : length ((le 4 w ++ body) ++ 0 ∷ []) ≡ length body + 5 = omega (
      arith,
      length-append (le 4 w ++ body) (0 ∷ []),
      length-append (le 4 w) body,
      length-le 4 w,
    ) in
    ap closed (
      ap (λ n. overwrite ((le 4 w ++ body) ++ 0 ∷ []) (le 4 n)) size_of
      ∙ overwrite-append (le 4 w) (le 4 (length body + 5)) (body ++ 0 ∷ [])
          (omega (arith, length-le 4 w, length-le 4 (length body + 5))))

pub finish-open :
    (body : List ℕ)
    → finish (some (open_with (le 4 0 ++ body))) ≡ (some (closed (framed body)), true)
unfolding finish
finish-open body = ap (λ b. (some b, true)) (close-open 0 body)

-- `bson_build_full` on one element or more, all of them valid, and then `bson_finish` give the
-- document of the format: its length in four bytes, the elements in order, and a NUL; the call
-- of `bson_finish` returns TRUE.
pub finish-build_full :
    (f : Bool) (e : Element) (es : List Element)
    → All IsElement (e ∷ es)
    → (build_full (to_arg f e) (map (to_arg f) es) >>= λ b. ok (finish b))
      ≡ ok (some (document_of (e ∷ es)), true)
unfolding build_full
finish-build_full f e es h =
    rw (add_all-encode_all (le 4 0) f (e ∷ es) h) (ap ok (finish-open (encode_all (e ∷ es))))
