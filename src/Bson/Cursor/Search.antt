-- ===== src/Bson/Cursor/Search.antt =====
-- The search of src/bson.c over a whole document, against a search in its list of elements.
use libmongo_client.Base.{
  ℕ, zero, suc, ◌+◌, ◌<◌, ◌≤◌, ◌≡◌, refl, ap, ◌∙◌, Option, none, some, List, [], ◌∷◌, ◌++◌,
  append_assoc, arith, length, length-append, All, lt→ltb, le→ltb, Bool-cases, inl, inr,
  if◌then◌else◌,
}
use libmongo_client.Base.Bytes.{le, length-le, bytes_eq}
use libmongo_client.Base.Int.{half32}
use libmongo_client.Base.Result.{ok}
use libmongo_client.Bson.Object.{size, contents}
use libmongo_client.Bson.Element.{Element, framed, IsElement, encode, encode_all}
use libmongo_client.Bson.Build.Appends.{document_of}
use libmongo_client.Bson.Cursor.{found, onward, find_round, find_loop, last_pos, fuel_for}
use libmongo_client.Bson.Cursor.BlockSize.{length-framed}
use libmongo_client.Bson.Cursor.Place.{length-encode, find_round-around}

-- A list of elements that makes a document of a size that `bson_size` can return.
abbrev pub IsDocument : List Element → Type 0
IsDocument es = All IsElement es × (length (encode_all es) + 5 < half32)

-- The place of the first element with this key, where the elements start at the index `p`: the
-- index of the element and that of its value.
unfoldable pub locate : List ℕ → ℕ → List Element → Option (ℕ × ℕ)
locate name p [] = none
locate name p (e ∷ es) =
    if bytes_eq e.key name
    then some (p, p + length e.key + 2)
    else locate name (p + length (encode e)) es

find_loop-hit :
    (fuel p end_pos q v : ℕ) (d name : List ℕ)
    → p < end_pos
    → find_round d name p ≡ ok (found q v)
    → find_loop (suc fuel) d name p end_pos ≡ ok (some (q, v))
unfolding find_loop
find_loop-hit fuel p end_pos q v d name h e = rw (lt→ltb p end_pos h) (rw e)

find_loop-miss :
    (fuel p end_pos q : ℕ) (d name : List ℕ)
    → p < end_pos
    → find_round d name p ≡ ok (onward q)
    → find_loop (suc fuel) d name p end_pos ≡ find_loop fuel d name q end_pos
unfolding find_loop
find_loop-miss fuel p end_pos q d name h e = rw (lt→ltb p end_pos h) (rw e)

find_loop-end :
    (fuel p end_pos : ℕ) (d name : List ℕ)
    → end_pos ≤ p
    → find_loop (suc fuel) d name p end_pos ≡ ok none
unfolding find_loop
find_loop-end fuel p end_pos d name h = rw (le→ltb p end_pos h)

-- One round at an element of the object.
round_at :
    (e : Element) (d pre post name : List ℕ)
    → IsElement e
    → d ≡ pre ++ (encode e ++ post)
    → length d < half32
    → find_round d name (length pre)
      ≡ ok (
          if bytes_eq e.key name
          then found (length pre) (length pre + length e.key + 2)
          else onward (length pre + length (encode e)))
round_at e d pre post name h ed small =
    ap (λ x. find_round x name (length pre)) ed
    ∙ find_round-around pre post e name h (
        omega (
          arith,
          ap length ed,
          length-append pre (encode e ++ post),
          length-append (encode e) post,
        ))

pub find_loop-locate :
    (es : List Element) (fuel p end_pos : ℕ) (d pre post name : List ℕ)
    → All IsElement es
    → length es < fuel
    → d ≡ pre ++ (encode_all es ++ post)
    → p ≡ length pre
    → end_pos ≡ p + length (encode_all es)
    → length d < half32
    → find_loop fuel d name p end_pos ≡ ok (locate name p es)
unfolding locate encode_all
find_loop-locate es zero p end_pos d pre post name h hf ed ep eq small = elim hf [ ]
find_loop-locate [] (suc fuel) p end_pos d pre post name h hf ed ep eq small =
    find_loop-end fuel p end_pos d name (omega arith)
find_loop-locate (e ∷ es) (suc fuel) p end_pos d pre post name h hf ed ep eq small =
    elim (Bool-cases (bytes_eq e.key name)) [
      | inl hit ↦ rw hit (
          find_loop-hit fuel p end_pos p (p + length e.key + 2) d name inside (here ∙ rw (hit, ep)))
      | inr miss ↦ rw miss (
          find_loop-miss fuel p end_pos (p + length (encode e)) d name inside (here ∙ rw (miss, ep))
          ∙ find_loop-locate es fuel (p + length (encode e)) end_pos d (pre ++ encode e) post name
              h.1 (omega arith) (ed ∙ simp append_assoc)
              (omega (arith, length-append pre (encode e)))
              (omega (arith, length-append (encode e) (encode_all es))) small)
    ]
  where
    inside : p < end_pos
    inside = omega (arith, length-append (encode e) (encode_all es), length-encode e)

    here :
        find_round d name p
        ≡ ok (
            if bytes_eq e.key name
            then found (length pre) (length pre + length e.key + 2)
            else onward (length pre + length (encode e)))
    here =
        ap (find_round d name) ep
        ∙ round_at e d pre (encode_all es ++ post) name h.0 (ed ∙ simp append_assoc) small

length-le-encode_all : (es : List Element) → length es ≤ length (encode_all es)
unfolding encode_all
length-le-encode_all [] = omega arith
length-le-encode_all (e ∷ es) =
    omega
      (arith, length-append (encode e) (encode_all es), length-encode e, length-le-encode_all es)

pub size-document_of :
    (es : List Element) → IsDocument es → size (some (document_of es)) ≡ length (encode_all es) + 5
unfolding size
size-document_of es h = omega (arith, length-framed (encode_all es))

pub contents-document_of :
    (es : List Element) → contents (some (document_of es)) ≡ some (framed (encode_all es))
unfolding contents
contents-document_of es = refl

pub last_pos-document_of :
    (es : List Element)
    → IsDocument es
    → last_pos (some (document_of es)) ≡ length (encode_all es) + 4
last_pos-document_of es h = omega (arith, size-document_of es h)

pub encode_all-append :
    (es fs : List Element) → encode_all (es ++ fs) ≡ encode_all es ++ encode_all fs
unfolding encode_all
encode_all-append [] fs = refl
encode_all-append (e ∷ es) fs = rw (encode_all-append es fs) (simp append_assoc)

-- The bytes of a document around a run of its elements.
pub framed-parts :
    (left es right : List Element)
    → framed (encode_all (left ++ (es ++ right)))
      ≡ (le 4 (length (encode_all (left ++ (es ++ right))) + 5) ++ encode_all left)
        ++ (encode_all es ++ (encode_all right ++ 0 ∷ []))
framed-parts left es right =
    ap (λ body. le 4 (length (encode_all (left ++ (es ++ right))) + 5) ++ (body ++ 0 ∷ []))
      (encode_all-append left (es ++ right)
        ∙ ap (λ b. encode_all left ++ b) (encode_all-append es right))
    ∙ simp append_assoc

-- One pass over the elements from the index `p` to `end_pos`, with the elements `left` before them
-- and `right` behind them.
pub pass-locate :
    (left es right : List Element) (name : List ℕ) (p end_pos : ℕ)
    → IsDocument (left ++ (es ++ right))
    → All IsElement es
    → p ≡ length (encode_all left) + 4
    → end_pos ≡ p + length (encode_all es)
    → let d = framed (encode_all (left ++ (es ++ right))) in
      find_loop (fuel_for d) d name p end_pos ≡ ok (locate name p es)
pass-locate left es right name p end_pos h hes ep eq =
    find_loop-locate es _ p end_pos _
      (le 4 (length (encode_all (left ++ (es ++ right))) + 5) ++ encode_all left)
      (encode_all right ++ 0 ∷ []) name hes
      (omega (
        arith,
        length-framed (encode_all (left ++ (es ++ right))),
        length-le-encode_all es,
        ap length (encode_all-append left (es ++ right)),
        ap length (encode_all-append es right),
        length-append (encode_all left) (encode_all (es ++ right)),
        length-append (encode_all es) (encode_all right),
      ))
      (framed-parts left es right)
      (omega (
        arith,
        length-append (le 4 (length (encode_all (left ++ (es ++ right))) + 5)) (encode_all left),
        length-le 4 (length (encode_all (left ++ (es ++ right))) + 5),
      ))
      eq (omega (arith, length-framed (encode_all (left ++ (es ++ right)))))
