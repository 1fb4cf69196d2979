-- ===== src/Bson/Cursor/Find.antt =====
-- `bson_find` of src/bson.c on a document, as a search for a key in its list of elements.
use libmongo_client.Base.{
  ℕ, ◌+◌, ◌≡◌, ◌≢◌, refl, ap, ◌∙◌, true, false, Option, none, some, List, [], ◌∷◌, ◌++◌, append-nil,
  arith, length, length-append, All, ne→==, Bool-cases, inl, inr,
}
use libmongo_client.Base.Bytes.{bytes_eq, bytes_eq_self, bytes_eq→eq}
use libmongo_client.Base.Result.{ok, fails}
use libmongo_client.Bson.Object.{Bson, size, contents, minus_one}
use libmongo_client.Bson.Element.{Element, framed, encode, encode_all}
use libmongo_client.Bson.Build.Appends.{document_of}
use libmongo_client.Bson.Cursor.{
  Cursor, find_from, find_loop, find, fuel_for, last_pos, wrap32, wrap64, cursor_new, set_found,
  set_cursor,
}
use libmongo_client.Bson.Cursor.Search.{
  IsDocument, locate, pass-locate, size-document_of, contents-document_of, last_pos-document_of,
  encode_all-append,
}

-- The cursor on the element `e` of the document with the elements `left`, `e` and `right`.
abbrev pub cursor_at : List Element → Element → List Element → Cursor
cursor_at left e right = record {
  obj = some (document_of (left ++ (e ∷ right)));
  key = some (length (encode_all left) + 5);
  pos = length (encode_all left) + 4;
  value_pos = length (encode_all left) + 4 + length e.key + 2;
}

-- No element has this key.
abbrev pub Lacks : List ℕ → List Element → Type 0
Lacks name = All (λ e. e.key ≢ name)

bytes_eq_ne : (xs ys : List ℕ) → xs ≢ ys → bytes_eq xs ys ≡ false
bytes_eq_ne xs ys h = elim (Bool-cases (bytes_eq xs ys)) [
  | inl e ↦ absurd (h (bytes_eq→eq xs ys e))
  | inr e ↦ e
]

pub locate-Lacks :
    (name : List ℕ) (p : ℕ) (es : List Element) → Lacks name es → locate name p es ≡ none
unfolding locate
locate-Lacks name p [] h = refl
locate-Lacks name p (e ∷ es) h =
    rw (bytes_eq_ne e.key name h.0) (locate-Lacks name (p + length (encode e)) es h.1)

pub locate_here :
    (right : List Element) (e : Element) (p : ℕ)
    → locate e.key p (e ∷ right) ≡ some (p, p + length e.key + 2)
unfolding locate
locate_here right e p = rw (bytes_eq_self e.key)

-- The first element with the key is the one that is found.
pub locate_first :
    (left right : List Element) (e : Element) (p : ℕ)
    → Lacks e.key left
    → locate e.key p (left ++ (e ∷ right))
      ≡ some (p + length (encode_all left), p + length (encode_all left) + length e.key + 2)
unfolding locate encode_all
locate_first [] right e p h = rw (bytes_eq_self e.key) (ap some (ground arith))
locate_first (x ∷ left) right e p h = rw (bytes_eq_ne x.key e.key h.0) (
    locate_first left right e (p + length (encode x)) h.1
    ∙ ground (arith, length-append (encode x) (encode_all left)))

-- A found place is the cursor on the element there.
pub set_found-place :
    (all left right : List Element) (e : Element) (p v : ℕ)
    → all ≡ left ++ (e ∷ right)
    → p ≡ length (encode_all left) + 4
    → v ≡ p + length e.key + 2
    → IsDocument all
    → set_found (some (document_of all)) (some (p, v)) ≡ ok (cursor_at left e right)
unfolding set_found set_cursor
set_found-place all left right e p v shape ep ev h =
    ap
      (λ es. ok (record {
        obj = some (document_of es);
        key = some (wrap64 (p + 1));
        pos = p;
        value_pos = v;
      }))
      shape
    ∙ ground (
      arith,
      ap (λ es. length (encode_all es)) shape,
      ap length (encode_all-append left (e ∷ right)),
      length-append (encode_all left) (encode_all (e ∷ right)),
    )

-- `_bson_cursor_find` from the results of its passes.
module _ (b : Option Bson) (d name : List ℕ) (start_pos end_pos : ℕ)
    (has : contents b ≡ some d) where
  pub find_from_once :
      (hit : Option (ℕ × ℕ))
      → find_loop (fuel_for d) d name start_pos end_pos ≡ ok hit
      → find_from b name start_pos end_pos false ≡ set_found b hit
  unfolding find_from set_found
  find_from_once none h = rw has (rw h)
  find_from_once (some pv) h = rw has (rw h)

  pub find_from_hit :
      (pv : ℕ × ℕ)
      → find_loop (fuel_for d) d name start_pos end_pos ≡ ok (some pv)
      → find_from b name start_pos end_pos true ≡ set_found b (some pv)
  unfolding find_from
  find_from_hit pv h = rw has (rw h)

  pub find_from_again :
      (hit : Option (ℕ × ℕ))
      → find_loop (fuel_for d) d name start_pos end_pos ≡ ok none
      → find_loop (fuel_for d) d name 4 (wrap32 start_pos) ≡ ok hit
      → find_from b name start_pos end_pos true ≡ set_found b hit
  unfolding find_from
  find_from_again hit h again = rw has (rw h (rw again))

find-locate :
    (es : List Element) (name : List ℕ)
    → IsDocument es
    → find (some (document_of es)) (some name)
      ≡ set_found (some (document_of es)) (locate name 4 es)
unfolding find cursor_new
find-locate es name h =
    rw (ne→== (size (some (document_of es))) minus_one (omega (arith, size-document_of es h))) (
      find_from_once (some (document_of es)) _ name 4 (last_pos (some (document_of es)))
        (contents-document_of es) (locate name 4 es) whole)
  where
    whole :
        find_loop
          (fuel_for (framed (encode_all es)))
          (framed (encode_all es))
          name
          4
          (last_pos (some (document_of es)))
        ≡ ok (locate name 4 es)
    whole = rw (append-nil es) at (
        pass-locate [] es [] name 4 (last_pos (some (document_of es))) (rw (append-nil es) h) h.0
          (unfold encode_all in refl) (omega (arith, last_pos-document_of es h)))

-- In a document of valid elements, `bson_find` stands on the first element with the key,
-- wherever it is.
pub find_first :
    (left right : List Element) (e : Element)
    → IsDocument (left ++ (e ∷ right))
    → Lacks e.key left
    → find (some (document_of (left ++ (e ∷ right)))) (some e.key) ≡ ok (cursor_at left e right)
find_first left right e h none_before =
    find-locate (left ++ (e ∷ right)) e.key h
    ∙ ap (set_found (some (document_of (left ++ (e ∷ right)))))
        (locate_first left right e 4 none_before)
    ∙ set_found-place (left ++ (e ∷ right)) left right e _ _ refl (omega arith) refl h

-- In a document of valid elements, `bson_find` returns NULL where no element has the key.
pub find_missing :
    (es : List Element) (name : List ℕ)
    → IsDocument es
    → Lacks name es
    → find (some (document_of es)) (some name) ≡ fails
unfolding set_found
find_missing es name h lacks =
    find-locate es name h ∙ ap (set_found (some (document_of es))) (locate-Lacks name 4 es lacks)
