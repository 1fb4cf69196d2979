-- ===== src/Bson/Cursor/Next.antt =====
-- `bson_cursor_next` of src/bson.c walks a document element by element.
use libmongo_client.Base.{
  ℕ, zero, suc, ◌+◌, ◌-◌, ◌^◌, ◌<◌, ◌≡◌, refl, ap, sym, ◌∙◌, true, false, Option, none, some, List,
  [], ◌∷◌, ◌++◌, append_assoc, arith, length, length-append, ne→==, le→ltb, lt→ltb,
}
use libmongo_client.Base.Int.{slt}
use libmongo_client.Base.Result.{Result, ok, fails, spins, fault, ◌>>=◌}
use libmongo_client.Bson.Object.{size, minus_one}
use libmongo_client.Bson.Element.{Element, payload, framed, encode, encode_all}
use libmongo_client.Bson.Build.Appends.{document_of}
use libmongo_client.Bson.Cursor.{Cursor, wrap32, cursor_new, cursor_next, next_pos, step_to}
use libmongo_client.Bson.Cursor.Place.{length-encode, block_size-around}
use libmongo_client.Bson.Cursor.Search.{
  IsDocument, size-document_of, contents-document_of, encode_all-append,
}
use libmongo_client.Bson.Cursor.Find.{cursor_at}
use libmongo_client.Bson.Cursor.Under.{
  before, behind, length-all, IsElement-under, cursor_type-under, value-under, step_to-under,
}

-- The cursor that `bson_cursor_new` makes on a document.
abbrev pub fresh : List Element → Cursor
fresh es = record { obj = some (document_of es); key = none; pos = 0; value_pos = 0 }

pub cursor_new-fresh :
    (es : List Element) → IsDocument es → cursor_new (some (document_of es)) ≡ ok (fresh es)
unfolding cursor_new
cursor_new-fresh es h =
    rw (ne→== (size (some (document_of es))) minus_one (omega (arith, size-document_of es h)))

-- A cursor on a document, wherever it stands.
abbrev cursor_on : List Element → Option ℕ → ℕ → ℕ → Cursor
cursor_on es k p v = record { obj = some (document_of es); key = k; pos = p; value_pos = v }

-- `bson_cursor_next`, once the next position is known.
module _ (es : List Element) (k : Option ℕ) (p v q : ℕ) (h : IsDocument es) where
  next_inside :
      next_pos (cursor_on es k p v) (framed (encode_all es)) ≡ ok q
      → q < length (encode_all es) + 4
      → cursor_next (some (cursor_on es k p v))
        ≡ step_to (cursor_on es k p v) (framed (encode_all es)) q
  unfolding cursor_next
  next_inside e lt =
      rw (contents-document_of es)
        (rw (e, inside) (ap (step_to (cursor_on es k p v) (framed (encode_all es))) (ground arith)))
    where
      inside : slt q (wrap32 (size (some (document_of es)) + 2 ^ 32 - 1)) ≡ true
      inside = lt→ltb _ _ (omega (arith, size-document_of es h))

  next_past :
      next_pos (cursor_on es k p v) (framed (encode_all es)) ≡ ok q
      → q ≡ length (encode_all es) + 4
      → cursor_next (some (cursor_on es k p v)) ≡ fails
  unfolding cursor_next
  next_past e eq = rw (contents-document_of es) (rw (e, past))
    where
      past : slt q (wrap32 (size (some (document_of es)) + 2 ^ 32 - 1)) ≡ false
      past = le→ltb _ _ (omega (arith, size-document_of es h))

-- The cursor goes to the element that starts at the next position.
next_to :
    (all left right : List Element) (x : Element) (k : Option ℕ) (p v : ℕ)
    → all ≡ left ++ (x ∷ right)
    → IsDocument all
    → next_pos (cursor_on all k p v) (framed (encode_all all)) ≡ ok (length (encode_all left) + 4)
    → cursor_next (some (cursor_on all k p v)) ≡ ok (cursor_at left x right)
next_to all left right x k p v shape h e =
    next_inside all k p v (length (encode_all left) + 4) h e (
      omega
        (arith, ap (λ es. length (encode_all es)) shape, length-all left right x, length-encode x))
    ∙ ap
        (λ es. step_to (cursor_on es k p v) (framed (encode_all es)) (length (encode_all left) + 4))
        shape
    ∙ step_to-under left right x (rw shape at h) (cursor_on (left ++ (x ∷ right)) k p v) _ refl

next_pos-fresh : (es : List Element) (d : List ℕ) → next_pos (fresh es) d ≡ ok 4
unfolding next_pos
next_pos-fresh es d = refl

-- Behind the element under the cursor.
next_pos-cursor_at :
    (left right : List Element) (e : Element)
    → IsDocument (left ++ (e ∷ right))
    → next_pos (cursor_at left e right) (framed (encode_all (left ++ (e ∷ right))))
      ≡ ok (length (encode_all left) + 4 + length (encode e))
unfolding next_pos
next_pos-cursor_at left right e h =
    rw (ne→== (length (encode_all left) + 4) 0 (omega arith), cursor_type-under left right e h)
      (rw
        (
          value-under left right e h,
          block_size-around (before left right e) (behind left right e) e
              (IsElement-under left right e h).1,
        )
        (rw
          (ne→== (length (payload e.value)) minus_one
            (omega (arith, length-all left right e, length-encode e)))
          (ap ok (ground (arith, length-all left right e, length-encode e)))))

-- The first call of `bson_cursor_next` on a fresh cursor on a document that is not empty stands
-- on the first element.
pub cursor_next-fresh :
    (e : Element) (right : List Element)
    → IsDocument (e ∷ right)
    → cursor_next (some (fresh (e ∷ right))) ≡ ok (cursor_at [] e right)
unfolding encode_all
cursor_next-fresh e right h =
    next_to (e ∷ right) [] right e none 0 0 refl h (next_pos-fresh (e ∷ right) _)

-- From an element of a document `bson_cursor_next` goes to the one behind it.
pub cursor_next_right :
    (left right : List Element) (e x : Element)
    → IsDocument (left ++ (e ∷ (x ∷ right)))
    → cursor_next (some (cursor_at left e (x ∷ right))) ≡ ok (cursor_at (left ++ (e ∷ [])) x right)
cursor_next_right left right e x h =
    next_to (left ++ (e ∷ (x ∷ right))) (left ++ (e ∷ [])) right x _ _ _
      (sym (append_assoc left (e ∷ []) (x ∷ right))) h
      (next_pos-cursor_at left (x ∷ right) e h
        ∙ ap ok (
            unfold encode_all in
            omega (
              arith,
              ap length (encode_all-append left (e ∷ [])),
              length-append (encode_all left) (encode e ++ []),
              length-append (encode e) [],
            )))

-- From the last element of a document `bson_cursor_next` fails.
pub cursor_next_last :
    (left : List Element) (e : Element)
    → IsDocument (left ++ (e ∷ []))
    → cursor_next (some (cursor_at left e [])) ≡ fails
cursor_next_last left e h =
    next_past (left ++ (e ∷ [])) _ _ _ _ h (next_pos-cursor_at left [] e h)
      (unfold encode_all in omega (arith, length-all left [] e))

cursor_next-fresh_empty : IsDocument [] → cursor_next (some (fresh [])) ≡ fails
cursor_next-fresh_empty h =
    next_past [] none 0 0 4 h (next_pos-fresh [] _) (unfold encode_all in refl)

-- A client's loop `while (bson_cursor_next (c))`: the cursors that its body sees.
unfoldable pub walk : ℕ → Cursor → Result (List Cursor)
walk zero c = spins
walk (suc fuel) c = elim (cursor_next (some c)) [
  | ok c' ↦ walk fuel c' >>= λ cs. ok (c' ∷ cs)
  | fails ↦ ok []
  | fault ↦ fault
  | spins ↦ spins
]

-- The cursors on the elements of a document, in order.
unfoldable pub places : List Element → List Element → List Cursor
places left [] = []
places left (e ∷ right) = cursor_at left e right ∷ places (left ++ (e ∷ [])) right

walk-places :
    (fuel : ℕ) (left right : List Element) (e : Element)
    → IsDocument (left ++ (e ∷ right))
    → length right < fuel
    → walk fuel (cursor_at left e right) ≡ ok (places (left ++ (e ∷ [])) right)
unfolding walk places
walk-places zero left right e h hf = elim hf [ ]
walk-places (suc fuel) left [] e h hf = rw (cursor_next_last left e h, walk)
walk-places (suc fuel) left (x ∷ right) e h hf =
    rw (cursor_next_right left right e x h, walk)
      (rw (
        walk-places fuel (left ++ (e ∷ [])) right x (rw (append_assoc left (e ∷ []) (x ∷ right)) h)
          (omega arith)))

-- A loop over `bson_cursor_next` from a fresh cursor sees every element of the document once, in
-- order, and then ends: one round more than there are elements is enough.
pub walk-fresh :
    (es : List Element) → IsDocument es → walk (suc (length es)) (fresh es) ≡ ok (places [] es)
unfolding walk places
walk-fresh [] h = rw (cursor_next-fresh_empty h, walk)
walk-fresh (e ∷ right) h =
    rw (cursor_next-fresh e right h, walk)
      (rw (walk-places (suc (length right)) [] right e h (omega arith)))
