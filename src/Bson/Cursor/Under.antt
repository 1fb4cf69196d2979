-- ===== src/Bson/Cursor/Under.antt =====
-- What a cursor of src/bson.c reads at the element that it stands on.
use libmongo_client.Base.{
  ℕ, ◌+◌, ◌≡◌, ap, ◌∙◌, some, List, [], ◌∷◌, ◌++◌, append_assoc, append-nil, arith, length,
  length-append, All-append, le→ltb,
}
use libmongo_client.Base.Bytes.{le, length-le, strlen-append}
use libmongo_client.Base.Result.{ok}
use libmongo_client.Bson.Element.{Element, IsElement, tag, payload, framed, encode, encode_all}
use libmongo_client.Bson.Cursor.{Cursor, at, wrap64, cursor_type, step_to}
use libmongo_client.Bson.Cursor.Place.{
  around, at-append, length-encode, byte_at-around, at-around_key, at-around_value,
}
use libmongo_client.Bson.Cursor.Search.{
  IsDocument, contents-document_of, framed-parts, encode_all-append,
}
use libmongo_client.Bson.Cursor.Find.{cursor_at}

-- The bytes in front of the element behind `left`, and those behind the element before `right`.
module _ (left right : List Element) (e : Element) where
  abbrev pub before : List ℕ
  before = le 4 (length (encode_all (left ++ (e ∷ right))) + 5) ++ encode_all left

  abbrev pub behind : List ℕ
  behind = encode_all right ++ 0 ∷ []

  pub framed-around : framed (encode_all (left ++ (e ∷ right))) ≡ around before behind e
  framed-around =
      framed-parts left (e ∷ []) right ∙ unfold encode_all in simp (append-nil, append_assoc)

  pub length-before : length before ≡ length (encode_all left) + 4
  length-before = omega (
    arith,
    length-append (le 4 (length (encode_all (left ++ (e ∷ right))) + 5)) (encode_all left),
    length-le 4 (length (encode_all (left ++ (e ∷ right))) + 5),
  )

  pub length-all :
      length (encode_all (left ++ (e ∷ right)))
      ≡ length (encode_all left) + length (encode e) + length (encode_all right)
  length-all =
      unfold encode_all in
      omega (
        arith,
        ap length (encode_all-append left (e ∷ right)),
        length-append (encode_all left) (encode e ++ encode_all right),
        length-append (encode e) (encode_all right),
      )

module _ (left right : List Element) (e : Element) (h : IsDocument (left ++ (e ∷ right))) where
  pub IsElement-under : IsElement e
  IsElement-under = (All-append IsElement left (e ∷ right) h.0).1.0

  pub pos-under : (cursor_at left e right).pos ≡ length (before left right e)
  pos-under = omega (arith, length-before left right e)

  -- The type of the cursor is that of the element under it.
  pub cursor_type-under : cursor_type (some (cursor_at left e right)) ≡ ok (tag e.value)
  unfolding cursor_type
  cursor_type-under = rw (le→ltb (length (encode_all left) + 4) 4 (omega arith)) (
      rw (contents-document_of (left ++ (e ∷ right))) (
        rw (framed-around left right e, pos-under)
          (byte_at-around (before left right e) (behind left right e) e)))

  pub value-under :
      at (framed (encode_all (left ++ (e ∷ right)))) (cursor_at left e right).value_pos
      ≡ ok (payload e.value ++ behind left right e)
  value-under =
      rw (framed-around left right e, pos-under)
        (at-around_value (before left right e) (behind left right e) e)

  -- A step of the cursor to this element, from any cursor on the same object.
  pub step_to-under :
      (c : Cursor) (p : ℕ)
      → p ≡ length (encode_all left) + 4
      → step_to c (framed (encode_all (left ++ (e ∷ right)))) p
        ≡ ok (record c {
          key = some (length (encode_all left) + 5);
          pos = length (encode_all left) + 4;
          value_pos = length (encode_all left) + 4 + length e.key + 2;
        })
  unfolding step_to
  step_to-under c p ep =
      rw
        (
          framed-around left right e,
          key_index,
          at-around_key (before left right e) (behind left right e) e,
        )
        (rw (strlen-append e.key _ IsElement-under.0)
          (ground (arith, length-all left right e, length-before left right e, length-encode e)))
    where
      key_index : wrap64 (p + 1) ≡ length (before left right e) + 1
      key_index = omega (arith, length-before left right e, length-all left right e)

  -- Inside the value, behind its first part.
  pub value_offset :
      (front back : List ℕ)
      → payload e.value ≡ front ++ back
      → at
          (framed (encode_all (left ++ (e ∷ right))))
          ((cursor_at left e right).value_pos + length front)
        ≡ ok (back ++ behind left right e)
  unfolding encode
  value_offset front back shape =
      ap (λ d. at d ((cursor_at left e right).value_pos + length front))
        (framed-around left right e
          ∙ ap
              (λ p.
                before left right e ++ ((tag e.value ∷ (e.key ++ 0 ∷ p)) ++ behind left right e))
              shape
          ∙ regroup)
      ∙ at-append (before left right e ++ tag e.value ∷ (e.key ++ 0 ∷ front))
          (back ++ behind left right e) _
          (omega (
            arith,
            length-append (before left right e) (tag e.value ∷ (e.key ++ 0 ∷ front)),
            length-append e.key (0 ∷ front),
            length-before left right e,
          ))
    where
      regroup :
          before left right e
            ++ ((tag e.value ∷ (e.key ++ 0 ∷ (front ++ back))) ++ behind left right e)
          ≡ (before left right e ++ tag e.value ∷ (e.key ++ 0 ∷ front))
            ++ (back ++ behind left right e)
      regroup = simp append_assoc
