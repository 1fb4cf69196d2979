-- ===== src/Bson/Cursor/FindNext.antt =====
-- `bson_cursor_find` and `bson_cursor_find_next` of src/bson.c from an element of a document.
use libmongo_client.Base.{
  ℕ, ◌+◌, ◌≡◌, refl, ap, sym, ◌∙◌, none, some, List, [], ◌∷◌, ◌++◌, append_assoc, append-nil, arith,
  length, length-append, All-append,
}
use libmongo_client.Base.Result.{ok, fails}
use libmongo_client.Bson.Element.{Element, IsElement, framed, encode_all}
use libmongo_client.Bson.Build.Appends.{document_of}
use libmongo_client.Bson.Cursor.{
  find_loop, fuel_for, last_pos, wrap32, cursor_find, cursor_find_next, set_found,
}
use libmongo_client.Bson.Cursor.Search.{
  IsDocument, locate, pass-locate, contents-document_of, last_pos-document_of, encode_all-append,
}
use libmongo_client.Bson.Cursor.Find.{
  cursor_at, Lacks, locate_here, locate_first, locate-Lacks, set_found-place, find_from_once,
  find_from_again, find_from_hit,
}

-- The pass from the element that a cursor stands on to the end of the document.
pass_right :
    (left right : List Element) (e : Element) (name : List ℕ)
    → IsDocument (left ++ (e ∷ right))
    → let c = cursor_at left e right in
      find_loop
        (fuel_for (framed (encode_all (left ++ (e ∷ right)))))
        (framed (encode_all (left ++ (e ∷ right))))
        name
        c.pos
        (last_pos c.obj)
      ≡ ok (locate name c.pos (e ∷ right))
pass_right left right e name h = rw (append-nil right) at (
    pass-locate left (e ∷ right) [] name (length (encode_all left) + 4)
      (last_pos (some (document_of (left ++ (e ∷ right))))) (rw (append-nil right) h)
      (All-append IsElement left (e ∷ right) h.0).1 refl
      (omega (
        arith,
        last_pos-document_of (left ++ (e ∷ right)) h,
        ap length (encode_all-append left (e ∷ right)),
        length-append (encode_all left) (encode_all (e ∷ right)),
      )))

-- The second pass of `bson_cursor_find`, from the first element up to the cursor's.
pass_left :
    (left right : List Element) (e : Element) (name : List ℕ)
    → IsDocument (left ++ (e ∷ right))
    → find_loop
        (fuel_for (framed (encode_all (left ++ (e ∷ right)))))
        (framed (encode_all (left ++ (e ∷ right))))
        name
        4
        (wrap32 (cursor_at left e right).pos)
      ≡ ok (locate name 4 left)
pass_left left right e name h =
    pass-locate [] left (e ∷ right) name 4 _ h (All-append IsElement left (e ∷ right) h.0).0
      (unfold encode_all in refl)
      (omega (
        arith,
        ap length (encode_all-append left (e ∷ right)),
        length-append (encode_all left) (encode_all (e ∷ right)),
      ))

cursor_find_next-locate :
    (left right : List Element) (e : Element) (name : List ℕ)
    → IsDocument (left ++ (e ∷ right))
    → let c = cursor_at left e right in
      cursor_find_next (some c) (some name) ≡ set_found c.obj (locate name c.pos (e ∷ right))
unfolding cursor_find_next
cursor_find_next-locate left right e name h =
    find_from_once _ _ name _ _ (contents-document_of (left ++ (e ∷ right))) _
      (pass_right left right e name h)

-- In a document of valid elements, `bson_cursor_find_next` goes on to the first element behind
-- the cursor that has the key, if the cursor's own element does not have it.
pub cursor_find_next_right :
    (left mid right : List Element) (e x : Element)
    → IsDocument (left ++ (e ∷ (mid ++ (x ∷ right))))
    → Lacks x.key (e ∷ mid)
    → cursor_find_next (some (cursor_at left e (mid ++ (x ∷ right)))) (some x.key)
      ≡ ok (cursor_at (left ++ (e ∷ mid)) x right)
cursor_find_next_right left mid right e x h lacks =
    cursor_find_next-locate left (mid ++ (x ∷ right)) e x.key h
    ∙ ap (set_found _) (locate_first (e ∷ mid) right x _ lacks)
    ∙ set_found-place _ (left ++ (e ∷ mid)) right x _ _
        (sym (append_assoc left (e ∷ mid) (x ∷ right)))
        (omega (
          arith,
          ap length (encode_all-append left (e ∷ mid)),
          length-append (encode_all left) (encode_all (e ∷ mid)),
        ))
        refl h

-- In a document of valid elements, asked for the key of the cursor's own element,
-- `bson_cursor_find_next` stays on that element, whatever elements follow it.
pub cursor_find_next_stays :
    (left right : List Element) (e : Element)
    → IsDocument (left ++ (e ∷ right))
    → cursor_find_next (some (cursor_at left e right)) (some e.key) ≡ ok (cursor_at left e right)
cursor_find_next_stays left right e h =
    cursor_find_next-locate left right e e.key h
    ∙ ap (set_found _) (locate_here right e _)
    ∙ set_found-place _ left right e _ _ refl refl refl h

-- In a document of valid elements, `bson_cursor_find` goes on to the first element behind the cursor
-- that has the key, if the cursor's own element does not have it.
pub cursor_find_right :
    (left mid right : List Element) (e x : Element)
    → IsDocument (left ++ (e ∷ (mid ++ (x ∷ right))))
    → Lacks x.key (e ∷ mid)
    → cursor_find (some (cursor_at left e (mid ++ (x ∷ right)))) (some x.key)
      ≡ ok (cursor_at (left ++ (e ∷ mid)) x right)
unfolding cursor_find
cursor_find_right left mid right e x h lacks =
    find_from_hit _ _ x.key _ _ (contents-document_of (left ++ (e ∷ (mid ++ (x ∷ right))))) _ (
      pass_right left (mid ++ (x ∷ right)) e x.key h
      ∙ ap ok (locate_first (e ∷ mid) right x _ lacks))
    ∙ set_found-place _ (left ++ (e ∷ mid)) right x _ _
        (sym (append_assoc left (e ∷ mid) (x ∷ right)))
        (omega (
          arith,
          ap length (encode_all-append left (e ∷ mid)),
          length-append (encode_all left) (encode_all (e ∷ mid)),
        ))
        refl h

-- In a document of valid elements, `bson_cursor_find` wraps over: where the key is neither at
-- the cursor nor behind it, the search goes on from the first element, and stands on the first
-- one with the key before the cursor.
pub cursor_find_wraps :
    (left mid right : List Element) (e x : Element)
    → IsDocument ((left ++ (x ∷ mid)) ++ (e ∷ right))
    → Lacks x.key left
    → Lacks x.key (e ∷ right)
    → cursor_find (some (cursor_at (left ++ (x ∷ mid)) e right)) (some x.key)
      ≡ ok (cursor_at left x (mid ++ (e ∷ right)))
unfolding cursor_find
cursor_find_wraps left mid right e x h before behind =
    find_from_again _ _ x.key _ _ (contents-document_of ((left ++ (x ∷ mid)) ++ (e ∷ right))) _
      (pass_right (left ++ (x ∷ mid)) right e x.key h
        ∙ ap ok (locate-Lacks x.key _ (e ∷ right) behind))
      (pass_left (left ++ (x ∷ mid)) right e x.key h)
    ∙ ap (set_found _) (locate_first left mid x 4 before)
    ∙ set_found-place _ left (mid ++ (e ∷ right)) x _ _ (append_assoc left (x ∷ mid) (e ∷ right))
        (omega arith) refl h

-- A key that no element of a document has makes `bson_cursor_find` fail after both passes, from
-- any element.
pub cursor_find_missing :
    (left right : List Element) (e : Element) (name : List ℕ)
    → IsDocument (left ++ (e ∷ right))
    → Lacks name (left ++ (e ∷ right))
    → cursor_find (some (cursor_at left e right)) (some name) ≡ fails
unfolding cursor_find set_found
cursor_find_missing left right e name h lacks =
    find_from_again _ _ name _ _ (contents-document_of (left ++ (e ∷ right))) none
      (pass_right left right e name h
        ∙ ap ok (locate-Lacks name _ (e ∷ right) (All-append _ left (e ∷ right) lacks).1))
      (pass_left left right e name h
        ∙ ap ok (locate-Lacks name 4 left (All-append _ left (e ∷ right) lacks).0))
