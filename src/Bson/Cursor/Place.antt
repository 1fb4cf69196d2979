-- ===== src/Bson/Cursor/Place.antt =====
-- What src/bson.c reads around one element that stands in the bytes of an object.
use libmongo_client.Base.{
  ℕ, zero, suc, ◌+◌, ◌<◌, ◌≡◌, refl, ap, ◌∙◌, false, some, List, [], ◌∷◌, ◌++◌, append_assoc, arith,
  length, length-append, drop_from, get_elem?, take?_from, le→leb, if◌then◌else◌, ne→==, ◌==◌,
  Bool-cases, inl, inr,
}
use libmongo_client.Base.Bytes.{strlen-append, bytes_eq}
use libmongo_client.Base.Int.{half32, widen}
use libmongo_client.Base.Result.{ok, access}
use libmongo_client.Bson.Object.{minus_one}
use libmongo_client.Bson.Element.{Element, tag, payload, IsValue, IsElement, encode}
use libmongo_client.Bson.Cursor.{
  found, onward, at, wrap32, wrap64, byte_at, get_block_size, find_round,
}
use libmongo_client.Bson.Cursor.BlockSize.{get_block_size-payload}

pub at-append : (xs ys : List ℕ) (n : ℕ) → n ≡ length xs → at (xs ++ ys) n ≡ ok ys
unfolding at
at-append xs ys n h =
    rw (le→leb n (length (xs ++ ys)) (omega (arith, length-append xs ys)))
      (ap ok (drop_from xs ys n h))

get_elem?-append : (xs ys : List ℕ) (y n : ℕ) → n ≡ length xs → get_elem? (xs ++ y ∷ ys) n ≡ some y
get_elem?-append [] ys y zero h = refl
get_elem?-append [] ys y (suc n) h = absurd (omega arith)
get_elem?-append (x ∷ xs) ys y zero h = absurd (omega arith)
get_elem?-append (x ∷ xs) ys y (suc n) h = get_elem?-append xs ys y n (omega arith)

pub length-encode : (e : Element) → length (encode e) ≡ length e.key + 2 + length (payload e.value)
unfolding encode
length-encode e = omega (arith, length-append e.key (0 ∷ payload e.value))

-- The element `e` between `pre` and `post`, in a byte array that a signed 32-bit size can count.
module _ (pre post : List ℕ) (e : Element) where
  abbrev pub around : List ℕ
  around = pre ++ (encode e ++ post)

  -- Where its value starts.
  abbrev pub value_index : ℕ
  value_index = length pre + length e.key + 2

  abbrev pub IsSmall : Type 0
  IsSmall = length pre + length (encode e) + length post < half32

  pub byte_at-around : byte_at around (length pre) ≡ ok (tag e.value)
  unfolding byte_at encode
  byte_at-around =
      ap access (get_elem?-append pre ((e.key ++ 0 ∷ payload e.value) ++ post) (tag e.value) _ refl)

  pub at-around_key : at around (length pre + 1) ≡ ok (e.key ++ 0 ∷ (payload e.value ++ post))
  unfolding encode
  at-around_key =
      ap (λ d. at d (length pre + 1)) shape
      ∙ at-append (pre ++ tag e.value ∷ []) _ _
          (omega (arith, length-append pre (tag e.value ∷ [])))
    where
      shape :
          pre ++ ((tag e.value ∷ (e.key ++ 0 ∷ payload e.value)) ++ post)
          ≡ (pre ++ tag e.value ∷ []) ++ (e.key ++ 0 ∷ (payload e.value ++ post))
      shape = simp append_assoc

  pub at-around_value : at around value_index ≡ ok (payload e.value ++ post)
  unfolding encode
  at-around_value =
      ap (λ d. at d value_index) shape
      ∙ at-append (pre ++ tag e.value ∷ (e.key ++ 0 ∷ [])) _ _ (
          omega (
            arith,
            length-append pre (tag e.value ∷ (e.key ++ 0 ∷ [])),
            length-append e.key (0 ∷ []),
          ))
    where
      shape :
          pre ++ ((tag e.value ∷ (e.key ++ 0 ∷ payload e.value)) ++ post)
          ≡ (pre ++ tag e.value ∷ (e.key ++ 0 ∷ [])) ++ (payload e.value ++ post)
      shape = simp append_assoc

  pub block_size-around :
      IsValue e.value
      → get_block_size (tag e.value) (payload e.value ++ post) ≡ ok (length (payload e.value))
  block_size-around h = get_block_size-payload e.value post h

  pub find_round-around :
      (name : List ℕ)
      → IsElement e
      → IsSmall
      → find_round around name (length pre)
        ≡ ok (
            if bytes_eq e.key name
            then found (length pre) value_index
            else onward (length pre + length (encode e)))
  unfolding find_round
  find_round-around name h small =
      rw (byte_at-around, key_index, at-around_key, strlen-append e.key _ h.0)
        (rw (take?_from e.key (0 ∷ (payload e.value ++ post)) (length e.key) refl, value_place)
          (elim (Bool-cases (bytes_eq e.key name)) [
            | inl hit ↦ rw hit
            | inr miss ↦ rw (miss, at-around_value, block_size-around h.1) (rw (known, next_place))
          ]))
    where
      key_index : wrap64 (length pre + 1) ≡ length pre + 1
      key_index = omega (arith, length-encode e)

      value_place : widen (wrap32 (length pre + length e.key + 2)) ≡ value_index
      value_place = ground (arith, length-encode e)

      known : (length (payload e.value) == minus_one) ≡ false
      known = ne→== _ _ (omega (arith, length-encode e))

      next_place :
          widen (wrap32 (wrap32 (length pre + length e.key + 2) + length (payload e.value)))
          ≡ length pre + length (encode e)
      next_place = ground (arith, length-encode e)
