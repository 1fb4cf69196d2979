-- ===== src/Bson/Examples.antt =====
-- The theorems on src/bson.c at a document with three elements, of which two share a key.
use libmongo_client.Base.{
  ℕ, ◌+◌, ◌<◌, ◌≡◌, ◌≢◌, ap, sym, true, false, some, List, [], ◌∷◌, ◌++◌, arith, length,
}
use libmongo_client.Base.Bytes.{le, IsCString}
use libmongo_client.Base.Int.{negsuc, half32}
use libmongo_client.Base.Result.{ok, fails, ◌>>=◌}
use libmongo_client.Bson.Object.{finish}
use libmongo_client.Bson.Element.{
  framed, Value, Element, tag, payload, encode, encode_all, IsElement,
}
use libmongo_client.Bson.Append.{append_int32, append_element_header}
use libmongo_client.Bson.Build.{add_args, add_single, build_full}
use libmongo_client.Bson.Build.Frozen.{add_single-closed}
use libmongo_client.Bson.Build.Appends.{
  closed, document_of, to_arg, open_with, add_single-encode, finish-build_full,
}
use libmongo_client.Bson.Cursor.{get_block_size, cursor_find, cursor_find_next, find}
use libmongo_client.Bson.Cursor.BlockSize.{get_block_size-payload}
use libmongo_client.Bson.Cursor.Search.{IsDocument}
use libmongo_client.Bson.Cursor.Find.{cursor_at, Lacks, find_first, find_missing}
use libmongo_client.Bson.Cursor.FindNext.{cursor_find_next_stays, cursor_find_wraps}
use libmongo_client.Bson.Cursor.Values.{Reads, getters-value}
use libmongo_client.Bson.Cursor.Under.{behind}
use libmongo_client.Bson.Cursor.Next.{fresh, walk, places, walk-fresh}

abbrev a_key : List ℕ
a_key = b'a' ∷ []

abbrev b_key : List ℕ
b_key = b'b' ∷ b'b' ∷ []

abbrev missing_key : List ℕ
missing_key = b'c' ∷ b'c' ∷ b'c' ∷ []

abbrev first : Element
first = record { key = a_key; value = Value.int32 (negsuc 6) }

abbrev second : Element
second = record { key = b_key; value = Value.string (b'h' ∷ b'i' ∷ []) }

abbrev third : Element
third = record { key = a_key; value = Value.boolean 1 }

abbrev all_three : List Element
all_three = first ∷ second ∷ third ∷ []

a_key-IsCString : IsCString a_key
a_key-IsCString = (omega arith, tt)

b_key-IsCString : IsCString b_key
b_key-IsCString = (omega arith, (omega arith, tt))

first-IsElement : IsElement first
first-IsElement = (a_key-IsCString, omega arith)

second-IsElement : IsElement second
second-IsElement = (b_key-IsCString, ((omega arith, (omega arith, tt)), omega arith))

third-IsElement : IsElement third
third-IsElement = (a_key-IsCString, omega arith)

all_three-size : length (encode_all all_three) + 5 < half32
unfolding encode_all encode tag payload le
all_three-size = omega arith

all_three-IsDocument : IsDocument all_three
all_three-IsDocument =
    ((first-IsElement, (second-IsElement, (third-IsElement, tt))), all_three-size)

a_is_not_b : a_key ≢ b_key
a_is_not_b = λ e. absurd (omega (arith, ap length e))

b_is_not_a : b_key ≢ a_key
b_is_not_a = λ e. a_is_not_b (sym e)

missing-Lacks : Lacks missing_key all_three
missing-Lacks = (other, (other_b, (other, tt)))
  where
    other : a_key ≢ missing_key
    other = λ e. absurd (omega (arith, ap length e))

    other_b : b_key ≢ missing_key
    other_b = λ e. absurd (omega (arith, ap length e))

finish-build_full_example :
    (build_full (to_arg false first) (to_arg false second ∷ to_arg false third ∷ []) >>= λ b.
    ok (finish b))
    ≡ ok (some (document_of all_three), true)
finish-build_full_example =
    finish-build_full false first (second ∷ third ∷ [])
      (first-IsElement, (second-IsElement, (third-IsElement, tt)))

add_single-encode_example :
    add_single (some (open_with (7 ∷ []))) (to_arg true second)
    ≡ ok (some (open_with (7 ∷ [] ++ encode second)), true)
add_single-encode_example = add_single-encode (7 ∷ []) true second second-IsElement.1

get_block_size-payload_example :
    get_block_size (tag second.value) (payload second.value ++ 9 ∷ [])
    ≡ ok (length (payload second.value))
get_block_size-payload_example = get_block_size-payload second.value (9 ∷ []) second-IsElement.1

find_first_example :
    find (some (document_of all_three)) (some b_key)
    ≡ ok (cursor_at (first ∷ []) second (third ∷ []))
find_first_example =
    find_first (first ∷ []) (third ∷ []) second all_three-IsDocument (a_is_not_b, tt)

find_missing_example : find (some (document_of all_three)) (some missing_key) ≡ fails
find_missing_example = find_missing all_three missing_key all_three-IsDocument missing-Lacks

cursor_find_next_stays_example :
    cursor_find_next (some (cursor_at [] first (second ∷ third ∷ []))) (some a_key)
    ≡ ok (cursor_at [] first (second ∷ third ∷ []))
cursor_find_next_stays_example =
    cursor_find_next_stays [] (second ∷ third ∷ []) first all_three-IsDocument

cursor_find_wraps_example :
    cursor_find (some (cursor_at (first ∷ second ∷ []) third [])) (some b_key)
    ≡ ok (cursor_at (first ∷ []) second (third ∷ []))
cursor_find_wraps_example =
    cursor_find_wraps (first ∷ []) [] [] third second all_three-IsDocument (a_is_not_b, tt)
      (a_is_not_b, tt)

walk-fresh_example : walk 4 (fresh all_three) ≡ ok (places [] all_three)
walk-fresh_example = walk-fresh all_three all_three-IsDocument

getters-value_example :
    Reads
      (cursor_at (first ∷ []) second (third ∷ []))
      second.value
      (behind (first ∷ []) (third ∷ []) second)
getters-value_example =
    getters-value (first ∷ []) (third ∷ []) b_key second.value all_three-IsDocument

append_to_closed :
    add_single (some (closed (framed []))) (to_arg false first)
    ≡ ok (some (closed (framed [])), true)
unfolding add_single add_args append_int32 append_element_header
append_to_closed = λ i. ok (some (closed (framed [])), true)

add_single-closed_example : some (closed (framed [])) ≡ some (closed (framed []))
add_single-closed_example =
    add_single-closed (framed []) (to_arg false first) (some (closed (framed []))) true
      append_to_closed
