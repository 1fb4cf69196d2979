-- ===== src/Bson/Cursor.antt =====
-- src/bson.c: cursors. A cursor keeps the object as it is when the cursor is made; `pos` and
-- `value_pos` are 64-bit `size_t` patterns and index the object's bytes, `key` is the index that
-- the key pointer stands at, or none for NULL. A pointer into the bytes is the list from there on.
pub mod BlockSize
pub mod Place
pub mod Search
pub mod Find
pub mod FindNext
pub mod Under
pub mod Next
pub mod Reads
pub mod Values
use libmongo_client.Base.{
  ℕ, zero, suc, ◌+◌, ◌-◌, ◌*◌, ◌%◌, ◌^◌, Bool, true, false, ◌||◌, ◌&&◌, not, Option, none, some,
  List, [], ◌∷◌, length, take?, drop, get_elem?, leb, ltb, ◌==◌, if◌then◌else◌,
}
use libmongo_client.Base.Bytes.{strlen, bytes_eq}
use libmongo_client.Base.Int.{is_negative, slt, widen}
use libmongo_client.Base.Result.{Result, ok, fails, fault, spins, access, non_null, ◌>>=◌}
use libmongo_client.Bson.Types.{
  type_none, type_double, type_string, type_document, type_array, type_binary, type_undefined,
  type_oid, type_boolean, type_utc_datetime, type_null, type_regexp, type_dbpointer, type_js_code,
  type_symbol, type_js_code_w_scope, type_int32, type_timestamp, type_int64, type_min, type_max,
}
use libmongo_client.Bson.Object.{Bson, size, contents, minus_one, stream_doc_size}

pub record Cursor : Type 0 where
  pub obj : Option Bson
  pub key : Option ℕ
  pub pos : ℕ
  pub value_pos : ℕ

-- The memory behind `d + i`; before the first byte and past the last one there is none.
unfoldable pub at : List ℕ → ℕ → Result (List ℕ)
at d i = if leb i (length d) then ok (drop i d) else fault

abbrev pub wrap32 : ℕ → ℕ
wrap32 n = n % 2 ^ 32

abbrev pub wrap64 : ℕ → ℕ
wrap64 n = n % 2 ^ 64

unfoldable pub cursor_new : Option Bson → Result Cursor
cursor_new b =
    if size b == minus_one
    then fails
    else ok (record { obj = b; key = none; pos = 0; value_pos = 0 })

abbrev pub is_text : ℕ → Bool
is_text t = t == type_string || (t == type_js_code || t == type_symbol)

abbrev pub is_sized : ℕ → Bool
is_sized t = t == type_document || (t == type_array || t == type_js_code_w_scope)

abbrev pub is_eight : ℕ → Bool
is_eight t = t == type_utc_datetime || (t == type_timestamp || t == type_int64)

abbrev pub is_empty : ℕ → Bool
is_empty t = t == type_null || (t == type_undefined || (t == type_min || t == type_max))

-- The length of two C strings in a row, with their terminators.
unfoldable pub regexp_size : List ℕ → Result ℕ
regexp_size d = do
  l ← access (strlen d)
  m ← access (strlen (drop (l + 1) d))
  ok (wrap32 (l + m + 2))

-- `_bson_get_block_size`, as a 32-bit pattern.
unfoldable pub get_block_size : ℕ → List ℕ → Result ℕ
get_block_size t d =
    if is_text t
    then (stream_doc_size d >>= λ s. ok (wrap32 (s + 4)))
    else if is_sized t
    then stream_doc_size d
    else if t == type_double
    then ok 8
    else if t == type_binary
    then (stream_doc_size d >>= λ s. ok (wrap32 (s + 4 + 1)))
    else if t == type_oid
    then ok 12
    else if t == type_boolean
    then ok 1
    else if is_eight t
    then ok 8
    else if is_empty t
    then ok 0
    else if t == type_regexp
    then regexp_size d
    else if t == type_int32
    then ok 4
    else if t == type_dbpointer
    then (stream_doc_size d >>= λ s. ok (wrap32 (s + 4 + 12)))
    else ok minus_one

-- `d[i]`
unfoldable pub byte_at : List ℕ → ℕ → Result ℕ
byte_at d i = access (get_elem? d i)

unfoldable pub cursor_type : Option Cursor → Result ℕ
cursor_type none = ok type_none
cursor_type (some c) =
    if ltb c.pos 4 then ok type_none else (access (contents c.obj) >>= λ d. byte_at d c.pos)

-- Where the next element starts, as a 32-bit pattern.
unfoldable pub next_pos : Cursor → List ℕ → Result ℕ
next_pos c d = if c.pos == 0 then ok 4 else do
  t ← cursor_type (some c)
  mem ← at d c.value_pos
  bs ← get_block_size t mem
  if bs == minus_one then fails else ok (wrap32 (c.value_pos + widen bs))

-- The cursor with its fields set for the element at `pos`.
unfoldable pub step_to : Cursor → List ℕ → ℕ → Result Cursor
step_to c d pos = do
  key ← at d (wrap64 (pos + 1))
  len ← access (strlen key)
  ok (record c { key = some (wrap64 (pos + 1)); pos = pos; value_pos = wrap64 (pos + len + 2) })

unfoldable pub cursor_next : Option Cursor → Result Cursor
cursor_next none = fails
cursor_next (some c) = do
  d ← access (contents c.obj)
  pos ← next_pos c d
  if slt pos (wrap32 (size c.obj + 2 ^ 32 - 1)) then step_to c d (widen pos) else fails

-- One round of the search loop: the element at `pos` is the one, or the search goes on behind it.
pub data Round : Type 0 where
  found : (pos value_pos : ℕ) → Round
  onward : (pos : ℕ) → Round

unfoldable pub find_round : List ℕ → List ℕ → ℕ → Result Round
find_round d name pos = do
  t ← byte_at d pos
  key ← at d (wrap64 (pos + 1))
  key_len ← access (strlen key)
  key_bytes ← access (take? key_len key)
  let value_pos = wrap32 (pos + key_len + 2)
  if bytes_eq key_bytes name then ok (found pos (widen value_pos)) else do
    mem ← at d (widen value_pos)
    bs ← get_block_size t mem
    if bs == minus_one then fails else ok (onward (widen (wrap32 (value_pos + bs))))

-- What the `while` loop leaves: the found element, or none at its end.
unfoldable pub find_loop : ℕ → List ℕ → List ℕ → ℕ → ℕ → Result (Option (ℕ × ℕ))
find_loop zero d name pos end_pos = spins
find_loop (suc fuel) d name pos end_pos =
    if ltb pos end_pos
    then elim (find_round d name pos) [
      | ok (found p v) ↦ ok (some (p, v))
      | ok (onward p) ↦ find_loop fuel d name p end_pos
      | fails ↦ fails
      | fault ↦ fault
      | spins ↦ spins
    ]
    else ok none

unfoldable pub set_cursor : Option Bson → ℕ × ℕ → Cursor
set_cursor b (p, v) = record { obj = b; key = some (wrap64 (p + 1)); pos = p; value_pos = v }

-- `*dest_c` and TRUE, or FALSE where the loop found nothing.
unfoldable pub set_found : Option Bson → Option (ℕ × ℕ) → Result Cursor
set_found b none = fails
set_found b (some pv) = ok (set_cursor b pv)

-- The rounds that one pass of the search is given: every element of a document has two bytes at
-- least, so a pass over `d` makes fewer.
abbrev pub fuel_for : List ℕ → ℕ
fuel_for d = suc (length d)

-- `_bson_cursor_find`; its call of itself is the second pass, which does not wrap again.
unfoldable pub find_from : Option Bson → List ℕ → ℕ → ℕ → Bool → Result Cursor
find_from b name start_pos end_pos wrap_over = do
  d ← access (contents b)
  hit ← find_loop (fuel_for d) d name start_pos end_pos
  elim hit [
    | some pv ↦ set_found b (some pv)
    | none ↦
        if wrap_over
        then (find_loop (fuel_for d) d name 4 (wrap32 start_pos) >>= set_found b)
        else fails
  ]

-- `bson_size (b) - 1`, passed on as a `guint32`.
abbrev pub last_pos : Option Bson → ℕ
last_pos b = wrap32 (size b + 2 ^ 32 - 1)

unfoldable pub cursor_find : Option Cursor → Option (List ℕ) → Result Cursor
cursor_find none name = fails
cursor_find (some c) none = fails
cursor_find (some c) (some name) = find_from c.obj name c.pos (last_pos c.obj) true

unfoldable pub cursor_find_next : Option Cursor → Option (List ℕ) → Result Cursor
cursor_find_next none name = fails
cursor_find_next (some c) none = fails
cursor_find_next (some c) (some name) = find_from c.obj name c.pos (last_pos c.obj) false

unfoldable pub find : Option Bson → Option (List ℕ) → Result Cursor
find b none = fails
find b (some name) = do c ← cursor_new b; find_from c.obj name 4 (last_pos b) false

-- The key that the cursor points at, as the memory behind the pointer.
unfoldable pub cursor_key : Option Cursor → Result (List ℕ)
cursor_key none = fails
cursor_key (some c) = do k ← non_null c.key; d ← access (contents c.obj); at d k
