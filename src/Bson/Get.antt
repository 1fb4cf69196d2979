-- ===== src/Bson/Get.antt =====
-- src/bson.c: the getters of a cursor. Each refuses another type than its own (the macro
-- BSON_CURSOR_CHECK_TYPE); a NULL destination is not modelled. A result that is a pointer into the
-- object is the memory from there on.
use libmongo_client.Base.{ℕ, ◌+◌, ◌-◌, ◌^◌, Option, none, some, List, take?, drop, ◌==◌}
use libmongo_client.Base.Bytes.{strlen, read}
use libmongo_client.Base.Int.{ℤ, pos, signed, half32, half64, widen}
use libmongo_client.Base.Result.{Result, ok, fails, access, require, ◌>>=◌, ◌>>◌}
use libmongo_client.Bson.Types.{
  type_double, type_string, type_document, type_array, type_binary, type_oid, type_boolean,
  type_utc_datetime, type_regexp, type_js_code, type_symbol, type_js_code_w_scope, type_int32,
  type_timestamp, type_int64,
}
use libmongo_client.Bson.Object.{Bson, append_bytes, new_sized, close, contents, stream_doc_size}
use libmongo_client.Bson.Cursor.{Cursor, at, wrap32, wrap64, cursor_type}

-- The memory at `bson_data (c->obj) + c->value_pos`, once the type is checked.
unfoldable pub value_of_type : Option Cursor → ℕ → Result (List ℕ)
value_of_type none type = fails
value_of_type (some c) type = do
  t ← cursor_type (some c)
  require (t == type)
  d ← access (contents c.obj)
  at d c.value_pos

unfoldable pub get_string : Option Cursor → Result (List ℕ)
get_string c = do v ← value_of_type c type_string; at v 4

-- The 64-bit pattern of the double.
unfoldable pub get_double : Option Cursor → Result ℕ
get_double c = do v ← value_of_type c type_double; access (read 8 v)

-- The copy of a nested document: `size` bytes behind its length field, finished anew.
unfoldable pub copy_document : List ℕ → Result Bson
copy_document v = do
  s ← stream_doc_size v
  inner ← at v 4
  bytes ← access (take? (wrap32 (s + 2 ^ 32 - 4 - 1)) inner)
  ok (close (append_bytes (new_sized (pos 0)) bytes))

unfoldable pub get_document : Option Cursor → Result Bson
get_document c = do v ← value_of_type c type_document; copy_document v

unfoldable pub get_array : Option Cursor → Result Bson
get_array c = do v ← value_of_type c type_array; copy_document v

-- The subtype, the memory behind the data pointer, and the size as a 32-bit pattern.
unfoldable pub get_binary : Option Cursor → Result (ℕ × List ℕ × ℕ)
get_binary c = do
  v ← value_of_type c type_binary
  s ← stream_doc_size v
  sub ← access (read 1 (drop 4 v))
  d ← at v (4 + 1)
  ok (sub, d, s)

unfoldable pub get_oid : Option Cursor → Result (List ℕ)
get_oid c = value_of_type c type_oid

unfoldable pub get_boolean : Option Cursor → Result ℕ
get_boolean c = do v ← value_of_type c type_boolean; access (read 1 v)

unfoldable pub get_utc_datetime : Option Cursor → Result ℤ
get_utc_datetime c = do
  v ← value_of_type c type_utc_datetime
  w ← access (read 8 v)
  ok (signed half64 w)

unfoldable pub get_regex : Option Cursor → Result (List ℕ × List ℕ)
get_regex c = do r ← value_of_type c type_regexp; l ← access (strlen r); o ← at r (l + 1); ok (r, o)

unfoldable pub get_javascript : Option Cursor → Result (List ℕ)
get_javascript c = do v ← value_of_type c type_js_code; at v 4

unfoldable pub get_symbol : Option Cursor → Result (List ℕ)
get_symbol c = do v ← value_of_type c type_symbol; at v 4

-- `docpos` is a `gint32`, so it is widened when it is added to the position of the value.
unfoldable pub get_javascript_w_scope : Option Cursor → Result (List ℕ × Bson)
get_javascript_w_scope none = fails
get_javascript_w_scope (some c) = do
  v ← value_of_type (some c) type_js_code_w_scope
  d ← access (contents c.obj)
  code ← at v 4
  s ← stream_doc_size code
  doc ← at d (wrap64 (c.value_pos + widen (wrap32 (s + 4 + 4))))
  scope ← copy_document doc
  js ← at v (4 + 4)
  ok (js, scope)

unfoldable pub get_int32 : Option Cursor → Result ℤ
get_int32 c = do v ← value_of_type c type_int32; w ← access (read 4 v); ok (signed half32 w)

unfoldable pub get_timestamp : Option Cursor → Result ℤ
get_timestamp c = do v ← value_of_type c type_timestamp; w ← access (read 8 v); ok (signed half64 w)

unfoldable pub get_int64 : Option Cursor → Result ℤ
get_int64 c = do v ← value_of_type c type_int64; w ← access (read 8 v); ok (signed half64 w)
