-- ===== src/Bson/Append.antt =====
-- src/bson.c: the element header and the appenders. A key is the bytes of its C string before the
-- terminator; a value that comes with a length is the memory behind its pointer.
use libmongo_client.Base.{
  ℕ, zero, suc, ◌+◌, Bool, true, false, Option, none, some, List, [], ◌∷◌, ◌++◌, length, take?,
  if◌then◌else◌,
}
use libmongo_client.Base.Bytes.{strlen}
use libmongo_client.Base.Int.{ℤ, pos, negsuc, word, half32, half64, is_negative}
use libmongo_client.Base.Result.{Result, ok, fails, access, ◌>>=◌}
use libmongo_client.Bson.Types.{
  type_double, type_string, type_document, type_array, type_binary, type_oid, type_boolean,
  type_utc_datetime, type_null, type_regexp, type_js_code, type_symbol, type_js_code_w_scope,
  type_int32, type_timestamp, type_int64,
}
use libmongo_client.Bson.Object.{
  Bson, append_bytes, append_byte, append_int32_word, append_int64_word, size, contents,
}

-- The object after the call, and the call's result.
abbrev pub Appended : Type 0
Appended = Option Bson × Bool

-- `_bson_append_element_header`
unfoldable pub append_element_header : Option Bson → ℕ → Option (List ℕ) → Appended
unfolding append_bytes append_byte
append_element_header none type name = (none, false)
append_element_header (some b) type none = (some b, false)
append_element_header (some b) type (some name) =
    if b.finished
    then (some b, false)
    else (some (append_bytes (append_byte b type) (name ++ 0 ∷ [])), true)

-- What follows `if (!_bson_append_element_header (…)) return FALSE;`.
abbrev pub after_header : Appended → (Bson → Bson) → Appended
after_header (none, r) f = (none, r)
after_header (some b, false) f = (some b, false)
after_header (some b, true) f = (some (f b), true)

-- The number of bytes that the call copies from `mem`, for a length that may be -1.
unfoldable pub copy_length : List ℕ → ℤ → Result ℕ
copy_length mem (pos n) = ok n
copy_length mem (negsuc zero) = access (strlen mem)
copy_length mem (negsuc (suc n)) = fails

-- An int32 length, that many bytes and a NUL.
unfoldable pub append_text : Bson → List ℕ → Bson
unfolding append_bytes append_byte append_int32_word
append_text b bytes = append_byte (append_bytes (append_int32_word b (length bytes + 1)) bytes) 0

-- `_bson_append_string_element`; a NULL value, the length 0 and lengths below -1 are refused.
unfoldable pub append_string_element :
    Option Bson → ℕ → Option (List ℕ) → Option (List ℕ) → ℤ → Result Appended
unfolding append_element_header append_text copy_length
append_string_element b type name none len = ok (b, false)
append_string_element b type name (some mem) (pos zero) = ok (b, false)
append_string_element b type name (some mem) (negsuc (suc n)) = ok (b, false)
append_string_element b type name (some mem) len = do
  n ← copy_length mem len
  let header = append_element_header b type name
  if header.1
      then (access (take? n mem) >>= λ bytes. ok (after_header header (λ b'. append_text b' bytes)))
      else ok header

-- `_bson_append_document_element`
unfoldable pub append_document_element : Option Bson → ℕ → Option (List ℕ) → Option Bson → Appended
unfolding append_element_header append_bytes
append_document_element b type name doc =
    if is_negative (size doc) then (b, false) else elim (contents doc) [
      | none ↦ (b, false)
      | some bytes ↦ after_header (append_element_header b type name) (λ b'. append_bytes b' bytes)
    ]

-- `_bson_append_int64_element`
unfoldable pub append_int64_element : Option Bson → ℕ → Option (List ℕ) → ℤ → Appended
unfolding append_element_header append_int64_word
append_int64_element b type name i =
    after_header (append_element_header b type name) λ b'. append_int64_word b' (word half64 i)

-- The eight bytes of an IEEE double.
unfoldable pub append_double : Option Bson → Option (List ℕ) → ℕ → Appended
unfolding append_element_header append_int64_word
append_double b name bits =
    after_header (append_element_header b type_double name) λ b'. append_int64_word b' bits

unfoldable pub append_string : Option Bson → Option (List ℕ) → Option (List ℕ) → ℤ → Result Appended
unfolding append_string_element
append_string b name val len = append_string_element b type_string name val len

unfoldable pub append_document : Option Bson → Option (List ℕ) → Option Bson → Appended
unfolding append_document_element
append_document b name doc = append_document_element b type_document name doc

unfoldable pub append_array : Option Bson → Option (List ℕ) → Option Bson → Appended
unfolding append_document_element
append_array b name array = append_document_element b type_array name array

-- NULL data and sizes below 1 are refused.
unfoldable pub append_binary :
    Option Bson → Option (List ℕ) → ℕ → Option (List ℕ) → ℤ → Result Appended
unfolding append_element_header append_bytes append_byte append_int32_word
append_binary b name subtype none n = ok (b, false)
append_binary b name subtype (some mem) (pos zero) = ok (b, false)
append_binary b name subtype (some mem) (negsuc n) = ok (b, false)
append_binary b name subtype (some mem) (pos (suc n)) =
    let header = append_element_header b type_binary name in
    if header.1
    then (access (take? (suc n) mem) >>= λ bytes. ok (
        after_header header
          λ b'. append_bytes (append_byte (append_int32_word b' (suc n)) subtype) bytes))
    else ok header

unfoldable pub append_oid : Option Bson → Option (List ℕ) → Option (List ℕ) → Result Appended
unfolding append_element_header append_bytes
append_oid b name none = ok (b, false)
append_oid b name (some oid) =
    let header = append_element_header b type_oid name in
    if header.1
    then (access (take? 12 oid) >>= λ bytes. ok (after_header header (λ b'. append_bytes b' bytes)))
    else ok header

-- The value is stored as its lowest byte.
unfoldable pub append_boolean : Option Bson → Option (List ℕ) → ℤ → Appended
unfolding append_element_header append_byte
append_boolean b name value =
    after_header (append_element_header b type_boolean name)
      λ b'. append_byte b' (word half32 value)

unfoldable pub append_utc_datetime : Option Bson → Option (List ℕ) → ℤ → Appended
unfolding append_int64_element
append_utc_datetime b name ts = append_int64_element b type_utc_datetime name ts

unfoldable pub append_null : Option Bson → Option (List ℕ) → Appended
unfolding append_element_header
append_null b name = append_element_header b type_null name

unfoldable pub append_regex :
    Option Bson → Option (List ℕ) → Option (List ℕ) → Option (List ℕ) → Appended
unfolding append_element_header append_bytes
append_regex b name none options = (b, false)
append_regex b name (some regexp) none = (b, false)
append_regex b name (some regexp) (some options) =
    after_header (append_element_header b type_regexp name)
      λ b'. append_bytes (append_bytes b' (regexp ++ 0 ∷ [])) (options ++ 0 ∷ [])

unfoldable pub append_javascript :
    Option Bson → Option (List ℕ) → Option (List ℕ) → ℤ → Result Appended
unfolding append_string_element
append_javascript b name js len = append_string_element b type_js_code name js len

unfoldable pub append_symbol : Option Bson → Option (List ℕ) → Option (List ℕ) → ℤ → Result Appended
unfolding append_string_element
append_symbol b name symbol len = append_string_element b type_symbol name symbol len

-- The total size, the code as a text, and the scope; here the length 0 is accepted.
unfoldable pub append_scoped : Bson → List ℕ → List ℕ → ℕ → Bson
unfolding append_bytes append_int32_word append_text
append_scoped b bytes scope scope_size =
    append_bytes (append_text (append_int32_word b (length bytes + 1 + 4 + 4 + scope_size)) bytes)
      scope

unfoldable pub append_javascript_w_scope :
    Option Bson → Option (List ℕ) → Option (List ℕ) → ℤ → Option Bson → Result Appended
unfolding append_element_header append_scoped copy_length
append_javascript_w_scope b name none len scope = ok (b, false)
append_javascript_w_scope b name (some js) (negsuc (suc n)) scope = ok (b, false)
append_javascript_w_scope b name (some js) len scope =
    if is_negative (size scope) then ok (b, false) else elim (contents scope) [
      | none ↦ ok (b, false)
      | some doc ↦
          let header = append_element_header b type_js_code_w_scope name in
          if header.1
          then (copy_length js len >>= λ n. access (take? n js) >>= λ bytes.
              ok (after_header header λ b'. append_scoped b' bytes doc (size scope)))
          else ok header
    ]

unfoldable pub append_int32 : Option Bson → Option (List ℕ) → ℤ → Appended
unfolding append_element_header append_int32_word
append_int32 b name i =
    after_header (append_element_header b type_int32 name)
      λ b'. append_int32_word b' (word half32 i)

unfoldable pub append_timestamp : Option Bson → Option (List ℕ) → ℤ → Appended
unfolding append_int64_element
append_timestamp b name ts = append_int64_element b type_timestamp name ts

unfoldable pub append_int64 : Option Bson → Option (List ℕ) → ℤ → Appended
unfolding append_int64_element
append_int64 b name i = append_int64_element b type_int64 name i
