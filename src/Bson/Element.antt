-- ===== src/Bson/Element.antt =====
-- An independent description of the BSON format: the values that src/bson.c can append, their
-- bytes, and a document as the list of its elements.
use libmongo_client.Base.{ℕ, ◌+◌, ◌^◌, ◌<◌, ◌≡◌, List, [], ◌∷◌, ◌++◌, length}
use libmongo_client.Base.Bytes.{le, IsCString}
use libmongo_client.Base.Int.{ℤ, word, Fits, half32, half64}
use libmongo_client.Bson.Types.{
  type_double, type_string, type_document, type_array, type_binary, type_oid, type_boolean,
  type_utc_datetime, type_null, type_regexp, type_js_code, type_symbol, type_js_code_w_scope,
  type_int32, type_timestamp, type_int64,
}

-- Nested documents stand as their bytes.
pub data Value : Type 0 where
  double : ℕ → Value
  string : List ℕ → Value
  document : List ℕ → Value
  array : List ℕ → Value
  binary : ℕ → List ℕ → Value
  oid : List ℕ → Value
  boolean : ℕ → Value
  utc_datetime : ℤ → Value
  null : Value
  regexp : List ℕ → List ℕ → Value
  js_code : List ℕ → Value
  symbol : List ℕ → Value
  js_code_w_scope : List ℕ → List ℕ → Value
  int32 : ℤ → Value
  timestamp : ℤ → Value
  int64 : ℤ → Value

unfoldable pub tag : Value → ℕ
tag (double d) = type_double
tag (string s) = type_string
tag (document d) = type_document
tag (array d) = type_array
tag (binary t d) = type_binary
tag (oid o) = type_oid
tag (boolean b) = type_boolean
tag (utc_datetime t) = type_utc_datetime
tag null = type_null
tag (regexp r o) = type_regexp
tag (js_code s) = type_js_code
tag (symbol s) = type_symbol
tag (js_code_w_scope s d) = type_js_code_w_scope
tag (int32 i) = type_int32
tag (timestamp t) = type_timestamp
tag (int64 i) = type_int64

-- A counted text: its length with the terminator, its bytes, the terminator.
abbrev pub text : List ℕ → List ℕ
text s = le 4 (length s + 1) ++ (s ++ 0 ∷ [])

unfoldable pub payload : Value → List ℕ
payload (double d) = le 8 d
payload (string s) = text s
payload (document d) = d
payload (array d) = d
payload (binary t d) = le 4 (length d) ++ t ∷ d
payload (oid o) = o
payload (boolean b) = b ∷ []
payload (utc_datetime t) = le 8 (word half64 t)
payload null = []
payload (regexp r o) = (r ++ 0 ∷ []) ++ (o ++ 0 ∷ [])
payload (js_code s) = text s
payload (symbol s) = text s
payload (js_code_w_scope s d) = le 4 (length s + 1 + 4 + 4 + length d) ++ (text s ++ d)
payload (int32 i) = le 4 (word half32 i)
payload (timestamp t) = le 8 (word half64 t)
payload (int64 i) = le 8 (word half64 i)

-- A whole document: its own length, the elements' bytes, a NUL.
abbrev pub framed : List ℕ → List ℕ
framed body = le 4 (length body + 5) ++ (body ++ 0 ∷ [])

abbrev pub IsFramed : List ℕ → Type 0
IsFramed d = (body : List ℕ) × (d ≡ framed body) × (length body + 5 < half32)

-- What the format asks of a value, with the sizes kept inside a signed 32-bit integer.
abbrev pub IsValue : Value → Type 0
IsValue (double d) = d < 2 ^ 64
IsValue (string s) = IsCString s × (length s + 5 < half32)
IsValue (document d) = IsFramed d
IsValue (array d) = IsFramed d
IsValue (binary t d) = (t < 256) × (0 < length d) × (length d + 5 < half32)
IsValue (oid o) = length o ≡ 12
IsValue (boolean b) = b < 256
IsValue (utc_datetime t) = Fits half64 t
IsValue null = Unit {0}
IsValue (regexp r o) = IsCString r × IsCString o × (length r + length o + 2 < half32)
IsValue (js_code s) = IsCString s × (length s + 5 < half32)
IsValue (symbol s) = IsCString s × (length s + 5 < half32)
IsValue (js_code_w_scope s d) = IsCString s × IsFramed d × (length s + 9 + length d < half32)
IsValue (int32 i) = Fits half32 i
IsValue (timestamp t) = Fits half64 t
IsValue (int64 i) = Fits half64 i

pub record Element : Type 0 where
  pub key : List ℕ
  pub value : Value

abbrev pub IsElement : Element → Type 0
IsElement e = IsCString e.key × IsValue e.value

unfoldable pub encode : Element → List ℕ
encode e = tag e.value ∷ (e.key ++ 0 ∷ payload e.value)

unfoldable pub encode_all : List Element → List ℕ
encode_all [] = []
encode_all (e ∷ es) = encode e ++ encode_all es
