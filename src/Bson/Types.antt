-- ===== src/Bson/Types.antt =====
-- src/bson.h: the element types and the binary subtypes.
use libmongo_client.Base.{ℕ}

abbrev pub type_none : ℕ
type_none = 0x00

abbrev pub type_double : ℕ
type_double = 0x01

abbrev pub type_string : ℕ
type_string = 0x02

abbrev pub type_document : ℕ
type_document = 0x03

abbrev pub type_array : ℕ
type_array = 0x04

abbrev pub type_binary : ℕ
type_binary = 0x05

abbrev pub type_undefined : ℕ
type_undefined = 0x06

abbrev pub type_oid : ℕ
type_oid = 0x07

abbrev pub type_boolean : ℕ
type_boolean = 0x08

abbrev pub type_utc_datetime : ℕ
type_utc_datetime = 0x09

abbrev pub type_null : ℕ
type_null = 0x0a

abbrev pub type_regexp : ℕ
type_regexp = 0x0b

abbrev pub type_dbpointer : ℕ
type_dbpointer = 0x0c

abbrev pub type_js_code : ℕ
type_js_code = 0x0d

abbrev pub type_symbol : ℕ
type_symbol = 0x0e

abbrev pub type_js_code_w_scope : ℕ
type_js_code_w_scope = 0x0f

abbrev pub type_int32 : ℕ
type_int32 = 0x10

abbrev pub type_timestamp : ℕ
type_timestamp = 0x11

abbrev pub type_int64 : ℕ
type_int64 = 0x12

abbrev pub type_min : ℕ
type_min = 0xff

abbrev pub type_max : ℕ
type_max = 0x7f
