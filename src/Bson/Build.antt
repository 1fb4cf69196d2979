-- ===== src/Bson/Build.antt =====
-- src/bson.c: `bson_build` and `bson_build_full` over their argument lists. The list of arguments
-- ends where the C list has BSON_TYPE_NONE; a result NULL is `fails`.
pub mod Appends
pub mod Frozen
pub mod Single
use libmongo_client.Base.{
  ℕ, Bool, true, false, ◌&&◌, Option, none, some, List, [], ◌∷◌, map, if◌then◌else◌,
}
use libmongo_client.Base.Int.{ℤ, is_negative}
use libmongo_client.Base.Result.{Result, ok, fails, ◌>>=◌}
use libmongo_client.Bson.Object.{Bson, new, size, finish}
use libmongo_client.Bson.Append.{
  Appended, append_double, append_string, append_document, append_array, append_binary, append_oid,
  append_boolean, append_utc_datetime, append_null, append_regex, append_javascript, append_symbol,
  append_javascript_w_scope, append_int32, append_timestamp, append_int64,
}

-- The arguments behind a type and a name. `unsupported` is any type with no arguments of its own.
pub data Args : Type 0 where
  unsupported : ℕ → Args
  double : ℕ → Args
  string : Option (List ℕ) → ℤ → Args
  document : Option Bson → Args
  array : Option Bson → Args
  binary : ℕ → Option (List ℕ) → ℤ → Args
  oid : Option (List ℕ) → Args
  boolean : ℤ → Args
  utc_datetime : ℤ → Args
  null : Args
  regexp : Option (List ℕ) → Option (List ℕ) → Args
  js_code : Option (List ℕ) → ℤ → Args
  symbol : Option (List ℕ) → ℤ → Args
  js_code_w_scope : Option (List ℕ) → ℤ → Option Bson → Args
  int32 : ℤ → Args
  timestamp : ℤ → Args
  int64 : ℤ → Args

pub record Arg : Type 0 where
  pub name : Option (List ℕ)
  pub free_after : Bool
  pub args : Args

-- A nested document is finished first if it is freed after.
unfoldable pub ready : Bool → Option Bson → Option Bson
unfolding size finish
ready free_after d = if free_after && is_negative (size d) then (finish d).0 else d

-- `_bson_build_add_single`: the object and `single_result`. What the appender returns is dropped.
unfoldable pub add_args : Option Bson → Option (List ℕ) → Bool → Args → Result Appended
unfolding ready append_double append_string append_document append_array append_binary append_oid
    append_boolean append_utc_datetime append_null append_regex append_javascript append_symbol
    append_javascript_w_scope append_int32 append_timestamp append_int64
add_args b name f (unsupported t) = ok (b, false)
add_args b name f (double d) = ok ((append_double b name d).0, true)
add_args b name f (string s l) = append_string b name s l >>= λ r. ok (r.0, true)
add_args b name f (document d) = ok ((append_document b name (ready f d)).0, true)
add_args b name f (array d) = ok ((append_array b name (ready f d)).0, true)
add_args b name f (binary s d l) = append_binary b name s d l >>= λ r. ok (r.0, true)
add_args b name f (oid o) = append_oid b name o >>= λ r. ok (r.0, true)
add_args b name f (boolean v) = ok ((append_boolean b name v).0, true)
add_args b name f (utc_datetime t) = ok ((append_utc_datetime b name t).0, true)
add_args b name f null = ok ((append_null b name).0, true)
add_args b name f (regexp r o) = ok ((append_regex b name r o).0, true)
add_args b name f (js_code s l) = append_javascript b name s l >>= λ r. ok (r.0, true)
add_args b name f (symbol s l) = append_symbol b name s l >>= λ r. ok (r.0, true)
add_args b name f (js_code_w_scope s l d) =
    append_javascript_w_scope b name s l (ready f d) >>= λ r. ok (r.0, true)
add_args b name f (int32 i) = ok ((append_int32 b name i).0, true)
add_args b name f (timestamp t) = ok ((append_timestamp b name t).0, true)
add_args b name f (int64 i) = ok ((append_int64 b name i).0, true)

unfoldable pub add_single : Option Bson → Arg → Result Appended
unfolding add_args
add_single b a = add_args b a.name a.free_after a.args

-- The loop over the arguments; it frees the object and gives up at an unsupported type.
unfoldable pub add_all : Option Bson → List Arg → Result (Option Bson)
unfolding add_single
add_all b [] = ok b
add_all b (a ∷ rest) = add_single b a >>= λ r. if r.1 then add_all r.0 rest else fails

unfoldable pub build_full : Arg → List Arg → Result (Option Bson)
unfolding add_all new
build_full a rest = add_all (some new) (a ∷ rest)

-- `bson_build` frees nothing.
unfoldable pub build : Arg → List Arg → Result (Option Bson)
unfolding build_full
build a rest =
    build_full (record a { free_after = false })
      (map (λ (x : Arg). record x { free_after = false }) rest)
