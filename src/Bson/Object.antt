-- ===== src/Bson/Object.antt =====
-- src/bson.c: the object, its creation, its end and its reuse. A `bson *` is an `Option Bson`, a
-- `gboolean` function on it gives the new object and the result.
use libmongo_client.Base.{
  ℕ, ◌-◌, ◌%◌, ◌^◌, Bool, true, false, ◌&&◌, not, Option, none, some, List, [], ◌∷◌, ◌++◌, length,
  overwrite, take?, ◌==◌, ◌||◌, if◌then◌else◌,
}
use libmongo_client.Base.Bytes.{le, read}
use libmongo_client.Base.Int.{ℤ, pos, negsuc}
use libmongo_client.Base.Result.{Result, ok, fails, access, ◌>>=◌}
use libmongo_client.Base.Errno.{Errno, no_error, einval}

-- `data` is the byte array up to its length.
pub record Bson : Type 0 where
  pub data_bytes : List ℕ
  pub finished : Bool

unfoldable pub append_bytes : Bson → List ℕ → Bson
append_bytes b bytes = record b { data_bytes = b.data_bytes ++ bytes }

-- `_bson_append_byte`
unfoldable pub append_byte : Bson → ℕ → Bson
unfolding append_bytes
append_byte b byte = append_bytes b (byte % 256 ∷ [])

-- `_bson_append_int32`: the four lowest bytes of the pattern.
unfoldable pub append_int32_word : Bson → ℕ → Bson
unfolding append_bytes
append_int32_word b i = append_bytes b (le 4 i)

-- `_bson_append_int64`
unfoldable pub append_int64_word : Bson → ℕ → Bson
unfolding append_bytes
append_int64_word b i = append_bytes b (le 8 i)

-- The size only reserves memory.
unfoldable pub new_sized : ℤ → Bson
unfolding append_int32_word
new_sized size = append_int32_word (record { data_bytes = []; finished = false }) 0

unfoldable pub new : Bson
unfolding new_sized
new = new_sized (pos 0)

-- NULL data or a size below 1 give NULL; otherwise `size` bytes are copied.
unfoldable pub new_from_data : Option (List ℕ) → ℤ → Result Bson
new_from_data none size = fails
new_from_data (some mem) (negsuc n) = fails
new_from_data (some mem) (pos n) =
    if n == 0
    then fails
    else (access (take? n mem) >>= λ bytes. ok (record { data_bytes = bytes; finished = false }))

-- The write of the length goes to the first four bytes, as far as the array has them.
unfoldable pub close : Bson → Bson
unfolding append_byte
close b =
    let whole = (append_byte b 0).data_bytes in
    record { data_bytes = overwrite whole (le 4 (length whole)); finished = true }

unfoldable pub finish : Option Bson → Option Bson × Bool
unfolding close
finish none = (none, false)
finish (some b) = if b.finished then (some b, true) else (some (close b), true)

-- -1, as a 32-bit pattern.
abbrev pub minus_one : ℕ
minus_one = 2 ^ 32 - 1

unfoldable pub size : Option Bson → ℕ
size none = minus_one
size (some b) = if b.finished then length b.data_bytes % 2 ^ 32 else minus_one

unfoldable pub contents : Option Bson → Option (List ℕ)
contents none = none
contents (some b) = if b.finished then some b.data_bytes else none

unfoldable pub reset : Option Bson → Option Bson × Bool
unfolding append_int32_word
reset none = (none, false)
reset (some b) = (some (append_int32_word (record { data_bytes = []; finished = false }) 0), true)

-- `strchr (key, c) != NULL`, for a key without its terminator and a `c` other than NUL.
unfoldable pub has_char : ℕ → List ℕ → Bool
has_char c [] = false
has_char c (x ∷ xs) = x == c || has_char c xs

-- `key[0] == c`, where an empty key shows its terminator.
unfoldable pub starts_with_char : ℕ → List ℕ → Bool
starts_with_char c [] = c == 0
starts_with_char c (x ∷ xs) = x == c

unfoldable pub validate_key : Option (List ℕ) → Bool → Bool → Bool × Errno
validate_key none forbid_dots no_dollar = (false, einval)
validate_key (some key) forbid_dots no_dollar = (
  not (no_dollar && starts_with_char b'$' key) && not (forbid_dots && has_char b'.' key),
  no_error,
)

-- `bson_stream_doc_size` at position 0 of `doc`: its first four bytes, as a pattern.
unfoldable pub stream_doc_size : List ℕ → Result ℕ
stream_doc_size doc = access (read 4 doc)
