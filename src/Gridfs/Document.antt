-- ===== src/Gridfs/Document.antt =====
-- The documents that GridFS stores for a chunk and asks for.
pub mod Elements
use libmongo_client.Base.{ℕ, ◌+◌, ◌^◌, ◌<◌, ◌≡◌, refl, Option, none, some, List, [], ◌∷◌, ◌++◌}
use libmongo_client.Base.Int.{ℤ, pos, signed, half64}
use libmongo_client.Base.Result.{Result, ok, ◌>>=◌}
use libmongo_client.Bson.Object.{Bson, new_sized, finish}
use libmongo_client.Bson.Append.{append_oid, append_int64, append_binary}

abbrev pub files_id_key : List ℕ
files_id_key = b'f' ∷ b'i' ∷ b'l' ∷ b'e' ∷ b's' ∷ b'_' ∷ b'i' ∷ b'd' ∷ []

abbrev pub n_key : List ℕ
n_key = b'n' ∷ []

abbrev pub data_key : List ℕ
data_key = b'd' ∷ b'a' ∷ b't' ∷ b'a' ∷ []

-- BSON_BINARY_SUBTYPE_GENERIC and BSON_BINARY_SUBTYPE_BINARY
abbrev pub generic : ℕ
generic = 0

abbrev pub old_binary : ℕ
old_binary = 2

-- The document of the chunk `n`, a 64-bit pattern: `size` bytes of `mem`.
unfoldable pub chunk_doc : List ℕ → ℕ → List ℕ → ℕ → Result (Option Bson)
chunk_doc oid n mem size = do
  b ← append_oid (some (new_sized (pos (size + 128)))) (some files_id_key) (some oid)
  let c = append_int64 b.0 (some n_key) (signed half64 n)
  d ← append_binary c.0 (some data_key) generic (some mem) (pos size)
  ok (finish d.0).0

-- The query for the chunk `n`.
unfoldable pub chunk_query : List ℕ → ℕ → Result (Option Bson)
chunk_query oid n = do
  b ← append_oid (some (new_sized (pos 32))) (some files_id_key) (some oid)
  let c = append_int64 b.0 (some n_key) (signed half64 n)
  ok (finish c.0).0
