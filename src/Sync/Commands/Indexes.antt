-- ===== src/Sync/Commands/Indexes.antt =====
-- src/mongo-sync.c: indexes of a collection. The connection is not NULL. `decimal` is GLib's printing
-- of a gint64, and `to_int64` the conversion of a double, a pattern, to one.
use libmongo_client.Base.{
  ℕ, zero, suc, ◌+◌, ◌==◌, Bool, false, Option, none, some, List, [], ◌∷◌, ◌++◌, length, drop,
  if◌then◌else◌,
}
use libmongo_client.Base.Int.{ℤ, pos, negsuc}
use libmongo_client.Base.Errno.{Errno, einval, enotsup}
use libmongo_client.Base.Result.{Result, ok, fails, ◌>>=◌}
use libmongo_client.Base.Run.{Run, stops, crashes, loops}
use libmongo_client.Bson.Types.{type_boolean, type_int32, type_int64, type_double}
use libmongo_client.Bson.Object.{Bson, new_sized, finish}
use libmongo_client.Bson.Append.{append_document, append_string}
use libmongo_client.Bson.Cursor.{Cursor, cursor_new, cursor_next, cursor_type, cursor_key}
use libmongo_client.Bson.Get.{get_boolean, get_int32, get_int64, get_double}
use libmongo_client.Util.Address.{split_first}
use libmongo_client.Client.{Net}
use libmongo_client.Sync.Connection.{SyncConn}
use libmongo_client.Sync.Reply.{strdup, has_flag}
use libmongo_client.Sync.Send.{custom}
use libmongo_client.Sync.Insert.{cmd_insert_n}
use libmongo_client.Sync.Commands.Collections.{add_text, flag_element, key_name, done}

abbrev pub key_key : List ℕ
key_key = b'k' ∷ b'e' ∷ b'y' ∷ []

abbrev pub key_ns : List ℕ
key_ns = b'n' ∷ b's' ∷ []

abbrev pub key_unique : List ℕ
key_unique = b'u' ∷ b'n' ∷ b'i' ∷ b'q' ∷ b'u' ∷ b'e' ∷ []

abbrev pub key_drop_dups : List ℕ
key_drop_dups = b'd' ∷ b'r' ∷ b'o' ∷ b'p' ∷ b'D' ∷ b'u' ∷ b'p' ∷ b's' ∷ []

abbrev pub key_background : List ℕ
key_background = b'b' ∷ b'a' ∷ b'c' ∷ b'k' ∷ b'g' ∷ b'r' ∷ b'o' ∷ b'u' ∷ b'n' ∷ b'd' ∷ []

abbrev pub key_sparse : List ℕ
key_sparse = b's' ∷ b'p' ∷ b'a' ∷ b'r' ∷ b's' ∷ b'e' ∷ []

abbrev pub key_delete_indexes : List ℕ
key_delete_indexes =
    b'd' ∷ b'e' ∷ b'l' ∷ b'e' ∷ b't' ∷ b'e' ∷ b'I' ∷ b'n' ∷ b'd' ∷ b'e' ∷ b'x' ∷ b'e' ∷ b's' ∷ []

abbrev pub index_field : List ℕ
index_field = b'i' ∷ b'n' ∷ b'd' ∷ b'e' ∷ b'x' ∷ []

-- ".system.indexes"
abbrev pub indexes_suffix : List ℕ
indexes_suffix =
    b'.' ∷ b's' ∷ b'y' ∷ b's' ∷ b't' ∷ b'e' ∷ b'm' ∷ b'.' ∷ b'i' ∷ b'n' ∷ b'd' ∷ b'e' ∷ b'x' ∷ b'e'
    ∷ b's' ∷ []

module _ (decimal : ℤ → List ℕ) (to_int64 : ℕ → ℤ) where
  -- The number at the cursor; none for another type of value.
  unfoldable pub key_number : Cursor → Result (Option ℤ)
  key_number c = do
    t ← cursor_type (some c)
    if t == type_boolean
        then (get_boolean (some c) >>= λ v. ok (some (pos v)))
        else if t == type_int32
        then (get_int32 (some c) >>= λ v. ok (some v))
        else if t == type_int64
        then (get_int64 (some c) >>= λ v. ok (some v))
        else if t == type_double
        then (get_double (some c) >>= λ d. ok (some (to_int64 d)))
        else ok none

  -- `if (v != 0) g_string_append_printf (name, "%" G_GINT64_FORMAT "_", v);`
  unfoldable pub number_part : ℤ → List ℕ
  number_part (pos zero) = []
  number_part (pos (suc n)) = decimal (pos (suc n)) ++ b'_' ∷ []
  number_part (negsuc n) = decimal (negsuc n) ++ b'_' ∷ []

  -- The rounds of the loop, on fuel; none where the function returns NULL.
  unfoldable pub name_parts : ℕ → Cursor → Result (Option (List ℕ))
  unfolding key_number number_part
  name_parts zero c = Result.spins
  name_parts (suc n) c = elim (cursor_next (some c)) [
    | fails ↦ ok (some [])
    | Result.fault ↦ Result.fault
    | Result.spins ↦ Result.spins
    | ok c' ↦
        (cursor_key (some c') >>= λ mem. strdup mem >>= λ key. key_number c' >>= λ v. elim v [
          | none ↦ ok none
          | some i ↦
              (name_parts n c' >>= λ rest. elim rest [
                | none ↦ ok none
                | some parts ↦ ok (some (key ++ (b'_' ∷ (number_part i ++ parts))))
              ])
        ])
  ]

  -- `_mongo_index_gen_name`. An element takes two bytes or more, so these rounds are enough for a
  -- well formed key.
  unfoldable pub gen_name : Bson → Result (Option (List ℕ))
  unfolding name_parts
  gen_name key = elim (cursor_new (some key)) [
    | fails ↦ ok (some (b'_' ∷ []))
    | Result.fault ↦ Result.fault
    | Result.spins ↦ Result.spins
    | ok c ↦
        (name_parts (length key.data_bytes + 2) c >>= λ parts. elim parts [
          | none ↦ ok none
          | some p ↦ ok (some (b'_' ∷ p))
        ])
  ]

-- The document of the index.
unfoldable pub index_document : Bson → List ℕ → List ℕ → ℕ → Result (Option Bson)
index_document key ns name options = do
  let b0 = (append_document (some (new_sized (pos 128))) (some key_key) (some key)).0
  b1 ← add_text key_ns (some ns) b0
  r ← append_string b1 (some key_name) (some (name ++ 0 ∷ [])) (pos (length name))
  let b2 = flag_element (has_flag options 1) key_unique r.0
  let b3 = flag_element (has_flag options 2) key_drop_dups b2
  let b4 = flag_element (has_flag options 4) key_background b3
  ok (finish (flag_element (has_flag options 8) key_sparse b4)).0

unfoldable pub drop_document : List ℕ → List ℕ → Result (Option Bson)
drop_document coll name = do
  b0 ← add_text key_delete_indexes (some coll) (some (new_sized (pos 256)))
  b1 ← add_text index_field (some name) b0
  ok (finish b1).0

module _ {W : Type 0} (net : Net W) (junk : ℕ) (strerror : Errno → List ℕ)
    (reconnect : Bool → SyncConn → W → Run (SyncConn × W) (Unit {0})) (decimal : ℤ → List ℕ)
    (to_int64 : ℕ → ℤ) where
  -- Behind the tests of the arguments, with the part of the namespace before its first dot.
  unfoldable pub create_named :
      List ℕ → List ℕ → Bson → ℕ → SyncConn → W → Run (SyncConn × W) (Unit {0})
  unfolding gen_name index_document
  create_named db ns key options c w = elim (gen_name decimal to_int64 key) [
    | fails ↦ crashes
    | Result.fault ↦ crashes
    | Result.spins ↦ loops
    | ok name ↦ elim name [
      | none ↦ stops enotsup (c, w)
      | some s ↦ elim (index_document key ns s options) [
        | ok cmd ↦
            cmd_insert_n net junk strerror reconnect (some (db ++ indexes_suffix)) (pos 1)
              (some (cmd ∷ [])) c w
        | fails ↦ crashes
        | Result.fault ↦ crashes
        | Result.spins ↦ loops
      ]
    ]
  ]

  unfoldable pub cmd_index_create :
      Option (List ℕ) → Option Bson → ℕ → SyncConn → W → Run (SyncConn × W) (Unit {0})
  unfolding create_named
  cmd_index_create none key options c w = stops einval (c, w)
  cmd_index_create (some ns) none options c w = stops einval (c, w)
  cmd_index_create (some ns) (some key) options c w = elim (split_first b'.' ns) [
    | none ↦ stops einval (c, w)
    | some (db, rest) ↦ create_named db ns key options c w
  ]

  -- `_mongo_sync_cmd_index_drop`, whose name is not NULL.
  unfoldable pub index_drop_named :
      Option (List ℕ) → List ℕ → SyncConn → W → Run (SyncConn × W) (Unit {0})
  unfolding drop_document
  index_drop_named none name c w = stops einval (c, w)
  index_drop_named (some full_ns) name c w = elim (split_first b'.' full_ns) [
    | none ↦ stops einval (c, w)
    | some (db, from) ↦ elim (drop_document (drop 1 from) name) [
      | ok cmd ↦ done net junk reconnect (custom net junk reconnect false (some db) cmd c w)
      | fails ↦ crashes
      | Result.fault ↦ crashes
      | Result.spins ↦ loops
    ]
  ]

  -- The name of the key is taken apart without a test for NULL.
  unfoldable pub cmd_index_drop :
      Option (List ℕ) → Option Bson → SyncConn → W → Run (SyncConn × W) (Unit {0})
  unfolding gen_name index_drop_named
  cmd_index_drop ns none c w = stops einval (c, w)
  cmd_index_drop ns (some key) c w = elim (gen_name decimal to_int64 key) [
    | fails ↦ crashes
    | Result.fault ↦ crashes
    | Result.spins ↦ loops
    | ok name ↦ elim name [ none ↦ crashes | some s ↦ index_drop_named ns s c w ]
  ]

  unfoldable pub cmd_index_drop_all : Option (List ℕ) → SyncConn → W → Run (SyncConn × W) (Unit {0})
  unfolding index_drop_named
  cmd_index_drop_all ns c w = index_drop_named ns (b'*' ∷ []) c w
