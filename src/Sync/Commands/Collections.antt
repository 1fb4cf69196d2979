-- ===== src/Sync/Commands/Collections.antt =====
-- src/mongo-sync.c: counting, creating, looking up and dropping a collection. The connection is not
-- NULL. Names of databases and collections are the bytes of the C strings.
use libmongo_client.Base.{
  ℕ, zero, suc, ◌+◌, ◌%◌, ◌^◌, ◌==◌, Bool, true, false, not, ◌||◌, Option, none, some, List, [],
  ◌∷◌, ◌++◌, if◌then◌else◌,
}
use libmongo_client.Base.Int.{ℤ, pos, negsuc, signed, half32}
use libmongo_client.Base.Errno.{einval, erange, enoent}
use libmongo_client.Base.Result.{Result, ok, fails, ◌>>=◌}
use libmongo_client.Base.Call.{Call, returns, errs}
use libmongo_client.Base.Run.{Run, gives, stops, crashes, loops}
use libmongo_client.Bson.Object.{Bson, size, new_sized, finish}
use libmongo_client.Bson.Append.{append_string, append_document, append_boolean, append_int64}
use libmongo_client.Bson.Cursor.{find}
use libmongo_client.Bson.Get.{get_double}
use libmongo_client.Wire.Packet.{Packet}
use libmongo_client.Wire.Commands
use libmongo_client.Client.{Net}
use libmongo_client.Sync.Connection.{SyncConn}
use libmongo_client.Sync.Reply.{has_flag, flag_query_fail}
use libmongo_client.Sync.Master.{next_id, slave_flag, first_document}
use libmongo_client.Sync.Send.{custom}
use libmongo_client.Sync.Commands.{send_built, take_reply}

abbrev pub key_count : List ℕ
key_count = b'c' ∷ b'o' ∷ b'u' ∷ b'n' ∷ b't' ∷ []

abbrev pub key_query : List ℕ
key_query = b'q' ∷ b'u' ∷ b'e' ∷ b'r' ∷ b'y' ∷ []

abbrev pub key_n : List ℕ
key_n = b'n' ∷ []

abbrev pub key_create : List ℕ
key_create = b'c' ∷ b'r' ∷ b'e' ∷ b'a' ∷ b't' ∷ b'e' ∷ []

abbrev pub key_auto_index : List ℕ
key_auto_index = b'a' ∷ b'u' ∷ b't' ∷ b'o' ∷ b'I' ∷ b'n' ∷ b'd' ∷ b'e' ∷ b'x' ∷ b'I' ∷ b'd' ∷ []

abbrev pub key_capped : List ℕ
key_capped = b'c' ∷ b'a' ∷ b'p' ∷ b'p' ∷ b'e' ∷ b'd' ∷ []

abbrev pub key_size : List ℕ
key_size = b's' ∷ b'i' ∷ b'z' ∷ b'e' ∷ []

abbrev pub key_max : List ℕ
key_max = b'm' ∷ b'a' ∷ b'x' ∷ []

abbrev pub key_name : List ℕ
key_name = b'n' ∷ b'a' ∷ b'm' ∷ b'e' ∷ []

abbrev pub key_drop : List ℕ
key_drop = b'd' ∷ b'r' ∷ b'o' ∷ b'p' ∷ []

-- ".system.namespaces"
abbrev pub namespaces_suffix : List ℕ
namespaces_suffix =
    b'.' ∷ b's' ∷ b'y' ∷ b's' ∷ b't' ∷ b'e' ∷ b'm' ∷ b'.' ∷ b'n' ∷ b'a' ∷ b'm' ∷ b'e' ∷ b's' ∷ b'p'
    ∷ b'a' ∷ b'c' ∷ b'e' ∷ b's' ∷ []

-- MONGO_COLLECTION_CAPPED, MONGO_COLLECTION_CAPPED_MAX, MONGO_COLLECTION_AUTO_INDEX_ID and
-- MONGO_COLLECTION_SIZED
abbrev pub collection_capped : ℕ
collection_capped = 1

abbrev pub collection_capped_max : ℕ
collection_capped_max = 2

abbrev pub collection_auto_index_id : ℕ
collection_auto_index_id = 4

abbrev pub collection_sized : ℕ
collection_sized = 8

-- `bson_append_string (b, name, s, -1)` and what it leaves; the string may be NULL.
unfoldable pub add_text : List ℕ → Option (List ℕ) → Option Bson → Result (Option Bson)
add_text name none b = append_string b (some name) none (negsuc 0) >>= λ r. ok r.0
add_text name (some s) b =
    append_string b (some name) (some (s ++ 0 ∷ [])) (negsuc 0) >>= λ r. ok r.0

-- A command of one string.
unfoldable pub text_command : ℤ → List ℕ → Option (List ℕ) → Result (Option Bson)
unfolding add_text
text_command n name s = add_text name s (some (new_sized n)) >>= λ b. ok (finish b).0

unfoldable pub count_command : Option (List ℕ) → Option Bson → Result (Option Bson)
unfolding add_text
count_command coll query =
    add_text key_count coll (some (new_sized (signed half32 ((size query + 32) % 2 ^ 32)))) >>= λ b.
    ok (elim query [
      | none ↦ (finish b).0
      | some q ↦ (finish (append_document b (some key_query) (some q)).0).0
    ])

-- The number under "n", a double as its pattern. A search that does not end counts as a fault.
unfoldable pub read_count : Option Bson → Call ℕ
read_count b = elim (find b (some key_n)) [
  | fails ↦ errs enoent
  | Result.fault ↦ Call.fault
  | Result.spins ↦ Call.fault
  | ok c ↦ elim (get_double (some c)) [
    | fails ↦ errs einval
    | Result.fault ↦ Call.fault
    | Result.spins ↦ Call.fault
    | ok d ↦ returns d
  ]
]

abbrev pub flag_element : Bool → List ℕ → Option Bson → Option Bson
flag_element true name b = (append_boolean b (some name) (pos 1)).0
flag_element false name b = b

-- The sizes of a capped collection, from the arguments behind the flags; what is not positive is
-- refused, and an argument that is missing is read from nowhere.
unfoldable pub add_max : ℕ → List ℤ → Option Bson → Call (Option Bson)
add_max flags rest b =
    if has_flag flags collection_capped_max
    then (elim rest [
      | [] ↦ Call.fault
      | i ∷ more ↦ elim i [
        | negsuc n ↦ errs erange
        | pos n ↦ if n == 0 then errs erange else returns (append_int64 b (some key_max) (pos n)).0
      ]
    ])
    else returns b

unfoldable pub add_sizes : ℕ → List ℤ → Option Bson → Call (Option Bson)
unfolding add_max
add_sizes flags [] b = Call.fault
add_sizes flags (negsuc n ∷ rest) b = errs erange
add_sizes flags (pos zero ∷ rest) b = errs erange
add_sizes flags (pos (suc n) ∷ rest) b =
    add_max flags rest (append_int64 b (some key_size) (pos (suc n))).0

abbrev pub is_capped : ℕ → Bool
is_capped flags = has_flag flags collection_capped || has_flag flags collection_capped_max

-- The elements behind the name, and the end of the command.
unfoldable pub create_options : ℕ → List ℤ → Option Bson → Call (Option Bson)
unfolding add_sizes
create_options flags args b =
    let indexed = flag_element (has_flag flags collection_auto_index_id) key_auto_index b in
    if is_capped flags || has_flag flags collection_sized
    then (elim (add_sizes flags args (flag_element (is_capped flags) key_capped indexed)) [
      | returns b' ↦ returns (finish b').0
      | errs e ↦ errs e
      | Call.fault ↦ Call.fault
    ])
    else returns (finish indexed).0

module _ {W : Type 0} (net : Net W) (junk : ℕ)
    (reconnect : Bool → SyncConn → W → Run (SyncConn × W) (Unit {0})) where
  -- `_mongo_sync_cmd_custom` with `check_conn` TRUE on a command whose building may crash.
  unfoldable pub run_command :
      Bool → Option (List ℕ) → Result (Option Bson) → SyncConn → W → Run (SyncConn × W) Packet
  run_command force db (ok cmd) c w = custom net junk reconnect force db cmd c w
  run_command force db fails c w = crashes
  run_command force db Result.fault c w = crashes
  run_command force db Result.spins c w = loops

  -- It gives the pattern of the double; where it stops it returned -1.
  unfoldable pub cmd_count :
      Option (List ℕ) → Option (List ℕ) → Option Bson → SyncConn → W → Run (SyncConn × W) ℕ
  unfolding run_command count_command read_count first_document
  cmd_count db coll query c w = elim (run_command false db (count_command coll query) c w) [
    | stops e s ↦ stops e s
    | crashes ↦ crashes
    | loops ↦ loops
    | gives p (c1, w1) ↦ elim (first_document net junk p c1 w1) [
      | stops e s ↦ stops e s
      | crashes ↦ crashes
      | loops ↦ loops
      | gives b s ↦ elim (read_count b) [
        | returns d ↦ gives d s
        | errs e ↦ stops e s
        | Call.fault ↦ crashes
      ]
    ]
  ]

  -- The packet of the reply is freed: TRUE.
  abbrev pub done : Run (SyncConn × W) Packet → Run (SyncConn × W) (Unit {0})
  done (gives p s) = gives tt s
  done (stops e s) = stops e s
  done crashes = crashes
  done loops = loops

  -- `args` are the sizes behind the flags.
  unfoldable pub cmd_create :
      Option (List ℕ) → Option (List ℕ) → ℕ → List ℤ → SyncConn → W → Run (SyncConn × W) (Unit {0})
  unfolding create_options add_text
  cmd_create none coll flags args c w = stops einval (c, w)
  cmd_create (some db) none flags args c w = stops einval (c, w)
  cmd_create (some db) (some coll) flags args c w =
      elim (add_text key_create (some coll) (some (new_sized (pos 128)))) [
        | fails ↦ crashes
        | Result.fault ↦ crashes
        | Result.spins ↦ loops
        | ok b ↦ elim (create_options flags args b) [
          | errs e ↦ stops e (c, w)
          | Call.fault ↦ crashes
          | returns cmd ↦ done (custom net junk reconnect true (some db) cmd c w)
        ]
      ]

  -- One document of a namespace, without a selector.
  unfoldable pub query_once :
      Option (List ℕ) → Option Bson → SyncConn → W → Run (SyncConn × W) Packet
  unfolding send_built take_reply
  query_once ns query c w =
      elim (send_built net junk reconnect
        (Commands.cmd_query junk (next_id c) ns (slave_flag c) 0 1 query none) (not c.slaveok) c
        w) [
          | gives u (c1, w1) ↦ take_reply net (next_id c) flag_query_fail c1 w1
          | stops e s ↦ stops e s
          | crashes ↦ crashes
          | loops ↦ loops
        ]

  -- The document of the collection among the namespaces of the database.
  unfoldable pub cmd_exists :
      Option (List ℕ) → Option (List ℕ) → SyncConn → W → Run (SyncConn × W) (Option Bson)
  unfolding text_command query_once first_document
  cmd_exists none coll c w = stops einval (c, w)
  cmd_exists (some db) none c w = stops einval (c, w)
  cmd_exists (some db) (some coll) c w =
      elim (text_command (pos 128) key_name (some (db ++ (b'.' ∷ coll)))) [
        | fails ↦ crashes
        | Result.fault ↦ crashes
        | Result.spins ↦ loops
        | ok cmd ↦ elim (query_once (some (db ++ namespaces_suffix)) cmd c w) [
          | gives p (c1, w1) ↦ first_document net junk p c1 w1
          | stops e s ↦ stops e s
          | crashes ↦ crashes
          | loops ↦ loops
        ]
      ]

  unfoldable pub cmd_drop :
      Option (List ℕ) → Option (List ℕ) → SyncConn → W → Run (SyncConn × W) (Unit {0})
  unfolding run_command text_command
  cmd_drop db coll c w = done (run_command true db (text_command (pos 64) key_drop coll) c w)
