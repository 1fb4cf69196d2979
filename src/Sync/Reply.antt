-- ===== src/Sync/Reply.antt =====
-- src/mongo-sync.c: taking a reply, and the errors in its first document. A stop with `no_error`
-- leaves `errno` as it was.
pub mod Accepted
pub mod Errors
use libmongo_client.Base.{
  ℕ, ◌+◌, ◌/◌, ◌%◌, ◌^◌, Bool, true, false, not, Option, none, some, List, [], ◌∷◌, ◌==◌, ◌||◌,
  take?, if◌then◌else◌,
}
use libmongo_client.Base.Bytes.{strlen}
use libmongo_client.Base.Int.{pos}
use libmongo_client.Base.Errno.{Errno, no_error, einval, eproto, enoent}
use libmongo_client.Base.Result
use libmongo_client.Base.Result.{Result, ok, fails, access, ◌>>=◌}
use libmongo_client.Base.Call
use libmongo_client.Base.Call.{returns, errs}
use libmongo_client.Base.Run.{Run, gives, stops, crashes, loops}
use libmongo_client.Bson.Types.{type_none, type_null, type_string}
use libmongo_client.Bson.Object.{Bson, finish}
use libmongo_client.Bson.Cursor.{Cursor, find, cursor_type}
use libmongo_client.Bson.Get.{get_double, get_string}
use libmongo_client.Wire.Packet.{Packet}
use libmongo_client.Wire.Reply.{reply_get_header, reply_get_nth_document}
use libmongo_client.Client.{Conn, Net}
use libmongo_client.Client
use libmongo_client.Sync.Connection.{SyncConn}

-- A call on the connection that the synchronous one contains.
unfoldable pub on_super {ℓ} :
    {W : Type 0} {A : Type ℓ} → SyncConn → Run (Conn × W) A → Run (SyncConn × W) A
on_super c (gives a s) = gives a (record c { super = s.0 }, s.1)
on_super c (stops e s) = stops e (record c { super = s.0 }, s.1)
on_super c crashes = crashes
on_super c loops = loops

-- `flags & flag`, for a flag of one bit.
abbrev pub has_flag : ℕ → ℕ → Bool
has_flag flags flag = (flags / flag) % 2 == 1

-- MONGO_REPLY_FLAG_NO_CURSOR and MONGO_REPLY_FLAG_QUERY_FAIL
abbrev pub flag_no_cursor : ℕ
flag_no_cursor = 1

abbrev pub flag_query_fail : ℕ
flag_query_fail = 2

-- The reply to the request `rid`, unless it has the flag or no documents.
unfoldable pub accept_reply : Packet → ℕ → ℕ → Call.Call Packet
accept_reply p rid flag =
    if not (p.header.resp_to == rid) then errs eproto else elim (reply_get_header (some p)) [
      | errs e ↦ errs e
      | Call.fault ↦ Call.fault
      | returns h ↦
          if has_flag h.flags flag
          then errs eproto
          else if h.returned == 0
          then errs enoent
          else returns p
    ]

-- `_mongo_sync_packet_recv`
unfoldable pub packet_recv : {W : Type 0} → Net W → ℕ → ℕ → SyncConn → W → Run (SyncConn × W) Packet
packet_recv net rid flag c w = elim (Client.packet_recv net c.super w) [
  | stops e w' ↦ stops e (c, w')
  | crashes ↦ crashes
  | loops ↦ loops
  | gives p w' ↦ elim (accept_reply p rid flag) [
    | returns q ↦ gives q (c, w')
    | errs e ↦ stops e (c, w')
    | Call.fault ↦ crashes
  ]
]

-- The bits of the double 1.
abbrev pub double_one : ℕ
double_one = 0x3FF0000000000000

abbrev pub key_ok : List ℕ
key_ok = b'o' ∷ b'k' ∷ []

abbrev pub key_err : List ℕ
key_err = b'e' ∷ b'r' ∷ b'r' ∷ []

abbrev pub key_errmsg : List ℕ
key_errmsg = b'e' ∷ b'r' ∷ b'r' ∷ b'm' ∷ b's' ∷ b'g' ∷ []

-- What `_mongo_sync_check_ok` returns, with its `errno` where that is FALSE.
pub data Verdict : Type 0 where
  fine : Verdict
  wrong : Errno → Verdict
  broken : Verdict
  endless : Verdict

unfoldable pub check_ok : Option Bson → Verdict
check_ok b = elim (find b (some key_ok)) [
  | fails ↦ wrong enoent
  | Result.fault ↦ broken
  | Result.spins ↦ endless
  | ok c ↦ elim (get_double (some c)) [
    | fails ↦ wrong einval
    | Result.fault ↦ broken
    | Result.spins ↦ endless
    | ok d ↦ if d == double_one then fine else wrong eproto
  ]
]

-- A copy of the C string behind a pointer.
unfoldable pub strdup : List ℕ → Result (List ℕ)
strdup mem = do n ← access (strlen mem); access (take? n mem)

abbrev pub or_else {ℓ} : {A : Type ℓ} → Result A → Result A → Result A
or_else (ok a) r = ok a
or_else fails r = r
or_else Result.fault r = Result.fault
or_else Result.spins r = Result.spins

-- The string at the cursor; without one the pointer to it is not set.
unfoldable pub error_text : Cursor → Result (List ℕ)
unfolding strdup
error_text c = elim (get_string (some c)) [
  | ok mem ↦ strdup mem
  | fails ↦ Result.fault
  | Result.fault ↦ Result.fault
  | Result.spins ↦ Result.spins
]

-- What is stored in `*error`; FALSE always comes with EPROTO, and stores nothing.
unfoldable pub get_error : Option Bson → Result (Option (List ℕ))
unfolding error_text
get_error rep = do
  c ← or_else (find rep (some key_err)) (find rep (some key_errmsg))
  t ← cursor_type (some c)
  if t == type_none || t == type_null
      then ok none
      else if t == type_string
      then (error_text c >>= λ s. ok (some s))
      else fails

module _ {W : Type 0} where
  -- The error of the document goes to `last_error`, which is NULL where there is none.
  abbrev pub note_error :
      Result (Option (List ℕ)) → SyncConn → W → Errno → Run (SyncConn × W) Packet
  note_error (ok v) c w e = stops e (record c { last_error = v }, w)
  note_error fails c w e = stops e (record c { last_error = none }, w)
  note_error Result.fault c w e = crashes
  note_error Result.spins c w e = loops

  -- The branch of `check_ok`, with what the document says of an error.
  unfoldable pub demand_ok :
      Verdict → Result (Option (List ℕ)) → Packet → SyncConn → W → Run (SyncConn × W) Packet
  demand_ok fine error p c w = gives p (c, w)
  demand_ok (wrong e) error p c w = note_error error c w e
  demand_ok broken error p c w = crashes
  demand_ok endless error p c w = loops

  -- The other branch: the reply is refused where an error field was read, whatever it holds.
  unfoldable pub refuse_error :
      Result (Option (List ℕ)) → Packet → SyncConn → W → Run (SyncConn × W) Packet
  refuse_error (ok v) p c w = stops no_error (record c { last_error = v }, w)
  refuse_error fails p c w = gives p (record c { last_error = none }, w)
  refuse_error Result.fault p c w = crashes
  refuse_error Result.spins p c w = loops

  -- `_mongo_sync_packet_check_error`; the packet is not NULL.
  unfoldable pub check_error : Bool → Packet → SyncConn → W → Run (SyncConn × W) Packet
  unfolding demand_ok refuse_error
  check_error want_ok p c w = elim (reply_get_nth_document (some p) (pos 1)) [
    | errs e ↦ stops eproto (c, w)
    | Call.fault ↦ crashes
    | returns b ↦
        let doc = (finish b).0 in
        if want_ok
        then demand_ok (check_ok doc) (get_error doc) p c w
        else refuse_error (get_error doc) p c w
  ]
