-- ===== src/Sync/Cursor.antt =====
-- src/mongo-sync-cursor.c: walking over the documents of a result that comes in several replies.
pub mod Walk
use libmongo_client.Base.{
  ℕ, ◌+◌, ◌-◌, ◌%◌, ◌^◌, Bool, true, false, not, Option, none, some, List, ◌⊎◌, inl, inr,
  if◌then◌else◌,
}
use libmongo_client.Base.Int.{signed, half32, slt}
use libmongo_client.Base.Errno.{Errno, enotconn, einval, erange}
use libmongo_client.Base.Call
use libmongo_client.Base.Call.{Call, returns, errs}
use libmongo_client.Base.Run.{Run, gives, stops, crashes}
use libmongo_client.Bson.Object.{Bson, finish, minus_one}
use libmongo_client.Wire.Packet.{Packet}
use libmongo_client.Wire.Reply.{ReplyHeader, reply_get_header, reply_get_nth_document}

-- `struct _mongo_sync_cursor` without its connection; the offset is a `gint32` as its pattern.
pub record SyncCursor : Type 0 where
  pub ns : List ℕ
  pub results : Option Packet
  pub offset : ℕ
  pub ph : ReplyHeader

-- `mongo_wire_reply_packet_get_header (results, &ph)`, whose result is not looked at: where it fails
-- the header stays. A fault is none.
unfoldable pub with_header_of : Packet → ReplyHeader → Option ReplyHeader
with_header_of p ph = elim (reply_get_header (some p)) [
  | returns h ↦ some h
  | errs e ↦ some ph
  | Call.fault ↦ none
]

abbrev pub no_header : ReplyHeader
no_header = record { flags = 0; cursor_id = 0; start = 0; returned = 0 }

-- `connected`: the connection is not NULL.
unfoldable pub sync_cursor_new : Bool → Option (List ℕ) → Option Packet → Call SyncCursor
sync_cursor_new false ns packet = errs enotconn
sync_cursor_new true none packet = errs einval
sync_cursor_new true (some ns) none = errs einval
sync_cursor_new true (some ns) (some p) = elim (with_header_of p no_header) [
  | none ↦ Call.fault
  | some h ↦ returns (record { ns = ns; results = some p; offset = minus_one; ph = h })
]

-- `cursor->offset >= cursor->ph.returned - 1`
abbrev pub is_last : SyncCursor → Bool
is_last c = not (slt c.offset ((c.ph.returned + 2 ^ 32 - 1) % 2 ^ 32))

abbrev pub advanced : SyncCursor → SyncCursor
advanced c = record c { offset = (c.offset + 1) % 2 ^ 32 }

-- `get_more` is `mongo_sync_cmd_get_more` of src/mongo-sync.c on the cursor's connection: it has the
-- namespace, the number of documents and the id of the cursor; `W` is the state of both sides.
module _ {W : Type 0} (get_more : List ℕ → ℕ → ℕ → W → (Errno ⊎ Packet) × W) where
  -- The next reply in place of the one that is used up.
  unfoldable pub refill : SyncCursor → (Errno ⊎ Packet) × W → Run (Option SyncCursor × W) (Unit {0})
  refill c (inl e, s) = stops e (some (record c { offset = minus_one; results = none }), s)
  refill c (inr p, s) = elim (with_header_of p c.ph) [
    | none ↦ crashes
    | some h ↦
        gives tt (some (advanced (record c { offset = minus_one; results = some p; ph = h })), s)
  ]

  unfoldable pub sync_cursor_next : Option SyncCursor → W → Run (Option SyncCursor × W) (Unit {0})
  sync_cursor_next none s = stops einval (none, s)
  sync_cursor_next (some c) s =
      if is_last c
      then refill c (get_more c.ns c.ph.returned c.ph.cursor_id s)
      else gives tt (some (advanced c), s)

unfoldable pub sync_cursor_get_data : Option SyncCursor → Call (Option Bson)
sync_cursor_get_data none = errs einval
sync_cursor_get_data (some c) =
    elim (reply_get_nth_document c.results (signed half32 ((c.offset + 1) % 2 ^ 32))) [
      | returns b ↦ returns (finish b).0
      | errs e ↦ errs erange
      | Call.fault ↦ Call.fault
    ]
