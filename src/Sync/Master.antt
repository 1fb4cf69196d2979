-- ===== src/Sync/Master.antt =====
-- src/mongo-sync.c: the commands that are sent without an attempt to reconnect. The connection is
-- not NULL.
use libmongo_client.Base.{ℕ, ◌+◌, ◌%◌, ◌^◌, Bool, true, Option, some, List, [], ◌∷◌, if◌then◌else◌}
use libmongo_client.Base.Int.{ℤ, pos}
use libmongo_client.Base.Errno.{eproto}
use libmongo_client.Base.Call
use libmongo_client.Base.Call.{returns, errs}
use libmongo_client.Base.Run.{Run, gives, stops, crashes, ◌>>=◌, lift}
use libmongo_client.Bson.Object.{Bson, new_sized, finish}
use libmongo_client.Bson.Append.{append_int32}
use libmongo_client.Wire.Packet.{Packet}
use libmongo_client.Wire.Commands
use libmongo_client.Wire.Reply.{reply_get_nth_document}
use libmongo_client.Client.{Net}
use libmongo_client.Client
use libmongo_client.Sync.Connection.{SyncConn}
use libmongo_client.Sync.Members.{key_ismaster, read_master}
use libmongo_client.Sync.Reply.{on_super, packet_recv, check_error, flag_query_fail}

-- `_SLAVE_FLAG`: MONGO_WIRE_FLAG_QUERY_SLAVE_OK is 1 << 2.
abbrev pub flag_slave_ok : ℕ
flag_slave_ok = 4

abbrev pub slave_flag : SyncConn → ℕ
slave_flag c = if c.slaveok then flag_slave_ok else 0

-- `mongo_connection_get_requestid (conn) + 1`
abbrev pub next_id : SyncConn → ℕ
next_id c = (c.super.request_id + 1) % 2 ^ 32

-- A command of one element, the name with the number 1.
unfoldable pub one_command : ℤ → List ℕ → Option Bson
one_command n name = (finish ((append_int32 (some (new_sized n)) (some name) (pos 1)).0)).0

-- "system"
abbrev pub db_system : List ℕ
db_system = b's' ∷ b'y' ∷ b's' ∷ b't' ∷ b'e' ∷ b'm' ∷ []

abbrev pub cmd_ping_name : List ℕ
cmd_ping_name = b'p' ∷ b'i' ∷ b'n' ∷ b'g' ∷ []

-- `junk`: the bytes of a packet's fresh buffer.
module _ {W : Type 0} (net : Net W) (junk : ℕ) where
  -- `_mongo_sync_packet_send` with `force_master` and `auto_reconnect` FALSE.
  unfoldable pub send_once : Packet → SyncConn → W → Run (SyncConn × W) (Unit {0})
  send_once p c w = on_super c (Client.packet_send net (some p) c.super w)

  -- `_mongo_sync_cmd_custom`, where the packet is sent by `send`.
  unfoldable pub custom_by :
      (Packet → SyncConn → W → Run (SyncConn × W) (Unit {0}))
      → Option (List ℕ)
      → Option Bson
      → SyncConn
      → W
      → Run (SyncConn × W) Packet
  custom_by send db command c w =
      elim (Commands.cmd_custom junk (next_id c) db (slave_flag c) command) [
        | errs e ↦ stops e (c, w)
        | Call.fault ↦ crashes
        | returns p ↦
            (send p c w >>= λ u (c1, w1).
            packet_recv net (next_id c) flag_query_fail c1 w1 >>= λ reply (c2, w2).
            check_error true reply c2 w2)
      ]

  -- `_mongo_sync_cmd_custom` with `check_conn` and `force_master` FALSE.
  unfoldable pub custom_once :
      Option (List ℕ) → Option Bson → SyncConn → W → Run (SyncConn × W) Packet
  unfolding custom_by send_once
  custom_once db command c w = custom_by send_once db command c w

  unfoldable pub cmd_ping : SyncConn → W → Run (SyncConn × W) (Unit {0})
  unfolding custom_once one_command
  cmd_ping c w =
      custom_once (some db_system) (one_command (pos 32) cmd_ping_name) c w >>= λ p s. gives tt s

  -- The first document of a reply, finished.
  unfoldable pub first_document : Packet → SyncConn → W → Run (SyncConn × W) (Option Bson)
  first_document p c w = elim (reply_get_nth_document (some p) (pos 1)) [
    | errs e ↦ stops e (c, w)
    | Call.fault ↦ crashes
    | returns b ↦ gives ((finish b).0) (c, w)
  ]

  -- It gives what the call returns; where it stops it is FALSE with that `errno`.
  unfoldable pub cmd_is_master : SyncConn → W → Run (SyncConn × W) Bool
  unfolding custom_once one_command first_document read_master
  cmd_is_master c w =
      custom_once (some db_system) (one_command (pos 32) key_ismaster) c w >>= λ p (c1, w1).
      first_document p c1 w1 >>= λ res (c2, w2).
      lift eproto (c2, w2) (read_master res c2.rs) >>= λ (master, rs) (c3, w3).
      gives master (record c3 { rs = rs }, w3)
