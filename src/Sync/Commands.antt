-- ===== src/Sync/Commands.antt =====
-- src/mongo-sync.c: the commands that carry one packet, and those on collections. The connection is
-- not NULL.
pub mod Collections
pub mod Users
pub mod Indexes
use libmongo_client.Base.{
  ℕ, ◌+◌, ◌%◌, ◌^◌, Bool, true, false, not, ◌||◌, Option, none, some, List, zero, suc,
  if◌then◌else◌,
}
use libmongo_client.Base.Int.{ℤ, pos, negsuc}
use libmongo_client.Base.Errno.{Errno, einval}
use libmongo_client.Base.Call
use libmongo_client.Base.Call.{Call, returns, errs}
use libmongo_client.Base.Run.{Run, gives, stops, crashes, loops, ◌>>=◌}
use libmongo_client.Bson.Object.{Bson}
use libmongo_client.Wire.Packet.{Packet}
use libmongo_client.Wire.Commands
use libmongo_client.Client.{Net}
use libmongo_client.Sync.Connection.{SyncConn}
use libmongo_client.Sync.Reply.{packet_recv, check_error, has_flag, flag_query_fail, flag_no_cursor}
use libmongo_client.Sync.Master.{next_id, slave_flag, flag_slave_ok}
use libmongo_client.Sync.LastError.{verify_result}
use libmongo_client.Sync.Send.{packet_send, verify_slaveok}

-- `flags | _SLAVE_FLAG (conn)`
abbrev pub with_slave_flag : ℕ → SyncConn → ℕ
with_slave_flag flags c = if has_flag flags flag_slave_ok then flags else flags + slave_flag c

-- The reply to the request that was sent, unless the server reports an error in it.
unfoldable pub take_reply : {W : Type 0} → Net W → ℕ → ℕ → SyncConn → W → Run (SyncConn × W) Packet
take_reply net rid flag c w =
    packet_recv net rid flag c w >>= λ p (c1, w1). check_error false p c1 w1

module _ {W : Type 0} (net : Net W) (junk : ℕ)
    (reconnect : Bool → SyncConn → W → Run (SyncConn × W) (Unit {0})) where
  -- A packet that was built is sent; what the building fails with is the failure.
  unfoldable pub send_built : Call Packet → Bool → SyncConn → W → Run (SyncConn × W) (Unit {0})
  send_built (errs e) force c w = stops e (c, w)
  send_built Call.fault force c w = crashes
  send_built (returns p) force c w = packet_send net junk reconnect p force true c w

module _ {W : Type 0} (net : Net W) (junk : ℕ) (strerror : Errno → List ℕ)
    (reconnect : Bool → SyncConn → W → Run (SyncConn × W) (Unit {0})) where
  unfoldable pub cmd_update :
      Option (List ℕ) → ℕ → Option Bson → Option Bson → SyncConn → W → Run (SyncConn × W) (Unit {0})
  unfolding send_built
  cmd_update none flags selector update c w = stops einval (c, w)
  cmd_update (some ns) flags selector update c w =
      send_built net junk reconnect
        (Commands.cmd_update junk (next_id c) (some ns) flags selector update) true c w
      >>= λ u (c1, w1). verify_result net junk strerror ns c1 w1

  unfoldable pub cmd_delete :
      Option (List ℕ) → ℕ → Option Bson → SyncConn → W → Run (SyncConn × W) (Unit {0})
  unfolding send_built
  cmd_delete ns flags sel c w =
      send_built net junk reconnect (Commands.cmd_delete junk (next_id c) ns flags sel) true c w

  unfoldable pub cmd_kill_cursors : ℤ → List ℕ → SyncConn → W → Run (SyncConn × W) (Unit {0})
  unfolding send_built
  cmd_kill_cursors (negsuc n) ids c w = stops einval (c, w)
  cmd_kill_cursors (pos zero) ids c w = stops einval (c, w)
  cmd_kill_cursors (pos (suc n)) ids c w =
      send_built net junk reconnect (Commands.cmd_kill_cursors_va junk (next_id c) (suc n) ids)
        false c w

  unfoldable pub cmd_query :
      Option (List ℕ)
      → ℕ
      → ℕ
      → ℕ
      → Option Bson
      → Option Bson
      → SyncConn
      → W
      → Run (SyncConn × W) Packet
  unfolding send_built take_reply
  cmd_query ns flags skip ret query sel c w =
      verify_slaveok net junk reconnect c w >>= λ u (c1, w1).
      send_built net junk reconnect
        (Commands.cmd_query junk (next_id c1) ns (with_slave_flag flags c1) skip ret query sel)
        (not (c1.slaveok || has_flag flags flag_slave_ok)) c1 w1
      >>= λ v (c2, w2). take_reply net (next_id c1) flag_query_fail c2 w2

  unfoldable pub cmd_get_more : Option (List ℕ) → ℕ → ℕ → SyncConn → W → Run (SyncConn × W) Packet
  unfolding send_built take_reply
  cmd_get_more ns ret cursor_id c w = verify_slaveok net junk reconnect c w >>= λ u (c1, w1).
      send_built net junk reconnect (Commands.cmd_get_more junk (next_id c1) ns ret cursor_id) false
        c1 w1
      >>= λ v (c2, w2). take_reply net (next_id c1) flag_no_cursor c2 w2
