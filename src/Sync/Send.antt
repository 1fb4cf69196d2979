-- ===== src/Sync/Send.antt =====
-- src/mongo-sync.c: sending a packet with another connection where this one is lost, and the
-- commands on it. The connection is not NULL.
use libmongo_client.Base.{ℕ, Bool, true, false, not, ◌||◌, Option, List, if◌then◌else◌}
use libmongo_client.Base.Errno.{Errno, no_error, enotconn, is_eproto}
use libmongo_client.Base.Run.{Run, gives, stops, crashes, loops, ◌>>=◌}
use libmongo_client.Bson.Object.{Bson}
use libmongo_client.Wire.Packet.{Packet}
use libmongo_client.Client.{Net}
use libmongo_client.Sync.Connection.{SyncConn}
use libmongo_client.Sync.Master.{send_once, custom_by, cmd_ping, cmd_is_master}

-- `reconnect` is `mongo_sync_reconnect`, with `force_master`; where it stops it returned NULL.
module _ {W : Type 0} (net : Net W) (junk : ℕ)
    (reconnect : Bool → SyncConn → W → Run (SyncConn × W) (Unit {0})) where
  -- What follows where the server did not answer as wanted, with the `errno` of that.
  unfoldable pub recover : Bool → Errno → SyncConn → W → Run (SyncConn × W) (Unit {0})
  recover force e c w =
      if is_eproto e
      then stops e (c, w)
      else if not c.auto_reconnect
      then stops enotconn (c, w)
      else reconnect force c w

  -- A connection to a master, or a new one.
  unfoldable pub ensure_master : SyncConn → W → Run (SyncConn × W) (Unit {0})
  unfolding recover
  ensure_master c w = elim (cmd_is_master net junk c w) [
    | gives true s ↦ gives tt s
    | gives false (c1, w1) ↦ recover true no_error c1 w1
    | stops e (c1, w1) ↦ recover true e c1 w1
    | crashes ↦ crashes
    | loops ↦ loops
  ]

  -- The call's failure with this `errno` in place of its own.
  abbrev as_errno : Errno → Run (SyncConn × W) (Unit {0}) → Run (SyncConn × W) (Unit {0})
  as_errno e (gives u s) = gives u s
  as_errno e (stops e' s) = stops e s
  as_errno e crashes = crashes
  as_errno e loops = loops

  unfoldable pub ensure_answer : SyncConn → W → Run (SyncConn × W) (Unit {0})
  ensure_answer c w = elim (cmd_ping net junk c w) [
    | gives u s ↦ gives tt s
    | stops e (c1, w1) ↦
        if is_eproto e
        then stops e (c1, w1)
        else if not c1.auto_reconnect
        then stops enotconn (c1, w1)
        else as_errno enotconn (reconnect false c1 w1)
    | crashes ↦ crashes
    | loops ↦ loops
  ]

  -- `_mongo_cmd_ensure_conn`
  unfoldable pub ensure_conn : Bool → SyncConn → W → Run (SyncConn × W) (Unit {0})
  unfolding ensure_master ensure_answer
  ensure_conn force c w = if force || not c.slaveok then ensure_master c w else ensure_answer c w

  -- `_mongo_cmd_verify_slaveok`
  unfoldable pub verify_slaveok : SyncConn → W → Run (SyncConn × W) (Unit {0})
  unfolding ensure_master
  verify_slaveok c w = if c.slaveok || not c.safe_mode then gives tt (c, w) else ensure_master c w

  -- The loop of `_mongo_sync_packet_send`: a second and last try on a connection that was made anew.
  -- Where there is none, the failure is that of the first try.
  unfoldable pub send_again : Packet → Bool → Bool → SyncConn → W → Run (SyncConn × W) (Unit {0})
  send_again p force auto c w = elim (send_once net junk p c w) [
    | gives u s ↦ gives tt s
    | stops e (c1, w1) ↦
        if not auto || not c1.auto_reconnect
        then stops e (c1, w1)
        else elim (reconnect force c1 w1) [
          | gives u (c2, w2) ↦ send_once net junk p c2 w2
          | stops e' s ↦ stops e s
          | crashes ↦ crashes
          | loops ↦ loops
        ]
    | crashes ↦ crashes
    | loops ↦ loops
  ]

  unfoldable pub packet_send : Packet → Bool → Bool → SyncConn → W → Run (SyncConn × W) (Unit {0})
  unfolding ensure_conn send_again
  packet_send p force auto c w =
      if force
      then (ensure_conn force c w >>= λ u (c1, w1). send_again p force auto c1 w1)
      else send_again p force auto c w

  -- `_mongo_sync_cmd_custom` with `check_conn` TRUE.
  unfoldable pub custom :
      Bool → Option (List ℕ) → Option Bson → SyncConn → W → Run (SyncConn × W) Packet
  unfolding packet_send
  custom force db command c w =
      custom_by net junk (λ p c1 w1. packet_send p force true c1 w1) db command c w
