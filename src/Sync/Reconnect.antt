-- ===== src/Sync/Reconnect.antt =====
-- src/mongo-sync.c: connecting anew. The connection is not NULL. `mongo_sync_reconnect` calls itself
-- on every connection that it makes, and through `mongo_sync_cmd_authenticate`; the calls inside are
-- on fuel, `loops` where it does not last.
pub mod Settings
pub mod Replies
pub mod Kept
pub mod Invariant
pub mod Endless
use libmongo_client.Base.{
  ℕ, zero, suc, Bool, true, false, not, ◌&&◌, Option, none, some, List, [], ◌∷◌, ◌++◌, ◌==◌,
  if◌then◌else◌,
}
use libmongo_client.Base.Int.{ℤ, pos, negsuc}
use libmongo_client.Base.Errno.{ehostunreach}
use libmongo_client.Base.Run.{Run, gives, stops, crashes, loops}
use libmongo_client.Bson.Object.{minus_one}
use libmongo_client.Util.Address.{address, refused, parse_addr}
use libmongo_client.Client.{Net}
use libmongo_client.Sync.Connection.{SyncConn}
use libmongo_client.Sync.Connection.Cache.{sync_connect}
use libmongo_client.Sync.Master.{cmd_ping, cmd_is_master}
use libmongo_client.Sync.Authenticate.{authenticate_as}

unfoldable pub same_fd : ℤ → ℤ → Bool
same_fd (pos m) (pos n) = m == n
same_fd (negsuc m) (negsuc n) = m == n
same_fd (pos m) (negsuc n) = false
same_fd (negsuc m) (pos n) = false

-- The addresses that are tried, in order: the primary, the hosts and the seeds.
abbrev pub candidates : SyncConn → List (List ℕ)
candidates c = elim c.rs.primary [
  | none ↦ c.rs.hosts ++ c.rs.seeds
  | some p ↦ p ∷ (c.rs.hosts ++ c.rs.seeds)
]

-- A call whose failure goes unnoticed.
abbrev pub dropped {ℓ} : {S : Type ℓ} → Run S (Unit {0}) → Run S (Unit {0})
dropped (gives u s) = gives tt s
dropped (stops e s) = gives tt s
dropped crashes = crashes
dropped loops = loops

module _ {W : Type 0} (net : Net W) (junk : ℕ) (md5 : List ℕ → List ℕ)
    (strtol : List ℕ → ℤ × List ℕ) (format : List ℕ → ℤ → List ℕ) where
  -- `if (old->super.fd && (old->super.fd != new->super.fd)) close (old->super.fd);`
  unfoldable pub close_replaced : ℤ → ℤ → W → W
  close_replaced (pos zero) new w = w
  close_replaced (pos (suc n)) new w =
      if same_fd (pos (suc n)) new then w else net.close_fd (suc n) w
  close_replaced (negsuc n) new w = w

  -- `_mongo_sync_connect_replace` on connections that are both there: the old one gets the socket of
  -- the new one, forgets hosts, primary and error, and keeps its seeds and credentials.
  unfoldable pub connect_replace : SyncConn → SyncConn → SyncConn
  connect_replace c nc = record c {
    rs = record (c.rs) { hosts = []; primary = none };
    super = record { fd = nc.super.fd; request_id = minus_one };
    slaveok = nc.slaveok;
    last_error = none;
  }

  -- The first address that can be parsed and connected to.
  unfoldable pub connect_any : List (List ℕ) → Bool → W → Run W SyncConn
  connect_any [] slaveok w = stops ehostunreach w
  connect_any (a ∷ rest) slaveok w = elim (parse_addr strtol (some a)) [
    | refused e ↦ connect_any rest slaveok w
    | address host port ↦ elim (sync_connect net format host port slaveok w) [
      | gives nc w1 ↦ gives nc w1
      | stops e w1 ↦ connect_any rest slaveok w1
      | crashes ↦ crashes
      | loops ↦ loops
    ]
  ]

  -- With the recursive call as a parameter.
  module _ (again : Bool → SyncConn → W → Run (SyncConn × W) (Unit {0})) where
    -- `if (conn->auth.db && conn->auth.user && conn->auth.pw) mongo_sync_cmd_authenticate (…)`, whose
    -- result is dropped.
    unfoldable pub authenticate_given :
        Option (List ℕ)
        → Option (List ℕ)
        → Option (List ℕ)
        → SyncConn
        → W
        → Run (SyncConn × W) (Unit {0})
    authenticate_given none user pw c w = gives tt (c, w)
    authenticate_given (some db) none pw c w = gives tt (c, w)
    authenticate_given (some db) (some user) none c w = gives tt (c, w)
    authenticate_given (some db) (some user) (some pw) c w =
        dropped (authenticate_as net junk md5 again db user pw c w)

    unfoldable pub authenticate_again : SyncConn → W → Run (SyncConn × W) (Unit {0})
    unfolding authenticate_given
    authenticate_again c w = authenticate_given c.auth.db c.auth.user c.auth.pw c w

    -- What is done with a new connection, `nc`: it is reconnected in its turn, and takes the place of
    -- the old one, unless that failed, which is not reported.
    unfoldable pub adopt : Bool → SyncConn → SyncConn → W → Run (SyncConn × W) (Unit {0})
    unfolding authenticate_again connect_replace
    adopt force nc c w = elim (again force nc w) [
      | gives u (nc1, w1) ↦
          authenticate_again (connect_replace c nc1) (close_replaced c.super.fd nc1.super.fd w1)
      | stops e (nc1, w1) ↦ authenticate_again c w1
      | crashes ↦ crashes
      | loops ↦ loops
    ]

    unfoldable pub find_other : Bool → SyncConn → W → Run (SyncConn × W) (Unit {0})
    unfolding connect_any adopt
    find_other force c w = elim (connect_any (candidates c) c.slaveok w) [
      | gives nc w1 ↦ adopt force nc c w1
      | stops e w1 ↦ stops e (c, w1)
      | crashes ↦ crashes
      | loops ↦ loops
    ]

    -- A connection to a server that is no master, if one is wanted: the hosts are asked for again.
    unfoldable pub refresh_hosts : Bool → SyncConn → W → Run (SyncConn × W) (Unit {0})
    unfolding find_other
    refresh_hosts force c w = elim (cmd_is_master net junk c w) [
      | gives b (c1, w1) ↦ find_other force c1 w1
      | stops e (c1, w1) ↦ find_other force c1 w1
      | crashes ↦ crashes
      | loops ↦ loops
    ]

    -- The server that answered, if it is a master.
    unfoldable pub master_or_other : Bool → SyncConn → W → Run (SyncConn × W) (Unit {0})
    unfolding refresh_hosts
    master_or_other force c w = elim (cmd_is_master net junk c w) [
      | gives true s ↦ gives tt s
      | gives false (c1, w1) ↦ refresh_hosts force c1 w1
      | stops e (c1, w1) ↦ refresh_hosts force c1 w1
      | crashes ↦ crashes
      | loops ↦ loops
    ]

    unfoldable pub reconnect_step : Bool → SyncConn → W → Run (SyncConn × W) (Unit {0})
    unfolding find_other master_or_other
    reconnect_step force c w = elim (cmd_ping net junk c w) [
      | crashes ↦ crashes
      | loops ↦ loops
      | stops e (c1, w1) ↦ find_other force c1 w1
      | gives u (c1, w1) ↦ if not force then gives tt (c1, w1) else master_or_other force c1 w1
    ]

  -- `mongo_sync_reconnect`
  unfoldable pub reconnect : ℕ → Bool → SyncConn → W → Run (SyncConn × W) (Unit {0})
  unfolding reconnect_step
  reconnect zero force c w = loops
  reconnect (suc n) force c w = reconnect_step (reconnect n) force c w
