-- ===== src/Sync/Recover.antt =====
-- src/mongo-sync.c: connecting from a recovery cache. The cache belongs to the caller, and is emptied
-- where the connection has to look for a master; what is done then goes on fuel.
use libmongo_client.Base.{ℕ, Bool, true, false, Option, none, some, List, [], ◌∷◌}
use libmongo_client.Base.Int.{ℤ}
use libmongo_client.Base.Errno.{no_error}
use libmongo_client.Base.Run.{Run, gives, stops, crashes, loops}
use libmongo_client.Util.Address.{Parsed, address, refused, parse_addr}
use libmongo_client.Client.{Net}
use libmongo_client.Sync.Connection.{SyncConn}
use libmongo_client.Sync.Connection.Cache.{RecoveryCache, cache_discard, cache_connect}
use libmongo_client.Sync.Reconnect.{reconnect}

-- What became of one address: nothing, so that the next one is tried, or what the call returns.
pub data Attempt {ℓ} (W : Type ℓ) : Type ℓ where
  next_one : W → Attempt W
  ended : Run (RecoveryCache × W) SyncConn → Attempt W

module _ {W : Type 0} (net : Net W) (junk : ℕ) (md5 : List ℕ → List ℕ)
    (strtol : List ℕ → ℤ × List ℕ) (format : List ℕ → ℤ → List ℕ) (fuel : ℕ) where
  -- What `mongo_sync_reconnect (c, FALSE)` returns is returned; the cache is empty by then.
  abbrev pub reconnected :
      RecoveryCache → Run (SyncConn × W) (Unit {0}) → Run (RecoveryCache × W) SyncConn
  reconnected cache (gives u (c, w)) = gives c (cache, w)
  reconnected cache (stops e (c, w)) = stops e (cache, w)
  reconnected cache crashes = crashes
  reconnected cache loops = loops

  -- A connection to the address, as it is for reading from slaves, or one to a master.
  unfoldable pub settle : RecoveryCache → Bool → Run W SyncConn → Attempt W
  settle cache slaveok (stops e w) = next_one w
  settle cache slaveok crashes = ended crashes
  settle cache slaveok loops = ended loops
  settle cache true (gives c w) = ended (gives c (cache, w))
  settle cache false (gives c w) =
      ended
        (reconnected (cache_discard cache) (reconnect net junk md5 strtol format fuel false c w))

  unfoldable pub attempt_parsed : RecoveryCache → Bool → Parsed → W → Attempt W
  unfolding settle
  attempt_parsed cache slaveok (refused e) w = next_one w
  attempt_parsed cache slaveok (address host port) w =
      settle cache slaveok (cache_connect net format (some cache) host port slaveok w)

  -- `_recovery_cache_pick_connect_from_list`
  unfoldable pub pick_connect : RecoveryCache → List (List ℕ) → Bool → W → Attempt W
  unfolding attempt_parsed
  pick_connect cache [] slaveok w = next_one w
  pick_connect cache (a ∷ rest) slaveok w =
      elim (attempt_parsed cache slaveok (parse_addr strtol (some a)) w) [
        | next_one w1 ↦ pick_connect cache rest slaveok w1
        | ended r ↦ ended r
      ]

  unfoldable pub attempt_primary : RecoveryCache → Option (List ℕ) → Bool → W → Attempt W
  unfolding attempt_parsed
  attempt_primary cache none slaveok w = next_one w
  attempt_primary cache (some p) slaveok w =
      attempt_parsed cache slaveok (parse_addr strtol (some p)) w

  -- `c = pick (seeds); if (!c) c = pick (hosts);`, the hosts being read from the cache then.
  unfoldable pub pick_hosts : RecoveryCache → Bool → Attempt W → Run (RecoveryCache × W) SyncConn
  unfolding pick_connect
  pick_hosts cache slaveok (ended (gives c s)) = gives c s
  pick_hosts cache slaveok (ended crashes) = crashes
  pick_hosts cache slaveok (ended loops) = loops
  pick_hosts cache slaveok (ended (stops e (cache', w))) =
      elim (pick_connect cache' cache'.rs.hosts slaveok w) [
        | next_one w1 ↦ stops e (cache', w1)
        | ended r ↦ r
      ]
  pick_hosts cache slaveok (next_one w) = elim (pick_connect cache cache.rs.hosts slaveok w) [
    | next_one w1 ↦ stops no_error (cache, w1)
    | ended r ↦ r
  ]

  -- The primary, then the seeds, then the hosts. Where no address can be connected to, `errno` is
  -- whatever the attempts left in it, which is not modelled.
  unfoldable pub connect_recovery_cache :
      RecoveryCache → Bool → W → Run (RecoveryCache × W) SyncConn
  unfolding attempt_primary pick_connect pick_hosts
  connect_recovery_cache cache slaveok w = elim (attempt_primary cache cache.rs.primary slaveok w) [
    | ended r ↦ r
    | next_one w1 ↦ pick_hosts cache slaveok (pick_connect cache cache.rs.seeds slaveok w1)
  ]
