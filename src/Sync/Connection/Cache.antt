-- ===== src/Sync/Connection/Cache.antt =====
-- src/mongo-sync.c: the recovery cache, which keeps the replica set and the credentials of a
-- connection, and connecting from it. The cache belongs to the caller and is passed on.
use libmongo_client.Base.{ℕ, Bool, true, if◌then◌else◌, Option, none, some, List, [], ◌∷◌, ◌++◌}
use libmongo_client.Base.Int.{ℤ}
use libmongo_client.Base.Errno.{einval}
use libmongo_client.Base.Call.{Call, returns, errs}
use libmongo_client.Base.Run.{Run, gives, ◌>>=◌}
use libmongo_client.Client.{Net}
use libmongo_client.Client.Open.{mongo_connect, mongo_disconnect}
use libmongo_client.Sync.Connection.{
  SyncConn, ReplicaSet, Credentials, no_replicas, no_credentials, conn_init,
}

-- `struct _mongo_sync_conn_recovery_cache`
pub record RecoveryCache : Type 0 where
  pub rs : ReplicaSet
  pub auth : Credentials

unfoldable pub cache_new : RecoveryCache
cache_new = record { rs = no_replicas; auth = no_credentials }

unfoldable pub cache_discard : RecoveryCache → RecoveryCache
cache_discard cache = record { rs = no_replicas; auth = no_credentials }

unfoldable pub cache_seed_add :
    (List ℕ → ℤ → List ℕ) → RecoveryCache → Option (List ℕ) → ℤ → Call RecoveryCache
cache_seed_add format cache none port = errs einval
cache_seed_add format cache (some host) port =
    returns
      (record cache { rs = record (cache.rs) { seeds = cache.rs.seeds ++ format host port ∷ [] } })

-- `if (from) { to = g_strdup (from); … }`
abbrev pub kept : Option (List ℕ) → Option (List ℕ) → Option (List ℕ)
kept none to = to
kept (some s) to = some s

-- The cache after it was emptied and took over the replica set and the credentials.
unfoldable pub cache_store : RecoveryCache → SyncConn → RecoveryCache
unfolding cache_discard
cache_store cache c =
    let empty = cache_discard cache in
    record {
      rs = c.rs;
      auth = record {
        db = kept c.auth.db empty.auth.db;
        user = kept c.auth.user empty.auth.user;
        pw = kept c.auth.pw empty.auth.pw;
      };
    }

unfoldable pub cache_load : RecoveryCache → SyncConn → SyncConn
cache_load cache c = record c { rs = cache.rs; auth = cache.auth; has_cache = true }

module _ {W : Type 0} (net : Net W) (format : List ℕ → ℤ → List ℕ) where
  -- `_recovery_cache_connect`; the address is not NULL.
  unfoldable pub cache_connect : Option RecoveryCache → List ℕ → ℤ → Bool → W → Run W SyncConn
  unfolding cache_load conn_init
  cache_connect cache address port slaveok w = mongo_connect net (some address) port w >>= λ c w'.
      let s = conn_init c slaveok in
      elim cache [
        | none ↦ gives (record s { rs = record (s.rs) { seeds = format address port ∷ [] } }) w'
        | some k ↦ gives (cache_load k s) w'
      ]

  unfoldable pub sync_connect : List ℕ → ℤ → Bool → W → Run W SyncConn
  unfolding cache_connect
  sync_connect address port slaveok w = cache_connect none address port slaveok w

  -- The cache that the connection refers to, if any, takes its replica set and credentials over.
  unfoldable pub sync_disconnect : Option SyncConn → RecoveryCache → W → RecoveryCache × W
  unfolding cache_store mongo_disconnect
  sync_disconnect none cache w = (cache, w)
  sync_disconnect (some c) cache w = (
    if c.has_cache then cache_store cache c else cache,
    (mongo_disconnect net (some (c.super)) w).1,
  )
