-- ===== src/Sync/Connection/Recovered.antt =====
-- src/mongo-sync.c: a connection that is made from the cache of another one.
use libmongo_client.Base.{ℕ, ◌≡◌, refl, ap, Bool, true, Option, none, some, List}
use libmongo_client.Base.Int.{ℤ}
use libmongo_client.Base.Run.{gives, ◌>>=◌}
use libmongo_client.Client.{Net}
use libmongo_client.Client.Open.{mongo_connect}
use libmongo_client.Sync.Connection.{SyncConn, Credentials, conn_init}
use libmongo_client.Sync.Connection.Cache.{
  RecoveryCache, kept, cache_store, cache_load, cache_connect, sync_disconnect,
}

kept_self : (o : Option (List ℕ)) → kept o none ≡ o
kept_self none = refl
kept_self (some s) = refl

kept_all :
    (a : Credentials)
    → record { db = kept a.db none; user = kept a.user none; pw = kept a.pw none } ≡ a
kept_all a = rw (kept_self a.db, kept_self a.user, kept_self a.pw) refl

-- After `mongo_sync_disconnect` of a connection with a recovery cache, whatever the cache held, a
-- connection from the cache has the replica set and the credentials of the one that was closed, and
-- otherwise the settings of a new connection.
pub cache_connect-sync_disconnect :
    {W : Type 0} (net : Net W) (format : List ℕ → ℤ → List ℕ) (c : SyncConn) (cache : RecoveryCache)
    (address : List ℕ) (port : ℤ) (slaveok : Bool) (w w' : W)
    → c.has_cache ≡ true
    → cache_connect net format
        (some ((sync_disconnect net format (some c) cache w).0))
        address
        port
        slaveok
        w'
      ≡ (mongo_connect net (some address) port w' >>= λ fresh w''.
          gives
            (record (conn_init fresh slaveok) { rs = c.rs; auth = c.auth; has_cache = true })
            w'')
unfolding cache_connect sync_disconnect cache_store cache_load
cache_connect-sync_disconnect net format c cache address port slaveok w w' h = rw h (
    ap
      (λ (a : Credentials). mongo_connect net (some address) port w' >>= λ fresh w''.
        gives (record (conn_init fresh slaveok) { rs = c.rs; auth = a; has_cache = true }) w'')
      (kept_all c.auth))
