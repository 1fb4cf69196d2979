-- ===== src/Sync/Connection.antt =====
-- src/libmongo-private.h and src/mongo-sync.c: the synchronous connection and its accessors.
-- Strings are the bytes of the C strings. Where a call returns TRUE or a value, what it leaves in
-- `errno` is not modelled.
pub mod Cache
pub mod Recovered
use libmongo_client.Base.{ℕ, zero, suc, Bool, true, false, Option, none, some, List, [], ◌∷◌, ◌++◌}
use libmongo_client.Base.Int.{ℤ, pos, negsuc}
use libmongo_client.Base.Errno.{Errno, enotconn, einval, erange}
use libmongo_client.Base.Call.{Call, returns, errs, fault}
use libmongo_client.Client.{Conn}

-- `replica_set`
pub record ReplicaSet : Type 0 where
  pub seeds : List (List ℕ)
  pub hosts : List (List ℕ)
  pub primary : Option (List ℕ)

-- `auth_credentials`
pub record Credentials : Type 0 where
  pub db : Option (List ℕ)
  pub user : Option (List ℕ)
  pub pw : Option (List ℕ)

-- `struct _mongo_sync_connection`. `has_cache`: `recovery_cache` is not NULL; the cache itself
-- belongs to the caller.
pub record SyncConn : Type 0 where
  pub super : Conn
  pub slaveok : Bool
  pub safe_mode : Bool
  pub auto_reconnect : Bool
  pub last_error : Option (List ℕ)
  pub max_insert_size : ℤ
  pub rs : ReplicaSet
  pub auth : Credentials
  pub has_cache : Bool

abbrev pub no_replicas : ReplicaSet
no_replicas = record { seeds = []; hosts = []; primary = none }

abbrev pub no_credentials : Credentials
no_credentials = record { db = none; user = none; pw = none }

-- MONGO_SYNC_DEFAULT_MAX_INSERT_SIZE
abbrev pub default_max_insert_size : ℤ
default_max_insert_size = pos 4000000

-- `_mongo_sync_conn_init` on the memory of a connection.
unfoldable pub conn_init : Conn → Bool → SyncConn
conn_init c slaveok = record {
  super = c;
  slaveok = slaveok;
  safe_mode = false;
  auto_reconnect = false;
  last_error = none;
  max_insert_size = default_max_insert_size;
  rs = no_replicas;
  auth = no_credentials;
  has_cache = false;
}

unfoldable pub get_max_insert_size : Option SyncConn → Call ℤ
get_max_insert_size none = errs enotconn
get_max_insert_size (some c) = returns c.max_insert_size

unfoldable pub set_max_insert_size : Option SyncConn → ℤ → Call SyncConn
set_max_insert_size none max_size = errs enotconn
set_max_insert_size (some c) (negsuc n) = errs erange
set_max_insert_size (some c) (pos zero) = errs erange
set_max_insert_size (some c) (pos (suc n)) = returns (record c { max_insert_size = pos (suc n) })

unfoldable pub get_safe_mode : Option SyncConn → Call Bool
get_safe_mode none = errs enotconn
get_safe_mode (some c) = returns c.safe_mode

unfoldable pub set_safe_mode : Option SyncConn → Bool → Call SyncConn
set_safe_mode none b = errs enotconn
set_safe_mode (some c) b = returns (record c { safe_mode = b })

unfoldable pub get_auto_reconnect : Option SyncConn → Call Bool
get_auto_reconnect none = errs enotconn
get_auto_reconnect (some c) = returns c.auto_reconnect

unfoldable pub set_auto_reconnect : Option SyncConn → Bool → Call SyncConn
set_auto_reconnect none b = errs enotconn
set_auto_reconnect (some c) b = returns (record c { auto_reconnect = b })

unfoldable pub get_slaveok : Option SyncConn → Call Bool
get_slaveok none = errs enotconn
get_slaveok (some c) = returns c.slaveok

unfoldable pub set_slaveok : Option SyncConn → Bool → Call SyncConn
set_slaveok none b = errs enotconn
set_slaveok (some c) b = returns (record c { slaveok = b })

-- `_set_last_error`; `strerror` is that of the C library.
unfoldable pub set_last_error : (Errno → List ℕ) → SyncConn → Errno → SyncConn
set_last_error strerror c e = record c { last_error = some (strerror e) }

-- `mongo_sync_conn_get_last_error`, without a test for NULL.
unfoldable pub get_conn_last_error : Option SyncConn → Call (Option (List ℕ))
get_conn_last_error none = fault
get_conn_last_error (some c) = returns c.last_error

-- `format` is `g_strdup_printf ("%s:%d", …)`.
unfoldable pub seed_add :
    (List ℕ → ℤ → List ℕ) → Option SyncConn → Option (List ℕ) → ℤ → Call SyncConn
seed_add format none host port = errs enotconn
seed_add format (some c) none port = errs einval
seed_add format (some c) (some host) (negsuc n) = errs einval
seed_add format (some c) (some host) (pos n) =
    returns (record c { rs = record (c.rs) { seeds = c.rs.seeds ++ format host (pos n) ∷ [] } })
