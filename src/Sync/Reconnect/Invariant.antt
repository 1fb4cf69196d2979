-- ===== src/Sync/Reconnect/Invariant.antt =====
-- src/mongo-sync.c: `mongo_sync_reconnect` keeps what the caller has set on the connection.
use libmongo_client.Base.{ℕ, ◌≡◌, refl, Bool, List, inl, inr, ◌⊎◌}
use libmongo_client.Base.Int.{ℤ}
use libmongo_client.Base.Errno.{Errno}
use libmongo_client.Base.Run.{Run, gives, stops, crashes, loops}
use libmongo_client.Util.Address.{Parsed, address, refused}
use libmongo_client.Sync.Connection.{SyncConn}
use libmongo_client.Sync.Reconnect.Settings.{Settings}

-- A new connection has the flag that it was asked for with.
abbrev HasSlaveok {ℓ} : {W : Type ℓ} → Bool → Run W SyncConn → Type 0
HasSlaveok b (gives c w) = c.slaveok ≡ b
HasSlaveok b (stops e w) = Unit
HasSlaveok b crashes = Unit
HasSlaveok b loops = Unit

pub Parsed-cases :
    (p : Parsed) → ((h : List ℕ) × (n : ℤ) × (p ≡ address h n)) ⊎ ((e : Errno) × (p ≡ refused e))
Parsed-cases (address h n) = inl (h, n, refl)
Parsed-cases (refused e) = inr (e, refl)
