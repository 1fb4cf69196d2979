-- ===== src/Pool/Made.antt =====
-- What `mongo_sync_pool_new` of src/mongo-sync-pool.c makes where every connection succeeds.
use libmongo_client.Base.{ℕ, ◌+◌, ◌<◌, ◌≡◌, ◌⊎◌, List, length}
use libmongo_client.Base.Int.{ℤ, pos}
use libmongo_client.Base.Call.{Call}
use libmongo_client.Pool.{Conn, Pool}
use libmongo_client.Pool.Slots.{IsPool}
use libmongo_client.Pool.Create.{one_less}

-- How the loop over the slaves ends: with all `n` of them, or early, behind `i` and those in `cs`.
abbrev Ended : ℕ → ℕ → ℕ → ℤ → List Conn → Type 0
Ended total n i ns cs =
    ((length cs ≡ n) × (ns ≡ pos total)) ⊎ ((length cs < n) × (ns ≡ one_less (i + length cs)))

-- A pool that has all `n` slaves, or fewer of them with a count that is one short.
abbrev pub Made : ℕ → Pool → Type 0
Made n p =
    ((length p.slaves ≡ n) × IsPool p)
    ⊎ ((length p.slaves < n) × (p.nslaves ≡ one_less (length p.slaves)))
