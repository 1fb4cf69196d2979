-- ===== src/Pool.antt =====
-- src/mongo-sync-pool.c: pools of connections. A pool's lists hold the connection objects; what
-- `mongo_sync_pool_pick` hands out is the object with its fields at that time.
pub mod Slots
pub mod Create
pub mod Made
pub mod Turns
mod Examples
use libmongo_client.Base.{
  ℕ, zero, suc, ◌+◌, ◌-◌, Bool, true, false, not, ◌||◌, Option, none, some, List, [], ◌∷◌, ltb, leb,
  ◌==◌, if◌then◌else◌,
}
use libmongo_client.Base.Int.{ℤ, pos, negsuc}
use libmongo_client.Base.Errno.{Errno, einval, erange, enotconn, eagain}
use libmongo_client.Base.Call.{Call, returns, errs, fault, need, given, ◌>>=◌}

-- `handle` stands for the connection proper, `super`.
pub record Conn : Type 0 where
  pub handle : ℕ
  pub pool_id : ℕ
  pub in_use : Bool

-- `nslaves` can become -1 while a pool is made.
pub record Pool : Type 0 where
  pub nmasters : ℕ
  pub nslaves : ℤ
  pub masters : List Conn
  pub slaves : List Conn

-- The loop of `mongo_sync_pool_pick` over one list: the first free object is taken.
unfoldable pub pick_from : List Conn → Option (List Conn × Conn)
pick_from [] = none
pick_from (c ∷ cs) =
    if c.in_use
    then elim (pick_from cs) [ none ↦ none | some (cs', got) ↦ some (c ∷ cs', got) ]
    else some (record c { in_use = true } ∷ cs, record c { in_use = true })

unfoldable pub pick_master : Pool → Call (Pool × Conn)
pick_master p = elim (pick_from p.masters) [
  | none ↦ errs eagain
  | some (cs, c) ↦ returns (record p { masters = cs }, c)
]

-- A slave is looked for first, unless a master is wanted.
unfoldable pub pick : Option Pool → Bool → Call (Pool × Conn)
pick none want_master = errs enotconn
pick (some p) true = pick_master p
pick (some p) false = elim (pick_from p.slaves) [
  | none ↦ pick_master p
  | some (cs, c) ↦ returns (record p { slaves = cs }, c)
]

-- `c->in_use = FALSE` for the object at an index; none for a NULL `c`.
unfoldable pub free_at : List Conn → ℕ → Option (List Conn)
free_at [] i = none
free_at (c ∷ cs) zero = some (record c { in_use = false } ∷ cs)
free_at (c ∷ cs) (suc i) = elim (free_at cs i) [ none ↦ none | some cs' ↦ some (c ∷ cs') ]

-- `i > n || n == 0`, for `i` above 0.
unfoldable pub beyond : ℕ → ℤ → Bool
beyond i (pos n) = ltb n i || n == 0
beyond i (negsuc n) = true

-- The object that is freed is found by the id of the one that is handed in.
unfoldable pub give_back : Option Pool → Option Conn → Call Pool
unfolding beyond
give_back none conn = errs enotconn
give_back (some p) none = errs einval
give_back (some p) (some conn) =
    if ltb p.nmasters conn.pool_id
    then (let i = conn.pool_id - p.nmasters in
        if beyond i p.nslaves
        then errs erange
        else (need (free_at p.slaves (i - 1)) >>= λ cs. returns (record p { slaves = cs })))
    else (need (free_at p.masters conn.pool_id) >>= λ cs. returns (record p { masters = cs }))
