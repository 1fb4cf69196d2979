-- ===== src/Pool/Create.antt =====
-- src/mongo-sync-pool.c: `mongo_sync_pool_new`. Connecting (`mongo_sync_connect`), the check for a
-- master (`mongo_sync_cmd_is_master`), the list of hosts that the check leaves in the connection and
-- `strtol` are parameters. `connect` is told how many connections were made before, so that each
-- attempt may end differently; it has the `errno` of the attempt where it fails.
use libmongo_client.Base.{
  ℕ, zero, suc, ◌+◌, ◌%◌, ◌^◌, Bool, true, false, not, ◌||◌, Option, none, some, List, [], ◌∷◌,
  drop, ◌==◌, if◌then◌else◌,
}
use libmongo_client.Base.Bytes.{bytes_eq}
use libmongo_client.Base.Int.{ℤ, pos, negsuc, is_negative}
use libmongo_client.Base.Errno.{einval, erange, eproto}
use libmongo_client.Base.Call.{Call, returns, errs, fault, ◌>>=◌}
use libmongo_client.Pool.{Conn, Pool}
use libmongo_client.Util.Address.{address, refused, parse_addr}

-- `i - 1`
unfoldable pub one_less : ℕ → ℤ
one_less zero = negsuc 0
one_less (suc i) = pos i

-- A connection is used without a look at whether it is NULL.
unfoldable pub deref : Call ℕ → Call ℕ
deref (returns c) = returns c
deref (errs e) = fault
deref fault = fault

abbrev pub fresh_conn : ℕ → ℕ → Conn
fresh_conn c id = record { handle = c; pool_id = id; in_use = false }

module _ (connect : ℕ → List ℕ → ℤ → Bool → Call ℕ) (strtol : List ℕ → ℤ × List ℕ) (host : List ℕ)
    (port : ℕ) where
  -- The loop over the masters, from the index `i` on.
  unfoldable pub make_masters : ℕ → ℕ → ℕ → Call (List Conn)
  unfolding deref
  make_masters zero i k = returns []
  make_masters (suc n) i k = do
    c ← deref (connect k host (pos port) false)
    cs ← make_masters n (suc i) (suc k)
    returns (fresh_conn c i ∷ cs)

  -- `sport != port || strcmp (host, shost) != 0`
  unfoldable pub is_other : List ℕ → ℤ → Bool
  is_other shost (pos sport) = not (sport == port) || not (bytes_eq host shost)
  is_other shost (negsuc n) = true

  -- One pass of the `do` loop over the hosts that are left: the host, its port, and `j` after it.
  unfoldable pub scan : List (List ℕ) → ℕ → Option (List ℕ × ℤ × ℕ)
  unfolding is_other
  scan [] j = none
  scan (x ∷ xs) j = elim (parse_addr strtol (some x)) [
    | address shost sport ↦
        if is_other shost sport then some (shost, sport, suc j) else scan xs (suc j)
    | refused e ↦ scan xs (suc j)
  ]

  -- The next secondary from the host `j` on, and once more from the first one unless `j` was 0.
  unfoldable pub next_secondary : List (List ℕ) → ℕ → Option (List ℕ × ℤ × ℕ)
  unfolding scan
  next_secondary hosts j = elim (scan (drop j hosts) j) [
    | some hit ↦ some hit
    | none ↦ if j == 0 then none else scan hosts 0
  ]

  -- The loop over the slaves, from the index `i` on: `nslaves` at its end, and the slaves made.
  unfoldable pub make_slaves : ℕ → List (List ℕ) → ℕ → ℕ → ℕ → ℕ → ℕ → Call (ℤ × List Conn)
  unfolding deref one_less
  make_slaves nmasters hosts nslaves zero i j k = returns (pos nslaves, [])
  make_slaves nmasters hosts nslaves (suc n) i j k = elim (next_secondary hosts j) [
    | none ↦ returns (one_less i, [])
    | some (shost, sport, j') ↦ deref (connect k shost sport true) >>= λ c.
        make_slaves nmasters hosts nslaves n (suc i) j' (suc k) >>= λ r.
        returns (r.0, fresh_conn c (nmasters + i + 1) ∷ r.1)
  ]

  -- Behind the checks of the arguments.
  unfoldable pub make_pool : (ℕ → Bool) → (ℕ → List (List ℕ)) → ℕ → ℕ → Call Pool
  unfolding make_masters make_slaves
  make_pool is_master hosts_of nmasters nslaves = do
    c ← connect 0 host (pos port) false
    if not (is_master c) then errs eproto else do
      masters ← make_masters nmasters 0 1
      r ← make_slaves nmasters (hosts_of c) nslaves nslaves 0 0 (suc nmasters)
      returns (record { nmasters = nmasters; nslaves = r.0; masters = masters; slaves = r.1 })

module _ (connect : ℕ → List ℕ → ℤ → Bool → Call ℕ) (strtol : List ℕ → ℤ × List ℕ)
    (is_master : ℕ → Bool) (hosts_of : ℕ → List (List ℕ)) where
  -- `nmasters + nslaves` is an `int`.
  unfoldable pub counted_pool : List ℕ → ℕ → ℤ → ℤ → Call Pool
  unfolding make_pool
  counted_pool host port (negsuc m) nslaves = errs erange
  counted_pool host port (pos m) (negsuc n) = errs erange
  counted_pool host port (pos m) (pos n) =
      let total = (m + n) % 2 ^ 32 in
      if is_negative total || total == 0
      then errs einval
      else make_pool connect strtol host port is_master hosts_of m n

  unfoldable pub pool_new : Option (List ℕ) → ℤ → ℤ → ℤ → Call Pool
  unfolding counted_pool
  pool_new none port nmasters nslaves = errs einval
  pool_new (some host) (negsuc p) nmasters nslaves = errs einval
  pool_new (some host) (pos p) nmasters nslaves = counted_pool host p nmasters nslaves
