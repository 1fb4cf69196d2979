-- ===== src/Pool/Examples.antt =====
-- The theorems on src/mongo-sync-pool.c at a pool with two masters and a slave.
use libmongo_client.Base.{ℕ, ◌≡◌, refl, Bool, true, false, some, List, [], ◌∷◌}
use libmongo_client.Base.Int.{ℤ, pos}
use libmongo_client.Base.Call.{Call, returns}
use libmongo_client.Pool.{Conn, Pool, pick_from, pick_master, pick, give_back}
use libmongo_client.Pool.Turns.{here, picked, freed, give_back-Steps}
use libmongo_client.Pool.Made.{Made}
use libmongo_client.Pool.Slots.{IsPool, give_back-pick}

abbrev busy_master : Conn
busy_master = record { handle = 10; pool_id = 0; in_use = true }

abbrev free_master : Conn
free_master = record { handle = 11; pool_id = 1; in_use = false }

abbrev slave : Bool → Conn
slave b = record { handle = 12; pool_id = 3; in_use = b }

abbrev two_and_one : Bool → Pool
two_and_one b = record {
  nmasters = 2;
  nslaves = pos 1;
  masters = busy_master ∷ free_master ∷ [];
  slaves = slave b ∷ [];
}

two_and_one-IsPool : IsPool (two_and_one false)
two_and_one-IsPool = record {
  master_ids = (refl, (refl, tt));
  slave_ids = (refl, tt);
  master_count = refl;
  slave_count = refl;
}

slave_picked : pick (some (two_and_one false)) false ≡ returns (two_and_one true, slave true)
unfolding pick pick_from
slave_picked = refl

give_back-pick_example :
    give_back (some (two_and_one true)) (some (slave true)) ≡ returns (two_and_one false)
give_back-pick_example =
    give_back-pick (two_and_one false) (two_and_one true) (slave true) false two_and_one-IsPool
      slave_picked

-- While a slave is handed out, another client picks the free master.
abbrev all_out : Pool
all_out = record (two_and_one true) {
  masters = busy_master ∷ record free_master { in_use = true } ∷ [];
}

master_picked :
    pick (some (two_and_one true)) true ≡ returns (all_out, record free_master { in_use = true })
unfolding pick pick_master pick_from
master_picked = refl

give_back-Steps_example :
    (give_back (some all_out) (some (slave true)) ≡ returns (freed 3 all_out))
    × IsPool (freed 3 all_out)
give_back-Steps_example =
    give_back-Steps (two_and_one false) (two_and_one true) all_out (slave true) false
      two_and_one-IsPool slave_picked
      (picked (record free_master { in_use = true }) true here master_picked)

-- Every attempt to connect succeeds, every server is a master, and its set has one more host.
abbrev numbered : ℕ → List ℕ → ℤ → Bool → Call ℕ
numbered k host port slave_ok = returns k

abbrev always : ℕ → Bool
always c = true

abbrev other_host : ℕ → List (List ℕ)
other_host c = (b'o' ∷ []) ∷ []

abbrev no_digits : List ℕ → ℤ × List ℕ
no_digits xs = (pos 0, xs)
