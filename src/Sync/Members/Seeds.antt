-- ===== src/Sync/Members/Seeds.antt =====
-- src/mongo-sync.c: what a server tells of the replica set leaves the seeds alone.
use libmongo_client.Base.{ℕ, ◌≡◌, refl, ◌∙◌, Bool, true, false, Option, none, some, List, not, ◌==◌}
use libmongo_client.Base.Result.{Result, ok, fails, fault, spins, Yields, Yields-bind, ◌>>=◌}
use libmongo_client.Bson.Object.{Bson}
use libmongo_client.Bson.Get.{get_boolean}
use libmongo_client.Sync.Connection.{ReplicaSet}
use libmongo_client.Sync.Members.{
  host_list, string_at, with_primary, with_hosts, learn_primary, take_hosts, learn_hosts,
  read_master,
}

abbrev SameSeeds : ReplicaSet → ReplicaSet → Type 0
SameSeeds rs rs' = rs'.seeds ≡ rs.seeds

with_primary-SameSeeds : (rs : ReplicaSet) (s : Option (List ℕ)) → SameSeeds rs (with_primary rs s)
with_primary-SameSeeds rs none = refl
with_primary-SameSeeds rs (some p) = refl

with_hosts-SameSeeds :
    (rs : ReplicaSet) (hs : List (List ℕ)) (ps : Option (List (List ℕ)))
    → SameSeeds rs (with_hosts rs hs ps)
with_hosts-SameSeeds rs hs none = refl
with_hosts-SameSeeds rs hs (some ps) = refl

learn_primary-SameSeeds :
    (b : Bool) (res : Option Bson) (rs : ReplicaSet)
    → Yields (SameSeeds rs) (learn_primary b res rs)
unfolding learn_primary
learn_primary-SameSeeds true res rs = refl
learn_primary-SameSeeds false res rs =
    Yields-bind (SameSeeds rs) _ _
      λ c. Yields-bind (SameSeeds rs) (string_at c) _ (with_primary-SameSeeds rs)

take_hosts-SameSeeds :
    (res : Option Bson) (rs : ReplicaSet) (hosts : Option (List (List ℕ)))
    → Yields (SameSeeds rs) (take_hosts res rs hosts)
unfolding take_hosts
take_hosts-SameSeeds res rs none = refl
take_hosts-SameSeeds res rs (some hs) =
    Yields-bind (SameSeeds rs) (host_list res _) _ (with_hosts-SameSeeds rs hs)

learn_hosts-SameSeeds :
    (res : Option Bson) (rs : ReplicaSet) → Yields (SameSeeds rs) (learn_hosts res rs)
unfolding learn_hosts
learn_hosts-SameSeeds res rs =
    Yields-bind (SameSeeds rs) (host_list res _) _ (take_hosts-SameSeeds res rs)

-- A bind whose first part has a property that the second part uses.
Yields-then {ℓ κ μ ν} :
    {A : Type ℓ} {B : Type κ} (P : A → Type μ) (Q : B → Type ν) (r : Result A) (f : A → Result B)
    → Yields P r
    → ((a : A) → P a → Yields Q (f a))
    → Yields Q (r >>= f)
Yields-then P Q (ok a) f p h = h a p
Yields-then P Q fails f p h = tt
Yields-then P Q fault f p h = tt
Yields-then P Q spins f p h = tt

-- `mongo_sync_cmd_is_master` leaves the seeds as they are, whatever the server's document holds.
pub read_master-SameSeeds :
    (res : Option Bson) (rs : ReplicaSet)
    → Yields (λ (r : Bool × ReplicaSet). SameSeeds rs (r.1)) (read_master res rs)
unfolding read_master
read_master-SameSeeds res rs =
    let P = λ (r : Bool × ReplicaSet). SameSeeds rs (r.1) in
    Yields-bind P _ _ λ c. Yields-bind P (get_boolean c) _ λ b.
      Yields-then (SameSeeds rs) P (learn_primary (not (b == 0)) res rs) _
        (learn_primary-SameSeeds _ res rs)
        λ rs1 h1.
          Yields-then (SameSeeds rs1) P (learn_hosts res rs1) _ (learn_hosts-SameSeeds res rs1)
            λ rs2 h2. h2 ∙ h1
