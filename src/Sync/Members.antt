-- ===== src/Sync/Members.antt =====
-- src/mongo-sync.c: what a reply to "isMaster" tells of the replica set.
pub mod Seeds
use libmongo_client.Base.{
  ℕ, zero, suc, Bool, true, false, not, Option, none, some, List, [], ◌∷◌, ◌++◌, length, ◌==◌,
}
use libmongo_client.Base.Result
use libmongo_client.Base.Result.{Result, ok, fails, ◌>>=◌}
use libmongo_client.Bson.Object.{Bson, finish}
use libmongo_client.Bson.Cursor.{Cursor, find, cursor_new, cursor_next}
use libmongo_client.Bson.Get.{get_boolean, get_string, get_array}
use libmongo_client.Sync.Connection.{ReplicaSet}
use libmongo_client.Sync.Reply.{strdup}

abbrev pub key_ismaster : List ℕ
key_ismaster = b'i' ∷ b's' ∷ b'm' ∷ b'a' ∷ b's' ∷ b't' ∷ b'e' ∷ b'r' ∷ []

abbrev pub key_primary : List ℕ
key_primary = b'p' ∷ b'r' ∷ b'i' ∷ b'm' ∷ b'a' ∷ b'r' ∷ b'y' ∷ []

abbrev pub key_hosts : List ℕ
key_hosts = b'h' ∷ b'o' ∷ b's' ∷ b't' ∷ b's' ∷ []

abbrev pub key_passives : List ℕ
key_passives = b'p' ∷ b'a' ∷ b's' ∷ b's' ∷ b'i' ∷ b'v' ∷ b'e' ∷ b's' ∷ []

-- The string at a cursor that may be NULL; none where the getter returns FALSE.
unfoldable pub string_at : Option Cursor → Result (Option (List ℕ))
unfolding strdup
string_at c = elim (get_string c) [
  | ok mem ↦ (strdup mem >>= λ s. ok (some s))
  | fails ↦ ok none
  | Result.fault ↦ Result.fault
  | Result.spins ↦ Result.spins
]

-- A search that may find nothing: NULL.
abbrev pub found {ℓ} : {A : Type ℓ} → Result A → Result (Option A)
found (ok a) = ok (some a)
found fails = ok none
found Result.fault = Result.fault
found Result.spins = Result.spins

-- `while (bson_cursor_next (c))`: the strings of an array; the other elements are passed over.
unfoldable pub collect_strings : ℕ → Cursor → Result (List (List ℕ))
unfolding string_at
collect_strings zero c = Result.spins
collect_strings (suc n) c = elim (cursor_next (some c)) [
  | fails ↦ ok []
  | Result.fault ↦ Result.fault
  | Result.spins ↦ Result.spins
  | ok c' ↦
      (string_at (some c') >>= λ s.
      collect_strings n c' >>= λ rest. ok (elim s [ none ↦ rest | some h ↦ h ∷ rest ]))
]

-- The strings of an array that was copied out of a document. An element takes two bytes or more, so
-- these rounds are enough for a well formed one.
unfoldable pub array_strings : Bson → Result (List (List ℕ))
unfolding collect_strings
array_strings a = elim (cursor_new ((finish (some a)).0)) [
  | ok c ↦ collect_strings (suc (suc (length a.data_bytes))) c
  | fails ↦ ok []
  | Result.fault ↦ Result.fault
  | Result.spins ↦ Result.spins
]

-- The strings of the array under this name; none where there is no such array.
unfoldable pub host_list : Option Bson → List ℕ → Result (Option (List (List ℕ)))
unfolding array_strings
host_list res name = found (find res (some name)) >>= λ c. found (get_array c) >>= λ a. elim a [
  | none ↦ ok none
  | some b ↦ (array_strings b >>= λ l. ok (some l))
]

abbrev pub with_primary : ReplicaSet → Option (List ℕ) → ReplicaSet
with_primary rs none = rs
with_primary rs (some p) = record rs { primary = some p }

-- The hosts, and behind them the passive members.
abbrev pub with_hosts : ReplicaSet → List (List ℕ) → Option (List (List ℕ)) → ReplicaSet
with_hosts rs hs none = record rs { hosts = hs }
with_hosts rs hs (some ps) = record rs { hosts = hs ++ ps }

-- What the document tells of the replica set: a primary where the server is no master, then the
-- hosts and the passive members, unless there are no hosts.
unfoldable pub learn_primary : Bool → Option Bson → ReplicaSet → Result ReplicaSet
learn_primary true res rs = ok rs
learn_primary false res rs =
    found (find res (some key_primary)) >>= λ c. string_at c >>= λ s. ok (with_primary rs s)

unfoldable pub take_hosts : Option Bson → ReplicaSet → Option (List (List ℕ)) → Result ReplicaSet
unfolding host_list
take_hosts res rs none = ok rs
take_hosts res rs (some hs) = host_list res key_passives >>= λ ps. ok (with_hosts rs hs ps)

unfoldable pub learn_hosts : Option Bson → ReplicaSet → Result ReplicaSet
unfolding host_list take_hosts
learn_hosts res rs = host_list res key_hosts >>= λ hosts. take_hosts res rs hosts

-- The master flag of the document, and the replica set; a flag that cannot be read fails.
unfoldable pub read_master : Option Bson → ReplicaSet → Result (Bool × ReplicaSet)
unfolding learn_primary learn_hosts
read_master res rs = found (find res (some key_ismaster)) >>= λ c. get_boolean c >>= λ b.
    let master = not (b == 0) in
    learn_primary master res rs >>= λ rs1. learn_hosts res rs1 >>= λ rs2. ok (master, rs2)
