-- ===== src/Sync/Insert.antt =====
-- src/mongo-sync.c: inserting documents, in as many packets as the size of the connection's inserts
-- wants. The connection is not NULL.
pub mod Batch
pub mod Kept
pub mod Rounds
use libmongo_client.Base.{
  ℕ, zero, suc, ◌+◌, ◌-◌, ◌%◌, ◌^◌, Bool, true, false, not, ◌||◌, Option, none, some, List, [], ◌∷◌,
  length, drop, ◌==◌, if◌then◌else◌,
}
use libmongo_client.Base.Int.{ℤ, pos, negsuc, word, half32, slt, is_negative}
use libmongo_client.Base.Errno.{Errno, einval, emsgsize}
use libmongo_client.Base.Call
use libmongo_client.Base.Call.{Call, returns, errs}
use libmongo_client.Base.Run.{Run, gives, stops, crashes, loops}
use libmongo_client.Bson.Object.{Bson, size}
use libmongo_client.Wire.Packet.{Packet}
use libmongo_client.Wire.Commands
use libmongo_client.Wire.Commands.{any_open, some_all}
use libmongo_client.Client.{Net}
use libmongo_client.Sync.Connection.{SyncConn, set_last_error}
use libmongo_client.Sync.LastError.{verify_result}
use libmongo_client.Sync.Master.{next_id}
use libmongo_client.Sync.Send.{packet_send}

-- The first loop: a document of at least the maximal size is refused. None reads past the array.
unfoldable pub sizes_fit : ℕ → ℕ → List (Option Bson) → Call (Unit {0})
sizes_fit max zero docs = returns tt
sizes_fit max (suc n) [] = Call.fault
sizes_fit max (suc n) (d ∷ docs) = if slt (size d) max then sizes_fit max n docs else errs emsgsize

-- `while (i < n && size < max)`, with `left` documents from the one at `i` on: how many it goes over,
-- and whether it stops before the last of them. The size is a `gint32`.
unfoldable pub fill : ℕ → ℕ → List (Option Bson) → ℕ → Option (ℕ × Bool)
fill max zero docs total = some (0, false)
fill max (suc left) [] total = if slt total max then none else some (0, true)
fill max (suc left) (d ∷ docs) total =
    let rest = fill max left docs ((total + size d) % 2 ^ 32) in
    if slt total max
    then (elim rest [ none ↦ none | some (c, early) ↦ some (suc c, early) ])
    else some (0, true)

-- `if (i < n) c--;`
unfoldable pub batch_count : ℕ → Bool → ℤ
batch_count c false = pos c
batch_count zero true = negsuc 0
batch_count (suc c) true = pos c

-- The maximal size as its pattern.
abbrev pub max_size : SyncConn → ℕ
max_size c = word half32 c.max_insert_size

-- The number of documents of the next packet; none reads past the array.
unfoldable pub next_batch : ℕ → ℕ → List (Option Bson) → Option ℤ
unfolding fill batch_count
next_batch max left docs = elim (fill max left docs 0) [
  | none ↦ none
  | some (c, early) ↦ some (batch_count c early)
]

module _ {W : Type 0} (net : Net W) (junk : ℕ) (strerror : Errno → List ℕ)
    (reconnect : Bool → SyncConn → W → Run (SyncConn × W) (Unit {0})) where
  -- A packet with this number of documents is sent, and its result looked at.
  unfoldable pub send_batch :
      List ℕ → ℤ → List (Option Bson) → SyncConn → W → Run (SyncConn × W) (Unit {0})
  send_batch ns count docs c w =
      elim (Commands.cmd_insert_n junk (next_id c) (some ns) count (some docs)) [
        | errs e ↦ stops e (c, w)
        | Call.fault ↦ crashes
        | returns p ↦ elim (packet_send net junk reconnect p true true c w) [
          | gives u (c1, w1) ↦ verify_result net junk strerror ns c1 w1
          | stops e (c1, w1) ↦ stops e (set_last_error strerror c1 e, w1)
          | crashes ↦ crashes
          | loops ↦ loops
        ]
      ]

  -- The outer loop, on fuel. Each round sends a document at least, or ends the call.
  unfoldable pub insert_rounds :
      ℕ → List ℕ → ℕ → List (Option Bson) → SyncConn → W → Run (SyncConn × W) (Unit {0})
  unfolding next_batch send_batch
  insert_rounds zero ns left docs c w = loops
  insert_rounds (suc fuel) ns left docs c w = elim (next_batch (max_size c) left docs) [
    | none ↦ crashes
    | some count ↦ elim (send_batch ns count docs c w) [
      -- a packet of a negative number of documents was refused
      | gives u (c1, w1) ↦ elim count [
        | negsuc n ↦ loops
        | pos n ↦ elim (left - n) [
          | zero ↦ gives tt (c1, w1)
          | suc more ↦ insert_rounds fuel ns (suc more) (drop n docs) c1 w1
        ]
      ]
      | stops e s ↦ stops e s
      | crashes ↦ crashes
      | loops ↦ loops
    ]
  ]

  unfoldable pub cmd_insert_n :
      Option (List ℕ)
      → ℤ
      → Option (List (Option Bson))
      → SyncConn
      → W
      → Run (SyncConn × W) (Unit {0})
  unfolding sizes_fit insert_rounds
  cmd_insert_n none n docs c w = stops einval (c, w)
  cmd_insert_n (some ns) n none c w = stops einval (c, w)
  cmd_insert_n (some ns) (negsuc n) (some docs) c w = stops einval (c, w)
  cmd_insert_n (some ns) (pos zero) (some docs) c w = stops einval (c, w)
  cmd_insert_n (some ns) (pos (suc n)) (some docs) c w =
      elim (sizes_fit (max_size c) (suc n) docs) [
        | errs e ↦ stops e (c, w)
        | Call.fault ↦ crashes
        | returns u ↦ insert_rounds (suc n) ns (suc n) docs c w
      ]

  -- The documents are the arguments before the final NULL.
  unfoldable pub cmd_insert :
      Option (List ℕ) → List Bson → SyncConn → W → Run (SyncConn × W) (Unit {0})
  unfolding cmd_insert_n any_open some_all
  cmd_insert none docs c w = stops einval (c, w)
  cmd_insert (some ns) docs c w =
      if any_open docs
      then stops einval (c, w)
      else cmd_insert_n (some ns) (pos (length docs)) (some (some_all docs)) c w
