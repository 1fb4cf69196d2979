-- ===== src/Sync/LastError.antt =====
-- src/mongo-sync.c: asking for the error of the last write. The connection is not NULL; `strerror` is
-- that of the C library.
use libmongo_client.Base.{ℕ, not, Option, none, some, List, [], ◌∷◌, if◌then◌else◌}
use libmongo_client.Base.Int.{pos}
use libmongo_client.Base.Errno.{Errno, no_error, eproto}
use libmongo_client.Base.Result.{Result, ok, fails}
use libmongo_client.Base.Run.{Run, gives, stops, crashes, loops, ◌>>=◌}
use libmongo_client.Bson.Object.{Bson}
use libmongo_client.Util.Address.{split_first}
use libmongo_client.Client.{Net}
use libmongo_client.Sync.Connection.{SyncConn, set_last_error}
use libmongo_client.Sync.Reply.{get_error}
use libmongo_client.Sync.Master.{custom_once, one_command, first_document}

-- "getlasterror" and "reseterror"
abbrev pub key_getlasterror : List ℕ
key_getlasterror =
    b'g' ∷ b'e' ∷ b't' ∷ b'l' ∷ b'a' ∷ b's' ∷ b't' ∷ b'e' ∷ b'r' ∷ b'r' ∷ b'o' ∷ b'r' ∷ []

abbrev pub key_reseterror : List ℕ
key_reseterror = b'r' ∷ b'e' ∷ b's' ∷ b'e' ∷ b't' ∷ b'e' ∷ b'r' ∷ b'r' ∷ b'o' ∷ b'r' ∷ []

module _ {W : Type 0} (net : Net W) (junk : ℕ) (strerror : Errno → List ℕ) where
  -- A failure goes to `last_error` as its text.
  abbrev pub noting {ℓ} : {A : Type ℓ} → Run (SyncConn × W) A → Run (SyncConn × W) A
  noting (gives a s) = gives a s
  noting (stops e (c, w)) = stops e (set_last_error strerror c e, w)
  noting crashes = crashes
  noting loops = loops

  -- `mongo_sync_cmd_get_last_error_full`; the destination is not NULL.
  unfoldable pub get_last_error_full :
      Option (List ℕ) → SyncConn → W → Run (SyncConn × W) (Option Bson)
  unfolding custom_once one_command first_document
  get_last_error_full db c w = noting (
      custom_once net junk db (one_command (pos 64) key_getlasterror) c w >>= λ p (c1, w1).
      first_document net junk p c1 w1)

  -- The error of the document, or the one that the connection remembers from before.
  unfoldable pub report_error :
      Result (Option (List ℕ)) → SyncConn → W → Run (SyncConn × W) (Option (List ℕ))
  report_error (ok none) c w = gives c.last_error (c, w)
  report_error (ok (some s)) c w = gives (some s) (record c { last_error = some s }, w)
  report_error fails c w = stops eproto (set_last_error strerror c eproto, w)
  report_error Result.fault c w = crashes
  report_error Result.spins c w = loops

  -- `mongo_sync_cmd_get_last_error`, with what it stores in `*error`.
  unfoldable pub get_last_error :
      Option (List ℕ) → SyncConn → W → Run (SyncConn × W) (Option (List ℕ))
  unfolding get_last_error_full report_error
  get_last_error db c w =
      get_last_error_full db c w >>= λ b (c1, w1). report_error (get_error b) c1 w1

  unfoldable pub reset_error : Option (List ℕ) → SyncConn → W → Run (SyncConn × W) (Unit {0})
  unfolding custom_once one_command
  reset_error db c w =
      custom_once net junk db (one_command (pos 32) key_reseterror) (record c { last_error = none })
        w
      >>= λ p s. gives tt s

  -- The database of a namespace: what stands before the first dot.
  abbrev pub db_of : List ℕ → List ℕ
  db_of ns = elim (split_first b'.' ns) [ none ↦ ns | some (db, rest) ↦ db ]

  -- `res && ((error) ? FALSE : TRUE)`
  abbrev pub judged : Option (List ℕ) → SyncConn × W → Run (SyncConn × W) (Unit {0})
  judged none s = gives tt s
  judged (some t) s = stops no_error s

  -- `_mongo_sync_cmd_verify_result`; the namespace is not NULL. In safe mode the write has failed
  -- where an error is reported.
  unfoldable pub verify_result : List ℕ → SyncConn → W → Run (SyncConn × W) (Unit {0})
  unfolding get_last_error
  verify_result ns c w =
      if not c.safe_mode
      then gives tt (c, w)
      else (get_last_error (some (db_of ns)) c w >>= λ error s. judged error s)
