-- ===== src/Sync/Insert/Kept.antt =====
-- src/mongo-sync.c: asking for errors and sending a packet of an insert keep the settings of the
-- connection.
use libmongo_client.Base.{ℕ, ◌≡◌, Bool, true, not, Option, none, some, List, inl, inr, Bool-cases}
use libmongo_client.Base.Int.{ℤ}
use libmongo_client.Base.Errno.{Errno}
use libmongo_client.Base.Call.{Call-cases}
use libmongo_client.Base.Result.{Result, ok, fails}
use libmongo_client.Base.Run.{Run, gives, stops, crashes, loops}
use libmongo_client.Bson.Object.{Bson}
use libmongo_client.Wire.Commands
use libmongo_client.Client.{Net}
use libmongo_client.Sync.Connection.{SyncConn, set_last_error}
use libmongo_client.Sync.Reply.{get_error}
use libmongo_client.Sync.Master.{custom_once, next_id}
use libmongo_client.Sync.LastError.{
  noting, get_last_error_full, report_error, get_last_error, judged, verify_result, db_of,
}
use libmongo_client.Sync.Send.{packet_send}
use libmongo_client.Sync.Insert.{send_batch}
use libmongo_client.Sync.Reconnect.Settings.{Settings, settings, Keeps, Keeps-bind, Keeps-cases}
use libmongo_client.Sync.Reconnect.Replies.{custom_once-Keeps, first_document-Keeps}
use libmongo_client.Sync.Reconnect.Kept.{packet_send-Keeps}

module _ {W : Type 0} (net : Net W) (junk : ℕ) (strerror : Errno → List ℕ) where
  noting-Keeps {ℓ} :
      {A : Type ℓ} (s : Settings) (r : Run (SyncConn × W) A)
      → Keeps s r
      → Keeps s (noting net junk strerror r)
  unfolding set_last_error
  noting-Keeps s (gives a (c, w)) k = k
  noting-Keeps s (stops e (c, w)) k = k
  noting-Keeps s crashes k = tt
  noting-Keeps s loops k = tt

  report_error-Keeps :
      (s : Settings) (r : Result (Option (List ℕ))) (c : SyncConn) (w : W)
      → settings c ≡ s
      → Keeps s (report_error net junk strerror r c w)
  unfolding report_error set_last_error
  report_error-Keeps s (ok none) c w k = k
  report_error-Keeps s (ok (some t)) c w k = k
  report_error-Keeps s fails c w k = k
  report_error-Keeps s Result.fault c w k = tt
  report_error-Keeps s Result.spins c w k = tt

  get_last_error-Keeps :
      (s : Settings) (db : Option (List ℕ)) (c : SyncConn) (w : W)
      → settings c ≡ s
      → Keeps s (get_last_error net junk strerror db c w)
  unfolding get_last_error get_last_error_full
  get_last_error-Keeps s db c w k =
      Keeps-bind s (get_last_error_full net junk strerror db c w) _
        (noting-Keeps s _ (
          Keeps-bind s (custom_once net junk db _ c w) _ (custom_once-Keeps net junk s db _ c w k)
            λ p c1 w1 k1. first_document-Keeps net junk s p c1 w1 k1))
        λ b c1 w1 k1. report_error-Keeps s (get_error b) c1 w1 k1

  judged-Keeps :
      (s : Settings) (error : Option (List ℕ)) (c : SyncConn) (w : W)
      → settings c ≡ s
      → Keeps s (judged net junk strerror error (c, w))
  judged-Keeps s none c w k = k
  judged-Keeps s (some t) c w k = k

  verify_result-Keeps :
      (s : Settings) (ns : List ℕ) (c : SyncConn) (w : W)
      → settings c ≡ s
      → Keeps s (verify_result net junk strerror ns c w)
  unfolding verify_result
  verify_result-Keeps s ns c w k = elim (Bool-cases (not c.safe_mode)) [
    | inl b ↦ rw b k
    | inr b ↦ rw b (
        Keeps-bind s (get_last_error net junk strerror (some (db_of net junk strerror ns)) c w) _
          (get_last_error-Keeps s _ c w k) (judged-Keeps s))
  ]

  module _ (reconnect : Bool → SyncConn → W → Run (SyncConn × W) (Unit {0}))
      (again : (s : Settings) (force : Bool) (c : SyncConn) (w : W)
        → settings c ≡ s
        → Keeps s (reconnect force c w)) where
    pub send_batch-Keeps :
        (s : Settings) (ns : List ℕ) (count : ℤ) (docs : List (Option Bson)) (c : SyncConn) (w : W)
        → settings c ≡ s
        → Keeps s (send_batch net junk strerror reconnect ns count docs c w)
    unfolding send_batch set_last_error
    send_batch-Keeps s ns count docs c w k =
        elim (Call-cases (Commands.cmd_insert_n junk (next_id c) (some ns) count (some docs))) [
          | inr (inl (e, h)) ↦ rw (h, send_batch) k
          | inr (inr h) ↦ rw (h, send_batch) tt
          | inl (p, h) ↦
              elim (Keeps-cases s (packet_send net junk reconnect p true true c w)
                (packet_send-Keeps net junk reconnect again s p true true c w k)) [
                  | inl (u, c1, w1, g, k1) ↦
                      rw (h, send_batch) (rw (g, send_batch) (verify_result-Keeps s ns c1 w1 k1))
                  | inr (inl (e, c1, w1, g, k1)) ↦ rw (h, send_batch) (rw (g, send_batch) k1)
                  | inr (inr (inl g)) ↦ rw (h, send_batch) (rw (g, send_batch) tt)
                  | inr (inr (inr g)) ↦ rw (h, send_batch) (rw (g, send_batch) tt)
                ]
        ]
