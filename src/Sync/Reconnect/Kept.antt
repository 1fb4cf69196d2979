-- ===== src/Sync/Reconnect/Kept.antt =====
-- src/mongo-sync.c: connecting anew keeps the settings of the connection.
use libmongo_client.Base.{
  ℕ, ◌≡◌, ap, sym, ◌∙◌, Bool, true, false, not, ◌||◌, Option, some, List, inl, inr, Bool-cases,
}
use libmongo_client.Base.Errno.{Errno, is_eproto, no_error}
use libmongo_client.Base.Result.{Result, ok, fails}
use libmongo_client.Base.Run.{Run, lift}
use libmongo_client.Bson.Object.{Bson}
use libmongo_client.Wire.Packet.{Packet}
use libmongo_client.Client.{Net}
use libmongo_client.Sync.Connection.{SyncConn, Credentials}
use libmongo_client.Sync.Master.{cmd_ping, cmd_is_master, send_once, first_document}
use libmongo_client.Sync.Send.{
  recover, ensure_master, ensure_answer, ensure_conn, send_again, packet_send, custom,
}
use libmongo_client.Sync.Nonce.{read_nonce, auth_command}
use libmongo_client.Sync.Authenticate.{answer_nonce, authenticate_as}
use libmongo_client.Sync.Reconnect.Settings.{Settings, settings, Keeps, Keeps-bind, Keeps-cases}
use libmongo_client.Sync.Reconnect.Replies.{
  cmd_ping-Keeps, cmd_is_master-Keeps, custom_by-Keeps, send_once-Keeps, first_document-Keeps,
}

module _ {W : Type 0} (net : Net W) (junk : ℕ)
    (reconnect : Bool → SyncConn → W → Run (SyncConn × W) (Unit {0}))
    (again : (s : Settings) (force : Bool) (c : SyncConn) (w : W)
      → settings c ≡ s
      → Keeps s (reconnect force c w)) where
  recover-Keeps :
      (s : Settings) (force : Bool) (e : Errno) (c : SyncConn) (w : W)
      → settings c ≡ s
      → Keeps s (recover net junk reconnect force e c w)
  unfolding recover
  recover-Keeps s force e c w k = elim (Bool-cases (is_eproto e)) [
    | inl p ↦ rw p k
    | inr p ↦ elim (Bool-cases (not c.auto_reconnect)) [
      | inl a ↦ rw p (rw a k)
      | inr a ↦ rw p (rw a (again s force c w k))
    ]
  ]

  ensure_master-Keeps :
      (s : Settings) (c : SyncConn) (w : W)
      → settings c ≡ s
      → Keeps s (ensure_master net junk reconnect c w)
  unfolding ensure_master
  ensure_master-Keeps s c w k =
      elim (Keeps-cases s (cmd_is_master net junk c w) (cmd_is_master-Keeps net junk s c w k)) [
        | inl (b, c1, w1, h, k1) ↦ elim (Bool-cases b) [
          | inl t ↦ rw (h, ensure_master) (rw t k1)
          | inr f ↦ rw (h, ensure_master) (rw f (recover-Keeps s true no_error c1 w1 k1))
        ]
        | inr (inl (e, c1, w1, h, k1)) ↦ rw (h, ensure_master) (recover-Keeps s true e c1 w1 k1)
        | inr (inr (inl h)) ↦ rw (h, ensure_master) tt
        | inr (inr (inr h)) ↦ rw (h, ensure_master) tt
      ]

  ensure_answer-Keeps :
      (s : Settings) (c : SyncConn) (w : W)
      → settings c ≡ s
      → Keeps s (ensure_answer net junk reconnect c w)
  unfolding ensure_answer
  ensure_answer-Keeps s c w k =
      elim (Keeps-cases s (cmd_ping net junk c w) (cmd_ping-Keeps net junk s c w k)) [
        | inl (u, c1, w1, h, k1) ↦ rw (h, ensure_answer) k1
        | inr (inr (inl h)) ↦ rw (h, ensure_answer) tt
        | inr (inr (inr h)) ↦ rw (h, ensure_answer) tt
        | inr (inl (e, c1, w1, h, k1)) ↦ elim (Bool-cases (is_eproto e)) [
          | inl p ↦ rw (h, ensure_answer) (rw p k1)
          | inr p ↦ elim (Bool-cases (not c1.auto_reconnect)) [
            | inl a ↦ rw (h, ensure_answer) (rw p (rw a k1))
            | inr a ↦ elim (Keeps-cases s (reconnect false c1 w1) (again s false c1 w1 k1)) [
              | inl (u, c2, w2, r, k2) ↦ rw (h, ensure_answer) (rw p (rw a (rw r k2)))
              | inr (inl (e2, c2, w2, r, k2)) ↦ rw (h, ensure_answer) (rw p (rw a (rw r k2)))
              | inr (inr (inl r)) ↦ rw (h, ensure_answer) (rw p (rw a (rw r tt)))
              | inr (inr (inr r)) ↦ rw (h, ensure_answer) (rw p (rw a (rw r tt)))
            ]
          ]
        ]
      ]

  pub ensure_conn-Keeps :
      (s : Settings) (force : Bool) (c : SyncConn) (w : W)
      → settings c ≡ s
      → Keeps s (ensure_conn net junk reconnect force c w)
  unfolding ensure_conn
  ensure_conn-Keeps s force c w k = elim (Bool-cases (force || not c.slaveok)) [
    | inl t ↦ rw t (ensure_master-Keeps s c w k)
    | inr f ↦ rw f (ensure_answer-Keeps s c w k)
  ]

  send_again-Keeps :
      (s : Settings) (p : Packet) (force auto : Bool) (c : SyncConn) (w : W)
      → settings c ≡ s
      → Keeps s (send_again net junk reconnect p force auto c w)
  unfolding send_again
  send_again-Keeps s p force auto c w k =
      elim (Keeps-cases s (send_once net junk p c w) (send_once-Keeps net junk s p c w k)) [
        | inl (u, c1, w1, h, k1) ↦ rw (h, send_again) k1
        | inr (inr (inl h)) ↦ rw (h, send_again) tt
        | inr (inr (inr h)) ↦ rw (h, send_again) tt
        | inr (inl (e, c1, w1, h, k1)) ↦ elim (Bool-cases (not auto || not c1.auto_reconnect)) [
          | inl a ↦ rw (h, send_again) (rw a k1)
          | inr a ↦ elim (Keeps-cases s (reconnect force c1 w1) (again s force c1 w1 k1)) [
            | inl (u, c2, w2, r, k2) ↦
                rw (h, send_again) (rw a (rw r (send_once-Keeps net junk s p c2 w2 k2)))
            | inr (inl (e2, c2, w2, r, k2)) ↦ rw (h, send_again) (rw a (rw r k2))
            | inr (inr (inl r)) ↦ rw (h, send_again) (rw a (rw r tt))
            | inr (inr (inr r)) ↦ rw (h, send_again) (rw a (rw r tt))
          ]
        ]
      ]

  pub packet_send-Keeps :
      (s : Settings) (p : Packet) (force auto : Bool) (c : SyncConn) (w : W)
      → settings c ≡ s
      → Keeps s (packet_send net junk reconnect p force auto c w)
  unfolding packet_send
  packet_send-Keeps s p true auto c w k =
      Keeps-bind s (ensure_conn net junk reconnect true c w) _ (ensure_conn-Keeps s true c w k)
        λ u c1 w1 k1. send_again-Keeps s p true auto c1 w1 k1
  packet_send-Keeps s p false auto c w k = send_again-Keeps s p false auto c w k

  pub custom-Keeps :
      (s : Settings) (force : Bool) (db : Option (List ℕ)) (command : Option Bson) (c : SyncConn)
      (w : W)
      → settings c ≡ s
      → Keeps s (custom net junk reconnect force db command c w)
  unfolding custom
  custom-Keeps s force db command c w k =
      custom_by-Keeps net junk s _ db command c w
        (λ p c' w' k'. packet_send-Keeps s p force true c' w' k') k

  lift-Keeps {ℓ} :
      {A : Type ℓ} (s : Settings) (e : Errno) (c : SyncConn) (w : W) (r : Result A)
      → settings c ≡ s
      → Keeps s (lift e (c, w) r)
  lift-Keeps s e c w (ok a) k = k
  lift-Keeps s e c w fails k = k
  lift-Keeps s e c w Result.fault k = tt
  lift-Keeps s e c w Result.spins k = tt

  module _ (md5 : List ℕ → List ℕ) (db user pw : List ℕ) where
    abbrev these : Credentials
    these = record { db = some db; user = some user; pw = some pw }

    answer_nonce-Keeps :
        (s : Settings) (nonce : List ℕ) (c : SyncConn) (w : W)
        → s.auth ≡ these
        → settings c ≡ s
        → Keeps s (answer_nonce net junk md5 reconnect db user pw nonce c w)
    unfolding answer_nonce
    answer_nonce-Keeps s nonce c w a k =
        Keeps-bind s (lift _ (c, w) (auth_command md5 user pw nonce)) _ (lift-Keeps s _ c w _ k)
          λ cmd c1 w1 k1.
            Keeps-bind s (custom net junk reconnect false (some db) cmd c1 w1) _
              (custom-Keeps s false _ cmd c1 w1 k1)
              λ reply c2 w2 k2.
                ap (λ (t : Settings). record t { auth = these }) k2
                ∙ ap (λ (t : Credentials). record s { auth = t }) (sym a)

    pub authenticate_as-Keeps :
        (s : Settings) (c : SyncConn) (w : W)
        → s.auth ≡ these
        → settings c ≡ s
        → Keeps s (authenticate_as net junk md5 reconnect db user pw c w)
    unfolding authenticate_as
    authenticate_as-Keeps s c w a k =
        Keeps-bind s (custom net junk reconnect false (some db) _ c w) _
          (custom-Keeps s false _ _ c w k)
          λ p c1 w1 k1.
            Keeps-bind s (first_document net junk p c1 w1) _
              (first_document-Keeps net junk s p c1 w1 k1)
              λ b c2 w2 k2.
                Keeps-bind s (lift _ (c2, w2) (read_nonce b)) _ (lift-Keeps s _ c2 w2 _ k2)
                  λ nonce c3 w3 k3. answer_nonce-Keeps s nonce c3 w3 a k3
