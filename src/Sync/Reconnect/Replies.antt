-- ===== src/Sync/Reconnect/Replies.antt =====
-- src/mongo-sync.c: commands keep the settings of the connection.
use libmongo_client.Base.{ℕ, ◌≡◌, ap, ◌∙◌, Bool, true, Option, some, List, inl, inr, Bool-cases}
use libmongo_client.Base.Int.{pos}
use libmongo_client.Base.Call.{Call-cases}
use libmongo_client.Base.Errno.{Errno, eproto}
use libmongo_client.Base.Result.{Result, ok, fails, Yields}
use libmongo_client.Base.Run.{Run, gives, stops, crashes, loops, ◌>>=◌, lift, Run-cases}
use libmongo_client.Bson.Object.{Bson}
use libmongo_client.Wire.Packet.{Packet}
use libmongo_client.Client.{Conn, Net}
use libmongo_client.Client
use libmongo_client.Wire.Commands
use libmongo_client.Wire.Reply.{reply_get_nth_document}
use libmongo_client.Sync.Connection.{SyncConn, ReplicaSet}
use libmongo_client.Sync.Reply.{
  on_super, note_error, demand_ok, refuse_error, Verdict, fine, wrong, broken, endless, check_error,
  packet_recv, accept_reply,
}
use libmongo_client.Sync.Master.{
  next_id, slave_flag, custom_by, send_once, custom_once, cmd_ping, cmd_is_master, first_document,
}
use libmongo_client.Sync.Reconnect.Settings.{Settings, settings, Keeps, Keeps-bind}
use libmongo_client.Sync.Members.Seeds.{read_master-SameSeeds}

module _ {W : Type 0} where
  pub on_super-Keeps {ℓ} :
      {A : Type ℓ} (s : Settings) (c : SyncConn) (r : Run (Conn × W) A)
      → settings c ≡ s
      → Keeps s (on_super c r)
  unfolding on_super
  on_super-Keeps s c (gives a (d, w)) k = k
  on_super-Keeps s c (stops e (d, w)) k = k
  on_super-Keeps s c crashes k = tt
  on_super-Keeps s c loops k = tt

  pub note_error-Keeps :
      (s : Settings) (v : Result (Option (List ℕ))) (c : SyncConn) (w : W) (e : Errno)
      → settings c ≡ s
      → Keeps s (note_error v c w e)
  note_error-Keeps s (ok v) c w e k = k
  note_error-Keeps s fails c w e k = k
  note_error-Keeps s Result.fault c w e k = tt
  note_error-Keeps s Result.spins c w e k = tt

  demand_ok-Keeps :
      (s : Settings) (v : Verdict) (r : Result (Option (List ℕ))) (p : Packet) (c : SyncConn)
      (w : W)
      → settings c ≡ s
      → Keeps s (demand_ok v r p c w)
  unfolding demand_ok
  demand_ok-Keeps s fine r p c w k = k
  demand_ok-Keeps s (wrong e) r p c w k = note_error-Keeps s r c w e k
  demand_ok-Keeps s broken r p c w k = tt
  demand_ok-Keeps s endless r p c w k = tt

  refuse_error-Keeps :
      (s : Settings) (r : Result (Option (List ℕ))) (p : Packet) (c : SyncConn) (w : W)
      → settings c ≡ s
      → Keeps s (refuse_error r p c w)
  unfolding refuse_error
  refuse_error-Keeps s (ok v) p c w k = k
  refuse_error-Keeps s fails p c w k = k
  refuse_error-Keeps s Result.fault p c w k = tt
  refuse_error-Keeps s Result.spins p c w k = tt

  pub check_error-Keeps :
      (s : Settings) (want_ok : Bool) (p : Packet) (c : SyncConn) (w : W)
      → settings c ≡ s
      → Keeps s (check_error want_ok p c w)
  unfolding check_error
  check_error-Keeps s want_ok p c w k =
      elim (Call-cases (reply_get_nth_document (some p) (pos 1))) [
        | inr (inl (e, h)) ↦ rw (h, check_error) k
        | inr (inr h) ↦ rw (h, check_error) tt
        | inl (b, h) ↦ elim (Bool-cases want_ok) [
          | inl t ↦ rw (h, check_error) (rw t (demand_ok-Keeps s _ _ p c w k))
          | inr f ↦ rw (h, check_error) (rw f (refuse_error-Keeps s _ p c w k))
        ]
      ]

  pub first_document-Keeps :
      (net : Net W) (junk : ℕ) (s : Settings) (p : Packet) (c : SyncConn) (w : W)
      → settings c ≡ s
      → Keeps s (first_document net junk p c w)
  unfolding first_document
  first_document-Keeps net junk s p c w k =
      elim (Call-cases (reply_get_nth_document (some p) (pos 1))) [
        | inr (inl (e, h)) ↦ rw (h, first_document) k
        | inr (inr h) ↦ rw (h, first_document) tt
        | inl (b, h) ↦ rw (h, first_document) k
      ]

  pub packet_recv-Keeps :
      (net : Net W) (s : Settings) (rid flag : ℕ) (c : SyncConn) (w : W)
      → settings c ≡ s
      → Keeps s (packet_recv net rid flag c w)
  unfolding packet_recv
  packet_recv-Keeps net s rid flag c w k = elim (Run-cases (Client.packet_recv net c.super w)) [
    | inr (inl (e, w', h)) ↦ rw (h, packet_recv) k
    | inr (inr (inl h)) ↦ rw (h, packet_recv) tt
    | inr (inr (inr h)) ↦ rw (h, packet_recv) tt
    | inl (q, w', h) ↦ elim (Call-cases (accept_reply q rid flag)) [
      | inr (inl (e, a)) ↦ rw (h, packet_recv) (rw (a, packet_recv) k)
      | inr (inr a) ↦ rw (h, packet_recv) (rw (a, packet_recv) tt)
      | inl (r, a) ↦ rw (h, packet_recv) (rw (a, packet_recv) k)
    ]
  ]

  store_master-Keeps :
      (s : Settings) (c : SyncConn) (w : W) (r : Result (Bool × ReplicaSet))
      → Yields (λ (r : Bool × ReplicaSet). r.1.seeds ≡ c.rs.seeds) r
      → settings c ≡ s
      → Keeps s (
          lift eproto (c, w) r >>= λ (master, rs) (c3, w3).
          gives master (record c3 { rs = rs }, w3))
  store_master-Keeps s c w (ok (master, rs)) e k = ap (λ l. record (settings c) { seeds = l }) e ∙ k
  store_master-Keeps s c w fails e k = k
  store_master-Keeps s c w Result.fault e k = tt
  store_master-Keeps s c w Result.spins e k = tt

  module _ (net : Net W) (junk : ℕ) where
    pub custom_by-Keeps :
        (s : Settings) (send : Packet → SyncConn → W → Run (SyncConn × W) (Unit {0}))
        (db : Option (List ℕ)) (command : Option Bson) (c : SyncConn) (w : W)
        → ((p : Packet) (c' : SyncConn) (w' : W) → settings c' ≡ s → Keeps s (send p c' w'))
        → settings c ≡ s
        → Keeps s (custom_by net junk send db command c w)
    unfolding custom_by
    custom_by-Keeps s send db command c w sends k =
        elim (Call-cases (Commands.cmd_custom junk (next_id c) db (slave_flag c) command)) [
          | inr (inl (e, h)) ↦ rw (h, custom_by) k
          | inr (inr h) ↦ rw (h, custom_by) tt
          | inl (p, h) ↦
              rw (h, custom_by)
                (Keeps-bind s (send p c w) _ (sends p c w k) λ u c1 w1 k1.
                  Keeps-bind s (packet_recv net _ _ c1 w1) _ (packet_recv-Keeps net s _ _ c1 w1 k1)
                    λ reply c2 w2 k2. check_error-Keeps s true reply c2 w2 k2)
        ]

    pub send_once-Keeps :
        (s : Settings) (p : Packet) (c : SyncConn) (w : W)
        → settings c ≡ s
        → Keeps s (send_once net junk p c w)
    unfolding send_once
    send_once-Keeps s p c w k = on_super-Keeps s c (Client.packet_send net (some p) c.super w) k

    pub custom_once-Keeps :
        (s : Settings) (db : Option (List ℕ)) (command : Option Bson) (c : SyncConn) (w : W)
        → settings c ≡ s
        → Keeps s (custom_once net junk db command c w)
    unfolding custom_once
    custom_once-Keeps s db command c w k =
        custom_by-Keeps s (send_once net junk) db command c w (send_once-Keeps s) k

    pub cmd_ping-Keeps :
        (s : Settings) (c : SyncConn) (w : W) → settings c ≡ s → Keeps s (cmd_ping net junk c w)
    unfolding cmd_ping
    cmd_ping-Keeps s c w k =
        Keeps-bind s (custom_once net junk _ _ c w) _ (custom_once-Keeps s _ _ c w k)
          λ p c1 w1 k1. k1

    pub cmd_is_master-Keeps :
        (s : Settings) (c : SyncConn) (w : W)
        → settings c ≡ s
        → Keeps s (cmd_is_master net junk c w)
    unfolding cmd_is_master
    cmd_is_master-Keeps s c w k =
        Keeps-bind s (custom_once net junk _ _ c w) _ (custom_once-Keeps s _ _ c w k) λ p c1 w1 k1.
          Keeps-bind s (first_document net junk p c1 w1) _
            (first_document-Keeps net junk s p c1 w1 k1)
            λ res c2 w2 k2. store_master-Keeps s c2 w2 _ (read_master-SameSeeds res c2.rs) k2
