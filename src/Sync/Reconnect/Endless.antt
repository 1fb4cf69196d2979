-- ===== src/Sync/Reconnect/Endless.antt =====
-- src/mongo-sync.c: `mongo_sync_reconnect` where every server accepts a connection and none answers.
use libmongo_client.Base.{ℕ, zero, suc, ◌≡◌, refl, ap, ◌∙◌, Bool, some, List, [], ◌∷◌}
use libmongo_client.Base.Int.{ℤ}
use libmongo_client.Base.Errno.{Errno}
use libmongo_client.Base.Run.{gives, stops, loops}
use libmongo_client.Util.Address.{address, parse_addr}
use libmongo_client.Client.{Net, Conn}
use libmongo_client.Client.Open.{mongo_connect}
use libmongo_client.Sync.Connection.{SyncConn, conn_init}
use libmongo_client.Sync.Connection.Cache.{cache_connect, sync_connect}
use libmongo_client.Sync.Master.{cmd_ping}
use libmongo_client.Sync.Reconnect.{
  candidates, connect_any, adopt, find_other, reconnect_step, reconnect,
}

module _ {W : Type 0} (net : Net W) (junk : ℕ) (md5 : List ℕ → List ℕ)
    (strtol : List ℕ → ℤ × List ℕ) (format : List ℕ → ℤ → List ℕ) where
  -- A ping fails, and leaves what is known of the replica set.
  abbrev pub Unanswered : Type 0
  Unanswered =
      (c : SyncConn) (w : W)
      → (e : Errno) × (c' : SyncConn) × (w' : W) × (cmd_ping net junk c w ≡ stops e (c', w'))
        × (c'.rs ≡ c.rs)

  module _ (host : List ℕ) (port : ℤ) where
    -- The address can be connected to.
    abbrev pub Accepted : Type 0
    Accepted = (w : W) → (c : Conn) × (w' : W) × (mongo_connect net (some host) port w ≡ gives c w')

    sync_connect-Accepted :
        (accepted : Accepted) (b : Bool) (w : W)
        → (nc : SyncConn) × (w' : W) × (sync_connect net format host port b w ≡ gives nc w')
          × (candidates nc ≡ format host port ∷ [])
    unfolding sync_connect cache_connect conn_init
    sync_connect-Accepted accepted b w =
        let (c, w', h) = accepted w in
        (
          record (conn_init c b) {
            rs = record ((conn_init c b).rs) { seeds = format host port ∷ [] };
          },
          w',
          rw h refl,
          refl,
        )

    -- Where a ping is never answered, but the first address of the connection can be connected to, and
    -- is read as it is printed, `mongo_sync_reconnect` calls itself for ever on the connections that it
    -- makes: it does not end at any fuel.
    pub reconnect-Unanswered :
        Unanswered
        → Accepted
        → parse_addr strtol (some (format host port)) ≡ address host port
        → (n : ℕ) (force : Bool) (c : SyncConn) (w : W) (a : List ℕ) (rest : List (List ℕ))
        → candidates c ≡ a ∷ rest
        → parse_addr strtol (some a) ≡ address host port
        → reconnect net junk md5 strtol format n force c w ≡ loops
    unfolding reconnect reconnect_step find_other connect_any adopt
    reconnect-Unanswered silent accepted readable zero force c w a rest e p = refl
    reconnect-Unanswered silent accepted readable (suc n) force c w a rest e p =
        let (err, c1, w1, h, known) = silent c w in
        let (nc, w2, made, only) = sync_connect-Accepted accepted c1.slaveok w1 in
        let again =
          reconnect-Unanswered silent accepted readable n force nc w2 (format host port) [] only
            readable in
        let first : candidates c1 ≡ a ∷ rest =
          ap (λ r. candidates (record c { rs = r })) known ∙ e in
        let reached : connect_any net junk md5 strtol format (candidates c1) c1.slaveok w1
            ≡ gives nc w2 =
          rw (first, connect_any) (rw (p, connect_any) (rw (made, connect_any) refl)) in
        rw (h, reconnect_step) (rw (reached, find_other) (rw (again, adopt) refl))
