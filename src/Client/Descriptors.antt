-- ===== src/Client/Descriptors.antt =====
-- src/mongo-client.c: the descriptors that opening a connection leaves open.
use libmongo_client.Base.{
  ℕ, zero, suc, ◌≡◌, refl, ap, ◌∙◌, Option, none, some, List, [], ◌∷◌, inl, inr, length, leb,
  Bool-cases, Option-cases, Either-cases, subst,
}
use libmongo_client.Base.Int.{ℤ, pos, negsuc}
use libmongo_client.Base.Run.{Run, gives, stops, crashes, loops}
use libmongo_client.Client.{Conn, Net, AddrInfo}
use libmongo_client.Client.Open.{
  af_unix, sock_stream, sun_path_size, unix_addr, connect_first, tcp_connect, unix_connect,
  mongo_connect,
}

-- What the calls do to the list of the descriptors that are open, the newest first.
pub record Tracks {W : Type 0} (net : Net W) (opened : W → List ℕ) : Type 0 where
  pub socket_opens :
      (f t p n : ℕ) (w : W)
      → (net.socket f t p w).0 ≡ some n
      → opened ((net.socket f t p w).1) ≡ n ∷ opened w
  pub socket_fails :
      (f t p : ℕ) (w : W)
      → (net.socket f t p w).0 ≡ none
      → opened ((net.socket f t p w).1) ≡ opened w
  pub connect_keeps :
      (fd : ℕ) (addr : List ℕ) (w : W) → opened ((net.connect fd addr w).1) ≡ opened w
  pub getaddrinfo_keeps :
      (host : List ℕ) (port : ℤ) (w : W) → opened ((net.getaddrinfo host port w).1) ≡ opened w
  pub nodelay_keeps : (fd : ℕ) (w : W) → opened (net.nodelay fd w) ≡ opened w
  pub close_drops :
      (fd : ℕ) (rest : List ℕ) (w : W) → opened w ≡ fd ∷ rest → opened (net.close_fd fd w) ≡ rest

module _ {W : Type 0} (net : Net W) (opened : W → List ℕ) (tracks : Tracks net opened) where
  -- A descriptor more than before, or as before.
  abbrev Adds : List ℕ → Option ℕ → W → Type 0
  Adds before none w = opened w ≡ before
  Adds before (some n) w = opened w ≡ n ∷ before

  -- A connection comes with a descriptor more than before, a failure with none.
  abbrev pub Opens : List ℕ → Run W Conn → Type 0
  Opens before (gives c w) = (n : ℕ) × (c.fd ≡ pos n) × (opened w ≡ n ∷ before)
  Opens before (stops e w) = opened w ≡ before
  Opens before crashes = ⊥
  Opens before loops = ⊥

  connect_first-Adds :
      (addrs : List AddrInfo) (before : List ℕ) (w : W)
      → opened w ≡ before
      → Adds before ((connect_first net addrs w).0) ((connect_first net addrs w).1)
  unfolding connect_first
  connect_first-Adds [] before w e = e
  connect_first-Adds (r ∷ rs) before w e =
      let w1 = (net.socket r.family r.socktype r.protocol w).1 in
      elim (Option-cases ((net.socket r.family r.socktype r.protocol w).0)) [
        | inl h ↦
            rw (h, connect_first)
              (connect_first-Adds rs before w1
                (tracks.socket_fails r.family r.socktype r.protocol w h ∙ e))
        | inr (n, h) ↦
            let w2 = (net.connect n r.addr w1).1 in
            let held : opened w2 ≡ n ∷ before =
              tracks.connect_keeps n r.addr w1
              ∙ tracks.socket_opens r.family r.socktype r.protocol n w h
              ∙ ap (λ l. n ∷ l) e in
            elim (Bool-cases ((net.connect n r.addr w1).0)) [
              | inl a ↦ rw (h, connect_first) (rw (a, connect_first) held)
              | inr a ↦
                  rw (h, connect_first)
                    (rw (a, connect_first)
                      (connect_first-Adds rs before (net.close_fd n w2)
                        (tracks.close_drops n before w2 held)))
            ]
      ]

  tcp_connect-Opens :
      (address : Option (List ℕ)) (port : ℤ) (w : W)
      → Opens (opened w) (tcp_connect net address port w)
  unfolding tcp_connect
  tcp_connect-Opens none port w = refl
  tcp_connect-Opens (some host) port w =
      let kept = tracks.getaddrinfo_keeps host port w in
      let w1 = (net.getaddrinfo host port w).1 in
      elim (Either-cases ((net.getaddrinfo host port w).0)) [
        | inl (e, h) ↦ rw (h, tcp_connect) kept
        | inr (addrs, h) ↦
            let (fd, w2) = connect_first net addrs w1 in
            let added = connect_first-Adds addrs (opened w) w1 kept in
            elim (Option-cases ((connect_first net addrs w1).0)) [
              | inl f ↦
                  rw (h, tcp_connect)
                    (rw (f, tcp_connect)
                      (subst (λ o. Adds (opened w) o ((connect_first net addrs w1).1)) f added))
              | inr (n, f) ↦
                  rw (h, tcp_connect)
                    (rw (f, tcp_connect)
                      (
                        n,
                        refl,
                        tracks.nodelay_keeps n ((connect_first net addrs w1).1)
                            ∙ subst (λ o. Adds (opened w) o ((connect_first net addrs w1).1)) f
                                added,
                      ))
            ]
      ]

  unix_connect-Opens :
      (address : Option (List ℕ)) (w : W) → Opens (opened w) (unix_connect net address w)
  unfolding unix_connect
  unix_connect-Opens none w = refl
  unix_connect-Opens (some path) w =
      let w1 = (net.socket af_unix sock_stream 0 w).1 in
      elim (Bool-cases (leb sun_path_size (length path))) [
        | inl long ↦ rw long refl
        | inr short ↦ elim (Option-cases ((net.socket af_unix sock_stream 0 w).0)) [
          | inl h ↦ rw (short, h) (tracks.socket_fails af_unix sock_stream 0 w h)
          | inr (n, h) ↦
              let held =
                tracks.connect_keeps n (unix_addr path) w1
                ∙ tracks.socket_opens af_unix sock_stream 0 n w h in
              elim (Bool-cases ((net.connect n (unix_addr path) w1).0)) [
                | inl a ↦ rw (short, h) (rw a (n, refl, held))
                | inr a ↦ rw (short, h) (rw a (tracks.close_drops n (opened w) _ held))
              ]
        ]
      ]

  -- `mongo_connect` leaves one descriptor more open where it returns a connection, the one of that
  -- connection, and as many as before where it fails, if the calls of the system do to the open
  -- descriptors what they are documented to do.
  pub mongo_connect-Opens :
      (address : Option (List ℕ)) (port : ℤ) (w : W)
      → Opens (opened w) (mongo_connect net address port w)
  unfolding mongo_connect
  mongo_connect-Opens address (pos n) w = tcp_connect-Opens address (pos n) w
  mongo_connect-Opens address (negsuc zero) w = unix_connect-Opens address w
  mongo_connect-Opens address (negsuc (suc n)) w = tcp_connect-Opens address (negsuc (suc n)) w
