-- ===== src/Client/Open.antt =====
-- src/mongo-client.c: opening and closing a connection.
use libmongo_client.Base.{
  ℕ, zero, suc, ◌-◌, true, false, Option, none, some, List, [], ◌∷◌, ◌++◌, inl, inr, length, leb,
  replicate, if◌then◌else◌,
}
use libmongo_client.Base.Bytes.{le}
use libmongo_client.Base.Int.{ℤ, pos, negsuc}
use libmongo_client.Base.Errno.{Errno, no_error, einval, enotconn, eaddrnotavail, enametoolong}
use libmongo_client.Base.Run.{Run, gives, stops}
use libmongo_client.Client.{Conn, Net, AddrInfo}

-- AF_UNIX, and `sizeof (remote.sun_path)` on Linux.
abbrev pub af_unix : ℕ
af_unix = 1

abbrev pub sock_stream : ℕ
sock_stream = 1

abbrev pub sun_path_size : ℕ
sun_path_size = 108

-- The memory of a `struct sockaddr_un` after `strncpy`.
abbrev pub unix_addr : List ℕ → List ℕ
unix_addr path = le 2 af_unix ++ (path ++ replicate (sun_path_size - length path) 0)

-- `g_new0 (mongo_connection, 1)` with this descriptor.
abbrev pub fresh : ℕ → Conn
fresh fd = record { fd = pos fd; request_id = 0 }

module _ {W : Type 0} (net : Net W) where
  -- The loop over the addresses: the socket of the first one that accepts.
  unfoldable pub connect_first : List AddrInfo → W → Option ℕ × W
  connect_first [] w = (none, w)
  connect_first (r ∷ rs) w =
      let (fd, w1) = net.socket r.family r.socktype r.protocol w in
      elim fd [
        | none ↦ connect_first rs w1
        | some n ↦
            let (accepted, w2) = net.connect n r.addr w1 in
            elim accepted [ true ↦ (some n, w2) | false ↦ connect_first rs (net.close_fd n w2) ]
      ]

  unfoldable pub tcp_connect : Option (List ℕ) → ℤ → W → Run W Conn
  unfolding connect_first
  tcp_connect none port w = stops einval w
  tcp_connect (some host) port w =
      let (res, w1) = net.getaddrinfo host port w in
      elim res [
        | inl e ↦ stops e w1
        | inr addrs ↦
            let (fd, w2) = connect_first addrs w1 in
            elim fd [ none ↦ stops eaddrnotavail w2 | some n ↦ gives (fresh n) (net.nodelay n w2) ]
      ]

  unfoldable pub unix_connect : Option (List ℕ) → W → Run W Conn
  unix_connect none w = stops einval w
  unix_connect (some path) w =
      if leb sun_path_size (length path)
      then stops enametoolong w
      else let (fd, w1) = net.socket af_unix sock_stream 0 w in
        elim fd [
          | none ↦ stops eaddrnotavail w1
          | some n ↦
              let (accepted, w2) = net.connect n (unix_addr path) w1 in
              if accepted then gives (fresh n) w2 else stops eaddrnotavail (net.close_fd n w2)
        ]

  -- MONGO_CONN_LOCAL is the port -1.
  unfoldable pub mongo_connect : Option (List ℕ) → ℤ → W → Run W Conn
  unfolding tcp_connect unix_connect
  mongo_connect address (pos port) w = tcp_connect address (pos port) w
  mongo_connect address (negsuc zero) w = unix_connect address w
  mongo_connect address (negsuc (suc n)) w = tcp_connect address (negsuc (suc n)) w

  unfoldable pub mongo_disconnect : Option Conn → W → Errno × W
  mongo_disconnect none w = (enotconn, w)
  mongo_disconnect (some c) w = elim c.fd [
    | pos n ↦ (no_error, net.close_fd n w)
    | negsuc n ↦ (no_error, w)
  ]
