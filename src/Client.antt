-- ===== src/Client.antt =====
-- src/mongo-client.c: sending and receiving packets over a socket.
mod Examples
pub mod Descriptors
pub mod Exchange
pub mod Open
use libmongo_client.Base.{
  ℕ, ◌+◌, ◌-◌, ◌%◌, ◌^◌, Bool, Option, none, some, List, [], ◌∷◌, ◌++◌, ◌⊎◌, length, drop, take?,
  ◌==◌, ◌&&◌, leb, if◌then◌else◌,
}
use libmongo_client.Base.Bytes.{le, of_le}
use libmongo_client.Base.Int.{ℤ, pos, negsuc, signed, half32, widen, is_negative}
use libmongo_client.Base.Errno.{Errno, no_error, einval, enotconn, ebadf}
use libmongo_client.Base.Call.{Call, returns, errs, fault, ◌>>=◌}
use libmongo_client.Base.Run.{Run, gives, stops, crashes, loops}
use libmongo_client.Bson.Object.{minus_one}
use libmongo_client.Wire.Packet.{
  Header, Packet, header_size, packet_new, get_header_raw, get_data, set_header_raw, set_data,
}

-- `struct _mongo_connection`; the request id is a 32-bit pattern.
pub record Conn : Type 0 where
  pub fd : ℤ
  pub request_id : ℕ

-- An entry of the list that `getaddrinfo` makes.
pub record AddrInfo : Type 0 where
  pub family : ℕ
  pub socktype : ℕ
  pub protocol : ℕ
  pub addr : List ℕ

-- The calls of the system on sockets; `W` is the state of all sockets, and what is behind them.
-- `sendmsg` and `recv` are given a descriptor that is not negative. `sendmsg` returns a number of
-- bytes, `recv` with MSG_WAITALL the bytes that it got, as many as asked for at most; none is -1.
-- Beside it stands what `errno` is afterwards. `getaddrinfo` has the host and the port in decimal;
-- where it fails, `errno` is what stands in place of the list. `connect` tells whether it returned 0.
-- `nodelay` is the call of `setsockopt` on a new socket.
pub record Net (W : Type 0) : Type 0 where
  pub sendmsg : ℕ → List ℕ → W → (Option ℕ × Errno) × W
  pub recv : ℕ → ℕ → W → (Option (List ℕ) × Errno) × W
  pub getaddrinfo : List ℕ → ℤ → W → (Errno ⊎ List AddrInfo) × W
  pub socket : ℕ → ℕ → ℕ → W → Option ℕ × W
  pub connect : ℕ → List ℕ → W → Bool × W
  pub close_fd : ℕ → W → W
  pub nodelay : ℕ → W → W

-- `if (!conn) { errno = ENOTCONN; return … }` in front of a function of a connection.
unfoldable pub connected {ℓ κ μ} :
    {C : Type ℓ} {W : Type κ} {A : Type μ}
    → Option C
    → W
    → (C → W → Run (C × W) A)
    → Run (Option C × W) A
connected none w f = stops enotconn (none, w)
connected (some c) w f = elim (f c w) [
  | gives a s ↦ gives a (some (s.0), s.1)
  | stops e s ↦ stops e (some (s.0), s.1)
  | crashes ↦ crashes
  | loops ↦ loops
]

-- The memory of a `mongo_packet_header`.
abbrev pub header_bytes : Header → List ℕ
header_bytes h = le 4 h.length_field ++ (le 4 h.id ++ (le 4 h.resp_to ++ le 4 h.opcode))

-- `n == sizeof (h) + data_size`, the sum as a `gint32`.
abbrev pub all_sent : Option ℕ → ℕ → Bool
all_sent none data_size = widen ((header_size + data_size) % 2 ^ 32) == 2 ^ 64 - 1
all_sent (some n) data_size = n == widen ((header_size + data_size) % 2 ^ 32)

-- The four fields of a header that was received; none where there are fewer bytes.
unfoldable pub header_of : List ℕ → Option Header
header_of bytes =
    if length bytes == header_size
    then (elim (take? 4 bytes) [
      | none ↦ none
      | some l ↦ elim (take? 4 (drop 4 bytes)) [
        | none ↦ none
        | some i ↦ elim (take? 4 (drop 8 bytes)) [
          | none ↦ none
          | some r ↦ some (record {
            length_field = of_le l;
            id = of_le i;
            resp_to = of_le r;
            opcode = of_le (drop 12 bytes);
          })
        ]
      ]
    ])
    else none

unfoldable pub get_requestid : Option Conn → Call ℕ
get_requestid none = errs enotconn
get_requestid (some c) = returns c.request_id

module _ {W : Type 0} (net : Net W) where
  -- The call of `sendmsg` on the header and `data_size` bytes of `mem`. Where -1 is the size of the
  -- data, the call fails with whatever `errno` was.
  unfoldable pub transmit : ℕ → Header → List ℕ → ℕ → Conn → W → Run (Conn × W) (Unit {0})
  transmit fd h mem data_size c w =
      if data_size == minus_one then stops no_error (c, w) else elim (take? (widen data_size) mem) [
        | none ↦ crashes
        | some body ↦
            let ((count, e), w') = net.sendmsg fd (header_bytes h ++ body) w in
            if all_sent count data_size
            then gives tt (record c { request_id = h.id }, w')
            else stops e (c, w')
      ]

  -- The connection is not NULL.
  unfoldable pub packet_send : Option Packet → Conn → W → Run (Conn × W) (Unit {0})
  packet_send none c w = stops einval (c, w)
  packet_send (some p) c w = elim c.fd [
    | negsuc n ↦ stops ebadf (c, w)
    | pos fd ↦ elim (get_data (some p)) [
      | returns (mem, data_size) ↦ transmit fd p.header mem data_size c w
      | errs e ↦ stops e (c, w)
      | fault ↦ crashes
    ]
  ]

  -- The data that comes next, of this size, in a packet that has its header. The -1 of a failed
  -- `recv` is taken for the size 2 ^ 32 - 1, which the packet then refuses.
  unfoldable pub receive_payload : ℕ → Packet → ℕ → W → Run W Packet
  receive_payload fd p size w =
      let ((got, e), w') = net.recv fd size w in
      elim got [
        | none ↦ stops (if size == 2 ^ 32 - 1 then einval else e) w'
        | some bytes ↦
            if length bytes == size
            then (elim (set_data (some p) (if size == 0 then none else some bytes)
                (signed half32 size)) [
                  | returns q ↦ gives q w'
                  | errs e' ↦ stops e' w'
                  | fault ↦ crashes
                ])
            else stops e w'
      ]

  unfoldable pub receive_data : ℕ → Header → W → Run W Packet
  receive_data fd h w = elim (set_header_raw (some packet_new) (some h)) [
    | errs e ↦ stops e w
    | fault ↦ crashes
    | returns p ↦ receive_payload fd p ((h.length_field + 2 ^ 32 - header_size) % 2 ^ 32) w
  ]

  unfoldable pub packet_recv : Conn → W → Run W Packet
  packet_recv c w = elim c.fd [
    | negsuc n ↦ stops ebadf w
    | pos fd ↦
        let ((got, e), w') = net.recv fd header_size w in
        elim got [
          | none ↦ stops e w'
          | some bytes ↦ elim (header_of bytes) [
            | none ↦ stops e w'
            | some h ↦ receive_data fd h w'
          ]
        ]
  ]
