-- ===== src/Client/Exchange.antt =====
-- src/mongo-client.c: packets over a reliable stream.
use libmongo_client.Base.{
  ℕ, zero, suc, ◌+◌, ◌-◌, ◌%◌, ◌^◌, ◌<◌, ◌≡◌, refl, ap, sym, ◌∙◌, true, some, List, map, [], ◌∷◌,
  ◌++◌, append_assoc, append-nil, arith, length, length-append, lt→leb, take?_all, ne→==, eq→==,
}
use libmongo_client.Base.Bytes.{le, of_le-le}
use libmongo_client.Base.Int.{pos, signed, half32}
use libmongo_client.Base.Errno.{no_error}
use libmongo_client.Base.Call.{returns}
use libmongo_client.Base.Run.{Run, gives, ◌>>=◌}
use libmongo_client.Bson.Object.{minus_one}
use libmongo_client.Wire.Packet.{
  Header, Packet, header_size, packet_new, get_data, set_data, set_header_raw, set_payload,
}
use libmongo_client.Client.{
  Conn, Net, header_bytes, header_of, all_sent, transmit, packet_send, receive_payload,
  receive_data, packet_recv,
}

-- Sockets that are the two ends of one stream: what is in flight comes out in the order in which it
-- went in, and a call is never cut short where it can be served.
pub record IsStream {W : Type 0} (net : Net W) (flight : W → List ℕ) : Type 0 where
  pub sends :
      (fd : ℕ) (bytes : List ℕ) (w : W)
      → (net.sendmsg fd bytes w).0 ≡ (some (length bytes), no_error)
  pub carries :
      (fd : ℕ) (bytes : List ℕ) (w : W) → flight ((net.sendmsg fd bytes w).1) ≡ flight w ++ bytes
  pub receives :
      (fd n : ℕ) (bytes rest : List ℕ) (w : W)
      → length bytes ≡ n
      → flight w ≡ bytes ++ rest
      → (net.recv fd n w).0 ≡ (some bytes, no_error)
  pub takes :
      (fd n : ℕ) (bytes rest : List ℕ) (w : W)
      → length bytes ≡ n
      → flight w ≡ bytes ++ rest
      → flight ((net.recv fd n w).1) ≡ rest

-- A packet as the functions of src/mongo-wire.c make it: with a payload, which its header counts.
pub record Parcel : Type 0 where
  pub id : ℕ
  pub resp_to : ℕ
  pub opcode : ℕ
  pub first : ℕ
  pub others : List ℕ
  pub id_fits : id < 2 ^ 32
  pub resp_to_fits : resp_to < 2 ^ 32
  pub opcode_fits : opcode < 2 ^ 32
  pub small : suc (length others) + header_size < half32

abbrev pub payload : Parcel → List ℕ
payload p = p.first ∷ p.others

abbrev pub head_of : Parcel → Header
head_of p = record {
  length_field = header_size + length (payload p);
  id = p.id;
  resp_to = p.resp_to;
  opcode = p.opcode;
}

abbrev pub packet_in : Parcel → Packet
packet_in p = record {
  header = head_of p;
  payload_data = some (payload p);
  data_size = length (payload p);
}

abbrev pub bytes_of : Parcel → List ℕ
bytes_of p = header_bytes (head_of p) ++ payload p

header_of-header_bytes : (p : Parcel) → header_of (header_bytes (head_of p)) ≡ some (head_of p)
unfolding header_of le
header_of-header_bytes p =
    let small = p.small in
    rw
      (
        of_le-le 4 (header_size + length (payload p)) (omega arith),
        of_le-le 4 p.id p.id_fits,
        of_le-le 4 p.resp_to p.resp_to_fits,
        of_le-le 4 p.opcode p.opcode_fits,
      )
      refl

pub length-header_bytes : (h : Header) → length (header_bytes h) ≡ header_size
unfolding le
length-header_bytes h = refl

-- The conversion of a size that fits a `gint32` to the argument of `mongo_wire_packet_set_data`.
signed_small : (n : ℕ) → n < half32 → signed half32 n ≡ pos n
unfolding signed
signed_small n h = ground arith

-- The packet with the header of the parcel, before its payload comes.
abbrev announced : Parcel → Packet
announced p = record packet_new { header = head_of p; data_size = length (payload p) }

set_data-announced :
    (p : Parcel)
    → set_data (some (announced p)) (some (payload p)) (pos (length (payload p)))
      ≡ returns (packet_in p)
unfolding set_data set_payload packet_new
set_data-announced p =
    let small = p.small in
    let n = length (payload p) in
    let counted : (n + header_size) % 2 ^ 32 ≡ header_size + n = omega arith in
    rw (take?_all (payload p)) (
      ap (λ k. returns (record (packet_in p) { header = record (head_of p) { length_field = k } }))
        counted)

abbrev stream_of : List Parcel → List ℕ
stream_of [] = []
stream_of (p ∷ ps) = bytes_of p ++ stream_of ps

module _ {W : Type 0} (net : Net W) where
  -- The packets of the parcels, one after the other.
  abbrev pub send_all : List Parcel → Conn → W → Run (Conn × W) (Unit {0})
  send_all [] c w = gives tt (c, w)
  send_all (p ∷ ps) c w =
      packet_send net (some (packet_in p)) c w >>= λ u (c', w'). send_all ps c' w'

  -- As many packets as asked for.
  abbrev pub receive_all : ℕ → Conn → W → Run W (List Packet)
  receive_all zero c w = gives [] w
  receive_all (suc n) c w =
      packet_recv net c w >>= λ p w'. receive_all n c w' >>= λ ps w''. gives (p ∷ ps) w''

module _ {W : Type 0} (net : Net W) (flight : W → List ℕ) (stream : IsStream net flight) where
  transmit-Parcel :
      (p : Parcel) (c : Conn) (w : W) (fd : ℕ)
      → transmit net fd (head_of p) (payload p) (length (payload p)) c w
        ≡ gives tt (record c { request_id = p.id }, (net.sendmsg fd (bytes_of p) w).1)
  unfolding transmit
  transmit-Parcel p c w fd =
      let small = p.small in
      let n = length (payload p) in
      let counted : length (bytes_of p) ≡ header_size + n =
        length-append (header_bytes (head_of p)) (payload p)
        ∙ ap (λ k. k + n) (length-header_bytes (head_of p)) in
      let whole : all_sent (some (length (bytes_of p))) n ≡ true = rw counted (ground arith) in
      rw (ne→== n minus_one (omega arith), lt→leb half32 n (omega arith))
        (rw (take?_all (payload p)) (rw (stream.sends fd (bytes_of p) w) (rw whole refl)))

  -- A packet is sent whole, its bytes come last in flight, and the connection remembers its id.
  pub packet_send-Parcel :
      (p : Parcel) (c : Conn) (w : W) (fd : ℕ)
      → c.fd ≡ pos fd
      → packet_send net (some (packet_in p)) c w
        ≡ gives tt (record c { request_id = p.id }, (net.sendmsg fd (bytes_of p) w).1)
  unfolding packet_send get_data
  packet_send-Parcel p c w fd opened = rw opened (transmit-Parcel p (record c { fd = pos fd }) w fd)

  receive_payload-Parcel :
      (p : Parcel) (w : W) (fd : ℕ) (rest : List ℕ)
      → flight w ≡ payload p ++ rest
      → receive_payload net fd (announced p) (length (payload p)) w
        ≡ gives (packet_in p) ((net.recv fd (length (payload p)) w).1)
  unfolding receive_payload
  receive_payload-Parcel p w fd rest e =
      let small = p.small in
      let n = length (payload p) in
      rw (stream.receives fd n (payload p) rest w refl e, receive_payload)
        (rw (eq→== n n refl, ne→== n 0 (omega arith), signed_small n (omega arith))
          (rw (set_data-announced p) refl))

  receive_data-Parcel :
      (p : Parcel) (w : W) (fd : ℕ) (rest : List ℕ)
      → flight w ≡ payload p ++ rest
      → receive_data net fd (head_of p) w
        ≡ gives (packet_in p) ((net.recv fd (length (payload p)) w).1)
  unfolding receive_data set_header_raw
  receive_data-Parcel p w fd rest e =
      let small = p.small in
      let n = length (payload p) in
      let sized : (header_size + n + 2 ^ 32 - header_size) % 2 ^ 32 ≡ n = omega arith in
      ap (λ s. receive_payload net fd (record packet_new { header = head_of p; data_size = s }) s w)
        sized
      ∙ receive_payload-Parcel p w fd rest e

  pub packet_recv-Parcel :
      (p : Parcel) (c : Conn) (w : W) (fd : ℕ) (rest : List ℕ)
      → c.fd ≡ pos fd
      → flight w ≡ bytes_of p ++ rest
      → (w' : W) × (packet_recv net c w ≡ gives (packet_in p) w') × (flight w' ≡ rest)
  unfolding packet_recv
  packet_recv-Parcel p c w fd rest opened e =
      let e' : flight w ≡ header_bytes (head_of p) ++ (payload p ++ rest) =
        e ∙ append_assoc (header_bytes (head_of p)) (payload p) rest in
      let sized : length (header_bytes (head_of p)) ≡ header_size =
        length-header_bytes (head_of p) in
      let w1 = (net.recv fd header_size w).1 in
      let left : flight w1 ≡ payload p ++ rest =
        stream.takes fd header_size (header_bytes (head_of p)) (payload p ++ rest) w sized e' in
      (
        (net.recv fd (length (payload p)) w1).1,
        rw opened (
            rw
              (
                stream.receives fd header_size (header_bytes (head_of p)) (payload p ++ rest) w
                    sized e',
                packet_recv,
              )
              (rw (header_of-header_bytes p) (receive_data-Parcel p w1 fd rest left))),
        stream.takes fd (length (payload p)) (payload p) rest w1 refl left,
      )

  send_all-flight :
      (ps : List Parcel) (c : Conn) (w : W) (fd : ℕ)
      → c.fd ≡ pos fd
      → (s : Conn × W) × (send_all net ps c w ≡ gives tt s)
        × (flight (s.1) ≡ flight w ++ stream_of ps)
  send_all-flight [] c w fd opened = ((c, w), refl, sym (append-nil (flight w)))
  send_all-flight (p ∷ ps) c w fd opened =
      let w' = (net.sendmsg fd (bytes_of p) w).1 in
      let (s, sent, flown) = send_all-flight ps (record c { request_id = p.id }) w' fd opened in
      (
        s,
        ap (λ r. r >>= λ u (c', w'). send_all net ps c' w') (packet_send-Parcel p c w fd opened)
            ∙ sent,
        flown
            ∙ ap (λ f. f ++ stream_of ps) (stream.carries fd (bytes_of p) w)
            ∙ append_assoc (flight w) (bytes_of p) (stream_of ps),
      )

  receive_all-flight :
      (ps : List Parcel) (c : Conn) (w : W) (fd : ℕ)
      → c.fd ≡ pos fd
      → flight w ≡ stream_of ps
      → (w' : W) × (receive_all net (length ps) c w ≡ gives (map packet_in ps) w')
        × (flight w' ≡ [])
  receive_all-flight [] c w fd opened e = (w, refl, e)
  receive_all-flight (p ∷ ps) c w fd opened e =
      let (w1, got, left) = packet_recv-Parcel p c w fd (stream_of ps) opened e in
      let (w2, others, empty) = receive_all-flight ps c w1 fd opened left in
      (
        w2,
        ap (λ r. r >>= λ p w'. receive_all net (length ps) c w' >>= λ qs w''. gives (p ∷ qs) w'')
              got
            ∙ ap (λ r. r >>= λ qs w''. gives (packet_in p ∷ qs) w'') others,
        empty,
      )

  -- Packets with a payload that their headers count, each smaller than 2 ^ 31 bytes and with fields
  -- of 32 bits, sent one after the other by `mongo_packet_send` on one end of an empty stream, are
  -- sent without an error, and as many calls of `mongo_packet_recv` on the other end return these
  -- packets, in order, and leave the stream empty.
  pub receive_all-send_all :
      (ps : List Parcel) (c r : Conn) (w : W) (fd other : ℕ)
      → c.fd ≡ pos fd
      → r.fd ≡ pos other
      → flight w ≡ []
      → (s : Conn × W) × (send_all net ps c w ≡ gives tt s)
        × (w' : W) × (receive_all net (length ps) r (s.1) ≡ gives (map packet_in ps) w')
        × (flight w' ≡ [])
  receive_all-send_all ps c r w fd other opened opened' e =
      let (s, sent, flown) = send_all-flight ps c w fd opened in
      let (w', got, empty) =
        receive_all-flight ps r (s.1) other opened' (flown ∙ ap (λ f. f ++ stream_of ps) e) in
      (s, sent, w', got, empty)
