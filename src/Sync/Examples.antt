-- ===== src/Sync/Examples.antt =====
-- The theorems on src/mongo-sync.c and src/mongo-sync-cursor.c at small inputs.
mod Deaf
mod Refused
use libmongo_client.Base.{
  ℕ, ◌≡◌, refl, Bool, true, false, Option, none, some, List, [], ◌∷◌, ◌++◌, ◌⊎◌, inr, arith, ◌-◌,
  ◌^◌, ◌+◌, ◌≤◌, take?, drop,
}
use libmongo_client.Base.Bytes.{le, of_le, read}
use libmongo_client.Base.Int.{ℤ, pos, negsuc, word, signed}
use libmongo_client.Base.Errno.{Errno, no_error, efault, eproto}
use libmongo_client.Base.Call.{returns}
use libmongo_client.Base.Run.{Run, gives, stops, loops, ◌>>=◌}
use libmongo_client.Bson.Element.{framed}
use libmongo_client.Bson.Build.Appends.{closed}
use libmongo_client.Wire.Packet.{
  Packet, op_reply, set_header_raw, set_data, set_payload, packet_new, get_data,
}
use libmongo_client.Wire.Reply.{ReplyHeader, reply_get_header}
use libmongo_client.Client.{Net, header_of, receive_data, receive_payload}
use libmongo_client.Client
use libmongo_client.Wire.Documents.{reply_body}
use libmongo_client.Sync.Connection.{SyncConn, conn_init}
use libmongo_client.Sync.Connection.Cache.{cache_new, cache_connect, sync_disconnect}
use libmongo_client.Sync.Connection.Recovered.{cache_connect-sync_disconnect}
use libmongo_client.Sync.Reply.{packet_recv, accept_reply}
use libmongo_client.Sync.Reply.Accepted.{Answers, packet_recv-Answers}
use libmongo_client.Sync.Insert.{cmd_insert_n, max_size}
use libmongo_client.Sync.Insert.Batch.{Small}
use libmongo_client.Sync.Insert.Rounds.{Batches, send_each, cmd_insert_n-Batches}
use libmongo_client.Bson.Object.{Bson, size}
use libmongo_client.Util.Address.{parse_addr}
use libmongo_client.Client.Open.{mongo_connect}
use libmongo_client.Sync.Reconnect.{reconnect}
use libmongo_client.Sync.Reconnect.Settings.{Settings, settings, Keeps}
use libmongo_client.Sync.Reconnect.Endless.{reconnect-Unanswered}
use libmongo_client.Sync.Examples.Deaf.{deaf, deaf_ping, deaf_connect}
use libmongo_client.Sync.Cursor.{sync_cursor_next, sync_cursor_get_data}
use libmongo_client.Sync.Cursor.Walk.{
  Batch, cursor_on, sync_cursor_next-inside, sync_cursor_next-refill,
}

abbrev null_body : List ℕ
null_body = 10 ∷ b'a' ∷ 0 ∷ []

abbrev header : ℕ → ReplyHeader
header n = record { flags = 8; cursor_id = 12345; start = 0; returned = n }

abbrev packet : ReplyHeader → List (List ℕ) → Packet
packet h ds = record {
  header = record { length_field = 0; id = 3; resp_to = 7; opcode = op_reply };
  payload_data = some (reply_body h ds);
  data_size = 0;
}

abbrev two : List (List ℕ)
two = framed [] ∷ framed null_body ∷ []

abbrev one : List (List ℕ)
one = framed null_body ∷ []

two-Batch : Batch (packet (header 2) two) (header 2) two
unfolding le
two-Batch = (
  (refl, refl),
  (omega arith, omega arith, omega arith, omega arith),
  (([], refl, omega arith), ((null_body, refl, omega arith), tt)),
  omega arith,
  refl,
  omega arith,
)

one-Batch : Batch (packet (header 1) one) (header 1) one
unfolding le
one-Batch = (
  (refl, refl),
  (omega arith, omega arith, omega arith, omega arith),
  ((null_body, refl, omega arith), tt),
  omega arith,
  refl,
  omega arith,
)

-- A connection that answers with one more document.
abbrev more : List ℕ → ℕ → ℕ → ℕ → (Errno ⊎ Packet) × ℕ
more ns n id s = (inr (packet (header 1) one), s)

sync_cursor_next-inside_example :
    (sync_cursor_next more (some (cursor_on [] (packet (header 2) two) (header 2) (2 ^ 32 - 1))) 0
      ≡ gives tt (some (cursor_on [] (packet (header 2) two) (header 2) 0), 0))
    × (sync_cursor_get_data (some (cursor_on [] (packet (header 2) two) (header 2) 0))
        ≡ returns (some (closed (framed []))))
sync_cursor_next-inside_example =
    sync_cursor_next-inside more [] (packet (header 2) two) (header 2) [] one (framed []) 0
      two-Batch

sync_cursor_next-refill_example :
    (sync_cursor_next more (some (cursor_on [] (packet (header 2) two) (header 2) 1)) 0
      ≡ gives tt (some (cursor_on [] (packet (header 1) one) (header 1) 0), 0))
    × (sync_cursor_get_data (some (cursor_on [] (packet (header 1) one) (header 1) 0))
        ≡ returns (some (closed (framed null_body))))
sync_cursor_next-refill_example =
    sync_cursor_next-refill more [] (packet (header 2) two) (packet (header 1) one) (header 2)
      (header 1) (framed [] ∷ []) [] (framed null_body) (framed null_body) 0 0 two-Batch refl
      one-Batch

-- Printing and reading of addresses: the port has one digit.
abbrev digit : ℤ → List ℕ
digit (pos n) = (48 + n) ∷ []
digit (negsuc n) = []

abbrev format : List ℕ → ℤ → List ℕ
format host port = host ++ (b':' ∷ digit port)

abbrev strtol : List ℕ → ℤ × List ℕ
strtol [] = (pos 0, [])
strtol (d ∷ rest) = (pos (d - 48), rest)

abbrev md5 : List ℕ → List ℕ
md5 s = s

abbrev strerror : Errno → List ℕ
strerror e = b'e' ∷ []

-- A connection with a seed, in safe mode, that may be made anew.
abbrev lost : SyncConn
lost = record {
  super = record { fd = pos 5; request_id = 11 };
  slaveok = false;
  safe_mode = true;
  auto_reconnect = true;
  last_error = none;
  max_insert_size = pos 40;
  rs = record { seeds = (b'h' ∷ b':' ∷ 57 ∷ []) ∷ []; hosts = []; primary = none };
  auth = record { db = some (b'd' ∷ []); user = some (b'u' ∷ []); pw = some (b'p' ∷ []) };
  has_cache = true;
}

reconnect-Unanswered_example : reconnect deaf 0 md5 strtol format 9 true lost 0 ≡ loops
unfolding parse_addr mongo_connect
reconnect-Unanswered_example =
    reconnect-Unanswered deaf 0 md5 strtol format (b'h' ∷ []) (pos 9) deaf_ping
      (λ w. (record { fd = pos 3; request_id = 0 }, w, deaf_connect w)) refl 9 true lost 0
      (b'h' ∷ b':' ∷ 57 ∷ []) [] refl refl

-- A network on which the bytes of the state come in.
abbrev source : Net (List ℕ)
source = record {
  sendmsg = λ fd bytes w. ((none, efault), w);
  recv = λ fd n w. ((take? n w, no_error), drop n w);
  getaddrinfo = λ host port w. (inr [], w);
  socket = λ family socktype protocol w. (none, w);
  connect = λ fd addr w. (false, w);
  close_fd = λ fd w. w;
  nodelay = λ fd w. w;
}

-- A reply of 36 bytes to the request 12, with one document announced.
abbrev reply_fields : List ℕ
reply_fields = 0 ∷ 0 ∷ 0 ∷ 0 ∷ 0 ∷ 0 ∷ 0 ∷ 0 ∷ 0 ∷ 0 ∷ 0 ∷ 0 ∷ 0 ∷ 0 ∷ 0 ∷ 0 ∷ 1 ∷ 0 ∷ 0 ∷ 0 ∷ []

abbrev reply_bytes : List ℕ
reply_bytes = 36 ∷ 0 ∷ 0 ∷ 0 ∷ 9 ∷ 0 ∷ 0 ∷ 0 ∷ 12 ∷ 0 ∷ 0 ∷ 0 ∷ 1 ∷ 0 ∷ 0 ∷ 0 ∷ reply_fields

abbrev short_reply : Packet
short_reply = record {
  header = record { length_field = 36; id = 9; resp_to = 12; opcode = op_reply };
  payload_data = some reply_fields;
  data_size = 20;
}

packet_recv-Answers_example : Answers 12 2 short_reply
unfolding packet_recv accept_reply Client.packet_recv header_of receive_data receive_payload
    set_header_raw set_data set_payload packet_new signed of_le reply_get_header get_data read
packet_recv-Answers_example =
    packet_recv-Answers source 12 2 lost reply_bytes short_reply (lost, []) refl

cache_connect-sync_disconnect_example :
    cache_connect deaf format
      (some ((sync_disconnect deaf format (some lost) cache_new 0).0))
      (b'h' ∷ [])
      (pos 9)
      true
      0
    ≡ (mongo_connect deaf (some (b'h' ∷ [])) (pos 9) 0 >>= λ fresh w.
        gives
          (record (conn_init fresh true) { rs = lost.rs; auth = lost.auth; has_cache = true })
          w)
cache_connect-sync_disconnect_example =
    cache_connect-sync_disconnect deaf format lost cache_new (b'h' ∷ []) (pos 9) true 0 0 refl

abbrev none_sent : Bool → SyncConn → ℕ → Run (SyncConn × ℕ) (Unit {0})
none_sent force c w = stops efault (c, w)

abbrev three_docs : List (Option Bson)
three_docs =
    some (closed (framed null_body))
    ∷ some (closed (framed []))
    ∷ some (closed (framed null_body))
    ∷ []

none_sent-Keeps :
    (s : Settings) (force : Bool) (c : SyncConn) (w : ℕ)
    → settings c ≡ s
    → Keeps s (none_sent force c w)
none_sent-Keeps s force c w k = k

three_docs-Small : Small (max_size lost) three_docs
unfolding size word le
three_docs-Small = (omega arith, (omega arith, (omega arith, tt)))

lost_max : max_size lost ≤ 2 ^ 30
unfolding word
lost_max = omega arith

cmd_insert_n-Batches_example :
    (bs : List (List (Option Bson))) × Batches (max_size lost) three_docs bs
    × (cmd_insert_n deaf 0 strerror none_sent (some (b'n' ∷ [])) (pos 3) (some three_docs) lost 0
        ≡ send_each deaf 0 strerror none_sent none_sent-Keeps (b'n' ∷ []) three_docs bs lost 0)
cmd_insert_n-Batches_example =
    cmd_insert_n-Batches deaf 0 strerror none_sent none_sent-Keeps (b'n' ∷ [])
      (some (closed (framed null_body)))
      (some (closed (framed [])) ∷ some (closed (framed null_body)) ∷ []) lost 0 lost_max
      three_docs-Small
