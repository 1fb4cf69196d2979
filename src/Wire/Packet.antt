-- ===== src/Wire/Packet.antt =====
-- src/mongo-wire.c: packets and their headers. Header fields are 32-bit patterns in the byte order
-- of the host, which is taken to be little-endian, so that the GINT32_TO_LE macros change nothing.
use libmongo_client.Base.{ℕ, zero, suc, ◌+◌, ◌-◌, ◌%◌, ◌^◌, Option, none, some, List, take?}
use libmongo_client.Base.Int.{ℤ, pos, negsuc, slt}
use libmongo_client.Base.Errno.{einval, erange}
use libmongo_client.Base.Call.{Call, returns, errs, need, refuse, given, ◌>>=◌, ◌>>◌}

pub record Header : Type 0 where
  pub length_field : ℕ
  pub id : ℕ
  pub resp_to : ℕ
  pub opcode : ℕ

pub record Packet : Type 0 where
  pub header : Header
  pub payload_data : Option (List ℕ)
  pub data_size : ℕ

abbrev pub op_reply : ℕ
op_reply = 1

abbrev pub op_update : ℕ
op_update = 2001

abbrev pub op_insert : ℕ
op_insert = 2002

abbrev pub op_query : ℕ
op_query = 2004

abbrev pub op_get_more : ℕ
op_get_more = 2005

abbrev pub op_delete : ℕ
op_delete = 2006

abbrev pub op_kill_cursors : ℕ
op_kill_cursors = 2007

-- `sizeof (mongo_packet_header)`
abbrev pub header_size : ℕ
header_size = 16

unfoldable pub packet_new : Packet
packet_new = record {
  header = record { length_field = header_size; id = 0; resp_to = 0; opcode = 0 };
  payload_data = none;
  data_size = 0;
}

-- On a little-endian host `mongo_wire_packet_get_header` copies as the raw variant does.
unfoldable pub get_header : Option Packet → Call Header
get_header p = do q ← given p einval; returns q.header

unfoldable pub get_header_raw : Option Packet → Call Header
get_header_raw p = do q ← given p einval; returns q.header

-- The packet with another header, and the payload size that the header announces.
abbrev pub with_header : Packet → Header → Packet
with_header p h = record p {
  header = h;
  data_size = (h.length_field + 2 ^ 32 - header_size) % 2 ^ 32;
}

unfoldable pub set_header : Option Packet → Option Header → Call Packet
set_header p header = do
  q ← given p einval
  h ← given header einval
  refuse (slt h.length_field header_size) erange
  returns (with_header q h)

unfoldable pub set_header_raw : Option Packet → Option Header → Call Packet
set_header_raw p header = do q ← given p einval; h ← given header einval; returns (with_header q h)

-- The payload and its size, a 32-bit pattern.
unfoldable pub get_data : Option Packet → Call (List ℕ × ℕ)
get_data p = do q ← given p einval; d ← given q.payload_data einval; returns (d, q.data_size)

-- The payload is a copy of `size` bytes; the header's length follows.
unfoldable pub set_payload : Packet → List ℕ → ℕ → Packet
set_payload p bytes size = record p {
  header = record (p.header) { length_field = (size + header_size) % 2 ^ 32 };
  payload_data = some bytes;
  data_size = size;
}

unfoldable pub set_data : Option Packet → Option (List ℕ) → ℤ → Call Packet
unfolding set_payload
set_data none mem size = errs einval
set_data (some p) none size = errs einval
set_data (some p) (some mem) (negsuc n) = errs einval
set_data (some p) (some mem) (pos zero) = errs einval
set_data (some p) (some mem) (pos (suc n)) = do
  bytes ← need (take? (suc n) mem)
  returns (set_payload p bytes (suc n))
