-- ===== src/Sync/Examples/Deaf.antt =====
-- A network on which connections are made and nothing can be sent.
use libmongo_client.Base.{ℕ, ◌≡◌, refl, ap, ◌∙◌, arith, true, none, some, List, [], ◌∷◌, ◌++◌, inr}
use libmongo_client.Base.Int.{ℤ, pos, negsuc, word}
use libmongo_client.Base.Errno.{Errno, ebadf, efault}
use libmongo_client.Base.Run.{gives, stops}
use libmongo_client.Client.Open.{mongo_connect, tcp_connect, connect_first}
use libmongo_client.Client.{Net}
use libmongo_client.Base.Call.{returns}
use libmongo_client.Wire.Packet.{Packet}
use libmongo_client.Wire.Commands
use libmongo_client.Sync.Connection.{SyncConn}
use libmongo_client.Wire.Batches.{cmd_custom-sent}
use libmongo_client.Bson.Build.Appends.{closed}
use libmongo_client.Bson.Object.{
  new_sized, append_bytes, append_byte, append_int32_word, finish, close,
}
use libmongo_client.Bson.Append.{append_int32, append_element_header}
use libmongo_client.Base.Bytes.{le}
use libmongo_client.Wire.Packet.{get_data, op_query}
use libmongo_client.Wire.Commands.{c_string, cmd_suffix}
use libmongo_client.Wire.Layout.{sent}
use libmongo_client.Bson.Element.{framed}
use libmongo_client.Client.{packet_send, transmit}
use libmongo_client.Sync.Reply.{on_super}
use libmongo_client.Sync.Master.{
  custom_once, custom_by, send_once, one_command, db_system, cmd_ping_name, slave_flag, next_id,
  cmd_ping,
}

abbrev pub deaf : Net ℕ
deaf = record {
  sendmsg = λ fd bytes w. ((none, efault), w);
  recv = λ fd n w. ((none, efault), w);
  getaddrinfo =
      λ host port w. (inr (record { family = 2; socktype = 1; protocol = 6; addr = [] } ∷ []), w);
  socket = λ family socktype protocol w. (some 3, w);
  connect = λ fd addr w. (true, w);
  close_fd = λ fd w. w;
  nodelay = λ fd w. w;
}

abbrev ping_bytes : List ℕ
ping_bytes = 15 ∷ 0 ∷ 0 ∷ 0 ∷ 16 ∷ b'p' ∷ b'i' ∷ b'n' ∷ b'g' ∷ 0 ∷ 1 ∷ 0 ∷ 0 ∷ 0 ∷ 0 ∷ []

ping_command : one_command (pos 32) cmd_ping_name ≡ some (closed ping_bytes)
unfolding one_command new_sized append_int32 append_element_header append_bytes append_byte
    append_int32_word finish close le word
ping_command = refl

ping_body : ℕ → List ℕ
ping_body flags =
    le 4 flags
    ++ (c_string (db_system ++ cmd_suffix) ++ (le 4 0 ++ (le 4 1 ++ (ping_bytes ++ framed []))))

ping_packet : ℕ → ℕ → Packet
ping_packet id flags = sent id op_query (ping_body flags)

ping_built :
    (id flags : ℕ)
    → Commands.cmd_custom 0 id (some db_system) flags (one_command (pos 32) cmd_ping_name)
      ≡ returns (ping_packet id flags)
unfolding ping_packet ping_body
ping_built id flags =
    ap (Commands.cmd_custom 0 id (some db_system) flags) ping_command
    ∙ cmd_custom-sent 0 id db_system ping_bytes flags (omega arith)

deaf_send :
    (id flags : ℕ) (fd : ℤ) (r : ℕ) (w : ℕ)
    → (e : Errno) × (packet_send deaf
          (some (ping_packet id flags))
          (record { fd = fd; request_id = r })
          w
        ≡ stops e (record { fd = fd; request_id = r }, w))
unfolding packet_send get_data transmit ping_packet ping_body le
deaf_send id flags (negsuc n) r w = (ebadf, refl)
deaf_send id flags (pos n) r w = (efault, refl)

pub deaf_ping :
    (c : SyncConn) (w : ℕ)
    → (e : Errno) × (c' : SyncConn) × (w' : ℕ) × (cmd_ping deaf 0 c w ≡ stops e (c', w'))
      × (c'.rs ≡ c.rs)
unfolding cmd_ping custom_once custom_by send_once on_super
deaf_ping c w =
    let (e, unsent) = deaf_send (next_id c) (slave_flag c) c.super.fd c.super.request_id w in
    (
      e,
      c,
      w,
      rw (ping_built (next_id c) (slave_flag c), custom_by) (rw (unsent, on_super) refl),
      refl,
    )

pub deaf_connect :
    (w : ℕ)
    → mongo_connect deaf (some (b'h' ∷ [])) (pos 9) w
      ≡ gives (record { fd = pos 3; request_id = 0 }) w
unfolding mongo_connect tcp_connect connect_first
deaf_connect w = refl
