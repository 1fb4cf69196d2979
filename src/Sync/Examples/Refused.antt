-- ===== src/Sync/Examples/Refused.antt =====
-- A reply that says that a command failed, as src/mongo-sync.c takes it.
use libmongo_client.Base.{
  ℕ, ◌≡◌, ◌≢◌, refl, ap, List, ◌+◌, ◌<◌, [], ◌∷◌, true, false, some, ◌==◌, if◌then◌else◌, length,
  arith,
}
use libmongo_client.Base.Errno.{eproto, no_error}
use libmongo_client.Base.Run.{gives, stops}
use libmongo_client.Wire.Packet.{Packet, op_reply}
use libmongo_client.Wire.Reply.{ReplyHeader}
use libmongo_client.Wire.Batches.{flat}
use libmongo_client.Wire.Documents.{reply_body, IsReply, IsReplyHeader}
use libmongo_client.Bson.Element.{Element, IsElement, tag, payload, framed, encode, encode_all}
use libmongo_client.Bson.Cursor.Search.{IsDocument}
use libmongo_client.Sync.Connection.{SyncConn, conn_init}
use libmongo_client.Sync.Reply.{key_ok, key_err, check_error, double_one}
use libmongo_client.Sync.Reply.Errors.{ok_element, message, check_error-reply}
use libmongo_client.Base.Int.{pos, half32}
use libmongo_client.Base.Bytes.{le}

-- The text "no" of an error, in a document whose "ok" is 0.
abbrev no_text : List ℕ
no_text = b'n' ∷ b'o' ∷ []

abbrev failure : List Element
failure = ok_element 0 ∷ message no_text ∷ []

abbrev one_returned : ReplyHeader
one_returned = record { flags = 8; cursor_id = 0; start = 0; returned = 1 }

abbrev failed_reply : Packet
failed_reply = record {
  header = record { length_field = 0; id = 3; resp_to = 7; opcode = op_reply };
  payload_data = some (reply_body one_returned (framed (encode_all failure) ∷ []));
  data_size = 0;
}

failed_reply-IsReply :
    IsReply failed_reply (reply_body one_returned (framed (encode_all failure) ∷ []))
failed_reply-IsReply = (refl, refl)

one_returned-IsReplyHeader : IsReplyHeader one_returned
one_returned-IsReplyHeader = (omega arith, omega arith, omega arith, omega arith)

abbrev new_conn : SyncConn
new_conn = conn_init (record { fd = pos 5; request_id = 11 }) false

ok-IsElement : IsElement (ok_element 0)
ok-IsElement = ((omega arith, (omega arith, tt)), omega arith)

message-IsElement : IsElement (message no_text)
message-IsElement = (
  (omega arith, (omega arith, (omega arith, (omega arith, (omega arith, (omega arith, tt)))))),
  ((omega arith, (omega arith, tt)), omega arith),
)

failure-size : length (encode_all failure) + 5 < half32
unfolding encode_all encode tag payload le
failure-size = omega arith

failure-IsDocument : IsDocument failure
failure-IsDocument = ((ok-IsElement, (message-IsElement, tt)), failure-size)

small : length (flat (framed (encode_all failure) ∷ [])) < half32
unfolding encode_all encode tag payload le
small = omega arith

ok_is_not_err : key_ok ≢ key_err
ok_is_not_err = λ e. absurd (omega (arith, ap length e))

errmsg_is_not_err : (message no_text).key ≢ key_err
errmsg_is_not_err = λ e. absurd (omega (arith, ap length e))

ok_is_not_errmsg : key_ok ≢ (message no_text).key
ok_is_not_errmsg = λ e. absurd (omega (arith, ap length e))

check_error-reply_example :
    (check_error {W = ℕ} true failed_reply new_conn 0 ≡ (
      if 0 == double_one
      then gives failed_reply (new_conn, 0)
      else stops eproto (record new_conn { last_error = some no_text }, 0)))
    × (check_error {W = ℕ} false failed_reply new_conn 0
        ≡ stops no_error (record new_conn { last_error = some no_text }, 0))
check_error-reply_example =
    check_error-reply failed_reply new_conn 0 one_returned failure [] 0 no_text []
      (message no_text ∷ []) (ok_element 0 ∷ []) [] failed_reply-IsReply one_returned-IsReplyHeader
      tt small (omega arith) (omega arith) failure-IsDocument (refl, tt)
      (ok_is_not_err, (errmsg_is_not_err, tt)) (refl, (ok_is_not_errmsg, tt))
