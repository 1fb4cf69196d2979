-- ===== src/Wire/Examples.antt =====
-- The theorems on src/mongo-wire.c at small commands and at a reply with two documents.
use libmongo_client.Base.{ℕ, ◌≡◌, refl, true, some, List, [], ◌∷◌, ◌++◌, arith}
use libmongo_client.Base.Bytes.{le}
use libmongo_client.Base.Int.{pos}
use libmongo_client.Base.Call.{returns, ◌>>=◌}
use libmongo_client.Bson.Object.{finish}
use libmongo_client.Bson.Element.{framed, IsFramed}
use libmongo_client.Bson.Build.Appends.{closed}
use libmongo_client.Wire.Packet.{Packet, op_reply, op_update, op_insert, op_query}
use libmongo_client.Wire.Commands.{
  c_string, cmd_update, cmd_insert_n, cmd_query, cmd_custom, cmd_suffix,
}
use libmongo_client.Wire.Layout.{sent, cmd_update-sent, cmd_query-sent}
use libmongo_client.Wire.Batches.{flat, as_docs, cmd_insert_n-sent, cmd_custom-sent}
use libmongo_client.Wire.Reply.{ReplyHeader, reply_get_nth_document}
use libmongo_client.Wire.Documents.{reply_body, IsReply, IsReplyHeader, reply_get_nth_document-body}

abbrev name_space : List ℕ
name_space = b'd' ∷ b'b' ∷ []

-- An empty document, and one with a null.
abbrev empty_doc : List ℕ
empty_doc = 5 ∷ 0 ∷ 0 ∷ 0 ∷ 0 ∷ []

abbrev null_doc : List ℕ
null_doc = 8 ∷ 0 ∷ 0 ∷ 0 ∷ 10 ∷ b'a' ∷ 0 ∷ 0 ∷ []

empty_doc-IsFramed : IsFramed empty_doc
unfolding le
empty_doc-IsFramed = ([], refl, omega arith)

null_doc-IsFramed : IsFramed null_doc
unfolding le
null_doc-IsFramed = (10 ∷ b'a' ∷ 0 ∷ [], refl, omega arith)

cmd_update-sent_example :
    cmd_update 255 7 (some name_space) 1 (some (closed empty_doc)) (some (closed null_doc))
    ≡ returns
        (sent 7 op_update (le 4 0 ++ (c_string name_space ++ (le 4 1 ++ (empty_doc ++ null_doc)))))
cmd_update-sent_example = cmd_update-sent 255 7 name_space empty_doc null_doc 1 (omega arith)

cmd_query-sent_example :
    cmd_query 255 7 (some name_space) 4 0 10 (some (closed null_doc)) (some (closed empty_doc))
    ≡ returns (
        sent 7 op_query
          (le 4 4 ++ (c_string name_space ++ (le 4 0 ++ (le 4 10 ++ (null_doc ++ empty_doc))))))
cmd_query-sent_example = cmd_query-sent 255 7 name_space null_doc empty_doc 4 0 10 (omega arith)

cmd_insert_n-sent_example :
    cmd_insert_n 255 7 (some name_space) (pos 2) (some (as_docs (null_doc ∷ empty_doc ∷ [])))
    ≡ returns
        (sent 7 op_insert (le 4 0 ++ (c_string name_space ++ flat (null_doc ∷ empty_doc ∷ []))))
cmd_insert_n-sent_example =
    cmd_insert_n-sent 255 7 name_space null_doc (empty_doc ∷ []) (omega arith, (omega arith, tt))
      (omega arith)

cmd_custom-sent_example :
    cmd_custom 255 7 (some name_space) 4 (some (closed null_doc))
    ≡ returns (
        sent 7 op_query (
          le 4 4
          ++ (c_string (name_space ++ cmd_suffix)
              ++ (le 4 0 ++ (le 4 1 ++ (null_doc ++ framed []))))))
cmd_custom-sent_example = cmd_custom-sent 255 7 name_space null_doc 4 (omega arith)

abbrev two_returned : ReplyHeader
two_returned = record { flags = 8; cursor_id = 12345; start = 0; returned = 2 }

abbrev two_documents : List ℕ
two_documents = reply_body two_returned (empty_doc ∷ null_doc ∷ [])

abbrev reply : Packet
reply = record {
  header = record { length_field = 49; id = 3; resp_to = 7; opcode = op_reply };
  payload_data = some two_documents;
  data_size = 33;
}

reply-IsReply : IsReply reply two_documents
reply-IsReply = (refl, refl)

two_returned-IsReplyHeader : IsReplyHeader two_returned
two_returned-IsReplyHeader = (omega arith, omega arith, omega arith, omega arith)

reply_get_nth_document-body_example :
    (reply_get_nth_document (some reply) (pos 2) >>= λ b. returns (finish b))
    ≡ returns (some (closed null_doc), true)
reply_get_nth_document-body_example =
    reply_get_nth_document-body reply two_returned (empty_doc ∷ []) [] null_doc reply-IsReply
      two_returned-IsReplyHeader (empty_doc-IsFramed, (null_doc-IsFramed, tt)) (omega arith)
      (omega arith) (omega arith)
