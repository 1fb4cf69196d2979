-- ===== src/Wire/Reply.antt =====
-- src/mongo-wire.c: the parts of a reply. The data of a packet that was made by the functions of this
-- library has a size above 0, so that size is not looked at for the -1 of a failure.
use libmongo_client.Base.{
  ℕ, zero, suc, ◌+◌, ◌-◌, ◌%◌, ◌^◌, false, not, Option, none, some, List, length, drop, leb, take?,
  ◌==◌, if◌then◌else◌,
}
use libmongo_client.Base.Bytes.{read}
use libmongo_client.Base.Int.{ℤ, pos, negsuc, slt, widen, is_negative}
use libmongo_client.Base.Errno.{einval, erange, eproto}
use libmongo_client.Base.Call.{Call, returns, errs, need, refuse, given, ◌>>=◌, ◌>>◌}
use libmongo_client.Bson.Object.{Bson}
use libmongo_client.Wire.Packet.{Packet, get_data, op_reply}

-- The fields as bit patterns.
pub record ReplyHeader : Type 0 where
  pub flags : ℕ
  pub cursor_id : ℕ
  pub start : ℕ
  pub returned : ℕ

-- The memory `n` bytes behind a pointer.
unfoldable pub forward : ℕ → List ℕ → Option (List ℕ)
forward n mem = if leb n (length mem) then some (drop n mem) else none

-- `sizeof (mongo_reply_packet_header)`, packed: 4 + 8 + 4 + 4.
abbrev pub reply_header_size : ℕ
reply_header_size = 20

unfoldable pub reply_get_header : Option Packet → Call ReplyHeader
reply_get_header p = do
  q ← given p einval
  refuse (not (q.header.opcode == op_reply)) eproto
  (d, n) ← get_data p
  f ← need (read 4 d)
  c ← need (read 8 (drop 4 d))
  s ← need (read 4 (drop 12 d))
  r ← need (read 4 (drop 16 d))
  returns (record { flags = f; cursor_id = c; start = s; returned = r })

unfoldable pub reply_get_data : Option Packet → Call (List ℕ)
reply_get_data p = do
  q ← given p einval
  refuse (not (q.header.opcode == op_reply)) eproto
  (d, n) ← get_data p
  need (forward reply_header_size d)

-- `bson_stream_doc_size (d, pos)`
unfoldable pub doc_size_at : List ℕ → ℕ → Call ℕ
doc_size_at d p = do mem ← need (forward (widen p) d); need (read 4 mem)

-- The loop over the documents in front; `pos` is a `gint32`.
unfoldable pub skip_documents : ℕ → List ℕ → ℕ → Call ℕ
skip_documents zero d p = returns p
skip_documents (suc n) d p = do s ← doc_size_at d p; skip_documents n d ((p + s) % 2 ^ 32)

-- `bson_new_from_data` on the document at `p` without its last byte; NULL for a size below 2.
unfoldable pub document_at : List ℕ → ℕ → Call (Option Bson)
document_at d p = do
  s ← doc_size_at d p
  mem ← need (forward (widen p) d)
  let n = (s + 2 ^ 32 - 1) % 2 ^ 32
  if n == 0
      then returns none
      else if is_negative n
      then returns none
      else (need (take? n mem) >>= λ bytes.
          returns (some (record { data_bytes = bytes; finished = false })))

-- The document is returned open, for the caller to finish.
unfoldable pub reply_get_nth_document : Option Packet → ℤ → Call (Option Bson)
reply_get_nth_document none n = errs einval
reply_get_nth_document (some p) (negsuc n) = errs einval
reply_get_nth_document (some p) (pos zero) = errs einval
reply_get_nth_document (some p) (pos (suc n)) = do
  refuse (not (p.header.opcode == op_reply)) eproto
  h ← reply_get_header (some p)
  refuse (slt h.returned (suc n)) erange
  d ← reply_get_data (some p)
  at ← skip_documents n d 0
  document_at d at
