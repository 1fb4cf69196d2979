-- ===== src/Wire/Commands.antt =====
-- src/mongo-wire.c: the commands. The payload is a fresh buffer that is filled by `memcpy`; sizes and
-- offsets are computed in 32 bits as in the source. A namespace is the bytes of its C string.
use libmongo_client.Base.{
  ℕ, zero, suc, ◌+◌, ◌*◌, ◌%◌, ◌^◌, Bool, false, ◌||◌, Option, none, some, List, [], ◌∷◌, ◌++◌,
  length, replicate, ◌==◌, if◌then◌else◌,
}
use libmongo_client.Base.Bytes.{le}
use libmongo_client.Base.Int.{ℤ, pos, negsuc, is_negative}
use libmongo_client.Base.Errno.{einval, erange}
use libmongo_client.Base.Call.{Call, returns, errs, fault, need, refuse, given, ◌>>=◌, ◌>>◌}
use libmongo_client.Base.Memcpy.{memcpy_all}
use libmongo_client.Bson.Object.{Bson, new, finish, size, contents}
use libmongo_client.Wire.Packet.{
  Packet, header_size, op_update, op_insert, op_query, op_get_more, op_delete, op_kill_cursors,
}

abbrev pub wrap32 : ℕ → ℕ
wrap32 n = n % 2 ^ 32

-- `ns` and its terminator.
abbrev pub c_string : List ℕ → List ℕ
c_string s = s ++ 0 ∷ []

-- What `memcpy (…, bson_data (b), bson_size (b))` copies.
abbrev pub doc_bytes : Option Bson → Call (List ℕ)
doc_bytes b = need (contents b)

-- The sizes of the first `n` documents, added up; one that is not positive is refused.
unfoldable pub insert_sizes : ℕ → List (Option Bson) → Call ℕ
insert_sizes zero docs = returns 0
insert_sizes (suc n) [] = fault
insert_sizes (suc n) (d ∷ docs) =
    if size d == 0 || is_negative (size d)
    then errs einval
    else (insert_sizes n docs >>= λ rest. returns (wrap32 (size d + rest)))

-- The copies of the second loop, from an offset on.
unfoldable pub insert_copies : ℕ → ℕ → List (Option Bson) → Call (List (ℕ × List ℕ))
insert_copies zero offset docs = returns []
insert_copies (suc n) offset [] = fault
insert_copies (suc n) offset (d ∷ docs) = do
  bytes ← doc_bytes d
  rest ← insert_copies n (wrap32 (offset + size d)) docs
  returns ((offset, bytes) ∷ rest)

unfoldable pub any_open : List Bson → Bool
any_open [] = false
any_open (d ∷ docs) = is_negative (size (some d)) || any_open docs

unfoldable pub some_all : List Bson → List (Option Bson)
some_all [] = []
some_all (d ∷ docs) = some d ∷ some_all docs

-- The copies for the selector of a query, which may be NULL.
unfoldable pub selector_copies : ℕ → Option Bson → Call (List (ℕ × List ℕ))
selector_copies offset none = returns []
selector_copies offset (some sel) = do bytes ← doc_bytes (some sel); returns ((offset, bytes) ∷ [])

abbrev pub selector_size : Option Bson → ℕ
selector_size none = 0
selector_size (some sel) = size (some sel)

abbrev pub selector_open : Option Bson → Bool
selector_open none = false
selector_open (some sel) = is_negative (size (some sel))

-- `n` cursor ids are taken from the arguments.
unfoldable pub kill_copies : ℕ → ℕ → List ℕ → Call (List (ℕ × List ℕ))
kill_copies zero offset ids = returns []
kill_copies (suc n) offset [] = fault
kill_copies (suc n) offset (cid ∷ ids) = do
  rest ← kill_copies n (wrap32 (offset + 8)) ids
  returns ((offset, le 8 cid) ∷ rest)

-- ".$cmd"
abbrev pub cmd_suffix : List ℕ
cmd_suffix = b'.' ∷ b'$' ∷ b'c' ∷ b'm' ∷ b'd' ∷ []

-- The bytes of the packets' fresh buffers before they are written.
module _ (junk : ℕ) where
  -- `p->data = g_malloc (p->data_size)`, the copies, and the header of a packet that goes out. A size
  -- that is negative as a `gint32` cannot be allocated.
  unfoldable pub packet_of : ℕ → ℕ → ℕ → List (ℕ × List ℕ) → Call Packet
  packet_of id opcode data_size copies =
      if is_negative data_size
      then fault
      else (need (memcpy_all (replicate data_size junk) copies) >>= λ bytes. returns (record {
        header = record {
          length_field = wrap32 (header_size + data_size);
          id = id;
          resp_to = 0;
          opcode = opcode;
        };
        payload_data = some bytes;
        data_size = data_size;
      }))

  unfoldable pub cmd_update : ℕ → Option (List ℕ) → ℕ → Option Bson → Option Bson → Call Packet
  cmd_update id ns flags selector update = do
    s ← given ns einval
    given selector einval
    given update einval
    refuse (is_negative (size selector) || is_negative (size update)) einval
    let nslen = length s + 1
    sel ← doc_bytes selector
    upd ← doc_bytes update
    packet_of id op_update (wrap32 (size selector + size update + 4 * 2 + nslen)) (
        (0, le 4 0)
        ∷ (4, c_string s)
        ∷ (4 + nslen, le 4 flags)
        ∷ (4 * 2 + nslen, sel)
        ∷ (4 * 2 + nslen + size selector, upd)
        ∷ [])

  unfoldable pub insert_documents : ℕ → List ℕ → ℕ → List (Option Bson) → Call Packet
  insert_documents id s n docs = do
    dsize ← insert_sizes n docs
    let start = wrap32 (4 + length s + 1)
    copies ← insert_copies n start docs
    packet_of id op_insert (wrap32 (start + dsize)) ((0, le 4 0) ∷ (4, c_string s) ∷ copies)

  unfoldable pub cmd_insert_n : ℕ → Option (List ℕ) → ℤ → Option (List (Option Bson)) → Call Packet
  unfolding insert_documents
  cmd_insert_n id none n docs = errs einval
  cmd_insert_n id (some s) n none = errs einval
  cmd_insert_n id (some s) (negsuc n) (some docs) = errs erange
  cmd_insert_n id (some s) (pos zero) (some docs) = errs erange
  cmd_insert_n id (some s) (pos (suc n)) (some docs) = insert_documents id s (suc n) docs

  -- The documents are the arguments before the final NULL.
  unfoldable pub cmd_insert : ℕ → Option (List ℕ) → List Bson → Call Packet
  unfolding cmd_insert_n any_open some_all
  cmd_insert id ns docs = do
    given ns einval
    refuse (any_open docs) einval
    cmd_insert_n id ns (pos (length docs)) (some (some_all docs))

  unfoldable pub cmd_query :
      ℕ → Option (List ℕ) → ℕ → ℕ → ℕ → Option Bson → Option Bson → Call Packet
  cmd_query id ns flags skip ret query sel = do
    s ← given ns einval
    given query einval
    refuse (is_negative (size query) || selector_open sel) einval
    let nslen = length s + 1
    q ← doc_bytes query
    rest ← selector_copies (4 * 3 + nslen + size query) sel
    packet_of id op_query (wrap32 (wrap32 (4 + nslen + 4 * 2 + size query) + selector_size sel)) (
        (0, le 4 flags)
        ∷ (4, c_string s)
        ∷ (4 + nslen, le 4 skip)
        ∷ (4 * 2 + nslen, le 4 ret)
        ∷ (4 * 3 + nslen, q)
        ∷ rest)

  -- The cursor id is a 64-bit pattern.
  unfoldable pub cmd_get_more : ℕ → Option (List ℕ) → ℕ → ℕ → Call Packet
  cmd_get_more id ns ret cursor_id = do
    s ← given ns einval
    let nslen = length s + 1
    packet_of id op_get_more (wrap32 (4 + nslen + 4 + 8)) (
        (0, le 4 0)
        ∷ (4, c_string s)
        ∷ (4 + nslen, le 4 ret)
        ∷ (4 * 2 + nslen, le 8 cursor_id)
        ∷ [])

  unfoldable pub cmd_delete : ℕ → Option (List ℕ) → ℕ → Option Bson → Call Packet
  cmd_delete id ns flags sel = do
    s ← given ns einval
    given sel einval
    refuse (is_negative (size sel)) einval
    let nslen = length s + 1
    bytes ← doc_bytes sel
    packet_of id op_delete (wrap32 (4 + nslen + 4 + size sel))
        ((0, le 4 0) ∷ (4, c_string s) ∷ (4 + nslen, le 4 flags) ∷ (4 * 2 + nslen, bytes) ∷ [])

  unfoldable pub cmd_kill_cursors_va : ℕ → ℕ → List ℕ → Call Packet
  cmd_kill_cursors_va id n ids = do
    copies ← kill_copies n 8 ids
    packet_of id op_kill_cursors (wrap32 (4 + 4 + 8 * n)) ((0, le 4 0) ∷ (4, le 4 n) ∷ copies)

  unfoldable pub cmd_kill_cursors : ℕ → ℤ → List ℕ → Call Packet
  unfolding cmd_kill_cursors_va
  cmd_kill_cursors id (negsuc n) ids = errs einval
  cmd_kill_cursors id (pos zero) ids = errs einval
  cmd_kill_cursors id (pos (suc n)) ids = cmd_kill_cursors_va id (suc n) ids

  unfoldable pub cmd_custom : ℕ → Option (List ℕ) → ℕ → Option Bson → Call Packet
  cmd_custom id db flags command = do
    d ← given db einval
    given command einval
    refuse (is_negative (size command)) einval
    let ns = d ++ cmd_suffix
    let empty = (finish (some new)).0
    cmd_query id (some ns) flags 0 1 command empty
