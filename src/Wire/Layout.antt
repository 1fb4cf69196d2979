-- ===== src/Wire/Layout.antt =====
-- The commands of src/mongo-wire.c against the layout of the wire protocol.
use libmongo_client.Base.{
  ℕ, zero, suc, ◌+◌, ◌*◌, ◌%◌, ◌^◌, ◌<◌, ◌≡◌, refl, ap, sym, ◌∙◌, Bool, true, false, Option, none,
  some, List, [], ◌∷◌, ◌++◌, append_assoc, append-nil, arith, length, length-append, All, lt→leb,
  ne→==, leb, ◌==◌, replicate,
}
use libmongo_client.Base.Bytes.{le, length-le}
use libmongo_client.Base.Int.{half32}
use libmongo_client.Base.Call.{returns}
use libmongo_client.Base.Memcpy.{memcpy_all-concat, concat, IsConsecutive}
use libmongo_client.Bson.Object.{contents}
use libmongo_client.Bson.Build.Appends.{closed, size-closed}
use libmongo_client.Wire.Packet.{Packet, header_size, op_update, op_query, op_get_more, op_delete}
use libmongo_client.Wire.Commands.{
  wrap32, c_string, packet_of, cmd_update, selector_copies, cmd_query, cmd_get_more, cmd_delete,
}

-- A packet that goes out: its header counts itself and the payload.
abbrev pub sent : ℕ → ℕ → List ℕ → Packet
sent id opcode body = record {
  header = record {
    length_field = header_size + length body;
    id = id;
    resp_to = 0;
    opcode = opcode;
  };
  payload_data = some body;
  data_size = length body;
}

pub contents-closed : (d : List ℕ) → contents (some (closed d)) ≡ some d
unfolding contents
contents-closed d = refl

pub length-c_string : (s : List ℕ) → length (c_string s) ≡ length s + 1
length-c_string s = omega (arith, length-append s (0 ∷ []))

-- The sizes of the copies, added up.
abbrev pub total : List (ℕ × List ℕ) → ℕ
total [] = 0
total ((n, src) ∷ rest) = length src + total rest

pub length-concat : (copies : List (ℕ × List ℕ)) → length (concat copies) ≡ total copies
length-concat [] = refl
length-concat ((n, src) ∷ rest) = omega (arith, length-append src (concat rest), length-concat rest)

pub ruleset sizes = (arith, length-le, length-c_string)

module _ (junk id : ℕ) where
  pub packet_of-sent :
      (opcode n : ℕ) (copies : List (ℕ × List ℕ)) (body : List ℕ)
      → body ≡ concat copies
      → n ≡ total copies
      → total copies + 16 < half32
      → IsConsecutive 0 copies
      → packet_of junk id opcode n copies ≡ returns (sent id opcode body)
  unfolding packet_of
  packet_of-sent opcode n copies body eb en small c = rw (lt→leb half32 n (omega arith)) (
      rw (memcpy_all-concat n junk copies (omega (arith, length-concat copies)) c) (
        ap
          (λ b. returns (record {
            header = record {
              length_field = wrap32 (header_size + n);
              id = id;
              resp_to = 0;
              opcode = opcode;
            };
            payload_data = some b;
            data_size = n;
          }))
          (sym eb)
        ∙ ground (arith, length-concat copies, ap length eb)))

  -- OP_UPDATE carries a zero, the namespace, the flags, the selector and the update, if the size
  -- of the whole packet fits a signed 32-bit integer.
  pub cmd_update-sent :
      (s sel upd : List ℕ) (flags : ℕ)
      → length s + length sel + length upd + 25 < half32
      → cmd_update junk id (some s) flags (some (closed sel)) (some (closed upd))
        ≡ returns (sent id op_update (le 4 0 ++ (c_string s ++ (le 4 flags ++ (sel ++ upd)))))
  unfolding cmd_update
  cmd_update-sent s sel upd flags h =
      rw
        (
          size-closed sel (omega arith),
          size-closed upd (omega arith),
          lt→leb half32 (length sel) (omega arith),
          lt→leb half32 (length upd) (omega arith),
        )
        (rw (contents-closed sel, contents-closed upd)
          (packet_of-sent op_update _ _ _ (simp append-nil) (omega sizes) (omega sizes)
            (omega sizes)))

  -- OP_QUERY with a selector carries the flags, the namespace, the skip and return counts, the
  -- query and the selector, if the size of the whole packet fits a signed 32-bit integer.
  pub cmd_query-sent :
      (s query sel : List ℕ) (flags skip ret : ℕ)
      → length s + length query + length sel + 29 < half32
      → cmd_query junk id (some s) flags skip ret (some (closed query)) (some (closed sel))
        ≡ returns (
            sent id op_query
              (le 4 flags ++ (c_string s ++ (le 4 skip ++ (le 4 ret ++ (query ++ sel))))))
  unfolding cmd_query selector_copies
  cmd_query-sent s query sel flags skip ret h =
      rw
        (
          size-closed query (omega arith),
          size-closed sel (omega arith),
          lt→leb half32 (length query) (omega arith),
          lt→leb half32 (length sel) (omega arith),
        )
        (rw (contents-closed query, contents-closed sel)
          (packet_of-sent op_query _ _ _ (simp append-nil) (omega sizes) (omega sizes)
            (omega sizes)))

  -- OP_GET_MORE carries a zero, the namespace, the return count and the cursor id, if the size
  -- of the whole packet fits a signed 32-bit integer.
  pub cmd_get_more-sent :
      (s : List ℕ) (ret cursor_id : ℕ)
      → length s + 33 < half32
      → cmd_get_more junk id (some s) ret cursor_id
        ≡ returns (sent id op_get_more (le 4 0 ++ (c_string s ++ (le 4 ret ++ le 8 cursor_id))))
  unfolding cmd_get_more
  cmd_get_more-sent s ret cursor_id h =
      packet_of-sent op_get_more _ _ _ (simp append-nil) (omega sizes) (omega sizes) (omega sizes)

  -- OP_DELETE carries a zero, the namespace, the flags and the selector, if the size of the
  -- whole packet fits a signed 32-bit integer.
  pub cmd_delete-sent :
      (s sel : List ℕ) (flags : ℕ)
      → length s + length sel + 25 < half32
      → cmd_delete junk id (some s) flags (some (closed sel))
        ≡ returns (sent id op_delete (le 4 0 ++ (c_string s ++ (le 4 flags ++ sel))))
  unfolding cmd_delete
  cmd_delete-sent s sel flags h =
      rw (size-closed sel (omega arith), lt→leb half32 (length sel) (omega arith))
        (rw (contents-closed sel) (
          packet_of-sent op_delete _ _ _ (simp append-nil) (omega sizes) (omega sizes)
            (omega sizes)))
