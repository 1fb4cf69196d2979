-- ===== src/Wire/Rebuilt.antt =====
-- Setting the header and the payload of a packet of src/mongo-wire.c.
use libmongo_client.Base.{ℕ, some, List, ◌∷◌}
use libmongo_client.Wire.Packet.{Packet}

module _ (id opcode : ℕ) (b : ℕ) (body : List ℕ) where
  -- The packet with this length in its header, and this payload size.
  abbrev with_size : ℕ → ℕ → Packet
  with_size n size = record {
    header = record { length_field = n; id = id; resp_to = 0; opcode = opcode };
    payload_data = some (b ∷ body);
    data_size = size;
  }
