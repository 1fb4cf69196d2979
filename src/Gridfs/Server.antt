-- ===== src/Gridfs/Server.antt =====
-- What GridFS uses of a connection: `mongo_sync_cmd_insert` of one document and
-- `mongo_sync_cmd_query` of src/mongo-sync.c. `W` is the state of the connection and of the server.
use libmongo_client.Base.{ℕ, Option, List, ◌⊎◌}
use libmongo_client.Base.Errno.{Errno}
use libmongo_client.Bson.Object.{Bson}
use libmongo_client.Wire.Packet.{Packet}

-- `insert` has the namespace and the document, and returns none for TRUE. `query` has the
-- namespace, the numbers of documents to skip and to return, and the query.
pub record Server (W : Type 0) : Type 0 where
  pub insert : List ℕ → Option Bson → W → Option Errno × W
  pub query : List ℕ → ℕ → ℕ → Option Bson → W → (Errno ⊎ Packet) × W

-- `struct _mongo_sync_gridfs` without its connection: the namespaces of the files and of the chunks,
-- and the default size of a chunk.
pub record GridFs : Type 0 where
  pub files_ns : List ℕ
  pub chunks_ns : List ℕ
  pub chunk_size : ℕ
