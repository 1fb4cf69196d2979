-- ===== src/Gridfs/Examples/OldBinary.antt =====
-- src/sync-gridfs-stream.c: reading a chunk of the old binary subtype, which has its size in its first
-- four bytes.
use libmongo_client.Base.{ℕ, ◌≡◌, refl, some, List, [], ◌∷◌}
use libmongo_client.Base.Int.{pos}
use libmongo_client.Base.Run.{gives}
use libmongo_client.Gridfs.Document.{old_binary}
use libmongo_client.Gridfs.Writer.{part}
use libmongo_client.Gridfs.Reader.{Reader, load_chunk, copy_out, read_round, read_loop, stream_read}
use libmongo_client.Gridfs.Reader.Fresh.{fresh_reader}
use libmongo_client.Gridfs.Examples.Log.{ChunkLog, id, gfs, log_server}

abbrev six_bytes : List ℕ
six_bytes = 1 ∷ 2 ∷ 3 ∷ 4 ∷ 5 ∷ 6 ∷ []

abbrev old_chunk : List ℕ
old_chunk = 6 ∷ 0 ∷ 0 ∷ 0 ∷ six_bytes

abbrev nothing_there : ChunkLog
nothing_there = ([], [])

-- The stream on this only chunk of a file, behind so many bytes.
abbrev old_reader : ℕ → Reader
old_reader n = record (fresh_reader 6 6 id) {
  chunk_data = some old_chunk;
  start_offset = 4;
  data_length = 6;
  chunk_offset = n;
  offset = n;
}

old_chunk_loaded :
    load_chunk (fresh_reader 6 6 id) (old_binary, old_chunk, 10) ≡ some (old_reader 0)
unfolding load_chunk
old_chunk_loaded = refl

-- Of its six bytes a read of three gives the first ones,
old_chunk_read :
    stream_read log_server gfs (pos 3) (old_reader 0) nothing_there
    ≡ gives (1 ∷ 2 ∷ 3 ∷ []) (old_reader 3, nothing_there)
unfolding stream_read read_loop read_round copy_out part
old_chunk_read = refl

-- and a further one gives nothing.
old_chunk_read_on :
    stream_read log_server gfs (pos 3) (old_reader 3) nothing_there
    ≡ gives [] (old_reader 3, nothing_there)
unfolding stream_read read_loop
old_chunk_read_on = refl
