-- ===== src/Gridfs/Writer.antt =====
-- src/sync-gridfs-stream.c: writing. A checksum is the bytes that it was updated with so far.
pub mod Feed
pub mod Chunks
pub mod Holding
pub mod Refines
pub mod Close
pub mod Closed
use libmongo_client.Base.{
  ℕ, zero, suc, ◌+◌, ◌-◌, ◌%◌, ◌^◌, Bool, true, false, Option, none, some, List, [], ◌∷◌, ◌++◌,
  drop, take?, ltb, ◌==◌, if◌then◌else◌,
}
use libmongo_client.Base.Int.{ℤ, pos, negsuc, signed, half64}
use libmongo_client.Base.Errno.{Errno, einval, enoent}
use libmongo_client.Base.Memcpy.{blit}
use libmongo_client.Base.Result
use libmongo_client.Base.Result.{Result, ok}
use libmongo_client.Base.Run.{Run, gives, stops, crashes, loops, lift, ◌>>=◌}
use libmongo_client.Bson.Object.{Bson, new_from_data, size, contents, finish}
use libmongo_client.Bson.Append.{append_int64, append_int32, append_utc_datetime, append_string}
use libmongo_client.Gridfs.Server.{Server, GridFs}
use libmongo_client.Gridfs.Document.{chunk_doc}

-- The fields of a stream that writes. The numbers are patterns of 64 bits, but for the chunk size
-- and the offset in the buffer, which are `gint32`s that are not negative.
pub record Writer : Type 0 where
  pub chunk_size : ℕ
  pub file_length : ℕ
  pub offset : ℕ
  pub current_chunk : ℕ
  pub id : List ℕ
  pub metadata : Option Bson
  pub buffer : List ℕ
  pub buffer_offset : ℕ
  pub summed : List ℕ

-- Where the room is less than what is left to write, it is the room.
unfoldable pub part : ℕ → ℕ → ℕ
part room left = if ltb left room then left else room

-- The copy of `csize` bytes into the buffer, and the offsets after it.
unfoldable pub put : ℕ → List ℕ → Writer → Option Writer
put csize mem w = elim (take? csize mem) [
  | none ↦ none
  | some bytes ↦ elim (blit w.buffer w.buffer_offset bytes) [
    | none ↦ none
    | some buffer ↦ some (record w {
      buffer = buffer;
      buffer_offset = w.buffer_offset + csize;
      offset = (w.offset + csize) % 2 ^ 64;
      file_length = (w.file_length + csize) % 2 ^ 64;
    })
  ]
]

module _ {W : Type 0} (server : Server W) (gfs : GridFs) where
  -- `_stream_chunk_write` of `n` bytes of the buffer.
  unfoldable pub chunk_write : ℕ → Writer → W → Run (Writer × W) (Unit {0})
  chunk_write n w s = lift einval (w, s) (chunk_doc w.id w.current_chunk w.buffer n) >>= λ doc _.
      let (failed, s') = server.insert gfs.chunks_ns doc s in
      elim failed [ none ↦ gives tt (w, s') | some e ↦ stops e (w, s') ]

  -- What a full buffer is written with, and the state for the next chunk.
  unfoldable pub flush : Writer → W → Run (Writer × W) (Unit {0})
  flush w s = chunk_write w.chunk_size w s >>= λ _ (w', s'). (elim (take? w'.chunk_size w'.buffer) [
    | none ↦ crashes
    | some bytes ↦ gives tt (
      record w' {
        summed = w'.summed ++ bytes;
        buffer_offset = 0;
        current_chunk = (w'.current_chunk + 1) % 2 ^ 64;
      },
      s',
    )
  ])

  -- One round of the loop: how much of the memory was written, and the state.
  unfoldable pub write_round : List ℕ → ℕ → Writer → W → Run (Writer × W) ℕ
  write_round mem left w s =
      if ltb w.chunk_size w.buffer_offset
      then crashes
      else (let csize = part (w.chunk_size - w.buffer_offset) left in
          elim (put csize mem w) [
            | none ↦ crashes
            | some w' ↦
                if w'.buffer_offset == w'.chunk_size
                then (flush w' s >>= λ _ r. gives csize r)
                else gives csize (w', s)
          ])

  -- `while (pos < size)`, with the memory behind `pos` and what is left of the size.
  unfoldable pub write_loop : ℕ → List ℕ → ℕ → Writer → W → Run (Writer × W) (Unit {0})
  write_loop fuel mem zero w s = gives tt (w, s)
  write_loop zero mem (suc left) w s = loops
  write_loop (suc fuel) mem (suc left) w s = write_round mem (suc left) w s >>= λ csize r.
      write_loop fuel (drop csize mem) (suc left - csize) r.0 r.1

  -- A round copies a byte at least, but for a buffer that an insert has failed on.
  unfoldable pub stream_write : Option (List ℕ) → ℤ → Writer → W → Run (Writer × W) (Unit {0})
  stream_write none size w s = stops einval (w, s)
  stream_write (some mem) (negsuc n) w s = stops einval (w, s)
  stream_write (some mem) (pos zero) w s = stops einval (w, s)
  stream_write (some mem) (pos (suc n)) w s = write_loop (suc (suc n)) mem (suc n) w s
