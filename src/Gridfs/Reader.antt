-- ===== src/Gridfs/Reader.antt =====
-- src/sync-gridfs-stream.c: reading.
pub mod Load
pub mod Rounds
pub mod Reads
pub mod Fresh
pub mod Seek
pub mod Asked
pub mod Sought
use libmongo_client.Base.{
  ℕ, zero, suc, ◌+◌, ◌-◌, ◌/◌, ◌%◌, ◌^◌, Bool, true, false, not, ◌&&◌, ◌||◌, Option, none, some,
  List, [], ◌∷◌, ◌++◌, ◌⊎◌, inl, inr, length, drop, take?, ltb, leb, ◌==◌, if◌then◌else◌,
}
use libmongo_client.Base.Int.{ℤ, pos, negsuc, word, half64, is_negative, slt}
use libmongo_client.Base.Errno.{Errno, einval, erange, eproto}
use libmongo_client.Base.Call.{Call, returns, errs}
use libmongo_client.Base.Call
use libmongo_client.Base.Result.{Result, ok, fails, fault, spins}
use libmongo_client.Base.Run.{Run, gives, stops, crashes, loops, lift, ◌>>=◌}
use libmongo_client.Bson.Object.{Bson, finish}
use libmongo_client.Bson.Cursor.{Cursor, find}
use libmongo_client.Bson.Get.{get_binary}
use libmongo_client.Wire.Packet.{Packet}
use libmongo_client.Wire.Reply.{reply_get_nth_document}
use libmongo_client.Gridfs.Server.{Server, GridFs}
use libmongo_client.Gridfs.Document.{data_key, generic, old_binary, chunk_query}
use libmongo_client.Gridfs.Writer.{part}

-- The fields of a stream that reads: patterns of 64 bits, and of 32 for the sizes and offsets of the
-- chunk. `chunk_data` is the memory behind the pointer.
pub record Reader : Type 0 where
  pub chunk_size : ℕ
  pub file_length : ℕ
  pub offset : ℕ
  pub current_chunk : ℕ
  pub id : List ℕ
  pub chunk_data : Option (List ℕ)
  pub start_offset : ℕ
  pub data_length : ℕ
  pub chunk_offset : ℕ

-- `<` on `gint64`s.
abbrev pub slt64 : ℕ → ℕ → Bool
slt64 a b = ltb ((a + 2 ^ 63) % 2 ^ 64) ((b + 2 ^ 63) % 2 ^ 64)

-- The first document of an answer, finished; none for NULL.
unfoldable pub first_document : Errno ⊎ Packet → Call (Option Bson)
first_document (inl e) = returns none
first_document (inr p) = elim (reply_get_nth_document (some p) (pos 1)) [
  | returns b ↦ returns (finish b).0
  | errs e ↦ returns none
  | Call.fault ↦ Call.fault
]

-- The subtype, the memory and the size of the field `data`; `fails` where it is not there.
unfoldable pub chunk_binary : Option Bson → Result (ℕ × List ℕ × ℕ)
chunk_binary b = elim (find b (some data_key)) [
  | ok c ↦ get_binary (some c)
  | fails ↦ fails
  | fault ↦ fault
  | spins ↦ spins
]

-- The start offset is set for the old subtype, and never reset.
unfoldable pub load_chunk : Reader → ℕ × List ℕ × ℕ → Option Reader
load_chunk r (sub, mem, n) =
    if sub == generic
    then some (record r { chunk_data = some mem; data_length = n; chunk_offset = 0 })
    else if sub == old_binary
    then some (record r {
      chunk_data = some mem;
      start_offset = 4;
      data_length = (n + 2 ^ 32 - 4) % 2 ^ 32;
      chunk_offset = 0;
    })
    else none

-- What `_stream_seek_chunk` does with the answer of the server.
unfoldable pub load_answer :
    {W : Type 0} → Reader → (Errno ⊎ Packet) × W → Run (Reader × W) (Unit {0})
load_answer r (answer, s) = elim (first_document answer) [
  | returns b ↦ elim (chunk_binary b) [
    | ok found ↦ elim (load_chunk r found) [
      | some r' ↦ gives tt (r', s)
      | none ↦ stops eproto (record r { chunk_data = none; data_length = found.2 }, s)
    ]
    | fails ↦ stops eproto (record r { chunk_data = none }, s)
    | fault ↦ crashes
    | spins ↦ loops
  ]
  | errs e ↦ crashes
  | Call.fault ↦ crashes
]

-- `csize` bytes from where the stream stands in its chunk, and the stream behind them.
unfoldable pub copy_out : ℕ → Reader → Option (List ℕ × Reader)
copy_out csize r = elim r.chunk_data [
  | none ↦ none
  | some mem ↦ elim (take? csize (drop (r.start_offset + r.chunk_offset) mem)) [
    | none ↦ none
    | some bytes ↦ some (
      bytes,
      record r {
        chunk_offset = (r.chunk_offset + csize) % 2 ^ 32;
        offset = (r.offset + csize) % 2 ^ 64;
      },
    )
  ]
]

-- `stream->file.offset + stream->reader.chunk.start_offset < stream->file.length`
abbrev pub has_more : Reader → Bool
has_more r = slt64 ((r.offset + r.start_offset) % 2 ^ 64) r.file_length

-- The chunk is read, as far as its size says.
abbrev pub is_read : Reader → Bool
is_read r = not (slt ((r.chunk_offset + r.start_offset) % 2 ^ 32) r.data_length)

module _ {W : Type 0} (server : Server W) (gfs : GridFs) where
  -- `_stream_seek_chunk`
  unfoldable pub seek_chunk : ℕ → Reader → W → Run (Reader × W) (Unit {0})
  seek_chunk n r s = lift einval (r, s) (chunk_query r.id n) >>= λ doc _.
      load_answer r (server.query gfs.chunks_ns 0 1 doc s)

  -- A round of the loop: the bytes that it copies.
  unfoldable pub read_round : ℕ → Reader → W → Run (Reader × W) (List ℕ)
  read_round left r s =
      let room = (r.data_length + 2 ^ 32 - r.chunk_offset) % 2 ^ 32 in
      if is_negative room then crashes else elim (copy_out (part room left) r) [
        | none ↦ crashes
        | some (bytes, r') ↦
            if is_read r' && has_more r'
            then (let next = (r'.current_chunk + 1) % 2 ^ 64 in
                seek_chunk next (record r' { current_chunk = next }) s >>= λ _ st. gives bytes st)
            else gives bytes (r', s)
      ]

  -- `while (pos < size && …)`, with what is left of the size: the bytes that it copies.
  unfoldable pub read_loop : ℕ → ℕ → Reader → W → Run (Reader × W) (List ℕ)
  read_loop fuel zero r s = gives [] (r, s)
  read_loop zero (suc left) r s = if has_more r then loops else gives [] (r, s)
  read_loop (suc fuel) (suc left) r s = elim (has_more r) [
    | false ↦ gives [] (r, s)
    | true ↦ read_round (suc left) r s >>= λ bytes st.
        read_loop fuel (suc left - length bytes) st.0 st.1 >>= λ more st'. gives (bytes ++ more) st'
  ]

  -- The bytes that come into the caller's buffer; the call returns their number.
  unfoldable pub stream_read : ℤ → Reader → W → Run (Reader × W) (List ℕ)
  stream_read (negsuc n) r s = stops einval (r, s)
  stream_read (pos zero) r s = stops einval (r, s)
  stream_read (pos (suc n)) r s = elim r.chunk_data [
    | some mem ↦ read_loop (suc (suc n)) (suc n) r s
    | none ↦ seek_chunk 0 r s >>= λ _ st. read_loop (suc (suc n)) (suc n) st.0 st.1
  ]
