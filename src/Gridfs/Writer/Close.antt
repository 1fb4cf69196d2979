-- ===== src/Gridfs/Writer/Close.antt =====
-- src/sync-gridfs-stream.c: closing a stream that writes. `md5` is the text of the checksum of bytes,
-- `date` the time of the call in milliseconds.
use libmongo_client.Base.{
  ℕ, ◌+◌, ◌-◌, ◌%◌, ◌^◌, Option, none, some, List, [], ◌∷◌, ◌++◌, take?, ◌==◌, if◌then◌else◌,
}
use libmongo_client.Base.Int.{ℤ, negsuc, signed, half32, half64}
use libmongo_client.Base.Errno.{einval}
use libmongo_client.Base.Result.{Result, ok, fails, fault, spins, ◌>>=◌}
use libmongo_client.Base.Run.{Run, gives, stops, crashes, loops}
use libmongo_client.Bson.Object.{Bson, new_from_data, size, contents, finish}
use libmongo_client.Bson.Append.{append_int64, append_int32, append_utc_datetime, append_string}
use libmongo_client.Gridfs.Server.{Server, GridFs}
use libmongo_client.Gridfs.Writer.{Writer, chunk_write}

abbrev pub length_key : List ℕ
length_key = b'l' ∷ b'e' ∷ b'n' ∷ b'g' ∷ b't' ∷ b'h' ∷ []

abbrev pub chunk_size_key : List ℕ
chunk_size_key = b'c' ∷ b'h' ∷ b'u' ∷ b'n' ∷ b'k' ∷ b'S' ∷ b'i' ∷ b'z' ∷ b'e' ∷ []

abbrev pub upload_date_key : List ℕ
upload_date_key = b'u' ∷ b'p' ∷ b'l' ∷ b'o' ∷ b'a' ∷ b'd' ∷ b'D' ∷ b'a' ∷ b't' ∷ b'e' ∷ []

abbrev pub md5_key : List ℕ
md5_key = b'm' ∷ b'd' ∷ b'5' ∷ []

-- `bson_new_from_data (bson_data (b), bson_size (b) - 1)`: the object, open again; none for NULL.
unfoldable pub reopen : Option Bson → Result (Option Bson)
reopen b = elim (new_from_data (contents b) (signed half32 ((size b + 2 ^ 32 - 1) % 2 ^ 32))) [
  | ok c ↦ ok (some c)
  | fails ↦ ok none
  | fault ↦ fault
  | spins ↦ spins
]

-- The fields that both kinds of files store behind the user's: the length, the size of the chunks,
-- the date and, unless there is none, the checksum.
unfoldable pub append_file_fields : Option Bson → ℕ → ℕ → ℤ → Option (List ℕ) → Result (Option Bson)
append_file_fields b file_length chunk_size date sum =
    let l = append_int64 b (some length_key) (signed half64 file_length) in
    let c = append_int32 l.0 (some chunk_size_key) (signed half32 chunk_size) in
    let d = append_utc_datetime c.0 (some upload_date_key) date in
    elim sum [
      | none ↦ ok d.0
      | some text ↦
          append_string d.0 (some md5_key) (some (text ++ 0 ∷ [])) (negsuc 0) >>= λ m. ok m.0
    ]

unfoldable pub stream_metadata : (List ℕ → List ℕ) → ℤ → Writer → Result (Option Bson)
stream_metadata md5 date w = do
  b ← reopen w.metadata
  m ←
      append_file_fields b w.file_length w.chunk_size date
        (if w.file_length == 0 then none else some (md5 w.summed))
  ok (finish m).0

module _ {W : Type 0} (server : Server W) (gfs : GridFs) (md5 : List ℕ → List ℕ) (date : ℤ) where
  -- Behind the write of the last chunk.
  unfoldable pub close_metadata : Writer → W → Run W (Unit {0})
  close_metadata w s = elim (stream_metadata md5 date w) [
    | ok doc ↦
        let (failed, s') = server.insert gfs.files_ns doc s in
        elim failed [ none ↦ gives tt s' | some e ↦ stops e s' ]
    | fails ↦ stops einval s
    | fault ↦ crashes
    | spins ↦ loops
  ]

  -- The metadata goes out only if there was a last chunk to write and it was written.
  unfoldable pub writer_close : Writer → W → Run W (Unit {0})
  writer_close w s =
      if w.buffer_offset == 0
      then gives tt s
      else elim (chunk_write server gfs w.buffer_offset w s) [
        | gives _ (w', s') ↦ elim (take? w'.buffer_offset w'.buffer) [
          | none ↦ crashes
          | some bytes ↦ close_metadata (record w' { summed = w'.summed ++ bytes }) s'
        ]
        | stops e (w', s') ↦ gives tt s'
        | crashes ↦ crashes
        | loops ↦ loops
      ]
