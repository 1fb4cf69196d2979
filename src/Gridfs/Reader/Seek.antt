-- ===== src/Gridfs/Reader/Seek.antt =====
-- src/sync-gridfs-stream.c: seeking. `whence` is SEEK_SET, SEEK_CUR or SEEK_END, or another number.
use libmongo_client.Base.{
  ℕ, zero, suc, ◌+◌, ◌-◌, ◌/◌, ◌%◌, ◌^◌, Bool, ◌||◌, leb, ◌==◌, if◌then◌else◌,
}
use libmongo_client.Base.Int.{ℤ, word, half64, is_negative}
use libmongo_client.Base.Errno.{einval, erange}
use libmongo_client.Base.Run.{Run, gives, stops, crashes, ◌>>=◌}
use libmongo_client.Gridfs.Server.{Server, GridFs}
use libmongo_client.Gridfs.Reader.{Reader, slt64, seek_chunk}

abbrev pub is_negative64 : ℕ → Bool
is_negative64 w = leb half64 w

-- What the `switch` over `whence` comes to: the position is the one asked for already, is out of
-- range, is another one, or `whence` is none of the three.
pub data Target : Type 0 where
  here : Target
  out_of_range : Target
  goes_to : ℕ → Target
  unknown : Target

unfoldable pub target_set : ℕ → Reader → Target
target_set p r =
    if p == r.offset
    then here
    else if is_negative64 p || slt64 r.file_length p
    then out_of_range
    else goes_to p

unfoldable pub target_cur : ℕ → Reader → Target
target_cur p r =
    let sum = (p + r.offset) % 2 ^ 64 in
    if is_negative64 sum || slt64 r.file_length sum
    then out_of_range
    else if p == 0
    then here
    else goes_to sum

unfoldable pub target_end : ℕ → Reader → Target
target_end p r =
    let sum = (p + r.file_length) % 2 ^ 64 in
    if slt64 0 p || is_negative64 sum then out_of_range else goes_to sum

unfoldable pub target : ℤ → ℕ → Reader → Target
unfolding target_set target_cur target_end
target p zero r = target_set (word half64 p) r
target p (suc zero) r = target_cur (word half64 p) r
target p (suc (suc zero)) r = target_end (word half64 p) r
target p (suc (suc (suc n))) r = unknown

-- `real_pos / chunk_size` and the remainder, for a position that is not negative: the quotient has
-- the sign of the chunk size, and the remainder is not negative.
unfoldable pub quotient : ℕ → ℕ → ℕ
quotient p c = if is_negative c then (2 ^ 64 - p / (2 ^ 32 - c)) % 2 ^ 64 else p / c

unfoldable pub remainder : ℕ → ℕ → ℕ
remainder p c = if is_negative c then p % (2 ^ 32 - c) else p % c

module _ {W : Type 0} (server : Server W) (gfs : GridFs) where
  unfoldable pub seek_to : ℕ → Reader → W → Run (Reader × W) (Unit {0})
  seek_to p r s =
      if r.chunk_size == 0
      then crashes
      else (seek_chunk server gfs (quotient p r.chunk_size) r s >>= λ _ (r', s'). gives tt (
        record r' {
          chunk_offset = remainder p r.chunk_size;
          current_chunk = quotient p r.chunk_size;
          offset = p;
        },
        s',
      ))

  unfoldable pub stream_seek : ℤ → ℕ → Reader → W → Run (Reader × W) (Unit {0})
  stream_seek p whence r s = elim (target p whence r) [
    | here ↦ gives tt (r, s)
    | out_of_range ↦ stops erange (r, s)
    | goes_to real ↦ seek_to real r s
    | unknown ↦ stops einval (r, s)
  ]
