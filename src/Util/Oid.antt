-- ===== src/Util/Oid.antt =====
-- src/mongo-utils.c: making object ids. The static variables `machine_id` and `pid` are the state,
-- as bit patterns of 32 and 16 bits; `getpid` and `rand` are parameters.
use libmongo_client.Base.{
  ℕ, ◌-◌, ◌/◌, ◌%◌, ◌^◌, ◌<◌, ◌≡◌, refl, ◌||◌, Option, none, some, List, [], ◌∷◌, ◌++◌, replicate,
  leb, ◌==◌, if◌then◌else◌, arith, ne→==,
}
use libmongo_client.Base.Memcpy.{memcpy_all, blit}

pub record OidState : Type 0 where
  pub machine_id : ℕ
  pub pid : ℕ

-- `machine_id ^= pid >> 16`: the shifted `gint16` is 0, or -1 where it is negative.
unfoldable pub modulate : ℕ → ℕ → ℕ
modulate machine_id pid = if leb (2 ^ 15) pid then 2 ^ 32 - 1 - machine_id else machine_id

-- It is the old `pid` that modulates; the new one is the low half of the process id.
unfoldable pub oid_init : ℕ → ℕ → ℕ → OidState → OidState
unfolding modulate
oid_init getpid rand mid s = record {
  machine_id = modulate (if mid == 0 then rand else mid) s.pid;
  pid = getpid % 2 ^ 16;
}

-- The bytes of `GINT32_TO_BE (n)`.
abbrev pub big_endian : ℕ → List ℕ
big_endian n = (n / 2 ^ 24 % 256) ∷ (n / 2 ^ 16 % 256) ∷ (n / 2 ^ 8 % 256) ∷ (n % 256) ∷ []

-- The copies in the order of the code: the first byte of the sequence number is overwritten.
unfoldable pub oid_new_with_time : OidState → ℕ → ℕ → Option (List ℕ)
oid_new_with_time s ts seq =
    if s.machine_id == 0 || s.pid == 0
    then none
    else (memcpy_all (replicate 12 0) (
        (8, big_endian seq)
        ∷ (0, big_endian ts)
        ∷ (
          4,
          (s.machine_id % 256) ∷ (s.machine_id / 256 % 256) ∷ (s.machine_id / 2 ^ 16 % 256) ∷ [],
        )
        ∷ (7, (s.pid % 256) ∷ (s.pid / 256 % 256) ∷ [])
        ∷ []))

-- An object id has the time in big-endian order, three bytes of the machine id, the process id, and
-- the low three bytes of the sequence number in big-endian order, if the machine id and the process
-- id are set.
pub oid_new_with_time-layout :
    (s : OidState) (ts seq : ℕ)
    → 0 < s.machine_id
    → 0 < s.pid
    → oid_new_with_time s ts seq
      ≡ some (
          big_endian ts
          ++ (s.machine_id % 256)
            ∷ (s.machine_id / 256 % 256)
            ∷ (s.machine_id / 2 ^ 16 % 256)
            ∷ (s.pid % 256)
            ∷ (s.pid / 256 % 256)
            ∷ (seq / 2 ^ 16 % 256)
            ∷ (seq / 2 ^ 8 % 256)
            ∷ (seq % 256)
            ∷ [])
unfolding oid_new_with_time memcpy_all blit
oid_new_with_time-layout s ts seq hm hp =
    rw (ne→== s.machine_id 0 (omega arith)) (rw (ne→== s.pid 0 (omega arith)) refl)
