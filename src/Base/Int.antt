-- ===== src/Base/Int.antt =====
-- C's fixed-width integers. A `gint32` inside a computation is its bit pattern, a number below
-- 2 ^ 32; a signed value that a caller hands over or gets back is an integer ℤ.
use mathlib.Core.Bool.{Bool}
use mathlib.Core.Path.{◌≡◌}
use native.Mathlib.Omega.{arith}
use Prim.Native.Nat.{ℕ, ◌+◌, ◌-◌, ◌%◌, ◌^◌, ◌<◌}
use libmongo_client.Base.Tests.{if◌then◌else◌, ltb, leb}

-- `negsuc n` is -(n + 1).
pub data ℤ : Type 0 where
  pos : ℕ → ℤ
  negsuc : ℕ → ℤ

-- The pattern of `z` in a word whose sign bit is worth `h`.
unfoldable pub word : ℕ → ℤ → ℕ
word h (pos n) = n % (h + h)
word h (negsuc n) = h + h - 1 - n % (h + h)

unfoldable pub signed : ℕ → ℕ → ℤ
signed h w = if ltb w h then pos w else negsuc (h + h - 1 - w)

abbrev pub half32 : ℕ
half32 = 2 ^ 31

abbrev pub half64 : ℕ
half64 = 2 ^ 63

-- -h ≤ z < h
abbrev pub Fits : ℕ → ℤ → Type 0
Fits h (pos n) = n < h
Fits h (negsuc n) = n < h

pub word32-lt : (z : ℤ) → word half32 z < 2 ^ 32
unfolding word
word32-lt (pos n) = omega arith
word32-lt (negsuc n) = omega arith

pub word64-lt : (z : ℤ) → word half64 z < 2 ^ 64
unfolding word
word64-lt (pos n) = omega arith
word64-lt (negsuc n) = omega arith

pub signed-word32 : (z : ℤ) → Fits half32 z → signed half32 (word half32 z) ≡ z
unfolding word signed
signed-word32 (pos n) h = ground arith
signed-word32 (negsuc n) h = ground arith

pub signed-word64 : (z : ℤ) → Fits half64 z → signed half64 (word half64 z) ≡ z
unfolding word signed
signed-word64 (pos n) h = ground arith
signed-word64 (negsuc n) h = ground arith

-- A signed 32-bit pattern: its sign, `<`, and its widening to a 64-bit one.
abbrev pub is_negative : ℕ → Bool
is_negative w = leb half32 w

abbrev pub slt : ℕ → ℕ → Bool
slt a b = ltb ((a + 2 ^ 31) % 2 ^ 32) ((b + 2 ^ 31) % 2 ^ 32)

abbrev pub widen : ℕ → ℕ
widen w = if is_negative w then w + (2 ^ 64 - 2 ^ 32) else w
