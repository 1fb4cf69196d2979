-- ===== src/Base/Errno.antt =====
-- The values that the code stores in `errno`.
use mathlib.Core.Bool.{Bool, true, false}
use Prim.Native.Nat.{ℕ}

pub data Errno : Type 0 where
  no_error einval erange eproto enotconn eagain enoent eopnotsupp efault emsgsize ebadf enotsup :
      Errno
  ehostunreach enametoolong eaddrnotavail : Errno
  -- set by the system
  of_system : ℕ → Errno

-- `errno == EPROTO`
unfoldable pub is_eproto : Errno → Bool
is_eproto eproto = true
is_eproto e = false
