-- ===== src/Util/Address.antt =====
-- src/mongo-utils.c: `mongo_util_parse_addr`. The address is the bytes of its C string. `strtol` in
-- base 10 is a parameter: from a string, the number and the rest that it did not read.
use libmongo_client.Base.{
  ℕ, zero, suc, ◌-◌, ◌^◌, Option, none, some, List, [], ◌∷◌, length, drop, leb, ◌==◌, if◌then◌else◌,
}
use libmongo_client.Base.Int.{ℤ, pos, negsuc}
use libmongo_client.Base.Errno.{Errno, einval, erange}

-- What the call stores: FALSE comes with no host, the port -1 and `errno`.
pub data Parsed : Type 0 where
  address : List ℕ → ℤ → Parsed
  refused : Errno → Parsed

-- The port -1, both "no port" and MONGO_CONN_LOCAL.
abbrev pub conn_local : ℤ
conn_local = negsuc 0

-- `strchr (s, c)`: the bytes in front of the first `c`, and those from it on.
unfoldable pub split_first : ℕ → List ℕ → Option (List ℕ × List ℕ)
split_first c [] = none
split_first c (x ∷ xs) =
    if x == c
    then some ([], x ∷ xs)
    else elim (split_first c xs) [ none ↦ none | some (a, b) ↦ some (x ∷ a, b) ]

-- `g_strrstr (s, ":")`: the bytes in front of the last `c`, and those from it on.
unfoldable pub split_last : ℕ → List ℕ → Option (List ℕ × List ℕ)
split_last c [] = none
split_last c (x ∷ xs) = elim (split_last c xs) [
  | some (a, b) ↦ some (x ∷ a, b)
  | none ↦ if x == c then some ([], x ∷ xs) else none
]

module _ (strtol : List ℕ → ℤ × List ℕ) where
  -- LONG_MIN and LONG_MAX, and what does not fit a port, are out of range; then the rest must be empty.
  unfoldable pub check_port : List ℕ → ℤ → List ℕ → Parsed
  check_port host (pos n) rest =
      if n == 2 ^ 63 - 1
      then refused erange
      else if leb (2 ^ 31) n
      then refused erange
      else elim rest [ [] ↦ address host (pos n) | x ∷ xs ↦ refused einval ]
  check_port host (negsuc zero) rest = elim rest [
    | [] ↦ address host (negsuc zero)
    | x ∷ xs ↦ refused einval
  ]
  check_port host (negsuc (suc n)) rest = refused erange

  unfoldable pub parse_port : List ℕ → List ℕ → Parsed
  unfolding check_port
  parse_port host port_s = let (p, ep) = strtol port_s in check_port host p ep

  -- Behind the '[': the host is what stands before the ']', and the port is read two bytes behind it,
  -- whatever the byte between them is.
  unfoldable pub parse_literal : List ℕ → Parsed
  unfolding split_first parse_port
  parse_literal inner = elim (split_first b']' inner) [
    | none ↦ refused einval
    | some (host, from) ↦
        if length host == 0
        then refused einval
        else if leb (length from) 2
        then address host conn_local
        else parse_port host (drop 2 from)
  ]

  unfoldable pub parse_name : List ℕ → Parsed
  unfolding split_last parse_port
  parse_name addr = elim (split_last b':' addr) [
    | none ↦ address addr conn_local
    | some (host, from) ↦ if length host == 0 then refused einval else parse_port host (drop 1 from)
  ]

  unfoldable pub parse_addr : Option (List ℕ) → Parsed
  unfolding parse_literal parse_name
  parse_addr none = refused einval
  parse_addr (some []) = parse_name []
  parse_addr (some (c ∷ addr)) = if c == b'[' then parse_literal addr else parse_name (c ∷ addr)
