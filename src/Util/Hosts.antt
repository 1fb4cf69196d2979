-- ===== src/Util/Hosts.antt =====
-- What src/mongo-utils.c reads out of the addresses of hosts.
use libmongo_client.Base.{
  ℕ, suc, ◌-◌, ◌^◌, ◌<◌, ◌≡◌, ◌≢◌, refl, none, some, List, [], ◌∷◌, ◌++◌, arith, length, All, eq→==,
  ne→==, lt→leb,
}
use libmongo_client.Base.Int.{ℤ, pos}
use libmongo_client.Util.Address.{
  address, conn_local, split_first, split_last, check_port, parse_port, parse_literal, parse_name,
  parse_addr,
}

-- The bytes do not have `c` among them.
abbrev pub Without : ℕ → List ℕ → Type 0
Without c = All (λ b. b ≢ c)

split_last-Without : (c : ℕ) (xs : List ℕ) → Without c xs → split_last c xs ≡ none
unfolding split_last
split_last-Without c [] h = refl
split_last-Without c (x ∷ xs) h = rw (split_last-Without c xs h.1) (rw (ne→== x c h.0) refl)

split_last-append :
    (c : ℕ) (xs ys : List ℕ) → Without c ys → split_last c (xs ++ c ∷ ys) ≡ some (xs, c ∷ ys)
unfolding split_last
split_last-append c [] ys h = rw (split_last-Without c ys h) (rw (eq→== c c refl) refl)
split_last-append c (x ∷ xs) ys h = rw (split_last-append c xs ys h) refl

split_first-append :
    (c : ℕ) (xs ys : List ℕ) → Without c xs → split_first c (xs ++ c ∷ ys) ≡ some (xs, c ∷ ys)
unfolding split_first
split_first-append c [] ys h = rw (eq→== c c refl) refl
split_first-append c (x ∷ xs) ys h = rw (ne→== x c h.0) (rw (split_first-append c xs ys h.1) refl)

module _ (strtol : List ℕ → ℤ × List ℕ) where
  parse_port-number :
      (host port_s : List ℕ) (n : ℕ)
      → strtol port_s ≡ (pos n, [])
      → n < 2 ^ 31
      → parse_port strtol host port_s ≡ address host (pos n)
  unfolding parse_port check_port
  parse_port-number host port_s n read small =
      rw read (rw (ne→== n (2 ^ 63 - 1) (omega arith)) (rw (lt→leb (2 ^ 31) n small) refl))

  parse_name-port :
      (c : ℕ) (host port_s : List ℕ) (n : ℕ)
      → Without b':' port_s
      → strtol port_s ≡ (pos n, [])
      → n < 2 ^ 31
      → parse_name strtol ((c ∷ host) ++ b':' ∷ port_s) ≡ address (c ∷ host) (pos n)
  unfolding parse_name
  parse_name-port c host port_s n one_colon read small =
      rw (split_last-append b':' (c ∷ host) port_s one_colon) (
        rw (ne→== (suc (length host)) 0 (omega arith))
          (parse_port-number (c ∷ host) port_s n read small))

  -- The address `host:port` gives the host in front of its last colon and the number behind it,
  -- if `strtol` reads a number below 2^31 there and nothing is left behind it. The host has one
  -- byte or more, the first no opening bracket, and may have colons.
  pub parse_addr-port :
      (c : ℕ) (host port_s : List ℕ) (n : ℕ)
      → c ≢ b'['
      → Without b':' port_s
      → strtol port_s ≡ (pos n, [])
      → n < 2 ^ 31
      → parse_addr strtol (some ((c ∷ host) ++ b':' ∷ port_s)) ≡ address (c ∷ host) (pos n)
  unfolding parse_addr
  parse_addr-port c host port_s n no_literal one_colon read small =
      rw (ne→== c b'[' no_literal) (parse_name-port c host port_s n one_colon read small)

  parse_literal-port :
      (c : ℕ) (host : List ℕ) (d : ℕ) (digits : List ℕ) (n : ℕ)
      → Without b']' (c ∷ host)
      → strtol (d ∷ digits) ≡ (pos n, [])
      → n < 2 ^ 31
      → parse_literal strtol ((c ∷ host) ++ b']' ∷ b':' ∷ d ∷ digits) ≡ address (c ∷ host) (pos n)
  unfolding parse_literal
  parse_literal-port c host d digits n h read small =
      rw (split_first-append b']' (c ∷ host) (b':' ∷ d ∷ digits) h, parse_literal)
        (rw (ne→== (suc (length host)) 0 (omega arith)) (
          rw (lt→leb (suc (suc (suc (length digits)))) 2 (omega arith))
            (parse_port-number (c ∷ host) (d ∷ digits) n read small)))

  -- The IPv6 literal `[host]:port` gives the bytes between the brackets and the number, if
  -- `strtol` reads a number below 2^31 behind the colon and nothing is left. The host has one
  -- byte or more and no closing bracket, the port one byte or more.
  pub parse_addr-literal :
      (c : ℕ) (host : List ℕ) (d : ℕ) (digits : List ℕ) (n : ℕ)
      → Without b']' (c ∷ host)
      → strtol (d ∷ digits) ≡ (pos n, [])
      → n < 2 ^ 31
      → parse_addr strtol (some (b'[' ∷ ((c ∷ host) ++ b']' ∷ b':' ∷ d ∷ digits)))
        ≡ address (c ∷ host) (pos n)
  unfolding parse_addr
  parse_addr-literal c host d digits n h read small =
      parse_literal-port c host d digits n h read small

parse_name-conn_local :
    (strtol : List ℕ → ℤ × List ℕ) (host : List ℕ)
    → Without b':' host
    → parse_name strtol host ≡ address host conn_local
unfolding parse_name
parse_name-conn_local strtol host h = rw (split_last-Without b':' host h, parse_name) refl

-- An address without a colon and without a leading bracket is a host with no port, the same port
-- -1 that stands for a local socket.
pub parse_addr-conn_local :
    (strtol : List ℕ → ℤ × List ℕ) (c : ℕ) (host : List ℕ)
    → c ≢ b'['
    → Without b':' (c ∷ host)
    → parse_addr strtol (some (c ∷ host)) ≡ address (c ∷ host) conn_local
unfolding parse_addr
parse_addr-conn_local strtol c host no_literal h =
    rw (ne→== c b'[' no_literal) (parse_name-conn_local strtol (c ∷ host) h)
