-- ===== src/Util/Examples.antt =====
-- The theorems on src/mongo-utils.c at three addresses, with a number reader of decimal digits.
use libmongo_client.Base.{
  ℕ, ◌+◌, ◌*◌, ◌-◌, ◌≡◌, refl, ◌&&◌, some, List, [], ◌∷◌, arith, leb, if◌then◌else◌,
}
use libmongo_client.Base.Int.{ℤ, pos}
use libmongo_client.Util.Address.{address, parse_addr}
use libmongo_client.Util.Oid.{
  OidState, modulate, oid_init, oid_new_with_time, oid_new_with_time-layout,
}
use libmongo_client.Util.Hosts.{parse_addr-port, parse_addr-literal}

-- The digits in front, read on from the number `n`.
abbrev digits_from : ℕ → List ℕ → ℤ × List ℕ
digits_from n [] = (pos n, [])
digits_from n (x ∷ xs) =
    if leb b'0' x && leb x b'9' then digits_from (n * 10 + (x - b'0')) xs else (pos n, x ∷ xs)

abbrev reader : List ℕ → ℤ × List ℕ
reader = digits_from 0

parse_addr-port_example :
    parse_addr reader (some (b'd' ∷ b'b' ∷ b':' ∷ b'8' ∷ b'1' ∷ []))
    ≡ address (b'd' ∷ b'b' ∷ []) (pos 81)
parse_addr-port_example =
    parse_addr-port reader b'd' (b'b' ∷ []) (b'8' ∷ b'1' ∷ []) 81 (omega arith)
      (omega arith, (omega arith, tt)) refl (omega arith)

parse_addr-literal_example :
    parse_addr reader (some (b'[' ∷ b':' ∷ b'1' ∷ b']' ∷ b':' ∷ b'8' ∷ b'1' ∷ []))
    ≡ address (b':' ∷ b'1' ∷ []) (pos 81)
parse_addr-literal_example =
    parse_addr-literal reader b':' (b'1' ∷ []) b'8' (b'1' ∷ []) 81 (omega arith, (omega arith, tt))
      refl (omega arith)

-- After a first initialisation by the process 258 with the machine id 1.
abbrev started : OidState
started = oid_init 258 5 1 (record { machine_id = 0; pid = 0 })

machine_id-started : started.machine_id ≡ 1
unfolding oid_init modulate
machine_id-started = refl

pid-started : started.pid ≡ 258
unfolding oid_init
pid-started = refl

abbrev started_state : OidState
started_state = record { machine_id = 1; pid = 258 }

oid_new_with_time-layout_example :
    oid_new_with_time started_state 16909060 7
    ≡ some (1 ∷ 2 ∷ 3 ∷ 4 ∷ 1 ∷ 0 ∷ 0 ∷ 2 ∷ 1 ∷ 0 ∷ 0 ∷ 7 ∷ [])
oid_new_with_time-layout_example =
    oid_new_with_time-layout started_state 16909060 7 (omega arith) (omega arith)
