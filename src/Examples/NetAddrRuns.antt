-- ===== src/Examples/NetAddrRuns.antt =====
-- Addresses: 10.1.2.3 and 10.1.9.9 share 20 bits.
use ubgpsuite.Base.{
  ℕ, ◌≤◌, ◌<◌, ◌*◌, ◌+◌, ◌/◌, ◌%◌, ◌-◌, ◌^◌, ◌≡◌, ◌↔◌, refl, true, false, ◌==◌, ◌||◌, not,
  if◌then◌else◌, Mem, IsBytes, get32, arith,
}
use ubgpsuite.NetAddr.{
  inet, inet6, Netaddr, naddrsize, same_bytes, patcompwithmask, prefixeqwithmask, isnaddrreserved,
}
use ubgpsuite.NetAddr.Bits.{SameBits}
use ubgpsuite.NetAddr.Prefix.{patcompwithmask_iff, prefixeqwithmask_iff, prefixeqwithmask_seventh}
use ubgpsuite.NetAddr.Reserved.{
  isnaddrreserved_inet, isnaddrreserved_inet6, in_block, in_blocks, reserved_blocks4,
  reserved_blocks6, routable6,
}
use ubgpsuite.NetAddr.Make.{naddrsize_least}

abbrev four_bytes : ℕ → ℕ → ℕ → ℕ → Mem
four_bytes a b c d j =
    if j == 0 then a else if j == 1 then b else if j == 2 then c else if j == 3 then d else 0

abbrev first_addr : Netaddr
first_addr = record { family = inet; bitlen = 32; bytes = four_bytes 10 1 2 3 }

abbrev second_addr : Netaddr
second_addr = record { family = inet; bitlen = 32; bytes = four_bytes 10 1 9 9 }

first_addr-IsBytes : IsBytes (first_addr.bytes)
first_addr-IsBytes j = ground arith

second_addr-IsBytes : IsBytes (second_addr.bytes)
second_addr-IsBytes j = ground arith

-- 2001:db8::
abbrev documentation : Netaddr
documentation = record { family = inet6; bitlen = 32; bytes = four_bytes 32 1 13 184 }

documentation-IsBytes : IsBytes (documentation.bytes)
documentation-IsBytes j = ground arith

patcompwithmask_example :
    (patcompwithmask first_addr second_addr 20 ≡ true)
    ↔ SameBits first_addr.bytes second_addr.bytes 20
patcompwithmask_example =
    patcompwithmask_iff first_addr second_addr 20 (omega arith) first_addr-IsBytes
      second_addr-IsBytes

patcompwithmask_run : patcompwithmask first_addr second_addr 20 ≡ true
unfolding patcompwithmask same_bytes
patcompwithmask_run = refl

patcompwithmask_longer : patcompwithmask first_addr second_addr 21 ≡ false
unfolding patcompwithmask same_bytes
patcompwithmask_longer = refl

prefixeqwithmask_example :
    (prefixeqwithmask first_addr second_addr 21 ≡ true)
    ↔ SameBits first_addr.bytes second_addr.bytes 21
prefixeqwithmask_example =
    prefixeqwithmask_iff first_addr second_addr 21 (omega arith) (omega arith) first_addr-IsBytes
      second_addr-IsBytes

prefixeqwithmask_seventh_example : (prefixeqwithmask first_addr second_addr 60 ≡ true) ↔ (
    SameBits first_addr.bytes second_addr.bytes 48
    × (first_addr.bytes 7 / 2 ^ (8 - 60 % 8) ≡ second_addr.bytes 7 / 2 ^ (8 - 60 % 8)))
prefixeqwithmask_seventh_example =
    prefixeqwithmask_seventh first_addr second_addr 60 (omega arith) first_addr-IsBytes
      second_addr-IsBytes

isnaddrreserved_inet_example :
    isnaddrreserved first_addr
    ≡ (first_addr.bitlen == 0 || in_blocks (get32 first_addr.bytes 0) reserved_blocks4)
isnaddrreserved_inet_example = isnaddrreserved_inet first_addr refl first_addr-IsBytes

isnaddrreserved_inet6_example : isnaddrreserved documentation ≡ (
    documentation.bitlen == 0
    || not (in_block (get32 documentation.bytes 0) routable6)
    || in_blocks (get32 documentation.bytes 0) reserved_blocks6)
isnaddrreserved_inet6_example = isnaddrreserved_inet6 documentation refl documentation-IsBytes

naddrsize_least_example : (20 ≤ 8 * naddrsize 20) × (8 * naddrsize 20 < 20 + 8)
naddrsize_least_example = naddrsize_least 20 (omega arith)
