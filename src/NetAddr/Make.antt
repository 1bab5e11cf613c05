-- ===== src/NetAddr/Make.antt =====
-- `naddrsize` and `makenaddr` (src/ubgp/netaddr.h).
use ubgpsuite.Base.{ℕ, ◌+◌, ◌-◌, ◌*◌, ◌/◌, ◌%◌, ◌^◌, ◌≤◌, ◌<◌, ◌≡◌, Mem, arith, ap}
use ubgpsuite.NetAddr.{Family, naddrsize, makenaddr}
use ubgpsuite.NetAddr.Bits.{SameBits, bit_and_seven}

-- For a length below 256 bits, `naddrsize` is the least number of bytes that holds it.
pub naddrsize_least :
    (bitlen : ℕ)
    → bitlen < 256
    → (bitlen ≤ 8 * naddrsize bitlen) × (8 * naddrsize bitlen < bitlen + 8)
unfolding naddrsize
naddrsize_least bitlen h = ground (arith, bit_and_seven bitlen h)

-- For a length of at most 128 bits, `makenaddr` keeps that many leading bits of its source, reads
-- nothing past the last byte that holds them, and leaves every later byte zero.
makenaddr_bits :
    (family : Family) (sin : Mem) (bitlen : ℕ)
    → bitlen ≤ 128
    → SameBits (makenaddr family sin bitlen).bytes sin bitlen
      × (naddrsize bitlen ≤ 16)
      × ((j : ℕ) → naddrsize bitlen ≤ j → (makenaddr family sin bitlen).bytes j ≡ 0)
unfolding makenaddr
makenaddr_bits family sin bitlen h =
    let size = naddrsize_least bitlen (omega arith) in
    (
      (λ i hi. ap (λ (t : ℕ). t / 2 ^ (7 - i % 8) % 2) (ground arith)),
      omega arith,
      (λ j hj. ground arith),
    )
