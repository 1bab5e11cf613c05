-- ===== src/NetAddr/Reserved.antt =====
-- `isnaddrreserved` (src/ubgp/netaddr.c) against tables of address blocks.
use mathlib.Core.Bool.{or_assoc, or-false}
use ubgpsuite.Base.{
  ℕ, ◌+◌, ◌-◌, ◌*◌, ◌/◌, ◌^◌, ◌≡◌, Bool, false, ◌&&◌, ◌||◌, not, leb, ◌==◌, IsBytes, get16, get32,
  arith, List, [], ◌∷◌, ◌<◌,
}
use ubgpsuite.NetAddr.{Netaddr, inet, inet6, isnaddrreserved, reserved4, reserved6}

-- A block of addresses: the first 32 bits of its first address, and its length in bits.
pub record Block : Type 0 where
  pub net : ℕ
  pub len : ℕ

abbrev block : ℕ → ℕ → Block
block net len = record { net = net; len = len }

-- `word` is the first 32 bits of an address.
pub in_block : ℕ → Block → Bool
in_block word b = word / 2 ^ (32 - b.len) == b.net / 2 ^ (32 - b.len)

abbrev pub in_blocks : ℕ → List Block → Bool
in_blocks word [] = false
in_blocks word (b ∷ bs) = in_block word b || in_blocks word bs

abbrev dotted : ℕ → ℕ → ℕ → ℕ
dotted a b c = (a * 256 + b) * 65536 + c * 256

-- 10/8, 127/8, 224/3, 100.64/10, 169.254/16, 172.16/12, 192.0.2/24, 192.88.99/24, 192.0.0/24,
-- 198.18/15, 198.51.100/24 and 203.0.113/24.
abbrev pub reserved_blocks4 : List Block
reserved_blocks4 =
    block (dotted 10 0 0) 8
    ∷ block (dotted 127 0 0) 8
    ∷ block (dotted 224 0 0) 3
    ∷ block (dotted 100 64 0) 10
    ∷ block (dotted 169 254 0) 16
    ∷ block (dotted 172 16 0) 12
    ∷ block (dotted 192 0 2) 24
    ∷ block (dotted 192 88 99) 24
    ∷ block (dotted 192 0 0) 24
    ∷ block (dotted 198 18 0) 15
    ∷ block (dotted 198 51 100) 24
    ∷ block (dotted 203 0 113) 24
    ∷ []

-- The only routable block of IPv6, 2000::/3, and the reserved blocks inside it: 2001::/23,
-- 2001:db8::/32, 2001:10::/28 and 2002::/16.
abbrev pub routable6 : Block
routable6 = block 0x2000_0000 3

abbrev pub reserved_blocks6 : List Block
reserved_blocks6 =
    block 0x2001_0000 23 ∷ block 0x2001_0db8 32 ∷ block 0x2001_0010 28 ∷ block 0x2002_0000 16 ∷ []

module _ (a b c d : ℕ) (hb : b < 256) (hc : c < 256) (hd : d < 256) where
  abbrev word4 : ℕ
  word4 = (a * 256 + b) * 2 ^ 16 + (c * 256 + d)

  slash8 : (n : ℕ) → in_block word4 (block (dotted n 0 0) 8) ≡ (a == n)
  unfolding in_block
  slash8 n = ground arith

  slash3 : a < 256 → in_block word4 (block (dotted 224 0 0) 3) ≡ leb 224 a
  unfolding in_block
  slash3 ha = ground arith

  slash10 : in_block word4 (block (dotted 100 64 0) 10) ≡ (a == 100 && leb 64 b && leb b 127)
  unfolding in_block
  slash10 = ground arith

  slash12 : in_block word4 (block (dotted 172 16 0) 12) ≡ (a == 172 && leb 16 b && leb b 31)
  unfolding in_block
  slash12 = ground arith

  slash15 : in_block word4 (block (dotted 198 18 0) 15) ≡ (a == 198 && (b == 18 || b == 19))
  unfolding in_block
  slash15 = ground arith

  slash16 : in_block word4 (block (dotted 169 254 0) 16) ≡ (a == 169 && b == 254)
  unfolding in_block
  slash16 = ground arith

  slash24 :
      (n m k : ℕ)
      → m < 256
      → k < 256
      → in_block word4 (block (dotted n m k) 24) ≡ (a == n && b == m && c == k)
  unfolding in_block
  slash24 n m k hm hk = ground arith

  reserved4-in_blocks : a < 256 → reserved4 a b c ≡ in_blocks word4 reserved_blocks4
  unfolding reserved4
  reserved4-in_blocks ha = simp (
    slash8,
    slash3 ha,
    slash10,
    slash12,
    slash15,
    slash16,
    slash24 192 0 2 (omega arith) (omega arith),
    slash24 192 88 99 (omega arith) (omega arith),
    slash24 192 0 0 (omega arith) (omega arith),
    slash24 198 51 100 (omega arith) (omega arith),
    slash24 203 0 113 (omega arith) (omega arith),
    or_assoc,
    or-false,
  )

-- An IPv4 prefix, whose address is given by bytes, is reserved exactly when its length is zero or
-- its address lies in one of the listed blocks.
pub isnaddrreserved_inet :
    (ip : Netaddr)
    → ip.family ≡ inet
    → IsBytes ip.bytes
    → isnaddrreserved ip ≡ (ip.bitlen == 0 || in_blocks (get32 ip.bytes 0) reserved_blocks4)
unfolding isnaddrreserved
isnaddrreserved_inet ip f h =
    let m = ip.bytes in
    let table = reserved4-in_blocks (m 0) (m 1) (m 2) (m 3) (h 1) (h 2) (h 3) (h 0) in rw (f, table)

reserved6-in_blocks :
    (a b : ℕ)
    → a < 65536
    → b < 65536
    → reserved6 a b
      ≡ (not (in_block (a * 2 ^ 16 + b) routable6) || in_blocks (a * 2 ^ 16 + b) reserved_blocks6)
unfolding reserved6 in_block
reserved6-in_blocks a b ha hb = ground arith

-- An IPv6 prefix, whose address is given by bytes, is reserved exactly when its length is zero,
-- its address lies outside 2000::/3, or it lies in one of the listed blocks.
pub isnaddrreserved_inet6 :
    (ip : Netaddr)
    → ip.family ≡ inet6
    → IsBytes ip.bytes
    → isnaddrreserved ip ≡ (
        ip.bitlen == 0
        || not (in_block (get32 ip.bytes 0) routable6)
        || in_blocks (get32 ip.bytes 0) reserved_blocks6)
unfolding isnaddrreserved
isnaddrreserved_inet6 ip f h =
    let m = ip.bytes in
    let table =
      reserved6-in_blocks (get16 m 0) (get16 m 2) (omega (arith, h 0, h 1))
        (omega (arith, h 2, h 3)) in
    rw (f, table, or_assoc)
