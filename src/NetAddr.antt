-- ===== src/NetAddr.antt =====
-- Network prefixes: src/ubgp/netaddr.h and the classification of reserved addresses in src/ubgp/netaddr.c.
-- The payload union of `netaddr_t` is 16 bytes of memory; `u16[i]` and `u32[i]` are the words that
-- start at byte `2 * i` and `4 * i`.
pub mod Bits
pub mod Prefix
pub mod Reserved
pub mod Make
use ubgpsuite.Base.{
  ℕ, zero, suc, ◌+◌, ◌-◌, ◌*◌, ◌/◌, ◌%◌, ◌^◌, ◌≤◌, ◌<◌, bit_and, Bool, true, false, ◌&&◌, ◌||◌, not,
  ltb, leb, ◌==◌, if◌then◌else◌, Mem, copy, fill, get16, get32, List, [], ◌∷◌,
}

-- Unix address family.
pub data Family : Type 0 where
  unspec inet inet6 : Family

pub record Netaddr : Type 0 where
  pub family : Family
  pub bitlen : ℕ
  pub bytes : Mem

-- A prefix with the path identifier of RFC 7911.
pub record Netaddrap : Type 0 where
  pub pfx : Netaddr
  pub pathid : ℕ

unfoldable pub same_family : Family → Family → Bool
same_family unspec unspec = true
same_family inet inet = true
same_family inet6 inet6 = true
same_family _ _ = false

unfoldable pub naddrsize : ℕ → ℕ
naddrsize bitlen = bitlen / 2 ^ 3 + (if bit_and bitlen 7 == 0 then 0 else 1)

-- `sin` is the source buffer.
unfoldable pub makenaddr : Family → Mem → ℕ → Netaddr
makenaddr family sin bitlen = record {
  family = family;
  bitlen = bitlen;
  bytes = copy (λ j. 0) 0 sin 0 (naddrsize bitlen);
}

-- `memcmp(a, b, n) == 0`.
unfoldable pub same_bytes : Mem → Mem → ℕ → Bool
same_bytes a b zero = true
same_bytes a b (suc n) = same_bytes a b n && a n == b n

-- Comparisons of one byte, of `u16[i]` and of `u32[i]`.
abbrev pub eq8 : Mem → Mem → ℕ → Bool
eq8 a b i = a i == b i

abbrev pub eq16 : Mem → Mem → ℕ → Bool
eq16 a b i = get16 a (2 * i) == get16 b (2 * i)

abbrev pub eq32 : Mem → Mem → ℕ → Bool
eq32 a b i = get32 a (4 * i) == get32 b (4 * i)

-- `~0u << (8 - (mask & 7))`, in 32 bits.
abbrev pub byte_mask : ℕ → ℕ
byte_mask k = (2 ^ 32 - 1) * 2 ^ (8 - k) % 2 ^ 32

-- The expression that `case 8 * n` of `prefixeqwithmask` returns.
unfoldable pub whole_bytes : Mem → Mem → ℕ → Bool
whole_bytes a b n =
    if n == 16
    then eq32 a b 0 && eq32 a b 1 && eq32 a b 2 && eq32 a b 3
    else if n == 15
    then eq32 a b 0 && eq32 a b 1 && eq32 a b 2 && eq16 a b 6 && eq8 a b 14
    else if n == 14
    then eq32 a b 0 && eq32 a b 1 && eq32 a b 2 && eq16 a b 6
    else if n == 13
    then eq32 a b 0 && eq32 a b 1 && eq32 a b 2 && eq8 a b 12
    else if n == 12
    then eq32 a b 0 && eq32 a b 1 && eq32 a b 2
    else if n == 11
    then eq32 a b 0 && eq32 a b 1 && eq16 a b 4 && eq8 a b 10
    else if n == 10
    then eq32 a b 0 && eq32 a b 1 && eq16 a b 4
    else if n == 9
    then eq32 a b 0 && eq32 a b 1 && eq8 a b 8
    else if n == 8
    then eq32 a b 0 && eq32 a b 1
    else if n == 7
    then eq32 a b 0 && eq16 a b 2 && eq8 a a 6
    else if n == 6
    then eq32 a b 0 && eq16 a b 2
    else if n == 5
    then eq32 a b 0 && eq8 a b 4
    else if n == 4
    then eq32 a b 0
    else if n == 3
    then eq16 a b 0 && eq8 a b 2
    else if n == 2
    then eq16 a b 0
    else if n == 1
    then eq8 a b 0
    else true

-- The switch: a case off a byte boundary compares the bits of its last byte and falls through to
-- the case of the whole bytes below it.
unfoldable pub prefixeqwithmask : Netaddr → Netaddr → ℕ → Bool
prefixeqwithmask addr dest mask =
    let n = mask / 8 in
    let m = byte_mask (bit_and mask 7) in
    if bit_and mask 7 == 0
    then whole_bytes addr.bytes dest.bytes n
    else if bit_and (addr.bytes n) m == bit_and (dest.bytes n) m
    then whole_bytes addr.bytes dest.bytes n
    else false

unfoldable pub prefixeq : Netaddr → Netaddr → Bool
prefixeq a b =
    same_family a.family b.family && a.bitlen == b.bitlen && prefixeqwithmask a b a.bitlen

naddreq_family : Family → Netaddr → Netaddr → Bool
naddreq_family inet a b = same_bytes a.bytes b.bytes 4
naddreq_family inet6 a b = same_bytes a.bytes b.bytes 16
naddreq_family unspec a b = true

unfoldable pub naddreq : Netaddr → Netaddr → Bool
unfolding naddreq_family same_family
naddreq a b = if same_family a.family b.family then naddreq_family a.family a b else false

-- The comparison that the PATRICIA trie uses (src/ubgp/patriciatrie.c).
unfoldable pub patcompwithmask : Netaddr → Netaddr → ℕ → Bool
patcompwithmask addr dest mask =
    let n = mask / 8 in
    let m = byte_mask (mask % 8) in
    if same_bytes addr.bytes dest.bytes n
    then bit_and mask 7 == 0 || bit_and (addr.bytes n) m == bit_and (dest.bytes n) m
    else false

unfoldable pub reserved4 : ℕ → ℕ → ℕ → Bool
reserved4 a b c =
    a == 10
    || a == 127
    || leb 224 a
    || a == 100 && leb 64 b && leb b 127
    || a == 169 && b == 254
    || a == 172 && leb 16 b && leb b 31
    || a == 192 && b == 0 && c == 2
    || a == 192 && b == 88 && c == 99
    || a == 192 && b == 0 && c == 0
    || a == 198 && (b == 18 || b == 19)
    || a == 198 && b == 51 && c == 100
    || a == 203 && b == 0 && c == 113

unfoldable pub reserved6 : ℕ → ℕ → Bool
reserved6 a b =
    ltb a 8192
    || ltb 16383 a
    || a == 8193 && leb b 511
    || a == 8193 && b == 3512
    || a == 8193 && leb 16 b && leb b 31
    || a == 8194

reserved_family : Family → Mem → Bool
unfolding reserved4 reserved6
reserved_family inet6 m = reserved6 (get16 m 0) (get16 m 2)
reserved_family _ m = reserved4 (m 0) (m 1) (m 2)

unfoldable pub isnaddrreserved : Netaddr → Bool
unfolding reserved_family
isnaddrreserved ip = ip.bitlen == 0 || reserved_family ip.family ip.bytes

-- A C string as the list of its characters: reading past the last one gives the terminator.
abbrev pub char_at : List ℕ → ℕ
char_at [] = 0
char_at (c ∷ s) = c

abbrev pub advance : List ℕ → List ℕ
advance [] = []
advance (c ∷ s) = s

saddrfamily_loop : ℕ → List ℕ → Family
saddrfamily_loop zero s = if char_at s == b':' then inet6 else unspec
saddrfamily_loop (suc n) s =
    let rest = saddrfamily_loop n (advance s) in
    if char_at s == b'.'
    then inet
    else if char_at s == b':'
    then inet6
    else if char_at s == 0
    then unspec
    else rest

unfoldable pub saddrfamily : List ℕ → Family
unfolding saddrfamily_loop
saddrfamily s = saddrfamily_loop 4 s
