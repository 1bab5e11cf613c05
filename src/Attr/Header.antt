-- ===== src/Attr/Header.antt =====
-- The header of an attribute, and the fields at fixed places of its payload (src/ubgp/bgpattribs.h).
use ubgpsuite.Base.{
  ℕ, ◌+◌, ◌-◌, ◌%◌, ◌^◌, Bool, not, ◌==◌, if◌then◌else◌, Mem, put8, put16, put32, get16, get32,
  bit_and, Option, none, some,
}

-- Attribute codes.
abbrev pub origin_code : ℕ
origin_code = 1

abbrev pub as_path_code : ℕ
as_path_code = 2

abbrev pub next_hop_code : ℕ
next_hop_code = 3

abbrev pub atomic_aggregate_code : ℕ
atomic_aggregate_code = 6

abbrev pub aggregator_code : ℕ
aggregator_code = 7

abbrev pub community_code : ℕ
community_code = 8

abbrev pub mp_reach_nlri_code : ℕ
mp_reach_nlri_code = 14

abbrev pub mp_unreach_nlri_code : ℕ
mp_unreach_nlri_code = 15

abbrev pub extended_community_code : ℕ
extended_community_code = 16

abbrev pub as4_path_code : ℕ
as4_path_code = 17

abbrev pub as4_aggregator_code : ℕ
as4_aggregator_code = 18

abbrev pub large_community_code : ℕ
large_community_code = 32

-- `attr->flags & ATTR_EXTENDED_LENGTH`, as a truth value.
unfoldable pub is_extended : ℕ → Bool
is_extended flags = not (bit_and flags 0x10 == 0)

abbrev pub attr_flags : Mem → ℕ → ℕ
attr_flags m p = m p

abbrev pub attr_code : Mem → ℕ → ℕ
attr_code m p = m (p + 1)

-- The length field, and where the payload begins: `getattrlen` and `getaspath`.
abbrev pub getattrlen : Mem → ℕ → ℕ
getattrlen m p = if is_extended (attr_flags m p) then get16 m (p + 2) else m (p + 2)

abbrev pub getattrdata : Mem → ℕ → ℕ
getattrdata m p = if is_extended (attr_flags m p) then p + 4 else p + 3

-- Writing the length back, and the most that it may be.
abbrev pub put_attr_len : Mem → ℕ → ℕ → Mem
put_attr_len m p len =
    if is_extended (attr_flags m p) then put16 m (p + 2) len else put8 m (p + 2) len

abbrev pub attr_limit : Mem → ℕ → ℕ
attr_limit m p = if is_extended (attr_flags m p) then 0xffff else 0xff

unfoldable pub getorigin : Mem → ℕ → ℕ
getorigin m p = m (getattrdata m p)

unfoldable pub setorigin : Mem → ℕ → ℕ → Mem
setorigin m p origin = put8 m (getattrdata m p) origin

unfoldable pub getoriginatorid : Mem → ℕ → ℕ
getoriginatorid m p = get32 m (getattrdata m p)

unfoldable pub setoriginatorid : Mem → ℕ → ℕ → Mem
setoriginatorid m p id = put32 m (getattrdata m p) id

-- An `in_addr` is the number that its four bytes are in network order.
unfoldable pub getnexthop : Mem → ℕ → ℕ
getnexthop m p = get32 m (getattrdata m p)

unfoldable pub setnexthop : Mem → ℕ → ℕ → Mem
setnexthop m p in_addr = put32 m (getattrdata m p) in_addr

unfoldable pub getmultiexitdisc : Mem → ℕ → ℕ
getmultiexitdisc m p = get32 m (getattrdata m p)

unfoldable pub setmultiexitdisc : Mem → ℕ → ℕ → Mem
setmultiexitdisc m p disc = put32 m (getattrdata m p) disc

unfoldable pub getlocalpref : Mem → ℕ → ℕ
getlocalpref m p = get32 m (getattrdata m p)

unfoldable pub setlocalpref : Mem → ℕ → ℕ → Mem
setlocalpref m p pref = put32 m (getattrdata m p) pref

unfoldable pub getaggregatoras : Mem → ℕ → ℕ
getaggregatoras m p =
    if getattrlen m p == 8 then get32 m (getattrdata m p) else get16 m (getattrdata m p)

unfoldable pub getaggregatoraddress : Mem → ℕ → ℕ
getaggregatoraddress m p = get32 m (getattrdata m p + getattrlen m p - 4)

unfoldable pub setaggregator : Mem → ℕ → ℕ → ℕ → ℕ → Option Mem
setaggregator m p as_number as_size in_addr =
    let ptr = getattrdata m p in
    if as_size == 4
    then some (put32 (put32 m ptr as_number) (ptr + 4) in_addr)
    else if as_size == 2
    then some (put32 (put16 m ptr as_number) (ptr + 2) in_addr)
    else none

unfoldable pub getmpafi : Mem → ℕ → ℕ
getmpafi m p = get16 m (getattrdata m p)

unfoldable pub getmpsafi : Mem → ℕ → ℕ
getmpsafi m p = m (getattrdata m p + 2)

unfoldable pub setmpafisafi : Mem → ℕ → ℕ → ℕ → Mem
setmpafisafi m p afi safi = put8 (put16 m (getattrdata m p) afi) (getattrdata m p + 2) safi

-- The NLRI field of a multiprotocol attribute: its offset, and its size as a 64-bit `size_t`.
unfoldable pub getmpnlri : Mem → ℕ → ℕ × ℕ
getmpnlri m p =
    let start = getattrdata m p in
    let ptr = start + 3 in
    let ptr' = if attr_code m p == mp_reach_nlri_code then ptr + m ptr + 1 + 1 else ptr in
    (ptr', (getattrlen m p + 2 ^ 64 - (ptr' - start)) % 2 ^ 64)

-- The next hop field of MP_REACH_NLRI: its offset and its size.
unfoldable pub getmpnexthop : Mem → ℕ → ℕ × ℕ
getmpnexthop m p = let ptr = getattrdata m p + 3 in (ptr + 1, m ptr)
