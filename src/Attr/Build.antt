-- ===== src/Attr/Build.antt =====
-- The operations that append to an attribute (src/ubgp/bgpattribs.c). `none` is the NULL that they
-- return when the attribute has no room.
use ubgpsuite.Base.{
  ℕ, zero, suc, ◌+◌, ◌*◌, not, ltb, ◌==◌, if◌then◌else◌, Mem, put8, put16, put32, copy, Option,
  none, some,
}
use ubgpsuite.NetAddr.{Family, inet, Netaddr, Netaddrap, naddrsize}
use ubgpsuite.Attr.Header.{getattrlen, getattrdata, put_attr_len, attr_limit}

-- The loops of `putasseg32` and `putasseg16`: `seg i` is the i-th AS still to be written.
unfoldable pub put_seg32 : Mem → ℕ → (ℕ → ℕ) → ℕ → Mem
put_seg32 m ptr seg zero = m
put_seg32 m ptr seg (suc n) = put_seg32 (put32 m ptr (seg 0)) (ptr + 4) (λ i. seg (suc i)) n

unfoldable pub put_seg16 : Mem → ℕ → (ℕ → ℕ) → ℕ → Mem
put_seg16 m ptr seg zero = m
put_seg16 m ptr seg (suc n) = put_seg16 (put16 m ptr (seg 0)) (ptr + 2) (λ i. seg (suc i)) n

-- A whole segment at `ptr`: its type, its count and its ASes.
abbrev pub write_seg32 : Mem → ℕ → ℕ → (ℕ → ℕ) → ℕ → Mem
write_seg32 m ptr seg_type seg count =
    put_seg32 (put8 (put8 m ptr seg_type) (ptr + 1) count) (ptr + 2) seg count

unfoldable pub putasseg32 : Mem → ℕ → ℕ → (ℕ → ℕ) → ℕ → Option Mem
putasseg32 m p seg_type seg count =
    let len = getattrlen m p in
    let size = count * 4 + 2 in
    let ptr = getattrdata m p + len in
    let m' = write_seg32 m ptr seg_type seg count in
    if ltb (attr_limit m p) (len + size)
    then none
    else if ltb 0xff count
    then none
    else some (put_attr_len m' p (len + size))

-- A whole segment at `ptr`: its type, its count and its ASes.
abbrev pub write_seg16 : Mem → ℕ → ℕ → (ℕ → ℕ) → ℕ → Mem
write_seg16 m ptr seg_type seg count =
    put_seg16 (put8 (put8 m ptr seg_type) (ptr + 1) count) (ptr + 2) seg count

unfoldable pub putasseg16 : Mem → ℕ → ℕ → (ℕ → ℕ) → ℕ → Option Mem
putasseg16 m p seg_type seg count =
    let len = getattrlen m p in
    let size = count * 2 + 2 in
    let ptr = getattrdata m p + len in
    let m' = write_seg16 m ptr seg_type seg count in
    if ltb (attr_limit m p) (len + size)
    then none
    else if ltb 0xff count
    then none
    else some (put_attr_len m' p (len + size))

abbrev pub addr_size : Family → ℕ
addr_size inet = 4
addr_size _ = 16

-- The next hop length byte stands three bytes into the payload, and the next hop must be the last
-- thing that was written.
unfoldable pub putmpnexthop : Mem → ℕ → Family → Mem → Option Mem
putmpnexthop m p family addr =
    let len = getattrlen m p in
    let ptr = getattrdata m p in
    let n = addr_size family in
    let nhlen = ptr + 3 in
    let m' = put8 (copy m (ptr + len) addr 0 n) nhlen (m nhlen + n) in
    if ltb (attr_limit m p) (len + n)
    then none
    else if ltb 0xff (m nhlen + n)
    then none
    else if not (nhlen + 1 + m nhlen == ptr + len)
    then none
    else some (put_attr_len m' p (len + n))

unfoldable pub putmpnlri : Mem → ℕ → Netaddr → Option Mem
putmpnlri m p addr =
    let len = getattrlen m p in
    let ptr = getattrdata m p + len in
    let n = naddrsize addr.bitlen in
    let m' = copy (put8 m ptr addr.bitlen) (ptr + 1) addr.bytes 0 n in
    if ltb (attr_limit m p) (len + n + 1) then none else some (put_attr_len m' p (len + (n + 1)))

unfoldable pub putmpnlriap : Mem → ℕ → Netaddrap → Option Mem
putmpnlriap m p addr =
    let len = getattrlen m p in
    let ptr = getattrdata m p + len in
    let n = naddrsize addr.pfx.bitlen in
    let m' =
      copy (put8 (put32 m ptr addr.pathid) (ptr + 4) addr.pfx.bitlen) (ptr + 5) addr.pfx.bytes 0
        n in
    if ltb (attr_limit m p) (len + n + 1 + 4)
    then none
    else some (put_attr_len m' p (len + (n + 1 + 4)))

-- `commptr` holds the `bytes` bytes of one community.
unfoldable pub appendcommunities : Mem → ℕ → Mem → ℕ → Option Mem
appendcommunities m p commptr bytes =
    let len = getattrlen m p in
    let m' = copy m (getattrdata m p + len) commptr 0 bytes in
    if ltb (attr_limit m p) (len + bytes) then none else some (put_attr_len m' p (len + bytes))

unfoldable pub putcommunities : Mem → ℕ → ℕ → Option Mem
unfolding appendcommunities
putcommunities m p c = appendcommunities m p (put32 (λ j. 0) 0 c) 4

-- `c` is the memory of the community: it is copied as it is.
unfoldable pub putexcommunities : Mem → ℕ → Mem → Option Mem
unfolding appendcommunities
putexcommunities m p c = appendcommunities m p c 8

unfoldable pub putlargecommunities : Mem → ℕ → ℕ → ℕ → ℕ → Option Mem
unfolding appendcommunities
putlargecommunities m p global hilocal lolocal =
    appendcommunities m p (put32 (put32 (put32 (λ j. 0) 0 global) 4 hilocal) 8 lolocal) 12
