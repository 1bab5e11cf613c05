-- ===== src/Attr/Multiprotocol.antt =====
-- The multiprotocol attributes: `putmpnexthop`, `putmpnlri`, `getmpnlri` (src/ubgp/bgpattribs.c).
use ubgpsuite.Base.{ℕ, ◌+◌, ◌%◌, ◌≤◌, ◌<◌, ◌≡◌, ◌∙◌, refl, Mem, put8, copy, some, arith}
use ubgpsuite.NetAddr.{Netaddr, naddrsize, Family}
use ubgpsuite.Attr.Header.{getattrlen, getattrdata, put_attr_len, attr_limit, getmpnexthop}
use ubgpsuite.Attr.Build.{addr_size, putmpnlri, putmpnexthop}
use ubgpsuite.Attr.Append.{Grows, Grows-written, written-after, start-written, length-written}

putmpnlri_inv :
    (m : Mem) (p : ℕ) (addr : Netaddr) (m' : Mem)
    → putmpnlri m p addr ≡ some m'
    → let end = getattrdata m p + getattrlen m p in
      let n = naddrsize addr.bitlen in
      (put_attr_len
          (copy (put8 m end addr.bitlen) (end + 1) addr.bytes 0 n)
          p
          (getattrlen m p + (n + 1))
        ≡ m')
      × (getattrlen m p + (n + 1) ≤ attr_limit m p)
unfolding putmpnlri
putmpnlri_inv m p addr m' e = ground arith

-- A prefix that `putmpnlri` appends makes the attribute grow by its length byte and the bytes that
-- hold its bits, and the rest of the attribute is unchanged.
putmpnlri_appends :
    (m : Mem) (p : ℕ) (addr : Netaddr) (m' : Mem)
    → putmpnlri m p addr ≡ some m'
    → let end = getattrdata m p + getattrlen m p in
      let n = naddrsize addr.bitlen in
      Grows m p (n + 1) m'
      × (m' end ≡ addr.bitlen % 256)
      × ((j : ℕ) → j < n → m' (end + 1 + j) ≡ addr.bytes j)
putmpnlri_appends m p addr m' e =
    let (written, room) = putmpnlri_inv m p addr m' e in
    let end = getattrdata m p + getattrlen m p in
    let n = naddrsize addr.bitlen in
    let raw = copy (put8 m end addr.bitlen) (end + 1) addr.bytes 0 n in
    let same : (j : ℕ) → j < end → raw j ≡ m j = λ j h. ground arith in
    let after = written-after m raw p (n + 1) (same p (ground arith)) room in
    rw (← written) (
      Grows-written m raw p (n + 1) same room,
      after end (omega arith) ∙ ground arith,
      λ j h. after (end + 1 + j) (omega arith) ∙ ground arith,
    )

putmpnexthop_inv :
    (m : Mem) (p : ℕ) (family : Family) (addr : Mem) (m' : Mem)
    → putmpnexthop m p family addr ≡ some m'
    → let end = getattrdata m p + getattrlen m p in
      let n = addr_size family in
      let nhlen = getattrdata m p + 3 in
      (put_attr_len (put8 (copy m end addr 0 n) nhlen (m nhlen + n)) p (getattrlen m p + n) ≡ m')
      × (getattrlen m p + n ≤ attr_limit m p)
      × (m nhlen + n ≤ 255)
      × (nhlen + 1 + m nhlen ≡ end)
unfolding putmpnexthop
putmpnexthop_inv m p family addr m' e = ground arith

-- Where `putmpnexthop` succeeds, the attribute ends with its next hop field, before and after: the
-- field has grown by the bytes of the address, which stand at its end, the attribute by as much,
-- and the bytes of the field before are unchanged.
putmpnexthop_appends :
    (m : Mem) (p : ℕ) (family : Family) (addr : Mem) (m' : Mem)
    → putmpnexthop m p family addr ≡ some m'
    → let n = addr_size family in
      let old = (getmpnexthop m p).1 in
      let start = (getmpnexthop m' p).0 in
      ((getmpnexthop m' p).1 ≡ old + n)
      × (getattrlen m' p ≡ getattrlen m p + n)
      × (start + (old + n) ≡ getattrdata m' p + getattrlen m' p)
      × ((j : ℕ) → j < n → m' (start + old + j) ≡ addr j)
      × ((j : ℕ) → j < old → m' (start + j) ≡ m (start + j))
unfolding getmpnexthop
putmpnexthop_appends m p family addr m' e =
    let (written, room, small, last) = putmpnexthop_inv m p family addr m' e in
    let start = getattrdata m p in
    let n = addr_size family in
    let raw = put8 (copy m (start + getattrlen m p) addr 0 n) (start + 3) (m (start + 3) + n) in
    let flags : raw p ≡ m p = ground arith in
    let begins = start-written m raw p n flags room in
    let after = written-after m raw p n flags room in
    rw (← written, begins, length-written m raw p n flags room)
      (
        after (start + 3) (omega arith) ∙ ground arith,
        refl,
        omega arith,
        λ j h. after (start + 3 + 1 + m (start + 3) + j) (omega arith) ∙ ground arith,
        λ j h. after (start + 3 + 1 + j) (omega arith) ∙ ground arith,
      )
