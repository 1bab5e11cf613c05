-- ===== src/Attr/Fields.antt =====
-- The fields at fixed places read back what was written (src/ubgp/bgpattribs.h).
use ubgpsuite.Base.{
  ℕ, ◌+◌, ◌-◌, ◌*◌, ◌%◌, ◌^◌, ◌<◌, ◌≡◌, ◌⊎◌, Mem, put16, put32, get32-put32, get16-put16,
  get32-put32_below, get16-put32_below, inl, inr, ◌∙◌, some, arith,
}
use ubgpsuite.Attr.Header.{
  getattrlen, getattrdata, getorigin, setorigin, getoriginatorid, setoriginatorid, getnexthop,
  setnexthop, getmultiexitdisc, setmultiexitdisc, getlocalpref, setlocalpref, getaggregatoras,
  getaggregatoraddress, setaggregator, getmpafi, getmpsafi, setmpafisafi,
}

-- Each field reads back the value that was written, cut to the width of the field.
pub fields_roundtrip :
    (m : Mem) (p v : ℕ)
    → (getorigin (setorigin m p v) p ≡ v % 2 ^ 8)
      × (getoriginatorid (setoriginatorid m p v) p ≡ v % 2 ^ 32)
      × (getnexthop (setnexthop m p v) p ≡ v % 2 ^ 32)
      × (getmultiexitdisc (setmultiexitdisc m p v) p ≡ v % 2 ^ 32)
      × (getlocalpref (setlocalpref m p v) p ≡ v % 2 ^ 32)
unfolding getorigin setorigin getoriginatorid setoriginatorid getnexthop setnexthop getmultiexitdisc
    setmultiexitdisc getlocalpref setlocalpref
fields_roundtrip m p v = (ground arith, ground arith, ground arith, ground arith, ground arith)

-- The address family and the subsequent one read back, cut to 16 and 8 bits.
mpafisafi_roundtrip :
    (m : Mem) (p afi safi : ℕ)
    → (getmpafi (setmpafisafi m p afi safi) p ≡ afi % 2 ^ 16)
      × (getmpsafi (setmpafisafi m p afi safi) p ≡ safi % 2 ^ 8)
unfolding getmpafi getmpsafi setmpafisafi
mpafisafi_roundtrip m p afi safi = (ground arith, ground arith)

-- Memory that is the same up to the payload has the same attribute header.
same_header :
    (m m' : Mem) (p : ℕ)
    → ((j : ℕ) → j < getattrdata m p → m' j ≡ m j)
    → (getattrdata m' p ≡ getattrdata m p) × (getattrlen m' p ≡ getattrlen m p)
same_header m m' p h = ground (arith, h p (ground arith), h (p + 2) (ground arith), h (p + 2 + 1))

-- The writes of `setaggregator` leave the header alone.
aggregator_header :
    (m : Mem) (p as_number as_size in_addr : ℕ) (m' : Mem)
    → setaggregator m p as_number as_size in_addr ≡ some m'
    → (getattrdata m' p ≡ getattrdata m p) × (getattrlen m' p ≡ getattrlen m p)
unfolding setaggregator
aggregator_header m p as_number as_size in_addr m' e = same_header m m' p (λ j h. ground arith)

aggregator_words :
    (m : Mem) (p as_number as_size in_addr : ℕ) (m' : Mem)
    → setaggregator m p as_number as_size in_addr ≡ some m'
    → let d = getattrdata m p in
      ((as_size ≡ 4) × (m' ≡ put32 (put32 m d as_number) (d + 4) in_addr))
      ⊎ ((as_size ≡ 2) × (m' ≡ put32 (put16 m d as_number) (d + 2) in_addr))
unfolding setaggregator
aggregator_words m p as_number as_size in_addr m' e = ground arith

-- In an attribute whose length is that of an AS of `as_size` bytes and an address, the aggregator
-- reads back: the AS cut to its size, and the address.
aggregator_roundtrip :
    (m : Mem) (p as_number as_size in_addr : ℕ) (m' : Mem)
    → setaggregator m p as_number as_size in_addr ≡ some m'
    → getattrlen m p ≡ as_size + 4
    → (getaggregatoras m' p ≡ as_number % 2 ^ (8 * as_size))
      × (getaggregatoraddress m' p ≡ in_addr % 2 ^ 32)
unfolding getaggregatoras getaggregatoraddress
aggregator_roundtrip m p as_number as_size in_addr m' e h =
    let d = getattrdata m p in
    let (start, len) = aggregator_header m p as_number as_size in_addr m' e in
    elim (aggregator_words m p as_number as_size in_addr m' e) [
      | inl (wide, w) ↦
          let back : d + (4 + 4) - 4 ≡ d + 4 = omega arith in
          rw (start, len, h, wide, back, w)
            (
              get32-put32_below (put32 m d as_number) d (d + 4) in_addr (omega arith)
                  ∙ get32-put32 m d as_number,
              get32-put32 (put32 m d as_number) (d + 4) in_addr,
            )
      | inr (narrow, w) ↦
          let back : d + (2 + 4) - 4 ≡ d + 2 = omega arith in
          rw (start, len, h, narrow, back, w)
            (
              get16-put32_below (put16 m d as_number) d (d + 2) in_addr (omega arith)
                  ∙ get16-put16 m d as_number,
              get32-put32 (put16 m d as_number) (d + 2) in_addr,
            )
    ]
