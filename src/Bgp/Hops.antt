-- ===== src/Bgp/Hops.antt =====
-- Iterating the next hops of an update (src/ubgp/bgp.c).
use ubgpsuite.Base.{
  ℕ, ◌+◌, ◌/◌, ◌^◌, true, false, ◌&&◌, not, ltb, ◌==◌, if◌then◌else◌, copy, put32, Option, none,
  some,
}
use ubgpsuite.NetAddr.{Family, inet, Netaddr}
use ubgpsuite.Attr.Header.{getnexthop, getmpnexthop, getmpafi, getmpsafi}
use ubgpsuite.Bgp.State.{
  Msg, Err, noerr, ebadattr, Outcome, ret, Heap, ◌>>=◌, check_flags_r, check_type_flags, bgp_update,
}
use ubgpsuite.Bgp.Fields.{endpending}
use ubgpsuite.Bgp.Read.{family_of_afi}
use ubgpsuite.Bgp.Lookup.{getbgpnexthop, getbgpmpreach}

-- The bits of an address of a family.
abbrev pub full_bits : Family → ℕ
full_bits inet = 32
full_bits _ = 128

abbrev pub set_addr : Msg → Family → ℕ → Msg
set_addr m family bitlen = record m {
  pfxbuf = record (m.pfxbuf) { pfx = record (m.pfxbuf.pfx) { family = family; bitlen = bitlen } };
}

-- The NEXT_HOP attribute: its address is kept in `nhbuf`.
abbrev pub at_nexthop : Msg → Option ℕ → Msg
at_nexthop m attr =
    let none_yet = record (m.hops) {
      in_nhbuf = false;
      nhptr = 0;
      nhend = 0;
      mpnhptr = 0;
      mpnhend = 0;
    } in
    elim attr [
      | none ↦ record m { hops = none_yet }
      | some a ↦
          set_addr
            (record m {
              hops = record none_yet {
                in_nhbuf = true;
                nhend = 4;
                nhbuf = put32 (λ j. 0) 0 (getnexthop m.mem a);
              };
            })
            inet 32
    ]

-- The next hop field of MP_REACH_NLRI.
unfoldable pub at_mpnexthop : Msg → ℕ → Outcome Err
unfolding getmpnexthop getmpafi getmpsafi
at_mpnexthop m attr =
    let (ptr, len) = getmpnexthop m.mem attr in
    let safi = getmpsafi m.mem attr in
    let entered = record m { hops = record (m.hops) { mpnhptr = ptr; mpnhend = ptr + len } } in
    if not (safi == 1) && not (safi == 2)
    then ret ebadattr (record entered { err = ebadattr })
    else elim (family_of_afi (getmpafi m.mem attr)) [
      | none ↦ ret ebadattr (record entered { err = ebadattr })
      | some family ↦ ret noerr (record entered {
        hops = record (entered.hops) { mpfamily = family; mpbitlen = full_bits family };
        flags = record (m.flags) { nhop = true };
      })
    ]

unfoldable pub startnhop : Heap → Msg → Outcome Err
unfolding endpending getbgpnexthop getbgpmpreach at_mpnexthop getnexthop
startnhop heap m =
    check_type_flags bgp_update (λ f. f.rd) m
      λ m. endpending m >>= λ _ m. getbgpnexthop heap m >>= λ attr m.
        getbgpmpreach heap (at_nexthop m attr) >>= λ mp m. elim mp [
          | none ↦ ret noerr (record m { flags = record (m.flags) { nhop = true } })
          | some a ↦ at_mpnexthop m a
        ]

-- The copy of a next hop, from `nhbuf` or from the packet.
unfoldable pub read_hop : Msg → Outcome (Option Netaddr)
read_hop m =
    let h = m.hops in
    let n = m.pfxbuf.pfx.bitlen / 2 ^ 3 in
    let src = if h.in_nhbuf then h.nhbuf else m.mem in
    let addr = record (m.pfxbuf.pfx) { bytes = copy m.pfxbuf.pfx.bytes 0 src h.nhptr n } in
    if ltb h.nhend (h.nhptr + n)
    then ret none (record m { err = ebadattr })
    else ret (some addr) (record m {
      pfxbuf = record (m.pfxbuf) { pfx = addr };
      hops = record h { nhptr = h.nhptr + n };
    })

-- The swap with the multiprotocol next hops, once, at the end of NEXT_HOP.
unfoldable pub nextnhop : Msg → Outcome (Option Netaddr)
unfolding read_hop
nextnhop m =
    check_flags_r (λ f. f.nhop) (λ _. none) m
      λ m.
        let h = m.hops in
        let swapped =
          set_addr
            (record m {
              hops = record h {
                in_nhbuf = false;
                nhptr = h.mpnhptr;
                nhend = h.mpnhend;
                mpnhptr = 0;
                mpnhend = 0;
              };
            })
            h.mpfamily h.mpbitlen in
        if not (h.nhptr == h.nhend)
        then read_hop m
        else if h.mpnhptr == 0
        then ret none m
        else read_hop swapped
