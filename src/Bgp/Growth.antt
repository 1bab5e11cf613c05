-- ===== src/Bgp/Growth.antt =====
-- What writing a prefix or the withdrawn routes does when the packet has to move out of `fastbuf` (src/ubgp/bgp.c).
use ubgpsuite.Base.{
  ℕ, ◌+◌, ◌-◌, ◌<◌, ◌≡◌, refl, ◌∙◌, Bool, true, false, ltb, ◌&&◌, if◌then◌else◌, some, arith, Mem,
  get16, if_true,
}
use ubgpsuite.NetAddr.{Netaddr, Netaddrap, naddrsize}
use ubgpsuite.Bgp.State.{
  Msg, Err, noerr, Outcome, ret, fault, Heap, check_flags_r_ok, check_type_flags_r_ok, bgpensure,
  bgpgrowstep, uint16_max, type_of, bgp_update, base_packet_length,
}
use ubgpsuite.Bgp.Write.{
  put_bytes, put_pathid, put_pfx, pfx_bytes, putnlri, ensured_at, write_withdrawn,
  replace_withdrawn, setwithdrawn,
}
use ubgpsuite.Bgp.Prefixes.{put_pathid_skip}

-- The size that `bgpensure` asks for.
abbrev grown_size : Msg → ℕ → ℕ
grown_size m len =
    let step = len + m.pktlen + bgpgrowstep in if ltb uint16_max step then uint16_max else step

-- A packet that outgrows `fastbuf` has a new block, and the update pointers do not follow it.
bgpensure_moves :
    (heap : Heap) (m : Msg) (len : ℕ) (moved : Bool)
    → m.fast ≡ true
    → m.bufsiz < len + m.pktlen
    → heap.realloc m.bufsiz (grown_size m len) ≡ some moved
    → ((bgpensure heap m len).0.stale ≡ true) × ((bgpensure heap m len).1 ≡ true)
unfolding bgpensure
bgpensure_moves heap m len moved fast small done =
    let grows : ltb m.bufsiz (len + m.pktlen) ≡ true = ground (arith, small) in
    rw (grows, done) (ground (arith, fast), refl)

put_bytes_stale :
    (m : Msg) (src : Mem) (n : ℕ) (k : Msg → Outcome Err)
    → m.stale ≡ true
    → put_bytes m src n k ≡ fault
unfolding put_bytes
put_bytes_stale m src n k stale = rw stale refl

put_pfx_faults :
    (heap : Heap) (m : Msg) (addr : Netaddr) (moved : Bool)
    → m.fast ≡ true
    → m.bufsiz < naddrsize addr.bitlen + 1 + m.pktlen
    → heap.realloc m.bufsiz (grown_size m (naddrsize addr.bitlen + 1)) ≡ some moved
    → put_pfx heap m addr ≡ fault
unfolding put_pfx
put_pfx_faults heap m addr moved fast small done =
    let (stale, yes_) = bgpensure_moves heap m (naddrsize addr.bitlen + 1) moved fast small done in
    rw yes_ (
      put_bytes_stale (bgpensure heap m (naddrsize addr.bitlen + 1)).0 (pfx_bytes addr)
        (naddrsize addr.bitlen + 1) (λ m. ret noerr m) stale)

-- In a message without path identifiers that is being written, with no error so far and the NLRI
-- field open, and whose packet is in `fastbuf`, a prefix that does not fit makes `putnlri` write
-- through a pointer to the block that the packet has left, whenever the allocator grants the new
-- block.
pub putnlri_faults :
    (heap : Heap) (m : Msg) (p : Netaddrap) (moved : Bool)
    → m.err ≡ noerr
    → m.flags.wr ≡ true
    → m.flags.nlri ≡ true
    → m.flags.addpath ≡ false
    → m.fast ≡ true
    → m.bufsiz < naddrsize p.pfx.bitlen + 1 + m.pktlen
    → heap.realloc m.bufsiz (grown_size m (naddrsize p.pfx.bitlen + 1)) ≡ some moved
    → putnlri heap m p ≡ fault
unfolding putnlri
putnlri_faults heap m p moved ok wr open_ plain fast small done =
    check_flags_r_ok (λ f. f.wr && f.nlri) (λ e. e) m
      (λ m. put_pathid heap m p λ m. put_pfx heap m p.pfx) (rw (wr, open_) refl) ok
    ∙ put_pathid_skip heap m p (λ m. put_pfx heap m p.pfx) plain
    ∙ put_pfx_faults heap m p.pfx moved fast small done

ensured_at_faults :
    (heap : Heap) (m : Msg) (len : ℕ) (k : Msg → Outcome Err) (moved : Bool)
    → m.fast ≡ true
    → m.bufsiz < len + m.pktlen
    → heap.realloc m.bufsiz (grown_size m len) ≡ some moved
    → ensured_at heap m len k ≡ fault
unfolding ensured_at
ensured_at_faults heap m len k moved fast small done =
    let (stale, yes_) =
      bgpensure_moves heap (record m { stale = false }) len moved fast small done in
    rw (yes_, stale) refl

-- In an update that is being written, with no error so far and its packet in `fastbuf`, withdrawn
-- routes that are longer than those before and do not fit make `setwithdrawn` write through a pointer
-- to the block that the packet has left, whenever the allocator grants the new block.
pub setwithdrawn_faults :
    (heap : Heap) (m : Msg) (bytes : Mem) (n : ℕ) (moved : Bool)
    → type_of m ≡ bgp_update
    → m.err ≡ noerr
    → m.flags.wr ≡ true
    → m.fast ≡ true
    → get16 m.mem base_packet_length < n
    → m.bufsiz < n - get16 m.mem base_packet_length + m.pktlen
    → heap.realloc m.bufsiz (grown_size m (n - get16 m.mem base_packet_length)) ≡ some moved
    → setwithdrawn heap m bytes n ≡ fault
unfolding setwithdrawn replace_withdrawn
setwithdrawn_faults heap m bytes n moved typed ok wr fast longer small done =
    let old = get16 m.mem base_packet_length in
    check_type_flags_r_ok bgp_update (λ f. f.wr) (λ e. e) m (λ m. replace_withdrawn heap bytes n m)
      typed wr ok
    ∙ if_true (ltb old n) (ensured_at heap m (n - old) (write_withdrawn bytes n old))
        (write_withdrawn bytes n old m) (ground (arith, longer))
    ∙ ensured_at_faults heap m (n - old) (write_withdrawn bytes n old) moved fast small done
