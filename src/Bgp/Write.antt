-- ===== src/Bgp/Write.antt =====
-- Writing the fields of an update message (src/ubgp/bgp.c). `pktlen` is a 16-bit counter.
use ubgpsuite.Base.{
  ℕ, ◌+◌, ◌-◌, ◌%◌, ◌^◌, Bool, true, false, ◌&&◌, ◌||◌, not, ltb, if◌then◌else◌, Mem, copy, put8,
  put16, put32, get16,
}
use ubgpsuite.NetAddr.{Netaddr, Netaddrap, naddrsize, inet}
use ubgpsuite.Attr.Header.{getattrlen, is_extended}
use ubgpsuite.Bgp.State.{
  Msg, Err, noerr, enomem, ebadhdr, Outcome, ret, fault, Heap, ◌>>=◌, check_type_r, check_flags,
  check_type, check_type_flags, store, store_at, bgpensure, bgp_update, base_packet_length,
}
use ubgpsuite.Bgp.Fields.{need, size_between, getwithdrawn, getbgpattribs, getnlri, endpending}

-- `pktlen -= n` and `pktlen += n` on 16 bits.
abbrev pub shrink : ℕ → ℕ → ℕ
shrink pktlen n = (pktlen + 2 ^ 64 - n) % 2 ^ 16

abbrev pub grow : ℕ → ℕ → ℕ
grow pktlen n = (pktlen + n) % 2 ^ 16

-- `bgppreserve`: what stands from `from` on is kept aside, in 96 bytes or in a fresh block.
unfoldable pub bgppreserve : Heap → Msg → ℕ → Msg × Bool
bgppreserve heap m from =
    let size = size_between from m.pktlen in
    if ltb 96 size && not (heap.malloc size)
    then (record m { err = enomem }, false)
    else (record m { pres = λ j. m.mem (from + j) }, true)

-- Point the update pointers at a field of `n` bytes.
abbrev pub enter_field : Msg → ℕ → ℕ → Msg
enter_field m ptr n = record m { uptr = ptr; ustart = ptr; uend = ptr + n; stale = false }

abbrev pub set_family_inet : Msg → Msg
set_family_inet m = record m {
  pfxbuf = record (m.pfxbuf) { pfx = record (m.pfxbuf.pfx) { family = inet } };
}

-- A field that is written is cut out, and what follows it is preserved. `open_field` sets the flags
-- of the field.
unfoldable pub start_field : Heap → Msg → ℕ → ℕ → (Msg → Msg) → (Msg → Msg) → Outcome Err
start_field heap m ptr n reading open_field =
    let (kept, done) = bgppreserve heap m (ptr + n) in
    if m.flags.wr
    then if done
      then ret noerr
          (open_field (enter_field (record kept { pktlen = shrink kept.pktlen n }) ptr n))
      else ret kept.err kept
    else ret noerr (open_field (enter_field (reading m) ptr n))

abbrev pub with_withdrn : Bool → Msg → Msg
with_withdrn every m = record m {
  flags = record (m.flags) { withdrn = true; allwithdrn = m.flags.allwithdrn || every };
}

unfoldable pub dostartwithdrawn : Heap → Bool → Msg → Outcome Err
unfolding endpending getwithdrawn start_field
dostartwithdrawn heap every m = endpending m >>= λ _ m. getwithdrawn m >>= λ r m.
    need r λ w. start_field heap m w.0 w.1 set_family_inet (with_withdrn every)

unfoldable pub startwithdrawn : Heap → Msg → Outcome Err
unfolding dostartwithdrawn
startwithdrawn heap m = check_type bgp_update m λ m. dostartwithdrawn heap false m

unfoldable pub startallwithdrawn : Heap → Msg → Outcome Err
unfolding dostartwithdrawn
startallwithdrawn heap m =
    check_type_flags bgp_update (λ f. f.rd) m λ m. dostartwithdrawn heap true m

-- No field at all: the first `nextwithdrawn` goes on to the attribute.
unfoldable pub startmpunreachnlri : Msg → Outcome Err
startmpunreachnlri m =
    check_type_flags bgp_update (λ f. f.rd) m
      λ m. ret m.err (with_withdrn true (record m { uptr = 0; ustart = 0; uend = 0 }))

unfoldable pub startbgpattribs : Heap → Msg → Outcome Err
unfolding endpending getbgpattribs start_field
startbgpattribs heap m = check_type bgp_update m λ m. endpending m >>= λ _ m.
    getbgpattribs m >>= λ r m. need r λ a.
      start_field heap m a.0 a.1 (λ m. m)
        λ m. record m { flags = record (m.flags) { pattr = true } }

abbrev pub with_nlri : Bool → Msg → Msg
with_nlri every m = record m {
  flags = record (m.flags) { nlri = true; allnlri = m.flags.allnlri || every };
}

-- The NLRI field is the last one, so nothing is preserved. A size that wrapped is undone by the
-- pointer arithmetic on `uend`.
unfoldable pub dostartnlri : Bool → Msg → Outcome Err
unfolding endpending getnlri
dostartnlri every m = endpending m >>= λ _ m. getnlri m >>= λ r m. need r λ f.
    let m' = if m.flags.wr then record m { pktlen = shrink m.pktlen f.1 } else set_family_inet m in
    let m'' = with_nlri every (enter_field m' f.0 f.1) in
    ret m''.err (record m'' { uend = (f.0 + f.1) % 2 ^ 64 })

unfoldable pub startnlri : Msg → Outcome Err
unfolding dostartnlri
startnlri m = check_type bgp_update m λ m. dostartnlri false m

unfoldable pub startallnlri : Msg → Outcome Err
unfolding dostartnlri
startallnlri m = check_type_flags bgp_update (λ f. f.rd) m λ m. dostartnlri true m

unfoldable pub startmpreachnlri : Msg → Outcome Err
startmpreachnlri m =
    check_type_flags bgp_update (λ f. f.rd) m
      λ m. ret m.err (with_nlri true (record m { uptr = 0; ustart = 0; uend = 0 }))

-- `memcpy(msg->uptr, src, n)`, and the pointer and the packet length move on.
unfoldable pub put_bytes : Msg → Mem → ℕ → (Msg → Outcome Err) → Outcome Err
put_bytes m src n k =
    store_at m m.uptr src n λ m. k (record m { uptr = m.uptr + n; pktlen = grow m.pktlen n })

-- The path identifier of a prefix, where the message has them.
unfoldable pub put_pathid : Heap → Msg → Netaddrap → (Msg → Outcome Err) → Outcome Err
unfolding bgpensure put_bytes
put_pathid heap m p k =
    let (m', done) = bgpensure heap m 4 in
    if not m.flags.addpath
    then k m
    else if done
    then put_bytes m' (put32 (λ j. 0) 0 p.pathid) 4 k
    else ret m'.err m'

-- The bytes of a prefix: its length in bits, and the bytes that hold them.
abbrev pub pfx_bytes : Netaddr → Mem
pfx_bytes addr = copy (put8 (λ j. 0) 0 addr.bitlen) 1 addr.bytes 0 (naddrsize addr.bitlen)

unfoldable pub put_pfx : Heap → Msg → Netaddr → Outcome Err
unfolding bgpensure put_bytes
put_pfx heap m addr =
    let len = naddrsize addr.bitlen in
    let (m', done) = bgpensure heap m (len + 1) in
    if done then put_bytes m' (pfx_bytes addr) (len + 1) (λ m. ret noerr m) else ret m'.err m'

unfoldable pub putwithdrawn : Heap → Msg → Netaddrap → Outcome Err
unfolding put_pathid put_pfx
putwithdrawn heap m p =
    check_flags (λ f. f.wr && f.withdrn) m λ m. put_pathid heap m p λ m. put_pfx heap m p.pfx

unfoldable pub putnlri : Heap → Msg → Netaddrap → Outcome Err
unfolding put_pathid put_pfx
putnlri heap m p =
    check_flags (λ f. f.wr && f.nlri) m λ m. put_pathid heap m p λ m. put_pfx heap m p.pfx

-- No room is made for the attribute.
unfoldable pub putbgpattrib : Msg → Mem → Outcome Err
unfolding put_bytes
putbgpattrib m attr =
    check_flags (λ f. f.wr && f.pattr) m
      λ m.
        let hdrsize = if is_extended (attr 0) then 4 else 3 in
        put_bytes m attr (getattrlen attr 0 + hdrsize) λ m. ret noerr m

-- `bgpensure` before a store through a pointer into `buf` that was taken before: once the block has
-- moved, the pointer is into a block that is gone.
unfoldable pub ensured_at : Heap → Msg → ℕ → (Msg → Outcome Err) → Outcome Err
unfolding bgpensure
ensured_at heap m len k =
    let (m', done) = bgpensure heap (record m { stale = false }) len in
    let back = record m' { stale = m.stale } in
    if not done then ret back.err back else if m'.stale then fault else k back

-- The body of `setwithdrawn`: with room for the field, what follows it is moved and the field is
-- written.
unfoldable pub write_withdrawn : Mem → ℕ → ℕ → Msg → Outcome Err
write_withdrawn bytes n old_size m =
    let ptr = base_packet_length in
    let start = ptr + 2 + old_size in
    let tail : Mem = λ j. m.mem (start + j) in
    let bufsiz = size_between start m.pktlen in
    store m ptr (put16 (λ j. 0) 0 n) 2 λ m. store m (ptr + 2) bytes n λ m.
      store m (ptr + 2 + n) tail bufsiz
        λ m. ret noerr (record m { pktlen = grow (shrink m.pktlen old_size) n })

unfoldable pub replace_withdrawn : Heap → Mem → ℕ → Msg → Outcome Err
unfolding ensured_at
replace_withdrawn heap bytes n m =
    let old_size = get16 m.mem base_packet_length in
    if ltb old_size n
    then ensured_at heap m (n - old_size) (write_withdrawn bytes n old_size)
    else write_withdrawn bytes n old_size m

unfoldable pub setwithdrawn : Heap → Msg → Mem → ℕ → Outcome Err
unfolding replace_withdrawn write_withdrawn
setwithdrawn heap m bytes n =
    check_type_flags bgp_update (λ f. f.wr) m λ m. replace_withdrawn heap bytes n m

-- CHECKTYPER(BGP_UPDATE, F_WR): the flags are not checked, and a wrong type answers F_WR, which is
-- 4, as if it were an error: BGP_EBADHDR.
unfoldable pub setnlri : Heap → Msg → Mem → ℕ → Outcome Err
unfolding ensured_at getnlri
setnlri heap m bytes n =
    check_type_r bgp_update (λ _. ebadhdr) m
      λ m. getnlri m >>= λ r m. need r λ f.
        let rest = λ (m : Msg). store m (f.0 - 2) (put16 (λ j. 0) 0 n) 2 λ m.
          store m f.0 bytes n λ m. ret noerr (record m { pktlen = grow (shrink m.pktlen f.1) n }) in
        if ltb f.1 n then ensured_at heap m (n - f.1) rest else rest m
