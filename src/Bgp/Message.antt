-- ===== src/Bgp/Message.antt =====
-- Opening a message for reading or for writing, and the queries on it (src/ubgp/bgp.c). The stored
-- `offtab` of a fresh message holds zeroes.
use ubgpsuite.Base.{
  ℕ, zero, suc, ◌+◌, ◌*◌, ◌-◌, Bool, true, false, ◌&&◌, ◌||◌, not, ltb, leb, ◌==◌, if◌then◌else◌,
  Mem, copy, fill, put8, get16, Option, none, some,
}
use ubgpsuite.Bgp.State.{
  Msg, Flags, Err, noerr, eio, enomem, ebadtype, ebadhdr, Outcome, ret, Heap, no_flags,
  check_flags_r, bgp_open, bgp_update, bgp_notification, bgp_keepalive, bgp_route_refresh,
  bgp_close, length_offset, type_offset, base_packet_length, params_offset, bgpbufsiz,
}

-- The flags that a caller opens a message with (`BGPF_*`).
pub record OpenFlags : Type 0 where
  pub nocopy : Bool
  pub addpath : Bool
  pub asn32bit : Bool

-- `bgp_minlengths`: 0 for a type that it does not list.
abbrev pub bgp_minlengths : ℕ → ℕ
bgp_minlengths type_ =
    if type_ == bgp_open
    then params_offset
    else if type_ == bgp_update
    then base_packet_length + 2 * 2
    else if type_ == bgp_notification
    then base_packet_length + 2
    else if type_ == bgp_keepalive
    then base_packet_length
    else if type_ == bgp_route_refresh
    then base_packet_length + 4
    else if type_ == bgp_close
    then base_packet_length
    else 0

-- The flags of a message that was just opened.
abbrev opened : OpenFlags → Bool → Flags
opened f write = record no_flags {
  rd = not write;
  wr = write;
  asn32bit = f.asn32bit;
  addpath = f.addpath;
}

-- `none` is BGP_BADTYPE.
unfoldable pub getbgptype : Msg → Option ℕ
getbgptype m = if m.flags.rd || m.flags.wr then some (m.mem type_offset) else none

-- When `malloc` fails `buf` is left NULL.
unfoldable pub setbgpread : Heap → Msg → Mem → ℕ → OpenFlags → Outcome Err
setbgpread heap m bytes n f =
    let m' = record m {
      flags = record (opened f false) { sh = f.nocopy };
      err = noerr;
      pktlen = n;
      bufsiz = n;
      fast = not f.nocopy && leb n bgpbufsiz;
    } in
    if not f.nocopy && ltb bgpbufsiz n && not (heap.malloc n)
    then ret enomem m'
    else ret noerr
        (record m' { mem = if f.nocopy then bytes else copy m.mem 0 bytes 0 n; offtab = λ i. 0 })

-- `memcmp(hdr, bgp_marker, n) == 0`.
unfoldable same_marker : Mem → ℕ → Bool
same_marker hdr zero = true
same_marker hdr (suc n) = same_marker hdr n && hdr n == 0xff

-- `hdr` and `body` are the answers of the two reads: how many bytes there were, and those.
unfoldable pub setbgpreadfrom :
    Heap
    → Msg
    → record { count : ℕ; bytes : Mem }
    → record { count : ℕ; bytes : Mem }
    → OpenFlags
    → Outcome Err
unfolding same_marker
setbgpreadfrom heap m hdr body f =
    let len = get16 hdr.bytes length_offset in
    let n = len - base_packet_length in
    let fast = leb len bgpbufsiz in
    let m' = record m { fast = fast } in
    let filled = copy m.mem 0 hdr.bytes 0 base_packet_length in
    if not (hdr.count == base_packet_length)
    then ret eio m
    else if not (same_marker hdr.bytes 16)
    then ret ebadhdr m
    else if ltb len base_packet_length
    then ret ebadhdr m
    else if not fast && not (heap.malloc len)
    then ret enomem m'
    else if not (body.count == n)
    then ret eio (record m' {
      mem =
          copy filled base_packet_length body.bytes 0 (if ltb body.count n then body.count else n);
    })
    else ret noerr (record m' {
      mem = copy filled base_packet_length body.bytes 0 n;
      flags = opened f false;
      err = noerr;
      pktlen = len;
      bufsiz = len;
      offtab = λ i. 0;
    })

-- A type outside the table, or with no minimum length, leaves the message alone.
unfoldable pub setbgpwrite : Msg → ℕ → OpenFlags → Outcome Err
setbgpwrite m type_ f =
    let min_len = bgp_minlengths type_ in
    let marker = fill m.mem 0 0xff 16 in
    let zeroed = fill marker 16 0 (min_len - 16) in
    if min_len == 0
    then ret ebadtype m
    else ret noerr (record m {
      flags = opened f true;
      pktlen = min_len;
      bufsiz = bgpbufsiz;
      err = noerr;
      fast = true;
      mem = put8 zeroed type_offset type_;
    })

unfoldable pub getbgplength : Msg → Outcome ℕ
getbgplength m = check_flags_r (λ f. f.rd) (λ _. 0) m (λ m. ret (get16 m.mem length_offset) m)

-- The packet and its length; `none` where the message is not open for reading.
unfoldable pub getbgpdata : Msg → Option (ℕ × Mem)
getbgpdata m = if m.flags.rd then some (get16 m.mem length_offset, m.mem) else none

unfoldable pub isbgpasn32bit : Msg → Bool
isbgpasn32bit m = m.flags.asn32bit

unfoldable pub isbgpaddpath : Msg → Bool
isbgpaddpath m = m.flags.addpath

unfoldable pub bgpclose : Msg → Outcome Err
bgpclose m = ret m.err (record m { err = noerr; flags = no_flags })
