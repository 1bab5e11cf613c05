-- ===== src/Bgp/Read.antt =====
-- Iterating the fields of an update message, and finding an attribute in it (src/ubgp/bgp.c). `none` is
-- the NULL that ends an iteration. Bytes read past the packet are whatever memory holds there; a
-- write or a table access out of bounds is a fault.
use ubgpsuite.Base.{
  ℕ, zero, suc, ◌+◌, ◌-◌, ◌%◌, ◌^◌, Bool, true, false, ◌&&◌, ◌||◌, not, ltb, leb, ◌==◌,
  if◌then◌else◌, Mem, copy, get32, Option, none, some,
}
use ubgpsuite.NetAddr.{Netaddrap, naddrsize, Family, inet, inet6}
use ubgpsuite.Attr.Header.{
  getattrlen, is_extended, attr_code, attr_flags, getmpafi, getmpsafi, getmpnlri, as_path_code,
  origin_code, atomic_aggregate_code, aggregator_code, next_hop_code, community_code,
  mp_reach_nlri_code, mp_unreach_nlri_code, extended_community_code, as4_path_code,
  as4_aggregator_code, large_community_code,
}
use ubgpsuite.Bgp.State.{
  Msg, Err, ebadwdrwn, ebadattr, ebadnlri, Outcome, ret, fault, Heap, ◌>>=◌, is_err, check_flags_r,
  check_type_flags_r, bgp_update, offset_not_found,
}
use ubgpsuite.Bgp.Fields.{endbgpattribs}
use ubgpsuite.Bgp.Write.{startbgpattribs}

-- `attr_code_index`, with its bias: 0 for an attribute with no place in the offset table.
unfoldable pub attr_code_index : ℕ → ℕ
attr_code_index code =
    if code == as_path_code
    then 1
    else if code == origin_code
    then 2
    else if code == atomic_aggregate_code
    then 3
    else if code == aggregator_code
    then 4
    else if code == next_hop_code
    then 5
    else if code == community_code
    then 6
    else if code == mp_reach_nlri_code
    then 7
    else if code == mp_unreach_nlri_code
    then 8
    else if code == extended_community_code
    then 9
    else if code == as4_path_code
    then 10
    else if code == as4_aggregator_code
    then 11
    else if code == large_community_code
    then 12
    else 0

-- `msg->offtab[idx] = v`.
abbrev pub set_offtab : Msg → ℕ → ℕ → Msg
set_offtab m idx v = record m { offtab = λ i. if i == idx then v % 2 ^ 16 else m.offtab i }

-- The table of codes has 255 entries. A notable attribute at `attr` goes into the offset table.
unfoldable pub note_attr : Msg → ℕ → Outcome (Option ℕ)
unfolding attr_code_index
note_attr m attr =
    let idx = attr_code_index (attr_code m.mem attr) in
    if leb 255 (attr_code m.mem attr)
    then fault
    else if idx == 0
    then ret (some attr) m
    else ret (some attr) (set_offtab m (idx - 1) attr)

-- `nextbgpattrib` after its check.
unfoldable pub read_attrib : Msg → Outcome (Option ℕ)
unfolding note_attr
read_attrib m =
    let attr = m.uptr in
    let extended = is_extended (attr_flags m.mem attr) in
    let hdrsize = if extended then 4 else 3 in
    let data_ = m.uptr + hdrsize in
    let len = getattrlen m.mem attr in
    if m.uptr == m.uend
    then ret none m
    else if ltb m.uend (m.uptr + 3)
    then ret none (record m { err = ebadattr })
    else if extended && ltb m.uend (m.uptr + 4)
    then ret none (record m { err = ebadattr })
    else if ltb m.uend (data_ + len)
    then ret none (record m { uptr = data_; err = ebadattr })
    else note_attr (record m { uptr = data_ + len }) attr

unfoldable pub nextbgpattrib : Msg → Outcome (Option ℕ)
unfolding read_attrib
nextbgpattrib m = check_flags_r (λ f. f.rd && f.pattr) (λ _. none) m read_attrib

-- The test and the end of one round of the loop below; `next` is the rounds after it.
abbrev pub seek_round : (Msg → Outcome (Option ℕ)) → ℕ → Option ℕ → Msg → Outcome (Option ℕ)
seek_round next code none m = ret none m
seek_round next code (some attr) m = elim (attr_code m.mem attr == code) [
  | true ↦ ret (some attr) m
  | false ↦ next m
]

-- `while ((attr = nextbgpattrib(msg)) != NULL && attr->code != code);` The fuel is the size of the
-- field, of which each round takes at least three bytes.
unfoldable pub seek_loop : ℕ → ℕ → Msg → Outcome (Option ℕ)
seek_loop zero code m = fault
seek_loop (suc fuel) code m = nextbgpattrib m >>= seek_round (seek_loop fuel code) code

-- Attributes that were looked for and not found, once all have been seen.
abbrev pub mark_not_found : Msg → Msg
mark_not_found m = record m {
  offtab = λ i. if m.offtab i == 0 then offset_not_found else m.offtab i;
}

-- RESTORE_UPDATE_ITER: the flags and the update pointers of `old`.
abbrev pub restore_iter : Msg → Msg → Msg
restore_iter old m = record m {
  flags = old.flags;
  ustart = old.ustart;
  uptr = old.uptr;
  uend = old.uend;
}

-- Scan the attributes for `code`, which has place `idx` in the offset table.
unfoldable pub scan_attrs : Heap → Msg → ℕ → ℕ → Outcome Bool
unfolding startbgpattribs seek_loop endbgpattribs
scan_attrs heap m code idx = startbgpattribs heap m >>= λ _ scan.
    seek_loop (suc (scan.uend - scan.uptr)) code scan >>= λ _ scan. endbgpattribs scan >>= λ e scan.
    if is_err e
    then ret false scan
    else let back = restore_iter m scan in
      ret true (if back.offtab idx == 0 then mark_not_found back else back)

-- The attribute's offset in the packet. `code` is one that has a place in the table.
unfoldable pub seekbgpattr : Heap → ℕ → Msg → Outcome (Option ℕ)
unfolding scan_attrs attr_code_index
seekbgpattr heap code m =
    check_type_flags_r bgp_update (λ f. f.rd) (λ _. none) m
      λ m.
        let idx = attr_code_index code - 1 in
        let found = λ (m : Msg).
          if m.offtab idx == offset_not_found then ret none m else ret (some (m.offtab idx)) m in
        if m.offtab idx == 0
        then (scan_attrs heap m code idx >>= λ done m. if done then found m else ret none m)
        else found m

-- The bytes of an address with room for 16, all zero but the first `n` of `src`.
abbrev pub read_bytes : Mem → ℕ → ℕ → Mem
read_bytes src ptr n = copy (λ j. 0) 0 src ptr n

abbrev pub set_pfx : Msg → ℕ → Mem → Msg
set_pfx m bitlen bytes = record m {
  pfxbuf = record (m.pfxbuf) { pfx = record (m.pfxbuf.pfx) { bitlen = bitlen; bytes = bytes } };
}

-- The path identifier at `uptr`, where the message has them; the address is zeroed before.
abbrev pub read_pathid : Msg → Msg
read_pathid m =
    let zeroed = set_pfx m m.pfxbuf.pfx.bitlen (λ j. 0) in
    if m.flags.addpath
    then record zeroed {
      uptr = m.uptr + 4;
      pfxbuf = record (zeroed.pfxbuf) { pathid = get32 m.mem m.uptr };
    }
    else zeroed

-- What `nextnlri` and `nextwithdrawn` read at `uptr`: `bad` is the error of the field, and `early`
-- says that the length is stored before the bound is checked. An address has 16 bytes, and the
-- length byte is not validated.
unfoldable pub next_pfx : Err → Bool → Msg → Outcome (Option Netaddrap)
next_pfx bad early m =
    let m' = read_pathid m in
    let ptr = m'.uptr in
    let bitlen = m.mem ptr in
    let n = naddrsize bitlen in
    let stored = if early then set_pfx m' bitlen (λ j. 0) else m' in
    let full = set_pfx m' bitlen (read_bytes m.mem (ptr + 1) n) in
    if m.flags.addpath && leb m.uend (m.uptr + 4)
    then ret none (record (set_pfx m m.pfxbuf.pfx.bitlen (λ j. 0)) { err = bad })
    else if ltb m.uend (ptr + 1 + n)
    then ret none (record stored { uptr = ptr + 1; err = bad })
    else if ltb 16 n
    then fault
    else ret (some full.pfxbuf) (record full { uptr = ptr + 1 + n })

-- The switch on the address family of a multiprotocol attribute.
abbrev pub family_of_afi : ℕ → Option Family
family_of_afi afi = if afi == 1 then some inet else if afi == 2 then some inet6 else none

-- Move the update pointers into the NLRI field of the multiprotocol attribute at `attr`; `bad` is
-- the error of the field. The answer says whether that was possible.
unfoldable pub enter_mp : Err → Msg → ℕ → Msg × Bool
unfolding getmpafi getmpsafi getmpnlri
enter_mp bad m attr =
    let safi = getmpsafi m.mem attr in
    let (ptr, len) = getmpnlri m.mem attr in
    if not (safi == 1) && not (safi == 2)
    then (record m { err = bad }, false)
    else elim (family_of_afi (getmpafi m.mem attr)) [
      | none ↦ (record m { err = bad }, false)
      | some family ↦ (
        record m {
          pfxbuf = record (m.pfxbuf) { pfx = record (m.pfxbuf.pfx) { family = family } };
          ustart = ptr;
          uptr = ptr;
          uend = (ptr + len) % 2 ^ 64;
        },
        true,
      )
    ]

-- The loop at the head of `nextnlri`, at the end of a field: it goes on to the multiprotocol
-- attribute, once, since F_ALLNLRI is cleared; a second round ends.
unfoldable pub mp_nlri : Heap → Msg → Outcome (Option Netaddrap)
unfolding seekbgpattr enter_mp next_pfx
mp_nlri heap m =
    if not m.flags.allnlri
    then ret none m
    else (seekbgpattr heap mp_reach_nlri_code
          (record m { flags = record (m.flags) { allnlri = false } })
        >>= λ r m. elim r [
          | none ↦ ret none m
          | some attr ↦
              let (m', done) = enter_mp ebadnlri m attr in
              if not done || m'.uptr == m'.uend then ret none m' else next_pfx ebadnlri true m'
        ])

unfoldable pub mp_withdrawn : Heap → Msg → Outcome (Option Netaddrap)
unfolding seekbgpattr enter_mp next_pfx
mp_withdrawn heap m =
    if not m.flags.allwithdrn
    then ret none m
    else (seekbgpattr heap mp_unreach_nlri_code
          (record m { flags = record (m.flags) { allwithdrn = false } })
        >>= λ r m. elim r [
          | none ↦ ret none m
          | some attr ↦
              let (m', done) = enter_mp ebadwdrwn m attr in
              if not done || m'.uptr == m'.uend then ret none m' else next_pfx ebadwdrwn false m'
        ])

unfoldable pub nextnlri : Heap → Msg → Outcome (Option Netaddrap)
unfolding mp_nlri next_pfx
nextnlri heap m =
    check_flags_r (λ f. f.rd && f.nlri) (λ _. none) m
      λ m. if not (m.uptr == m.uend) then next_pfx ebadnlri true m else mp_nlri heap m

unfoldable pub nextwithdrawn : Heap → Msg → Outcome (Option Netaddrap)
unfolding mp_withdrawn next_pfx
nextwithdrawn heap m =
    check_flags_r (λ f. f.rd && f.withdrn) (λ _. none) m
      λ m. if not (m.uptr == m.uend) then next_pfx ebadwdrwn false m else mp_withdrawn heap m
