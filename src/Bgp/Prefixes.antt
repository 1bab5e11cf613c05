-- ===== src/Bgp/Prefixes.antt =====
-- Writing a prefix: `putnlri` and `putwithdrawn` (src/ubgp/bgp.c).
use ubgpsuite.Base.{
  ℕ, ◌+◌, ◌%◌, ◌^◌, ◌≤◌, ◌<◌, ◌≡◌, refl, subst, ◌∙◌, get32-put32, sym, Bool, true, false, ◌&&◌, not,
  if◌then◌else◌, Mem, copy, put32, get32, arith, if_true, if_false,
}
use ubgpsuite.NetAddr.{Netaddr, Netaddrap, naddrsize}
use ubgpsuite.Bgp.State.{Msg, check_flags_r_ok, Err, noerr, Outcome, Returns, ret, Heap}
use ubgpsuite.Bgp.Write.{put_pathid, put_pfx, pfx_bytes, putwithdrawn, putnlri}
use ubgpsuite.Bgp.Append.{
  Appended, Appended-wrote, Appended-trans, HasRoom, HasRoom-less, HasRoom-wrote, wrote,
  put_bytes_run, bgpensure_room,
}

-- Where the bytes of a prefix start, after its path identifier.
abbrev pub pfx_start : Bool → ℕ → ℕ
pfx_start addpath ptr = if addpath then ptr + 4 else ptr

-- The size of a prefix in a packet.
abbrev pub pfx_size : Bool → Netaddrap → ℕ
pfx_size addpath p =
    if addpath then 4 + (naddrsize p.pfx.bitlen + 1) else naddrsize p.pfx.bitlen + 1

-- The memory at `ptr` holds the prefix `p`, with its path identifier if there are any.
pub record Encodes (m : Mem) (ptr : ℕ) (addpath : Bool) (p : Netaddrap) : Type 0 where
  pub pathid_stored : addpath ≡ true → get32 m ptr ≡ p.pathid % 2 ^ 32
  pub bitlen_stored : m (pfx_start addpath ptr) ≡ p.pfx.bitlen
  pub bytes_stored :
      (j : ℕ) → j < naddrsize p.pfx.bitlen → m (pfx_start addpath ptr + 1 + j) ≡ p.pfx.bytes j

put_pfx_run :
    (heap : Heap) (m : Msg) (addr : Netaddr)
    → HasRoom m (naddrsize addr.bitlen + 1)
    → put_pfx heap m addr ≡ ret noerr (wrote m (pfx_bytes addr) (naddrsize addr.bitlen + 1))
unfolding put_pfx
put_pfx_run heap m addr room =
    rw (bgpensure_room heap m (naddrsize addr.bitlen + 1) room)
      (put_bytes_run m (pfx_bytes addr) (naddrsize addr.bitlen + 1) (λ m. ret noerr m) room)

put_pathid_run :
    (heap : Heap) (m : Msg) (p : Netaddrap) (k : Msg → Outcome Err)
    → m.flags.addpath ≡ true
    → HasRoom m 4
    → put_pathid heap m p k ≡ k (wrote m (put32 (λ j. 0) 0 p.pathid) 4)
unfolding put_pathid
put_pathid_run heap m p k on room =
    if_false (not m.flags.addpath) _ _ (ground (arith, on))
    ∙ rw (bgpensure_room heap m 4 room) (put_bytes_run m (put32 (λ j. 0) 0 p.pathid) 4 k room)

pub put_pathid_skip :
    (heap : Heap) (m : Msg) (p : Netaddrap) (k : Msg → Outcome Err)
    → m.flags.addpath ≡ false
    → put_pathid heap m p k ≡ k m
unfolding put_pathid
put_pathid_skip heap m p k off = if_true (not m.flags.addpath) _ _ (ground (arith, off))

-- The bytes of a prefix, where they were written.
pfx_stored :
    (m : Msg) (addr : Netaddr)
    → addr.bitlen < 256
    → let m' = wrote m (pfx_bytes addr) (naddrsize addr.bitlen + 1) in
      (m'.mem m.uptr ≡ addr.bitlen)
      × ((j : ℕ) → j < naddrsize addr.bitlen → m'.mem (m.uptr + 1 + j) ≡ addr.bytes j)
pfx_stored m addr h = (ground (arith, h), λ j lt. ground arith)

-- What `putnlri` and `putwithdrawn` do once they have checked the flags.
put_prefix : Heap → Msg → Netaddrap → Outcome Err
put_prefix heap m p = put_pathid heap m p λ m. put_pfx heap m p.pfx

-- The prefix was written, in a message with (`b`) or without path identifiers.
abbrev pub Wrote : Msg → Bool → Netaddrap → Err → Msg → Type 0
Wrote m b p e m' = (e ≡ noerr) × Appended m m' (pfx_size b p) × Encodes m'.mem m.uptr b p

get32-copy : (dst src : Mem) (p : ℕ) → get32 (copy dst p src 0 4) p ≡ get32 src 0
get32-copy dst src p = ground arith

pathid_there :
    (m : Msg) (p : Netaddrap)
    → get32 (wrote m (put32 (λ j. 0) 0 p.pathid) 4).mem m.uptr ≡ p.pathid % 2 ^ 32
pathid_there m p =
    get32-copy m.mem (put32 (λ j. 0) 0 p.pathid) m.uptr ∙ get32-put32 (λ j. 0) 0 p.pathid

-- A word is what its four bytes are.
pub get32_agree :
    (m m' : Mem) (p : ℕ) → ((j : ℕ) → p ≤ j → j < p + 4 → m' j ≡ m j) → get32 m' p ≡ get32 m p
get32_agree m m' p same =
    rw
      (
        same p (omega arith) (omega arith),
        same (p + 1) (omega arith) (omega arith),
        same (p + 2) (omega arith) (omega arith),
        same (p + 2 + 1) (omega arith) (omega arith),
      )
      refl

put_prefix_lem :
    (heap : Heap) (m : Msg) (p : Netaddrap) (b : Bool)
    → m.flags.addpath ≡ b
    → p.pfx.bitlen < 256
    → HasRoom m (pfx_size b p)
    → Returns (put_prefix heap m p) (Wrote m b p)
unfolding put_prefix
put_prefix_lem heap m p false off small room =
    let (bitlen, bytes) = pfx_stored m p.pfx small in
    rw (put_pathid_skip heap m p (λ m. put_pfx heap m p.pfx) off, put_pfx_run heap m p.pfx room)
      (
        refl,
        Appended-wrote m (pfx_bytes p.pfx) (naddrsize p.pfx.bitlen + 1) room,
        record {
          pathid_stored = λ e. absurd (ground arith);
          bitlen_stored = bitlen;
          bytes_stored = bytes;
        },
      )
put_prefix_lem heap m p true on small room =
    let n = naddrsize p.pfx.bitlen + 1 in
    let id = put32 (λ j. 0) 0 p.pathid in
    let first = wrote m id 4 in
    let room1 = HasRoom-less m 4 n room in
    let room2 = HasRoom-wrote m id 4 n room in
    let (bitlen, bytes) = pfx_stored first p.pfx small in
    let last = Appended-wrote first (pfx_bytes p.pfx) n room2 in
    rw
      (
        put_pathid_run heap m p (λ m. put_pfx heap m p.pfx) on room1,
        put_pfx_run heap first p.pfx room2,
      )
      (
        refl,
        Appended-trans (Appended-wrote m id 4 room1) last,
        record {
          pathid_stored = λ e.
              get32_agree first.mem (wrote first (pfx_bytes p.pfx) n).mem m.uptr
                (λ j low high. last.below j high)
              ∙ pathid_there m p;
          bitlen_stored = bitlen;
          bytes_stored = bytes;
        },
      )

-- In a message that is being written, with no error so far, the NLRI field open and room for a
-- prefix of less than 256 bits without a new block, `putnlri` appends exactly the bytes of the
-- prefix, with its path identifier if the message has them, and changes nothing before them.
pub putnlri_lem :
    (heap : Heap) (m : Msg) (p : Netaddrap)
    → m.err ≡ noerr
    → m.flags.wr ≡ true
    → m.flags.nlri ≡ true
    → p.pfx.bitlen < 256
    → HasRoom m (pfx_size m.flags.addpath p)
    → Returns (putnlri heap m p) (Wrote m m.flags.addpath p)
unfolding putnlri put_prefix
putnlri_lem heap m p ok wr open_ small room =
    subst (λ o. Returns o (Wrote m m.flags.addpath p))
      (sym (
        check_flags_r_ok (λ f. f.wr && f.nlri) (λ e. e) m (λ m. put_prefix heap m p)
          (rw (wr, open_) refl) ok))
      (put_prefix_lem heap m p m.flags.addpath refl small room)

-- In a message that is being written, with no error so far, the withdrawn routes open and room for
-- a prefix of less than 256 bits without a new block, `putwithdrawn` appends exactly the bytes of
-- the prefix, with its path identifier if the message has them, and changes nothing before them.
putwithdrawn_lem :
    (heap : Heap) (m : Msg) (p : Netaddrap)
    → m.err ≡ noerr
    → m.flags.wr ≡ true
    → m.flags.withdrn ≡ true
    → p.pfx.bitlen < 256
    → HasRoom m (pfx_size m.flags.addpath p)
    → Returns (putwithdrawn heap m p) (Wrote m m.flags.addpath p)
unfolding putwithdrawn put_prefix
putwithdrawn_lem heap m p ok wr open_ small room =
    subst (λ o. Returns o (Wrote m m.flags.addpath p))
      (sym (
        check_flags_r_ok (λ f. f.wr && f.withdrn) (λ e. e) m (λ m. put_prefix heap m p)
          (rw (wr, open_) refl) ok))
      (put_prefix_lem heap m p m.flags.addpath refl small room)
