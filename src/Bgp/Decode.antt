-- ===== src/Bgp/Decode.antt =====
-- Reading a prefix: what `nextnlri` and `nextwithdrawn` do at `uptr` (src/ubgp/bgp.c).
use ubgpsuite.Base.{
  ℕ, ◌+◌, ◌%◌, ◌^◌, ◌≤◌, ◌<◌, ◌≡◌, refl, subst, ◌∙◌, sym, ap, Bool, true, false, ltb, leb, ◌==◌,
  ◌&&◌, not, if◌then◌else◌, if_true, Mem, Option, none, some, arith, inl, inr, Bool-cases,
}
use ubgpsuite.NetAddr.{Netaddrap, naddrsize}
use ubgpsuite.Bgp.State.{Msg, Err, noerr, ebadnlri, ebadwdrwn, Returns, Heap, check_flags_r_ok}
use ubgpsuite.Bgp.Read.{
  next_pfx, read_bytes, mp_nlri, mp_withdrawn, mp_nlri, mp_withdrawn, nextnlri, nextwithdrawn,
}
use ubgpsuite.Bgp.Prefixes.{Encodes, pfx_size}

-- An address of up to 128 bits fits the 16 bytes of the prefix buffer.
naddrsize_fits : (bitlen : ℕ) → bitlen ≤ 128 → naddrsize bitlen ≤ 16
unfolding naddrsize
naddrsize_fits bitlen h = elim (Bool-cases (bitlen == 128)) [
  | inl e ↦ let full : bitlen ≡ 128 = ground (arith, e) in rw full (omega arith)
  | inr ne ↦ ground (arith, h, ne)
]

-- What a successful read of the prefix `p` returns and leaves.
pub record Reads (m : Msg) (b : Bool) (p : Netaddrap) (r : Option Netaddrap) (m' : Msg)
    : Type 0 where
  pub result : r ≡ some (m'.pfxbuf)
  pub bitlen : m'.pfxbuf.pfx.bitlen ≡ p.pfx.bitlen
  pub bytes : (j : ℕ) → j < naddrsize p.pfx.bitlen → m'.pfxbuf.pfx.bytes j ≡ p.pfx.bytes j
  pub padding : (j : ℕ) → naddrsize p.pfx.bitlen ≤ j → m'.pfxbuf.pfx.bytes j ≡ 0
  pub pathid : b ≡ true → m'.pfxbuf.pathid ≡ p.pathid % 2 ^ 32
  pub family : m'.pfxbuf.pfx.family ≡ m.pfxbuf.pfx.family
  pub moved : m'.uptr ≡ m.uptr + pfx_size b p
  pub same_end : m'.uend ≡ m.uend
  pub same_err : m'.err ≡ m.err
  pub same_mem : m'.mem ≡ m.mem
  pub same_flags : m'.flags ≡ m.flags

read_at : (src : Mem) (ptr n j : ℕ) → j < n → read_bytes src ptr n j ≡ src (ptr + j)
read_at src ptr n j h = ground arith

read_past : (src : Mem) (ptr n j : ℕ) → n ≤ j → read_bytes src ptr n j ≡ 0
read_past src ptr n j h = ground arith

-- The three tests of `next_pfx` pass on a field that holds the prefix.
next_pfx_decodes :
    (bad : Err) (early : Bool) (m : Msg) (p : Netaddrap) (b : Bool)
    → m.flags.addpath ≡ b
    → Encodes m.mem m.uptr b p
    → p.pfx.bitlen ≤ 128
    → m.uptr + pfx_size b p ≤ m.uend
    → Returns (next_pfx bad early m) (Reads m b p)
unfolding next_pfx
next_pfx_decodes bad early m p false off code small room =
    let n = naddrsize p.pfx.bitlen in
    let fits : ltb m.uend (m.uptr + 1 + n) ≡ false = ground (arith, room) in
    let short : ltb 16 n ≡ false = ground (arith, naddrsize_fits p.pfx.bitlen small) in
    rw (off, code.bitlen_stored, fits, short)
      (record {
        result = refl;
        bitlen = refl;
        bytes = λ j lt. read_at m.mem (m.uptr + 1) n j lt ∙ code.bytes_stored j lt;
        padding = λ j le. read_past m.mem (m.uptr + 1) n j le;
        pathid = λ e. absurd (ground arith);
        family = refl;
        moved = omega arith;
        same_end = refl;
        same_err = refl;
        same_mem = refl;
        same_flags = refl;
      })
next_pfx_decodes bad early m p true on code small room =
    let n = naddrsize p.pfx.bitlen in
    let head : leb m.uend (m.uptr + 4) ≡ false = ground (arith, room) in
    let fits : ltb m.uend (m.uptr + 4 + 1 + n) ≡ false = ground (arith, room) in
    let short : ltb 16 n ≡ false = ground (arith, naddrsize_fits p.pfx.bitlen small) in
    rw (on, head, code.bitlen_stored, fits, short)
      (record {
        result = refl;
        bitlen = refl;
        bytes = λ j lt. read_at m.mem (m.uptr + 4 + 1) n j lt ∙ code.bytes_stored j lt;
        padding = λ j le. read_past m.mem (m.uptr + 4 + 1) n j le;
        pathid = code.pathid_stored;
        family = refl;
        moved = omega arith;
        same_end = refl;
        same_err = refl;
        same_mem = refl;
        same_flags = refl;
      })

-- A prefix has at least one byte.
unread :
    (m : Msg) (b : Bool) (p : Netaddrap)
    → m.uptr + pfx_size b p ≤ m.uend
    → (m.uptr == m.uend) ≡ false
unread m true p h = ground (arith, h)
unread m false p h = ground (arith, h)

-- In a message that is being read, with no error so far and the NLRI field open, where the field
-- holds a prefix of at most 128 bits at `uptr`, `nextnlri` returns it, with its length, its bytes
-- followed by zeroes and its path identifier if the message has them, and moves `uptr` past it.
pub nextnlri_lem :
    (heap : Heap) (m : Msg) (p : Netaddrap)
    → m.err ≡ noerr
    → m.flags.rd ≡ true
    → m.flags.nlri ≡ true
    → Encodes m.mem m.uptr m.flags.addpath p
    → p.pfx.bitlen ≤ 128
    → m.uptr + pfx_size m.flags.addpath p ≤ m.uend
    → Returns (nextnlri heap m) (Reads m m.flags.addpath p)
unfolding nextnlri
nextnlri_lem heap m p ok rd open_ code small room =
    let rest =
      λ (m : Msg). if not (m.uptr == m.uend) then next_pfx ebadnlri true m else mp_nlri heap m in
    subst (λ o. Returns o (Reads m m.flags.addpath p))
      (sym (
        check_flags_r_ok (λ f. f.rd && f.nlri) (λ _. none) m rest (rw (rd, open_) refl) ok
        ∙ if_true (not (m.uptr == m.uend)) (next_pfx ebadnlri true m) (mp_nlri heap m)
            (ap not (unread m m.flags.addpath p room))))
      (next_pfx_decodes ebadnlri true m p m.flags.addpath refl code small room)

-- In a message that is being read, with no error so far and the withdrawn routes open, where the
-- field holds a prefix of at most 128 bits at `uptr`, `nextwithdrawn` returns it, with its length,
-- its bytes followed by zeroes and its path identifier if the message has them, and moves `uptr`
-- past it.
nextwithdrawn_lem :
    (heap : Heap) (m : Msg) (p : Netaddrap)
    → m.err ≡ noerr
    → m.flags.rd ≡ true
    → m.flags.withdrn ≡ true
    → Encodes m.mem m.uptr m.flags.addpath p
    → p.pfx.bitlen ≤ 128
    → m.uptr + pfx_size m.flags.addpath p ≤ m.uend
    → Returns (nextwithdrawn heap m) (Reads m m.flags.addpath p)
unfolding nextwithdrawn
nextwithdrawn_lem heap m p ok rd open_ code small room =
    let rest = λ (m : Msg).
      if not (m.uptr == m.uend) then next_pfx ebadwdrwn false m else mp_withdrawn heap m in
    subst (λ o. Returns o (Reads m m.flags.addpath p))
      (sym (
        check_flags_r_ok (λ f. f.rd && f.withdrn) (λ _. none) m rest (rw (rd, open_) refl) ok
        ∙ if_true (not (m.uptr == m.uend)) (next_pfx ebadwdrwn false m) (mp_withdrawn heap m)
            (ap not (unread m m.flags.addpath p room))))
      (next_pfx_decodes ebadwdrwn false m p m.flags.addpath refl code small room)
