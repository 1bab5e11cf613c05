-- ===== src/Bgp/Lists.antt =====
-- Writing a list of prefixes with `putnlri` and reading it back with `nextnlri` (src/ubgp/bgp.c).
use ubgpsuite.Base.{
  ℕ, zero, suc, ◌+◌, ◌%◌, ◌^◌, ◌≤◌, ◌<◌, ◌≡◌, refl, subst, ◌∙◌, sym, ap, Bool, true, false, ◌==◌,
  ◌&&◌, not, if◌then◌else◌, if_false, Mem, Option, none, some, arith, List, [], ◌∷◌,
}
use ubgpsuite.NetAddr.{Netaddrap, Family, naddrsize}
use ubgpsuite.Bgp.State.{
  Msg, Err, noerr, ebadnlri, Outcome, Returns, Returns-bind, Returns-map, ret, fault, Heap, ◌>>=◌,
  check_flags_r_ok,
}
use ubgpsuite.Bgp.Append.{Appended, Appended-none, Appended-trans, HasRoom, HasRoom-less}
use ubgpsuite.Bgp.Write.{putnlri}
use ubgpsuite.Bgp.Read.{next_pfx, mp_nlri, nextnlri}
use ubgpsuite.Bgp.Prefixes.{Encodes, get32_agree, Wrote, pfx_size, putnlri_lem}
use ubgpsuite.Bgp.Decode.{Reads, nextnlri_lem}

-- `putnlri` of each prefix in turn.
unfoldable pub put_each : Heap → List Netaddrap → Msg → Outcome Err
put_each heap [] m = ret noerr m
put_each heap (p ∷ ps) m = putnlri heap m p >>= λ _ m. put_each heap ps m

-- `nextnlri` until it answers NULL, at most `n` times.
unfoldable pub read_each : Heap → ℕ → Msg → Outcome (List Netaddrap)
read_each heap zero m = fault
read_each heap (suc n) m = nextnlri heap m >>= λ r m. elim r [
  | none ↦ ret [] m
  | some p ↦ read_each heap n m >>= λ ps m. ret (p ∷ ps) m
]

abbrev pub count : List Netaddrap → ℕ
count [] = 0
count (p ∷ ps) = suc (count ps)

abbrev pub total_size : Bool → List Netaddrap → ℕ
total_size b [] = 0
total_size b (p ∷ ps) = pfx_size b p + total_size b ps

-- Every prefix has at most 128 bits.
abbrev pub AllShort : List Netaddrap → Type 0
AllShort [] = Unit
AllShort (p ∷ ps) = (p.pfx.bitlen ≤ 128) × AllShort ps

-- The memory at `ptr` holds the prefixes one after the other.
abbrev pub EncodesAll : Mem → ℕ → Bool → List Netaddrap → Type 0
EncodesAll m ptr b [] = Unit
EncodesAll m ptr b (p ∷ ps) = Encodes m ptr b p × EncodesAll m (ptr + pfx_size b p) b ps

-- `q` is the prefix `p` as a message with or without path identifiers carries it: its length, the
-- bytes that hold it followed by zeroes, and the path identifier if there are any.
pub record SamePfx (b : Bool) (family : Family) (p q : Netaddrap) : Type 0 where
  pub same_family : q.pfx.family ≡ family
  pub same_bitlen : q.pfx.bitlen ≡ p.pfx.bitlen
  pub same_bytes : (j : ℕ) → j < naddrsize p.pfx.bitlen → q.pfx.bytes j ≡ p.pfx.bytes j
  pub zeroes : (j : ℕ) → naddrsize p.pfx.bitlen ≤ j → q.pfx.bytes j ≡ 0
  pub same_pathid : b ≡ true → q.pathid ≡ p.pathid % 2 ^ 32

abbrev pub SameList : Bool → Family → List Netaddrap → List Netaddrap → Type 0
SameList b family [] [] = Unit
SameList b family (p ∷ ps) (q ∷ qs) = SamePfx b family p q × SameList b family ps qs
SameList b family _ _ = ⊥

-- Memory that agrees on the bytes of a prefix holds it too.
Encodes-agree :
    (m m' : Mem) (ptr : ℕ) (b : Bool) (p : Netaddrap)
    → ((j : ℕ) → ptr ≤ j → j < ptr + pfx_size b p → m' j ≡ m j)
    → Encodes m ptr b p
    → Encodes m' ptr b p
Encodes-agree m m' ptr true p same code = record {
  pathid_stored =
      λ e. get32_agree m m' ptr (λ j low high. same j low (omega arith)) ∙ code.pathid_stored e;
  bitlen_stored = same (ptr + 4) (omega arith) (omega arith) ∙ code.bitlen_stored;
  bytes_stored =
      λ j lt. same (ptr + 4 + 1 + j) (omega arith) (omega arith) ∙ code.bytes_stored j lt;
}
Encodes-agree m m' ptr false p same code = record {
  pathid_stored = λ e. absurd (ground arith);
  bitlen_stored = same ptr (omega arith) (omega arith) ∙ code.bitlen_stored;
  bytes_stored = λ j lt. same (ptr + 1 + j) (omega arith) (omega arith) ∙ code.bytes_stored j lt;
}

pub EncodesAll-agree :
    (m m' : Mem) (ptr : ℕ) (b : Bool) (ps : List Netaddrap)
    → ((j : ℕ) → ptr ≤ j → m' j ≡ m j)
    → EncodesAll m ptr b ps
    → EncodesAll m' ptr b ps
EncodesAll-agree m m' ptr b [] same codes = tt
EncodesAll-agree m m' ptr b (p ∷ ps) same (code, codes) = (
  Encodes-agree m m' ptr b p (λ j low high. same j low) code,
  EncodesAll-agree m m' (ptr + pfx_size b p) b ps (λ j low. same j (omega arith)) codes,
)

HasRoom-Appended : (m m' : Msg) (n k : ℕ) → HasRoom m (n + k) → Appended m m' n → HasRoom m' k
HasRoom-Appended m m' n k room a = record {
  not_stale = a.same_stale ∙ room.not_stale;
  packet_fits = ground (arith, room.packet_fits, a.longer, a.same_bufsiz);
  write_fits = ground (arith, room.write_fits, a.moved, a.same_bufsiz);
  small = ground (arith, room.small, a.longer);
}

-- The prefixes were written one after the other.
abbrev pub WroteAll : Msg → Bool → List Netaddrap → Err → Msg → Type 0
WroteAll m b ps e m' = (e ≡ noerr) × Appended m m' (total_size b ps) × EncodesAll m'.mem m.uptr b ps

pub put_each_lem :
    (heap : Heap) (ps : List Netaddrap) (m : Msg) (b : Bool)
    → m.err ≡ noerr
    → m.flags.wr ≡ true
    → m.flags.nlri ≡ true
    → m.flags.addpath ≡ b
    → AllShort ps
    → HasRoom m (total_size b ps)
    → Returns (put_each heap ps m) (WroteAll m b ps)
unfolding put_each
put_each_lem heap [] m b ok wr open_ same short room = (refl, Appended-none m, tt)
put_each_lem heap (p ∷ ps) m b ok wr open_ same (small, short) room =
    let head : HasRoom m (pfx_size m.flags.addpath p) =
      subst (λ b. HasRoom m (pfx_size b p)) (sym same)
        (HasRoom-less m (pfx_size b p) (total_size b ps) room) in
    let first : Returns (putnlri heap m p) (Wrote m b p) =
      subst (λ b. Returns (putnlri heap m p) (Wrote m b p)) same
        (putnlri_lem heap m p ok wr open_ (omega arith) head) in
    Returns-bind (putnlri heap m p) (λ _ m. put_each heap ps m) (Wrote m b p)
      (WroteAll m b (p ∷ ps)) first
      λ e m' (done, grown, code).
        let flags = grown.same_flags in
        let rest =
          put_each_lem heap ps m' b (grown.same_err ∙ ok) (ap (λ f. f.wr) flags ∙ wr)
            (ap (λ f. f.nlri) flags ∙ open_) (ap (λ f. f.addpath) flags ∙ same) short
            (HasRoom-Appended m m' (pfx_size b p) (total_size b ps) room grown) in
        Returns-map (put_each heap ps m') (WroteAll m' b ps) (WroteAll m b (p ∷ ps)) rest
          λ e' m'' (done', grown', codes). (
            done',
            Appended-trans grown grown',
            (
              Encodes-agree m'.mem m''.mem m.uptr b p
                  (λ j low lt. grown'.below j (ground (arith, lt, grown.moved))) code,
              subst (λ ptr. EncodesAll m''.mem ptr b ps) grown.moved codes,
            ),
          )

-- The answers of `nextnlri` are the prefixes, and the message is at the end of its field.
abbrev pub ReadAll : Msg → Bool → List Netaddrap → List Netaddrap → Msg → Type 0
ReadAll m b ps qs m' = SameList b m.pfxbuf.pfx.family ps qs × (m'.err ≡ m.err) × (m'.uptr ≡ m'.uend)

mp_nlri_plain : (heap : Heap) (m : Msg) → m.flags.allnlri ≡ false → mp_nlri heap m ≡ ret none m
unfolding mp_nlri
mp_nlri_plain heap m plain = rw plain refl

-- At the end of the last field, `nextnlri` answers NULL.
nextnlri_end :
    (heap : Heap) (m : Msg)
    → m.err ≡ noerr
    → m.flags.rd ≡ true
    → m.flags.nlri ≡ true
    → m.flags.allnlri ≡ false
    → m.uptr ≡ m.uend
    → nextnlri heap m ≡ ret none m
unfolding nextnlri
nextnlri_end heap m ok rd open_ plain end =
    let rest =
      λ (m : Msg). if not (m.uptr == m.uend) then next_pfx ebadnlri true m else mp_nlri heap m in
    check_flags_r_ok (λ f. f.rd && f.nlri) (λ _. none) m rest (rw (rd, open_) refl) ok
    ∙ if_false (not (m.uptr == m.uend)) (next_pfx ebadnlri true m) (mp_nlri heap m)
        (ground (arith, end))
    ∙ mp_nlri_plain heap m plain

pub read_each_lem :
    (heap : Heap) (ps : List Netaddrap) (m : Msg) (b : Bool)
    → m.err ≡ noerr
    → m.flags.rd ≡ true
    → m.flags.nlri ≡ true
    → m.flags.allnlri ≡ false
    → m.flags.addpath ≡ b
    → AllShort ps
    → EncodesAll m.mem m.uptr b ps
    → m.uptr + total_size b ps ≡ m.uend
    → Returns (read_each heap (suc (count ps)) m) (ReadAll m b ps)
unfolding read_each
read_each_lem heap [] m b ok rd open_ plain same short codes end =
    rw (nextnlri_end heap m ok rd open_ plain (omega arith)) (tt, refl, omega arith)
read_each_lem heap (p ∷ ps) m b ok rd open_ plain same (small, short) (code, codes) end =
    let first : Returns (nextnlri heap m) (Reads m b p) =
      subst
        (λ b.
          (Encodes m.mem m.uptr b p)
          → (m.uptr + pfx_size b p ≤ m.uend)
          → Returns (nextnlri heap m) (Reads m b p))
        same (λ code room. nextnlri_lem heap m p ok rd open_ code small room) code (omega arith) in
    let rest : Option Netaddrap → Msg → Outcome (List Netaddrap) = λ r m. elim r [
      | none ↦ ret [] m
      | some q ↦ read_each heap (suc (count ps)) m >>= λ qs m. ret (q ∷ qs) m
    ] in
    Returns-bind (nextnlri heap m) rest (Reads m b p) (ReadAll m b (p ∷ ps)) first λ r m' reads.
      let flags = reads.same_flags in
      let others =
        read_each_lem heap ps m' b (reads.same_err ∙ ok) (ap (λ f. f.rd) flags ∙ rd)
          (ap (λ f. f.nlri) flags ∙ open_) (ap (λ f. f.allnlri) flags ∙ plain)
          (ap (λ f. f.addpath) flags ∙ same) short (rw (reads.same_mem, reads.moved) codes)
          (ground (arith, reads.moved, reads.same_end, end)) in
      rw (reads.result) (
        Returns-bind (read_each heap (suc (count ps)) m') (λ qs m. ret (m'.pfxbuf ∷ qs) m)
          (ReadAll m' b ps) (ReadAll m b (p ∷ ps)) others
          λ qs m'' (all, err, at). (
            (
              record {
                same_family = reads.family;
                same_bitlen = reads.bitlen;
                same_bytes = reads.bytes;
                zeroes = reads.padding;
                same_pathid = reads.pathid;
              },
              subst (λ f. SameList b f ps qs) reads.family all,
            ),
            err ∙ reads.same_err,
            at,
          ))
