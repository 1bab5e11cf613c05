-- ===== src/Bgp/Update.antt =====
-- Entering and closing the NLRI field of an update: `getnlri`, `startnlri` and `endnlri`
-- (src/ubgp/bgp.c).
use ubgpsuite.Base.{
  ℕ, ◌+◌, ◌%◌, ◌^◌, ◌≤◌, ◌<◌, ◌≡◌, refl, ◌∙◌, true, false, if◌then◌else◌, Mem, get16, none, some,
  arith,
}
use ubgpsuite.NetAddr.{inet}
use ubgpsuite.Bgp.State.{
  Msg, Flags, noerr, Returns, check_type_r_ok, ret, ◌>>=◌, bgp_update, type_of, base_packet_length,
}
use ubgpsuite.Bgp.Fields.{
  getwithdrawn, getbgpattribs, getnlri, size_between, endpending, endnlri, need,
}
use ubgpsuite.Bgp.Write.{enter_field, with_nlri, set_family_inet, shrink, dostartnlri, startnlri}
use ubgpsuite.Bgp.Create.{is_idle, endpending_idle, IsFresh}

-- Where the attributes and the NLRI field of an update begin, by the two length fields.
abbrev pub attribs_start : Mem → ℕ
attribs_start m = base_packet_length + 2 + get16 m base_packet_length + 2

abbrev pub nlri_start : Mem → ℕ
nlri_start m = attribs_start m + get16 m (base_packet_length + 2 + get16 m base_packet_length)

getwithdrawn_run :
    (m : Msg)
    → type_of m ≡ bgp_update
    → m.err ≡ noerr
    → getwithdrawn m ≡ ret (some (base_packet_length + 2, get16 m.mem base_packet_length)) m
unfolding getwithdrawn
getwithdrawn_run m typed ok =
    check_type_r_ok bgp_update (λ _. none) m
      (λ m. ret (some (base_packet_length + 2, get16 m.mem base_packet_length)) m) typed ok

pub getbgpattribs_run :
    (m : Msg)
    → type_of m ≡ bgp_update
    → m.err ≡ noerr
    → getbgpattribs m
      ≡ ret
          (some (
            attribs_start m.mem,
            get16 m.mem (base_packet_length + 2 + get16 m.mem base_packet_length),
          ))
          m
unfolding getbgpattribs
getbgpattribs_run m typed ok =
    let rest = λ (m : Msg). getwithdrawn m >>= λ r m.
    need r λ w. let ptr = w.0 + w.1 in ret (some (ptr + 2, get16 m.mem ptr)) m in
    check_type_r_ok bgp_update (λ _. none) m rest typed ok ∙ rw (getwithdrawn_run m typed ok) refl

-- With no error so far, `getnlri` of an update is the field after the withdrawn routes and the
-- attributes, up to the end of the packet.
getnlri_lem :
    (m : Msg)
    → type_of m ≡ bgp_update
    → m.err ≡ noerr
    → getnlri m ≡ ret (some (nlri_start m.mem, size_between (nlri_start m.mem) m.pktlen)) m
unfolding getnlri
getnlri_lem m typed ok =
    let rest = λ (m : Msg). getbgpattribs m >>= λ r m.
    need r λ a. let ptr = a.0 + a.1 in ret (some (ptr, size_between ptr m.pktlen)) m in
    check_type_r_ok bgp_update (λ _. none) m rest typed ok ∙ rw (getbgpattribs_run m typed ok) refl

-- The message with its NLRI field entered.
abbrev started : Msg → Msg
started m =
    let start = nlri_start m.mem in
    let n = size_between start m.pktlen in
    let m' = if m.flags.wr then record m { pktlen = shrink m.pktlen n } else set_family_inet m in
    record (with_nlri false (enter_field m' start n)) { uend = (start + n) % 2 ^ 64 }

startnlri_run :
    (m : Msg)
    → type_of m ≡ bgp_update
    → m.err ≡ noerr
    → is_idle m.flags ≡ true
    → startnlri m ≡ ret (started m).err (started m)
unfolding startnlri dostartnlri
startnlri_run m typed ok idle =
    check_type_r_ok bgp_update (λ e. e) m (λ m. dostartnlri false m) typed ok
    ∙ rw (endpending_idle m idle, getnlri_lem m typed ok) refl

-- Only the NLRI field is open, for writing.
pub record WritesNlri (m : Msg) : Type 0 where
  pub ok : m.err ≡ noerr
  pub writing : m.flags.wr ≡ true
  pub no_params : m.flags.pm ≡ false
  pub no_withdrawn : m.flags.withdrn ≡ false
  pub no_attribs : m.flags.pattr ≡ false
  pub nlri_open : m.flags.nlri ≡ true
  pub no_path : m.flags.aspath ≡ false
  pub no_nhop : m.flags.nhop ≡ false
  pub no_community : m.flags.community ≡ false

pub endpending_nlri :
    (m : Msg)
    → WritesNlri m
    → endpending m
      ≡ ret noerr (record m { flags = record (m.flags) { nlri = false; allnlri = false } })
unfolding endpending endnlri
endpending_nlri m w = simp (w.no_params, w.no_withdrawn, w.no_attribs, w.nlri_open, w.ok) refl

flags_idle :
    (f : Flags)
    → is_idle f ≡ true
    → (f.pm ≡ false)
      × (f.withdrn ≡ false)
      × (f.pattr ≡ false)
      × (f.aspath ≡ false)
      × (f.nhop ≡ false)
      × (f.community ≡ false)
unfolding is_idle
flags_idle f h = (
  ground (arith, h),
  ground (arith, h),
  ground (arith, h),
  ground (arith, h),
  ground (arith, h),
  ground (arith, h),
)

-- With both length fields zero the NLRI field comes right after them.
pub nlri_start_empty :
    (m : Mem) → ((j : ℕ) → base_packet_length ≤ j → j < 23 → m j ≡ 0) → nlri_start m ≡ 23
nlri_start_empty m zeroes =
    rw
      (
        zeroes 19 (omega arith) (omega arith),
        zeroes 20 (omega arith) (omega arith),
        zeroes 21 (omega arith) (omega arith),
        zeroes 22 (omega arith) (omega arith),
      )
      refl

-- The NLRI field of an empty update was entered for writing.
pub record Entered (m m' : Msg) : Type 0 where
  pub writes : WritesNlri m'
  pub at : m'.uptr ≡ 23
  pub length : m'.pktlen ≡ 23
  pub in_place : m'.stale ≡ false
  pub same_size : m'.bufsiz ≡ m.bufsiz
  pub same_mem : m'.mem ≡ m.mem
  pub same_addpath : m'.flags.addpath ≡ m.flags.addpath

pub enter_for_writing :
    (m : Msg) → IsFresh m bgp_update → Returns (startnlri m) (λ e m'. Entered m m')
enter_for_writing m fresh =
    let zeroes = λ (j : ℕ) (low : base_packet_length ≤ j) (high : j < 23).
      fresh.rest_zero j low (rw (fresh.packet_length) high) in
    let start = nlri_start_empty m.mem zeroes in
    let (pm, withdrn, pattr, aspath, nhop, community) = flags_idle m.flags fresh.idle in
    rw (startnlri_run m fresh.typed fresh.no_error fresh.idle) (record {
      writes = record {
        ok = simp (fresh.writing) (fresh.no_error);
        writing = simp (fresh.writing) refl;
        no_params = simp (fresh.writing) pm;
        no_withdrawn = simp (fresh.writing) withdrn;
        no_attribs = simp (fresh.writing) pattr;
        nlri_open = refl;
        no_path = simp (fresh.writing) aspath;
        no_nhop = simp (fresh.writing) nhop;
        no_community = simp (fresh.writing) community;
      };
      at = start;
      length = simp (fresh.writing, start, fresh.packet_length) refl;
      in_place = refl;
      same_size = simp (fresh.writing) refl;
      same_mem = simp (fresh.writing) refl;
      same_addpath = simp (fresh.writing) refl;
    })

-- The NLRI field of an update without other fields was entered for reading.
pub record Opened (m m' : Msg) : Type 0 where
  pub ok : m'.err ≡ noerr
  pub reading : m'.flags.rd ≡ true
  pub nlri_open : m'.flags.nlri ≡ true
  pub plain : m'.flags.allnlri ≡ m.flags.allnlri
  pub same_addpath : m'.flags.addpath ≡ m.flags.addpath
  pub same_mem : m'.mem ≡ m.mem
  pub at : m'.uptr ≡ 23
  pub end : m'.uend ≡ m.pktlen
  pub family : m'.pfxbuf.pfx.family ≡ inet

uend_lem : (n : ℕ) → 23 ≤ n → n < 2 ^ 16 → (23 + size_between 23 n) % 2 ^ 64 ≡ n
uend_lem n low high = ground arith

pub enter_for_reading :
    (m : Msg)
    → m.err ≡ noerr
    → m.flags.rd ≡ true
    → m.flags.wr ≡ false
    → type_of m ≡ bgp_update
    → is_idle m.flags ≡ true
    → nlri_start m.mem ≡ 23
    → 23 ≤ m.pktlen
    → m.pktlen < 2 ^ 16
    → Returns (startnlri m) (λ e m'. Opened m m')
enter_for_reading m ok rd wr typed idle start low high =
    rw (startnlri_run m typed ok idle) (record {
      ok = simp wr ok;
      reading = simp wr rd;
      nlri_open = refl;
      plain = simp wr (ground arith);
      same_addpath = simp wr refl;
      same_mem = simp wr refl;
      at = start;
      end = rw start (uend_lem m.pktlen low high);
      family = simp wr refl;
    })
