-- ===== src/Bgp/Finish.antt =====
-- `bgpfinish` (src/ubgp/bgp.c) and what a message that it finished reads back as.
use ubgpsuite.Base.{
  ℕ, ◌+◌, ◌%◌, ◌^◌, ◌≤◌, ◌<◌, ◌≡◌, refl, ◌∙◌, true, false, ltb, if◌then◌else◌, if_false, Mem, copy,
  put8, put16, put32, get16, Option, none, some, arith, get32,
}
use ubgpsuite.Bgp.State.{
  Msg, Flags, Err, Open, noerr, Returns, Returns-bind, check_flags_r_ok, store, ret, fault,
  bgp_open, ◌>>=◌, type_offset, length_offset, version_offset, my_as_offset, hold_time_offset,
  iden_offset,
}
use ubgpsuite.Bgp.Fields.{bgpfinish, endpending}
use ubgpsuite.Bgp.Open.{setbgpopen, getbgpopen}
use ubgpsuite.Bgp.Create.{is_idle, endpending_idle, IsFresh}

-- What `bgpfinish` leaves: the same packet with its length in it, open for reading.
pub record IsFinished (m m' : Msg) : Type 0 where
  pub readable : m'.flags.rd ≡ true
  pub not_writable : m'.flags.wr ≡ false
  pub no_error : m'.err ≡ noerr
  pub length : get16 m'.mem length_offset ≡ m.pktlen
  pub same_pktlen : m'.pktlen ≡ m.pktlen
  pub before : (j : ℕ) → j < length_offset → m'.mem j ≡ m.mem j
  pub after : (j : ℕ) → length_offset + 2 ≤ j → m'.mem j ≡ m.mem j

finish_mem :
    (m : Mem) (n : ℕ)
    → n < 2 ^ 16
    → let m' = copy m length_offset (put16 (λ j. 0) 0 n) 0 2 in
      (get16 m' length_offset ≡ n)
      × ((j : ℕ) → j < length_offset → m' j ≡ m j)
      × ((j : ℕ) → length_offset + 2 ≤ j → m' j ≡ m j)
finish_mem m n h = (ground (arith, h), λ j lt. ground arith, λ j le. ground arith)

-- The flags that `bgpfinish` leaves.
abbrev pub finished_flags : Flags → Flags
finished_flags f = record f { wr = false; presofftab = false; rd = true }

-- The message that is returned.
abbrev finished : Msg → Msg
finished m = record m {
  mem = copy m.mem length_offset (put16 (λ j. 0) 0 m.pktlen) 0 2;
  offtab = if m.flags.presofftab then m.offtab else (λ i. 0);
  flags = finished_flags m.flags;
}

bgpfinish_run :
    (m : Msg) (f : Flags) (e : Err)
    → m.flags.wr ≡ true
    → m.err ≡ noerr
    → endpending m ≡ ret e (record m { flags = f })
    → length_offset + 2 ≤ m.bufsiz
    → bgpfinish m ≡ ret (some m.pktlen) (finished (record m { flags = f }))
unfolding bgpfinish
bgpfinish_run m f e wr ok closed room =
    let last = λ (m : Msg). ret (some m.pktlen) (record m {
      offtab = if m.flags.presofftab then m.offtab else (λ i. 0);
      flags = finished_flags m.flags;
    }) in
    let rest = λ (m : Msg).
      endpending m >>= λ _ m. store m length_offset (put16 (λ j. 0) 0 m.pktlen) 2 last in
    check_flags_r_ok (λ f. f.wr) (λ _. none) m rest wr ok
    ∙ rw closed (
        if_false (ltb m.bufsiz (length_offset + 2)) fault
          (ret (some m.pktlen) (finished (record m { flags = f }))) (ground (arith, room)))

-- `bgpfinish` once the open field has been closed, which changed at most the flags.
pub bgpfinish_after :
    (m : Msg) (f : Flags) (e : Err)
    → m.flags.wr ≡ true
    → m.err ≡ noerr
    → endpending m ≡ ret e (record m { flags = f })
    → length_offset + 2 ≤ m.bufsiz
    → m.pktlen < 2 ^ 16
    → Returns
        (bgpfinish m)
        (λ r m'. (r ≡ some m.pktlen) × IsFinished m m' × (m'.flags ≡ finished_flags f))
bgpfinish_after m f e wr ok closed room small =
    let (stored, before, after) = finish_mem m.mem m.pktlen small in
    rw (bgpfinish_run m f e wr ok closed room) (
      refl,
      record {
        readable = refl;
        not_writable = refl;
        no_error = ok;
        length = stored;
        same_pktlen = refl;
        before = before;
        after = after;
      },
      refl,
    )

-- With no field open and no error so far, `bgpfinish` of a message that is open for writing, with
-- a buffer that holds at least the length field and a packet below 65536 bytes, returns its packet
-- and its length, and leaves the message open for reading with the length stored and all other
-- bytes as they were.
pub bgpfinish_lem :
    (m : Msg)
    → m.flags.wr ≡ true
    → m.err ≡ noerr
    → is_idle m.flags ≡ true
    → length_offset + 2 ≤ m.bufsiz
    → m.pktlen < 2 ^ 16
    → Returns
        (bgpfinish m)
        (λ r m'. (r ≡ some m.pktlen) × IsFinished m m' × (m'.flags ≡ finished_flags m.flags))
bgpfinish_lem m wr ok idle room small =
    bgpfinish_after m m.flags m.err wr ok (endpending_idle m idle) room small

-- The fields cut to their widths.
abbrev pub wire_open : Open → Open
wire_open op = record {
  version = op.version % 256;
  hold_time = op.hold_time % 2 ^ 16;
  my_as = op.my_as % 2 ^ 16;
  iden = op.iden % 2 ^ 32;
}

-- The bytes of the four fields, under a length that is stored later.
open_mem : Mem → Open → Mem
open_mem m op =
    put32
      (put16 (put16 (put8 m version_offset op.version) hold_time_offset op.hold_time) my_as_offset
        op.my_as)
      iden_offset op.iden

open_mem_lem :
    (m m' : Mem) (op : Open)
    → ((j : ℕ) → length_offset + 2 ≤ j → m' j ≡ open_mem m op j)
    → (m' version_offset ≡ op.version % 256)
      × (get16 m' hold_time_offset ≡ op.hold_time % 2 ^ 16)
      × (get16 m' my_as_offset ≡ op.my_as % 2 ^ 16)
      × (get32 m' iden_offset ≡ op.iden % 2 ^ 32)
      × (m' type_offset ≡ m type_offset)
unfolding open_mem
open_mem_lem m m' op same =
    rw
      (
        same 18 (omega arith),
        same 19 (omega arith),
        same 20 (omega arith),
        same 21 (omega arith),
        same 22 (omega arith),
        same 23 (omega arith),
        same 24 (omega arith),
        same 25 (omega arith),
        same 26 (omega arith),
        same 27 (omega arith),
      )
      (ground arith, ground arith, ground arith, ground arith, ground arith)

setbgpopen_run :
    (m : Msg) (op : Open)
    → m.flags.wr ≡ true
    → m.err ≡ noerr
    → m.mem type_offset ≡ bgp_open
    → setbgpopen m op ≡ ret noerr (record m { mem = open_mem m.mem op })
unfolding setbgpopen open_mem
setbgpopen_run m op wr ok typed = rw (typed, wr, ok) refl

getbgpopen_run :
    (m : Msg)
    → m.flags.rd ≡ true
    → m.err ≡ noerr
    → m.mem type_offset ≡ bgp_open
    → getbgpopen m
      ≡ ret
          (some (record {
            version = m.mem version_offset;
            hold_time = get16 m.mem hold_time_offset;
            my_as = get16 m.mem my_as_offset;
            iden = get32 m.mem iden_offset;
          }))
          m
unfolding getbgpopen
getbgpopen_run m rd ok typed = rw (typed, rd, ok) refl

-- What `setbgpopen` writes to a fresh open message, `getbgpopen` reads back from the finished
-- packet, each field cut to its width.
pub setbgpopen-getbgpopen :
    (m : Msg) (op : Open)
    → IsFresh m bgp_open
    → Returns
        (setbgpopen m op >>= λ _ m. bgpfinish m >>= λ _ m. getbgpopen m)
        (λ r m'. (r ≡ some (wire_open op)) × (m'.err ≡ noerr))
setbgpopen-getbgpopen m op fresh =
    let written = record m { mem = open_mem m.mem op } in
    let P : Option ℕ → Msg → Type 0 =
      λ r m'. (r ≡ some m.pktlen) × IsFinished written m' × (m'.flags ≡ finished_flags m.flags) in
    let done : Returns (bgpfinish written) P =
      bgpfinish_lem written fresh.writing fresh.no_error fresh.idle (rw (fresh.size) (omega arith))
        (rw (fresh.packet_length) (omega arith)) in
    rw (setbgpopen_run m op fresh.writing fresh.no_error fresh.typed) (
      Returns-bind (bgpfinish written) (λ _ m. getbgpopen m) P _ done
        (λ r m' (_, h, _).
          let (version, hold, as_, iden, typed) = open_mem_lem m.mem m'.mem op h.after in
          rw
            (
              getbgpopen_run m' h.readable h.no_error (typed ∙ fresh.typed),
              version,
              hold,
              as_,
              iden,
            )
            (refl, h.no_error)))
