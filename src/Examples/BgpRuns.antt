-- ===== src/Examples/BgpRuns.antt =====
-- Messages: an open message, and updates with and without attributes.
use ubgpsuite.Base.{
  ◌+◌, ℕ, ◌<◌, ◌≡◌, refl, true, false, ◌==◌, if◌then◌else◌, Mem, some, arith, [], ◌∷◌,
}
use ubgpsuite.NetAddr.{inet, Netaddrap, naddrsize}
use ubgpsuite.Attr.Header.{is_extended}
use ubgpsuite.Bgp.State.{
  params_offset, params_length_offset, Msg, Open, noerr, Returns, fault, ret, Heap, no_flags, ◌>>=◌,
  bgp_open, bgp_update,
}
use ubgpsuite.Bgp.Message.{OpenFlags, setbgpwrite}
use ubgpsuite.Bgp.Fields.{bgpfinish}
use ubgpsuite.Bgp.Open.{setbgpopen, getbgpopen, setbgpparams}
use ubgpsuite.Bgp.Write.{startnlri, putnlri, setwithdrawn}
use ubgpsuite.Bgp.Read.{seekbgpattr, attr_code_index}
use ubgpsuite.Bgp.Create.{is_idle, IsFresh, setbgpwrite_lem}
use ubgpsuite.Bgp.Finish.{
  IsFinished, finished_flags, bgpfinish_lem, wire_open, setbgpopen-getbgpopen,
}
use ubgpsuite.Bgp.Append.{HasRoom}
use ubgpsuite.Bgp.Prefixes.{Encodes, pfx_size}
use ubgpsuite.Bgp.Lists.{put_each, read_each}
use ubgpsuite.Bgp.Growth.{putnlri_faults, setwithdrawn_faults}
use ubgpsuite.Bgp.Parameters.{setbgpparams_lem}
use ubgpsuite.Bgp.RoundTrip.{SameUpdate, update_roundtrip}
use ubgpsuite.Bgp.Attribs.{Attribs, attr, no_more, first_attr}
use ubgpsuite.Bgp.Search.{seekbgpattr_lem}

abbrev pub heap : Heap
heap = record { malloc = λ n. true; realloc = λ n k. some true; fresh = λ j. 0 }

abbrev default_flags : OpenFlags
default_flags = record { nocopy = false; addpath = true; asn32bit = true }

-- A structure that was never used.
abbrev pub blank : Msg
blank = record {
  flags = no_flags;
  pktlen = 0;
  bufsiz = 0;
  err = noerr;
  fast = false;
  stale = false;
  mem = λ j. 7;
  pptr = 0;
  params = 0;
  ustart = 0;
  uptr = 0;
  uend = 0;
  pfxbuf = record { pfx = record { family = inet; bitlen = 0; bytes = λ j. 0 }; pathid = 0 };
  offtab = λ i. 0;
  pres = λ j. 0;
  path = record {
    asptr = 0;
    asend = 0;
    as4ptr = 0;
    as4end = 0;
    seglen = 0;
    segi = 0;
    ascount = 0;
    asp = record { as_size = 0; type = 0; segno = 0; as_number = 0 };
  };
  hops = record {
    in_nhbuf = false;
    nhptr = 0;
    nhend = 0;
    mpnhptr = 0;
    mpnhend = 0;
    mpfamily = inet;
    mpbitlen = 0;
    nhbuf = λ j. 0;
  };
  ccode = 0;
}

setbgpwrite_example :
    Returns
      (setbgpwrite blank bgp_update default_flags)
      (λ e m'. (e ≡ noerr) × IsFresh m' bgp_update)
setbgpwrite_example = setbgpwrite_lem blank bgp_update default_flags (omega arith)

-- The messages that `setbgpwrite` makes of it.
unfoldable made : ℕ → Msg
unfolding setbgpwrite
made type_ = elim (setbgpwrite blank type_ default_flags) [ ret e m ↦ m | _ ↦ blank ]

IsFresh-open : IsFresh (made bgp_open) bgp_open
unfolding made setbgpwrite
IsFresh-open = (setbgpwrite_lem blank bgp_open default_flags (omega arith)).1

IsFresh-update : IsFresh (made bgp_update) bgp_update
unfolding made setbgpwrite
IsFresh-update = (setbgpwrite_lem blank bgp_update default_flags (omega arith)).1

abbrev hello : Open
hello = record { version = 4; hold_time = 180; my_as = 23456; iden = 3221225985 }

setbgpopen-getbgpopen_example :
    Returns
      (setbgpopen (made bgp_open) hello >>= λ _ m. bgpfinish m >>= λ _ m. getbgpopen m)
      (λ r m'. (r ≡ some (wire_open hello)) × (m'.err ≡ noerr))
setbgpopen-getbgpopen_example = setbgpopen-getbgpopen (made bgp_open) hello IsFresh-open

bgpfinish_example : Returns (bgpfinish (made bgp_update)) (λ r m'.
    (r ≡ some (made bgp_update).pktlen)
    × IsFinished (made bgp_update) m'
    × (m'.flags ≡ finished_flags (made bgp_update).flags))
unfolding made
bgpfinish_example =
    bgpfinish_lem (made bgp_update) refl refl IsFresh-update.idle (omega arith) (omega arith)

-- 198.51.100.0/24 with a path identifier, and 10.0.0.0/8.
abbrev first_prefix : Netaddrap
first_prefix = record {
  pfx = record {
    family = inet;
    bitlen = 24;
    bytes = λ j. if j == 0 then 198 else if j == 1 then 51 else 100;
  };
  pathid = 17;
}

abbrev second_prefix : Netaddrap
second_prefix = record { pfx = record { family = inet; bitlen = 8; bytes = λ j. 10 }; pathid = 18 }

update_example :
    Returns
      (startnlri (made bgp_update) >>= λ _ m.
        put_each heap (first_prefix ∷ second_prefix ∷ []) m >>= λ _ m.
        bgpfinish m >>= λ _ m. startnlri m >>= λ _ m. read_each heap 3 m)
      (SameUpdate true (first_prefix ∷ second_prefix ∷ []))
unfolding naddrsize made
update_example =
    update_roundtrip heap (made bgp_update) (first_prefix ∷ second_prefix ∷ []) IsFresh-update
      (omega arith, (omega arith, tt)) (omega arith)

-- The update while its NLRI field, or its withdrawn routes, are written.
abbrev writing : Msg
writing = record (made bgp_update) {
  flags = record ((made bgp_update).flags) { nlri = true; withdrn = true };
  ustart = 23;
  uptr = 23;
  uend = 23;
}

writing-HasRoom : HasRoom writing (pfx_size true first_prefix)
unfolding naddrsize made
writing-HasRoom = record {
  not_stale = refl;
  packet_fits = omega arith;
  write_fits = omega arith;
  small = omega arith;
}

-- An update with an ORIGIN attribute at 23 and an extended community attribute at 27, of which the
-- field is read.
abbrev packet : Mem
packet j =
    if j == 18
    then 2
    else if j == 22
    then 14
    else if j == 24
    then 1
    else if j == 25
    then 1
    else if j == 27
    then 16
    else if j == 28
    then 8
    else if j == 30
    then 6
    else if j == 37
    then 24
    else if j == 38
    then 198
    else 0

abbrev reading : Msg
reading = record blank {
  flags = record no_flags { rd = true; pattr = true; nlri = true; withdrn = true };
  mem = packet;
  pktlen = 41;
  uptr = 23;
  uend = 37;
}

packet_attributes : Attribs packet 37 23 (23 ∷ 27 ∷ [])
unfolding is_extended
packet_attributes = attr (omega arith) (attr (omega arith) no_more)

-- The NLRI field of the packet, which holds 198.0.0.0/24.
abbrev at_prefix : Msg
at_prefix = record reading { uptr = 37; uend = 41 }

abbrev stored_prefix : Netaddrap
stored_prefix = record {
  pfx = record { family = inet; bitlen = 24; bytes = λ j. if j == 0 then 198 else 0 };
  pathid = 0;
}

packet_prefix : Encodes packet 37 false stored_prefix
unfolding naddrsize
packet_prefix = record {
  pathid_stored = λ e. absurd (ground arith);
  bitlen_stored = refl;
  bytes_stored = λ j lt. ground arith;
}

-- The same update with no field open.
abbrev idle_reading : Msg
idle_reading = record reading { flags = record no_flags { rd = true } }

seekbgpattr_example : Returns (seekbgpattr heap 16 idle_reading) (λ r m'.
    (r ≡ first_attr packet 16 (23 ∷ 27 ∷ []))
    × (m'.err ≡ noerr)
    × (m'.flags ≡ idle_reading.flags)
    × (m'.uptr ≡ 23)
    × (m'.uend ≡ 37)
    × (m'.mem ≡ packet))
unfolding attr_code_index is_idle
seekbgpattr_example =
    seekbgpattr_lem heap idle_reading 16 (23 ∷ 27 ∷ []) (omega arith) refl refl refl refl refl refl
      packet_attributes (omega arith)

-- The update with a packet that fills `fastbuf`, without path identifiers.
abbrev full : Msg
full = record blank {
  flags = record no_flags { wr = true; nlri = true };
  pktlen = 4096;
  bufsiz = 4096;
  fast = true;
  uptr = 4096;
}

-- An update without withdrawn routes whose attributes take all of `fastbuf`.
abbrev full_update : Msg
full_update = record full {
  flags = record no_flags { wr = true };
  mem = λ j. if j == 18 then 2 else 0;
}

setwithdrawn_faults_example : setwithdrawn heap full_update (λ j. 8) 2 ≡ fault
setwithdrawn_faults_example =
    setwithdrawn_faults heap full_update (λ j. 8) 2 true refl refl refl refl (omega arith)
      (omega arith) refl

putnlri_faults_example : putnlri heap full second_prefix ≡ fault
unfolding naddrsize
putnlri_faults_example =
    putnlri_faults heap full second_prefix true refl refl refl refl refl (omega arith) refl

-- Two bytes of parameters.
setbgpparams_example : Returns (setbgpparams (made bgp_open) (λ j. 2) 2) (λ e m'.
    (e ≡ noerr)
    × (m'.pktlen ≡ params_offset + 2)
    × ((j : ℕ) → j < 2 → m'.mem (params_offset + j) ≡ 2)
    × (m'.mem params_length_offset ≡ (made bgp_open).mem params_length_offset)
    × (m'.mem 1 ≡ 2))
unfolding made
setbgpparams_example =
    setbgpparams_lem (made bgp_open) (λ j. 2) 2 refl refl refl (omega arith) (omega arith)
