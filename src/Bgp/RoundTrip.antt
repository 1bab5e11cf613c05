-- ===== src/Bgp/RoundTrip.antt =====
-- Round trip of an update message from `setbgpwrite` over `startnlri`, `putnlri` and `bgpfinish` to `startnlri`
-- and `nextnlri` (src/ubgp/bgp.c).
use ubgpsuite.Base.{
  ℕ, suc, ◌+◌, ◌^◌, ◌≤◌, ◌<◌, ◌≡◌, refl, subst, ◌∙◌, ap, Bool, true, false, Mem, Option, some,
  arith, List,
}
use ubgpsuite.NetAddr.{Netaddrap, inet}
use ubgpsuite.Bgp.State.{
  Msg, Flags, noerr, Returns, Returns-bind, Returns-map, Heap, ◌>>=◌, bgp_update, bgpbufsiz,
  type_of, type_offset, base_packet_length,
}
use ubgpsuite.Bgp.Fields.{bgpfinish}
use ubgpsuite.Bgp.Write.{startnlri}
use ubgpsuite.Bgp.Create.{is_idle, IsFresh}
use ubgpsuite.Bgp.Finish.{IsFinished, finished_flags, bgpfinish_after}
use ubgpsuite.Bgp.Append.{HasRoom}
use ubgpsuite.Bgp.Lists.{
  EncodesAll, EncodesAll-agree, ReadAll, WroteAll, put_each, read_each, count, total_size, AllShort,
  SameList, put_each_lem, read_each_lem,
}
use ubgpsuite.Bgp.Update.{
  WritesNlri, Entered, Opened, endpending_nlri, nlri_start_empty, enter_for_writing,
  enter_for_reading,
}

WritesNlri-same : (m m' : Msg) → m'.flags ≡ m.flags → m'.err ≡ m.err → WritesNlri m → WritesNlri m'
WritesNlri-same m m' flags err w = record {
  ok = err ∙ w.ok;
  writing = rw flags (w.writing);
  no_params = rw flags (w.no_params);
  no_withdrawn = rw flags (w.no_withdrawn);
  no_attribs = rw flags (w.no_attribs);
  nlri_open = rw flags (w.nlri_open);
  no_path = rw flags (w.no_path);
  no_nhop = rw flags (w.no_nhop);
  no_community = rw flags (w.no_community);
}

-- The flags after the NLRI field was closed.
abbrev closed_flags : Flags → Flags
closed_flags f = record f { nlri = false; allnlri = false }

closed_idle : (m : Msg) → WritesNlri m → is_idle (finished_flags (closed_flags m.flags)) ≡ true
unfolding is_idle
closed_idle m w =
    rw (w.no_params, w.no_withdrawn, w.no_attribs, w.no_path, w.no_nhop, w.no_community) refl

-- The second half: a message with the prefixes in its NLRI field is finished and read.
abbrev pub SameUpdate : Bool → List Netaddrap → List Netaddrap → Msg → Type 0
SameUpdate b ps qs m = SameList b inet ps qs × (m.err ≡ noerr) × (m.uptr ≡ m.uend)

read_finished :
    (heap : Heap) (ps : List Netaddrap) (m : Msg) (b : Bool)
    → WritesNlri m
    → m.flags.addpath ≡ b
    → type_of m ≡ bgp_update
    → ((j : ℕ) → base_packet_length ≤ j → j < 23 → m.mem j ≡ 0)
    → m.pktlen ≡ 23 + total_size b ps
    → 23 ≤ m.bufsiz
    → m.pktlen < 2 ^ 16
    → AllShort ps
    → EncodesAll m.mem 23 b ps
    → Returns
        (bgpfinish m >>= λ _ m. startnlri m >>= λ _ m. read_each heap (suc (count ps)) m)
        (SameUpdate b ps)
read_finished heap ps m b w same typed zeroes length room high short codes =
    let Done : Option ℕ → Msg → Type 0 = λ r m'.
      (r ≡ some m.pktlen) × IsFinished m m' × (m'.flags ≡ finished_flags (closed_flags m.flags)) in
    let done : Returns (bgpfinish m) Done =
      bgpfinish_after m (closed_flags m.flags) noerr w.writing w.ok (endpending_nlri m w)
        (omega arith) high in
    Returns-bind (bgpfinish m) (λ _ m. startnlri m >>= λ _ m. read_each heap (suc (count ps)) m)
      Done (SameUpdate b ps) done
      λ r m' (_, f, flags).
        let opened =
          enter_for_reading m' f.no_error f.readable f.not_writable
            (f.after type_offset (omega arith) ∙ typed) (rw flags (closed_idle m w))
            (nlri_start_empty m'.mem (λ j low lt. f.after j (omega arith) ∙ zeroes j low lt))
            (ground (arith, f.same_pktlen, length)) (ground (arith, f.same_pktlen, high)) in
        Returns-bind (startnlri m') (λ _ m. read_each heap (suc (count ps)) m)
          (λ _ m''. Opened m' m'') (SameUpdate b ps) opened
          λ _ m'' o.
            let codes' : EncodesAll m''.mem m''.uptr b ps =
              rw (o.same_mem, o.at)
                (EncodesAll-agree m.mem m'.mem 23 b ps (λ j low. f.after j (omega arith)) codes) in
            let all =
              read_each_lem heap ps m'' b o.ok o.reading o.nlri_open (o.plain ∙ rw flags refl)
                (o.same_addpath ∙ rw flags same) short codes'
                (ground (arith, o.at, o.end, f.same_pktlen, length)) in
            Returns-map (read_each heap (suc (count ps)) m'') (ReadAll m'' b ps) (SameUpdate b ps)
              all
              λ qs m''' (list, err, at).
                (subst (λ f. SameList b f ps qs) o.family list, err ∙ o.ok, at)

-- An update that was just opened for writing, in which the NLRI field is written with prefixes of
-- at most 128 bits that fit the buffer, then finished, reads back as the same prefixes in the same
-- order: with their lengths, bytes and path identifiers, no error, and nothing after them.
pub update_roundtrip :
    (heap : Heap) (m : Msg) (ps : List Netaddrap)
    → IsFresh m bgp_update
    → AllShort ps
    → 23 + total_size m.flags.addpath ps ≤ bgpbufsiz
    → Returns
        (startnlri m >>= λ _ m. put_each heap ps m >>= λ _ m.
          bgpfinish m >>= λ _ m. startnlri m >>= λ _ m. read_each heap (suc (count ps)) m)
        (SameUpdate m.flags.addpath ps)
update_roundtrip heap m ps fresh short room =
    let b = m.flags.addpath in
    Returns-bind (startnlri m)
      (λ _ m. put_each heap ps m >>= λ _ m.
        bgpfinish m >>= λ _ m. startnlri m >>= λ _ m. read_each heap (suc (count ps)) m)
      (λ _ m'. Entered m m') (SameUpdate b ps) (enter_for_writing m fresh)
      λ _ m' en.
        let space : HasRoom m' (total_size b ps) = record {
          not_stale = en.in_place;
          packet_fits = ground (arith, en.length, en.same_size, fresh.size, room);
          write_fits = ground (arith, en.at, en.same_size, fresh.size, room);
          small = ground (arith, en.length, room);
        } in
        Returns-bind (put_each heap ps m')
          (λ _ m. bgpfinish m >>= λ _ m. startnlri m >>= λ _ m. read_each heap (suc (count ps)) m)
          (WroteAll m' b ps) (SameUpdate b ps)
          (put_each_lem heap ps m' b en.writes.ok en.writes.writing en.writes.nlri_open
            en.same_addpath short space)
          λ _ m'' (_, grown, codes).
            let below : (j : ℕ) → j < 23 → m''.mem j ≡ m.mem j =
              λ j lt. grown.below j (rw (en.at) lt) ∙ ap (λ (f : Mem). f j) en.same_mem in
            read_finished heap ps m'' b
              (WritesNlri-same m' m'' grown.same_flags grown.same_err en.writes)
              (ap (λ f. f.addpath) grown.same_flags ∙ en.same_addpath)
              (below type_offset (omega arith) ∙ fresh.typed)
              (λ j low lt. below j lt ∙ fresh.rest_zero j low (rw (fresh.packet_length) lt))
              (ground (arith, grown.longer, en.length))
              (ground (arith, grown.same_bufsiz, en.same_size, fresh.size))
              (ground (arith, grown.longer, en.length, room)) short
              (subst (λ ptr. EncodesAll m''.mem ptr b ps) en.at codes)
