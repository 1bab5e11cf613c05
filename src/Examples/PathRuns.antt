-- ===== src/Examples/PathRuns.antt =====
-- An update with an AS path of two-byte ASes and an AS4_PATH, and one with communities.
use ubgpsuite.Base.{
  ◌≡◌, ◌≢◌, refl, true, ◌==◌, if◌then◌else◌, ◌^◌, ◌-◌, Mem, IsBytes, [], ◌∷◌, arith,
}
use ubgpsuite.Attr.Header.{is_extended, as_path_code, community_code}
use ubgpsuite.Bgp.State.{Msg, Returns, fault, no_flags, ◌>>=◌}
use ubgpsuite.Bgp.Read.{attr_code_index}
use ubgpsuite.Bgp.Create.{is_idle}
use ubgpsuite.Bgp.Attribs.{attr, no_more}
use ubgpsuite.Bgp.Path.{ascount_all, enter_segment, merge_as4path, startaspath}
use ubgpsuite.Bgp.PathStep.{enter_segment_fuel}
use ubgpsuite.Bgp.PathWalk.{read_path}
use ubgpsuite.Bgp.PathStart.{Readable, ReadPath, startaspath-read_path}
use ubgpsuite.Bgp.PathReal.{Paths, Read, real_entries, merge_as4path-read_path}
use ubgpsuite.Bgp.CommunityWalk.{read_communities, ReadCommunities, nextcommunity_all}
use ubgpsuite.Examples.BgpRuns.{heap, blank}

-- AS_PATH 100 200 at 23, and AS4_PATH 65536 at 32.
abbrev packet : Mem
packet j =
    if j == 18
    then 2
    else if j == 22
    then 18
    else if j == 23
    then 64
    else if j == 24
    then 2
    else if j == 25
    then 6
    else if j == 26
    then 2
    else if j == 27
    then 2
    else if j == 29
    then 100
    else if j == 31
    then 200
    else if j == 32
    then 192
    else if j == 33
    then 17
    else if j == 34
    then 6
    else if j == 35
    then 2
    else if j == 36
    then 1
    else if j == 38
    then 1
    else 0

packet-IsBytes : IsBytes packet
packet-IsBytes j = ground arith

abbrev pub update : Msg
update = record blank {
  flags = record no_flags { rd = true };
  mem = packet;
  pktlen = 41;
  bufsiz = 41;
}

update-Readable : Readable update (23 ∷ 32 ∷ []) as_path_code
unfolding is_idle is_extended attr_code_index
update-Readable = record {
  typed = refl;
  no_error = refl;
  reading = refl;
  not_writing = refl;
  idle = refl;
  unset = refl;
  attribs = attr (omega arith) (attr (omega arith) no_more);
  small = omega arith;
  bytes = packet-IsBytes;
}

startaspath-read_path_example :
    Returns (startaspath heap update >>= λ _ m. read_path 3 m) (ReadPath packet 2 (26 ∷ []))
unfolding is_extended
startaspath-read_path_example =
    startaspath-read_path heap update (23 ∷ 32 ∷ []) (26 ∷ []) 23 3 update-Readable refl
      (refl, refl) (omega arith) (omega arith)

-- The iterator where `startrealaspath` counts.
abbrev pub counting : Msg
counting = record update {
  flags = record no_flags { rd = true; aspath = true };
  path = record (blank.path) {
    asptr = 26;
    asend = 32;
    ascount = ascount_all;
    asp = record { as_size = 2; type = 0; segno = 2 ^ 32 - 1; as_number = 0 };
  };
}

counting-Paths : Paths counting 32 (26 ∷ []) (35 ∷ [])
unfolding is_extended
counting-Paths = record {
  no_error = refl;
  open_ = refl;
  bytes = packet-IsBytes;
  two_bytes = refl;
  at_header = refl;
  no_segment = refl;
  all_ases = refl;
  segments = (refl, refl);
  segments4 = (refl, refl);
  plain = (refl, tt);
  plain4 = (refl, tt);
  few = omega arith;
}

merge_as4path-read_path_example :
    Returns
      (merge_as4path counting 32 >>= λ _ m. read_path 4 m)
      (Read (real_entries counting 2 (26 ∷ []) (35 ∷ [])))
merge_as4path-read_path_example =
    merge_as4path-read_path counting 32 (26 ∷ []) (35 ∷ []) 4 counting-Paths (omega arith)

enter_segment_example :
    (enter_segment 8 counting ≡ enter_segment 9 counting) × (enter_segment 8 counting ≢ fault)
enter_segment_example = enter_segment_fuel 8 9 counting (omega arith) (omega arith)

-- Two communities and two bytes more.
abbrev communities : Msg
communities = record update {
  flags = record no_flags { rd = true; community = true };
  ccode = community_code;
  uptr = 26;
  uend = 36;
}

nextcommunity_example : Returns (read_communities 3 communities) (ReadCommunities communities 2 2)
nextcommunity_example =
    nextcommunity_all 2 3 2 communities refl refl (omega arith) (omega arith) (omega arith)
      (omega arith)
