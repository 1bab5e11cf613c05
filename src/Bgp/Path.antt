-- ===== src/Bgp/Path.antt =====
-- Iterating the ASes of an AS path, with the real path of RFC 6793 (src/ubgp/bgp.c). The contents of
-- a segment are read without a bound: past the attribute they are what the packet holds there.
use ubgpsuite.Base.{
  ℕ, zero, suc, ◌+◌, ◌-◌, ◌*◌, ◌%◌, ◌^◌, Bool, true, false, ◌||◌, not, ltb, ◌==◌, if◌then◌else◌,
  Mem, get16, get32, Option, none, some,
}
use ubgpsuite.Attr.Header.{getattrlen, getattrdata, getaggregatoras}
use ubgpsuite.Bgp.State.{
  Msg, Flags, Err, AsPathent, PathIter, noerr, ebadattr, Outcome, ret, fault, Heap, ◌>>=◌,
  check_flags_r, check_type_flags, bgp_update,
}
use ubgpsuite.Bgp.Fields.{endpending}
use ubgpsuite.Bgp.Lookup.{
  as_trans, getbgpaspath, getbgpas4path, getbgpaggregator, getbgpas4aggregator,
}

-- AS_SEGMENT_SET.
abbrev pub as_segment_set : ℕ
as_segment_set = 1

-- -1 as an `int16_t` and as an `int`.
abbrev pub ascount_all : ℕ
ascount_all = 2 ^ 16 - 1

abbrev pub segno_start : ℕ
segno_start = 2 ^ 32 - 1

abbrev pub as_size_of : Flags → ℕ
as_size_of f = if f.asn32bit then 4 else 2

abbrev pub set_path : Msg → PathIter → Msg
set_path m path = record m { path = path }

abbrev pub with_aspath : Msg → Msg
with_aspath m = record m { flags = record (m.flags) { aspath = true } }

-- The iterator at the attribute, or the empty one (`asptr` and `asend` are NULL).
abbrev pub at_path : Msg → Option ℕ → ℕ → PathIter
at_path m attr as_size =
    let start = record (m.path) {
      segi = 0;
      seglen = 0;
      ascount = ascount_all;
      asp = record (m.path.asp) { as_size = as_size; segno = segno_start };
    } in
    elim attr [
      | none ↦ record start { asptr = 0; asend = 0 }
      | some a ↦ record start {
        asptr = getattrdata m.mem a;
        asend = getattrdata m.mem a + getattrlen m.mem a;
      }
    ]

unfoldable pub dostartaspath : Msg → Option ℕ → ℕ → Outcome Err
unfolding endpending
dostartaspath m attr as_size =
    endpending m >>= λ _ m. ret noerr (with_aspath (set_path m (at_path m attr as_size)))

unfoldable pub startaspath : Heap → Msg → Outcome Err
unfolding dostartaspath getbgpaspath
startaspath heap m =
    check_type_flags bgp_update (λ f. f.rd) m
      λ m.
        let as_size = as_size_of m.flags in
        getbgpaspath heap m >>= λ attr m. dostartaspath m attr as_size

unfoldable pub startas4path : Heap → Msg → Outcome Err
unfolding dostartaspath getbgpas4path
startas4path heap m =
    check_type_flags bgp_update (λ f. f.rd) m
      λ m. getbgpas4path heap m >>= λ attr m. dostartaspath m attr 4

-- The loops that count the ASes of a path, a set as one. The fuel is the size of the attribute, of
-- which each round takes at least two bytes. The answer is where the loop ends, and the count.
unfoldable pub count_ases : ℕ → Mem → ℕ → ℕ → ℕ → ℕ → ℕ × ℕ
count_ases zero mem ptr end size count = (ptr, count)
count_ases (suc fuel) mem ptr end size count =
    let n = if mem ptr == as_segment_set then 1 else mem (ptr + 1) in
    let rest = count_ases fuel mem (ptr + 2 + mem (ptr + 1) * size) end size (count + n) in
    if ltb ptr end then rest else (ptr, count)

-- The two counts, and the switch to AS4_PATH after the ASes that only AS_PATH has.
unfoldable pub merge_as4path : Msg → ℕ → Outcome Err
unfolding count_ases
merge_as4path m as4p =
    let n = getattrlen m.mem as4p in
    let start = getattrdata m.mem as4p in
    let (ptr, ascount) =
      count_ases (suc (m.path.asend - m.path.asptr)) m.mem m.path.asptr m.path.asend 2 0 in
    let (ptr4, as4count) = count_ases (suc n) m.mem start (start + n) 4 0 in
    if ltb m.path.asend ptr
    then ret ebadattr (record m { err = ebadattr })
    else if ltb (start + n) ptr4
    then ret ebadattr (record m { err = ebadattr })
    else if ltb ascount as4count
    then ret noerr m
    else ret noerr (record m {
      path = record (m.path) {
        as4ptr = start;
        as4end = start + n;
        ascount = (ascount - as4count) % 2 ^ 16;
      };
      flags = record (m.flags) { realaspath = true };
    })

-- The part of `startrealaspath` that looks for AS4_PATH.
unfoldable pub find_as4path : Heap → Msg → Outcome Err
unfolding merge_as4path getbgpaggregator getbgpas4aggregator getbgpas4path
find_as4path heap m = getbgpaggregator heap m >>= λ aggr m.
    getbgpas4aggregator heap m >>= λ aggr4 m.
    let ignored : Bool = elim aggr [
      | none ↦ false
      | some a ↦ elim aggr4 [ none ↦ false | some _ ↦ not (getaggregatoras m.mem a == as_trans) ]
    ] in
    if ignored
    then ret noerr m
    else (getbgpas4path heap m >>= λ as4p m. elim as4p [
      | none ↦ ret noerr m
      | some p ↦ merge_as4path m p
    ])

unfoldable pub startrealaspath : Heap → Msg → Outcome Err
unfolding endpending getbgpaspath find_as4path
startrealaspath heap m =
    check_type_flags bgp_update (λ f. f.rd) m
      λ m. endpending m >>= λ _ m.
        let size = as_size_of m.flags in
        let m' = with_aspath (
          set_path m (record (m.path) {
            seglen = 0;
            segi = 0;
            ascount = ascount_all;
            asp = record (m.path.asp) { as_size = size; segno = segno_start };
          })) in
        getbgpaspath heap m' >>= λ asp m. elim asp [
          | none ↦ ret noerr (set_path m (record (m.path) { asptr = 0; asend = 0 }))
          | some a ↦
              let m'' = set_path m (record (m.path) {
                asptr = getattrdata m.mem a;
                asend = getattrdata m.mem a + getattrlen m.mem a;
              }) in
              if size == 4 then ret noerr m'' else find_as4path heap m''
        ]

-- The loop that enters the next segment that has an AS. The fuel is the size of what is left of the
-- attribute, of which each round takes two bytes. The answer says whether there is one.
unfoldable pub enter_segment : ℕ → Msg → Outcome Bool
enter_segment zero m = fault
enter_segment (suc fuel) m =
    let p = m.path in
    let next = enter_segment fuel (
      set_path m (record p {
        asptr = p.asptr + 2;
        seglen = m.mem (p.asptr + 1);
        segi = 0;
        asp = record (p.asp) { type = m.mem p.asptr; segno = (p.asp.segno + 1) % 2 ^ 32 };
      })) in
    if not (p.segi == p.seglen)
    then ret true m
    else if p.asptr == p.asend
    then ret false m
    else if ltb p.asend (p.asptr + 2)
    then ret false (record m { err = ebadattr })
    else next

-- The AS at `asptr`, which moves past it.
abbrev pub read_as : Msg → PathIter
read_as m =
    let p = m.path in
    record p {
      asptr = p.asptr + p.asp.as_size;
      segi = (p.segi + 1) % 256;
      asp = record (p.asp) {
        as_number = if p.asp.as_size == 2 then get16 m.mem p.asptr else get32 m.mem p.asptr;
      };
    }

-- One less to take from AS_PATH, but for the elements of a set after the first.
abbrev pub take_as : PathIter → PathIter
take_as p = record p {
  ascount =
      (p.ascount + 2 ^ 16 - (if not (p.asp.type == as_segment_set) || p.segi == 1 then 1 else 0))
      % 2 ^ 16;
}

-- The switch to AS4_PATH.
abbrev pub switch_path : Msg → PathIter → Msg
switch_path m p = record m {
  path = record p {
    asptr = p.as4ptr;
    asend = p.as4end;
    asp = record (p.asp) { as_size = 4 };
    seglen = 0;
    segi = 0;
    ascount = ascount_all;
  };
  flags = record (m.flags) { realaspath = false };
}

-- What follows the loop, with the call of the function itself as `again`.
unfoldable pub path_taken :
    (Msg → Outcome (Option AsPathent)) → Bool → Msg → Outcome (Option AsPathent)
path_taken again more m =
    let p = read_as m in
    if not more
    then ret none m
    else if p.ascount == 0
    then again (switch_path m p)
    else ret (some p.asp) (set_path m (take_as p))

-- `nextaspath`, with its call of itself as `again`. An error of the message is BGP_EBADATTR here.
unfoldable pub path_round : (Msg → Outcome (Option AsPathent)) → Msg → Outcome (Option AsPathent)
unfolding enter_segment path_taken
path_round again m =
    check_flags_r (λ f. f.aspath) (λ _. none) m
      λ m. enter_segment (suc (suc (m.path.asend - m.path.asptr))) m >>= path_taken again

-- After the switch `ascount` is -1, so that the second call makes no third one.
unfoldable pub nextaspath : Msg → Outcome (Option AsPathent)
unfolding path_round
nextaspath m = path_round (path_round (λ _. fault)) m
