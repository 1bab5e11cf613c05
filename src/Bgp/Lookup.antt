-- ===== src/Bgp/Lookup.antt =====
-- The attributes that a message is asked for by name (src/ubgp/bgp.c).
use ubgpsuite.Base.{ℕ, Option, none, some, ◌==◌, if◌then◌else◌}
use ubgpsuite.Attr.Header.{
  as_path_code, origin_code, atomic_aggregate_code, aggregator_code, next_hop_code, community_code,
  mp_reach_nlri_code, mp_unreach_nlri_code, extended_community_code, as4_path_code,
  as4_aggregator_code, large_community_code, getaggregatoras,
}
use ubgpsuite.Bgp.State.{Msg, Outcome, ret, Heap, ◌>>=◌, check_type_flags_r, bgp_update}
use ubgpsuite.Bgp.Read.{seekbgpattr}

-- The AS number that stands for one that does not fit 16 bits.
abbrev pub as_trans : ℕ
as_trans = 23456

unfoldable pub getbgporigin : Heap → Msg → Outcome (Option ℕ)
getbgporigin heap m = seekbgpattr heap origin_code m

unfoldable pub getbgpnexthop : Heap → Msg → Outcome (Option ℕ)
getbgpnexthop heap m = seekbgpattr heap next_hop_code m

unfoldable pub getbgpaggregator : Heap → Msg → Outcome (Option ℕ)
getbgpaggregator heap m = seekbgpattr heap aggregator_code m

unfoldable pub getbgpas4aggregator : Heap → Msg → Outcome (Option ℕ)
getbgpas4aggregator heap m = seekbgpattr heap as4_aggregator_code m

unfoldable pub getbgpatomicaggregate : Heap → Msg → Outcome (Option ℕ)
getbgpatomicaggregate heap m = seekbgpattr heap atomic_aggregate_code m

unfoldable pub getbgpaspath : Heap → Msg → Outcome (Option ℕ)
getbgpaspath heap m = seekbgpattr heap as_path_code m

unfoldable pub getbgpas4path : Heap → Msg → Outcome (Option ℕ)
getbgpas4path heap m = seekbgpattr heap as4_path_code m

unfoldable pub getbgpmpreach : Heap → Msg → Outcome (Option ℕ)
getbgpmpreach heap m = seekbgpattr heap mp_reach_nlri_code m

unfoldable pub getbgpmpunreach : Heap → Msg → Outcome (Option ℕ)
getbgpmpunreach heap m = seekbgpattr heap mp_unreach_nlri_code m

unfoldable pub getbgpcommunities : Heap → Msg → Outcome (Option ℕ)
getbgpcommunities heap m = seekbgpattr heap community_code m

unfoldable pub getbgplargecommunities : Heap → Msg → Outcome (Option ℕ)
getbgplargecommunities heap m = seekbgpattr heap large_community_code m

unfoldable pub getbgpexcommunities : Heap → Msg → Outcome (Option ℕ)
getbgpexcommunities heap m = seekbgpattr heap extended_community_code m

-- The AGGREGATOR, or the AS4_AGGREGATOR where there is one and the AGGREGATOR has AS_TRANS.
unfoldable pub getrealbgpaggregator : Heap → Msg → Outcome (Option ℕ)
unfolding getbgpaggregator getbgpas4aggregator
getrealbgpaggregator heap m =
    check_type_flags_r bgp_update (λ f. f.rd) (λ _. none) m
      λ m. getbgpaggregator heap m >>= λ r m. elim r [
        | none ↦ ret none m
        | some aggr ↦
            let four_bytes = getbgpas4aggregator heap m >>= λ r4 m. elim r4 [
              | none ↦ ret (some aggr) m
              | some aggr4 ↦ ret (some aggr4) m
            ] in
            if getaggregatoras m.mem aggr == as_trans then four_bytes else ret (some aggr) m
      ]
