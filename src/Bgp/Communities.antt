-- ===== src/Bgp/Communities.antt =====
-- Iterating the communities of an update (src/ubgp/bgp.c).
use ubgpsuite.Base.{ℕ, ◌+◌, true, ltb, ◌==◌, if◌then◌else◌, Mem, copy, get32, Option, none, some}
use ubgpsuite.Attr.Header.{
  getattrlen, getattrdata, community_code, extended_community_code, large_community_code,
}
use ubgpsuite.Bgp.State.{
  Msg, Err, noerr, einvop, ebadattr, Outcome, ret, Heap, ◌>>=◌, check_flags_r, check_type_flags,
  bgp_update,
}
use ubgpsuite.Bgp.Fields.{endpending, size_between}
use ubgpsuite.Bgp.Lookup.{getbgpcommunities, getbgpexcommunities, getbgplargecommunities}

-- What `nextcommunity` answers: the union `cbuf`, by the kind that is iterated. An extended community
-- is its eight bytes.
pub data Community : Type 0 where
  community : ℕ → Community
  excommunity : Mem → Community
  largecommunity : ℕ → ℕ → ℕ → Community

abbrev at_communities : Msg → ℕ → Option ℕ → Outcome Err
at_communities m code attr =
    let m' = record m { ccode = code; flags = record (m.flags) { community = true } } in
    elim attr [
      | none ↦ ret m'.err (record m' { ustart = 0; uptr = 0; uend = 0 })
      | some a ↦ ret noerr (record m' {
        ustart = a;
        uptr = getattrdata m.mem a;
        uend = getattrdata m.mem a + getattrlen m.mem a;
      })
    ]

unfoldable pub startcommunities : Heap → Msg → ℕ → Outcome Err
unfolding endpending getbgpcommunities getbgpexcommunities getbgplargecommunities
startcommunities heap m code =
    check_type_flags bgp_update (λ f. f.rd) m
      λ m. endpending m >>= λ _ m.
        if code == community_code
        then (getbgpcommunities heap m >>= λ attr m. at_communities m code attr)
        else if code == extended_community_code
        then (getbgpexcommunities heap m >>= λ attr m. at_communities m code attr)
        else if code == large_community_code
        then (getbgplargecommunities heap m >>= λ attr m. at_communities m code attr)
        else ret einvop (record m { err = einvop })

-- The size of a community of a kind, and the value that stands at an offset.
abbrev pub community_size : ℕ → ℕ
community_size code =
    if code == community_code then 4 else if code == extended_community_code then 8 else 12

abbrev pub community_at : Mem → ℕ → ℕ → Community
community_at m code p =
    if code == community_code
    then community (get32 m p)
    else if code == extended_community_code
    then excommunity (copy (λ j. 0) 0 m p 8)
    else largecommunity (get32 m p) (get32 m (p + 4)) (get32 m (p + 8))

unfoldable pub nextcommunity : Msg → Outcome (Option Community)
nextcommunity m =
    check_flags_r (λ f. f.community) (λ _. none) m
      λ m.
        let size = community_size m.ccode in
        if m.uptr == m.uend
        then ret none m
        else if ltb (size_between m.uptr m.uend) size
        then ret none (record m { err = ebadattr })
        else ret (some (community_at m.mem m.ccode m.uptr)) (record m { uptr = m.uptr + size })
