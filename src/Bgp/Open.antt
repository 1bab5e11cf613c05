-- ===== src/Bgp/Open.antt =====
-- Open messages: their fixed fields, and the capabilities in their parameters (src/ubgp/bgp.c).
use ubgpsuite.Base.{
  ℕ, zero, suc, ◌+◌, ◌-◌, ◌%◌, ◌^◌, Bool, true, ◌&&◌, ltb, leb, ◌==◌, if◌then◌else◌, Mem, put8,
  put16, put32, get16, get32, Option, none, some,
}
use ubgpsuite.Bgp.State.{
  Msg, Err, Open, noerr, einvop, ebadparamlen, Outcome, ret, fault, ◌>>=◌, check_flags_r,
  check_type_flags_r, check_type_flags, check_flags, check_type, store, bgp_open, version_offset,
  hold_time_offset, my_as_offset, iden_offset, params_offset,
}
use ubgpsuite.Bgp.Fields.{need, getbgpparams, endpending}

-- `none` is NULL.
unfoldable pub getbgpopen : Msg → Outcome (Option Open)
getbgpopen m =
    check_type_flags_r bgp_open (λ f. f.rd) (λ _. none) m
      λ m.
        ret
          (some (record {
            version = m.mem version_offset;
            hold_time = get16 m.mem hold_time_offset;
            my_as = get16 m.mem my_as_offset;
            iden = get32 m.mem iden_offset;
          }))
          m

-- The fields lie in the part of the packet that is always there.
unfoldable pub setbgpopen : Msg → Open → Outcome Err
setbgpopen m op =
    check_type_flags bgp_open (λ f. f.wr) m
      λ m.
        let version = put8 m.mem version_offset op.version in
        let hold_time = put16 version hold_time_offset op.hold_time in
        let my_as = put16 hold_time my_as_offset op.my_as in
        ret noerr (record m { mem = put32 my_as iden_offset op.iden })

-- The length goes to PARAM_LENGTH_OFFSET, which is 1.
unfoldable pub setbgpparams : Msg → Mem → ℕ → Outcome Err
setbgpparams m bytes n =
    check_type_flags bgp_open (λ f. f.wr) m
      λ m.
        if ltb 0xff n
        then ret einvop (record m { err = einvop })
        else store m 1 (λ _. n) 1
            λ m.
              store m params_offset bytes n λ m. ret noerr (record m { pktlen = params_offset + n })

unfoldable pub startbgpcaps : Msg → Outcome Err
unfolding endpending getbgpparams
startbgpcaps m = check_type bgp_open m λ m. endpending m >>= λ _ m.
    getbgpparams (record m { flags = record (m.flags) { pm = true } }) >>= λ r m.
    let base : ℕ = elim r [ none ↦ 0 | some p ↦ p.0 ] in
    ret noerr (record m { params = base; pptr = base })

-- The search for the next parameter with capabilities: `ptr` runs over the parameters while it
-- stands at the head of one. The answer is where the capability stands and where its parameter
-- ends, or nothing at the end of the parameters, with whether that was overrun.
pub data Search : Type 0 where
  found : ℕ → ℕ → ℕ → Search
  ended : Bool → ℕ → Search
  unfinished : Search

-- `end` moves on from the parameter that the search began in. Each round but the first takes at
-- least two bytes, so the bytes left and two more are enough fuel.
unfoldable pub search_caps : ℕ → Mem → ℕ → ℕ → ℕ → Search
search_caps zero mem limit ptr end = unfinished
search_caps (suc fuel) mem limit ptr end =
    let next = search_caps fuel mem limit end (end + 2 + mem (end + 1)) in
    if leb limit ptr
    then ended (ltb limit ptr) ptr
    else if mem ptr == 2
    then found (ptr + 2) end ptr
    else next

unfoldable pub nextbgpcap : Msg → Outcome (Option ℕ)
unfolding getbgpparams search_caps
nextbgpcap m =
    check_flags_r (λ f. f.rd && f.pm) (λ _. none) m
      λ m. getbgpparams m >>= λ r m. need r λ p.
        let limit = p.0 + p.1 in
        let end = m.params + 2 + m.mem (m.params + 1) in
        let ptr = m.pptr in
        let params = if ptr == end then end else m.params in
        let search =
          if ptr == params
          then search_caps (suc (suc (limit - ptr))) m.mem limit ptr end
          else found ptr end params in
        elim search [
          | unfinished ↦ fault
          | ended over at ↦ ret none (
              if over
              then record m { params = at; err = ebadparamlen }
              else record m { params = at })
          | found cap end' params' ↦
              let m' = record m { params = params' } in
              if ltb end' (cap + m.mem (cap + 1) + 2)
              then ret none (record m' { err = ebadparamlen })
              else ret (some cap) (record m' { pptr = cap + 2 + m.mem (cap + 1) })
        ]

-- The first capability of a parameter is preceded by the parameter's header.
unfoldable pub putbgpcap : Msg → Mem → Outcome Err
putbgpcap m cap =
    check_flags (λ f. f.wr && f.pm) m
      λ m.
        let first = m.pptr == m.params in
        let n = 2 + cap 1 in
        let rest = λ (ptr : ℕ) (m : Msg).
          if ltb 0xff n
          then ret einvop (record m { err = einvop })
          else store m ptr cap n
              λ m. ret noerr (record m { pktlen = (m.pktlen + n) % 2 ^ 16; pptr = ptr + n }) in
        if first
        then (store m m.pptr (put8 (λ j. 0) 0 2) 2
            λ m. rest (m.pptr + 2) (record m { pktlen = (m.pktlen + 2) % 2 ^ 16 }))
        else rest m.pptr m
