-- ===== src/Bgp/Fields.antt =====
-- The fields of a packet and how an operation on one of them ends (src/ubgp/bgp.c). A pointer and a
-- `size_t` that the source returns together are a pair, `none` where the source returns NULL; a
-- caller that then uses what was not set has a fault.
use ubgpsuite.Base.{
  ℕ, ◌+◌, ◌-◌, ◌%◌, ◌^◌, true, false, ◌||◌, not, ltb, if◌then◌else◌, Mem, put16, get16, Option,
  none, some,
}
use ubgpsuite.Bgp.State.{
  Msg, Err, noerr, einvop, Outcome, ret, fault, Heap, ◌>>=◌, check_flags_r, check_type_r,
  check_flags, store, store_at, bgpensure, bgp_open, bgp_update, base_packet_length, length_offset,
  params_length_offset, params_offset,
}

-- `end - from` as a 64-bit `size_t`.
abbrev pub size_between : ℕ → ℕ → ℕ
size_between from end = (end + 2 ^ 64 - from) % 2 ^ 64

abbrev pub need {ℓ κ} : {A : Type ℓ} {B : Type κ} → Option A → (A → Outcome B) → Outcome B
need none k = fault
need (some a) k = k a

unfoldable pub getbgpparams : Msg → Outcome (Option (ℕ × ℕ))
getbgpparams m =
    check_type_r bgp_open (λ _. none) m
      λ m. ret (some (params_offset, m.mem params_length_offset)) m

unfoldable pub getwithdrawn : Msg → Outcome (Option (ℕ × ℕ))
getwithdrawn m =
    check_type_r bgp_update (λ _. none) m
      λ m. ret (some (base_packet_length + 2, get16 m.mem base_packet_length)) m

unfoldable pub getbgpattribs : Msg → Outcome (Option (ℕ × ℕ))
unfolding getwithdrawn
getbgpattribs m =
    check_type_r bgp_update (λ _. none) m
      λ m. getwithdrawn m >>= λ r m.
        need r λ w. let ptr = w.0 + w.1 in ret (some (ptr + 2, get16 m.mem ptr)) m

unfoldable pub getnlri : Msg → Outcome (Option (ℕ × ℕ))
unfolding getbgpattribs
getnlri m =
    check_type_r bgp_update (λ _. none) m
      λ m. getbgpattribs m >>= λ r m.
        need r λ a. let ptr = a.0 + a.1 in ret (some (ptr, size_between ptr m.pktlen)) m

-- `bgprestore`: the preserved bytes go back behind `uptr`.
pub bgprestore {ℓ} : {A : Type ℓ} → Msg → (Msg → Outcome A) → Outcome A
bgprestore m k =
    if ltb m.pktlen m.uptr then fault else store_at m m.uptr m.pres (m.pktlen - m.uptr) k

-- The length of the field, written in front of it.
pub put_field_len {ℓ} : {A : Type ℓ} → Msg → (Msg → Outcome A) → Outcome A
put_field_len m k = store_at m (m.ustart - 2) (put16 (λ j. 0) 0 (size_between m.ustart m.uptr)) 2 k

abbrev pub clear_withdrn : Msg → Msg
clear_withdrn m = record m { flags = record (m.flags) { withdrn = false; allwithdrn = false } }

abbrev pub clear_pattr : Msg → Msg
clear_pattr m = record m { flags = record (m.flags) { pattr = false } }

abbrev pub clear_nlri : Msg → Msg
clear_nlri m = record m { flags = record (m.flags) { nlri = false; allnlri = false } }

unfoldable pub endwithdrawn : Msg → Outcome Err
unfolding bgprestore put_field_len
endwithdrawn m =
    check_flags (λ f. f.withdrn) m
      λ m.
        if m.flags.wr
        then bgprestore m (λ m. put_field_len m (λ m. ret noerr (clear_withdrn m)))
        else ret noerr (clear_withdrn m)

unfoldable pub endbgpattribs : Msg → Outcome Err
unfolding bgprestore put_field_len
endbgpattribs m =
    check_flags (λ f. f.pattr) m
      λ m.
        if m.flags.wr
        then bgprestore m (λ m. put_field_len m (λ m. ret noerr (clear_pattr m)))
        else ret noerr (clear_pattr m)

unfoldable pub endnlri : Msg → Outcome Err
endnlri m = check_flags (λ f. f.nlri) m λ m. ret m.err (clear_nlri m)

unfoldable pub endaspath : Msg → Outcome Err
endaspath m =
    check_flags (λ f. f.aspath) m
      λ m. ret noerr (record m { flags = record (m.flags) { aspath = false; realaspath = false } })

unfoldable pub endnhop : Msg → Outcome Err
endnhop m =
    check_flags (λ f. f.nhop) m
      λ m. ret noerr (record m { flags = record (m.flags) { nhop = false } })

unfoldable pub endcommunities : Msg → Outcome Err
endcommunities m =
    check_flags (λ f. f.community) m
      λ m. ret m.err (record m { flags = record (m.flags) { community = false } })

-- The length of the last parameter, and of all of them, as bytes.
unfoldable pub put_params_len : Msg → (Msg → Outcome Err) → Outcome Err
unfolding getbgpparams
put_params_len m k =
    store m (m.params + 1) (λ _. (size_between (m.params + 2) m.pptr) % 256) 1
      λ m. getbgpparams m >>= λ r m. need r λ base.
        let n = size_between base.0 m.pptr in
        if ltb 0xff n
        then ret einvop (record m { err = einvop })
        else store m params_length_offset (λ _. n) 1 k

abbrev pub clear_pm : Msg → Msg
clear_pm m = record m { flags = record (m.flags) { pm = false } }

unfoldable pub endbgpcaps : Msg → Outcome Err
unfolding put_params_len
endbgpcaps m =
    check_flags (λ f. f.pm) m
      λ m.
        if m.flags.wr
        then put_params_len m (λ m. ret noerr (clear_pm m))
        else ret noerr (clear_pm m)

-- `endpending`: close the field that is open, if there is one.
unfoldable pub endpending : Msg → Outcome Err
unfolding endbgpcaps endwithdrawn endbgpattribs endnlri endaspath endcommunities endnhop
endpending m =
    let f = m.flags in
    if not (f.pm || f.withdrn || f.pattr || f.nlri || f.aspath || f.nhop || f.community)
    then ret m.err m
    else if f.pm
    then endbgpcaps m
    else if f.withdrn
    then endwithdrawn m
    else if f.pattr
    then endbgpattribs m
    else if f.nlri
    then endnlri m
    else if f.aspath
    then endaspath m
    else if f.community
    then endcommunities m
    else endnhop m

-- The packet and its length, or NULL where the message is not open for writing.
unfoldable pub bgpfinish : Msg → Outcome (Option ℕ)
unfolding endpending
bgpfinish m =
    check_flags_r (λ f. f.wr) (λ _. none) m
      λ m. endpending m >>= λ _ m. store m length_offset (put16 (λ j. 0) 0 m.pktlen) 2 λ m.
        ret (some m.pktlen) (record m {
          offtab = if m.flags.presofftab then m.offtab else (λ i. 0);
          flags = record (m.flags) { wr = false; presofftab = false; rd = true };
        })

-- The answer of `bgpensure` is not looked at.
unfoldable pub setbgpdata : Heap → Msg → Mem → ℕ → Outcome Err
unfolding endpending
setbgpdata heap m bytes size =
    check_flags (λ f. f.wr) m
      λ m. endpending m >>= λ _ m.
        let m' = (bgpensure heap m (size + base_packet_length)).0 in
        store m' base_packet_length bytes size
          λ m. ret m.err (record m { pktlen = (base_packet_length + size) % 2 ^ 16 })
