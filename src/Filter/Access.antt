-- ===== src/Filter/Access.antt =====
-- The instructions of the filter machine that read the packet: attributes, prefixes against the
-- current tries, and the functions that store or push the prefixes of a field
-- (src/ubgp/filterintrin.c, src/ubgp/filterintrin.h).
use ubgpsuite.Base.{
  ℕ, zero, suc, ◌-◌, ◌/◌, ◌%◌, Bool, true, false, ◌==◌, if◌then◌else◌, Option, none, some,
}
use ubgpsuite.NetAddr.{Netaddr, Netaddrap, unspec, inet, inet6}
use ubgpsuite.Attr.Header.{
  origin_code, as_path_code, next_hop_code, atomic_aggregate_code, aggregator_code, community_code,
  mp_reach_nlri_code, mp_unreach_nlri_code, extended_community_code, as4_path_code,
  as4_aggregator_code, large_community_code, attr_code,
}
use ubgpsuite.Bgp.State.{Msg, Heap, Err, Outcome, bgp_update}
use ubgpsuite.Bgp.Message.{getbgptype}
use ubgpsuite.Bgp.Fields.{endbgpattribs}
use ubgpsuite.Bgp.Write.{
  startwithdrawn, startallwithdrawn, startbgpattribs, startnlri, startallnlri,
}
use ubgpsuite.Bgp.Read.{nextbgpattrib, nextnlri, nextwithdrawn}
use ubgpsuite.Bgp.Lookup.{
  getbgporigin, getbgpnexthop, getbgpaggregator, getbgpas4aggregator, getbgpatomicaggregate,
  getbgpaspath, getbgpas4path, getbgpmpreach, getbgpmpunreach, getbgpcommunities,
  getbgplargecommunities, getbgpexcommunities,
}
use ubgpsuite.Bgp.Path.{startaspath, startas4path, startrealaspath}
use ubgpsuite.Trie.Store.{Trie}
use ubgpsuite.Trie.Search.{patsearchexact, patissubnetof}
use ubgpsuite.Trie.Walk.{patissupernetof, patisrelatedof}
use ubgpsuite.Filter.State.{
  Settle, settle_withdrawn, settle_nlri, settle_aspath, Vm, Run, done, stuck, Exec, ◌>>=◌, Env,
  on_bgp, walked, vm_abort, vm_pushvalue, truth, vm_packet_mismatch, vm_bad_accessor,
  vm_surprising_bytes,
}
use ubgpsuite.Filter.Basic.{vm_exec_settle}

-- `getbgptype(vm->bgp) == BGP_UPDATE`.
abbrev pub is_update : Msg → Bool
is_update m = elim (getbgptype m) [ none ↦ false | some ty ↦ ty == bgp_update ]

-- The check that these instructions begin with.
abbrev pub on_update {ℓ} : {A : Type ℓ} → Vm → (Vm → Run A) → Run A
on_update vm k = if is_update vm.bgp then k vm else vm_abort vm_packet_mismatch vm

-- The plain iteration of `vm_exec_hasattr`.
unfoldable pub find_attr : ℕ → ℕ → Vm → Run (Option ℕ)
find_attr zero code vm = stuck
find_attr (suc fuel) code vm = on_bgp nextbgpattrib vm >>= λ r vm. elim r [
  | none ↦ done none vm
  | some a ↦ if attr_code vm.bgp.mem a == code then done (some a) vm else find_attr fuel code vm
]

-- The function that looks for a notable attribute.
unfoldable pub notable : ℕ → Option (Heap → Msg → Outcome (Option ℕ))
notable code =
    if code == origin_code
    then some getbgporigin
    else if code == next_hop_code
    then some getbgpnexthop
    else if code == aggregator_code
    then some getbgpaggregator
    else if code == as4_aggregator_code
    then some getbgpas4aggregator
    else if code == atomic_aggregate_code
    then some getbgpatomicaggregate
    else if code == as_path_code
    then some getbgpaspath
    else if code == as4_path_code
    then some getbgpas4path
    else if code == mp_reach_nlri_code
    then some getbgpmpreach
    else if code == mp_unreach_nlri_code
    then some getbgpmpunreach
    else if code == community_code
    then some getbgpcommunities
    else if code == extended_community_code
    then some getbgpexcommunities
    else if code == large_community_code
    then some getbgplargecommunities
    else none

unfoldable pub look_up : Env → ℕ → Vm → Run (Option ℕ)
look_up env code vm = elim (notable code) [
  | some get ↦ on_bgp (get env.heap) vm
  | none ↦ on_bgp (startbgpattribs env.heap) vm >>= λ _ vm.
      find_attr env.rounds code vm >>= λ r vm. on_bgp endbgpattribs vm >>= λ _ vm. done r vm
]

unfoldable pub vm_exec_hasattr : Env → ℕ → Vm → Exec
vm_exec_hasattr env code vm = on_update vm λ vm. vm_exec_settle vm >>= λ _ vm.
    look_up env code vm >>= λ r vm.
    vm_pushvalue env (truth (elim r [ none ↦ false | some a ↦ true ])) vm

-- Accessors are bits: NLRI 1, WITHDRAWN 2, ALL 4, SETTLE 128; and AS_PATH 1, AS4_PATH 2,
-- REAL_AS_PATH 4. A mode has 8 bits.
abbrev pub wants_settle : ℕ → Bool
wants_settle mode = mode / 128 % 2 == 1

abbrev pub without_settle : ℕ → ℕ
without_settle mode = if wants_settle mode then mode - 128 else mode

abbrev pub settle_first : ℕ → Vm → Exec
settle_first mode vm = if wants_settle mode then vm_exec_settle vm else done tt vm

-- Start an iteration, and note what ends it.
abbrev pub start_with : (Msg → Outcome Err) → Settle → ℕ → Vm → Exec
start_with start end mode vm =
    on_bgp start vm >>= λ _ vm. done tt (record vm { settle_func = end; access_mask = mode })

unfoldable pub start_addrs : Env → ℕ → Vm → Exec
start_addrs env mode vm =
    let kind = without_settle mode in
    if kind == 6
    then start_with (startallwithdrawn env.heap) settle_withdrawn mode vm
    else if kind == 2
    then start_with (startwithdrawn env.heap) settle_withdrawn mode vm
    else if kind == 5
    then start_with startallnlri settle_nlri mode vm
    else if kind == 1
    then start_with startnlri settle_nlri mode vm
    else vm_abort vm_bad_accessor vm

unfoldable pub start_path : Env → ℕ → Vm → Exec
start_path env mode vm =
    let kind = without_settle mode in
    if kind == 1
    then start_with (startaspath env.heap) settle_aspath mode vm
    else if kind == 2
    then start_with (startas4path env.heap) settle_aspath mode vm
    else if kind == 4
    then start_with (startrealaspath env.heap) settle_aspath mode vm
    else vm_abort vm_bad_accessor vm

-- Both of the functions that prepare an access.
unfoldable pub prepare : (ℕ → Vm → Exec) → ℕ → Vm → Exec
prepare start mode vm =
    settle_first mode vm >>= λ _ vm. if vm.access_mask == mode then done tt vm else start mode vm

abbrev pub vm_prepare_addr_access : Env → ℕ → Vm → Exec
vm_prepare_addr_access env = prepare (start_addrs env)

abbrev pub vm_prepare_as_access : Env → ℕ → Vm → Exec
vm_prepare_as_access env = prepare (start_path env)

-- A test of a trie for a prefix.
abbrev pub TrieTest : Type 0
TrieTest = Env → Trie → Netaddr → Option Bool

abbrev pub test_exact : TrieTest
test_exact env t addr = elim (patsearchexact env.depth t addr) [
  | none ↦ none
  | some a ↦ some (if a == 0 then false else true)
]

abbrev pub test_subnet : TrieTest
test_subnet env = patissubnetof env.depth

abbrev pub test_supernet : TrieTest
test_supernet env = patissupernetof env.junk env.depth

abbrev pub test_related : TrieTest
test_related env = patisrelatedof env.junk env.depth

unfoldable pub test_addr : TrieTest → Env → Netaddr → Vm → Run Bool
test_addr test env addr vm = elim addr.family [
  | inet6 ↦ walked (test env (vm.tries vm.curtrie6) addr) vm
  | inet ↦ walked (test env (vm.tries vm.curtrie) addr) vm
  | unspec ↦ vm_abort vm_surprising_bytes vm
]

-- The next prefix of the field that an accessor names.
abbrev pub next_addr : Env → ℕ → Msg → Outcome (Option Netaddrap)
next_addr env access m = if access % 2 == 1 then nextnlri env.heap m else nextwithdrawn env.heap m

-- Whether a prefix that is left passes the test, up to the first one.
unfoldable pub scan_addrs : ℕ → TrieTest → Env → ℕ → Vm → Run Bool
scan_addrs zero test env access vm = stuck
scan_addrs (suc fuel) test env access vm = on_bgp (next_addr env access) vm >>= λ r vm. elim r [
  | none ↦ done false vm
  | some p ↦ test_addr test env p.pfx vm >>= λ found vm.
      if found then done true vm else scan_addrs fuel test env access vm
]

unfoldable pub match_addrs : TrieTest → Env → ℕ → Vm → Exec
match_addrs test env access vm = on_update vm λ vm. vm_prepare_addr_access env access vm >>= λ _ vm.
    scan_addrs env.rounds test env access vm >>= λ result vm. vm_pushvalue env (truth result) vm

abbrev pub vm_exec_exact : Env → ℕ → Vm → Exec
vm_exec_exact = match_addrs test_exact

abbrev pub vm_exec_subnet : Env → ℕ → Vm → Exec
vm_exec_subnet = match_addrs test_subnet

abbrev pub vm_exec_supernet : Env → ℕ → Vm → Exec
vm_exec_supernet = match_addrs test_supernet

abbrev pub vm_exec_related : Env → ℕ → Vm → Exec
vm_exec_related = match_addrs test_related
