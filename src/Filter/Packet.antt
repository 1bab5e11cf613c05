-- ===== src/Filter/Packet.antt =====
-- The functions of the filter machine that store or push the prefixes of a field of the packet
-- (src/ubgp/filterintrin.h).
use ubgpsuite.Base.{ℕ, zero, suc, Bool, true, false, if◌then◌else◌, Option, none, some}
use ubgpsuite.NetAddr.{Netaddr, Netaddrap}
use ubgpsuite.Bgp.State.{Msg, Err, Outcome, is_err}
use ubgpsuite.Bgp.Fields.{endwithdrawn, endnlri}
use ubgpsuite.Bgp.Write.{startwithdrawn, startallwithdrawn, startnlri, startallnlri}
use ubgpsuite.Bgp.Read.{nextnlri, nextwithdrawn}
use ubgpsuite.Filter.State.{
  Vm, done, stuck, Exec, ◌>>=◌, Env, on_bgp, vm_abort, vm_pushaddr, vm_bad_packet,
}
use ubgpsuite.Filter.Basic.{insert_addr}
use ubgpsuite.Filter.Access.{on_update}

-- What is done with each prefix of a field, until none is left.
unfoldable pub each_addr :
    ℕ → (Msg → Outcome (Option Netaddrap)) → (Netaddr → Vm → Exec) → Vm → Exec
each_addr zero next use_addr vm = stuck
each_addr (suc fuel) next use_addr vm = on_bgp next vm >>= λ r vm. elim r [
  | none ↦ done tt vm
  | some p ↦ use_addr p.pfx vm >>= λ _ vm. each_addr fuel next use_addr vm
]

-- The eight functions of the table start a field, go through it, and end it.
unfoldable pub through :
    Env
    → (Msg → Outcome Err)
    → (Msg → Outcome (Option Netaddrap))
    → (Msg → Outcome Err)
    → (Netaddr → Vm → Exec)
    → Vm
    → Exec
through env start next end use_addr vm = on_update vm λ vm. on_bgp start vm >>= λ _ vm.
    each_addr env.rounds next use_addr vm >>= λ _ vm.
    on_bgp end vm >>= λ err vm. if is_err err then vm_abort vm_bad_packet vm else done tt vm

abbrev pub through_withdrawn : Env → Bool → (Netaddr → Vm → Exec) → Vm → Exec
through_withdrawn env all =
    through env (if all then startallwithdrawn env.heap else startwithdrawn env.heap)
      (nextwithdrawn env.heap) endwithdrawn

abbrev pub through_nlri : Env → Bool → (Netaddr → Vm → Exec) → Vm → Exec
through_nlri env all =
    through env (if all then startallnlri else startnlri) (nextnlri env.heap) endnlri

abbrev pub vm_exec_withdrawn_insert : Env → Vm → Exec
vm_exec_withdrawn_insert env = through_withdrawn env false (insert_addr env)

abbrev pub vm_exec_withdrawn_accumulate : Env → Vm → Exec
vm_exec_withdrawn_accumulate env = through_withdrawn env false (vm_pushaddr env)

abbrev pub vm_exec_all_withdrawn_insert : Env → Vm → Exec
vm_exec_all_withdrawn_insert env = through_withdrawn env true (insert_addr env)

abbrev pub vm_exec_all_withdrawn_accumulate : Env → Vm → Exec
vm_exec_all_withdrawn_accumulate env = through_withdrawn env true (vm_pushaddr env)

abbrev pub vm_exec_nlri_insert : Env → Vm → Exec
vm_exec_nlri_insert env = through_nlri env false (insert_addr env)

abbrev pub vm_exec_nlri_accumulate : Env → Vm → Exec
vm_exec_nlri_accumulate env = through_nlri env false (vm_pushaddr env)

abbrev pub vm_exec_all_nlri_insert : Env → Vm → Exec
vm_exec_all_nlri_insert env = through_nlri env true (insert_addr env)

abbrev pub vm_exec_all_nlri_accumulate : Env → Vm → Exec
vm_exec_all_nlri_accumulate env = through_nlri env true (vm_pushaddr env)
