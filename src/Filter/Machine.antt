-- ===== src/Filter/Machine.antt =====
-- One instruction of the filter machine (src/ubgp/filterpacket.c).
use ubgpsuite.Base.{ℕ, ◌+◌, ◌-◌, ◌%◌, ◌^◌, leb, ◌==◌, if◌then◌else◌, none, some}
use ubgpsuite.Filter.State.{
  vm_func_undefined, vm_illegal_opcode, vm_spurious_endblk, value_cell, value_of, Func,
  withdrawn_insert, withdrawn_accumulate, all_withdrawn_insert, all_withdrawn_accumulate,
  nlri_insert, nlri_accumulate, all_nlri_insert, all_nlri_accumulate, user_func, Vm, Run, done,
  Exec, ◌>>=◌, Env, vm_abort, vm_pushvalue, vm_peek, set_top,
}
use ubgpsuite.Filter.Basic.{
  vm_exec_loadk, vm_exec_break, vm_exec_not, vm_exec_store, vm_exec_discard, vm_exec_clrtrie,
  vm_exec_clrtrie6, vm_exec_settrie, vm_exec_settrie6, vm_exec_ascmp, vm_exec_addrcmp,
  vm_exec_pfxcmp, vm_exec_pfxcontains, vm_exec_addrcontains, vm_exec_ascontains, vm_exec_settle,
  vm_exec_unpack,
}
use ubgpsuite.Filter.Access.{
  vm_exec_hasattr, vm_exec_exact, vm_exec_subnet, vm_exec_supernet, vm_exec_related,
}
use ubgpsuite.Filter.Packet.{
  vm_exec_withdrawn_insert, vm_exec_withdrawn_accumulate, vm_exec_all_withdrawn_insert,
  vm_exec_all_withdrawn_accumulate, vm_exec_nlri_insert, vm_exec_nlri_accumulate,
  vm_exec_all_nlri_insert, vm_exec_all_nlri_accumulate,
}
use ubgpsuite.Filter.Paths.{
  vm_exec_aspstarts, vm_exec_aspexact, vm_exec_aspmatch, vm_exec_aspends, vm_exec_commexact,
}
use ubgpsuite.Filter.Segments.{vm_extendarg, shift_in}
use ubgpsuite.Filter.Opcodes.{
  Opcode, nop, blk, endblk, load, loadk, unpack, exarg, store, discard, not_, cpass, cfail, settle,
  hasattr, exact, subnet, supernet, related, pfxcontains, addrcontains, ascontains, aspmatch,
  aspstarts, aspends, aspexact, commexact, call, settrie, settrie6, clrtrie, clrtrie6, pfxcmp,
  addrcmp, ascmp, sigill,
}

-- A function of the table.
unfoldable pub run_func : Env → Func → Vm → Exec
run_func env withdrawn_insert = vm_exec_withdrawn_insert env
run_func env withdrawn_accumulate = vm_exec_withdrawn_accumulate env
run_func env all_withdrawn_insert = vm_exec_all_withdrawn_insert env
run_func env all_withdrawn_accumulate = vm_exec_all_withdrawn_accumulate env
run_func env nlri_insert = vm_exec_nlri_insert env
run_func env nlri_accumulate = vm_exec_nlri_accumulate env
run_func env all_nlri_insert = vm_exec_all_nlri_insert env
run_func env all_nlri_accumulate = vm_exec_all_nlri_accumulate env
run_func env (user_func k) = env.user k

abbrev pub vm_funcs_count : ℕ
vm_funcs_count = 25

unfoldable pub exec_call : Env → ℕ → Vm → Exec
exec_call env arg vm =
    if leb vm_funcs_count arg
    then vm_abort vm_func_undefined vm
    else elim (vm.funcs arg) [ none ↦ vm_abort vm_func_undefined vm | some f ↦ run_func env f vm ]

-- Where an instruction leads: to the next one, with the extended argument, or to the label `done`.
pub data Flow : Type 0 where
  next : ℕ → Flow
  to_done : Flow

-- An instruction that keeps `exarg`, and one that uses it up.
abbrev pub keeping : ℕ → Exec → Run Flow
keeping ex r = r >>= λ _ vm. done (next ex) vm

-- The rest of CPASS and CFAIL where the condition holds.
abbrev pub leave_blk : ℕ → Vm → Run Flow
leave_blk ex vm =
    if vm.curblk == 0 then done to_done vm else (vm_exec_break vm >>= λ _ vm. done (next ex) vm)

abbrev pub drop_top : Vm → Vm
drop_top vm = record vm { si = (vm.si + 2 ^ 16 - 1) % 2 ^ 16 }

-- The body of an instruction, with its own argument `own`.
unfoldable pub exec : Env → Opcode → ℕ → ℕ → Vm → Run Flow
exec env nop own ex vm = done (next ex) vm
exec env blk own ex vm = done (next ex) (record vm { curblk = (vm.curblk + 1) % 2 ^ 16 })
exec env endblk own ex vm =
    if vm.curblk == 0
    then vm_abort vm_spurious_endblk vm
    else done (next ex) (record vm { curblk = vm.curblk - 1 })
exec env load own ex vm = keeping 0 (vm_pushvalue env (vm_extendarg own ex) vm)
exec env loadk own ex vm = keeping 0 (vm_exec_loadk env (vm_extendarg own ex) vm)
exec env unpack own ex vm = keeping ex (vm_exec_unpack env vm)
exec env exarg own ex vm = done (next (shift_in own ex % 2 ^ 32)) vm
exec env store own ex vm = keeping ex (vm_exec_store env vm)
exec env discard own ex vm = keeping ex (vm_exec_discard env vm)
exec env not_ own ex vm = keeping ex (vm_exec_not env vm)
exec env cpass own ex vm = vm_peek vm >>= λ cell vm.
    if value_of env.layout cell == 0 then done (next ex) (drop_top vm) else leave_blk ex vm
exec env cfail own ex vm = vm_peek vm >>= λ cell vm.
    if value_of env.layout cell == 0
    then done (next ex) (drop_top vm)
    else leave_blk ex (set_top (value_cell 0) vm)
exec env settle own ex vm = keeping ex (vm_exec_settle vm)
exec env hasattr own ex vm = keeping ex (vm_exec_hasattr env own vm)
exec env exact own ex vm = keeping ex (vm_exec_exact env own vm)
exec env subnet own ex vm = keeping ex (vm_exec_subnet env own vm)
exec env supernet own ex vm = keeping ex (vm_exec_supernet env own vm)
exec env related own ex vm = keeping ex (vm_exec_related env own vm)
exec env pfxcontains own ex vm = keeping 0 (vm_exec_pfxcontains env (vm_extendarg own ex) vm)
exec env addrcontains own ex vm = keeping 0 (vm_exec_addrcontains env (vm_extendarg own ex) vm)
exec env ascontains own ex vm = keeping 0 (vm_exec_ascontains env (vm_extendarg own ex) vm)
exec env aspmatch own ex vm = keeping ex (vm_exec_aspmatch env own vm)
exec env aspstarts own ex vm = keeping ex (vm_exec_aspstarts env own vm)
exec env aspends own ex vm = keeping ex (vm_exec_aspends env own vm)
exec env aspexact own ex vm = keeping ex (vm_exec_aspexact env own vm)
exec env commexact own ex vm = keeping ex (vm_exec_commexact env vm)
exec env call own ex vm = keeping 0 (exec_call env (vm_extendarg own ex) vm)
exec env settrie own ex vm = keeping 0 (vm_exec_settrie (vm_extendarg own ex) vm)
exec env settrie6 own ex vm = keeping 0 (vm_exec_settrie6 (vm_extendarg own ex) vm)
exec env clrtrie own ex vm = keeping ex (vm_exec_clrtrie env vm)
exec env clrtrie6 own ex vm = keeping ex (vm_exec_clrtrie6 env vm)
exec env pfxcmp own ex vm = keeping 0 (vm_exec_pfxcmp env (vm_extendarg own ex) vm)
exec env addrcmp own ex vm = keeping 0 (vm_exec_addrcmp env (vm_extendarg own ex) vm)
exec env ascmp own ex vm = keeping 0 (vm_exec_ascmp env (vm_extendarg own ex) vm)
exec env sigill own ex vm = vm_abort vm_illegal_opcode vm
