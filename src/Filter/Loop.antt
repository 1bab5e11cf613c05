-- ===== src/Filter/Loop.antt =====
-- `filter_init`, and the loop of `bgp_filter` with what comes before and after it
-- (src/ubgp/filterpacket.c).
use ubgpsuite.Base.{
  ℕ, zero, suc, ◌+◌, ◌%◌, ◌^◌, Bool, not, ltb, ◌==◌, if◌then◌else◌, Option, none, some,
}
use ubgpsuite.NetAddr.{inet, inet6}
use ubgpsuite.Bgp.State.{Msg}
use ubgpsuite.Trie.Store.{Trie, patinit}
use ubgpsuite.Filter.State.{
  VmError, no_error, vm_dangling_blk, unset, value_of, Func, withdrawn_insert, withdrawn_accumulate,
  all_withdrawn_insert, all_withdrawn_accumulate, nlri_insert, nlri_accumulate, all_nlri_insert,
  all_nlri_accumulate, no_settle, Vm, Run, done, aborted, wild, crashed, stuck, unfinished, Exec,
  ◌>>=◌, Env, vm_abort, vm_clearstack, vm_pop,
}
use ubgpsuite.Filter.Basic.{
  word, fetched, vm_exec_settle, vm_exec_settrie, vm_exec_settrie6, vm_exec_clrtrie,
  vm_exec_clrtrie6,
}
use ubgpsuite.Filter.Segments.{vm_getopcode, vm_getarg}
use ubgpsuite.Filter.Opcodes.{vm_opcode_table, predicts}
use ubgpsuite.Filter.Machine.{Flow, next, to_done, exec}

abbrev pub own_funcs : ℕ → Option Func
own_funcs n =
    if n == 17
    then some withdrawn_insert
    else if n == 18
    then some withdrawn_accumulate
    else if n == 19
    then some all_withdrawn_insert
    else if n == 20
    then some all_withdrawn_accumulate
    else if n == 21
    then some nlri_insert
    else if n == 22
    then some nlri_accumulate
    else if n == 23
    then some all_nlri_insert
    else if n == 24
    then some all_nlri_accumulate
    else none

-- `memset` and what follows. The message, which is NULL then, is `msg`, and the fields of a trie that
-- `patinit` leaves are those of `blank`.
unfoldable pub filter_init : Msg → Trie → Vm
filter_init msg blank = record {
  bgp = msg;
  curtrie = 0;
  curtrie6 = 0;
  sp = λ i. unset;
  kp = λ i. unset;
  tries = λ i. if i == 0 then patinit blank inet else patinit blank inet6;
  funcs = own_funcs;
  pc = 0;
  si = 0;
  access_mask = 0;
  ntries = 2;
  maxtries = 2;
  stacksiz = 256;
  codesiz = 0;
  maxcode = 0;
  ksiz = 33;
  maxk = 64;
  curblk = 0;
  code = λ i. 0;
  heap = λ i. 0;
  highwater = 0;
  dynmarker = 0;
  heapsiz = 0;
  settle_func = no_settle;
  error = no_error;
}

-- The word after the current one, as FETCH and PREDICT read it. `none` is BAD_OPCODE.
abbrev pub look_ahead : Vm → Option ℕ
look_ahead vm = if ltb vm.pc vm.codesiz then some (word vm vm.pc) else none

abbrev pub advance : Vm → Vm
advance vm = record vm { pc = (vm.pc + 1) % 2 ^ 16 }

-- Run the instruction `ip`.
abbrev pub execute : Env → ℕ → ℕ → Vm → Run Flow
execute env ip ex vm = exec env (vm_opcode_table (vm_getopcode ip)) (vm_getarg ip) ex vm

-- The loop in portable C: each instruction is fetched after the test of `pc`. The answer says that
-- the loop has ended.
unfoldable pub plain_loop : ℕ → Env → ℕ → Vm → Exec
plain_loop zero env ex vm = unfinished
plain_loop (suc fuel) env ex vm =
    if ltb vm.pc vm.codesiz
    then fetched vm (
        execute env (word vm vm.pc) ex (advance vm) >>= λ flow vm. elim flow [
          | next ex' ↦ plain_loop fuel env ex' vm
          | to_done ↦ done tt vm
        ])
    else done tt vm

-- Whether the instruction `ip` predicts the word `np`.
abbrev pub predicted : ℕ → ℕ → Bool
predicted ip np = predicts (vm_opcode_table (vm_getopcode ip)) (vm_opcode_table (vm_getopcode np))

-- PREDICT after the instruction `ip`, where `np` is the word after it and `loop` goes on with an
-- instruction and the word after that, or fetches the next one. `pc` is moved before the word after
-- the predicted one is read, which is done also where that is past the code.
unfoldable pub predict : (Option (ℕ × Option ℕ) → ℕ → Vm → Exec) → ℕ → Option ℕ → ℕ → Vm → Exec
predict loop ip none ex vm = loop none ex vm
predict loop ip (some w) ex vm =
    if predicted ip w
    then (if ltb vm.pc vm.codesiz
        then (if ltb (vm.pc + 1) vm.maxcode
            then loop (some (w, some (word vm (vm.pc + 1)))) ex (advance vm)
            else wild)
        else loop (some (w, none)) ex vm)
    else loop none ex vm

abbrev pub goto_from : (Option (ℕ × Option ℕ) → ℕ → Vm → Exec) → Env → ℕ → Option ℕ → ℕ → Vm → Exec
goto_from loop env ip np ex vm = execute env ip ex vm >>= λ flow vm. elim flow [
  | next ex' ↦ predict loop ip np ex' vm
  | to_done ↦ done tt vm
]

-- The loop with computed gotos, which goes on at once with the instruction that is given.
unfoldable pub goto_loop : ℕ → Env → Option (ℕ × Option ℕ) → ℕ → Vm → Exec
unfolding predict
goto_loop zero env ahead ex vm = unfinished
goto_loop (suc fuel) env (some (ip, np)) ex vm = goto_from (goto_loop fuel env) env ip np ex vm
goto_loop (suc fuel) env none ex vm =
    if ltb vm.pc vm.codesiz
    then fetched vm (
        goto_from (goto_loop fuel env) env (word vm vm.pc) (look_ahead (advance vm)) ex
          (advance vm))
    else done tt vm

-- What `bgp_filter` returns: whether the filter passes, or an error.
pub data Verdict : Type 0 where
  verdict : Bool → Verdict
  failed : VmError → Verdict

-- From the label `done` on.
unfoldable pub finish : Env → Vm → Run Verdict
finish env vm = vm_exec_settle vm >>= λ _ vm.
    if ltb 0 vm.curblk
    then vm_abort vm_dangling_blk vm
    else vm_pop vm >>= λ cell vm. done (verdict (not (value_of env.layout cell == 0))) vm

-- The handler that `setjmp` sets up.
unfoldable pub catch : Run Verdict → Run Verdict
catch (done v vm) = done v vm
catch (aborted vm) = vm_exec_settle vm >>= λ _ vm. done (failed vm.error) vm
catch wild = wild
catch crashed = crashed
catch stuck = stuck
catch unfinished = unfinished

-- What is reset before the loop.
abbrev pub restarted : Msg → Vm → Vm
restarted msg vm = record (vm_clearstack vm) {
  bgp = msg;
  pc = 0;
  curblk = 0;
  dynmarker = 0;
  error = no_error;
}

unfoldable pub prepare_tries : Env → Vm → Exec
prepare_tries env vm = vm_exec_settrie 0 vm >>= λ _ vm.
    vm_exec_settrie6 1 vm >>= λ _ vm. vm_exec_clrtrie env vm >>= λ _ vm. vm_exec_clrtrie6 env vm

-- `plain` is whether the build has the portable loop.
unfoldable pub bgp_filter : Bool → ℕ → Env → Msg → Vm → Run Verdict
bgp_filter plain fuel env msg vm = catch (
    prepare_tries env (restarted msg vm) >>= λ _ vm.
    (if plain then plain_loop fuel env 0 vm else goto_loop fuel env none 0 vm) >>= λ _ vm.
    finish env vm)
