-- ===== src/Filter/FrameExec.antt =====
-- What one instruction of the filter machine keeps (src/ubgp/filterpacket.c).
use ubgpsuite.Base.{ℕ, ◌≤◌, ◌≡◌, refl, Bool, true, false, leb, ◌==◌, arith}
use ubgpsuite.Bgp.Fields.{endwithdrawn, endnlri}
use ubgpsuite.Filter.State.{
  Vm, done, Exec, Env, Func, withdrawn_insert, withdrawn_accumulate, all_withdrawn_insert,
  all_withdrawn_accumulate, nlri_insert, nlri_accumulate, all_nlri_insert, all_nlri_accumulate,
  user_func, addr_cell, value_cell, vm_pushaddr,
}
use ubgpsuite.NetAddr.{Netaddr}
use ubgpsuite.Filter.Basic.{
  vm_exec_clrtrie, vm_exec_clrtrie6, insert_addr, same_as, same_addr, same_pfx,
}
use ubgpsuite.Filter.Access.{test_exact, test_subnet, test_supernet, test_related}
use ubgpsuite.Filter.Segments.{vm_extendarg}
use ubgpsuite.Filter.Opcodes.{
  Opcode, nop, blk, endblk, load, loadk, unpack, exarg, store, discard, not_, cpass, cfail, settle,
  hasattr, exact, subnet, supernet, related, pfxcontains, addrcontains, ascontains, aspmatch,
  aspstarts, aspends, aspexact, commexact, call, settrie, settrie6, clrtrie, clrtrie6, pfxcmp,
  addrcmp, ascmp, sigill, predicts,
}
use ubgpsuite.Filter.Machine.{run_func, vm_funcs_count, exec_call, next, keeping, exec}
use ubgpsuite.Filter.Frame.{Same, Bounds, Keeps, Keeps-if, Keeps-option, then_Same, push_with-Same}
use ubgpsuite.Filter.FrameBasic.{
  insert_addr-Same, vm_exec_store-Same, vm_exec_discard-Same, vm_exec_not-Same,
  vm_exec_settrie-Same, vm_exec_settrie6-Same, compare_top-Same, vm_exec_settle-Same,
  vm_exec_loadk-Same, contains-Same,
}
use ubgpsuite.Filter.FramePacket.{through-Same, vm_exec_hasattr-Same, match_addrs-Same}
use ubgpsuite.Filter.FramePaths.{
  vm_exec_aspstarts-Same, vm_exec_aspexact-Same, vm_exec_aspmatch-Same, vm_exec_aspends-Same,
  vm_exec_commexact-Same,
}

-- What the library and the user's functions are asked for: there is no block of no bytes, and a
-- function keeps what an instruction keeps.
pub record Sound (env : Env) : Type 0 where
  pub no_block : env.realloc 0 ≡ false
  pub users : (v0 : Vm) (k : ℕ) (v : Vm) → Same v0 v → Keeps (env.user k v) (Same v0)

-- The machine stands in the same code, at the same place or after it.
abbrev pub Later : Vm → Vm → Type 0
Later v0 v =
    Bounds v
    × (v0.pc ≤ v.pc)
    × (v.pc ≤ v0.codesiz)
    × (v.code ≡ v0.code)
    × (v.codesiz ≡ v0.codesiz)
    × (v.maxcode ≡ v0.maxcode)

-- The instructions that may leave the place, and UNPACK.
abbrev pub jumps : Opcode → Bool
jumps cpass = true
jumps cfail = true
jumps unpack = true
jumps _ = false

pub predicts-jumps : (op op' : Opcode) → predicts op op' ≡ true → jumps op ≡ false
predicts-jumps cpass op' h = absurd (ground (arith, h))
predicts-jumps cfail op' h = absurd (ground (arith, h))
predicts-jumps unpack op' h = absurd (ground (arith, h))
predicts-jumps _ op' h = refl

module _ (v0 : Vm) (env : Env) (sound : Sound env) where
  keeping-Same : (ex : ℕ) (r : Exec) → Keeps r (Same v0) → Keeps (keeping ex r) (Same v0)
  keeping-Same ex r h = then_Same v0 r (λ _ v. done (next ex) v) h (λ _ v s. s)

  insert_each : (a : Netaddr) (v : Vm) → Same v0 v → Keeps (insert_addr env a v) (Same v0)
  insert_each a v s = insert_addr-Same v0 env a v s

  push_each : (a : Netaddr) (v : Vm) → Same v0 v → Keeps (vm_pushaddr env a v) (Same v0)
  push_each a v s = push_with-Same v0 env sound.no_block (addr_cell a) v s

  run_func-Same : (f : Func) (v : Vm) → Same v0 v → Keeps (run_func env f v) (Same v0)
  unfolding run_func
  run_func-Same withdrawn_insert v s = through-Same v0 env _ _ endwithdrawn _ v s insert_each
  run_func-Same withdrawn_accumulate v s = through-Same v0 env _ _ endwithdrawn _ v s push_each
  run_func-Same all_withdrawn_insert v s = through-Same v0 env _ _ endwithdrawn _ v s insert_each
  run_func-Same all_withdrawn_accumulate v s = through-Same v0 env _ _ endwithdrawn _ v s push_each
  run_func-Same nlri_insert v s = through-Same v0 env _ _ endnlri _ v s insert_each
  run_func-Same nlri_accumulate v s = through-Same v0 env _ _ endnlri _ v s push_each
  run_func-Same all_nlri_insert v s = through-Same v0 env _ _ endnlri _ v s insert_each
  run_func-Same all_nlri_accumulate v s = through-Same v0 env _ _ endnlri _ v s push_each
  run_func-Same (user_func k) v s = sound.users v0 k v s

  exec_call-Same : (arg : ℕ) (v : Vm) → Same v0 v → Keeps (exec_call env arg v) (Same v0)
  unfolding exec_call
  exec_call-Same arg v s =
      Keeps-if (Same v0) (leb vm_funcs_count arg) _ _ (λ _. s)
        (λ _. Keeps-option (Same v0) (v.funcs arg) _ _ s (λ f. run_func-Same f v s))

  -- An instruction that does not jump keeps the place.
  pub exec-Same :
      (op : Opcode) (own ex : ℕ) (v : Vm)
      → jumps op ≡ false
      → Same v0 v
      → Keeps (exec env op own ex v) (Same v0)
  unfolding exec vm_exec_clrtrie vm_exec_clrtrie6
  exec-Same nop own ex v h s = s
  exec-Same blk own ex v h s = s
  exec-Same endblk own ex v h s = Keeps-if (Same v0) (v.curblk == 0) _ _ (λ _. s) (λ _. s)
  exec-Same load own ex v h s =
      keeping-Same 0 _ (push_with-Same v0 env sound.no_block (value_cell (vm_extendarg own ex)) v s)
  exec-Same loadk own ex v h s =
      keeping-Same 0 _ (vm_exec_loadk-Same v0 env sound.no_block (vm_extendarg own ex) v s)
  exec-Same unpack own ex v h s = absurd (ground (arith, h))
  exec-Same exarg own ex v h s = s
  exec-Same store own ex v h s = keeping-Same ex _ (vm_exec_store-Same v0 env v s)
  exec-Same discard own ex v h s = keeping-Same ex _ (vm_exec_discard-Same v0 env v s)
  exec-Same not_ own ex v h s = keeping-Same ex _ (vm_exec_not-Same v0 env v s)
  exec-Same cpass own ex v h s = absurd (ground (arith, h))
  exec-Same cfail own ex v h s = absurd (ground (arith, h))
  exec-Same settle own ex v h s = keeping-Same ex _ (vm_exec_settle-Same v0 v s)
  exec-Same hasattr own ex v h s =
      keeping-Same ex _ (vm_exec_hasattr-Same v0 env sound.no_block own v s)
  exec-Same exact own ex v h s =
      keeping-Same ex _ (match_addrs-Same v0 env sound.no_block test_exact own v s)
  exec-Same subnet own ex v h s =
      keeping-Same ex _ (match_addrs-Same v0 env sound.no_block test_subnet own v s)
  exec-Same supernet own ex v h s =
      keeping-Same ex _ (match_addrs-Same v0 env sound.no_block test_supernet own v s)
  exec-Same related own ex v h s =
      keeping-Same ex _ (match_addrs-Same v0 env sound.no_block test_related own v s)
  exec-Same pfxcontains own ex v h s =
      keeping-Same 0 _ (contains-Same v0 env sound.no_block same_pfx (vm_extendarg own ex) v s)
  exec-Same addrcontains own ex v h s =
      keeping-Same 0 _ (contains-Same v0 env sound.no_block same_addr (vm_extendarg own ex) v s)
  exec-Same ascontains own ex v h s =
      keeping-Same 0 _ (contains-Same v0 env sound.no_block same_as (vm_extendarg own ex) v s)
  exec-Same aspmatch own ex v h s = keeping-Same ex _ (vm_exec_aspmatch-Same v0 env own v s)
  exec-Same aspstarts own ex v h s = keeping-Same ex _ (vm_exec_aspstarts-Same v0 env own v s)
  exec-Same aspends own ex v h s = keeping-Same ex _ (vm_exec_aspends-Same v0 env own v s)
  exec-Same aspexact own ex v h s = keeping-Same ex _ (vm_exec_aspexact-Same v0 env own v s)
  exec-Same commexact own ex v h s = keeping-Same ex _ (vm_exec_commexact-Same v0 env v s)
  exec-Same call own ex v h s = keeping-Same 0 _ (exec_call-Same (vm_extendarg own ex) v s)
  exec-Same settrie own ex v h s =
      keeping-Same 0 _ (vm_exec_settrie-Same v0 (vm_extendarg own ex) v s)
  exec-Same settrie6 own ex v h s =
      keeping-Same 0 _ (vm_exec_settrie6-Same v0 (vm_extendarg own ex) v s)
  exec-Same clrtrie own ex v h s = s
  exec-Same clrtrie6 own ex v h s = s
  exec-Same pfxcmp own ex v h s =
      keeping-Same 0 _ (compare_top-Same v0 same_pfx env (vm_extendarg own ex) v s)
  exec-Same addrcmp own ex v h s =
      keeping-Same 0 _ (compare_top-Same v0 same_addr env (vm_extendarg own ex) v s)
  exec-Same ascmp own ex v h s =
      keeping-Same 0 _ (compare_top-Same v0 same_as env (vm_extendarg own ex) v s)
  exec-Same sigill own ex v h s = s
