-- ===== src/Filter/Basic.antt =====
-- Constants, comparisons, blocks, tries and arrays: the short instructions of the filter machine
-- (src/ubgp/filterintrin.h, src/ubgp/filterintrin.c).
use ubgpsuite.Base.{
  ℕ, zero, suc, ◌+◌, ◌-◌, ◌*◌, ◌%◌, ◌^◌, Bool, true, false, ◌||◌, ltb, leb, ◌==◌, if◌then◌else◌,
}
use ubgpsuite.NetAddr.{Netaddr, unspec, inet, inet6, naddreq, prefixeq}
use ubgpsuite.Bgp.Fields.{endwithdrawn, endnlri, endaspath}
use ubgpsuite.Trie.Store.{Trie, patclear}
use ubgpsuite.Trie.Insert.{patinsert}
use ubgpsuite.Trie.Remove.{patremove}
use ubgpsuite.Filter.State.{
  Cell, value_cell, bytes_cell, addr_of, as_of, value_of, array_of, no_settle, settle_withdrawn,
  settle_nlri, settle_aspath, Vm, Run, done, wild, crashed, stuck, Exec, ◌>>=◌, Env, on_bgp, walked,
  vm_abort, vm_growstack, put_cell, vm_push, vm_pushvalue, vm_clearstack, vm_peek, vm_pop, set_top,
  truth, vm_k_undefined, vm_out_of_memory, vm_surprising_bytes, vm_trie_undefined, vm_trie_mismatch,
  vm_bad_array,
}

-- `vm->kp[kidx]`, of `maxk` cells.
unfoldable pub constant : ℕ → Vm → Run Cell
constant kidx vm = if ltb kidx vm.maxk then done (vm.kp kidx) vm else wild

unfoldable pub vm_exec_loadk : Env → ℕ → Vm → Exec
vm_exec_loadk env kidx vm =
    if leb vm.ksiz kidx
    then vm_abort vm_k_undefined vm
    else (constant kidx vm >>= λ cell vm. vm_push env cell vm)

-- The word at `pc`, of 16 bits.
abbrev pub word : Vm → ℕ → ℕ
word vm pc = vm.code pc % 2 ^ 16

-- What is done with the word at `pc`, which is read from a block of `maxcode` words.
abbrev pub fetched {ℓ} : {A : Type ℓ} → Vm → Run A → Run A
fetched vm r = if ltb vm.pc vm.maxcode then r else wild

-- The rounds of `vm_exec_break`, of which as many are left as `code` has words from `pc` on, with
-- `nblk` open blocks. BLK is 1 and ENDBLK is 2.
unfoldable pub break_loop : ℕ → ℕ → Vm → Exec
break_loop zero nblk vm = done tt vm
break_loop (suc left) nblk vm =
    let w = word vm vm.pc in
    let closed = if w == 2 then nblk - 1 else nblk in
    let nblk' = if w == 1 then closed + 1 else closed in
    let rest = break_loop left nblk' (record vm { pc = (vm.pc + 1) % 2 ^ 16 }) in
    fetched vm (if nblk' == 0 then done tt vm else rest)

abbrev pub vm_exec_break : Vm → Exec
vm_exec_break vm = break_loop (vm.codesiz - vm.pc) 1 vm

unfoldable pub vm_exec_not : Env → Vm → Exec
vm_exec_not env vm = vm_peek vm >>= λ cell vm.
    done tt (set_top (value_cell (truth (value_of env.layout cell == 0))) vm)

-- The trie for an address: `none` in the model of `switch (addr->family)` is the default case.
abbrev pub set_trie : Vm → ℕ → Trie → Vm
set_trie vm i t = record vm { tries = λ j. if j == i then t else vm.tries j }

abbrev pub insert_in : Env → ℕ → Netaddr → Vm → Exec
insert_in env i addr vm = walked (patinsert env.depth env.sys (vm.tries i) addr) vm >>= λ r vm.
    let vm' = set_trie vm i r.trie in
    if r.node == 0 then vm_abort vm_out_of_memory vm' else done tt vm'

unfoldable pub insert_addr : Env → Netaddr → Vm → Exec
insert_addr env addr vm = elim addr.family [
  | inet6 ↦ insert_in env vm.curtrie6 addr vm
  | inet ↦ insert_in env vm.curtrie addr vm
  | unspec ↦ vm_abort vm_surprising_bytes vm
]

unfoldable pub vm_exec_store : Env → Vm → Exec
vm_exec_store env vm = vm_pop vm >>= λ cell vm. insert_addr env (addr_of env.layout cell) vm

abbrev pub remove_in : Env → ℕ → Netaddr → Vm → Exec
remove_in env i addr vm = walked (patremove env.depth env.sys (vm.tries i) addr) vm >>= λ r vm.
    done tt (set_trie vm i r.0)

unfoldable pub remove_addr : Env → Netaddr → Vm → Exec
remove_addr env addr vm = elim addr.family [
  | inet6 ↦ remove_in env vm.curtrie6 addr vm
  | inet ↦ remove_in env vm.curtrie addr vm
  | unspec ↦ vm_abort vm_surprising_bytes vm
]

unfoldable pub vm_exec_discard : Env → Vm → Exec
vm_exec_discard env vm = vm_pop vm >>= λ cell vm. remove_addr env (addr_of env.layout cell) vm

unfoldable pub vm_exec_clrtrie : Env → Vm → Exec
vm_exec_clrtrie env vm = done tt (set_trie vm vm.curtrie (patclear env.sys (vm.tries vm.curtrie)))

unfoldable pub vm_exec_clrtrie6 : Env → Vm → Exec
vm_exec_clrtrie6 env vm =
    done tt (set_trie vm vm.curtrie6 (patclear env.sys (vm.tries vm.curtrie6)))

-- The trie is current even where its family is wrong.
unfoldable pub vm_exec_settrie : ℕ → Vm → Exec
vm_exec_settrie trie vm =
    let vm' = record vm { curtrie = trie } in
    if leb vm.ntries trie
    then vm_abort vm_trie_undefined vm
    else if (vm.tries trie).maxbitlen == 32
    then done tt vm'
    else vm_abort vm_trie_mismatch vm'

unfoldable pub vm_exec_settrie6 : ℕ → Vm → Exec
vm_exec_settrie6 trie6 vm =
    let vm' = record vm { curtrie6 = trie6 } in
    if leb vm.ntries trie6
    then vm_abort vm_trie_undefined vm
    else if (vm.tries trie6).maxbitlen == 128
    then done tt vm'
    else vm_abort vm_trie_mismatch vm'

-- The three comparisons of the top cell with a constant, which differ in the test.
abbrev pub Test : Type 0
Test = Env → Cell → Cell → Bool

abbrev pub same_as : Test
same_as env a b = as_of env.layout a == as_of env.layout b

abbrev pub same_addr : Test
same_addr env a b = naddreq (addr_of env.layout a) (addr_of env.layout b)

abbrev pub same_pfx : Test
same_pfx env a b = prefixeq (addr_of env.layout a) (addr_of env.layout b)

unfoldable pub compare_top : Test → Env → ℕ → Vm → Exec
compare_top test env kidx vm =
    if leb vm.ksiz kidx
    then vm_abort vm_k_undefined vm
    else vm_peek vm >>= λ a vm.
        constant kidx vm >>= λ b vm. done tt (set_top (value_cell (truth (test env a b))) vm)

abbrev pub vm_exec_ascmp : Env → ℕ → Vm → Exec
vm_exec_ascmp = compare_top same_as

abbrev pub vm_exec_addrcmp : Env → ℕ → Vm → Exec
vm_exec_addrcmp = compare_top same_addr

abbrev pub vm_exec_pfxcmp : Env → ℕ → Vm → Exec
vm_exec_pfxcmp = compare_top same_pfx

-- The three searches of the stack for a constant: the loop pops one cell in each round, and there
-- are as many rounds as cells.
unfoldable pub contains_loop : Test → Env → ℕ → Cell → Vm → Exec
contains_loop test env zero a vm = vm_pushvalue env (truth false) vm
contains_loop test env (suc left) a vm =
    let rest = contains_loop test env left a (record vm { si = left }) in
    if test env a (vm.sp left) then vm_pushvalue env (truth true) (vm_clearstack vm) else rest

abbrev pub contains : Test → Env → ℕ → Vm → Exec
contains test env kidx vm =
    if leb vm.ksiz kidx
    then vm_abort vm_k_undefined vm
    else (constant kidx vm >>= λ a vm. contains_loop test env vm.si a vm)

abbrev pub vm_exec_pfxcontains : Env → ℕ → Vm → Exec
vm_exec_pfxcontains = contains same_pfx

abbrev pub vm_exec_addrcontains : Env → ℕ → Vm → Exec
vm_exec_addrcontains = contains same_addr

abbrev pub vm_exec_ascontains : Env → ℕ → Vm → Exec
vm_exec_ascontains = contains same_as

unfoldable pub vm_exec_settle : Vm → Exec
vm_exec_settle vm =
    let rest = λ (vm : Vm). done tt (record vm { settle_func = no_settle; access_mask = 0 }) in
    elim vm.settle_func [
      | no_settle ↦ done tt vm
      | settle_withdrawn ↦ on_bgp endwithdrawn vm >>= λ _ vm. rest vm
      | settle_nlri ↦ on_bgp endnlri vm >>= λ _ vm. rest vm
      | settle_aspath ↦ on_bgp endaspath vm >>= λ _ vm. rest vm
    ]

-- The product of `vm_check_array` is one of 32 bits. `cell_size` is `sizeof(stack_cell_t)`.
abbrev pub cell_size : ℕ
cell_size = 24

unfoldable pub vm_check_array : ℕ → ℕ → ℕ → Vm → Exec
vm_check_array base nels elsiz vm =
    if ltb cell_size elsiz || ltb vm.heapsiz (base + nels * elsiz % 2 ^ 32)
    then vm_abort vm_bad_array vm
    else done tt vm

-- `while (vm->stacksiz < vm->si + nels)`, a sum of 32 bits.
unfoldable pub grow_to : ℕ → Env → ℕ → Vm → Exec
grow_to zero env nels vm = stuck
grow_to (suc fuel) env nels vm =
    if ltb vm.stacksiz ((vm.si + nels) % 2 ^ 32)
    then (vm_growstack env vm >>= λ _ vm. grow_to fuel env nels vm)
    else done tt vm

unfoldable pub unpack_loop : ℕ → ℕ → ℕ → Vm → Exec
unpack_loop zero ptr elsiz vm = done tt vm
unpack_loop (suc left) ptr elsiz vm =
    if ltb vm.heapsiz (ptr + elsiz)
    then crashed
    else (put_cell (bytes_cell (λ j. vm.heap (ptr + j)) elsiz) vm >>= λ _ vm.
        unpack_loop left (ptr + elsiz) elsiz vm)

unfoldable pub vm_exec_unpack : Env → Vm → Exec
vm_exec_unpack env vm = vm_pop vm >>= λ cell vm.
    let (off, nels, elsiz) = array_of env.layout cell in
    vm_check_array off nels elsiz vm >>= λ _ vm.
    grow_to (2 ^ 10) env nels vm >>= λ _ vm. unpack_loop nels off elsiz vm
