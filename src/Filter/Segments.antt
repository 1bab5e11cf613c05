-- ===== src/Filter/Segments.antt =====
-- The segments of the filter machine that are filled before it runs: code, constants, tries and heap
-- (src/ubgp/filterintrin.h, src/ubgp/filterintrin.c).
use ubgpsuite.Base.{
  ℕ, zero, suc, ◌+◌, ◌-◌, ◌*◌, ◌/◌, ◌%◌, ◌^◌, Bool, true, false, ltb, leb, ◌==◌, if◌then◌else◌,
  Option, none, some,
}
use ubgpsuite.NetAddr.{Family}
use ubgpsuite.Trie.Store.{patinit}
use ubgpsuite.Filter.State.{Vm, Env}
use ubgpsuite.Filter.Basic.{set_trie}

-- An instruction has its opcode in the low byte and its argument in the high one.
abbrev pub vm_makeop : ℕ → ℕ → ℕ
vm_makeop opcode arg = arg % 2 ^ 8 * 2 ^ 8 + opcode % 2 ^ 8

abbrev pub vm_getopcode : ℕ → ℕ
vm_getopcode code = code % 2 ^ 8

abbrev pub vm_getarg : ℕ → ℕ
vm_getarg code = code / 2 ^ 8

-- `(exarg << 8) | arg`, where `arg` is one byte.
abbrev pub shift_in : ℕ → ℕ → ℕ
shift_in arg exarg = exarg * 2 ^ 8 + arg

abbrev pub vm_extendarg : ℕ → ℕ → ℕ
vm_extendarg arg exarg = shift_in arg exarg % 2 ^ 31

-- Growing a segment: the state and whether there was room. Sizes are 16-bit numbers.
unfoldable pub vm_growcode : Env → Vm → Vm × Bool
vm_growcode env vm =
    let codesiz = (vm.maxcode + 128) % 2 ^ 16 in
    if env.realloc codesiz then (record vm { maxcode = codesiz }, true) else (vm, false)

-- The test of `vm_growk` whether the constants stand in `kbuf` is always true, so that `realloc` is
-- handed `kbuf` itself the first time, which is an error: `none`.
unfoldable pub vm_growk : Env → Vm → Option (Vm × Bool)
vm_growk env vm =
    let ksiz = (vm.maxk + 32) % 2 ^ 16 in
    if vm.maxk == 64
    then none
    else if env.realloc ksiz
    then some
        (record vm { kp = λ i. if ltb i vm.maxk then vm.kp i else env.fresh i; maxk = ksiz }, true)
    else some (vm, false)

unfoldable pub vm_growtrie : Env → Vm → Vm × Bool
vm_growtrie env vm =
    let ntries = (vm.maxtries + 2) % 2 ^ 16 in
    if env.realloc ntries then (record vm { maxtries = ntries }, true) else (vm, false)

abbrev take_k : Vm → Vm × Option ℕ
take_k vm = (record vm { ksiz = (vm.ksiz + 1) % 2 ^ 16 }, some vm.ksiz)

-- `none` in the answer is -1.
unfoldable pub vm_newk : Env → Vm → Option (Vm × Option ℕ)
unfolding vm_growk
vm_newk env vm =
    if vm.ksiz == vm.maxk
    then elim (vm_growk env vm) [
      | none ↦ none
      | some (vm', grown) ↦ if grown then some (take_k vm') else some (vm', none)
    ]
    else some (take_k vm)

abbrev take_trie : Family → Vm → Vm × Option ℕ
take_trie family vm =
    let vm' = set_trie vm vm.ntries (patinit (vm.tries vm.ntries) family) in
    (record vm' { ntries = (vm.ntries + 1) % 2 ^ 16 }, some vm.ntries)

unfoldable pub vm_newtrie : Env → Family → Vm → Vm × Option ℕ
unfolding vm_growtrie
vm_newtrie env family vm =
    let (vm', room) = if vm.ntries == vm.maxtries then vm_growtrie env vm else (vm, true) in
    if room then take_trie family vm' else (vm', none)

abbrev pub emit_at : ℕ → Vm → Vm
emit_at w vm = record vm {
  code = λ i. if i == vm.codesiz then w else vm.code i;
  codesiz = (vm.codesiz + 1) % 2 ^ 16;
}

unfoldable pub vm_emit : Env → ℕ → Vm → Vm × Bool
unfolding vm_growcode
vm_emit env w vm =
    let (vm', room) = if vm.codesiz == vm.maxcode then vm_growcode env vm else (vm, true) in
    if room then (emit_at w vm', true) else (vm', false)

-- The number of the most significant byte of `idx` that is not 0, down from byte `k`, or 0.
unfoldable pub most_significant : ℕ → ℕ → ℕ
most_significant zero idx = 0
most_significant (suc k) idx =
    let below = most_significant k idx in
    if idx / 2 ^ (8 * suc k) % 2 ^ 8 == 0 then below else suc k

-- EXARG is 6. One instruction for each byte from `k` down to byte 1. That one is not emitted is not
-- noticed.
unfoldable pub emit_exargs : Env → ℕ → ℕ → Vm → Vm
emit_exargs env zero idx vm = vm
emit_exargs env (suc k) idx vm =
    emit_exargs env k idx (vm_emit env (vm_makeop 6 (idx / 2 ^ (8 * suc k) % 2 ^ 8)) vm).0

unfoldable pub vm_emit_ex : Env → ℕ → ℕ → Vm → Vm
vm_emit_ex env opcode idx vm =
    (vm_emit env (vm_makeop opcode (idx % 2 ^ 8))
      (emit_exargs env (most_significant 3 idx) idx vm)).0

-- `sizeof(max_align_t)` is 16.
abbrev pub align : ℕ → ℕ
align size = (size + 15) % 2 ^ 64 / 16 * 16

-- Room for some more bytes. Sizes of the heap are 32-bit numbers.
unfoldable pub vm_heap_ensure : Env → ℕ → Vm → Vm × Bool
vm_heap_ensure env aligned_size vm =
    let used = vm.highwater + vm.dynmarker in
    let size = (aligned_size + used + 256) % 2 ^ 64 in
    if leb aligned_size ((vm.heapsiz + 2 ^ 64 - used) % 2 ^ 64)
    then (vm, true)
    else if env.realloc size
    then (record vm { heapsiz = size % 2 ^ 32 }, true)
    else (vm, false)

pub data Zone : Type 0 where
  vm_heap_perm vm_heap_temp : Zone

-- `none` is `VM_BAD_HEAP_PTR`.
unfoldable pub vm_heap_alloc : Env → ℕ → Zone → Vm → Vm × Option ℕ
unfolding vm_heap_ensure
vm_heap_alloc env size zone vm =
    let (vm', room) = vm_heap_ensure env (align size) vm in
    if room
    then elim zone [
      | vm_heap_perm ↦ if ltb 0 vm'.dynmarker then (vm', none) else (
        record vm' { highwater = (vm'.highwater + align size) % 2 ^ 32 },
        some vm'.highwater,
      )
      | vm_heap_temp ↦ (
        record vm' { dynmarker = (vm'.dynmarker + align size) % 2 ^ 32 },
        some (vm'.highwater + vm'.dynmarker),
      )
    ]
    else (vm', none)

abbrev pub vm_heap_return : ℕ → Vm → Vm
vm_heap_return size vm = record vm {
  dynmarker = (vm.dynmarker + 2 ^ 32 - align size % 2 ^ 32) % 2 ^ 32;
}

-- A chunk at `addr`, where 0 stands for no chunk yet, grows to a size.
unfoldable pub vm_heap_grow : Env → ℕ → ℕ → Vm → Vm × Option ℕ
unfolding vm_heap_ensure
vm_heap_grow env addr newsize vm =
    let at_ = if addr == 0 then vm.highwater else addr in
    let oldsize = ((vm.highwater + vm.dynmarker) % 2 ^ 32 + 2 ^ 64 - at_) % 2 ^ 64 in
    let amount = align newsize - oldsize in
    let (vm', room) = vm_heap_ensure env amount vm in
    if ltb (align newsize) oldsize
    then (vm, some at_)
    else if room
    then (record vm' { dynmarker = (vm'.dynmarker + amount) % 2 ^ 32 }, some at_)
    else (vm', none)
