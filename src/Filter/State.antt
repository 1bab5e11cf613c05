-- ===== src/Filter/State.antt =====
-- The state of the filter machine (`filter_vm_t`, src/ubgp/filterpacket.h), what an instruction
-- answers, and the stack (src/ubgp/filterintrin.h, src/ubgp/filterintrin.c).
use ubgpsuite.Base.{
  ℕ, ◌+◌, ◌-◌, ◌%◌, ◌^◌, Bool, true, false, ltb, ◌==◌, if◌then◌else◌, Mem, Option, none, some,
}
use ubgpsuite.NetAddr.{Netaddr}
use ubgpsuite.Bgp.State.{Msg, Heap, Outcome, ret, fault}
use ubgpsuite.Trie.Store.{Trie, Platform}

-- The errors that `error` holds; 0 is `no_error`.
pub data VmError : Type 0 where
  no_error vm_out_of_memory vm_stack_overflow vm_stack_underflow vm_func_undefined : VmError
  vm_k_undefined vm_bad_accessor vm_trie_mismatch vm_trie_undefined : VmError
  vm_packet_mismatch vm_bad_packet vm_illegal_opcode vm_dangling_blk : VmError
  vm_spurious_endblk vm_surprising_bytes vm_bad_array : VmError

-- A cell is a union. Each constructor stores one member over the cell that was there: an address, an
-- AS, a community, a number, an array, or the first bytes of a block of memory.
pub data Cell : Type 0 where
  unset : Cell
  addr_cell : Netaddr → Cell → Cell
  as_cell : ℕ → Cell → Cell
  comm_cell : ℕ → Cell → Cell
  value_cell : ℕ → Cell → Cell
  array_cell : ℕ → ℕ → ℕ → Cell → Cell
  bytes_cell : Mem → ℕ → Cell → Cell

-- `AS_ANY` is -1, as a 64-bit number.
abbrev pub as_any : ℕ
as_any = 2 ^ 64 - 1

-- What is read of a cell in which another member was stored last, which the platform decides.
pub record Layout : Type 0 where
  pub read_addr : Cell → Netaddr
  pub read_as : Cell → ℕ
  pub read_comm : Cell → ℕ
  pub read_value : Cell → ℕ
  pub read_array : Cell → ℕ × ℕ × ℕ

abbrev pub addr_of : Layout → Cell → Netaddr
addr_of lay (addr_cell a c) = a
addr_of lay c = lay.read_addr c

abbrev pub as_of : Layout → Cell → ℕ
as_of lay (as_cell a c) = a
as_of lay c = lay.read_as c

abbrev pub comm_of : Layout → Cell → ℕ
comm_of lay (comm_cell a c) = a
comm_of lay c = lay.read_comm c

abbrev pub value_of : Layout → Cell → ℕ
value_of lay (value_cell v c) = v
value_of lay c = lay.read_value c

abbrev pub array_of : Layout → Cell → ℕ × ℕ × ℕ
array_of lay (array_cell base nels elsiz c) = (base, nels, elsiz)
array_of lay c = lay.read_array c

-- A function of the table `funcs`: one of the program's own, or one that the user has set.
pub data Func : Type 0 where
  withdrawn_insert withdrawn_accumulate all_withdrawn_insert all_withdrawn_accumulate : Func
  nlri_insert nlri_accumulate all_nlri_insert all_nlri_accumulate : Func
  user_func : ℕ → Func

-- `settle_func`.
pub data Settle : Type 0 where
  no_settle settle_withdrawn settle_nlri settle_aspath : Settle

-- `curtrie` and `curtrie6` are positions in `tries`.
pub record Vm : Type 0 where
  pub bgp : Msg
  pub curtrie : ℕ
  pub curtrie6 : ℕ
  pub sp : ℕ → Cell
  pub kp : ℕ → Cell
  pub tries : ℕ → Trie
  pub funcs : ℕ → Option Func
  pub pc : ℕ
  pub si : ℕ
  pub access_mask : ℕ
  pub ntries : ℕ
  pub maxtries : ℕ
  pub stacksiz : ℕ
  pub codesiz : ℕ
  pub maxcode : ℕ
  pub ksiz : ℕ
  pub maxk : ℕ
  pub curblk : ℕ
  pub code : Mem
  pub heap : Mem
  pub highwater : ℕ
  pub dynmarker : ℕ
  pub heapsiz : ℕ
  pub settle_func : Settle
  pub error : VmError

-- What a call does: it returns, it jumps to the handler of errors, it accesses the stack, the
-- constants or the code out of bounds, it accesses a message or the heap out of bounds, a walk or
-- an iteration has no fuel left, or the loop of the interpreter has none.
pub data Run {ℓ} (A : Type ℓ) : Type ℓ where
  done : A → Vm → Run A
  aborted : Vm → Run A
  wild : Run A
  crashed : Run A
  stuck : Run A
  unfinished : Run A

-- A call that answers nothing.
abbrev pub Exec : Type 0
Exec = Run (Unit {0})

infixl 5 ◌>>=◌
abbrev pub ◌>>=◌ {ℓ κ} : {A : Type ℓ} {B : Type κ} → Run A → (A → Vm → Run B) → Run B
done a vm >>= f = f a vm
aborted vm >>= f = aborted vm
wild >>= f = wild
crashed >>= f = crashed
stuck >>= f = stuck
unfinished >>= f = unfinished

-- What is not part of the program: the memory of messages and tries, the layout of a cell, whether
-- `realloc` has a block for so many cells, instructions or bytes, what fresh cells and the stack of a
-- walk hold, and the functions of the user. `depth` is the fuel of a walk down a trie, and `rounds`
-- that of a loop.
pub record Env : Type 0 where
  pub heap : Heap
  pub sys : Platform
  pub layout : Layout
  pub realloc : ℕ → Bool
  pub fresh : ℕ → Cell
  pub junk : Mem
  pub user : ℕ → Vm → Exec
  pub depth : ℕ
  pub rounds : ℕ

-- A call of the message's module.
abbrev pub on_bgp {ℓ} : {A : Type ℓ} → (Msg → Outcome A) → Vm → Run A
on_bgp f vm = elim (f vm.bgp) [ ret a m ↦ done a (record vm { bgp = m }) | fault ↦ crashed ]

-- The answer of a walk on a trie.
abbrev pub walked {ℓ} : {A : Type ℓ} → Option A → Vm → Run A
walked r vm = elim r [ none ↦ stuck | some a ↦ done a vm ]

abbrev pub vm_abort {ℓ} : {A : Type ℓ} → VmError → Vm → Run A
vm_abort e vm = aborted (record vm { error = e })

abbrev pub stack_grow_step : ℕ
stack_grow_step = 128

-- The new size is a 16-bit number.
unfoldable pub vm_growstack : Env → Vm → Exec
vm_growstack env vm =
    let stacksiz = (vm.stacksiz + stack_grow_step) % 2 ^ 16 in
    if env.realloc stacksiz
    then done tt (record vm {
      sp = λ i. if ltb i vm.stacksiz then vm.sp i else env.fresh i;
      stacksiz = stacksiz;
    })
    else vm_abort vm_stack_overflow vm

-- `vm->sp[vm->si++]` is assigned what `f` makes of it.
unfoldable pub put_cell : (Cell → Cell) → Vm → Exec
put_cell f vm =
    if ltb vm.si vm.stacksiz
    then done tt (record vm {
      sp = λ i. if i == vm.si then f (vm.sp vm.si) else vm.sp i;
      si = (vm.si + 1) % 2 ^ 16;
    })
    else wild

unfoldable pub push_with : Env → (Cell → Cell) → Vm → Exec
push_with env f vm =
    (if vm.si == vm.stacksiz then vm_growstack env vm else done tt vm) >>= λ _ vm. put_cell f vm

abbrev pub vm_push : Env → Cell → Vm → Exec
vm_push env c vm = push_with env (λ _. c) vm

abbrev pub vm_pushaddr : Env → Netaddr → Vm → Exec
vm_pushaddr env a vm = push_with env (addr_cell a) vm

abbrev pub vm_pushvalue : Env → ℕ → Vm → Exec
vm_pushvalue env v vm = push_with env (value_cell v) vm

abbrev pub vm_pushas : Env → ℕ → Vm → Exec
vm_pushas env a vm = push_with env (as_cell a) vm

abbrev pub vm_clearstack : Vm → Vm
vm_clearstack vm = record vm { si = 0 }

-- The top cell, which `vm_pop` takes off.
unfoldable pub vm_peek : Vm → Run Cell
vm_peek vm = if vm.si == 0 then vm_abort vm_stack_underflow vm else done (vm.sp (vm.si - 1)) vm

unfoldable pub vm_pop : Vm → Run Cell
vm_pop vm =
    if vm.si == 0
    then vm_abort vm_stack_underflow vm
    else done (vm.sp (vm.si - 1)) (record vm { si = vm.si - 1 })

-- A store into the top cell, to which `vm_peek` has given a pointer.
abbrev pub set_top : (Cell → Cell) → Vm → Vm
set_top f vm = record vm { sp = λ i. if i == vm.si - 1 then f (vm.sp i) else vm.sp i }

abbrev pub truth : Bool → ℕ
truth true = 1
truth false = 0
