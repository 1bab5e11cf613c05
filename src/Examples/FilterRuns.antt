-- ===== src/Examples/FilterRuns.antt =====
-- Filters that run on an update message.
use ubgpsuite.Base.{
  ℕ, ◌+◌, ◌≤◌, ltb, ◌-◌, ◌≡◌, ◌≢◌, refl, ap, ◌∙◌, true, false, inl, ◌==◌, if◌then◌else◌, none, [],
  ◌∷◌, arith,
}
use ubgpsuite.Bgp.State.{Msg, AsPathent}
use ubgpsuite.Bgp.Path.{nextaspath, startaspath}
use ubgpsuite.Trie.Store.{Trie, empty_prefix, patinit}
use ubgpsuite.Filter.State.{
  Vm, Env, unset, done, as_cell, settle_aspath, settle_nlri, Exec, put_cell,
}
use ubgpsuite.Bgp.Message.{getbgptype}
use ubgpsuite.Attr.Header.{is_extended}
use ubgpsuite.Filter.Machine.{exec}
use ubgpsuite.Filter.Answers.{
  any_passes, contains_lem, Body, empty_body, plain_op, inner_blk, vm_exec_break_lem,
}
use ubgpsuite.Filter.Paths.{starts_loop, vm_exec_aspstarts, vm_exec_aspexact, vm_exec_aspmatch}
use ubgpsuite.Filter.PathSearch.{occurs, vm_exec_aspmatch_lem}
use ubgpsuite.Filter.Exargs.{go_on}
use ubgpsuite.Filter.Emit.{vm_emit_ex-plain_loop}
use ubgpsuite.Filter.Segments.{vm_makeop, vm_extendarg, vm_emit_ex}
use ubgpsuite.Filter.Opcodes.{Opcode, nop, unpack, endblk, load, predicts, vm_opcode_table}
use ubgpsuite.Filter.Loop.{filter_init, prepare_tries, plain_loop, bgp_filter}
use ubgpsuite.Filter.FrameExec.{Sound}
use ubgpsuite.Filter.Safety.{Program, op_at, bgp_filter_fuel}
use ubgpsuite.Filter.Open.{vm_prepare_as_access_confused}
use ubgpsuite.Filter.Settling.{Settled, Stops, until_done, bgp_filter-Settled}
use ubgpsuite.Filter.Dispatch.{Fenced, bgp_filter_goto}
use ubgpsuite.Filter.Access.{start_path, prepare, vm_prepare_as_access}
use ubgpsuite.Filter.Basic.{
  same_as, contains, vm_exec_break, vm_exec_settrie, vm_exec_settrie6, vm_exec_clrtrie,
  vm_exec_clrtrie6,
}
use ubgpsuite.NetAddr.{same_family}
use ubgpsuite.Bgp.Read.{seekbgpattr, nextbgpattrib}
use ubgpsuite.Filter.Returns.{Yields, Prepared, Ends, Answered, starts_with, matches_all}
use ubgpsuite.Filter.PathMatch.{vm_exec_aspstarts_lem, vm_exec_aspexact_lem}
use ubgpsuite.Examples.BgpRuns.{heap}
use ubgpsuite.Examples.PathRuns.{update, counting}

abbrev env : Env
env = record {
  heap = heap;
  sys = record { malloc = λ n. none; overwrite = λ a p. p };
  layout = record {
    read_addr = λ c. empty_prefix;
    read_as = λ c. 0;
    read_comm = λ c. 0;
    read_value = λ c. 0;
    read_array = λ c. (0, 0, 0);
  };
  realloc = λ n. if n == 0 then false else true;
  fresh = λ i. unset;
  junk = λ i. 0;
  user = λ k vm. done tt vm;
  depth = 200;
  rounds = 10;
}

env-Sound : Sound env
env-Sound = record { no_block = refl; users = λ v0 k v s. s }

abbrev no_trie : Trie
no_trie = record {
  head = 0;
  maxbitlen = 0;
  nprefs = 0;
  pages = [];
  freenodes = 0;
  nodes = λ j. record {
    prefix = empty_prefix;
    payload = 0;
    parent = 0;
    glue = false;
    left = 0;
    right = 0;
    next = 0;
  };
}

-- LOAD 1.
abbrev program : Vm
program = record (filter_init update no_trie) {
  code = λ i. if i == 0 then vm_makeop 3 1 else 0;
  codesiz = 1;
  maxcode = 128;
}

load_no_unpack : load ≢ unpack
load_no_unpack e = absurd (cc)

program-Program : Program program
unfolding filter_init vm_opcode_table
program-Program = record {
  size = omega arith;
  not_empty = omega arith;
  stack = omega arith;
  whole = refl;
  constants = omega arith;
  words = omega arith;
  no_unpack =
      λ pc h e. load_no_unpack (ap (op_at program) (let z : 0 ≡ pc = omega (arith, h) in z) ∙ e);
}

bgp_filter_fuel_example :
    bgp_filter true 2 env update program ≡ bgp_filter true 70000 env update program
bgp_filter_fuel_example =
    bgp_filter_fuel 2 70000 env update program env-Sound program-Program (omega arith) (omega arith)

nop_not_predicted : (op : Opcode) → predicts op nop ≡ false
nop_not_predicted endblk = refl
nop_not_predicted _ = refl

program-Fenced : Fenced program
unfolding filter_init vm_opcode_table
program-Fenced = record { spare = omega arith; quiet = nop_not_predicted }

bgp_filter_goto_example :
    bgp_filter false 2 env update program ≡ bgp_filter true 2 env update program
bgp_filter_goto_example =
    bgp_filter_goto 2 env update program env-Sound program-Program program-Fenced

-- ASPSTARTS on AS_PATH.
abbrev path_program : Vm
path_program = record program { code = λ i. if i == 0 then vm_makeop 22 1 else 0 }

abbrev state_of : Exec → Vm
state_of (done a v) = v
state_of _ = program

-- Where the run of that code stops.
path_read : Vm
unfolding filter_init prepare_tries plain_loop vm_opcode_table vm_exec_settrie patinit same_family
    vm_exec_settrie6 vm_exec_clrtrie vm_exec_clrtrie6 exec vm_exec_aspstarts getbgptype prepare
    start_path startaspath seekbgpattr nextbgpattrib is_extended starts_loop put_cell
path_read = state_of (until_done true 2 env update path_program)

path_read-Stops : Stops (until_done true 2 env update path_program) path_read
unfolding path_read
path_read-Stops = inl refl

bgp_filter-Settled_example :
    Ends (bgp_filter true 2 env update path_program) (λ _ v'. Settled settle_aspath v')
unfolding path_read
bgp_filter-Settled_example =
    bgp_filter-Settled true 2 env update path_program path_read path_read-Stops refl refl refl

-- On the stack AS 100, and an iteration over the path 100 200 that has been started.
abbrev pattern_vm : Vm
pattern_vm = record (filter_init counting no_trie) {
  sp = λ i. as_cell 100 unset;
  si = 1;
  settle_func = settle_aspath;
  access_mask = 1;
}

abbrev entry : ℕ → AsPathent
entry n = record { as_size = 2; type = 2; segno = 0; as_number = n }

abbrev walked_to : ℕ → ℕ → ℕ → Msg
walked_to p i n = record counting {
  path = record (counting.path) {
    asptr = p;
    seglen = 2;
    segi = i;
    ascount = 65535 - i;
    asp = entry n;
  };
}

path-Yields : Yields (100 ∷ 200 ∷ []) counting
unfolding nextaspath is_extended
path-Yields = (
  entry 100,
  walked_to 30 1 100,
  refl,
  refl,
  (entry 200, walked_to 32 2 200, refl, refl, (walked_to 32 2 200, walked_to 32 2 200, refl, refl)),
)

prepared : Prepared env 1 pattern_vm pattern_vm (100 ∷ 200 ∷ [])
unfolding filter_init prepare getbgptype is_extended
prepared = record { update = refl; prepared = refl; path = path-Yields; room = omega arith }

vm_exec_aspstarts_example :
    Ends
      (vm_exec_aspstarts env 1 pattern_vm)
      (λ _ v'. Answered (starts_with (100 ∷ []) (100 ∷ 200 ∷ [])) v')
unfolding filter_init
vm_exec_aspstarts_example =
    vm_exec_aspstarts_lem env 1 pattern_vm pattern_vm (100 ∷ 200 ∷ []) prepared

vm_exec_aspexact_example :
    Ends
      (vm_exec_aspexact env 1 pattern_vm)
      (λ _ v'. Answered (matches_all (100 ∷ []) (100 ∷ 200 ∷ [])) v')
unfolding filter_init
vm_exec_aspexact_example =
    vm_exec_aspexact_lem env 1 pattern_vm pattern_vm (100 ∷ 200 ∷ []) prepared

vm_exec_aspmatch_example :
    Ends
      (vm_exec_aspmatch env 1 pattern_vm)
      (λ _ v'. Answered (occurs (100 ∷ []) (100 ∷ 200 ∷ [])) v')
unfolding filter_init
vm_exec_aspmatch_example =
    vm_exec_aspmatch_lem env 1 pattern_vm pattern_vm (100 ∷ 200 ∷ []) prepared (omega arith)

contains_example :
    Ends
      (contains same_as env 3 pattern_vm)
      (λ _ v'. Answered (any_passes same_as env pattern_vm.sp (pattern_vm.kp 3) pattern_vm.si) v')
unfolding filter_init
contains_example = contains_lem same_as env 3 pattern_vm (omega arith) (omega arith) (omega arith)

-- NOP BLK NOP ENDBLK ENDBLK.
abbrev blocks : Vm
blocks = record program { code = λ i. if i == 1 then 1 else if ltb i 3 then 0 else 2; codesiz = 5 }

blocks-Body : Body blocks.code 0 4
unfolding filter_init
blocks-Body = plain_op 0 4 (ground arith) (ground arith) (
    inner_blk 1 3 4 refl (plain_op 2 3 (ground arith) (ground arith) (empty_body 3 3 refl)) refl
      (empty_body 4 4 refl))

vm_exec_break_example : vm_exec_break blocks ≡ done tt (record blocks { pc = 4 })
unfolding filter_init
vm_exec_break_example =
    vm_exec_break_lem blocks 4 blocks-Body refl (omega arith) (omega arith) (omega arith)

-- The accessor of NLRI, and of AS_PATH, on a machine that holds the former.
abbrev accessed : Vm
accessed = record program { access_mask = 1; settle_func = settle_nlri }

vm_prepare_as_access_example : vm_prepare_as_access env 1 accessed ≡ done tt accessed
unfolding filter_init prepare
vm_prepare_as_access_example = vm_prepare_as_access_confused env 1 accessed accessed refl refl

-- The constant 300 is loaded by EXARG 1 and LOADK 44.
abbrev emitted : Vm
emitted = record (vm_emit_ex env 4 300 program) { pc = 1 }

vm_emit_ex_example :
    (k : ℕ) × (own : ℕ) × (ex : ℕ) × (k ≤ 3)
    × (vm_extendarg own ex ≡ 300)
    × (plain_loop (k + 5) env 0 emitted
        ≡ go_on 4 env
            (exec env (vm_opcode_table 4) own ex (record emitted { pc = emitted.codesiz })))
unfolding filter_init
vm_emit_ex_example =
    vm_emit_ex-plain_loop env 4 300 4 program emitted (omega arith) (omega arith) (omega arith)
      (omega arith) refl refl refl refl
