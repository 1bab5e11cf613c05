-- ===== src/Filter/Exargs.antt =====
-- Code that starts with EXARG instructions, as the interpreter runs it (src/ubgp/filterintrin.c,
-- src/ubgp/filterpacket.c).
use ubgpsuite.Base.{
  ℕ, suc, ◌+◌, ◌%◌, ◌^◌, ◌≤◌, ◌<◌, ◌≡◌, ap, ltb, ◌∙◌, if_true, arith, List, [], ◌∷◌, Mem,
}
use ubgpsuite.Filter.State.{Vm, Run, done, Exec, ◌>>=◌, Env}
use ubgpsuite.Filter.Basic.{word}
use ubgpsuite.Filter.Segments.{vm_makeop, vm_getopcode, vm_getarg, shift_in}
use ubgpsuite.Filter.Opcodes.{exarg, vm_opcode_table}
use ubgpsuite.Filter.Machine.{Flow, next, to_done, exec}
use ubgpsuite.Filter.Loop.{advance, plain_loop}
use ubgpsuite.Filter.Paths.{length}

-- EXARG instructions with these arguments stand from a place on.
abbrev pub HasExargs : Mem → ℕ → List ℕ → Type 0
HasExargs code pc [] = Unit
HasExargs code pc (b ∷ bs) = (b < 2 ^ 8) × (code pc ≡ vm_makeop 6 b) × HasExargs code (pc + 1) bs

-- The argument that they make up.
abbrev pub gather : List ℕ → ℕ → ℕ
gather [] ex = ex
gather (b ∷ bs) ex = gather bs (shift_in b ex % 2 ^ 32)

-- What the loop does after an instruction.
abbrev pub go_on : ℕ → Env → Run Flow → Exec
go_on f env r =
    r >>= λ flow v. elim flow [ next ex' ↦ plain_loop f env ex' v | to_done ↦ done tt v ]

exarg_round :
    (f : ℕ) (env : Env) (b ex : ℕ) (v : Vm)
    → v.pc < v.codesiz
    → v.codesiz ≤ v.maxcode
    → b < 2 ^ 8
    → v.code v.pc ≡ vm_makeop 6 b
    → plain_loop (suc f) env ex v ≡ plain_loop f env (shift_in b ex % 2 ^ 32) (advance v)
unfolding plain_loop exec vm_opcode_table
exarg_round f env b ex v h block small at_pc =
    let op : vm_getopcode (word v v.pc) ≡ 6 = omega (arith, at_pc, small) in
    let arg : vm_getarg (word v v.pc) ≡ b = omega (arith, at_pc, small) in
    if_true (ltb v.pc v.codesiz) _ _ (ground (arith, h))
    ∙ if_true (ltb v.pc v.maxcode) _ _ (ground (arith, h, block))
    ∙ ap
        (λ (n : ℕ).
          go_on f env (exec env (vm_opcode_table n) (vm_getarg (word v v.pc)) ex (advance v)))
        op
    ∙ ap (λ (a : ℕ). go_on f env (exec env exarg a ex (advance v))) arg

-- Fuel for a round of each EXARG before the fuel `f`.
abbrev pub rounds_then : List ℕ → ℕ → ℕ
rounds_then [] f = f
rounds_then (b ∷ bs) f = suc (rounds_then bs f)

pub rounds_then_lem : (bs : List ℕ) (f : ℕ) → rounds_then bs f ≡ length bs + f
rounds_then_lem [] f = omega arith
rounds_then_lem (b ∷ bs) f = omega (arith, rounds_then_lem bs f)

exarg_rounds :
    (bs : List ℕ) (f : ℕ) (env : Env) (ex : ℕ) (v : Vm)
    → HasExargs v.code v.pc bs
    → v.pc + length bs < v.codesiz
    → v.codesiz ≤ v.maxcode
    → v.codesiz < 2 ^ 16
    → plain_loop (rounds_then bs f) env ex v
      ≡ plain_loop f env (gather bs ex) (record v { pc = v.pc + length bs })
exarg_rounds [] f env ex v has h block size =
    ap (λ (p : ℕ). plain_loop f env ex (record v { pc = p }))
      (let e : v.pc ≡ v.pc + 0 = omega arith in e)
exarg_rounds (b ∷ bs) f env ex v (small, at_pc, has) h block size =
    let up : (v.pc + 1) % 2 ^ 16 ≡ v.pc + 1 = omega (arith, h, size) in
    let v1 : Vm = record v { pc = v.pc + 1 } in
    exarg_round (rounds_then bs f) env b ex v (omega (arith, h)) block small at_pc
    ∙ ap
        (λ (p : ℕ).
          plain_loop (rounds_then bs f) env (shift_in b ex % 2 ^ 32) (record v { pc = p }))
        up
    ∙ exarg_rounds bs f env (shift_in b ex % 2 ^ 32) v1 has (omega (arith, h)) block size
    ∙ ap (λ (p : ℕ). plain_loop f env (gather (b ∷ bs) ex) (record v { pc = p }))
        (let e : v.pc + 1 + length bs ≡ v.pc + suc (length bs) = omega arith in e)

pub HasExargs-agree :
    (c c' : Mem) (n p : ℕ) (bs : List ℕ)
    → ((j : ℕ) → j < n → c' j ≡ c j)
    → HasExargs c p bs
    → p + length bs ≤ n
    → HasExargs c' p bs
HasExargs-agree c c' n p [] same has h = tt
HasExargs-agree c c' n p (b ∷ bs) same (small, at_p, has) h = (
  small,
  same p (omega (arith, h)) ∙ at_p,
  HasExargs-agree c c' n (p + 1) bs same has (omega (arith, h)),
)

-- The code that holds the EXARG instructions of `bs` at a place, the last instruction after them, and
-- no more.
abbrev pub Emitted : Vm → ℕ → List ℕ → ℕ → Type 0
Emitted v pc bs w =
    (v.codesiz ≡ pc + suc (length bs))
    × HasExargs v.code pc bs
    × (v.code (pc + length bs) ≡ w)
    × (v.codesiz ≤ v.maxcode)

-- Running such code up to its last instruction.
pub Emitted-run :
    (bs : List ℕ) (op low f : ℕ) (env : Env) (v : Vm)
    → Emitted v v.pc bs (vm_makeop op low)
    → op < 2 ^ 8
    → low < 2 ^ 8
    → v.codesiz < 2 ^ 16
    → plain_loop (rounds_then bs (suc f)) env 0 v
      ≡ go_on f env (exec env (vm_opcode_table op) low (gather bs 0) (record v { pc = v.codesiz }))
unfolding plain_loop
Emitted-run bs op low f env v (size, has, last, block) small_op small_low small =
    let p = v.pc + length bs in
    let code : vm_getopcode (word v p) ≡ op = omega (arith, last, small_op, small_low) in
    let arg : vm_getarg (word v p) ≡ low = omega (arith, last, small_op, small_low) in
    let pc : (p + 1) % 2 ^ 16 ≡ v.codesiz = omega (arith, size, small) in
    let ex = gather bs 0 in
    let v1 : Vm = record v { pc = (p + 1) % 2 ^ 16 } in
    exarg_rounds bs (suc f) env 0 v has (omega (arith, size)) block small
    ∙ if_true (ltb p v.codesiz) _ _ (ground (arith, size))
    ∙ if_true (ltb p v.maxcode) _ _ (ground (arith, size, block))
    ∙ ap (λ (n : ℕ). go_on f env (exec env (vm_opcode_table n) (vm_getarg (word v p)) ex v1)) code
    ∙ ap (λ (a : ℕ). go_on f env (exec env (vm_opcode_table op) a ex v1)) arg
    ∙ ap (λ (n : ℕ). go_on f env (exec env (vm_opcode_table op) low ex (record v { pc = n }))) pc
