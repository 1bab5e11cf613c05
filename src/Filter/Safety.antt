-- ===== src/Filter/Safety.antt =====
-- The interpreter of the filter machine accesses its stack, constants and code within their bounds,
-- and ends (src/ubgp/filterpacket.c).
use ubgpsuite.Base.{
  ℕ, zero, suc, ◌+◌, ◌%◌, ◌^◌, ◌≤◌, ◌<◌, ◌≡◌, ◌≢◌, refl, ap, true, ltb, Bool-cases, inl, inr, sym,
  ◌∙◌, if_true, if_false, arith, Mem,
}
use ubgpsuite.Bgp.State.{Msg}
use ubgpsuite.Filter.State.{Vm, done, Exec, ◌>>=◌, Env}
use ubgpsuite.Filter.Basic.{
  word, vm_exec_settrie, vm_exec_settrie6, vm_exec_clrtrie, vm_exec_clrtrie6,
}
use ubgpsuite.Filter.Segments.{vm_getopcode, vm_getarg}
use ubgpsuite.Filter.Opcodes.{Opcode, unpack, vm_opcode_table}
use ubgpsuite.Filter.Machine.{Flow, next, to_done}
use ubgpsuite.Filter.Loop.{
  advance, execute, plain_loop, finish, catch, restarted, prepare_tries, bgp_filter,
}
use ubgpsuite.Filter.Frame.{Same, Keeps, Keeps-if, Keeps-bind, bind-Keeps, then_Same}
use ubgpsuite.Filter.FrameBasic.{vm_exec_settrie-Same, vm_exec_settrie6-Same}
use ubgpsuite.Filter.FrameExec.{Sound, Later}
use ubgpsuite.Filter.FrameJump.{Keeps-map, exec-Later}

-- The opcode of the instruction at a place.
abbrev pub op_at : Vm → ℕ → Opcode
op_at v pc = vm_opcode_table (vm_getopcode (word v pc))

-- A machine that can be started: its stack has the size that it is given and grown to, its constants
-- and its code are within their blocks, and its code has no UNPACK, whose array need not lie in the
-- heap and which may grow the stack until its size wraps.
pub record Program (v : Vm) : Type 0 where
  pub size : v.codesiz < 2 ^ 16
  pub not_empty : 0 < v.stacksiz
  pub stack : v.stacksiz < 2 ^ 16
  pub whole : v.stacksiz % 128 ≡ 0
  pub constants : v.ksiz ≤ v.maxk
  pub words : v.codesiz ≤ v.maxcode
  pub no_unpack : (pc : ℕ) → pc < v.codesiz → op_at v pc ≢ unpack

module _ (v0 : Vm) (env : Env) (sound : Sound env) (prog : Program v0) where
  -- One round keeps the bounds and goes on in the code.
  pub round-Later :
      (ex : ℕ) (v : Vm)
      → Later v0 v
      → v.pc < v0.codesiz
      → Keeps (execute env (word v v.pc) ex (advance v)) (λ v'. Later v0 v' × (v.pc < v'.pc))
  round-Later ex v (b, lo, hi, c, n, m) h =
      let v1 : Vm = advance v in
      let same_op : op_at v v.pc ≡ op_at v0 v.pc =
        ap (λ (code : Mem). vm_opcode_table (vm_getopcode (code v.pc % 2 ^ 16))) c in
      Keeps-map (Later v1) (λ v'. Later v0 v' × (v.pc < v'.pc)) (execute env (word v v.pc) ex v1)
        (exec-Later v1 (omega (arith, n, prog.size)) env sound (op_at v v.pc)
          (vm_getarg (word v v.pc)) ex v1 (λ e. prog.no_unpack v.pc h (sym same_op ∙ e))
          (b, (refl, refl, refl, refl)) (omega (arith, n, h, prog.size)))
        (λ v' (b', lo', hi', c', n', m'). (
          (b', omega (arith, lo, lo', h, prog.size), omega (arith, hi', n), c' ∙ c, n' ∙ n, m' ∙ m),
          omega (arith, lo', h, prog.size),
        ))

  pub plain_loop-Later :
      (fuel ex : ℕ) (v : Vm)
      → Later v0 v
      → v0.codesiz < fuel + v.pc
      → Keeps (plain_loop fuel env ex v) (Later v0)
  unfolding plain_loop
  plain_loop-Later zero ex v (b, lo, hi, c, n, m) k = absurd (omega (arith, k, hi))
  plain_loop-Later (suc fuel) ex v l k =
      let (b, lo, hi, c, n, m) = l in
      Keeps-if (Later v0) (ltb v.pc v.codesiz) _ _
        (λ h.
          Keeps-if (Later v0) (ltb v.pc v.maxcode) _ _
            (λ _.
              Keeps-bind (λ v'. Later v0 v' × (v.pc < v'.pc)) (Later v0)
                (execute env (word v v.pc) ex (advance v)) _
                (round-Later ex v l (ground (arith, h, n))) (λ v' p. p.0)
                (λ flow v' (l', up).
                  elim flow
                    as (λ (w : Flow).
                      Keeps {0} {A = Unit {0}}
                        (elim w [ next ex' ↦ plain_loop fuel env ex' v' | to_done ↦ done tt v' ])
                        (Later v0)) [
                          | next ex' ↦ plain_loop-Later fuel ex' v' l' (omega (arith, up, k))
                          | to_done ↦ l'
                        ]))
            (λ e. absurd (ground (arith, e, h, b))))
        (λ _. l)

  -- Any two amounts of fuel that exceed the instructions that are left give the same run.
  pub plain_loop_fuel :
      (f g ex : ℕ) (v : Vm)
      → Later v0 v
      → v0.codesiz < f + v.pc
      → v0.codesiz < g + v.pc
      → plain_loop f env ex v ≡ plain_loop g env ex v
  unfolding plain_loop
  plain_loop_fuel zero g ex v (b, lo, hi, c, n, m) h k = absurd (omega (arith, h, hi))
  plain_loop_fuel (suc f) zero ex v (b, lo, hi, c, n, m) h k = absurd (omega (arith, k, hi))
  plain_loop_fuel (suc f) (suc g) ex v l h k =
      let (b, lo, hi, c, n, m) = l in
      elim (Bool-cases (ltb v.pc v.codesiz)) [
        | inr e ↦ if_false _ _ _ e ∙ sym (if_false _ _ _ e)
        | inl e ↦
            let readable : ltb v.pc v.maxcode ≡ true = ground (arith, e, b) in
            if_true _ _ _ e
            ∙ if_true _ _ _ readable
            ∙ bind-Keeps (λ v'. Later v0 v' × (v.pc < v'.pc))
                (execute env (word v v.pc) ex (advance v)) _ _
                (round-Later ex v l (ground (arith, e, n)))
                (λ flow v' (l', up).
                  elim flow
                    as (λ (w : Flow).
                      ◌≡◌ {A = Exec}
                        (elim w [ next ex' ↦ plain_loop f env ex' v' | to_done ↦ done tt v' ])
                        (elim w [ next ex' ↦ plain_loop g env ex' v' | to_done ↦ done tt v' ])) [
                          | next ex' ↦
                              plain_loop_fuel f g ex' v' l' (omega (arith, up, h))
                                (omega (arith, up, k))
                          | to_done ↦ refl
                        ])
            ∙ sym (if_true _ _ _ readable)
            ∙ sym (if_true _ _ _ e)
      ]

  prepare_tries-Same : (v : Vm) → Same v0 v → Keeps (prepare_tries env v) (Same v0)
  unfolding prepare_tries vm_exec_clrtrie vm_exec_clrtrie6
  prepare_tries-Same v s =
      then_Same v0 (vm_exec_settrie 0 v) _ (vm_exec_settrie-Same v0 0 v s)
        λ _ v s. then_Same v0 (vm_exec_settrie6 1 v) _ (vm_exec_settrie6-Same v0 1 v s) (λ _ v s. s)

  Same→Later : v0.pc ≤ v0.codesiz → (v : Vm) → Same v0 v → Later v0 v
  Same→Later hi v (b, (p, c, n, m)) = (b, omega (arith, p), omega (arith, p, hi), c, n, m)

  -- From the start up to the loop.
  pub started-Later : v0.pc ≡ 0 → v0.si ≡ 0 → Keeps (prepare_tries env v0) (Later v0)
  started-Later start clear =
      Keeps-map (Same v0) (Later v0) (prepare_tries env v0)
        (prepare_tries-Same v0 (
          (
            omega (arith, clear),
            prog.not_empty,
            prog.stack,
            prog.whole,
            prog.constants,
            prog.words,
          ),
          (refl, refl, refl, refl),
        ))
        (Same→Later (omega (arith, start)))

pub restarted-Program : (msg : Msg) (v : Vm) → Program v → Program (restarted msg v)
restarted-Program msg v p = record {
  size = p.size;
  not_empty = p.not_empty;
  stack = p.stack;
  whole = p.whole;
  constants = p.constants;
  words = p.words;
  no_unpack = p.no_unpack;
}

-- For a machine with a stack of a multiple of 128 cells, at least one and fewer than 2^16, with fewer
-- than 2^16 instructions, none of them UNPACK, and with its constants and its code within their
-- blocks, in an environment where there is no block of no bytes, and where the user's functions access
-- no stack, constant or code out of bounds and keep these bounds, the code and the place in it:
-- the portable filter gives the same result for any two amounts of fuel that exceed the number of
-- instructions, so it runs at most as many rounds as there are instructions.
pub bgp_filter_fuel :
    (f g : ℕ) (env : Env) (msg : Msg) (v : Vm)
    → Sound env
    → Program v
    → v.codesiz < f
    → v.codesiz < g
    → bgp_filter true f env msg v ≡ bgp_filter true g env msg v
unfolding bgp_filter
bgp_filter_fuel f g env msg v sound prog h k =
    let v0 = restarted msg v in
    let p0 = restarted-Program msg v prog in
    ap catch (
      bind-Keeps (Later v0) (prepare_tries env v0) _ _ (started-Later v0 env sound p0 refl refl)
        (λ _ v1 l.
          ap (λ (r : Exec). r >>= λ _ v. finish env v)
            (plain_loop_fuel v0 env sound p0 f g 0 v1 l (omega (arith, h)) (omega (arith, k)))))
