-- ===== src/Filter/Dispatch.antt =====
-- The interpreter with computed gotos, which runs a predicted instruction at once, against the one in
-- portable C (src/ubgp/filterpacket.c).
use ubgpsuite.Base.{
  ℕ, zero, suc, ◌+◌, ◌%◌, ◌^◌, ◌<◌, ◌≡◌, ◌≢◌, refl, ap, true, false, ltb, ◌⊎◌, Bool-cases, inl, inr,
  subst, sym, ◌∙◌, if_true, if_false, Option, none, some, arith, Mem,
}
use ubgpsuite.Bgp.State.{Msg}
use ubgpsuite.Filter.State.{Vm, done, Exec, ◌>>=◌, Env}
use ubgpsuite.Filter.Basic.{word}
use ubgpsuite.Filter.Segments.{vm_getopcode, vm_getarg}
use ubgpsuite.Filter.Opcodes.{Opcode, unpack, predicts, vm_opcode_table}
use ubgpsuite.Filter.Machine.{Flow, next, to_done}
use ubgpsuite.Filter.Loop.{
  advance, look_ahead, execute, plain_loop, predicted, predict, goto_from, goto_loop, finish, catch,
  restarted, prepare_tries, bgp_filter,
}
use ubgpsuite.Filter.Frame.{Same, Keeps, bind-Keeps}
use ubgpsuite.Filter.FrameExec.{Sound, Later, jumps, predicts-jumps, exec-Same}
use ubgpsuite.Filter.FrameJump.{exec-Later}
use ubgpsuite.Filter.Safety.{op_at, Program, started-Later, restarted-Program}

-- The word after the code is readable, and no instruction predicts it.
pub record Fenced (v : Vm) : Type 0 where
  pub spare : v.codesiz < v.maxcode
  pub quiet : (op : Opcode) → predicts op (op_at v v.codesiz) ≡ false

-- A word read ahead: it is the next one, or it is behind the code and never predicted.
abbrev pub Agrees : Vm → Option ℕ → Type 0
Agrees v np =
    (np ≡ look_ahead v)
    ⊎ ((w : ℕ) × (np ≡ some w)
        × ((op : Opcode) → predicts op (vm_opcode_table (vm_getopcode w)) ≡ false))

-- A word that is not predicted after anything, after an instruction that jumps.
unpredicted : (ip w : ℕ) → jumps (vm_opcode_table (vm_getopcode ip)) ≡ true → predicted ip w ≡ false
unpredicted ip w h = elim (Bool-cases (predicted ip w)) [
  | inl e ↦
      let no = predicts-jumps (vm_opcode_table (vm_getopcode ip)) _ e in
      absurd (ground (arith, h, no))
  | inr e ↦ e
]

module _ (v0 : Vm) (env : Env) (sound : Sound env) (prog : Program v0) (fence : Fenced v0) where
  -- What a loop does when it fetches, and when it goes on with an instruction, in terms of `plain`.
  abbrev Fetches : (Option (ℕ × Option ℕ) → ℕ → Vm → Exec) → (ℕ → Vm → Exec) → Type 0
  Fetches loop plain = (ex : ℕ) (v : Vm) → Later v0 v → loop none ex v ≡ plain ex v

  abbrev GoesOn : (Option (ℕ × Option ℕ) → ℕ → Vm → Exec) → (ℕ → Vm → Exec) → Type 0
  GoesOn loop plain =
      (np : Option ℕ) (ex : ℕ) (v : Vm)
      → Later v0 v
      → v.pc < v0.codesiz
      → Agrees (advance v) np
      → loop (some (word v v.pc, np)) ex (advance v) ≡ plain ex v

  -- The word after a predicted one.
  Agrees-next :
      (v : Vm) → Later v0 v → v.pc < v0.codesiz → Agrees (advance v) (some (word v (v.pc + 1)))
  Agrees-next v (b, lo, hi, c, n, m) h =
      let stay : (v.pc + 1) % 2 ^ 16 ≡ v.pc + 1 = omega (arith, h, prog.size) in
      elim (Bool-cases (ltb (v.pc + 1) v.codesiz)) [
        | inl e ↦ inl (
            ap (λ (k : ℕ). some (word v k)) (sym stay)
            ∙ sym (
                if_true (ltb ((v.pc + 1) % 2 ^ 16) v.codesiz) (some (word v ((v.pc + 1) % 2 ^ 16)))
                  none (ap (λ (k : ℕ). ltb k v.codesiz) stay ∙ e)))
        | inr e ↦
            let last : v.pc + 1 ≡ v0.codesiz = ground (arith, e, h, n) in
            let same : word v (v.pc + 1) ≡ word v0 v0.codesiz =
              ap (λ (code : Mem). code (v.pc + 1) % 2 ^ 16) c ∙ ap (λ (k : ℕ). word v0 k) last in
            inr (
              word v (v.pc + 1),
              refl,
              λ op.
                  ap (λ (w : ℕ). predicts op (vm_opcode_table (vm_getopcode w))) same
                  ∙ fence.quiet op,
            )
      ]

  -- A word that was read ahead is predicted only where it is the next one.
  ahead_word :
      (v : Vm) (w ip : ℕ)
      → Agrees v (some w)
      → predicted ip w ≡ true
      → (w ≡ word v v.pc) × (v.pc < v.codesiz)
  ahead_word v w ip (inl e) p = elim (Bool-cases (ltb v.pc v.codesiz)) [
    | inl h ↦
        let same = e ∙ if_true (ltb v.pc v.codesiz) (some (word v v.pc)) none h in
        ((cc), ground (arith, h))
    | inr h ↦
        let same = e ∙ if_false (ltb v.pc v.codesiz) (some (word v v.pc)) none h in absurd (cc)
  ]
  ahead_word v w ip (inr (x, e, q)) p =
      let same : w ≡ x = cc in
      let no = q (vm_opcode_table (vm_getopcode ip)) in
      absurd (ground (arith, subst (λ (y : ℕ). predicted ip y ≡ true) same p, no))

  predict-plain :
      (loop : Option (ℕ × Option ℕ) → ℕ → Vm → Exec) (plain : ℕ → Vm → Exec) (ip : ℕ)
      → (np : Option ℕ) (ex : ℕ) (v v' : Vm) → Fetches loop plain
      → GoesOn loop plain
      → Agrees v np
      → Same v v'
      → Later v0 v'
      → predict loop ip np ex v' ≡ plain ex v'
  unfolding predict
  predict-plain loop plain ip none ex v v' fetch on agree s l = fetch ex v' l
  predict-plain loop plain ip (some w) ex v v' fetch on agree s l =
      elim (Bool-cases (predicted ip w)) [
        | inr e ↦ if_false _ _ _ e ∙ fetch ex v' l
        | inl e ↦
            let (same, h) = ahead_word v w ip agree e in
            let (b, (p, c, n, m)) = s in
            let (b', lo, hi, c', n', m') = l in
            let inside : v'.pc < v0.codesiz = omega (arith, h, p, n, n') in
            let at_v' : w ≡ word v' v'.pc =
              same
              ∙ ap (λ (k : ℕ). word v k) (sym p)
              ∙ ap (λ (code : Mem). code v'.pc % 2 ^ 16) (sym c) in
            if_true _ _ _ e
            ∙ if_true (ltb v'.pc v'.codesiz) _ _ (ground (arith, inside, n'))
            ∙ if_true (ltb (v'.pc + 1) v'.maxcode) _ _ (ground (arith, inside, m', fence.spare))
            ∙ ap (λ (x : ℕ). loop (some (x, some (word v' (v'.pc + 1)))) ex (advance v')) at_v'
            ∙ on (some (word v' (v'.pc + 1))) ex v' l inside (Agrees-next v' l inside)
      ]

  -- An instruction that jumps has no prediction.
  predict_off :
      (loop : Option (ℕ × Option ℕ) → ℕ → Vm → Exec) (ip : ℕ) (np : Option ℕ) (ex : ℕ) (v : Vm)
      → jumps (vm_opcode_table (vm_getopcode ip)) ≡ true
      → predict loop ip np ex v ≡ loop none ex v
  unfolding predict
  predict_off loop ip none ex v h = refl
  predict_off loop ip (some w) ex v h = if_false _ _ _ (unpredicted ip w h)

  -- One instruction, and then either loop.
  abbrev plain_from : (ℕ → Vm → Exec) → ℕ → ℕ → Vm → Exec
  plain_from plain ip ex v =
      execute env ip ex v >>= λ flow v. elim flow [ next ex' ↦ plain ex' v | to_done ↦ done tt v ]

  goto_from-plain :
      (loop : Option (ℕ × Option ℕ) → ℕ → Vm → Exec) (plain : ℕ → Vm → Exec) (ip : ℕ)
      → (np : Option ℕ) (ex : ℕ) (v : Vm) → Fetches loop plain
      → GoesOn loop plain
      → Agrees v np
      → vm_opcode_table (vm_getopcode ip) ≢ unpack
      → Later v0 v
      → goto_from loop env ip np ex v ≡ plain_from plain ip ex v
  goto_from-plain loop plain ip np ex v fetch on agree other l =
      let (b, lo, hi, c, n, m) = l in
      let op = vm_opcode_table (vm_getopcode ip) in
      let here : Same v v = (b, (refl, refl, refl, refl)) in
      let flows : (P : Vm → Type 0)
          → Keeps (execute env ip ex v) P
          → ((ex' : ℕ) (v' : Vm) → P v' → predict loop ip np ex' v' ≡ plain ex' v')
          → goto_from loop env ip np ex v ≡ plain_from plain ip ex v =
        λ P keeps same. bind-Keeps P (execute env ip ex v) _ _ keeps (λ flow v' p.
          elim flow
            as (λ (w : Flow).
              ◌≡◌ {A = Exec}
                (elim w [ next ex' ↦ predict loop ip np ex' v' | to_done ↦ done tt v' ])
                (elim w [ next ex' ↦ plain ex' v' | to_done ↦ done tt v' ])) [
                  | next ex' ↦ same ex' v' p
                  | to_done ↦ refl
                ]) in
      elim (Bool-cases (jumps op)) [
        | inl j ↦
            flows (Later v)
              (exec-Later v (omega (arith, n, prog.size)) env sound op (vm_getarg ip) ex v other
                here (omega (arith, n, hi)))
              (λ ex' v' (b', lo', hi', c', n', m').
                predict_off loop ip np ex' v' j
                ∙ fetch ex' v'
                    (b', omega (arith, lo, lo'), omega (arith, hi', n), c' ∙ c, n' ∙ n, m' ∙ m))
        | inr j ↦ flows (Same v) (exec-Same v env sound op (vm_getarg ip) ex v j here) (λ ex' v' s.
            let (b', (p', c', n', m')) = s in
            predict-plain loop plain ip np ex' v v' fetch on agree s
              (b', omega (arith, lo, p'), omega (arith, hi, p'), c' ∙ c, n' ∙ n, m' ∙ m))
      ]

  -- The instruction at the place, which is one of the program's.
  not_unpack : (v : Vm) → Later v0 v → v.pc < v0.codesiz → op_at v v.pc ≢ unpack
  not_unpack v (b, lo, hi, c, n, m) h e =
      prog.no_unpack v.pc h
        (sym (ap (λ (code : Mem). vm_opcode_table (vm_getopcode (code v.pc % 2 ^ 16))) c) ∙ e)

  advance-Later : (v : Vm) → Later v0 v → v.pc < v0.codesiz → Later v0 (advance v)
  advance-Later v (b, lo, hi, c, n, m) h =
      (b, omega (arith, lo, h, prog.size), omega (arith, h, prog.size), c, n, m)

  -- With one more round, both loops fetch alike and go on alike, if they do with one less.
  Fetches-more :
      (f : ℕ)
      → Fetches (goto_loop f env) (plain_loop f env)
      → GoesOn (goto_loop f env) (plain_loop f env)
      → Fetches (goto_loop (suc f) env) (plain_loop (suc f) env)
  unfolding goto_loop plain_loop
  Fetches-more f fetch on ex v l =
      let (b, lo, hi, c, n, m) = l in
      elim (Bool-cases (ltb v.pc v.codesiz)) [
        | inl e ↦
            let h : v.pc < v0.codesiz = ground (arith, e, n) in
            let readable : ltb v.pc v.maxcode ≡ true = ground (arith, e, b) in
            if_true _ _ _ e
            ∙ if_true _ _ _ readable
            ∙ goto_from-plain (goto_loop f env) (plain_loop f env) (word v v.pc)
                (look_ahead (advance v)) ex (advance v) fetch on (inl refl) (not_unpack v l h)
                (advance-Later v l h)
            ∙ sym (if_true _ _ _ readable)
            ∙ sym (if_true _ _ _ e)
        | inr e ↦ if_false _ _ _ e ∙ sym (if_false _ _ _ e)
      ]

  GoesOn-more :
      (f : ℕ)
      → Fetches (goto_loop f env) (plain_loop f env)
      → GoesOn (goto_loop f env) (plain_loop f env)
      → GoesOn (goto_loop (suc f) env) (plain_loop (suc f) env)
  unfolding goto_loop plain_loop
  GoesOn-more f fetch on np ex v l h agree =
      let (b, lo, hi, c, n, m) = l in
      goto_from-plain (goto_loop f env) (plain_loop f env) (word v v.pc) np ex (advance v) fetch on
        agree (not_unpack v l h) (advance-Later v l h)
      ∙ sym (if_true (ltb v.pc v.maxcode) _ _ (ground (arith, h, n, b)))
      ∙ sym (if_true (ltb v.pc v.codesiz) _ _ (ground (arith, h, n)))

  goto_plain :
      (f : ℕ)
      → Fetches (goto_loop f env) (plain_loop f env) × GoesOn (goto_loop f env) (plain_loop f env)
  unfolding goto_loop plain_loop
  goto_plain zero = (λ ex v l. refl, λ np ex v l h a. refl)
  goto_plain (suc f) =
      let (fetch, on) = goto_plain f in (Fetches-more f fetch on, GoesOn-more f fetch on)

-- For a machine with a stack of a multiple of 128 cells, at least one and fewer than 2^16, with fewer
-- than 2^16 instructions, none of them UNPACK, and with its constants and its code within their
-- blocks, in an environment where there is no block of no bytes, and where the user's functions access
-- no stack, constant or code out of bounds and keep these bounds, the code and the place in it:
-- when the word after the code can be read and is not predicted after any instruction, the build with
-- computed gotos gives the same result as portable C, for every message and every amount of fuel.
pub bgp_filter_goto :
    (fuel : ℕ) (env : Env) (msg : Msg) (v : Vm)
    → Sound env
    → Program v
    → Fenced v
    → bgp_filter false fuel env msg v ≡ bgp_filter true fuel env msg v
unfolding bgp_filter
bgp_filter_goto fuel env msg v sound prog fence =
    let v0 = restarted msg v in
    let p0 = restarted-Program msg v prog in
    let f0 : Fenced v0 = record { spare = fence.spare; quiet = fence.quiet } in
    ap catch (
      bind-Keeps (Later v0) (prepare_tries env v0) _ _ (started-Later v0 env sound p0 refl refl)
        (λ _ v1 l.
          ap (λ (r : Exec). r >>= λ _ v. finish env v)
            ((goto_plain v0 env sound p0 f0 fuel).0 0 v1 l)))
