-- ===== src/Filter/FrameJump.antt =====
-- What the jumps of the filter machine keep, and so every instruction but UNPACK
-- (src/ubgp/filterintrin.h, src/ubgp/filterpacket.c).
use ubgpsuite.Base.{
  ℕ, zero, suc, ◌+◌, ◌-◌, ◌%◌, ◌^◌, ◌≤◌, ◌<◌, ◌≡◌, ◌≢◌, refl, false, ltb, ◌==◌, if◌then◌else◌,
  Bool-cases, inl, inr, subst, sym, if_true, if_false, arith,
}
use ubgpsuite.Filter.State.{
  Vm, Run, done, aborted, wild, crashed, stuck, unfinished, Cell, ◌>>=◌, Env, value_cell, value_of,
  vm_peek, set_top,
}
use ubgpsuite.Filter.Basic.{word, break_loop}
use ubgpsuite.Filter.Opcodes.{Opcode, cpass, cfail, unpack}
use ubgpsuite.Filter.Machine.{next, leave_blk, drop_top, exec}
use ubgpsuite.Filter.Frame.{Same, Keeps, Keeps-if, Keeps-bind}
use ubgpsuite.Filter.FrameExec.{Sound, Later, jumps, exec-Same}

pub Keeps-map {ℓ} :
    {A : Type ℓ} (P Q : Vm → Type 0) (o : Run A) → Keeps o P → ((v : Vm) → P v → Q v) → Keeps o Q
Keeps-map P Q (done a v) h k = k v h
Keeps-map P Q (aborted v) h k = k v h
Keeps-map P Q wild h k = absurd h
Keeps-map P Q crashed h k = tt
Keeps-map P Q stuck h k = tt
Keeps-map P Q unfinished h k = absurd h

module _ (v0 : Vm) (small : v0.codesiz < 2 ^ 16) where
  -- A jump goes on as far as the end of the code.
  break_loop-Later :
      (left nblk : ℕ) (v : Vm)
      → Later v0 v
      → v.pc + left ≤ v0.codesiz
      → Keeps (break_loop left nblk v) (Later v0)
  unfolding break_loop
  break_loop-Later zero nblk v l h = l
  break_loop-Later (suc left) nblk v (b, lo, hi, c, n, m) h =
      let w = word v v.pc in
      let closed = if w == 2 then nblk - 1 else nblk in
      let nblk' = if w == 1 then closed + 1 else closed in
      let v' : Vm = record v { pc = (v.pc + 1) % 2 ^ 16 } in
      let further =
        break_loop-Later left nblk' v'
          (b, omega (arith, small, h, lo), omega (arith, small, h), c, n, m)
          (omega (arith, small, h)) in
      Keeps-if (Later v0) (ltb v.pc v.maxcode) _ _
        (λ _. Keeps-if (Later v0) (nblk' == 0) _ _ (λ _. (b, lo, hi, c, n, m)) (λ _. further))
        (λ e. absurd (ground (arith, e, h, n, b)))

  leave_blk-Later : (ex : ℕ) (v : Vm) → Later v0 v → Keeps (leave_blk ex v) (Later v0)
  leave_blk-Later ex v l =
      let (b, lo, hi, c, n, m) = l in
      Keeps-if (Later v0) (v.curblk == 0) _ _ (λ _. l)
        λ _.
          Keeps-bind (Later v0) (Later v0) (break_loop (v.codesiz - v.pc) 1 v) _
            (break_loop-Later (v.codesiz - v.pc) 1 v l (omega (arith, n, hi))) (λ v l. l)
            (λ _ v l. l)

  peek_cases {ℓ} :
      {A : Type ℓ} (v : Vm) (f : Cell → Vm → Run A)
      → Later v0 v
      → ((c : Cell) → (0 < v.si) → Keeps (f c v) (Later v0))
      → Keeps (vm_peek v >>= f) (Later v0)
  unfolding vm_peek
  peek_cases v f l k = elim (Bool-cases (v.si == 0)) [
    | inl e ↦ subst (λ (o : Run Cell). Keeps (o >>= f) (Later v0)) (sym (if_true _ _ _ e)) l
    | inr e ↦
        subst (λ (o : Run Cell). Keeps (o >>= f) (Later v0)) (sym (if_false _ _ _ e))
          (k (v.sp (v.si - 1)) (ground (arith, e)))
  ]

  drop_top-Later : (v : Vm) → Later v0 v → 0 < v.si → Later v0 (drop_top v)
  drop_top-Later v ((l, z, w, m, ks, cs), lo, hi, c, n, k) h =
      ((omega (arith, l, w, h), z, w, m, ks, cs), lo, hi, c, n, k)

  module _ (env : Env) (sound : Sound env) where
    steady-Later :
        (op : Opcode) (own ex : ℕ) (v : Vm)
        → jumps op ≡ false
        → Same v0 v
        → v0.pc ≤ v0.codesiz
        → Keeps (exec env op own ex v) (Later v0)
    steady-Later op own ex v h s hi =
        Keeps-map (Same v0) (Later v0) (exec env op own ex v)
          (exec-Same v0 env sound op own ex v h s)
          (λ v (b, (p, c, n, m)). (b, omega (arith, p), omega (arith, p, hi), c, n, m))

    pub exec-Later :
        (op : Opcode) (own ex : ℕ) (v : Vm)
        → op ≢ unpack
        → Same v0 v
        → v0.pc ≤ v0.codesiz
        → Keeps (exec env op own ex v) (Later v0)
    unfolding exec
    exec-Later cpass own ex v other (b, (p, c, n, m)) hi =
        let l : Later v0 v = (b, omega (arith, p), omega (arith, p, hi), c, n, m) in
        peek_cases v
          (λ cell v.
            if value_of env.layout cell == 0 then done (next ex) (drop_top v) else leave_blk ex v)
          l
          (λ cell h.
            Keeps-if (Later v0) (value_of env.layout cell == 0) _ _ (λ _. drop_top-Later v l h)
              (λ _. leave_blk-Later ex v l))
    exec-Later cfail own ex v other (b, (p, c, n, m)) hi =
        let l : Later v0 v = (b, omega (arith, p), omega (arith, p, hi), c, n, m) in
        peek_cases v
          (λ cell v.
            if value_of env.layout cell == 0
            then done (next ex) (drop_top v)
            else leave_blk ex (set_top (value_cell 0) v))
          l
          (λ cell h.
            Keeps-if (Later v0) (value_of env.layout cell == 0) _ _ (λ _. drop_top-Later v l h)
              (λ _. leave_blk-Later ex (set_top (value_cell 0) v) l))
    exec-Later unpack own ex v other s hi = absurd (other refl)
    exec-Later op own ex v other s hi = steady-Later op own ex v refl s hi
