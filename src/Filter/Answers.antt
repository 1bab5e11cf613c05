-- ===== src/Filter/Answers.antt =====
-- Searches of the stack, and jumps out of a block (src/ubgp/filterintrin.h,
-- src/ubgp/filterintrin.c).
use ubgpsuite.Base.{
  ℕ, zero, suc, ◌+◌, ◌-◌, ◌%◌, ◌^◌, ◌≤◌, ◌<◌, ◌≡◌, ◌≢◌, refl, ap, Bool, true, false, ltb, leb, ◌==◌,
  if◌then◌else◌, Bool-cases, inl, inr, subst, sym, ◌∙◌, if_true, if_false, arith, Mem,
}
use ubgpsuite.Filter.State.{
  Vm, Run, done, wild, Exec, ◌>>=◌, Env, Cell, value_cell, put_cell, push_with, vm_clearstack,
  truth,
}
use ubgpsuite.Filter.Basic.{
  Test, constant, word, break_loop, vm_exec_break, contains_loop, contains,
}
use ubgpsuite.Filter.Returns.{Ends, Answered}

-- A cell below `n` passes the test against the constant.
unfoldable pub any_passes : Test → Env → (ℕ → Cell) → Cell → ℕ → Bool
any_passes test env sp a zero = false
any_passes test env sp a (suc n) =
    let rest = any_passes test env sp a n in if test env a (sp n) then true else rest

pushed_only :
    (env : Env) (b : Bool) (v : Vm)
    → v.si ≡ 0
    → 0 < v.stacksiz
    → Ends (push_with env (value_cell (truth b)) v) (λ _ v'. Answered b v')
unfolding push_with put_cell
pushed_only env b v empty room =
    let v' : Vm = record v {
      sp = λ i. if i == v.si then value_cell (truth b) (v.sp v.si) else v.sp i;
      si = (v.si + 1) % 2 ^ 16;
    } in
    let top : v'.sp 0 ≡ value_cell (truth b) (v.sp v.si) =
      if_true (0 == v.si) (value_cell (truth b) (v.sp v.si)) (v.sp 0) (ground (arith, empty)) in
    let one : v'.si ≡ 1 = omega (arith, empty) in
    subst
      (λ (o : Exec). Ends (o >>= λ _ v. put_cell (value_cell (truth b)) v) (λ _ v'. Answered b v'))
      (sym (if_false (v.si == v.stacksiz) _ (done tt v) (ground (arith, empty, room))))
      (subst (λ (o : Exec). Ends o (λ _ v'. Answered b v'))
        (sym (if_true (ltb v.si v.stacksiz) (done tt v') wild (ground (arith, empty, room))))
        (one, (v.sp v.si, top)))

contains_loop_lem :
    (test : Test) (env : Env) (left : ℕ) (a : Cell) (v : Vm)
    → v.si ≡ left
    → 0 < v.stacksiz
    → Ends (contains_loop test env left a v) (λ _ v'. Answered (any_passes test env v.sp a left) v')
unfolding contains_loop any_passes
contains_loop_lem test env zero a v h room = pushed_only env false v h room
contains_loop_lem test env (suc left) a v h room =
    let P = λ (b : Bool) (o : Exec). Ends o (λ _ v'. Answered b v') in
    let rest = any_passes test env v.sp a left in
    elim (Bool-cases (test env a (v.sp left))) [
      | inl e ↦ subst (P (if test env a (v.sp left) then true else rest)) (sym (if_true _ _ _ e)) (
          subst (λ (b : Bool). P b (push_with env (value_cell (truth true)) (vm_clearstack v)))
            (sym (if_true _ _ _ e)) (pushed_only env true (vm_clearstack v) refl room))
      | inr e ↦ subst (P (if test env a (v.sp left) then true else rest)) (sym (if_false _ _ _ e)) (
          subst (λ (b : Bool). P b (contains_loop test env left a (record v { si = left })))
            (sym (if_false _ _ _ e))
            (contains_loop_lem test env left a (record v { si = left }) refl room))
    ]

-- PFXCONTAINS, ADDRCONTAINS and ASCONTAINS, which differ in the test: for a constant that is there,
-- within the block of constants, and a stack of some size, the instruction returns and leaves one cell, which says whether any cell of
-- the stack passes the test against the constant.
pub contains_lem :
    (test : Test) (env : Env) (kidx : ℕ) (v : Vm)
    → kidx < v.ksiz
    → v.ksiz ≤ v.maxk
    → 0 < v.stacksiz
    → Ends
        (contains test env kidx v)
        (λ _ v'. Answered (any_passes test env v.sp (v.kp kidx) v.si) v')
unfolding constant
contains_lem test env kidx v known block room =
    let read = if_true (ltb kidx v.maxk) (done (v.kp kidx) v) wild (ground (arith, known, block)) in
    subst (λ (o : Exec). Ends o (λ _ v'. Answered (any_passes test env v.sp (v.kp kidx) v.si) v'))
      (sym (
        if_false (leb v.ksiz kidx) _ _ (ground (arith, known))
        ∙ ap (λ (o : Run Cell). o >>= λ a v. contains_loop test env v.si a v) read))
      (contains_loop_lem test env v.si (v.kp kidx) v refl room)

-- The code from `p` up to `q` is the body of a block: instructions that are neither BLK nor ENDBLK,
-- and whole blocks.
pub data Body (c : Mem) : ℕ → ℕ → Type 0 where
  empty_body : (p q : ℕ) → p ≡ q → Body c p q
  plain_op : (p q : ℕ) → c p % 2 ^ 16 ≢ 1 → c p % 2 ^ 16 ≢ 2 → Body c (suc p) q → Body c p q
  inner_blk :
      (p q r : ℕ)
      → c p % 2 ^ 16 ≡ 1
      → Body c (suc p) q
      → c q % 2 ^ 16 ≡ 2
      → Body c (suc q) r
      → Body c p r

Body-le : (c : Mem) (p q : ℕ) → Body c p q → p ≤ q
Body-le c p q (empty_body _ _ e) = omega (arith, e)
Body-le c p q (plain_op _ _ n1 n2 rest) = let h = Body-le c (suc p) q rest in omega (arith, h)
Body-le c p r (inner_blk _ q _ blk inside end rest) =
    let h = Body-le c (suc p) q inside in let k = Body-le c (suc q) r rest in omega (arith, h, k)

-- The machine at another place.
abbrev at_pc : Vm → ℕ → Vm
at_pc v p = record v { pc = p }

-- How many blocks are open after the word `w`, of `n` before it.
abbrev open_after : ℕ → ℕ → ℕ
open_after w n = let closed = if w == 2 then n - 1 else n in if w == 1 then closed + 1 else closed

-- One round at an instruction after which blocks are open.
break_step :
    (left n m : ℕ) (v : Vm) (p : ℕ)
    → suc p < 2 ^ 16
    → p < v.maxcode
    → open_after (v.code p % 2 ^ 16) n ≡ suc m
    → break_loop (suc left) n (at_pc v p) ≡ break_loop left (suc m) (at_pc v (suc p))
unfolding break_loop
break_step left n m v p small block e =
    let up : (p + 1) % 2 ^ 16 ≡ suc p = omega (arith, small) in
    if_true (ltb p v.maxcode) _ _ (ground (arith, block))
    ∙ subst
        (λ (x : ℕ).
          (if x == 0 then done tt (at_pc v p) else break_loop left x (at_pc v ((p + 1) % 2 ^ 16)))
          ≡ break_loop left (suc m) (at_pc v (suc p)))
        (sym e)
        (if_false (suc m == 0) _ _ (ground arith)
          ∙ ap (λ (k : ℕ). break_loop left (suc m) (at_pc v k)) up)

-- The same at a place before the end of the code, which stands at `size`.
break_at :
    (size n m : ℕ) (v : Vm) (p : ℕ)
    → p < size
    → size ≤ v.maxcode
    → size < 2 ^ 16
    → open_after (v.code p % 2 ^ 16) n ≡ suc m
    → break_loop (size - p) n (at_pc v p) ≡ break_loop (size - suc p) (suc m) (at_pc v (suc p))
break_at size n m v p h block small e =
    let more : size - p ≡ suc (size - suc p) = omega (arith, h) in
    ap (λ (l : ℕ). break_loop l n (at_pc v p)) more
    ∙ break_step (size - suc p) n m v p (omega (arith, h, small)) (omega (arith, h, block)) e

-- The loop passes over a body with the same blocks open.
break-Body :
    (size : ℕ) (v : Vm) (p q n : ℕ)
    → Body v.code p q
    → q < size
    → size ≤ v.maxcode
    → size < 2 ^ 16
    → break_loop (size - p) (suc n) (at_pc v p) ≡ break_loop (size - q) (suc n) (at_pc v q)
break-Body size v p q n (empty_body _ _ e) h block small =
    ap (λ (x : ℕ). break_loop (size - x) (suc n) (at_pc v x)) e
break-Body size v p q n (plain_op _ _ n1 n2 rest) h block small =
    let le = Body-le v.code (suc p) q rest in
    break_at size (suc n) n v p (omega (arith, le, h)) block small (ground (arith, n1, n2))
    ∙ break-Body size v (suc p) q n rest h block small
break-Body size v p r n (inner_blk _ q _ blk inside end rest) h block small =
    let le = Body-le v.code (suc p) q inside in
    let le' = Body-le v.code (suc q) r rest in
    break_at size (suc n) (suc n) v p (omega (arith, le, le', h)) block small (ground (arith, blk))
    ∙ break-Body size v (suc p) q (suc n) inside (omega (arith, le', h)) block small
    ∙ break_at size (suc (suc n)) n v q (omega (arith, le', h)) block small (ground (arith, end))
    ∙ break-Body size v (suc q) r n rest h block small

-- Where the code from `pc` on, all within its block of memory, is the body of a BLK, up to its ENDBLK
-- at `q`: `vm_exec_break` returns; it passes over the body, inner blocks included, and leaves the machine as it is but for `pc`, at that ENDBLK.
pub vm_exec_break_lem :
    (v : Vm) (q : ℕ)
    → Body v.code v.pc q
    → v.code q % 2 ^ 16 ≡ 2
    → q < v.codesiz
    → v.codesiz ≤ v.maxcode
    → v.codesiz < 2 ^ 16
    → vm_exec_break v ≡ done tt (at_pc v q)
unfolding break_loop
vm_exec_break_lem v q body end h block small =
    let more : v.codesiz - q ≡ suc (v.codesiz - suc q) = omega (arith, h) in
    break-Body v.codesiz v v.pc q 0 body h block small
    ∙ ap (λ (l : ℕ). break_loop l 1 (at_pc v q)) more
    ∙ if_true (ltb q v.maxcode) _ _ (ground (arith, h, block))
    ∙ if_true (open_after (word v q) 1 == 0) (done tt (at_pc v q)) _ (ground (arith, end))
