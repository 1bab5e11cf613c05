-- ===== src/Filter/Frame.antt =====
-- What every instruction of the filter machine keeps: the stack index within the stack, the code, and
-- but for jumps the place in it. The stack and the short instructions (src/ubgp/filterintrin.h,
-- src/ubgp/filterintrin.c).
use ubgpsuite.Base.{
  ℕ, ◌+◌, ◌%◌, ◌^◌, ◌≤◌, ◌<◌, ◌≡◌, refl, Bool, true, false, ltb, ◌==◌, if◌then◌else◌, Bool-cases,
  inl, inr, Option, none, some, arith, subst, sym, if_true, if_false, ◌≢◌,
}
use ubgpsuite.Bgp.State.{Msg, Outcome, ret, fault}
use ubgpsuite.Filter.State.{
  Vm, Run, done, aborted, wild, crashed, stuck, unfinished, Exec, ◌>>=◌, Env, Cell, on_bgp, walked,
  put_cell, vm_growstack, push_with, vm_peek, vm_pop,
}

-- The stack index is within the stack, whose size does not wrap; the constants and the code are
-- within their blocks; and the machine stands at the same place of the same code.
abbrev pub Bounds : Vm → Type 0
Bounds v =
    (v.si ≤ v.stacksiz)
    × (0 < v.stacksiz)
    × (v.stacksiz < 2 ^ 16)
    × (v.stacksiz % 128 ≡ 0)
    × (v.ksiz ≤ v.maxk)
    × (v.codesiz ≤ v.maxcode)

abbrev pub Place : Vm → Vm → Type 0
Place v0 v =
    (v.pc ≡ v0.pc) × (v.code ≡ v0.code) × (v.codesiz ≡ v0.codesiz) × (v.maxcode ≡ v0.maxcode)

abbrev pub Same : Vm → Vm → Type 0
Same v0 v = Bounds v × Place v0 v

-- The run makes no access outside of the stack, the constants and the code, the interpreter's loop
-- has fuel enough, and wherever the run returns or aborts, the state has the property.
abbrev pub Keeps {ℓ} : {A : Type ℓ} → Run A → (Vm → Type 0) → Type 0
Keeps (done a v) P = P v
Keeps (aborted v) P = P v
Keeps wild P = ⊥
Keeps crashed P = Unit
Keeps stuck P = Unit
Keeps unfinished P = ⊥

pub Keeps-bind {ℓ κ} :
    {A : Type ℓ} {B : Type κ} (P Q : Vm → Type 0) (o : Run A) (f : A → Vm → Run B)
    → Keeps o P
    → ((v : Vm) → P v → Q v)
    → ((a : A) (v : Vm) → P v → Keeps (f a v) Q)
    → Keeps (o >>= f) Q
Keeps-bind P Q (done a v) f h w k = k a v h
Keeps-bind P Q (aborted v) f h w k = w v h
Keeps-bind P Q wild f h w k = absurd h
Keeps-bind P Q crashed f h w k = tt
Keeps-bind P Q stuck f h w k = tt
Keeps-bind P Q unfinished f h w k = absurd h

-- Two runs that go on alike from every state with the property.
pub bind-Keeps {ℓ κ} :
    {A : Type ℓ} {B : Type κ} (P : Vm → Type 0) (o : Run A) (f g : A → Vm → Run B)
    → Keeps o P
    → ((a : A) (v : Vm) → P v → f a v ≡ g a v)
    → (o >>= f) ≡ (o >>= g)
bind-Keeps P (done a v) f g h k = k a v h
bind-Keeps P (aborted v) f g h k = refl
bind-Keeps P wild f g h k = refl
bind-Keeps P crashed f g h k = refl
bind-Keeps P stuck f g h k = refl
bind-Keeps P unfinished f g h k = refl

pub Keeps-if {ℓ} :
    {A : Type ℓ} (P : Vm → Type 0) (b : Bool) (o r : Run A)
    → (b ≡ true → Keeps o P)
    → (b ≡ false → Keeps r P)
    → Keeps (if b then o else r) P
Keeps-if P true o r h k = h refl
Keeps-if P false o r h k = k refl

pub Keeps-option {ℓ κ} :
    {A : Type ℓ} {B : Type κ} (P : Vm → Type 0) (r : Option A) (o : Run B) (f : A → Run B)
    → Keeps o P
    → ((a : A) → Keeps (f a) P)
    → Keeps (elim r [ none ↦ o | some a ↦ f a ]) P
Keeps-option P none o f h k = h
Keeps-option P (some a) o f h k = k a

module _ (v0 : Vm) where
  -- One run after another, each of which keeps the state.
  pub then_Same {ℓ κ} :
      {A : Type ℓ} {B : Type κ} (o : Run A) (f : A → Vm → Run B)
      → Keeps o (Same v0)
      → ((a : A) (v : Vm) → Same v0 v → Keeps (f a v) (Same v0))
      → Keeps (o >>= f) (Same v0)
  then_Same o f h k = Keeps-bind (Same v0) (Same v0) o f h (λ v s. s) k

  pub on_bgp-Same {ℓ} :
      {A : Type ℓ} (f : Msg → Outcome A) (v : Vm) → Same v0 v → Keeps (on_bgp f v) (Same v0)
  on_bgp-Same {A = A} f v s =
      elim (f v.bgp)
        as (λ (o : Outcome A).
          Keeps (elim o [ ret a m ↦ done a (record v { bgp = m }) | fault ↦ crashed ]) (Same v0)) [
            | ret a m ↦ s
            | fault ↦ tt
          ]

  pub walked-Same {ℓ} :
      {A : Type ℓ} (r : Option A) (v : Vm) → Same v0 v → Keeps (walked r v) (Same v0)
  walked-Same none v s = tt
  walked-Same (some a) v s = s

  pub put_cell-Same :
      (f : Cell → Cell) (v : Vm) → Same v0 v → v.si < v.stacksiz → Keeps (put_cell f v) (Same v0)
  unfolding put_cell
  put_cell-Same f v s room =
      let (b, p) = s in
      Keeps-if (Same v0) (ltb v.si v.stacksiz) _ _ (λ h. ((ground (arith, h, b)), p))
        (λ h. absurd (ground (arith, h, room)))

  pub vm_pop-Same : (v : Vm) → Same v0 v → Keeps (vm_pop v) (Same v0)
  unfolding vm_pop
  vm_pop-Same v s =
      let (b, p) = s in
      Keeps-if (Same v0) (v.si == 0) _ _ (λ h. s) (λ h. ((ground (arith, h, b)), p))

  pub vm_peek-Same : (v : Vm) → Same v0 v → Keeps (vm_peek v) (Same v0)
  unfolding vm_peek
  vm_peek-Same v s = Keeps-if (Same v0) (v.si == 0) _ _ (λ h. s) (λ h. s)

  module _ (env : Env) (no_block : env.realloc 0 ≡ false) where
    -- A stack that grows has room: its size is not wrapped to 0, for which there is no block.
    not_wrapped : (n : ℕ) → env.realloc n ≡ true → n ≢ 0
    not_wrapped n h e = absurd (ground (arith, subst (λ k. env.realloc k ≡ true) e h, no_block))

    -- The state has room for one more cell, or it aborts.
    grown :
        (f : Cell → Cell) (v : Vm)
        → Same v0 v
        → v.si ≡ v.stacksiz
        → Keeps (vm_growstack env v >>= λ _ v. put_cell f v) (Same v0)
    unfolding vm_growstack
    grown f v s full =
        let (b, p) = s in
        elim (Bool-cases (env.realloc ((v.stacksiz + 128) % 2 ^ 16))) [
          | inl h ↦
              let nz = not_wrapped ((v.stacksiz + 128) % 2 ^ 16) h in
              let v' : Vm = record v {
                sp = λ i. if ltb i v.stacksiz then v.sp i else env.fresh i;
                stacksiz = (v.stacksiz + 128) % 2 ^ 16;
              } in
              subst (λ (o : Exec). Keeps (o >>= λ _ v. put_cell f v) (Same v0))
                (sym (if_true _ _ _ h))
                (put_cell-Same f v' (omega (arith, nz), p) (omega (arith, nz)))
          | inr h ↦
              subst (λ (o : Exec). Keeps (o >>= λ _ v. put_cell f v) (Same v0))
                (sym (if_false _ _ _ h)) s
        ]

    pub push_with-Same :
        (f : Cell → Cell) (v : Vm) → Same v0 v → Keeps (push_with env f v) (Same v0)
    unfolding push_with
    push_with-Same f v s = elim (Bool-cases (v.si == v.stacksiz)) [
      | inl h ↦
          subst (λ (o : Exec). Keeps (o >>= λ _ v. put_cell f v) (Same v0)) (sym (if_true _ _ _ h))
            (grown f v s (ground (arith, h)))
      | inr h ↦
          let (b, p) = s in
          subst (λ (o : Exec). Keeps (o >>= λ _ v. put_cell f v) (Same v0)) (sym (if_false _ _ _ h))
            (put_cell-Same f v s (ground (arith, h, b)))
    ]
