-- ===== src/Filter/Emit.antt =====
-- The code that `vm_emit_ex` emits, as the interpreter runs it (src/ubgp/filterintrin.c,
-- src/ubgp/filterpacket.c).
use ubgpsuite.Base.{
  ℕ, zero, suc, ◌+◌, ◌*◌, ◌/◌, ◌%◌, ◌^◌, ◌≤◌, ◌<◌, ◌≡◌, refl, ap, ◌==◌, ◌⊎◌, inl, inr, subst, sym,
  ◌∙◌, if_true, arith, List, [], ◌∷◌, Mem,
}
use ubgpsuite.Filter.State.{Vm, Env}
use ubgpsuite.Filter.Segments.{
  vm_makeop, vm_extendarg, emit_at, vm_emit, most_significant, emit_exargs, vm_emit_ex,
}
use ubgpsuite.Filter.Opcodes.{vm_opcode_table}
use ubgpsuite.Filter.Machine.{exec}
use ubgpsuite.Filter.Loop.{plain_loop}
use ubgpsuite.Filter.Paths.{length}
use ubgpsuite.Filter.Exargs.{
  HasExargs, gather, rounds_then, rounds_then_lem, HasExargs-agree, Emitted, Emitted-run, go_on,
}

-- Where there is room, an instruction is stored behind the code.
emit_room : (env : Env) (w : ℕ) (v : Vm) → v.codesiz < v.maxcode → (vm_emit env w v).0 ≡ emit_at w v
unfolding vm_emit
emit_room env w v h = ground (arith, h)

most_significant-cases :
    (idx : ℕ)
    → idx < 2 ^ 31
    → ((most_significant 3 idx ≡ 0) × (idx < 2 ^ 8))
      ⊎ ((most_significant 3 idx ≡ 1) × (idx < 2 ^ 16))
      ⊎ ((most_significant 3 idx ≡ 2) × (idx < 2 ^ 24))
      ⊎ (most_significant 3 idx ≡ 3)
unfolding most_significant
most_significant-cases idx h = ground (arith, h)

-- The bytes of a number from byte `k` down to byte 1.
abbrev bytes_of : ℕ → ℕ → List ℕ
bytes_of idx zero = []
bytes_of idx (suc k) = idx / 2 ^ (8 * suc k) % 2 ^ 8 ∷ bytes_of idx k

byte_lt : (n : ℕ) → n % 2 ^ 8 < 2 ^ 8
byte_lt n = omega arith

length-bytes_of : (idx k : ℕ) → length (bytes_of idx k) ≡ k
length-bytes_of idx zero = refl
length-bytes_of idx (suc k) = ap suc (length-bytes_of idx k)

-- The code is longer by `k` instructions, the ones before it are what they were, and there is room.
abbrev Longer : Vm → ℕ → Vm → Type 0
Longer v k v' =
    (v'.codesiz ≡ v.codesiz + k)
    × (v'.maxcode ≡ v.maxcode)
    × ((j : ℕ) → j < v.codesiz → v'.code j ≡ v.code j)

emit_at-Longer :
    (w : ℕ) (v : Vm) → v.codesiz < v.maxcode → v.maxcode < 2 ^ 16 → Longer v 1 (emit_at w v)
emit_at-Longer w v h size = (omega (arith, h, size), refl, λ j k. ground (arith, k))

emit_exargs_lem :
    (k : ℕ) (env : Env) (idx : ℕ) (v : Vm)
    → v.codesiz + k < v.maxcode
    → v.maxcode < 2 ^ 16
    → Longer v k (emit_exargs env k idx v)
      × HasExargs (emit_exargs env k idx v).code v.codesiz (bytes_of idx k)
unfolding emit_exargs
emit_exargs_lem zero env idx v h size = ((omega arith, refl, λ j k. refl), tt)
emit_exargs_lem (suc k) env idx v h size =
    let b = idx / 2 ^ (8 * suc k) % 2 ^ 8 in
    let w = vm_makeop 6 b in
    let v1 : Vm = emit_at w v in
    let (n1, m1, before1) = emit_at-Longer w v (omega (arith, h)) size in
    let ((n, m, before), has) = emit_exargs_lem k env idx v1 (omega (arith, h, n1)) size in
    let here : (emit_exargs env k idx v1).code v.codesiz ≡ w =
      before v.codesiz (omega (arith, n1))
      ∙ if_true (v.codesiz == v.codesiz) w (v.code v.codesiz) (ground arith) in
    subst
      (λ (x : Vm).
        Longer v (suc k) (emit_exargs env k idx x)
        × HasExargs (emit_exargs env k idx x).code v.codesiz (bytes_of idx (suc k)))
      (sym (emit_room env w v (omega (arith, h))))
      (
        (omega (arith, n, n1), m, λ j l. before j (omega (arith, l, n1)) ∙ before1 j l),
        (
          byte_lt (idx / 2 ^ (8 * suc k)),
          here,
          subst (λ (p : ℕ). HasExargs (emit_exargs env k idx v1).code p (bytes_of idx k)) n1 has,
        ),
      )

emitted_lem :
    (k op : ℕ) (env : Env) (idx : ℕ) (v : Vm)
    → most_significant 3 idx ≡ k
    → v.codesiz + suc k < v.maxcode
    → v.maxcode < 2 ^ 16
    → Emitted (vm_emit_ex env op idx v) v.codesiz (bytes_of idx k) (vm_makeop op (idx % 2 ^ 8))
unfolding vm_emit_ex
emitted_lem k op env idx v ms h size =
    let w = vm_makeop op (idx % 2 ^ 8) in
    let bs = bytes_of idx k in
    let len = length-bytes_of idx k in
    let x : Vm = emit_exargs env k idx v in
    let ((n, m, before), has) = emit_exargs_lem k env idx v (omega (arith, h)) size in
    let (n', m', before') = emit_at-Longer w x (omega (arith, n, m, h)) (omega (arith, m, size)) in
    let last : (emit_at w x).code (v.codesiz + length bs) ≡ w =
      if_true (v.codesiz + length bs == x.codesiz) w (x.code (v.codesiz + length bs))
        (ground (arith, n, len)) in
    subst (λ (j : ℕ). Emitted (vm_emit env w (emit_exargs env j idx v)).0 v.codesiz bs w) (sym ms)
      (subst (λ (y : Vm). Emitted y v.codesiz bs w)
        (sym (emit_room env w x (omega (arith, n, m, h))))
        (
          omega (arith, n, n', len),
          HasExargs-agree x.code (emit_at w x).code x.codesiz v.codesiz bs before' has
              (omega (arith, n, len)),
          last,
          omega (arith, n, n', m, m', h),
        ))

-- The bytes above the lowest one make up the rest of the number.
gather-bytes_of :
    (idx : ℕ) → idx < 2 ^ 31 → gather (bytes_of idx (most_significant 3 idx)) 0 ≡ idx / 2 ^ 8
gather-bytes_of idx h = elim (most_significant-cases idx h) [
  | inl (e, k) ↦ ap (λ (n : ℕ). gather (bytes_of idx n) 0) e ∙ omega (arith, k)
  | inr (inl (e, k)) ↦ ap (λ (n : ℕ). gather (bytes_of idx n) 0) e ∙ omega (arith, k)
  | inr (inr (inl (e, k))) ↦ ap (λ (n : ℕ). gather (bytes_of idx n) 0) e ∙ omega (arith, k)
  | inr (inr (inr e)) ↦ ap (λ (n : ℕ). gather (bytes_of idx n) 0) e ∙ omega (arith, h)
]

most_significant-le : (k idx : ℕ) → most_significant k idx ≤ k
unfolding most_significant
most_significant-le zero idx = omega arith
most_significant-le (suc k) idx = let below = most_significant-le k idx in ground (arith, below)

-- For an operand below 2^31 and room for four more instructions: where the machine stands at what
-- `vm_emit_ex` has emitted, at the end of the code, with the same block for the code, the interpreter comes, after at most three
-- rounds, to the body of the instruction, with an argument and an extended argument that
-- `vm_extendarg` puts together to the operand, and with `pc` behind the emitted code.
pub vm_emit_ex-plain_loop :
    (env : Env) (op idx f : ℕ) (v v' : Vm)
    → idx < 2 ^ 31
    → op < 2 ^ 8
    → v.codesiz + 4 < v.maxcode
    → v.maxcode < 2 ^ 16
    → v'.code ≡ (vm_emit_ex env op idx v).code
    → v'.codesiz ≡ (vm_emit_ex env op idx v).codesiz
    → v'.maxcode ≡ (vm_emit_ex env op idx v).maxcode
    → v'.pc ≡ v.codesiz
    → (k : ℕ) × (own : ℕ) × (ex : ℕ) × (k ≤ 3)
      × (vm_extendarg own ex ≡ idx)
      × (plain_loop (k + suc f) env 0 v'
          ≡ go_on f env (exec env (vm_opcode_table op) own ex (record v' { pc = v'.codesiz })))
vm_emit_ex-plain_loop env op idx f v v' h small room size code codesiz maxcode pc =
    let k = most_significant 3 idx in
    let bs = bytes_of idx k in
    let low = idx % 2 ^ 8 in
    let le : k ≤ 3 = most_significant-le 3 idx in
    let len = length-bytes_of idx k in
    let (n, has, last, block) = emitted_lem k op env idx v refl (omega (arith, room, le)) size in
    let there : Emitted v' v'.pc bs (vm_makeop op low) = (
      omega (arith, codesiz, n, pc),
      subst (λ (c : Mem). HasExargs c v'.pc bs) (sym code)
          (subst (λ (p : ℕ). HasExargs (vm_emit_ex env op idx v).code p bs) (sym pc) has),
      ap (λ (c : Mem). c (v'.pc + length bs)) code
          ∙ ap (λ (p : ℕ). (vm_emit_ex env op idx v).code (p + length bs)) pc
          ∙ last,
      omega (arith, codesiz, maxcode, block),
    ) in
    let value : vm_extendarg low (gather bs 0) ≡ idx = omega (arith, gather-bytes_of idx h, h) in
    let fuel : k + suc f ≡ rounds_then bs (suc f) =
      omega (arith, rounds_then_lem bs (suc f), len) in
    (
      k,
      low,
      gather bs 0,
      le,
      value,
      ap (λ (n : ℕ). plain_loop n env 0 v') fuel
          ∙ Emitted-run bs op low f env v' there small (omega arith)
              (omega (arith, codesiz, n, len, le, room, size)),
    )
